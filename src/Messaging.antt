-- ===== src/Messaging.antt =====
-- waitbus/_messaging.py: a message that is sent to an agent, the wait for its reply, and the reply.
-- A frame is the JSON object that the client decodes, made of a stored row as waitbus/broadcast.py
-- makes it; `summary` is the text that `_summary_for` makes of a row. The columns msg_* are texts or null.
-- `convert` stands for `msgspec.convert(frame, EventFrame, strict=False)`, with `none` for its error.
pub mod Replies
pub mod Captured
pub mod Exchange
pub mod Passed
pub mod Truncated
pub mod Tests
use waitbus.Prelude.{
  ℕ, String, Bool, true, false, ◌&&◌, ◌||◌, Option, none, some, List, [], ◌∷◌, ◌++◌, append_text,
  str_eq, if◌then◌else◌,
}
use waitbus.Frame.{Bytes, max_frame_bytes}
use waitbus.Json.{get, as_str, ℤ, pos, Json, null, int, str, obj, Fields, end, field}
use waitbus.Client.{
  is_text, await_predicate, Rejected, Turn, Ended, returns, rejects, crashes, still_waiting,
}
use waitbus.Emit.{
  emit, EventInsert, Event, Stored, Table, value_error, Outcome, done, raised, EmitResult, After,
}

-- `_emit_agent_message`, up to the insert
unfoldable pub agent_event :
    ℤ → String → String → String → String → Option String → String → Option String → EventInsert
agent_event received_at delivery_id to sender correlation_id reply_to body thread = record {
  delivery_id = delivery_id;
  source = "agent";
  event_type = "agent_message";
  owner = "local";
  repo = "agents";
  received_at = received_at;
  payload_json = "{}";
  ingest_method = "api";
  run_id = none;
  workflow_name = none;
  head_branch = none;
  head_sha = none;
  status = none;
  conclusion = none;
  job_id = none;
  job_name = none;
  parent_run_id = none;
  alert_name = none;
  alert_severity = none;
  alert_fingerprint = none;
  msg_to = some to;
  msg_from = some sender;
  msg_correlation_id = some correlation_id;
  msg_reply_to = reply_to;
  msg_thread = thread;
  msg_body = some body;
}

abbrev pub text_json : Option String → Json
text_json none = null
text_json (some s) = str s

abbrev pub int_json : Option ℤ → Json
int_json none = null
int_json (some z) = int z

-- The `fields` of `_row_to_frame`
unfoldable pub frame_fields : EventInsert → Fields
frame_fields c = field "source" (str c.source) (
    field "event_type" (str c.event_type) (
      field "owner" (str c.owner) (
        field "repo" (str c.repo) (
          field "run_id" (int_json c.run_id) (
            field "workflow_name" (text_json c.workflow_name) (
              field "head_branch" (text_json c.head_branch) (
                field "head_sha" (text_json c.head_sha) (
                  field "status" (text_json c.status) (
                    field "conclusion" (text_json c.conclusion) (
                      field "ingest_method" (str c.ingest_method) (
                        field "job_id" (int_json c.job_id) (
                          field "job_name" (text_json c.job_name) (
                            field "parent_run_id" (int_json c.parent_run_id) (
                              field "alert_name" (text_json c.alert_name) (
                                field "alert_severity" (text_json c.alert_severity) (
                                  field "alert_fingerprint" (text_json c.alert_fingerprint) (
                                    field "msg_to" (text_json c.msg_to) (
                                      field "msg_from" (text_json c.msg_from) (
                                        field "msg_correlation_id" (text_json c.msg_correlation_id)
                                          (field "msg_reply_to" (text_json c.msg_reply_to) (
                                            field "msg_thread" (text_json c.msg_thread) (
                                              field "msg_body" (text_json c.msg_body)
                                                end))))))))))))))))))))))

-- `_row_to_frame`
unfoldable pub row_to_frame : (Event → String) → Event → Fields
unfolding frame_fields
row_to_frame summary e = field "event_id" (str e.event_id) (
    field "event_type" (str e.columns.event_type) (
      field "owner" (str e.columns.owner) (
        field "repo" (str e.columns.repo) (
          field "received_at" (int e.columns.received_at) (
            field "delivery_id" (str e.columns.delivery_id) (
              field "summary" (str (summary e)) (
                field "fields" (obj (frame_fields e.columns))
                  (field "kind" (str "event") end))))))))

-- The stub that `_serialize` puts in the place of an oversize event
unfoldable pub truncated_frame : Event → Fields
truncated_frame e = field "event_id" (str e.event_id) (
    field "reason" (str "payload exceeds MAX_FRAME_BYTES") (
      field "correlation_id" (text_json e.columns.msg_correlation_id)
        (field "max_frame_bytes" (int (pos max_frame_bytes)) (field "kind" (str "truncated") end))))

-- `_reply_decide`, by `frame.get("fields")`
unfoldable pub is_reply : String → String → Fields → Json → Bool
unfolding get is_text
is_reply correlation_id sender frame (obj fields) =
    is_text correlation_id (get "msg_correlation_id" fields) && is_text sender (get "msg_to" fields)
is_reply correlation_id sender frame _ =
    is_text "truncated" (get "kind" frame) && is_text correlation_id (get "correlation_id" frame)

unfoldable pub reply_decide : String → String → Fields → List Fields → List Fields × Bool
unfolding is_reply get
reply_decide correlation_id sender frame captured =
    if is_reply correlation_id sender frame (get "fields" frame)
    then (captured ++ frame ∷ [], true)
    else (captured, false)

-- `_db.fetch_event_by_id`
unfoldable pub fetch_event_by_id : String → List Stored → Option Event
fetch_event_by_id id [] = none
fetch_event_by_id id (r ∷ rs) =
    let later = fetch_event_by_id id rs in
    if str_eq r.event.event_id id then some r.event else later

-- How a call ends: with a reply, with `None`, with `BroadcastConnectionError` or a typed reject, with
-- another exception, or the turns given are used up while it waits.
pub data Reply : Type 0 where
  got : Fields → Reply
  nothing connection_dropped failed waits : Reply
  refuses : Rejected → Reply

module _ (loads : Bytes → Option Json) (convert : Fields → Option Fields)
    (summary : Event → String) where
  -- `_refetch_reply`; the id of a stub is a text.
  unfoldable pub refetch_reply : Json → Table → Reply
  unfolding fetch_event_by_id row_to_frame
  refetch_reply (str id) t = elim (fetch_event_by_id id t.rows) [
    | none ↦ nothing
    | some e ↦ got (row_to_frame summary e)
  ]
  refetch_reply _ t = failed

  unfoldable pub captured_reply : Table → List Fields → Reply
  unfolding refetch_reply is_text get
  captured_reply t [] = nothing
  captured_reply t (frame ∷ more) =
      let again = refetch_reply (get "event_id" frame) t in
      let whole = elim (convert frame) as (λ o. Reply) [ none ↦ failed | some reply ↦ got reply ] in
      if is_text "truncated" (get "kind" frame) then again else whole

  unfoldable pub reply_of : Table → List Fields → Ended → Reply
  unfolding captured_reply
  reply_of t captured (returns w) =
      let reply = captured_reply t captured in
      if w.framing_error || w.peer_closed
      then connection_dropped
      else if w.matched
      then reply
      else nothing
  reply_of t captured (rejects r) = refuses r
  reply_of t captured crashes = failed
  reply_of t captured still_waiting = waits

  -- `_await_reply`, over the turns of a subscriber that is open; `t` is the table at its end.
  unfoldable pub await_reply : String → String → Option ℕ → ℕ → List Turn → Table → Reply
  unfolding reply_of await_predicate reply_decide
  await_reply correlation_id sender timeout start ts t =
      let (e, ended) =
        await_predicate loads (reply_decide correlation_id sender)
          (record { deadline = timeout; idle_reset = false }) start ts none [] in
      reply_of t e.state ended

-- `value or default`
unfoldable pub or_else : Option String → String → String
or_else none default = default
or_else (some s) default = if str_eq s "" then default else s

-- The message of `request`; `fresh` is the id that `_ulid.new` returns for it.
unfoldable pub request_event :
    ℤ
    → String
    → String
    → String
    → Option String
    → Option String
    → String
    → Option String
    → EventInsert
unfolding agent_event or_else
request_event received_at to body sender reply_to correlation_id fresh thread =
    let correlation = or_else correlation_id fresh in
    agent_event received_at
      (append_text "agent:" (append_text sender (append_text ":request:" correlation))) to sender
      correlation (some (or_else reply_to (append_text sender (append_text "." correlation)))) body
      thread

-- `value if value is not None else default`
unfoldable pub given_or : Option String → Option String → Option String
given_or none default = default
given_or (some s) default = some s

-- The message of `respond`, of the `fields` of the request; `none` is `ValueError`.
unfoldable pub respond_event :
    ℤ → Fields → String → Option String → Option String → Option EventInsert
unfolding agent_event get as_str given_or
respond_event received_at fields body sender thread =
    elim (as_str (get "msg_correlation_id" fields)) [
      | none ↦ none
      | some correlation ↦ elim (as_str (get "msg_from" fields)) [
        | none ↦ none
        | some recipient ↦ elim (given_or sender (as_str (get "msg_to" fields))) [
          | none ↦ none
          | some from ↦ some (
              agent_event received_at
                (append_text "agent:" (append_text from (append_text ":reply:" correlation)))
                recipient from correlation (as_str (get "msg_reply_to" fields)) body
                (given_or thread (as_str (get "msg_thread" fields))))
        ]
      ]
    ]

-- `respond`
unfoldable pub respond :
    ℤ
    → Fields
    → String
    → Option String
    → Option String
    → String
    → Table
    → Outcome EmitResult × After
unfolding respond_event emit
respond received_at fields body sender thread event_id t =
    elim (respond_event received_at fields body sender thread) [
      | none ↦ (raised value_error, record { table = t; rung = false })
      | some event ↦ emit event event_id t
    ]

-- `request`. `subscribe` is what the wire holds for a subscriber with a cursor, and `t'` the table when
-- the wait ends; `event_id` is the id that `_ulid.new` returns for the row.
unfoldable pub request :
    (Bytes → Option Json)
    → (Fields → Option Fields)
    → (Event → String)
    → (String → List Turn)
    → ℤ
    → String
    → String
    → String
    → Option ℕ
    → Option String
    → Option String
    → String
    → Option String
    → String
    → ℕ
    → Table
    → Table
    → Reply × After
unfolding request_event emit await_reply or_else
request loads convert summary subscribe received_at to body sender timeout reply_to correlation_id
      fresh thread event_id start t t' =
    let (result, after) =
      emit (request_event received_at to body sender reply_to correlation_id fresh thread) event_id
        t in
    (
      elim result [
        | raised x ↦ failed
        | done r ↦
            await_reply loads convert summary (or_else correlation_id fresh) sender timeout start
              (subscribe r.event.event_id) t'
      ],
      after,
    )
