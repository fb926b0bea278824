-- ===== src/Messaging/Exchange.antt =====
-- waitbus/_messaging.py: a request and its reply, from the insert of the one to the return of the other.
use waitbus.Prelude.{
  ℕ, String, ◌≡◌, sym, ap, ◌∙◌, true, Option, none, some, List, [], ◌∷◌, ◌++◌, eq_refl,
}
use waitbus.Frame.{Bytes}
use waitbus.Json.{ℤ, Json, obj, Fields}
use waitbus.Client.{
  is_text, kind_of, advance_cursor, take_frame, by_kind, read_json, await_loop, await_predicate,
  frame_bytes, Turn,
}
use waitbus.Emit.{emit, EventInsert, Event, Table, Outcome, done, raised, EmitResult}
use waitbus.Messaging.Passed.{AllPassed, await_reply-passed}
use waitbus.Messaging.{
  agent_event, text_json, frame_fields, row_to_frame, is_reply, reply_decide, captured_reply,
  reply_of, await_reply, or_else, request_event, respond_event, request, Reply, got, failed,
}

-- The correlation and the recipient of a reply
reply-addressed :
    (time time' : ℤ) (to body sender fresh answer : String)
    (reply_to correlation_id thread : Option String) (reply : EventInsert)
    → respond_event time'
        (frame_fields (request_event time to body sender reply_to correlation_id fresh thread))
        answer
        none
        none
      ≡ some reply
    → (reply.msg_correlation_id ≡ some (or_else correlation_id fresh))
      × (reply.msg_to ≡ some sender)
unfolding respond_event request_event frame_fields agent_event
reply-addressed time time' to body sender fresh answer reply_to correlation_id thread reply e =
    (ap (λ o. correlation_of o) (sym e), ap (λ o. recipient_of o) (sym e))
  where
    correlation_of : Option EventInsert → Option String
    correlation_of none = none
    correlation_of (some c) = c.msg_correlation_id

    recipient_of : Option EventInsert → Option String
    recipient_of none = none
    recipient_of (some c) = c.msg_to

module _ (loads : Bytes → Option Json) (convert : Fields → Option Fields) (summary : Event → String)
    (subscribe : String → List Turn) where
  answered :
      (correlation sender : String) (start : ℕ) (first : Turn) (ts : List Turn) (t : Table)
      (reply : Event) (bytes : Bytes) (g : Fields)
      → first.answer ≡ frame_bytes bytes
      → loads bytes ≡ some (obj (row_to_frame summary reply))
      → reply.columns.msg_correlation_id ≡ some correlation
      → reply.columns.msg_to ≡ some sender
      → convert (row_to_frame summary reply) ≡ some g
      → await_reply loads convert summary correlation sender none start (first ∷ ts) t ≡ got g
  unfolding await_reply await_predicate await_loop read_json by_kind kind_of take_frame
      advance_cursor reply_decide is_reply is_text reply_of captured_reply row_to_frame frame_fields
  answered correlation sender start first ts t reply bytes g a l c r v =
      let asked : is_text correlation (text_json reply.columns.msg_correlation_id) ≡ true =
        ap (λ o. is_text correlation (text_json o)) c ∙ eq_refl correlation in
      let asker : is_text sender (text_json reply.columns.msg_to) ≡ true =
        ap (λ o. is_text sender (text_json o)) r ∙ eq_refl sender in
      let whole : captured_reply loads convert summary t (row_to_frame summary reply ∷ []) ≡ got g =
        ap (λ (o : Option Fields). elim o as (λ _. Reply) [ none ↦ failed | some x ↦ got x ]) v in
      rw (a, l, asked, asker) whole

  -- A request without a deadline that has been stored, and whose subscriber reads the frame of the reply
  -- that `respond` makes of it, behind any control frames, such as the acknowledgement of its
  -- subscription, frames that cannot be decoded, and data frames that do not answer it: the request
  -- returns the frame of that reply.
  pub request-respond_event :
      (time time' : ℤ) (to body sender fresh answer : String)
      (reply_to correlation_id thread : Option String) (event_id : String) (start : ℕ)
      (pre : List Turn) (first : Turn) (ts : List Turn) (t t' : Table) (r : EmitResult)
      (reply : EventInsert) (id : String) (bytes : Bytes) (g : Fields)
      → (emit (request_event time to body sender reply_to correlation_id fresh thread) event_id t).0
        ≡ done r
      → respond_event time'
          (frame_fields (request_event time to body sender reply_to correlation_id fresh thread))
          answer
          none
          none
        ≡ some reply
      → subscribe r.event.event_id ≡ pre ++ first ∷ ts
      → AllPassed (or_else correlation_id fresh) sender loads pre
      → first.answer ≡ frame_bytes bytes
      → loads bytes ≡ some (obj (row_to_frame summary (record { event_id = id; columns = reply })))
      → convert (row_to_frame summary (record { event_id = id; columns = reply })) ≡ some g
      → (request loads convert summary subscribe time to body sender none reply_to correlation_id
          fresh thread event_id start t t').0
        ≡ got g
  unfolding request
  request-respond_event time time' to body sender fresh answer reply_to correlation_id thread
        event_id start pre first ts t t' r reply id bytes g stored replied opened p a l v =
      let correlation = or_else correlation_id fresh in
      let (c, s) =
        reply-addressed time time' to body sender fresh answer reply_to correlation_id thread reply
          replied in
      ap
        (λ (o : Outcome EmitResult). elim o as (λ _. Reply) [
          | raised x ↦ failed
          | done x ↦
              await_reply loads convert summary correlation sender none start
                (subscribe x.event.event_id) t'
        ])
        stored
      ∙ ap (λ l'. await_reply loads convert summary correlation sender none start l' t') opened
      ∙ await_reply-passed correlation sender loads convert summary pre (first ∷ ts) start t' p
      ∙ answered correlation sender start first ts t' (record { event_id = id; columns = reply })
          bytes g a l c s v
