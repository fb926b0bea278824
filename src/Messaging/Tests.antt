-- ===== src/Messaging/Tests.antt =====
-- Runs of the model of waitbus/_messaging.py.
use waitbus.Prelude.{
  ℕ, String, ◌≡◌, refl, ◌↔◌, true, Option, none, some, List, [], ◌∷◌, ◌==◌, if◌then◌else◌,
}
use waitbus.Frame.{Bytes}
use waitbus.Json.{pos, Json, str, obj, Fields, end, field}
use waitbus.Client.{kind_of, frame_bytes, Turn}
use waitbus.Emit.{
  is_too_early, insert_or_ignore, insert_row, insert_event, read_back, emitted, emit, EventInsert,
  Event, Table, done, EmitResult,
}
use waitbus.Messaging.{
  agent_event, frame_fields, row_to_frame, truncated_frame, is_reply, reply_decide,
  fetch_event_by_id, await_reply, or_else, request_event, respond_event, request, got,
}
use waitbus.Messaging.Replies.{reply_decide-respond_event}
use waitbus.Messaging.Passed.{AllPassed}
use waitbus.Messaging.Truncated.{await_reply-truncated_frame}
use waitbus.Messaging.Exchange.{request-respond_event}

abbrev question : EventInsert
question = request_event (pos 1700000000000000000) "bob" "ask" "alice" none none "01X" (some "t")

abbrev answer_event : String → EventInsert
answer_event to =
    agent_event (pos 1700000000000000001) "agent:bob:reply:01X" to "bob" "01X" (some "alice.01X")
      "yes" none

abbrev stored : String → String → Event
stored id to = record { event_id = id; columns = answer_event to }

abbrev replied : EventInsert
replied =
    agent_event (pos 9) "agent:bob:reply:01X" "alice" "bob" "01X" (some "alice.01X") "yes"
      (some "t")

abbrev some_summary : Event → String
some_summary e = "agent_message"

-- A question to bob, bob's answer to carol, its answer to alice, and the answer to carol cut to a stub
unfoldable some_loads : Bytes → Option Json
unfolding row_to_frame truncated_frame agent_event request_event
some_loads (b ∷ []) =
    if b == 1
    then some (obj (row_to_frame some_summary (record { event_id = "01A"; columns = question })))
    else if b == 2
    then some (obj (row_to_frame some_summary (stored "01B" "carol")))
    else if b == 3
    then some (obj (row_to_frame some_summary (stored "01C" "alice")))
    else if b == 4
    then some (obj (truncated_frame (stored "01B" "carol")))
    else if b == 5
    then some (obj (row_to_frame some_summary (record { event_id = "01R"; columns = replied })))
    else if b == 6
    then some (obj (field "kind" (str "subscribe_ack") end))
    else none
some_loads _ = none

abbrev at_clock : ℕ → Turn
at_clock n = record { now = n; answer = frame_bytes (n ∷ []); writable = true; after = n }

abbrev whole : Fields → Option Fields
whole f = some f

abbrev store : Table
store = record { rows = record { seq = 2; event = stored "01B" "carol" } ∷ []; last_seq = 2 }

reply_decide-respond_event_example :
    (reply : EventInsert) × (respond_event (pos 5) (frame_fields question) "yes" none none
      ≡ some reply)
    × (reply.msg_body ≡ some "yes")
    × (reply.msg_thread ≡ some "t")
    × ((summary : Event → String) (id asked asker : String) (captured : List Fields)
        → ((reply_decide asked asker
              (row_to_frame summary (record { event_id = id; columns = reply }))
              captured).1
            ≡ true)
          ↔ ((asked ≡ or_else none "01X") × (asker ≡ "alice")))
reply_decide-respond_event_example =
    reply_decide-respond_event (pos 1700000000000000000) (pos 5) "bob" "ask" "alice" "01X" "yes"
      none none (some "t")

stub_read : some_loads (4 ∷ []) ≡ some (obj (truncated_frame (stored "01B" "carol")))
unfolding some_loads
stub_read = refl

correlates : (stored "01B" "carol").columns.msg_correlation_id ≡ some "01X"
unfolding agent_event
correlates = refl

is_stored : fetch_event_by_id "01B" store.rows ≡ some (stored "01B" "carol")
unfolding fetch_event_by_id
is_stored = refl

-- The acknowledgement and the question itself come first.
abbrev before : List Turn
before = at_clock 6 ∷ at_clock 1 ∷ []

passed_before : AllPassed "01X" "alice" some_loads before
unfolding some_loads kind_of is_reply
passed_before = (refl, (refl, tt))

-- Alice is handed the answer to carol.
await_reply-truncated_frame_example :
    await_reply some_loads whole some_summary "01X" "alice" none 0
      (at_clock 6 ∷ at_clock 1 ∷ at_clock 4 ∷ [])
      store
    ≡ got (row_to_frame some_summary (stored "01B" "carol"))
await_reply-truncated_frame_example =
    await_reply-truncated_frame "01X" "alice" some_loads whole some_summary 0 before (at_clock 4) []
      store (stored "01B" "carol") (4 ∷ []) passed_before refl stub_read correlates is_stored

abbrev inbox : String → List Turn
inbox since = at_clock 6 ∷ at_clock 1 ∷ at_clock 5 ∷ []

abbrev sent : EmitResult
sent = record { inserted = true; event = record { event_id = "01Q"; columns = question } }

abbrev no_rows : Table
no_rows = record { rows = []; last_seq = 0 }

is_sent : (emit question "01Q" no_rows).0 ≡ done sent
unfolding emit emitted insert_event insert_row insert_or_ignore is_too_early read_back request_event
    agent_event
is_sent = refl

is_replied : respond_event (pos 9) (frame_fields question) "yes" none none ≡ some replied
unfolding respond_event request_event frame_fields agent_event
is_replied = refl

reply_read :
    some_loads (5 ∷ [])
    ≡ some (obj (row_to_frame some_summary (record { event_id = "01R"; columns = replied })))
unfolding some_loads
reply_read = refl

request-respond_event_example :
    (request some_loads whole some_summary inbox
      (pos 1700000000000000000)
      "bob"
      "ask"
      "alice"
      none
      none
      none
      "01X"
      (some "t")
      "01Q"
      0
      no_rows
      store).0
    ≡ got (row_to_frame some_summary (record { event_id = "01R"; columns = replied }))
unfolding or_else
request-respond_event_example =
    request-respond_event some_loads whole some_summary inbox (pos 1700000000000000000) (pos 9)
      "bob" "ask" "alice" "01X" "yes" none none (some "t") "01Q" 0 before (at_clock 5) [] no_rows
      store sent replied "01R" (5 ∷ [])
      (row_to_frame some_summary (record { event_id = "01R"; columns = replied })) is_sent
      is_replied refl passed_before refl reply_read refl
