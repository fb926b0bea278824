-- ===== src/Emit/Tests.antt =====
-- Runs of the model of waitbus/_emit.py.
use waitbus.Prelude.{
  ℕ, String, ◌≡◌, refl, Bool, true, false, Option, none, some, List, [], ◌∷◌, ◌++◌, str_eq,
  if◌then◌else◌, take, drop,
}
use waitbus.Frame.{Bytes, pack}
use waitbus.Json.{pos}
use waitbus.Emit.{
  has_event_id, insert_or_ignore, insert_row, insert_event, emitted, emit, insert_each, batch_end,
  emit_batch, EventInsert, Event, Table, value_error, done, raised,
}
use waitbus.Emit.Grows.{empty, daemon_rows, Writes-Ascending, none_yet, emits, emits_batch}
use waitbus.Emit.Retry.{NewIds, emit_batch-retry}
use waitbus.Broadcast.{
  replay_limit, serialize, rows_above, seq_for_event_id, current_max_snapshot, matches, deliver,
  fan_out_one, Row,
}
use waitbus.Broadcast.Feed.{feed, select, wants, AllAbove, Ascending}
use waitbus.Broadcast.Table.{HasIds, snapshot_seq}
use waitbus.Broadcast.Handshake.{registered, replay, open_gate, Request, alive}
use waitbus.Emit.Delivered.{emitted_exactly_once}
use waitbus.Broadcast.Acks.{sends_ack}
use waitbus.Broadcast.Turns.{lives, Happening, row_swept, beaten, made_writable}
use waitbus.Broadcast.Session.{HandedOver}
use waitbus.Subscriber.{enqueue, on_writable, Send, accepts, would_block, Queued, Subscriber}
use waitbus.Subscriber.Runs.{fresh}

abbrev event : String → EventInsert
event id = record {
  delivery_id = id;
  source = "pytest";
  event_type = "pytest_session";
  owner = "local";
  repo = "pytest";
  received_at = pos 1700000000000000000;
  payload_json = "{}";
  ingest_method = "api";
  run_id = none;
  workflow_name = none;
  head_branch = none;
  head_sha = none;
  status = none;
  conclusion = none;
  job_id = none;
  job_name = none;
  parent_run_id = none;
  alert_name = none;
  alert_severity = none;
  alert_fingerprint = none;
  msg_to = none;
  msg_from = none;
  msg_correlation_id = none;
  msg_reply_to = none;
  msg_thread = none;
  msg_body = none;
}

abbrev seconds : EventInsert
seconds = record (event "late") { received_at = pos 1700000000 }

abbrev batch : String → String → String → List (Option (EventInsert × String))
batch i j k = some (event "a", i) ∷ some (event "b", j) ∷ some (event "a", k) ∷ []

-- The third event of the batch is the first again.
two_inserted : (emit_batch (batch "01A" "01B" "01C") empty).0 ≡ done 2
unfolding emit_batch insert_event insert_row insert_or_ignore
two_inserted = refl

-- An event with its time in seconds ends the batch, and nothing is committed.
nothing_committed :
    emit_batch (some (event "a", "01A") ∷ some (seconds, "01B") ∷ []) empty
    ≡ (raised value_error, record { table = empty; rung = false })
unfolding emit_batch insert_event insert_row insert_or_ignore
nothing_committed = refl

new_ids : NewIds [] (batch "01A" "01B" "01C")
unfolding has_event_id
new_ids = ((refl, (refl, (refl, tt))), ((refl, (refl, tt)), ((refl, tt), tt)))

emit_batch-retry_example :
    emit_batch (batch "02A" "02B" "02C") (emit_batch (batch "01A" "01B" "01C") empty).1.table ≡ (
      done 0,
      record { table = (emit_batch (batch "01A" "01B" "01C") empty).1.table; rung = false },
    )
emit_batch-retry_example =
    emit_batch-retry (batch "01A" "01B" "01C") (batch "02A" "02B" "02C") empty 2 new_ids
      (refl, (refl, (refl, tt))) two_inserted

abbrev some_text : Event → Bytes
some_text e = 1 ∷ []

abbrev after_one : Table
after_one = (emit (event "a") "01A" empty).1.table

abbrev after_two : Table
after_two = (emit_batch (batch "02A" "02B" "02C") after_one).1.table

abbrev rows_of : Table → List Row
rows_of table = daemon_rows some_text some_text table.rows

Writes-Ascending_example :
    (rest : List Row) × (rows_of after_two ≡ rows_of after_one ++ rest)
    × HasIds (rows_of after_one)
    × AllAbove 0 (rows_of after_one ++ rest)
    × Ascending (rows_of after_one ++ rest)
Writes-Ascending_example =
    Writes-Ascending some_text some_text (emits empty empty (event "a") "01A" (none_yet empty))
      (emits_batch after_one after_one (batch "02A" "02B" "02C") (none_yet after_one))

-- The two rows have texts of their own.
abbrev name_text : Event → Bytes
name_text e = if str_eq e.event_id "01A" then 11 ∷ [] else 12 ∷ []

abbrev named : Table → List Row
named table = daemon_rows name_text some_text table.rows

abbrev row : ℕ → String → ℕ → Row
row seq id byte = record {
  seq = seq;
  event_id = some id;
  owner = "local";
  repo = "pytest";
  event_type = "pytest_session";
  event_json = byte ∷ [];
  stub_json = 1 ∷ [];
}

abbrev kernel : List Send
kernel = accepts 100 ∷ accepts 3 ∷ would_block ∷ []

abbrev request : Request
request = record {
  filters = "local/*" ∷ [];
  event_types = "pytest_session" ∷ [];
  since = some "00X";
}

abbrev ack : Bytes
ack = 0 ∷ 0 ∷ 0 ∷ 1 ∷ 65 ∷ []

abbrev client : Subscriber
client = registered (fresh kernel) true 1000 (named after_one) request

abbrev after_three : Table
after_three = (emit (event "c") "03A" after_two).1.table

abbrev rounds : List (List Row)
rounds = [] ∷ (row 1 "01A" 11 ∷ []) ∷ []

abbrev turns : List Happening
turns = row_swept (row 2 "02B" 12) ∷ beaten ack ∷ made_writable ∷ row_swept (row 3 "03A" 12) ∷ []

abbrev frame : ℕ → Bytes
frame byte = 0 ∷ 0 ∷ 0 ∷ 1 ∷ byte ∷ []

abbrev left : Bytes → Bool → Queued
left b delivers = record { remaining = b; counts_as_delivered = delivers }

abbrev s1 : Subscriber
s1 = record client { sock = record { sent = ack; answers = accepts 3 ∷ would_block ∷ [] } }

abbrev s2 : Subscriber
s2 = record s1 {
  sock = record { sent = ack ++ take 3 (frame 11); answers = would_block ∷ [] };
  tx_queue = left (drop 3 (frame 11)) true ∷ [];
  draining = true;
  lag_count = 1;
}

abbrev s3 : Subscriber
s3 = record s2 { pre_ack_buffer = none }

abbrev s4 : Subscriber
s4 = record s3 {
  sock = record { sent = ack ++ take 3 (frame 11); answers = [] };
  tx_queue =
      left (drop 3 (frame 11)) true
      ∷ left (frame 12) true
      ∷ left ack false
      ∷ left (frame 12) true
      ∷ [];
  lag_count = 4;
  replay_watermark = none;
}

rows_one : named after_one ≡ row 1 "01A" 11 ∷ []
unfolding emit emitted insert_event insert_row insert_or_ignore
rows_one = refl

rows_two : named after_two ≡ named after_one ++ row 2 "02B" 12 ∷ []
unfolding emit emitted emit_batch batch_end insert_each insert_event insert_row insert_or_ignore
rows_two = refl

rows_three : named after_three ≡ named after_one ++ row 2 "02B" 12 ∷ row 3 "03A" 12 ∷ []
unfolding emit emitted emit_batch batch_end insert_each insert_event insert_row insert_or_ignore
rows_three = refl

to_s1 : sends_ack rounds ack client ≡ some s1
unfolding sends_ack replay feed fan_out_one serialize deliver registered pack matches enqueue emit
    emitted insert_event insert_row insert_or_ignore emit_batch batch_end insert_each
    current_max_snapshot
to_s1 = refl

to_s2 : replay (named after_two) "00X" (some (snapshot_seq (named after_one))) s1 ≡ alive s2
unfolding sends_ack replay feed fan_out_one serialize deliver registered pack matches enqueue emit
    emitted insert_event insert_row insert_or_ignore emit_batch batch_end insert_each
    current_max_snapshot
to_s2 = refl

to_s3 : open_gate s2 ≡ (s3, false)
unfolding sends_ack replay feed fan_out_one serialize deliver registered pack matches enqueue emit
    emitted insert_event insert_row insert_or_ignore emit_batch batch_end insert_each
    current_max_snapshot open_gate
to_s3 = refl

to_s4 : lives turns s3 ≡ some s4
unfolding sends_ack replay feed fan_out_one serialize deliver registered pack matches enqueue emit
    emitted insert_event insert_row insert_or_ignore emit_batch batch_end insert_each
    current_max_snapshot open_gate lives on_writable
to_s4 = refl

-- The first row is replayed, its pass is skipped, and the other rows are live.
emitted_exactly_once_example :
    HandedOver ack
      (select (wants ("local/*" ∷ []) ("pytest_session" ∷ [])) (
        take replay_limit
          (rows_above (seq_for_event_id (named after_two) "00X") none (named after_one))
        ++ row 2 "02B" 12 ∷ row 3 "03A" 12 ∷ []))
      turns
      s4
emitted_exactly_once_example =
    emitted_exactly_once name_text some_text kernel true 1000 request "00X" ack after_one after_two
      after_three [] (row 1 "01A" 11 ∷ []) (row 2 "02B" 12 ∷ []) (row 3 "03A" 12 ∷ []) rounds turns
      s1 s2 s3 s4 (emits empty empty (event "a") "01A" (none_yet empty))
      (emits_batch after_one after_one (batch "02A" "02B" "02C") (none_yet after_one))
      (emits after_two after_two (event "c") "03A" (none_yet after_two)) rows_one rows_two
      rows_three refl tt refl to_s1 to_s2 to_s3 to_s4
