-- ===== src/Broadcast/Tests.antt =====
-- Runs of the model of waitbus/broadcast.py's `Broadcast`.
use waitbus.Prelude.{
  ℕ, zero, suc, ◌≤◌, ◌<◌, String, ◌≡◌, refl, ap, true, false, none, some, List, [], ◌∷◌, ◌++◌,
  arith, length, take, drop,
}
use waitbus.Frame.{Bytes, pack, frame_too_large, ok, err}
use waitbus.Subscriber.{
  lag_limit, new, queued_bytes, enqueue, on_writable, Send, accepts, would_block, broken, Queued,
  Subscriber,
}
use waitbus.Subscriber.Runs.{fresh}
use waitbus.Subscribe.{
  filter_re, validate_subscribe_filters, validate_subscribe_event_types,
  validate_subscribe_envelope, validate_since_cursor,
}
use waitbus.Broadcast.{
  sweep_limit, replay_limit, serialize, rows_above, seq_for_event_id, current_max_snapshot, matches,
  deliver, fan_out_one, find, fan_out, beat_one, heartbeat, pass_rows, broadcast_pass, Row, Daemon,
}
use waitbus.Broadcast.Handshake.{
  judge, registered, replay, open_gate, ack_round, Request, bad_version, accepted, alive, acked,
  unsent,
}
use waitbus.Broadcast.Feed.{feed, select, wants, Ascending}
use waitbus.Broadcast.Isolation.{Distinct, feed_found, find-pass_rows, heartbeat-enqueue}
use waitbus.Broadcast.Sweep.{broadcast_pass-sweeps, broadcast_pass-stuck}
use waitbus.Json.{pos, bool, int, str, arr, nil, cons, Fields, end, field}
use waitbus.Broadcast.Beat.{heartbeat-registered, ack_round-beat_one, beat_one-ack_round}
use waitbus.Broadcast.Acks.{sends_ack}
use waitbus.Broadcast.Turns.{lives, Happening, row_swept, beaten, made_writable}
use waitbus.Broadcast.Session.{subscription_exactly_once, HandedOver}

abbrev row : ℕ → String → ℕ → Row
row seq id byte = record {
  seq = seq;
  event_id = some id;
  owner = "octo";
  repo = "hello";
  event_type = "push";
  event_json = byte ∷ [];
  stub_json = 0 ∷ [];
}

abbrev table : List Row
table = row 1 "a" 11 ∷ row 2 "b" 12 ∷ row 4 "c" 14 ∷ []

abbrev later : List Row
later = row 5 "d" 15 ∷ row 7 "e" 17 ∷ []

-- The acknowledgement goes out in two parts, and the first frame of the replay is cut.
abbrev kernel : List Send
kernel =
    would_block
    ∷ accepts 2
    ∷ accepts 100
    ∷ accepts 3
    ∷ accepts 100
    ∷ accepts 100
    ∷ accepts 100
    ∷ accepts 100
    ∷ []

abbrev request : Request
request = record { filters = "octo/*" ∷ []; event_types = "push" ∷ []; since = some "a" }

abbrev ack : Bytes
ack = 0 ∷ 0 ∷ 0 ∷ 1 ∷ 65 ∷ []

abbrev client : Subscriber
client = registered (fresh kernel) true 1000 table request

abbrev frame : ℕ → Bytes
frame byte = 0 ∷ 0 ∷ 0 ∷ 1 ∷ byte ∷ []

-- Before the first two `send`s the row `c` is swept again, and `d` is buffered.
abbrev rounds : List (List Row)
rounds = (row 4 "c" 14 ∷ []) ∷ [] ∷ (row 5 "d" 15 ∷ []) ∷ [] ∷ []

abbrev turns : List Happening
turns = beaten (frame 72) ∷ made_writable ∷ row_swept (row 7 "e" 17) ∷ []

abbrev left : Bytes → Queued
left b = record { remaining = b; counts_as_delivered = true }

abbrev takes_all : List Send
takes_all = accepts 100 ∷ accepts 100 ∷ accepts 100 ∷ accepts 100 ∷ []

abbrev s1 : Subscriber
s1 = record client {
  sock = record { sent = ack; answers = accepts 3 ∷ takes_all };
  pre_ack_buffer = some (frame 15 ∷ []);
  pre_ack_buffered_bytes = 5;
  replay_watermark = none;
}

abbrev s2 : Subscriber
s2 = record s1 {
  sock = record { sent = ack ++ take 3 (frame 12); answers = takes_all };
  tx_queue = left (drop 3 (frame 12)) ∷ left (frame 14) ∷ [];
  draining = true;
  lag_count = 2;
}

abbrev s3 : Subscriber
s3 = record s2 {
  tx_queue = left (drop 3 (frame 12)) ∷ left (frame 14) ∷ left (frame 15) ∷ [];
  lag_count = 3;
  pre_ack_buffer = none;
  pre_ack_buffered_bytes = 0;
}

-- The acknowledgement, the replayed `b` and `c`, the buffered `d` and a heartbeat are sent, and the live
-- `e` is queued.
abbrev s4 : Subscriber
s4 = record s3 {
  sock = record { sent = ack ++ frame 12 ++ frame 14 ++ frame 15 ++ frame 72; answers = [] };
  tx_queue = left (frame 17) ∷ [];
  lag_count = 1;
  delivered = 3;
}

to_s1 : sends_ack rounds ack client ≡ some s1
unfolding sends_ack feed fan_out_one serialize deliver registered pack
to_s1 = refl

to_s2 : replay (table ++ row 5 "d" 15 ∷ []) "a" (some 4) s1 ≡ alive s2
unfolding replay matches serialize enqueue registered pack
to_s2 = refl

to_s3 : open_gate s2 ≡ (s3, false)
unfolding open_gate enqueue registered
to_s3 = refl

to_s4 : lives turns s3 ≡ some s4
unfolding lives on_writable feed fan_out_one serialize deliver enqueue registered pack
to_s4 = refl

subscription_exactly_once_example :
    HandedOver ack
      (select (wants ("octo/*" ∷ []) ("push" ∷ [])) (
        take replay_limit
          (rows_above (seq_for_event_id (table ++ row 5 "d" 15 ∷ []) "a") none table)
        ++ later))
      turns
      s4
unfolding current_max_snapshot
subscription_exactly_once_example =
    subscription_exactly_once kernel true 1000 request "a" ack table (row 5 "d" 15 ∷ [])
      (row 7 "e" 17 ∷ []) (row 4 "c" 14 ∷ []) rounds turns s1 s2 s3 s4 tt refl
      (("a", refl), (("b", refl), (("c", refl), tt)))
      (omega arith, (omega arith, (omega arith, (omega arith, (omega arith, tt)))))
      (
        (omega arith, (omega arith, (omega arith, (omega arith, tt)))),
        (
          (omega arith, (omega arith, (omega arith, tt))),
          ((omega arith, (omega arith, tt)), ((omega arith, tt), (tt, tt))),
        ),
      )
      (omega arith, tt) refl ((omega arith, (omega arith, tt)), ((omega arith, tt), (tt, tt))) to_s1
      to_s2 to_s3 to_s4

abbrev daemon : Daemon
daemon = record {
  subscribers =
      (5, new (fresh kernel) true ("*" ∷ []) ("push" ∷ []) 1000)
      ∷ (6, new (fresh (broken ∷ [])) true ("*" ∷ []) ("push" ∷ []) 1000)
      ∷ [];
  closed = [];
  cursor = 1;
  reject_frame = 9 ∷ [];
}

abbrev ascending : Ascending table
ascending = ((omega arith, (omega arith, tt)), ((omega arith, tt), (tt, tt)))

-- The second subscriber's connection is broken, and it is dropped at the first row.
second_dropped : find 6 (broadcast_pass table daemon).0.subscribers ≡ none
unfolding broadcast_pass new find serialize fan_out deliver enqueue pack
second_dropped = refl

distinct : Distinct daemon.subscribers
unfolding find
distinct = (refl, (refl, tt))

passes : (pass_rows table daemon).1 ≡ ok tt
unfolding pass_rows serialize
passes = refl

pass_ends : (broadcast_pass table daemon).1 ≡ ok tt
unfolding broadcast_pass serialize
pass_ends = refl

find-pass_rows_example :
    find 5 (pass_rows table daemon).0.subscribers ≡ feed_found table (find 5 daemon.subscribers)
find-pass_rows_example = find-pass_rows 5 table daemon distinct passes

heartbeat-enqueue_example :
    ((s : Subscriber)
      → find 6 daemon.subscribers ≡ some s
      → (lag_limit ≤ (enqueue ack false s).0.lag_count
          → find 6 (heartbeat ack daemon).subscribers ≡ none)
        × ((enqueue ack false s).0.lag_count < lag_limit
            → find 6 (heartbeat ack daemon).subscribers ≡ some (enqueue ack false s).0))
    × (find 6 daemon.subscribers ≡ none → find 6 (heartbeat ack daemon).subscribers ≡ none)
heartbeat-enqueue_example = heartbeat-enqueue 6 ack daemon distinct

broadcast_pass-sweeps_example :
    rows_above (broadcast_pass table daemon).0.cursor none table
    ≡ drop sweep_limit (rows_above daemon.cursor none table)
broadcast_pass-sweeps_example = broadcast_pass-sweeps table daemon ascending pass_ends

unfoldable zeros : ℕ → Bytes
zeros zero = []
zeros (suc n) = 0 ∷ zeros n

length-zeros : (n : ℕ) → length (zeros n) ≡ n
unfolding zeros
length-zeros zero = refl
length-zeros (suc n) = ap (λ (k : ℕ). suc k) (length-zeros n)

abbrev huge : Row
huge = record (row 2 "b" 12) { event_json = zeros 70000; stub_json = zeros 65537 }

first : rows_above 1 none (row 1 "a" 11 ∷ huge ∷ []) ≡ huge ∷ []
unfolding rows_above
first = refl

broadcast_pass-stuck_example :
    broadcast_pass ((row 1 "a" 11 ∷ huge ∷ []) ++ later) daemon ≡ (daemon, err frame_too_large)
broadcast_pass-stuck_example =
    broadcast_pass-stuck (row 1 "a" 11 ∷ huge ∷ []) later daemon huge [] first
      (omega (arith, length-zeros 70000)) (omega (arith, length-zeros 65537))

abbrev message : Fields
message = field "proto" (int (pos 1)) (
    field "filters" (arr (cons (str "octo/*") nil)) (
      field "event_types" (arr (cons (str "push") (cons (str "unknown") nil)))
        (field "since" (str "01ARZ3NDEKTSV4RRFFQ69G5FAV") end)))

abbrev asked : Request
asked = record {
  filters = "octo/*" ∷ [];
  event_types = "push" ∷ [];
  since = some "01ARZ3NDEKTSV4RRFFQ69G5FAV";
}

taken_up : judge ("push" ∷ "pull_request" ∷ []) message ≡ accepted asked
unfolding judge validate_subscribe_filters validate_subscribe_event_types validate_since_cursor
    validate_subscribe_envelope
taken_up = refl

-- `$` lets one final newline pass.
newline_passes : filter_re "octo/*\n" ≡ true
unfolding filter_re
newline_passes = refl

-- The protocol version `true` does not pass for 1.
true_is_no_version : judge [] (field "proto" (bool true) end) ≡ bad_version
unfolding judge
true_is_no_version = refl

abbrev busy : Daemon
busy = record {
  subscribers = (7, registered (fresh (accepts 9 ∷ [])) true 1000 table request) ∷ [];
  closed = [];
  cursor = 4;
  reject_frame = 9 ∷ [];
}

busy-find :
    find 7 busy.subscribers ≡ some (registered (fresh (accepts 9 ∷ [])) true 1000 table request)
unfolding find
busy-find = refl

heartbeat-registered_example :
    (s : Subscriber) × (find 7 (heartbeat ack busy).subscribers ≡ some s)
    × (s.sock.sent ≡ ack)
    × (s.pre_ack_buffer ≡ some [])
unfolding find
heartbeat-registered_example =
    heartbeat-registered 7 busy ack 9 [] true 1000 table request (refl, tt) busy-find (omega arith)

ack_round-beat_one_example :
    (s : Subscriber) × (ack_round ack
        (beat_one
          (frame 72)
          (registered (fresh (accepts 2 ∷ accepts 9 ∷ [])) true 1000 table request)).0
      ≡ acked s)
    × (s.sock.sent ≡ take 2 (frame 72) ++ ack)
    × (queued_bytes s.tx_queue ≡ drop 2 (frame 72))
ack_round-beat_one_example =
    ack_round-beat_one (frame 72) ack 2 9 [] true 1000 table request (omega arith) (omega arith)
      (omega arith)

beat_one-ack_round_example :
    (s : Subscriber) × (ack_round ack
        (registered (fresh (accepts 2 ∷ accepts 9 ∷ [])) true 1000 table request)
      ≡ unsent (drop 2 ack) s)
    × ((beat_one (frame 72) s).0.sock.sent ≡ take 2 ack ++ frame 72)
    × ((beat_one (frame 72) s).1 ≡ false)
beat_one-ack_round_example =
    beat_one-ack_round (frame 72) ack 2 9 [] true 1000 table request (omega arith) (omega arith)
      (omega arith)
