-- ===== src/Broadcast/Handshake.antt =====
-- waitbus/broadcast.py: `_read_subscribe` from the parsed envelope on, and `_replay`.
-- The handshake has one suspension point that matters, the send of the acknowledgement: what runs
-- before it is `register`, and what runs after it is `finish_subscribe`. Passes and heartbeats of the
-- daemon may stand between the two.
use waitbus.Prelude.{
  ℕ, String, Bool, true, false, Option, none, some, List, [], ◌∷◌, ◌++◌, leb, ◌==◌, if◌then◌else◌,
  length, drop,
}
use waitbus.Frame.{Bytes, ok, err}
use waitbus.Subscriber.{
  lag_limit, send, new, enqueue, Socket, Sent, took, blocked, failed, Subscriber,
}
use waitbus.Json.{get, pos, Json, null, int, Fields}
use waitbus.Subscribe.{
  validate_subscribe_filters, validate_subscribe_event_types, validate_subscribe_envelope,
  validate_since_cursor,
}
use waitbus.Broadcast.{
  replay_limit, serialize, iter_events_above, seq_for_event_id, current_max_snapshot, matches, find,
  close_subscriber, Row, lag_limit_exceeded, replay_lag_limit_exceeded, subscribe_ack_send_failed,
  replay_db_error, Daemon,
}

-- `proto` is absent, or the integer 1 itself: neither `true` nor `1.0`.
unfoldable pub proto_ok : Json → Bool
proto_ok null = true
proto_ok (int (pos n)) = n == 1
proto_ok _ = false

pub record Request : Type 0 where
  pub filters : List String
  pub event_types : List String
  pub since : Option String

-- What becomes of an envelope: the version frame is sent and the socket closed, the socket is
-- closed without a word, or the request is taken up.
pub data Verdict : Type 0 where
  bad_version bad_field : Verdict
  accepted : Request → Verdict

unfoldable pub fields_verdict :
    Option (List String) → Option (List String) → Option (Option String) → Bool → Verdict
fields_verdict (some f) (some t) (some s) true =
    accepted (record { filters = f; event_types = t; since = s })
fields_verdict _ _ _ _ = bad_field

unfoldable pub judge : List String → Fields → Verdict
unfolding fields_verdict proto_ok get
judge supported msg =
    if proto_ok (get "proto" msg)
    then fields_verdict (validate_subscribe_filters (get "filters" msg))
        (validate_subscribe_event_types supported (get "event_types" msg))
        (validate_since_cursor (get "since" msg)) (validate_subscribe_envelope (get "envelope" msg))
    else bad_version

-- The subscriber as it is put into the dict: its buffer is open, and with a `since` cursor its
-- watermark is the highest `seq` of the table.
unfoldable pub registered : Socket → Bool → ℕ → List Row → Request → Subscriber
unfolding new current_max_snapshot
registered sock registers uid table q = record (new sock registers q.filters q.event_types uid) {
  pre_ack_buffer = some [];
  replay_watermark = elim q.since [ none ↦ none | some e ↦ some (current_max_snapshot table).0 ];
}

-- `caught_up_at` of the acknowledgement
unfoldable pub caught_up_at : List Row → Request → Option String
unfolding current_max_snapshot
caught_up_at table q = elim q.since [ none ↦ none | some e ↦ (current_max_snapshot table).1 ]

unfoldable pub put : ℕ → Subscriber → List (ℕ × Subscriber) → List (ℕ × Subscriber)
put fd s [] = []
put fd s ((k, t) ∷ subs) = if k == fd then (fd, s) ∷ put fd s subs else (k, t) ∷ put fd s subs

-- `self.subscribers[fd] = sub`
unfoldable pub register : ℕ → Subscriber → Daemon → Daemon
unfolding find put
register fd s d = record d {
  subscribers = elim (find fd d.subscribers) [
    | none ↦ d.subscribers ++ (fd, s) ∷ []
    | some old ↦ put fd s d.subscribers
  ];
}

-- How `_replay` ends: the subscriber goes on, it has hit the lag limit, or `_serialize` raised.
pub data Replay : Type 0 where
  alive lagging raised : Subscriber → Replay

unfoldable pub replay_next : Row → Subscriber → (Subscriber → Replay) → Replay
unfolding matches serialize
replay_next r s go_on =
    if matches s r
    then elim (serialize r) [
      | err e ↦ raised s
      | ok blob ↦
          let s' = (enqueue blob true s).0 in
          let later = go_on s' in if leb lag_limit s'.lag_count then lagging s' else later
    ]
    else go_on s

unfoldable pub replay_rows : List Row → Subscriber → Replay
unfolding replay_next
replay_rows [] s = alive s
replay_rows (r ∷ rs) s = replay_next r s (λ s'. replay_rows rs s')

-- `_replay`: the rows after the cursor, up to the watermark.
unfoldable pub replay : List Row → String → Option ℕ → Subscriber → Replay
unfolding replay_rows seq_for_event_id iter_events_above
replay table since until_seq s =
    replay_rows (iter_events_above table (seq_for_event_id table since) until_seq replay_limit) s

-- The buffered frames after the replay; `true` when the lag limit was hit.
unfoldable pub flush_buffer : List Bytes → Subscriber → Subscriber × Bool
flush_buffer [] s = (s, false)
flush_buffer (blob ∷ blobs) s =
    let s' = (enqueue blob true s).0 in
    let later = flush_buffer blobs s' in if leb lag_limit s'.lag_count then (s', true) else later

unfoldable pub open_gate : Subscriber → Subscriber × Bool
unfolding flush_buffer
open_gate s = elim s.pre_ack_buffer [
  | none ↦ (s, false)
  | some buffered ↦
      flush_buffer buffered (record s { pre_ack_buffer = none; pre_ack_buffered_bytes = 0 })
]

-- What one `send` of `sock_sendall(ack)` comes to: all is out, the rest is still to be sent, or the
-- connection has failed.
pub data AckRound : Type 0 where
  acked : Subscriber → AckRound
  unsent : Bytes → Subscriber → AckRound
  lost : Subscriber → AckRound

unfoldable pub ack_sent : Bytes → Subscriber → Sent × Socket → AckRound
ack_sent rest s (took n, k) =
    if n == length rest
    then acked (record s { sock = k })
    else unsent (drop n rest) (record s { sock = k })
ack_sent rest s (blocked, k) = unsent rest (record s { sock = k })
ack_sent rest s (failed, k) = lost (record s { sock = k })

-- It goes past the queue of the subscriber.
unfoldable pub ack_round : Bytes → Subscriber → AckRound
unfolding ack_sent send
ack_round rest s = ack_sent rest s (send rest s.sock)

unfoldable pub update : ℕ → Subscriber → Daemon → Daemon
unfolding put
update fd s d = record d { subscribers = put fd s d.subscribers }

-- After the gate was opened
unfoldable pub after_gate : ℕ → Daemon → Subscriber × Bool → Daemon
unfolding update
after_gate fd d (s, false) = update fd s d
after_gate fd d (s, true) = close_subscriber fd lag_limit_exceeded (update fd s d)

-- After `_replay`. When `_serialize` raised, the task ends with the subscriber as it is.
unfoldable pub after_replay : ℕ → Daemon → Replay → Daemon
unfolding after_gate open_gate
after_replay fd d (alive s) = after_gate fd d (open_gate s)
after_replay fd d (lagging s) = close_subscriber fd replay_lag_limit_exceeded (update fd s d)
after_replay fd d (raised s) = update fd s d

-- The replay asked for by `since`, up to the watermark that `register` took. `db_fault` says that
-- the query raises `sqlite3.Error`.
unfoldable pub resume : ℕ → List Row → Bool → Request → Option ℕ → Daemon → Subscriber → Daemon
unfolding after_replay replay
resume fd table db_fault q until_seq d s = elim q.since [
  | none ↦ after_replay fd d (alive s)
  | some e ↦
      if db_fault
      then close_subscriber fd replay_db_error d
      else after_replay fd d (replay table e until_seq s)
]

-- After a `send` of the acknowledgement: the daemon, and what is still to be sent, if the handshake
-- goes on
unfoldable pub after_ack : ℕ → Daemon → AckRound → Daemon × Option Bytes
unfolding update
after_ack fd d (acked s) = (update fd s d, some [])
after_ack fd d (unsent rest s) = (update fd s d, some rest)
after_ack fd d (lost s) = (close_subscriber fd subscribe_ack_send_failed (update fd s d), none)

-- The handshake at the acknowledgement, of which `rest` is to be sent. When the subscriber has been
-- closed meanwhile, `send` raises, and there is nothing left to close.
unfoldable pub send_ack : ℕ → Bytes → Daemon → Daemon × Option Bytes
unfolding after_ack ack_round
send_ack fd rest d = elim (find fd d.subscribers) [
  | none ↦ (d, none)
  | some s ↦ after_ack fd d (ack_round rest s)
]

-- The handshake behind the acknowledgement. On a subscriber that has been closed meanwhile it changes
-- nothing.
unfoldable pub finish_subscribe : ℕ → List Row → Bool → Request → Option ℕ → Daemon → Daemon
unfolding resume
finish_subscribe fd table db_fault q until_seq d = elim (find fd d.subscribers) [
  | none ↦ d
  | some s ↦ resume fd table db_fault q until_seq d s
]

-- `wait_for` gives up on the acknowledgement.
unfoldable pub ack_timed_out : ℕ → Daemon → Daemon
unfolding close_subscriber
ack_timed_out fd d = close_subscriber fd subscribe_ack_send_failed d
