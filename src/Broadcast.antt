-- ===== src/Broadcast.antt =====
-- waitbus/broadcast.py, class `Broadcast`: the fan-out of committed rows to the subscribers.
-- The events table is a list of rows in the order of `seq`. A row carries the JSON text of its
-- `EventFrame` and of its `TruncatedFrame`, which msgspec computes from its columns.
pub mod Handshake
pub mod Feed
pub mod Live
pub mod Gate
pub mod Resume
pub mod Table
pub mod Session
pub mod Isolation
pub mod Sweep
pub mod Acks
pub mod Turns
pub mod Beat
pub mod Tasks
pub mod Tests
use waitbus.Prelude.{
  ℕ, ◌+◌, max, String, Bool, true, false, ◌&&◌, ◌||◌, Option, none, some, List, [], ◌∷◌, ◌++◌,
  str_eq, ltb, leb, ◌==◌, if◌then◌else◌, length, take,
}
use waitbus.Frame.{Bytes, encode_frame, Result, ok, err}
use waitbus.Subscriber.{
  lag_limit, pre_ack_buffer_frames, pre_ack_buffer_bytes, send, stop_draining, enqueue, Queued,
  Subscriber,
}
use waitbus.Subscribe.{contains, any_filter}

abbrev pub sweep_limit : ℕ
sweep_limit = 500

abbrev pub replay_limit : ℕ
replay_limit = 500

pub record Row : Type 0 where
  pub seq : ℕ
  pub event_id : Option String
  pub owner : String
  pub repo : String
  pub event_type : String
  pub event_json : Bytes
  pub stub_json : Bytes

-- `_serialize`: the event frame, or the stub for an oversize one. The stub's own encoding may fail.
unfoldable pub serialize : Row → Result Bytes
unfolding encode_frame
serialize r = elim (encode_frame r.event_json) [
  | ok wire ↦ ok wire
  | err e ↦ encode_frame r.stub_json
]

-- `_db.iter_events_above`: rows with an `event_id`, above `since_seq`, not above `until_seq`.
unfoldable pub is_above : ℕ → Option ℕ → Row → Bool
is_above since_seq until_seq r =
    elim r.event_id [ none ↦ false | some e ↦ ltb since_seq r.seq ]
    && elim until_seq [ none ↦ true | some u ↦ leb r.seq u ]

unfoldable pub rows_above : ℕ → Option ℕ → List Row → List Row
unfolding is_above
rows_above since_seq until_seq [] = []
rows_above since_seq until_seq (r ∷ rs) =
    let later = rows_above since_seq until_seq rs in
    if is_above since_seq until_seq r then r ∷ later else later

unfoldable pub iter_events_above : List Row → ℕ → Option ℕ → ℕ → List Row
unfolding rows_above
iter_events_above table since_seq until_seq limit =
    take limit (rows_above since_seq until_seq table)

-- `_db.seq_for_event_id`: 0 for an empty or an unknown id.
unfoldable pub find_seq : List Row → String → ℕ
find_seq [] id = 0
find_seq (r ∷ rs) id = elim r.event_id [
  | none ↦ find_seq rs id
  | some e ↦ if str_eq e id then r.seq else find_seq rs id
]

unfoldable pub seq_for_event_id : List Row → String → ℕ
unfolding find_seq
seq_for_event_id table id = if str_eq id "" then 0 else find_seq table id

-- `_current_max_snapshot`: the last row with an `event_id`.
unfoldable pub latest : Option String → ℕ × Option String → Row → ℕ × Option String
latest (some e) later r = later
latest none later r = elim r.event_id [ none ↦ (0, none) | some e ↦ (r.seq, some e) ]

unfoldable pub current_max_snapshot : List Row → ℕ × Option String
unfolding latest
current_max_snapshot [] = (0, none)
current_max_snapshot (r ∷ rs) = let later = current_max_snapshot rs in latest later.1 later r

-- `Subscriber.matches`
unfoldable pub matches : Subscriber → Row → Bool
unfolding contains any_filter
matches s r = contains s.event_types r.event_type && any_filter s.filters r.owner r.repo

-- `_fan_out` at one subscriber: the gate before the acknowledgement, then the queue. The result
-- says whether the subscriber is to be dropped.
unfoldable pub deliver : Bytes → Subscriber → Subscriber × Bool
deliver blob s = elim s.pre_ack_buffer [
  | some buffer ↦
      if leb pre_ack_buffer_frames (length buffer)
        || ltb pre_ack_buffer_bytes (s.pre_ack_buffered_bytes + length blob)
      then (s, true)
      else (
        record s {
          pre_ack_buffer = some (buffer ++ blob ∷ []);
          pre_ack_buffered_bytes = s.pre_ack_buffered_bytes + length blob;
        },
        false,
      )
  | none ↦ let s' = (enqueue blob true s).0 in (s', leb lag_limit s'.lag_count)
]

-- The watermark: rows at or below it were replayed, and the first row above it clears it.
unfoldable pub past_watermark : Option ℕ → ℕ → Bytes → Subscriber → Subscriber × Bool
past_watermark none seq blob s = deliver blob s
past_watermark (some w) seq blob s =
    if leb seq w then (s, false) else deliver blob (record s { replay_watermark = none })

unfoldable pub fan_out_one : Row → Bytes → Subscriber → Subscriber × Bool
unfolding matches past_watermark
fan_out_one r blob s =
    if matches s r then past_watermark s.replay_watermark r.seq blob s else (s, false)

-- Why a subscriber is closed.
pub data Reason : Type 0 where
  lag_limit_exceeded heartbeat_lag replay_lag_limit_exceeded : Reason
  subscribe_ack_send_failed replay_db_error shutdown : Reason

-- `reason in _TERMINAL_REJECT_FRAMES`; all of these have one frame.
unfoldable pub has_reject_frame : Reason → Bool
has_reject_frame lag_limit_exceeded = true
has_reject_frame heartbeat_lag = true
has_reject_frame replay_lag_limit_exceeded = true
has_reject_frame _ = false

-- The daemon: `subscribers` is the dict by descriptor, `closed` what became of those taken out of
-- it, and `reject_frame` the encoded `_SUBSCRIBE_REJECT_LAG_LIMIT_FRAME`.
pub record Daemon : Type 0 where
  pub subscribers : List (ℕ × Subscriber)
  pub closed : List (ℕ × Subscriber)
  pub cursor : ℕ
  pub reject_frame : Bytes

unfoldable pub find : ℕ → List (ℕ × Subscriber) → Option Subscriber
find fd [] = none
find fd ((k, s) ∷ subs) = if k == fd then some s else find fd subs

unfoldable pub remove : ℕ → List (ℕ × Subscriber) → List (ℕ × Subscriber)
remove fd [] = []
remove fd ((k, s) ∷ subs) = let later = remove fd subs in if k == fd then later else (k, s) ∷ later

unfoldable pub is_empty : List Queued → Bool
is_empty [] = true
is_empty (q ∷ qs) = false

-- What `_close_subscriber` does to the subscriber that it took out of the dict.
unfoldable pub closing : Bytes → Reason → Subscriber → Subscriber
unfolding stop_draining has_reject_frame is_empty send
closing reject reason s =
    let t = stop_draining s in
    let goodbye = has_reject_frame reason && is_empty t.tx_queue in
    record t { sock = if goodbye then (send reject t.sock).1 else t.sock; tx_queue = [] }

-- `_close_subscriber`; nothing happens for a descriptor that is not in the dict.
unfoldable pub close_subscriber : ℕ → Reason → Daemon → Daemon
unfolding find remove closing
close_subscriber fd reason d = elim (find fd d.subscribers) [
  | none ↦ d
  | some s ↦ record d {
    subscribers = remove fd d.subscribers;
    closed = (fd, closing d.reject_frame reason s) ∷ d.closed;
  }
]

unfoldable pub close_all : List ℕ → Reason → Daemon → Daemon
unfolding close_subscriber
close_all [] reason d = d
close_all (fd ∷ fds) reason d = close_all fds reason (close_subscriber fd reason d)

-- The loop over the dict, with one step for a subscriber, and the descriptors to drop.
unfoldable pub step_each :
    (Subscriber → Subscriber × Bool) → List (ℕ × Subscriber) → List (ℕ × Subscriber) × List ℕ
step_each f [] = ([], [])
step_each f ((fd, s) ∷ subs) =
    let (s', dropped) = f s in
    let (later, fds) = step_each f subs in ((fd, s') ∷ later, if dropped then fd ∷ fds else fds)

unfoldable pub step_all : (Subscriber → Subscriber × Bool) → Reason → Daemon → Daemon
unfolding step_each close_all
step_all f reason d =
    let (subs, to_drop) = step_each f d.subscribers in
    close_all to_drop reason (record d { subscribers = subs })

-- `_fan_out`
unfoldable pub fan_out : Row → Bytes → Daemon → Daemon
unfolding step_all fan_out_one
fan_out r blob d = step_all (fan_out_one r blob) lag_limit_exceeded d

-- One tick of `_heartbeat_loop`, with the encoded heartbeat
unfoldable pub beat_one : Bytes → Subscriber → Subscriber × Bool
beat_one blob s = let s' = (enqueue blob false s).0 in (s', leb lag_limit s'.lag_count)

unfoldable pub heartbeat : Bytes → Daemon → Daemon
unfolding step_all beat_one
heartbeat blob d = step_all (beat_one blob) heartbeat_lag d

-- The rows of one `_broadcast_pass`; `_serialize` may raise, and then the pass ends there.
unfoldable pub pass_row :
    Result Bytes → Row → Daemon → (Daemon → Daemon × Result (Unit {0})) → Daemon × Result (Unit {0})
pass_row (err e) r d go_on = (d, err e)
pass_row (ok blob) r d go_on = go_on (record (fan_out r blob d) { cursor = r.seq })

unfoldable pub pass_rows : List Row → Daemon → Daemon × Result (Unit {0})
unfolding pass_row
pass_rows [] d = (d, ok tt)
pass_rows (r ∷ rs) d = pass_row (serialize r) r d (λ d'. pass_rows rs d')

unfoldable pub broadcast_pass : List Row → Daemon → Daemon × Result (Unit {0})
unfolding pass_rows iter_events_above
broadcast_pass table d = pass_rows (iter_events_above table d.cursor none sweep_limit) d

-- `_seed_cursor`: MAX(seq), or 0
unfoldable pub seed_cursor : List Row → ℕ
seed_cursor [] = 0
seed_cursor (r ∷ rs) = max r.seq (seed_cursor rs)
