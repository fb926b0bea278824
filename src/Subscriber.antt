-- ===== src/Subscriber.antt =====
-- waitbus/broadcast.py, class `Subscriber`: the outbound queue of one connected client.
-- The socket is what the kernel has accepted so far (`sent`), and its answers to the calls of `send`
-- to come (`answers`); when these run out the kernel accepts nothing more. `registers` says whether
-- `add_writer` succeeds (there is a loop, and the descriptor can be polled). `delivered` is what this
-- subscriber has added to the counter `waitbus_broadcast_events_delivered_total`.
pub mod Sound
pub mod Keeps
pub mod Drain
pub mod Runs
pub mod Tests
use waitbus.Prelude.{
  ℕ, ◌+◌, ◌*◌, min, max, String, Bool, true, false, Option, none, List, [], ◌∷◌, ◌++◌, ltb, ◌==◌,
  if◌then◌else◌, length, take, drop,
}
use waitbus.Frame.{Bytes, max_frame_bytes, length_prefix_bytes}

abbrev pub lag_limit : ℕ
lag_limit = 10

abbrev pub pre_ack_buffer_frames : ℕ
pre_ack_buffer_frames = lag_limit

abbrev pub pre_ack_buffer_bytes : ℕ
pre_ack_buffer_bytes = lag_limit * (max_frame_bytes + length_prefix_bytes)

-- What the kernel answers to one `send`: it takes so many bytes (at least one, at most all), its
-- buffer is full (`BlockingIOError`), or the connection is gone (any other `OSError`).
pub data Send : Type 0 where
  accepts : ℕ → Send
  would_block broken : Send

pub record Socket : Type 0 where
  pub sent : Bytes
  pub answers : List Send

-- The bytes accepted by one `send`, or why none were.
pub data Sent : Type 0 where
  took : ℕ → Sent
  blocked failed : Sent

unfoldable pub send : Bytes → Socket → Sent × Socket
send view s = elim s.answers [
  | [] ↦ (blocked, s)
  | a ∷ rest ↦ elim a [
    | accepts k ↦
        let n = min (length view) (max 1 k) in
        (took n, record { sent = s.sent ++ take n view; answers = rest })
    | would_block ↦ (blocked, record s { answers = rest })
    | broken ↦ (failed, record s { answers = rest })
  ]
]

-- A queued frame: the bytes not yet accepted, and whether the frame counts as delivered.
pub record Queued : Type 0 where
  pub remaining : Bytes
  pub counts_as_delivered : Bool

pub record Subscriber : Type 0 where
  pub sock : Socket
  pub registers : Bool
  pub filters : List String
  pub event_types : List String
  pub lag_count : ℕ
  pub remote_uid : ℕ
  pub replay_watermark : Option ℕ
  pub pre_ack_buffer : Option (List Bytes)
  pub pre_ack_buffered_bytes : ℕ
  pub tx_queue : List Queued
  pub draining : Bool
  pub delivered : ℕ

-- `__init__`
unfoldable pub new : Socket → Bool → List String → List String → ℕ → Subscriber
new sock registers filters event_types remote_uid = record {
  sock = sock;
  registers = registers;
  filters = filters;
  event_types = event_types;
  lag_count = 0;
  remote_uid = remote_uid;
  replay_watermark = none;
  pre_ack_buffer = none;
  pre_ack_buffered_bytes = 0;
  tx_queue = [];
  draining = false;
  delivered = 0;
}

abbrev pub queued_bytes : List Queued → Bytes
queued_bytes [] = []
queued_bytes (q ∷ qs) = q.remaining ++ queued_bytes qs

unfoldable pub tx_buffered_bytes : Subscriber → ℕ
tx_buffered_bytes s = length (queued_bytes s.tx_queue)

-- `_start_draining` and `_stop_draining`
unfoldable pub start_draining : Subscriber → Subscriber
start_draining s = if s.draining then s else if s.registers then record s { draining = true } else s

unfoldable pub stop_draining : Subscriber → Subscriber
stop_draining s = if s.draining then record s { draining = false } else s

abbrev pub count_if : Bool → ℕ → ℕ
count_if b n = if b then n + 1 else n

-- Queue what is left of a frame after a `send`, and arm the callback.
unfoldable pub queue_rest : Bytes → Bool → Subscriber → Subscriber
unfolding start_draining
queue_rest rest counts s =
    let t = start_draining (record s {
      tx_queue = s.tx_queue ++ record { remaining = rest; counts_as_delivered = counts } ∷ [];
    }) in
    record t { lag_count = t.lag_count + 1 }

-- `enqueue` on an empty queue, by what `send` answered
unfoldable pub after_send : Bytes → Bool → Subscriber → Sent × Socket → Subscriber × Bool
unfolding queue_rest
after_send blob counts s (blocked, k) = (queue_rest blob counts (record s { sock = k }), false)
after_send blob counts s (failed, k) = (record s { sock = k; lag_count = lag_limit }, false)
after_send blob counts s (took n, k) =
    if n == length blob
    then (record s { sock = k; lag_count = 0; delivered = count_if counts s.delivered }, true)
    else (queue_rest (drop n blob) counts (record s { sock = k }), false)

-- `enqueue` behind a queue that is not empty
unfoldable pub append_queued : Bytes → Bool → Subscriber → Subscriber × Bool
unfolding start_draining
append_queued blob counts s = (
  start_draining (record s {
    tx_queue = s.tx_queue ++ record { remaining = blob; counts_as_delivered = counts } ∷ [];
    lag_count = s.lag_count + 1;
  }),
  false,
)

-- `if self._tx_queue: ...`, then the rest
unfoldable pub enqueue_by : List Queued → Bytes → Bool → Subscriber → Subscriber × Bool
unfolding after_send append_queued send
enqueue_by [] blob counts s = after_send blob counts s (send blob s.sock)
enqueue_by (q ∷ qs) blob counts s = append_queued blob counts s

unfoldable pub enqueue : Bytes → Bool → Subscriber → Subscriber × Bool
unfolding enqueue_by
enqueue blob counts s = enqueue_by s.tx_queue blob counts s

-- The loop of `_drain`, over the queue: what is left of it, the socket, the frames counted, and how
-- it ended (the queue is empty, the kernel takes no more for now, or the connection is gone).
pub data DrainEnd : Type 0 where
  emptied waiting gone : DrainEnd

pub record Drained : Type 0 where
  pub queue : List Queued
  pub sock : Socket
  pub counted : ℕ
  pub ended : DrainEnd

unfoldable pub drain_head : Queued → List Queued → Sent × Socket → (Socket → Drained) → Drained
drain_head q qs (blocked, k) rest = record {
  queue = q ∷ qs;
  sock = k;
  counted = 0;
  ended = waiting;
}
drain_head q qs (failed, k) rest = record { queue = []; sock = k; counted = 0; ended = gone }
drain_head q qs (took n, k) rest =
    let later = rest k in
    if ltb n (length q.remaining)
    then record {
      queue = record q { remaining = drop n q.remaining } ∷ qs;
      sock = k;
      counted = 0;
      ended = waiting;
    }
    else record later { counted = count_if q.counts_as_delivered later.counted }

unfoldable pub drain_queue : List Queued → Socket → Drained
unfolding drain_head send
drain_queue [] k = record { queue = []; sock = k; counted = 0; ended = emptied }
drain_queue (q ∷ qs) k = drain_head q qs (send q.remaining k) (λ k'. drain_queue qs k')

-- `_drain`
unfoldable pub finish_drain : Subscriber → DrainEnd → Subscriber
unfolding stop_draining
finish_drain s emptied = stop_draining (record s { lag_count = 0 })
finish_drain s waiting = s
finish_drain s gone = stop_draining (record s { lag_count = lag_limit })

unfoldable pub drain : Subscriber → Subscriber
unfolding finish_drain drain_queue
drain s =
    let d = drain_queue s.tx_queue s.sock in
    finish_drain
      (record s { tx_queue = d.queue; sock = d.sock; delivered = s.delivered + d.counted }) d.ended

-- The loop calls `_drain` when the socket is writable, while the callback is armed.
unfoldable pub on_writable : Subscriber → Subscriber
unfolding drain
on_writable s = if s.draining then drain s else s
