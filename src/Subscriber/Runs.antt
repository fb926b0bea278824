-- ===== src/Subscriber/Runs.antt =====
-- A subscriber of waitbus/broadcast.py over any run: frames handed to it, and the loop's callbacks.
use waitbus.Prelude.{
  ℕ, ◌+◌, ◌≤◌, ◌<◌, String, ◌≡◌, refl, inl, inr, Bool, List, [], ◌∷◌, ◌++◌, append-nil,
  append_assoc, arith, length, take,
}
use waitbus.Frame.{Bytes, read_frames}
use waitbus.Subscriber.{
  lag_limit, new, queued_bytes, enqueue, on_writable, Send, Socket, Subscriber,
}
use waitbus.Subscriber.Sound.{FaultsStay, History, bytes_of, counted, counting, IsSound}
use waitbus.Subscriber.Keeps.{enqueue-IsSound}
use waitbus.Subscriber.Drain.{on_writable-IsSound}
use waitbus.Frame.Cut.{ends_at, read_frames-prefix, Encoded}

pub data Op : Type 0 where
  hand : Bytes → Bool → Op
  writable : Op

unfoldable pub run : Subscriber → List Op → Subscriber
run s [] = s
run s (hand blob counts ∷ ops) = run (enqueue blob counts s).0 ops
run s (writable ∷ ops) = run (on_writable s) ops

abbrev pub handed : List Op → History
handed [] = []
handed (hand blob counts ∷ ops) = (blob, counts) ∷ handed ops
handed (writable ∷ ops) = handed ops

-- From any sound subscriber on.
run-IsSound :
    (h : History) (s : Subscriber) (ops : List Op)
    → IsSound h s
    → IsSound (h ++ handed ops) (run s ops)
unfolding run
run-IsSound h s [] sound = rw append-nil sound
run-IsSound h s (hand blob counts ∷ ops) sound =
    rw (← append_assoc h ((blob, counts) ∷ []) (handed ops)) (
      run-IsSound (h ++ (blob, counts) ∷ []) (enqueue blob counts s).0 ops
        (enqueue-IsSound blob counts h s sound))
run-IsSound h s (writable ∷ ops) sound =
    run-IsSound h (on_writable s) ops (on_writable-IsSound h s sound)

abbrev pub fresh : List Send → Socket
fresh l = record { sent = []; answers = l }

new-IsSound :
    (l : List Send) (registers : Bool) (filters event_types : List String) (uid : ℕ)
    → FaultsStay l
    → IsSound [] (new (fresh l) registers filters event_types uid)
unfolding new
new-IsSound l registers filters event_types uid f = (
  record { armed = λ e. cc; bounded = omega arith },
  inl (record { faults = f; stream = refl; count = refl }),
)

run-new-IsSound :
    (l : List Send) (registers : Bool) (filters event_types : List String) (uid : ℕ) (ops : List Op)
    → FaultsStay l
    → IsSound (handed ops) (run (new (fresh l) registers filters event_types uid) ops)
run-new-IsSound l registers filters event_types uid ops f =
    run-IsSound [] _ ops (new-IsSound l registers filters event_types uid f)

received :
    {h : History} {s : Subscriber}
    → IsSound h s
    → (missing : Bytes) × (s.sock.sent ++ missing ≡ bytes_of h)
received {s = s} (q, inl v) = (queued_bytes s.tx_queue, v.stream)
received (q, inr v) = (v.lost, v.stream)

-- A new subscriber, on a connection that stays down once it is down. Whatever frames it is handed
-- and whenever the kernel accepts how many bytes, the peer reads the first of those frames, in
-- order and unchanged, and then the end of the stream or a frame cut short, never another frame.
pub reads_prefix :
    (l : List Send) (registers : Bool) (filters event_types : List String) (uid : ℕ) (ops : List Op)
    (payloads : List Bytes) (fuel : ℕ)
    → FaultsStay l
    → Encoded payloads (bytes_of (handed ops))
    → length payloads < fuel
    → (n k : ℕ) × (read_frames fuel
          (run (new (fresh l) registers filters event_types uid) ops).sock.sent
        ≡ (take n payloads, ends_at k))
reads_prefix l registers filters event_types uid ops payloads fuel f d enough =
    let (missing, e) = received (run-new-IsSound l registers filters event_types uid ops f) in
    read_frames-prefix fuel _ missing d e enough

-- What holds of a subscriber below the lag limit after the frames `h`.
pub record IsExact (h : History) (s : Subscriber) : Type 0 where
  pub nothing_lost : s.sock.sent ++ queued_bytes s.tx_queue ≡ bytes_of h
  pub delivered_once : s.delivered + counting s.tx_queue ≡ counted h
  pub backlog : length s.tx_queue ≤ s.lag_count

-- Below the lag limit, what was accepted and what is queued are together exactly the bytes of the
-- frames handed over, in order; the frames counted as delivered and those still queued are together
-- all frames that count; and at most `lag_count` frames are queued.
pub below_limit-IsExact :
    (l : List Send) (registers : Bool) (filters event_types : List String) (uid : ℕ) (ops : List Op)
    → FaultsStay l
    → (run (new (fresh l) registers filters event_types uid) ops).lag_count < lag_limit
    → IsExact (handed ops) (run (new (fresh l) registers filters event_types uid) ops)
below_limit-IsExact l registers filters event_types uid ops f below =
    exact (run-new-IsSound l registers filters event_types uid ops f) below
  where
    exact : {h : History} {s : Subscriber} → IsSound h s → s.lag_count < lag_limit → IsExact h s
    exact (q, inl v) below = record {
      nothing_lost = v.stream;
      delivered_once = v.count;
      backlog = q.bounded;
    }
    exact (q, inr v) below = absurd (omega (arith, v.lagged))
