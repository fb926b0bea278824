-- ===== src/Broadcast/Beat.antt =====
-- The heartbeat of waitbus/broadcast.py during a handshake.
use waitbus.Prelude.{
  ℕ, ◌≤◌, ◌<◌, min, max, ◌≡◌, refl, ap, ◌∙◌, Bool, true, false, some, List, [], ◌∷◌, ◌++◌,
  append-nil, arith, ◌==◌, ==_iff, length, take, drop, take_all,
}
use waitbus.Frame.{Bytes}
use waitbus.Subscriber.{new, queued_bytes, enqueue, Send, accepts, Subscriber}
use waitbus.Subscriber.Runs.{fresh}
use waitbus.Broadcast.{find, beat_one, heartbeat, Row, Daemon}
use waitbus.Broadcast.Handshake.{registered, ack_round, Request, acked, unsent}
use waitbus.Broadcast.Isolation.{Distinct, outcome, find-heartbeat}

beat_one-registered :
    (blob : Bytes) (k : ℕ) (l : List Send) (registers : Bool) (uid : ℕ) (table : List Row)
    (q : Request)
    → length blob ≤ k
    → ((beat_one blob (registered (fresh (accepts k ∷ l)) registers uid table q)).1 ≡ false)
      × ((beat_one blob (registered (fresh (accepts k ∷ l)) registers uid table q)).0.sock.sent
          ≡ blob)
      × ((beat_one blob (registered (fresh (accepts k ∷ l)) registers uid table q)).0.pre_ack_buffer
          ≡ some [])
unfolding beat_one registered new enqueue
beat_one-registered blob k l registers uid table q h =
    let n : min (length blob) (max 1 k) ≡ length blob = omega (arith, h) in
    let whole : (length blob == length blob) ≡ true = (==_iff (length blob) (length blob)).1 refl in
    rw (n, whole) (refl, take_all (length blob) blob (omega arith), refl)

-- A subscriber that waits for its acknowledgement, over a connection that takes the heartbeat whole: after
-- a tick it is still in the dict with its buffer open, and the heartbeat is the first frame on its wire.
pub heartbeat-registered :
    (fd : ℕ) (d : Daemon) (blob : Bytes) (k : ℕ) (l : List Send) (registers : Bool) (uid : ℕ)
    (table : List Row) (q : Request)
    → Distinct d.subscribers
    → find fd d.subscribers ≡ some (registered (fresh (accepts k ∷ l)) registers uid table q)
    → length blob ≤ k
    → (s : Subscriber) × (find fd (heartbeat blob d).subscribers ≡ some s)
      × (s.sock.sent ≡ blob)
      × (s.pre_ack_buffer ≡ some [])
heartbeat-registered fd d blob k l registers uid table q distinct e h =
    let s = registered (fresh (accepts k ∷ l)) registers uid table q in
    let (kept, sent, open_) = beat_one-registered blob k l registers uid table q h in
    (
      (beat_one blob s).0,
      find-heartbeat fd blob d distinct ∙ ap (λ o. outcome (beat_one blob) o) e ∙ rw kept refl,
      sent,
      open_,
    )

-- A subscriber that waits for its acknowledgement, over a connection that takes only the first k bytes
-- of the heartbeat, k from 1 to below its length, and then the acknowledgement whole: the
-- acknowledgement stands on the wire behind those k bytes, and the rest of the heartbeat comes later.
pub ack_round-beat_one :
    (blob ack : Bytes) (k m : ℕ) (l : List Send) (registers : Bool) (uid : ℕ) (table : List Row)
    (q : Request)
    → 0 < k
    → k < length blob
    → length ack ≤ m
    → (s : Subscriber) × (ack_round ack
          (beat_one blob (registered (fresh (accepts k ∷ accepts m ∷ l)) registers uid table q)).0
        ≡ acked s)
      × (s.sock.sent ≡ take k blob ++ ack)
      × (queued_bytes s.tx_queue ≡ drop k blob)
unfolding beat_one registered new enqueue ack_round
ack_round-beat_one blob ack k m l true uid table q h h' fits =
    let n : min (length blob) (max 1 k) ≡ k = omega (arith, h, h') in
    let part : (k == length blob) ≡ false = ground arith in
    let n' : min (length ack) (max 1 m) ≡ length ack = omega (arith, fits) in
    let whole : (length ack == length ack) ≡ true = (==_iff (length ack) (length ack)).1 refl in
    rw (n, part, n', whole)
      (
        _,
        refl,
        ap (λ (b : Bytes). take k blob ++ b) (take_all (length ack) ack (omega arith)),
        append-nil (drop k blob),
      )
ack_round-beat_one blob ack k m l false uid table q h h' fits =
    let n : min (length blob) (max 1 k) ≡ k = omega (arith, h, h') in
    let part : (k == length blob) ≡ false = ground arith in
    let n' : min (length ack) (max 1 m) ≡ length ack = omega (arith, fits) in
    let whole : (length ack == length ack) ≡ true = (==_iff (length ack) (length ack)).1 refl in
    rw (n, part, n', whole)
      (
        _,
        refl,
        ap (λ (b : Bytes). take k blob ++ b) (take_all (length ack) ack (omega arith)),
        append-nil (drop k blob),
      )

-- Over a connection that takes only the first k bytes of the acknowledgement, k from 1 to below its
-- length, and then the heartbeat of the next tick whole: the heartbeat stands on the wire behind
-- those k bytes, with the rest of the acknowledgement still to be sent.
pub beat_one-ack_round :
    (blob ack : Bytes) (k m : ℕ) (l : List Send) (registers : Bool) (uid : ℕ) (table : List Row)
    (q : Request)
    → 0 < k
    → k < length ack
    → length blob ≤ m
    → (s : Subscriber) × (ack_round ack
          (registered (fresh (accepts k ∷ accepts m ∷ l)) registers uid table q)
        ≡ unsent (drop k ack) s)
      × ((beat_one blob s).0.sock.sent ≡ take k ack ++ blob)
      × ((beat_one blob s).1 ≡ false)
unfolding beat_one registered new enqueue ack_round
beat_one-ack_round blob ack k m l registers uid table q h h' fits =
    let n : min (length ack) (max 1 k) ≡ k = omega (arith, h, h') in
    let part : (k == length ack) ≡ false = ground arith in
    let n' : min (length blob) (max 1 m) ≡ length blob = omega (arith, fits) in
    let whole : (length blob == length blob) ≡ true = (==_iff (length blob) (length blob)).1 refl in
    rw (n, part)
      (
        _,
        refl,
        rw (n', whole)
            (ap (λ (b : Bytes). take k ack ++ b) (take_all (length blob) blob (omega arith))),
        rw (n', whole) refl,
      )
