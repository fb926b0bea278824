-- ===== src/Subscriber/Tests.antt =====
-- Runs of the model of waitbus/broadcast.py's `Subscriber`.
use waitbus.Prelude.{ℕ, ◌<◌, ◌≡◌, refl, inl, true, false, List, [], ◌∷◌, ◌++◌, arith, take}
use waitbus.Frame.{Bytes, pack, encode_frame, read_frames}
use waitbus.Frame.Cut.{ends_at, Encoded, none_left, one_more}
use waitbus.Subscriber.{
  lag_limit, new, enqueue, on_writable, Send, accepts, would_block, broken, Subscriber,
}
use waitbus.Subscriber.Sound.{IsSound}
use waitbus.Subscriber.Keeps.{enqueue-IsSound}
use waitbus.Subscriber.Drain.{on_writable-IsSound}
use waitbus.Subscriber.Runs.{
  run, handed, fresh, reads_prefix, below_limit-IsExact, Op, hand, writable, IsExact,
}

abbrev ping : Bytes
ping = 0 ∷ 0 ∷ 0 ∷ 1 ∷ 7 ∷ []

-- Two bytes are taken, then nothing for a while, then the rest and the next frame.
abbrev kernel : List Send
kernel = accepts 2 ∷ would_block ∷ accepts 9 ∷ accepts 9 ∷ broken ∷ []

abbrev client : Subscriber
client = new (fresh kernel) true ("*" ∷ []) ("push" ∷ []) 1000

abbrev steps : List Op
steps = hand ping true ∷ writable ∷ hand ping false ∷ writable ∷ []

-- Both frames go out, and one counts as delivered.
both_sent : (run client steps).sock.sent ≡ ping ++ ping
unfolding run enqueue on_writable new
both_sent = refl

one_delivered : (run client steps).delivered ≡ 1
unfolding run enqueue on_writable new
one_delivered = refl

ping-Encoded : Encoded ((7 ∷ []) ∷ (7 ∷ []) ∷ []) (ping ++ ping)
unfolding encode_frame pack
ping-Encoded =
    one_more (7 ∷ []) ping refl (omega arith) (one_more (7 ∷ []) ping refl (omega arith) none_left)

client-IsSound : IsSound [] client
unfolding new
client-IsSound = (
  record { armed = λ e. cc; bounded = omega arith },
  inl (record { faults = tt; stream = refl; count = refl }),
)

enqueue-IsSound_example : IsSound ((ping, true) ∷ []) (enqueue ping true client).0
enqueue-IsSound_example = enqueue-IsSound ping true [] client client-IsSound

on_writable-IsSound_example : IsSound ((ping, true) ∷ []) (on_writable (enqueue ping true client).0)
on_writable-IsSound_example =
    on_writable-IsSound ((ping, true) ∷ []) (enqueue ping true client).0 enqueue-IsSound_example

reads_prefix_example :
    (n k : ℕ) × (read_frames 3 (run client steps).sock.sent
      ≡ (take n ((7 ∷ []) ∷ (7 ∷ []) ∷ []), ends_at k))
reads_prefix_example =
    reads_prefix kernel true ("*" ∷ []) ("push" ∷ []) 1000 steps ((7 ∷ []) ∷ (7 ∷ []) ∷ []) 3 tt
      ping-Encoded (omega arith)

below : (run client steps).lag_count < lag_limit
unfolding run enqueue on_writable new
below = omega arith

below_limit-IsExact_example : IsExact (handed steps) (run client steps)
below_limit-IsExact_example =
    below_limit-IsExact kernel true ("*" ∷ []) ("push" ∷ []) 1000 steps tt below
