-- ===== src/Broadcast/Tasks/Reads.antt =====
-- What the clients of waitbus/broadcast.py read, whatever its tasks do.
use waitbus.Prelude.{ℕ, ◌<◌, ◌≡◌, none, List, [], ◌∷◌, length, take}
use waitbus.Frame.{Bytes, read_frames}
use waitbus.Frame.Cut.{ends_at, read_frames-prefix, Encoded, none_left, one_more}
use waitbus.Subscriber.{Subscriber}
use waitbus.Subscriber.Sound.{History, bytes_of}
use waitbus.Broadcast.Tasks.{IsFrame, AcksFit, AllSubs, EventLoop, Reach}
use waitbus.Broadcast.Tasks.Whole.{AllFrames, IsWhole}
use waitbus.Broadcast.Tasks.Ended.{sent-IsEnded, IsEnded}
use waitbus.Broadcast.Tasks.Keeps.{Reach-IsSafe}

-- Before the first connection
abbrev pub idle_world : Bytes → ℕ → EventLoop
idle_world reject_frame cursor = record {
  daemon = record { subscribers = []; closed = []; cursor = cursor; reject_frame = reject_frame };
  pending = λ fd. none;
}

module _ (P : Bytes → Type 0) where
  abbrev pub AllPayloads : List Bytes → Type 0
  AllPayloads [] = Unit
  AllPayloads (p ∷ ps) = P p × AllPayloads ps

  -- With enough fuel, a peer that has received `sent` reads the first of some payloads that the daemon
  -- sends, and then ends cleanly or by a connection error.
  pub record ReadsFrames (sent : Bytes) : Type 0 where
    pub payloads : List Bytes
    pub all_sent : AllPayloads payloads
    pub reads :
        (fuel : ℕ)
        → length payloads < fuel
        → (n k : ℕ) × (read_frames fuel sent ≡ (take n payloads, ends_at k))

  record Decoded (wire : Bytes) : Type 0 where
    pub payloads : List Bytes
    pub all_sent : AllPayloads payloads
    pub encoded : Encoded payloads wire

  decoded : (h : History) → AllFrames P h → Decoded (bytes_of h)
  decoded [] a = record { payloads = []; all_sent = tt; encoded = none_left }
  decoded ((blob, counts) ∷ h) ((payload, p, some_byte, e), a) =
      let r = decoded h a in
      record {
        payloads = payload ∷ r.payloads;
        all_sent = (p, r.all_sent);
        encoded = one_more payload blob e some_byte r.encoded;
      }

  IsEnded-ReadsFrames : (sent : Bytes) → IsEnded P sent → ReadsFrames sent
  IsEnded-ReadsFrames sent v =
      let r = decoded v.history v.framed in
      record {
        payloads = r.payloads;
        all_sent = r.all_sent;
        reads = λ fuel enough. read_frames-prefix fuel sent v.missing r.encoded v.stream enough;
      }

  AllSubs-map :
      (Q R : Subscriber → Type 0) (subs : List (ℕ × Subscriber))
      → ((s : Subscriber) → Q s → R s)
      → AllSubs Q subs
      → AllSubs R subs
  AllSubs-map Q R [] f a = tt
  AllSubs-map Q R ((fd, s) ∷ subs) f a = (f s a.0, AllSubs-map Q R subs f a.1)

  -- From a daemon with no clients, whatever its tasks do in whatever order and whatever the kernel
  -- answers, if every `send` of an acknowledgement that takes bytes takes all of them, behind an empty
  -- queue: every client, connected or closed, reads payloads that the daemon sends, each whole and
  -- unchanged, and then a clean end or a connection error, never a payload that was not sent.
  pub Reach-ReadsFrames :
      {w : EventLoop} (reject_frame : Bytes) (cursor : ℕ)
      → IsFrame P reject_frame
      → (run : Reach P (idle_world reject_frame cursor) w) → AcksFit P run
      → AllSubs (λ s. ReadsFrames s.sock.sent) w.daemon.subscribers
        × AllSubs (λ s. ReadsFrames s.sock.sent) w.daemon.closed
  Reach-ReadsFrames reject_frame cursor f r fits =
      let v =
        (Reach-IsSafe P (record { clients = tt; ended = tt; reject = f }, λ fd p e. cc) r fits).0 in
      (
        AllSubs-map (λ s. IsWhole P s) (λ s. ReadsFrames s.sock.sent) _
            (λ s x. IsEnded-ReadsFrames s.sock.sent (sent-IsEnded P s x)) v.clients,
        AllSubs-map (λ s. IsEnded P s.sock.sent) (λ s. ReadsFrames s.sock.sent) _
            (λ s x. IsEnded-ReadsFrames s.sock.sent x) v.ended,
      )
