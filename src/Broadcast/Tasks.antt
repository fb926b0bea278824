-- ===== src/Broadcast/Tasks.antt =====
-- The tasks of waitbus/broadcast.py's `Broadcast` on their event loop, as a step relation: the parts
-- of a task between its suspension points, in any order. `P` tells the payloads that the daemon sends.
-- `pending` is, by descriptor, what a handshake still has to send of its acknowledgement.
pub mod Whole
pub mod Handed
pub mod Ended
pub mod Dict
pub mod Unsent
pub mod Keeps
pub mod Reads
pub mod Tests
use waitbus.Prelude.{
  ℕ, ◌<◌, ◌≡◌, Bool, Option, none, some, List, [], ◌∷◌, ◌==◌, if◌then◌else◌, length,
}
use waitbus.Frame.{Bytes, encode_frame, ok}
use waitbus.Subscriber.{send, on_writable, Send, Socket, Sent, took, blocked, failed, Subscriber}
use waitbus.Subscriber.Sound.{FaultsStay}
use waitbus.Subscriber.Runs.{fresh}
use waitbus.Broadcast.{find, close_all, heartbeat, broadcast_pass, Row, shutdown, Daemon}
use waitbus.Broadcast.Handshake.{
  registered, register, update, send_ack, finish_subscribe, ack_timed_out, Request,
}

-- A handshake that has `rest` to send of its acknowledgement, and then, or at once, to go on
pub record Pending : Type 0 where
  pub rest : Bytes
  pub request : Request
  pub until_seq : Option ℕ

pub record EventLoop : Type 0 where
  pub daemon : Daemon
  pub pending : ℕ → Option Pending

abbrev pub assign : ℕ → Option Pending → (ℕ → Option Pending) → ℕ → Option Pending
assign fd o pending k = if k == fd then o else pending k

abbrev pub on_daemon : (Daemon → Daemon) → EventLoop → EventLoop
on_daemon f w = record w { daemon = f w.daemon }

-- A connection is accepted and its envelope taken up; the acknowledgement is still to be sent.
abbrev pub accepted_world :
    ℕ → List Send → Bool → ℕ → List Row → Request → Bytes → EventLoop → EventLoop
accepted_world fd l registers uid table q ack w =
    let s = registered (fresh l) registers uid table q in
    record {
      daemon = register fd s w.daemon;
      pending =
          assign fd (some (record { rest = ack; request = q; until_seq = s.replay_watermark }))
            w.pending;
    }

abbrev pub still_pending : Pending → Option Bytes → Option Pending
still_pending p none = none
still_pending p (some rest) = some (record p { rest = rest })

-- One `send` of the acknowledgement
abbrev pub acknowledged_world : ℕ → Pending → EventLoop → EventLoop
acknowledged_world fd p w =
    let r = send_ack fd p.rest w.daemon in
    record { daemon = r.0; pending = assign fd (still_pending p r.1) w.pending }

-- The rest of the handshake
abbrev pub finished_world : ℕ → Pending → List Row → Bool → EventLoop → EventLoop
finished_world fd p table db_fault w = record {
  daemon = finish_subscribe fd table db_fault p.request p.until_seq w.daemon;
  pending = assign fd none w.pending;
}

-- If the kernel takes bytes of the acknowledgement, then all of them, and nothing waits in the queue.
abbrev pub TakenWhole : Bytes → Subscriber → Sent × Socket → Type 0
TakenWhole rest s (took n, k) = (n ≡ length rest) × (s.tx_queue ≡ [])
TakenWhole rest s (blocked, k) = Unit
TakenWhole rest s (failed, k) = Unit

abbrev pub AckFits : Bytes → Option Subscriber → Type 0
AckFits rest none = Unit
AckFits rest (some s) = TakenWhole rest s (send rest s.sock)

module _ (P : Bytes → Type 0) where
  -- One encoded payload
  abbrev pub IsFrame : Bytes → Type 0
  IsFrame blob =
      (payload : Bytes) × P payload × (0 < length payload) × (encode_frame payload ≡ ok blob)

  abbrev pub AllTexts : List Row → Type 0
  AllTexts [] = Unit
  AllTexts (r ∷ rs) =
      ((P r.event_json × (0 < length r.event_json)) × (P r.stub_json × (0 < length r.stub_json)))
      × AllTexts rs

  -- A connection is accepted; a handshake sends its acknowledgement, goes on behind it, or gives up; a sweep; a tick of
  -- the heartbeat; a socket has become writable; clients are closed at the shutdown.
  pub data Step : EventLoop → EventLoop → Type 0 where
    accept :
        (w : EventLoop) (fd : ℕ) (l : List Send) (registers : Bool) (uid : ℕ) (table : List Row)
        (q : Request) (ack : Bytes)
        → FaultsStay l
        → IsFrame ack
        → Step w (accepted_world fd l registers uid table q ack w)
    acknowledge :
        (w : EventLoop) (fd : ℕ) (p : Pending)
        → w.pending fd ≡ some p
        → 0 < length p.rest
        → Step w (acknowledged_world fd p w)
    finish :
        (w : EventLoop) (fd : ℕ) (p : Pending) (table : List Row) (db_fault : Bool)
        → w.pending fd ≡ some p
        → p.rest ≡ []
        → AllTexts table
        → Step w (finished_world fd p table db_fault w)
    gives_up :
        (w : EventLoop) (fd : ℕ) (p : Pending)
        → w.pending fd ≡ some p
        → Step w (record { daemon = ack_timed_out fd w.daemon; pending = assign fd none w.pending })
    sweep :
        (w : EventLoop) (table : List Row)
        → AllTexts table
        → Step w (on_daemon (λ d. (broadcast_pass table d).0) w)
    beat :
        (w : EventLoop) (blob : Bytes) → IsFrame blob → Step w (on_daemon (λ d. heartbeat blob d) w)
    becomes_writable :
        (w : EventLoop) (fd : ℕ) (s : Subscriber)
        → find fd w.daemon.subscribers ≡ some s
        → Step w (on_daemon (λ d. update fd (on_writable s) d) w)
    shut : (w : EventLoop) (fds : List ℕ) → Step w (on_daemon (λ d. close_all fds shutdown d) w)

  pub data Reach (start : EventLoop) : EventLoop → Type 0 where
    here : Reach start start
    next : {w w' : EventLoop} → Reach start w → Step w w' → Reach start w'

  -- What `AckFits` says, of every `send` of an acknowledgement in a run
  abbrev pub StepFits : {w w' : EventLoop} → Step w w' → Type 0
  StepFits (acknowledge w fd p e more) = AckFits p.rest (find fd w.daemon.subscribers)
  StepFits _ = Unit

  abbrev pub AcksFit : {start w : EventLoop} → Reach start w → Type 0
  AcksFit here = Unit
  AcksFit (next r st) = AcksFit r × StepFits st

abbrev pub AllSubs : (Subscriber → Type 0) → List (ℕ × Subscriber) → Type 0
AllSubs Q [] = Unit
AllSubs Q ((fd, s) ∷ subs) = Q s × AllSubs Q subs
