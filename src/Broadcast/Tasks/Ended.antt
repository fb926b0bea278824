-- ===== src/Broadcast/Tasks/Ended.antt =====
-- The handshake and the end of a subscriber of waitbus/broadcast.py, in whole frames.
use waitbus.Prelude.{
  ℕ, ◌≡◌, refl, sym, ap, ◌∙◌, subst, ◌⊎◌, inl, inr, true, false, ◌&&◌, List, [], ◌∷◌, ◌++◌,
  append_assoc, if◌then◌else◌, and_true, Bool-cases, take, drop, take-append-drop,
}
use waitbus.Frame.{Bytes}
use waitbus.Subscriber.{
  send, queued_bytes, stop_draining, Socket, Sent, took, blocked, failed, Queued, Subscriber,
}
use waitbus.Subscriber.Sound.{
  History, bytes_of, SendLaw, send_law, GoneLaw, gone_law, bytes_of-snoc, IsLive, IsGone,
}
use waitbus.Broadcast.{has_reject_frame, is_empty, closing, Reason}
use waitbus.Broadcast.Tasks.{IsFrame}
use waitbus.Broadcast.Tasks.Whole.{AllFrames, AllFrames-snoc, IsWhole}
use waitbus.Broadcast.Tasks.Handed.{all_sent}

closing-sock :
    (reject : Bytes) (reason : Reason) (s : Subscriber)
    → (closing reject reason s).sock
      ≡ (if has_reject_frame reason && is_empty s.tx_queue then (send reject s.sock).1 else s.sock)
unfolding closing stop_draining
closing-sock reject reason s = elim (Bool-cases s.draining) [
  | inl busy ↦ rw busy refl
  | inr idle ↦ rw idle refl
]

is_empty-nil : (l : List Queued) → is_empty l ≡ true → l ≡ []
unfolding is_empty
is_empty-nil [] e = refl
is_empty-nil (q ∷ l) e = cc

module _ (P : Bytes → Type 0) where
  -- What was sent to a client that is gone is the first part of whole frames.
  pub record IsEnded (sent : Bytes) : Type 0 where
    pub history : History
    pub framed : AllFrames P history
    pub missing : Bytes
    pub stream : sent ++ missing ≡ bytes_of history

  pub sent-IsEnded : (s : Subscriber) → IsWhole P s → IsEnded s.sock.sent
  sent-IsEnded s w = go w.sound.1
    where
      go : (IsLive w.history s ⊎ IsGone w.history s) → IsEnded s.sock.sent
      go (inl v) = record {
        history = w.history;
        framed = w.framed;
        missing = queued_bytes s.tx_queue;
        stream = v.stream;
      }
      go (inr v) = record {
        history = w.history;
        framed = w.framed;
        missing = v.lost;
        stream = v.stream;
      }

  part_live :
      (s : Subscriber) (blob : Bytes) (n : ℕ) (h : History)
      → AllFrames P h
      → IsLive h s
      → IsFrame P blob
      → s.tx_queue ≡ []
      → IsEnded (s.sock.sent ++ take n blob)
  part_live s blob n h framed v f idle = record {
    history = h ++ (blob, false) ∷ [];
    framed = AllFrames-snoc P h blob false framed f;
    missing = drop n blob;
    stream =
        append_assoc s.sock.sent (take n blob) (drop n blob)
        ∙ rw (take-append-drop n blob, bytes_of-snoc blob false h)
            (ap (λ (b : Bytes). b ++ blob) (all_sent P h s v idle));
  }

  goodbye_live :
      (s : Subscriber) (reject : Bytes) (w : IsWhole P s) (r : Sent × Socket)
      → IsFrame P reject
      → s.tx_queue ≡ []
      → IsLive w.history s
      → SendLaw reject s.sock r
      → IsEnded r.1.sent
  goodbye_live s reject w (blocked, k) f idle v (_, e) =
      subst (λ (b : Bytes). IsEnded b) (sym e) (sent-IsEnded s w)
  goodbye_live s reject w (failed, k) f idle v (_, e) =
      subst (λ (b : Bytes). IsEnded b) (sym e) (sent-IsEnded s w)
  goodbye_live s reject w (took n, k) f idle v (_, _, e) =
      subst (λ (b : Bytes). IsEnded b) (sym e) (part_live s reject n w.history w.framed v f idle)

  goodbye_gone :
      (s : Subscriber) (w : IsWhole P s) (r : Sent × Socket) → GoneLaw s.sock r → IsEnded r.1.sent
  goodbye_gone s w (blocked, k) (_, e) = subst (λ (b : Bytes). IsEnded b) (sym e) (sent-IsEnded s w)
  goodbye_gone s w (failed, k) (_, e) = subst (λ (b : Bytes). IsEnded b) (sym e) (sent-IsEnded s w)
  goodbye_gone s w (took n, k) l = absurd l

  goodbye-IsEnded :
      (s : Subscriber) (reject : Bytes)
      → IsFrame P reject
      → s.tx_queue ≡ []
      → IsWhole P s
      → IsEnded (send reject s.sock).1.sent
  goodbye-IsEnded s reject f idle w = go w.sound.1
    where
      go : (IsLive w.history s ⊎ IsGone w.history s) → IsEnded (send reject s.sock).1.sent
      go (inl v) =
          goodbye_live s reject w (send reject s.sock) f idle v (send_law reject s.sock v.faults)
      go (inr v) = goodbye_gone s w (send reject s.sock) (gone_law reject s.sock v.closed)

  -- A client that is closed, with or without the reject frame
  pub closing-IsEnded :
      (reject : Bytes) (reason : Reason) (s : Subscriber)
      → IsFrame P reject
      → IsWhole P s
      → IsEnded (closing reject reason s).sock.sent
  closing-IsEnded reject reason s f w =
      elim (Bool-cases (has_reject_frame reason && is_empty s.tx_queue)) [
        | inl says ↦
            rw (closing-sock reject reason s, says)
              (goodbye-IsEnded s reject f (is_empty-nil s.tx_queue (and_true _ _ says).1) w)
        | inr silent ↦ rw (closing-sock reject reason s, silent) (sent-IsEnded s w)
      ]
