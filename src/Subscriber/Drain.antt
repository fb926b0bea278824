-- ===== src/Subscriber/Drain.antt =====
-- `_drain` of waitbus/broadcast.py's `Subscriber` keeps the invariant.
use waitbus.Prelude.{
  ℕ, ◌+◌, ◌≤◌, ◌≡◌, refl, sym, ap, ◌∙◌, ◌≢◌, inl, inr, Bool, true, false, List, [], ◌∷◌, ◌++◌,
  append-nil, append_assoc, arith, ltb, if◌then◌else◌, Bool-cases, length, take, drop,
  take-append-drop, take_all,
}
use waitbus.Frame.{Bytes}
use waitbus.Subscriber.{
  lag_limit, send, queued_bytes, stop_draining, count_if, drain_head, drain_queue, finish_drain,
  drain, on_writable, Socket, Sent, took, blocked, failed, Queued, Subscriber, DrainEnd, emptied,
  waiting, gone, Drained,
}
use waitbus.Subscriber.Sound.{
  Closed, FaultsStay, History, counting, IsSound, SendLaw, send_law, GoneLaw, gone_law, IsLive,
  IsGone, IsQueued,
}

-- What the flush loop does with a queue `l`, by how it ends, on a connection that may be live.
abbrev DrainLaw : List Queued → Socket → Drained → DrainEnd → Type 0
DrainLaw l k d emptied =
    FaultsStay d.sock.answers
    × (d.queue ≡ [])
    × (d.sock.sent ≡ k.sent ++ queued_bytes l)
    × (d.counted ≡ counting l)
DrainLaw l k d waiting =
    FaultsStay d.sock.answers
    × (d.queue ≢ [])
    × (d.sock.sent ++ queued_bytes d.queue ≡ k.sent ++ queued_bytes l)
    × (d.counted + counting d.queue ≡ counting l)
    × (length d.queue ≤ length l)
DrainLaw l k d gone =
    (lost : Bytes) × Closed d.sock.answers
    × (d.queue ≡ [])
    × (d.sock.sent ++ lost ≡ k.sent ++ queued_bytes l)
    × (d.counted ≤ counting l)

-- The head frame went out whole: the rest of the loop decides.
whole_head :
    (q : Queued) (qs : List Queued) (k k' : Socket) (d : Drained) (e : DrainEnd)
    → k'.sent ≡ k.sent ++ q.remaining
    → DrainLaw qs k' d e
    → DrainLaw (q ∷ qs) k (record d { counted = count_if q.counts_as_delivered d.counted }) e
whole_head q qs k k' d emptied s (f, em, st, ct) =
    (f, em, rw (st, s, append_assoc), ground (arith, ct))
whole_head q qs k k' d waiting s (f, ne, st, ct, le) =
    (f, ne, rw (st, s, append_assoc), ground (arith, ct), omega arith)
whole_head q qs k k' d gone s (lost, c, em, st, ct) =
    (lost, c, em, rw (st, s, append_assoc), ground (arith, ct))

cut_inside : (n : ℕ) (a x r : Bytes) → (a ++ take n x) ++ (drop n x ++ r) ≡ a ++ (x ++ r)
cut_inside n a x r =
    append_assoc a (take n x) (drop n x ++ r)
    ∙ ap (λ b. a ++ b)
        (sym (append_assoc (take n x) (drop n x) r) ∙ ap (λ b. b ++ r) (take-append-drop n x))

drain_head_law :
    (q : Queued) (qs : List Queued) (k : Socket) (r : Sent × Socket) (rest : Socket → Drained)
    → SendLaw q.remaining k r
    → ((k' : Socket) → FaultsStay k'.answers → DrainLaw qs k' (rest k') (rest k').ended)
    → DrainLaw (q ∷ qs) k (drain_head q qs r rest) (drain_head q qs r rest).ended
unfolding drain_head
drain_head_law q qs k (blocked, k') rest (f, same) ih =
    (f, (λ e. cc), ap (λ (b : Bytes). b ++ queued_bytes (q ∷ qs)) same, omega arith, omega arith)
drain_head_law q qs k (failed, k') rest (c, same) ih = (
  queued_bytes (q ∷ qs),
  c,
  refl,
  ap (λ (b : Bytes). b ++ queued_bytes (q ∷ qs)) same,
  omega arith,
)
drain_head_law q qs k (took n, k') rest (f, le, grew) ih =
    elim (Bool-cases (ltb n (length q.remaining))) [
      | inl part ↦ rw part (
        f,
        (λ e. cc),
        rw grew (cut_inside n k.sent q.remaining (queued_bytes qs)),
        omega arith,
        omega arith,
      )
      | inr whole ↦ rw whole (
          whole_head q qs k k' (rest k') (rest k').ended
            (rw (grew, take_all n q.remaining (ground (arith, whole)))) (ih k' f))
    ]

drain_queue_law :
    (l : List Queued) (k : Socket)
    → FaultsStay k.answers
    → DrainLaw l k (drain_queue l k) (drain_queue l k).ended
unfolding drain_queue
drain_queue_law [] k f = (f, refl, sym (append-nil k.sent), refl)
drain_queue_law (q ∷ qs) k f =
    drain_head_law q qs k (send q.remaining k) (λ k'. drain_queue qs k') (send_law q.remaining k f)
      (λ k' f'. drain_queue_law qs k' f')

-- On a connection that is gone nothing more is sent.
abbrev GoneDrain : List Queued → Socket → Drained → DrainEnd → Type 0
GoneDrain l k d emptied = l ≡ []
GoneDrain l k d waiting =
    Closed d.sock.answers × (d.sock.sent ≡ k.sent) × (d.queue ≡ l) × (d.counted ≡ 0)
GoneDrain l k d gone =
    Closed d.sock.answers × (d.sock.sent ≡ k.sent) × (d.queue ≡ []) × (d.counted ≡ 0)

lost_head :
    (q : Queued) (qs : List Queued) (k : Socket) (r : Sent × Socket) (rest : Socket → Drained)
    → GoneLaw k r
    → GoneDrain (q ∷ qs) k (drain_head q qs r rest) (drain_head q qs r rest).ended
unfolding drain_head
lost_head q qs k (blocked, k') rest (c, same) = (c, same, refl, refl)
lost_head q qs k (failed, k') rest (c, same) = (c, same, refl, refl)
lost_head q qs k (took n, k') rest c = absurd c

lost_queue :
    (l : List Queued) (k : Socket)
    → Closed k.answers
    → GoneDrain l k (drain_queue l k) (drain_queue l k).ended
unfolding drain_queue
lost_queue [] k c = refl
lost_queue (q ∷ qs) k c =
    lost_head q qs k (send q.remaining k) (λ k'. drain_queue qs k') (gone_law q.remaining k c)

stop_draining_lem : (s : Subscriber) → stop_draining s ≡ record s { draining = false }
unfolding stop_draining
stop_draining_lem s = ground arith

disarmed : (s : Subscriber) → s.tx_queue ≡ [] → IsQueued (record s { draining = false })
disarmed s e =
    let l = ap (λ (q : List Queued). length q) e in
    record { armed = λ f. cc; bounded = omega (arith, l) }

module _ (h : History) (s : Subscriber) (q : IsQueued s) where
  -- The subscriber before `finish_drain`.
  abbrev flushed : Drained → Subscriber
  flushed d = record s { tx_queue = d.queue; sock = d.sock; delivered = s.delivered + d.counted }

  finish-live :
      IsLive h s
      → (d : Drained) (e : DrainEnd) → DrainLaw s.tx_queue s.sock d e
      → IsSound h (finish_drain (flushed d) e)
  unfolding finish_drain
  finish-live v d emptied (f, em, st, ct) = simp stop_draining_lem (
    disarmed (record (flushed d) { lag_count = 0 }) em,
    inl (record {
      faults = f;
      stream = rw (em, append-nil) (st ∙ v.stream);
      count = rw em (omega (arith, v.count));
    }),
  )
  finish-live v d waiting (f, ne, st, ct, le) = (
    record { armed = λ _. ne; bounded = omega (arith, q.bounded) },
    inl (record { faults = f; stream = st ∙ v.stream; count = omega (arith, v.count) }),
  )
  finish-live v d gone (lost, c, em, st, ct) = simp stop_draining_lem (
    disarmed (record (flushed d) { lag_count = lag_limit }) em,
    inr (record {
      closed = c;
      lost = lost;
      stream = st ∙ v.stream;
      count = omega (arith, v.count);
      lagged = omega arith;
    }),
  )

  finish-gone :
      s.tx_queue ≢ []
      → IsGone h s
      → (d : Drained) (e : DrainEnd) → GoneDrain s.tx_queue s.sock d e
      → IsSound h (finish_drain (flushed d) e)
  unfolding finish_drain
  finish-gone busy v d emptied e = absurd (busy e)
  finish-gone busy v d waiting (c, same, e, z) = (
    record { armed = λ _. rw e busy; bounded = rw e q.bounded },
    inr (record {
      closed = c;
      lost = v.lost;
      stream = ap (λ (b : Bytes). b ++ v.lost) same ∙ v.stream;
      count = omega (arith, v.count);
      lagged = v.lagged;
    }),
  )
  finish-gone busy v d gone (c, same, e, z) = simp stop_draining_lem (
    disarmed (record (flushed d) { lag_count = lag_limit }) e,
    inr (record {
      closed = c;
      lost = v.lost;
      stream = ap (λ (b : Bytes). b ++ v.lost) same ∙ v.stream;
      count = omega (arith, v.count);
      lagged = omega arith;
    }),
  )

drain-IsSound : (h : History) (s : Subscriber) → s.tx_queue ≢ [] → IsSound h s → IsSound h (drain s)
unfolding drain
drain-IsSound h s busy (q, inl v) =
    finish-live h s q v (drain_queue s.tx_queue s.sock) _
      (drain_queue_law s.tx_queue s.sock v.faults)
drain-IsSound h s busy (q, inr v) =
    finish-gone h s q busy v (drain_queue s.tx_queue s.sock) _
      (lost_queue s.tx_queue s.sock v.closed)

-- The writability callback hands nothing new to the subscriber, and loses nothing.
pub on_writable-IsSound : (h : History) (s : Subscriber) → IsSound h s → IsSound h (on_writable s)
unfolding on_writable
on_writable-IsSound h s sound = go s.draining (sound.0.armed)
  where
    go : (b : Bool) → (b ≡ true → s.tx_queue ≢ []) → IsSound h (if b then drain s else s)
    go true busy = drain-IsSound h s (busy refl) sound
    go false busy = sound
