-- ===== src/Subscriber/Keeps.antt =====
-- `enqueue` and the writability callback of waitbus/broadcast.py's `Subscriber` keep the invariant.
use waitbus.Prelude.{
  ◌+◌, ◌≤◌, ◌≡◌, refl, sym, ap, ◌∙◌, ◌≢◌, inl, inr, Bool, true, false, List, [], ◌∷◌, ◌++◌,
  append-nil, append_assoc, arith, ◌==◌, if◌then◌else◌, Bool-cases, length, drop, length-append,
  take-append-drop, take_all,
}
use waitbus.Frame.{Bytes}
use waitbus.Subscriber.{
  lag_limit, send, queued_bytes, start_draining, queue_rest, after_send, append_queued, enqueue_by,
  enqueue, Socket, Sent, took, blocked, failed, Queued, Subscriber,
}
use waitbus.Subscriber.Sound.{
  Closed, FaultsStay, History, bytes_of, counted, counting, IsSound, SendLaw, send_law, GoneLaw,
  gone_law, bytes_of-snoc, counted-snoc, queued_bytes-snoc, counting-snoc, IsLive, IsGone, IsQueued,
}

module _ (h : History) (s : Subscriber) (busy : s.tx_queue ≢ []) where
  armed-IsSound : IsSound h s → IsSound h (record s { draining = true })
  armed-IsSound (q, inl v) = (
    record { armed = λ _. busy; bounded = q.bounded },
    inl (record { faults = v.faults; stream = v.stream; count = v.count }),
  )
  armed-IsSound (q, inr v) = (
    record { armed = λ _. busy; bounded = q.bounded },
    inr (record {
      closed = v.closed;
      lost = v.lost;
      stream = v.stream;
      count = v.count;
      lagged = v.lagged;
    }),
  )

  start_draining-IsSound : IsSound h s → IsSound h (start_draining s)
  unfolding start_draining
  start_draining-IsSound sound = go s.draining s.registers
    where
      go : (b r : Bool) → IsSound h (if b then s else if r then record s { draining = true } else s)
      go true r = sound
      go false true = armed-IsSound sound
      go false false = sound

append-cons-ne-nil : {A : Type 0} (x : A) (l : List A) → (l ++ x ∷ []) ≢ []
append-cons-ne-nil x [] e = cc
append-cons-ne-nil x (y ∷ l) e = cc

module _ (blob : Bytes) (counts : Bool) (h : History) where
  abbrev entry : Bytes → Queued
  entry b = record { remaining = b; counts_as_delivered = counts }

  abbrev longer : History
  longer = h ++ (blob, counts) ∷ []

  -- One more frame in the queue, and one more in the lag counter.
  abbrev appended : Subscriber → Bytes → Subscriber
  appended s rest = record s {
    tx_queue = s.tx_queue ++ entry rest ∷ [];
    lag_count = s.lag_count + 1;
  }

  queue_rest_lem :
      (s : Subscriber) (rest : Bytes) → queue_rest rest counts s ≡ start_draining (appended s rest)
  unfolding queue_rest
  queue_rest_lem s rest = ground arith

  appended-IsQueued :
      (s : Subscriber) (rest : Bytes) → length s.tx_queue ≤ s.lag_count → IsQueued (appended s rest)
  appended-IsQueued s rest b = record {
    armed = λ _. append-cons-ne-nil (entry rest) s.tx_queue;
    bounded = omega (arith, length-append s.tx_queue (entry rest ∷ []));
  }

  appended-live :
      (s : Subscriber) (rest : Bytes)
      → FaultsStay s.sock.answers
      → s.sock.sent ++ queued_bytes s.tx_queue ++ rest ≡ bytes_of h ++ blob
      → s.delivered + counting s.tx_queue ≡ counted h
      → length s.tx_queue ≤ s.lag_count
      → IsSound longer (start_draining (appended s rest))
  appended-live s rest f st ct b =
      start_draining-IsSound longer (appended s rest) (append-cons-ne-nil (entry rest) s.tx_queue) (
        appended-IsQueued s rest b,
        inl (record {
          faults = f;
          stream =
              rw
                (
                  queued_bytes-snoc rest counts s.tx_queue,
                  bytes_of-snoc blob counts h,
                  ← append_assoc,
                )
                st;
          count = ground (arith, counting-snoc rest counts s.tx_queue, counted-snoc blob counts h);
        }),
      )

  appended-gone :
      (s : Subscriber) (rest lost : Bytes)
      → Closed s.sock.answers
      → s.sock.sent ++ lost ≡ bytes_of h
      → s.delivered ≤ counted h
      → length s.tx_queue ≤ s.lag_count
      → lag_limit ≤ s.lag_count
      → IsSound longer (start_draining (appended s rest))
  appended-gone s rest lost f st ct b lag =
      start_draining-IsSound longer (appended s rest) (append-cons-ne-nil (entry rest) s.tx_queue) (
        appended-IsQueued s rest b,
        inr (record {
          closed = f;
          lost = lost ++ blob;
          stream = rw (bytes_of-snoc blob counts h, ← append_assoc, st);
          count = ground (arith, counted-snoc blob counts h);
          lagged = omega arith;
        }),
      )

  -- With nothing queued, the kernel has accepted all.
  all_sent : (s : Subscriber) → s.tx_queue ≡ [] → IsLive h s → s.sock.sent ≡ bytes_of h
  all_sent s e v =
      sym (append-nil s.sock.sent)
      ∙ ap (λ (q : List Queued). s.sock.sent ++ queued_bytes q) (sym e)
      ∙ v.stream

  none_counting : (s : Subscriber) → s.tx_queue ≡ [] → IsLive h s → s.delivered ≡ counted h
  none_counting s e v = let c = ap (λ (q : List Queued). counting q) e in omega (arith, c, v.count)

  after_send-live :
      (s : Subscriber) (r : Sent × Socket)
      → s.tx_queue ≡ []
      → IsQueued s
      → IsLive h s
      → SendLaw blob s.sock r
      → IsSound longer (after_send blob counts s r).0
  unfolding after_send
  after_send-live s (blocked, k) e q v (f, same) =
      rw (queue_rest_lem (record s { sock = k }) blob) (
        appended-live (record s { sock = k }) blob f
          (ap (λ b. b ++ blob) (ap (λ (b : Bytes). b ++ queued_bytes s.tx_queue) same ∙ v.stream))
          v.count q.bounded)
  after_send-live s (failed, k) e q v (c, same) =
      let l = ap (λ (q : List Queued). length q) e in
      (
        record { armed = q.armed; bounded = omega (arith, l) },
        inr (record {
          closed = c;
          lost = blob;
          stream = rw (bytes_of-snoc blob counts h, same, all_sent s e v);
          count = ground (arith, counted-snoc blob counts h, none_counting s e v);
          lagged = omega arith;
        }),
      )
  after_send-live s (took n, k) e q v (f, le, grew) = elim (Bool-cases (n == length blob)) [
    | inl whole ↦
        let l = ap (λ (q : List Queued). length q) e in
        rw whole (
          record { armed = q.armed; bounded = omega (arith, l) },
          inl (record {
            faults = f;
            stream = rw (
              e,
              append-nil,
              bytes_of-snoc blob counts h,
              grew,
              take_all n blob (ground (arith, whole)),
              all_sent s e v,
            );
            count = rw e (ground (arith, counted-snoc blob counts h, none_counting s e v));
          }),
        )
    | inr part ↦
        rw (part, queue_rest_lem (record s { sock = k }) (drop n blob))
          (appended-live (record s { sock = k }) (drop n blob) f
            (rw (e, append-nil, grew, append_assoc, take-append-drop n blob, all_sent s e v))
            v.count q.bounded)
  ]

  after_send-gone :
      (s : Subscriber) (r : Sent × Socket)
      → s.tx_queue ≡ []
      → IsQueued s
      → IsGone h s
      → GoneLaw s.sock r
      → IsSound longer (after_send blob counts s r).0
  unfolding after_send
  after_send-gone s (blocked, k) e q v (c, same) =
      rw (queue_rest_lem (record s { sock = k }) blob) (
        appended-gone (record s { sock = k }) blob v.lost c
          (ap (λ (b : Bytes). b ++ v.lost) same ∙ v.stream) v.count q.bounded v.lagged)
  after_send-gone s (failed, k) e q v (c, same) =
      let l = ap (λ (q : List Queued). length q) e in
      (
        record { armed = q.armed; bounded = omega (arith, l) },
        inr (record {
          closed = c;
          lost = v.lost ++ blob;
          stream = rw (bytes_of-snoc blob counts h, same, ← append_assoc, v.stream);
          count = ground (arith, counted-snoc blob counts h, v.count);
          lagged = omega arith;
        }),
      )
  after_send-gone s (took n, k) e q v c = absurd c

  append_queued-IsSound :
      (s : Subscriber) → IsSound h s → IsSound longer (append_queued blob counts s).0
  unfolding append_queued
  append_queued-IsSound s (q, inl v) =
      appended-live s blob v.faults (ap (λ b. b ++ blob) v.stream) v.count q.bounded
  append_queued-IsSound s (q, inr v) =
      appended-gone s blob v.lost v.closed v.stream v.count q.bounded v.lagged

  -- Whatever the kernel answers, a frame handed to `enqueue` is behind those handed before.
  pub enqueue-IsSound : (s : Subscriber) → IsSound h s → IsSound longer (enqueue blob counts s).0
  unfolding enqueue
  enqueue-IsSound s sound = go s.tx_queue refl sound
    where
      go :
          (l : List Queued)
          → s.tx_queue ≡ l
          → IsSound h s
          → IsSound longer (enqueue_by l blob counts s).0
      go [] e (q, inl v) =
          after_send-live s (send blob s.sock) e q v (send_law blob s.sock v.faults)
      go [] e (q, inr v) =
          after_send-gone s (send blob s.sock) e q v (gone_law blob s.sock v.closed)
      go (x ∷ l) e sound = append_queued-IsSound s sound
