-- ===== src/Subscriber/Sound.antt =====
-- The invariant of the outbound queue of waitbus/broadcast.py's `Subscriber`: what it was handed is
-- what the kernel has accepted, followed by what is queued.
use waitbus.Prelude.{
  ℕ, ◌+◌, ◌≤◌, ◌≡◌, refl, ◌≢◌, ◌⊎◌, Bool, true, List, [], ◌∷◌, ◌++◌, append-nil, append_assoc,
  arith, length, take,
}
use waitbus.Frame.{Bytes}
use waitbus.Subscriber.{
  lag_limit, send, queued_bytes, count_if, Send, accepts, would_block, broken, Socket, Sent, took,
  blocked, failed, Queued, Subscriber,
}

-- No byte is accepted any more.
abbrev pub Closed : List Send → Type 0
Closed [] = Unit
Closed (accepts n ∷ l) = ⊥
Closed (would_block ∷ l) = Closed l
Closed (broken ∷ l) = Closed l

-- A connection that is gone does not come back.
abbrev pub FaultsStay : List Send → Type 0
FaultsStay [] = Unit
FaultsStay (broken ∷ l) = Closed l
FaultsStay (accepts n ∷ l) = FaultsStay l
FaultsStay (would_block ∷ l) = FaultsStay l

-- The frames handed to a subscriber, oldest first, and whether each counts as delivered.
abbrev pub History : Type 0
History = List (Bytes × Bool)

abbrev pub bytes_of : History → Bytes
bytes_of [] = []
bytes_of ((blob, counts) ∷ h) = blob ++ bytes_of h

abbrev pub counted : History → ℕ
counted [] = 0
counted ((blob, counts) ∷ h) = count_if counts (counted h)

abbrev pub counting : List Queued → ℕ
counting [] = 0
counting (q ∷ qs) = count_if q.counts_as_delivered (counting qs)

pub record IsLive (h : History) (s : Subscriber) : Type 0 where
  pub faults : FaultsStay s.sock.answers
  pub stream : s.sock.sent ++ queued_bytes s.tx_queue ≡ bytes_of h
  pub count : s.delivered + counting s.tx_queue ≡ counted h

pub record IsGone (h : History) (s : Subscriber) : Type 0 where
  pub closed : Closed s.sock.answers
  pub lost : Bytes
  pub stream : s.sock.sent ++ lost ≡ bytes_of h
  pub count : s.delivered ≤ counted h
  pub lagged : lag_limit ≤ s.lag_count

-- The callback is armed only over a queue, and a queued frame is one more in the lag counter.
pub record IsQueued (s : Subscriber) : Type 0 where
  pub armed : s.draining ≡ true → s.tx_queue ≢ []
  pub bounded : length s.tx_queue ≤ s.lag_count

abbrev pub IsSound : History → Subscriber → Type 0
IsSound h s = IsQueued s × (IsLive h s ⊎ IsGone h s)

-- What one `send` does on a connection that may be live.
abbrev pub SendLaw : Bytes → Socket → Sent × Socket → Type 0
SendLaw view k (blocked, k') = FaultsStay k'.answers × (k'.sent ≡ k.sent)
SendLaw view k (failed, k') = Closed k'.answers × (k'.sent ≡ k.sent)
SendLaw view k (took n, k') =
    FaultsStay k'.answers × (n ≤ length view) × (k'.sent ≡ k.sent ++ take n view)

pub send_law : (view : Bytes) (k : Socket) → FaultsStay k.answers → SendLaw view k (send view k)
unfolding send
send_law view k h = go k.answers h
  where
    go :
        (l : List Send)
        → FaultsStay l
        → SendLaw view k (send view (record { sent = k.sent; answers = l }))
    go [] h = (h, refl)
    go (accepts n ∷ l) h = (h, omega arith, refl)
    go (would_block ∷ l) h = (h, refl)
    go (broken ∷ l) h = (h, refl)

-- And on one that is gone.
abbrev pub GoneLaw : Socket → Sent × Socket → Type 0
GoneLaw k (blocked, k') = Closed k'.answers × (k'.sent ≡ k.sent)
GoneLaw k (failed, k') = Closed k'.answers × (k'.sent ≡ k.sent)
GoneLaw k (took n, k') = ⊥

pub gone_law : (view : Bytes) (k : Socket) → Closed k.answers → GoneLaw k (send view k)
unfolding send
gone_law view k h = go k.answers h
  where
    go : (l : List Send) → Closed l → GoneLaw k (send view (record { sent = k.sent; answers = l }))
    go [] h = (h, refl)
    go (accepts n ∷ l) h = absurd h
    go (would_block ∷ l) h = (h, refl)
    go (broken ∷ l) h = (h, refl)

module _ (blob : Bytes) (counts : Bool) where
  pub bytes_of-snoc : (h : History) → bytes_of (h ++ (blob, counts) ∷ []) ≡ bytes_of h ++ blob
  bytes_of-snoc [] = append-nil blob
  bytes_of-snoc ((b, c) ∷ h) = rw (bytes_of-snoc h, append_assoc)

  pub counted-snoc :
      (h : History) → counted (h ++ (blob, counts) ∷ []) ≡ count_if counts (counted h)
  counted-snoc [] = refl
  counted-snoc ((b, c) ∷ h) = ground (arith, counted-snoc h)

  pub queued_bytes-snoc :
      (l : List Queued)
      → queued_bytes (l ++ record { remaining = blob; counts_as_delivered = counts } ∷ [])
        ≡ queued_bytes l ++ blob
  queued_bytes-snoc [] = append-nil blob
  queued_bytes-snoc (q ∷ l) = rw (queued_bytes-snoc l, append_assoc)

  pub counting-snoc :
      (l : List Queued)
      → counting (l ++ record { remaining = blob; counts_as_delivered = counts } ∷ [])
        ≡ count_if counts (counting l)
  counting-snoc [] = refl
  counting-snoc (q ∷ l) = ground (arith, counting-snoc l)
