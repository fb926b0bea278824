-- ===== src/Broadcast/Feed.antt =====
-- One subscriber of waitbus/broadcast.py under the rows that a pass fans out.
use waitbus.Prelude.{
  ℕ, ◌≤◌, ◌<◌, String, ◌≡◌, refl, inl, inr, Bool, true, false, ◌&&◌, Option, none, some, List, [],
  ◌∷◌, arith, ltb, ◌==◌, if◌then◌else◌, ltb→lt, le→not_leb, and_true, Bool-cases, length, drop,
}
use waitbus.Frame.{Bytes, Result, ok, err}
use waitbus.Subscriber.{
  send, start_draining, queue_rest, after_send, append_queued, enqueue_by, enqueue, Socket, Sent,
  took, blocked, failed, Queued, Subscriber,
}
use waitbus.Subscriber.Sound.{History}
use waitbus.Subscribe.{contains, any_filter}
use waitbus.Broadcast.{serialize, matches, deliver, past_watermark, fan_out_one, Row}

-- The rows of a pass, as one subscriber sees them; `none` when it is dropped, or the pass ends by an
-- exception.
unfoldable pub feed_row :
    Result Bytes → Row → Subscriber → (Subscriber → Option Subscriber) → Option Subscriber
feed_row (err e) r s go_on = none
feed_row (ok blob) r s go_on =
    let (s', dropped) = fan_out_one r blob s in
    let later = go_on s' in if dropped then none else later

unfoldable pub feed : List Row → Subscriber → Option Subscriber
unfolding feed_row
feed [] s = some s
feed (r ∷ rs) s = feed_row (serialize r) r s (λ s'. feed rs s')

-- What a subscriber asked for, and where it stands; `enqueue` does not touch these.
pub record Terms : Type 0 where
  pub filters : List String
  pub event_types : List String
  pub watermark : Option ℕ
  pub buffer : Option (List Bytes)

abbrev pub terms : Subscriber → Terms
terms s = record {
  filters = s.filters;
  event_types = s.event_types;
  watermark = s.replay_watermark;
  buffer = s.pre_ack_buffer;
}

start_draining-terms : (s : Subscriber) → terms (start_draining s) ≡ terms s
unfolding start_draining
start_draining-terms s = ground arith

queue_rest-terms :
    (rest : Bytes) (counts : Bool) (s : Subscriber) → terms (queue_rest rest counts s) ≡ terms s
unfolding queue_rest
queue_rest-terms rest counts s = ground arith

after_send-terms :
    (blob : Bytes) (counts : Bool) (s : Subscriber) (r : Sent × Socket)
    → terms (after_send blob counts s r).0 ≡ terms s
unfolding after_send
after_send-terms blob counts s (blocked, k) = queue_rest-terms blob counts (record s { sock = k })
after_send-terms blob counts s (failed, k) = refl
after_send-terms blob counts s (took n, k) = elim (Bool-cases (n == length blob)) [
  | inl whole ↦ rw whole
  | inr part ↦ rw part (queue_rest-terms (drop n blob) counts (record s { sock = k }))
]

append_queued-terms :
    (blob : Bytes) (counts : Bool) (s : Subscriber)
    → terms (append_queued blob counts s).0 ≡ terms s
unfolding append_queued
append_queued-terms blob counts s = ground arith

pub enqueue-terms :
    (blob : Bytes) (counts : Bool) (s : Subscriber) → terms (enqueue blob counts s).0 ≡ terms s
unfolding enqueue
enqueue-terms blob counts s = go s.tx_queue
  where
    go : (l : List Queued) → terms (enqueue_by l blob counts s).0 ≡ terms s
    go [] = after_send-terms blob counts s (send blob s.sock)
    go (q ∷ qs) = append_queued-terms blob counts s

-- The frames of rows, as a history of frames handed over.
abbrev pub wire_of : Row → Bytes
wire_of r = elim (serialize r) [ err e ↦ [] | ok blob ↦ blob ]

abbrev pub frames : List Row → History
frames [] = []
frames (r ∷ rs) = (wire_of r, true) ∷ frames rs

unfoldable pub select : (Row → Bool) → List Row → List Row
select p [] = []
select p (r ∷ rs) = let later = select p rs in if p r then r ∷ later else later

-- What a client asks for, by its filters and event types alone.
unfoldable pub wants : List String → List String → Row → Bool
wants filters types r = contains types r.event_type && any_filter filters r.owner r.repo

-- Due to a client: it asks for the row, and the row is above the watermark `w`.
unfoldable pub due : List String → List String → ℕ → Row → Bool
unfolding wants
due filters types w r = wants filters types r && ltb w r.seq

abbrev pub AllAbove : ℕ → List Row → Type 0
AllAbove w [] = Unit
AllAbove w (r ∷ rs) = (w < r.seq) × AllAbove w rs

-- The watermark is set at `w`, or it is cleared and no row at or below `w` is to come.
abbrev pub Watch : ℕ → Option ℕ → List Row → Type 0
Watch w (some v) rs = v ≡ w
Watch w none rs = AllAbove w rs

-- Rows in the order of `seq`.
abbrev pub Ascending : List Row → Type 0
Ascending [] = Unit
Ascending (r ∷ rs) = AllAbove r.seq rs × Ascending rs

pub AllAbove-trans : (v w : ℕ) (rs : List Row) → v ≤ w → AllAbove w rs → AllAbove v rs
AllAbove-trans v w [] h a = tt
AllAbove-trans v w (r ∷ rs) h a = (omega (arith, a.0), AllAbove-trans v w rs h a.1)

past_watermark-above :
    (o : Option ℕ) (seq : ℕ) (blob : Bytes) (s : Subscriber) (w : ℕ)
    → s.replay_watermark ≡ o
    → ((v : ℕ) → o ≡ some v → v ≡ w)
    → w < seq
    → past_watermark o seq blob s ≡ deliver blob (record s { replay_watermark = none })
unfolding past_watermark
past_watermark-above none seq blob s w e k h =
    λ i. deliver blob (record s { replay_watermark = e i })
past_watermark-above (some v) seq blob s w e k h = rw (le→not_leb seq v (omega (arith, k v refl)))

-- A row that is due is delivered, with the watermark cleared; any other changes nothing.
pub fan_out_one-due :
    (r : Row) (blob : Bytes) (s : Subscriber) (w : ℕ) (rs : List Row)
    → Watch w s.replay_watermark (r ∷ rs)
    → due s.filters s.event_types w r ≡ true
    → fan_out_one r blob s ≡ deliver blob (record s { replay_watermark = none })
unfolding fan_out_one due
fan_out_one-due r blob s w rs a d =
    let parts = and_true (wants s.filters s.event_types r) (ltb w r.seq) d in
    rw (parts.0) (
      past_watermark-above s.replay_watermark r.seq blob s w refl (watch_set s.replay_watermark a)
        (ltb→lt w r.seq parts.1))
  where
    watch_set : (o : Option ℕ) → Watch w o (r ∷ rs) → (v : ℕ) → o ≡ some v → v ≡ w
    watch_set none a v e = cc
    watch_set (some u) a v e = cc

pub fan_out_one-not_due :
    (r : Row) (blob : Bytes) (s : Subscriber) (w : ℕ) (rs : List Row)
    → Watch w s.replay_watermark (r ∷ rs)
    → due s.filters s.event_types w r ≡ false
    → fan_out_one r blob s ≡ (s, false)
unfolding fan_out_one due
fan_out_one-not_due r blob s w rs a d = ground arith

-- The first row of a feed that succeeds.
pub feed-cons :
    (r : Row) (rs : List Row) (s s' : Subscriber)
    → feed (r ∷ rs) s ≡ some s'
    → ((fan_out_one r (wire_of r) s).1 ≡ false)
      × (feed rs (fan_out_one r (wire_of r) s).0 ≡ some s')
unfolding feed
feed-cons r rs s s' h = go (serialize r) h
  where
    go :
        (o : Result Bytes)
        → feed_row o r s (λ t. feed rs t) ≡ some s'
        → ((fan_out_one r (elim o [ err e ↦ [] | ok blob ↦ blob ]) s).1 ≡ false)
          × (feed rs (fan_out_one r (elim o [ err e ↦ [] | ok blob ↦ blob ]) s).0 ≡ some s')
    go (err e) h = cc
    go (ok blob) h = ground arith

pub feed-nil : (s s' : Subscriber) → feed [] s ≡ some s' → s ≡ s'
unfolding feed
feed-nil s s' h = cc

pub matches-wants : (s : Subscriber) (r : Row) → matches s r ≡ wants s.filters s.event_types r
unfolding matches wants
matches-wants s r = refl
