-- ===== src/Broadcast/Live.antt =====
-- Rows that reach a subscriber of waitbus/broadcast.py after its acknowledgement: one row that is
-- due is handed over once.
use waitbus.Prelude.{
  ℕ, ◌<◌, String, ◌≡◌, sym, ap, ◌∙◌, subst, inl, inr, Bool, true, false, Option, none, some, List,
  [], ◌∷◌, ◌++◌, append-nil, arith, ltb, leb, ltb→lt, and_true, Bool-cases,
}
use waitbus.Frame.{Bytes}
use waitbus.Subscriber.{lag_limit, enqueue, Subscriber}
use waitbus.Subscriber.Sound.{History, IsSound}
use waitbus.Subscriber.Keeps.{enqueue-IsSound}
use waitbus.Broadcast.{deliver, fan_out_one, Row}
use waitbus.Broadcast.Feed.{
  enqueue-terms, wire_of, wants, due, AllAbove, Watch, AllAbove-trans, fan_out_one-due,
  fan_out_one-not_due, Terms,
}

-- The invariant reads nothing of the watermark and the buffer.
pub regated-IsSound :
    (h : History) (s : Subscriber) (o : Option ℕ) (b : Option (List Bytes)) (n : ℕ)
    → IsSound h s
    → IsSound h (record s { replay_watermark = o; pre_ack_buffer = b; pre_ack_buffered_bytes = n })
regated-IsSound h s o b n (q, inl v) = (
  record { armed = q.armed; bounded = q.bounded },
  inl (record { faults = v.faults; stream = v.stream; count = v.count }),
)
regated-IsSound h s o b n (q, inr v) = (
  record { armed = q.armed; bounded = q.bounded },
  inr (record {
    closed = v.closed;
    lost = v.lost;
    stream = v.stream;
    count = v.count;
    lagged = v.lagged;
  }),
)

pub deliver-open :
    (blob : Bytes) (s : Subscriber)
    → s.pre_ack_buffer ≡ none
    → deliver blob s ≡ ((enqueue blob true s).0, leb lag_limit (enqueue blob true s).0.lag_count)
unfolding deliver
deliver-open blob s e = rw e

-- A subscriber past its acknowledgement, with these filters and event types.
pub record IsOpen (filters types : List String) (s : Subscriber) : Type 0 where
  pub filters_eq : s.filters ≡ filters
  pub types_eq : s.event_types ≡ types
  pub buffer_eq : s.pre_ack_buffer ≡ none

abbrev pub after_row : Bool → Row → History
after_row true r = (wire_of r, true) ∷ []
after_row false r = []

module _ (filters types : List String) (w : ℕ) where
  -- One row.
  pub record Stepped (h : History) (r : Row) (rs : List Row) (s : Subscriber) : Type 0 where
    pub sound : IsSound (h ++ after_row (due filters types w r) r) s
    pub watch : Watch w s.replay_watermark rs
    pub opened : IsOpen filters types s

  cleared_later : (r : Row) (rs : List Row) (o : Option ℕ) → Watch w o (r ∷ rs) → Watch w o rs
  cleared_later r rs none a = a.1
  cleared_later r rs (some v) a = a

  delivered_step :
      (h : History) (r : Row) (rs : List Row) (s : Subscriber)
      → IsSound h s
      → IsOpen filters types s
      → AllAbove w rs
      → due filters types w r ≡ true
      → Stepped h r rs (enqueue (wire_of r) true (record s { replay_watermark = none })).0
  delivered_step h r rs s sound o above d =
      let s0 : Subscriber = record s { replay_watermark = none } in
      let t = enqueue-terms (wire_of r) true s0 in
      record {
        sound = rw d (
            enqueue-IsSound (wire_of r) true h s0
              (regated-IsSound h s none s.pre_ack_buffer s.pre_ack_buffered_bytes sound));
        watch =
            subst (λ (x : Option ℕ). Watch w x rs) (sym (ap (λ (x : Terms). x.watermark) t)) above;
        opened = record {
          filters_eq = ap (λ (x : Terms). x.filters) t ∙ o.filters_eq;
          types_eq = ap (λ (x : Terms). x.event_types) t ∙ o.types_eq;
          buffer_eq = ap (λ (x : Terms). x.buffer) t ∙ o.buffer_eq;
        };
      }

  cleared_above :
      (r : Row) (rs : List Row) (o : Option ℕ)
      → AllAbove r.seq rs
      → Watch w o (r ∷ rs)
      → w < r.seq
      → AllAbove w rs
  cleared_above r rs o above a h = AllAbove-trans w r.seq rs (omega arith) above

  pub step :
      (h : History) (r : Row) (rs : List Row) (s : Subscriber)
      → IsSound h s
      → IsOpen filters types s
      → Watch w s.replay_watermark (r ∷ rs)
      → AllAbove r.seq rs
      → Stepped h r rs (fan_out_one r (wire_of r) s).0
  step h r rs s sound o a above = elim (Bool-cases (due filters types w r)) [
    | inl d ↦
        let d' : due s.filters s.event_types w r ≡ true = rw (o.filters_eq, o.types_eq) d in
        let p = and_true (wants filters types r) (ltb w r.seq) (unfold due in d) in
        rw
          (
            fan_out_one-due r (wire_of r) s w rs a d',
            deliver-open (wire_of r) (record s { replay_watermark = none }) o.buffer_eq,
          )
          (delivered_step h r rs s sound o
            (AllAbove-trans w r.seq rs (omega (arith, ltb→lt w r.seq p.1)) above) d)
    | inr n ↦
        let n' : due s.filters s.event_types w r ≡ false = rw (o.filters_eq, o.types_eq) n in
        rw (fan_out_one-not_due r (wire_of r) s w rs a n') (record {
          sound = rw (n, append-nil) sound;
          watch = cleared_later r rs s.replay_watermark a;
          opened = o;
        })
  ]
