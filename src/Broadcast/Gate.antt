-- ===== src/Broadcast/Gate.antt =====
-- Rows that reach a subscriber of waitbus/broadcast.py before its acknowledgement: each row above
-- the watermark is buffered once, in order, and nothing is sent.
use waitbus.Prelude.{
  ℕ, ◌+◌, String, ◌≡◌, refl, subst, inl, inr, Bool, true, false, Option, none, some, List, [], ◌∷◌,
  ◌++◌, append-nil, append_assoc, arith, ltb, ltb→lt, and_true, Bool-cases, length,
}
use waitbus.Frame.{Bytes}
use waitbus.Subscriber.{Subscriber}
use waitbus.Subscriber.Sound.{History, IsSound, IsLive}
use waitbus.Broadcast.{deliver, fan_out_one, Row}
use waitbus.Broadcast.Feed.{
  feed, wire_of, select, wants, due, AllAbove, Watch, Ascending, AllAbove-trans, fan_out_one-due,
  fan_out_one-not_due, feed-cons, feed-nil,
}
use waitbus.Broadcast.Live.{regated-IsSound}

deliver-gated :
    (blob : Bytes) (s : Subscriber) (b : List Bytes)
    → s.pre_ack_buffer ≡ some b
    → (deliver blob s).1 ≡ false
    → (deliver blob s).0 ≡ record s {
      pre_ack_buffer = some (b ++ blob ∷ []);
      pre_ack_buffered_bytes = s.pre_ack_buffered_bytes + length blob;
    }
unfolding deliver
deliver-gated blob s b e h = ground arith

abbrev pub wires : List Row → List Bytes
wires [] = []
wires (r ∷ rs) = wire_of r ∷ wires rs

-- A subscriber before its acknowledgement, with `b` in its buffer and rows `rest` to come.
pub record IsGated (filters types : List String) (w : ℕ) (h : History) (b : List Bytes)
    (rest : List Row) (s : Subscriber) : Type 0 where
  pub sound : IsSound h s
  pub live : IsLive h s
  pub idle : s.tx_queue ≡ []
  pub filters_eq : s.filters ≡ filters
  pub types_eq : s.event_types ≡ types
  pub buffer_eq : s.pre_ack_buffer ≡ some b
  pub watch : Watch w s.replay_watermark rest

module _ (filters types : List String) (w : ℕ) (h : History) where
  abbrev wire_if : Bool → Row → List Bytes
  wire_if true r = wire_of r ∷ []
  wire_if false r = []

  gate_step :
      (b : List Bytes) (r : Row) (rs : List Row) (s : Subscriber)
      → IsGated filters types w h b (r ∷ rs) s
      → AllAbove r.seq rs
      → (fan_out_one r (wire_of r) s).1 ≡ false
      → IsGated filters types w h
          (b ++ wire_if (due filters types w r) r)
          rs
          (fan_out_one r (wire_of r) s).0
  gate_step b r rs s g above e = elim (Bool-cases (due filters types w r)) [
    | inl d ↦
        let d' : due s.filters s.event_types w r ≡ true = rw (g.filters_eq, g.types_eq) d in
        let p = and_true (wants filters types r) (ltb w r.seq) (unfold due in d) in
        let f = fan_out_one-due r (wire_of r) s w rs g.watch d' in
        let s0 : Subscriber = record s { replay_watermark = none } in
        let kept = deliver-gated (wire_of r) s0 b g.buffer_eq (rw f at e) in
        rw (f, kept, d)
          (record {
            sound = regated-IsSound h s none (some (b ++ wire_of r ∷ [])) _ g.sound;
            live = record { faults = g.live.faults; stream = g.live.stream; count = g.live.count };
            idle = g.idle;
            filters_eq = g.filters_eq;
            types_eq = g.types_eq;
            buffer_eq = refl;
            watch = AllAbove-trans w r.seq rs (omega (arith, ltb→lt w r.seq p.1)) above;
          })
    | inr n ↦
        let n' : due s.filters s.event_types w r ≡ false = rw (g.filters_eq, g.types_eq) n in
        rw (fan_out_one-not_due r (wire_of r) s w rs g.watch n', n, append-nil)
          (record {
            sound = g.sound;
            live = g.live;
            idle = g.idle;
            filters_eq = g.filters_eq;
            types_eq = g.types_eq;
            buffer_eq = g.buffer_eq;
            watch = cleared_later r rs s.replay_watermark g.watch;
          })
  ]
    where
      cleared_later : (r : Row) (rs : List Row) (o : Option ℕ) → Watch w o (r ∷ rs) → Watch w o rs
      cleared_later r rs none a = a.1
      cleared_later r rs (some v) a = a

  wires-select :
      (b : List Bytes) (p : Row → Bool) (r : Row) (rs : List Row)
      → (b ++ wire_if (p r) r) ++ wires (select p rs) ≡ b ++ wires (select p (r ∷ rs))
  unfolding select
  wires-select b p r rs = elim (Bool-cases (p r)) [
    | inl e ↦ rw (e, append_assoc)
    | inr e ↦ rw (e, append-nil)
  ]

  pub feed-gate :
      (b : List Bytes) (rows rest : List Row) (s s' : Subscriber)
      → IsGated filters types w h b (rows ++ rest) s
      → Ascending (rows ++ rest)
      → feed rows s ≡ some s'
      → IsGated filters types w h (b ++ wires (select (due filters types w) rows)) rest s'
  unfolding select
  feed-gate b [] rest s s' g asc e =
      rw append-nil
        (subst (λ (x : Subscriber). IsGated filters types w h b rest x) (feed-nil s s' e) g)
  feed-gate b (r ∷ rs) rest s s' g asc e =
      let p = feed-cons r rs s s' e in
      rw (← wires-select b (due filters types w) r rs) (
        feed-gate (b ++ wire_if (due filters types w r) r) rs rest _ s'
          (gate_step b r (rs ++ rest) s g asc.0 p.0) asc.1 p.1)
