-- ===== src/Coalesce/Replay.antt =====
-- waitbus/coalesce.py: what a coalesced replay hands over, against the frames of the wire.
use waitbus.Prelude.{
  ℕ, String, ◌≡◌, refl, ap, ◌∙◌, inl, inr, Bool, true, false, ◌||◌, Option, none, some, List, [],
  ◌∷◌, ◌++◌, arith, Bool-cases, Option-cases,
}
use waitbus.Frame.{Bytes}
use waitbus.Json.{get, as_nonempty, Json, Fields}
use waitbus.Client.{
  is_text, write_bookmark, advance, advance_cursor, await_predicate, WaitOutcome, Turn, Ended,
  returns, Options, Engine,
}
use waitbus.Client.Await.{data_frames, marks}
use waitbus.Client.Alike.{Agree, AllFields, await_predicate-SameEnd}
use waitbus.Coalesce.{
  accumulate, sorted, all_kept, flush, after_replay_phase, coalesce_replay, Backlog,
}
use waitbus.Coalesce.Newest.{HasId}
use waitbus.Coalesce.Kept.{accumulate-IsBacklog, IsBacklog}
use waitbus.Coalesce.Snapshot.{sorted-IsSnapshot, IsSnapshot}

writable-advance :
    (f : Fields) (last : Option String)
    → (last' : Option String) × (advance true f last ≡ some last')
unfolding advance write_bookmark
writable-advance f last = elim (Bool-cases (is_text "daemon_heartbeat" (get "kind" f))) [
  | inl beat ↦ (last, rw (beat, advance) refl)
  | inr miss ↦ elim (Option-cases (as_nonempty (get "event_id" f))) [
    | inl absent ↦ (last, rw (miss, absent, advance) refl)
    | inr (i, present) ↦ (some i, rw (miss, present, advance) refl)
  ]
]

writable-advance_cursor :
    (f : Fields) (c : Option (Option String))
    → (c' : Option (Option String)) × (advance_cursor true f c ≡ some c')
unfolding advance_cursor
writable-advance_cursor f none = (none, refl)
writable-advance_cursor f (some last) =
    let (last', q) = writable-advance f last in (some last', rw (q, advance_cursor) refl)

-- A caller that writes down each frame and goes on: the faithful replay.
abbrev pub write_down : Fields → List Fields → List Fields × Bool
write_down f fs = (fs ++ f ∷ [], false)

abbrev Collected : Option Backlog → List Fields → Type 0
Collected o frames = (b : Backlog) × (o ≡ some b) × IsBacklog frames b

collects : Agree HasId Collected accumulate write_down
collects f o frames i (b, e, v) =
    let (b', step, v') = accumulate-IsBacklog frames b f i v in
    let both : accumulate f o ≡ (some b', false) = ap (λ x. accumulate f x) e ∙ step in
    ((b', ap (λ p. p.0) both, v'), ap (λ p. p.1) both)

module _ {ℓ} {E : Type ℓ} (loads : Bytes → Option Json) (emit : Fields → E → E) where
  abbrev pub emit_all : List Fields → E → E
  emit_all [] x = x
  emit_all (f ∷ fs) x = emit_all fs (emit f x)

  -- The faithful replay over the same wire
  abbrev pub faithful : ℕ → ℕ → List Turn → Engine (List Fields) × Ended
  faithful idle start ts =
      await_predicate loads write_down (record { deadline = some idle; idle_reset = true }) start ts
        none []

  flush_all :
      (fs : List Fields) (x : E) (c : Option (Option String))
      → flush loads emit (λ f. true) fs x c ≡ ((emit_all fs x, marks fs c), true)
  unfolding flush
  flush_all [] x c = refl
  flush_all (f ∷ fs) x c =
      let (c', q) = writable-advance_cursor f c in rw (q, flush) (flush_all fs (emit f x) c')

  after_replay_phase-flushed :
      (start' : ℕ) (ts' : List Turn) (x : E) (c : Option (Option String)) (b : Backlog)
      (w : WaitOutcome) (merged : List Fields)
      → sorted (all_kept b) ≡ some merged
      → w.cancelled ≡ false
      → after_replay_phase loads emit (λ f. true) false start' ts' x c (some b) (returns w)
        ≡ ((emit_all merged x, marks merged c), returns w)
  unfolding after_replay_phase
  after_replay_phase-flushed start' ts' x c b w merged q n =
      let over : (w.peer_closed || true) ≡ true = ground arith in
      rw (n, q, flush_all merged x c, over, after_replay_phase) refl

  -- Where each data frame of the wire has an id, the bookmark can be written, and the replay phase ends
  -- by an outcome other than an interrupt: a coalesced replay without a live tail ends by the same
  -- outcome as the faithful one over the same wire, and what it has emitted, with its cursor behind it,
  -- is the snapshot of the frames that the faithful one hands over.
  pub coalesce_replay-IsSnapshot :
      (idle start : ℕ) (ts : List Turn) (start' : ℕ) (ts' : List Turn) (x : E)
      (c : Option (Option String)) (w : WaitOutcome)
      → AllFields HasId (data_frames loads ts)
      → (faithful idle start ts).1 ≡ returns w
      → w.cancelled ≡ false
      → (merged : List Fields) × IsSnapshot (faithful idle start ts).0.state merged
        × (coalesce_replay loads emit (λ f. true) idle false start ts start' ts' x c
            ≡ ((emit_all merged x, marks merged c), returns w))
  unfolding coalesce_replay
  coalesce_replay-IsSnapshot idle start ts start' ts' x c w i e n =
      let o : Options = record { deadline = some idle; idle_reset = true } in
      let empty : Backlog = record { snapshot = []; passthrough = [] } in
      let s =
        await_predicate-SameEnd HasId Collected loads accumulate write_down collects o start ts none
          (some empty) [] i
          (empty, refl, record { ids = tt; keys = tt; items = λ k. tt; others = refl }) in
      let r = await_predicate loads accumulate o start ts none (some empty) in
      let (b, q, v) = s.engines.states in
      let (merged, sorts, snap) = sorted-IsSnapshot _ b v in
      (
        merged,
        snap,
        ap (λ d. after_replay_phase loads emit (λ f. true) false start' ts' x c d r.1) q
            ∙ ap (λ d. after_replay_phase loads emit (λ f. true) false start' ts' x c (some b) d)
                (s.ends ∙ e)
            ∙ after_replay_phase-flushed start' ts' x c b w merged sorts n,
      )
