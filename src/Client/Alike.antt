-- ===== src/Client/Alike.antt =====
-- The engine of waitbus/_broadcast_sub.py: two callers that agree on every frame of the wire.
use waitbus.Prelude.{
  ℕ, ◌-◌, String, ◌≡◌, refl, ap, subst, inl, inr, Bool, Option, none, some, List, [], ◌∷◌, leb,
  ◌==◌, if◌then◌else◌, Bool-cases,
}
use waitbus.Frame.{Bytes}
use waitbus.Json.{get, Json, obj, Fields}
use waitbus.Client.{
  outcome_matched, kind_of, advance_cursor, take_frame, by_kind, read_json, read_answer, is_spent,
  turn, go_on, await_loop, at_entry, await_predicate, Kind, drained, handed, unusable, refused,
  Answer, silent, interrupted, framing_fault, at_end, frame_bytes, Turn, Ended, returns, Options,
  Engine,
}
use waitbus.Client.Await.{for_caller, frame_in, and_then, in_answer, data_frames}

module _ {ℓ ℓ'} {D : Type ℓ} {D' : Type ℓ'} (G : Fields → Type 0) (R : D → D' → Type 0) where
  -- Both callers answer a frame alike, and their states stay related.
  abbrev pub Agree : (Fields → D → D × Bool) → (Fields → D' → D' × Bool) → Type (ℓ ⊔ ℓ')
  Agree decide decide' =
      (f : Fields) (d : D) (d' : D')
      → G f
      → R d d'
      → R (decide f d).0 (decide' f d').0 × ((decide f d).1 ≡ (decide' f d').1)

  pub record Alike (e : Engine D) (e' : Engine D') : Type 0 where
    pub anchors : e.anchor ≡ e'.anchor
    pub cursors : e.cursor ≡ e'.cursor
    pub states : R e.state e'.state

  pub record SameEnd {ℓ''} {X : Type ℓ''} (p : Engine D × X) (p' : Engine D' × X) : Type ℓ'' where
    pub engines : Alike p.0 p'.0
    pub ends : p.1 ≡ p'.1

abbrev pub AllFields : (Fields → Type 0) → List Fields → Type 0
AllFields G [] = Unit
AllFields G (f ∷ fs) = G f × AllFields G fs

abbrev OnFrame : (Fields → Type 0) → Option Fields → Type 0
OnFrame G none = Unit
OnFrame G (some f) = G f

OnFrame-and_then :
    (G : Fields → Type 0) (o : Option Fields) (fs : List Fields)
    → AllFields G (and_then o fs)
    → OnFrame G o × AllFields G fs
OnFrame-and_then G none fs a = (tt, a)
OnFrame-and_then G (some f) fs a = a

module _ {ℓ ℓ'} {D : Type ℓ} {D' : Type ℓ'} (G : Fields → Type 0) (R : D → D' → Type 0)
    (loads : Bytes → Option Json) (decide : Fields → D → D × Bool)
    (decide' : Fields → D' → D' × Bool) (agree : Agree G R decide decide') (o : Options) where
  take_frame-SameEnd :
      (t : Turn) (f : Fields) (e : Engine D) (e' : Engine D') (c : Option (Option (Option String)))
      → G f
      → Alike G R e e'
      → SameEnd G R (take_frame loads decide o t f e c) (take_frame loads decide' o t f e' c)
  unfolding take_frame
  take_frame-SameEnd t f e e' none g a = record { engines = a; ends = refl }
  take_frame-SameEnd t f e e' (some c) g a =
      let (states, same) = agree f e.state e'.state g a.states in
      record {
        engines = record {
          anchors = ap (λ (n : ℕ). if o.idle_reset then t.after else n) a.anchors;
          cursors = refl;
          states = states;
        };
        ends = ap (λ (b : Bool). if b then some (returns outcome_matched) else none) same;
      }

  by_kind-SameEnd :
      (t : Turn) (f : Fields) (e : Engine D) (e' : Engine D') (k : Kind)
      → OnFrame G (for_caller k f)
      → Alike G R e e'
      → SameEnd G R (by_kind loads decide o t f e k) (by_kind loads decide' o t f e' k)
  unfolding by_kind
  by_kind-SameEnd t f e e' drained g a = record { engines = a; ends = refl }
  by_kind-SameEnd t f e e' unusable g a = record { engines = a; ends = refl }
  by_kind-SameEnd t f e e' (refused r) g a = record { engines = a; ends = refl }
  by_kind-SameEnd t f e e' handed g a =
      subst
        (λ c.
          SameEnd G R (take_frame loads decide o t f e (advance_cursor t.writable f e.cursor))
            (take_frame loads decide' o t f e' (advance_cursor t.writable f c)))
        a.cursors (take_frame-SameEnd t f e e' (advance_cursor t.writable f e.cursor) g a)

  read_json-SameEnd :
      (t : Turn) (e : Engine D) (e' : Engine D') (j : Option Json)
      → OnFrame G (frame_in j)
      → Alike G R e e'
      → SameEnd G R (read_json loads decide o t e j) (read_json loads decide' o t e' j)
  unfolding read_json
  read_json-SameEnd t e e' none g a = record { engines = a; ends = refl }
  read_json-SameEnd t e e' (some (obj f)) g a =
      by_kind-SameEnd t f e e' (kind_of (get "kind" f) f) g a
  read_json-SameEnd t e e' (some _) g a = record { engines = a; ends = refl }

  read_answer-SameEnd :
      (t : Turn) (e : Engine D) (e' : Engine D') (x : Answer)
      → OnFrame G (in_answer loads x)
      → Alike G R e e'
      → SameEnd G R (read_answer loads decide o t e x) (read_answer loads decide' o t e' x)
  unfolding read_answer
  read_answer-SameEnd t e e' silent g a = record { engines = a; ends = refl }
  read_answer-SameEnd t e e' interrupted g a = record { engines = a; ends = refl }
  read_answer-SameEnd t e e' framing_fault g a = record { engines = a; ends = refl }
  read_answer-SameEnd t e e' at_end g a = record { engines = a; ends = refl }
  read_answer-SameEnd t e e' (frame_bytes bytes) g a = read_json-SameEnd t e e' (loads bytes) g a

  is_spent-same :
      (x : Option ℕ) (now : ℕ) (e : Engine D) (e' : Engine D')
      → Alike G R e e'
      → is_spent loads decide o x now e.anchor ≡ is_spent loads decide' o x now e'.anchor
  unfolding is_spent
  is_spent-same none now e e' a = refl
  is_spent-same (some d) now e e' a = ap (λ (n : ℕ). leb d (now - n)) a.anchors

  turn-SameEnd :
      (t : Turn) (e : Engine D) (e' : Engine D')
      → OnFrame G (in_answer loads t.answer)
      → Alike G R e e'
      → SameEnd G R (turn loads decide o t e) (turn loads decide' o t e')
  unfolding turn
  turn-SameEnd t e e' g a =
      let same = is_spent-same o.deadline t.now e e' a in
      elim (Bool-cases (is_spent loads decide' o o.deadline t.now e'.anchor)) [
        | inl spent ↦ rw (same, spent) (record { engines = a; ends = refl })
        | inr left ↦ rw (same, left) (read_answer-SameEnd t e e' t.answer g a)
      ]

  go_on-SameEnd :
      (p : Engine D × Option Ended) (p' : Engine D' × Option Ended)
      (rest : Engine D → Engine D × Ended) (rest' : Engine D' → Engine D' × Ended)
      → SameEnd G R p p'
      → ((e : Engine D) (e' : Engine D') → Alike G R e e' → SameEnd G R (rest e) (rest' e'))
      → SameEnd G R (go_on loads decide o p rest) (go_on loads decide' o p' rest')
  unfolding go_on
  go_on-SameEnd (e, some x) (e', some y) rest rest' s ih = record { engines = s.engines; ends = cc }
  go_on-SameEnd (e, none) (e', none) rest rest' s ih = ih e e' s.engines
  go_on-SameEnd (e, some x) (e', none) rest rest' s ih = absurd (let q = s.ends in cc)
  go_on-SameEnd (e, none) (e', some y) rest rest' s ih = absurd (let q = s.ends in cc)

  -- The two calls end alike over the same wire, with related states.
  pub await_loop-SameEnd :
      (ts : List Turn) (e : Engine D) (e' : Engine D')
      → AllFields G (data_frames loads ts)
      → Alike G R e e'
      → SameEnd G R (await_loop loads decide o ts e) (await_loop loads decide' o ts e')
  unfolding await_loop
  await_loop-SameEnd [] e e' g a = record { engines = a; ends = refl }
  await_loop-SameEnd (t ∷ ts) e e' g a =
      let (g', gs) = OnFrame-and_then G (in_answer loads t.answer) (data_frames loads ts) g in
      go_on-SameEnd (turn loads decide o t e) (turn loads decide' o t e')
        (λ x. await_loop loads decide o ts x) (λ x. await_loop loads decide' o ts x)
        (turn-SameEnd t e e' g' a) (λ x x' a'. await_loop-SameEnd ts x x' gs a')

  at_entry-SameEnd :
      (x : Option ℕ) (ts : List Turn) (e : Engine D) (e' : Engine D')
      → AllFields G (data_frames loads ts)
      → Alike G R e e'
      → SameEnd G R (at_entry loads decide o x ts e) (at_entry loads decide' o x ts e')
  unfolding at_entry
  at_entry-SameEnd none ts e e' g a = await_loop-SameEnd ts e e' g a
  at_entry-SameEnd (some d) ts e e' g a = elim (Bool-cases (d == 0)) [
    | inl spent ↦ rw spent (record { engines = a; ends = refl })
    | inr left ↦ rw left (await_loop-SameEnd ts e e' g a)
  ]

  pub await_predicate-SameEnd :
      (start : ℕ) (ts : List Turn) (cursor : Option (Option String)) (d : D) (d' : D')
      → AllFields G (data_frames loads ts)
      → R d d'
      → SameEnd G R
          (await_predicate loads decide o start ts cursor d)
          (await_predicate loads decide' o start ts cursor d')
  unfolding await_predicate
  await_predicate-SameEnd start ts cursor d d' g r = at_entry-SameEnd o.deadline ts _ _ g a
    where
      a :
          Alike G R
            (record { anchor = start; cursor = cursor; state = d })
            (record { anchor = start; cursor = cursor; state = d' })
      a = record { anchors = refl; cursors = refl; states = r }
