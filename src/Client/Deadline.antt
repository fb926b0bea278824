-- ===== src/Client/Deadline.antt =====
-- The deadline of the engine of waitbus/_broadcast_sub.py.
use waitbus.Prelude.{
  ℕ, ◌+◌, ◌-◌, ◌≤◌, String, ◌≡◌, refl, sym, ap, ◌∙◌, subst, ◌⊎◌, inl, inr, Bool, true, false,
  Option, none, some, List, [], ◌∷◌, arith, leb, ◌==◌, Bool-cases,
}
use waitbus.Frame.{Bytes}
use waitbus.Json.{get, Json, obj, Fields}
use waitbus.Client.{
  outcome_timed_out, kind_of, advance_cursor, take_frame, by_kind, read_json, read_answer, is_spent,
  turn, go_on, await_loop, at_entry, await_predicate, Kind, drained, handed, unusable, refused,
  Answer, silent, interrupted, framing_fault, at_end, frame_bytes, Turn, Ended, returns, Options,
  Engine,
}
use waitbus.Client.Await.{in_answer, is_waiting, turn-Did, Did, stops, passes, tells, matches_now}

abbrev DrainedJson : Option Json → Type 0
DrainedJson none = Unit
DrainedJson (some (obj frame)) = kind_of (get "kind" frame) frame ≡ drained
DrainedJson (some _) = ⊥

-- The turn reads a control frame, or one that cannot be decoded.
abbrev pub IsDrained : (Bytes → Option Json) → Turn → Type 0
IsDrained loads t = (bytes : Bytes) × (t.answer ≡ frame_bytes bytes) × DrainedJson (loads bytes)

-- Some turn begins at the clock `n` or later.
abbrev pub Late : ℕ → List Turn → Type 0
Late n [] = ⊥
Late n (t ∷ ts) = (n ≤ t.now) ⊎ Late n ts

-- Up to such a turn, all are drained.
abbrev pub QuietUntil : (Bytes → Option Json) → ℕ → List Turn → Type 0
QuietUntil loads n [] = ⊥
QuietUntil loads n (t ∷ ts) = (n ≤ t.now) ⊎ (IsDrained loads t × QuietUntil loads n ts)

abbrev is_left : Option Ended → Bool
is_left none = false
is_left (some x) = is_waiting x

module _ {ℓ} {D : Type ℓ} (loads : Bytes → Option Json) (decide : Fields → D → D × Bool) where
  Did-not_left :
      (e : Engine D) (f? : Option Fields) (p : Engine D × Option Ended)
      → Did decide e f? p
      → is_left p.1 ≡ false
  Did-not_left e f? p (stops _ x miss busy) = busy
  Did-not_left e f? p passes = refl
  Did-not_left e f? p (tells f a c q miss) = refl
  Did-not_left e f? p (matches_now f a c q hit) = refl

  module _ (o : Options) where
    read_json-drained :
        (t : Turn) (e : Engine D) (j : Option Json)
        → DrainedJson j
        → read_json loads decide o t e j ≡ (e, none)
    unfolding read_json
    read_json-drained t e none h = refl
    read_json-drained t e (some (obj f)) h = rw h refl
    read_json-drained t e (some _) h = absurd h

    read_answer-drained :
        (t : Turn) (e : Engine D)
        → IsDrained loads t
        → read_answer loads decide o t e t.answer ≡ (e, none)
    unfolding read_answer
    read_answer-drained t e (bytes, a, h) =
        ap (λ x. read_answer loads decide o t e x) a ∙ read_json-drained t e (loads bytes) h

  module _ (d : ℕ) (idle : Bool) where
    abbrev bounded : Options
    bounded = record { deadline = some d; idle_reset = idle }

    turn-late :
        (t : Turn) (e : Engine D)
        → e.anchor + d ≤ t.now
        → turn loads decide bounded t e ≡ (e, some (returns outcome_timed_out))
    unfolding turn is_spent
    turn-late t e h = let late : leb d (t.now - e.anchor) ≡ true = ground arith in rw late refl

    turn-drained :
        (t : Turn) (e : Engine D)
        → IsDrained loads t
        → (turn loads decide bounded t e ≡ (e, some (returns outcome_timed_out)))
          ⊎ (turn loads decide bounded t e ≡ (e, none))
    unfolding turn
    turn-drained t e h = elim (Bool-cases (is_spent loads decide bounded (some d) t.now e.anchor)) [
      | inl spent ↦ inl (rw spent refl)
      | inr left ↦ inr (rw left (read_answer-drained bounded t e h))
    ]

    -- Control frames and frames that cannot be decoded do not keep a call waiting, not even one whose
    -- deadline starts anew at each frame: if nothing else comes until the deadline after the anchor, the
    -- call times out, and neither the caller nor the cursor has seen anything.
    pub await_loop-quiet :
        (ts : List Turn) (e : Engine D)
        → QuietUntil loads (e.anchor + d) ts
        → await_loop loads decide bounded ts e ≡ (e, returns outcome_timed_out)
    unfolding await_loop go_on
    await_loop-quiet [] e q = absurd q
    await_loop-quiet (t ∷ ts) e (inl late) = rw (turn-late t e late) refl
    await_loop-quiet (t ∷ ts) e (inr (h, q)) = elim (turn-drained t e h) [
      | inl spent ↦ rw spent refl
      | inr over ↦ rw over (await_loop-quiet ts e q)
    ]

  module _ (d : ℕ) where
    abbrev fixed : Options
    fixed = record { deadline = some d; idle_reset = false }

    by_kind-anchor :
        (t : Turn) (f : Fields) (e : Engine D) (k : Kind)
        → (by_kind loads decide fixed t f e k).0.anchor ≡ e.anchor
    unfolding by_kind take_frame
    by_kind-anchor t f e drained = refl
    by_kind-anchor t f e unusable = refl
    by_kind-anchor t f e (refused r) = refl
    by_kind-anchor t f e handed = go (advance_cursor t.writable f e.cursor)
      where
        go :
            (c : Option (Option (Option String)))
            → (take_frame loads decide fixed t f e c).0.anchor ≡ e.anchor
        go none = refl
        go (some c) = refl

    read_json-anchor :
        (t : Turn) (e : Engine D) (j : Option Json)
        → (read_json loads decide fixed t e j).0.anchor ≡ e.anchor
    unfolding read_json
    read_json-anchor t e none = refl
    read_json-anchor t e (some (obj f)) = by_kind-anchor t f e (kind_of (get "kind" f) f)
    read_json-anchor t e (some _) = refl

    read_answer-anchor :
        (t : Turn) (e : Engine D) (a : Answer)
        → (read_answer loads decide fixed t e a).0.anchor ≡ e.anchor
    unfolding read_answer
    read_answer-anchor t e (frame_bytes bytes) = read_json-anchor t e (loads bytes)
    read_answer-anchor t e silent = refl
    read_answer-anchor t e interrupted = refl
    read_answer-anchor t e framing_fault = refl
    read_answer-anchor t e at_end = refl

    turn-anchor : (t : Turn) (e : Engine D) → (turn loads decide fixed t e).0.anchor ≡ e.anchor
    unfolding turn
    turn-anchor t e = elim (Bool-cases (is_spent loads decide fixed (some d) t.now e.anchor)) [
      | inl spent ↦ rw spent refl
      | inr left ↦ rw left (read_answer-anchor t e t.answer)
    ]

    go_on-ends :
        (p : Engine D × Option Ended) (rest : Engine D → Engine D × Ended)
        → is_left p.1 ≡ false
        → is_waiting (rest p.0).1 ≡ false
        → is_waiting (go_on loads decide fixed p rest).1 ≡ false
    unfolding go_on
    go_on-ends (e, none) rest h ih = ih
    go_on-ends (e, some x) rest h ih = h

    await_loop-ends :
        (ts : List Turn) (e : Engine D)
        → Late (e.anchor + d) ts
        → is_waiting (await_loop loads decide fixed ts e).1 ≡ false
    unfolding await_loop
    await_loop-ends [] e l = absurd l
    await_loop-ends (t ∷ ts) e (inl late) = rw (turn-late d false t e late) refl
    await_loop-ends (t ∷ ts) e (inr l) =
        go_on-ends (turn loads decide fixed t e) (λ e'. await_loop loads decide fixed ts e')
          (Did-not_left e (in_answer loads t.answer) (turn loads decide fixed t e)
            (turn-Did loads decide fixed t e))
          (await_loop-ends ts (turn loads decide fixed t e).0
            (subst (λ (n : ℕ). Late (n + d) ts) (sym (turn-anchor t e)) l))

    -- A call with a fixed deadline does not outlast it, whatever frames keep coming: as soon as a turn
    -- begins at the deadline or later, the call has ended.
    pub await_predicate-ends :
        (start : ℕ) (ts : List Turn) (cursor : Option (Option String)) (state : D)
        → Late (start + d) ts
        → is_waiting (await_predicate loads decide fixed start ts cursor state).1 ≡ false
    unfolding await_predicate at_entry
    await_predicate-ends start ts cursor state l = elim (Bool-cases (d == 0)) [
      | inl now ↦ rw now refl
      | inr later ↦ rw later (await_loop-ends ts _ l)
    ]
