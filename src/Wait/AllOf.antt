-- ===== src/Wait/AllOf.antt =====
-- waitbus/wait.py, `--all-of`: when the wait for all clauses ends well.
use waitbus.Prelude.{
  String, ◌≡◌, refl, sym, ap, ◌∙◌, inl, inr, Bool, true, false, ◌&&◌, ◌||◌, List, [], ◌∷◌, arith,
  if◌then◌else◌, and_true, Bool-cases,
}
use waitbus.Json.{get, Json, null, nan, bool, int, real, infinity, str, arr, obj, Fields}
use waitbus.Client.Await.{told, any_match}
use waitbus.Predicate.{Predicate}
use waitbus.Wait.{unsatisfied, update_each, all_set, outstanding, composed_in, composed_decide}

-- Whether a frame meets a clause: its `fields` is an object, and the clause's predicate holds.
abbrev is_object : Json → Bool
is_object (obj fields) = true
is_object _ = false

abbrev pub meets : Fields → Predicate → Bool
meets frame p = is_object (get "fields" frame) && p.evaluate (obj frame)

abbrev pub is_met : List Fields → Predicate → Bool
is_met [] p = false
is_met (f ∷ fs) p = meets f p || is_met fs p

-- Every clause is met by a frame, not all by the same one.
abbrev pub all_met : List Predicate → List Fields → Bool
all_met [] frames = true
all_met (p ∷ ps) frames = is_met frames p && all_met ps frames

-- The texts of the clauses that no frame meets
abbrev pub unmet : List Predicate → List Fields → List String
unmet [] frames = []
unmet (p ∷ ps) frames = if is_met frames p then unmet ps frames else p.source ∷ unmet ps frames

-- The flags, with those set of the clauses that a test holds of
pub flags_by : (Predicate → Bool) → List Predicate → List Bool → List Bool
flags_by hit (p ∷ ps) (b ∷ bs) = (b || hit p) ∷ flags_by hit ps bs
flags_by hit _ bs = bs

flags_by-or :
    (hit hit' : Predicate → Bool) (ps : List Predicate) (bs : List Bool)
    → flags_by hit' ps (flags_by hit ps bs) ≡ flags_by (λ p. hit p || hit' p) ps bs
unfolding flags_by
flags_by-or hit hit' [] [] = refl
flags_by-or hit hit' [] (b ∷ bs) = refl
flags_by-or hit hit' (p ∷ ps) [] = refl
flags_by-or hit hit' (p ∷ ps) (b ∷ bs) =
    let head : ((b || hit p) || hit' p) ≡ (b || (hit p || hit' p)) = ground arith in
    rw (head, flags_by-or hit hit' ps bs) refl

flags_by-none : (ps : List Predicate) (bs : List Bool) → flags_by (λ p. false) ps bs ≡ bs
unfolding flags_by
flags_by-none [] [] = refl
flags_by-none [] (b ∷ bs) = refl
flags_by-none (p ∷ ps) [] = refl
flags_by-none (p ∷ ps) (b ∷ bs) =
    let head : (b || false) ≡ b = ground arith in rw (head, flags_by-none ps bs) refl

update_each-flags_by :
    (ps : List Predicate) (frame : Json) (bs : List Bool)
    → update_each ps frame bs ≡ flags_by (λ p. p.evaluate frame) ps bs
unfolding update_each flags_by
update_each-flags_by [] frame [] = refl
update_each-flags_by [] frame (b ∷ bs) = refl
update_each-flags_by (p ∷ ps) frame [] = refl
update_each-flags_by (p ∷ ps) frame (b ∷ bs) =
    ap (λ l. (b || p.evaluate frame) ∷ l) (update_each-flags_by ps frame bs)

all_set-flags_by :
    (hit : Predicate → Bool) (ps : List Predicate) (bs : List Bool)
    → all_set bs ≡ true
    → all_set (flags_by hit ps bs) ≡ true
unfolding all_set flags_by
all_set-flags_by hit [] [] h = refl
all_set-flags_by hit [] (b ∷ bs) h = h
all_set-flags_by hit (p ∷ ps) [] h = refl
all_set-flags_by hit (p ∷ ps) (b ∷ bs) h =
    let (x, y) = and_true b (all_set bs) h in rw (x, all_set-flags_by hit ps bs y) refl

module _ (ps : List Predicate) where
  step-flags_by :
      (f : Fields) (bs : List Bool) → (composed_decide ps true f bs).0 ≡ flags_by (meets f) ps bs
  unfolding composed_decide composed_in
  step-flags_by f bs = go (get "fields" f)
    where
      go :
          (j : Json)
          → (composed_in ps true (obj f) j bs).0
            ≡ flags_by (λ p. is_object j && p.evaluate (obj f)) ps bs
      go (obj fields) = update_each-flags_by ps (obj f) bs
      go null = sym (flags_by-none ps bs)
      go nan = sym (flags_by-none ps bs)
      go (bool b) = sym (flags_by-none ps bs)
      go (int z) = sym (flags_by-none ps bs)
      go (real z k) = sym (flags_by-none ps bs)
      go (infinity b) = sym (flags_by-none ps bs)
      go (str s) = sym (flags_by-none ps bs)
      go (arr xs) = sym (flags_by-none ps bs)

  pub told-flags_by :
      (fs : List Fields) (bs : List Bool)
      → told (composed_decide ps true) fs bs ≡ flags_by (is_met fs) ps bs
  told-flags_by [] bs = sym (flags_by-none ps bs)
  told-flags_by (f ∷ fs) bs =
      told-flags_by fs (composed_decide ps true f bs).0
      ∙ ap (λ l. flags_by (is_met fs) ps l) (step-flags_by f bs)
      ∙ flags_by-or (meets f) (is_met fs) ps bs

  -- A frame matches exactly when it completes the flags.
  step-all_set :
      (f : Fields) (bs : List Bool)
      → all_set bs ≡ false
      → (composed_decide ps true f bs).1 ≡ all_set (composed_decide ps true f bs).0
  unfolding composed_decide composed_in
  step-all_set f bs h = go (get "fields" f)
    where
      go :
          (j : Json)
          → (composed_in ps true (obj f) j bs).1 ≡ all_set (composed_in ps true (obj f) j bs).0
      go (obj fields) = refl
      go null = sym h
      go nan = sym h
      go (bool b) = sym h
      go (int z) = sym h
      go (real z k) = sym h
      go (infinity b) = sym h
      go (str s) = sym h
      go (arr xs) = sym h

  pub any_match-all_set :
      (fs : List Fields) (bs : List Bool)
      → all_set bs ≡ false
      → any_match (composed_decide ps true) fs bs ≡ all_set (told (composed_decide ps true) fs bs)
  any_match-all_set [] bs h = sym h
  any_match-all_set (f ∷ fs) bs h = elim (Bool-cases (all_set (composed_decide ps true f bs).0)) [
    | inl complete ↦
        rw (step-all_set f bs h, complete)
          (sym (
            ap (λ l. all_set l) (told-flags_by fs (composed_decide ps true f bs).0)
            ∙ all_set-flags_by (is_met fs) ps (composed_decide ps true f bs).0 complete))
    | inr open_still ↦
        rw (step-all_set f bs h, open_still)
          (any_match-all_set fs (composed_decide ps true f bs).0 open_still)
  ]

pub all_set-met :
    (ps : List Predicate) (frames : List Fields)
    → all_set (flags_by (is_met frames) ps (unsatisfied ps)) ≡ all_met ps frames
unfolding all_set flags_by unsatisfied
all_set-met [] frames = refl
all_set-met (p ∷ ps) frames = ap (λ (b : Bool). is_met frames p && b) (all_set-met ps frames)

pub outstanding-unmet :
    (ps : List Predicate) (frames : List Fields)
    → outstanding ps (flags_by (is_met frames) ps (unsatisfied ps)) ≡ unmet ps frames
unfolding outstanding flags_by unsatisfied
outstanding-unmet [] frames = refl
outstanding-unmet (p ∷ ps) frames =
    ap (λ l. if is_met frames p then l else p.source ∷ l) (outstanding-unmet ps frames)
