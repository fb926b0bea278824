-- ===== src/Coalesce/Sorted.antt =====
-- waitbus/coalesce.py: the order of the texts of ids, and the stable sort.
use waitbus.Prelude.{
  ℕ, String, ◌≡◌, refl, ◌∙◌, inl, inr, Bool, true, false, List, [], ◌∷◌, arith, if◌then◌else◌,
  Bool-cases,
}
use waitbus.Json.{Fields}
use waitbus.Ulid.Order.{lt_text}
use waitbus.Coalesce.{code_points, before, insert, sort}

lt_text-trans_not :
    (xs ys zs : List ℕ) → lt_text ys xs ≡ false → lt_text zs ys ≡ false → lt_text zs xs ≡ false
unfolding lt_text
lt_text-trans_not xs [] [] h h' = h
lt_text-trans_not xs (y ∷ ys) [] h h' = cc
lt_text-trans_not (x ∷ xs) [] (z ∷ zs) h h' = cc
lt_text-trans_not (x ∷ xs) (y ∷ ys) (z ∷ zs) h h' = ground (arith, lt_text-trans_not xs ys zs)
lt_text-trans_not [] ys (z ∷ zs) h h' = refl

-- `s` is not behind `t`.
abbrev pub NotAfter : String → String → Type 0
NotAfter s t = before t s ≡ false

pub NotAfter-trans : (s t u : String) → NotAfter s t → NotAfter t u → NotAfter s u
unfolding before
NotAfter-trans s t u h h' = lt_text-trans_not (code_points s) (code_points t) (code_points u) h h'

lt_text_irrefl : (xs : List ℕ) → lt_text xs xs ≡ false
unfolding lt_text
lt_text_irrefl [] = refl
lt_text_irrefl (x ∷ xs) = ground (arith, lt_text_irrefl xs)

pub NotAfter-refl : (s : String) → NotAfter s s
unfolding before
NotAfter-refl s = lt_text_irrefl (code_points s)

lt_text-asym : (xs ys : List ℕ) → lt_text xs ys ≡ true → lt_text ys xs ≡ false
unfolding lt_text
lt_text-asym [] [] h = cc
lt_text-asym [] (y ∷ ys) h = refl
lt_text-asym (x ∷ xs) [] h = cc
lt_text-asym (x ∷ xs) (y ∷ ys) h = ground (arith, lt_text-asym xs ys)

pub before-NotAfter : (s t : String) → before s t ≡ true → NotAfter s t
unfolding before
before-NotAfter s t h = lt_text-asym (code_points s) (code_points t) h

-- A list of frames with their ids, in the order of the ids.
abbrev pub Ascending : List (String × Fields) → Type 0
Ascending [] = Unit
Ascending (p ∷ []) = Unit
Ascending (p ∷ q ∷ ps) = NotAfter p.0 q.0 × Ascending (q ∷ ps)

insert-Ascending :
    (p : String × Fields) (ps : List (String × Fields)) → Ascending ps → Ascending (insert p ps)
unfolding insert
insert-Ascending p [] a = tt
insert-Ascending p (q ∷ []) a = elim (Bool-cases (before q.0 p.0)) [
  | inl first ↦ rw first (before-NotAfter q.0 p.0 first, tt)
  | inr not_first ↦ rw not_first (not_first, tt)
]
insert-Ascending p (q ∷ r ∷ qs) a =
    let ih = insert-Ascending p (r ∷ qs) a.1 in
    elim (Bool-cases (before q.0 p.0)) [
      | inr not_first ↦ rw not_first (not_first, a)
      | inl first ↦ rw first (elim (Bool-cases (before r.0 p.0)) [
        | inl second ↦ rw second (a.0, (rw second at ih))
        | inr not_second ↦ rw not_second (before-NotAfter q.0 p.0 first, (rw not_second at ih))
      ])
    ]

pub sort-Ascending : (ps : List (String × Fields)) → Ascending (sort ps)
unfolding sort
sort-Ascending [] = tt
sort-Ascending (p ∷ ps) = insert-Ascending p (sort ps) (sort-Ascending ps)

-- The frames that a test holds of, with their ids; a stable sort keeps them in the order that they would
-- have alone.
abbrev pub only {ℓ} : {A : Type ℓ} → (A → Bool) → List A → List A
only keep [] = []
only keep (x ∷ xs) = let rest = only keep xs in if keep x then x ∷ rest else rest

-- All of a list stand behind an id, or at it.
abbrev AllBehind : String → List (String × Fields) → Type 0
AllBehind i [] = Unit
AllBehind i (p ∷ ps) = NotAfter i p.0 × AllBehind i ps

AllBehind-trans :
    (i j : String) (ps : List (String × Fields)) → NotAfter i j → AllBehind j ps → AllBehind i ps
AllBehind-trans i j [] h a = tt
AllBehind-trans i j (p ∷ ps) h a = (NotAfter-trans i j p.0 h a.0, AllBehind-trans i j ps h a.1)

Ascending-AllBehind :
    (p : String × Fields) (ps : List (String × Fields)) → Ascending (p ∷ ps) → AllBehind p.0 ps
Ascending-AllBehind p [] a = tt
Ascending-AllBehind p (q ∷ ps) a =
    (a.0, AllBehind-trans p.0 q.0 ps a.0 (Ascending-AllBehind q ps a.1))

Ascending_tail :
    (p : String × Fields) (ps : List (String × Fields)) → Ascending (p ∷ ps) → Ascending ps
Ascending_tail p [] a = tt
Ascending_tail p (q ∷ ps) a = a.1

only-AllBehind :
    (keep : String × Fields → Bool) (i : String) (ps : List (String × Fields))
    → AllBehind i ps
    → AllBehind i (only keep ps)
only-AllBehind keep i [] a = tt
only-AllBehind keep i (p ∷ ps) a = elim (Bool-cases (keep p)) [
  | inl kept ↦ rw kept (a.0, only-AllBehind keep i ps a.1)
  | inr left ↦ rw left (only-AllBehind keep i ps a.1)
]

insert-AllBehind :
    (p : String × Fields) (ps : List (String × Fields)) → AllBehind p.0 ps → insert p ps ≡ p ∷ ps
unfolding insert
insert-AllBehind p [] a = refl
insert-AllBehind p (q ∷ ps) a = rw a.0 refl

only-insert :
    (keep : String × Fields → Bool) (p : String × Fields) (ps : List (String × Fields))
    → Ascending ps
    → only keep (insert p ps) ≡ (if keep p then insert p (only keep ps) else only keep ps)
unfolding insert
only-insert keep p [] a = ground arith
only-insert keep p (q ∷ ps) a =
    let ih = only-insert keep p ps (Ascending_tail q ps a) in
    elim (Bool-cases (before q.0 p.0)) [
      | inl first ↦
          rw (first, ih)
            (elim (Bool-cases (keep q)) [
              | inl kept ↦
                  rw (kept, first) (q_first (keep p) (insert p (only keep ps)) (only keep ps))
              | inr left ↦ rw left refl
            ])
      | inr not_first ↦
          let rest : AllBehind p.0 (only keep ps) =
            only-AllBehind keep p.0 ps
              (AllBehind-trans p.0 q.0 ps not_first (Ascending-AllBehind q ps a)) in
          let e = insert-AllBehind p (only keep ps) rest in
          rw not_first (elim (Bool-cases (keep q)) [
            | inl kept ↦ rw (kept, not_first) refl
            | inr left ↦ rw (left, e) refl
          ])
    ]
  where
    q_first :
        (b : Bool) (l l' : List (String × Fields))
        → (q ∷ (if b then l else l')) ≡ (if b then q ∷ l else q ∷ l')
    q_first true l l' = refl
    q_first false l l' = refl

pub only-sort :
    (keep : String × Fields → Bool) (ps : List (String × Fields))
    → only keep (sort ps) ≡ sort (only keep ps)
unfolding sort
only-sort keep [] = refl
only-sort keep (p ∷ ps) =
    only-insert keep p (sort ps) (sort-Ascending ps)
    ∙ rw (only-sort keep ps) (sort_if (keep p) p (only keep ps))
  where
    sort_if :
        (b : Bool) (q : String × Fields) (qs : List (String × Fields))
        → (if b then insert q (sort qs) else sort qs) ≡ sort (if b then q ∷ qs else qs)
    sort_if true q qs = refl
    sort_if false q qs = refl
