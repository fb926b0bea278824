-- ===== src/Coalesce/Flush.antt =====
-- waitbus/coalesce.py: the order of what is flushed.
use waitbus.Prelude.{
  String, ◌≡◌, refl, ap, ◌∙◌, subst, inl, inr, Bool, true, false, Option, none, some, List, [], ◌∷◌,
  ◌++◌, map, if◌then◌else◌, Bool-cases,
}
use waitbus.Json.{Fields}
use waitbus.Client.Alike.{AllFields}
use waitbus.Coalesce.{key_eq, event_id, before, find_item, keyed, insert, sort, EntityKey}
use waitbus.Coalesce.Sorted.{only}
use waitbus.Coalesce.Newest.{
  key_is, has_key, is_absent, has_none, HasId, key_eq_refl, key_cases, IsKeyed,
}

abbrev pub AllKeyed : List (String × Fields) → Type 0
AllKeyed [] = Unit
AllKeyed (p ∷ ps) = (event_id p.1 ≡ some p.0) × AllKeyed ps

abbrev pub frames_of : List (String × Fields) → List Fields
frames_of ps = map (λ p. p.1) ps

pub record HasKeys (fs : List Fields) : Type 0 where
  pub pairs : List (String × Fields)
  pub keys : keyed fs ≡ some pairs
  pub same : frames_of pairs ≡ fs
  pub all_keyed : AllKeyed pairs

pub keyed-HasKeys : (fs : List Fields) → AllFields HasId fs → HasKeys fs
unfolding keyed
keyed-HasKeys [] a = record { pairs = []; keys = refl; same = refl; all_keyed = tt }
keyed-HasKeys (f ∷ fs) ((i, e), a) =
    let r = keyed-HasKeys fs a in
    record {
      pairs = (i, f) ∷ r.pairs;
      keys = rw (e, r.keys, keyed) refl;
      same = ap (λ l. f ∷ l) r.same;
      all_keyed = (e, r.all_keyed);
    }

pub keyed-frames_of : (ps : List (String × Fields)) → AllKeyed ps → keyed (frames_of ps) ≡ some ps
unfolding keyed
keyed-frames_of [] a = refl
keyed-frames_of ((i, f) ∷ ps) a = rw (a.0, keyed-frames_of ps a.1, keyed) refl

insert-AllKeyed :
    (p : String × Fields) (ps : List (String × Fields))
    → event_id p.1 ≡ some p.0
    → AllKeyed ps
    → AllKeyed (insert p ps)
unfolding insert
insert-AllKeyed p [] e a = (e, tt)
insert-AllKeyed p (q ∷ ps) e a = elim (Bool-cases (before q.0 p.0)) [
  | inl first ↦ rw first (a.0, insert-AllKeyed p ps e a.1)
  | inr not_first ↦ rw not_first (e, a)
]

pub sort-AllKeyed : (ps : List (String × Fields)) → AllKeyed ps → AllKeyed (sort ps)
unfolding sort
sort-AllKeyed [] a = tt
sort-AllKeyed (p ∷ ps) a = insert-AllKeyed p (sort ps) a.0 (sort-AllKeyed ps a.1)

pub only-frames_of :
    (keep : Fields → Bool) (ps : List (String × Fields))
    → only keep (frames_of ps) ≡ frames_of (only (λ p. keep p.1) ps)
only-frames_of keep [] = refl
only-frames_of keep (p ∷ ps) =
    rw (only-frames_of keep ps) (frames_if (keep p.1) p (only (λ q. keep q.1) ps))
  where
    frames_if :
        (b : Bool) (q : String × Fields) (qs : List (String × Fields))
        → (if b then q.1 ∷ frames_of qs else frames_of qs) ≡ frames_of (if b then q ∷ qs else qs)
    frames_if true q qs = refl
    frames_if false q qs = refl

pub only-append :
    (keep : Fields → Bool) (xs ys : List Fields)
    → only keep (xs ++ ys) ≡ only keep xs ++ only keep ys
only-append keep [] ys = refl
only-append keep (x ∷ xs) ys = rw (only-append keep xs ys) (append_if (keep x) (only keep xs))
  where
    append_if :
        (b : Bool) (l : List Fields)
        → (if b then x ∷ l ++ only keep ys else l ++ only keep ys)
          ≡ (if b then x ∷ l else l) ++ only keep ys
    append_if true l = refl
    append_if false l = refl

abbrev pub as_list {ℓ} : {A : Type ℓ} → Option A → List A
as_list none = []
as_list (some x) = x ∷ []

-- The snapshot has one frame per key, and no other.
pub only-snapshot :
    (k : EntityKey) (items : List (EntityKey × Fields))
    → IsKeyed items
    → only (has_key k) (map (λ p. p.1) items) ≡ as_list (find_item k items)
unfolding find_item
only-snapshot k [] a = refl
only-snapshot k ((j, f) ∷ items) a =
    let ih = only-snapshot k items a.1 in
    let at : has_key k f ≡ key_eq j k = ap (λ o. key_is k o) a.0.0 in
    elim (key_cases j k) [
      | inl same ↦
          let gone : find_item k items ≡ none =
            subst (λ (x : EntityKey). find_item x items ≡ none) same a.0.2 in
          rw (at, same, key_eq_refl k) (ap (λ l. f ∷ l) (ih ∙ ap (λ o. as_list o) gone))
      | inr other ↦ rw (at, other) ih
    ]

pub none-snapshot :
    (items : List (EntityKey × Fields)) → IsKeyed items → only has_none (map (λ p. p.1) items) ≡ []
none-snapshot [] a = refl
none-snapshot ((j, f) ∷ items) a =
    let at : has_none f ≡ false = ap (λ o. is_absent o) a.0.0 in rw at (none-snapshot items a.1)
