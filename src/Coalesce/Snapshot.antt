-- ===== src/Coalesce/Snapshot.antt =====
-- waitbus/coalesce.py: the snapshot that is flushed.
use waitbus.Prelude.{
  String, ◌≡◌, refl, sym, ap, ◌∙◌, subst, inl, inr, Bool, true, false, Option, none, some, List, [],
  ◌∷◌, ◌++◌, map, append-nil, arith, Bool-cases, length,
}
use waitbus.Json.{Fields}
use waitbus.Client.Alike.{AllFields}
use waitbus.Coalesce.{entity_key, find_item, keyed, sort, sorted, all_kept, EntityKey, Backlog}
use waitbus.Coalesce.Sorted.{Ascending, sort-Ascending, only, only-sort}
use waitbus.Coalesce.Newest.{key_is, has_key, is_absent, has_none, HasId, IsLatest, IsKeyed}
use waitbus.Coalesce.Kept.{IsBacklog}
use waitbus.Coalesce.Flush.{
  AllKeyed, frames_of, keyed-HasKeys, keyed-frames_of, sort-AllKeyed, only-frames_of, only-append,
  as_list, only-snapshot, none-snapshot, HasKeys,
}

-- What is to be flushed of `frames`: it ascends by the ids; of each entity it has the latest frame, once,
-- or none if there is none; and the frames without an entity are all there, sorted by their ids.
pub record IsSnapshot (frames merged : List Fields) : Type 0 where
  pub pairs : List (String × Fields)
  pub keys : keyed merged ≡ some pairs
  pub ascending : Ascending pairs
  pub one_each :
      (k : EntityKey)
      → (o : Option Fields) × (only (has_key k) merged ≡ as_list o) × IsLatest k frames o
  pub others : sorted (only has_none frames) ≡ some (only has_none merged)

AllFields-append :
    (G : Fields → Type 0) (xs ys : List Fields)
    → AllFields G xs
    → AllFields G ys
    → AllFields G (xs ++ ys)
AllFields-append G [] ys a b = b
AllFields-append G (x ∷ xs) ys a b = (a.0, AllFields-append G xs ys a.1 b)

AllFields-only :
    (G : Fields → Type 0) (keep : Fields → Bool) (fs : List Fields)
    → AllFields G fs
    → AllFields G (only keep fs)
AllFields-only G keep [] a = tt
AllFields-only G keep (f ∷ fs) a = elim (Bool-cases (keep f)) [
  | inl kept ↦ rw kept (a.0, AllFields-only G keep fs a.1)
  | inr left ↦ rw left (AllFields-only G keep fs a.1)
]

IsKeyed-HasId :
    (items : List (EntityKey × Fields)) → IsKeyed items → AllFields HasId (map (λ p. p.1) items)
IsKeyed-HasId [] a = tt
IsKeyed-HasId (p ∷ items) a = (a.0.1, IsKeyed-HasId items a.1)

only_twice : (fs : List Fields) → only has_none (only has_none fs) ≡ only has_none fs
only_twice [] = refl
only_twice (f ∷ fs) = elim (Bool-cases (has_none f)) [
  | inl kept ↦ rw (kept, kept) (ap (λ l. f ∷ l) (only_twice fs))
  | inr left ↦ rw left (only_twice fs)
]

key_is-absent : (k : EntityKey) (o : Option EntityKey) → is_absent o ≡ true → key_is k o ≡ false
key_is-absent k none h = refl
key_is-absent k (some j) h = cc

only_apart : (k : EntityKey) (fs : List Fields) → only (has_key k) (only has_none fs) ≡ []
only_apart k [] = refl
only_apart k (f ∷ fs) = elim (Bool-cases (has_none f)) [
  | inl kept ↦ rw (kept, key_is-absent k (entity_key f) kept) (only_apart k fs)
  | inr left ↦ rw left (only_apart k fs)
]

sort-as_list :
    (o : Option Fields) (ps : List (String × Fields))
    → frames_of ps ≡ as_list o
    → frames_of (sort ps) ≡ as_list o
unfolding sort
sort-as_list o [] e = e
sort-as_list o (p ∷ []) e = e
sort-as_list none (p ∷ q ∷ ps) e = absurd (let n = ap (λ fs. length fs) e in omega (arith, n))
sort-as_list (some f) (p ∷ q ∷ ps) e = absurd (let n = ap (λ fs. length fs) e in omega (arith, n))

sorted-keyed :
    (fs : List Fields) (ps : List (String × Fields))
    → keyed fs ≡ some ps
    → sorted fs ≡ some (frames_of (sort ps))
unfolding sorted
sorted-keyed fs ps e = rw (e, sorted) refl

AllKeyed-only :
    (keep : String × Fields → Bool) (ps : List (String × Fields))
    → AllKeyed ps
    → AllKeyed (only keep ps)
AllKeyed-only keep [] a = tt
AllKeyed-only keep (p ∷ ps) a = elim (Bool-cases (keep p)) [
  | inl kept ↦ rw kept (a.0, AllKeyed-only keep ps a.1)
  | inr left ↦ rw left (AllKeyed-only keep ps a.1)
]

module _ (frames : List Fields) (b : Backlog) (v : IsBacklog frames b)
    (r : HasKeys (all_kept b)) where
  only-pairs :
      (keep : Fields → Bool)
      → frames_of (only (λ p. keep p.1) r.pairs)
        ≡ only keep (map (λ p. p.1) b.snapshot) ++ only keep b.passthrough
  only-pairs keep =
      sym (only-frames_of keep r.pairs)
      ∙ ap (λ fs. only keep fs) r.same
      ∙ only-append keep (map (λ p. p.1) b.snapshot) b.passthrough

  only-merged :
      (keep : Fields → Bool)
      → only keep (frames_of (sort r.pairs)) ≡ frames_of (sort (only (λ p. keep p.1) r.pairs))
  only-merged keep =
      only-frames_of keep (sort r.pairs)
      ∙ ap (λ ps. frames_of ps) (only-sort (λ p. keep p.1) r.pairs)

  only-key :
      (k : EntityKey)
      → only (has_key k) (frames_of (sort r.pairs)) ≡ as_list (find_item k b.snapshot)
  only-key k =
      let apart : only (has_key k) b.passthrough ≡ [] =
        ap (λ fs. only (has_key k) fs) v.others ∙ only_apart k frames in
      only-merged (has_key k)
      ∙ sort-as_list (find_item k b.snapshot) (only (λ p. has_key k p.1) r.pairs) (
          only-pairs (has_key k)
          ∙ ap (λ fs. only (has_key k) (map (λ p. p.1) b.snapshot) ++ fs) apart
          ∙ append-nil (only (has_key k) (map (λ p. p.1) b.snapshot))
          ∙ only-snapshot k b.snapshot v.keys)

  only-none : frames_of (only (λ p. has_none p.1) r.pairs) ≡ only has_none frames
  only-none =
      only-pairs has_none
      ∙ ap (λ fs. fs ++ only has_none b.passthrough) (none-snapshot b.snapshot v.keys)
      ∙ ap (λ fs. only has_none fs) v.others
      ∙ only_twice frames

  merged-IsSnapshot : IsSnapshot frames (frames_of (sort r.pairs))
  merged-IsSnapshot = record {
    pairs = sort r.pairs;
    keys = keyed-frames_of (sort r.pairs) (sort-AllKeyed r.pairs r.all_keyed);
    ascending = sort-Ascending r.pairs;
    one_each = λ k. (find_item k b.snapshot, only-key k, v.items k);
    others =
        sorted-keyed (only has_none frames) (only (λ p. has_none p.1) r.pairs) (
          ap (λ fs. keyed fs) (sym only-none)
          ∙ keyed-frames_of (only (λ p. has_none p.1) r.pairs)
              (AllKeyed-only (λ p. has_none p.1) r.pairs r.all_keyed))
        ∙ ap (λ fs. some fs) (sym (only-merged has_none));
  }

-- What is kept is sorted to a snapshot.
pub sorted-IsSnapshot :
    (frames : List Fields) (b : Backlog)
    → IsBacklog frames b
    → (merged : List Fields) × (sorted (all_kept b) ≡ some merged) × IsSnapshot frames merged
sorted-IsSnapshot frames b v =
    let values = map (λ p. p.1) b.snapshot in
    let r = keyed-HasKeys (all_kept b) (
      AllFields-append HasId values b.passthrough (IsKeyed-HasId b.snapshot v.keys) (
        subst (λ fs. AllFields HasId fs) (sym v.others)
          (AllFields-only HasId has_none frames v.ids))) in
    (
      frames_of (sort r.pairs),
      sorted-keyed (all_kept b) r.pairs r.keys,
      merged-IsSnapshot frames b v r,
    )
