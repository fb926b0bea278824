-- ===== src/Coalesce/Kept.antt =====
-- waitbus/coalesce.py: what `_accumulate` keeps of the frames that it is told of.
use waitbus.Prelude.{
  ◌≡◌, refl, sym, ap, ◌∙◌, subst, inl, inr, Bool, true, false, Option, none, some, List, [], ◌∷◌,
  ◌++◌, append-nil, if◌then◌else◌, Bool-cases,
}
use waitbus.Json.{Fields}
use waitbus.Client.Alike.{AllFields}
use waitbus.Coalesce.{
  key_eq, entity_key, before, find_item, set_item, is_newer, place, accumulate_at, accumulate,
  EntityKey, Backlog,
}
use waitbus.Coalesce.Sorted.{only}
use waitbus.Coalesce.Newest.{
  is_absent, has_none, HasId, IsLatest, AllFields-snoc, AllFields-at, key_eq_refl, key_cases,
  find_item-set_item, IsKeyed, set_item-IsKeyed, has_key-at, has_key-other, has_key-none,
  IsLatest-skip, IsLatest-first, IsLatest-newer, IsLatest-stale,
}

-- A snapshot with the latest frame of each entity, and the other frames in their order.
pub record IsBacklog (frames : List Fields) (b : Backlog) : Type 0 where
  pub ids : AllFields HasId frames
  pub keys : IsKeyed b.snapshot
  pub items : (k : EntityKey) → IsLatest k frames (find_item k b.snapshot)
  pub others : b.passthrough ≡ only has_none frames

only-snoc :
    (keep : Fields → Bool) (fs : List Fields) (f : Fields)
    → only keep (fs ++ f ∷ []) ≡ only keep fs ++ (if keep f then f ∷ [] else [])
only-snoc keep [] f = refl
only-snoc keep (x ∷ fs) f = rw (only-snoc keep fs f) (append_if (keep x) (only keep fs))
  where
    append_if :
        (b : Bool) (l : List Fields)
        → (if b
            then x ∷ l ++ (if keep f then f ∷ [] else [])
            else l ++ (if keep f then f ∷ [] else []))
          ≡ (if b then x ∷ l else l) ++ (if keep f then f ∷ [] else [])
    append_if true l = refl
    append_if false l = refl

only-passed :
    (frames : List Fields) (f : Fields)
    → entity_key f ≡ none
    → only has_none (frames ++ f ∷ []) ≡ only has_none frames ++ f ∷ []
only-passed frames f e =
    only-snoc has_none frames f
    ∙ ap (λ o. only has_none frames ++ (if is_absent o then f ∷ [] else [])) e

only-kept :
    (frames : List Fields) (k : EntityKey) (f : Fields)
    → entity_key f ≡ some k
    → only has_none (frames ++ f ∷ []) ≡ only has_none frames
only-kept frames k f e =
    only-snoc has_none frames f
    ∙ ap (λ o. only has_none frames ++ (if is_absent o then f ∷ [] else [])) e
    ∙ append-nil (only has_none frames)

-- A frame that is passed through
passed-IsBacklog :
    (frames : List Fields) (b : Backlog) (f : Fields)
    → HasId f
    → entity_key f ≡ none
    → IsBacklog frames b
    → IsBacklog (frames ++ f ∷ []) (record b { passthrough = b.passthrough ++ f ∷ [] })
passed-IsBacklog frames b f i e v = record {
  ids = AllFields-snoc HasId frames f v.ids i;
  keys = v.keys;
  items = λ k. IsLatest-skip k frames _ f (has_key-none k f e) (v.items k);
  others = ap (λ fs. fs ++ f ∷ []) v.others ∙ sym (only-passed frames f e);
}

-- The snapshot with a frame put in, and left as it is
set-IsBacklog :
    (frames : List Fields) (b : Backlog) (k : EntityKey) (f : Fields)
    → HasId f
    → entity_key f ≡ some k
    → IsLatest k (frames ++ f ∷ []) (some f)
    → IsBacklog frames b
    → IsBacklog (frames ++ f ∷ []) (record b { snapshot = set_item k f b.snapshot })
set-IsBacklog frames b k f i e l v = record {
  ids = AllFields-snoc HasId frames f v.ids i;
  keys = set_item-IsKeyed k f b.snapshot e i v.keys;
  items = λ j. rw (find_item-set_item j k f b.snapshot) (elim (key_cases k j) [
    | inl same ↦
        subst
          (λ x.
            IsLatest x (frames ++ f ∷ []) (if key_eq k x then some f else find_item x b.snapshot))
          same (rw (key_eq_refl k) l)
    | inr other ↦ rw other (IsLatest-skip j frames _ f (has_key-other j k f e other) (v.items j))
  ]);
  others = v.others ∙ sym (only-kept frames k f e);
}

keep-IsBacklog :
    (frames : List Fields) (b : Backlog) (k : EntityKey) (f : Fields)
    → HasId f
    → entity_key f ≡ some k
    → IsLatest k (frames ++ f ∷ []) (find_item k b.snapshot)
    → IsBacklog frames b
    → IsBacklog (frames ++ f ∷ []) b
keep-IsBacklog frames b k f i e l v = record {
  ids = AllFields-snoc HasId frames f v.ids i;
  keys = v.keys;
  items = λ j. elim (key_cases k j) [
    | inl same ↦ subst (λ x. IsLatest x (frames ++ f ∷ []) (find_item x b.snapshot)) same l
    | inr other ↦ IsLatest-skip j frames _ f (has_key-other j k f e other) (v.items j)
  ];
  others = v.others ∙ sym (only-kept frames k f e);
}

-- The callback takes a frame with an id, and does not match.
pub accumulate-IsBacklog :
    (frames : List Fields) (b : Backlog) (f : Fields)
    → HasId f
    → IsBacklog frames b
    → (b' : Backlog) × (accumulate f (some b) ≡ (some b', false)) × IsBacklog (frames ++ f ∷ []) b'
unfolding accumulate place is_newer
accumulate-IsBacklog frames b f (i, e) v = at (entity_key f) refl
  where
    kept_id : (k : EntityKey) (g : Fields) → IsLatest k frames (some g) → HasId g
    kept_id k g ((h, (xs, ys, q)), l) =
        AllFields-at HasId xs g ys (subst (λ fs. AllFields HasId fs) q v.ids)

    kept :
        (k : EntityKey) (o : Option Fields)
        → find_item k b.snapshot ≡ o
        → entity_key f ≡ some k
        → (b' : Backlog) × (place k f b (is_newer f o) ≡ (some b', false))
          × IsBacklog (frames ++ f ∷ []) b'
    kept k none q ek = (
      _,
      refl,
      set-IsBacklog frames b k f (i, e) ek
          (IsLatest-first k frames f (has_key-at k f ek)
            (subst (λ o. IsLatest k frames o) q (v.items k)))
          v,
    )
    kept k (some g) q ek =
        let l = subst (λ o. IsLatest k frames o) q (v.items k) in
        let (j, eg) = kept_id k g l in
        elim (Bool-cases (before j i)) [
          | inl newer ↦
              rw (e, eg, newer, is_newer)
                (
                  _,
                  refl,
                  set-IsBacklog frames b k f (i, e) ek
                      (IsLatest-newer k frames g f j i eg e newer (has_key-at k f ek) l) v,
                )
          | inr stale ↦
              rw (e, eg, stale, is_newer)
                (
                  b,
                  refl,
                  keep-IsBacklog frames b k f (i, e) ek
                      (subst (λ o. IsLatest k (frames ++ f ∷ []) o) (sym q)
                        (IsLatest-stale k frames g f j i eg e stale (has_key-at k f ek) l))
                      v,
                )
        ]

    at :
        (o : Option EntityKey)
        → entity_key f ≡ o
        → (b' : Backlog) × (accumulate_at o f b ≡ (some b', false))
          × IsBacklog (frames ++ f ∷ []) b'
    at none ek = (_, refl, passed-IsBacklog frames b f (i, e) ek v)
    at (some k) ek = kept k (find_item k b.snapshot) refl ek
