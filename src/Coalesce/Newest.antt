-- ===== src/Coalesce/Newest.antt =====
-- waitbus/coalesce.py: the snapshot as a dict, and the latest frame of an entity.
use waitbus.Prelude.{
  ℕ, String, ◌≡◌, refl, sym, ap, ◌∙◌, subst, ◌⊎◌, inl, inr, Bool, true, false, false≢true, Option,
  none, some, List, [], ◌∷◌, ◌++◌, append_assoc, eq_iff, if◌then◌else◌, ==_iff, Bool-cases,
}
use waitbus.Json.{Fields}
use waitbus.Client.Alike.{AllFields}
use waitbus.Coalesce.{
  key_eq, entity_key, event_id, before, find_item, set_item, EntityKey, github_job, github_run,
  alertmanager_alert,
}
use waitbus.Coalesce.Sorted.{NotAfter, NotAfter-trans, NotAfter-refl, before-NotAfter}

abbrev pub key_is : EntityKey → Option EntityKey → Bool
key_is k none = false
key_is k (some j) = key_eq j k

abbrev pub has_key : EntityKey → Fields → Bool
has_key k f = key_is k (entity_key f)

abbrev pub is_absent : Option EntityKey → Bool
is_absent none = true
is_absent (some k) = false

-- Whether a frame is passed through
abbrev pub has_none : Fields → Bool
has_none f = is_absent (entity_key f)

-- A frame with an id, as the daemon sends them
abbrev pub HasId : Fields → Type 0
HasId f = (i : String) × (event_id f ≡ some i)

-- The frame `f` is not later than `g`, by their ids.
abbrev pub NotLater : Fields → Fields → Type 0
NotLater f g = (i j : String) → event_id f ≡ some i → event_id g ≡ some j → NotAfter i j

abbrev pub IsAmong : Fields → List Fields → Type 0
IsAmong g frames = (xs ys : List Fields) × (frames ≡ xs ++ g ∷ ys)

-- The one frame of an entity that is to be kept of `frames`, or that there is none.
abbrev pub IsLatest : EntityKey → List Fields → Option Fields → Type 0
IsLatest k frames none = AllFields (λ f. has_key k f ≡ false) frames
IsLatest k frames (some g) =
    ((has_key k g ≡ true) × IsAmong g frames)
    × AllFields (λ f. has_key k f ≡ true → NotLater f g) frames

pub AllFields-snoc :
    (G : Fields → Type 0) (fs : List Fields) (f : Fields)
    → AllFields G fs
    → G f
    → AllFields G (fs ++ f ∷ [])
AllFields-snoc G [] f a g = (g, tt)
AllFields-snoc G (x ∷ fs) f a g = (a.0, AllFields-snoc G fs f a.1 g)

AllFields-map :
    (G H : Fields → Type 0) (fs : List Fields)
    → ((f : Fields) → G f → H f)
    → AllFields G fs
    → AllFields H fs
AllFields-map G H [] h a = tt
AllFields-map G H (f ∷ fs) h a = (h f a.0, AllFields-map G H fs h a.1)

pub AllFields-at :
    (G : Fields → Type 0) (xs : List Fields) (g : Fields) (ys : List Fields)
    → AllFields G (xs ++ g ∷ ys)
    → G g
AllFields-at G [] g ys a = a.0
AllFields-at G (x ∷ xs) g ys a = AllFields-at G xs g ys a.1

pub key_eq→≡ : (j k : EntityKey) → key_eq j k ≡ true → j ≡ k
unfolding key_eq
key_eq→≡ (github_job m) (github_job n) e = ap (λ (x : ℕ). github_job x) ((==_iff m n).0 e)
key_eq→≡ (github_run m) (github_run n) e = ap (λ (x : ℕ). github_run x) ((==_iff m n).0 e)
key_eq→≡ (alertmanager_alert s) (alertmanager_alert t) e =
    ap (λ x. alertmanager_alert x) ((eq_iff s t).0 e)
key_eq→≡ (github_job m) (github_run n) e = cc
key_eq→≡ (github_job m) (alertmanager_alert t) e = cc
key_eq→≡ (github_run m) (github_job n) e = cc
key_eq→≡ (github_run m) (alertmanager_alert t) e = cc
key_eq→≡ (alertmanager_alert s) (github_job n) e = cc
key_eq→≡ (alertmanager_alert s) (github_run n) e = cc

pub key_eq_refl : (k : EntityKey) → key_eq k k ≡ true
unfolding key_eq
key_eq_refl (github_job m) = (==_iff m m).1 refl
key_eq_refl (github_run m) = (==_iff m m).1 refl
key_eq_refl (alertmanager_alert s) = (eq_iff s s).1 refl

-- What `key_eq` tells of two keys
pub key_cases : (j k : EntityKey) → (j ≡ k) ⊎ (key_eq j k ≡ false)
key_cases j k = elim (Bool-cases (key_eq j k)) [
  | inl same ↦ inl (key_eq→≡ j k same)
  | inr other ↦ inr other
]

pub key_eq_sym_not : (j k : EntityKey) → key_eq j k ≡ false → key_eq k j ≡ false
key_eq_sym_not j k e = elim (key_cases k j) [
  | inl same ↦
      let e' = subst (λ (x : EntityKey). key_eq j x ≡ false) same e in
      absurd (false≢true (sym e' ∙ key_eq_refl j))
  | inr other ↦ other
]

twice {ℓ} :
    {A : Type ℓ} (b : Bool) (x y z : A)
    → (if b then x else y) ≡ (if b then x else if b then z else y)
twice true x y z = refl
twice false x y z = refl

pub find_item-set_item :
    (j k : EntityKey) (f : Fields) (items : List (EntityKey × Fields))
    → find_item j (set_item k f items) ≡ (if key_eq k j then some f else find_item j items)
unfolding find_item set_item
find_item-set_item j k f [] = refl
find_item-set_item j k f ((i, g) ∷ items) = elim (key_cases i k) [
  | inl same ↦
      subst
        (λ (x : EntityKey).
          find_item j (set_item x f ((i, g) ∷ items))
          ≡ (if key_eq x j then some f else find_item j ((i, g) ∷ items)))
        same (rw (key_eq_refl i) (twice (key_eq i j) (some f) (find_item j items) (some g)))
  | inr other ↦
      rw (other, find_item-set_item j k f items)
        (elim (key_cases k j) [
          | inl here ↦
              let other' = subst (λ (x : EntityKey). key_eq i x ≡ false) here other in
              rw other' refl
          | inr there ↦ rw there refl
        ])
]

-- Distinct keys, each the key of its frame, and frames with ids
abbrev pub IsKeyed : List (EntityKey × Fields) → Type 0
IsKeyed [] = Unit
IsKeyed ((k, f) ∷ items) =
    ((entity_key f ≡ some k) × HasId f × (find_item k items ≡ none)) × IsKeyed items

pub set_item-IsKeyed :
    (k : EntityKey) (f : Fields) (items : List (EntityKey × Fields))
    → entity_key f ≡ some k
    → HasId f
    → IsKeyed items
    → IsKeyed (set_item k f items)
unfolding set_item find_item
set_item-IsKeyed k f [] e i a = ((e, i, refl), tt)
set_item-IsKeyed k f ((j, g) ∷ items) e i a = elim (key_cases j k) [
  | inl same ↦
      rw (same, key_eq_refl k)
        ((e, i, subst (λ (x : EntityKey). find_item x items ≡ none) same a.0.2), a.1)
  | inr other ↦ rw other (
    (a.0.0, a.0.1, find_item-set_item j k f items ∙ rw (key_eq_sym_not j k other) a.0.2),
    set_item-IsKeyed k f items e i a.1,
  )
]

pub has_key-at : (k : EntityKey) (f : Fields) → entity_key f ≡ some k → has_key k f ≡ true
has_key-at k f e = ap (λ o. key_is k o) e ∙ key_eq_refl k

pub has_key-other :
    (j k : EntityKey) (f : Fields)
    → entity_key f ≡ some k
    → key_eq k j ≡ false
    → has_key j f ≡ false
has_key-other j k f e h = ap (λ o. key_is j o) e ∙ h

pub has_key-none : (j : EntityKey) (f : Fields) → entity_key f ≡ none → has_key j f ≡ false
has_key-none j f e = ap (λ o. key_is j o) e

NotAfter-ids :
    (f g : Fields) (i j i' j' : String)
    → event_id f ≡ some i
    → event_id g ≡ some j
    → event_id f ≡ some i'
    → event_id g ≡ some j'
    → NotAfter i j
    → NotAfter i' j'
NotAfter-ids f g i j i' j' ei ej ei' ej' h =
    let x : i ≡ i' = cc in
    let y : j ≡ j' = cc in
    subst (λ (s : String). NotAfter i' s) y (subst (λ (s : String). NotAfter s j) x h)

NotLater-refl : (f : Fields) → NotLater f f
NotLater-refl f i j ei ej =
    let same : i ≡ j = cc in subst (λ (s : String). NotAfter i s) same (NotAfter-refl i)

NotLater-trans :
    (f g h : Fields) (j : String) → event_id g ≡ some j → NotLater f g → NotLater g h → NotLater f h
NotLater-trans f g h j ej n n' i k ei ek = NotAfter-trans i j k (n i j ei ej) (n' j k ej ek)

IsAmong-snoc :
    (g : Fields) (frames : List Fields) (f : Fields)
    → IsAmong g frames
    → IsAmong g (frames ++ f ∷ [])
IsAmong-snoc g frames f (xs, ys, e) =
    (xs, ys ++ f ∷ [], ap (λ fs. fs ++ f ∷ []) e ∙ append_assoc xs (g ∷ ys) (f ∷ []))

-- A frame that does not have the key changes nothing.
pub IsLatest-skip :
    (k : EntityKey) (frames : List Fields) (o : Option Fields) (f : Fields)
    → has_key k f ≡ false
    → IsLatest k frames o
    → IsLatest k (frames ++ f ∷ []) o
IsLatest-skip k frames none f h l = AllFields-snoc (λ x. has_key k x ≡ false) frames f l h
IsLatest-skip k frames (some g) f h l = (
  (l.0.0, IsAmong-snoc g frames f l.0.1),
  AllFields-snoc (λ x. has_key k x ≡ true → NotLater x g) frames f l.1
      (λ t. absurd (false≢true (sym h ∙ t))),
)

-- The first frame of an entity
pub IsLatest-first :
    (k : EntityKey) (frames : List Fields) (f : Fields)
    → has_key k f ≡ true
    → IsLatest k frames none
    → IsLatest k (frames ++ f ∷ []) (some f)
IsLatest-first k frames f h l = (
  (h, (frames, [], refl)),
  AllFields-snoc (λ x. has_key k x ≡ true → NotLater x f) frames f
      (AllFields-map (λ x. has_key k x ≡ false) (λ x. has_key k x ≡ true → NotLater x f) frames
        (λ x miss t. absurd (false≢true (sym miss ∙ t))) l)
      (λ t. NotLater-refl f),
)

-- A frame that is newer than the one kept, and one that is not
pub IsLatest-newer :
    (k : EntityKey) (frames : List Fields) (g f : Fields) (i j : String)
    → event_id g ≡ some i
    → event_id f ≡ some j
    → before i j ≡ true
    → has_key k f ≡ true
    → IsLatest k frames (some g)
    → IsLatest k (frames ++ f ∷ []) (some f)
IsLatest-newer k frames g f i j ei ej b h l = (
  (h, (frames, [], refl)),
  AllFields-snoc (λ x. has_key k x ≡ true → NotLater x f) frames f
      (AllFields-map (λ x. has_key k x ≡ true → NotLater x g)
        (λ x. has_key k x ≡ true → NotLater x f) frames
        (λ x n t.
          NotLater-trans x g f i ei (n t)
            (λ i' j' ei' ej'. NotAfter-ids g f i j i' j' ei ej ei' ej' (before-NotAfter i j b)))
        l.1)
      (λ t. NotLater-refl f),
)

pub IsLatest-stale :
    (k : EntityKey) (frames : List Fields) (g f : Fields) (i j : String)
    → event_id g ≡ some i
    → event_id f ≡ some j
    → before i j ≡ false
    → has_key k f ≡ true
    → IsLatest k frames (some g)
    → IsLatest k (frames ++ f ∷ []) (some g)
IsLatest-stale k frames g f i j ei ej b h l = (
  (l.0.0, IsAmong-snoc g frames f l.0.1),
  AllFields-snoc (λ x. has_key k x ≡ true → NotLater x g) frames f l.1
      (λ t j' i' ej' ei'. NotAfter-ids f g j i j' i' ej ei ej' ei' b),
)
