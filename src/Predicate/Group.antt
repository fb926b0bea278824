-- ===== src/Predicate/Group.antt =====
-- The dict of lists in `parse_match` of waitbus/_predicate.py.
use waitbus.Prelude.{
  String, ◌≡◌, refl, sym, ap, ◌∙◌, subst, ◌≢◌, ◌↔◌, ◌⊎◌, inl, inr, Bool, true, false, false≢true,
  Option, none, some, List, [], ◌∷◌, ◌++◌, append-nil, append_assoc, str_eq, eq_iff, eq_refl, ltb,
  if◌then◌else◌, and_true, Bool-cases,
}
use waitbus.Json.{Json}
use waitbus.Subscribe.{char_count}
use waitbus.Predicate.{
  parse_one_match, Groups, add_value, max_predicate_source_len, add_specs, is_allowed,
  evaluate_groups,
}

str_eq-cases : (a b : String) → ((a ≡ b) × (str_eq a b ≡ true)) ⊎ ((a ≢ b) × (str_eq a b ≡ false))
str_eq-cases a b = elim (Bool-cases (str_eq a b)) [
  | inl e ↦ inl ((eq_iff a b).0 e, e)
  | inr e ↦ inr (λ q. false≢true (sym e ∙ (eq_iff a b).1 q), e)
]

-- The values of a key in the dict, and in a list of specs.
abbrev pub lookup : String → Groups → List Json
lookup k [] = []
lookup k ((k', vs) ∷ g) = if str_eq k' k then vs else lookup k g

abbrev pub values : String → List (String × Json) → List Json
values k [] = []
values k ((k', v) ∷ ps) = if str_eq k' k then v ∷ values k ps else values k ps

abbrev one_if : Bool → Json → List Json
one_if b v = if b then v ∷ [] else []

lookup-add_value :
    (k key : String) (v : Json) (g : Groups)
    → lookup k (add_value key v g) ≡ lookup k g ++ one_if (str_eq key k) v
unfolding add_value
lookup-add_value k key v [] = elim (Bool-cases (str_eq key k)) [
  | inl e ↦ rw e refl
  | inr e ↦ rw e refl
]
lookup-add_value k key v ((k', vs) ∷ g) = elim (str_eq-cases k' key) [
  | inl (same, e) ↦ elim (Bool-cases (str_eq k' k)) [
    | inl e' ↦
        let e'' : str_eq key k ≡ true = subst (λ (x : String). str_eq x k ≡ true) same e' in
        rw (e, e', e'') refl
    | inr e' ↦
        let e'' : str_eq key k ≡ false = subst (λ (x : String). str_eq x k ≡ false) same e' in
        rw (e, e', e'', append-nil) refl
  ]
  | inr (differ, e) ↦ elim (str_eq-cases k' k) [
    | inl (same', e') ↦ elim (str_eq-cases key k) [
      | inl (same'', e'') ↦ absurd (differ (same' ∙ sym same''))
      | inr (differ'', e'') ↦ rw (e, e', e'', append-nil) refl
    ]
    | inr (differ', e') ↦ rw (e, e') (lookup-add_value k key v g)
  ]
]

-- Each key stands once, with a value or more.
abbrev pub WellFormed : Groups → Type 0
WellFormed [] = Unit
WellFormed ((k, vs) ∷ g) = (vs ≢ []) × (lookup k g ≡ []) × WellFormed g

snoc-not_nil : (vs : List Json) (v : Json) → vs ++ v ∷ [] ≢ []
snoc-not_nil [] v = λ q. cc
snoc-not_nil (x ∷ vs) v = λ q. cc

pub add_value-WellFormed :
    (key : String) (v : Json) (g : Groups) → WellFormed g → WellFormed (add_value key v g)
unfolding add_value
add_value-WellFormed key v [] w = (λ q. cc, refl, tt)
add_value-WellFormed key v ((k, vs) ∷ g) (some_value, once, w) = elim (str_eq-cases k key) [
  | inl (same, e) ↦ rw e (snoc-not_nil vs v, once, w)
  | inr (differ, e) ↦
      let e' : str_eq key k ≡ false = elim (str_eq-cases key k) [
        | inl (same, _) ↦ absurd (differ (sym same))
        | inr (_, e') ↦ e'
      ] in
      rw e (
        some_value,
        lookup-add_value k key v g ∙ rw (e', once) refl,
        add_value-WellFormed key v g w,
      )
]

-- All groups hold exactly when, for each key that has values, the frame has one of them.
pub evaluate_groups-lookup :
    (g : Groups) (frame : Json)
    → WellFormed g
    → (evaluate_groups g frame ≡ true)
      ↔ ((k : String) → lookup k g ≢ [] → is_allowed frame k (lookup k g) ≡ true)
unfolding evaluate_groups
evaluate_groups-lookup [] frame w = (λ e k asked. absurd (asked refl), λ h. refl)
evaluate_groups-lookup ((k', vs) ∷ g) frame (some_value, once, w) =
    let ih = evaluate_groups-lookup g frame w in
    (
      λ e k. elim (str_eq-cases k' k) [
        | inl (same, e') ↦
            rw e' (λ asked.
              subst (λ (x : String). is_allowed frame x vs ≡ true) same (and_true _ _ e).0)
        | inr (differ, e') ↦ rw e' (ih.0 (and_true _ _ e).1 k)
      ],
      λ h.
          let asked_here = h k' in
          let head : is_allowed frame k' vs ≡ true = (rw (eq_refl k') at asked_here) some_value in
          let tail : evaluate_groups g frame ≡ true = ih.1 (λ k asked. elim (str_eq-cases k' k) [
            | inl (same, e') ↦ absurd (asked (subst (λ (x : String). lookup x g ≡ []) same once))
            | inr (differ, e') ↦ let asked_there = h k in (rw e' at asked_there) asked
          ]) in
          rw (head, tail) refl,
    )

module _ (loads : String → Option Json) where
  -- The specs, each parsed.
  abbrev pub Parsed : List String → List (String × Json) → Type 0
  Parsed [] [] = Unit
  Parsed (s ∷ ss) (p ∷ ps) = (parse_one_match loads s ≡ some p) × Parsed ss ps
  Parsed _ _ = ⊥

  values-cons :
      (k key : String) (v : Json) (ps : List (String × Json)) (before : List Json)
      → (before ++ one_if (str_eq key k) v) ++ values k ps ≡ before ++ values k ((key, v) ∷ ps)
  values-cons k key v ps before = elim (Bool-cases (str_eq key k)) [
    | inl e ↦ rw e (append_assoc before (v ∷ []) (values k ps))
    | inr e ↦ rw (e, append-nil) refl
  ]

  -- The loop gathers under each key its values, in the order of the specs.
  pub record Gathers (specs : List String) (g g' : Groups) : Type 0 where
    pub pairs : List (String × Json)
    pub parsed : Parsed specs pairs
    pub shape : WellFormed g'
    pub found : (k : String) → lookup k g' ≡ lookup k g ++ values k pairs

  add_value-Gathers :
      (spec : String) (specs : List String) (g g' : Groups) (o : Option (String × Json))
      → parse_one_match loads spec ≡ o
      → ((g1 : Groups) → WellFormed g1 → add_specs loads specs g1 ≡ some g' → Gathers specs g1 g')
      → WellFormed g
      → elim o [ none ↦ none | some (key, value) ↦ add_specs loads specs (add_value key value g) ]
        ≡ some g'
      → Gathers (spec ∷ specs) g g'
  add_value-Gathers spec specs g g' none q ih w e = cc
  add_value-Gathers spec specs g g' (some (key, value)) q ih w e =
      let r = ih (add_value key value g) (add_value-WellFormed key value g w) e in
      record {
        pairs = (key, value) ∷ r.pairs;
        parsed = (q, r.parsed);
        shape = r.shape;
        found = λ k.
            r.found k
            ∙ ap (λ l. l ++ values k r.pairs) (lookup-add_value k key value g)
            ∙ values-cons k key value r.pairs (lookup k g);
      }

  pub add_specs-Gathers :
      (specs : List String) (g g' : Groups)
      → WellFormed g
      → add_specs loads specs g ≡ some g'
      → Gathers specs g g'
  unfolding add_specs
  add_specs-Gathers [] g g' w e =
      let same : g ≡ g' = cc in
      record {
        pairs = [];
        parsed = tt;
        shape = subst (λ (x : Groups). WellFormed x) same w;
        found = λ k. ap (λ (x : Groups). lookup k x) (sym same) ∙ sym (append-nil (lookup k g));
      }
  add_specs-Gathers (spec ∷ specs) g g' w e =
      elim (Bool-cases (ltb max_predicate_source_len (char_count spec))) [
        | inl long ↦ let e' = (rw long at e) in cc
        | inr fits ↦
            add_value-Gathers spec specs g g' (parse_one_match loads spec) refl
              (λ g1 w1 e1. add_specs-Gathers specs g1 g' w1 e1) w (rw fits at e)
      ]
