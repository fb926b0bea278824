-- ===== src/Predicate.antt =====
-- waitbus/_predicate.py: the resolver of dotted keys, the parser of `--match` specs, and the
-- combinators of predicates.
-- `loads` stands for `json.loads` on the text behind the `=`, with `none` for `JSONDecodeError`. A
-- `ValueError` is `none`. Of white space and digits, those of Latin-1 are modelled.
pub mod Group
pub mod Laws
pub mod Tests
use waitbus.Prelude.{
  ℕ, zero, suc, ◌+◌, ◌-◌, ◌*◌, Char, code, String, Bool, true, false, ◌&&◌, ◌||◌, Option, none,
  some, List, [], ◌∷◌, ◌++◌, append_text, str_eq, ltb, leb, ◌==◌, if◌then◌else◌,
}
use waitbus.Json.{get?, json_eq, ℤ, pos, negsuc, Json, arr, obj, Items, nil, cons}
use waitbus.Subscribe.{is_digit, char_count, item_count}

-- `str.split` at one character
unfoldable pub in_front : Char → List String → List String
in_front c [] = []
in_front c (s ∷ ss) = String.◌∷◌ c s ∷ ss

unfoldable pub split_on : ℕ → String → List String
unfolding in_front
split_on c String.[] = "" ∷ []
split_on c (String.◌∷◌ x s) =
    let rest = split_on c s in if code x == c then "" ∷ rest else in_front x rest

-- `str.strip`
unfoldable pub is_space : ℕ → Bool
is_space c = leb 9 c && leb c 13 || leb 28 c && leb c 32 || c == 133 || c == 160

unfoldable pub strip_end : String → String
unfolding is_space
strip_end String.[] = ""
strip_end (String.◌∷◌ x s) =
    let rest = strip_end s in if is_space (code x) && str_eq rest "" then "" else String.◌∷◌ x rest

unfoldable pub strip : String → String
unfolding is_space strip_end
strip String.[] = ""
strip (String.◌∷◌ x s) =
    let rest = strip s in if is_space (code x) then rest else String.◌∷◌ x (strip_end s)

-- `int(part)`: a sign, then digits with single underscores between them
unfoldable pub digits : Bool → ℕ → String → Option ℕ
unfolding is_digit
digits seen acc String.[] = if seen then some acc else none
digits seen acc (String.◌∷◌ x s) =
    let more = digits true (acc * 10 + (code x - 48)) s in
    let gap = digits false acc s in
    if is_digit (code x) then more else if code x == 95 && seen then gap else none

unfoldable pub negated : ℕ → ℤ
negated n = if n == 0 then pos 0 else negsuc (n - 1)

unfoldable pub signed : String → Option ℤ
unfolding digits negated
signed String.[] = none
signed (String.◌∷◌ x s) =
    if code x == 45
    then elim (digits false 0 s) [ none ↦ none | some n ↦ some (negated n) ]
    else elim (if code x == 43 then digits false 0 s else digits false 0 (String.◌∷◌ x s)) [
      | none ↦ none
      | some n ↦ some (pos n)
    ]

unfoldable pub to_int : String → Option ℤ
unfolding signed strip
to_int part = signed (strip part)

-- `cur[idx]` when `-len(cur) <= idx < len(cur)`
unfoldable pub get_elem? : Items → ℕ → Option Json
get_elem? nil n = none
get_elem? (cons x xs) zero = some x
get_elem? (cons x xs) (suc n) = get_elem? xs n

unfoldable pub at_index : Items → ℤ → Option Json
unfolding get_elem? item_count
at_index xs (pos n) = get_elem? xs n
at_index xs (negsuc n) =
    if leb (n + 1) (item_count xs) then get_elem? xs (item_count xs - (n + 1)) else none

-- One step of `_dig`; `none` is `_MISSING`.
unfoldable pub dig_step : String → Json → Option Json
unfolding get? to_int at_index
dig_step part (obj fs) = get? part fs
dig_step part (arr xs) = elim (to_int part) [ none ↦ none | some i ↦ at_index xs i ]
dig_step part _ = none

unfoldable pub dig_parts : List String → Option Json → Option Json
unfolding dig_step
dig_parts [] cur = cur
dig_parts (p ∷ ps) cur = dig_parts ps (elim cur [ none ↦ none | some v ↦ dig_step p v ])

unfoldable pub dig : Json → String → Option Json
unfolding dig_parts split_on
dig payload dotted_key = dig_parts (split_on 46 dotted_key) (some payload)

-- `spec.partition("=")`
unfoldable pub partition : String → Option (String × String)
partition String.[] = none
partition (String.◌∷◌ x s) =
    let later = partition s in
    if code x == 61
    then some ("", s)
    else elim later [ none ↦ none | some r ↦ some (String.◌∷◌ x r.0, r.1) ]

unfoldable pub any_empty : List String → Bool
any_empty [] = false
any_empty (s ∷ ss) = str_eq s "" || any_empty ss

-- `_parse_one_match`
unfoldable pub parse_one_match : (String → Option Json) → String → Option (String × Json)
unfolding partition strip any_empty split_on
parse_one_match loads spec = elim (partition spec) [
  | none ↦ none
  | some r ↦
      let key = strip r.0 in
      if str_eq key "" || any_empty (split_on 46 key)
      then none
      else elim (loads r.1) [ none ↦ none | some value ↦ some (key, value) ]
]

-- `by_key`, a dict of lists
abbrev pub Groups : Type 0
Groups = List (String × List Json)

-- `by_key.setdefault(key, []).append(value)`
unfoldable pub add_value : String → Json → Groups → Groups
add_value key value [] = (key, value ∷ []) ∷ []
add_value key value ((k, vs) ∷ g) =
    let later = add_value key value g in
    if str_eq k key then (k, vs ++ value ∷ []) ∷ g else (k, vs) ∷ later

abbrev pub max_predicate_source_len : ℕ
max_predicate_source_len = 256

-- The loop of `parse_match` over the specs
unfoldable pub add_specs : (String → Option Json) → List String → Groups → Option Groups
unfolding parse_one_match add_value char_count
add_specs loads [] g = some g
add_specs loads (spec ∷ specs) g =
    if ltb max_predicate_source_len (char_count spec)
    then none
    else elim (parse_one_match loads spec) [
      | none ↦ none
      | some (key, value) ↦ add_specs loads specs (add_value key value g)
    ]

-- `got in allowed`
unfoldable pub is_in : Json → List Json → Bool
is_in got [] = false
is_in got (v ∷ vs) = json_eq got v || is_in got vs

-- `_evaluate` of `parse_match`
unfoldable pub is_allowed : Json → String → List Json → Bool
unfolding is_in dig
is_allowed frame key allowed = elim (dig frame key) [ none ↦ false | some got ↦ is_in got allowed ]

unfoldable pub evaluate_groups : Groups → Json → Bool
unfolding is_allowed
evaluate_groups [] frame = true
evaluate_groups ((key, allowed) ∷ g) frame = is_allowed frame key allowed && evaluate_groups g frame

pub record Predicate : Type 0 where
  pub evaluate : Json → Bool
  pub source : String

-- `sep.join(parts)`
unfoldable pub join : String → List String → String
join sep [] = ""
join sep (s ∷ []) = s
join sep (s ∷ t ∷ ss) = append_text s (append_text sep (join sep (t ∷ ss)))

unfoldable pub parse_match : (String → Option Json) → List String → Option Predicate
unfolding add_specs evaluate_groups join
parse_match loads specs = elim (add_specs loads specs []) [
  | none ↦ none
  | some g ↦ some (record { evaluate = evaluate_groups g; source = join " " specs })
]

-- `p.source for p in parts if p.source`
unfoldable pub sources : List Predicate → List String
sources [] = []
sources (p ∷ ps) = let rest = sources ps in if str_eq p.source "" then rest else p.source ∷ rest

unfoldable pub all_hold : List Predicate → Json → Bool
all_hold [] frame = true
all_hold (p ∷ ps) frame = p.evaluate frame && all_hold ps frame

unfoldable pub any_holds : List Predicate → Json → Bool
any_holds [] frame = false
any_holds (p ∷ ps) frame = p.evaluate frame || any_holds ps frame

unfoldable pub compose : List Predicate → Predicate
unfolding all_hold join sources
compose [] = record { evaluate = λ frame. true; source = "" }
compose (p ∷ []) = p
compose (p ∷ q ∷ ps) = record {
  evaluate = all_hold (p ∷ q ∷ ps);
  source = join " & " (sources (p ∷ q ∷ ps));
}

unfoldable pub compose_any : List Predicate → Predicate
unfolding any_holds join sources
compose_any [] = record { evaluate = λ frame. false; source = "" }
compose_any (p ∷ []) = p
compose_any (p ∷ q ∷ ps) = record {
  evaluate = any_holds (p ∷ q ∷ ps);
  source = join " | " (sources (p ∷ q ∷ ps));
}
