-- ===== src/Subscribe.antt =====
-- waitbus/broadcast.py: the validators of the subscribe envelope, and the filters.
-- A text is walked character by character. `$` of a Python pattern matches before a final newline
-- too, so the patterns are tried on the text with one final newline taken off.
use waitbus.Prelude.{
  ℕ, suc, code, String, Bool, true, false, not, ◌&&◌, ◌||◌, Option, none, some, List, [], ◌∷◌,
  append_text, str_eq, ltb, leb, ◌==◌, if◌then◌else◌,
}
use waitbus.Json.{Json, null, str, arr, Items, nil, cons}

-- One final newline taken off.
unfoldable pub chop_newline : String → String
chop_newline String.[] = String.[]
chop_newline (String.◌∷◌ c s) =
    if code c == 10 && str_eq s "" then String.[] else String.◌∷◌ c (chop_newline s)

unfoldable pub is_digit : ℕ → Bool
is_digit c = leb 48 c && leb c 57

unfoldable pub is_upper : ℕ → Bool
is_upper c = leb 65 c && leb c 90

unfoldable pub is_lower : ℕ → Bool
is_lower c = leb 97 c && leb c 122

-- `[A-Za-z0-9_.-]`
unfoldable pub is_slug_char : ℕ → Bool
unfolding is_digit is_upper is_lower
is_slug_char c = is_upper c || is_lower c || is_digit c || c == 95 || c == 46 || c == 45

unfoldable pub all_chars : (ℕ → Bool) → String → Bool
all_chars p String.[] = true
all_chars p (String.◌∷◌ c s) = p (code c) && all_chars p s

-- `([A-Za-z0-9_.-]+|\*)`
unfoldable pub repo_part : String → Bool
unfolding all_chars is_slug_char
repo_part s = str_eq s "*" || not (str_eq s "") && all_chars is_slug_char s

-- `[A-Za-z0-9_.-]+/` and the rest; `seen` says that a character stands before.
unfoldable pub owner_part : Bool → String → Bool
unfolding repo_part
owner_part seen String.[] = false
owner_part seen (String.◌∷◌ c s) =
    if code c == 47 then seen && repo_part s else is_slug_char (code c) && owner_part true s

-- `FILTER_RE.match`
unfoldable pub filter_re : String → Bool
unfolding owner_part chop_newline
filter_re s = let t = chop_newline s in owner_part false t || str_eq t "*"

-- `[0-9A-HJKMNP-TV-Z]`: Crockford's base 32, without I, L, O and U
unfoldable pub is_crockford : ℕ → Bool
unfolding is_digit is_upper
is_crockford c = is_digit c || is_upper c && not (c == 73 || c == 76 || c == 79 || c == 85)

unfoldable pub char_count : String → ℕ
char_count String.[] = 0
char_count (String.◌∷◌ c s) = suc (char_count s)

-- `ULID_RE.match`
unfoldable pub ulid_re : String → Bool
unfolding chop_newline char_count all_chars is_crockford
ulid_re s = let t = chop_newline s in char_count t == 26 && all_chars is_crockford t

abbrev pub max_filters_per_subscriber : ℕ
max_filters_per_subscriber = 64

-- `ValueError` is `none`.
unfoldable pub filter_elements : Items → Option (List String)
unfolding filter_re
filter_elements nil = some []
filter_elements (cons (str f) rest) =
    if filter_re f
    then elim (filter_elements rest) [ none ↦ none | some fs ↦ some (f ∷ fs) ]
    else none
filter_elements (cons _ rest) = none

unfoldable pub item_count : Items → ℕ
item_count nil = 0
item_count (cons x xs) = suc (item_count xs)

unfoldable pub default_filters : List String → List String
default_filters [] = "*" ∷ []
default_filters (f ∷ fs) = f ∷ fs

unfoldable pub validate_subscribe_filters : Json → Option (List String)
unfolding filter_elements item_count default_filters
validate_subscribe_filters null = some ("*" ∷ [])
validate_subscribe_filters (arr xs) =
    if ltb max_filters_per_subscriber (item_count xs)
    then none
    else elim (filter_elements xs) [ none ↦ none | some fs ↦ some (default_filters fs) ]
validate_subscribe_filters _ = none

unfoldable pub contains : List String → String → Bool
contains [] s = false
contains (x ∷ xs) s = str_eq x s || contains xs s

-- The texts of the list that are supported event types.
unfoldable pub accepted_types : List String → Items → List String
unfolding contains
accepted_types supported nil = []
accepted_types supported (cons (str t) rest) =
    let later = accepted_types supported rest in if contains supported t then t ∷ later else later
accepted_types supported (cons _ rest) = accepted_types supported rest

unfoldable pub some_types : List String → Option (List String)
some_types [] = none
some_types (t ∷ ts) = some (t ∷ ts)

-- `supported` is `event_types_supported()`; a set is a list here, read by `contains` only.
unfoldable pub validate_subscribe_event_types : List String → Json → Option (List String)
unfolding accepted_types some_types
validate_subscribe_event_types supported null = some supported
validate_subscribe_event_types supported (arr xs) = some_types (accepted_types supported xs)
validate_subscribe_event_types supported _ = none

unfoldable pub validate_subscribe_envelope : Json → Bool
validate_subscribe_envelope null = true
validate_subscribe_envelope (str s) = str_eq s "diffs"
validate_subscribe_envelope _ = false

-- `some none` is an absent cursor.
unfoldable pub validate_since_cursor : Json → Option (Option String)
unfolding ulid_re
validate_since_cursor null = some none
validate_since_cursor (str s) = if ulid_re s then some (some s) else none
validate_since_cursor _ = none

-- `f.endswith("/*")`, with `f[:-2]`
unfoldable pub before_star : String → Option String
before_star String.[] = none
before_star (String.◌∷◌ c s) =
    if str_eq (String.◌∷◌ c s) "/*"
    then some ""
    else elim (before_star s) [ none ↦ none | some o ↦ some (String.◌∷◌ c o) ]

-- One filter of `Subscriber.matches`
unfoldable pub filter_matches : String → String → String → Bool
unfolding before_star
filter_matches owner repo f =
    if str_eq f "*"
    then true
    else if str_eq f (append_text owner (append_text "/" repo))
    then true
    else elim (before_star f) [ none ↦ false | some o ↦ str_eq o owner ]

unfoldable pub any_filter : List String → String → String → Bool
unfolding filter_matches
any_filter [] owner repo = false
any_filter (f ∷ fs) owner repo = filter_matches owner repo f || any_filter fs owner repo
