-- ===== src/Ulid.antt =====
-- waitbus/_ulid.py: time-ordered identifiers of 26 characters.
-- A text is the list of its code points. `ms` is the clock in milliseconds and `drawn` what
-- `secrets.token_bytes(10)` gives; the lock makes each call one step.
pub mod Digits
pub mod Order
pub mod Tests
use waitbus.Prelude.{
  ℕ, zero, suc, ◌+◌, ◌-◌, ◌*◌, ◌/◌, ◌%◌, ◌^◌, Bool, true, false, ◌&&◌, Option, none, some, List, [],
  ◌∷◌, ◌++◌, ltb, ◌==◌, if◌then◌else◌, length, take,
}

abbrev pub Text : Type 0
Text = List ℕ

-- Crockford base 32: 0-9, then A-Z without I, L, O and U
abbrev pub alphabet : Text
alphabet =
    48 ∷ 49 ∷ 50 ∷ 51 ∷ 52 ∷ 53 ∷ 54 ∷ 55 ∷ 56 ∷ 57 ∷ 65 ∷ 66 ∷ 67 ∷ 68 ∷ 69 ∷ 70 ∷ 71 ∷ 72 ∷ 74
    ∷ 75 ∷ 77 ∷ 78 ∷ 80 ∷ 81 ∷ 82 ∷ 83 ∷ 84 ∷ 86 ∷ 87 ∷ 88 ∷ 89 ∷ 90 ∷ []

abbrev pub ulid_len : ℕ
ulid_len = 26

abbrev pub max_rand : ℕ
max_rand = 2 ^ 80 - 1

-- `_LAST_MS` and `_LAST_RAND`
pub record State : Type 0 where
  pub last_ms : ℕ
  pub last_rand : ℕ

-- `chars[d]`; the index is below 32 wherever the code asks.
unfoldable pub char_at : Text → ℕ → ℕ
char_at [] d = 0
char_at (c ∷ cs) zero = c
char_at (c ∷ cs) (suc d) = char_at cs d

-- `for shift in range(5 * k - 5, -5, -5)`
unfoldable pub symbols : ℕ → ℕ → Text
unfolding char_at
symbols zero n = []
symbols (suc k) n = char_at alphabet ((n / 2 ^ (5 * k)) % 32) ∷ symbols k n

unfoldable pub text_of : ℕ → ℕ → Text
text_of ms rand = symbols 10 ms ++ symbols 16 rand

-- The end of `new`, with whether the suffix overflows
unfoldable pub mint : ℕ → ℕ → Bool → State → Option Text × State
mint ms rand true s = (none, s)
mint ms rand false s = (some (text_of ms rand), record { last_ms = ms; last_rand = rand })

-- `new`; the overflow within one millisecond is `none`, and leaves the state as it is.
unfoldable pub new : ℕ → ℕ → State → Option Text × State
unfolding mint
new ms drawn s =
    let rand = if ms == s.last_ms then s.last_rand + 1 else drawn in
    mint ms rand (ms == s.last_ms && ltb max_rand rand) s

-- `_ALPHABET.find(ch)`; `none` is -1.
unfoldable pub find_char : Text → ℕ → Option ℕ
find_char [] c = none
find_char (x ∷ xs) c =
    if x == c then some 0 else elim (find_char xs c) [ none ↦ none | some i ↦ some (i + 1) ]

-- The loop of `decode_timestamp_ms`; `ms << 5 | idx` with `idx` below 32
unfoldable pub decode_chars : Text → ℕ → Option ℕ
unfolding find_char
decode_chars [] ms = some ms
decode_chars (c ∷ cs) ms = elim (find_char alphabet c) [
  | none ↦ none
  | some idx ↦ decode_chars cs (ms * 32 + idx)
]

-- `ValueError` is `none`.
unfoldable pub decode_timestamp_ms : Text → Option ℕ
unfolding decode_chars
decode_timestamp_ms s = if length s == ulid_len then decode_chars (take 10 s) 0 else none
