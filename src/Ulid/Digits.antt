-- ===== src/Ulid/Digits.antt =====
-- The digits of waitbus/_ulid.py's texts, from the low end.
use waitbus.Prelude.{
  ℕ, zero, suc, ◌+◌, ◌*◌, ◌/◌, ◌%◌, ◌^◌, ◌<◌, ◌≡◌, refl, sym, ap, ◌∙◌, subst, inl, inr, Bool, true,
  false, ◌&&◌, Option, none, some, [], ◌∷◌, ◌++◌, arith, ltb, ◌==◌, ltb→lt, and_true, ==_iff,
  Bool-cases, length,
}
use waitbus.Ulid.{Text, alphabet, char_at, symbols, find_char, decode_chars}
use native.Mathlib.Nat.{div-div-eq-div-mul}

pub pow_step : (k : ℕ) → 2 ^ (5 * suc k) ≡ 32 * 2 ^ (5 * k)
pow_step k =
    let e : 5 * suc k ≡ suc (suc (suc (suc (suc (5 * k))))) = omega arith in rw e (omega arith)

shifted : (k n : ℕ) → n / 2 ^ (5 * suc k) ≡ n / 32 / 2 ^ (5 * k)
shifted k n = ap (λ (p : ℕ). n / p) (pow_step k) ∙ sym (div-div-eq-div-mul n 32 (2 ^ (5 * k)))

-- The last symbol is the lowest digit.
pub symbols-suc :
    (k n : ℕ) → symbols (suc k) n ≡ symbols k (n / 32) ++ char_at alphabet (n % 32) ∷ []
unfolding symbols
symbols-suc zero n =
    let e : n / 2 ^ (5 * 0) ≡ n = omega arith in ap (λ (d : ℕ). char_at alphabet (d % 32) ∷ []) e
symbols-suc (suc k) n = rw (symbols-suc k n, shifted k n) refl

pub length-symbols : (k n : ℕ) → length (symbols k n) ≡ k
unfolding symbols
length-symbols zero n = refl
length-symbols (suc k) n = ap (λ (l : ℕ). suc l) (length-symbols k n)

-- A test of all numbers below `n`.
unfoldable pub all_below : ℕ → (ℕ → Bool) → Bool
all_below zero p = true
all_below (suc n) p = p n && all_below n p

pub all_below_lem : (n : ℕ) (p : ℕ → Bool) → all_below n p ≡ true → (d : ℕ) → d < n → p d ≡ true
unfolding all_below
all_below_lem zero p e d h = absurd (omega arith)
all_below_lem (suc n) p e d h = elim (Bool-cases (d == n)) [
  | inl same ↦ subst (λ (x : ℕ). p x ≡ true) (sym ((==_iff d n).0 same)) (and_true _ _ e).0
  | inr differ ↦ all_below_lem n p (and_true _ _ e).1 d (ground arith)
]

abbrev is_some_of : ℕ → Option ℕ → Bool
is_some_of d none = false
is_some_of d (some i) = i == d

find_checked : all_below 32 (λ x. is_some_of x (find_char alphabet (char_at alphabet x))) ≡ true
unfolding all_below find_char char_at
find_checked = refl

pub find_char-char_at : (d : ℕ) → d < 32 → find_char alphabet (char_at alphabet d) ≡ some d
find_char-char_at d h = go (find_char alphabet (char_at alphabet d)) (
    all_below_lem 32 (λ x. is_some_of x (find_char alphabet (char_at alphabet x))) find_checked d h)
  where
    go : (o : Option ℕ) → is_some_of d o ≡ true → o ≡ some d
    go none e = cc
    go (some i) e = ap (λ (x : ℕ). some x) ((==_iff i d).0 e)

-- The symbols stand in the order of their code points.
ascending_checked : all_below 31 (λ x. ltb (char_at alphabet x) (char_at alphabet (suc x))) ≡ true
unfolding all_below char_at
ascending_checked = refl

pub char_at-lt : (d e : ℕ) → d < e → e < 32 → char_at alphabet d < char_at alphabet e
char_at-lt d zero h b = absurd (omega arith)
char_at-lt d (suc e) h b =
    let last : char_at alphabet e < char_at alphabet (suc e) =
      ltb→lt _ _ (all_below_lem 31 _ ascending_checked e (omega arith)) in
    elim (Bool-cases (d == e)) [
      | inl same ↦
          subst (λ (x : ℕ). char_at alphabet x < char_at alphabet (suc e))
            (sym ((==_iff d e).0 same)) last
      | inr differ ↦
          let before = char_at-lt d e (ground arith) (omega arith) in omega (arith, before, last)
    ]

-- Reading a symbol behind others
decode_chars-snoc :
    (xs : Text) (c i m a : ℕ)
    → decode_chars xs m ≡ some a
    → find_char alphabet c ≡ some i
    → decode_chars (xs ++ c ∷ []) m ≡ some (a * 32 + i)
unfolding decode_chars
decode_chars-snoc [] c i m a e f =
    let same : m ≡ a = cc in
    ap (λ (o : Option ℕ). elim o [ none ↦ none | some idx ↦ some (m * 32 + idx) ]) f
    ∙ ap (λ (x : ℕ). some (x * 32 + i)) same
decode_chars-snoc (x ∷ xs) c i m a e f =
    go (find_char alphabet x) e (λ idx q. decode_chars-snoc xs c i (m * 32 + idx) a q f)
  where
    go :
        (o : Option ℕ)
        → elim o [ none ↦ none | some idx ↦ decode_chars xs (m * 32 + idx) ] ≡ some a
        → ((idx : ℕ)
            → decode_chars xs (m * 32 + idx) ≡ some a
            → decode_chars (xs ++ c ∷ []) (m * 32 + idx) ≡ some (a * 32 + i))
        → elim o [ none ↦ none | some idx ↦ decode_chars (xs ++ c ∷ []) (m * 32 + idx) ]
          ≡ some (a * 32 + i)
    go none q ih = cc
    go (some idx) q ih = ih idx q

-- What the symbols of a number say, read from the high end.
pub decode_chars-symbols : (k n : ℕ) → n < 2 ^ (5 * k) → decode_chars (symbols k n) 0 ≡ some n
unfolding symbols decode_chars
decode_chars-symbols zero n h = let e : 0 ≡ n = omega arith in ap (λ (x : ℕ). some x) e
decode_chars-symbols (suc k) n h =
    let p = pow_step k in
    let ih = decode_chars-symbols k (n / 32) (omega (arith, p)) in
    let e : n / 32 * 32 + n % 32 ≡ n = omega arith in
    rw (symbols-suc k n) (
      decode_chars-snoc (symbols k (n / 32)) (char_at alphabet (n % 32)) (n % 32) 0 (n / 32) ih
        (find_char-char_at (n % 32) (omega arith))
      ∙ ap (λ (x : ℕ). some x) e)
