-- ===== src/Ulid/Order.antt =====
-- The order of waitbus/_ulid.py's texts, and the time that they carry.
use waitbus.Prelude.{
  ℕ, zero, suc, ◌+◌, ◌*◌, ◌/◌, ◌%◌, ◌^◌, ◌≤◌, ◌<◌, ◌≡◌, refl, sym, ap, ◌∙◌, subst, ◌≢◌, ◌⊎◌, inl,
  inr, Bool, true, false, ◌&&◌, Option, none, some, [], ◌∷◌, ◌++◌, arith, ltb, ◌==◌, if◌then◌else◌,
  ltb→lt, lt→ltb, and_true, ==_iff, Bool-cases, length, take, length-append, take-append_self,
}
use waitbus.Ulid.{
  Text, max_rand, symbols, text_of, mint, new, decode_chars, decode_timestamp_ms, State,
}
use waitbus.Ulid.Digits.{pow_step, symbols-suc, length-symbols, char_at-lt, decode_chars-symbols}

-- `a < b` on Python texts
unfoldable pub lt_text : Text → Text → Bool
lt_text [] [] = false
lt_text [] (y ∷ ys) = true
lt_text (x ∷ xs) [] = false
lt_text (x ∷ xs) (y ∷ ys) = if ltb x y then true else x == y && lt_text xs ys

lt_text-append :
    (xs ys us vs : Text)
    → length xs ≡ length ys
    → lt_text xs ys ≡ true
    → lt_text (xs ++ us) (ys ++ vs) ≡ true
unfolding lt_text
lt_text-append [] [] us vs l e = cc
lt_text-append [] (y ∷ ys) us vs l e = absurd (omega (arith, l))
lt_text-append (x ∷ xs) [] us vs l e = cc
lt_text-append (x ∷ xs) (y ∷ ys) us vs l e = elim (Bool-cases (ltb x y)) [
  | inl less ↦ rw less refl
  | inr more ↦
      let e' = (rw more at e) in
      let (same, rest) = and_true (x == y) (lt_text xs ys) e' in
      rw (more, same) (lt_text-append xs ys us vs (omega (arith, l)) rest)
]

lt_text-append_same :
    (xs us vs : Text) → lt_text us vs ≡ true → lt_text (xs ++ us) (xs ++ vs) ≡ true
unfolding lt_text
lt_text-append_same [] us vs e = e
lt_text-append_same (x ∷ xs) us vs e = ground (arith, lt_text-append_same xs us vs e)

lt_text-one : (x y : ℕ) → x < y → lt_text (x ∷ []) (y ∷ []) ≡ true
unfolding lt_text
lt_text-one x y h = rw (lt→ltb x y h) refl

-- A greater number has a greater text of the same width.
lt_text-symbols : (k m n : ℕ) → m < n → n < 2 ^ (5 * k) → lt_text (symbols k m) (symbols k n) ≡ true
lt_text-symbols zero m n h b = absurd (omega arith)
lt_text-symbols (suc k) m n h b =
    let p = pow_step k in
    rw (symbols-suc k m, symbols-suc k n)
      (elim (Bool-cases (ltb (m / 32) (n / 32))) [
        | inl less ↦
            lt_text-append (symbols k (m / 32)) (symbols k (n / 32)) _ _
              (length-symbols k (m / 32) ∙ sym (length-symbols k (n / 32)))
              (lt_text-symbols k (m / 32) (n / 32) (ltb→lt _ _ less) (omega (arith, p)))
        | inr more ↦
            let not_less : n / 32 ≤ m / 32 = ground arith in
            let same : m / 32 ≡ n / 32 = omega arith in
            rw same (
              lt_text-append_same (symbols k (n / 32)) _ _
                (lt_text-one _ _ (char_at-lt (m % 32) (n % 32) (omega arith) (omega arith))))
      ])

text_of-lt :
    (ms ms' rand rand' : ℕ)
    → (ms < ms') ⊎ ((ms ≡ ms') × (rand < rand'))
    → ms' < 2 ^ 50
    → rand' < 2 ^ 80
    → lt_text (text_of ms rand) (text_of ms' rand') ≡ true
unfolding text_of
text_of-lt ms ms' rand rand' (inl h) b b' =
    lt_text-append (symbols 10 ms) (symbols 10 ms') _ _
      (length-symbols 10 ms ∙ sym (length-symbols 10 ms')) (lt_text-symbols 10 ms ms' h b)
text_of-lt ms ms' rand rand' (inr (same, h)) b b' =
    rw same (lt_text-append_same (symbols 10 ms') _ _ (lt_text-symbols 16 rand rand' h b'))

abbrev text_in : Option Text → Text
text_in none = []
text_in (some t) = t

mint-some :
    (ms rand : ℕ) (over : Bool) (s s' : State) (t : Text)
    → mint ms rand over s ≡ (some t, s')
    → (over ≡ false) × (t ≡ text_of ms rand) × (s'.last_ms ≡ ms) × (s'.last_rand ≡ rand)
unfolding mint
mint-some ms rand true s s' t e = cc
mint-some ms rand false s s' t e =
    let after = ap (λ (r : Option Text × State). r.1) e in
    (
      refl,
      sym (ap (λ (r : Option Text × State). text_in r.0) e),
      sym (ap (λ (x : State). x.last_ms) after),
      sym (ap (λ (x : State). x.last_rand) after),
    )

-- What a call that returns a text has done.
new-some :
    (ms drawn : ℕ) (s s' : State) (t : Text)
    → new ms drawn s ≡ (some t, s')
    → (t ≡ text_of ms s'.last_rand)
      × (s'.last_ms ≡ ms)
      × (((ms ≡ s.last_ms) × (s'.last_rand ≡ s.last_rand + 1) × (s'.last_rand ≤ max_rand))
          ⊎ ((ms ≢ s.last_ms) × (s'.last_rand ≡ drawn)))
unfolding new
new-some ms drawn s s' t e =
    let rand = if ms == s.last_ms then s.last_rand + 1 else drawn in
    let (fits, text, time, suffix) =
      mint-some ms rand (ms == s.last_ms && ltb max_rand rand) s s' t e in
    (
      text ∙ ap (λ (r : ℕ). text_of ms r) (sym suffix),
      time,
      elim (Bool-cases (ms == s.last_ms)) [
        | inl same ↦ inl ((==_iff ms s.last_ms).0 same, suffix ∙ rw same refl, ground arith)
        | inr differ ↦ inr (ground arith, suffix ∙ rw differ refl)
      ],
    )

-- Two calls one after the other, the clock not going back and below 2^50 ms: the second text is the
-- greater one, in the same millisecond as in a later one.
pub lt_text-new :
    (ms1 ms2 drawn1 drawn2 : ℕ) (s0 s1 s2 : State) (t1 t2 : Text)
    → new ms1 drawn1 s0 ≡ (some t1, s1)
    → new ms2 drawn2 s1 ≡ (some t2, s2)
    → ms1 ≤ ms2
    → ms2 < 2 ^ 50
    → drawn2 < 2 ^ 80
    → lt_text t1 t2 ≡ true
lt_text-new ms1 ms2 drawn1 drawn2 s0 s1 s2 t1 t2 e1 e2 later b b' =
    let (text1, time1, how1) = new-some ms1 drawn1 s0 s1 t1 e1 in
    let (text2, time2, how2) = new-some ms2 drawn2 s1 s2 t2 e2 in
    rw (text1, text2)
      (elim how2 [
        | inl (same, next, fits) ↦
            text_of-lt ms1 ms2 s1.last_rand s2.last_rand
              (inr (sym (same ∙ time1), omega (arith, next))) b (omega (arith, fits))
        | inr (differ, next) ↦
            text_of-lt ms1 ms2 s1.last_rand s2.last_rand (inl (ground arith)) b
              (omega (arith, next))
      ])

decode_timestamp_ms-append :
    (xs ys : Text)
    → length xs ≡ 10
    → length ys ≡ 16
    → decode_timestamp_ms (xs ++ ys) ≡ decode_chars xs 0
unfolding decode_timestamp_ms
decode_timestamp_ms-append xs ys l l' =
    let long : (length (xs ++ ys) == 26) ≡ true =
      (==_iff (length (xs ++ ys)) 26).1 (omega (arith, length-append xs ys)) in
    rw long (
      ap (λ (b : Text). decode_chars b 0)
        (subst (λ (n : ℕ). take n (xs ++ ys) ≡ xs) l (take-append_self xs ys)))

-- The time of a text that a call returns is read back from it, for a clock below 2^50 ms.
pub decode_timestamp_ms-new :
    (ms drawn : ℕ) (s s' : State) (t : Text)
    → new ms drawn s ≡ (some t, s')
    → ms < 2 ^ 50
    → decode_timestamp_ms t ≡ some ms
unfolding text_of
decode_timestamp_ms-new ms drawn s s' t e b =
    let (text, time, how) = new-some ms drawn s s' t e in
    rw text (
      decode_timestamp_ms-append (symbols 10 ms) (symbols 16 s'.last_rand) (length-symbols 10 ms)
        (length-symbols 16 s'.last_rand)
      ∙ decode_chars-symbols 10 ms b)
