-- ===== src/Frame/Loop.antt =====
-- What the read loop of waitbus/_frame.py returns, whatever the sizes of the chunks it reads.
use waitbus.Prelude.{
  ℕ, zero, suc, ◌+◌, ◌-◌, ◌≤◌, ◌<◌, min, max, ◌≡◌, refl, ap, ◌∙◌, inl, inr, Option, some, List, [],
  ◌∷◌, ◌++◌, append-nil, append_assoc, arith, ltb, lt→ltb, Bool-cases, length, take, drop,
  length-append, take-append-drop, length-take, length-drop, take-add, drop-add,
}
use waitbus.Frame.{
  Bytes, recv, at_eof, one_round, read_loop, Result, ok, Recv, gives, times_out, resets, Sock,
}

-- The kernel neither fails nor times out.
abbrev pub NoFault : List Recv → Type 0
NoFault [] = Unit
NoFault (gives k ∷ l) = NoFault l
NoFault (times_out ∷ l) = ⊥
NoFault (resets ∷ l) = ⊥

abbrev pub sock : Bytes → List Recv → Sock
sock st l = record { stream = st; answers = l }

-- Such a `recv(n)` takes between one byte and `n` bytes off the stream.
recv_lem :
    (n : ℕ) (st : Bytes) (l : List Recv)
    → NoFault l
    → 0 < n
    → (m : ℕ) × (l' : List Recv) × (m < n)
      × NoFault l'
      × (recv n (sock st l) ≡ (ok (take (suc m) st), sock (drop (suc m) st) l'))
unfolding recv
recv_lem zero st l h p = absurd (omega arith)
recv_lem (suc n) st [] h p = (n, [], omega arith, tt, refl)
recv_lem (suc n) st (gives k ∷ l) h p =
    let m = min (suc n) (max 1 k) - 1 in
    let e : min (suc n) (max 1 k) ≡ suc m = omega arith in
    (m, l, omega arith, h, ap (λ (j : ℕ). (ok (take j st), sock (drop j st) l)) e)
recv_lem (suc n) st (times_out ∷ l) h p = absurd h
recv_lem (suc n) st (resets ∷ l) h p = absurd h

one_round_some :
    (buf chunk : Bytes) (s : Sock) (k : Bytes → Sock → Result (Option Bytes) × Sock)
    → 0 < length chunk
    → one_round buf (ok chunk, s) k ≡ k (buf ++ chunk) s
unfolding one_round
one_round_some buf [] s k h = absurd (omega arith)
one_round_some buf (b ∷ chunk) s k h = refl

-- A chunk of `j` bytes, then the rest of the `n` bytes.
abbrev read_up_to : ℕ → Bytes → Bytes → List Recv → Result (Option Bytes) × Sock
read_up_to k buf st l = (ok (some (buf ++ take k st)), sock (drop k st) l)

read_up_to_step :
    (j k k' : ℕ) (buf st : Bytes) (l : List Recv)
    → k ≡ k' + j
    → read_up_to k' (buf ++ take j st) (drop j st) l ≡ read_up_to k buf st l
read_up_to_step j k k' buf st l e =
    let d : k - j ≡ k' = omega arith in
    rw (← d) (rw (append_assoc, take-add j k st (omega arith), drop-add j k st (omega arith)))

read_up_to_none :
    (k : ℕ) (buf st : Bytes) (l : List Recv)
    → k ≡ 0
    → ◌≡◌ {A = Result (Option Bytes) × Sock} (ok (some buf), sock st l) (read_up_to k buf st l)
read_up_to_none k buf st l e = rw e (rw append-nil)

-- The bytes asked for are there: the loop returns them, and takes them off the stream.
pub read_loop_enough :
    (fuel n : ℕ) (buf st : Bytes) (l : List Recv)
    → NoFault l
    → length buf ≤ n
    → n - length buf < fuel
    → n - length buf ≤ length st
    → (l' : List Recv) × NoFault l'
      × (read_loop fuel n buf (sock st l)
          ≡ (ok (some (buf ++ take (n - length buf) st)), sock (drop (n - length buf) st) l'))
unfolding read_loop
read_loop_enough zero n buf st l h a b c = absurd (omega arith)
read_loop_enough (suc fuel) n buf st l h a b c = elim (Bool-cases (ltb (length buf) n)) [
  | inl more ↦
      let (m, l', lt, h', e) = recv_lem (n - length buf) st l h (ground (arith, more)) in
      let taken : length (take (suc m) st) ≡ suc m = omega (arith, length-take (suc m) st) in
      let grown : length (buf ++ take (suc m) st) ≡ length buf + suc m =
        omega (arith, taken, length-append buf (take (suc m) st)) in
      let (l'', h'', e') =
        read_loop_enough fuel n (buf ++ take (suc m) st) (drop (suc m) st) l' h' (omega arith)
          (omega arith) (omega (arith, length-drop (suc m) st)) in
      (
        l'',
        h'',
        rw (more, e, one_round_some buf (take (suc m) st) _ _ (omega arith))
            (e' ∙ read_up_to_step (suc m) (n - length buf) _ buf st l'' (omega arith)),
      )
  | inr enough ↦ (l, h, rw enough (read_up_to_none _ buf st l (ground arith)))
]

-- The stream ends before the bytes asked for.
pub read_loop_short :
    (fuel n : ℕ) (buf st : Bytes) (l : List Recv)
    → NoFault l
    → n - length buf < fuel
    → length st < n - length buf
    → (l' : List Recv) × (read_loop fuel n buf (sock st l) ≡ (at_eof (buf ++ st), sock [] l'))
unfolding read_loop
read_loop_short zero n buf st l h b c = absurd (omega arith)
read_loop_short (suc fuel) n buf [] l h b c =
    let (m, l', lt, h', e) = recv_lem (n - length buf) [] l h c in
    (l', rw (lt→ltb (length buf) n (omega arith), e, append-nil) refl)
read_loop_short (suc fuel) n buf (x ∷ xs) l h b c =
    let (m, l', lt, h', e) = recv_lem (n - length buf) (x ∷ xs) l h (omega arith) in
    let grown : length (buf ++ take (suc m) (x ∷ xs)) ≡ length buf + suc (min m (length xs)) =
      omega (arith, length-take m xs, length-append buf (take (suc m) (x ∷ xs))) in
    let (l'', e') =
      read_loop_short fuel n (buf ++ take (suc m) (x ∷ xs)) (drop m xs) l' h' (omega arith)
        (omega (arith, length-drop m xs)) in
    (
      l'',
      rw (lt→ltb (length buf) n (omega arith), e)
          (e'
            ∙ ap (λ b. (at_eof b, sock [] l''))
                (rw (append_assoc, take-append-drop (suc m) (x ∷ xs)))),
    )
