-- ===== src/Client/Logged.antt =====
-- The engine of waitbus/_broadcast_sub.py: the frames that a call hands to its caller.
use waitbus.Prelude.{
  ℕ, String, ◌≡◌, refl, sym, ap, ◌∙◌, inl, inr, Bool, ◌||◌, Option, none, some, List, [], ◌∷◌, ◌++◌,
  append-nil, append_assoc, ◌==◌, Bool-cases, take,
}
use waitbus.Frame.{Bytes}
use waitbus.Json.{Json, Fields}
use waitbus.Client.{at_entry, await_predicate, Turn, Ended, Options, Engine}
use waitbus.Client.Await.{data_frames, is_match, told, any_match, await_loop-IsTold}
use waitbus.Client.Alike.{Agree, AllFields, await_predicate-SameEnd}

module _ {D : Type 0} (loads : Bytes → Option Json) (decide : Fields → D → D × Bool)
    (o : Options) where
  -- The caller that also writes down each frame
  abbrev pub logged : Fields → D × List Fields → (D × List Fields) × Bool
  logged f (d, log) = (((decide f d).0, log ++ f ∷ []), (decide f d).1)

  -- The frames that the call hands to its caller
  abbrev pub read_frames_of : ℕ → List Turn → Option (Option String) → D → List Fields
  read_frames_of start ts cursor d =
      (await_predicate loads logged o start ts cursor (d, [])).0.state.1

  pub record IsLogged (log frames : List Fields) (d : D) (r : Engine D × Ended) : Type 0 where
    pub count : ℕ
    pub first : log ≡ take count frames
    pub state_eq : r.0.state ≡ told decide log d
    pub match_eq : is_match r.1 ≡ any_match decide log d

  told-logged :
      (fs log : List Fields) (d : D) → told logged fs (d, log) ≡ (told decide fs d, log ++ fs)
  told-logged [] log d = ap (λ l. (d, l)) (sym (append-nil log))
  told-logged (f ∷ fs) log d =
      told-logged fs (log ++ f ∷ []) (decide f d).0
      ∙ ap (λ l. (told decide fs (decide f d).0, l)) (append_assoc log (f ∷ []) fs)

  any_match-logged :
      (fs log : List Fields) (d : D) → any_match logged fs (d, log) ≡ any_match decide fs d
  any_match-logged [] log d = refl
  any_match-logged (f ∷ fs) log d =
      ap (λ (b : Bool). (decide f d).1 || b) (any_match-logged fs (log ++ f ∷ []) (decide f d).0)

  AllFields_unit : (fs : List Fields) → AllFields (λ f. Unit) fs
  AllFields_unit [] = tt
  AllFields_unit (f ∷ fs) = (tt, AllFields_unit fs)

  await_predicate-IsTold :
      (start : ℕ) (ts : List Turn) (cursor : Option (Option String)) (p : D × List Fields)
      → (n : ℕ) × ((await_predicate loads logged o start ts cursor p).0.state
          ≡ told logged (take n (data_frames loads ts)) p)
        × (is_match (await_predicate loads logged o start ts cursor p).1
            ≡ any_match logged (take n (data_frames loads ts)) p)
  unfolding await_predicate
  await_predicate-IsTold start ts cursor p = go o.deadline
    where
      e : Engine (D × List Fields)
      e = record { anchor = start; cursor = cursor; state = p }

      go :
          (x : Option ℕ)
          → (n : ℕ) × ((at_entry loads logged o x ts e).0.state
              ≡ told logged (take n (data_frames loads ts)) p)
            × (is_match (at_entry loads logged o x ts e).1
                ≡ any_match logged (take n (data_frames loads ts)) p)
      go none = let r = await_loop-IsTold loads logged o ts e in (r.count, r.state_eq, r.match_eq)
      go (some d) = elim (Bool-cases (d == 0)) [
        | inl spent ↦ (0, rw (spent, at_entry) refl, rw (spent, at_entry) refl)
        | inr left ↦
            let r = await_loop-IsTold loads logged o ts e in
            (r.count, rw (left, at_entry) r.state_eq, rw (left, at_entry) r.match_eq)
      ]

  pub await_predicate-IsLogged :
      (start : ℕ) (ts : List Turn) (cursor : Option (Option String)) (d : D)
      → IsLogged
          (read_frames_of start ts cursor d)
          (data_frames loads ts)
          d
          (await_predicate loads decide o start ts cursor d)
  await_predicate-IsLogged start ts cursor d =
      let (n, st, m) = await_predicate-IsTold start ts cursor (d, []) in
      let read = take n (data_frames loads ts) in
      let both = st ∙ told-logged read [] d in
      let log : read_frames_of start ts cursor d ≡ read = ap (λ p. p.1) both in
      let s =
        await_predicate-SameEnd (λ f. Unit) (λ x p. x ≡ p.0) loads decide logged agree o start ts
          cursor d (d, []) (AllFields_unit (data_frames loads ts)) refl in
      record {
        count = n;
        first = log;
        state_eq = s.engines.states ∙ ap (λ p. p.0) both ∙ ap (λ l. told decide l d) (sym log);
        match_eq =
            ap (λ x. is_match x) s.ends
            ∙ m
            ∙ any_match-logged read [] d
            ∙ ap (λ l. any_match decide l d) (sym log);
      }
    where
      agree : Agree (λ f. Unit) (λ x p. x ≡ p.0) decide logged
      agree f x p g r = (ap (λ y. (decide f y).0) r, ap (λ y. (decide f y).1) r)
