-- ===== src/Wait/Verdict.antt =====
-- waitbus/wait.py: the exit code of the verb.
use waitbus.Prelude.{
  ℕ, ◌+◌, String, ◌≡◌, refl, sym, ap, ◌∙◌, ◌≢◌, ◌↔◌, Bool, true, false, Option, none, some, List,
  [], ◌∷◌, arith, if◌then◌else◌, take,
}
use waitbus.Frame.{Bytes}
use waitbus.Json.{Json, Fields}
use waitbus.Client.{await_predicate, Turn, Ended, returns, rejects, crashes, still_waiting, Options}
use waitbus.Client.Await.{data_frames, is_match}
use waitbus.Client.Ends.{flag, IsTerminalEnd, await_predicate-IsTerminalEnd}
use waitbus.Client.Logged.{read_frames_of, await_predicate-IsLogged}
use waitbus.Predicate.{Predicate}
use waitbus.Wait.{
  exit_success, exit_startup, exit_timeout, exit_sigint, unsatisfied, all_set, outstanding,
  composed_decide, dispatch_composed_outcome, composed_exit, wait_composed, Exit, exits, uncaught,
  waits,
}
use waitbus.Wait.AllOf.{
  all_met, unmet, told-flags_by, any_match-all_set, all_set-met, outstanding-unmet,
}

abbrev number_of : Exit → ℕ
number_of (exits n) = n
number_of uncaught = 1000
number_of waits = 1001

other_exit {ℓ} : {A : Type ℓ} (x y : Exit) → number_of x ≢ number_of y → x ≡ y → A
other_exit x y h e = absurd (h (ap (λ z. number_of z) e))

-- The tests of `_dispatch_composed_outcome`, in their order
abbrev by_flags : Bool → Bool → Bool → List String → Exit × List String
by_flags cancelled timed_out matched pending =
    if cancelled
    then (exits exit_sigint, [])
    else if timed_out
    then (exits exit_timeout, pending)
    else if matched
    then (exits exit_success, [])
    else (exits exit_startup, [])

by_flags-matched :
    (c t m p : Bool) (pending : List String)
    → flag m + flag t + flag c + flag p ≡ 1
    → ((by_flags c t m pending).0 ≡ exits exit_success) ↔ (m ≡ true)
by_flags-matched true t true p pending one = absurd (omega (arith, one))
by_flags-matched true t false p pending one =
    (λ e. other_exit (exits exit_sigint) (exits exit_success) (λ n. omega (arith, n)) e, λ m. cc)
by_flags-matched false true true p pending one = absurd (omega (arith, one))
by_flags-matched false true false p pending one =
    (λ e. other_exit (exits exit_timeout) (exits exit_success) (λ n. omega (arith, n)) e, λ m. cc)
by_flags-matched false false true p pending one = (λ e. refl, λ m. refl)
by_flags-matched false false false p pending one =
    (λ e. other_exit (exits exit_startup) (exits exit_success) (λ n. omega (arith, n)) e, λ m. cc)

by_flags-timeout :
    (c t m : Bool) (pending : List String)
    → (by_flags c t m pending).0 ≡ exits exit_timeout
    → (by_flags c t m pending).1 ≡ pending
by_flags-timeout true t m pending e =
    other_exit (exits exit_sigint) (exits exit_timeout) (λ n. omega (arith, n)) e
by_flags-timeout false true m pending e = refl
by_flags-timeout false false true pending e =
    other_exit (exits exit_success) (exits exit_timeout) (λ n. omega (arith, n)) e
by_flags-timeout false false false pending e =
    other_exit (exits exit_startup) (exits exit_timeout) (λ n. omega (arith, n)) e

composed_exit-matched :
    (clauses : List Predicate) (ended : Ended) (bs : List Bool)
    → IsTerminalEnd ended
    → ((composed_exit clauses true ended bs).0 ≡ exits exit_success) ↔ (is_match ended ≡ true)
unfolding composed_exit dispatch_composed_outcome
composed_exit-matched clauses (returns w) bs v =
    by_flags-matched w.cancelled w.timed_out w.matched w.peer_closed (outstanding clauses bs) v.0
composed_exit-matched clauses (rejects r) bs v =
    (λ e. other_exit uncaught (exits exit_success) (λ n. omega (arith, n)) e, λ m. cc)
composed_exit-matched clauses crashes bs v =
    (λ e. other_exit uncaught (exits exit_success) (λ n. omega (arith, n)) e, λ m. cc)
composed_exit-matched clauses still_waiting bs v =
    (λ e. other_exit waits (exits exit_success) (λ n. omega (arith, n)) e, λ m. cc)

composed_exit-timeout :
    (clauses : List Predicate) (ended : Ended) (bs : List Bool)
    → (composed_exit clauses true ended bs).0 ≡ exits exit_timeout
    → (composed_exit clauses true ended bs).1 ≡ outstanding clauses bs
unfolding composed_exit dispatch_composed_outcome
composed_exit-timeout clauses (returns w) bs e =
    by_flags-timeout w.cancelled w.timed_out w.matched (outstanding clauses bs) e
composed_exit-timeout clauses (rejects r) bs e =
    other_exit uncaught (exits exit_timeout) (λ n. omega (arith, n)) e
composed_exit-timeout clauses crashes bs e =
    other_exit uncaught (exits exit_timeout) (λ n. omega (arith, n)) e
composed_exit-timeout clauses still_waiting bs e =
    other_exit waits (exits exit_timeout) (λ n. omega (arith, n)) e

module _ (loads : Bytes → Option Json) (p : Predicate) (ps : List Predicate) (deadline start : ℕ)
    (ts : List Turn) where
  -- The frames that the wait hands to its callback
  abbrev pub frames_read : List Fields
  frames_read =
      read_frames_of loads (composed_decide (p ∷ ps) true)
        (record { deadline = some deadline; idle_reset = false }) start ts none
        (unsatisfied (p ∷ ps))

  -- With one clause or more: the frames read are the first of the data frames of the wire; the wait ends
  -- with exit code 0 exactly when each clause is met by one of them, not all by the same one; and when it
  -- times out, it names the clauses that none of them meets.
  pub wait_composed-all_met :
      ((n : ℕ) × (frames_read ≡ take n (data_frames loads ts)))
      × (((wait_composed loads (p ∷ ps) true deadline start ts).0 ≡ exits exit_success)
          ↔ (all_met (p ∷ ps) frames_read ≡ true))
      × ((wait_composed loads (p ∷ ps) true deadline start ts).0 ≡ exits exit_timeout
          → (wait_composed loads (p ∷ ps) true deadline start ts).1 ≡ unmet (p ∷ ps) frames_read)
  unfolding wait_composed
  wait_composed-all_met =
      let o : Options = record { deadline = some deadline; idle_reset = false } in
      let decide = composed_decide (p ∷ ps) true in
      let l = await_predicate-IsLogged loads decide o start ts none (unsatisfied (p ∷ ps)) in
      let r = await_predicate loads decide o start ts none (unsatisfied (p ∷ ps)) in
      let flags_eq = l.state_eq ∙ told-flags_by (p ∷ ps) frames_read (unsatisfied (p ∷ ps)) in
      let matched : is_match r.1 ≡ all_met (p ∷ ps) frames_read =
        l.match_eq
        ∙ any_match-all_set (p ∷ ps) frames_read (unsatisfied (p ∷ ps)) refl
        ∙ ap (λ bs. all_set bs) (told-flags_by (p ∷ ps) frames_read (unsatisfied (p ∷ ps)))
        ∙ all_set-met (p ∷ ps) frames_read in
      let (left, right) =
        composed_exit-matched (p ∷ ps) r.1 r.0.state
          (await_predicate-IsTerminalEnd loads decide o start ts none (unsatisfied (p ∷ ps))) in
      (
        (l.count, l.first),
        (λ e. sym matched ∙ left e, λ m. right (matched ∙ m)),
        λ e.
            composed_exit-timeout (p ∷ ps) r.1 r.0.state e
            ∙ ap (λ bs. outstanding (p ∷ ps) bs) flags_eq
            ∙ outstanding-unmet (p ∷ ps) frames_read,
      )
