-- ===== src/On/Match.antt =====
-- waitbus/on.py and waitbus/wait.py: which frames the two verbs match.
use waitbus.Prelude.{
  ℕ, ◌≤◌, ◌<◌, code, String, ◌≡◌, refl, sym, subst, Bool, true, false, not, ◌&&◌, ◌||◌, Option,
  none, some, List, [], ◌∷◌, ◌++◌, arith, str_eq, if◌then◌else◌,
}
use waitbus.Frame.{Bytes}
use waitbus.Json.{get, as_str, Json, null, nan, bool, int, real, infinity, str, arr, obj, Fields}
use waitbus.Client.{
  is_text, await_predicate, Turn, Ended, returns, rejects, crashes, still_waiting, Options,
}
use waitbus.Client.Await.{data_frames}
use waitbus.Client.Alike.{Agree, AllFields, await_predicate-SameEnd}
use waitbus.Predicate.{Predicate}
use waitbus.Wait.{
  exit_success, exit_failure, exit_startup, exit_timeout, exit_sigint, exit_code_if_terminal,
  decide_fields, decide_in, build_decide, dispatch_matched, dispatch_outcome, exit_of, wait, Exit,
  exits, uncaught, waits,
}
use waitbus.On.{
  is_pending, capture_in, make_decide, outcome_exit, first_captured, next_of, next_match_or_exit,
  NextMatch, next_frame, next_exit, next_raises, next_waits,
}

-- The one verb has an exit code of 0 or 1 exactly when the other has a frame.
abbrev AllOrNone : Option ℕ → List Fields → Type 0
AllOrNone none captured = captured ≡ []
AllOrNone (some code) [] = ⊥
AllOrNone (some code) (frame ∷ captured) = code ≤ 1

snoc-AllOrNone :
    (code : ℕ) (captured : List Fields) (frame : Fields)
    → code ≤ 1
    → AllOrNone (some code) (captured ++ frame ∷ [])
snoc-AllOrNone code [] frame h = h
snoc-AllOrNone code (f ∷ captured) frame h = h

-- What a frame does to both
abbrev Both : Option ℕ × Bool → List Fields × Bool → Type 0
Both p q = AllOrNone p.0 q.0 × (p.1 ≡ q.1)

abbrev AtMostOne : Option ℕ → Type 0
AtMostOne none = Unit
AtMostOne (some code) = code ≤ 1

exit_code_if_terminal-AtMostOne : (c : Option String) → AtMostOne (exit_code_if_terminal c)
unfolding exit_code_if_terminal
exit_code_if_terminal-AtMostOne none = tt
exit_code_if_terminal-AtMostOne (some c) =
    go (str_eq c "success") (str_eq c "failure" || str_eq c "cancelled" || str_eq c "timed_out")
  where
    go :
        (a b : Bool)
        → AtMostOne (if a then some exit_success else if b then some exit_failure else none)
    go true b = omega arith
    go false true = omega arith
    go false false = tt

fields-Both :
    (holds : Bool) (fields frame : Fields) (code : Option ℕ) (captured : List Fields)
    → AllOrNone code captured
    → Both (decide_in holds (obj fields) code) (capture_in holds (obj fields) frame captured)
unfolding decide_in decide_fields capture_in is_pending
fields-Both holds fields frame code captured h =
    go holds (is_text "github" (get "source" fields))
      (exit_code_if_terminal (as_str (get "conclusion" fields)))
      (exit_code_if_terminal-AtMostOne (as_str (get "conclusion" fields)))
  where
    go :
        (b g : Bool) (t : Option ℕ)
        → AtMostOne t
        → Both
            (if b
              then (if g
                  then elim t as (λ _. Option ℕ × Bool) [
                    | none ↦ (code, false)
                    | some c ↦ (some c, true)
                  ]
                  else (some exit_success, true))
              else (code, false))
            (if not b
              then (captured, false)
              else if g && elim t as (λ _. Bool) [ none ↦ true | some c ↦ false ]
              then (captured, false)
              else (captured ++ frame ∷ [], true))
    go false g t m = (h, refl)
    go true true none m = (h, refl)
    go true true (some c) m = (snoc-AllOrNone c captured frame m, refl)
    go true false t m = (snoc-AllOrNone 0 captured frame (omega arith), refl)

json-Both :
    (holds : Bool) (j : Json) (frame : Fields) (code : Option ℕ) (captured : List Fields)
    → AllOrNone code captured
    → Both (decide_in holds j code) (capture_in holds j frame captured)
unfolding decide_in capture_in
json-Both holds (obj fields) frame code captured h = fields-Both holds fields frame code captured h
json-Both holds null frame code captured h = (h, refl)
json-Both holds nan frame code captured h = (h, refl)
json-Both holds (bool b) frame code captured h = (h, refl)
json-Both holds (int z) frame code captured h = (h, refl)
json-Both holds (real z k) frame code captured h = (h, refl)
json-Both holds (infinity b) frame code captured h = (h, refl)
json-Both holds (str s) frame code captured h = (h, refl)
json-Both holds (arr xs) frame code captured h = (h, refl)

verbs-Agree :
    (composed : Predicate)
    → Agree (λ f. Unit) AllOrNone (build_decide composed) (make_decide composed)
unfolding build_decide make_decide
verbs-Agree composed f code captured g h =
    json-Both (composed.evaluate (obj f)) (get "fields" f) f code captured h

-- The two verbs end alike: by the same exit code, with 0 or 1 where there is a frame to run the command
-- for, by an exception, or not yet.
abbrev pub Corresponds : Exit → NextMatch → Type 0
Corresponds (exits n) (next_exit m) = (n ≡ m) × (1 < m)
Corresponds (exits n) (next_frame frame) = n ≤ 1
Corresponds uncaught next_raises = Unit
Corresponds waits next_waits = Unit
Corresponds _ _ = ⊥

matched-Corresponds :
    (code : Option ℕ) (captured : List Fields)
    → AllOrNone code captured
    → Corresponds (dispatch_matched true code) (first_captured captured)
unfolding dispatch_matched
matched-Corresponds none captured h =
    subst (λ l. Corresponds uncaught (first_captured l)) (sym h) tt
matched-Corresponds (some code) [] h = absurd h
matched-Corresponds (some code) (frame ∷ captured) h = h

ended-Corresponds :
    (ended : Ended) (code : Option ℕ) (captured : List Fields)
    → AllOrNone code captured
    → Corresponds (exit_of ended (λ w. dispatch_outcome true w code)) (next_of ended captured)
unfolding exit_of dispatch_outcome next_of outcome_exit
ended-Corresponds (returns w) code captured h = go w.cancelled w.timed_out w.matched
  where
    go :
        (c t m : Bool)
        → Corresponds
            (if c
              then exits exit_sigint
              else if t
              then exits exit_timeout
              else if m
              then dispatch_matched true code
              else exits exit_startup)
            (elim (if c
                then some exit_sigint
                else if t
                then some exit_timeout
                else if m
                then none
                else some exit_startup)
              as (λ _. NextMatch) [ none ↦ first_captured captured | some n ↦ next_exit n ])
    go true t m = (refl, omega arith)
    go false true m = (refl, omega arith)
    go false false true = matched-Corresponds code captured h
    go false false false = (refl, omega arith)
ended-Corresponds (rejects r) code captured h = tt
ended-Corresponds crashes code captured h = tt
ended-Corresponds still_waiting code captured h = tt

AllFields_true : (fs : List Fields) → AllFields (λ f. Unit) fs
AllFields_true [] = tt
AllFields_true (f ∷ fs) = (tt, AllFields_true fs)

-- Over the same wire, with the same predicate and deadline: the two verbs end by the same exit code, or
-- both by an exception, or both still wait, but that `on` has a frame to run its command for exactly
-- where `wait` exits with 0 or 1.
pub wait-Corresponds :
    (loads : Bytes → Option Json) (composed : Predicate) (deadline start : ℕ) (ts : List Turn)
    → Corresponds
        (wait loads composed deadline true start ts)
        (next_match_or_exit loads composed deadline start ts)
unfolding wait next_match_or_exit
wait-Corresponds loads composed deadline start ts =
    let o : Options = record { deadline = some deadline; idle_reset = false } in
    let s =
      await_predicate-SameEnd (λ f. Unit) AllOrNone loads (build_decide composed)
        (make_decide composed) (verbs-Agree composed) o start ts none none []
        (AllFields_true (data_frames loads ts)) refl in
    let r = await_predicate loads (build_decide composed) o start ts none none in
    let r' = await_predicate loads (make_decide composed) o start ts none [] in
    subst
      (λ e.
        Corresponds (exit_of r.1 (λ w. dispatch_outcome true w r.0.state)) (next_of e r'.0.state))
      s.ends (ended-Corresponds r.1 r.0.state r'.0.state s.engines.states)
