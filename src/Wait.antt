-- ===== src/Wait.antt =====
-- waitbus/wait.py and waitbus/_compose.py: the verb that waits for an event, for one predicate or for
-- clauses of several sources. The columns source and conclusion of a frame are texts or null. `exits` is
-- `typer.Exit`; of an exception that nothing catches Python makes the exit code 1.
pub mod AllOf
pub mod Verdict
pub mod Tests
use waitbus.Prelude.{
  ℕ, zero, suc, code, String, Bool, true, false, not, ◌&&◌, ◌||◌, Option, none, some, List, [], ◌∷◌,
  map, append_text, str_eq, ◌==◌, if◌then◌else◌,
}
use waitbus.Frame.{Bytes}
use waitbus.Json.{get, as_str, Json, obj, Fields}
use waitbus.Client.{
  is_text, await_predicate, WaitOutcome, Turn, Ended, returns, rejects, crashes, still_waiting,
}
use waitbus.Subscribe.{is_digit, is_lower}
use waitbus.Predicate.{parse_match, compose_any, Predicate}

abbrev pub exit_success : ℕ
exit_success = 0

abbrev pub exit_failure : ℕ
exit_failure = 1

abbrev pub exit_startup : ℕ
exit_startup = 2

abbrev pub exit_timeout : ℕ
exit_timeout = 124

abbrev pub exit_sigint : ℕ
exit_sigint = 130

pub data Exit : Type 0 where
  exits : ℕ → Exit
  uncaught waits : Exit

-- The exit code of the process, once it has one
unfoldable pub exit_code : Exit → Option ℕ
exit_code (exits n) = some n
exit_code uncaught = some 1
exit_code waits = none

-- `_exit_code_if_terminal`
unfoldable pub exit_code_if_terminal : Option String → Option ℕ
exit_code_if_terminal none = none
exit_code_if_terminal (some c) =
    if str_eq c "success"
    then some exit_success
    else if str_eq c "failure" || str_eq c "cancelled" || str_eq c "timed_out"
    then some exit_failure
    else none

-- `_build_decide`, whose state is `matched_exit`
unfoldable pub decide_fields : Bool → Fields → Option ℕ → Option ℕ × Bool
unfolding exit_code_if_terminal is_text get as_str
decide_fields holds fields matched_exit =
    let terminal =
      elim (exit_code_if_terminal (as_str (get "conclusion" fields))) as (λ _. Option ℕ × Bool) [
        | none ↦ (matched_exit, false)
        | some code ↦ (some code, true)
      ] in
    if holds
    then if is_text "github" (get "source" fields) then terminal else (some exit_success, true)
    else (matched_exit, false)

unfoldable pub decide_in : Bool → Json → Option ℕ → Option ℕ × Bool
unfolding decide_fields
decide_in holds (obj fields) matched_exit = decide_fields holds fields matched_exit
decide_in holds _ matched_exit = (matched_exit, false)

unfoldable pub build_decide : Predicate → Fields → Option ℕ → Option ℕ × Bool
unfolding decide_in get
build_decide composed frame matched_exit =
    decide_in (composed.evaluate (obj frame)) (get "fields" frame) matched_exit

-- `_dispatch_outcome`
unfoldable pub dispatch_matched : Bool → Option ℕ → Exit
dispatch_matched exit_status none = uncaught
dispatch_matched exit_status (some code) = exits (if exit_status then code else exit_success)

unfoldable pub dispatch_outcome : Bool → WaitOutcome → Option ℕ → Exit
unfolding dispatch_matched
dispatch_outcome exit_status w matched_exit =
    let matched = dispatch_matched exit_status matched_exit in
    if w.cancelled
    then exits exit_sigint
    else if w.timed_out
    then exits exit_timeout
    else if w.matched
    then matched
    else exits exit_startup

-- What becomes of the end of the engine's call: its exceptions are not caught.
unfoldable pub exit_of : Ended → (WaitOutcome → Exit) → Exit
exit_of (returns w) dispatch = dispatch w
exit_of (rejects r) dispatch = uncaught
exit_of crashes dispatch = uncaught
exit_of still_waiting dispatch = waits

-- `_wait`, from the composed predicate and the open subscriber on
unfoldable pub wait : (Bytes → Option Json) → Predicate → ℕ → Bool → ℕ → List Turn → Exit
unfolding exit_of dispatch_outcome build_decide await_predicate
wait loads composed deadline exit_status start ts =
    let (e, ended) =
      await_predicate loads (build_decide composed)
        (record { deadline = some deadline; idle_reset = false }) start ts none none in
    exit_of ended (λ w. dispatch_outcome exit_status w e.state)

pub record Clause : Type 0 where
  pub source : String
  pub spec : String
  pub text : String

-- `_SOURCE_NAME`, whose `$` also stands before a final newline
unfoldable pub is_name_char : ℕ → Bool
unfolding is_lower is_digit
is_name_char c = is_lower c || is_digit c || c == 95 || c == 45

unfoldable pub name_rest : ℕ → String → Bool
unfolding is_name_char
name_rest n String.[] = true
name_rest zero (String.◌∷◌ c s) = code c == 10 && str_eq s ""
name_rest (suc n) (String.◌∷◌ c s) =
    let rest = name_rest n s in if is_name_char (code c) then rest else code c == 10 && str_eq s ""

unfoldable pub is_source_name : String → Bool
unfolding name_rest is_lower
is_source_name String.[] = false
is_source_name (String.◌∷◌ c s) = is_lower (code c) && name_rest 31 s

-- `text.partition(":")`, where there is one
unfoldable pub at_colon : String → Option (String × String)
at_colon String.[] = none
at_colon (String.◌∷◌ c s) =
    let later = at_colon s in
    if code c == 58
    then some ("", s)
    else elim later [ none ↦ none | some r ↦ some (String.◌∷◌ c r.0, r.1) ]

-- `parse_clause`; `none` is `ValueError`.
unfoldable pub parse_clause : String → Option Clause
unfolding at_colon is_source_name
parse_clause text = elim (at_colon text) [
  | none ↦ none
  | some (source, spec) ↦
      if is_source_name source && not (str_eq spec "")
      then some (record { source = source; spec = spec; text = text })
      else none
]

-- `json.dumps` of a source name, in which only a final newline is escaped
unfoldable pub dumps_name : String → String
dumps_name String.[] = ""
dumps_name (String.◌∷◌ c s) =
    let rest = dumps_name s in if code c == 10 then append_text "\\n" rest else String.◌∷◌ c rest

-- `clause_predicate`
unfoldable pub clause_predicate : (String → Option Json) → Clause → Option Predicate
unfolding parse_match dumps_name
clause_predicate loads c =
    elim (parse_match loads
      (append_text "fields.source=\"" (append_text (dumps_name c.source) "\"") ∷ c.spec ∷ [])) [
        | none ↦ none
        | some lowered ↦ some (record { evaluate = lowered.evaluate; source = c.text })
      ]

-- `_parse_compose_clauses`
unfoldable pub parse_compose_clauses :
    (String → Option Json) → List String → Option (List Predicate)
unfolding parse_clause clause_predicate
parse_compose_clauses loads [] = some []
parse_compose_clauses loads (spec ∷ specs) = elim (parse_clause spec) [
  | none ↦ none
  | some c ↦ elim (clause_predicate loads c) [
    | none ↦ none
    | some p ↦ elim (parse_compose_clauses loads specs) [ none ↦ none | some ps ↦ some (p ∷ ps) ]
  ]
]

-- `AllOfTracker`: which clauses are satisfied
unfoldable pub unsatisfied : List Predicate → List Bool
unsatisfied [] = []
unsatisfied (p ∷ ps) = false ∷ unsatisfied ps

unfoldable pub update_each : List Predicate → Json → List Bool → List Bool
update_each (p ∷ ps) frame (b ∷ bs) = (b || p.evaluate frame) ∷ update_each ps frame bs
update_each _ frame bs = bs

unfoldable pub all_set : List Bool → Bool
all_set [] = true
all_set (b ∷ bs) = b && all_set bs

unfoldable pub outstanding : List Predicate → List Bool → List String
outstanding (p ∷ ps) (b ∷ bs) = let rest = outstanding ps bs in if b then rest else p.source ∷ rest
outstanding _ bs = []

-- `_build_composed_decide`
unfoldable pub composed_in : List Predicate → Bool → Json → Json → List Bool → List Bool × Bool
unfolding update_each all_set compose_any
composed_in clauses conjunction frame (obj fields) satisfied =
    let satisfied' = update_each clauses frame satisfied in
    if conjunction
    then (satisfied', all_set satisfied')
    else (satisfied, (compose_any clauses).evaluate frame)
composed_in clauses conjunction frame _ satisfied = (satisfied, false)

unfoldable pub composed_decide : List Predicate → Bool → Fields → List Bool → List Bool × Bool
unfolding composed_in get
composed_decide clauses conjunction frame satisfied =
    composed_in clauses conjunction (obj frame) (get "fields" frame) satisfied

-- `_dispatch_composed_outcome`, and the clauses that it names on a timeout
unfoldable pub dispatch_composed_outcome :
    List Predicate → Bool → WaitOutcome → List Bool → Exit × List String
unfolding outstanding
dispatch_composed_outcome clauses conjunction w satisfied =
    let pending =
      if conjunction then outstanding clauses satisfied else map (λ p. p.source) clauses in
    if w.cancelled
    then (exits exit_sigint, [])
    else if w.timed_out
    then (exits exit_timeout, pending)
    else if w.matched
    then (exits exit_success, [])
    else (exits exit_startup, [])

unfoldable pub composed_exit : List Predicate → Bool → Ended → List Bool → Exit × List String
unfolding dispatch_composed_outcome
composed_exit clauses conjunction (returns w) satisfied =
    dispatch_composed_outcome clauses conjunction w satisfied
composed_exit clauses conjunction (rejects r) satisfied = (uncaught, [])
composed_exit clauses conjunction crashes satisfied = (uncaught, [])
composed_exit clauses conjunction still_waiting satisfied = (waits, [])

-- `_wait_composed`, from the open subscriber on
unfoldable pub wait_composed :
    (Bytes → Option Json) → List Predicate → Bool → ℕ → ℕ → List Turn → Exit × List String
unfolding composed_exit composed_decide unsatisfied await_predicate
wait_composed loads clauses conjunction deadline start ts =
    let (e, ended) =
      await_predicate loads (composed_decide clauses conjunction)
        (record { deadline = some deadline; idle_reset = false }) start ts none
        (unsatisfied clauses) in
    composed_exit clauses conjunction ended e.state
