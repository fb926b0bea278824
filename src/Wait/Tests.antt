-- ===== src/Wait/Tests.antt =====
-- Runs of the model of waitbus/wait.py.
use waitbus.Prelude.{
  ℕ, String, ◌≡◌, refl, ◌↔◌, true, false, Option, none, some, [], ◌∷◌, ◌==◌, if◌then◌else◌, take,
}
use waitbus.Frame.{Bytes}
use waitbus.Json.{get, Json, str, obj, Fields, end, field}
use waitbus.Client.{is_text, kind_of, frame_bytes, Turn}
use waitbus.Client.Await.{data_frames}
use waitbus.Predicate.{dig, Predicate}
use waitbus.Wait.{
  exit_success, exit_failure, exit_timeout, exit_code, wait, parse_clause, dumps_name,
  wait_composed, exits,
}
use waitbus.Wait.AllOf.{all_met, unmet}
use waitbus.Wait.Verdict.{frames_read, wait_composed-all_met}

abbrev event : String → String → Fields
event source conclusion = field "kind" (str "event") (
    field "fields" (obj (field "source" (str source) (field "conclusion" (str conclusion) end)))
      end)

abbrev refusal : Fields
refusal = field "kind" (str "subscribe_rejected") (field "reason" (str "lag_limit_exceeded") end)

unfoldable some_loads : Bytes → Option Json
some_loads (b ∷ []) =
    if b == 1
    then some (obj (event "github" "neutral"))
    else if b == 2
    then some (obj (event "docker" ""))
    else if b == 3
    then some (obj (event "github" "timed_out"))
    else if b == 4
    then some (obj refusal)
    else none
some_loads _ = none

abbrev at_clock : ℕ → Turn
at_clock n = record { now = n; answer = frame_bytes (n ∷ []); writable = true; after = n }

abbrev from_source : String → Predicate
from_source name = record {
  evaluate = λ frame. elim (dig frame "fields.source") [ none ↦ false | some v ↦ is_text name v ];
  source = name;
}

-- A failed conclusion is exit code 1, behind one that is not terminal.
wait_failed :
    wait some_loads (from_source "github") 60 true 0 (at_clock 1 ∷ at_clock 2 ∷ at_clock 3 ∷ [])
    ≡ exits exit_failure
unfolding wait some_loads kind_of dig
wait_failed = refl

-- Two clauses, met by two frames
wait_both :
    (wait_composed some_loads
      (from_source "docker" ∷ from_source "github" ∷ [])
      true
      60
      0
      (at_clock 1 ∷ at_clock 2 ∷ [])).0
    ≡ exits exit_success
unfolding wait_composed some_loads kind_of dig
wait_both = refl

-- A clause is parted at its first colon, and its source is in lower case.
clauses_parsed :
    parse_clause "docker:fields.action=\"die\""
    ≡ some (record {
      source = "docker";
      spec = "fields.action=\"die\"";
      text = "docker:fields.action=\"die\"";
    })
unfolding parse_clause
clauses_parsed = refl

newline_escaped : dumps_name "docker\n" ≡ "docker\\n"
unfolding dumps_name
newline_escaped = refl

clause_refused : parse_clause "Docker:x=1" ≡ none
unfolding parse_clause
clause_refused = refl

wait_composed-all_met_example :
    ((n : ℕ) × (frames_read some_loads
          (from_source "docker")
          (from_source "github" ∷ [])
          60
          0
          (at_clock 1 ∷ at_clock 2 ∷ [])
        ≡ take n (data_frames some_loads (at_clock 1 ∷ at_clock 2 ∷ []))))
    × (((wait_composed some_loads
            (from_source "docker" ∷ from_source "github" ∷ [])
            true
            60
            0
            (at_clock 1 ∷ at_clock 2 ∷ [])).0
          ≡ exits exit_success)
        ↔ (all_met (from_source "docker" ∷ from_source "github" ∷ []) (
              frames_read some_loads
                (from_source "docker")
                (from_source "github" ∷ [])
                60
                0
                (at_clock 1 ∷ at_clock 2 ∷ []))
            ≡ true))
    × ((wait_composed some_loads
            (from_source "docker" ∷ from_source "github" ∷ [])
            true
            60
            0
            (at_clock 1 ∷ at_clock 2 ∷ [])).0
          ≡ exits exit_timeout
        → (wait_composed some_loads
            (from_source "docker" ∷ from_source "github" ∷ [])
            true
            60
            0
            (at_clock 1 ∷ at_clock 2 ∷ [])).1
          ≡ unmet (from_source "docker" ∷ from_source "github" ∷ []) (
              frames_read some_loads
                (from_source "docker")
                (from_source "github" ∷ [])
                60
                0
                (at_clock 1 ∷ at_clock 2 ∷ [])))
wait_composed-all_met_example =
    wait_composed-all_met some_loads (from_source "docker") (from_source "github" ∷ []) 60 0
      (at_clock 1 ∷ at_clock 2 ∷ [])

refusal_read : some_loads (4 ∷ []) ≡ some (obj refusal)
unfolding some_loads
refusal_read = refl

refusal_kind : get "kind" refusal ≡ str "subscribe_rejected"
unfolding get
refusal_kind = refl

-- A wait that is refused ends with the exit code of a failed conclusion.
refused_wait :
    exit_code (wait some_loads (from_source "github") 60 true 0 (at_clock 4 ∷ []))
    ≡ some exit_failure
unfolding exit_code wait some_loads kind_of
refused_wait = refl
