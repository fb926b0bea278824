-- ===== src/Coalesce/Tests.antt =====
-- Runs of the model of waitbus/coalesce.py.
use waitbus.Prelude.{
  ℕ, String, ◌≡◌, refl, true, false, Option, none, some, List, [], ◌∷◌, ◌++◌, map, ◌==◌,
  if◌then◌else◌,
}
use waitbus.Frame.{Bytes}
use waitbus.Json.{pos, Json, int, str, obj, Fields, end, field}
use waitbus.Client.{outcome_timed_out, kind_of, await_predicate, silent, frame_bytes, Turn, returns}
use waitbus.Client.Await.{data_frames, marks}
use waitbus.Client.Alike.{AllFields}
use waitbus.Coalesce.{entity_key, event_id, before, is_newer, sorted, flush, coalesce_replay}
use waitbus.Coalesce.Newest.{HasId}
use waitbus.Coalesce.Replay.{emit_all, faithful, coalesce_replay-IsSnapshot}
use waitbus.Coalesce.Snapshot.{IsSnapshot}

abbrev run_frame : String → ℕ → Fields
run_frame id n = field "kind" (str "event") (
    field "event_id" (str id) (
      field "event_type" (str "workflow_run") (
        field "fields" (obj (field "source" (str "github") (field "run_id" (int (pos n)) end)))
          end)))

abbrev other_frame : String → Fields
other_frame id = field "kind" (str "event") (
    field "event_id" (str id) (
      field "event_type" (str "pytest")
        (field "fields" (obj (field "source" (str "pytest") end)) end)))

unfoldable some_loads : Bytes → Option Json
some_loads (b ∷ []) =
    if b == 1
    then some (obj (run_frame "01A" 7))
    else if b == 2
    then some (obj (run_frame "01C" 7))
    else if b == 3
    then some (obj (run_frame "01B" 7))
    else if b == 4
    then some (obj (other_frame "01AA"))
    else if b == 5
    then some (obj (run_frame "019" 8))
    else none
some_loads _ = none

abbrev at_clock : ℕ → Turn
at_clock n = record { now = n; answer = frame_bytes (n ∷ []); writable = true; after = n }

abbrev idle_turn : Turn
idle_turn = record { now = 6; answer = silent; writable = true; after = 30 }

abbrev wire : List Turn
wire = at_clock 1 ∷ at_clock 2 ∷ at_clock 3 ∷ at_clock 4 ∷ at_clock 5 ∷ idle_turn ∷ []

abbrev ids : List Fields → List (Option String)
ids fs = map (λ f. event_id f) fs

abbrev collect : Fields → List Fields → List Fields
collect f fs = fs ++ f ∷ []

-- Run 7 is left at its newest id, though an older one came later.
snapshot_emitted :
    coalesce_replay some_loads collect (λ f. true) 9 false 0 wire 0 [] [] (some none) ≡ (
      (run_frame "019" 8 ∷ other_frame "01AA" ∷ run_frame "01C" 7 ∷ [], some (some "01C")),
      returns outcome_timed_out,
    )
unfolding coalesce_replay some_loads sorted flush entity_key event_id before is_newer
snapshot_emitted = refl

wire_has_ids : AllFields HasId (data_frames some_loads wire)
unfolding some_loads event_id kind_of
wire_has_ids =
    (("01A", refl), (("01C", refl), (("01B", refl), (("01AA", refl), (("019", refl), tt)))))

faithful_ends : (faithful some_loads collect 9 0 wire).1 ≡ returns outcome_timed_out
unfolding await_predicate some_loads
faithful_ends = refl

coalesce_replay-IsSnapshot_example :
    (merged : List Fields) × IsSnapshot (faithful some_loads collect 9 0 wire).0.state merged
    × (coalesce_replay some_loads collect (λ f. true) 9 false 0 wire 0 [] [] (some none) ≡ (
      (emit_all some_loads collect merged [], marks merged (some none)),
      returns outcome_timed_out,
    ))
coalesce_replay-IsSnapshot_example =
    coalesce_replay-IsSnapshot some_loads collect 9 0 wire 0 [] [] (some none) outcome_timed_out
      wire_has_ids faithful_ends refl
