-- ===== src/Coalesce.antt =====
-- waitbus/coalesce.py and waitbus/_terminal.py: the replay that keeps the latest frame per entity.
-- A `ValueError` is `none`; one raised inside the callback ends the call of the engine, which the model
-- writes as a match whose state is `none`. `emit` is the caller's, on a state of its own, and `writable`
-- says for a frame whether the bookmark file can then be written.
pub mod Sorted
pub mod Newest
pub mod Kept
pub mod Flush
pub mod Snapshot
pub mod Replay
pub mod Tests
use waitbus.Prelude.{
  ℕ, suc, code, String, Bool, true, false, not, ◌||◌, Option, none, some, List, [], ◌∷◌, ◌++◌, map,
  str_eq, ◌==◌, if◌then◌else◌,
}
use waitbus.Frame.{Bytes}
use waitbus.Json.{get, as_nonempty, pos, Json, int, obj, Fields}
use waitbus.Client.{
  is_text, advance_cursor, await_predicate, emit_predicate, WaitOutcome, Turn, Ended, returns,
  crashes,
}
use waitbus.Ulid.Order.{lt_text}

-- `EntityKey`: the tuples that `entity_key` makes. The text of a positive integer is the integer.
pub data EntityKey : Type 0 where
  github_job github_run : ℕ → EntityKey
  alertmanager_alert : String → EntityKey

unfoldable pub key_eq : EntityKey → EntityKey → Bool
key_eq (github_job m) (github_job n) = m == n
key_eq (github_run m) (github_run n) = m == n
key_eq (alertmanager_alert s) (alertmanager_alert t) = str_eq s t
key_eq _ _ = false

-- `type(v) is int and v > 0`
unfoldable pub positive_int : Json → Option ℕ
positive_int (int (pos (suc n))) = some (suc n)
positive_int _ = none

unfoldable pub key_of_github : Json → Fields → Option EntityKey
unfolding is_text positive_int get
key_of_github event_type fields =
    if is_text "workflow_job" event_type
    then elim (positive_int (get "job_id" fields)) [ none ↦ none | some n ↦ some (github_job n) ]
    else if is_text "workflow_run" event_type
    then elim (positive_int (get "run_id" fields)) [ none ↦ none | some n ↦ some (github_run n) ]
    else none

unfoldable pub key_of_fields : Json → Json → Option EntityKey
unfolding key_of_github is_text get as_nonempty
key_of_fields event_type (obj fields) =
    if is_text "github" (get "source" fields)
    then key_of_github event_type fields
    else if is_text "alertmanager" (get "source" fields)
    then elim (as_nonempty (get "alert_fingerprint" fields)) [
      | none ↦ none
      | some s ↦ some (alertmanager_alert s)
    ]
    else none
key_of_fields event_type _ = none

unfoldable pub entity_key : Fields → Option EntityKey
unfolding key_of_fields get
entity_key frame = key_of_fields (get "event_type" frame) (get "fields" frame)

-- `_event_id`
unfoldable pub event_id : Fields → Option String
unfolding get as_nonempty
event_id frame = as_nonempty (get "event_id" frame)

-- `a < b` on texts, by their code points
unfoldable pub code_points : String → List ℕ
code_points String.[] = []
code_points (String.◌∷◌ c s) = code c ∷ code_points s

unfoldable pub before : String → String → Bool
unfolding code_points lt_text
before s t = lt_text (code_points s) (code_points t)

-- `snapshot`, a dict, and `passthrough`
pub record Backlog : Type 0 where
  pub snapshot : List (EntityKey × Fields)
  pub passthrough : List Fields

unfoldable pub find_item : EntityKey → List (EntityKey × Fields) → Option Fields
unfolding key_eq
find_item k [] = none
find_item k ((j, f) ∷ items) = let later = find_item k items in if key_eq j k then some f else later

unfoldable pub set_item : EntityKey → Fields → List (EntityKey × Fields) → List (EntityKey × Fields)
unfolding key_eq
set_item k f [] = (k, f) ∷ []
set_item k f ((j, g) ∷ items) =
    let later = set_item k f items in if key_eq j k then (j, f) ∷ items else (j, g) ∷ later

-- `prev is None or _event_id(frame) > _event_id(prev)`
unfoldable pub is_newer : Fields → Option Fields → Option Bool
is_newer frame none = some true
is_newer frame (some prev) = elim (event_id frame) [
  | none ↦ none
  | some new ↦ elim (event_id prev) [ none ↦ none | some old ↦ some (before old new) ]
]

unfoldable pub place : EntityKey → Fields → Backlog → Option Bool → Option Backlog × Bool
unfolding set_item
place k frame b none = (none, true)
place k frame b (some newer) =
    (some (if newer then record b { snapshot = set_item k frame b.snapshot } else b), false)

-- `_accumulate`
unfoldable pub accumulate_at : Option EntityKey → Fields → Backlog → Option Backlog × Bool
unfolding place is_newer find_item
accumulate_at none frame b = (some (record b { passthrough = b.passthrough ++ frame ∷ [] }), false)
accumulate_at (some k) frame b = place k frame b (is_newer frame (find_item k b.snapshot))

unfoldable pub accumulate : Fields → Option Backlog → Option Backlog × Bool
unfolding accumulate_at entity_key
accumulate frame none = (none, true)
accumulate frame (some b) = accumulate_at (entity_key frame) frame b

-- `sorted(..., key=_event_id)`: the keys of all, then a stable sort
unfoldable pub keyed : List Fields → Option (List (String × Fields))
keyed [] = some []
keyed (f ∷ fs) = elim (event_id f) [
  | none ↦ none
  | some i ↦ elim (keyed fs) [ none ↦ none | some rest ↦ some ((i, f) ∷ rest) ]
]

unfoldable pub insert : String × Fields → List (String × Fields) → List (String × Fields)
unfolding before
insert p [] = p ∷ []
insert p (q ∷ qs) = let later = insert p qs in if before q.0 p.0 then q ∷ later else p ∷ q ∷ qs

unfoldable pub sort : List (String × Fields) → List (String × Fields)
unfolding insert
sort [] = []
sort (p ∷ ps) = insert p (sort ps)

unfoldable pub sorted : List Fields → Option (List Fields)
unfolding keyed sort
sorted fs = elim (keyed fs) [ none ↦ none | some ps ↦ some (map (λ p. p.1) (sort ps)) ]

-- `list(snapshot.values()) + passthrough`
abbrev pub all_kept : Backlog → List Fields
all_kept b = map (λ p. p.1) b.snapshot ++ b.passthrough

module _ {ℓ} {E : Type ℓ} (loads : Bytes → Option Json) (emit : Fields → E → E)
    (writable : Fields → Bool) where
  -- The loop over `merged`, and whether it came to its end: `cursor.advance` may raise.
  unfoldable pub flush :
      List Fields → E → Option (Option String) → (E × Option (Option String)) × Bool
  unfolding advance_cursor
  flush [] x c = ((x, c), true)
  flush (f ∷ fs) x c = elim (advance_cursor (writable f) f c) [
    | none ↦ ((emit f x, c), false)
    | some c' ↦ flush fs (emit f x) c'
  ]

  -- The phase of the live tail, entered at the clock `start`.
  unfoldable pub live_tail_phase :
      ℕ → List Turn → E → Option (Option String) → (E × Option (Option String)) × Ended
  unfolding await_predicate emit_predicate
  live_tail_phase start ts x c =
      let (e, ended) =
        await_predicate loads (emit_predicate emit none)
          (record { deadline = none; idle_reset = false }) start ts c (x, 0) in
      ((e.state.0, e.cursor), ended)

  unfoldable pub after_flush :
      Bool
      → ℕ
      → List Turn
      → WaitOutcome
      → (E × Option (Option String)) × Bool
      → (E × Option (Option String)) × Ended
  unfolding live_tail_phase
  after_flush live_tail start ts w (r, false) = (r, crashes)
  after_flush live_tail start ts w ((x, c), true) =
      let tail = live_tail_phase start ts x c in
      if w.peer_closed || not live_tail then ((x, c), returns w) else tail

  unfoldable pub flush_merged :
      Bool
      → ℕ
      → List Turn
      → E
      → Option (Option String)
      → WaitOutcome
      → Option (List Fields)
      → (E × Option (Option String)) × Ended
  unfolding after_flush flush
  flush_merged live_tail start ts x c w none = ((x, c), crashes)
  flush_merged live_tail start ts x c w (some merged) =
      after_flush live_tail start ts w (flush merged x c)

  unfoldable pub after_replay_phase :
      Bool
      → ℕ
      → List Turn
      → E
      → Option (Option String)
      → Option Backlog
      → Ended
      → (E × Option (Option String)) × Ended
  unfolding flush_merged sorted
  after_replay_phase live_tail start ts x c none ended = ((x, c), crashes)
  after_replay_phase live_tail start ts x c (some b) (returns w) =
      let flushed = flush_merged live_tail start ts x c w (sorted (all_kept b)) in
      if w.cancelled then ((x, c), returns w) else flushed
  after_replay_phase live_tail start ts x c (some b) ended = ((x, c), ended)

  -- `coalesce_replay`, with the turns of its two phases and the clocks at their starts
  unfoldable pub coalesce_replay :
      ℕ
      → Bool
      → ℕ
      → List Turn
      → ℕ
      → List Turn
      → E
      → Option (Option String)
      → (E × Option (Option String)) × Ended
  unfolding after_replay_phase await_predicate accumulate
  coalesce_replay idle live_tail start ts start' ts' x c =
      let (e, ended) =
        await_predicate loads accumulate (record { deadline = some idle; idle_reset = true }) start
          ts none (some (record { snapshot = []; passthrough = [] })) in
      after_replay_phase live_tail start' ts' x c e.state ended
