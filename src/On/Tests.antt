-- ===== src/On/Tests.antt =====
-- Runs of the model of waitbus/on.py.
use waitbus.Prelude.{
  ℕ, ◌≡◌, refl, sym, ap, ◌∙◌, ◌≢◌, true, false, Option, none, some, List, [], ◌∷◌, arith,
}
use waitbus.Frame.{Bytes}
use waitbus.Json.{Json, str, obj, Fields, end, field}
use waitbus.Client.{kind_of, frame_bytes, Turn}
use waitbus.Predicate.{Predicate}
use waitbus.Wait.{wait}
use waitbus.On.{
  spawn, loop_rounds, run_loop_restart, next_match_or_exit, World, started, bad_environment,
  cut_after_start, LoopEnd, signal_shutdown, looping, Round, matched, next_frame,
}
use waitbus.On.Restart.{IsClean, run_loop_restart-IsClean}
use waitbus.On.Match.{Corresponds, wait-Corresponds}

abbrev clean : World
clean = record { live = []; files = []; next = 0; overlapped = false }

-- Two children, the second after a signal-free stop, and a signal while it is stopped
abbrev rounds : List Round
rounds = matched none started ∷ matched none started ∷ matched (some 15) started ∷ []

rounds_end : (run_loop_restart rounds clean).0 ≡ signal_shutdown 15
unfolding run_loop_restart loop_rounds spawn
rounds_end = refl

abbrev is_looping : LoopEnd → ℕ
is_looping looping = 1
is_looping _ = 0

not_looping : (run_loop_restart rounds clean).0 ≢ looping
not_looping e = let n = ap (λ x. is_looping x) (sym rounds_end ∙ e) in omega (arith, n)

run_loop_restart-IsClean_example : IsClean (run_loop_restart rounds clean).1
run_loop_restart-IsClean_example =
    run_loop_restart-IsClean rounds clean (tt, (tt, (tt, tt))) (refl, refl, refl) not_looping

-- A signal between the start of a child and its becoming the running one leaves the child behind.
child_left : (run_loop_restart (matched none (cut_after_start 15) ∷ []) clean).1.live ≡ 1 ∷ []
unfolding run_loop_restart loop_rounds spawn
child_left = refl

-- A frame that `Popen` cannot make an environment of leaves its event file behind.
file_left : (run_loop_restart (matched none bad_environment ∷ []) clean).1.files ≡ 0 ∷ []
unfolding run_loop_restart loop_rounds spawn
file_left = refl

abbrev failed : Fields
failed =
    field "fields" (obj (field "source" (str "github") (field "conclusion" (str "failure") end)))
      end

unfoldable some_loads : Bytes → Option Json
some_loads bytes = some (obj failed)

abbrev wire : List Turn
wire = record { now = 1; answer = frame_bytes (1 ∷ []); writable = true; after = 1 } ∷ []

abbrev anything : Predicate
anything = record { evaluate = λ frame. true; source = "" }

command_runs : next_match_or_exit some_loads anything 60 0 wire ≡ next_frame failed
unfolding next_match_or_exit some_loads kind_of
command_runs = refl

wait-Corresponds_example :
    Corresponds
      (wait some_loads anything 60 true 0 wire)
      (next_match_or_exit some_loads anything 60 0 wire)
wait-Corresponds_example = wait-Corresponds some_loads anything 60 0 wire
