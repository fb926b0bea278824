-- ===== src/On.antt =====
-- waitbus/on.py: a command that is run at each event, and run anew when the next event comes.
-- A round of the restart loop is what the wait for the next match gives, and what becomes of the stop of
-- the running child and of the start of the next one; signals raise at the places written out. The world
-- is the process groups that live and the event files that there are, by numbers never used twice; it
-- also notes whether a child was ever started while another one lived. SIGKILL ends a process group.
pub mod Restart
pub mod Match
pub mod Tests
use waitbus.Prelude.{
  ℕ, ◌+◌, ◌-◌, code, Bool, true, false, not, ◌&&◌, ◌||◌, Option, none, some, List, [], ◌∷◌, ◌++◌,
  ◌==◌, if◌then◌else◌,
}
use waitbus.Frame.{Bytes}
use waitbus.Client.{
  is_text, await_predicate, WaitOutcome, Turn, Ended, returns, rejects, crashes, still_waiting,
}
use waitbus.Predicate.{Predicate}
use waitbus.Wait.{exit_startup, exit_timeout, exit_sigint, exit_code_if_terminal}
use waitbus.Json.{get, as_str, ℤ, pos, negsuc, Json, obj, Fields}

pub record World : Type 0 where
  pub live : List ℕ
  pub files : List ℕ
  pub next : ℕ
  pub overlapped : Bool

-- `_RunningChild`
pub record RunningChild : Type 0 where
  pub proc : ℕ
  pub event_file : ℕ

abbrev pub without : ℕ → List ℕ → List ℕ
without k [] = []
without k (j ∷ js) = let rest = without k js in if j == k then rest else j ∷ rest

abbrev pub is_nil : List ℕ → Bool
is_nil [] = true
is_nil (j ∷ js) = false

-- `_normalise_returncode`
unfoldable pub normalise_returncode : ℤ → ℕ
normalise_returncode (pos n) = n
normalise_returncode (negsuc n) = 128 + (n + 1)

-- What becomes of a spawn: the child runs; the exec fails with the exit code of `_exec_error_code`;
-- `mkstemp` fails, or the write of the event file behind it; `Popen` raises what is no `OSError`, such as
-- `ValueError` for a NUL in the environment; or a signal raises `_SignalShutdown` before the child is
-- started or before it is the running one.
pub data Popen : Type 0 where
  started no_event_file write_fails bad_environment : Popen
  exec_fails cut_before_start cut_after_start : ℕ → Popen

-- How the loop ends: `return`, `_ExecError`, `_SignalShutdown`, `KeyboardInterrupt`, another exception,
-- or not yet.
pub data LoopEnd : Type 0 where
  returns_code exec_error signal_shutdown : ℕ → LoopEnd
  keyboard_interrupt exception_escapes looping : LoopEnd

pub data Round : Type 0 where
  over : ℕ → Round
  interrupted crashed : Round
  signalled : ℕ → Round
  matched : Option ℕ → Popen → Round

-- `_write_event_file`
unfoldable pub write_event_file : World → World
write_event_file w = record w { files = w.next ∷ w.files; next = w.next + 1 }

unfoldable pub unlink : ℕ → World → World
unlink path w = record w { files = without path w.files }

-- `_terminate_group`; the flag says that a signal raises before the SIGKILL.
unfoldable pub terminate_group : Bool → ℕ → World → World
terminate_group cut proc w = if cut then w else record w { live = without proc w.live }

unfoldable pub terminate_and_cleanup : Bool → RunningChild → World → World
unfolding terminate_group unlink
terminate_and_cleanup cut c w = unlink c.event_file (terminate_group cut c.proc w)

unfoldable pub start_child : World → World
start_child w = record w {
  live = w.next ∷ w.live;
  next = w.next + 1;
  overlapped = w.overlapped || not (is_nil w.live);
}

-- `_RunningChild.spawn`: the child, or how it raises
pub data Spawned : Type 0 where
  runs : RunningChild → Spawned
  raises : LoopEnd → Spawned

unfoldable pub spawn : Popen → World → Spawned × World
unfolding write_event_file start_child unlink
spawn started w =
    (runs (record { proc = w.next + 1; event_file = w.next }), start_child (write_event_file w))
spawn no_event_file w = (raises exception_escapes, w)
spawn write_fails w = (raises exception_escapes, write_event_file w)
spawn bad_environment w = (raises exception_escapes, write_event_file w)
spawn (exec_fails code) w = (raises (exec_error code), unlink w.next (write_event_file w))
spawn (cut_before_start n) w = (raises (signal_shutdown n), write_event_file w)
spawn (cut_after_start n) w = (raises (signal_shutdown n), start_child (write_event_file w))

-- `running.terminate_and_cleanup(stop_timeout)`, if there is one; it may raise.
unfoldable pub stop_running : Option ℕ → Option RunningChild → World → World × Option ℕ
unfolding terminate_and_cleanup
stop_running cut none w = (w, none)
stop_running none (some c) w = (terminate_and_cleanup false c w, none)
stop_running (some n) (some c) w = (terminate_and_cleanup true c w, some n)

pub record Loop : Type 0 where
  pub running : Option RunningChild
  pub world : World

unfoldable pub after_spawn :
    Option RunningChild → Spawned × World → (Loop → LoopEnd × Loop) → LoopEnd × Loop
after_spawn running (runs c, w) rest = rest (record { running = some c; world = w })
after_spawn running (raises e, w) rest = (e, record { running = running; world = w })

unfoldable pub after_stop :
    Popen → Option RunningChild → World × Option ℕ → (Loop → LoopEnd × Loop) → LoopEnd × Loop
unfolding after_spawn spawn
after_stop popen running (w, none) rest = after_spawn running (spawn popen w) rest
after_stop popen running (w, some n) rest =
    (signal_shutdown n, record { running = running; world = w })

-- `while True` of `_run_loop_restart`
unfoldable pub loop_rounds : List Round → Loop → LoopEnd × Loop
unfolding after_stop stop_running
loop_rounds [] l = (looping, l)
loop_rounds (over code ∷ rounds) l = (returns_code code, l)
loop_rounds (interrupted ∷ rounds) l = (keyboard_interrupt, l)
loop_rounds (crashed ∷ rounds) l = (exception_escapes, l)
loop_rounds (signalled n ∷ rounds) l = (signal_shutdown n, l)
loop_rounds (matched cut popen ∷ rounds) l =
    after_stop popen l.running (stop_running cut l.running l.world) (λ l'. loop_rounds rounds l')

-- The `finally`, which nothing interrupts
unfoldable pub finish_loop : LoopEnd × Loop → LoopEnd × World
unfolding terminate_and_cleanup
finish_loop (looping, l) = (looping, l.world)
finish_loop (e, l) =
    (e, elim l.running [ none ↦ l.world | some c ↦ terminate_and_cleanup false c l.world ])

-- `_run_loop_restart`
unfoldable pub run_loop_restart : List Round → World → LoopEnd × World
unfolding finish_loop loop_rounds
run_loop_restart rounds w = finish_loop (loop_rounds rounds (record { running = none; world = w }))

-- The exit code that `_supervise` makes of the end of the loop; another exception escapes.
unfoldable pub supervise : LoopEnd → Option ℕ
unfolding normalise_returncode
supervise (returns_code code) = some code
supervise (exec_error code) = some code
supervise (signal_shutdown n) =
    some (if n == 0 then normalise_returncode (pos 0) else normalise_returncode (negsuc (n - 1)))
supervise keyboard_interrupt = some 130
supervise exception_escapes = none
supervise looping = none

-- `_make_decide`, by `frame.get("fields")`
unfoldable pub is_pending : Fields → Bool
unfolding is_text get as_str exit_code_if_terminal
is_pending fields =
    is_text "github" (get "source" fields)
    && elim (exit_code_if_terminal (as_str (get "conclusion" fields))) as (λ _. Bool) [
      | none ↦ true
      | some code ↦ false
    ]

unfoldable pub capture_in : Bool → Json → Fields → List Fields → List Fields × Bool
unfolding is_pending
capture_in holds (obj fields) frame captured =
    if not holds
    then (captured, false)
    else if is_pending fields
    then (captured, false)
    else (captured ++ frame ∷ [], true)
capture_in holds _ frame captured = (captured, false)

unfoldable pub make_decide : Predicate → Fields → List Fields → List Fields × Bool
unfolding capture_in get
make_decide composed frame captured =
    capture_in (composed.evaluate (obj frame)) (get "fields" frame) frame captured

-- `_outcome_exit`
unfoldable pub outcome_exit : WaitOutcome → Option ℕ
outcome_exit w =
    if w.cancelled
    then some exit_sigint
    else if w.timed_out
    then some exit_timeout
    else if w.matched
    then none
    else some exit_startup

-- `_next_match_or_exit`: the frame to run the command for, an exit code, or an exception
pub data NextMatch : Type 0 where
  next_frame : Fields → NextMatch
  next_exit : ℕ → NextMatch
  next_raises next_waits : NextMatch

abbrev pub first_captured : List Fields → NextMatch
first_captured [] = next_raises
first_captured (frame ∷ more) = next_frame frame

unfoldable pub next_of : Ended → List Fields → NextMatch
unfolding outcome_exit
next_of (returns w) captured = elim (outcome_exit w) [
  | none ↦ first_captured captured
  | some code ↦ next_exit code
]
next_of (rejects r) captured = next_raises
next_of crashes captured = next_raises
next_of still_waiting captured = next_waits

unfoldable pub next_match_or_exit :
    (Bytes → Option Json) → Predicate → ℕ → ℕ → List Turn → NextMatch
unfolding next_of make_decide await_predicate
next_match_or_exit loads composed idle_deadline start ts =
    let (e, ended) =
      await_predicate loads (make_decide composed)
        (record { deadline = some idle_deadline; idle_reset = false }) start ts none [] in
    next_of ended e.state
