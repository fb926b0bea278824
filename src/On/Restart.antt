-- ===== src/On/Restart.antt =====
-- waitbus/on.py: what the restart loop leaves behind.
use waitbus.Prelude.{
  ℕ, ◌+◌, code, ◌≡◌, refl, ap, ◌≢◌, true, false, Option, none, some, List, [], ◌∷◌, ◌==◌, ==_iff,
}
use waitbus.On.{
  without, write_event_file, unlink, terminate_and_cleanup, spawn, stop_running, after_spawn,
  after_stop, loop_rounds, finish_loop, run_loop_restart, World, RunningChild, Popen, started,
  no_event_file, write_fails, bad_environment, exec_fails, cut_before_start, cut_after_start,
  LoopEnd, returns_code, exec_error, signal_shutdown, keyboard_interrupt, exception_escapes,
  looping, Round, over, interrupted, crashed, signalled, matched, Spawned, runs, raises, Loop,
}

-- No signal comes between the writing of an event file and the child becoming the running one, the write
-- does not fail, and `Popen` raises nothing but `OSError`.
abbrev pub NotCut : Popen → Type 0
NotCut write_fails = ⊥
NotCut bad_environment = ⊥
NotCut (cut_before_start n) = ⊥
NotCut (cut_after_start n) = ⊥
NotCut _ = Unit

abbrev pub NoneCut : List Round → Type 0
NoneCut [] = Unit
NoneCut (matched cut popen ∷ rounds) = NotCut popen × NoneCut rounds
NoneCut (r ∷ rounds) = NoneCut rounds

abbrev pub IsClean : World → Type 0
IsClean w = (w.live ≡ []) × (w.files ≡ []) × (w.overlapped ≡ false)

-- Nothing lives and no file is left but those of the running child.
abbrev IsOwned : Option RunningChild → World → Type 0
IsOwned none w = IsClean w
IsOwned (some c) w =
    (without c.proc w.live ≡ []) × (without c.event_file w.files ≡ []) × (w.overlapped ≡ false)

without_self : (k : ℕ) → without k (k ∷ []) ≡ []
without_self k = let same : (k == k) ≡ true = (==_iff k k).1 refl in rw same refl

IsClean-IsOwned : (r : Option RunningChild) (w : World) → IsClean w → IsOwned r w
IsClean-IsOwned none w v = v
IsClean-IsOwned (some c) w (l, f, o) =
    (ap (λ x. without c.proc x) l, ap (λ x. without c.event_file x) f, o)

stopped-IsClean :
    (c : RunningChild) (w : World) → IsOwned (some c) w → IsClean (terminate_and_cleanup false c w)
unfolding terminate_and_cleanup
stopped-IsClean c w v = v

cut-IsOwned :
    (c : RunningChild) (w : World)
    → IsOwned (some c) w
    → IsOwned (some c) (terminate_and_cleanup true c w)
unfolding terminate_and_cleanup
cut-IsOwned c w (l, f, o) = (l, ap (λ x. without c.event_file x) f, o)

-- What a spawn in a clean world leaves
abbrev IsSpawned : Option RunningChild → Spawned × World → Type 0
IsSpawned r (runs c, w) = IsOwned (some c) w
IsSpawned r (raises e, w) = IsOwned r w

spawn-IsSpawned :
    (popen : Popen) (r : Option RunningChild) (w : World)
    → NotCut popen
    → IsClean w
    → IsSpawned r (spawn popen w)
unfolding spawn
spawn-IsSpawned started r w n (l, f, o) =
    (rw l (without_self (w.next + 1)), rw f (without_self w.next), rw (o, l) refl)
spawn-IsSpawned (exec_fails code) r w n (l, f, o) =
    IsClean-IsOwned r (unlink w.next (write_event_file w)) (l, rw f (without_self w.next), o)
spawn-IsSpawned no_event_file r w n v = IsClean-IsOwned r w v
spawn-IsSpawned write_fails r w n v = absurd n
spawn-IsSpawned bad_environment r w n v = absurd n
spawn-IsSpawned (cut_before_start k) r w n v = absurd n
spawn-IsSpawned (cut_after_start k) r w n v = absurd n

abbrev IsOwnedEnd : LoopEnd × Loop → Type 0
IsOwnedEnd (e, l) = IsOwned l.running l.world

after_spawn-IsOwnedEnd :
    (r : Option RunningChild) (p : Spawned × World) (rest : Loop → LoopEnd × Loop)
    → IsSpawned r p
    → ((l : Loop) → IsOwned l.running l.world → IsOwnedEnd (rest l))
    → IsOwnedEnd (after_spawn r p rest)
unfolding after_spawn
after_spawn-IsOwnedEnd r (runs c, w) rest v ih = ih _ v
after_spawn-IsOwnedEnd r (raises e, w) rest v ih = v

matched-IsOwnedEnd :
    (cut : Option ℕ) (popen : Popen) (r : Option RunningChild) (w : World)
    (rest : Loop → LoopEnd × Loop)
    → NotCut popen
    → IsOwned r w
    → ((l : Loop) → IsOwned l.running l.world → IsOwnedEnd (rest l))
    → IsOwnedEnd (after_stop popen r (stop_running cut r w) rest)
unfolding after_stop stop_running
matched-IsOwnedEnd cut popen none w rest n v ih =
    after_spawn-IsOwnedEnd none (spawn popen w) rest (spawn-IsSpawned popen none w n v) ih
matched-IsOwnedEnd none popen (some c) w rest n v ih =
    after_spawn-IsOwnedEnd (some c) (spawn popen (terminate_and_cleanup false c w)) rest
      (spawn-IsSpawned popen (some c) (terminate_and_cleanup false c w) n (stopped-IsClean c w v))
      ih
matched-IsOwnedEnd (some k) popen (some c) w rest n v ih = cut-IsOwned c w v

loop_rounds-IsOwnedEnd :
    (rounds : List Round) (l : Loop)
    → NoneCut rounds
    → IsOwned l.running l.world
    → IsOwnedEnd (loop_rounds rounds l)
unfolding loop_rounds
loop_rounds-IsOwnedEnd [] l n v = v
loop_rounds-IsOwnedEnd (over code ∷ rounds) l n v = v
loop_rounds-IsOwnedEnd (interrupted ∷ rounds) l n v = v
loop_rounds-IsOwnedEnd (crashed ∷ rounds) l n v = v
loop_rounds-IsOwnedEnd (signalled k ∷ rounds) l n v = v
loop_rounds-IsOwnedEnd (matched cut popen ∷ rounds) l n v =
    matched-IsOwnedEnd cut popen l.running l.world (λ l'. loop_rounds rounds l') n.0 v
      (λ l' v'. loop_rounds-IsOwnedEnd rounds l' n.1 v')

-- From a clean world, whatever matches, exec failures, interrupts, exceptions of the wait and signals
-- come, also while a child is stopped, if no signal comes within a spawn or the final stop, no write of
-- an event file fails, and `Popen` raises nothing but `OSError`: when the restart loop has ended, no
-- child lives and no event file is left, and no child was started while another one lived.
pub run_loop_restart-IsClean :
    (rounds : List Round) (w : World)
    → NoneCut rounds
    → IsClean w
    → (run_loop_restart rounds w).0 ≢ looping
    → IsClean (run_loop_restart rounds w).1
unfolding run_loop_restart finish_loop
run_loop_restart-IsClean rounds w n v ended =
    go (loop_rounds rounds (record { running = none; world = w }))
      (loop_rounds-IsOwnedEnd rounds (record { running = none; world = w }) n v) ended
  where
    stopped :
        (r : Option RunningChild) (w' : World)
        → IsOwned r w'
        → IsClean (elim r as (λ _. World) [ none ↦ w' | some c ↦ terminate_and_cleanup false c w' ])
    stopped none w' x = x
    stopped (some c) w' x = stopped-IsClean c w' x

    go :
        (p : LoopEnd × Loop)
        → IsOwnedEnd p
        → (finish_loop p).0 ≢ looping
        → IsClean (finish_loop p).1
    go (looping, l) x h = absurd (h refl)
    go (returns_code k, l) x h = stopped l.running l.world x
    go (exec_error k, l) x h = stopped l.running l.world x
    go (signal_shutdown k, l) x h = stopped l.running l.world x
    go (exception_escapes, l) x h = stopped l.running l.world x
    go (keyboard_interrupt, l) x h = stopped l.running l.world x
