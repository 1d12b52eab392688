-- ===== src/Scheduler/Tests.antt =====
-- The scheduler's theorems at concrete states, and runs of its operations.
use quillos.Prelude.{ℕ, ◌≡◌, refl, ◌≢◌, true, ◌&&◌, some, [], ◌∷◌, arith, ltb, replicate}
use quillos.Scheduler.Types.{ready, running, is_sleeping, Sched, Image, time_slice_ms}
use quillos.Scheduler.{
  task, init, create_task, create_task_internal, do_schedule, timer_tick, sleep_ms, finish_task,
  pick_loop, pick_next,
}
use quillos.Scheduler.Steps.{creates, finishes, sleeps, Reachable, boots, steps}
use quillos.Scheduler.Invariant.{IsValid}
use quillos.Scheduler.Preservation.{Reachable-IsValid, Step-IsValid}
use quillos.Scheduler.Switching.{do_schedule_switches}
use quillos.Scheduler.Fairness.{visits, do_schedule_fair}
use quillos.Scheduler.Timer.{timer_tick_wakes}
use quillos.Scheduler.Counting.{Counted}

abbrev image : Image
image = record { task_stacks = 0x100000; task_entry_wrapper = 0x2000; idle_entry = 0x3000 }

-- Two workers beside the kernel task and the idle task.
abbrev one_worker : Sched
one_worker = (create_task image (init image) (some (b'a' ∷ [])) 0x4000).0

abbrev two_workers : Sched
two_workers = (create_task image one_worker (some (b'b' ∷ [])) 0x5000).0

two_workers-Reachable : Reachable image two_workers
two_workers-Reachable =
    steps (steps boots (creates (some (b'a' ∷ [])) 0x4000)) (creates (some (b'b' ∷ [])) 0x5000)

two_workers-IsValid : IsValid two_workers
two_workers-IsValid = Reachable-IsValid image two_workers-Reachable

two_workers_states :
    ((task two_workers 0).state ≡ running)
    × ((task two_workers 1).state ≡ ready)
    × ((task two_workers 2).state ≡ ready)
    × ((task two_workers 3).state ≡ ready)
    × (two_workers.idle_task_id ≡ 1)
unfolding create_task create_task_internal init
two_workers_states = (refl, refl, refl, refl, refl)

switch_to_worker : (do_schedule two_workers 0x9000).0.current_task ≡ 2
unfolding create_task create_task_internal init do_schedule pick_next pick_loop
switch_to_worker = refl

Reachable-IsValid_example : IsValid two_workers
Reachable-IsValid_example = Reachable-IsValid image two_workers-Reachable

do_schedule_switches_example :
    let (t, out) = do_schedule two_workers 0x9000 in
    IsValid t
    × ((task t t.current_task).state ≡ running)
    × ((task t t.current_task).slice_remaining ≡ time_slice_ms)
    × ((task t two_workers.current_task).rsp ≡ 0x9000)
    × (out ≡ (task t t.current_task).rsp)
    × ((j : ℕ) → j ≢ two_workers.current_task → j ≢ t.current_task → task t j ≡ task two_workers j)
do_schedule_switches_example = do_schedule_switches two_workers 0x9000 two_workers-IsValid

do_schedule_fair_example : visits 3 two_workers (replicate 16 0x9000) ≡ true
unfolding create_task create_task_internal init
do_schedule_fair_example =
    do_schedule_fair two_workers 3 (replicate 16 0x9000) two_workers-IsValid (omega arith)
      (omega arith) refl (omega arith)

-- The kernel task has called `sleep_ms(5)` at tick 100.
abbrev asleep : Sched
asleep = sleep_ms two_workers 100 5

asleep-IsValid : IsValid asleep
unfolding create_task create_task_internal init
asleep-IsValid = Step-IsValid image (sleeps 100 5 (omega arith)) two_workers-IsValid

timer_tick_wakes_example :
    is_sleeping (task (timer_tick asleep 101 0x9000).0 0).state
    ≡ (is_sleeping (task asleep 0).state && ltb 101 (task asleep 0).wake_at)
unfolding create_task create_task_internal init sleep_ms
timer_tick_wakes_example = timer_tick_wakes asleep 101 0x9000 0 asleep-IsValid refl (omega arith)

two_workers-Counted : Counted two_workers
unfolding create_task create_task_internal init
two_workers-Counted = refl

-- Worker 2 runs and returns.
abbrev finished : Sched
finished = finish_task (do_schedule two_workers 0x9000).0

finished-IsValid : IsValid finished
unfolding create_task create_task_internal init do_schedule pick_next pick_loop
finished-IsValid =
    Step-IsValid image (finishes (omega arith))
      (do_schedule_switches two_workers 0x9000 two_workers-IsValid).0
