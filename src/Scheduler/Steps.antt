-- ===== src/Scheduler/Steps.antt =====
-- kernel/scheduler.cpp: everything that can happen to the scheduler after `init`, as steps between
-- its states. The idle task only halts, so it neither sleeps nor finishes.
use quillos.Prelude.{ℕ, ◌≢◌, Option, List}
use quillos.Scheduler.Types.{Sched, Image}
use quillos.Scheduler.{init, create_task, kill_task, finish_task, timer_tick, yield_now, sleep_ms}

-- One call or interrupt; the numbers are the arguments and the value of `ticks`.
pub data Step (m : Image) (s : Sched) : Sched → Type 0 where
  creates : (name : Option (List ℕ)) (entry : ℕ) → Step m s (create_task m s name entry).0
  kills : (slot : ℕ) → Step m s (kill_task s slot).0
  finishes : s.current_task ≢ s.idle_task_id → Step m s (finish_task s)
  ticks : (now rsp : ℕ) → Step m s (timer_tick s now rsp).0
  yields : (rsp : ℕ) → Step m s (yield_now s rsp).0
  sleeps : (now ms : ℕ) → s.current_task ≢ s.idle_task_id → Step m s (sleep_ms s now ms)

-- The states that a running kernel can be in.
pub data Reachable (m : Image) : Sched → Type 0 where
  boots : Reachable m (init m)
  steps : {s t : Sched} → Reachable m s → Step m s t → Reachable m t
