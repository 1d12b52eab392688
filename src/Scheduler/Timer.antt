-- ===== src/Scheduler/Timer.antt =====
-- kernel/scheduler.cpp, `timer_tick`: sleepers wake when their time has come, and a task keeps the
-- processor for its slice.
use quillos.Prelude.{
  ℕ, ◌+◌, ◌<◌, ◌≡◌, refl, ap, ◌∙◌, inl, inr, true, false, not, ◌&&◌, List, [], ◌∷◌, arith, length,
  ltb, ◌==◌, Bool-cases,
}
use quillos.Scheduler.Types.{running, is_running, is_sleeping, Task, Sched, max_tasks}
use quillos.Scheduler.{
  task, update, save, start_slice, wake, reap, charge, passes, count_tick, do_schedule, tick_tasks,
  end_tick, timer_tick,
}
use quillos.Scheduler.Invariant.{IsValid, is_awake, task-update}
use quillos.Scheduler.Switching.{
  saved, chosen, do_schedule-state, saved-IsValid, chosen-in, chosen-awake,
}
use quillos.Scheduler.Preservation.{task-passes, passes-IsValid, tick_tasks-IsValid, charge-IsValid}

-- A context switch puts no task to sleep and wakes none.
do_schedule-is_sleeping :
    (s : Sched) (rsp j : ℕ)
    → IsValid s
    → is_sleeping (task (do_schedule s rsp).0 j).state ≡ is_sleeping (task s j).state
do_schedule-is_sleeping s rsp j v =
    rw (do_schedule-state s rsp) (elim (Bool-cases (chosen s rsp == j)) [
      | inl e ↦
          let e' : chosen s rsp ≡ j = ground arith in
          let up : is_awake (task (saved s rsp) j).state ≡ true = rw e' at (chosen-awake s rsp v) in
          ground (
            arith,
            up,
            task-update (saved s rsp) (chosen s rsp) j start_slice (saved-IsValid s rsp v).size
                (chosen-in s rsp v),
            task-update s s.current_task j (save rsp) v.size v.current_in,
          )
      | inr e ↦ ground (
        arith,
        task-update (saved s rsp) (chosen s rsp) j start_slice (saved-IsValid s rsp v).size
            (chosen-in s rsp v),
        task-update s s.current_task j (save rsp) v.size v.current_in,
      )
    ])

wake-is_sleeping :
    (now c i : ℕ) (t : Task)
    → is_sleeping (reap c i (wake now t)).state ≡ (is_sleeping t.state && ltb now t.wake_at)
wake-is_sleeping now c i t = ground arith

tick_tasks-is_sleeping :
    (s : Sched) (now j : ℕ)
    → IsValid s
    → j < max_tasks
    → is_sleeping (task (tick_tasks s now) j).state
      ≡ (is_sleeping (task s j).state && ltb now (task s j).wake_at)
unfolding tick_tasks
tick_tasks-is_sleeping s now j v h = ground (
  arith,
  task-update (passes s now) s.current_task j count_tick (passes-IsValid s now v).size v.current_in,
  ap (λ (t : Task). is_sleeping t.state) (task-passes s now j v.size h),
  wake-is_sleeping now s.current_task j (task s j),
)

charge-is_sleeping :
    (s : Sched) (j : ℕ)
    → IsValid s
    → is_sleeping (task (update s s.current_task charge) j).state ≡ is_sleeping (task s j).state
charge-is_sleeping s j v = ground (arith, task-update s s.current_task j charge v.size v.current_in)

end_tick-is_sleeping :
    (s : Sched) (rsp j : ℕ)
    → IsValid s
    → is_sleeping (task (end_tick s rsp).0 j).state ≡ is_sleeping (task s j).state
unfolding end_tick
end_tick-is_sleeping s rsp j v =
    let charged = update s s.current_task charge in
    elim (Bool-cases (not (is_running (task s s.current_task).state))) [
      | inl e ↦ rw e (do_schedule-is_sleeping s rsp j v)
      | inr e ↦ elim (Bool-cases (ltb 0 (task charged s.current_task).slice_remaining)) [
        | inl f ↦ rw (e, f) (charge-is_sleeping s j v)
        | inr f ↦
            rw (e, f)
              (do_schedule-is_sleeping charged rsp j (charge-IsValid s v)
                ∙ charge-is_sleeping s j v)
      ]
    ]

-- After a timer tick a task is asleep exactly if it was asleep before and its wake-up time lies in
-- the future: no sleeper is woken early, and none is missed.
pub timer_tick_wakes :
    (s : Sched) (now rsp j : ℕ)
    → IsValid s
    → s.initialized ≡ true
    → j < max_tasks
    → is_sleeping (task (timer_tick s now rsp).0 j).state
      ≡ (is_sleeping (task s j).state && ltb now (task s j).wake_at)
unfolding timer_tick
timer_tick_wakes s now rsp j v on h =
    let started : not s.initialized ≡ false = ground arith in
    rw started (
      end_tick-is_sleeping (tick_tasks s now) rsp j (tick_tasks-IsValid s now v)
      ∙ tick_tasks-is_sleeping s now j v h)

-- Ticks with nothing between them; each is the value of `ticks` and the interrupted stack pointer.
abbrev pub run_ticks : Sched → List (ℕ × ℕ) → Sched
run_ticks s [] = s
run_ticks s ((now, rsp) ∷ rest) = run_ticks (timer_tick s now rsp).0 rest

-- What one tick leaves as it was while the slice lasts.
record Keeps (s t : Sched) : Type 0 where
  valid : IsValid t
  on : t.initialized ≡ true
  current : t.current_task ≡ s.current_task
  still : (task t s.current_task).state ≡ running
  slice : (task t s.current_task).slice_remaining + 1 ≡ (task s s.current_task).slice_remaining

tick_tasks_current :
    (s : Sched) (now : ℕ)
    → IsValid s
    → (task s s.current_task).state ≡ running
    → ((task (tick_tasks s now) s.current_task).state ≡ running)
      × ((task (tick_tasks s now) s.current_task).slice_remaining
          ≡ (task s s.current_task).slice_remaining)
unfolding tick_tasks
tick_tasks_current s now v r = ground (
  arith,
  task-update (passes s now) s.current_task s.current_task count_tick (passes-IsValid s now v).size
      v.current_in,
  task-passes s now s.current_task v.size v.current_in,
)

timer_tick-Keeps :
    (s : Sched) (now rsp : ℕ)
    → IsValid s
    → s.initialized ≡ true
    → (task s s.current_task).state ≡ running
    → 1 < (task s s.current_task).slice_remaining
    → Keeps s (timer_tick s now rsp).0 × ((timer_tick s now rsp).1 ≡ rsp)
unfolding timer_tick end_tick tick_tasks
timer_tick-Keeps s now rsp v on r h =
    let started : not s.initialized ≡ false = ground arith in
    let u = tick_tasks s now in
    let c = tick_tasks_current s now v r in
    let written =
      task-update u s.current_task s.current_task charge (tick_tasks-IsValid s now v).size
        v.current_in in
    let runs : not (is_running (task u s.current_task).state) ≡ false = ground arith in
    let left : ltb 0 (task (update u s.current_task charge) s.current_task).slice_remaining ≡ true =
      ground arith in
    rw (started, runs, left)
      (
        record {
          valid = charge-IsValid u (tick_tasks-IsValid s now v);
          on = on;
          current = refl;
          still = ground arith;
          slice = ground arith;
        },
        refl,
      )

-- A running task keeps the processor for its whole slice: as long as fewer ticks arrive than its
-- slice has left, it stays the current and running task, and its slice falls by one a tick.
pub run_ticks_keeps :
    (rest : List (ℕ × ℕ)) (s : Sched)
    → IsValid s
    → s.initialized ≡ true
    → (task s s.current_task).state ≡ running
    → length rest < (task s s.current_task).slice_remaining
    → let t = run_ticks s rest in
      (t.current_task ≡ s.current_task)
      × ((task t s.current_task).state ≡ running)
      × ((task t s.current_task).slice_remaining + length rest
          ≡ (task s s.current_task).slice_remaining)
run_ticks_keeps [] s v on r h = (refl, r, omega arith)
run_ticks_keeps ((now, rsp) ∷ rest) s v on r h =
    let k = (timer_tick-Keeps s now rsp v on r (omega arith)).0 in
    let t = (timer_tick s now rsp).0 in
    let r' : (task t t.current_task).state ≡ running = rw k.current k.still in
    let z = ap (λ c. (task t c).slice_remaining) k.current in
    let ih = run_ticks_keeps rest t k.valid k.on r' (omega (arith, z, k.slice)) in
    let at_s = ap (λ c. (task (run_ticks t rest) c).slice_remaining) k.current in
    (ih.0 ∙ k.current, rw k.current at ih.1, omega (arith, z, k.slice, ih.2, at_s))
