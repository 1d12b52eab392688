-- ===== src/Scheduler/Counting.antt =====
-- kernel/scheduler.cpp: `task_count` against the number of live tasks in the table.
use quillos.Prelude.{
  ℕ, ◌+◌, ◌≤◌, ◌<◌, ◌≡◌, refl, sym, ap, ◌∙◌, ◌≢◌, inl, inr, Bool, true, false, not, ◌||◌, Option,
  List, arith, length, drop, find_index, map_from, ltb, leb, ◌==◌, Bool-cases, Option-cases, one_if,
  count_if, count_if-le, count_if-set, count_if-pos, count_if-map_from, add64,
}
use quillos.Scheduler.Types.{
  TaskState, unused, sleeping, dead, is_unused, is_ready, is_running, is_sleeping, Task, Sched,
  Image, max_tasks, blank,
}
use quillos.Scheduler.{
  task, update, save, start_slice, wake, reap, charge, do_schedule, new_task, create_task_internal,
  create_task, kill_task, finish_task, passes, count_tick, tick_tasks, end_tick, timer_tick,
  yield_now, sleep_ms,
}
use quillos.Scheduler.Invariant.{IsValid}
use quillos.Scheduler.Preservation.{free_slot, passes-IsValid, tick_tasks-IsValid, charge-IsValid}
use quillos.Scheduler.Steps.{Step, creates, kills, finishes, ticks, yields, sleeps}
use quillos.Scheduler.Switching.{
  saved, chosen, do_schedule-state, saved-IsValid, chosen-in, chosen-awake,
}

abbrev pub is_live : TaskState → Bool
is_live st = is_ready st || is_running st || is_sleeping st

abbrev pub live_task : Task → Bool
live_task t = is_live t.state

-- How many tasks are ready, running or asleep.
abbrev pub live_tasks : Sched → ℕ
live_tasks s = count_if live_task s.tasks

abbrev pub Counted : Sched → Type 0
Counted s = s.task_count ≡ live_tasks s

update-count :
    (s : Sched) (i : ℕ) (f : Task → Task)
    → length s.tasks ≡ max_tasks
    → i < max_tasks
    → live_tasks (update s i f) + one_if (is_live (task s i).state)
      ≡ live_tasks s + one_if (is_live (f (task s i)).state)
update-count s i f size h = count_if-set live_task s.tasks i (f (task s i)) blank (omega arith)

live_in :
    (s : Sched) (i : ℕ)
    → length s.tasks ≡ max_tasks
    → i < max_tasks
    → is_live (task s i).state ≡ true
    → 1 ≤ live_tasks s
live_in s i size h l = count_if-pos live_task s.tasks i blank (omega arith) l

create_task-Counted :
    (m : Image) (s : Sched) (name : Option (List ℕ)) (entry : ℕ)
    → IsValid s
    → Counted s
    → Counted (create_task m s name entry).0
unfolding create_task create_task_internal
create_task-Counted m s name entry v c = elim (Bool-cases (not s.initialized || entry == 0)) [
  | inl e ↦ rw e c
  | inr e ↦ elim (Option-cases (find_index (λ (t : Task). is_unused t.state) (drop 1 s.tasks))) [
    | inl n ↦ rw (e, n) c
    | inr (k, f) ↦
        let free = free_slot s 1 k v.size (omega arith) f in
        let was : is_live (task s (1 + k)).state ≡ false = rw free.1 refl in
        rw (e, f)
          (omega (
            arith,
            update-count s (1 + k) (λ _. new_task m s (1 + k) name entry) v.size free.0,
            ap one_if was,
            count_if-le live_task s.tasks,
            v.size,
          ))
  ]
]

finish_task-Counted :
    (s : Sched)
    → IsValid s
    → is_live (task s s.current_task).state ≡ true
    → Counted s
    → Counted (finish_task s)
unfolding finish_task
finish_task-Counted s v l c = ground (
  arith,
  update-count s s.current_task (λ t. record t { state = dead }) v.size v.current_in,
  live_in s s.current_task v.size v.current_in l,
)

kill_task-Counted :
    (s : Sched) (slot : ℕ)
    → IsValid s
    → (task s slot).state ≢ dead
    → Counted s
    → Counted (kill_task s slot).0
unfolding kill_task
kill_task-Counted s slot v d c =
    elim (Bool-cases (
      leb max_tasks slot || slot == 0 || slot == s.idle_task_id || is_unused (task s slot).state)) [
        | inl e ↦ rw e c
        | inr e ↦
            let inside : slot < max_tasks = ground arith in
            let l : is_live (task s slot).state ≡ true = ground arith in
            rw e (
              ground (
                arith,
                update-count s slot (λ t. record t { state = unused }) v.size inside,
                live_in s slot v.size inside l,
              ))
      ]

same_count :
    (s : Sched) (i : ℕ) (f : Task → Task)
    → length s.tasks ≡ max_tasks
    → i < max_tasks
    → is_live (f (task s i)).state ≡ is_live (task s i).state
    → live_tasks (update s i f) ≡ live_tasks s
same_count s i f size h e = omega (arith, update-count s i f size h, ap one_if e)

do_schedule-live_tasks :
    (s : Sched) (rsp : ℕ) → IsValid s → live_tasks (do_schedule s rsp).0 ≡ live_tasks s
do_schedule-live_tasks s rsp v =
    let awake = chosen-awake s rsp v in
    rw (do_schedule-state s rsp) (
      same_count (saved s rsp) (chosen s rsp) start_slice (saved-IsValid s rsp v).size
        (chosen-in s rsp v) (ground (arith, awake))
      ∙ same_count s s.current_task (save rsp) v.size v.current_in (ground arith))

do_schedule-task_count : (s : Sched) (rsp : ℕ) → (do_schedule s rsp).0.task_count ≡ s.task_count
do_schedule-task_count s rsp = rw (do_schedule-state s rsp) refl

do_schedule-Counted : (s : Sched) (rsp : ℕ) → IsValid s → Counted s → Counted (do_schedule s rsp).0
do_schedule-Counted s rsp v c =
    do_schedule-task_count s rsp ∙ c ∙ sym (do_schedule-live_tasks s rsp v)

tick_tasks-Counted : (s : Sched) (now : ℕ) → IsValid s → Counted s → Counted (tick_tasks s now)
unfolding tick_tasks
tick_tasks-Counted s now v c =
    let woken = map_from 0 (λ _. wake now) s.tasks in
    c
    ∙ sym (count_if-map_from live_task 0 (λ _. wake now) s.tasks (λ i t. ground arith))
    ∙ sym (count_if-map_from live_task 0 (reap s.current_task) woken (λ i t. ground arith))
    ∙ sym (
        same_count (passes s now) s.current_task count_tick (passes-IsValid s now v).size
          v.current_in refl)

end_tick-Counted : (s : Sched) (rsp : ℕ) → IsValid s → Counted s → Counted (end_tick s rsp).0
unfolding end_tick
end_tick-Counted s rsp v c =
    let charged = update s s.current_task charge in
    let c' : Counted charged =
      c ∙ sym (same_count s s.current_task charge v.size v.current_in refl) in
    elim (Bool-cases (not (is_running (task s s.current_task).state))) [
      | inl e ↦ rw e (do_schedule-Counted s rsp v c)
      | inr e ↦ elim (Bool-cases (ltb 0 (task charged s.current_task).slice_remaining)) [
        | inl f ↦ rw (e, f) c'
        | inr f ↦ rw (e, f) (do_schedule-Counted charged rsp (charge-IsValid s v) c')
      ]
    ]

-- The steps at which the count is meant to be right: a task that sleeps or finishes is a live one,
-- and none is killed that has finished but is not cleared yet.
abbrev pub IsProper : (m : Image) {s t : Sched} → Step m s t → Type 0
IsProper m {s} (kills slot) = (task s slot).state ≢ dead
IsProper m {s} (finishes h) = is_live (task s s.current_task).state ≡ true
IsProper m {s} (sleeps now ms h) = is_live (task s s.current_task).state ≡ true
IsProper m {s} _ = Unit {0}

-- Every such step keeps `task_count` equal to the number of tasks that are ready, running or asleep.
pub Step-Counted :
    (m : Image) {s t : Sched} (st : Step m s t) → IsProper m st → IsValid s → Counted s → Counted t
unfolding timer_tick yield_now sleep_ms
Step-Counted m {s} (creates name entry) p v c = create_task-Counted m s name entry v c
Step-Counted m {s} (kills slot) p v c = kill_task-Counted s slot v p c
Step-Counted m {s} (finishes h) p v c = finish_task-Counted s v p c
Step-Counted m {s} (ticks now rsp) p v c = elim (Bool-cases (not s.initialized)) [
  | inl e ↦ rw e c
  | inr e ↦ rw e (
      end_tick-Counted (tick_tasks s now) rsp (tick_tasks-IsValid s now v)
        (tick_tasks-Counted s now v c))
]
Step-Counted m {s} (yields rsp) p v c = elim (Bool-cases (not s.initialized)) [
  | inl e ↦ rw e c
  | inr e ↦ rw e (do_schedule-Counted s rsp v c)
]
Step-Counted m {s} (sleeps now ms h) p v c = elim (Bool-cases (not s.initialized)) [
  | inl e ↦ rw e c
  | inr e ↦ rw e (
      c
      ∙ sym (
          same_count s s.current_task (λ t. record t { wake_at = add64 now ms; state = sleeping })
            v.size v.current_in (sym p)))
]

-- A task that has finished was taken off the count by `task_entry_wrapper`. If it is killed before
-- the timer has cleared its slot, `kill_task` takes it off once more: the call succeeds, and from
-- then on the count is below the number of live tasks.
pub kill_task_dead :
    (s : Sched) (slot : ℕ)
    → IsValid s
    → Counted s
    → (task s slot).state ≡ dead
    → slot < max_tasks
    → slot ≢ 0
    → slot ≢ s.idle_task_id
    → ((kill_task s slot).1 ≡ true)
      × ((kill_task s slot).0.task_count + 1 ≡ live_tasks (kill_task s slot).0)
unfolding kill_task
kill_task_dead s slot v c d inside nz ni =
    let passed : (leb max_tasks slot
          || slot == 0
          || slot == s.idle_task_id
          || is_unused (task s slot).state)
        ≡ false =
      ground arith in
    let idle_live : is_live (task s s.idle_task_id).state ≡ true = ground (arith, v.idle_awake) in
    let was : is_live (task s slot).state ≡ false = rw d refl in
    rw passed (
      refl,
      ground (
        arith,
        update-count s slot (λ t. record t { state = unused }) v.size inside,
        live_in s s.idle_task_id v.size v.idle_in idle_live,
      ),
    )
