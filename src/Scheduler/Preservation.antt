-- ===== src/Scheduler/Preservation.antt =====
-- kernel/scheduler.cpp: every step keeps a scheduler state well formed, so every state that a
-- running kernel reaches is.
use quillos.Prelude.{
  ℕ, zero, suc, ◌+◌, ◌≤◌, ◌<◌, ◌≡◌, refl, sym, ap, ◌∙◌, ◌≢◌, inl, inr, true, false, not, ◌||◌,
  Option, some, List, [], ◌∷◌, arith, length, drop, find_index, map_from, ltb, leb, ◌==◌,
  Bool-cases, Option-cases, length-map_from, get_or-map_from, find_index-some, get_or-drop,
  length-drop, get_or-replicate, add64,
}
use quillos.Scheduler.Types.{
  unused, sleeping, dead, is_unused, is_running, Task, Sched, Image, max_tasks, blank,
}
use quillos.Scheduler.{
  task, update, wake, reap, charge, uncount, new_task, create_task_internal, create_task, fill_slot,
  booted, init, kill_task, finish_task, passes, count_tick, tick_tasks, end_tick, timer_tick,
  yield_now, sleep_ms,
}
use quillos.Scheduler.Steps.{
  Step, creates, kills, finishes, ticks, yields, sleeps, Reachable, boots, steps,
}
use quillos.Scheduler.Invariant.{IsValid, is_awake, update-IsValid}
use quillos.Scheduler.Switching.{do_schedule-IsValid}

-- The slot that a search of the table from `start` on finds is in range and unused.
pub free_slot :
    (s : Sched) (start k : ℕ)
    → length s.tasks ≡ max_tasks
    → start ≤ max_tasks
    → find_index (λ (t : Task). is_unused t.state) (drop start s.tasks) ≡ some k
    → (start + k < max_tasks) × ((task s (start + k)).state ≡ unused)
free_slot s start k size h e =
    let found = find_index-some (λ (t : Task). is_unused t.state) (drop start s.tasks) k blank e in
    (omega (arith, length-drop start s.tasks), ground (arith, get_or-drop start k s.tasks blank))

fill_slot-IsValid :
    (m : Image) (s : Sched) (i : ℕ) (name : Option (List ℕ)) (entry : ℕ)
    → i < max_tasks
    → IsValid s
    → IsValid (fill_slot m s i name entry)
fill_slot-IsValid m s i name entry h v =
    let u = update-IsValid s i (λ _. new_task m s i name entry) h (λ r. cc) (λ e. refl) v in
    record {
      size = u.size;
      current_in = u.current_in;
      idle_in = u.idle_in;
      unique = u.unique;
      idle_awake = u.idle_awake;
    }

create_task_internal-IsValid :
    (m : Image) (s : Sched) (name : Option (List ℕ)) (entry : ℕ)
    → IsValid s
    → IsValid (create_task_internal m s name entry false).0
unfolding create_task_internal
create_task_internal-IsValid m s name entry v =
    elim (Option-cases (find_index (λ (t : Task). is_unused t.state) (drop 1 s.tasks))) [
      | inl e ↦ rw e v
      | inr (k, e) ↦
          rw e
            (fill_slot-IsValid m s (1 + k) name entry (free_slot s 1 k v.size (omega arith) e).0 v)
    ]

create_task-IsValid :
    (m : Image) (s : Sched) (name : Option (List ℕ)) (entry : ℕ)
    → IsValid s
    → IsValid (create_task m s name entry).0
unfolding create_task
create_task-IsValid m s name entry v = elim (Bool-cases (not s.initialized || entry == 0)) [
  | inl e ↦ rw e v
  | inr e ↦ rw e (create_task_internal-IsValid m s name entry v)
]

-- The count of tasks plays no part in the invariant.
recount-IsValid : (s : Sched) (n : ℕ) → IsValid s → IsValid (record s { task_count = n })
recount-IsValid s n v = record {
  size = v.size;
  current_in = v.current_in;
  idle_in = v.idle_in;
  unique = v.unique;
  idle_awake = v.idle_awake;
}

kill_task-IsValid : (s : Sched) (slot : ℕ) → IsValid s → IsValid (kill_task s slot).0
unfolding kill_task
kill_task-IsValid s slot v =
    elim (Bool-cases (
      leb max_tasks slot || slot == 0 || slot == s.idle_task_id || is_unused (task s slot).state)) [
        | inl e ↦ rw e v
        | inr e ↦
            let inside : slot < max_tasks = ground arith in
            let other : slot ≢ s.idle_task_id = ground arith in
            rw e (
              recount-IsValid _ (uncount s.task_count) (
                update-IsValid s slot (λ t. record t { state = unused }) inside (λ r. cc)
                  (λ x. absurd (other x)) v))
      ]

finish_task-IsValid :
    (s : Sched) → s.current_task ≢ s.idle_task_id → IsValid s → IsValid (finish_task s)
unfolding finish_task
finish_task-IsValid s h v = recount-IsValid _ (uncount s.task_count) (
    update-IsValid s s.current_task (λ t. record t { state = dead }) v.current_in (λ r. cc)
      (λ x. absurd (h x)) v)

sleep_ms-IsValid :
    (s : Sched) (now ms : ℕ)
    → s.current_task ≢ s.idle_task_id
    → IsValid s
    → IsValid (sleep_ms s now ms)
unfolding sleep_ms
sleep_ms-IsValid s now ms h v = elim (Bool-cases (not s.initialized)) [
  | inl e ↦ rw e v
  | inr e ↦ rw e (
      update-IsValid s s.current_task (λ t. record t { wake_at = add64 now ms; state = sleeping })
        v.current_in (λ r. cc) (λ x. absurd (h x)) v)
]

-- The two passes of `timer_tick`, slot by slot.
pub task-passes :
    (s : Sched) (now i : ℕ)
    → length s.tasks ≡ max_tasks
    → i < max_tasks
    → task (passes s now) i ≡ reap s.current_task i (wake now (task s i))
task-passes s now i size h =
    let e : 0 + i ≡ i = omega arith in
    get_or-map_from 0 (reap s.current_task) (map_from 0 (λ _. wake now) s.tasks) i blank
      (omega (arith, length-map_from 0 (λ _. wake now) s.tasks))
    ∙ ground (
      arith,
      get_or-map_from 0 (λ _. wake now) s.tasks i blank (omega arith),
      ap (λ (k : ℕ). reap s.current_task k (wake now (task s i))) e,
    )

wake-reap-running :
    (now c i : ℕ) (t : Task) → is_running (reap c i (wake now t)).state ≡ is_running t.state
wake-reap-running now c i t = ground arith

wake-reap-awake :
    (now c i : ℕ) (t : Task)
    → is_awake t.state ≡ true
    → is_awake (reap c i (wake now t)).state ≡ true
wake-reap-awake now c i t h = ground arith

pub passes-IsValid : (s : Sched) (now : ℕ) → IsValid s → IsValid (passes s now)
passes-IsValid s now v = record {
  size = omega (
    arith,
    v.size,
    length-map_from 0 (reap s.current_task) (map_from 0 (λ _. wake now) s.tasks),
    length-map_from 0 (λ (_ : ℕ). wake now) s.tasks,
  );
  current_in = v.current_in;
  idle_in = v.idle_in;
  unique = λ i h r. v.unique i h (
      sym (wake-reap-running now s.current_task i (task s i))
      ∙ rw (task-passes s now i v.size h) at r);
  idle_awake =
      rw (task-passes s now s.idle_task_id v.size v.idle_in)
        (wake-reap-awake now s.current_task s.idle_task_id _ v.idle_awake);
}

pub tick_tasks-IsValid : (s : Sched) (now : ℕ) → IsValid s → IsValid (tick_tasks s now)
unfolding tick_tasks
tick_tasks-IsValid s now v =
    let p = passes-IsValid s now v in
    update-IsValid (passes s now) s.current_task count_tick v.current_in (λ r. refl)
      (λ e. rw (← e) at p.idle_awake) p

pub charge-IsValid : (s : Sched) → IsValid s → IsValid (update s s.current_task charge)
charge-IsValid s v =
    update-IsValid s s.current_task charge v.current_in (λ r. refl) (λ e. rw (← e) at v.idle_awake)
      v

end_tick-IsValid : (s : Sched) (rsp : ℕ) → IsValid s → IsValid (end_tick s rsp).0
unfolding end_tick
end_tick-IsValid s rsp v =
    let charged = update s s.current_task charge in
    elim (Bool-cases (not (is_running (task s s.current_task).state))) [
      | inl e ↦ rw e (do_schedule-IsValid s rsp v)
      | inr e ↦ elim (Bool-cases (ltb 0 (task charged s.current_task).slice_remaining)) [
        | inl f ↦ rw (e, f) (charge-IsValid s v)
        | inr f ↦ rw (e, f) (do_schedule-IsValid charged rsp (charge-IsValid s v))
      ]
    ]

pub timer_tick-IsValid : (s : Sched) (now rsp : ℕ) → IsValid s → IsValid (timer_tick s now rsp).0
unfolding timer_tick
timer_tick-IsValid s now rsp v = elim (Bool-cases (not s.initialized)) [
  | inl e ↦ rw e v
  | inr e ↦ rw e (end_tick-IsValid (tick_tasks s now) rsp (tick_tasks-IsValid s now v))
]

yield_now-IsValid : (s : Sched) (rsp : ℕ) → IsValid s → IsValid (yield_now s rsp).0
unfolding yield_now
yield_now-IsValid s rsp v = elim (Bool-cases (not s.initialized)) [
  | inl e ↦ rw e v
  | inr e ↦ rw e (do_schedule-IsValid s rsp v)
]

only_first : (i : ℕ) → i < max_tasks → is_running (task booted i).state ≡ true → i ≡ 0
only_first zero h r = refl
only_first (suc i) h r = let b = get_or-replicate 15 i blank in absurd (ground (arith, b))

booted-IsValid : IsValid booted
booted-IsValid = record {
  size = refl;
  current_in = omega arith;
  idle_in = omega arith;
  unique = only_first;
  idle_awake = refl;
}

pub init-IsValid : (m : Image) → IsValid (init m)
unfolding init
init-IsValid m =
    let v =
      fill_slot-IsValid m booted 1 (some (b'i' ∷ b'd' ∷ b'l' ∷ b'e' ∷ [])) m.idle_entry
        (omega arith) booted-IsValid in
    record {
      size = refl;
      current_in = omega arith;
      idle_in = omega arith;
      unique = v.unique;
      idle_awake = refl;
    }

-- Every call and every interrupt keeps the scheduler well formed.
pub Step-IsValid : (m : Image) {s t : Sched} → Step m s t → IsValid s → IsValid t
Step-IsValid m {s} (creates name entry) v = create_task-IsValid m s name entry v
Step-IsValid m {s} (kills slot) v = kill_task-IsValid s slot v
Step-IsValid m {s} (finishes h) v = finish_task-IsValid s h v
Step-IsValid m {s} (ticks now rsp) v = timer_tick-IsValid s now rsp v
Step-IsValid m {s} (yields rsp) v = yield_now-IsValid s rsp v
Step-IsValid m {s} (sleeps now ms h) v = sleep_ms-IsValid s now ms h v

-- In every state that a running kernel can reach, the task table has its 16 entries, the current and
-- the idle slot are in range, no task but the current one is running, and the idle task is ready or
-- running, so that a switch always has somewhere to go.
pub Reachable-IsValid : (m : Image) {s : Sched} → Reachable m s → IsValid s
Reachable-IsValid m boots = init-IsValid m
Reachable-IsValid m (steps r st) = Step-IsValid m st (Reachable-IsValid m r)
