-- ===== src/Scheduler/Invariant.antt =====
-- kernel/scheduler.cpp: the well-formed scheduler states, and that every step keeps to them.
use quillos.Prelude.{
  ℕ, ◌<◌, ◌≡◌, sym, ◌∙◌, inl, inr, Bool, true, ◌||◌, arith, length, ◌==◌, if◌then◌else◌, Bool-cases,
  length-modify, get_or-modify,
}
use quillos.Scheduler.Types.{TaskState, is_ready, is_running, Task, Sched, max_tasks, blank}
use quillos.Scheduler.{task, update}

abbrev pub is_awake : TaskState → Bool
is_awake st = is_ready st || is_running st

-- The table has its full size, at most the current task is running, and the idle task can always
-- be switched to.
pub record IsValid (s : Sched) : Type 0 where
  pub size : length s.tasks ≡ max_tasks
  pub current_in : s.current_task < max_tasks
  pub idle_in : s.idle_task_id < max_tasks
  pub unique : (i : ℕ) → i < max_tasks → is_running (task s i).state ≡ true → i ≡ s.current_task
  pub idle_awake : is_awake (task s s.idle_task_id).state ≡ true

pub task-update :
    (s : Sched) (i j : ℕ) (f : Task → Task)
    → length s.tasks ≡ max_tasks
    → i < max_tasks
    → task (update s i f) j ≡ (if i == j then f (task s i) else task s j)
task-update s i j f e h = get_or-modify blank s.tasks i j f (omega arith)

-- A write to one slot keeps the invariant if it starts no second task and puts the idle task to no
-- rest.
pub update-IsValid :
    (s : Sched) (i : ℕ) (f : Task → Task)
    → i < max_tasks
    → (is_running (f (task s i)).state ≡ true → i ≡ s.current_task)
    → (i ≡ s.idle_task_id → is_awake (f (task s i)).state ≡ true)
    → IsValid s
    → IsValid (update s i f)
update-IsValid s i f h starts rests v = record {
  size = length-modify blank s.tasks i f ∙ v.size;
  current_in = v.current_in;
  idle_in = v.idle_in;
  unique = λ j hj r. elim (Bool-cases (i == j)) [
    | inl e ↦
        let e' : i ≡ j = ground arith in sym e' ∙ starts (rw (task-update s i j f v.size h, e) at r)
    | inr ne ↦ v.unique j hj (rw (task-update s i j f v.size h, ne) at r)
  ];
  idle_awake = elim (Bool-cases (i == s.idle_task_id)) [
    | inl e ↦ rw (task-update s i s.idle_task_id f v.size h, e) (rests (ground arith))
    | inr ne ↦ rw (task-update s i s.idle_task_id f v.size h, ne) v.idle_awake
  ];
}
