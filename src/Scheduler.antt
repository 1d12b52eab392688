-- ===== src/Scheduler.antt =====
-- kernel/scheduler.cpp and scheduler.h: the preemptive round-robin scheduler.
--
-- A slot number indexes `tasks`. Addresses, entry points and saved stack pointers are numbers, and
-- the null entry point is 0. What the linker decides (where `task_stacks` lies, the addresses of
-- `task_entry_wrapper` and `idle_entry`) is the parameter `Image`. A name is the text before its
-- null byte.
pub mod Types
pub mod Steps
pub mod Picking
pub mod Invariant
pub mod Switching
pub mod Preservation
pub mod Fairness
pub mod Timer
pub mod Counting
mod Tests
use mathlib.Core.Option
use quillos.Prelude.{
  ℕ, zero, suc, ◌+◌, ◌-◌, ◌*◌, ◌%◌, ◌≤◌, ◌<◌, ◌≡◌, Bool, true, false, not, ◌&&◌, ◌||◌, Option, none,
  some, List, [], ◌∷◌, length, get_or, take, drop, replicate, find_index, modify, map_from, ltb,
  leb, ◌==◌, if◌then◌else◌, add32, sub32, add64, u32_mod, u64_mod,
}
use Types.{
  TaskState, unused, ready, running, sleeping, dead, is_unused, is_ready, is_running, is_sleeping,
  is_dead, Task, InterruptFrame, Sched, Image, max_tasks, time_slice_ms, stack_size, frame_size,
  blank, zero_frame,
}

-- `tasks[i]`
abbrev pub task : Sched → ℕ → Task
task s i = get_or s.tasks i blank

-- `tasks[i] = f(tasks[i])`
abbrev pub update : Sched → ℕ → (Task → Task) → Sched
update s i f = record s { tasks = modify blank s.tasks i f }

-- The test of `pick_next` on one slot.
abbrev pub is_candidate : Sched → ℕ → Bool
is_candidate s i = not (i == s.idle_task_id) && is_ready (task s i).state

-- The slot after `i`, going round.
abbrev pub next_slot : ℕ → ℕ
next_slot i = (i + 1) % max_tasks

-- The `do`-`while` of `pick_next` on fuel: `none` means that the fuel ran out.
pub pick_loop : ℕ → Sched → ℕ → ℕ → Option ℕ
pick_loop zero s start i = none
pick_loop (suc fuel) s start i =
    let rest = pick_loop fuel s start (next_slot i) in
    if is_candidate s i then some i else if next_slot i == start then some s.idle_task_id else rest

pub pick_next : Sched → ℕ
pick_next s = elim (pick_loop max_tasks s (next_slot s.current_task) (next_slot s.current_task)) [
  | none ↦ s.idle_task_id
  | some i ↦ i
]

-- The register save at the head of `do_schedule`.
abbrev pub save : ℕ → Task → Task
save rsp t = record t { rsp = rsp; state = if is_running t.state then ready else t.state }

abbrev pub start_slice : Task → Task
start_slice t = record t { state = running; slice_remaining = time_slice_ms }

-- The new state, and the stack pointer to resume from.
pub do_schedule : Sched → ℕ → Sched × ℕ
do_schedule s rsp =
    let saved = update s s.current_task (save rsp) in
    let next = pick_next saved in
    if (next == s.current_task) && is_ready (task saved s.current_task).state
    then (update saved s.current_task start_slice, rsp)
    else (record (update saved next start_slice) { current_task = next }, (task saved next).rsp)

abbrev pub copy_name : Option (List ℕ) → List ℕ
copy_name none = []
copy_name (some name) = take 31 name

-- The table after `init` has written slot 0, before the idle task is made.
abbrev pub booted : Sched
booted = record {
  tasks =
      record blank { state = running; name = b'k' ∷ b'e' ∷ b'r' ∷ b'n' ∷ b'e' ∷ b'l' ∷ [] }
      ∷ replicate 15 blank;
  frames = replicate max_tasks zero_frame;
  current_task = 0;
  task_count = 1;
  idle_task_id = 0;
  next_id = 1;
  initialized = false;
}

module _ (m : Image) where
  -- `&task_stacks[s][STACK_SIZE]`
  abbrev pub stack_top : ℕ → ℕ
  stack_top s = m.task_stacks + (s + 1) * stack_size

  -- The frame that makes the first `iretq` land in `task_entry_wrapper` with interrupts enabled.
  abbrev pub first_frame : ℕ → InterruptFrame
  first_frame s = record zero_frame {
    rip = m.task_entry_wrapper;
    cs = 0x28;
    ss = 0x30;
    rflags = 0x202;
    rsp = stack_top s;
  }

  abbrev pub new_task : Sched → ℕ → Option (List ℕ) → ℕ → Task
  new_task s slot name entry = record {
    rsp = stack_top slot - frame_size;
    state = ready;
    name = copy_name name;
    id = s.next_id;
    entry = entry;
    ticks_used = 0;
    wake_at = 0;
    slice_remaining = time_slice_ms;
  }

  abbrev pub fill_slot : Sched → ℕ → Option (List ℕ) → ℕ → Sched
  fill_slot s slot name entry = record s {
    tasks = modify blank s.tasks slot (λ _. new_task s slot name entry);
    frames = modify zero_frame s.frames slot (λ _. first_frame slot);
    next_id = add32 s.next_id 1;
    task_count = add32 s.task_count 1;
  }

  -- `none` is -1.
  unfoldable pub create_task_internal : Sched → Option (List ℕ) → ℕ → Bool → Sched × Option ℕ
  create_task_internal s name entry is_idle =
      let start = (if is_idle then 0 else 1) in
      elim (find_index (λ (t : Task). is_unused t.state) (drop start s.tasks)) [
        | none ↦ (s, none)
        | some k ↦ (fill_slot s (start + k) name entry, some (start + k))
      ]

  unfoldable pub create_task : Sched → Option (List ℕ) → ℕ → Sched × Option ℕ
  unfolding create_task_internal
  create_task s name entry =
      if not s.initialized || entry == 0 then (s, none) else create_task_internal s name entry false

  unfoldable pub init : Sched
  unfolding create_task_internal
  init =
      let (s, slot) =
        create_task_internal booted (some (b'i' ∷ b'd' ∷ b'l' ∷ b'e' ∷ [])) m.idle_entry true in
      elim slot [
        | none ↦ record s { initialized = true }
        | some i ↦ record s { idle_task_id = i; initialized = true }
      ]

-- `if (task_count > 0) task_count--`
abbrev pub uncount : ℕ → ℕ
uncount n = if ltb 0 n then n - 1 else n

unfoldable pub kill_task : Sched → ℕ → Sched × Bool
kill_task s slot =
    if leb max_tasks slot || slot == 0 || slot == s.idle_task_id || is_unused (task s slot).state
    then (s, false)
    else (
      record (update s slot (λ t. record t { state = unused })) {
        task_count = uncount s.task_count;
      },
      true,
    )

-- `task_entry_wrapper` after the task's function has returned, up to its `int 0x80`.
pub finish_task : Sched → Sched
finish_task s = record (update s s.current_task (λ t. record t { state = dead })) {
  task_count = uncount s.task_count;
}

abbrev pub wake : ℕ → Task → Task
wake ticks t = if is_sleeping t.state && leb t.wake_at ticks then record t { state = ready } else t

abbrev pub reap : ℕ → ℕ → Task → Task
reap current i t = if is_dead t.state && not (i == current) then record t { state = unused } else t

-- The two passes of `timer_tick` over the table.
abbrev pub passes : Sched → ℕ → Sched
passes s ticks = record s {
  tasks = map_from 0 (reap s.current_task) (map_from 0 (λ _. wake ticks) s.tasks);
}

abbrev pub count_tick : Task → Task
count_tick t = record t { ticks_used = add64 t.ticks_used 1 }

-- `timer_tick` up to its first decision.
pub tick_tasks : Sched → ℕ → Sched
tick_tasks s ticks = update (passes s ticks) s.current_task count_tick

-- `if (slice_remaining > 0) slice_remaining--`
abbrev pub charge : Task → Task
charge t = record t {
  slice_remaining = if ltb 0 t.slice_remaining then t.slice_remaining - 1 else t.slice_remaining;
}

-- The decision of `timer_tick` on the current slot, after the passes over the table.
pub end_tick : Sched → ℕ → Sched × ℕ
unfolding do_schedule
end_tick s rsp =
    if not (is_running (task s s.current_task).state)
    then do_schedule s rsp
    else let charged = update s s.current_task charge in
      if ltb 0 (task charged charged.current_task).slice_remaining
      then (charged, rsp)
      else do_schedule charged rsp

pub timer_tick : Sched → ℕ → ℕ → Sched × ℕ
unfolding tick_tasks end_tick
timer_tick s ticks rsp = if not s.initialized then (s, rsp) else end_tick (tick_tasks s ticks) rsp

-- `yield`, the handler of `int 0x80`
pub yield_now : Sched → ℕ → Sched × ℕ
unfolding do_schedule
yield_now s rsp = if not s.initialized then (s, rsp) else do_schedule s rsp

-- `sleep_ms` up to its `int 0x80`
pub sleep_ms : Sched → ℕ → ℕ → Sched
sleep_ms s ticks ms =
    if not s.initialized
    then s
    else update s s.current_task (λ t. record t { wake_at = add64 ticks ms; state = sleeping })

-- `get_task`, whose view leaves out the entry point and the slice.
pub record TaskView : Type 0 where
  pub rsp : ℕ
  pub state : TaskState
  pub name : List ℕ
  pub id : ℕ
  pub ticks_used : ℕ
  pub wake_at : ℕ

pub get_task : Sched → ℕ → Option TaskView
get_task s idx =
    if leb max_tasks idx
    then none
    else some (record {
      rsp = (task s idx).rsp;
      state = (task s idx).state;
      name = (task s idx).name;
      id = (task s idx).id;
      ticks_used = (task s idx).ticks_used;
      wake_at = (task s idx).wake_at;
    })
