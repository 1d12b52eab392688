-- ===== src/Scheduler/Types.antt =====
-- kernel/scheduler.h, idt.h and the head of scheduler.cpp: the records and the constants.
use quillos.Prelude.{ℕ, Bool, true, false, List, [], replicate}

pub data TaskState : Type 0 where
  unused ready running sleeping dead : TaskState

abbrev pub is_unused : TaskState → Bool
is_unused unused = true
is_unused _ = false

abbrev pub is_ready : TaskState → Bool
is_ready ready = true
is_ready _ = false

abbrev pub is_running : TaskState → Bool
is_running running = true
is_running _ = false

abbrev pub is_sleeping : TaskState → Bool
is_sleeping sleeping = true
is_sleeping _ = false

abbrev pub is_dead : TaskState → Bool
is_dead dead = true
is_dead _ = false

-- `TaskInternal`
pub record Task : Type 0 where
  pub rsp : ℕ
  pub state : TaskState
  pub name : List ℕ
  pub id : ℕ
  pub entry : ℕ
  pub ticks_used : ℕ
  pub wake_at : ℕ
  pub slice_remaining : ℕ

-- The words that `irq_common` pops: 15 general registers, then the rest by name.
pub record InterruptFrame : Type 0 where
  pub registers : List ℕ
  pub int_no : ℕ
  pub error_code : ℕ
  pub rip : ℕ
  pub cs : ℕ
  pub rflags : ℕ
  pub rsp : ℕ
  pub ss : ℕ

-- `frames` holds, for each slot, what lies at the top of that slot's stack.
pub record Sched : Type 0 where
  pub tasks : List Task
  pub frames : List InterruptFrame
  pub current_task : ℕ
  pub task_count : ℕ
  pub idle_task_id : ℕ
  pub next_id : ℕ
  pub initialized : Bool

-- Link-time addresses.
pub record Image : Type 0 where
  pub task_stacks : ℕ
  pub task_entry_wrapper : ℕ
  pub idle_entry : ℕ

abbrev pub max_tasks : ℕ
max_tasks = 16

abbrev pub time_slice_ms : ℕ
time_slice_ms = 10

abbrev pub stack_size : ℕ
stack_size = 16384

-- `sizeof(InterruptFrame)`: 22 words of 8 bytes.
abbrev pub frame_size : ℕ
frame_size = 176

-- The entry that `init` writes into every slot.
abbrev pub blank : Task
blank = record {
  rsp = 0;
  state = unused;
  name = [];
  id = 0;
  entry = 0;
  ticks_used = 0;
  wake_at = 0;
  slice_remaining = time_slice_ms;
}

abbrev pub zero_frame : InterruptFrame
zero_frame = record {
  registers = replicate 15 0;
  int_no = 0;
  error_code = 0;
  rip = 0;
  cs = 0;
  rflags = 0;
  rsp = 0;
  ss = 0;
}
