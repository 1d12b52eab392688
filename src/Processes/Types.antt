-- ===== src/Processes/Types.antt =====
-- kernel/process.h and the variables of process.cpp.
use quillos.Prelude.{ℕ, Bool, true, false, Option, some, List, [], replicate}

pub data State : Type 0 where
  proc_unused proc_running proc_sleeping proc_exiting proc_dead : State

-- `Type`; a byte from the network may be none of the four.
pub data ProcType : Type 0 where
  type_counter type_stress type_monitor type_worker : ProcType
  unnamed : ℕ → ProcType

abbrev pub is_unused : State → Bool
is_unused proc_unused = true
is_unused _ = false

abbrev pub is_running : State → Bool
is_running proc_running = true
is_running _ = false

abbrev pub is_dead : State → Bool
is_dead proc_dead = true
is_dead _ = false

-- `sched_slot` is `none` for -1.
pub record Info : Type 0 where
  pub pid : ℕ
  pub kind : ProcType
  pub state : State
  pub node_ip : ℕ
  pub owner_ip : ℕ
  pub name : List ℕ
  pub started_at : ℕ
  pub cpu_ticks : ℕ
  pub sched_slot : Option ℕ

-- A zeroed entry of `procs`.
abbrev pub no_proc : Info
no_proc = record {
  pid = 0;
  kind = unnamed 0;
  state = proc_unused;
  node_ip = 0;
  owner_ip = 0;
  name = [];
  started_at = 0;
  cpu_ticks = 0;
  sched_slot = some 0;
}

abbrev pub max_procs : ℕ
max_procs = 16

-- The variables of namespace `Process`; `rr` is the static one of `spawn`.
pub record Processes : Type 0 where
  pub procs : List Info
  pub next_pid : ℕ
  pub initialized : Bool
  pub stop_flags : List Bool
  pub rr : ℕ

-- The variables before `init`, as the loader sets them.
abbrev pub zeroed : Processes
zeroed = record {
  procs = replicate max_procs no_proc;
  next_pid = 1;
  initialized = false;
  stop_flags = replicate max_procs false;
  rr = 0;
}

-- The addresses that the linker gives the task functions.
pub record Entries : Type 0 where
  pub counter_entry : ℕ
  pub stress_entry : ℕ
  pub monitor_entry : ℕ
  pub worker_entry : ℕ
  pub status_report_entry : ℕ

-- A datagram between the cluster ports, whose fate nobody looks at.
pub record Sent : Type 0 where
  pub dst_ip : ℕ
  pub bytes : List ℕ
