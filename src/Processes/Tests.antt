-- ===== src/Processes/Tests.antt =====
-- The theorems about the processes at concrete tables, and runs of the operations.

use quillos.Prelude.{ℕ, ◌≡◌, refl, true, some, [], ◌∷◌, arith}
use quillos.Scheduler.Types.{Sched, Image}
use quillos.Scheduler
use quillos.Utils.{itoa, digits, copy_back}
use quillos.Processes.Types.{
  type_counter, proc_running, proc_dead, Info, Processes, zeroed, Entries,
}
use quillos.Processes.{
  proc, update, find_free, find_my_slot, local_info, placed, full_name, get_entry, counter_name,
  spawn_local, spawn_on, parse_type, find_pid, kill, on_remote_spawn_request,
  on_remote_kill_request, count,
}
use quillos.Processes.Table.{IsValid, kept-IsValid}
use quillos.Processes.Reaching.{Lived, loads, steps, inits, kills, Lived-IsValid}
use quillos.Processes.Spawning.{running_as, spawn_local-find_pid}

abbrev image : Image
image = record { task_stacks = 0x100000; task_entry_wrapper = 0x2000; idle_entry = 0x3000 }

abbrev entries : Entries
entries = record {
  counter_entry = 0x4000;
  stress_entry = 0x5000;
  monitor_entry = 0x6000;
  worker_entry = 0x7000;
  status_report_entry = 0x8000;
}

abbrev booted : Sched
booted = quillos.Scheduler.init image

abbrev ready : Processes
ready = record zeroed { initialized = true }

ready-IsValid : IsValid ready
ready-IsValid =
    let h : Lived image entries zeroed = loads in
    kept-IsValid zeroed ready (Lived-IsValid h) refl refl (λ i on. (on, refl))

-- The table and the scheduler with one counter, whose pid is 1.
abbrev counting : Processes
counting = update (placed ready type_counter counter_name 0 5 0) 0 (running_as 2)

abbrev busy : Sched
busy = (quillos.Scheduler.create_task image booted (some (full_name counter_name 1)) 0x4000).0

spawn_run :
    spawn_local image entries ready booted type_counter counter_name 0 5 ≡ some (counting, busy, 1)
unfolding spawn_local find_free itoa digits copy_back quillos.Scheduler.create_task
    quillos.Scheduler.create_task_internal quillos.Scheduler.init
spawn_run = refl

spawn_local-find_pid_example :
    (k : ℕ) × (old : Info) × (quillos.Scheduler.create_task image booted
        (some (full_name counter_name 1))
        0x4000
      ≡ (busy, some k))
    × (find_pid counting 1 ≡ some (running_as k (local_info 1 type_counter counter_name 0 5 old)))
    × ((kill counting busy 1).1 ≡ (quillos.Scheduler.kill_task busy k).0)
    × ((kill counting busy 1).3 ≡ true)
spawn_local-find_pid_example =
    spawn_local-find_pid image entries ready booted type_counter counter_name 0 5 counting busy 1
      ready-IsValid (omega arith) spawn_run (λ e. absurd (omega (arith, e)))

Lived-IsValid_example :
    IsValid (kill (quillos.Processes.init image entries zeroed booted).0 booted 1).0
Lived-IsValid_example =
    Lived-IsValid {m = image} {e = entries} (steps (steps loads (inits booted)) (kills booted 1))

-- The same table with a second counter, which node 10.0.0.3 has asked for and knows as its pid 1.
abbrev hosting : Processes
hosting = update (placed counting type_counter counter_name 0x0300000a 6 1) 1 (running_as 3)

host_run :
    (on_remote_spawn_request image entries counting busy 0x0300000a type_counter 1 6
      ≡ some (
        hosting,
        (quillos.Scheduler.create_task image busy (some (full_name counter_name 2)) 0x4000).0,
        record {
          dst_ip = 0x0300000a;
          bytes = 0x11 ∷ 0 ∷ 8 ∷ 0 ∷ 1 ∷ 0 ∷ 0 ∷ 0 ∷ 2 ∷ 0 ∷ 0 ∷ 0 ∷ [];
        }
            ∷ [],
      ))
    × (count hosting ≡ 2)
unfolding on_remote_spawn_request spawn_local find_free itoa digits copy_back count
    quillos.Scheduler.create_task quillos.Scheduler.create_task_internal quillos.Scheduler.init
host_run = (refl, refl)

-- When that node then kills its process 1, this node's own process 1 dies in its place.
wrong_kill_run :
    ((proc (on_remote_kill_request hosting busy 1).0 0).state ≡ proc_dead)
    × ((proc (on_remote_kill_request hosting busy 1).0 1).state ≡ proc_running)
unfolding on_remote_kill_request
wrong_kill_run = (refl, refl)
