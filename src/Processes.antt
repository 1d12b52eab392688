-- ===== src/Processes.antt =====
-- kernel/process.cpp: the processes of this node and those that it has started on others.
--
-- A text is the list of its bytes before the null byte. `ticks` is an argument of the calls that read
-- it. The calls of the scheduler go to its model; a datagram is listed as a `Sent`. `none` as the outcome
-- of a call is a write past the end of a buffer. The task functions themselves and the console output are
-- left out.
pub mod Types
pub mod Table
pub mod Steps
pub mod Reaching
pub mod Spawning
mod Tests
use quillos.Prelude.{
  ℕ, zero, suc, ◌+◌, ◌-◌, ◌*◌, ◌/◌, ◌%◌, ◌^◌, ◌<◌, ◌≡◌, Bool, true, false, not, ◌&&◌, ◌||◌, Option,
  none, some, List, [], ◌∷◌, ◌++◌, map, length, get_or, set, take, find_index, modify, count_if,
  ltb, leb, ◌==◌, if◌then◌else◌, add32, str_eq, ◌>>=◌, ◌>>◌,
}
use mathlib.Core.Option
use quillos.Utils.{itoa}
use quillos.Scheduler.Types.{Sched, Image}
use quillos.Scheduler.{create_task, kill_task}
use quillos.Network.Wire.{store32}
use quillos.Cluster.Types.{Cluster}
use quillos.Cluster.{get_peer}
use Types.{
  State, proc_unused, proc_running, proc_sleeping, proc_exiting, proc_dead, ProcType, type_counter,
  type_stress, type_monitor, type_worker, unnamed, is_unused, is_running, is_dead, Info, no_proc,
  Processes, Entries, Sent,
}

-- `procs[i]`
abbrev pub proc : Processes → ℕ → Info
proc s i = get_or s.procs i no_proc

-- `procs[i] = f(procs[i])`
abbrev pub update : Processes → ℕ → (Info → Info) → Processes
update s i f = record s { procs = modify no_proc s.procs i f }

abbrev pub counter_name : List ℕ
counter_name = b'c' ∷ b'o' ∷ b'u' ∷ b'n' ∷ b't' ∷ b'e' ∷ b'r' ∷ []

abbrev pub stress_name : List ℕ
stress_name = b's' ∷ b't' ∷ b'r' ∷ b'e' ∷ b's' ∷ b's' ∷ []

abbrev pub monitor_name : List ℕ
monitor_name = b'm' ∷ b'o' ∷ b'n' ∷ b'i' ∷ b't' ∷ b'o' ∷ b'r' ∷ []

abbrev pub worker_name : List ℕ
worker_name = b'w' ∷ b'o' ∷ b'r' ∷ b'k' ∷ b'e' ∷ b'r' ∷ []

abbrev pub unknown_name : List ℕ
unknown_name = b'u' ∷ b'n' ∷ b'k' ∷ b'n' ∷ b'o' ∷ b'w' ∷ b'n' ∷ []

unfoldable pub parse_type : List ℕ → Option ProcType
parse_type name =
    if str_eq name counter_name
    then some type_counter
    else if str_eq name stress_name
    then some type_stress
    else if str_eq name monitor_name
    then some type_monitor
    else if str_eq name worker_name
    then some type_worker
    else none

abbrev pub type_name : ProcType → List ℕ
type_name type_counter = counter_name
type_name type_stress = stress_name
type_name type_monitor = monitor_name
type_name type_worker = worker_name
type_name (unnamed k) = unknown_name

-- `get_entry`; 0 is null.
abbrev pub get_entry : Entries → ProcType → ℕ
get_entry e type_counter = e.counter_entry
get_entry e type_stress = e.stress_entry
get_entry e type_monitor = e.monitor_entry
get_entry e type_worker = e.worker_entry
get_entry e (unnamed k) = 0

-- The slot of the process that the current task runs.
pub find_my_slot : Processes → Sched → Option ℕ
find_my_slot s sched =
    find_index
      (λ (p : Info).
        is_running p.state && elim p.sched_slot [ none ↦ false | some k ↦ k == sched.current_task ])
      s.procs

abbrev pub is_free : Info → Bool
is_free p = is_unused p.state || is_dead p.state

pub find_free : Processes → Option ℕ
find_free s = find_index is_free s.procs

-- A name like "counter:5"; `char pbuf[8]` has room for 7 digits.
abbrev pub full_name : List ℕ → ℕ → List ℕ
full_name name pid = let base = take 15 name in base ++ (b':' ∷ take (22 - length base) (itoa pid))

abbrev pub local_info : ℕ → ProcType → List ℕ → ℕ → ℕ → Info → Info
local_info pid kind name owner_ip ticks p = record p {
  pid = pid;
  kind = kind;
  state = proc_running;
  node_ip = 0;
  owner_ip = owner_ip;
  name = full_name name pid;
  started_at = ticks;
  cpu_ticks = 0;
}

-- The end of `spawn_local`, on what `create_task` returns.
abbrev pub end_spawn : Processes → Sched → ℕ → ℕ → Option ℕ → Processes × Sched × ℕ
end_spawn s sched slot pid none = (update s slot (λ p. record p { state = proc_unused }), sched, 0)
end_spawn s sched slot pid (some k) =
    (update s slot (λ p. record p { sched_slot = some k }), sched, pid)

abbrev pub placed : Processes → ProcType → List ℕ → ℕ → ℕ → ℕ → Processes
placed s kind name owner_ip ticks slot =
    record (update s slot (local_info s.next_pid kind name owner_ip ticks)) {
      next_pid = add32 s.next_pid 1;
      stop_flags = set s.stop_flags slot false;
    }

-- The tracking entry of a process on another node.
abbrev pub remote_info : ℕ → ProcType → List ℕ → ℕ → ℕ → ℕ → Info → Info
remote_info pid kind name node_ip our_ip ticks p = record {
  pid = pid;
  kind = kind;
  state = proc_running;
  node_ip = node_ip;
  owner_ip = our_ip;
  name = take 15 name;
  started_at = ticks;
  cpu_ticks = 0;
  sched_slot = none;
}

abbrev pub type_byte : ProcType → ℕ
type_byte type_counter = 1
type_byte type_stress = 2
type_byte type_monitor = 3
type_byte type_worker = 4
type_byte (unnamed k) = k

abbrev pub spawn_message : ProcType → ℕ → List ℕ
spawn_message kind pid = 0x10 ∷ 0 ∷ 5 ∷ 0 ∷ type_byte kind ∷ store32 pid

module _ (m : Image) (e : Entries) where
  -- `spawn_local` on what `find_free` gives: the new states and the pid, or 0.
  abbrev pub spawn_at :
      Processes → Sched → ProcType → List ℕ → ℕ → ℕ → Option ℕ → Option (Processes × Sched × ℕ)
  spawn_at s sched kind name owner_ip ticks none = some (s, sched, 0)
  spawn_at s sched kind name owner_ip ticks (some slot) =
      let pid = s.next_pid in
      let made = create_task m sched (some (full_name name pid)) (get_entry e kind) in
      if get_entry e kind == 0
      then some (s, sched, 0)
      else if leb 8 (length (itoa pid))
      then none
      else some (end_spawn (placed s kind name owner_ip ticks slot) made.0 slot pid made.1)

  pub spawn_local : Processes → Sched → ProcType → List ℕ → ℕ → ℕ → Option (Processes × Sched × ℕ)
  unfolding find_free
  spawn_local s sched kind name owner_ip ticks =
      spawn_at s sched kind name owner_ip ticks (find_free s)

  -- `spawn_on` for another node.
  abbrev pub spawn_remote :
      Processes
      → Sched
      → ProcType
      → List ℕ
      → ℕ
      → ℕ
      → ℕ
      → Option ℕ
      → Processes × Sched × List Sent × ℕ
  spawn_remote s sched kind name node_ip our_ip ticks none = (s, sched, [], 0)
  spawn_remote s sched kind name node_ip our_ip ticks (some slot) = (
    record (update s slot (remote_info s.next_pid kind name node_ip our_ip ticks)) {
      next_pid = add32 s.next_pid 1;
    },
    sched,
    record { dst_ip = node_ip; bytes = spawn_message kind s.next_pid } ∷ [],
    s.next_pid,
  )

  abbrev pub spawn_typed :
      Processes
      → Sched
      → ℕ
      → List ℕ
      → ℕ
      → ℕ
      → Option ProcType
      → Option (Processes × Sched × List Sent × ℕ)
  spawn_typed s sched our_ip name node_ip ticks none = some (s, sched, [], 0)
  spawn_typed s sched our_ip name node_ip ticks (some kind) =
      if node_ip == 0 || node_ip == our_ip
      then spawn_local s sched kind name 0 ticks >>= (λ r. some (r.0, r.1, [], r.2))
      else some (spawn_remote s sched kind name node_ip our_ip ticks (find_free s))

  pub spawn_on : Processes → Sched → ℕ → List ℕ → ℕ → ℕ → Option (Processes × Sched × List Sent × ℕ)
  unfolding spawn_local find_free parse_type
  spawn_on s sched our_ip name node_ip ticks =
      if not s.initialized
      then some (s, sched, [], 0)
      else spawn_typed s sched our_ip name node_ip ticks (parse_type name)

  -- `init`, without its result, which is always true.
  pub init : Processes → Sched → Processes × Sched
  init s sched = (
    record s {
      procs =
          map (λ (p : Info). record p { state = proc_unused; pid = 0; sched_slot = none }) s.procs;
      stop_flags = map (λ (f : Bool). false) s.stop_flags;
      next_pid = 1;
      initialized = true;
    },
    (create_task m sched (some (b'p' ∷ b'r' ∷ b'o' ∷ b'c' ∷ b'-' ∷ b's' ∷ b't' ∷ b'a' ∷ b't' ∷ []))
        e.status_report_entry).0,
  )

  -- `on_remote_spawn_request`: the acknowledgment has the requester's pid and ours.
  pub on_remote_spawn_request :
      Processes → Sched → ℕ → ProcType → ℕ → ℕ → Option (Processes × Sched × List Sent)
  unfolding spawn_local
  on_remote_spawn_request s sched from_ip kind remote_pid ticks =
      spawn_local s sched kind (type_name kind) from_ip ticks >>= (λ r. some (
        r.0,
        r.1,
        record { dst_ip = from_ip; bytes = 0x11 ∷ 0 ∷ 8 ∷ 0 ∷ (store32 remote_pid ++ store32 r.2) }
            ∷ [],
      ))

-- The first peer that `get_peer` gives, in the loop of `spawn` from `i` on.
pub first_peer : Cluster → ℕ → ℕ → Option ℕ
first_peer c zero i = none
first_peer c (suc n) i =
    let rest = first_peer c n (i + 1) in elim (get_peer c i) [ none ↦ rest | some p ↦ some p.ip ]

-- The choice of the node in `spawn`: every second one with a peer goes to the first peer.
abbrev pub choose : Processes → Option ℕ → Processes × ℕ
choose s none = (s, 0)
choose s (some ip) = let rr = add32 s.rr 1 in (record s { rr = rr }, if rr % 2 == 0 then ip else 0)

pub spawn :
    Image
    → Entries
    → Processes
    → Sched
    → Cluster
    → ℕ
    → List ℕ
    → ℕ
    → Option (Processes × Sched × List Sent × ℕ)
unfolding first_peer spawn_on parse_type
spawn m e s sched c our_ip name ticks =
    let chosen = choose s (first_peer c c.peer_count 0) in
    if not s.initialized then some (s, sched, [], 0) else elim (parse_type name) [
      | none ↦ some (s, sched, [], 0)
      | some kind ↦ spawn_on m e chosen.0 sched our_ip name chosen.1 ticks
    ]

abbrev pub is_live : Info → Bool
is_live p = not (is_unused p.state) && not (is_dead p.state)

-- `Scheduler::kill_task(sched_slot)`, if there is a task.
abbrev pub kill_slot : Sched → Option ℕ → Sched
kill_slot sched none = sched
kill_slot sched (some k) = (kill_task sched k).0

abbrev pub kill_found : Processes → Sched → ℕ → Option ℕ → Processes × Sched × List Sent × Bool
kill_found s sched pid none = (s, sched, [], false)
kill_found s sched pid (some i) =
    if (proc s i).node_ip == 0
    then (
      record (update s i (λ p. record p { state = proc_dead; sched_slot = none })) {
        stop_flags = set s.stop_flags i true;
      },
      kill_slot sched (proc s i).sched_slot,
      [],
      true,
    )
    else (
      update s i (λ p. record p { state = proc_exiting }),
      sched,
      record { dst_ip = (proc s i).node_ip; bytes = 0x12 ∷ 0 ∷ 4 ∷ 0 ∷ store32 pid } ∷ [],
      true,
    )

abbrev pub is_pid : ℕ → Info → Bool
is_pid pid p = p.pid == pid && is_live p

pub kill : Processes → Sched → ℕ → Processes × Sched × List Sent × Bool
kill s sched pid = kill_found s sched pid (find_index (is_pid pid) s.procs)

pub count : Processes → ℕ
count s = count_if is_live s.procs

-- The loop of `get_by_index` from `c` on.
pub nth_live : ℕ → ℕ → List Info → Option Info
nth_live idx c [] = none
nth_live idx c (p ∷ ps) =
    let rest = nth_live idx (if is_live p then c + 1 else c) ps in
    if is_live p && c == idx then some p else rest

pub get_by_index : Processes → ℕ → Option Info
unfolding nth_live
get_by_index s idx = nth_live idx 0 s.procs

abbrev pub has_pid : ℕ → Info → Bool
has_pid pid p = p.pid == pid && not (is_unused p.state)

pub find_pid : Processes → ℕ → Option Info
find_pid s pid = Option.map (proc s) (find_index (has_pid pid) s.procs)

abbrev pub remote_kill_found : Processes → Sched → Option ℕ → Processes × Sched
remote_kill_found s sched none = (s, sched)
remote_kill_found s sched (some i) = (
  record (update s i (λ p. record p { state = proc_dead })) {
    stop_flags = set s.stop_flags i true;
  },
  kill_slot sched (proc s i).sched_slot,
)

pub on_remote_kill_request : Processes → Sched → ℕ → Processes × Sched
on_remote_kill_request s sched pid =
    remote_kill_found s sched
      (find_index (λ (p : Info). p.pid == pid && is_running p.state && p.node_ip == 0) s.procs)

abbrev pub update_found : Processes → (Info → Info) → Option ℕ → Processes
update_found s f none = s
update_found s f (some i) = update s i f

abbrev pub is_on : ℕ → ℕ → Info → Bool
is_on pid node_ip p = p.pid == pid && p.node_ip == node_ip

pub on_remote_died : Processes → ℕ → ℕ → Processes
on_remote_died s pid node_ip =
    update_found s (λ p. record p { state = proc_dead }) (find_index (is_on pid node_ip) s.procs)

pub on_remote_status : Processes → ℕ → ℕ → State → ℕ → Processes
on_remote_status s pid node_ip state cpu =
    update_found s
      (λ p. record p { cpu_ticks = cpu; state = if is_dead state then proc_dead else p.state })
      (find_index (is_on pid node_ip) s.procs)

-- One round of `status_report_entry`.
abbrev pub reclaim : Info → Info
reclaim p =
    if is_dead p.state && p.node_ip == 0 then record p { state = proc_unused; pid = 0 } else p

pub status_report : Processes → Processes
status_report s = record s { procs = map reclaim s.procs }
