-- ===== src/Jobs.antt =====
-- kernel/djob.cpp, namespace `DJob`: where a job runs, and the ring of the last 16 jobs.
--
-- `Cluster::submit_job` is the parameter `send`: does the request leave for the target? The tick
-- counter and the scheduler's task count are arguments of the calls that read them. A pointer into
-- `history` is a slot number.
pub mod Types
pub mod Execute
pub mod Ending
pub mod Ring
pub mod Targets
pub mod Filing
pub mod Submitting
pub mod Results
pub mod Bounds
mod Tests
use mathlib.Core.Option
use quillos.Prelude.{
  ℕ, zero, suc, ◌+◌, ◌-◌, ◌*◌, ◌%◌, ◌^◌, ◌≤◌, ◌<◌, ◌≡◌, Bool, true, false, not, ◌&&◌, ◌||◌, Option,
  none, some, List, [], ◌∷◌, ◌++◌, length, get_or, take, drop, replicate, find_index, modify, ltb,
  leb, ◌==◌, if◌then◌else◌, add32, sub64, u32_mod, u64_mod, map,
}
use Types.{
  JobType, Status, pending, running, completed, failed, is_running, is_completed, max_payload,
  max_nodes, max_history, Job, no_job, NodeLoad, no_node, DJob,
}
use Execute.{execute}

-- `history[i]`
abbrev pub job : DJob → ℕ → Job
job s i = get_or s.history i no_job

-- `history[i] = f(history[i])`
abbrev pub update : DJob → ℕ → (Job → Job) → DJob
update s i f = record s { history = modify no_job s.history i f }

pub init : DJob → DJob
init s = record s {
  node_loads = map (λ (n : NodeLoad). record n { valid = false }) s.node_loads;
  history = map (λ (j : Job). record j { id = 0; status = pending }) s.history;
  history_write = 0;
  history_count = 0;
  next_job_id = 1;
  initialized = true;
}

-- The variables before `init`, as the loader zeroes them.
abbrev pub zeroed : DJob
zeroed = record {
  node_loads = replicate max_nodes no_node;
  history = replicate max_history no_job;
  history_write = 0;
  history_count = 0;
  next_job_id = 1;
  initialized = false;
  round_robin_counter = 0;
}

-- The peers with a report of the last 10000 ticks.
abbrev pub is_fresh : ℕ → NodeLoad → Bool
is_fresh ticks n = n.valid && not (ltb 10000 (sub64 ticks n.last_updated))

pub candidates : ℕ → List NodeLoad → List NodeLoad
candidates ticks [] = []
candidates ticks (n ∷ ns) =
    let rest = candidates ticks ns in if is_fresh ticks n then n ∷ rest else rest

-- `if (pick == 0) return 0; return candidates[(pick - 1) % num_candidates].ip;`
abbrev pub take_turn : List NodeLoad → ℕ → ℕ
take_turn cs pick = if pick == 0 then 0 else (get_or cs ((pick - 1) % length cs) no_node).ip

-- The new state, and the peer's address or 0 for this node.
pub pick_target : DJob → ℕ → ℕ → DJob × ℕ
unfolding candidates
pick_target s ticks local_load =
    let cs = candidates ticks s.node_loads in
    let counter = add32 s.round_robin_counter 1 in
    if length cs == 0
    then (s, 0)
    else elim (find_index (λ (n : NodeLoad). ltb n.task_count local_load) cs) [
      | some i ↦ (s, (get_or cs i no_node).ip)
      | none ↦
          (record s { round_robin_counter = counter }, take_turn cs (counter % (1 + length cs)))
    ]

-- The first `min(len, MAX_PAYLOAD)` bytes are written over what the slot held.
abbrev pub fill_payload : List ℕ → List ℕ → List ℕ
fill_payload bytes old =
    let len = (if ltb max_payload (length bytes) then max_payload else length bytes) in
    take len bytes ++ drop len old

abbrev pub fresh_job : ℕ → JobType → List ℕ → ℕ → ℕ → Job → Job
fresh_job id kind bytes target ticks old = record {
  id = id;
  kind = kind;
  status = pending;
  result = 0;
  target_ip = target;
  submitted_at = ticks;
  completed_at = 0;
  payload = fill_payload bytes old.payload;
  payload_len = length bytes;
}

-- The slot that it returns is `history_write` as it was.
pub record_job : DJob → ℕ → JobType → List ℕ → ℕ → ℕ → DJob
record_job s id kind bytes target ticks =
    record (update s s.history_write (fresh_job id kind bytes target ticks)) {
      history_write = (s.history_write + 1) % max_history;
      history_count =
          if ltb s.history_count max_history then s.history_count + 1 else s.history_count;
    }

-- `find_job`; `none` is null.
pub find_job : DJob → ℕ → Option ℕ
find_job s id = find_index (λ (j : Job). (j.id == id) && not (j.id == 0)) s.history

pub get_job : DJob → ℕ → Option Job
unfolding find_job
get_job s id = Option.map (job s) (find_job s id)

abbrev pub complete : ℕ → ℕ → Job → Job
complete result ticks j = record j { status = completed; result = result; completed_at = ticks }

module _ (send : ℕ → JobType → List ℕ → Bool) where
  -- `submit` from the choice of the target on: `ticks` at the start and `done` after the execution.
  -- `none` means that the fuel of `execute` ran out.
  pub dispatch : ℕ → ℕ → JobType → List ℕ → ℕ → ℕ → DJob → ℕ → Option (DJob × ℕ)
  unfolding record_job
  dispatch fuel id kind bytes ticks done t target =
      let r = record_job t id kind bytes target ticks in
      if target == 0
      then Option.map (λ v. (update r t.history_write (complete v done), id))
          (execute fuel kind bytes)
      else let status = (if send target kind bytes then running else failed) in
        some (update r t.history_write (λ j. record j { status = status }), id)

  -- The state and the job's id.
  pub submit : ℕ → DJob → JobType → List ℕ → ℕ → ℕ → ℕ → Option (DJob × ℕ)
  unfolding pick_target dispatch
  submit fuel s kind bytes local_load ticks done =
      if not s.initialized
      then some (s, 0)
      else let numbered = record s { next_job_id = add32 s.next_job_id 1 } in
        let p = pick_target numbered ticks local_load in
        dispatch fuel s.next_job_id kind bytes ticks done p.0 p.1

pub on_remote_result : DJob → ℕ → ℕ → ℕ → DJob
unfolding find_job
on_remote_result s job_id result ticks = elim (find_job s job_id) [
  | none ↦ s
  | some i ↦ if is_running (job s i).status then update s i (complete result ticks) else s
]

pub update_node_load : DJob → ℕ → ℕ → ℕ → DJob
update_node_load s ip task_count ticks =
    elim (find_index (λ (n : NodeLoad). n.valid && (n.ip == ip)) s.node_loads) [
      | some i ↦ record s {
        node_loads =
            modify no_node s.node_loads i
              (λ n. record n { task_count = task_count; last_updated = ticks });
      }
      | none ↦ elim (find_index (λ (n : NodeLoad). not n.valid) s.node_loads) [
        | some i ↦ record s {
          node_loads = modify no_node s.node_loads i (λ _. record {
            ip = ip;
            task_count = task_count;
            last_updated = ticks;
            valid = true;
          });
        }
        | none ↦ s
      ]
    ]

-- The slot that is `i` places on from the next one to write.
abbrev pub slot_at : DJob → ℕ → ℕ
slot_at s i = (s.history_write + i) % max_history

-- The loop of `get_last_completed`, for the `n` places below `n`, from the newest to the oldest.
pub last_completed : DJob → ℕ → Option ℕ
last_completed s zero = none
last_completed s (suc i) =
    let j = job s (slot_at s i) in
    let rest = last_completed s i in
    if not (j.id == 0) && is_completed j.status then some (slot_at s i) else rest

pub get_last_completed : DJob → Option Job
unfolding last_completed
get_last_completed s = Option.map (job s) (last_completed s max_history)

pub get_history : DJob → ℕ → Option Job
get_history s idx =
    if leb s.history_count idx
    then none
    else if ltb s.history_count max_history
    then some (job s idx)
    else some (job s (slot_at s idx))
