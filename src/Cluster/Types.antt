-- ===== src/Cluster/Types.antt =====
-- kernel/cluster.h and the variables of cluster.cpp: the peers, the last result, the calls of other
-- components.
use quillos.Prelude.{ℕ, Bool, false, List, [], replicate}

pub record Node : Type 0 where
  pub ip : ℕ
  pub mac : List ℕ
  pub name : List ℕ
  pub last_seen : ℕ
  pub active : Bool

-- A zeroed entry of `peers`.
abbrev pub no_node : Node
no_node = record { ip = 0; mac = replicate 6 0; name = []; last_seen = 0; active = false }

pub record JobResult : Type 0 where
  pub job_id : ℕ
  pub completed : Bool
  pub result : ℕ

-- The variables of namespace `Cluster`.
pub record Cluster : Type 0 where
  pub peers : List Node
  pub peer_count : ℕ
  pub initialized : Bool
  pub local_name : List ℕ
  pub local_ip : ℕ
  pub next_job_id : ℕ
  pub last_result : JobResult

-- The variables before `init`, as the loader sets them.
abbrev pub zeroed : Cluster
zeroed = record {
  peers = replicate 8 no_node;
  peer_count = 0;
  initialized = false;
  local_name = [];
  local_ip = 0;
  next_job_id = 1;
  last_result = record { job_id = 0; completed = false; result = 0 };
}

abbrev pub max_nodes : ℕ
max_nodes = 8

abbrev pub cluster_port : ℕ
cluster_port = 9000

-- A call of another component whose result the cluster does not look at: a datagram between the
-- cluster ports, an event for the jobs or the processes, or a part of the set-up.
pub data Call : Type 0 where
  call_send_udp : (dst_ip : ℕ) → (bytes : List ℕ) → Call
  call_on_remote_result : (job_id : ℕ) → (result : ℕ) → Call
  call_update_node_load : (ip : ℕ) → (task_count : ℕ) → Call
  call_on_remote_spawn_request : (from_ip : ℕ) → (kind : ℕ) → (remote_pid : ℕ) → Call
  call_on_remote_spawned : (pid : ℕ) → (ip : ℕ) → Call
  call_on_remote_kill_request : (pid : ℕ) → Call
  call_register_udp_handler : (port : ℕ) → Call
  call_create_task : (name : List ℕ) → Call
