-- ===== src/Jobs/Types.antt =====
-- kernel/jobs.h and djob.h: the records and the constants of the distributed jobs.
use quillos.Prelude.{ℕ, Bool, true, false, List, replicate}

-- `Type`; a byte from the network may be none of the five.
pub data JobType : Type 0 where
  job_sum job_product job_max job_prime job_echo : JobType
  other : ℕ → JobType

pub data Status : Type 0 where
  pending running completed failed : Status

abbrev pub is_running : Status → Bool
is_running running = true
is_running _ = false

abbrev pub is_completed : Status → Bool
is_completed completed = true
is_completed _ = false

abbrev pub max_payload : ℕ
max_payload = 240

abbrev pub max_nodes : ℕ
max_nodes = 8

abbrev pub max_history : ℕ
max_history = 16

pub record Job : Type 0 where
  pub id : ℕ
  pub kind : JobType
  pub status : Status
  pub result : ℕ
  pub target_ip : ℕ
  pub submitted_at : ℕ
  pub completed_at : ℕ
  pub payload : List ℕ
  pub payload_len : ℕ

-- A zeroed entry of `history`.
abbrev pub no_job : Job
no_job = record {
  id = 0;
  kind = other 0;
  status = pending;
  result = 0;
  target_ip = 0;
  submitted_at = 0;
  completed_at = 0;
  payload = replicate max_payload 0;
  payload_len = 0;
}

pub record NodeLoad : Type 0 where
  pub ip : ℕ
  pub task_count : ℕ
  pub last_updated : ℕ
  pub valid : Bool

abbrev pub no_node : NodeLoad
no_node = record { ip = 0; task_count = 0; last_updated = 0; valid = false }

-- The variables of namespace `DJob`.
pub record DJob : Type 0 where
  pub node_loads : List NodeLoad
  pub history : List Job
  pub history_write : ℕ
  pub history_count : ℕ
  pub next_job_id : ℕ
  pub initialized : Bool
  pub round_robin_counter : ℕ
