-- ===== src/Jobs/Targets.antt =====
-- kernel/djob.cpp, `pick_target`: which node a job goes to.

use quillos.Prelude.{
  ℕ, ◌+◌, ◌%◌, ◌<◌, ◌≡◌, ◌⊎◌, Bool, true, ◌&&◌, List, length, get_or, ltb, ◌==◌, add32,
  if◌then◌else◌,
}
use quillos.Jobs.Types.{NodeLoad, no_node, DJob}
use quillos.Jobs.{candidates, is_fresh}

-- `node_loads[j]`
abbrev pub node : List NodeLoad → ℕ → NodeLoad
node ns j = get_or ns j no_node

-- Is the node fresh, and does it have fewer tasks than this one?
abbrev pub is_less_loaded : ℕ → ℕ → NodeLoad → Bool
is_less_loaded ticks local_load n = is_fresh ticks n && ltb n.task_count local_load

-- The turns: of this node and its `n` fresh peers, the one that the advanced counter names.
abbrev pub turn : DJob → ℕ → ℕ
turn s n = add32 s.round_robin_counter 1 % (1 + n)

-- The job goes to the node whose turn it is, 0 for this one and k + 1 for the fresh node number k of the
-- table, and with some fresh node the counter moves on.
abbrev pub TakesTurn : DJob → ℕ → DJob × ℕ → Type 0
TakesTurn s ticks r =
    let cs = candidates ticks s.node_loads in
    (r.0.round_robin_counter
      ≡ (if length cs == 0 then s.round_robin_counter else add32 s.round_robin_counter 1))
    × (((turn s (length cs) ≡ 0) × (r.1 ≡ 0))
        ⊎ ((k : ℕ) × (k < length cs)
            × (turn s (length cs) ≡ k + 1)
            × (r.1 ≡ (node cs k).ip)
            × ((j : ℕ) × (is_fresh ticks (node s.node_loads j) ≡ true)
                × (node cs k ≡ node s.node_loads j))))
