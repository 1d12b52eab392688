-- ===== src/Cluster.antt =====
-- kernel/cluster.cpp: the peers of this node, the messages between the nodes, jobs for peers.
--
-- A text is the list of its bytes before the null byte. `ticks` is an argument of the calls that read
-- it, and stays the same during one of them. Calls of other components are listed in their order as
-- `Call`s; a message is the list of the bytes from its start on, with what lies behind it in the
-- receive buffer. `none` means that the fuel of `Jobs.execute` ran out. The console log is left out.
pub mod Types
pub mod Peers
pub mod Reaching
pub mod Exchange
mod Tests
use Prim.Native.Nat.{bit_or}
use quillos.Prelude.{
  ℕ, zero, suc, ◌+◌, ◌-◌, ◌/◌, ◌%◌, ◌^◌, ◌<◌, ◌≡◌, Bool, true, false, not, ◌&&◌, ◌||◌, Option, none,
  some, List, [], ◌∷◌, ◌++◌, map, length, get_or, take, drop, find_index, modify, ltb, leb, ◌==◌,
  if◌then◌else◌, add32, sub64, ◌>>=◌, ◌>>◌, text_of,
}
use quillos.Utils.{itoa}
use quillos.Jobs.Types.{JobType, job_sum, job_product, job_max, job_prime, job_echo, other}
use quillos.Jobs.Execute.{execute}
use quillos.Network.Wire.{load16, load32, store32, htonl}
use quillos.Network.{Net, send_udp}
use Types.{
  Node, no_node, JobResult, Cluster, zeroed, cluster_port, Call, call_send_udp,
  call_on_remote_result, call_update_node_load, call_on_remote_spawn_request,
  call_on_remote_spawned, call_on_remote_kill_request, call_register_udp_handler, call_create_task,
}

abbrev pub is_peer : ℕ → Node → Bool
is_peer ip p = p.active && p.ip == ip

-- `str_copy` into a name's 16 bytes is `take 15`.
abbrev pub new_peer : ℕ → ℕ → List ℕ → Node → Node
new_peer ip ticks name p = record p {
  ip = ip;
  name = take 15 name;
  last_seen = ticks;
  active = true;
}

-- The two searches of `add_or_update_peer` give the two slots.
abbrev pub add_peer : Cluster → ℕ → ℕ → List ℕ → Option ℕ → Cluster
add_peer s ticks ip name none = s
add_peer s ticks ip name (some i) = record s {
  peers = modify no_node s.peers i (new_peer ip ticks name);
  peer_count = add32 s.peer_count 1;
}

abbrev pub update_peer : Cluster → ℕ → ℕ → List ℕ → Option ℕ → Cluster
update_peer s ticks ip name none =
    add_peer s ticks ip name (find_index (λ (p : Node). not p.active) s.peers)
update_peer s ticks ip name (some i) = record s {
  peers = modify no_node s.peers i (λ p. record p { last_seen = ticks });
}

pub add_or_update_peer : Cluster → ℕ → ℕ → List ℕ → Cluster
add_or_update_peer s ticks ip name =
    if ip == s.local_ip then s else update_peer s ticks ip name (find_index (is_peer ip) s.peers)

-- The cast of a byte to `Jobs::Type`.
abbrev pub job_type_of : ℕ → JobType
job_type_of byte =
    if byte == 1
    then job_sum
    else if byte == 2
    then job_product
    else if byte == 3
    then job_max
    else if byte == 4
    then job_prime
    else if byte == 5
    then job_echo
    else other byte

-- The reply of `execute_job`.
abbrev pub result_message : ℕ → ℕ → List ℕ
result_message job_id result = 0x04 ∷ 0 ∷ 8 ∷ 0 ∷ (store32 job_id ++ store32 result)

pub execute_job : ℕ → ℕ → List ℕ → ℕ → Option (List Call)
execute_job fuel src_ip bytes len = if ltb len 5 then some [] else do
  result ← execute fuel (job_type_of (get_or bytes 4 0)) (take (len - 5) (drop 5 bytes))
  some (call_send_udp src_ip (result_message (load32 bytes 0) result) ∷ [])

-- The name in a message: `char name[16]`, zeroed, and at most 15 bytes of the payload.
abbrev pub peer_name : List ℕ → ℕ → List ℕ
peer_name payload payload_len =
    text_of (take (if ltb payload_len 15 then payload_len else 15) payload)

-- Both messages of the discovery: the type, the length and at most 15 bytes of this node's name.
abbrev pub name_message : ℕ → Cluster → List ℕ
name_message kind s = kind ∷ 0 ∷ length (take 15 s.local_name) ∷ 0 ∷ take 15 s.local_name

-- The branches of `cluster_udp_handler` that do not run a job, on a payload and its length.
pub handle_event : Cluster → ℕ → ℕ → ℕ → List ℕ → ℕ → Cluster × List Call
unfolding add_or_update_peer text_of
handle_event s ticks src_ip kind payload payload_len =
    let met = add_or_update_peer s ticks src_ip (peer_name payload payload_len) in
    let rid = load32 payload 0 in
    let rval = load32 payload 4 in
    if kind == 0x01
    then (met, call_send_udp src_ip (name_message 0x02 met) ∷ [])
    else if kind == 0x02
    then (met, [])
    else if kind == 0x04 && leb 8 payload_len
    then (
      record s { last_result = record { job_id = rid; completed = true; result = rval } },
      call_on_remote_result rid rval ∷ [],
    )
    else if kind == 0x05 && leb 4 payload_len
    then (s, call_update_node_load src_ip rid ∷ [])
    else if kind == 0x10 && leb 5 payload_len
    then (s, call_on_remote_spawn_request src_ip (get_or payload 0 0) (load32 payload 1) ∷ [])
    else if kind == 0x11 && leb 8 payload_len
    then (s, call_on_remote_spawned rid src_ip ∷ [])
    else if kind == 0x12 && leb 4 payload_len
    then (s, call_on_remote_kill_request rid ∷ [])
    else (s, [])

pub cluster_udp_handler : ℕ → Cluster → ℕ → ℕ → List ℕ → ℕ → Option (Cluster × List Call)
unfolding execute_job handle_event
cluster_udp_handler fuel s ticks src_ip bytes len =
    let kind = get_or bytes 0 0 in
    let said = load16 bytes 2 in
    let payload_len = (if ltb (len - 4) said then len - 4 else said) in
    if ltb len 4
    then some (s, [])
    else if kind == 0x03
    then execute_job fuel src_ip (drop 4 bytes) payload_len >>= (λ calls. some (s, calls))
    else some (handle_event s ticks src_ip kind (drop 4 bytes) payload_len)

-- `msg` of `send_load_report` for each active peer. The load is `Scheduler::get_count()`.
pub reports : ℕ → List Node → List Call
reports load [] = []
reports load (p ∷ ps) =
    let rest = reports load ps in
    if p.active then call_send_udp p.ip (0x05 ∷ 0 ∷ 4 ∷ 0 ∷ store32 load) ∷ rest else rest

pub send_load_report : Cluster → ℕ → List Call
unfolding reports
send_load_report s load =
    if not s.initialized || s.peer_count == 0 then [] else reports load s.peers

pub send_discover : Cluster → List Call
send_discover s =
    if not s.initialized
    then []
    else call_send_udp (bit_or s.local_ip (htonl 0x000000ff)) (name_message 0x01 s) ∷ []

-- The loop that expires peers: what becomes of them, and of their number.
abbrev pub is_stale : ℕ → Node → Bool
is_stale ticks p = p.active && ltb 10000 (sub64 ticks p.last_seen)

abbrev pub expire_peer : ℕ → Node → Node
expire_peer ticks p = if is_stale ticks p then record p { active = false } else p

pub expire_count : ℕ → ℕ → List Node → ℕ
expire_count ticks count [] = count
expire_count ticks count (p ∷ ps) =
    expire_count ticks (if is_stale ticks p then count - 1 else count) ps

pub expire_peers : Cluster → ℕ → Cluster
unfolding expire_count
expire_peers s ticks = record s {
  peers = map (expire_peer ticks) s.peers;
  peer_count = expire_count ticks s.peer_count s.peers;
}

-- One round of `heartbeat_task_entry`.
abbrev pub heartbeat : Cluster → ℕ → ℕ → Cluster × List Call
heartbeat s ticks load = (expire_peers s ticks, send_discover s ++ send_load_report s load)

abbrev net_poll : List ℕ
net_poll = b'n' ∷ b'e' ∷ b't' ∷ b'-' ∷ b'p' ∷ b'o' ∷ b'l' ∷ b'l' ∷ []

abbrev cluster_hb : List ℕ
cluster_hb = b'c' ∷ b'l' ∷ b'u' ∷ b's' ∷ b't' ∷ b'e' ∷ b'r' ∷ b'-' ∷ b'h' ∷ b'b' ∷ []

-- `init` with what the network tells: `none` if there is none, or its address.
pub init : Cluster → Option ℕ → Cluster × List Call × Bool
init s net =
    let cleared = record s {
      peers = map (λ (p : Node). record p { active = false }) s.peers;
      peer_count = 0;
    } in
    elim net [
      | none ↦ (cleared, [], false)
      | some ip ↦ (
        record cleared {
          local_ip = ip;
          local_name = b'n' ∷ b'o' ∷ b'd' ∷ b'e' ∷ take 11 (itoa (htonl ip % 256));
          initialized = true;
        },
        call_register_udp_handler cluster_port
            ∷ call_create_task net_poll
            ∷ call_create_task cluster_hb
            ∷ [],
        true,
      )
    ]

abbrev pub job_message : ℕ → ℕ → List ℕ → List ℕ
job_message job_id job_type bytes =
    let plen = 5 + length bytes in
    0x03 ∷ 0 ∷ plen % 256 ∷ plen / 256 ∷ (store32 job_id ++ (job_type ∷ bytes))

-- The new states of the cluster and the network, the frames sent, and what the call returns; `none`
-- is a fault of `send_udp`.
pub submit_job :
    (List ℕ → Bool) → Cluster → Net → ℕ → ℕ → List ℕ → Option (Cluster × Net × List (List ℕ) × Bool)
submit_job accept s net target_ip job_type bytes =
    let numbered = record s {
      next_job_id = add32 s.next_job_id 1;
      last_result = record s.last_result { completed = false };
    } in
    if not s.initialized || ltb 240 (length bytes) then some (s, net, [], false) else do
      (sent, frames, ok) ←
          send_udp accept net target_ip cluster_port cluster_port
            (job_message s.next_job_id job_type bytes)
      some (numbered, sent, frames, ok)

-- The loop of `get_peer` from `count` on.
unfoldable pub nth_active : ℕ → ℕ → List Node → Option Node
nth_active idx count [] = none
nth_active idx count (p ∷ ps) =
    let rest = nth_active idx (if p.active then count + 1 else count) ps in
    if p.active && count == idx then some p else rest

unfoldable pub get_peer : Cluster → ℕ → Option Node
unfolding nth_active
get_peer s idx = nth_active idx 0 s.peers
