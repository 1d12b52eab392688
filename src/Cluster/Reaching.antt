-- ===== src/Cluster/Reaching.antt =====
-- kernel/cluster.cpp: everything that can happen to the cluster, and that all of it keeps the invariant
-- of the peers.
use mathlib.Core.Path.{subst}
use quillos.Prelude.{
  some_eq, ℕ, ◌+◌, ◌-◌, ◌≡◌, refl, ap, sym, ◌∙◌, inl, inr, Bool, true, false, not, ◌&&◌, ◌||◌,
  Option, none, some, List, [], ◌∷◌, arith, map, length, get_or, drop, get_or-map, length-map,
  if_both, count_if, one_if, ltb, leb, ◌==◌, if◌then◌else◌, Bool-cases, add32, >>=-eq-some,
}
use quillos.Network.{Net, send_udp}
use quillos.Network.Wire.{load16}
use quillos.Cluster.Types.{Node, no_node, Cluster, zeroed, max_nodes, Call, cluster_port}
use quillos.Cluster.{
  is_peer, peer_name, handle_event, cluster_udp_handler, job_message, is_stale, expire_peer,
  expire_count, expire_peers, heartbeat, init, submit_job, execute_job,
}
use quillos.Cluster.Peers.{
  peer, is_active, IsValid, shrunk-IsValid, same_peers-IsValid, add_or_update_peer-IsValid,
}

handle_event-IsValid :
    (s : Cluster) (ticks src_ip kind : ℕ) (payload : List ℕ) (payload_len : ℕ)
    → IsValid s
    → IsValid (handle_event s ticks src_ip kind payload payload_len).0
unfolding handle_event
handle_event-IsValid s ticks src_ip kind payload payload_len v =
    let P : Cluster × List Call → Type 0 = λ r. IsValid r.0 in
    let met = add_or_update_peer-IsValid s ticks src_ip (peer_name payload payload_len) v in
    if_both P (kind == 0x01) _ _ met (
      if_both P (kind == 0x02) _ _ met (
        if_both P (kind == 0x04 && leb 8 payload_len) _ _ (same_peers-IsValid s _ v refl refl refl)
          (if_both P (kind == 0x05 && leb 4 payload_len) _ _ v (
            if_both P (kind == 0x10 && leb 5 payload_len) _ _ v (
              if_both P (kind == 0x11 && leb 8 payload_len) _ _ v
                (if_both P (kind == 0x12 && leb 4 payload_len) _ _ v v))))))

cluster_udp_handler-IsValid :
    (fuel : ℕ) (s : Cluster) (ticks src_ip : ℕ) (bytes : List ℕ) (len : ℕ) (r : Cluster × List Call)
    → IsValid s
    → cluster_udp_handler fuel s ticks src_ip bytes len ≡ some r
    → IsValid r.0
unfolding cluster_udp_handler
cluster_udp_handler-IsValid fuel s ticks src_ip bytes len r v e =
    let kind = get_or bytes 0 0 in
    let said = load16 bytes 2 in
    let payload_len = (if ltb (len - 4) said then len - 4 else said) in
    let P : Cluster × List Call → Type 0 = λ r. IsValid r.0 in
    elim (Bool-cases (ltb len 4)) [
      | inl short ↦ subst P (some_eq (rw short at e)) v
      | inr whole ↦ elim (Bool-cases (kind == 0x03)) [
        | inl job ↦
            let go = rw (whole, job) at e in
            let ran = >>=-eq-some (execute_job fuel src_ip (drop 4 bytes) payload_len) _ r go in
            subst P (some_eq ran.2) v
        | inr event ↦
            subst P (some_eq (rw (whole, event) at e))
              (handle_event-IsValid s ticks src_ip kind (drop 4 bytes) payload_len v)
      ]
    ]

-- The loop of the count keeps pace with the peers that it makes inactive.
expire_count_lem :
    (ticks k : ℕ) (ps : List Node)
    → expire_count ticks (k + count_if is_active ps) ps
      ≡ k + count_if is_active (map (expire_peer ticks) ps)
unfolding expire_count
expire_count_lem ticks k [] = refl
expire_count_lem ticks k (p ∷ ps) = elim (Bool-cases (is_stale ticks p)) [
  | inl stale ↦
      let was : p.active ≡ true = ground (arith, stale) in
      let n : k + (1 + count_if is_active ps) - 1 ≡ k + count_if is_active ps = omega arith in
      rw (stale, was)
        (ap (λ c. expire_count ticks c ps) n ∙ expire_count_lem ticks k ps ∙ omega arith)
  | inr fresh ↦
      let n : k + (one_if p.active + count_if is_active ps)
          ≡ k + one_if p.active + count_if is_active ps =
        omega arith in
      rw fresh (
        ap (λ c. expire_count ticks c ps) n
        ∙ expire_count_lem ticks (k + one_if p.active) ps
        ∙ omega arith)
]

expire_peer-was :
    (ticks ip : ℕ) (p : Node) → is_peer ip (expire_peer ticks p) ≡ true → is_peer ip p ≡ true
expire_peer-was ticks ip p on = elim (Bool-cases (is_stale ticks p)) [
  | inl stale ↦ let f : false ≡ true = rw stale at on in cc
  | inr fresh ↦ rw fresh at on
]

expire_peers-IsValid : (s : Cluster) (ticks : ℕ) → IsValid s → IsValid (expire_peers s ticks)
unfolding expire_peers
expire_peers-IsValid s ticks v =
    shrunk-IsValid s (expire_peers s ticks) v refl (length-map (expire_peer ticks) s.peers)
      (ap (λ c. expire_count ticks c s.peers) (v.counted ∙ omega arith)
        ∙ expire_count_lem ticks 0 s.peers
        ∙ omega arith)
      (λ i ip on.
        expire_peer-was ticks ip (peer s i)
          (ap (is_peer ip) (sym (get_or-map (expire_peer ticks) s.peers i no_node refl)) ∙ on))

-- A table without active peers.
none_active :
    (ps : List Node) → count_if is_active (map (λ (p : Node). record p { active = false }) ps) ≡ 0
none_active [] = refl
none_active (p ∷ ps) = omega (arith, none_active ps)

cleared-IsValid :
    (s : Cluster)
    → length s.peers ≡ max_nodes
    → (t : Cluster) → t.peers ≡ map (λ (p : Node). record p { active = false }) s.peers
    → t.peer_count ≡ 0
    → IsValid t
cleared-IsValid s h t ps n =
    let f : Node → Node = λ p. record p { active = false } in
    let off : (i ip : ℕ) → is_peer ip (peer t i) ≡ false = λ i ip.
      ap (λ qs. is_peer ip (get_or qs i no_node)) ps
      ∙ ap (is_peer ip) (get_or-map f s.peers i no_node refl) in
    record {
      sized = ap length ps ∙ length-map f s.peers ∙ h;
      counted = n ∙ sym (ap (count_if is_active) ps ∙ none_active s.peers);
      unique = λ i j ip on _. let out = off i ip in absurd (ground (arith, on, out));
      foreign = λ i. off i t.local_ip;
    }

cluster_init-IsValid :
    (s : Cluster) (net : Option ℕ) → length s.peers ≡ max_nodes → IsValid (init s net).0
unfolding init
cluster_init-IsValid s none h = cleared-IsValid s h _ refl refl
cluster_init-IsValid s (some ip) h = cleared-IsValid s h _ refl refl

submit_job-IsValid :
    (accept : List ℕ → Bool) (s t : Cluster) (net net' : Net) (target_ip job_type : ℕ)
    (bytes : List ℕ) (frames : List (List ℕ)) (ok : Bool)
    → IsValid s
    → submit_job accept s net target_ip job_type bytes ≡ some (t, net', frames, ok)
    → IsValid t
unfolding submit_job
submit_job-IsValid accept s t net net' target_ip job_type bytes frames ok v e =
    let numbered = record s {
      next_job_id = add32 s.next_job_id 1;
      last_result = record s.last_result { completed = false };
    } in
    elim (Bool-cases (not s.initialized || ltb 240 (length bytes))) [
      | inl refused ↦ subst IsValid (ap (λ r. r.0) (some_eq (rw refused at e))) v
      | inr sent ↦
          let msg = job_message s.next_job_id job_type bytes in
          let out =
            >>=-eq-some (send_udp accept net target_ip cluster_port cluster_port msg) _
              (t, net', frames, ok) (rw sent at e) in
          subst IsValid (ap (λ r. r.0) (some_eq out.2))
            (same_peers-IsValid s numbered v refl refl refl)
    ]

-- One thing that happens to the cluster: its set-up, a datagram, a round of the heartbeat, a job for a
-- peer.
pub data Step (s : Cluster) : Cluster → Type 0 where
  starts : (net : Option ℕ) → Step s (init s net).0
  handles :
      (fuel ticks src_ip : ℕ) (bytes : List ℕ) (len : ℕ) (r : Cluster × List Call)
      → cluster_udp_handler fuel s ticks src_ip bytes len ≡ some r
      → Step s r.0
  beats : (ticks load : ℕ) → Step s (heartbeat s ticks load).0
  submits :
      (accept : List ℕ → Bool) (net net' : Net) (target_ip job_type : ℕ) (bytes : List ℕ)
      (t : Cluster) (frames : List (List ℕ)) (ok : Bool)
      → submit_job accept s net target_ip job_type bytes ≡ some (t, net', frames, ok)
      → Step s t

-- The states that a node's cluster can be in.
pub data Traced : Cluster → Type 0 where
  loads : Traced zeroed
  steps : {s t : Cluster} → Traced s → Step s t → Traced t

Step-IsValid : {s t : Cluster} → IsValid s → Step s t → IsValid t
Step-IsValid {s = s} v (starts net) = cluster_init-IsValid s net v.sized
Step-IsValid {s = s} v (handles fuel ticks src_ip bytes len r e) =
    cluster_udp_handler-IsValid fuel s ticks src_ip bytes len r v e
Step-IsValid {s = s} v (beats ticks load) = expire_peers-IsValid s ticks v
Step-IsValid {s = s} {t = t} v (submits accept net net' target_ip job_type bytes t' frames ok e) =
    submit_job-IsValid accept s t net net' target_ip job_type bytes frames ok v e

-- In every state that the cluster reaches by its set-up, datagrams, heartbeats and jobs for peers,
-- `peer_count` is the number of the active peers, no two of them have the same address, and none has
-- this node's.
pub Traced-IsValid : {s : Cluster} → Traced s → IsValid s
Traced-IsValid loads = cleared-IsValid zeroed refl zeroed refl refl
Traced-IsValid (steps h step) = Step-IsValid (Traced-IsValid h) step
