-- ===== src/Cluster/Peers.antt =====
-- kernel/cluster.cpp: the invariant of the peers, and that a peer's message keeps it.

use quillos.Prelude.{
  modify-cases, ℕ, ◌+◌, ◌<◌, ◌≡◌, ◌≢◌, ◌⊎◌, refl, ap, sym, ◌∙◌, inl, inr, Bool, true, false, not,
  none, some, List, arith, length, get_or, get_or-out, find_index, find_index-some, find_index-none,
  modify, length-modify, count_if, count_if-set, count_if-le, one_if, ltb, ◌==◌, Bool-cases,
  Option-cases,
}
use quillos.Cluster.Types.{Node, no_node, Cluster, max_nodes}
use quillos.Cluster.{is_peer, new_peer, add_peer, add_or_update_peer}

abbrev pub peer : Cluster → ℕ → Node
peer s i = get_or s.peers i no_node

abbrev pub is_active : Node → Bool
is_active p = p.active

-- The table has its size, `peer_count` is the number of the active peers, no two of them have the same
-- address, and none has this node's.
pub record IsValid (s : Cluster) : Type 0 where
  pub sized : length s.peers ≡ max_nodes
  pub counted : s.peer_count ≡ count_if is_active s.peers
  pub unique :
      (i j : ℕ) (ip : ℕ) → is_peer ip (peer s i) ≡ true → is_peer ip (peer s j) ≡ true → i ≡ j
  pub foreign : (i : ℕ) → is_peer s.local_ip (peer s i) ≡ false

-- A state with no more peers in its slots than a valid one, and with their number, is valid.
pub shrunk-IsValid :
    (s t : Cluster)
    → IsValid s
    → t.local_ip ≡ s.local_ip
    → length t.peers ≡ length s.peers
    → t.peer_count ≡ count_if is_active t.peers
    → ((i ip : ℕ) → is_peer ip (peer t i) ≡ true → is_peer ip (peer s i) ≡ true)
    → IsValid t
shrunk-IsValid s t v same wide counted was = record {
  sized = wide ∙ v.sized;
  counted = counted;
  unique = λ i j ip hi hj. v.unique i j ip (was i ip hi) (was j ip hj);
  foreign = λ i. elim (Bool-cases (is_peer t.local_ip (peer t i))) [
    | inr f ↦ f
    | inl on ↦
        let old = ap (λ ip. is_peer ip (peer s i)) (sym same) ∙ was i t.local_ip on in
        let not_old = v.foreign i in cc
  ];
}

-- The number of active peers after a write.
count_if-put :
    (s : Cluster) (i : ℕ) (f : Node → Node)
    → i < length s.peers
    → count_if is_active (modify no_node s.peers i f) + one_if (peer s i).active
      ≡ count_if is_active s.peers + one_if (f (peer s i)).active
count_if-put s i f h = count_if-set is_active s.peers i (f (peer s i)) no_node h

update_peer-IsValid :
    (s : Cluster) (ticks i : ℕ)
    → IsValid s
    → i < length s.peers
    → IsValid (record s { peers = modify no_node s.peers i (λ p. record p { last_seen = ticks }) })
update_peer-IsValid s ticks i v h =
    let f : Node → Node = λ p. record p { last_seen = ticks } in
    let t = record s { peers = modify no_node s.peers i f } in
    let counted : s.peer_count ≡ count_if is_active t.peers =
      omega (arith, v.counted, count_if-put s i f h) in
    shrunk-IsValid s t v refl (length-modify no_node s.peers i f) counted (λ j ip on.
      elim (modify-cases no_node s.peers i j f h) [
        | inl (z, e) ↦ ap (λ k. is_peer ip (peer s k)) z ∙ sym (ap (is_peer ip) e) ∙ on
        | inr (_, e) ↦ sym (ap (is_peer ip) e) ∙ on
      ])

-- A search that fails says that no slot holds the address.
absent_peer :
    (s : Cluster) (ip j : ℕ)
    → find_index (is_peer ip) s.peers ≡ none
    → is_peer ip (peer s j) ≡ false
absent_peer s ip j absent = elim (Bool-cases (ltb j (length s.peers))) [
  | inl h ↦ find_index-none (is_peer ip) s.peers j no_node absent (ground (arith, h))
  | inr h ↦ let out = get_or-out s.peers j no_node (ground (arith, h)) in rw out refl
]

add_peer-IsValid :
    (s : Cluster) (ticks ip i : ℕ) (name : List ℕ)
    → IsValid s
    → i < length s.peers
    → (ip == s.local_ip) ≡ false
    → find_index (is_peer ip) s.peers ≡ none
    → (peer s i).active ≡ false
    → IsValid (add_peer s ticks ip name (some i))
add_peer-IsValid s ticks ip i name v h other fresh free =
    let f = new_peer ip ticks name in
    let few = count_if-le is_active s.peers in
    let more = count_if-put s i f h in
    let nobody = ap one_if free in
    -- what an active slot of the new table is
    let origin : (j ip' : ℕ)
        → is_peer ip' (get_or (modify no_node s.peers i f) j no_node) ≡ true
        → (j ≡ i) × (ip' ≡ ip) ⊎ (j ≢ i) × (is_peer ip' (peer s j) ≡ true) =
      λ j ip' on. elim (modify-cases no_node s.peers i j f h) [
        | inl (z, e) ↦ inl (z, let at = sym (ap (is_peer ip') e) ∙ on in ground (arith, at))
        | inr (ne, e) ↦ inr (ne, sym (ap (is_peer ip') e) ∙ on)
      ] in
    record {
      sized = length-modify no_node s.peers i f ∙ v.sized;
      counted = omega (arith, v.counted, v.sized, few, more, nobody);
      unique = λ j k ip' hj hk. elim (origin j ip' hj) [
        | inl (zj, ej) ↦ elim (origin k ip' hk) [
          | inl (zk, ek) ↦ zj ∙ sym zk
          | inr (_, was) ↦
              let never = ap (λ a. is_peer a (peer s k)) ej ∙ absent_peer s ip k fresh in cc
        ]
        | inr (_, was) ↦ elim (origin k ip' hk) [
          | inl (zk, ek) ↦
              let never = ap (λ a. is_peer a (peer s j)) ek ∙ absent_peer s ip j fresh in cc
          | inr (_, was') ↦ v.unique j k ip' was was'
        ]
      ];
      foreign = λ j.
          elim (Bool-cases (is_peer s.local_ip (get_or (modify no_node s.peers i f) j no_node))) [
            | inr off ↦ off
            | inl on ↦ elim (origin j s.local_ip on) [
              | inl (_, e) ↦ absurd (ground (arith, e, other))
              | inr (_, was) ↦ let never = v.foreign j in cc
            ]
          ];
    }

pub add_or_update_peer-IsValid :
    (s : Cluster) (ticks ip : ℕ) (name : List ℕ)
    → IsValid s
    → IsValid (add_or_update_peer s ticks ip name)
unfolding add_or_update_peer
add_or_update_peer-IsValid s ticks ip name v = elim (Bool-cases (ip == s.local_ip)) [
  | inl own ↦ rw own v
  | inr other ↦ elim (Option-cases (find_index (is_peer ip) s.peers)) [
    | inr (i, found) ↦
        let hit = find_index-some (is_peer ip) s.peers i no_node found in
        rw (other, found) (update_peer-IsValid s ticks i v hit.0)
    | inl absent ↦ elim (Option-cases (find_index (λ (p : Node). not p.active) s.peers)) [
      | inl full ↦ rw (other, absent, full) v
      | inr (i, free) ↦
          let hit = find_index-some (λ (p : Node). not p.active) s.peers i no_node free in
          rw (other, absent, free)
            (add_peer-IsValid s ticks ip i name v hit.0 other absent (ground (arith, hit.1)))
    ]
  ]
]

-- A state that differs from a valid one outside the peers and this node's address is valid.
pub same_peers-IsValid :
    (s t : Cluster)
    → IsValid s
    → t.local_ip ≡ s.local_ip
    → t.peers ≡ s.peers
    → t.peer_count ≡ s.peer_count
    → IsValid t
same_peers-IsValid s t v ip ps n =
    shrunk-IsValid s t v ip (ap length ps) (n ∙ v.counted ∙ ap (count_if is_active) (sym ps))
      (λ i a on. ap (λ qs. is_peer a (get_or qs i no_node)) (sym ps) ∙ on)
