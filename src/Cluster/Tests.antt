-- ===== src/Cluster/Tests.antt =====
-- The theorems about the cluster at concrete nodes, and runs of its operations.
use quillos.Prelude.{
  text_of, ℕ, ◌≡◌, refl, Bool, true, none, some, List, [], ◌∷◌, ◌++◌, arith, length, get_or,
  replicate, ltb, passes_below, passes_below_lem, Bool-cases, inl, inr, get_or-out,
}
use quillos.Utils.{itoa, digits, copy_back}
use quillos.Jobs.Execute.{execute}
use quillos.Jobs.Bounds.{IsBytes}
use quillos.Network.{Net, Dispatch, no_arp, no_binding, arp_lookup, destination, process_packet}
use quillos.Cluster.Types.{no_node, Cluster, zeroed, call_send_udp, call_on_remote_result}
use quillos.Cluster.{
  job_type_of, add_or_update_peer, handle_event, cluster_udp_handler, expire_count, expire_peers,
  heartbeat, init, result_message, submit_job, nth_active, get_peer,
}
use quillos.Cluster.Peers.{IsValid}
use quillos.Cluster.Reaching.{loads, steps, starts, handles, beats, Traced-IsValid}
use quillos.Cluster.Exchange.{submit_job-cluster_udp_handler}

-- 10.0.0.2, which knows the hardware address of 10.0.0.3.
abbrev near : Net
near = record {
  our_mac = 0x52 ∷ 0x54 ∷ 0 ∷ 0 ∷ 0 ∷ 2 ∷ [];
  our_ip = 0x0200000a;
  net_ready = true;
  pkts_sent = 0;
  pkts_recv = 0;
  arp_table =
      record { ip = 0x0300000a; mac = 0x52 ∷ 0x54 ∷ 0 ∷ 0 ∷ 0 ∷ 3 ∷ []; valid = true }
      ∷ replicate 15 no_arp;
  udp_handlers = replicate 8 no_binding;
  ip_id = 1;
}

-- 10.0.0.3, with the cluster's handler.
abbrev far : Net
far = record near {
  our_mac = 0x52 ∷ 0x54 ∷ 0 ∷ 0 ∷ 0 ∷ 3 ∷ [];
  our_ip = 0x0300000a;
  udp_handlers = record { port = 9000; handler = 0x7000 } ∷ replicate 7 no_binding;
}

-- The cluster of 10.0.0.2 after its set-up.
abbrev started : Cluster
started = (init zeroed (some 0x0200000a)).0

abbrev hello : List ℕ
hello = 0x01 ∷ 0 ∷ 5 ∷ 0 ∷ b'n' ∷ b'o' ∷ b'd' ∷ b'e' ∷ b'3' ∷ []

abbrev met : Cluster
met = add_or_update_peer started 100 0x0300000a (b'n' ∷ b'o' ∷ b'd' ∷ b'e' ∷ b'3' ∷ [])

-- A peer's discovery is answered with this node's name.
hello_run :
    cluster_udp_handler 0 started 100 0x0300000a (hello ++ (9 ∷ 9 ∷ [])) 9
    ≡ some (
      met,
      call_send_udp 0x0300000a (0x02 ∷ 0 ∷ 5 ∷ 0 ∷ b'n' ∷ b'o' ∷ b'd' ∷ b'e' ∷ b'2' ∷ []) ∷ [],
    )
unfolding cluster_udp_handler handle_event add_or_update_peer text_of init itoa digits copy_back
hello_run = refl

-- The peer expires after 10 seconds.
expiry_run :
    ((expire_peers met 10100).peer_count ≡ 1)
    × ((expire_peers met 10101).peer_count ≡ 0)
    × (get_peer met 0 ≡ some (get_or met.peers 0 no_node))
    × (get_peer (expire_peers met 10101) 0 ≡ none)
unfolding add_or_update_peer init expire_peers expire_count get_peer nth_active
expiry_run = (refl, refl, refl, refl)

Traced-IsValid_example : IsValid (heartbeat met 20000 3).0
Traced-IsValid_example = Traced-IsValid (
    steps
      (steps (steps loads (starts (some 0x0200000a)))
        (handles 0 100 0x0300000a (hello ++ (9 ∷ 9 ∷ [])) 9 _ hello_run))
      (beats 20000 3))

abbrev takes_all : List ℕ → Bool
takes_all frame = true

-- The words 7 and 258.
abbrev two_words : List ℕ
two_words = 7 ∷ 0 ∷ 0 ∷ 0 ∷ 2 ∷ 1 ∷ 0 ∷ 0 ∷ []

two_words-IsBytes : IsBytes two_words
unfolding passes_below
two_words-IsBytes i = elim (Bool-cases (ltb i 8)) [
  | inl h ↦
      let p = passes_below_lem 8 i (λ i. ltb (get_or two_words i 0) 256) (ground (arith, h)) refl in
      ground (arith, p)
  | inr h ↦ let out = get_or-out two_words i 0 (ground (arith, h)) in omega (arith, out)
]

known_run : destination takes_all near 0x0300000a ≡ some (0x52 ∷ 0x54 ∷ 0 ∷ 0 ∷ 0 ∷ 3 ∷ [])
unfolding arp_lookup
known_run = refl

abbrev ready : Cluster
ready = record zeroed { initialized = true; local_ip = 0x0200000a }

submit_job-cluster_udp_handler_example :
    (v : ℕ) × (execute 16 (job_type_of 1) two_words ≡ some v)
    × ((s' : Cluster) × (near' : Net) × (frame : List ℕ) × (d : Dispatch) × (submit_job takes_all
            ready near 0x0300000a 1 two_words
          ≡ some (s', near', frame ∷ [], true))
        × ((process_packet far (frame ++ (9 ∷ [])) (length frame)).2 ≡ some d)
        × (d.handler ≡ 0x7000)
        × (cluster_udp_handler 16 zeroed 70 d.src_ip d.payload d.payload_len
            ≡ some (zeroed, call_send_udp 0x0200000a (result_message 1 v) ∷ []))
        × (cluster_udp_handler 16 s' 90 0x0300000a (result_message 1 v ++ (9 ∷ [])) 12
            ≡ some (
              record s' { last_result = record { job_id = 1; completed = true; result = v } },
              call_on_remote_result 1 v ∷ [],
            )))
submit_job-cluster_udp_handler_example =
    submit_job-cluster_udp_handler takes_all 16 70 90 ready zeroed near far
      (0x52 ∷ 0x54 ∷ 0 ∷ 0 ∷ 0 ∷ 3 ∷ []) two_words (9 ∷ []) (9 ∷ []) 0x0300000a 1 0 refl
      (omega arith) (omega arith) two_words-IsBytes tt (omega arith) refl known_run refl refl
      (omega arith) (omega arith) refl refl
