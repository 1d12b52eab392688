-- ===== src/Cluster/Exchange.antt =====
-- kernel/cluster.cpp over network.cpp: a job for a peer on its way there, and its result on the way
-- back.
use quillos.Prelude.{
  ℕ, ◌+◌, ◌-◌, ◌≤◌, ◌<◌, ◌≡◌, refl, ap, ◌∙◌, Bool, true, false, some, List, [], ◌∷◌, ◌++◌, arith,
  length, get_or, take, find_index, ltb, add32, u32_mod, take_length,
}
use quillos.Jobs.Execute.{execute}
use quillos.Jobs.Ending.{IsFinite, job_rounds, execute-ends}
use quillos.Jobs.Bounds.{IsBytes, execute-lt}
use quillos.Network.Wire.{load16, load32, store32}
use quillos.Network.{Net, Dispatch, no_binding, takes_port, is_for_us, process_packet, destination}
use quillos.Network.Delivery.{call_of, send_udp-known, process_packet-send_to}
use quillos.Cluster.Types.{Cluster, cluster_port, call_send_udp, call_on_remote_result}
use quillos.Cluster.{
  job_type_of, result_message, job_message, execute_job, handle_event, cluster_udp_handler,
  submit_job,
}

-- A number is what its four bytes say.
load32-store32 : (x : ℕ) (rest : List ℕ) → x < u32_mod → load32 (store32 x ++ rest) 0 ≡ x
load32-store32 x rest h = omega arith

execute_job_lem :
    (fuel src_ip job_id job_type v : ℕ) (bytes rest : List ℕ)
    → job_id < u32_mod
    → execute fuel (job_type_of job_type) bytes ≡ some v
    → execute_job fuel src_ip (store32 job_id ++ (job_type ∷ (bytes ++ rest))) (5 + length bytes)
      ≡ some (call_send_udp src_ip (result_message job_id v) ∷ [])
unfolding execute_job
execute_job_lem fuel src_ip job_id job_type v bytes rest hi e =
    let long : ltb (5 + length bytes) 5 ≡ false = ground arith in
    let cut : take (5 + length bytes - 5) (bytes ++ rest) ≡ bytes =
      ap (λ k. take k (bytes ++ rest)) (omega arith) ∙ take_length bytes rest in
    let id = load32-store32 job_id (job_type ∷ (bytes ++ rest)) hi in
    rw (long, cut, e) (ap (λ i. some (call_send_udp src_ip (result_message i v) ∷ [])) id)

-- A peer that gets a job runs it and sends the result back.
handle_job :
    (fuel : ℕ) (t : Cluster) (ticks src_ip job_id job_type v : ℕ) (bytes rest : List ℕ)
    → job_id < u32_mod
    → length bytes ≤ 240
    → execute fuel (job_type_of job_type) bytes ≡ some v
    → cluster_udp_handler fuel t ticks src_ip
        (job_message job_id job_type bytes ++ rest)
        (length (job_message job_id job_type bytes))
      ≡ some (t, call_send_udp src_ip (result_message job_id v) ∷ [])
unfolding cluster_udp_handler
handle_job fuel t ticks src_ip job_id job_type v bytes rest hi hl e =
    let msg = job_message job_id job_type bytes in
    let long : ltb (length msg) 4 ≡ false = ground arith in
    let said : load16 (msg ++ rest) 2 ≡ 5 + length bytes = omega arith in
    let fits : ltb (length msg - 4) (5 + length bytes) ≡ false = ground arith in
    let ran = execute_job_lem fuel src_ip job_id job_type v bytes rest hi e in
    rw (long, said, fits, ran) refl

-- The result is filed under the job's id.
handle_result :
    (fuel : ℕ) (s : Cluster) (ticks src_ip job_id v : ℕ) (rest : List ℕ)
    → job_id < u32_mod
    → v < u32_mod
    → cluster_udp_handler fuel s ticks src_ip
        (result_message job_id v ++ rest)
        (length (result_message job_id v))
      ≡ some (
        record s { last_result = record { job_id = job_id; completed = true; result = v } },
        call_on_remote_result job_id v ∷ [],
      )
unfolding cluster_udp_handler handle_event
handle_result fuel s ticks src_ip job_id v rest hi hv =
    let id = load32-store32 job_id (store32 v ++ rest) hi in
    let result = load32-store32 v rest hv in
    ap
      (λ i. some (
        record s {
          last_result = record {
            job_id = i;
            completed = true;
            result = load32 (store32 v ++ rest) 0;
          };
        },
        call_on_remote_result i (load32 (store32 v ++ rest) 0) ∷ [],
      ))
      id
    ∙ ap
        (λ r. some (
          record s { last_result = record { job_id = job_id; completed = true; result = r } },
          call_on_remote_result job_id r ∷ [],
        ))
        result

-- A node that knows the hardware address of a peer submits a job of at most 240 bytes other than a
-- search for primes up to 2^32 - 1 (which never ends): it hands the card one frame; the peer, having it
-- in its receive buffer, calls the handler of the cluster's port, which with enough fuel runs the job to
-- its end and sends the result to the submitter; and the submitter, getting that, files the result under
-- the id that it gave the job.
pub submit_job-cluster_udp_handler :
    (accept : List ℕ → Bool) (fuel ticks ticks' : ℕ) (s t : Cluster) (near far : Net)
    (mac bytes rest rest' : List ℕ) (ip job_type i : ℕ)
    → s.initialized ≡ true
    → s.next_job_id < u32_mod
    → length bytes ≤ 240
    → IsBytes bytes
    → IsFinite (job_type_of job_type) bytes
    → job_rounds bytes ≤ fuel
    → near.net_ready ≡ true
    → destination accept near ip ≡ some mac
    → length mac ≡ 6
    → length near.our_mac ≡ 6
    → near.our_ip < u32_mod
    → ip < u32_mod
    → is_for_us far ip ≡ true
    → find_index (takes_port cluster_port) far.udp_handlers ≡ some i
    → (v : ℕ) × (execute fuel (job_type_of job_type) bytes ≡ some v)
      × ((s' : Cluster) × (near' : Net) × (frame : List ℕ) × (d : Dispatch) × (submit_job accept s
              near ip job_type bytes
            ≡ some (s', near', frame ∷ [], accept frame))
          × ((process_packet far (frame ++ rest) (length frame)).2 ≡ some d)
          × (d.handler ≡ (get_or far.udp_handlers i no_binding).handler)
          × (cluster_udp_handler fuel t ticks d.src_ip d.payload d.payload_len
              ≡ some (t, call_send_udp near.our_ip (result_message s.next_job_id v) ∷ []))
          × (cluster_udp_handler fuel s' ticks' ip
                (result_message s.next_job_id v ++ rest')
                (length (result_message s.next_job_id v))
              ≡ some (
                record s' {
                  last_result = record { job_id = s.next_job_id; completed = true; result = v };
                },
                call_on_remote_result s.next_job_id v ∷ [],
              )))
unfolding submit_job
submit_job-cluster_udp_handler accept fuel ticks ticks' s t near far mac bytes rest rest' ip
      job_type i started hi hl hb fin enough ready known hm ho hs hd us bound =
    let (v, e) = execute-ends fuel (job_type_of job_type) bytes fin enough in
    let msg = job_message s.next_job_id job_type bytes in
    let small : ltb 240 (length bytes) ≡ false = ground arith in
    let short : length msg ≤ 2006 = omega arith in
    let sent =
      process_packet-send_to accept near far mac msg rest ip cluster_port cluster_port i hm ho hs hd
        (omega arith) (omega arith) short us bound in
    let resolved = send_udp-known accept near mac msg ip cluster_port cluster_port ready known in
    let s' = record s {
      next_job_id = add32 s.next_job_id 1;
      last_result = record s.last_result { completed = false };
    } in
    let hv = execute-lt fuel (job_type_of job_type) bytes v hb (omega arith) e in
    (
      v,
      e,
      (
        s',
        sent.0,
        sent.1,
        call_of (get_or far.udp_handlers i no_binding).handler near.our_ip cluster_port
            (msg ++ rest) (length msg),
        rw (started, small, resolved, sent.2) refl,
        sent.3,
        refl,
        handle_job fuel t ticks near.our_ip s.next_job_id job_type v bytes rest hi hl e,
        handle_result fuel s' ticks' ip s.next_job_id v rest' hi hv,
      ),
    )
