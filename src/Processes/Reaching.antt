-- ===== src/Processes/Reaching.antt =====
-- kernel/process.cpp: everything that can happen to the process table, as steps between its states, and
-- the invariant along them.
use mathlib.Core.Path.{subst}
use quillos.Prelude.{
  ℕ, zero, suc, ◌≡◌, refl, ap, sym, ◌∙◌, inl, inr, true, false, not, ◌&&◌, Option, none, some, List,
  [], ◌∷◌, arith, length, get_or, map, find_index, find_index-some, get_or-map, get_or-replicate,
  length-map, ◌==◌, Bool-cases, Option-cases, some_eq, >>=-eq-some,
}
use quillos.Scheduler.Types.{Sched, Image}
use quillos.Cluster.Types.{Cluster}
use quillos.Processes.Types.{
  proc_unused, proc_exiting, proc_dead, ProcType, is_unused, is_dead, max_procs, Info, no_proc,
  Processes, zeroed, Entries, Sent,
}
use quillos.Processes.{
  proc, spawn_local, spawn_on, spawn, choose, first_peer, parse_type, init, type_name, is_running,
  on_remote_spawn_request, kill, is_pid, on_remote_kill_request, reclaim, status_report,
}
use quillos.Processes.Table.{IsValid, kept-IsValid, update-IsValid}
use quillos.Processes.Steps.{HasPids, spawn_local-IsValid, spawn_on-IsValid}

choose-IsValid :
    (s : Processes) (o : Option ℕ)
    → IsValid s
    → IsValid (choose s o).0 × ((choose s o).0.next_pid ≡ s.next_pid)
choose-IsValid s none v = (v, refl)
choose-IsValid s (some ip) v = (kept-IsValid s _ v refl refl (λ i on. (on, refl)), refl)

spawn-IsValid :
    (m : Image) (e : Entries) (s : Processes) (sched : Sched) (c : Cluster) (our_ip : ℕ)
    (name : List ℕ) (ticks : ℕ) (r : Processes × Sched × List Sent × ℕ)
    → IsValid s
    → HasPids s
    → spawn m e s sched c our_ip name ticks ≡ some r
    → IsValid r.0
unfolding spawn
spawn-IsValid m e s sched c our_ip name ticks r v b q =
    let chosen = choose s (first_peer c c.peer_count 0) in
    let cv = choose-IsValid s (first_peer c c.peer_count 0) v in
    elim (Bool-cases (not s.initialized)) [
      | inl off ↦ subst IsValid (ap (λ r. r.0) (some_eq (rw off at q))) v
      | inr on ↦ elim (Option-cases (parse_type name)) [
        | inl unknown ↦ subst IsValid (ap (λ r. r.0) (some_eq (rw (on, unknown) at q))) v
        | inr (kind, known) ↦
            spawn_on-IsValid m e chosen.0 sched our_ip name chosen.1 ticks r cv.0
              (omega (arith, b, cv.1)) (rw (on, known) at q)
      ]
    ]

on_remote_spawn_request-IsValid :
    (m : Image) (e : Entries) (s : Processes) (sched : Sched) (from_ip : ℕ) (kind : ProcType)
    (remote_pid ticks : ℕ) (r : Processes × Sched × List Sent)
    → IsValid s
    → HasPids s
    → on_remote_spawn_request m e s sched from_ip kind remote_pid ticks ≡ some r
    → IsValid r.0
unfolding on_remote_spawn_request
on_remote_spawn_request-IsValid m e s sched from_ip kind remote_pid ticks r v b q =
    let out = >>=-eq-some (spawn_local m e s sched kind (type_name kind) from_ip ticks) _ r q in
    subst IsValid (ap (λ r. r.0) (some_eq out.2))
      (spawn_local-IsValid m e s sched kind (type_name kind) from_ip ticks out.0 v b out.1)

-- What `init` makes of an entry.
abbrev cleared : Info → Info
cleared p = record p { state = proc_unused; pid = 0; sched_slot = none }

cleared_lem : (ps : List Info) (i : ℕ) → is_unused (get_or (map cleared ps) i no_proc).state ≡ true
cleared_lem [] i = refl
cleared_lem (p ∷ ps) zero = refl
cleared_lem (p ∷ ps) (suc i) = cleared_lem ps i

init-IsUsable :
    (m : Image) (e : Entries) (s : Processes) (sched : Sched)
    → length s.procs ≡ max_procs
    → IsValid (init m e s sched).0
unfolding init
init-IsUsable m e s sched h = record {
  sized = length-map cleared s.procs ∙ h;
  given = λ i on. let o = cleared_lem s.procs i in absurd (ground (arith, on, o));
  unique = λ i j hi hj e. let o = cleared_lem s.procs i in absurd (ground (arith, hi, o));
}

kill-IsValid : (s : Processes) (sched : Sched) (pid : ℕ) → IsValid s → IsValid (kill s sched pid).0
unfolding kill
kill-IsValid s sched pid v = elim (Option-cases (find_index (is_pid pid) s.procs)) [
  | inl absent ↦ rw absent v
  | inr (i, found) ↦
      let hit = find_index-some (is_pid pid) s.procs i no_proc found in
      let live : is_unused (proc s i).state ≡ false = ground (arith, hit.1) in
      elim (Bool-cases ((proc s i).node_ip == 0)) [
        | inl here ↦
            rw (found, here)
              (update-IsValid s _ i (λ p. record p { state = proc_dead; sched_slot = none }) v refl
                refl hit.0 (λ on. (live, refl)))
        | inr there ↦
            rw (found, there)
              (update-IsValid s _ i (λ p. record p { state = proc_exiting }) v refl refl hit.0
                (λ on. (live, refl)))
      ]
]

on_remote_kill_request-IsValid :
    (s : Processes) (sched : Sched) (pid : ℕ)
    → IsValid s
    → IsValid (on_remote_kill_request s sched pid).0
unfolding on_remote_kill_request
on_remote_kill_request-IsValid s sched pid v =
    let p = λ (p : Info). p.pid == pid && is_running p.state && p.node_ip == 0 in
    elim (Option-cases (find_index p s.procs)) [
      | inl absent ↦ rw absent v
      | inr (i, found) ↦
          let hit = find_index-some p s.procs i no_proc found in
          let live : is_unused (proc s i).state ≡ false = ground (arith, hit.1) in
          rw found (
            update-IsValid s _ i (λ p. record p { state = proc_dead }) v refl refl hit.0
              (λ on. (live, refl)))
    ]

-- What the scan of the table for dead processes makes of an entry.
reclaim_lem :
    (p : Info)
    → is_unused (reclaim p).state ≡ false
    → (is_unused p.state ≡ false) × ((reclaim p).pid ≡ p.pid)
reclaim_lem p on = elim (Bool-cases (is_dead p.state && p.node_ip == 0)) [
  | inl gone ↦ let f : true ≡ false = rw gone at on in cc
  | inr stays ↦ rw stays (rw stays at on, refl)
]

status_report-IsValid : (s : Processes) → IsValid s → IsValid (status_report s)
unfolding status_report
status_report-IsValid s v = kept-IsValid s _ v refl (length-map reclaim s.procs) (λ i on.
    let read = get_or-map reclaim s.procs i no_proc refl in
    let k = reclaim_lem (proc s i) (sym (ap (λ (p : Info). is_unused p.state) read) ∙ on) in
    (k.0, ap (λ (p : Info). p.pid) read ∙ k.1))

-- One thing that happens to the processes. `on_remote_died` and `on_remote_status` are called nowhere.
pub data Step (m : Image) (e : Entries) (s : Processes) : Processes → Type 0 where
  inits : (sched : Sched) → Step m e s (init m e s sched).0
  spawns :
      (sched : Sched) (c : Cluster) (our_ip : ℕ) (name : List ℕ) (ticks : ℕ)
      (r : Processes × Sched × List Sent × ℕ)
      → HasPids s
      → spawn m e s sched c our_ip name ticks ≡ some r
      → Step m e s r.0
  spawns_on :
      (sched : Sched) (our_ip : ℕ) (name : List ℕ) (node_ip ticks : ℕ)
      (r : Processes × Sched × List Sent × ℕ)
      → HasPids s
      → spawn_on m e s sched our_ip name node_ip ticks ≡ some r
      → Step m e s r.0
  hosts :
      (sched : Sched) (from_ip : ℕ) (kind : ProcType) (remote_pid ticks : ℕ)
      (r : Processes × Sched × List Sent)
      → HasPids s
      → on_remote_spawn_request m e s sched from_ip kind remote_pid ticks ≡ some r
      → Step m e s r.0
  kills : (sched : Sched) (pid : ℕ) → Step m e s (kill s sched pid).0
  kills_for_peer : (sched : Sched) (pid : ℕ) → Step m e s (on_remote_kill_request s sched pid).0
  reports : Step m e s (status_report s)

-- The tables that a node can have.
pub data Lived (m : Image) (e : Entries) : Processes → Type 0 where
  loads : Lived m e zeroed
  steps : {s t : Processes} → Lived m e s → Step m e s t → Lived m e t

Step-IsValid : {m : Image} {e : Entries} {s t : Processes} → IsValid s → Step m e s t → IsValid t
Step-IsValid {m = m} {e = e} {s = s} v (inits sched) = init-IsUsable m e s sched v.sized
Step-IsValid {m = m} {e = e} {s = s} v (spawns sched c our_ip name ticks r b q) =
    spawn-IsValid m e s sched c our_ip name ticks r v b q
Step-IsValid {m = m} {e = e} {s = s} v (spawns_on sched our_ip name node_ip ticks r b q) =
    spawn_on-IsValid m e s sched our_ip name node_ip ticks r v b q
Step-IsValid {m = m} {e = e} {s = s} v (hosts sched from_ip kind remote_pid ticks r b q) =
    on_remote_spawn_request-IsValid m e s sched from_ip kind remote_pid ticks r v b q
Step-IsValid {s = s} v (kills sched pid) = kill-IsValid s sched pid v
Step-IsValid {s = s} v (kills_for_peer sched pid) = on_remote_kill_request-IsValid s sched pid v
Step-IsValid {s = s} v reports = status_report-IsValid s v

zeroed-IsUsable : IsValid zeroed
zeroed-IsUsable =
    let off : (i : ℕ) → is_unused (proc zeroed i).state ≡ true =
      λ i. ap (λ (p : Info). is_unused p.state) (get_or-replicate {A = Info} 16 i no_proc) in
    record {
      sized = refl;
      given = λ i on. let o = off i in absurd (ground (arith, on, o));
      unique = λ i j hi hj e. let o = off i in absurd (ground (arith, hi, o));
    }

-- In every table that a node reaches by its set-up, spawns here and on other nodes, spawns and kills
-- for peers, kills and the scan for dead processes, before the pids wrap around, no two entries in use
-- have the same pid, and every pid in use has been given out.
pub Lived-IsValid : {m : Image} {e : Entries} {s : Processes} → Lived m e s → IsValid s
Lived-IsValid loads = zeroed-IsUsable
Lived-IsValid (steps h step) = Step-IsValid (Lived-IsValid h) step
