-- ===== src/Processes/Steps.antt =====
-- kernel/process.cpp: spawning here and on other nodes, and the invariant of the process table.
use mathlib.Core.Path.{subst}
use quillos.Prelude.{
  ℕ, ◌+◌, ◌<◌, ◌≡◌, refl, ap, inl, inr, true, false, not, ◌||◌, Option, none, some, List, arith,
  length, find_index-some, length-modify, ◌==◌, leb, Bool-cases, Option-cases, u32_mod, some_eq,
  >>=-eq-some,
}
use quillos.Scheduler.Types.{Sched, Image}
use quillos.Scheduler.{create_task}
use quillos.Utils.{itoa}
use quillos.Processes.Types.{proc_unused, ProcType, no_proc, Processes, Entries, Sent}
use quillos.Processes.{
  is_free, find_free, local_info, end_spawn, placed, remote_info, get_entry, full_name, spawn_local,
  spawn_on, parse_type,
}
use quillos.Processes.Table.{IsValid, update-IsValid, fresh-IsValid}

-- The pids have not wrapped around.
abbrev pub HasPids : Processes → Type 0
HasPids s = s.next_pid + 1 < u32_mod

pub found_free : (s : Processes) (i : ℕ) → find_free s ≡ some i → i < length s.procs
unfolding find_free
found_free s i e = (find_index-some is_free s.procs i no_proc e).0

end_spawn-IsValid :
    (s : Processes) (sched : Sched) (slot pid : ℕ) (o : Option ℕ)
    → IsValid s
    → slot < length s.procs
    → IsValid (end_spawn s sched slot pid o).0
end_spawn-IsValid s sched slot pid none v h =
    update-IsValid s _ slot (λ p. record p { state = proc_unused }) v refl refl h
      (λ (on : true ≡ false). absurd (ground (arith, on)))
end_spawn-IsValid s sched slot pid (some k) v h =
    update-IsValid s _ slot (λ p. record p { sched_slot = some k }) v refl refl h (λ on. (on, refl))

pub spawn_local-IsValid :
    (m : Image) (e : Entries) (s : Processes) (sched : Sched) (kind : ProcType) (name : List ℕ)
    (owner_ip ticks : ℕ) (r : Processes × Sched × ℕ)
    → IsValid s
    → HasPids s
    → spawn_local m e s sched kind name owner_ip ticks ≡ some r
    → IsValid r.0
unfolding spawn_local
spawn_local-IsValid m e s sched kind name owner_ip ticks r v b q =
    elim (Option-cases (find_free s)) [
      | inl full ↦ subst IsValid (ap (λ r. r.0) (some_eq (rw full at q))) v
      | inr (slot, free) ↦ elim (Bool-cases (get_entry e kind == 0)) [
        | inl null ↦ subst IsValid (ap (λ r. r.0) (some_eq (rw (free, null) at q))) v
        | inr entry ↦ elim (Bool-cases (leb 8 (length (itoa s.next_pid)))) [
          | inl long ↦ let f : none ≡ some r = rw (free, entry, long) at q in cc
          | inr short ↦
              let made =
                create_task m sched (some (full_name name s.next_pid)) (get_entry e kind) in
              let h = found_free s slot free in
              let t = placed s kind name owner_ip ticks slot in
              let fresh : IsValid t =
                fresh-IsValid s t slot (local_info s.next_pid kind name owner_ip ticks) v b refl
                  refl h refl in
              let wide =
                length-modify no_proc s.procs slot
                  (local_info s.next_pid kind name owner_ip ticks) in
              subst IsValid (ap (λ r. r.0) (some_eq (rw (free, entry, short) at q)))
                (end_spawn-IsValid t made.0 slot s.next_pid made.1 fresh (omega (arith, wide, h)))
        ]
      ]
    ]

pub spawn_on-IsValid :
    (m : Image) (e : Entries) (s : Processes) (sched : Sched) (our_ip : ℕ) (name : List ℕ)
    (node_ip ticks : ℕ) (r : Processes × Sched × List Sent × ℕ)
    → IsValid s
    → HasPids s
    → spawn_on m e s sched our_ip name node_ip ticks ≡ some r
    → IsValid r.0
unfolding spawn_on
spawn_on-IsValid m e s sched our_ip name node_ip ticks r v b q =
    elim (Bool-cases (not s.initialized)) [
      | inl off ↦ subst IsValid (ap (λ r. r.0) (some_eq (rw off at q))) v
      | inr on ↦ elim (Option-cases (parse_type name)) [
        | inl unknown ↦ subst IsValid (ap (λ r. r.0) (some_eq (rw (on, unknown) at q))) v
        | inr (kind, known) ↦ elim (Bool-cases (node_ip == 0 || node_ip == our_ip)) [
          | inl here ↦
              let out =
                >>=-eq-some (spawn_local m e s sched kind name 0 ticks) _ r
                  (rw (on, known, here) at q) in
              subst IsValid (ap (λ r. r.0) (some_eq out.2))
                (spawn_local-IsValid m e s sched kind name 0 ticks out.0 v b out.1)
          | inr there ↦ elim (Option-cases (find_free s)) [
            | inl full ↦
                subst IsValid (ap (λ r. r.0) (some_eq (rw (on, known, there, full) at q))) v
            | inr (slot, free) ↦
                subst IsValid (ap (λ r. r.0) (some_eq (rw (on, known, there, free) at q))) (
                  fresh-IsValid s _ slot (remote_info s.next_pid kind name node_ip our_ip ticks) v b
                    refl refl (found_free s slot free) refl)
          ]
        ]
      ]
    ]
