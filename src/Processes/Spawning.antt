-- ===== src/Processes/Spawning.antt =====
-- kernel/process.cpp: a process that `spawn_local` starts, in the scheduler and in the table, until it
-- is killed.
use quillos.Prelude.{
  ℕ, ◌<◌, ◌≡◌, ◌≢◌, refl, ap, sym, ◌∙◌, inl, inr, Bool, true, false, Option, none, some, List,
  arith, length, get_or, find_index, find_index-some, find_index-none, modify, modify-cases,
  length-modify, ◌==◌, leb, Bool-cases, Option-cases, some_eq,
}
use mathlib.Core.Option
use quillos.Scheduler.Types.{Sched, Image}
use quillos.Scheduler.{create_task, kill_task}
use quillos.Utils.{itoa}
use quillos.Processes.Types.{ProcType, is_unused, Info, no_proc, Processes, Entries}
use quillos.Processes.{
  proc, update, find_free, local_info, end_spawn, placed, get_entry, full_name, spawn_local, is_pid,
  has_pid, find_pid, kill, kill_found, kill_slot,
}
use quillos.Processes.Table.{IsValid}
use quillos.Processes.Steps.{HasPids, found_free, spawn_local-IsValid}

-- The entry of a process that runs as the scheduler's task `k`.
abbrev pub running_as : ℕ → Info → Info
running_as k p = record p { sched_slot = some k }

-- A search by pid in a valid table finds the one entry in use that has the pid.
find_index-pid :
    (t : Processes) (slot pid : ℕ) (p : Info → Bool)
    → IsValid t
    → slot < length t.procs
    → p (proc t slot) ≡ true
    → ((x : Info) → p x ≡ true → (x.pid ≡ pid) × (is_unused x.state ≡ false))
    → find_index p t.procs ≡ some slot
find_index-pid t slot pid p v h on says = elim (Option-cases (find_index p t.procs)) [
  | inl absent ↦ let miss = find_index-none p t.procs slot no_proc absent h in cc
  | inr (j, found) ↦
      let hit = find_index-some p t.procs j no_proc found in
      let a = says (proc t j) hit.1 in
      let b = says (proc t slot) on in found ∙ ap some (v.unique j slot a.1 b.1 (a.0 ∙ sym b.0))
]

get_or-modify_self :
    (xs : List Info) (i : ℕ) (f : Info → Info)
    → i < length xs
    → get_or (modify no_proc xs i f) i no_proc ≡ f (get_or xs i no_proc)
get_or-modify_self xs i f h = elim (modify-cases no_proc xs i i f h) [
  | inl (_, e) ↦ e
  | inr (ne, _) ↦ absurd (ne refl)
]

end_spawn_lem :
    (s : Processes) (sched : Sched) (slot given : ℕ) (o : Option ℕ) (t : Processes) (sched' : Sched)
    (pid : ℕ)
    → end_spawn s sched slot given o ≡ (t, sched', pid)
    → pid ≢ 0
    → (k : ℕ) × (o ≡ some k) × (sched ≡ sched') × (pid ≡ given) × (t ≡ update s slot (running_as k))
end_spawn_lem s sched slot given none t sched' pid e ne = absurd (ne (sym (ap (λ r. r.2) e)))
end_spawn_lem s sched slot given (some k) t sched' pid e ne =
    (k, refl, ap (λ r. r.1) e, sym (ap (λ r. r.2) e), sym (ap (λ r. r.0) e))

-- What `spawn_local` has done when it returns a pid: it filled a slot and made a task for it.
spawn_local_lem :
    (m : Image) (e : Entries) (s : Processes) (sched : Sched) (kind : ProcType) (name : List ℕ)
    (owner_ip ticks : ℕ) (t : Processes) (sched' : Sched) (pid : ℕ)
    → spawn_local m e s sched kind name owner_ip ticks ≡ some (t, sched', pid)
    → pid ≢ 0
    → (slot : ℕ) × (k : ℕ) × (create_task m sched
          (some (full_name name s.next_pid))
          (get_entry e kind)
        ≡ (sched', some k))
      × (pid ≡ s.next_pid)
      × (slot < length s.procs)
      × (t ≡ update (placed s kind name owner_ip ticks slot) slot (running_as k))
unfolding spawn_local
spawn_local_lem m e s sched kind name owner_ip ticks t sched' pid q ne =
    elim (Option-cases (find_free s)) [
      | inl full ↦ absurd (ne (sym (ap (λ r. r.2) (some_eq (rw full at q)))))
      | inr (slot, free) ↦ elim (Bool-cases (get_entry e kind == 0)) [
        | inl null ↦ absurd (ne (sym (ap (λ r. r.2) (some_eq (rw (free, null) at q)))))
        | inr entry ↦ elim (Bool-cases (leb 8 (length (itoa s.next_pid)))) [
          | inl long ↦ let f : none ≡ some (t, sched', pid) = rw (free, entry, long) at q in cc
          | inr short ↦
              let made =
                create_task m sched (some (full_name name s.next_pid)) (get_entry e kind) in
              let (k, task, same, is_next, is) =
                end_spawn_lem (placed s kind name owner_ip ticks slot) made.0 slot s.next_pid made.1
                  t sched' pid (some_eq (rw (free, entry, short) at q)) ne in
              (
                slot,
                k,
                ap (λ a. (a, made.1)) same ∙ ap (λ b. (sched', b)) task,
                is_next,
                found_free s slot free,
                is,
              )
        ]
      ]
    ]

-- When `spawn_local` returns a pid, the scheduler has a new task for the process; `find_pid` finds the
-- process under the pid, running as that task; and `kill` of the pid kills that task, and says so.
pub spawn_local-find_pid :
    (m : Image) (e : Entries) (s : Processes) (sched : Sched) (kind : ProcType) (name : List ℕ)
    (owner_ip ticks : ℕ) (t : Processes) (sched' : Sched) (pid : ℕ)
    → IsValid s
    → HasPids s
    → spawn_local m e s sched kind name owner_ip ticks ≡ some (t, sched', pid)
    → pid ≢ 0
    → (k : ℕ) × (old : Info) × (create_task m sched (some (full_name name pid)) (get_entry e kind)
        ≡ (sched', some k))
      × (find_pid t pid ≡ some (running_as k (local_info pid kind name owner_ip ticks old)))
      × ((kill t sched' pid).1 ≡ (kill_task sched' k).0)
      × ((kill t sched' pid).3 ≡ true)
unfolding find_pid kill
spawn_local-find_pid m e s sched kind name owner_ip ticks t sched' pid v b q ne =
    let (slot, k, made, is_next, h, is) =
      spawn_local_lem m e s sched kind name owner_ip ticks t sched' pid q ne in
    let vt = spawn_local-IsValid m e s sched kind name owner_ip ticks _ v b q in
    let f = local_info s.next_pid kind name owner_ip ticks in
    let wide = length-modify no_proc s.procs slot f in
    let at : proc t slot ≡ running_as k (local_info pid kind name owner_ip ticks (proc s slot)) =
      ap (λ t. proc t slot) is
      ∙ get_or-modify_self (placed s kind name owner_ip ticks slot).procs slot (running_as k)
          (omega (arith, wide, h))
      ∙ ap (running_as k) (get_or-modify_self s.procs slot f h)
      ∙ ap (λ n. running_as k (local_info n kind name owner_ip ticks (proc s slot)))
          (sym is_next) in
    let inside : slot < length t.procs =
      let w = ap (λ t. length t.procs) is in
      let w' =
        length-modify no_proc (placed s kind name owner_ip ticks slot).procs slot (running_as k) in
      omega (arith, w, w', wide, h) in
    let itself : (pid == pid) ≡ true = ground arith in
    let found =
      find_index-pid t slot pid (has_pid pid) vt inside (ap (has_pid pid) at ∙ rw itself refl)
        (λ x on. (ground (arith, on), ground (arith, on))) in
    let live =
      find_index-pid t slot pid (is_pid pid) vt inside (ap (is_pid pid) at ∙ rw itself refl)
        (λ x on. (ground (arith, on), ground (arith, on))) in
    let here : ((proc t slot).node_ip == 0) ≡ true = ap (λ (p : Info). p.node_ip == 0) at in
    let slot_is : (proc t slot).sched_slot ≡ some k = ap (λ (p : Info). p.sched_slot) at in
    (
      k,
      proc s slot,
      ap (λ n. create_task m sched (some (full_name name n)) (get_entry e kind)) is_next ∙ made,
      ap (Option.map (proc t)) found ∙ ap some at,
      ap (λ o. (kill_found t sched' pid o).1) live ∙ rw here (ap (kill_slot sched') slot_is),
      ap (λ o. (kill_found t sched' pid o).3) live ∙ rw here refl,
    )
