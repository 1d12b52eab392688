-- ===== src/Processes/Table.antt =====
-- kernel/process.cpp: the invariant of the process table, and the kinds of change that keep it.

use quillos.Prelude.{
  ℕ, ◌+◌, ◌<◌, ◌≡◌, ◌⊎◌, ap, sym, ◌∙◌, inl, inr, false, arith, length, get_or, modify, modify-cases,
  length-modify, add32, u32_mod,
}
use quillos.Processes.Types.{is_unused, max_procs, Info, no_proc, Processes}
use quillos.Processes.{proc}

-- The table has its size, the pids in use have been given out, and no two entries in use share one.
pub record IsValid (s : Processes) : Type 0 where
  pub sized : length s.procs ≡ max_procs
  pub given : (i : ℕ) → is_unused (proc s i).state ≡ false → (proc s i).pid < s.next_pid
  pub unique :
      (i j : ℕ)
      → is_unused (proc s i).state ≡ false
      → is_unused (proc s j).state ≡ false
      → (proc s i).pid ≡ (proc s j).pid
      → i ≡ j

-- A state whose entries in use were in use before, with the same pids, is valid.
pub kept-IsValid :
    (s t : Processes)
    → IsValid s
    → t.next_pid ≡ s.next_pid
    → length t.procs ≡ length s.procs
    → ((i : ℕ)
        → is_unused (proc t i).state ≡ false
        → (is_unused (proc s i).state ≡ false) × ((proc t i).pid ≡ (proc s i).pid))
    → IsValid t
kept-IsValid s t v next wide was = record {
  sized = wide ∙ v.sized;
  given = λ i on. let o = was i on in omega (arith, o.1, v.given i o.0, next);
  unique = λ i j hi hj e.
      let oi = was i hi in let oj = was j hj in v.unique i j oi.0 oj.0 (sym oi.1 ∙ e ∙ oj.1);
}

-- A change of one entry that neither takes it into use nor changes its pid.
pub update-IsValid :
    (s t : Processes) (i : ℕ) (f : Info → Info)
    → IsValid s
    → t.next_pid ≡ s.next_pid
    → t.procs ≡ modify no_proc s.procs i f
    → i < length s.procs
    → (is_unused (f (proc s i)).state ≡ false
        → (is_unused (proc s i).state ≡ false) × ((f (proc s i)).pid ≡ (proc s i).pid))
    → IsValid t
update-IsValid s t i f v next ps h was =
    kept-IsValid s t v next (ap length ps ∙ length-modify no_proc s.procs i f) (λ j on.
      let read = ap (λ qs. get_or qs j no_proc) ps in
      elim (modify-cases no_proc s.procs i j f h) [
        | inl (z, e) ↦
            let is = read ∙ e in
            let o = was (sym (ap (λ (p : Info). is_unused p.state) is) ∙ on) in
            (
              ap (λ k. is_unused (proc s k).state) z ∙ o.0,
              ap (λ (p : Info). p.pid) is ∙ o.1 ∙ sym (ap (λ k. (proc s k).pid) z),
            )
        | inr (_, e) ↦
            let is = read ∙ e in
            (sym (ap (λ (p : Info). is_unused p.state) is) ∙ on, ap (λ (p : Info). p.pid) is)
      ])

-- A new process with the next pid.
pub fresh-IsValid :
    (s t : Processes) (i : ℕ) (f : Info → Info)
    → IsValid s
    → s.next_pid + 1 < u32_mod
    → t.next_pid ≡ add32 s.next_pid 1
    → t.procs ≡ modify no_proc s.procs i f
    → i < length s.procs
    → (f (proc s i)).pid ≡ s.next_pid
    → IsValid t
fresh-IsValid s t i f v bound next ps h is_next =
    let origin : (j : ℕ)
        → is_unused (proc t j).state ≡ false
        → (j ≡ i) × ((proc t j).pid ≡ s.next_pid)
          ⊎ (is_unused (proc s j).state ≡ false) × ((proc t j).pid ≡ (proc s j).pid) =
      λ j on.
        let read = ap (λ qs. get_or qs j no_proc) ps in
        elim (modify-cases no_proc s.procs i j f h) [
          | inl (z, e) ↦ inl (z, ap (λ (p : Info). p.pid) (read ∙ e) ∙ is_next)
          | inr (_, e) ↦ inr (
            sym (ap (λ (p : Info). is_unused p.state) (read ∙ e)) ∙ on,
            ap (λ (p : Info). p.pid) (read ∙ e),
          )
        ] in
    record {
      sized = ap length ps ∙ length-modify no_proc s.procs i f ∙ v.sized;
      given = λ j on. elim (origin j on) [
        | inl (_, p) ↦ omega (arith, p, next, bound)
        | inr (was, p) ↦ omega (arith, p, next, bound, v.given j was)
      ];
      unique = λ j k hj hk e. elim (origin j hj) [
        | inl (zj, pj) ↦ elim (origin k hk) [
          | inl (zk, pk) ↦ zj ∙ sym zk
          | inr (was, pk) ↦ absurd (omega (arith, e, pj, pk, v.given k was))
        ]
        | inr (was, pj) ↦ elim (origin k hk) [
          | inl (zk, pk) ↦ absurd (omega (arith, e, pj, pk, v.given j was))
          | inr (was', pk) ↦ v.unique j k was was' (sym pj ∙ e ∙ pk)
        ]
      ];
    }
