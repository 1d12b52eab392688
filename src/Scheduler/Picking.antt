-- ===== src/Scheduler/Picking.antt =====
-- kernel/scheduler.cpp, `pick_next`: its loop ends, and which slot it finds.
use quillos.Prelude.{
  ℕ, zero, suc, ◌+◌, ◌%◌, ◌<◌, ◌≡◌, refl, ◌⊎◌, inl, inr, true, false, some, arith, ap, ◌∙◌, ◌==◌,
  Bool-cases,
}
use quillos.Scheduler.Types.{Sched, max_tasks}
use quillos.Scheduler.{is_candidate, next_slot, pick_loop, pick_next}

-- The slot `k` places after `start`, going round.
abbrev pub around : ℕ → ℕ → ℕ
around start k = (start + k) % max_tasks

-- The slot `k` places after the one that follows the current slot.
abbrev pub turn : Sched → ℕ → ℕ
turn s k = around (next_slot s.current_task) k

module _ (s : Sched) (start : ℕ) where
  -- Going round from `start`, `i` is the first candidate, or it is the idle slot and there is none.
  abbrev pub Finds : ℕ → Type 0
  Finds i =
      ((m : ℕ) × (m < max_tasks)
        × (i ≡ around start m)
        × (is_candidate s (around start m) ≡ true)
        × ((n : ℕ) → n < m → is_candidate s (around start n) ≡ false))
      ⊎ ((i ≡ s.idle_task_id) × ((n : ℕ) → n < max_tasks → is_candidate s (around start n) ≡ false))

  none_before_suc :
      (k : ℕ)
      → ((n : ℕ) → n < k → is_candidate s (around start n) ≡ false)
      → is_candidate s (around start k) ≡ false
      → (n : ℕ) → n < suc k
      → is_candidate s (around start n) ≡ false
  none_before_suc k before here n h = elim (Bool-cases (n == k)) [
    | inl e ↦ let e' : n ≡ k = ground arith in rw e' here
    | inr ne ↦ before n (ground arith)
  ]

  -- One round of the loop, on each of its three outcomes.
  pick_loop_hit : (fuel i : ℕ) → is_candidate s i ≡ true → pick_loop (suc fuel) s start i ≡ some i
  unfolding pick_loop
  pick_loop_hit fuel i hit = rw hit refl

  pick_loop_back :
      (fuel i : ℕ)
      → is_candidate s i ≡ false
      → (next_slot i == start) ≡ true
      → pick_loop (suc fuel) s start i ≡ some s.idle_task_id
  unfolding pick_loop
  pick_loop_back fuel i miss back = rw (miss, back) refl

  pick_loop_on :
      (fuel i j : ℕ)
      → is_candidate s i ≡ false
      → (next_slot i == start) ≡ false
      → next_slot i ≡ j
      → pick_loop (suc fuel) s start i ≡ pick_loop fuel s start j
  unfolding pick_loop
  pick_loop_on fuel i j miss on e = rw (miss, on) (ap (pick_loop fuel s start) e)

  pick_loop-Finds :
      (fuel k : ℕ)
      → start < max_tasks
      → k + suc fuel ≡ max_tasks
      → ((n : ℕ) → n < k → is_candidate s (around start n) ≡ false)
      → (i : ℕ) × (pick_loop (suc fuel) s start (around start k) ≡ some i) × Finds i
  pick_loop-Finds zero k hs e before = elim (Bool-cases (is_candidate s (around start k))) [
    | inl hit ↦ (around start k, pick_loop_hit zero _ hit, inl (k, omega arith, refl, hit, before))
    | inr miss ↦
        let all = none_before_suc k before miss in
        let back : (next_slot (around start k) == start) ≡ true = ground arith in
        (s.idle_task_id, pick_loop_back zero _ miss back, inr (refl, λ n h. all n (omega arith)))
  ]
  pick_loop-Finds (suc fuel) k hs e before =
      let rest = pick_loop-Finds fuel (suc k) hs (omega arith) in
      elim (Bool-cases (is_candidate s (around start k))) [
        | inl hit ↦ (
          around start k,
          pick_loop_hit (suc fuel) _ hit,
          inl (k, omega arith, refl, hit, before),
        )
        | inr miss ↦
            let on : (next_slot (around start k) == start) ≡ false = ground arith in
            let step : next_slot (around start k) ≡ around start (suc k) = omega arith in
            let found = rest (none_before_suc k before miss) in
            (found.0, pick_loop_on (suc fuel) _ _ miss on step ∙ found.1, found.2)
      ]

-- `pick_next` finds the first slot after the current one, going round and the idle slot left out,
-- whose task is ready; it gives the idle slot exactly when there is none. Its loop always ends.
pub pick_next-Finds :
    (s : Sched)
    → (i : ℕ) × (pick_loop max_tasks s (next_slot s.current_task) (next_slot s.current_task)
        ≡ some i)
      × (pick_next s ≡ i)
      × Finds s (next_slot s.current_task) i
unfolding pick_next
pick_next-Finds s =
    let start = next_slot s.current_task in
    let found = pick_loop-Finds s start 15 0 (omega arith) refl (λ n h. absurd (omega arith)) in
    let zeroth : around start 0 ≡ start = omega arith in
    let ends : pick_loop 16 s start start ≡ some found.0 = rw zeroth at found.1 in
    (found.0, ends, rw (ends, pick_next) refl, found.2)
