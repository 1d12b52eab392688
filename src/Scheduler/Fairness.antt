-- ===== src/Scheduler/Fairness.antt =====
-- kernel/scheduler.cpp: round robin starves no ready task.
use quillos.Prelude.{
  ℕ, ◌+◌, ◌-◌, ◌%◌, ◌≤◌, ◌<◌, ◌≡◌, refl, ap, ◌∙◌, ◌≢◌, ◌⊎◌, inl, inr, Bool, true, false, ◌||◌, List,
  [], ◌∷◌, arith, length, ltb, ◌==◌, Bool-cases,
}
use quillos.Scheduler.Types.{ready, Sched, max_tasks}
use quillos.Scheduler.{task, save, start_slice, do_schedule, next_slot, is_candidate}
use quillos.Scheduler.Picking.{pick_next-Finds, around}
use quillos.Scheduler.Invariant.{IsValid, task-update}
use quillos.Scheduler.Switching.{
  saved, chosen, resume, do_schedule-state, do_schedule-IsValid, saved-IsValid, chosen-in,
}

-- Slot `j` is the current one after one of the switches, which save the stack pointers given.
abbrev pub visits : ℕ → Sched → List ℕ → Bool
visits j s [] = false
visits j s (rsp ∷ rest) = let t = (do_schedule s rsp).0 in (t.current_task == j) || visits j t rest

-- Slot `j` is ready and is reached `k` places after the slot that follows the current one.
abbrev Waits : ℕ → ℕ → Sched → Type 0
Waits j k s =
    (j ≢ s.idle_task_id)
    × ((task s j).state ≡ ready)
    × (k < max_tasks)
    × (around (next_slot s.current_task) k ≡ j)

saved-ready :
    (s : Sched) (rsp j : ℕ)
    → IsValid s
    → (task s j).state ≡ ready
    → (task (saved s rsp) j).state ≡ ready
saved-ready s rsp j v h =
    ground (arith, task-update s s.current_task j (save rsp) v.size v.current_in)

around_ne : (start m k : ℕ) → m < k → k < max_tasks → around start m ≢ around start k
around_ne start m k h hk = omega arith

around_shift :
    (start m k : ℕ) → m < k → around (next_slot (around start m)) (k - m - 1) ≡ around start k
around_shift start m k h = omega arith

nearer_turn :
    (s : Sched) (rsp j k m : ℕ)
    → IsValid s
    → Waits j k s
    → m < k
    → chosen s rsp ≡ around (next_slot s.current_task) m
    → Waits j (k - m - 1) (resume (saved s rsp) (chosen s rsp))
nearer_turn s rsp j k m v w h at_c =
    let start = next_slot s.current_task in
    let away : (chosen s rsp == j) ≡ false = ground (arith, around_ne start m k h w.2) in
    let written =
      task-update (saved s rsp) (chosen s rsp) j start_slice (saved-IsValid s rsp v).size
        (chosen-in s rsp v) in
    (
      w.0,
      rw (written, away) (saved-ready s rsp j v w.1),
      omega arith,
      ap (λ c. around (next_slot c) (k - m - 1)) at_c ∙ around_shift start m k h ∙ w.3,
    )

-- One switch resumes `j`, or leaves it ready and nearer to its turn.
switch-Waits :
    (s : Sched) (rsp j k : ℕ)
    → IsValid s
    → Waits j k s
    → (chosen s rsp ≡ j) ⊎ ((l : ℕ) × (l < k) × Waits j l (resume (saved s rsp) (chosen s rsp)))
switch-Waits s rsp j k v w =
    let r = saved-ready s rsp j v w.1 in
    let cand : is_candidate (saved s rsp) j ≡ true = ground arith in
    let found = pick_next-Finds (saved s rsp) in
    elim found.3 [
      | inl (m, hm, e, hit, before) ↦ elim (Bool-cases (m == k)) [
        | inl same ↦
            let mk : m ≡ k = ground arith in
            inl (found.2 ∙ e ∙ ap (around (next_slot s.current_task)) mk ∙ w.3)
        | inr differ ↦ elim (Bool-cases (ltb k m)) [
          | inl skipped ↦ let no_cand = rw w.3 at (before k (ground arith)) in absurd (ground arith)
          | inr nearer ↦
              let mk : m < k = ground arith in
              let at_c : chosen s rsp ≡ around (next_slot s.current_task) m = found.2 ∙ e in
              inr (k - m - 1, omega arith, nearer_turn s rsp j k m v w mk at_c)
        ]
      ]
      | inr (e, none_ready) ↦ let no_cand = rw w.3 at (none_ready k w.2) in absurd (ground arith)
    ]

visits_of_Waits :
    (rsps : List ℕ) (s : Sched) (j k : ℕ)
    → IsValid s
    → Waits j k s
    → k < length rsps
    → visits j s rsps ≡ true
visits_of_Waits [] s j k v w h = absurd (omega arith)
visits_of_Waits (rsp ∷ rest) s j k v w h =
    let state = do_schedule-state s rsp in
    elim (switch-Waits s rsp j k v w) [
      | inl now ↦
          let hit : ((do_schedule s rsp).0.current_task == j) ≡ true = rw state (ground arith) in
          rw hit refl
      | inr (l, hl, later) ↦
          let t = (do_schedule s rsp).0 in
          let w' : Waits j l t = rw state later in
          let hit : visits j t rest ≡ true =
            visits_of_Waits rest t j l (do_schedule-IsValid s rsp v) w' (omega arith) in
          ground (arith, hit)
    ]

-- A task that is ready, and is not the idle task, becomes the current task within 16 consecutive
-- switches, whatever the other tasks' states are.
pub do_schedule_fair :
    (s : Sched) (j : ℕ) (rsps : List ℕ)
    → IsValid s
    → j < max_tasks
    → j ≢ s.idle_task_id
    → (task s j).state ≡ ready
    → max_tasks ≤ length rsps
    → visits j s rsps ≡ true
do_schedule_fair s j rsps v hj idle r h =
    let k = (j + max_tasks - next_slot s.current_task) % max_tasks in
    visits_of_Waits rsps s j k v (idle, r, omega arith, omega arith) (omega arith)
