-- ===== src/Scheduler/Switching.antt =====
-- kernel/scheduler.cpp, `do_schedule`: the context switch.
use quillos.Prelude.{
  ℕ, ◌<◌, ◌≡◌, refl, sym, ap, ◌∙◌, ◌≢◌, inl, inr, true, false, arith, length, ◌==◌, Bool-cases,
  length-modify,
}
use quillos.Scheduler.Types.{
  running, is_ready, is_running, Task, Sched, max_tasks, time_slice_ms, blank,
}
use quillos.Scheduler.{task, update, save, start_slice, pick_next, do_schedule}
use quillos.Scheduler.Picking.{pick_next-Finds}
use quillos.Scheduler.Invariant.{IsValid, is_awake, task-update, update-IsValid}

-- The state that `do_schedule` picks from.
abbrev pub saved : Sched → ℕ → Sched
saved s rsp = update s s.current_task (save rsp)

-- The slot that `do_schedule` resumes.
abbrev pub chosen : Sched → ℕ → ℕ
chosen s rsp = pick_next (saved s rsp)

-- Switch to slot `i`.
abbrev pub resume : Sched → ℕ → Sched
resume s i = record (update s i start_slice) { current_task = i }

save-not-running : (rsp : ℕ) (t : Task) → is_running (save rsp t).state ≡ false
save-not-running rsp t = ground arith

save-awake : (rsp : ℕ) (t : Task) → is_awake t.state ≡ true → is_awake (save rsp t).state ≡ true
save-awake rsp t h = ground arith

pub saved-IsValid : (s : Sched) (rsp : ℕ) → IsValid s → IsValid (saved s rsp)
saved-IsValid s rsp v =
    update-IsValid s s.current_task (save rsp) v.current_in (λ r. refl)
      (λ e. save-awake rsp (task s s.current_task) (rw (← e) at v.idle_awake)) v

-- After the save no task is running.
pub saved-quiet :
    (s : Sched) (rsp i : ℕ)
    → IsValid s
    → i < max_tasks
    → is_running (task (saved s rsp) i).state ≡ false
saved-quiet s rsp i v h = elim (Bool-cases (s.current_task == i)) [
  | inl e ↦
      rw (task-update s s.current_task i (save rsp) v.size v.current_in, e)
        (save-not-running rsp (task s s.current_task))
  | inr ne ↦
      rw (task-update s s.current_task i (save rsp) v.size v.current_in, ne)
        (elim (Bool-cases (is_running (task s i).state)) [
          | inl r ↦ let e : i ≡ s.current_task = v.unique i h r in absurd (ground arith)
          | inr q ↦ q
        ])
]

pub chosen-in : (s : Sched) (rsp : ℕ) → IsValid s → chosen s rsp < max_tasks
chosen-in s rsp v =
    let p = pick_next-Finds (saved s rsp) in
    elim p.3 [
      | inl (m, hm, e, c, before) ↦ rw (p.2, e) (omega arith)
      | inr (e, none_ready) ↦ rw (p.2, e) v.idle_in
    ]

pub chosen-awake :
    (s : Sched) (rsp : ℕ) → IsValid s → is_awake (task (saved s rsp) (chosen s rsp)).state ≡ true
chosen-awake s rsp v =
    let found = pick_next-Finds (saved s rsp) in
    elim found.3 [
      | inl (m, hm, e, hit, before) ↦ rw (found.2, e) (ground arith)
      | inr (e, none_ready) ↦ rw (found.2, e) (saved-IsValid s rsp v).idle_awake
    ]

resume-IsValid :
    (s : Sched) (i : ℕ)
    → IsValid s
    → ((j : ℕ) → j < max_tasks → is_running (task s j).state ≡ false)
    → i < max_tasks
    → IsValid (resume s i)
resume-IsValid s i v quiet h = record {
  size = length-modify blank s.tasks i start_slice ∙ v.size;
  current_in = h;
  idle_in = v.idle_in;
  unique = λ j hj r. elim (Bool-cases (i == j)) [
    | inl e ↦ ground arith
    | inr ne ↦
        let still = rw (task-update s i j start_slice v.size h, ne) at r in
        absurd (ground (arith, quiet j hj))
  ];
  idle_awake = elim (Bool-cases (i == s.idle_task_id)) [
    | inl e ↦ rw (task-update s i s.idle_task_id start_slice v.size h, e) refl
    | inr ne ↦ rw (task-update s i s.idle_task_id start_slice v.size h, ne) v.idle_awake
  ];
}

-- Both branches of `do_schedule` resume the chosen slot.
pub do_schedule-state :
    (s : Sched) (rsp : ℕ) → (do_schedule s rsp).0 ≡ resume (saved s rsp) (chosen s rsp)
unfolding do_schedule
do_schedule-state s rsp = elim (Bool-cases (chosen s rsp == s.current_task)) [
  | inl e ↦
      let e' : s.current_task ≡ chosen s rsp = ground arith in
      elim (Bool-cases (is_ready (task (saved s rsp) s.current_task).state)) [
        | inl r ↦ rw (e, r) (ap (resume (saved s rsp)) e')
        | inr r ↦ rw (e, r) refl
      ]
  | inr ne ↦ rw ne refl
]

pub do_schedule-IsValid : (s : Sched) (rsp : ℕ) → IsValid s → IsValid (do_schedule s rsp).0
do_schedule-IsValid s rsp v = rw (do_schedule-state s rsp) (
    resume-IsValid (saved s rsp) (chosen s rsp) (saved-IsValid s rsp v)
      (λ j h. saved-quiet s rsp j v h) (chosen-in s rsp v))

-- The stack pointer to resume from is the one that the chosen slot holds after the save.
pub do_schedule-rsp :
    (s : Sched) (rsp : ℕ)
    → IsValid s
    → (do_schedule s rsp).1 ≡ (task (saved s rsp) (chosen s rsp)).rsp
unfolding do_schedule
do_schedule-rsp s rsp v = elim (Bool-cases (chosen s rsp == s.current_task)) [
  | inl e ↦
      let e' : s.current_task ≡ chosen s rsp = ground arith in
      let own : (task (saved s rsp) s.current_task).rsp ≡ rsp =
        ground
          (arith, task-update s s.current_task s.current_task (save rsp) v.size v.current_in) in
      elim (Bool-cases (is_ready (task (saved s rsp) s.current_task).state)) [
        | inl r ↦ rw (e, r) (sym own ∙ ap (λ i. (task (saved s rsp) i).rsp) e')
        | inr r ↦ rw (e, r) refl
      ]
  | inr ne ↦ rw ne refl
]

-- A context switch from any well-formed state: the result is well formed and its current task is
-- running with a full slice; the interrupted stack pointer is stored in the slot that was current;
-- the pointer to resume from is the one stored in the new current slot, which is the interrupted one
-- if the slot has not changed; no slot but these two is touched.
pub do_schedule_switches :
    (s : Sched) (rsp : ℕ)
    → IsValid s
    → let (t, out) = do_schedule s rsp in
      IsValid t
      × ((task t t.current_task).state ≡ running)
      × ((task t t.current_task).slice_remaining ≡ time_slice_ms)
      × ((task t s.current_task).rsp ≡ rsp)
      × (out ≡ (task t t.current_task).rsp)
      × ((j : ℕ) → j ≢ s.current_task → j ≢ t.current_task → task t j ≡ task s j)
do_schedule_switches s rsp v =
    rw (do_schedule-rsp s rsp v, do_schedule-state s rsp)
      (
        resume-IsValid (saved s rsp) c (saved-IsValid s rsp v) (λ j h. saved-quiet s rsp j v h)
            c_in,
        ap (λ (t : Task). t.state) at_c,
        ap (λ (t : Task). t.slice_remaining) at_c,
        kept,
        sym (ap (λ (t : Task). t.rsp) at_c),
        λ j hs hc. others j hs hc,
      )
  where
    c : ℕ
    c = chosen s rsp

    c_in : c < max_tasks
    c_in = chosen-in s rsp v

    size : length (saved s rsp).tasks ≡ max_tasks
    size = length-modify blank s.tasks s.current_task (save rsp) ∙ v.size

    at_c : task (resume (saved s rsp) c) c ≡ start_slice (task (saved s rsp) c)
    at_c = ground (arith, task-update (saved s rsp) c c start_slice size c_in)

    kept : (task (resume (saved s rsp) c) s.current_task).rsp ≡ rsp
    kept = ground (
      arith,
      task-update (saved s rsp) c s.current_task start_slice size c_in,
      task-update s s.current_task s.current_task (save rsp) v.size v.current_in,
      task-update s s.current_task c (save rsp) v.size v.current_in,
    )

    others : (j : ℕ) → j ≢ s.current_task → j ≢ c → task (resume (saved s rsp) c) j ≡ task s j
    others j hs hc = ground (
      arith,
      task-update (saved s rsp) c j start_slice size c_in,
      task-update s s.current_task j (save rsp) v.size v.current_in,
    )
