-- ===== src/Jobs/Submitting.antt =====
-- kernel/djob.cpp: `submit` on the ring.

use quillos.Prelude.{
  ℕ, ◌+◌, ◌≤◌, ◌<◌, ◌≡◌, ◌≢◌, refl, ap, ◌∙◌, inl, inr, Bool, true, not, some, List, arith, length,
  ltb, ◌==◌, if◌then◌else◌, Bool-cases, Option-cases, add32, u32_mod, find_index,
}
use quillos.Jobs.Types.{JobType, Status, running, completed, failed, Job, DJob, NodeLoad}
use quillos.Jobs.Execute.{execute}
use quillos.Jobs.Ending.{IsFinite, job_rounds, execute-ends}
use quillos.Jobs.{update, candidates, pick_target, record_job, get_job, complete, dispatch, submit}
use quillos.Jobs.Ring.{IsValid, is_recent}
use quillos.Jobs.Filing.{SameRing, filed_lem}

pick_target-SameRing :
    (s : DJob) (ticks local_load : ℕ)
    → SameRing (pick_target s ticks local_load).0 s
      × ((pick_target s ticks local_load).0.next_job_id ≡ s.next_job_id)
unfolding pick_target
pick_target-SameRing s ticks local_load =
    let cs = candidates ticks s.node_loads in
    elim (Bool-cases (length cs == 0)) [
      | inl e ↦ rw e ((refl, refl, refl), refl)
      | inr e ↦
          elim (Option-cases (find_index (λ (n : NodeLoad). ltb n.task_count local_load) cs)) [
            | inl e' ↦ rw (e, e') ((refl, refl, refl), refl)
            | inr (i, e') ↦ rw (e, e') ((refl, refl, refl), refl)
          ]
    ]

-- The state in which `submit` chooses the target.
abbrev pub numbered : DJob → DJob
numbered s = record s { next_job_id = add32 s.next_job_id 1 }

module _ (send : ℕ → JobType → List ℕ → Bool) where
  -- The status that `submit` leaves the job in.
  abbrev pub outcome : ℕ → JobType → List ℕ → Status
  outcome target kind bytes =
      if target == 0 then completed else if send target kind bytes then running else failed

  dispatch_lem :
      (fuel : ℕ) (s t : DJob) (kind : JobType) (bytes : List ℕ) (target ticks done v : ℕ)
      → IsValid s
      → SameRing t s
      → t.next_job_id ≡ s.next_job_id + 1
      → s.next_job_id + 1 < u32_mod
      → ((target == 0) ≡ true → execute fuel kind bytes ≡ some v)
      → (u : DJob) × (dispatch send fuel s.next_job_id kind bytes ticks done t target
          ≡ some (u, s.next_job_id))
        × IsValid u
        × ((j : Job) × (get_job u s.next_job_id ≡ some j)
            × (j.kind ≡ kind)
            × (j.target_ip ≡ target)
            × (j.status ≡ outcome j.target_ip kind bytes)
            × (j.result ≡ (if j.target_ip == 0 then v else 0)))
        × ((id : ℕ)
            → is_recent u.next_job_id id ≡ true
            → id ≢ s.next_job_id
            → get_job u id ≡ get_job s id)
  unfolding dispatch
  dispatch_lem fuel s t kind bytes target ticks done v valid same n fits ran =
      let r = record_job t s.next_job_id kind bytes target ticks in
      elim (Bool-cases (target == 0)) [
        | inl here ↦
            let g = complete v done in
            let u = update r t.history_write g in
            let filed = filed_lem s t kind bytes target ticks g valid same n fits (λ j. refl) in
            let go : dispatch send fuel s.next_job_id kind bytes ticks done t target
                ≡ some (u, s.next_job_id) =
              rw (here, ran here) refl in
            (u, go, filed.0, (_, filed.1, refl, refl, rw here refl, rw here refl), filed.2)
        | inr there ↦
            let g : Job → Job =
              λ j. record j { status = if send target kind bytes then running else failed } in
            let u = update r t.history_write g in
            let filed = filed_lem s t kind bytes target ticks g valid same n fits (λ j. refl) in
            let go : dispatch send fuel s.next_job_id kind bytes ticks done t target
                ≡ some (u, s.next_job_id) =
              rw there refl in
            (u, go, filed.0, (_, filed.1, refl, refl, rw there refl, rw there refl), filed.2)
      ]

  -- If this node takes the job, its execution ends.
  ran_here :
      (fuel target : ℕ) (kind : JobType) (bytes : List ℕ)
      → (target ≡ 0 → IsFinite kind bytes × (job_rounds bytes ≤ fuel))
      → (v : ℕ) × (target ≡ 0 → execute fuel kind bytes ≡ some v)
  ran_here fuel target kind bytes ends = elim (Bool-cases (target == 0)) [
    | inl here ↦
        let e = ends (ground (arith, here)) in
        let r = execute-ends fuel kind bytes e.0 e.1 in (r.0, λ z. r.1)
    | inr there ↦ (0, λ z. absurd (ground (arith, z, there)))
  ]

  -- In a well-formed state with an id left, `submit` returns the next id, where a job that is to run
  -- here is no search for primes up to 2^32 - 1 (which never ends) and has enough fuel. The ring
  -- stays well formed and holds the new job under that id, with the target that `pick_target` chose:
  -- completed with the result of its execution if that is this node, otherwise running or failed as
  -- the request was sent or not. Every other job of the ring is as it was.
  pub submit_lem :
      (fuel : ℕ) (s : DJob) (kind : JobType) (bytes : List ℕ) (local_load ticks done : ℕ)
      → IsValid s
      → s.initialized ≡ true
      → s.next_job_id + 1 < u32_mod
      → ((pick_target (numbered s) ticks local_load).1 ≡ 0
          → IsFinite kind bytes × (job_rounds bytes ≤ fuel))
      → (v : ℕ) × ((pick_target (numbered s) ticks local_load).1 ≡ 0
          → execute fuel kind bytes ≡ some v)
        × ((t : DJob) × (submit send fuel s kind bytes local_load ticks done
              ≡ some (t, s.next_job_id))
            × IsValid t
            × ((j : Job) × (get_job t s.next_job_id ≡ some j)
                × (j.kind ≡ kind)
                × (j.target_ip ≡ (pick_target (numbered s) ticks local_load).1)
                × (j.status ≡ outcome j.target_ip kind bytes)
                × (j.result ≡ (if j.target_ip == 0 then v else 0)))
            × ((id : ℕ)
                → is_recent t.next_job_id id ≡ true
                → id ≢ s.next_job_id
                → get_job t id ≡ get_job s id))
  unfolding submit
  submit_lem fuel s kind bytes local_load ticks done valid started fits ends =
      let p = pick_target (numbered s) ticks local_load in
      let (v, ran) = ran_here fuel p.1 kind bytes ends in
      let same = pick_target-SameRing (numbered s) ticks local_load in
      let n : p.0.next_job_id ≡ s.next_job_id + 1 = same.1 ∙ omega arith in
      let r =
        dispatch_lem fuel s p.0 kind bytes p.1 ticks done v valid same.0 n fits
          (λ z. ran (ground (arith, z))) in
      let called : submit send fuel s kind bytes local_load ticks done
          ≡ dispatch send fuel s.next_job_id kind bytes ticks done p.0 p.1 =
        ap
          (λ b.
            if not b
            then some (s, 0)
            else dispatch send fuel s.next_job_id kind bytes ticks done p.0 p.1)
          started in
      (v, ran, (r.0, called ∙ r.1, r.2, r.3, r.4))
