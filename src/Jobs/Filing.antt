-- ===== src/Jobs/Filing.antt =====
-- kernel/djob.cpp: what filing a job with `record_job`, and changing one job, do to the ring.

use quillos.Prelude.{
  ℕ, ◌+◌, ◌-◌, ◌%◌, ◌≤◌, ◌<◌, ◌≡◌, ◌≢◌, refl, ap, sym, ◌∙◌, inl, inr, true, false, some, List,
  arith, length, get_or, length-modify, get_or-modify, ◌==◌, if◌then◌else◌, Bool-cases, u32_mod,
}
use quillos.Jobs.Types.{JobType, Job, no_job, DJob, max_history}
use quillos.Jobs.{job, update, fresh_job, record_job, get_job}
use quillos.Jobs.Ring.{IsValid, is_recent, slot_id, find_job-recent}

-- Reading a slot after a write to slot `i`.
pub job-update :
    (s : DJob) (i j : ℕ) (f : Job → Job)
    → i < length s.history
    → job (update s i f) j ≡ (if i == j then f (job s i) else job s j)
job-update s i j f h = get_or-modify no_job s.history i j f h

-- A change of one job that keeps its id keeps the ring well formed.
pub update-IsValid :
    (s : DJob) (i : ℕ) (f : Job → Job)
    → i < max_history
    → ((j : Job) → (f j).id ≡ j.id)
    → IsValid s
    → IsValid (update s i f)
update-IsValid s i f hi same v = record {
  sized = length-modify no_job s.history i f ∙ v.sized;
  started = v.started;
  fits = v.fits;
  writes = v.writes;
  counted = v.counted;
  ids = λ k hk.
      let read = job-update s i k f (omega (arith, v.sized)) in
      elim (Bool-cases (i == k)) [
        | inl e ↦
            let e' : i ≡ k = ground arith in
            let at : job (update s i f) k ≡ f (job s i) = read ∙ rw e refl in
            ap (λ (j : Job). j.id) at ∙ same (job s i) ∙ ap (λ k. (job s k).id) e' ∙ v.ids k hk
        | inr ne ↦
            let at : job (update s i f) k ≡ job s k = read ∙ rw ne refl in
            ap (λ (j : Job). j.id) at ∙ v.ids k hk
      ];
}

-- The two states differ at most in the round-robin counter, the peers and the next id.
abbrev pub SameRing : DJob → DJob → Type 0
SameRing t s =
    (t.history ≡ s.history)
    × (t.history_write ≡ s.history_write)
    × (t.history_count ≡ s.history_count)

slot_id-next :
    (next k : ℕ)
    → 1 ≤ next
    → k < 16
    → slot_id (next + 1) k ≡ (if (next - 1) % 16 == k then next else slot_id next k)
slot_id-next next k h hk = ground arith

-- The new job takes the place of the oldest, and the ring stays well formed.
record_job-IsValid :
    (s t : DJob) (kind : JobType) (bytes : List ℕ) (target ticks : ℕ)
    → IsValid s
    → SameRing t s
    → t.next_job_id ≡ s.next_job_id + 1
    → s.next_job_id + 1 < u32_mod
    → IsValid (record_job t s.next_job_id kind bytes target ticks)
unfolding record_job
record_job-IsValid s t kind bytes target ticks v (h, w, c) n fits =
    let f = fresh_job s.next_job_id kind bytes target ticks in
    let wide : length t.history ≡ max_history = rw h v.sized in
    record {
      sized = length-modify no_job t.history t.history_write f ∙ wide;
      started = omega (arith, n);
      fits = omega (arith, n);
      writes = ground (arith, w, v.writes, n, v.started);
      counted = ground (arith, c, v.counted, n, v.started);
      ids = λ k hk.
          let read = job-update t t.history_write k f (omega (arith, wide, w, v.writes)) in
          let next = slot_id-next s.next_job_id k v.started hk in
          let old : (job t k).id ≡ slot_id s.next_job_id k = rw h (v.ids k hk) in
          let slot : t.history_write ≡ (s.next_job_id - 1) % 16 = w ∙ v.writes in
          let given : slot_id t.next_job_id k ≡ slot_id (s.next_job_id + 1) k =
            ap (λ n. slot_id n k) n in
          elim (Bool-cases (t.history_write == k)) [
            | inl e ↦
                let e' : ((s.next_job_id - 1) % 16 == k) ≡ true = rw slot at e in
                let at : job (update t t.history_write f) k ≡ f (job t t.history_write) =
                  read ∙ rw e refl in
                let id : slot_id (s.next_job_id + 1) k ≡ s.next_job_id = next ∙ rw e' refl in
                ap (λ (j : Job). j.id) at ∙ sym (given ∙ id)
            | inr ne ↦
                let ne' : ((s.next_job_id - 1) % 16 == k) ≡ false = rw slot at ne in
                let at : job (update t t.history_write f) k ≡ job t k = read ∙ rw ne refl in
                let id : slot_id (s.next_job_id + 1) k ≡ slot_id s.next_job_id k =
                  next ∙ rw ne' refl in
                ap (λ (j : Job). j.id) at ∙ old ∙ sym (given ∙ id)
          ];
    }

-- What the call that files a job and then finishes or sends it leaves: the new job under its id, and
-- every other recent job as it was.
pub filed_lem :
    (s t : DJob) (kind : JobType) (bytes : List ℕ) (target ticks : ℕ) (g : Job → Job)
    → IsValid s
    → SameRing t s
    → t.next_job_id ≡ s.next_job_id + 1
    → s.next_job_id + 1 < u32_mod
    → ((j : Job) → (g j).id ≡ j.id)
    → let u = update (record_job t s.next_job_id kind bytes target ticks) t.history_write g in
      IsValid u
      × (get_job u s.next_job_id
          ≡ some (g (fresh_job s.next_job_id kind bytes target ticks (job t t.history_write))))
      × ((id : ℕ)
          → is_recent u.next_job_id id ≡ true
          → id ≢ s.next_job_id
          → get_job u id ≡ get_job s id)
unfolding record_job get_job
filed_lem s t kind bytes target ticks g v (h, w, c) n fits same =
    let f = fresh_job s.next_job_id kind bytes target ticks in
    let r = record_job t s.next_job_id kind bytes target ticks in
    let u = update r t.history_write g in
    let slot : t.history_write ≡ (s.next_job_id - 1) % 16 = w ∙ v.writes in
    let wide : length t.history ≡ max_history = rw h v.sized in
    let wide' : length r.history ≡ max_history =
      length-modify no_job t.history t.history_write f ∙ wide in
    let rv = record_job-IsValid s t kind bytes target ticks v (h, w, c) n fits in
    let uv = update-IsValid r t.history_write g (omega (arith, slot)) same rv in
    let put = job-update t t.history_write t.history_write f (omega (arith, wide, slot)) in
    let put' = job-update r t.history_write t.history_write g (omega (arith, wide', slot)) in
    let itself : (t.history_write == t.history_write) ≡ true = ground arith in
    let recent : is_recent u.next_job_id s.next_job_id ≡ true = ground (arith, n, v.started) in
    let at : job u t.history_write ≡ g (f (job t t.history_write)) =
      put' ∙ rw itself (ap g (put ∙ rw itself refl)) in
    let found = find_job-recent u s.next_job_id uv in
    (
      uv,
      rw (found, recent, ← slot) (ap some at),
      λ id rec other.
          let old : is_recent s.next_job_id id ≡ true = ground (arith, n) in
          let k = (id - 1) % 16 in
          let apart : (t.history_write == k) ≡ false = ground (arith, slot, n) in
          let kept = job-update t t.history_write k f (omega (arith, wide, slot)) in
          let kept' = job-update r t.history_write k g (omega (arith, wide', slot)) in
          let same_job : job u k ≡ job s k =
            kept' ∙ rw apart (kept ∙ rw apart (ap (λ hs. get_or hs k no_job) h)) in
          rw (find_job-recent u id uv, rec, find_job-recent s id v, old) (ap some same_job),
    )
