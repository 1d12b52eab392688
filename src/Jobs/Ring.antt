-- ===== src/Jobs/Ring.antt =====
-- kernel/djob.cpp: the ring of jobs. A well-formed ring holds the last 16 jobs by their ids; the
-- lookups agree with each other on it.

use quillos.Prelude.{
  ℕ, zero, suc, ◌+◌, ◌-◌, ◌*◌, ◌/◌, ◌%◌, ◌≤◌, ◌<◌, ◌≡◌, refl, ap, ◌∙◌, inl, inr, Bool, true, false,
  not, ◌&&◌, none, some, List, [], ◌∷◌, map, arith, length, get_or, ltb, leb, ◌==◌, if◌then◌else◌,
  Bool-cases, Option-cases, find_index-some, find_index-none, u32_mod,
}
use quillos.Jobs.Types.{Job, pending, no_job, DJob, max_history}
use quillos.Jobs.{init, job, find_job, get_job, slot_at, get_history}

-- The id in slot `k` once the ids below `next` have been given away.
abbrev pub slot_id : ℕ → ℕ → ℕ
slot_id next k =
    if ltb k ((next - 1) % 16)
    then (next - 1) / 16 * 16 + k + 1
    else if leb 16 (next - 1)
    then (next - 1) / 16 * 16 + k + 1 - 16
    else 0

pub record IsValid (s : DJob) : Type 0 where
  pub sized : length s.history ≡ max_history
  pub started : 1 ≤ s.next_job_id
  pub fits : s.next_job_id < u32_mod
  pub writes : s.history_write ≡ (s.next_job_id - 1) % max_history
  pub counted :
      s.history_count
      ≡ (if leb max_history (s.next_job_id - 1) then max_history else s.next_job_id - 1)
  pub ids : (k : ℕ) → k < max_history → (job s k).id ≡ slot_id s.next_job_id k

-- The last 16 ids that were given away.
abbrev pub is_recent : ℕ → ℕ → Bool
is_recent next id = leb 1 id && ltb id next && leb next (id + max_history)

pub slot_id-recent : (next id : ℕ) → is_recent next id ≡ true → slot_id next ((id - 1) % 16) ≡ id
slot_id-recent next id h = ground arith

recent-slot_id :
    (next id k : ℕ)
    → k < 16
    → slot_id next k ≡ id
    → (id == 0) ≡ false
    → (is_recent next id ≡ true) × ((id - 1) % 16 ≡ k)
recent-slot_id next id k hk e nz = ground arith

pub find_job-recent :
    (s : DJob) (id : ℕ)
    → IsValid s
    → find_job s id ≡ (if is_recent s.next_job_id id then some ((id - 1) % 16) else none)
unfolding find_job
find_job-recent s id v =
    let test : Job → Bool = λ j. (j.id == id) && not (j.id == 0) in
    elim (Option-cases (find_job s id)) [
      | inl n ↦ elim (Bool-cases (is_recent s.next_job_id id)) [
        | inl y ↦
            let miss =
              find_index-none test s.history ((id - 1) % 16) no_job n (omega (arith, v.sized)) in
            let e = v.ids ((id - 1) % 16) (omega arith) in
            let back = slot_id-recent s.next_job_id id y in absurd (ground (arith, miss, e, back))
        | inr old ↦ rw old n
      ]
      | inr (i, e) ↦
          let hit = find_index-some test s.history i no_job e in
          let at_i = v.ids i (omega (arith, hit.0, v.sized)) in
          let same : (job s i).id ≡ id = ground (arith, hit.1) in
          let nz : (id == 0) ≡ false = ground (arith, hit.1) in
          let r = recent-slot_id s.next_job_id id i (omega (arith, hit.0, v.sized)) (cc) nz in
          rw (e, r.0, r.1) refl
    ]

-- In a well-formed ring of `n` jobs the `idx`-th entry of the history, for `idx` below `n`, is the
-- job with the `idx`-th of the last `n` ids: the entries come oldest first.
pub get_history-get_job :
    (s : DJob) (idx : ℕ)
    → IsValid s
    → idx < s.history_count
    → get_history s idx ≡ get_job s (s.next_job_id - s.history_count + idx)
unfolding get_history get_job
get_history-get_job s idx v h =
    let id = s.next_job_id - s.history_count + idx in
    let recent : is_recent s.next_job_id id ≡ true = ground (arith, v.counted, v.started) in
    let found : find_job s id ≡ some ((id - 1) % 16) = rw recent at (find_job-recent s id v) in
    let there : leb s.history_count idx ≡ false = ground arith in
    rw (there, found)
      (elim (Bool-cases (ltb s.history_count max_history)) [
        | inl short ↦
            let slot : idx ≡ (id - 1) % 16 = ground (arith, v.counted, v.started) in
            rw short (ap (λ k. some (job s k)) slot)
        | inr full ↦
            let slot : slot_at s idx ≡ (id - 1) % 16 =
              ground (arith, v.counted, v.started, v.writes) in
            rw full (ap (λ k. some (job s k)) slot)
      ])

wiped :
    (hs : List Job) (k : ℕ)
    → (get_or (map (λ (j : Job). record j { id = 0; status = pending }) hs) k no_job).id ≡ 0
wiped [] k = refl
wiped (j ∷ hs) zero = refl
wiped (j ∷ hs) (suc k) = wiped hs k

wiped_length :
    (hs : List Job)
    → length (map (λ (j : Job). record j { id = 0; status = pending }) hs) ≡ length hs
wiped_length [] = refl
wiped_length (j ∷ hs) = ap suc (wiped_length hs)

-- `init` leaves an empty, well-formed ring, whatever was there.
pub init-IsValid : (s : DJob) → length s.history ≡ max_history → IsValid (init s)
unfolding init
init-IsValid s h = record {
  sized = wiped_length s.history ∙ h;
  started = omega arith;
  fits = omega arith;
  writes = refl;
  counted = refl;
  ids = λ k hk. wiped s.history k ∙ ground arith;
}
