-- ===== src/Jobs/Results.antt =====
-- kernel/djob.cpp: `init`, `on_remote_result` and `get_last_completed`.
use mathlib.Core.Option
use quillos.Prelude.{
  ℕ, zero, suc, ◌+◌, ◌-◌, ◌%◌, ◌<◌, ◌≡◌, ◌≢◌, refl, ap, sym, ◌∙◌, ◌⊎◌, inl, inr, Bool, true, false,
  not, ◌&&◌, Option, none, some, arith, find_index-some, ◌==◌, if◌then◌else◌, Bool-cases,
  Option-cases,
}
use quillos.Jobs.Types.{Job, no_job, DJob, max_history, is_running, is_completed}
use quillos.Jobs.{
  job, update, find_job, get_job, complete, on_remote_result, slot_at, last_completed,
  get_last_completed,
}
use quillos.Jobs.Ring.{IsValid, is_recent, slot_id-recent, find_job-recent}
use quillos.Jobs.Filing.{job-update, update-IsValid}

-- The job that a result leaves of `j`.
abbrev pub answered : ℕ → ℕ → Job → Job
answered result ticks j = if is_running j.status then complete result ticks j else j

other_slot :
    (s : DJob) (id other i k : ℕ)
    → other ≢ id
    → ((job s i).id == id) && not ((job s i).id == 0) ≡ true
    → ((job s k).id == other) && not ((job s k).id == 0) ≡ true
    → (i == k) ≡ false
other_slot s id other i k ne h h' = elim (Bool-cases (i == k)) [
  | inl e ↦
      let e' : (job s i).id ≡ (job s k).id = ap (λ n. (job s n).id) (ground arith) in
      absurd (ground arith)
  | inr e ↦ e
]

-- A result completes the job with its id if that is one of the last 16 and still running, and has no
-- effect on any other job; the ring stays well formed.
pub on_remote_result_lem :
    (s : DJob) (id result ticks : ℕ)
    → IsValid s
    → let t = on_remote_result s id result ticks in
      IsValid t
      × (get_job t id ≡ Option.map (answered result ticks) (get_job s id))
      × ((other : ℕ) → other ≢ id → get_job t other ≡ get_job s other)
unfolding on_remote_result get_job
on_remote_result_lem s id result ticks v =
    let f = complete result ticks in
    elim (Option-cases (find_job s id)) [
      | inl e ↦
          let go : on_remote_result s id result ticks ≡ s = rw (on_remote_result, e) refl in
          rw go (v, rw e refl, λ other h. refl)
      | inr (i, e) ↦
          let hit =
            find_index-some (λ (j : Job). (j.id == id) && not (j.id == 0)) s.history i no_job e in
          let inside : i < max_history = omega (arith, hit.0, v.sized) in
          elim (Bool-cases (is_running (job s i).status)) [
            | inl r ↦
                let u = update s i f in
                let go : on_remote_result s id result ticks ≡ u =
                  rw (on_remote_result, e, r) refl in
                let uv = update-IsValid s i f inside (λ j. refl) v in
                let found = find_job-recent u id uv ∙ sym (find_job-recent s id v) ∙ e in
                let at = job-update s i i f hit.0 in
                let itself : (i == i) ≡ true = ground arith in
                let now : job u i ≡ f (job s i) = at ∙ rw itself refl in
                rw go (
                  uv,
                  rw (found, e, r) (ap some now),
                  λ other ne.
                      let back = find_job-recent u other uv ∙ sym (find_job-recent s other v) in
                      elim (Option-cases (find_job s other)) [
                        | inl e' ↦ rw (back, e') refl
                        | inr (k, e') ↦
                            let hit' =
                              find_index-some (λ (j : Job). (j.id == other) && not (j.id == 0))
                                s.history k no_job e' in
                            let apart : (i == k) ≡ false =
                              other_slot s id other i k ne hit.1 hit'.1 in
                            let kept : job u k ≡ job s k =
                              job-update s i k f hit.0 ∙ rw apart refl in
                            rw (back, e') (ap some kept)
                      ],
                )
            | inr r ↦
                let go : on_remote_result s id result ticks ≡ s =
                  rw (on_remote_result, e, r) refl in
                rw go (v, rw (e, r) refl, λ other h. refl)
          ]
    ]

abbrev is_finished : Job → Bool
is_finished j = not (j.id == 0) && is_completed j.status

newest :
    (s : DJob) (n i : ℕ)
    → is_finished (job s (slot_at s n)) ≡ false
    → i < suc n
    → (i < n → is_finished (job s (slot_at s i)) ≡ false)
    → is_finished (job s (slot_at s i)) ≡ false
newest s n i miss h f = elim (Bool-cases (i == n)) [
  | inl e ↦ let e' : i ≡ n = ground arith in ap (λ k. is_finished (job s (slot_at s k))) e' ∙ miss
  | inr e ↦ f (ground arith)
]

last_completed_lem :
    (s : DJob) (n : ℕ)
    → ((last_completed s n ≡ none) × ((i : ℕ) → i < n → is_finished (job s (slot_at s i)) ≡ false))
      ⊎ ((i : ℕ) × (i < n)
          × (last_completed s n ≡ some (slot_at s i))
          × (is_finished (job s (slot_at s i)) ≡ true)
          × ((k : ℕ) → i < k → k < n → is_finished (job s (slot_at s k)) ≡ false))
unfolding last_completed
last_completed_lem s zero = inl (refl, λ i h. absurd (omega arith))
last_completed_lem s (suc n) = elim (Bool-cases (is_finished (job s (slot_at s n)))) [
  | inl hit ↦ inr (n, omega arith, rw hit refl, hit, λ k h h'. absurd (omega arith))
  | inr miss ↦ elim (last_completed_lem s n) [
    | inl (e, f) ↦ inl (rw miss e, λ i h. newest s n i miss h (f i))
    | inr (i, h, e, hit, f) ↦
        inr (i, omega arith, rw miss e, hit, λ k l h'. newest s n k miss h' (f k l))
  ]
]

abbrev holds_completed : Option Job → Bool
holds_completed none = false
holds_completed (some j) = is_completed j.status

-- Does the ring hold a completed job under this id?
abbrev pub is_done : DJob → ℕ → Bool
is_done s id = holds_completed (get_job s id)

-- Where the ring holds a recent id, counted from the oldest place.
recent_place :
    (s : DJob) (id : ℕ)
    → IsValid s
    → is_recent s.next_job_id id ≡ true
    → (get_job s id ≡ some (job s (slot_at s (id + 16 - s.next_job_id))))
      × (is_done s id ≡ is_finished (job s (slot_at s (id + 16 - s.next_job_id))))
unfolding get_job
recent_place s id v h =
    let k = (id - 1) % 16 in
    let place : k ≡ slot_at s (id + 16 - s.next_job_id) = ground (arith, v.writes) in
    let found : find_job s id ≡ some k = find_job-recent s id v ∙ rw h refl in
    let given : (job s k).id ≡ id = v.ids k (omega arith) ∙ slot_id-recent s.next_job_id id h in
    let nz : ((job s k).id == 0) ≡ false = ground (arith, given) in
    let there : get_job s id ≡ some (job s k) = ap (Option.map (job s)) found in
    let done : is_done s id ≡ is_finished (job s k) = ap holds_completed there ∙ rw nz refl in
    rw (← place) (there, done)

other_place :
    (s : DJob) (id : ℕ) → IsValid s → is_recent s.next_job_id id ≡ false → is_done s id ≡ false
unfolding get_job
other_place s id v h =
    let missing : find_job s id ≡ none = find_job-recent s id v ∙ rw h refl in
    ap (λ o. holds_completed (Option.map (job s) o)) missing

-- A finished job at place `i` is held under the id `next_job_id + i - 16`.
finished_id :
    (s : DJob) (i : ℕ)
    → IsValid s
    → i < 16
    → is_finished (job s (slot_at s i)) ≡ true
    → is_recent s.next_job_id (s.next_job_id + i - 16) ≡ true
finished_id s i v h f =
    let given = v.ids (slot_at s i) (omega arith) in
    let nz : ((job s (slot_at s i)).id == 0) ≡ false = ground arith in
    ground (arith, given, nz, v.writes, v.started)

-- In a well-formed ring `get_last_completed` gives the completed job that was submitted last, and
-- null exactly if the ring holds no completed job.
pub get_last_completed_lem :
    (s : DJob)
    → IsValid s
    → ((get_last_completed s ≡ none) × ((id : ℕ) → is_done s id ≡ false))
      ⊎ ((id : ℕ) × (get_last_completed s ≡ get_job s id)
          × (is_done s id ≡ true)
          × ((later : ℕ) → id < later → is_done s later ≡ false))
unfolding get_last_completed
get_last_completed_lem s v = elim (last_completed_lem s max_history) [
  | inl (e, f) ↦ inl (
    rw e refl,
    λ id. elim (Bool-cases (is_recent s.next_job_id id)) [
      | inl r ↦ (recent_place s id v r).1 ∙ f (id + 16 - s.next_job_id) (ground (arith, v.started))
      | inr r ↦ other_place s id v r
    ],
  )
  | inr (i, h, e, hit, f) ↦
      let id = s.next_job_id + i - 16 in
      let r = finished_id s i v h hit in
      let at = recent_place s id v r in
      let back : id + 16 - s.next_job_id ≡ i = ground (arith, v.started) in
      inr (
        id,
        rw e (sym (at.0 ∙ ap (λ k. some (job s (slot_at s k))) back)),
        at.1 ∙ ap (λ k. is_finished (job s (slot_at s k))) back ∙ hit,
        λ later l. elim (Bool-cases (is_recent s.next_job_id later)) [
          | inl r' ↦
              (recent_place s later v r').1
              ∙ f (later + 16 - s.next_job_id) (ground (arith, r, v.started))
                  (ground (arith, r, v.started))
          | inr r' ↦ other_place s later v r'
        ],
      )
]
