-- ===== src/Jobs/Tests.antt =====
-- The theorems about the jobs at concrete states, and runs of the operations.
use mathlib.Core.Option
use quillos.Prelude.{
  ℕ, ◌≡◌, ◌≢◌, refl, Bool, true, some, List, [], ◌∷◌, arith, ◌==◌, if◌then◌else◌, replicate,
  passes_below, passes_below_lem,
}
use quillos.Jobs.Types.{
  JobType, job_sum, job_prime, job_max, running, completed, Job, no_job, DJob, no_node,
}
use quillos.Jobs.Execute.{execute, sum_loop, trial_loop, prime_loop, max_loop}
use quillos.Jobs.{
  zeroed, init, job, submit, pick_target, candidates, get_job, get_history, on_remote_result,
}
use quillos.Jobs.Ring.{IsValid, slot_id, is_recent, init-IsValid, get_history-get_job}
use quillos.Jobs.Submitting.{numbered, outcome, submit_lem}
use quillos.Jobs.Results.{answered, on_remote_result_lem}

abbrev ready : DJob
ready = init zeroed

-- The words 7 and 258.
abbrev two_words : List ℕ
two_words = 7 ∷ 0 ∷ 0 ∷ 0 ∷ 2 ∷ 1 ∷ 0 ∷ 0 ∷ []

abbrev always : ℕ → JobType → List ℕ → Bool
always target kind bytes = true

sum_run : execute 0 job_sum two_words ≡ some 265
unfolding execute sum_loop
sum_run = refl

max_run : execute 0 job_max two_words ≡ some 258
unfolding execute max_loop
max_run = refl

-- There are four primes up to 7.
prime_run : execute 10 job_prime two_words ≡ some 4
unfolding execute prime_loop trial_loop
prime_run = refl

ready-IsValid : IsValid ready
ready-IsValid = init-IsValid zeroed refl

-- Job 1 has completed here; job 2 runs on the peer 42, which reported one task at tick 5.
abbrev two_jobs : DJob
two_jobs = record {
  node_loads =
      record { ip = 42; task_count = 1; last_updated = 5; valid = true } ∷ replicate 7 no_node;
  history =
      record no_job { id = 1; kind = job_sum; status = completed; result = 265 }
      ∷ record no_job { id = 2; kind = job_max; status = running; target_ip = 42 }
      ∷ replicate 14 no_job;
  history_write = 2;
  history_count = 2;
  next_job_id = 3;
  initialized = true;
  round_robin_counter = 0;
}

two_jobs_ids : passes_below 16 (λ k. (job two_jobs k).id == slot_id 3 k) ≡ true
unfolding passes_below
two_jobs_ids = refl

two_jobs-IsValid : IsValid two_jobs
two_jobs-IsValid = record {
  sized = refl;
  started = omega arith;
  fits = omega arith;
  writes = refl;
  counted = refl;
  ids = λ k hk.
      let e = passes_below_lem 16 k (λ k. (job two_jobs k).id == slot_id 3 k) hk two_jobs_ids in
      ground (arith, e);
}

-- With three tasks here the job goes to the peer.
pick_run : (pick_target two_jobs 9 3).1 ≡ 42
unfolding pick_target candidates
pick_run = refl

submit_lem_example :
    (v : ℕ) × ((pick_target (numbered two_jobs) 5 3).1 ≡ 0 → execute 16 job_sum two_words ≡ some v)
    × ((t : DJob) × (submit always 16 two_jobs job_sum two_words 3 5 6 ≡ some (t, 3))
        × IsValid t
        × ((j : Job) × (get_job t 3 ≡ some j)
            × (j.kind ≡ job_sum)
            × (j.target_ip ≡ (pick_target (numbered two_jobs) 5 3).1)
            × (j.status ≡ outcome always j.target_ip job_sum two_words)
            × (j.result ≡ (if j.target_ip == 0 then v else 0)))
        × ((id : ℕ)
            → is_recent t.next_job_id id ≡ true
            → id ≢ 3
            → get_job t id ≡ get_job two_jobs id))
submit_lem_example =
    submit_lem always 16 two_jobs job_sum two_words 3 5 6 two_jobs-IsValid refl (omega arith)
      (λ here. (tt, omega arith))

on_remote_result_lem_example :
    IsValid (on_remote_result two_jobs 2 258 9)
    × (get_job (on_remote_result two_jobs 2 258 9) 2
        ≡ Option.map (answered 258 9) (get_job two_jobs 2))
    × ((other : ℕ)
        → other ≢ 2
        → get_job (on_remote_result two_jobs 2 258 9) other ≡ get_job two_jobs other)
on_remote_result_lem_example = on_remote_result_lem two_jobs 2 258 9 two_jobs-IsValid

get_history-get_job_example : get_history two_jobs 1 ≡ get_job two_jobs 2
get_history-get_job_example = get_history-get_job two_jobs 1 two_jobs-IsValid (omega arith)
