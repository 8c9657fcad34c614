-- ===== src/Examples/Batch.antt =====
-- A batch of two jobs, one of them for tagged thread 1, and a completion function.
use oxen_mq.Common.{
  ℕ, ◌≡◌, refl, ◌⊎◌, true, Option, none, some, [], ◌∷◌, ◌++◌, pos, ok, err, arith, get_elem?,
  if◌then◌else◌, ◌==◌,
}
use oxen_mq.Batch.{complete, BatchLaws}
use oxen_mq.Batch.Dynamic.{any_ops, batch, Made, new_batch, added, completed, any_ops-BatchLaws}
use oxen_mq.Batch.Typed.{
  Batch, empty, add_job_in, add_job, check_not_started, completion, job_finished, is_proxy_thread,
  proxy_thread_job, exception,
}
use oxen_mq.Batch.Typed.Lifecycle.{
  IsFilling, empty-IsFilling, add_job_in-IsFilling, add_job-IsFilling, finish_times,
  job_finished-sequence, run_jobs, run_jobs-results,
}

-- Job 5 throws; the others return their own number.
abbrev invoke : ℕ → Option ℕ
invoke j = if j == 5 then none else some j

abbrev two_jobs : Batch ℕ ℕ ℕ
two_jobs = record (add_job_in (add_job_in empty 4 (pos 0)) 5 (pos 1)) {
  complete_fn = some 9;
  complete_in_thread = pos 2;
}

two_jobs_outstanding : two_jobs.jobs_outstanding ≡ 2
unfolding add_job_in empty
two_jobs_outstanding = refl

one_job : IsFilling (add_job_in {J = ℕ} {R = ℕ} {C = ℕ} empty 4 (pos 0))
unfolding empty
one_job = add_job_in-IsFilling empty 4 (pos 0) (omega arith) empty-IsFilling

abbrev first : Batch ℕ ℕ ℕ
first = add_job_in empty 4 (pos 0)

add_job-IsFilling_example :
    ((is_proxy_thread (some (pos 1)) ≡ true)
      × (add_job first 5 (some (pos 1)) ≡ err proxy_thread_job))
    ⊎ ((c : Batch ℕ ℕ ℕ) × (add_job first 5 (some (pos 1)) ≡ ok c)
        × IsFilling c
        × (c.jobs ≡ first.jobs ++ (5, pos 1) ∷ []))
unfolding add_job_in empty
add_job-IsFilling_example = add_job-IsFilling first 5 (some (pos 1)) one_job (omega arith)

job_finished-sequence_example :
    (job_finished (finish_times 1 two_jobs)).1 ≡ record { state = complete; thread = pos 2 }
unfolding add_job_in empty
job_finished-sequence_example =
    job_finished-sequence 1 0 two_jobs two_jobs_outstanding (omega arith)

run_jobs-results_example :
    get_elem? (run_jobs invoke (1 ∷ 0 ∷ []) two_jobs).results 1 ≡ some exception
unfolding add_job_in empty
run_jobs-results_example = run_jobs-results invoke (1 ∷ 0 ∷ []) two_jobs 1 (5, pos 1) refl refl

-- A batch with one job for any thread and one for thread 1, and a completion function in thread 2.
abbrev completed_batch : Batch ℕ ℕ ℕ
completed_batch = two_jobs

made : Made (batch completed_batch) (pos 0 ∷ pos 1 ∷ []) (some (pos 2))
unfolding add_job_in empty add_job check_not_started completion
made =
    completed 9 (some (pos 2)) (added 5 (some (pos 1)) (added {ts = []} 4 none new_batch refl) refl)
      refl

any_ops-BatchLaws_example :
    BatchLaws any_ops (batch completed_batch) (pos 0 ∷ pos 1 ∷ []) (some (pos 2))
any_ops-BatchLaws_example = any_ops-BatchLaws made (omega arith)
