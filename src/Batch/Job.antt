-- ===== src/Batch/Job.antt =====
-- oxenmq/batch.h, `class Job`: one task, no completion function.
use oxen_mq.Common.{
  ℕ, Bool, not, Option, List, [], ◌∷◌, ℤ, pos, Result, ok, ◌>>◌, throw_if, is_zero,
}
use oxen_mq.Batch.{BatchStatus, done}
use oxen_mq.Batch.Typed.{BatchError, proxy_thread_job, is_proxy_thread, thread_or_any}

pub record Job (J : Type 0) : Type 0 where
  pub task : J
  pub thread : ℤ

module _ {J : Type 0} where
  -- The public constructor.
  unfoldable pub make_job : J → Option ℤ → Result BatchError (Job J)
  make_job f thread = do
    throw_if (is_proxy_thread thread) proxy_thread_job
    ok (record { task = f; thread = thread_or_any thread })

  unfoldable pub job_size : Job J → ℕ × Bool
  job_size j = (1, not (is_zero j.thread))

  unfoldable pub job_threads : Job J → List ℤ
  job_threads j = j.thread ∷ []

  unfoldable pub job_job_finished : Job J → Job J × BatchStatus
  job_job_finished j = (j, record { state = done; thread = pos 0 })
