-- ===== src/Batch.antt =====
-- oxenmq/batch.h: the virtual base class `detail::Batch` as an interface (its operations and what
-- its comments promise of them), `Batch<R>` in Batch/Typed.antt and `Job` in Batch/Job.antt.
pub mod Typed
pub mod Job
pub mod Dynamic
use oxen_mq.Common.{
  ℕ, zero, suc, ◌+◌, ◌≡◌, Bool, not, Option, none, some, List, length, any, is_zero, ℤ, pos, ◌==◌,
  if◌then◌else◌,
}

pub data BatchState : Type 0 where
  running complete done : BatchState

pub record BatchStatus : Type 0 where
  pub state : BatchState
  pub thread : ℤ

-- The virtual functions that the proxy thread calls. `B` is the object behind a `detail::Batch*`;
-- `job_finished` returns the changed object too.
pub record BatchOps (B : Type 0) : Type 0 where
  pub size : B → ℕ × Bool
  pub threads : B → List ℤ
  pub job_finished : B → B × BatchStatus

-- The status that follows the last job.
abbrev pub last_status : Option ℤ → BatchStatus
last_status none = record { state = done; thread = pos 0 }
last_status (some t) = record { state = complete; thread = t }

-- The object after `k` of its jobs have come back.
pub after_finished : {B : Type 0} → BatchOps B → ℕ → B → B
after_finished o zero b = b
after_finished o (suc k) b = after_finished o k (o.job_finished b).0

-- What their comments promise of an object with jobs for the threads `ts` (0 for any) and, where it has
-- a completion function, the thread of that.
pub record BatchLaws {B : Type 0} (o : BatchOps B) (b : B) (ts : List ℤ) (on_complete : Option ℤ)
    : Type 0 where
  -- "The number of jobs in this batch and whether any of them are thread-specific"
  pub size_is : o.size b ≡ (length ts, any (λ t. not (is_zero t)) ts)
  -- "The tagged thread ids of the batch jobs or 0 for general jobs"
  pub threads_are : o.threads b ≡ ts
  -- What the call of `job_finished` for each job reports: that more is to come, until the last.
  pub finished_is :
      (k left : ℕ)
      → length ts ≡ k + suc left
      → (o.job_finished (after_finished o k b)).1 ≡ (
          if left == 0 then last_status on_complete else record { state = running; thread = pos 0 })
