-- ===== src/Batch/Typed.antt =====
-- oxenmq/batch.h, `class Batch<R>` and `job_result<R>`. A callable is a value of `J`; calling it
-- gives `some` result, or `none` if it throws (which exception it is, is left out).
use oxen_mq.Common.{
  ℕ, ◌+◌, ◌-◌, ◌%◌, ◌^◌, Bool, true, false, not, ◌||◌, Option, none, some, List, [], ◌∷◌, ◌++◌,
  length, modify, get_elem?, map, ℤ, pos, is_minus_one, Result, ok, err, ◌>>=◌, ◌>>◌, throw_if,
  if◌then◌else◌, ◌==◌, is_zero,
}
use oxen_mq.Batch.{BatchState, BatchStatus, running, complete, done}
pub mod Lifecycle

-- What `job_result<R>` holds: nothing yet (a default value), a value, or an exception.
pub data JobResult (R : Type 0) : Type 0 where
  unset : JobResult R
  value : R → JobResult R
  exception : JobResult R

-- The `std::logic_error`s of the class.
pub data BatchError : Type 0 where
  already_started proxy_thread_job completion_twice empty_batch : BatchError

-- `C` is the type of the completion function.
pub record Batch (J R C : Type 0) : Type 0 where
  pub jobs : List (J × ℤ)
  pub results : List (JobResult R)
  pub complete_fn : Option C
  pub jobs_outstanding : ℕ  -- size_t
  pub complete_in_thread : ℤ
  pub started : Bool
  pub tagged_thread_jobs : Bool

abbrev pub size_t_mod : ℕ
size_t_mod = 2 ^ 64

-- `--n` on a size_t.
abbrev pub size_t_pred : ℕ → ℕ
size_t_pred n = (n + (size_t_mod - 1)) % size_t_mod

-- `thread && thread->_id == -1`
abbrev pub is_proxy_thread : Option ℤ → Bool
is_proxy_thread none = false
is_proxy_thread (some t) = is_minus_one t

-- `thread ? thread->_id : 0`
abbrev pub thread_or_any : Option ℤ → ℤ
thread_or_any none = pos 0
thread_or_any (some t) = t

abbrev pub is_set {ℓ} : {A : Type ℓ} → Option A → Bool
is_set none = false
is_set (some c) = true

-- `set_value` and the `catch (...)` of `run_job`.
abbrev pub outcome : {R : Type 0} → Option R → JobResult R
outcome none = exception
outcome (some r) = value r

module _ {J R C : Type 0} where
  unfoldable pub empty : Batch J R C
  empty = record {
    jobs = [];
    results = [];
    complete_fn = none;
    jobs_outstanding = 0;
    complete_in_thread = pos 0;
    started = false;
    tagged_thread_jobs = false;
  }

  unfoldable pub check_not_started : Batch J R C → Result BatchError (Unit {0})
  check_not_started b = throw_if b.started already_started

  -- The private `add_job`.
  unfoldable pub add_job_in : Batch J R C → J → ℤ → Batch J R C
  add_job_in b job thread_id = record b {
    jobs = b.jobs ++ (job, thread_id) ∷ [];
    results = b.results ++ unset ∷ [];
    jobs_outstanding = (b.jobs_outstanding + 1) % size_t_mod;
    tagged_thread_jobs = if is_zero thread_id then b.tagged_thread_jobs else true;
  }

  unfoldable pub add_job : Batch J R C → J → Option ℤ → Result BatchError (Batch J R C)
  unfolding check_not_started add_job_in
  add_job b job thread = do
    check_not_started b
    throw_if (is_proxy_thread thread) proxy_thread_job
    ok (add_job_in b job (thread_or_any thread))

  unfoldable pub completion : Batch J R C → C → Option ℤ → Result BatchError (Batch J R C)
  unfolding check_not_started
  completion b comp thread = do
    check_not_started b
    throw_if (is_set b.complete_fn) completion_twice
    ok (record b { complete_fn = some comp; complete_in_thread = thread_or_any thread })

  unfoldable pub size : Batch J R C → ℕ × Bool
  size b = (length b.jobs, b.tagged_thread_jobs)

  unfoldable pub threads : Batch J R C → List ℤ
  threads b = map (λ j. j.1) b.jobs

  unfoldable pub job_finished : Batch J R C → Batch J R C × BatchStatus
  job_finished b =
      let left = size_t_pred b.jobs_outstanding in
      (
        record b { jobs_outstanding = left },
        if not (left == 0)
            then record { state = running; thread = pos 0 }
            else if is_set b.complete_fn
            then record { state = complete; thread = b.complete_in_thread }
            else record { state = done; thread = pos 0 },
      )

  -- Called by a worker thread. An index past the end is undefined in the source and changes nothing
  -- here.
  pub run_job : (J → Option R) → Batch J R C → ℕ → Batch J R C
  run_job invoke b i = elim (get_elem? b.jobs i) [
    | none ↦ b
    | some (job, thread) ↦ record b { results = modify b.results i (λ _. outcome (invoke job)) }
  ]

  -- The call of the completion function gets the results, which are moved out of the batch.
  pub job_completion : Batch J R C → Batch J R C × Option (C × List (JobResult R))
  job_completion b = elim b.complete_fn [
    | none ↦ (b, none)
    | some c ↦ (record b { results = [] }, some (c, b.results))
  ]

  -- `OxenMQ::batch`: the batch is moved to the heap and its pointer sent to the proxy as BATCH.
  pub submit : Batch J R C → Result BatchError (Batch J R C)
  unfolding size
  submit b = do throw_if ((size b).0 == 0) empty_batch; ok b
