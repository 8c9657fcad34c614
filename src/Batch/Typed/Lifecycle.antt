-- ===== src/Batch/Typed/Lifecycle.antt =====
-- oxenmq/batch.h, `class Batch<R>`: what its members promise, from the first `add_job` to the end
-- of the last job.
use oxen_mq.Common.{
  ℕ, zero, suc, ◌+◌, ◌<◌, ◌≡◌, refl, true, false, Option, some, List, [], ◌∷◌, ◌++◌, length,
  length-append, length-modify, All, ℤ, pos, negsuc, ok, err, arith, map, get_elem?,
  get_elem?_total, get_elem?-modify_self, get_elem?-modify_ne, get_elem?-lt, is_zero, if_same,
  Bool-cases, Option-cases, any, ==_iff, if◌then◌else◌, ◌==◌, ap, ◌≢◌, ◌∙◌, ◌⊎◌, inl, inr,
}
use oxen_mq.Batch.{BatchStatus, running, complete, done}
use oxen_mq.Batch.Typed.{
  Batch, JobResult, size_t_mod, size_t_pred, empty, add_job_in, add_job, job_finished, run_job,
  is_set, outcome, is_proxy_thread, thread_or_any, proxy_thread_job,
}

pub eq_of_is_zero : (t : ℤ) → is_zero t ≡ true → t ≡ pos 0
eq_of_is_zero (pos zero) h = refl
eq_of_is_zero (pos (suc n)) h = cc
eq_of_is_zero (negsuc n) h = cc

abbrev pub AnyThread : ℤ → Type 0
AnyThread t = t ≡ pos 0

All-snoc {ℓ κ} :
    {J : Type ℓ} (P : J → Type κ) (js : List J) (j : J) → All P js → P j → All P (js ++ j ∷ [])
All-snoc P [] j h e = (e, tt)
All-snoc P (x ∷ js) j h e = (h.0, All-snoc P js j h.1 e)

pub map-snoc {ℓ κ} :
    {A : Type ℓ} {B : Type κ} (f : A → B) (xs : List A) (x : A)
    → map f (xs ++ x ∷ []) ≡ map f xs ++ f x ∷ []
map-snoc f [] x = refl
map-snoc f (y ∷ xs) x = rw (map-snoc f xs x)

module _ {J R C : Type 0} where
  -- A batch that is being filled: one result slot and one outstanding job for each job, and the
  -- flag for thread-specific jobs set unless every job may run anywhere.
  pub record IsFilling (b : Batch J R C) : Type 0 where
    pub slots : length b.results ≡ length b.jobs
    pub outstanding : b.jobs_outstanding ≡ length b.jobs
    pub tags : b.tagged_thread_jobs ≡ false → All AnyThread (map (λ j. j.1) b.jobs)
    pub unstarted : b.started ≡ false

  pub empty-IsFilling : IsFilling empty
  unfolding empty
  empty-IsFilling = record { slots = refl; outstanding = refl; tags = λ _. tt; unstarted = refl }

  add_job_in-tags :
      (b : Batch J R C) (job : J) (t : ℤ)
      → IsFilling b
      → (add_job_in b job t).tagged_thread_jobs ≡ false
      → All AnyThread (map (λ j. j.1) (add_job_in b job t).jobs)
  unfolding add_job_in
  add_job_in-tags b job t v h = elim (Bool-cases (is_zero t)) [
    | inl z ↦
        rw (map-snoc (λ (j : J × ℤ). j.1) b.jobs (job, t))
          (All-snoc AnyThread _ t (v.tags (ground arith)) (eq_of_is_zero t z))
    | inr z ↦ absurd (ground arith)
  ]

  pub add_job_in-IsFilling :
      (b : Batch J R C) (job : J) (t : ℤ)
      → length b.jobs + 1 < size_t_mod
      → IsFilling b
      → IsFilling (add_job_in b job t)
  add_job_in-IsFilling b job t h v = record {
    slots =
        unfold add_job_in in
        omega (
          arith,
          length-append b.results (JobResult.unset ∷ []),
          length-append b.jobs ((job, t) ∷ []),
          v.slots,
        );
    outstanding =
        unfold add_job_in in omega (arith, length-append b.jobs ((job, t) ∷ []), v.outstanding);
    tags = add_job_in-tags b job t v;
    unstarted = unfold add_job_in in v.unstarted;
  }

  -- `add_job` refuses exactly the in-proxy thread, and otherwise appends the job, for the thread
  -- asked for, to a batch that is still well-formed: the check for a started batch never fires.
  pub add_job-IsFilling :
      (b : Batch J R C) (job : J) (thread : Option ℤ)
      → IsFilling b
      → length b.jobs + 1 < size_t_mod
      → ((is_proxy_thread thread ≡ true) × (add_job b job thread ≡ err proxy_thread_job))
        ⊎ ((c : Batch J R C) × (add_job b job thread ≡ ok c)
            × IsFilling c
            × (c.jobs ≡ b.jobs ++ (job, thread_or_any thread) ∷ []))
  unfolding add_job
  add_job-IsFilling b job thread v h = elim (Bool-cases (is_proxy_thread thread)) [
    | inl p ↦ inl (p, ground (arith, v.unstarted))
    | inr p ↦ inr (
      add_job_in b job (thread_or_any thread),
      ground (arith, v.unstarted),
      add_job_in-IsFilling b job _ h v,
      refl,
    )
  ]

  -- The batch after `k` of its jobs have come back.
  unfoldable pub finish_times : ℕ → Batch J R C → Batch J R C
  finish_times zero b = b
  finish_times (suc k) b = finish_times k (job_finished b).0

  -- What the last job's return reports.
  abbrev pub final_status : Batch J R C → BatchStatus
  final_status b =
      if is_set b.complete_fn
      then record { state = complete; thread = b.complete_in_thread }
      else record { state = done; thread = pos 0 }

  pred_outstanding :
      (b : Batch J R C) (left : ℕ)
      → b.jobs_outstanding ≡ suc left
      → suc left < size_t_mod
      → size_t_pred b.jobs_outstanding ≡ left
  pred_outstanding b left e h = omega arith

  job_finished-status :
      (b : Batch J R C) (left : ℕ)
      → b.jobs_outstanding ≡ suc left
      → suc left < size_t_mod
      → (job_finished b).1
        ≡ (if left == 0 then final_status b else record { state = running; thread = pos 0 })
  unfolding job_finished
  job_finished-status b left e h =
      rw (pred_outstanding b left e h)
        (elim (Bool-cases (left == 0)) [ inl z ↦ rw z refl | inr z ↦ rw z refl ])

  -- `job_finished` touches the count alone.
  job_finished-frame :
      (b : Batch J R C) (left : ℕ)
      → b.jobs_outstanding ≡ suc left
      → suc left < size_t_mod
      → ((job_finished b).0.jobs_outstanding ≡ left)
        × ((job_finished b).0.complete_fn ≡ b.complete_fn)
        × ((job_finished b).0.complete_in_thread ≡ b.complete_in_thread)
  unfolding job_finished
  job_finished-frame b left e h = (pred_outstanding b left e h, refl, refl)

  final_status-frame :
      (b c : Batch J R C)
      → c.complete_fn ≡ b.complete_fn
      → c.complete_in_thread ≡ b.complete_in_thread
      → final_status c ≡ final_status b
  final_status-frame b c e f = rw (e, f)

  -- Of the jobs still outstanding, the return of each but the last reports `running`, and that of
  -- the last reports `complete` in the thread asked for if there is a completion function and
  -- `done` if there is none.
  pub job_finished-sequence :
      (k left : ℕ) (b : Batch J R C)
      → b.jobs_outstanding ≡ k + suc left
      → k + suc left < size_t_mod
      → (job_finished (finish_times k b)).1
        ≡ (if left == 0 then final_status b else record { state = running; thread = pos 0 })
  unfolding finish_times
  job_finished-sequence zero left b e h = job_finished-status b left (omega arith) (omega arith)
  job_finished-sequence (suc k) left b e h =
      let (n, f, t) = job_finished-frame b (k + suc left) (omega arith) (omega arith) in
      rw (← final_status-frame b (job_finished b).0 f t)
        (job_finished-sequence k left (job_finished b).0 n (omega arith))

-- Running the jobs, in workers: `run_job` for each index of `order`.
module _ {J R C : Type 0} (invoke : J → Option R) where
  pub run_jobs : List ℕ → Batch J R C → Batch J R C
  run_jobs [] b = b
  run_jobs (i ∷ order) b = run_jobs order (run_job invoke b i)

  run_job-result :
      (b : Batch J R C) (i : ℕ) (job : J × ℤ)
      → get_elem? b.jobs i ≡ some job
      → i < length b.results
      → get_elem? (run_job invoke b i).results i ≡ some (outcome (invoke job.0))
  unfolding run_job
  run_job-result b i (job, t) e h =
      let (r, q) = get_elem?_total b.results i h in
      rw (e, run_job) (get_elem?-modify_self b.results i (λ _. outcome (invoke job)) r q)

  run_job-hit :
      (b : Batch J R C) (i k : ℕ) (job : J × ℤ)
      → i ≡ k
      → get_elem? b.jobs k ≡ some job
      → length b.results ≡ length b.jobs
      → get_elem? (run_job invoke b i).results k ≡ some (outcome (invoke job.0))
  run_job-hit b i k job p e s =
      rw p (run_job-result b k job e (omega (arith, get_elem?-lt b.jobs k job e)))

  run_job-other :
      (b : Batch J R C) (i k : ℕ)
      → i ≢ k
      → get_elem? (run_job invoke b i).results k ≡ get_elem? b.results k
  unfolding run_job
  run_job-other b i k h = elim (Option-cases (get_elem? b.jobs i)) [
    | inl e ↦ rw (e, run_job) refl
    | inr ((job, t), e) ↦
        rw (e, run_job) (get_elem?-modify_ne b.results i k (λ _. outcome (invoke job)) h)
  ]

  run_job-frame :
      (b : Batch J R C) (i : ℕ)
      → ((run_job invoke b i).jobs ≡ b.jobs)
        × (length (run_job invoke b i).results ≡ length b.results)
  unfolding run_job
  run_job-frame b i = elim (Option-cases (get_elem? b.jobs i)) [
    | inl e ↦ rw (e, run_job) (refl, refl)
    | inr ((job, t), e) ↦ rw (e, run_job) (refl, length-modify b.results i _)
  ]

  -- Whatever the order in which workers run the jobs of a batch, and however often, each job that
  -- was run has its own outcome in its own slot (its value, or the exception it threw), and the
  -- slot of a job that was not run is as before.
  pub run_jobs-results :
      (order : List ℕ) (b : Batch J R C) (k : ℕ) (job : J × ℤ)
      → length b.results ≡ length b.jobs
      → get_elem? b.jobs k ≡ some job
      → get_elem? (run_jobs order b).results k
        ≡ (if any (λ i. i == k) order then some (outcome (invoke job.0)) else get_elem? b.results k)
  unfolding run_jobs
  run_jobs-results [] b k job s e = refl
  run_jobs-results (i ∷ order) b k job s e =
      let (f, g) = run_job-frame b i in
      let ih =
        run_jobs-results order (run_job invoke b i) k job (omega (arith, ap length f)) (rw f e) in
      elim (Bool-cases (i == k)) [
        | inl p ↦
            rw p (
              ih ∙ if_same (any (λ i. i == k) order) (run_job-hit b i k job ((==_iff i k).0 p) e s))
        | inr p ↦ rw p (
            ih
            ∙ ap (λ t. if any (λ i. i == k) order then some (outcome (invoke job.0)) else t)
                (run_job-other b i k (λ q. ground arith)))
      ]
