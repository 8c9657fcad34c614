-- ===== src/Batch/Dynamic.antt =====
-- oxenmq/batch.h: the object behind a `detail::Batch*` is a `Batch<R>` or a `Job`, and the two
-- classes together implement the interface.
use oxen_mq.Common.{
  ℕ, zero, suc, ◌%◌, ◌<◌, ◌≡◌, refl, sym, ap, subst, length-map, length-append, Bool, true, not,
  Option, none, some, List, [], ◌∷◌, ◌++◌, length, map, any, is_zero, ℤ, arith, ok, ok_inj,
  throw_if-ok, if◌then◌else◌,
}
use oxen_mq.Batch.{BatchStatus, BatchOps, BatchLaws, last_status, after_finished}
use oxen_mq.Batch.Typed.{
  Batch, empty, add_job, add_job_in, check_not_started, completion, size, threads, job_finished,
  size_t_mod, thread_or_any, is_proxy_thread, is_set,
}
use oxen_mq.Batch.Typed.Lifecycle.{map-snoc, final_status, finish_times, job_finished-sequence}
use oxen_mq.Batch.Job.{Job, make_job, job_size, job_threads, job_job_finished}

pub data AnyBatch (J R C : Type 0) : Type 0 where
  batch : Batch J R C → AnyBatch J R C
  job : Job J → AnyBatch J R C

any-snoc :
    (ts : List ℤ) (t : ℤ)
    → any (λ x. not (is_zero x)) (ts ++ t ∷ [])
      ≡ (if is_zero t then any (λ x. not (is_zero x)) ts else true)
any-snoc [] t = ground arith
any-snoc (x ∷ ts) t = ground (arith, any-snoc ts t)

module _ {J R C : Type 0} where
  -- Virtual dispatch.
  abbrev pub any_size : AnyBatch J R C → ℕ × Bool
  unfolding size job_size
  any_size (batch b) = size b
  any_size (job j) = job_size j

  abbrev pub any_threads : AnyBatch J R C → List ℤ
  unfolding threads job_threads
  any_threads (batch b) = threads b
  any_threads (job j) = job_threads j

  abbrev pub any_job_finished : AnyBatch J R C → AnyBatch J R C × BatchStatus
  unfolding job_finished job_job_finished
  any_job_finished (batch b) = let (b', s) = job_finished b in (batch b', s)
  any_job_finished (job j) = let (j', s) = job_job_finished j in (job j', s)

  unfoldable pub any_ops : BatchOps (AnyBatch J R C)
  unfolding any_size any_threads any_job_finished
  any_ops = record { size = any_size; threads = any_threads; job_finished = any_job_finished }

  -- An object that the public members make: the threads asked for, in order (0 for none), and that
  -- of the completion function.
  pub data Made : AnyBatch J R C → List ℤ → Option ℤ → Type 0 where
    new_batch : Made (batch empty) [] none
    added :
        {b c : Batch J R C} {ts : List ℤ} {on_complete : Option ℤ} (f : J) (thread : Option ℤ)
        → Made (batch b) ts on_complete
        → add_job b f thread ≡ ok c
        → Made (batch c) (ts ++ thread_or_any thread ∷ []) on_complete
    completed :
        {b c : Batch J R C} {ts : List ℤ} {on_complete : Option ℤ} (f : C) (thread : Option ℤ)
        → Made (batch b) ts on_complete
        → completion b f thread ≡ ok c
        → Made (batch c) ts (some (thread_or_any thread))
    single :
        {j : Job J} (f : J) (thread : Option ℤ)
        → make_job f thread ≡ ok j
        → Made (job j) (thread_or_any thread ∷ []) none

  -- What the fields of a batch then hold; its count is a `size_t`.
  record Holds (b : Batch J R C) (ts : List ℤ) (on_complete : Option ℤ) : Type 0 where
    requested : map (λ j. j.1) b.jobs ≡ ts
    tags : b.tagged_thread_jobs ≡ any (λ t. not (is_zero t)) ts
    outstanding : b.jobs_outstanding ≡ length ts % size_t_mod
    final : final_status b ≡ last_status on_complete

  add_job_in-Holds :
      (b : Batch J R C) (f : J) (t : ℤ) (ts : List ℤ) (on_complete : Option ℤ)
      → Holds b ts on_complete
      → Holds (add_job_in b f t) (ts ++ t ∷ []) on_complete
  unfolding add_job_in
  add_job_in-Holds b f t ts on_complete h = record {
    requested = rw (map-snoc (λ (j : J × ℤ). j.1) b.jobs (f, t), h.requested) refl;
    tags = rw (any-snoc ts t, h.tags) refl;
    outstanding = omega (arith, h.outstanding, length-append ts (t ∷ []));
    final = h.final;
  }

  add_job-in :
      (b c : Batch J R C) (f : J) (thread : Option ℤ)
      → add_job b f thread ≡ ok c
      → c ≡ add_job_in b f (thread_or_any thread)
  unfolding add_job check_not_started
  add_job-in b c f thread e =
      let (_, h) = throw_if-ok b.started _ _ c e in
      let (_, k) = throw_if-ok (is_proxy_thread thread) _ _ c h in sym (ok_inj k)

  completion-Holds :
      (b c : Batch J R C) (f : C) (thread : Option ℤ) (ts : List ℤ) (on_complete : Option ℤ)
      → completion b f thread ≡ ok c
      → Holds b ts on_complete
      → Holds c ts (some (thread_or_any thread))
  unfolding completion check_not_started
  completion-Holds b c f thread ts on_complete e h =
      let (_, i) = throw_if-ok b.started _ _ c e in
      let (_, k) = throw_if-ok (is_set b.complete_fn) _ _ c i in
      subst (λ (x : Batch J R C). Holds x ts (some (thread_or_any thread))) (ok_inj k)
        (record {
          requested = h.requested;
          tags = h.tags;
          outstanding = h.outstanding;
          final = refl;
        })

  -- The object holds what was asked for.
  abbrev AnyHolds : AnyBatch J R C → List ℤ → Option ℤ → Type 0
  AnyHolds (batch b) ts on_complete = Holds b ts on_complete
  AnyHolds (job j) ts on_complete = (ts ≡ j.thread ∷ []) × (on_complete ≡ none)

  Made-AnyHolds :
      {b : AnyBatch J R C} {ts : List ℤ} {on_complete : Option ℤ}
      → Made b ts on_complete
      → AnyHolds b ts on_complete
  unfolding empty make_job
  Made-AnyHolds new_batch = record {
    requested = refl;
    tags = refl;
    outstanding = refl;
    final = refl;
  }
  Made-AnyHolds (added {b} {c} {ts} {on_complete} f thread m e) =
      subst (λ (x : Batch J R C). Holds x (ts ++ thread_or_any thread ∷ []) on_complete)
        (sym (add_job-in b c f thread e))
        (add_job_in-Holds b f (thread_or_any thread) ts on_complete (Made-AnyHolds m))
  Made-AnyHolds (completed {b} {c} {ts} {on_complete} f thread m e) =
      completion-Holds b c f thread ts on_complete e (Made-AnyHolds m)
  Made-AnyHolds (single {j} f thread e) =
      let (_, h) = throw_if-ok (is_proxy_thread thread) _ _ j e in
      (ap (λ (x : Job J). x.thread ∷ []) (ok_inj h), refl)

  after_finished-batch :
      (k : ℕ) (b : Batch J R C) → after_finished any_ops k (batch b) ≡ batch (finish_times k b)
  unfolding any_ops after_finished finish_times job_finished
  after_finished-batch zero b = refl
  after_finished-batch (suc k) b = after_finished-batch k (job_finished b).0

  batch-BatchLaws :
      (b : Batch J R C) (ts : List ℤ) (on_complete : Option ℤ)
      → length ts < size_t_mod
      → Holds b ts on_complete
      → BatchLaws any_ops (batch b) ts on_complete
  unfolding any_ops size threads
  batch-BatchLaws b ts on_complete small h = record {
    size_is = rw (← h.requested, length-map b.jobs (λ j. j.1)) (rw (h.tags, h.requested) refl);
    threads_are = h.requested;
    finished_is = λ k left e.
        rw (after_finished-batch k b, ← h.final)
          (job_finished-sequence k left b (omega (arith, h.outstanding)) (omega arith));
  }

  job-BatchLaws : (j : Job J) → BatchLaws any_ops (job j) (j.thread ∷ []) none
  unfolding any_ops job_size job_threads job_job_finished after_finished
  job-BatchLaws j = record {
    size_is = ground arith;
    threads_are = refl;
    finished_is = λ k left e. ground arith;
  }

  -- A batch or a job that was made by the public members, with fewer than 2^64 jobs, tells the proxy
  -- through the interface: how many jobs were added and whether one asks for a thread; the threads
  -- asked for, in order; and, on each return of a job but the last, that it is still running, on the
  -- last, that it is complete, with the thread of the completion function, or done if it has none.
  pub any_ops-BatchLaws :
      {b : AnyBatch J R C} {ts : List ℤ} {on_complete : Option ℤ}
      → Made b ts on_complete
      → length ts < size_t_mod
      → BatchLaws any_ops b ts on_complete
  any_ops-BatchLaws {b = batch b} {ts = ts} {on_complete = on_complete} m small =
      batch-BatchLaws b ts on_complete small (Made-AnyHolds m)
  any_ops-BatchLaws {b = job j} {ts = ts} {on_complete = on_complete} m small =
      let (e, f) = Made-AnyHolds m in rw (e, f) (job-BatchLaws j)
