-- ===== src/Pool/Progress.antt =====
-- oxenmq/jobs.cpp and oxenmq/proxy.cpp: the queues are served in order, and no job waits while there
-- is a spot for it.
use oxen_mq.Common.{
  ℕ, zero, suc, ◌+◌, ◌≤◌, ◌≡◌, refl, sym, ◌∙◌, ap, ◌⊎◌, inl, inr, Bool, true, false, not, ◌&&◌,
  Option, none, some, List, [], ◌∷◌, ◌++◌, length, Bool-cases, some_inj, if_true, if_false,
  get_elem?, ltb, ◌==◌, arith, if◌then◌else◌,
}
use oxen_mq.Pool.{Pool, BatchJob, TaggedWorker, Effect, RunInfo, ToRun, batch_ptr, active_workers}
use oxen_mq.Pool.Workers.{load_batch_job}
use oxen_mq.Pool.Jobs.{
  jobs_queue, jobs_reserved, jobs_active, may_run_job, run_batch_job, run_batch_jobs,
  proxy_run_batch_jobs, run_tagged, run_all_tagged, run_tagged_workers,
}
use oxen_mq.Pool.Measures.{one_if}
use oxen_mq.Pool.Validity.{IsValid}
use oxen_mq.Pool.Draining.{run_batch_job-IsValid}
use oxen_mq.Pool.Handing.{busy, runs, Handed, run_on_idle-Handed}

-- What a tagged worker has to do after one pass: a busy one is left alone, an idle one has taken
-- the first job of its queue, if there is one.
abbrev pub TaggedServed : TaggedWorker → TaggedWorker → Type 0
TaggedServed t u =
    ((t.busy ≡ true) × (u ≡ t))
    ⊎ (((t.busy ≡ false) × (t.queue ≡ []) × (u ≡ t))
        ⊎ ((j : BatchJob) × (t.busy ≡ false)
            × (t.queue ≡ j ∷ u.queue)
            × (u.busy ≡ true)
            × (u.run ≡ load_batch_job j false t.run.worker_id t.run)))

run_tagged-TaggedServed :
    (js : List BatchJob) (t : TaggedWorker) → t.queue ≡ js → TaggedServed t (run_tagged js t).0
run_tagged-TaggedServed [] t e = elim (Bool-cases t.busy) [
  | inl b ↦ inl (b, refl)
  | inr b ↦ inr (inl (b, e, refl))
]
run_tagged-TaggedServed (j ∷ rest) t e = elim (Bool-cases t.busy) [
  | inl b ↦ inl (b, ap (λ (r : TaggedWorker × List Effect). r.0) (if_true _ _ b))
  | inr b ↦
      let q : (run_tagged (j ∷ rest) t).0 ≡ record t {
        run = load_batch_job j false t.run.worker_id t.run;
        busy = true;
        queue = rest;
      } =
        ap (λ (r : TaggedWorker × List Effect). r.0) (if_false _ _ b) in
      inr (
        inr (
          j,
          b,
          e ∙ ap (λ (u : TaggedWorker). j ∷ u.queue) (sym q),
          ap (λ (u : TaggedWorker). u.busy) q,
          ap (λ (u : TaggedWorker). u.run) q,
        ))
]

run_all_tagged-TaggedServed :
    (ts : List TaggedWorker) (i : ℕ) (t : TaggedWorker)
    → get_elem? ts i ≡ some t
    → (u : TaggedWorker) × (get_elem? (run_all_tagged ts).0 i ≡ some u) × TaggedServed t u
run_all_tagged-TaggedServed [] i t e = absurd (cc)
run_all_tagged-TaggedServed (x ∷ ts) zero t e =
    let same : x ≡ t = some_inj e in
    ((run_tagged x.queue x).0, refl, rw (← same) (run_tagged-TaggedServed x.queue x refl))
run_all_tagged-TaggedServed (x ∷ ts) (suc i) t e = run_all_tagged-TaggedServed ts i t e

abbrev runs_batch : ToRun → ℕ → Bool
runs_batch (batch_ptr b) c = b == c
runs_batch _ c = false

abbrev is_jobno : Option ℕ → Option ℕ → Bool
is_jobno none none = true
is_jobno (some i) (some k) = i == k
is_jobno _ _ = false

abbrev same_job : BatchJob → BatchJob → Bool
same_job (b, i) (c, k) = (b == c) && is_jobno i k

-- The worker has this job of the batch queue or, with `reply`, of the reply queue.
abbrev pub has_job : Bool → BatchJob → RunInfo → Bool
has_job reply (b, i) r =
    r.is_batch_job
    && not r.is_tagged_thread_job
    && (if reply then r.is_reply_job else not r.is_reply_job)
    && runs_batch r.to_run b
    && is_jobno r.batch_jobno i

-- How often a job is in a list.
abbrev pub times : BatchJob → List BatchJob → ℕ
times j [] = 0
times j (k ∷ ks) = one_if (same_job k j) + times j ks

has_job-load_batch_job :
    (reply : Bool) (j k : BatchJob) (r : RunInfo)
    → has_job reply j (load_batch_job k reply 0 r) ≡ same_job k j
unfolding load_batch_job
has_job-load_batch_job true (b, i) (c, k) r = ground arith
has_job-load_batch_job false (b, i) (c, k) r = ground arith

module _ {B : Type 0} where
  jobs_queue-run_batch_job :
      (reply : Bool) (j : BatchJob) (rest : List BatchJob) (p : Pool B)
      → jobs_queue reply (run_batch_job reply j rest p) ≡ rest
  unfolding run_batch_job
  jobs_queue-run_batch_job true j rest p = refl
  jobs_queue-run_batch_job false j rest p = refl

  run_batch_job-Handed :
      (reply : Bool) (j k : BatchJob) (rest : List BatchJob) (p : Pool B)
      → IsValid p
      → Handed (has_job reply j) (same_job k j) p (run_batch_job reply k rest p)
  unfolding run_batch_job
  run_batch_job-Handed true j k rest p v =
      run_on_idle-Handed (has_job true j) (load_batch_job k true 0) (same_job k j) p (λ r. refl)
        (has_job-load_batch_job true j k) v
  run_batch_job-Handed false j k rest p v =
      run_on_idle-Handed (has_job false j) (load_batch_job k false 0) (same_job k j) p (λ r. refl)
        (has_job-load_batch_job false j k) v

  -- Each of `ran` has a worker of its own, which was told to run.
  pub record AllHanded (reply : Bool) (ran : List BatchJob) (p q : Pool B) : Type 0 where
    pub workers_have :
        (j : BatchJob) → busy (has_job reply j) q ≡ busy (has_job reply j) p + times j ran
    pub told : runs q.effects ≡ runs p.effects + length ran

  -- Nothing is queued, all workers are busy, or neither a reserved nor a general spot is free.
  abbrev pub Exhausted : Bool → Pool B → Type 0
  Exhausted reply q =
      (jobs_queue reply q ≡ [])
      ⊎ ((q.max_workers ≤ active_workers q)
          ⊎ ((jobs_reserved reply q ≤ jobs_active reply q)
              × (q.general_workers ≤ active_workers q)))

  may_run_job-Exhausted :
      (reply : Bool) (q : Pool B) → may_run_job reply q ≡ false → Exhausted reply q
  may_run_job-Exhausted reply q h = elim (Bool-cases (ltb (active_workers q) q.max_workers)) [
    | inr full ↦ inr (inl (ground arith))
    | inl room ↦ inr (inr (ground arith, ground arith))
  ]

  abbrev Served : Bool → List BatchJob → Pool B → Pool B → Type 0
  Served reply js p q =
      (ran : List BatchJob) × (js ≡ ran ++ jobs_queue reply q)
      × AllHanded reply ran p q
      × Exhausted reply q

  none_handed : (reply : Bool) (p : Pool B) → AllHanded reply [] p p
  none_handed reply p = record { workers_have = λ j. omega arith; told = omega arith }

  one_handed :
      (reply : Bool) (k : BatchJob) (rest ran : List BatchJob) (p q : Pool B)
      → IsValid p
      → AllHanded reply ran (run_batch_job reply k rest p) q
      → AllHanded reply (k ∷ ran) p q
  one_handed reply k rest ran p q v a = record {
    workers_have = λ j.
        let (has, _) = run_batch_job-Handed reply j k rest p v in
        omega (arith, has, a.workers_have j);
    told = let (_, told) = run_batch_job-Handed reply k k rest p v in omega (arith, told, a.told);
  }

  run_batch_jobs-Served :
      (reply : Bool) (js : List BatchJob) (p : Pool B)
      → IsValid p
      → jobs_queue reply p ≡ js
      → Served reply js p (run_batch_jobs reply js p)
  unfolding run_batch_jobs
  run_batch_jobs-Served reply [] p v e = ([], sym e, none_handed reply p, inl e)
  run_batch_jobs-Served reply (j ∷ rest) p v e = elim (Bool-cases (may_run_job reply p)) [
    | inr full ↦
        rw (full, run_batch_jobs)
          ([], sym e, none_handed reply p, may_run_job-Exhausted reply p full)
    | inl room ↦
        let (ran, split, handed, stop) =
          run_batch_jobs-Served reply rest (run_batch_job reply j rest p)
            (run_batch_job-IsValid reply j rest p room v)
            (jobs_queue-run_batch_job reply j rest p) in
        rw (room, run_batch_jobs)
          (j ∷ ran, ap (◌∷◌ j) split, one_handed reply j rest ran p _ v handed, stop)
  ]

  -- In a valid pool `proxy_run_batch_jobs` takes jobs from the front of the queue. For every job the
  -- number of busy workers that have it grows by how often it was taken, and as many workers are told to
  -- run as jobs were taken. It stops only when the queue is empty, all workers are busy, or no reserved
  -- and no general spot is free.
  pub proxy_run_batch_jobs-Served :
      (reply : Bool) (p : Pool B)
      → IsValid p
      → (ran : List BatchJob) × (jobs_queue reply p
          ≡ ran ++ jobs_queue reply (proxy_run_batch_jobs reply p))
        × AllHanded reply ran p (proxy_run_batch_jobs reply p)
        × Exhausted reply (proxy_run_batch_jobs reply p)
  unfolding proxy_run_batch_jobs
  proxy_run_batch_jobs-Served reply p v = run_batch_jobs-Served reply (jobs_queue reply p) p v refl

  -- In one pass over the tagged workers each idle one with queued jobs takes the first of them and
  -- is busy; the others are left as they are.
  pub run_tagged_workers-TaggedServed :
      (p : Pool B) (i : ℕ) (t : TaggedWorker)
      → get_elem? p.tagged_workers i ≡ some t
      → (u : TaggedWorker) × (get_elem? (run_tagged_workers p).tagged_workers i ≡ some u)
        × TaggedServed t u
  unfolding run_tagged_workers
  run_tagged_workers-TaggedServed p = run_all_tagged-TaggedServed p.tagged_workers
