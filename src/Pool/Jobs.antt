-- ===== src/Pool/Jobs.antt =====
-- oxenmq/jobs.cpp (`proxy_batch`, `proxy_schedule_reply_job`, `proxy_run_batch_jobs`) and
-- oxenmq/proxy.cpp (`proxy_process_queue`).
use oxen_mq.Common.{
  ℕ, zero, suc, ◌+◌, ◌-◌, Bool, true, false, not, ◌&&◌, ◌||◌, Option, none, some, List, [], ◌∷◌,
  ◌++◌, ℤ, pos, negsuc, length, modify, get_elem?, if◌then◌else◌, ltb, ◌==◌,
}
use oxen_mq.Batch.{BatchOps}
use oxen_mq.Pool.{
  Pool, PendingCommand, TaggedWorker, BatchJob, Effect, start_thread, send_run, active_workers,
  category_active, category_reserved,
}
use oxen_mq.Pool.Workers.{load_batch_job, load_pending, run_on_idle}

-- `thread > 0 ? std::get<batch_queue>(tagged_workers[thread - 1]) : batch_jobs`: which queue.
abbrev pub thread_target : ℤ → Option ℕ
thread_target (pos zero) = none
thread_target (pos (suc n)) = some n
thread_target (negsuc n) = none

-- `jobs.emplace_back(batch, i)` on a tagged worker's queue.
abbrev pub push_job : BatchJob → TaggedWorker → TaggedWorker
push_job j t = record t { queue = t.queue ++ j ∷ [] }

-- The loop of `proxy_batch` for a batch without thread-specific jobs: its `n` jobs, from `i` on.
unfoldable pub general_jobs : ℕ → ℕ → ℕ → List BatchJob
general_jobs b i zero = []
general_jobs b i (suc n) = (b, some i) ∷ general_jobs b (suc i) n

-- One idle tagged worker takes the first job of its queue.
abbrev pub run_tagged : List BatchJob → TaggedWorker → TaggedWorker × List Effect
run_tagged [] t = (t, [])
run_tagged (j ∷ rest) t = if t.busy then (t, []) else (
  record t { run = load_batch_job j false t.run.worker_id t.run; busy = true; queue = rest },
  (if t.run.joinable then send_run true t.run.worker_id else start_thread t.run.worker_id) ∷ [],
)

abbrev pub run_all_tagged : List TaggedWorker → List TaggedWorker × List Effect
run_all_tagged [] = ([], [])
run_all_tagged (t ∷ ts) =
    let (t', e) = run_tagged t.queue t in let (ts', es) = run_all_tagged ts in (t' ∷ ts', es ++ e)

module _ {B : Type 0} where
  abbrev pub push_target : Option ℕ → BatchJob → Pool B → Pool B
  push_target none j p = record p { batch_jobs = p.batch_jobs ++ j ∷ [] }
  push_target (some t) j p = record p { tagged_workers = modify p.tagged_workers t (push_job j) }

  -- Queues a job for the thread that it asks for.
  unfoldable pub queue_job : ℤ → BatchJob → Pool B → Pool B
  queue_job thread j p = push_target (thread_target thread) j p

  -- The loop of `proxy_batch` over the thread ids, from job number `i` on.
  unfoldable pub queue_jobs : ℕ → ℕ → List ℤ → Pool B → Pool B
  queue_jobs b i [] p = p
  queue_jobs b i (t ∷ ts) p = queue_jobs b (suc i) ts (queue_job t (b, some i) p)

  -- `new Batch<R>(...)`: the object that a BATCH command points to.
  unfoldable pub adopt : B → Pool B → Pool B × ℕ
  adopt b p = (record p { batches = p.batches ++ some b ∷ [] }, length p.batches)

  unfoldable pub batch_at : Pool B → ℕ → Option B
  batch_at p b = elim (get_elem? p.batches b) [ none ↦ none | some o ↦ o ]

  -- Queues the jobs of the batch at pointer `b`. A dangling pointer changes nothing here.
  unfoldable pub proxy_batch : BatchOps B → ℕ → Pool B → Pool B
  proxy_batch o b p = elim (batch_at p b) [
    | none ↦ p
    | some batch ↦
        let (jobs, tagged_threads) = o.size batch in
        let q =
          if not tagged_threads
          then record p { batch_jobs = p.batch_jobs ++ general_jobs b 0 jobs }
          else queue_jobs b 0 (o.threads batch) p in
        record q { proxy_skip_one_poll = true }
  ]

  -- `j` is the object of the new `Job`, a single job that may run anywhere.
  unfoldable pub proxy_schedule_reply_job : B → Pool B → Pool B
  unfolding adopt
  proxy_schedule_reply_job j p =
      let (q, b) = adopt j p in
      record q { reply_jobs = q.reply_jobs ++ (b, some 0) ∷ []; proxy_skip_one_poll = true }

  -- The reference arguments `reserved` and `active` of `proxy_run_batch_jobs`.
  abbrev pub jobs_reserved : Bool → Pool B → ℕ
  jobs_reserved true p = p.reply_jobs_reserved
  jobs_reserved false p = p.batch_jobs_reserved

  abbrev pub jobs_active : Bool → Pool B → ℕ
  jobs_active true p = p.reply_jobs_active
  jobs_active false p = p.batch_jobs_active

  abbrev pub jobs_queue : Bool → Pool B → List BatchJob
  jobs_queue true p = p.reply_jobs
  jobs_queue false p = p.batch_jobs

  abbrev pub set_queue : Bool → List BatchJob → Pool B → Pool B
  set_queue true js p = record p { reply_jobs = js }
  set_queue false js p = record p { batch_jobs = js }

  abbrev pub activate_job : Bool → Pool B → Pool B
  activate_job true p = record p { reply_jobs_active = p.reply_jobs_active + 1 }
  activate_job false p = record p { batch_jobs_active = p.batch_jobs_active + 1 }

  abbrev pub may_run_job : Bool → Pool B → Bool
  may_run_job reply p =
      ltb (active_workers p) p.max_workers
      && (ltb (jobs_active reply p) (jobs_reserved reply p)
          || ltb (active_workers p) p.general_workers)

  -- The loop body.
  unfoldable pub run_batch_job : Bool → BatchJob → List BatchJob → Pool B → Pool B
  run_batch_job reply j rest p =
      activate_job reply (set_queue reply rest (run_on_idle (load_batch_job j reply 0) p))

  unfoldable pub run_batch_jobs : Bool → List BatchJob → Pool B → Pool B
  run_batch_jobs reply [] p = p
  run_batch_jobs reply (j ∷ rest) p = elim (may_run_job reply p) [
    | true ↦ run_batch_jobs reply rest (run_batch_job reply j rest p)
    | false ↦ p
  ]

  unfoldable pub proxy_run_batch_jobs : Bool → Pool B → Pool B
  proxy_run_batch_jobs reply p = run_batch_jobs reply (jobs_queue reply p) p

  unfoldable pub run_tagged_workers : Pool B → Pool B
  run_tagged_workers p =
      let (ts, es) = run_all_tagged p.tagged_workers in
      record p { tagged_workers = ts; effects = es ++ p.effects }

  -- The condition under which a command or injected task of a category may start.
  abbrev pub has_spot : ℕ → Pool B → Bool
  has_spot c p =
      ltb (category_active p c) (category_reserved p c) || ltb (active_workers p) p.general_workers

  abbrev pub activate_category : ℕ → Pool B → Pool B
  activate_category c p = record p {
    categories = modify p.categories c (λ x. record x { active_threads = x.active_threads + 1 });
  }

  abbrev pub unqueue_category : ℕ → Pool B → Pool B
  unqueue_category c p = record p {
    categories = modify p.categories c (λ x. record x { queued = x.queued - 1 });
  }

  unfoldable pub run_pending : PendingCommand → Pool B → Pool B
  run_pending c p =
      activate_category c.cat (unqueue_category c.cat (run_on_idle (load_pending c) p))

  -- The loop over `pending_commands`; the second part is what stays in the list.
  unfoldable pub run_pendings : List PendingCommand → Pool B → Pool B × List PendingCommand
  run_pendings [] p = (p, [])
  run_pendings (c ∷ cs) p = elim (ltb (active_workers p) p.max_workers) [
    | false ↦ (p, c ∷ cs)
    | true ↦ elim (has_spot c.cat p) [
      | true ↦ run_pendings cs (run_pending c p)
      | false ↦ let (q, rest) = run_pendings cs p in (q, c ∷ rest)
    ]
  ]

  unfoldable pub proxy_run_pending : Pool B → Pool B
  proxy_run_pending p =
      let (q, rest) = run_pendings p.pending_commands p in record q { pending_commands = rest }

  unfoldable pub proxy_process_queue : Pool B → Pool B
  proxy_process_queue p =
      if p.max_workers == 0
      then p
      else proxy_run_pending
          (proxy_run_batch_jobs true (proxy_run_batch_jobs false (run_tagged_workers p)))
