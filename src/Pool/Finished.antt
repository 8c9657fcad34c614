-- ===== src/Pool/Finished.antt =====
-- oxenmq/worker.cpp: `proxy_worker_message`.
use oxen_mq.Common.{
  ℕ, zero, suc, ◌+◌, ◌-◌, ◌*◌, Bool, true, false, Option, none, some, List, [], ◌∷◌, ◌++◌, Bytes,
  bytes, bytes_eq, ℤ, is_minus_one, modify, get_elem?, if◌then◌else◌, ◌==◌,
}
use oxen_mq.Batch.{BatchOps, BatchState, running, complete, done}
use oxen_mq.Pool.{
  Pool, RunInfo, BatchJob, ToRun, batch_ptr, send_quit, run_completion, delete_batch,
}
use oxen_mq.Pool.Jobs.{thread_target, push_job, batch_at}

-- `memcpy` of four bytes into a `uint32_t`, on a little-endian machine.
unfoldable pub little_endian : Bytes → ℕ
little_endian [] = 0
little_endian (b ∷ bs) = b + 256 * little_endian bs

-- The worker that a routing id names: whether it is tagged, and its number. Five bytes, the first
-- 'w' or 't'.
unfoldable pub parse_route : Bytes → Option (Bool × ℕ)
unfolding little_endian
parse_route (t ∷ a ∷ b ∷ c ∷ d ∷ []) =
    if t == b't'
    then some (true, little_endian (a ∷ b ∷ c ∷ d ∷ []))
    else if t == b'w'
    then some (false, little_endian (a ∷ b ∷ c ∷ d ∷ []))
    else none
parse_route _ = none

module _ {B : Type 0} where
  -- The element of `tagged_workers` or `workers` with that number.
  unfoldable pub worker_at : Bool → ℕ → Pool B → Option RunInfo
  worker_at false wid p = get_elem? p.workers wid
  worker_at true zero p = none
  worker_at true (suc i) p = elim (get_elem? p.tagged_workers i) [
    | none ↦ none
    | some t ↦ some t.run
  ]

  abbrev pub release_tagged : ℕ → Pool B → Pool B
  release_tagged wid p = record p {
    tagged_workers = modify p.tagged_workers (wid - 1) (λ t. record t { busy = false });
  }

  -- The counters of the worker's job; the sources assert that each is above 0.
  unfoldable pub release_job : Bool → ℕ → RunInfo → Pool B → Pool B
  release_job tagged wid run p =
      if run.is_batch_job
      then (if tagged
          then release_tagged wid p
          else if run.is_reply_job
          then record p { reply_jobs_active = p.reply_jobs_active - 1 }
          else record p { batch_jobs_active = p.batch_jobs_active - 1 })
      else record p {
        categories =
            modify p.categories run.cat (λ x. record x { active_threads = x.active_threads - 1 });
      }

  unfoldable pub delete : ℕ → Pool B → Pool B
  delete b p = record p {
    batches = modify p.batches b (λ _. none);
    effects = delete_batch b ∷ p.effects;
  }

  -- `jobs.emplace_back(batch, -1)`, in the queue for the thread of the completion function.
  abbrev pub push_completion : Option ℕ → Bool → BatchJob → Pool B → Pool B
  push_completion (some t) reply j p = record p {
    tagged_workers = modify p.tagged_workers t (push_job j);
  }
  push_completion none true j p = record p { reply_jobs = p.reply_jobs ++ j ∷ [] }
  push_completion none false j p = record p { batch_jobs = p.batch_jobs ++ j ∷ [] }

  -- What follows `batch->job_finished()`. The completion function of the proxy thread is called
  -- here; what it throws is logged.
  unfoldable pub after_job : BatchState → ℤ → Bool → ℕ → Pool B → Pool B
  after_job running thread reply b p = p
  after_job done thread reply b p = delete b p
  after_job complete thread reply b p =
      if is_minus_one thread
      then delete b (record p { effects = run_completion b ∷ p.effects })
      else push_completion (thread_target thread) reply (b, none) p

  unfoldable pub finish_batch_job : BatchOps B → RunInfo → ℕ → Pool B → Pool B
  finish_batch_job o run b p = elim run.batch_jobno [
    | none ↦ delete b p
    | some i ↦ elim (batch_at p b) [
      | none ↦ p
      | some batch ↦
          let (batch', status) = o.job_finished batch in
          after_job status.state status.thread run.is_reply_job b
            (record p { batches = modify p.batches b (λ _. some batch') })
    ]
  ]

  abbrev pub finish_to_run : BatchOps B → RunInfo → ToRun → Pool B → Pool B
  finish_to_run o run (batch_ptr b) p = if run.is_batch_job then finish_batch_job o run b p else p
  finish_to_run o run _ p = p

  -- "if (max_workers == 0) ... else if (!tagged_worker) ...": the worker quits or is idle again.
  unfoldable pub retire_worker : Bool → ℕ → Pool B → Pool B
  retire_worker tagged wid p =
      if p.max_workers == 0
      then record p { effects = send_quit tagged wid ∷ p.effects }
      else if tagged
      then p
      else record p { idle_workers = wid ∷ p.idle_workers }

  unfoldable pub worker_ran : BatchOps B → Bool → ℕ → RunInfo → Pool B → Pool B
  worker_ran o tagged wid run p =
      retire_worker tagged wid (finish_to_run o run run.to_run (release_job tagged wid run p))

  -- `run.worker_thread.join()`.
  unfoldable pub worker_quitting : Bool → ℕ → Pool B → Pool B
  worker_quitting false wid p = record p {
    workers = modify p.workers wid (λ r. record r { joinable = false });
  }
  worker_quitting true wid p = record p {
    tagged_workers =
        modify p.tagged_workers (wid - 1)
          (λ t. record t { run = record t.run { joinable = false } });
  }

  unfoldable pub worker_command : BatchOps B → Bytes → Bool → ℕ → RunInfo → Pool B → Pool B
  worker_command o cmd tagged wid run p =
      if bytes_eq cmd (bytes "RAN")
      then worker_ran o tagged wid run p
      else if bytes_eq cmd (bytes "QUITTING")
      then worker_quitting tagged wid p
      else p

  -- A message from a worker, in two parts. One that is malformed, or from no worker, or with an
  -- unknown command, is logged and ignored.
  unfoldable pub proxy_worker_message : BatchOps B → List Bytes → Pool B → Pool B
  proxy_worker_message o (route ∷ cmd ∷ []) p = elim (parse_route route) [
    | none ↦ p
    | some (tagged, wid) ↦ elim (worker_at tagged wid p) [
      | none ↦ p
      | some run ↦ worker_command o cmd tagged wid run p
    ]
  ]
  proxy_worker_message o _ p = p
