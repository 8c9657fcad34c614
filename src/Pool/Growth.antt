-- ===== src/Pool/Growth.antt =====
-- oxenmq/jobs.cpp, oxenmq/worker.cpp and oxenmq/proxy.cpp: operations that take nothing from the queues.
use oxen_mq.Common.{
  ℕ, zero, suc, ◌≡◌, refl, sym, subst, ◌∙◌, ap, inl, inr, Bool, true, false, Option, none, some,
  List, [], ◌∷◌, ◌++◌, Bytes, ℤ, modify, get_elem?, Bool-cases, Option-cases, is_minus_one,
  if◌then◌else◌, ◌==◌, bytes_eq, bytes, is_empty, ◌&&◌,
}
use mathlib.Core.List.{append-nil, append_assoc}
use oxen_mq.Access.{Access}
use oxen_mq.ConnectionId.{ConnectionId}
use oxen_mq.Pool.Started.{List-cases}
use oxen_mq.Batch.{BatchOps, BatchState, running, complete, done}
use oxen_mq.Pool.{
  Pool, RunInfo, TaggedWorker, BatchJob, PendingCommand, InjectedTask, ToRun, batch_ptr,
  command_call, injected_call, Callback,
}
use oxen_mq.Pool.Workers.{run_on_idle, get_idle_worker, proxy_run_worker}
use oxen_mq.Pool.Jobs.{
  proxy_batch, general_jobs, queue_jobs, queue_job, push_job, push_target, thread_target, batch_at,
}
use oxen_mq.Pool.Commands.{
  dispatch_command, proxy_inject_task, queue_or_drop, enqueue, is_full, no_spot,
}
use oxen_mq.Pool.Finished.{
  proxy_worker_message, worker_command, worker_ran, worker_quitting, retire_worker, finish_to_run,
  finish_batch_job, after_job, push_completion, delete, release_job, parse_route, worker_at,
}

-- More may stand at the end.
abbrev pub Extends {ℓ} : {A : Type ℓ} → List A → List A → Type ℓ
Extends {A = A} xs ys = (more : List A) × (ys ≡ xs ++ more)

-- The same tagged workers, the queue of each extended.
abbrev pub TaggedExtend : List TaggedWorker → List TaggedWorker → Type 0
TaggedExtend [] [] = Unit {0}
TaggedExtend (t ∷ ts) (u ∷ us) = Extends t.queue u.queue × TaggedExtend ts us
TaggedExtend _ _ = ◌≡◌ {A = Bool} true false

Extends-refl {ℓ} : {A : Type ℓ} (xs : List A) → Extends xs xs
Extends-refl xs = ([], sym (append-nil xs))

Extends-snoc {ℓ} : {A : Type ℓ} (xs ys : List A) → Extends xs (xs ++ ys)
Extends-snoc xs ys = (ys, refl)

Extends-trans {ℓ} : {A : Type ℓ} (xs ys zs : List A) → Extends xs ys → Extends ys zs → Extends xs zs
Extends-trans xs ys zs (a, e) (b, f) = (a ++ b, f ∙ ap (λ l. l ++ b) e ∙ append_assoc xs a b)

TaggedExtend-refl : (ts : List TaggedWorker) → TaggedExtend ts ts
TaggedExtend-refl [] = tt
TaggedExtend-refl (t ∷ ts) = (Extends-refl t.queue, TaggedExtend-refl ts)

TaggedExtend-trans :
    (ts us vs : List TaggedWorker) → TaggedExtend ts us → TaggedExtend us vs → TaggedExtend ts vs
TaggedExtend-trans [] [] [] a b = tt
TaggedExtend-trans [] [] (v ∷ vs) a b = b
TaggedExtend-trans [] (u ∷ us) vs a b = absurd (cc)
TaggedExtend-trans (t ∷ ts) [] vs a b = absurd (cc)
TaggedExtend-trans (t ∷ ts) (u ∷ us) [] a b = b
TaggedExtend-trans (t ∷ ts) (u ∷ us) (v ∷ vs) a b =
    (Extends-trans t.queue u.queue v.queue a.0 b.0, TaggedExtend-trans ts us vs a.1 b.1)

TaggedExtend-modify :
    (ts : List TaggedWorker) (k : ℕ) (f : TaggedWorker → TaggedWorker)
    → ((t : TaggedWorker) → Extends t.queue (f t).queue)
    → TaggedExtend ts (modify ts k f)
TaggedExtend-modify [] k f h = tt
TaggedExtend-modify (t ∷ ts) zero f h = (h t, TaggedExtend-refl ts)
TaggedExtend-modify (t ∷ ts) (suc k) f h = (Extends-refl t.queue, TaggedExtend-modify ts k f h)

module _ {B : Type 0} where
  -- Nothing leaves a queue, and `max_workers` stays.
  pub record Grows (p q : Pool B) : Type 0 where
    pub limit : q.max_workers ≡ p.max_workers
    pub batch_queue : Extends p.batch_jobs q.batch_jobs
    pub reply_queue : Extends p.reply_jobs q.reply_jobs
    pub pending : Extends p.pending_commands q.pending_commands
    pub tagged : TaggedExtend p.tagged_workers q.tagged_workers

  pub Grows-trans : {p q r : Pool B} → Grows p q → Grows q r → Grows p r
  Grows-trans {p} {q} {r} a b = record {
    limit = b.limit ∙ a.limit;
    batch_queue = Extends-trans p.batch_jobs q.batch_jobs r.batch_jobs a.batch_queue b.batch_queue;
    reply_queue = Extends-trans p.reply_jobs q.reply_jobs r.reply_jobs a.reply_queue b.reply_queue;
    pending =
        Extends-trans p.pending_commands q.pending_commands r.pending_commands a.pending b.pending;
    tagged =
        TaggedExtend-trans p.tagged_workers q.tagged_workers r.tagged_workers a.tagged b.tagged;
  }

  -- The queues and `max_workers`.
  abbrev pub queues :
      Pool B → ℕ × List BatchJob × List BatchJob × List PendingCommand × List TaggedWorker
  queues p = (p.max_workers, p.batch_jobs, p.reply_jobs, p.pending_commands, p.tagged_workers)

  pub Grows-same : {p q : Pool B} → queues q ≡ queues p → Grows p q
  Grows-same {p} {q} e = record {
    limit = ap (λ x. x.0) e;
    batch_queue = ([], ap (λ x. x.1) e ∙ sym (append-nil p.batch_jobs));
    reply_queue = ([], ap (λ x. x.2) e ∙ sym (append-nil p.reply_jobs));
    pending = ([], ap (λ x. x.3) e ∙ sym (append-nil p.pending_commands));
    tagged =
        subst (TaggedExtend p.tagged_workers) (sym (ap (λ x. x.4) e))
          (TaggedExtend-refl p.tagged_workers);
  }

  pub Grows-refl : (p : Pool B) → Grows p p
  Grows-refl p = Grows-same refl

  -- One of the queues, or one tagged worker, is changed.
  batch_jobs-Grows :
      (p : Pool B) (js : List BatchJob) → Grows p (record p { batch_jobs = p.batch_jobs ++ js })
  batch_jobs-Grows p js = record {
    limit = refl;
    batch_queue = Extends-snoc p.batch_jobs js;
    reply_queue = Extends-refl p.reply_jobs;
    pending = Extends-refl p.pending_commands;
    tagged = TaggedExtend-refl p.tagged_workers;
  }

  pub reply_jobs-Grows :
      (p : Pool B) (js : List BatchJob) → Grows p (record p { reply_jobs = p.reply_jobs ++ js })
  reply_jobs-Grows p js = record {
    limit = refl;
    batch_queue = Extends-refl p.batch_jobs;
    reply_queue = Extends-snoc p.reply_jobs js;
    pending = Extends-refl p.pending_commands;
    tagged = TaggedExtend-refl p.tagged_workers;
  }

  tagged-Grows :
      (p : Pool B) (k : ℕ) (f : TaggedWorker → TaggedWorker)
      → ((t : TaggedWorker) → Extends t.queue (f t).queue)
      → Grows p (record p { tagged_workers = modify p.tagged_workers k f })
  tagged-Grows p k f h = record {
    limit = refl;
    batch_queue = Extends-refl p.batch_jobs;
    reply_queue = Extends-refl p.reply_jobs;
    pending = Extends-refl p.pending_commands;
    tagged = TaggedExtend-modify p.tagged_workers k f h;
  }

  if-Grows : (b : Bool) (p q r : Pool B) → Grows p q → Grows p r → Grows p (if b then q else r)
  if-Grows true p q r a b = a
  if-Grows false p q r a b = b

  queues-proxy_run_worker : (p : Pool B) (w : ℕ) → queues (proxy_run_worker p w) ≡ queues p
  unfolding proxy_run_worker
  queues-proxy_run_worker p w = elim (Option-cases (get_elem? p.workers w)) [
    | inl e ↦ rw (e, proxy_run_worker) refl
    | inr (r, e) ↦ elim (Bool-cases r.joinable) [
      | inl j ↦ rw (e, j, proxy_run_worker) refl
      | inr j ↦ rw (e, j, proxy_run_worker) refl
    ]
  ]

  queues-get_idle_worker : (p : Pool B) → queues (get_idle_worker p).0 ≡ queues p
  unfolding get_idle_worker
  queues-get_idle_worker p = elim (List-cases p.idle_workers) [
    | inl e ↦ rw (e, get_idle_worker) refl
    | inr (w, rest, e) ↦ rw (e, get_idle_worker) refl
  ]

  queues-run_on_idle :
      (load : RunInfo → RunInfo) (p : Pool B) → queues (run_on_idle load p) ≡ queues p
  unfolding run_on_idle
  queues-run_on_idle load p =
      let (q, w) = get_idle_worker p in
      queues-proxy_run_worker (record q { workers = modify q.workers w load }) w
      ∙ queues-get_idle_worker p

  queue_or_drop-Grows : (c : PendingCommand) (p : Pool B) → Grows p (queue_or_drop c p).0
  unfolding queue_or_drop enqueue
  queue_or_drop-Grows c p = elim (Bool-cases (is_full c.cat p)) [
    | inl e ↦ rw e (Grows-refl p)
    | inr e ↦ rw e (record {
      limit = refl;
      batch_queue = Extends-refl p.batch_jobs;
      reply_queue = Extends-refl p.reply_jobs;
      pending = Extends-snoc p.pending_commands (c ∷ []);
      tagged = TaggedExtend-refl p.tagged_workers;
    })
  ]

  pub proxy_inject_task-Grows :
      (task : InjectedTask) (p : Pool B) → Grows p (proxy_inject_task task p).0
  unfolding proxy_inject_task
  proxy_inject_task-Grows task p = elim (Bool-cases (no_spot task.cat p)) [
    | inl e ↦ rw e (queue_or_drop-Grows _ p)
    | inr e ↦ rw e (Grows-same (queues-run_on_idle _ p))
  ]

  pub dispatch_command-Grows :
      (cat : ℕ) (name : Bytes) (conn : ConnectionId) (access : Access) (remote : Bytes)
      (data_parts : List Bytes) (callback : Callback) (is_request : Bool) (p : Pool B)
      → Grows p (dispatch_command cat name conn access remote data_parts callback is_request p).0
  unfolding dispatch_command
  dispatch_command-Grows cat name conn access remote data_parts callback is_request p =
      elim (Bool-cases (no_spot cat p)) [
        | inl e ↦ rw e (queue_or_drop-Grows _ p)
        | inr e ↦ elim (Bool-cases (is_request && is_empty data_parts)) [
          | inl r ↦ rw (e, r) (Grows-refl p)
          | inr r ↦ rw (e, r) (Grows-same (queues-run_on_idle _ p))
        ]
      ]

  push_target-Grows : (t : Option ℕ) (j : BatchJob) (p : Pool B) → Grows p (push_target t j p)
  push_target-Grows none j p = batch_jobs-Grows p (j ∷ [])
  push_target-Grows (some t) j p =
      tagged-Grows p t (push_job j) (λ u. Extends-snoc u.queue (j ∷ []))

  queue_jobs-Grows : (b i : ℕ) (ts : List ℤ) (p : Pool B) → Grows p (queue_jobs b i ts p)
  unfolding queue_jobs queue_job
  queue_jobs-Grows b i [] p = Grows-refl p
  queue_jobs-Grows b i (t ∷ ts) p =
      Grows-trans (push_target-Grows (thread_target t) (b, some i) p)
        (queue_jobs-Grows b (suc i) ts (queue_job t (b, some i) p))

  pub proxy_batch-Grows : (o : BatchOps B) (b : ℕ) (p : Pool B) → Grows p (proxy_batch o b p)
  unfolding proxy_batch
  proxy_batch-Grows o b p = elim (Option-cases (batch_at p b)) [
    | inl e ↦ rw (e, proxy_batch) (Grows-refl p)
    | inr (x, e) ↦ elim (Bool-cases (o.size x).1) [
      | inl t ↦
          rw (e, t, proxy_batch)
            (Grows-trans (queue_jobs-Grows b 0 (o.threads x) p) (Grows-same refl))
      | inr t ↦
          rw (e, t, proxy_batch)
            (Grows-trans (batch_jobs-Grows p (general_jobs b 0 (o.size x).0)) (Grows-same refl))
    ]
  ]

  release_job-Grows :
      (tagged : Bool) (wid : ℕ) (run : RunInfo) (p : Pool B)
      → Grows p (release_job tagged wid run p)
  unfolding release_job
  release_job-Grows tagged wid run p =
      if-Grows run.is_batch_job p _ _
        (if-Grows tagged p _ _ (tagged-Grows p _ _ (λ t. Extends-refl t.queue))
          (if-Grows run.is_reply_job p _ _ (Grows-same refl) (Grows-same refl)))
        (Grows-same refl)

  push_completion-Grows :
      (t : Option ℕ) (reply : Bool) (j : BatchJob) (p : Pool B)
      → Grows p (push_completion t reply j p)
  push_completion-Grows (some t) reply j p =
      tagged-Grows p t (push_job j) (λ u. Extends-snoc u.queue (j ∷ []))
  push_completion-Grows none true j p = reply_jobs-Grows p (j ∷ [])
  push_completion-Grows none false j p = batch_jobs-Grows p (j ∷ [])

  after_job-Grows :
      (s : BatchState) (t : ℤ) (reply : Bool) (b : ℕ) (p : Pool B)
      → Grows p (after_job s t reply b p)
  unfolding after_job delete
  after_job-Grows running t reply b p = Grows-refl p
  after_job-Grows done t reply b p = Grows-same refl
  after_job-Grows complete t reply b p =
      if-Grows (is_minus_one t) p _ _ (Grows-same refl)
        (push_completion-Grows (thread_target t) reply (b, none) p)

  finish_batch_job-Grows :
      (o : BatchOps B) (run : RunInfo) (b : ℕ) (p : Pool B) → Grows p (finish_batch_job o run b p)
  unfolding finish_batch_job delete
  finish_batch_job-Grows o run b p = elim (Option-cases run.batch_jobno) [
    | inl e ↦ rw (e, finish_batch_job) (Grows-same refl)
    | inr (i, e) ↦ elim (Option-cases (batch_at p b)) [
      | inl n ↦ rw (e, n, finish_batch_job) (Grows-refl p)
      | inr (x, n) ↦
          rw (e, n, finish_batch_job)
            (Grows-trans (Grows-same refl) (
              after_job-Grows (o.job_finished x).1.state (o.job_finished x).1.thread
                run.is_reply_job b
                (record p { batches = modify p.batches b (λ _. some (o.job_finished x).0) })))
    ]
  ]

  finish_to_run-Grows :
      (o : BatchOps B) (run : RunInfo) (t : ToRun) (p : Pool B) → Grows p (finish_to_run o run t p)
  finish_to_run-Grows o run (batch_ptr b) p =
      if-Grows run.is_batch_job p _ _ (finish_batch_job-Grows o run b p) (Grows-refl p)
  finish_to_run-Grows o run (command_call f r) p = Grows-refl p
  finish_to_run-Grows o run (injected_call f) p = Grows-refl p

  retire_worker-Grows :
      (tagged : Bool) (wid : ℕ) (p : Pool B) → Grows p (retire_worker tagged wid p)
  unfolding retire_worker
  retire_worker-Grows tagged wid p =
      if-Grows (p.max_workers == 0) p _ _ (Grows-same refl)
        (if-Grows tagged p _ _ (Grows-refl p) (Grows-same refl))

  worker_quitting-Grows :
      (tagged : Bool) (wid : ℕ) (p : Pool B) → Grows p (worker_quitting tagged wid p)
  unfolding worker_quitting
  worker_quitting-Grows false wid p = Grows-same refl
  worker_quitting-Grows true wid p = tagged-Grows p _ _ (λ t. Extends-refl t.queue)

  worker_command-Grows :
      (o : BatchOps B) (cmd : Bytes) (tagged : Bool) (wid : ℕ) (run : RunInfo) (p : Pool B)
      → Grows p (worker_command o cmd tagged wid run p)
  unfolding worker_command worker_ran
  worker_command-Grows o cmd tagged wid run p =
      if-Grows (bytes_eq cmd (bytes "RAN")) p _ _
        (Grows-trans (release_job-Grows tagged wid run p) (
          Grows-trans (finish_to_run-Grows o run run.to_run (release_job tagged wid run p))
            (retire_worker-Grows tagged wid _)))
        (if-Grows (bytes_eq cmd (bytes "QUITTING")) p _ _ (worker_quitting-Grows tagged wid p)
          (Grows-refl p))

  pub proxy_worker_message-Grows :
      (o : BatchOps B) (parts : List Bytes) (p : Pool B) → Grows p (proxy_worker_message o parts p)
  unfolding proxy_worker_message
  proxy_worker_message-Grows o [] p = Grows-refl p
  proxy_worker_message-Grows o (route ∷ []) p = Grows-refl p
  proxy_worker_message-Grows o (route ∷ cmd ∷ x ∷ xs) p = Grows-refl p
  proxy_worker_message-Grows o (route ∷ cmd ∷ []) p = elim (Option-cases (parse_route route)) [
    | inl e ↦ rw (e, proxy_worker_message) (Grows-refl p)
    | inr ((tagged, wid), e) ↦ elim (Option-cases (worker_at tagged wid p)) [
      | inl n ↦ rw (e, n, proxy_worker_message) (Grows-refl p)
      | inr (run, n) ↦ rw (e, n, proxy_worker_message) (worker_command-Grows o cmd tagged wid run p)
    ]
  ]
