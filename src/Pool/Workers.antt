-- ===== src/Pool/Workers.antt =====
-- oxenmq/worker.cpp (`get_idle_worker`, `proxy_run_worker`) and oxenmq/oxenmq.cpp (`run_info::load`).
use oxen_mq.Common.{
  ℕ, Bool, true, false, none, some, List, [], ◌∷◌, ◌++◌, Bytes, length, modify, get_elem?,
  if◌then◌else◌, ltb,
}
use oxen_mq.Access.{Access, default_access}
use oxen_mq.ConnectionId.{ConnectionId, no_connection}
use oxen_mq.Pool.{
  Pool, RunInfo, PendingCommand, BatchJob, ToRun, Callback, batch_ptr, injected_call, start_thread,
  send_run, fresh_run,
}

abbrev pub reset : RunInfo → RunInfo
reset r = record r {
  is_batch_job = false;
  is_reply_job = false;
  is_tagged_thread_job = false;
  is_injected = false;
}

unfoldable pub load_command :
    ℕ → Bytes → ConnectionId → Access → Bytes → List Bytes → ToRun → RunInfo → RunInfo
load_command cat command conn access remote data_parts callback r = record (reset r) {
  cat = cat;
  command = command;
  conn = conn;
  access = access;
  remote = remote;
  data_parts = data_parts;
  to_run = callback;
}

unfoldable pub load_injected : ℕ → Bytes → Bytes → Callback → RunInfo → RunInfo
load_injected cat command remote callback r = record (reset r) {
  is_injected = true;
  cat = cat;
  command = command;
  conn = no_connection;
  access = default_access;
  remote = remote;
  to_run = injected_call callback;
}

unfoldable pub load_callback : ToRun → PendingCommand → RunInfo → RunInfo
unfolding load_command load_injected
load_callback (injected_call f) p r = load_injected p.cat p.command p.remote f r
load_callback callback p r =
    load_command p.cat p.command p.conn p.access p.remote p.data_parts callback r

unfoldable pub load_pending : PendingCommand → RunInfo → RunInfo
unfolding load_callback
load_pending p r = load_callback p.callback p r

unfoldable pub load_batch_job : BatchJob → Bool → ℕ → RunInfo → RunInfo
load_batch_job (b, jobno) reply_job tagged_thread r = record (reset r) {
  is_batch_job = true;
  is_reply_job = reply_job;
  is_tagged_thread_job = ltb 0 tagged_thread;
  batch_jobno = jobno;
  to_run = batch_ptr b;
}

module _ {B : Type 0} where
  take_worker : List ℕ → Pool B → Pool B × ℕ
  take_worker [] p =
      let id = length p.workers in (record p { workers = p.workers ++ fresh_run id ∷ [] }, id)
  take_worker (id ∷ rest) p = (record p { idle_workers = rest }, id)

  -- The index into `workers` of the worker to load.
  unfoldable pub get_idle_worker : Pool B → Pool B × ℕ
  unfolding take_worker
  get_idle_worker p = take_worker p.idle_workers p

  -- `proxy_run_worker` of a pool worker: its thread is started with its first job.
  unfoldable pub proxy_run_worker : Pool B → ℕ → Pool B
  proxy_run_worker p w = elim (get_elem? p.workers w) [
    | none ↦ p
    | some r ↦
        if r.joinable
        then record p { effects = send_run false r.worker_id ∷ p.effects }
        else record p {
          workers = modify p.workers w (λ r. record r { joinable = true });
          effects = start_thread r.worker_id ∷ p.effects;
        }
  ]

  -- `proxy_run_worker(get_idle_worker().load(...))`.
  unfoldable pub run_on_idle : (RunInfo → RunInfo) → Pool B → Pool B
  run_on_idle load p =
      let (q, w) = get_idle_worker p in
      proxy_run_worker (record q { workers = modify q.workers w load }) w
