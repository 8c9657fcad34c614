-- ===== src/Examples/Pool.antt =====
-- A pool with two general threads, and a category that reserves one more.
use oxen_mq.Common.{
  ℕ, ◌+◌, ◌≤◌, ◌≡◌, refl, true, false, some, List, [], ◌∷◌, ◌++◌, length, Bytes, bytes, pos, negsuc,
  arith,
}
use oxen_mq.Access.{default_access}
use oxen_mq.Batch.Dynamic.{AnyBatch, any_ops}
use oxen_mq.Pool.{Pool, Category, InjectedTask, BatchJob, fresh_run, TaggedWorker}
use oxen_mq.Pool.Startup.{Config, start}
use oxen_mq.Pool.Workers.{run_on_idle, get_idle_worker, proxy_run_worker, load_injected}
use oxen_mq.Pool.Jobs.{proxy_process_queue, proxy_run_batch_jobs, jobs_queue}
use oxen_mq.Pool.Commands.{proxy_inject_task}
use oxen_mq.Pool.Validity.{IsValid}
use oxen_mq.Pool.Reachability.{IsFresh, Step, Reach, Reach-bounds, start-IsValid}
use oxen_mq.Pool.Backpressure.{waiting, Within}
use oxen_mq.Pool.QueueLimits.{Reach-IsCounted}
use oxen_mq.Pool.Submission.{proxy_inject_task-IsValid}
use oxen_mq.Pool.Progress.{AllHanded, Exhausted, proxy_run_batch_jobs-Served}
use oxen_mq.Pool.Shutdown.{proxy_quit_workers, quit_overcommits}
use oxen_mq.Pool.Growth.{Extends, TaggedExtend}
use oxen_mq.Pool.Quitting.{quit-Grows}
use oxen_mq.Pool.Core.{core-IsValid}

abbrev rpc : Category
rpc = record {
  name = bytes "rpc";
  access = default_access;
  commands = [];
  reserved_threads = 1;
  active_threads = 0;
  max_queue = pos 1;
  queued = 0;
}

abbrev config : Config
config = record {
  proxy_running = false;
  general_workers = 2;
  batch_jobs_reserved = pos 0;
  reply_jobs_reserved = negsuc 0;
  categories = rpc ∷ [];
  tagged_workers = [];
}

abbrev Object : Type 0
Object = AnyBatch ℕ ℕ ℕ

abbrev started : Pool Object
started = start config

abbrev task : InjectedTask
task = record { cat = 0; command = bytes "poll"; remote = bytes "local"; callback = 7 }

-- One injected task runs in worker 0.
abbrev one_running : Pool Object
one_running = (proxy_inject_task task started).0

fresh : IsFresh config
fresh = record { inactive = (refl, tt); general = omega arith }

started-IsValid : IsValid started
started-IsValid = start-IsValid any_ops config fresh

one_running-IsValid : IsValid one_running
unfolding start
one_running-IsValid = proxy_inject_task-IsValid task started (omega arith) started-IsValid

one_worker : length one_running.workers ≡ 1
unfolding proxy_inject_task start run_on_idle get_idle_worker proxy_run_worker load_injected
one_worker = refl

-- 'w' and the number 0.
abbrev route : Bytes
route = b'w' ∷ 0 ∷ 0 ∷ 0 ∷ 0 ∷ []

Reach-bounds_example : length one_running.workers ≤ one_running.max_workers
unfolding start
Reach-bounds_example =
    (Reach-bounds any_ops config one_running fresh
      (Reach.next Reach.here (Step.inject task (omega arith)))).0

-- Two jobs of batch 0 are queued too.
abbrev two_queued : Pool Object
two_queued = record one_running { batch_jobs = (0, some 0) ∷ (0, some 1) ∷ [] }

proxy_run_batch_jobs-Served_example :
    (ran : List BatchJob) × ((0, some 0) ∷ (0, some 1) ∷ []
      ≡ ran ++ jobs_queue false (proxy_run_batch_jobs false two_queued))
    × AllHanded false ran two_queued (proxy_run_batch_jobs false two_queued)
    × Exhausted false (proxy_run_batch_jobs false two_queued)
proxy_run_batch_jobs-Served_example =
    proxy_run_batch_jobs-Served false two_queued
      (core-IsValid one_running two_queued refl one_running-IsValid)

-- An idle tagged worker with one job of batch 0 in its queue.
abbrev tagged_job : BatchJob
tagged_job = (0, some 5)

abbrev tagged_worker : TaggedWorker
tagged_worker = record {
  run = record (fresh_run 1) { joinable = true };
  busy = false;
  queue = tagged_job ∷ [];
}

abbrev with_tagged : Pool Object
with_tagged = record started { tagged_workers = tagged_worker ∷ [] }

quit-Grows_example :
    ((proxy_process_queue (proxy_quit_workers with_tagged)).max_workers ≡ 0)
    × Extends with_tagged.batch_jobs
        (proxy_process_queue (proxy_quit_workers with_tagged)).batch_jobs
    × Extends with_tagged.reply_jobs
        (proxy_process_queue (proxy_quit_workers with_tagged)).reply_jobs
    × Extends with_tagged.pending_commands
        (proxy_process_queue (proxy_quit_workers with_tagged)).pending_commands
    × TaggedExtend with_tagged.tagged_workers
        (proxy_process_queue (proxy_quit_workers with_tagged)).tagged_workers
quit-Grows_example = quit-Grows any_ops with_tagged (Reach.next Reach.here Step.process_queue)

-- All four workers were created and are idle.
abbrev crowded : Pool Object
crowded = record started {
  workers = fresh_run 0 ∷ fresh_run 1 ∷ fresh_run 2 ∷ fresh_run 3 ∷ [];
  idle_workers = 0 ∷ 1 ∷ 2 ∷ 3 ∷ [];
}

quit_overcommits_example :
    length (proxy_inject_task task (proxy_quit_workers crowded)).0.workers
    ≡ crowded.worker_sockets + 1
unfolding start
quit_overcommits_example = quit_overcommits crowded task refl (omega arith)

Reach-IsCounted_example : (0 ≡ waiting 0 one_running.pending_commands) × Within 0 (pos 1)
unfolding proxy_inject_task start run_on_idle get_idle_worker proxy_run_worker load_injected
Reach-IsCounted_example =
    Reach-IsCounted any_ops config one_running 0 (record rpc { active_threads = 1 }) (refl, tt)
      (Reach.next Reach.here (Step.inject task (omega arith))) refl
