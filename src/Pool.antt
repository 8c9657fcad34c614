-- ===== src/Pool.antt =====
-- The worker pool of the proxy thread: oxenmq/oxenmq.h (`category`, `injected_task`,
-- `pending_command`, `run_info`, the worker members of `OxenMQ`), oxenmq/worker.cpp,
-- oxenmq/jobs.cpp and the queue handling of oxenmq/proxy.cpp.
--
-- A pointer to a category is its position in `categories`, a `Batch*` the position of the object in
-- `batches` (`none` once it is deleted), a `std::function` a number that identifies it.
use oxen_mq.Common.{
  ℕ, ◌-◌, Bool, true, false, Option, none, some, List, [], Bytes, ℤ, length, get_elem?,
}
use oxen_mq.Access.{Access, default_access}
use oxen_mq.ConnectionId.{ConnectionId, no_connection}
pub mod Workers
pub mod Jobs
pub mod Commands
pub mod Finished
pub mod Startup
pub mod Measures
pub mod Validity
pub mod Started
pub mod Activation
pub mod Core
pub mod Release
pub mod WorkerMessages
pub mod Handing
pub mod Progress
pub mod Reachability
pub mod Submission
pub mod Draining
pub mod Shutdown
pub mod Growth
pub mod Quitting
pub mod Backpressure
pub mod QueueLimits

abbrev pub Callback : Type 0
Callback = ℕ

pub record Category : Type 0 where
  pub name : Bytes
  pub access : Access
  pub commands : List (Bytes × (Callback × Bool))
  pub reserved_threads : ℕ
  pub active_threads : ℕ
  pub max_queue : ℤ
  pub queued : ℕ  -- an `int` that is asserted to be at least 0

-- `std::pair<detail::Batch*, int>`: the second part is `none` for -1, the completion job.
abbrev pub BatchJob : Type 0
BatchJob = ℕ × Option ℕ

-- The `std::variant` members `run_info::to_run` and `pending_command::callback`.
pub data ToRun : Type 0 where
  command_call : Callback → Bool → ToRun
  batch_ptr : ℕ → ToRun
  injected_call : Callback → ToRun

pub record RunInfo : Type 0 where
  pub is_batch_job : Bool
  pub is_reply_job : Bool
  pub is_tagged_thread_job : Bool
  pub is_injected : Bool
  pub cat : ℕ
  pub command : Bytes
  pub conn : ConnectionId
  pub access : Access
  pub remote : Bytes
  pub data_parts : List Bytes
  pub batch_jobno : Option ℕ
  pub to_run : ToRun
  pub joinable : Bool  -- of `worker_thread`
  pub worker_id : ℕ

pub record PendingCommand : Type 0 where
  pub cat : ℕ
  pub command : Bytes
  pub data_parts : List Bytes
  pub callback : ToRun
  pub conn : ConnectionId
  pub access : Access
  pub remote : Bytes

pub record InjectedTask : Type 0 where
  pub cat : ℕ
  pub command : Bytes
  pub remote : Bytes
  pub callback : Callback

-- An element of `tagged_workers`.
pub record TaggedWorker : Type 0 where
  pub run : RunInfo
  pub busy : Bool
  pub queue : List BatchJob

-- What the pool does to threads and sockets, latest first. A worker is named by whether it is
-- tagged and by its `worker_id`.
pub data Effect : Type 0 where
  start_thread : ℕ → Effect
  send_run : Bool → ℕ → Effect
  send_quit : Bool → ℕ → Effect
  run_completion : ℕ → Effect
  delete_batch : ℕ → Effect

-- The head of `idle_workers` is the element at `idle_worker_count - 1`.
pub record Pool (B : Type 0) : Type 0 where
  pub workers : List RunInfo
  pub worker_sockets : ℕ  -- the number of sockets made at startup
  pub idle_workers : List ℕ
  pub general_workers : ℕ
  pub max_workers : ℕ
  pub tagged_workers : List TaggedWorker
  pub batch_jobs : List BatchJob
  pub reply_jobs : List BatchJob
  pub batch_jobs_active : ℕ
  pub reply_jobs_active : ℕ
  pub batch_jobs_reserved : ℕ
  pub reply_jobs_reserved : ℕ
  pub categories : List Category
  pub pending_commands : List PendingCommand
  pub batches : List (Option B)
  pub proxy_skip_one_poll : Bool
  pub effects : List Effect

-- `reset()` and the default member initialisers.
abbrev pub fresh_run : ℕ → RunInfo
fresh_run id = record {
  is_batch_job = false;
  is_reply_job = false;
  is_tagged_thread_job = false;
  is_injected = false;
  cat = 0;
  command = [];
  conn = no_connection;
  access = default_access;
  remote = [];
  data_parts = [];
  batch_jobno = none;
  to_run = injected_call 0;
  joinable = false;
  worker_id = id;
}

module _ {B : Type 0} where
  abbrev pub active_workers : Pool B → ℕ
  active_workers p = length p.workers - length p.idle_workers

  abbrev pub category_active : Pool B → ℕ → ℕ
  category_active p c = elim (get_elem? p.categories c) [ none ↦ 0 | some x ↦ x.active_threads ]

  abbrev pub category_reserved : Pool B → ℕ → ℕ
  category_reserved p c = elim (get_elem? p.categories c) [ none ↦ 0 | some x ↦ x.reserved_threads ]
