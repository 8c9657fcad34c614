-- ===== src/Pool/Startup.antt =====
-- oxenmq/oxenmq.cpp (`set_batch_threads`, `set_reply_threads`, `set_general_threads`, the thread
-- counts of `start`), oxenmq/jobs.cpp (`add_tagged_thread`), and the worker part of
-- `proxy_loop_init` in oxenmq/proxy.cpp.
use oxen_mq.Common.{
  ℕ, suc, ◌+◌, ◌/◌, Bool, true, false, ◌||◌, List, [], ◌∷◌, ◌++◌, Bytes, bytes, bytes_eq, ℤ, pos,
  negsuc, Result, ok, ◌>>◌, throw_if, length, any, sum_by, is_empty, ◌==◌, ltb,
}
use oxen_mq.Pool.{Pool, Category, TaggedWorker, fresh_run}

-- `std::logic_error` for a call after `start()`, `std::out_of_range` for a bad number.
pub data ConfigError : Type 0 where
  already_running out_of_range invalid_name : ConfigError

-- The thread counts before `start()`. Those of batch and reply jobs are -1 until they are set.
pub record Config : Type 0 where
  pub proxy_running : Bool  -- `proxy_thread.joinable()`
  pub general_workers : ℕ
  pub batch_jobs_reserved : ℤ
  pub reply_jobs_reserved : ℤ
  pub categories : List Category
  pub tagged_workers : List TaggedWorker

abbrev pub below_minus_one : ℤ → Bool
below_minus_one (pos n) = false
below_minus_one (negsuc n) = ltb 0 n

abbrev pub below_one : ℤ → Bool
below_one (pos n) = n == 0
below_one (negsuc n) = true

abbrev pub magnitude : ℤ → ℕ
magnitude (pos n) = n
magnitude (negsuc n) = 0

pub set_batch_threads : ℤ → Config → Result ConfigError Config
set_batch_threads threads c = do
  throw_if c.proxy_running already_running
  throw_if (below_minus_one threads) out_of_range
  ok (record c { batch_jobs_reserved = threads })

pub set_reply_threads : ℤ → Config → Result ConfigError Config
set_reply_threads threads c = do
  throw_if c.proxy_running already_running
  throw_if (below_minus_one threads) out_of_range
  ok (record c { reply_jobs_reserved = threads })

pub set_general_threads : ℤ → Config → Result ConfigError Config
set_general_threads threads c = do
  throw_if c.proxy_running already_running
  throw_if (below_one threads) out_of_range
  ok (record c { general_workers = magnitude threads })

-- The new worker's id is its index + 1; its thread runs from the start.
pub add_tagged_thread : Bytes → Config → Result ConfigError Config
add_tagged_thread name c = do
  throw_if c.proxy_running already_running
  throw_if (bytes_eq name (bytes "_proxy") || (is_empty name || any (λ b. b == 0) name))
      invalid_name
  ok (record c {
    tagged_workers =
        c.tagged_workers
        ++ record {
          run = record (fresh_run (suc (length c.tagged_workers))) { joinable = true };
          busy = false;
          queue = [];
        }
          ∷ [];
  })

-- "if (batch_jobs_reserved < 0) ...": the default depends on the general threads.
abbrev pub or_default : ℤ → ℕ → ℕ
or_default (pos n) d = n
or_default (negsuc n) d = d

abbrev pub reserved_by_categories : List Category → ℕ
reserved_by_categories = sum_by (λ c. c.reserved_threads)

-- The pool at the end of `start()` and `proxy_loop_init`. `max_workers` sockets are made for workers.
unfoldable pub start : {B : Type 0} → Config → Pool B
start c =
    let batch_reserved = or_default c.batch_jobs_reserved ((c.general_workers + 1) / 2) in
    let reply_reserved = or_default c.reply_jobs_reserved ((c.general_workers + 7) / 8) in
    let max_workers =
      c.general_workers + batch_reserved + reply_reserved + reserved_by_categories c.categories in
    record {
      workers = [];
      worker_sockets = max_workers;
      idle_workers = [];
      general_workers = c.general_workers;
      max_workers = max_workers;
      tagged_workers = c.tagged_workers;
      batch_jobs = [];
      reply_jobs = [];
      batch_jobs_active = 0;
      reply_jobs_active = 0;
      batch_jobs_reserved = batch_reserved;
      reply_jobs_reserved = reply_reserved;
      categories = c.categories;
      pending_commands = [];
      batches = [];
      proxy_skip_one_poll = false;
      effects = [];
    }
