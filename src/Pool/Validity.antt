-- ===== src/Pool/Validity.antt =====
-- The invariant of the worker pool while it runs, and what one started job does to it.
use oxen_mq.Common.{ℕ, ◌+◌, ◌-◌, ◌≤◌, ◌<◌, ◌≡◌, ◌⊎◌, List, length, All, sum_by, ltb}
use oxen_mq.Pool.{Pool, RunInfo, category_active, category_reserved}
use oxen_mq.Pool.Measures.{
  Slot, batch_slot, reply_slot, category_slot, slot_eq, occurrences, one_if, tally,
}

module _ {B : Type 0} where
  abbrev pub slot_active : Slot → Pool B → ℕ
  slot_active batch_slot p = p.batch_jobs_active
  slot_active reply_slot p = p.reply_jobs_active
  slot_active (category_slot c) p = category_active p c

  abbrev pub slot_reserved : Slot → Pool B → ℕ
  slot_reserved batch_slot p = p.batch_jobs_reserved
  slot_reserved reply_slot p = p.reply_jobs_reserved
  slot_reserved (category_slot c) p = category_reserved p c

  -- All jobs that run in pool workers.
  abbrev pub total : Pool B → ℕ
  total p = p.batch_jobs_active + p.reply_jobs_active + sum_by (λ c. c.active_threads) p.categories

  -- Those beyond the reserved spots of their kind.
  abbrev pub over : Pool B → ℕ
  over p =
      (p.batch_jobs_active - p.batch_jobs_reserved)
      + (p.reply_jobs_active - p.reply_jobs_reserved)
      + sum_by (λ c. c.active_threads - c.reserved_threads) p.categories

  abbrev pub all_reserved : Pool B → ℕ
  all_reserved p =
      p.batch_jobs_reserved + p.reply_jobs_reserved + sum_by (λ c. c.reserved_threads) p.categories

  pub record IsValid (p : Pool B) : Type 0 where
    -- An idle worker exists, and is idle once.
    pub distinct : (w : ℕ) → occurrences w p.idle_workers ≤ one_if (ltb w (length p.workers))
    -- Each worker is idle or runs a job that is counted.
    pub balance : length p.workers ≡ length p.idle_workers + total p
    -- Each counter is the number of busy workers with a job of its kind.
    pub tallies : (s : Slot) → tally s p.idle_workers 0 p.workers ≡ slot_active s p
    -- The general spots are not overrun.
    pub within : over p ≤ p.general_workers
    pub sockets : p.worker_sockets ≡ p.general_workers + all_reserved p
    pub limit : p.max_workers ≡ p.worker_sockets
    -- Each worker has a socket of its own.
    pub bounded : length p.workers ≤ p.worker_sockets
    -- `start()` asserts it.
    pub some_general : 0 < p.general_workers
    pub known : All (λ c. c.cat < length p.categories) p.pending_commands

  -- `W` and `I` are the workers and the idle list of `p` after one more job of slot `s` was started.
  pub record IsWoken (s : Slot) (p : Pool B) (W : List RunInfo) (I : List ℕ) : Type 0 where
    pub distinct : (w : ℕ) → occurrences w I ≤ one_if (ltb w (length W))
    pub balance : length W ≡ length I + total p + 1
    pub tallies : (t : Slot) → tally t I 0 W ≡ slot_active t p + one_if (slot_eq s t)
    pub grown : (length W ≤ length p.workers) ⊎ (length W ≡ total p + 1)
