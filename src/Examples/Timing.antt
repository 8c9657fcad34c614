-- ===== src/Examples/Timing.antt =====
-- A squelched timer that runs in any worker.
use oxen_mq.Common.{◌≡◌, refl, Bool, true, false, some, [], ◌∷◌, ℤ, pos, find, ◌==◌, length}
use oxen_mq.Pool.{Pool, Callback}
use oxen_mq.Pool.Jobs.{adopt, queue_job}
use oxen_mq.Pool.Startup.{Config, start}
use oxen_mq.Timers.{TimerData, Timers, queue_timer_job, timer_done}
use oxen_mq.Timers.Squelch.{queue_timer_job-squelched}

abbrev tick : TimerData
tick = record { function = 8; squelch = true; running = false; thread = pos 0 }

abbrev timers : Timers
timers = record {
  timer_jobs = (2, tick) ∷ [];
  timer_zmq_id = (1, 2) ∷ [];
  next_timer_id = 2;
  ran = [];
  cancelled = [];
}

abbrev small : Config
small = record {
  proxy_running = false;
  general_workers = 1;
  batch_jobs_reserved = pos 0;
  reply_jobs_reserved = pos 0;
  categories = [];
  tagged_workers = [];
}

abbrev pool : Pool (Callback × ℤ)
pool = start small

abbrev make : Bool → Callback → ℤ → Callback × ℤ
make squelch f thread = (f, thread)

queue_timer_job-squelched_example :
    (u : Timers) × (q : Pool (Callback × ℤ)) × (queue_timer_job make 2 timers pool ≡ (u, q))
    × (q ≡ queue_job (pos 0) (length pool.batches, some 0) (adopt (make true 8 (pos 0)) pool).0)
    × (queue_timer_job make 2 u q ≡ (u, q))
    × (find ◌==◌ 2 (timer_done 2 u).timer_jobs ≡ some tick)
queue_timer_job-squelched_example =
    queue_timer_job-squelched make 2 tick timers pool refl refl refl refl
