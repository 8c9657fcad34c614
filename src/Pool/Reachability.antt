-- ===== src/Pool/Reachability.antt =====
-- The runs of the proxy thread, from `start()` until it is told to quit, as sequences of the
-- operations on the pool.
use oxen_mq.Common.{
  ℕ, zero, suc, ◌-◌, ◌≤◌, ◌<◌, ◌≡◌, refl, sym, Bool, List, [], ◌∷◌, length, All, Bytes, arith,
  sum_by,
}
use oxen_mq.Access.{Access}
use oxen_mq.ConnectionId.{ConnectionId}
use oxen_mq.Batch.{BatchOps}
use oxen_mq.Pool.{Pool, RunInfo, Category, Callback, InjectedTask, active_workers, category_active}
use oxen_mq.Pool.Startup.{Config, start}
use oxen_mq.Pool.Jobs.{adopt, proxy_batch, proxy_schedule_reply_job, proxy_process_queue}
use oxen_mq.Pool.Commands.{dispatch_command, proxy_inject_task}
use oxen_mq.Pool.Finished.{proxy_worker_message}
use oxen_mq.Pool.Measures.{Slot, batch_slot, reply_slot, category_slot, slot_of}
use oxen_mq.Pool.Validity.{IsValid, slot_active, total}
use oxen_mq.Pool.Core.{core, core-IsValid, core-proxy_batch}
use oxen_mq.Pool.Submission.{dispatch_command-IsValid, proxy_inject_task-IsValid}
use oxen_mq.Pool.Draining.{proxy_process_queue-IsValid}
use oxen_mq.Pool.Release.{IsBusy, busy_counted}
use oxen_mq.Pool.WorkerMessages.{IsHonest, proxy_worker_message-IsValid}

-- What `start()` relies on: the counters of the categories are at 0, and there is a general worker.
pub record IsFresh (c : Config) : Type 0 where
  pub inactive : All (λ x. x.active_threads ≡ 0) c.categories
  pub general : 0 < c.general_workers

sum-inactive :
    (cs : List Category)
    → All (λ x. x.active_threads ≡ 0) cs
    → (sum_by (λ x. x.active_threads) cs ≡ 0)
      × (sum_by (λ x. x.active_threads - x.reserved_threads) cs ≡ 0)
sum-inactive [] h = (refl, refl)
sum-inactive (x ∷ cs) h = let (a, b) = sum-inactive cs h.1 in (omega arith, omega arith)

at-inactive :
    {B : Type 0} (p : Pool B) (cs : List Category) (c : ℕ)
    → All (λ x. x.active_threads ≡ 0) cs
    → category_active (record p { categories = cs }) c ≡ 0
at-inactive p [] c h = refl
at-inactive p (x ∷ cs) zero h = h.0
at-inactive p (x ∷ cs) (suc c) h = at-inactive p cs c h.1

module _ {B : Type 0} (o : BatchOps B) where
  pub data Step (p : Pool B) : Pool B → Type 0 where
    -- An authorised command, of a category that exists.
    command :
        (cat : ℕ) (name : Bytes) (conn : ConnectionId) (access : Access) (remote : Bytes)
        (data_parts : List Bytes) (callback : Callback) (is_request : Bool)
        → cat < length p.categories
        → Step p (dispatch_command cat name conn access remote data_parts callback is_request p).0
    inject :
        (task : InjectedTask) → task.cat < length p.categories → Step p (proxy_inject_task task p).0
    new_batch : (b : B) → Step p (adopt b p).0
    queue_batch : (b : ℕ) → Step p (proxy_batch o b p)
    reply_job : (j : B) → Step p (proxy_schedule_reply_job j p)
    process_queue : Step p (proxy_process_queue p)
    worker_message :
        (parts : List Bytes) → IsHonest parts p → Step p (proxy_worker_message o parts p)

  pub data Reach (p : Pool B) : Pool B → Type 0 where
    here : Reach p p
    next : {q r : Pool B} → Reach p q → Step q r → Reach p r

  core-adopt : (b : B) (p : Pool B) → core (adopt b p).0 ≡ core p
  unfolding adopt
  core-adopt b p = refl

  core-proxy_schedule_reply_job :
      (j : B) (p : Pool B) → core (proxy_schedule_reply_job j p) ≡ core p
  unfolding proxy_schedule_reply_job
  core-proxy_schedule_reply_job j p = refl

  Step-IsValid : {p q : Pool B} → Step p q → IsValid p → IsValid q
  Step-IsValid {p} (command cat name conn access remote parts f r h) v =
      dispatch_command-IsValid cat name conn access remote parts f r p h v
  Step-IsValid {p} (inject task h) v = proxy_inject_task-IsValid task p h v
  Step-IsValid {p} (new_batch b) v = core-IsValid p _ (core-adopt b p) v
  Step-IsValid {p} (queue_batch b) v = core-IsValid p _ (core-proxy_batch o b p) v
  Step-IsValid {p} (reply_job j) v = core-IsValid p _ (core-proxy_schedule_reply_job j p) v
  Step-IsValid {p} process_queue v = proxy_process_queue-IsValid p v
  Step-IsValid {p} (worker_message parts h) v = proxy_worker_message-IsValid o parts p v h

  start-inactive : (c : Config) → IsFresh c → (t : Slot) → slot_active {B = B} t (start c) ≡ 0
  unfolding start
  start-inactive c f batch_slot = refl
  start-inactive c f reply_slot = refl
  start-inactive c f (category_slot d) = at-inactive {B = B} (start c) c.categories d f.inactive

  pub start-IsValid : (c : Config) → IsFresh c → IsValid {B = B} (start c)
  unfolding start
  start-IsValid c f =
      let (a, b) = sum-inactive c.categories f.inactive in
      record {
        distinct = λ w. omega arith;
        balance = omega arith;
        tallies = λ t. sym (start-inactive c f t);
        within = omega arith;
        sockets = omega arith;
        limit = refl;
        bounded = omega arith;
        some_general = f.general;
        known = tt;
      }

  Reach-IsValid : {p q : Pool B} → Reach p q → IsValid p → IsValid q
  Reach-IsValid here v = v
  Reach-IsValid (next r s) v = Step-IsValid s (Reach-IsValid r v)

  -- In every state of the proxy between `start()` and QUIT: there are no more workers than
  -- `max_workers`, for which sockets and idle slots were made (so no reference to a worker is ever
  -- invalidated); `active_workers()` is the number of jobs that the counters count; and a worker
  -- that is not idle runs a job whose counter is above 0, as the assertions on its return demand.
  pub Reach-bounds :
      (c : Config) (p : Pool B)
      → IsFresh c
      → Reach (start c) p
      → (length p.workers ≤ p.max_workers)
        × (p.worker_sockets ≡ p.max_workers)
        × (active_workers p ≡ total p)
        × ((wid : ℕ) (run : RunInfo) → IsBusy wid run p → 0 < slot_active (slot_of run) p)
  Reach-bounds c p f r =
      let v = Reach-IsValid r (start-IsValid c f) in
      (
        omega (arith, v.bounded, v.limit),
        sym v.limit,
        omega (arith, v.balance),
        λ wid run b. busy_counted wid run p v b,
      )
