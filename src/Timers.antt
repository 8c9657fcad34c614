-- ===== src/Timers.antt =====
-- oxenmq/jobs.cpp: timers (`add_timer`, `proxy_timer`, `_queue_timer_job`, `proxy_timer_del`). The zmq
-- timer id of a new timer, which `zmq_timers_add` returns, is an argument.
pub mod Squelch
use oxen_mq.Common.{
  ℕ, zero, suc, ◌+◌, Bool, true, false, ◌&&◌, Option, none, some, List, [], ◌∷◌, ◌++◌, ℤ, pos,
  negsuc, is_minus_one, find, erase, update, if◌then◌else◌, ◌==◌, length,
}
use oxen_mq.Pool.{Callback, Pool}
use oxen_mq.Pool.Jobs.{adopt, queue_job}

pub record TimerData : Type 0 where
  pub function : Callback
  pub squelch : Bool
  pub running : Bool
  pub thread : ℤ

-- `timer_jobs` by zmq id, `timer_zmq_id` by our id. `ran` are the functions run in the proxy thread,
-- and `cancelled` the zmq timers that were cancelled, latest first.
pub record Timers : Type 0 where
  pub timer_jobs : List (ℕ × TimerData)
  pub timer_zmq_id : List (ℕ × ℕ)
  pub next_timer_id : ℕ
  pub ran : List Callback
  pub cancelled : List ℕ

-- `map[key] = value`.
abbrev pub assign : {V : Type 0} → ℕ → V → List (ℕ × V) → List (ℕ × V)
assign k v es = (k, v) ∷ erase ◌==◌ k es

unfoldable pub proxy_timer : ℕ → ℕ → Callback → Bool → ℤ → Timers → Timers
proxy_timer zmq_timer_id id job squelch thread t = record t {
  timer_jobs =
      assign zmq_timer_id
        (record { function = job; squelch = squelch; running = false; thread = thread })
        t.timer_jobs;
  timer_zmq_id = assign id zmq_timer_id t.timer_zmq_id;
}

-- `add_timer`: the timer's own id, and the registration.
unfoldable pub add_timer : ℕ → Callback → Bool → ℤ → Timers → Timers × ℕ
add_timer zmq_timer_id job squelch thread t = (
  proxy_timer zmq_timer_id t.next_timer_id job squelch thread
      (record t { next_timer_id = t.next_timer_id + 1 }),
  t.next_timer_id,
)

-- The entry of `timer_jobs` stays.
unfoldable pub proxy_timer_del : ℕ → Timers → Timers
proxy_timer_del id t = elim (find ◌==◌ id t.timer_zmq_id) [
  | none ↦ t
  | some zmq ↦ record t {
    timer_zmq_id = erase ◌==◌ id t.timer_zmq_id;
    cancelled = zmq ∷ t.cancelled;
  }
]

abbrev pub set_running : Bool → ℕ → Timers → Timers
set_running b id t = record t {
  timer_jobs = update ◌==◌ id (λ d. record d { running = b }) t.timer_jobs;
}

module _ {B : Type 0} where
  -- `make squelch function thread` is the object that is queued: a `Batch<void>` of one job, whose
  -- completion function runs in the proxy thread, or a `Job`.
  unfoldable pub queue_timer :
      (Bool → Callback → ℤ → B) → ℕ → TimerData → Timers → Pool B → Timers × Pool B
  queue_timer make timer_id d t p =
      let (q, b) = adopt (make d.squelch d.function d.thread) p in
      (if d.squelch then set_running true timer_id t else t, queue_job d.thread (b, some 0) q)

  -- zmq calls this when a timer is due.
  unfoldable pub queue_timer_job : (Bool → Callback → ℤ → B) → ℕ → Timers → Pool B → Timers × Pool B
  queue_timer_job make timer_id t p = elim (find ◌==◌ timer_id t.timer_jobs) [
    | none ↦ (t, p)
    | some d ↦
        if d.squelch && d.running
        then (t, p)
        else if is_minus_one d.thread
        then (record t { ran = d.function ∷ t.ran }, p)
        else queue_timer make timer_id d t p
  ]

-- The completion function of a squelched timer's batch.
unfoldable pub timer_done : ℕ → Timers → Timers
timer_done timer_id t = set_running false timer_id t
