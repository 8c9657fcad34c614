-- ===== src/Pool/Submission.antt =====
-- oxenmq/worker.cpp: a command or an injected task that is handed over keeps the pool valid.
use oxen_mq.Common.{
  ℕ, ◌+◌, ◌<◌, ◌≡◌, refl, inl, inr, Bool, false, List, [], ◌∷◌, ◌++◌, length, length-modify,
  All-append, is_empty, ◌&&◌, Bytes, arith, Bool-cases,
}
use oxen_mq.Access.{Access}
use oxen_mq.ConnectionId.{ConnectionId}
use oxen_mq.Pool.{Pool, RunInfo, PendingCommand, InjectedTask, Callback, ToRun}
use oxen_mq.Pool.Workers.{run_on_idle, load_command, load_injected}
use oxen_mq.Pool.Commands.{
  no_spot, queue_or_drop, enqueue, dispatch_command, proxy_inject_task, is_full,
}
use oxen_mq.Pool.Measures.{Slot, category_slot, slot_of}
use oxen_mq.Pool.Validity.{IsValid}
use oxen_mq.Pool.Started.{run_on_idle-Started}
use oxen_mq.Pool.Activation.{activate, IsSlot, HasSpot, activate-IsValid}
use oxen_mq.Pool.Core.{pending-IsValid, categories-IsValid}

slot_of-load_command :
    (cat : ℕ) (command : Bytes) (conn : ConnectionId) (access : Access) (remote : Bytes)
    (data_parts : List Bytes) (callback : ToRun) (r : RunInfo)
    → slot_of (load_command cat command conn access remote data_parts callback r)
      ≡ category_slot cat
unfolding load_command
slot_of-load_command cat command conn access remote data_parts callback r = refl

slot_of-load_injected :
    (cat : ℕ) (command remote : Bytes) (f : Callback) (r : RunInfo)
    → slot_of (load_injected cat command remote f r) ≡ category_slot cat
unfolding load_injected
slot_of-load_injected cat command remote f r = refl

module _ {B : Type 0} where
  -- A job that is loaded and counted against its slot.
  pub start-IsValid :
      (s : Slot) (p : Pool B) (load : RunInfo → RunInfo)
      → IsValid p
      → IsSlot s p
      → HasSpot s p
      → ((r : RunInfo) → slot_of (load r) ≡ s)
      → IsValid (activate s (run_on_idle load p))
  start-IsValid s p load v h spot k =
      activate-IsValid s p _ v (run_on_idle-Started s p load v k) h spot

  enqueue-IsValid :
      (c : PendingCommand) (p : Pool B)
      → c.cat < length p.categories
      → IsValid p
      → IsValid (enqueue c p)
  unfolding enqueue
  enqueue-IsValid c p h v =
      let w =
        categories-IsValid p c.cat (λ x. record x { queued = x.queued + 1 }) (λ x. refl) (λ x. refl)
          v in
      pending-IsValid _ (p.pending_commands ++ c ∷ []) w (
        All-append _ p.pending_commands (c ∷ []) w.known
          (rw (length-modify p.categories c.cat) h, tt))

  queue_or_drop-IsValid :
      (c : PendingCommand) (p : Pool B)
      → c.cat < length p.categories
      → IsValid p
      → IsValid (queue_or_drop c p).0
  unfolding queue_or_drop
  queue_or_drop-IsValid c p h v = elim (Bool-cases (is_full c.cat p)) [
    | inl e ↦ rw e v
    | inr e ↦ rw e (enqueue-IsValid c p h v)
  ]

  spot_of_no_spot : (c : ℕ) (p : Pool B) → no_spot c p ≡ false → HasSpot (category_slot c) p
  spot_of_no_spot c p e = ground arith

  -- However `proxy_to_worker` disposes of an authorised command (it runs, is queued, or is dropped
  -- for a full queue or a missing reply tag), the pool stays valid.
  pub dispatch_command-IsValid :
      (cat : ℕ) (command : Bytes) (conn : ConnectionId) (access : Access) (remote : Bytes)
      (data_parts : List Bytes) (callback : Callback) (is_request : Bool) (p : Pool B)
      → cat < length p.categories
      → IsValid p
      → IsValid (dispatch_command cat command conn access remote data_parts callback is_request p).0
  unfolding dispatch_command
  dispatch_command-IsValid cat command conn access remote data_parts callback is_request p h v =
      elim (Bool-cases (no_spot cat p)) [
        | inl e ↦ rw e (queue_or_drop-IsValid _ p h v)
        | inr e ↦ rw e (elim (Bool-cases (is_request && is_empty data_parts)) [
          | inl q ↦ rw q v
          | inr q ↦ rw q (
              start-IsValid (category_slot cat) p _ v h (spot_of_no_spot cat p e)
                (slot_of-load_command cat command conn access remote data_parts _))
        ])
      ]

  -- The same for an injected task.
  pub proxy_inject_task-IsValid :
      (task : InjectedTask) (p : Pool B)
      → task.cat < length p.categories
      → IsValid p
      → IsValid (proxy_inject_task task p).0
  unfolding proxy_inject_task
  proxy_inject_task-IsValid task p h v = elim (Bool-cases (no_spot task.cat p)) [
    | inl e ↦ rw e (queue_or_drop-IsValid _ p h v)
    | inr e ↦ rw e (
        start-IsValid (category_slot task.cat) p _ v h (spot_of_no_spot task.cat p e)
          (slot_of-load_injected task.cat task.command task.remote task.callback))
  ]
