-- ===== src/Pool/Commands.antt =====
-- oxenmq/worker.cpp: `proxy_inject_task`, and the part of `proxy_to_worker` that hands an authorised
-- command to a worker or queues it.
use oxen_mq.Common.{
  ℕ, ◌+◌, Bool, false, ◌&&◌, none, some, List, [], ◌∷◌, ◌++◌, Bytes, ℤ, pos, negsuc, modify,
  get_elem?, is_empty, if◌then◌else◌, leb,
}
use oxen_mq.Access.{Access, default_access}
use oxen_mq.ConnectionId.{ConnectionId, no_connection}
use oxen_mq.Pool.{
  Pool, active_workers, category_active, category_reserved, PendingCommand, InjectedTask, Callback,
  command_call, injected_call,
}
use oxen_mq.Pool.Workers.{load_command, load_injected, run_on_idle}
use oxen_mq.Pool.Jobs.{activate_category}

-- `max_queue >= 0 && queued >= max_queue`.
abbrev pub queue_full : ℤ → ℕ → Bool
queue_full (pos max_queue) queued = leb max_queue queued
queue_full (negsuc n) queued = false

-- How a command or task left the handler.
pub data Outcome : Type 0 where
  dropped_full queued_for_later dropped_no_tag running : Outcome

module _ {B : Type 0} where
  -- No free reserved or general spot.
  abbrev pub no_spot : ℕ → Pool B → Bool
  no_spot c p =
      leb (category_reserved p c) (category_active p c) && leb p.general_workers (active_workers p)

  abbrev pub is_full : ℕ → Pool B → Bool
  is_full c p = elim (get_elem? p.categories c) [
    | none ↦ false
    | some x ↦ queue_full x.max_queue x.queued
  ]

  -- `pending_commands.emplace_back(...); category.queued++`.
  unfoldable pub enqueue : PendingCommand → Pool B → Pool B
  enqueue c p = record p {
    pending_commands = p.pending_commands ++ c ∷ [];
    categories = modify p.categories c.cat (λ x. record x { queued = x.queued + 1 });
  }

  unfoldable pub queue_or_drop : PendingCommand → Pool B → Pool B × Outcome
  queue_or_drop c p = if is_full c.cat p then (p, dropped_full) else (enqueue c p, queued_for_later)

  -- From the test for a free worker to the end of `proxy_to_worker`; `conn` and `routed` are the
  -- connection ids that the two branches build.
  unfoldable pub dispatch_command :
      ℕ
      → Bytes
      → ConnectionId
      → Access
      → Bytes
      → List Bytes
      → Callback
      → Bool
      → Pool B
      → Pool B × Outcome
  dispatch_command cat command conn access remote data_parts callback is_request p =
      if no_spot cat p
      then queue_or_drop
          (record {
            cat = cat;
            command = command;
            data_parts = data_parts;
            callback = command_call callback is_request;
            conn = conn;
            access = access;
            remote = remote;
          })
          p
      else if is_request && is_empty data_parts
      then (p, dropped_no_tag)
      else (
        activate_category cat (
            run_on_idle
              (load_command cat command conn access remote data_parts
                (command_call callback is_request))
              p),
        running,
      )

  unfoldable pub proxy_inject_task : InjectedTask → Pool B → Pool B × Outcome
  proxy_inject_task task p =
      if no_spot task.cat p
      then queue_or_drop
          (record {
            cat = task.cat;
            command = task.command;
            data_parts = [];
            callback = injected_call task.callback;
            conn = no_connection;
            access = default_access;
            remote = task.remote;
          })
          p
      else (
        activate_category task.cat
            (run_on_idle (load_injected task.cat task.command task.remote task.callback) p),
        running,
      )
