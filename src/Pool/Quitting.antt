-- ===== src/Pool/Quitting.antt =====
-- oxenmq/proxy.cpp: after QUIT, the queues of the pool only grow.
use oxen_mq.Common.{◌≡◌, refl, sym, subst, ◌∙◌}
use oxen_mq.Batch.{BatchOps}
use oxen_mq.Pool.{Pool}
use oxen_mq.Pool.Jobs.{adopt, proxy_schedule_reply_job, proxy_process_queue}
use oxen_mq.Pool.Reachability.{
  Step, Reach, command, inject, new_batch, queue_batch, reply_job, process_queue, worker_message,
  here, next,
}
use oxen_mq.Pool.Shutdown.{proxy_quit_workers}
use oxen_mq.Pool.Growth.{
  Extends, TaggedExtend, Grows, Grows-trans, Grows-same, Grows-refl, reply_jobs-Grows,
  proxy_inject_task-Grows, dispatch_command-Grows, proxy_batch-Grows, proxy_worker_message-Grows,
}

module _ {B : Type 0} where
  -- Without workers nothing is taken from a queue.
  idle_queue : (p : Pool B) → p.max_workers ≡ 0 → proxy_process_queue p ≡ p
  unfolding proxy_process_queue
  idle_queue p e = rw (e, proxy_process_queue) refl

  Step-Grows : (o : BatchOps B) {p q : Pool B} → p.max_workers ≡ 0 → Step o p q → Grows p q
  unfolding adopt proxy_schedule_reply_job
  Step-Grows o {p} z (command cat name conn access remote parts f r h) =
      dispatch_command-Grows cat name conn access remote parts f r p
  Step-Grows o {p} z (inject task h) = proxy_inject_task-Grows task p
  Step-Grows o {p} z (new_batch b) = Grows-same refl
  Step-Grows o {p} z (queue_batch b) = proxy_batch-Grows o b p
  Step-Grows o {p} z (reply_job j) = Grows-trans (reply_jobs-Grows p _) (Grows-same refl)
  Step-Grows o {p} z process_queue = subst (Grows p) (sym (idle_queue p z)) (Grows-refl p)
  Step-Grows o {p} z (worker_message parts h) = proxy_worker_message-Grows o parts p

  Reach-Grows : (o : BatchOps B) {p q : Pool B} → p.max_workers ≡ 0 → Reach o p q → Grows p q
  Reach-Grows o {p} z here = Grows-refl p
  Reach-Grows o {p} z (next r s) =
      let g = Reach-Grows o z r in Grows-trans g (Step-Grows o (g.limit ∙ z) s)

  -- Once the proxy is told to quit no queued job or command is ever started: whatever commands, tasks,
  -- batches, reply jobs, worker messages and passes over the queues follow, in any order, all that was
  -- queued stays queued, in order.
  pub quit-Grows :
      (o : BatchOps B) (p : Pool B) {q : Pool B}
      → Reach o (proxy_quit_workers p) q
      → (q.max_workers ≡ 0)
        × Extends p.batch_jobs q.batch_jobs
        × Extends p.reply_jobs q.reply_jobs
        × Extends p.pending_commands q.pending_commands
        × TaggedExtend p.tagged_workers q.tagged_workers
  unfolding proxy_quit_workers
  quit-Grows o p r =
      let g = Reach-Grows o refl r in (g.limit, g.batch_queue, g.reply_queue, g.pending, g.tagged)
