-- ===== src/Pool/Shutdown.antt =====
-- oxenmq/proxy.cpp: the QUIT command of `proxy_control_message`, and what may follow it.
use oxen_mq.Common.{
  ℕ, ◌+◌, ◌<◌, ◌≡◌, refl, ◌∙◌, ap, true, false, List, [], ◌∷◌, ◌++◌, length, length-append,
  length-modify, map, get_elem?, if◌then◌else◌, Option-cases, inl, inr, Bool-cases, arith,
}
use oxen_mq.Pool.{
  Pool, RunInfo, TaggedWorker, Effect, send_quit, InjectedTask, category_active, category_reserved,
  fresh_run,
}
use oxen_mq.Pool.Workers.{run_on_idle, proxy_run_worker}
use oxen_mq.Pool.Started.{get_idle_worker-new}
use oxen_mq.Pool.Commands.{proxy_inject_task, no_spot}

-- The QUIT messages to tagged workers that are not busy, latest first.
abbrev quit_tagged : List TaggedWorker → List Effect
quit_tagged [] = []
quit_tagged (t ∷ ts) =
    quit_tagged ts ++ (if t.busy then [] else send_quit true t.run.worker_id ∷ [])

module _ {B : Type 0} where
  -- `workers[idle_workers[i]].worker_routing_id` for each idle worker, the bottom of the stack first.
  unfoldable pub proxy_quit_workers : Pool B → Pool B
  proxy_quit_workers p = record p {
    max_workers = 0;
    idle_workers = [];
    effects =
        quit_tagged p.tagged_workers ++ map (λ w. send_quit false w) p.idle_workers ++ p.effects;
  }

  length-proxy_run_worker :
      (p : Pool B) (w : ℕ) → length (proxy_run_worker p w).workers ≡ length p.workers
  unfolding proxy_run_worker
  length-proxy_run_worker p w = elim (Option-cases (get_elem? p.workers w)) [
    | inl e ↦ rw (e, proxy_run_worker) refl
    | inr (r, e) ↦
        rw (e, proxy_run_worker)
          (elim (Bool-cases r.joinable) [
            | inl j ↦ rw j refl
            | inr j ↦ rw j (length-modify p.workers w _)
          ])
  ]

  run_on_idle-new :
      (load : RunInfo → RunInfo) (p : Pool B)
      → p.idle_workers ≡ []
      → length (run_on_idle load p).workers ≡ length p.workers + 1
  unfolding run_on_idle
  run_on_idle-new load p e = rw (get_idle_worker-new p e) (
      length-proxy_run_worker _ (length p.workers)
      ∙ length-modify (p.workers ++ fresh_run (length p.workers) ∷ []) (length p.workers) load
      ∙ length-append p.workers (fresh_run (length p.workers) ∷ []))

  spot_after_quit :
      (c : ℕ) (p : Pool B)
      → category_active p c < category_reserved p c
      → no_spot c (proxy_quit_workers p) ≡ false
  unfolding proxy_quit_workers
  spot_after_quit c p h = ground arith

  idle_after_quit : (p : Pool B) → (proxy_quit_workers p).idle_workers ≡ []
  unfolding proxy_quit_workers
  idle_after_quit p = refl

  workers_after_quit : (p : Pool B) → length (proxy_quit_workers p).workers ≡ length p.workers
  unfolding proxy_quit_workers
  workers_after_quit p = refl

  -- But a task that is injected after QUIT, when all `max_workers` workers were created, still gets
  -- a worker if its category has a reserved spot free: one more than there are sockets, since the
  -- idle list is empty and `max_workers` is not asked.
  pub quit_overcommits :
      (p : Pool B) (task : InjectedTask)
      → length p.workers ≡ p.worker_sockets
      → category_active p task.cat < category_reserved p task.cat
      → length (proxy_inject_task task (proxy_quit_workers p)).0.workers ≡ p.worker_sockets + 1
  unfolding proxy_inject_task
  quit_overcommits p task full spot = rw (spot_after_quit task.cat p spot) (
      run_on_idle-new _ (proxy_quit_workers p) (idle_after_quit p)
      ∙ ap (λ n. n + 1) (workers_after_quit p ∙ full))
