-- ===== src/Pool/QueueLimits.antt =====
-- oxenmq/worker.cpp and oxenmq/proxy.cpp: `category::queued` counts the pending commands and respects
-- `max_queue`.
use oxen_mq.Common.{
  ℕ, zero, suc, ◌+◌, ◌-◌, ◌≡◌, refl, sym, ◌∙◌, ap, inl, inr, Bool, true, false, Option, none, some,
  List, [], ◌∷◌, ℤ, pos, negsuc, get_elem?, if◌then◌else◌, ltb, ◌==◌, arith, ==_iff, some_inj, All,
  is_empty, ◌&&◌, Bool-cases, Bytes,
}
use oxen_mq.Access.{Access}
use oxen_mq.ConnectionId.{ConnectionId}
use oxen_mq.Batch.{BatchOps}
use oxen_mq.Pool.{Pool, RunInfo, Category, PendingCommand, InjectedTask, Callback, active_workers}
use oxen_mq.Pool.Workers.{run_on_idle, load_pending}
use oxen_mq.Pool.Jobs.{
  activate_category, unqueue_category, run_pending, run_pendings, proxy_run_pending,
  proxy_process_queue, run_batch_jobs, proxy_run_batch_jobs, run_tagged_workers, has_spot,
  proxy_batch, proxy_schedule_reply_job, adopt,
}
use oxen_mq.Pool.Commands.{
  no_spot, is_full, enqueue, queue_or_drop, queue_full, dispatch_command, proxy_inject_task,
}
use oxen_mq.Pool.Finished.{proxy_worker_message}
use oxen_mq.Pool.Core.{core-proxy_batch}
use oxen_mq.Pool.Startup.{Config, start}
use oxen_mq.Pool.Reachability.{Step, Reach}
use oxen_mq.Pool.Backpressure.{
  waiting, waiting-append, Within, Within-le, line_of, line-shift, line_at, IsCounted,
  Same-IsCounted, core-Same, run_on_idle-Same, activate-Same, proxy_worker_message-Same,
  run_batch_jobs-Same, run_tagged-Same,
}

full_of :
    (o : Option Category) (k : ℕ) (m : ℤ)
    → line_of o ≡ some (k, m)
    → elim o [ none ↦ false | some x ↦ queue_full x.max_queue x.queued ] ≡ queue_full m k
full_of none k m e = absurd (cc)
full_of (some x) k m e =
    let same : (x.queued, x.max_queue) ≡ (k, m) = some_inj e in
    ap (λ (z : ℕ × ℤ). queue_full z.1 z.0) same

Within-suc : (k : ℕ) (m : ℤ) → queue_full m k ≡ false → Within (k + 1) m
Within-suc k (pos m) h = ground arith
Within-suc k (negsuc m) h = tt

module _ {B : Type 0} where
  -- The counters while a pass looks at `cs`; `extra` are the commands that it has passed over.
  abbrev Passing : List PendingCommand → (ℕ → ℕ) → Pool B → Type 0
  Passing cs extra p =
      (c n : ℕ) (m : ℤ) → line_at c p ≡ some (n, m) → (n ≡ waiting c cs + extra c) × Within n m

  run_pending-Passing :
      (x : PendingCommand) (cs : List PendingCommand) (extra : ℕ → ℕ) (p : Pool B)
      → Passing (x ∷ cs) extra p
      → Passing cs extra (run_pending x p)
  unfolding run_pending
  run_pending-Passing x cs extra p v c n m e =
      let q = run_on_idle (load_pending x) p in
      let plain : line_at c (unqueue_category x.cat q) ≡ some (n, m) =
        sym ((activate-Same x.cat (unqueue_category x.cat q)).1 c) ∙ e in
      let (n', at, shift) =
        line-shift _ (λ k. k - 1) q.categories x.cat c n m (λ y. refl) (λ y. refl) plain in
      let (sum, fits) = v c n' m (sym ((run_on_idle-Same (load_pending x) p).1 c) ∙ at) in
      (ground arith, Within-le n n' m (ground arith) fits)

  passed :
      (x : PendingCommand) (cs : List PendingCommand) (extra : ℕ → ℕ) (rest : List PendingCommand)
      (p q : Pool B)
      → Passing (x ∷ cs) extra p
      → (Passing cs (λ c. extra c + (if x.cat == c then 1 else 0)) p
          → Passing rest (λ c. extra c + (if x.cat == c then 1 else 0)) q)
      → Passing (x ∷ rest) extra q
  passed x cs extra rest p q v step c n m e =
      let (sum, fits) = step (λ d k l f. let (a, b) = v d k l f in (omega (arith, a), b)) c n m e in
      (omega (arith, sum), fits)

  run_pendings-Passing :
      (cs : List PendingCommand) (extra : ℕ → ℕ) (p : Pool B)
      → Passing cs extra p
      → Passing (run_pendings cs p).1 extra (run_pendings cs p).0
  unfolding run_pendings
  run_pendings-Passing [] extra p v = v
  run_pendings-Passing (x ∷ cs) extra p v =
      elim (Bool-cases (ltb (active_workers p) p.max_workers)) [
        | inr full ↦ rw (full, run_pendings) v
        | inl room ↦ elim (Bool-cases (has_spot x.cat p)) [
          | inl y ↦
              rw (room, run_pendings)
                (rw y (
                  run_pendings-Passing cs extra (run_pending x p)
                    (run_pending-Passing x cs extra p v)))
          | inr y ↦
              rw (room, run_pendings)
                (rw y (
                  passed x cs extra (run_pendings cs p).1 p (run_pendings cs p).0 v
                    (run_pendings-Passing cs (λ c. extra c + (if x.cat == c then 1 else 0)) p)))
        ]
      ]

  proxy_run_pending-IsCounted : (p : Pool B) → IsCounted p → IsCounted (proxy_run_pending p)
  unfolding proxy_run_pending
  proxy_run_pending-IsCounted p v c n m e =
      let (sum, fits) =
        run_pendings-Passing p.pending_commands (λ d. 0) p
          (λ d k l f. let (a, b) = v d k l f in (omega (arith, a), b)) c n m e in
      (omega (arith, sum), fits)

  proxy_process_queue-IsCounted : (p : Pool B) → IsCounted p → IsCounted (proxy_process_queue p)
  unfolding proxy_process_queue proxy_run_batch_jobs
  proxy_process_queue-IsCounted p v = elim (Bool-cases (p.max_workers == 0)) [
    | inl e ↦ rw e v
    | inr e ↦
        let a = run_tagged_workers p in
        let b = run_batch_jobs false a.batch_jobs a in
        let d = run_batch_jobs true b.reply_jobs b in
        rw e (
          proxy_run_pending-IsCounted d (
            Same-IsCounted b d (run_batch_jobs-Same true b.reply_jobs b) (
              Same-IsCounted a b (run_batch_jobs-Same false a.batch_jobs a)
                (Same-IsCounted p a (run_tagged-Same p) v))))
  ]

  enqueue-IsCounted :
      (x : PendingCommand) (p : Pool B)
      → is_full x.cat p ≡ false
      → IsCounted p
      → IsCounted (enqueue x p)
  unfolding enqueue
  enqueue-IsCounted x p h v c n m e =
      let (k, at, shift) =
        line-shift _ (λ j. j + 1) p.categories x.cat c n m (λ y. refl) (λ y. refl) e in
      let (sum, fits) = v c k m at in
      (
        ground (arith, waiting-append c p.pending_commands x),
        elim (Bool-cases (x.cat == c)) [
          | inr other ↦ Within-le n k m (ground arith) fits
          | inl same ↦
              let cat : x.cat ≡ c = (==_iff x.cat c).0 same in
              let room : queue_full m k ≡ false =
                sym (full_of (get_elem? p.categories c) k m at)
                ∙ ap (λ d. is_full d p) (sym cat)
                ∙ h in
              Within-le n (k + 1) m (ground arith) (Within-suc k m room)
        ],
      )

  queue_or_drop-IsCounted :
      (x : PendingCommand) (p : Pool B) → IsCounted p → IsCounted (queue_or_drop x p).0
  unfolding queue_or_drop
  queue_or_drop-IsCounted x p v = elim (Bool-cases (is_full x.cat p)) [
    | inl e ↦ rw e v
    | inr e ↦ rw e (enqueue-IsCounted x p e v)
  ]

  started-IsCounted :
      (load : RunInfo → RunInfo) (c : ℕ) (p : Pool B)
      → IsCounted p
      → IsCounted (activate_category c (run_on_idle load p))
  started-IsCounted load c p v =
      Same-IsCounted (run_on_idle load p) (activate_category c (run_on_idle load p))
        (activate-Same c (run_on_idle load p))
        (Same-IsCounted p (run_on_idle load p) (run_on_idle-Same load p) v)

  inject-IsCounted :
      (task : InjectedTask) (p : Pool B) → IsCounted p → IsCounted (proxy_inject_task task p).0
  unfolding proxy_inject_task
  inject-IsCounted task p v = elim (Bool-cases (no_spot task.cat p)) [
    | inl e ↦ rw e (queue_or_drop-IsCounted _ p v)
    | inr e ↦ rw e (started-IsCounted _ task.cat p v)
  ]

  command-IsCounted :
      (cat : ℕ) (name : Bytes) (conn : ConnectionId) (access : Access) (remote : Bytes)
      (parts : List Bytes) (f : Callback) (r : Bool) (p : Pool B)
      → IsCounted p
      → IsCounted (dispatch_command cat name conn access remote parts f r p).0
  unfolding dispatch_command
  command-IsCounted cat name conn access remote parts f r p v = elim (Bool-cases (no_spot cat p)) [
    | inl e ↦ rw e (queue_or_drop-IsCounted _ p v)
    | inr e ↦ rw e (elim (Bool-cases (r && is_empty parts)) [
      | inl t ↦ rw t v
      | inr t ↦ rw t (started-IsCounted _ cat p v)
    ])
  ]

module _ {B : Type 0} (o : BatchOps B) where
  Step-IsCounted : {p q : Pool B} → Step o p q → IsCounted p → IsCounted q
  unfolding adopt proxy_schedule_reply_job
  Step-IsCounted {p} (Step.command cat name conn access remote parts f r h) v =
      command-IsCounted cat name conn access remote parts f r p v
  Step-IsCounted {p} (Step.inject task h) v = inject-IsCounted task p v
  Step-IsCounted {p} (Step.new_batch b) v = v
  Step-IsCounted {p} (Step.queue_batch b) v =
      Same-IsCounted p (proxy_batch o b p)
        (core-Same p (proxy_batch o b p) (core-proxy_batch o b p)) v
  Step-IsCounted {p} (Step.reply_job j) v = v
  Step-IsCounted {p} Step.process_queue v = proxy_process_queue-IsCounted p v
  Step-IsCounted {p} (Step.worker_message parts h) v =
      Same-IsCounted p (proxy_worker_message o parts p) (proxy_worker_message-Same o parts p) v

  Reach-keeps_count : {p q : Pool B} → Reach o p q → IsCounted p → IsCounted q
  Reach-keeps_count Reach.here v = v
  Reach-keeps_count (Reach.next r s) v = Step-IsCounted s (Reach-keeps_count r v)

  unqueued :
      (cs : List Category) (c n : ℕ) (m : ℤ)
      → All (λ x. x.queued ≡ 0) cs
      → line_of (get_elem? cs c) ≡ some (n, m)
      → n ≡ 0
  unqueued [] c n m h e = absurd (cc)
  unqueued (x ∷ cs) zero n m h e =
      let same : (x.queued, x.max_queue) ≡ (n, m) = some_inj e in
      sym (ap (λ (z : ℕ × ℤ). z.0) same) ∙ h.0
  unqueued (x ∷ cs) (suc c) n m h e = unqueued cs c n m h.1 e

  Within-zero : (n : ℕ) (m : ℤ) → n ≡ 0 → Within n m
  Within-zero n (pos m) h = omega (arith, h)
  Within-zero n (negsuc m) h = tt

  -- In every state of the proxy between `start()` and QUIT, if nothing was queued at the start, the
  -- `queued` of each category is the number of its commands that are pending, and at most
  -- `max_queue`, unless that is negative.
  pub Reach-IsCounted :
      (cfg : Config) (p : Pool B) (c : ℕ) (x : Category)
      → All (λ y. y.queued ≡ 0) cfg.categories
      → Reach o (start cfg) p
      → get_elem? p.categories c ≡ some x
      → (x.queued ≡ waiting c p.pending_commands) × Within x.queued x.max_queue
  unfolding start
  Reach-IsCounted cfg p c x h r e =
      Reach-keeps_count r
        (λ d n m f. let z = unqueued cfg.categories d n m h f in (z, Within-zero n m z)) c x.queued
        x.max_queue (ap line_of e)
