-- ===== src/Pool/Draining.antt =====
-- oxenmq/proxy.cpp, `proxy_process_queue`: a pass over the queues keeps the pool valid.
use oxen_mq.Common.{
  ℕ, ◌+◌, ◌-◌, ◌<◌, ◌≡◌, refl, sym, ◌∙◌, ap, inl, inr, Bool, true, false, List, [], ◌∷◌, length,
  length-modify, modify-modify, All, ltb, ◌==◌, arith, Bool-cases,
}
use oxen_mq.Pool.{Pool, RunInfo, BatchJob, PendingCommand, active_workers, injected_call, ToRun}
use oxen_mq.Pool.Workers.{run_on_idle, load_callback, load_pending, load_batch_job}
use oxen_mq.Pool.Jobs.{
  has_spot, activate_category, may_run_job, run_batch_job, run_batch_jobs, proxy_run_batch_jobs,
  set_queue, activate_job, unqueue_category, run_pending, run_pendings, proxy_run_pending,
  run_tagged_workers, proxy_process_queue,
}
use oxen_mq.Pool.Measures.{Slot, batch_slot, reply_slot, category_slot, slot_of}
use oxen_mq.Pool.Validity.{IsValid}
use oxen_mq.Pool.Started.{Started, run_on_idle-Started}
use oxen_mq.Pool.Activation.{activate, IsSlot, HasSpot}
use oxen_mq.Pool.Core.{core, core-IsValid, pending-IsValid, categories-IsValid}
use oxen_mq.Pool.Submission.{start-IsValid}

slot_of-load_callback :
    (t : ToRun) (c : PendingCommand) (r : RunInfo)
    → slot_of (load_callback t c r) ≡ category_slot c.cat
unfolding load_callback
slot_of-load_callback (injected_call f) c r = refl
slot_of-load_callback _ c r = refl

slot_of-load_pending :
    (c : PendingCommand) (r : RunInfo) → slot_of (load_pending c r) ≡ category_slot c.cat
unfolding load_pending
slot_of-load_pending c r = slot_of-load_callback c.callback c r

abbrev job_slot : Bool → Slot
job_slot true = reply_slot
job_slot false = batch_slot

slot_of-load_batch_job :
    (j : BatchJob) (reply : Bool) (t : ℕ) (r : RunInfo)
    → slot_of (load_batch_job j reply t r) ≡ job_slot reply
unfolding load_batch_job
slot_of-load_batch_job j true t r = refl
slot_of-load_batch_job j false t r = refl

module _ {B : Type 0} where
  core-set_queue :
      (reply : Bool) (js : List BatchJob) (p : Pool B) → core (set_queue reply js p) ≡ core p
  core-set_queue true js p = refl
  core-set_queue false js p = refl

  core-activate_job :
      (reply : Bool) (js : List BatchJob) (p : Pool B)
      → core (activate_job reply (set_queue reply js p)) ≡ core (activate (job_slot reply) p)
  core-activate_job true js p = refl
  core-activate_job false js p = refl

  spot_of_may_run_job :
      (reply : Bool) (p : Pool B) → may_run_job reply p ≡ true → HasSpot (job_slot reply) p
  spot_of_may_run_job true p e = ground arith
  spot_of_may_run_job false p e = ground arith

  IsSlot-job_slot : (reply : Bool) (p : Pool B) → IsSlot (job_slot reply) p
  IsSlot-job_slot true p = tt
  IsSlot-job_slot false p = tt

  pub run_batch_job-IsValid :
      (reply : Bool) (j : BatchJob) (rest : List BatchJob) (p : Pool B)
      → may_run_job reply p ≡ true
      → IsValid p
      → IsValid (run_batch_job reply j rest p)
  unfolding run_batch_job
  run_batch_job-IsValid reply j rest p e v = core-IsValid _ _ (core-activate_job reply rest _) (
      start-IsValid (job_slot reply) p _ v (IsSlot-job_slot reply p) (spot_of_may_run_job reply p e)
        (slot_of-load_batch_job j reply 0))

  run_batch_jobs-IsValid :
      (reply : Bool) (js : List BatchJob) (p : Pool B)
      → IsValid p
      → IsValid (run_batch_jobs reply js p)
  unfolding run_batch_jobs
  run_batch_jobs-IsValid reply [] p v = v
  run_batch_jobs-IsValid reply (j ∷ rest) p v = elim (Bool-cases (may_run_job reply p)) [
    | inl e ↦
        rw (e, run_batch_jobs)
          (run_batch_jobs-IsValid reply rest _ (run_batch_job-IsValid reply j rest p e v))
    | inr e ↦ rw (e, run_batch_jobs) v
  ]

  -- The pool stays valid and loses no category.
  abbrev Keeps : Pool B → Pool B → Type 0
  Keeps p q = IsValid q × (length q.categories ≡ length p.categories)

  -- The two counters of a category change independently.
  activate-unqueue :
      (c : ℕ) (q : Pool B)
      → activate_category c (unqueue_category c q) ≡ unqueue_category c (activate_category c q)
  activate-unqueue c q =
      ap (λ cs. record q { categories = cs })
        (modify-modify q.categories c (λ x. record x { queued = x.queued - 1 })
            (λ x. record x { active_threads = x.active_threads + 1 })
          ∙ sym (
              modify-modify q.categories c (λ x. record x { active_threads = x.active_threads + 1 })
                (λ x. record x { queued = x.queued - 1 })))

  length-Started :
      (s : Slot) (p q : Pool B) → Started s p q → length q.categories ≡ length p.categories
  length-Started s p q (W, I, e, same, k) = ap (λ (r : Pool B). length r.categories) same

  run_pending-Keeps :
      (c : PendingCommand) (p : Pool B)
      → c.cat < length p.categories
      → has_spot c.cat p ≡ true
      → IsValid p
      → Keeps p (run_pending c p)
  unfolding run_pending
  run_pending-Keeps c p h e v =
      let q = run_on_idle (load_pending c) p in
      (
        rw (activate-unqueue c.cat q) (
            categories-IsValid (activate_category c.cat q) c.cat
              (λ x. record x { queued = x.queued - 1 }) (λ x. refl) (λ x. refl)
              (start-IsValid (category_slot c.cat) p (load_pending c) v h (ground arith)
                (slot_of-load_pending c))),
        length-modify (unqueue_category c.cat q).categories c.cat _
            ∙ length-modify q.categories c.cat _
            ∙ length-Started (category_slot c.cat) p q (
                run_on_idle-Started (category_slot c.cat) p (load_pending c) v
                  (slot_of-load_pending c)),
      )

  -- What stays in the list of pending commands names categories that exist.
  run_pendings-Keeps :
      (cs : List PendingCommand) (p : Pool B)
      → All (λ c. c.cat < length p.categories) cs
      → IsValid p
      → Keeps p (run_pendings cs p).0 × All (λ c. c.cat < length p.categories) (run_pendings cs p).1
  unfolding run_pendings
  run_pendings-Keeps [] p h v = ((v, refl), tt)
  run_pendings-Keeps (c ∷ cs) p h v = elim (Bool-cases (ltb (active_workers p) p.max_workers)) [
    | inr full ↦ rw (full, run_pendings) ((v, refl), h)
    | inl room ↦ elim (Bool-cases (has_spot c.cat p)) [
      | inr n ↦
          let (k, r) = run_pendings-Keeps cs p h.1 v in rw (room, run_pendings) (rw n (k, (h.0, r)))
      | inl y ↦
          let (w, l) = run_pending-Keeps c p h.0 y v in
          let (k, r) = run_pendings-Keeps cs (run_pending c p) (rw l h.1) w in
          rw (room, run_pendings) (rw y ((k.0, k.1 ∙ l), rw (← l) r))
    ]
  ]

  proxy_run_pending-IsValid : (p : Pool B) → IsValid p → IsValid (proxy_run_pending p)
  unfolding proxy_run_pending
  proxy_run_pending-IsValid p v =
      let (k, r) = run_pendings-Keeps p.pending_commands p v.known v in
      pending-IsValid (run_pendings p.pending_commands p).0 _ k.0 (rw k.1 r)

  core-run_tagged_workers : (p : Pool B) → core (run_tagged_workers p) ≡ core p
  unfolding run_tagged_workers
  core-run_tagged_workers p = refl

  -- One pass over the queues (tagged threads, batch jobs, reply jobs, pending commands) keeps the
  -- pool valid, whatever is queued.
  pub proxy_process_queue-IsValid : (p : Pool B) → IsValid p → IsValid (proxy_process_queue p)
  unfolding proxy_process_queue proxy_run_batch_jobs
  proxy_process_queue-IsValid p v = elim (Bool-cases (p.max_workers == 0)) [
    | inl e ↦ rw e v
    | inr e ↦ rw e (
        proxy_run_pending-IsValid _ (
          run_batch_jobs-IsValid true _ _
            (run_batch_jobs-IsValid false _ _ (core-IsValid p _ (core-run_tagged_workers p) v))))
  ]
