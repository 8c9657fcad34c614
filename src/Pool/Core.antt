-- ===== src/Pool/Core.antt =====
-- The parts of the pool that the invariant does not read, and changes of categories that it does
-- not see.
use oxen_mq.Common.{
  ℕ, zero, suc, ◌-◌, ◌<◌, ◌≡◌, refl, sym, ◌∙◌, inl, inr, Bool, true, false, Option, none, some,
  List, [], ◌∷◌, length, length-modify, modify, get_elem?, sum_by, All, if◌then◌else◌, is_minus_one,
  ◌==◌, ℤ, arith, Bool-cases, Option-cases,
}
use oxen_mq.Batch.{BatchOps, BatchState, running, complete, done}
use oxen_mq.Pool.{
  Pool, RunInfo, PendingCommand, Category, BatchJob, ToRun, batch_ptr, command_call, injected_call,
  run_completion, send_quit,
}
use oxen_mq.Pool.Jobs.{queue_job, queue_jobs, proxy_batch, thread_target, batch_at}
use oxen_mq.Pool.Finished.{
  delete, after_job, finish_batch_job, finish_to_run, push_completion, retire_worker,
}
use oxen_mq.Pool.Measures.{Slot, batch_slot, reply_slot, category_slot}
use oxen_mq.Pool.Validity.{IsValid, slot_active}

sum_by-modify_same {ℓ} :
    {A : Type ℓ} (m : A → ℕ) (f : A → A) (xs : List A) (i : ℕ)
    → ((x : A) → m (f x) ≡ m x)
    → sum_by m (modify xs i f) ≡ sum_by m xs
sum_by-modify_same m f [] i h = refl
sum_by-modify_same m f (x ∷ xs) zero h = omega (arith, h x)
sum_by-modify_same m f (x ∷ xs) (suc i) h = omega (arith, sum_by-modify_same m f xs i h)

abbrev active_at : List Category → ℕ → ℕ
active_at cs c = elim (get_elem? cs c) [ none ↦ 0 | some x ↦ x.active_threads ]

active_at-modify :
    (f : Category → Category) (cs : List Category) (i c : ℕ)
    → ((x : Category) → (f x).active_threads ≡ x.active_threads)
    → active_at (modify cs i f) c ≡ active_at cs c
active_at-modify f [] i c h = refl
active_at-modify f (x ∷ cs) zero zero h = h x
active_at-modify f (x ∷ cs) zero (suc c) h = refl
active_at-modify f (x ∷ cs) (suc i) zero h = refl
active_at-modify f (x ∷ cs) (suc i) (suc c) h = active_at-modify f cs i c h

module _ {B : Type 0} where
  -- The pool without the queues of jobs, the batches, the tagged workers and what is sent.
  abbrev pub core : Pool B → Pool B
  core p = record p {
    tagged_workers = [];
    batch_jobs = [];
    reply_jobs = [];
    batches = [];
    proxy_skip_one_poll = false;
    effects = [];
  }

  slot_active-core : (t : Slot) (p : Pool B) → slot_active t (core p) ≡ slot_active t p
  slot_active-core batch_slot p = refl
  slot_active-core reply_slot p = refl
  slot_active-core (category_slot c) p = refl

  IsValid-to_core : (p : Pool B) → IsValid p → IsValid (core p)
  IsValid-to_core p v = record {
    distinct = v.distinct;
    balance = v.balance;
    tallies = λ t. v.tallies t ∙ sym (slot_active-core t p);
    within = v.within;
    sockets = v.sockets;
    limit = v.limit;
    bounded = v.bounded;
    some_general = v.some_general;
    known = v.known;
  }

  IsValid-of_core : (p : Pool B) → IsValid (core p) → IsValid p
  IsValid-of_core p v = record {
    distinct = v.distinct;
    balance = v.balance;
    tallies = λ t. v.tallies t ∙ slot_active-core t p;
    within = v.within;
    sockets = v.sockets;
    limit = v.limit;
    bounded = v.bounded;
    some_general = v.some_general;
    known = v.known;
  }

  pub core-IsValid : (p q : Pool B) → core q ≡ core p → IsValid p → IsValid q
  core-IsValid p q e v = IsValid-of_core q (rw e (IsValid-to_core p v))

  slot_active-categories :
      (t : Slot) (p : Pool B) (c : ℕ) (f : Category → Category)
      → ((x : Category) → (f x).active_threads ≡ x.active_threads)
      → slot_active t (record p { categories = modify p.categories c f }) ≡ slot_active t p
  slot_active-categories batch_slot p c f h = refl
  slot_active-categories reply_slot p c f h = refl
  slot_active-categories (category_slot d) p c f h = active_at-modify f p.categories c d h

  -- A change of a category that leaves its threads alone.
  pub categories-IsValid :
      (p : Pool B) (c : ℕ) (f : Category → Category)
      → ((x : Category) → (f x).active_threads ≡ x.active_threads)
      → ((x : Category) → (f x).reserved_threads ≡ x.reserved_threads)
      → IsValid p
      → IsValid (record p { categories = modify p.categories c f })
  categories-IsValid p c f a r v =
      let active = sum_by-modify_same (λ x. x.active_threads) f p.categories c a in
      record {
        distinct = v.distinct;
        balance = omega (arith, v.balance, active);
        tallies = λ t. v.tallies t ∙ sym (slot_active-categories t p c f a);
        within = omega (
          arith,
          v.within,
          sum_by-modify_same (λ x. x.active_threads - x.reserved_threads) f p.categories c
              (λ x. omega (arith, a x, r x)),
        );
        sockets =
            omega
              (arith, v.sockets, sum_by-modify_same (λ x. x.reserved_threads) f p.categories c r);
        limit = v.limit;
        bounded = v.bounded;
        some_general = v.some_general;
        known = rw (length-modify p.categories c f) v.known;
      }

  slot_active-pending :
      (t : Slot) (p : Pool B) (cs : List PendingCommand)
      → slot_active t (record p { pending_commands = cs }) ≡ slot_active t p
  slot_active-pending batch_slot p cs = refl
  slot_active-pending reply_slot p cs = refl
  slot_active-pending (category_slot c) p cs = refl

  -- Another list of pending commands.
  pub pending-IsValid :
      (p : Pool B) (cs : List PendingCommand)
      → IsValid p
      → All (λ c. c.cat < length p.categories) cs
      → IsValid (record p { pending_commands = cs })
  pending-IsValid p cs v h = record {
    distinct = v.distinct;
    balance = v.balance;
    tallies = λ t. v.tallies t ∙ sym (slot_active-pending t p cs);
    within = v.within;
    sockets = v.sockets;
    limit = v.limit;
    bounded = v.bounded;
    some_general = v.some_general;
    known = h;
  }

  core-queue_job : (t : ℤ) (j : BatchJob) (p : Pool B) → core (queue_job t j p) ≡ core p
  unfolding queue_job
  core-queue_job t j p = elim (Option-cases (thread_target t)) [
    | inl e ↦ rw (e, queue_job) refl
    | inr (n, e) ↦ rw (e, queue_job) refl
  ]

  core-queue_jobs : (b i : ℕ) (ts : List ℤ) (p : Pool B) → core (queue_jobs b i ts p) ≡ core p
  unfolding queue_jobs
  core-queue_jobs b i [] p = refl
  core-queue_jobs b i (t ∷ ts) p =
      core-queue_jobs b (suc i) ts (queue_job t (b, some i) p) ∙ core-queue_job t (b, some i) p

  core-if : (t : Bool) (q p : Pool B) → core q ≡ core p → core (if t then q else p) ≡ core p
  core-if true q p e = e
  core-if false q p e = refl

  pub core-retire_tagged : (wid : ℕ) (p : Pool B) → core (retire_worker true wid p) ≡ core p
  unfolding retire_worker
  core-retire_tagged wid p =
      core-if (p.max_workers == 0) (record p { effects = send_quit true wid ∷ p.effects }) p refl

  pub core-proxy_batch : (o : BatchOps B) (b : ℕ) (p : Pool B) → core (proxy_batch o b p) ≡ core p
  unfolding proxy_batch
  core-proxy_batch o b p = elim (Option-cases (batch_at p b)) [
    | inl e ↦ rw (e, proxy_batch) refl
    | inr (x, e) ↦
        rw (e, proxy_batch)
          (elim (Bool-cases (o.size x).1) [
            | inl t ↦ rw t (core-queue_jobs b 0 (o.threads x) p)
            | inr t ↦ rw t refl
          ])
  ]

  core-delete : (b : ℕ) (p : Pool B) → core (delete b p) ≡ core p
  unfolding delete
  core-delete b p = refl

  core-push_completion :
      (t : Option ℕ) (reply : Bool) (j : BatchJob) (p : Pool B)
      → core (push_completion t reply j p) ≡ core p
  core-push_completion (some t) reply j p = refl
  core-push_completion none true j p = refl
  core-push_completion none false j p = refl

  pub core-after_job :
      (s : BatchState) (t : ℤ) (reply : Bool) (b : ℕ) (p : Pool B)
      → core (after_job s t reply b p) ≡ core p
  unfolding after_job
  core-after_job running t reply b p = refl
  core-after_job done t reply b p = core-delete b p
  core-after_job complete t reply b p = elim (Bool-cases (is_minus_one t)) [
    | inl m ↦ rw m (core-delete b (record p { effects = run_completion b ∷ p.effects }))
    | inr m ↦ rw m (core-push_completion (thread_target t) reply (b, none) p)
  ]

  core-finish_batch_job :
      (o : BatchOps B) (run : RunInfo) (b : ℕ) (p : Pool B)
      → core (finish_batch_job o run b p) ≡ core p
  unfolding finish_batch_job
  core-finish_batch_job o run b p = elim (Option-cases run.batch_jobno) [
    | inl e ↦ rw (e, finish_batch_job) (core-delete b p)
    | inr (i, e) ↦
        rw (e, finish_batch_job)
          (elim (Option-cases (batch_at p b)) [
            | inl f ↦ rw f refl
            | inr (x, f) ↦ rw f (core-after_job _ _ _ b _ ∙ refl)
          ])
  ]

  pub core-finish_to_run :
      (o : BatchOps B) (run : RunInfo) (t : ToRun) (p : Pool B)
      → core (finish_to_run o run t p) ≡ core p
  core-finish_to_run o run (batch_ptr b) p =
      core-if run.is_batch_job (finish_batch_job o run b p) p (core-finish_batch_job o run b p)
  core-finish_to_run o run (command_call f r) p = refl
  core-finish_to_run o run (injected_call f) p = refl
