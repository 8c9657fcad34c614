-- ===== src/Pool/Backpressure.antt =====
-- oxenmq/worker.cpp and oxenmq/jobs.cpp: what the operations leave of the queue of pending commands
-- and of `category::queued`.
use oxen_mq.Common.{
  ℕ, zero, suc, ◌+◌, ◌≤◌, ◌≡◌, refl, sym, ◌∙◌, ap, inl, inr, Bool, true, false, Option, none, some,
  List, [], ◌∷◌, ◌++◌, ℤ, pos, negsuc, modify, get_elem?, if◌then◌else◌, ◌==◌, arith, some_inj,
  Bool-cases, Option-cases, Bytes, bytes, bytes_eq,
}
use oxen_mq.Batch.{BatchOps}
use oxen_mq.Pool.{Pool, RunInfo, Category, PendingCommand, BatchJob}
use oxen_mq.Pool.Workers.{run_on_idle, get_idle_worker, proxy_run_worker}
use oxen_mq.Pool.Jobs.{
  activate_category, run_batch_job, run_batch_jobs, run_tagged_workers, may_run_job,
}
use oxen_mq.Pool.Finished.{
  release_job, retire_worker, finish_to_run, worker_ran, worker_quitting, worker_command,
  proxy_worker_message, parse_route, worker_at,
}
use oxen_mq.Pool.Core.{core, core-finish_to_run}

-- What a category says of its queue.
abbrev pub line_of : Option Category → Option (ℕ × ℤ)
line_of none = none
line_of (some x) = some (x.queued, x.max_queue)

abbrev pub waiting : ℕ → List PendingCommand → ℕ
waiting c [] = 0
waiting c (x ∷ xs) = (if x.cat == c then 1 else 0) + waiting c xs

abbrev pub Within : ℕ → ℤ → Type 0
Within n (pos m) = n ≤ m
Within n (negsuc m) = Unit

pub line-modify :
    (f : Category → Category) (cs : List Category) (i c : ℕ)
    → ((x : Category) → (f x).queued ≡ x.queued)
    → ((x : Category) → (f x).max_queue ≡ x.max_queue)
    → line_of (get_elem? (modify cs i f) c) ≡ line_of (get_elem? cs c)
line-modify f [] i c h k = refl
line-modify f (x ∷ cs) zero zero h k = rw (h x, k x) refl
line-modify f (x ∷ cs) zero (suc c) h k = refl
line-modify f (x ∷ cs) (suc i) zero h k = refl
line-modify f (x ∷ cs) (suc i) (suc c) h k = line-modify f cs i c h k

pub waiting-append :
    (c : ℕ) (xs : List PendingCommand) (x : PendingCommand)
    → waiting c (xs ++ x ∷ []) ≡ waiting c xs + (if x.cat == c then 1 else 0)
waiting-append c [] x = omega arith
waiting-append c (y ∷ xs) x = omega (arith, waiting-append c xs x)

pub Within-le : (n k : ℕ) (m : ℤ) → n ≤ k → Within k m → Within n m
Within-le n k (pos m) h w = omega (arith, h, w)
Within-le n k (negsuc m) h w = tt

-- A change of the counter of one category.
pub line-shift :
    (f : Category → Category) (g : ℕ → ℕ) (cs : List Category) (i c n : ℕ) (m : ℤ)
    → ((x : Category) → (f x).queued ≡ g x.queued)
    → ((x : Category) → (f x).max_queue ≡ x.max_queue)
    → line_of (get_elem? (modify cs i f) c) ≡ some (n, m)
    → (k : ℕ) × (line_of (get_elem? cs c) ≡ some (k, m)) × (n ≡ (if i == c then g k else k))
line-shift f g [] i c n m h k e = absurd (cc)
line-shift f g (x ∷ cs) zero zero n m h k e =
    let same : ((f x).queued, (f x).max_queue) ≡ (n, m) = some_inj e in
    let limit : x.max_queue ≡ m = sym (k x) ∙ ap (λ (z : ℕ × ℤ). z.1) same in
    let count : n ≡ g x.queued = sym (ap (λ (z : ℕ × ℤ). z.0) same) ∙ h x in
    (x.queued, rw limit refl, count)
line-shift f g (x ∷ cs) zero (suc c) n m h k e = (n, e, ground arith)
line-shift f g (x ∷ cs) (suc i) zero n m h k e = (n, e, ground arith)
line-shift f g (x ∷ cs) (suc i) (suc c) n m h k e =
    let (j, at, shift) = line-shift f g cs i c n m h k e in (j, at, ground (arith, shift))

module _ {B : Type 0} where
  abbrev pub line_at : ℕ → Pool B → Option (ℕ × ℤ)
  line_at c p = line_of (get_elem? p.categories c)

  -- `queued` is the number of pending commands of the category, and at most `max_queue`, unless that
  -- is below 0.
  abbrev pub IsCounted : Pool B → Type 0
  IsCounted p =
      (c n : ℕ) (m : ℤ)
      → line_at c p ≡ some (n, m)
      → (n ≡ waiting c p.pending_commands) × Within n m

  -- The same queues.
  abbrev pub Same : Pool B → Pool B → Type 0
  Same p q = (q.pending_commands ≡ p.pending_commands) × ((c : ℕ) → line_at c q ≡ line_at c p)

  pub Same-IsCounted : (p q : Pool B) → Same p q → IsCounted p → IsCounted q
  Same-IsCounted p q s v c n m e = rw s.0 (v c n m (sym (s.1 c) ∙ e))

  pub Same-trans : (p q r : Pool B) → Same p q → Same q r → Same p r
  Same-trans p q r s t = (t.0 ∙ s.0, λ c. t.1 c ∙ s.1 c)

  pub core-Same : (p q : Pool B) → core q ≡ core p → Same p q
  core-Same p q e =
      (ap (λ (r : Pool B). r.pending_commands) e, λ c. ap (λ (r : Pool B). line_at c r) e)

  proxy_run_worker-Same : (p : Pool B) (w : ℕ) → Same p (proxy_run_worker p w)
  unfolding proxy_run_worker
  proxy_run_worker-Same p w = elim (Option-cases (get_elem? p.workers w)) [
    | inl e ↦ rw (e, proxy_run_worker) (refl, λ c. refl)
    | inr (r, e) ↦
        rw (e, proxy_run_worker)
          (elim (Bool-cases r.joinable) [
            | inl j ↦ rw j (refl, λ c. refl)
            | inr j ↦ rw j (refl, λ c. refl)
          ])
  ]

  get_idle-Same : (i : List ℕ) (p : Pool B) → p.idle_workers ≡ i → Same p (get_idle_worker p).0
  unfolding get_idle_worker
  get_idle-Same [] p e = rw (e, get_idle_worker) (refl, λ c. refl)
  get_idle-Same (x ∷ i) p e = rw (e, get_idle_worker) (refl, λ c. refl)

  pub run_on_idle-Same : (load : RunInfo → RunInfo) (p : Pool B) → Same p (run_on_idle load p)
  unfolding run_on_idle
  run_on_idle-Same load p =
      let s = get_idle-Same p.idle_workers p refl in
      let t =
        proxy_run_worker-Same
          (record (get_idle_worker p).0 {
            workers = modify (get_idle_worker p).0.workers (get_idle_worker p).1 load;
          })
          (get_idle_worker p).1 in
      (t.0 ∙ s.0, λ c. t.1 c ∙ s.1 c)

  pub activate-Same : (c : ℕ) (p : Pool B) → Same p (activate_category c p)
  activate-Same c p = (refl, λ d. line-modify _ p.categories c d (λ x. refl) (λ x. refl))

  release_job-Same :
      (tagged : Bool) (wid : ℕ) (run : RunInfo) (p : Pool B) → Same p (release_job tagged wid run p)
  unfolding release_job
  release_job-Same tagged wid run p = elim (Bool-cases run.is_batch_job) [
    | inl b ↦ rw b (ground arith)
    | inr b ↦ rw b (refl, λ d. line-modify _ p.categories run.cat d (λ x. refl) (λ x. refl))
  ]

  idle_Same :
      (tagged : Bool) (wid : ℕ) (p : Pool B)
      → Same p (if tagged then p else record p { idle_workers = wid ∷ p.idle_workers })
  idle_Same true wid p = (refl, λ c. refl)
  idle_Same false wid p = (refl, λ c. refl)

  retire_worker-Same : (tagged : Bool) (wid : ℕ) (p : Pool B) → Same p (retire_worker tagged wid p)
  unfolding retire_worker
  retire_worker-Same tagged wid p = elim (Bool-cases (p.max_workers == 0)) [
    | inl e ↦ rw e (refl, λ c. refl)
    | inr e ↦ rw e (idle_Same tagged wid p)
  ]

  worker_ran-Same :
      (o : BatchOps B) (tagged : Bool) (wid : ℕ) (run : RunInfo) (p : Pool B)
      → Same p (worker_ran o tagged wid run p)
  unfolding worker_ran
  worker_ran-Same o tagged wid run p =
      let q = release_job tagged wid run p in
      let r = finish_to_run o run run.to_run q in
      let t = retire_worker tagged wid r in
      Same-trans p q t (release_job-Same tagged wid run p) (
        Same-trans q r t (core-Same q r (core-finish_to_run o run run.to_run q))
          (retire_worker-Same tagged wid r))

  worker_quitting-Same :
      (tagged : Bool) (wid : ℕ) (p : Pool B) → Same p (worker_quitting tagged wid p)
  unfolding worker_quitting
  worker_quitting-Same true wid p = (refl, λ c. refl)
  worker_quitting-Same false wid p = (refl, λ c. refl)

  worker_command-Same :
      (o : BatchOps B) (cmd : Bytes) (tagged : Bool) (wid : ℕ) (run : RunInfo) (p : Pool B)
      → Same p (worker_command o cmd tagged wid run p)
  unfolding worker_command
  worker_command-Same o cmd tagged wid run p = elim (Bool-cases (bytes_eq cmd (bytes "RAN"))) [
    | inl e ↦ rw e (worker_ran-Same o tagged wid run p)
    | inr e ↦ rw e (elim (Bool-cases (bytes_eq cmd (bytes "QUITTING"))) [
      | inl q ↦ rw q (worker_quitting-Same tagged wid p)
      | inr q ↦ rw q (refl, λ c. refl)
    ])
  ]

  pub proxy_worker_message-Same :
      (o : BatchOps B) (parts : List Bytes) (p : Pool B) → Same p (proxy_worker_message o parts p)
  unfolding proxy_worker_message
  proxy_worker_message-Same o [] p = (refl, λ c. refl)
  proxy_worker_message-Same o (route ∷ []) p = (refl, λ c. refl)
  proxy_worker_message-Same o (route ∷ cmd ∷ x ∷ rest) p = (refl, λ c. refl)
  proxy_worker_message-Same o (route ∷ cmd ∷ []) p = elim (Option-cases (parse_route route)) [
    | inl e ↦ rw (e, proxy_worker_message) (refl, λ c. refl)
    | inr ((tagged, wid), e) ↦
        rw (e, proxy_worker_message)
          (elim (Option-cases (worker_at tagged wid p)) [
            | inl f ↦ rw f (refl, λ c. refl)
            | inr (run, f) ↦ rw f (worker_command-Same o cmd tagged wid run p)
          ])
  ]

  run_batch_job-Same :
      (reply : Bool) (j : BatchJob) (rest : List BatchJob) (p : Pool B)
      → Same p (run_batch_job reply j rest p)
  unfolding run_batch_job
  run_batch_job-Same true j rest p = run_on_idle-Same _ p
  run_batch_job-Same false j rest p = run_on_idle-Same _ p

  pub run_batch_jobs-Same :
      (reply : Bool) (js : List BatchJob) (p : Pool B) → Same p (run_batch_jobs reply js p)
  unfolding run_batch_jobs
  run_batch_jobs-Same reply [] p = (refl, λ c. refl)
  run_batch_jobs-Same reply (j ∷ rest) p = elim (Bool-cases (may_run_job reply p)) [
    | inl e ↦
        rw (e, run_batch_jobs)
          (Same-trans p (run_batch_job reply j rest p)
            (run_batch_jobs reply rest (run_batch_job reply j rest p))
            (run_batch_job-Same reply j rest p)
            (run_batch_jobs-Same reply rest (run_batch_job reply j rest p)))
    | inr e ↦ rw (e, run_batch_jobs) (refl, λ c. refl)
  ]

  pub run_tagged-Same : (p : Pool B) → Same p (run_tagged_workers p)
  unfolding run_tagged_workers
  run_tagged-Same p = (refl, λ c. refl)
