-- ===== src/Pool/WorkerMessages.antt =====
-- oxenmq/worker.cpp, `proxy_worker_message`: the messages of workers keep the pool valid.
use oxen_mq.Common.{
  some_inj, ℕ, zero, suc, ◌≡◌, refl, sym, ◌∙◌, ap, inl, inr, Bool, true, false, some, List, [], ◌∷◌,
  length-modify, modify, ◌==◌, arith, if_true, bytes_eq_iff, Bool-cases, Option-cases, Bytes, bytes,
  bytes_eq,
}
use mathlib.Core.Path.{ap₂}
use oxen_mq.Batch.{BatchOps}
use oxen_mq.Pool.{Pool, RunInfo}
use oxen_mq.Pool.Finished.{
  release_job, release_tagged, retire_worker, finish_to_run, worker_ran, worker_quitting,
  worker_command, worker_at, parse_route, proxy_worker_message,
}
use oxen_mq.Pool.Measures.{Slot, batch_slot, reply_slot, category_slot, slot_of, tally}
use oxen_mq.Pool.Validity.{IsValid, slot_active}
use oxen_mq.Pool.Core.{core, core-IsValid, core-finish_to_run, core-retire_tagged}
use oxen_mq.Pool.Release.{deactivate, deactivate-frame, returned-IsValid, IsBusy}

-- A change of a worker that leaves the kind of its job alone.
tally-modify_same :
    (s : Slot) (idle : List ℕ) (i k : ℕ) (rs : List RunInfo) (g : RunInfo → RunInfo)
    → ((r : RunInfo) → slot_of (g r) ≡ slot_of r)
    → tally s idle i (modify rs k g) ≡ tally s idle i rs
tally-modify_same s idle i k [] g h = refl
tally-modify_same s idle i zero (r ∷ rs) g h = rw (h r)
tally-modify_same s idle i (suc k) (r ∷ rs) g h =
    omega (arith, tally-modify_same s idle (suc i) k rs g h)

module _ {B : Type 0} where
  core-release_job :
      (run : RunInfo) (wid : ℕ) (p : Pool B)
      → release_job false wid run p ≡ deactivate (slot_of run) p
  unfolding release_job
  core-release_job run wid p = ground arith

  core-idle :
      (wid : ℕ) (p q : Pool B)
      → core q ≡ core p
      → core (record q { idle_workers = wid ∷ q.idle_workers })
        ≡ core (record p { idle_workers = wid ∷ p.idle_workers })
  core-idle wid p q e = ap (λ (r : Pool B). record r { idle_workers = wid ∷ r.idle_workers }) e

  max_workers_pos : (p : Pool B) → IsValid p → (p.max_workers == 0) ≡ false
  max_workers_pos p v = ground (arith, v.limit, v.sockets, v.some_general)

  -- A pool worker that has run its job.
  worker_ran-IsValid :
      (o : BatchOps B) (wid : ℕ) (run : RunInfo) (p : Pool B)
      → IsValid p
      → IsBusy wid run p
      → IsValid (worker_ran o false wid run p)
  unfolding worker_ran retire_worker
  worker_ran-IsValid o wid run p v b =
      let d = deactivate (slot_of run) p in
      let q = finish_to_run o run run.to_run (release_job false wid run p) in
      let e : core q ≡ core d =
        core-finish_to_run o run run.to_run _ ∙ ap core (core-release_job run wid p) in
      let max : (q.max_workers == 0) ≡ false =
        rw (ap (λ (r : Pool B). r.max_workers) e, (deactivate-frame (slot_of run) p).4)
          (max_workers_pos p v) in
      rw max (core-IsValid _ _ (core-idle wid d q e) (returned-IsValid wid run p v b))

  core-release_tagged :
      (run : RunInfo) (wid : ℕ) (p : Pool B)
      → run.is_batch_job ≡ true
      → core (release_job true wid run p) ≡ core p
  unfolding release_job
  core-release_tagged run wid p b = ap core (if_true (release_tagged wid p) _ b)

  -- A tagged worker that has run its batch job.
  worker_ran-tagged :
      (o : BatchOps B) (wid : ℕ) (run : RunInfo) (p : Pool B)
      → IsValid p
      → run.is_batch_job ≡ true
      → IsValid (worker_ran o true wid run p)
  unfolding worker_ran
  worker_ran-tagged o wid run p v b =
      core-IsValid p _
        (core-retire_tagged wid _
          ∙ core-finish_to_run o run run.to_run (release_job true wid run p)
          ∙ core-release_tagged run wid p b)
        v

  slot_active-workers :
      (t : Slot) (p : Pool B) (W : List RunInfo)
      → slot_active t (record p { workers = W }) ≡ slot_active t p
  slot_active-workers batch_slot p W = refl
  slot_active-workers reply_slot p W = refl
  slot_active-workers (category_slot c) p W = refl

  worker_quitting-IsValid :
      (tagged : Bool) (wid : ℕ) (p : Pool B) → IsValid p → IsValid (worker_quitting tagged wid p)
  unfolding worker_quitting
  worker_quitting-IsValid true wid p v = core-IsValid p _ refl v
  worker_quitting-IsValid false wid p v =
      let n = length-modify p.workers wid (λ r. record r { joinable = false }) in
      record {
        distinct = λ w. rw n (v.distinct w);
        balance = omega (arith, n, v.balance);
        tallies = λ t.
            tally-modify_same t p.idle_workers 0 wid p.workers _ (λ r. refl)
            ∙ v.tallies t
            ∙ sym (slot_active-workers t p _);
        within = v.within;
        sockets = v.sockets;
        limit = v.limit;
        bounded = omega (arith, n, v.bounded);
        some_general = v.some_general;
        known = v.known;
      }

  -- What `worker_thread` keeps to: a pool worker reports RAN once for each job that it is given, and
  -- a tagged worker runs batch jobs only.
  abbrev pub IsExpected : Bool → ℕ → RunInfo → Pool B → Type 0
  IsExpected false wid run p = IsBusy wid run p
  IsExpected true wid run p = run.is_batch_job ≡ true

  abbrev pub IsHonest : List Bytes → Pool B → Type 0
  IsHonest (route ∷ cmd ∷ []) p =
      (tagged : Bool) (wid : ℕ) (run : RunInfo)
      → parse_route route ≡ some (tagged, wid)
      → worker_at tagged wid p ≡ some run
      → cmd ≡ bytes "RAN"
      → IsExpected tagged wid run p
  IsHonest _ p = Unit {0}

  ran-IsValid :
      (o : BatchOps B) (tagged : Bool) (wid : ℕ) (run : RunInfo) (p : Pool B)
      → IsValid p
      → IsExpected tagged wid run p
      → IsValid (worker_ran o tagged wid run p)
  ran-IsValid o false wid run p v b = worker_ran-IsValid o wid run p v b
  ran-IsValid o true wid run p v b = worker_ran-tagged o wid run p v b

  worker_command-IsValid :
      (o : BatchOps B) (cmd : Bytes) (tagged : Bool) (wid : ℕ) (run : RunInfo) (p : Pool B)
      → IsValid p
      → (cmd ≡ bytes "RAN" → IsExpected tagged wid run p)
      → IsValid (worker_command o cmd tagged wid run p)
  unfolding worker_command
  worker_command-IsValid o cmd tagged wid run p v h =
      elim (Bool-cases (bytes_eq cmd (bytes "RAN"))) [
        | inl e ↦ rw e (ran-IsValid o tagged wid run p v (h ((bytes_eq_iff cmd _).0 e)))
        | inr e ↦ rw e (elim (Bool-cases (bytes_eq cmd (bytes "QUITTING"))) [
          | inl q ↦ rw q (worker_quitting-IsValid tagged wid p v)
          | inr q ↦ rw q v
        ])
      ]

  -- Any message on the worker socket keeps the pool valid, if workers report RAN only for a job that
  -- they were given.
  pub proxy_worker_message-IsValid :
      (o : BatchOps B) (parts : List Bytes) (p : Pool B)
      → IsValid p
      → IsHonest parts p
      → IsValid (proxy_worker_message o parts p)
  unfolding proxy_worker_message
  proxy_worker_message-IsValid o [] p v h = v
  proxy_worker_message-IsValid o (route ∷ []) p v h = v
  proxy_worker_message-IsValid o (route ∷ cmd ∷ x ∷ rest) p v h = v
  proxy_worker_message-IsValid o (route ∷ cmd ∷ []) p v h =
      elim (Option-cases (parse_route route)) [
        | inl e ↦ rw (e, proxy_worker_message) v
        | inr ((tagged, wid), e) ↦
            rw (e, proxy_worker_message)
              (elim (Option-cases (worker_at tagged wid p)) [
                | inl f ↦ rw f v
                | inr (run, f) ↦
                    rw f (worker_command-IsValid o cmd tagged wid run p v (h tagged wid run e f))
              ])
      ]

  -- A message that names a worker which is expected to send it.
  pub IsHonest-of :
      (route cmd : Bytes) (p : Pool B) (tagged : Bool) (wid : ℕ) (run : RunInfo)
      → parse_route route ≡ some (tagged, wid)
      → worker_at tagged wid p ≡ some run
      → IsExpected tagged wid run p
      → IsHonest (route ∷ cmd ∷ []) p
  IsHonest-of route cmd p tagged wid run e f x tagged' wid' run' e' f' c =
      let pair : (tagged', wid') ≡ (tagged, wid) = some_inj (sym e' ∙ e) in
      let t : tagged' ≡ tagged = ap (λ (q : Bool × ℕ). q.0) pair in
      let w : wid' ≡ wid = ap (λ (q : Bool × ℕ). q.1) pair in
      let r : run' ≡ run = some_inj (sym f' ∙ ap₂ (λ a b. worker_at a b p) t w ∙ f) in
      rw (t, w, r) x
