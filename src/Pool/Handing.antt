-- ===== src/Pool/Handing.antt =====
-- oxenmq/worker.cpp: `proxy_run_worker(get_idle_worker().load(...))` hands a job to one worker.
use oxen_mq.Common.{
  ℕ, suc, ◌+◌, ◌≡◌, refl, ◌∙◌, sym, inl, inr, Bool, true, false, some, List, [], ◌∷◌, ◌++◌, length,
  modify, modify-append_end, get_elem?, get_elem?-append_end, get_elem?-modify_self, arith, ==_refl,
  Bool-cases, ap,
}
use oxen_mq.Pool.{Pool, RunInfo, Effect, start_thread, send_run, fresh_run}
use oxen_mq.Pool.Workers.{run_on_idle, proxy_run_worker}
use oxen_mq.Pool.Measures.{
  occurrences, one_if, busy_with, busy_with-append, busy_with-wake, busy_with-same,
}
use oxen_mq.Pool.Validity.{IsValid}
use oxen_mq.Pool.Started.{List-cases, idle_exists, get_idle_worker-new, get_idle_worker-idle}

-- The workers of the pool that were told to run: their threads were started, or a RUN was sent.
abbrev pub runs : List Effect → ℕ
runs [] = 0
runs (start_thread w ∷ es) = suc (runs es)
runs (send_run false w ∷ es) = suc (runs es)
runs (_ ∷ es) = runs es

module _ {B : Type 0} (test : RunInfo → Bool) where
  -- The workers that are not idle and pass the test.
  abbrev pub busy : Pool B → ℕ
  busy p = busy_with test p.idle_workers 0 p.workers

  proxy_run_worker-hands :
      (p : Pool B) (w : ℕ) (r : RunInfo)
      → ((r : RunInfo) → test (record r { joinable = true }) ≡ test r)
      → get_elem? p.workers w ≡ some r
      → (busy (proxy_run_worker p w) ≡ busy p)
        × (runs (proxy_run_worker p w).effects ≡ runs p.effects + 1)
  unfolding proxy_run_worker
  proxy_run_worker-hands p w r blind h = elim (Bool-cases r.joinable) [
    | inl j ↦ rw (h, j, proxy_run_worker) (refl, omega arith)
    | inr j ↦
        rw (h, j, proxy_run_worker)
          (
            busy_with-same test p.idle_workers 0 w p.workers (λ r. record r { joinable = true })
                blind,
            omega arith,
          )
  ]

  -- One more worker runs what `load` gave it, and one was told to.
  abbrev pub Handed : Bool → Pool B → Pool B → Type 0
  Handed passes p q = (busy q ≡ busy p + one_if passes) × (runs q.effects ≡ runs p.effects + 1)

  module _ (load : RunInfo → RunInfo) (passes : Bool) (p : Pool B) where
    run_new-Handed :
        ((r : RunInfo) → test (record r { joinable = true }) ≡ test r)
        → ((r : RunInfo) → test (load r) ≡ passes)
        → IsValid p
        → p.idle_workers ≡ []
        → Handed passes p (run_on_idle load p)
    unfolding run_on_idle
    run_new-Handed blind loads v e =
        let n = length p.workers in
        let ws = p.workers ++ fresh_run n ∷ [] in
        let (kept, told) =
          proxy_run_worker-hands (record p { workers = modify ws n load }) n (load (fresh_run n))
            blind
            (get_elem?-modify_self ws n load (fresh_run n) (get_elem?-append_end p.workers _)) in
        rw (get_idle_worker-new p e) (
          kept
              ∙ ap (busy_with test p.idle_workers 0) (modify-append_end p.workers _ _)
              ∙ busy_with-append test p.idle_workers 0 n p.workers (load (fresh_run n))
                  (omega arith) (ap (occurrences n) e)
              ∙ ap (λ (x : Bool). busy p + one_if x) (loads (fresh_run n)),
          told,
        )

    run_idle-Handed :
        (w : ℕ) (rest : List ℕ)
        → ((r : RunInfo) → test (record r { joinable = true }) ≡ test r)
        → ((r : RunInfo) → test (load r) ≡ passes)
        → IsValid p
        → p.idle_workers ≡ w ∷ rest
        → Handed passes p (run_on_idle load p)
    unfolding run_on_idle
    run_idle-Handed w rest blind loads v e =
        let (r, h) = idle_exists p w rest v e in
        let (kept, told) =
          proxy_run_worker-hands
            (record p { workers = modify p.workers w load; idle_workers = rest }) w (load r) blind
            (get_elem?-modify_self p.workers w load r h) in
        rw (get_idle_worker-idle p w rest e) (
          kept
              ∙ busy_with-wake test rest w 0 w p.workers load r h (omega arith)
                  (ground (arith, ap (occurrences w) e, v.distinct w, ==_refl w))
              ∙ ap (λ (x : Bool). busy_with test (w ∷ rest) 0 p.workers + one_if x) (loads r)
              ∙ ap (λ (x : List ℕ). busy_with test x 0 p.workers + one_if passes) (sym e),
          told,
        )

  -- In a valid pool the job goes to a worker that was idle, or to a new one, and that worker is told to
  -- run; no other worker's job changes.
  pub run_on_idle-Handed :
      (load : RunInfo → RunInfo) (passes : Bool) (p : Pool B)
      → ((r : RunInfo) → test (record r { joinable = true }) ≡ test r)
      → ((r : RunInfo) → test (load r) ≡ passes)
      → IsValid p
      → Handed passes p (run_on_idle load p)
  run_on_idle-Handed load passes p blind loads v = elim (List-cases p.idle_workers) [
    | inl e ↦ run_new-Handed load passes p blind loads v e
    | inr (w, rest, e) ↦ run_idle-Handed load passes p w rest blind loads v e
  ]
