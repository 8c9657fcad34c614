-- ===== src/Pool/Started.antt =====
-- What `proxy_run_worker(get_idle_worker().load(...))` does to the pool.
use oxen_mq.Common.{
  ℕ, ◌≡◌, refl, ◌∙◌, ap, ◌⊎◌, inl, inr, true, false, some, List, [], ◌∷◌, ◌++◌, length,
  length-append, length-modify, modify, modify-modify, modify_same, modify-append_end, get_elem?,
  get_elem?_total, get_elem?-append_end, get_elem?-modify_self, arith, ==_refl, Bool-cases,
}
use oxen_mq.Pool.{Pool, RunInfo, Effect, fresh_run, send_run, start_thread}
use oxen_mq.Pool.Workers.{run_on_idle, get_idle_worker, proxy_run_worker}
use oxen_mq.Pool.Measures.{
  Slot, slot_eq, slot_of, occurrences, one_if, tally, tally-append, tally-wake,
}
use oxen_mq.Pool.Validity.{IsValid, IsWoken}

pub List-cases {ℓ} :
    {A : Type ℓ} (xs : List A) → (xs ≡ []) ⊎ ((x : A) × (r : List A) × (xs ≡ x ∷ r))
List-cases [] = inl refl
List-cases (x ∷ r) = inr (x, r, refl)

module _ {B : Type 0} where
  -- Only `joinable` changes in the worker that is run.
  proxy_run_worker-shape :
      (p : Pool B) (w : ℕ) (r : RunInfo)
      → get_elem? p.workers w ≡ some r
      → (g : RunInfo → RunInfo) × (e : List Effect) × (proxy_run_worker p w
          ≡ record p { workers = modify p.workers w g; effects = e })
        × ((x : RunInfo) → slot_of (g x) ≡ slot_of x)
  unfolding proxy_run_worker
  proxy_run_worker-shape p w r h = elim (Bool-cases r.joinable) [
    | inl j ↦ (
      λ x. x,
      send_run false r.worker_id ∷ p.effects,
      rw (h, proxy_run_worker) (rw (j, modify_same p.workers w) refl),
      λ x. refl,
    )
    | inr j ↦ (
      λ x. record x { joinable = true },
      start_thread r.worker_id ∷ p.effects,
      rw (h, proxy_run_worker) (rw j refl),
      λ x. refl,
    )
  ]

  abbrev pub Started : Slot → Pool B → Pool B → Type 0
  Started s p q =
      (W : List RunInfo) × (I : List ℕ) × (e : List Effect) × (q
        ≡ record p { workers = W; idle_workers = I; effects = e })
      × IsWoken s p W I

  -- A worker is created: none is idle.
  IsWoken-new :
      (s : Slot) (p : Pool B) (f : RunInfo → RunInfo)
      → IsValid p
      → p.idle_workers ≡ []
      → slot_of (f (fresh_run (length p.workers))) ≡ s
      → IsWoken s p (p.workers ++ f (fresh_run (length p.workers)) ∷ []) p.idle_workers
  IsWoken-new s p f v e k =
      let n = length-append p.workers (f (fresh_run (length p.workers)) ∷ []) in
      record {
        distinct = λ w. ground (arith, e);
        balance = omega (arith, n, v.balance);
        tallies = λ t.
            tally-append t p.idle_workers 0 (length p.workers) p.workers _ (omega arith)
              (ground (arith, v.distinct (length p.workers)))
            ∙ omega (arith, v.tallies t, ap (λ x. one_if (slot_eq x t)) k);
        grown = inr (omega (arith, n, v.balance, ap length e));
      }

  -- An idle worker is taken.
  IsWoken-idle :
      (s : Slot) (p : Pool B) (w : ℕ) (rest : List ℕ) (f : RunInfo → RunInfo) (r : RunInfo)
      → IsValid p
      → p.idle_workers ≡ w ∷ rest
      → get_elem? p.workers w ≡ some r
      → slot_of (f r) ≡ s
      → IsWoken s p (modify p.workers w f) rest
  IsWoken-idle s p w rest f r v e h k =
      let n = length-modify p.workers w f in
      record {
        distinct = λ x. ground (arith, ap (occurrences x) e, v.distinct x, n);
        balance = omega (arith, n, v.balance, ap length e);
        tallies = λ t.
            tally-wake t rest w 0 w p.workers f r h (omega arith)
              (ground (arith, ap (occurrences w) e, v.distinct w, ==_refl w))
            ∙ omega (
              arith,
              ap (λ x. tally t x 0 p.workers) e,
              v.tallies t,
              ap (λ x. one_if (slot_eq x t)) k,
            );
        grown = inl (omega (arith, n));
      }

  pub idle_exists :
      (p : Pool B) (w : ℕ) (rest : List ℕ)
      → IsValid p
      → p.idle_workers ≡ w ∷ rest
      → (r : RunInfo) × (get_elem? p.workers w ≡ some r)
  idle_exists p w rest v e =
      get_elem?_total p.workers w (ground (arith, ap (occurrences w) e, v.distinct w, ==_refl w))

  pub get_idle_worker-new :
      (p : Pool B)
      → p.idle_workers ≡ []
      → get_idle_worker p
        ≡ (record p { workers = p.workers ++ fresh_run (length p.workers) ∷ [] }, length p.workers)
  unfolding get_idle_worker
  get_idle_worker-new p e = rw (e, get_idle_worker) refl

  pub get_idle_worker-idle :
      (p : Pool B) (w : ℕ) (rest : List ℕ)
      → p.idle_workers ≡ w ∷ rest
      → get_idle_worker p ≡ (record p { idle_workers = rest }, w)
  unfolding get_idle_worker
  get_idle_worker-idle p w rest e = rw (e, get_idle_worker) refl

  run_new :
      (s : Slot) (p : Pool B) (load : RunInfo → RunInfo)
      → IsValid p
      → p.idle_workers ≡ []
      → ((r : RunInfo) → slot_of (load r) ≡ s)
      → Started s p (run_on_idle load p)
  unfolding run_on_idle
  run_new s p load v e k =
      let n = length p.workers in
      let ws = p.workers ++ fresh_run n ∷ [] in
      let (g, eff, ran, same) =
        proxy_run_worker-shape (record p { workers = modify ws n load }) n (load (fresh_run n))
          (get_elem?-modify_self ws n load (fresh_run n) (get_elem?-append_end p.workers _)) in
      (
        p.workers ++ g (load (fresh_run n)) ∷ [],
        p.idle_workers,
        eff,
        rw (get_idle_worker-new p e) (
            ran
            ∙ ap (λ W. record p { workers = W; effects = eff })
                (modify-modify ws n load g ∙ modify-append_end p.workers _ _)),
        IsWoken-new s p (λ x. g (load x)) v e (same _ ∙ k _),
      )

  run_idle :
      (s : Slot) (p : Pool B) (load : RunInfo → RunInfo) (w : ℕ) (rest : List ℕ)
      → IsValid p
      → p.idle_workers ≡ w ∷ rest
      → ((r : RunInfo) → slot_of (load r) ≡ s)
      → Started s p (run_on_idle load p)
  unfolding run_on_idle
  run_idle s p load w rest v e k =
      let (r, h) = idle_exists p w rest v e in
      let (g, eff, ran, same) =
        proxy_run_worker-shape (record p { workers = modify p.workers w load; idle_workers = rest })
          w (load r) (get_elem?-modify_self p.workers w load r h) in
      (
        modify p.workers w (λ x. g (load x)),
        rest,
        eff,
        rw (get_idle_worker-idle p w rest e) (
            ran
            ∙ ap (λ W. record p { workers = W; idle_workers = rest; effects = eff })
                (modify-modify p.workers w load g)),
        IsWoken-idle s p w rest (λ x. g (load x)) r v e h (same _ ∙ k _),
      )

  -- A job of slot `s` goes to an idle worker, or to a new one if none is idle: nothing of the pool
  -- changes but the workers, the idle list and what is sent.
  pub run_on_idle-Started :
      (s : Slot) (p : Pool B) (load : RunInfo → RunInfo)
      → IsValid p
      → ((r : RunInfo) → slot_of (load r) ≡ s)
      → Started s p (run_on_idle load p)
  run_on_idle-Started s p load v k = elim (List-cases p.idle_workers) [
    | inl e ↦ run_new s p load v e k
    | inr (w, rest, e) ↦ run_idle s p load w rest v e k
  ]
