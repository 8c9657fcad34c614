-- ===== src/Pool/Release.antt =====
-- oxenmq/worker.cpp: a worker that is done, uncounted and idle again, leaves the pool valid.
use oxen_mq.Common.{
  ℕ, ◌+◌, ◌-◌, ◌≤◌, ◌<◌, ◌≡◌, refl, sym, ◌∙◌, ap, inl, inr, some, List, ◌∷◌, length, length-modify,
  modify, modify_same, get_elem?, get_elem?-lt, get_elem?-modify_self, get_elem?-modify_ne,
  sum_by-modify, ◌==◌, ==_iff, ==_refl, arith, Bool-cases, Option-cases,
}
use oxen_mq.Pool.{Pool, RunInfo, Category}
use oxen_mq.Pool.Measures.{
  Slot, batch_slot, reply_slot, category_slot, slot_eq, slot_eq_refl, slot_of, occurrences, one_if,
  tally, tally-wake,
}
use oxen_mq.Pool.Validity.{IsValid, slot_active, total, over, all_reserved}

abbrev pub one_less : Category → Category
one_less x = record x { active_threads = x.active_threads - 1 }

module _ {B : Type 0} where
  abbrev pub deactivate : Slot → Pool B → Pool B
  deactivate batch_slot p = record p { batch_jobs_active = p.batch_jobs_active - 1 }
  deactivate reply_slot p = record p { reply_jobs_active = p.reply_jobs_active - 1 }
  deactivate (category_slot c) p = record p { categories = modify p.categories c one_less }

  -- A counter above zero belongs to a category that exists.
  counted :
      (c : ℕ) (p : Pool B)
      → 0 < slot_active (category_slot c) p
      → (x : Category) × (get_elem? p.categories c ≡ some x) × (0 < x.active_threads)
  counted c p h = elim (Option-cases (get_elem? p.categories c)) [
    | inl e ↦ absurd (ground arith)
    | inr (x, e) ↦ (x, e, ground arith)
  ]

  total-deactivate :
      (s : Slot) (p : Pool B) → 0 < slot_active s p → total (deactivate s p) + 1 ≡ total p
  total-deactivate batch_slot p h = omega arith
  total-deactivate reply_slot p h = omega arith
  total-deactivate (category_slot c) p h =
      let (x, e, k) = counted c p h in
      omega (arith, sum_by-modify (λ c. c.active_threads) p.categories c one_less x e)

  over-deactivate : (s : Slot) (p : Pool B) → 0 < slot_active s p → over (deactivate s p) ≤ over p
  over-deactivate batch_slot p h = omega arith
  over-deactivate reply_slot p h = omega arith
  over-deactivate (category_slot c) p h =
      let (x, e, k) = counted c p h in
      omega (
        arith,
        sum_by-modify (λ c. c.active_threads - c.reserved_threads) p.categories c one_less x e,
      )

  all_reserved-deactivate :
      (s : Slot) (p : Pool B) → 0 < slot_active s p → all_reserved (deactivate s p) ≡ all_reserved p
  all_reserved-deactivate batch_slot p h = omega arith
  all_reserved-deactivate reply_slot p h = omega arith
  all_reserved-deactivate (category_slot c) p h =
      let (x, e, k) = counted c p h in
      omega (arith, sum_by-modify (λ c. c.reserved_threads) p.categories c one_less x e)

  slot_active-deactivate :
      (s t : Slot) (p : Pool B)
      → 0 < slot_active s p
      → slot_active t (deactivate s p) + one_if (slot_eq s t) ≡ slot_active t p
  slot_active-deactivate batch_slot batch_slot p h = omega arith
  slot_active-deactivate batch_slot reply_slot p h = omega arith
  slot_active-deactivate batch_slot (category_slot d) p h = omega arith
  slot_active-deactivate reply_slot batch_slot p h = omega arith
  slot_active-deactivate reply_slot reply_slot p h = omega arith
  slot_active-deactivate reply_slot (category_slot d) p h = omega arith
  slot_active-deactivate (category_slot c) batch_slot p h = omega arith
  slot_active-deactivate (category_slot c) reply_slot p h = omega arith
  slot_active-deactivate (category_slot c) (category_slot d) p h =
      let (x, e, k) = counted c p h in
      elim (Bool-cases (c == d)) [
        | inl q ↦
            rw (← (==_iff c d).0 q)
              (ground (arith, e, k, ==_refl c, get_elem?-modify_self p.categories c one_less x e))
        | inr q ↦ ground (arith, get_elem?-modify_ne p.categories c d one_less (λ r. ground arith))
      ]

  -- The worker exists, and is not in the idle list.
  abbrev pub IsBusy : ℕ → RunInfo → Pool B → Type 0
  IsBusy wid run p = (get_elem? p.workers wid ≡ some run) × (occurrences wid p.idle_workers ≡ 0)

  tally-return :
      (t : Slot) (wid : ℕ) (run : RunInfo) (p : Pool B)
      → IsBusy wid run p
      → tally t p.idle_workers 0 p.workers
        ≡ tally t (wid ∷ p.idle_workers) 0 p.workers + one_if (slot_eq (slot_of run) t)
  tally-return t wid run p (e, o) =
      sym (ap (tally t p.idle_workers 0) (modify_same p.workers wid))
      ∙ tally-wake t p.idle_workers wid 0 wid p.workers (λ x. x) run e (omega arith) o

  -- The assertions `active > 0` and `run.cat->active_threads > 0` hold: a busy worker's job is
  -- counted.
  pub busy_counted :
      (wid : ℕ) (run : RunInfo) (p : Pool B)
      → IsValid p
      → IsBusy wid run p
      → 0 < slot_active (slot_of run) p
  busy_counted wid run p v b = omega (
    arith,
    tally-return (slot_of run) wid run p b,
    v.tallies (slot_of run),
    ap one_if (slot_eq_refl (slot_of run)),
  )

  -- The pool once the job of worker `wid` is uncounted and the worker is idle.
  abbrev pub returned : Slot → ℕ → Pool B → Pool B
  returned s wid p = let q = deactivate s p in record q { idle_workers = wid ∷ q.idle_workers }

  pub deactivate-frame :
      (s : Slot) (p : Pool B)
      → ((deactivate s p).workers ≡ p.workers)
        × ((deactivate s p).idle_workers ≡ p.idle_workers)
        × ((deactivate s p).general_workers ≡ p.general_workers)
        × ((deactivate s p).worker_sockets ≡ p.worker_sockets)
        × ((deactivate s p).max_workers ≡ p.max_workers)
        × ((deactivate s p).pending_commands ≡ p.pending_commands)
        × (length (deactivate s p).categories ≡ length p.categories)
  deactivate-frame batch_slot p = (refl, refl, refl, refl, refl, refl, refl)
  deactivate-frame reply_slot p = (refl, refl, refl, refl, refl, refl, refl)
  deactivate-frame (category_slot c) p =
      (refl, refl, refl, refl, refl, refl, length-modify p.categories c one_less)

  slot_active-idle :
      (t : Slot) (p : Pool B) (I : List ℕ)
      → slot_active t (record p { idle_workers = I }) ≡ slot_active t p
  slot_active-idle batch_slot p I = refl
  slot_active-idle reply_slot p I = refl
  slot_active-idle (category_slot c) p I = refl

  pub returned-IsValid :
      (wid : ℕ) (run : RunInfo) (p : Pool B)
      → IsValid p
      → IsBusy wid run p
      → IsValid (returned (slot_of run) wid p)
  returned-IsValid wid run p v b =
      let s = slot_of run in
      let n = busy_counted wid run p v b in
      let (workers, idle, general, sockets, max, pending, cats) = deactivate-frame s p in
      record {
        distinct = λ w.
            rw (workers, idle)
              (ground
                (arith, v.distinct w, b.1, get_elem?-lt p.workers wid run b.0, (==_iff wid w).0));
        balance =
            omega (arith, ap length workers, ap length idle, v.balance, total-deactivate s p n);
        tallies = λ t.
            rw
              (
                slot_active-idle t (deactivate s p) (wid ∷ (deactivate s p).idle_workers),
                workers,
                idle,
              )
              (omega
                (arith, v.tallies t, tally-return t wid run p b, slot_active-deactivate s t p n));
        within = omega (arith, over-deactivate s p n, v.within, general);
        sockets = omega (arith, v.sockets, general, sockets, all_reserved-deactivate s p n);
        limit = max ∙ v.limit ∙ sym sockets;
        bounded = rw (workers, sockets) v.bounded;
        some_general = rw general v.some_general;
        known = rw (pending, cats) v.known;
      }
