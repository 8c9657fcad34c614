-- ===== src/Pool/Activation.antt =====
-- Starting a job where there is a spot for it keeps the pool valid, and never asks for more workers
-- than there are sockets.
use oxen_mq.Common.{
  ℕ, zero, suc, ◌+◌, ◌-◌, ◌≤◌, ◌<◌, ◌≡◌, refl, sym, ◌∙◌, ◌⊎◌, inl, inr, some, List, [], ◌∷◌, length,
  length-modify, get_elem?, get_elem?_total, get_elem?-modify_self, get_elem?-modify_ne, sum_by,
  sum_by-modify, ◌==◌, ==_iff, arith, Bool-cases,
}
use oxen_mq.Pool.{Pool, RunInfo, Effect, Category, active_workers}
use oxen_mq.Pool.Jobs.{activate_category}
use oxen_mq.Pool.Measures.{Slot, batch_slot, reply_slot, category_slot, slot_eq, one_if}
use oxen_mq.Pool.Validity.{IsValid, IsWoken, slot_active, slot_reserved, total, over, all_reserved}
use oxen_mq.Pool.Started.{Started}

abbrev pub one_more : Category → Category
one_more x = record x { active_threads = x.active_threads + 1 }

sum-headroom :
    (cs : List Category)
    → sum_by (λ c. c.active_threads) cs
      ≤ sum_by (λ c. c.active_threads - c.reserved_threads) cs + sum_by (λ c. c.reserved_threads) cs
sum-headroom [] = omega arith
sum-headroom (x ∷ cs) = omega (arith, sum-headroom cs)

sum-headroom_spot :
    (cs : List Category) (c : ℕ) (x : Category)
    → get_elem? cs c ≡ some x
    → x.active_threads < x.reserved_threads
    → sum_by (λ c. c.active_threads) cs + 1
      ≤ sum_by (λ c. c.active_threads - c.reserved_threads) cs + sum_by (λ c. c.reserved_threads) cs
sum-headroom_spot [] c x e h = absurd (cc)
sum-headroom_spot (y ∷ cs) zero x e h =
    let same : y ≡ x = cc in ground (arith, sum-headroom cs, same)
sum-headroom_spot (y ∷ cs) (suc c) x e h = omega (arith, sum-headroom_spot cs c x e h)

sum-over-le :
    (cs : List Category)
    → sum_by (λ c. c.active_threads - c.reserved_threads) cs ≤ sum_by (λ c. c.active_threads) cs
sum-over-le [] = omega arith
sum-over-le (x ∷ cs) = omega (arith, sum-over-le cs)

module _ {B : Type 0} where
  abbrev pub activate : Slot → Pool B → Pool B
  activate batch_slot p = record p { batch_jobs_active = p.batch_jobs_active + 1 }
  activate reply_slot p = record p { reply_jobs_active = p.reply_jobs_active + 1 }
  activate (category_slot c) p = activate_category c p

  -- The category of the slot exists.
  abbrev pub IsSlot : Slot → Pool B → Type 0
  IsSlot (category_slot c) p = c < length p.categories
  IsSlot _ p = Unit {0}

  abbrev pub HasSpot : Slot → Pool B → Type 0
  HasSpot s p = (slot_active s p < slot_reserved s p) ⊎ (active_workers p < p.general_workers)

  total-activate : (s : Slot) (p : Pool B) → IsSlot s p → total (activate s p) ≡ total p + 1
  total-activate batch_slot p h = omega arith
  total-activate reply_slot p h = omega arith
  total-activate (category_slot c) p h =
      let (x, e) = get_elem?_total p.categories c h in
      omega (arith, sum_by-modify (λ c. c.active_threads) p.categories c one_more x e)

  all_reserved-activate :
      (s : Slot) (p : Pool B) → IsSlot s p → all_reserved (activate s p) ≡ all_reserved p
  all_reserved-activate batch_slot p h = omega arith
  all_reserved-activate reply_slot p h = omega arith
  all_reserved-activate (category_slot c) p h =
      let (x, e) = get_elem?_total p.categories c h in
      omega (arith, sum_by-modify (λ c. c.reserved_threads) p.categories c one_more x e)

  over-le-total : (p : Pool B) → over p ≤ total p
  over-le-total p = omega (arith, sum-over-le p.categories)

  -- Within the reservation no general spot is used.
  over-activate :
      (s : Slot) (p : Pool B)
      → IsSlot s p
      → slot_active s p < slot_reserved s p
      → over (activate s p) ≡ over p
  over-activate batch_slot p h k = omega arith
  over-activate reply_slot p h k = omega arith
  over-activate (category_slot c) p h k =
      let (x, e) = get_elem?_total p.categories c h in
      ground (
        arith,
        e,
        sum_by-modify (λ c. c.active_threads - c.reserved_threads) p.categories c one_more x e,
      )

  headroom :
      (s : Slot) (p : Pool B)
      → IsSlot s p
      → slot_active s p < slot_reserved s p
      → total p + 1 ≤ over p + all_reserved p
  headroom batch_slot p h k = omega (arith, sum-headroom p.categories)
  headroom reply_slot p h k = omega (arith, sum-headroom p.categories)
  headroom (category_slot c) p h k =
      let (x, e) = get_elem?_total p.categories c h in
      ground (arith, e, sum-headroom_spot p.categories c x e)

  slot_active-activate :
      (s t : Slot) (p : Pool B)
      → IsSlot s p
      → slot_active t (activate s p) ≡ slot_active t p + one_if (slot_eq s t)
  slot_active-activate batch_slot batch_slot p h = omega arith
  slot_active-activate batch_slot reply_slot p h = omega arith
  slot_active-activate batch_slot (category_slot d) p h = omega arith
  slot_active-activate reply_slot batch_slot p h = omega arith
  slot_active-activate reply_slot reply_slot p h = omega arith
  slot_active-activate reply_slot (category_slot d) p h = omega arith
  slot_active-activate (category_slot c) batch_slot p h = omega arith
  slot_active-activate (category_slot c) reply_slot p h = omega arith
  slot_active-activate (category_slot c) (category_slot d) p h =
      let (x, e) = get_elem?_total p.categories c h in
      elim (Bool-cases (c == d)) [
        | inl q ↦
            rw (← (==_iff c d).0 q)
              (ground (arith, e, get_elem?-modify_self p.categories c one_more x e))
        | inr q ↦ ground (arith, get_elem?-modify_ne p.categories c d one_more (λ r. ground arith))
      ]

  pub length-activate :
      (s : Slot) (p : Pool B) → length (activate s p).categories ≡ length p.categories
  length-activate batch_slot p = refl
  length-activate reply_slot p = refl
  length-activate (category_slot c) p = length-modify p.categories c one_more

  -- Where there is a spot, there is a socket.
  pub spot-headroom :
      (s : Slot) (p : Pool B)
      → IsValid p
      → IsSlot s p
      → HasSpot s p
      → total p + 1 ≤ p.worker_sockets
  spot-headroom s p v h (inl k) = omega (arith, headroom s p h k, v.within, v.sockets)
  spot-headroom s p v h (inr k) = omega (arith, v.balance, v.sockets)

  over-activate-le :
      (s : Slot) (p : Pool B)
      → IsValid p
      → IsSlot s p
      → HasSpot s p
      → over (activate s p) ≤ p.general_workers
  over-activate-le s p v h (inl k) = omega (arith, over-activate s p h k, v.within)
  over-activate-le s p v h (inr k) =
      omega (arith, over-le-total (activate s p), total-activate s p h, v.balance)

  pub activate-frame :
      (s : Slot) (p : Pool B)
      → ((activate s p).workers ≡ p.workers)
        × ((activate s p).idle_workers ≡ p.idle_workers)
        × ((activate s p).general_workers ≡ p.general_workers)
        × ((activate s p).worker_sockets ≡ p.worker_sockets)
        × ((activate s p).max_workers ≡ p.max_workers)
        × ((activate s p).pending_commands ≡ p.pending_commands)
  activate-frame batch_slot p = (refl, refl, refl, refl, refl, refl)
  activate-frame reply_slot p = (refl, refl, refl, refl, refl, refl)
  activate-frame (category_slot c) p = (refl, refl, refl, refl, refl, refl)

  -- The workers, the idle list and what is sent, given anew.
  abbrev pub with_workers : Pool B → List RunInfo → List ℕ → List Effect → Pool B
  with_workers p W I e = record p { workers = W; idle_workers = I; effects = e }

  activate-with_workers :
      (s : Slot) (p : Pool B) (W : List RunInfo) (I : List ℕ) (e : List Effect)
      → activate s (with_workers p W I e) ≡ with_workers (activate s p) W I e
  activate-with_workers batch_slot p W I e = refl
  activate-with_workers reply_slot p W I e = refl
  activate-with_workers (category_slot c) p W I e = refl

  slot_active-with_workers :
      (t : Slot) (p : Pool B) (W : List RunInfo) (I : List ℕ) (e : List Effect)
      → slot_active t (with_workers p W I e) ≡ slot_active t p
  slot_active-with_workers batch_slot p W I e = refl
  slot_active-with_workers reply_slot p W I e = refl
  slot_active-with_workers (category_slot c) p W I e = refl

  started-IsValid :
      (s : Slot) (p : Pool B) (W : List RunInfo) (I : List ℕ) (e : List Effect)
      → IsValid p
      → IsWoken s p W I
      → IsSlot s p
      → HasSpot s p
      → IsValid (with_workers (activate s p) W I e)
  started-IsValid s p W I e v k h spot =
      let (f1, f2, general, sockets, max, pending) = activate-frame s p in
      record {
        distinct = k.distinct;
        balance = omega (arith, k.balance, total-activate s p h);
        tallies = λ t.
            k.tallies t
            ∙ sym (slot_active-activate s t p h)
            ∙ sym (slot_active-with_workers t (activate s p) W I e);
        within = rw general (over-activate-le s p v h spot);
        sockets = omega (arith, v.sockets, general, sockets, all_reserved-activate s p h);
        limit = max ∙ v.limit ∙ sym sockets;
        bounded = ground (arith, k.grown, v.bounded, sockets, spot-headroom s p v h spot);
        some_general = rw general v.some_general;
        known = rw (pending, length-activate s p) v.known;
      }

  -- One more job, in a spot that is free for it, keeps the pool valid.
  pub activate-IsValid :
      (s : Slot) (p q : Pool B)
      → IsValid p
      → Started s p q
      → IsSlot s p
      → HasSpot s p
      → IsValid (activate s q)
  activate-IsValid s p q v (W, I, e, same, k) h spot =
      rw (same, activate-with_workers s p W I e) (started-IsValid s p W I e v k h spot)
