-- ===== src/Pool/Measures.antt =====
-- How many workers run jobs of each kind, and how the counts change when one worker starts or ends.
use oxen_mq.Common.{
  ℕ, zero, suc, ◌+◌, ◌<◌, ◌≡◌, refl, Bool, true, false, ◌&&◌, some, List, [], ◌∷◌, ◌++◌, length,
  modify, get_elem?, if◌then◌else◌, ◌==◌, arith,
}
use oxen_mq.Pool.{RunInfo}

-- What a worker's job counts against.
pub data Slot : Type 0 where
  batch_slot reply_slot : Slot
  category_slot : ℕ → Slot

abbrev pub slot_eq : Slot → Slot → Bool
slot_eq batch_slot batch_slot = true
slot_eq reply_slot reply_slot = true
slot_eq (category_slot c) (category_slot d) = c == d
slot_eq _ _ = false

abbrev pub slot_of : RunInfo → Slot
slot_of r =
    if r.is_batch_job
    then (if r.is_reply_job then reply_slot else batch_slot)
    else category_slot r.cat

-- How often a number is in a list.
abbrev pub occurrences : ℕ → List ℕ → ℕ
occurrences w [] = 0
occurrences w (x ∷ xs) = (if x == w then 1 else 0) + occurrences w xs

abbrev pub one_if : Bool → ℕ
one_if true = 1
one_if false = 0

-- The workers from index `i` on that are not idle and pass the test.
abbrev pub busy_with : (RunInfo → Bool) → List ℕ → ℕ → List RunInfo → ℕ
busy_with test idle i [] = 0
busy_with test idle i (r ∷ rs) =
    one_if ((occurrences i idle == 0) && test r) + busy_with test idle (suc i) rs

-- Those that run a job of the slot.
abbrev pub tally : Slot → List ℕ → ℕ → List RunInfo → ℕ
tally s idle i rs = busy_with (λ r. slot_eq (slot_of r) s) idle i rs

pub slot_eq_refl : (s : Slot) → slot_eq s s ≡ true
slot_eq_refl batch_slot = refl
slot_eq_refl reply_slot = refl
slot_eq_refl (category_slot c) = ground arith

module _ (test : RunInfo → Bool) where
  -- Workers below `i` do not matter.
  busy_with-below :
      (idle : List ℕ) (w i : ℕ) (rs : List RunInfo)
      → w < i
      → busy_with test (w ∷ idle) i rs ≡ busy_with test idle i rs
  busy_with-below idle w i [] h = refl
  busy_with-below idle w i (r ∷ rs) h = ground (arith, busy_with-below idle w (suc i) rs)

  -- A new worker at the end.
  pub busy_with-append :
      (idle : List ℕ) (i n : ℕ) (rs : List RunInfo) (r : RunInfo)
      → n ≡ i + length rs
      → occurrences n idle ≡ 0
      → busy_with test idle i (rs ++ r ∷ []) ≡ busy_with test idle i rs + one_if (test r)
  busy_with-append idle i n [] r e h = let e' : n ≡ i = omega arith in ground (arith, e')
  busy_with-append idle i n (x ∷ rs) r e h =
      omega (arith, busy_with-append idle (suc i) n rs r (omega arith) h)

  -- An idle worker at position `k` of the list gets a new job and leaves the idle list.
  pub busy_with-wake :
      (idle : List ℕ) (w i k : ℕ) (rs : List RunInfo) (f : RunInfo → RunInfo) (r : RunInfo)
      → get_elem? rs k ≡ some r
      → w ≡ i + k
      → occurrences w idle ≡ 0
      → busy_with test idle i (modify rs k f) ≡ busy_with test (w ∷ idle) i rs + one_if (test (f r))
  busy_with-wake idle w i k [] f r e p h = absurd (cc)
  busy_with-wake idle w i zero (x ∷ rs) f r e p h =
      let same : x ≡ r = cc in rw (← same) (ground (arith, busy_with-below idle w (suc i) rs))
  busy_with-wake idle w i (suc k) (x ∷ rs) f r e p h =
      ground (arith, busy_with-wake idle w (suc i) k rs f r e (omega arith) h)

  -- A change that the test does not see.
  pub busy_with-same :
      (idle : List ℕ) (i k : ℕ) (rs : List RunInfo) (f : RunInfo → RunInfo)
      → ((r : RunInfo) → test (f r) ≡ test r)
      → busy_with test idle i (modify rs k f) ≡ busy_with test idle i rs
  busy_with-same idle i k [] f h = refl
  busy_with-same idle i zero (x ∷ rs) f h = rw (h x) refl
  busy_with-same idle i (suc k) (x ∷ rs) f h = rw (busy_with-same idle (suc i) k rs f h) refl

pub tally-append :
    (s : Slot) (idle : List ℕ) (i n : ℕ) (rs : List RunInfo) (r : RunInfo)
    → n ≡ i + length rs
    → occurrences n idle ≡ 0
    → tally s idle i (rs ++ r ∷ []) ≡ tally s idle i rs + one_if (slot_eq (slot_of r) s)
tally-append s = busy_with-append (λ r. slot_eq (slot_of r) s)

pub tally-wake :
    (s : Slot) (idle : List ℕ) (w i k : ℕ) (rs : List RunInfo) (f : RunInfo → RunInfo) (r : RunInfo)
    → get_elem? rs k ≡ some r
    → w ≡ i + k
    → occurrences w idle ≡ 0
    → tally s idle i (modify rs k f) ≡ tally s (w ∷ idle) i rs + one_if (slot_eq (slot_of (f r)) s)
tally-wake s = busy_with-wake (λ r. slot_eq (slot_of r) s)
