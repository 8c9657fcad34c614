-- ===== src/Common/Scan.antt =====
-- Scanning byte strings: `substr`, `remove_prefix`, `find_first_of` and `find_first_not_of`, and the
-- decimal conversions `std::to_string` and `std::stoi`.
use Prim.Native.Nat.{ℕ, zero, suc, ◌+◌, ◌-◌, ◌*◌, ◌/◌, ◌%◌, ◌<◌, ◌≤◌}
use mathlib.Core.Path.{◌≡◌, refl, ◌∙◌}
use mathlib.Core.Bool.{Bool, true, false, ◌&&◌}
use mathlib.Core.List.{[], ◌∷◌, ◌++◌, map, append-nil}
use native.Mathlib.Omega.{arith}
use oxen_mq.Common.Tests.{ltb, leb, if◌then◌else◌, Bool-cases}
use oxen_mq.Common.Lists.{length}
use oxen_mq.Common.Text.{Bytes}
use mathlib.Core.Logic.{inl, inr}

-- `substr(0, n)` and what `remove_prefix(n)` leaves, for n up to the size.
abbrev pub take : ℕ → Bytes → Bytes
take zero s = []
take (suc n) [] = []
take (suc n) (c ∷ s) = c ∷ take n s

abbrev pub drop : ℕ → Bytes → Bytes
drop zero s = s
drop (suc n) [] = []
drop (suc n) (c ∷ s) = drop n s

-- The bytes before the first that fails the test, and that byte with all after it.
abbrev pub take_while : (ℕ → Bool) → Bytes → Bytes
take_while p [] = []
take_while p (c ∷ s) = if p c then c ∷ take_while p s else []

abbrev pub drop_while : (ℕ → Bool) → Bytes → Bytes
drop_while p [] = []
drop_while p (c ∷ s) = if p c then drop_while p s else c ∷ s

abbrev pub all : (ℕ → Bool) → Bytes → Bool
all p [] = true
all p (c ∷ s) = p c && all p s

abbrev pub back : Bytes → ℕ → ℕ
back [] default = default
back (c ∷ s) default = back s c

abbrev pub between : ℕ → ℕ → ℕ → Bool
between lo hi c = leb lo c && leb c hi

abbrev pub is_digit : ℕ → Bool
is_digit c = between b'0' b'9' c

abbrev pub to_lower : ℕ → ℕ
to_lower c = if between b'A' b'Z' c then c - b'A' + b'a' else c

abbrev pub to_upper : ℕ → ℕ
to_upper c = if between b'a' b'z' c then c - b'a' + b'A' else c

pub take_all : (s rest : Bytes) → take (length s) (s ++ rest) ≡ s
take_all [] rest = refl
take_all (c ∷ s) rest = ground (arith, take_all s rest)

pub drop_all : (s rest : Bytes) → drop (length s) (s ++ rest) ≡ rest
drop_all [] rest = refl
drop_all (c ∷ s) rest = ground (arith, drop_all s rest)

pub take-append : (n : ℕ) (s rest : Bytes) → length s ≡ n → take n (s ++ rest) ≡ s
take-append n s rest e = rw (← e) (take_all s rest)

pub drop-append : (n : ℕ) (s rest : Bytes) → length s ≡ n → drop n (s ++ rest) ≡ rest
drop-append n s rest e = rw (← e) (drop_all s rest)

pub take_whole : (n : ℕ) (s : Bytes) → length s ≡ n → take n s ≡ s
take_whole n s e = rw append-nil at (take-append n s [] e)

pub drop_whole : (n : ℕ) (s : Bytes) → length s ≡ n → drop n s ≡ []
drop_whole n s e = rw append-nil at (drop-append n s [] e)

module _ (p : ℕ → Bool) where
  pub take_while-append :
      (s : Bytes) (c : ℕ) (rest : Bytes)
      → all p s ≡ true
      → p c ≡ false
      → take_while p (s ++ c ∷ rest) ≡ s
  take_while-append [] c rest h stop = ground arith
  take_while-append (a ∷ s) c rest h stop = ground (arith, take_while-append s c rest)

  pub drop_while-append :
      (s : Bytes) (c : ℕ) (rest : Bytes)
      → all p s ≡ true
      → p c ≡ false
      → drop_while p (s ++ c ∷ rest) ≡ c ∷ rest
  drop_while-append [] c rest h stop = ground arith
  drop_while-append (a ∷ s) c rest h stop = ground (arith, drop_while-append s c rest)

  pub take_while_whole : (s : Bytes) → all p s ≡ true → take_while p s ≡ s
  take_while_whole [] h = refl
  take_while_whole (a ∷ s) h = ground (arith, take_while_whole s)

  pub drop_while_whole : (s : Bytes) → all p s ≡ true → drop_while p s ≡ []
  drop_while_whole [] h = refl
  drop_while_whole (a ∷ s) h = ground (arith, drop_while_whole s)

  pub all-take_while : (s : Bytes) → all p (take_while p s) ≡ true
  all-take_while [] = refl
  all-take_while (a ∷ s) = ground (arith, all-take_while s)

  pub take_while-drop_while : (s : Bytes) → take_while p s ++ drop_while p s ≡ s
  take_while-drop_while [] = refl
  take_while-drop_while (a ∷ s) = ground (arith, take_while-drop_while s)

  pub all-append : (s t : Bytes) → all p (s ++ t) ≡ all p s && all p t
  all-append [] t = refl
  all-append (a ∷ s) t = ground (arith, all-append s t)

pub all-map :
    (p q : ℕ → Bool) (f : ℕ → ℕ) (s : Bytes)
    → ((c : ℕ) → p c ≡ true → q (f c) ≡ true)
    → all p s ≡ true
    → all q (map f s) ≡ true
all-map p q f [] h v = refl
all-map p q f (c ∷ s) h v = ground (arith, h c, all-map p q f s h)

-- The number that the digits spell behind `n`.
unfoldable pub spelled : Bytes → ℕ → ℕ
spelled [] n = n
spelled (c ∷ s) n = spelled s (n * 10 + (c - b'0'))

-- The digits of a number with fewer than `fuel` + 1 of them, before `out`.
unfoldable pub digits : ℕ → ℕ → Bytes → Bytes
digits zero n out = out
digits (suc fuel) n out =
    let rest = digits fuel (n / 10) ((b'0' + n % 10) ∷ out) in
    if ltb n 10 then (b'0' + n) ∷ out else rest

-- `std::to_string` of an unsigned number: the fuel is the number itself, and one more.
unfoldable pub decimal : ℕ → Bytes
unfolding digits
decimal n = digits (suc n) n []

spelled-digits :
    (fuel n : ℕ) (out : Bytes) → n < fuel → spelled (digits fuel n out) 0 ≡ spelled out n
unfolding digits spelled
spelled-digits zero n out h = absurd (omega arith)
spelled-digits (suc fuel) n out h = elim (Bool-cases (ltb n 10)) [
  | inl small ↦ rw small (ground arith)
  | inr large ↦
      rw large (spelled-digits fuel (n / 10) ((b'0' + n % 10) ∷ out) (ground arith) ∙ ground arith)
]

-- Every number is read back from its decimal print.
pub spelled-decimal : (n : ℕ) → spelled (decimal n) 0 ≡ n
unfolding decimal
spelled-decimal n = spelled-digits (suc n) n [] (omega arith) ∙ (unfold spelled in refl)

all-digits :
    (fuel n : ℕ) (out : Bytes) → all is_digit out ≡ true → all is_digit (digits fuel n out) ≡ true
unfolding digits
all-digits zero n out h = h
all-digits (suc fuel) n out h = ground (arith, all-digits fuel (n / 10) ((b'0' + n % 10) ∷ out))

pub all-decimal : (n : ℕ) → all is_digit (decimal n) ≡ true
unfolding decimal
all-decimal n = all-digits (suc n) n [] refl

length-digits : (fuel n : ℕ) (out : Bytes) → length out ≤ length (digits fuel n out)
unfolding digits
length-digits zero n out = omega arith
length-digits (suc fuel) n out = ground (arith, length-digits fuel (n / 10) ((b'0' + n % 10) ∷ out))

pub length-decimal : (n : ℕ) → 0 < length (decimal n)
unfolding decimal digits
length-decimal n = ground (arith, length-digits n (n / 10) ((b'0' + n % 10) ∷ []))

decimal_test : decimal 65535 ≡ b'6' ∷ b'5' ∷ b'5' ∷ b'3' ∷ b'5' ∷ []
unfolding decimal digits
decimal_test = refl
