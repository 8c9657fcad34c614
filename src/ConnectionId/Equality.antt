-- ===== src/ConnectionId/Equality.antt =====
-- oxenmq/connections.h: `==` on connection ids is an equivalence, as the keys of the maps need.
use oxen_mq.Common.{
  zero, suc, minus_one, is_minus_one, ◌≡◌, refl, ◌∙◌, true, false, bytes_eq_refl, eq_of_bytes_eq, ℤ,
  pos, negsuc, arith, Bool-cases, inl, inr, ◌⊎◌,
}
use oxen_mq.ConnectionId.{ConnectionId, cid_eq, is_sn, int_eq}
use oxen_mq.ConnectionId.Order.{eq_of_int_eq}

pub int_eq_refl : (a : ℤ) → int_eq a a ≡ true
int_eq_refl (pos a) = ground arith
int_eq_refl (negsuc a) = ground arith

-- What `==` compares: the pubkeys of service nodes, the id and the route of others.
cid_eq-cases :
    (a b : ConnectionId)
    → cid_eq a b ≡ true
    → ((is_sn a ≡ true) × (is_sn b ≡ true) × (a.pk ≡ b.pk))
      ⊎ ((is_sn a ≡ false) × (a.id ≡ b.id) × (a.route ≡ b.route))
unfolding cid_eq
cid_eq-cases a b h =
    ground (arith, eq_of_bytes_eq a.pk b.pk, eq_of_int_eq a.id b.id, eq_of_bytes_eq a.route b.route)

pub cid_eq_refl : (a : ConnectionId) → cid_eq a a ≡ true
unfolding cid_eq
cid_eq_refl a = ground (arith, bytes_eq_refl a.pk, bytes_eq_refl a.route, int_eq_refl a.id)

eq_of_is_minus_one : (a : ℤ) → is_minus_one a ≡ true → a ≡ minus_one
eq_of_is_minus_one (pos n) h = cc
eq_of_is_minus_one (negsuc zero) h = refl
eq_of_is_minus_one (negsuc (suc n)) h = cc

int_eq-minus_one : (a : ℤ) → int_eq a minus_one ≡ is_minus_one a
int_eq-minus_one (pos n) = refl
int_eq-minus_one (negsuc zero) = refl
int_eq-minus_one (negsuc (suc n)) = ground arith

cid_eq-sn :
    (a b c : ConnectionId) → is_sn a ≡ true → is_sn b ≡ true → a.pk ≡ b.pk → cid_eq c a ≡ cid_eq c b
unfolding cid_eq
cid_eq-sn a b c h k e =
    rw (eq_of_is_minus_one a.id h, eq_of_is_minus_one b.id k, e)
      (elim (Bool-cases (is_minus_one c.id)) [
        | inl m ↦ rw m refl
        | inr m ↦ rw (m, int_eq-minus_one c.id, m) refl
      ])

cid_eq-plain :
    (a b c : ConnectionId)
    → is_sn a ≡ false
    → a.id ≡ b.id
    → a.route ≡ b.route
    → cid_eq c a ≡ cid_eq c b
unfolding cid_eq
cid_eq-plain a b c n e r =
    rw (← e, ← r, n)
      (elim (Bool-cases (is_minus_one c.id)) [ inl m ↦ rw m refl | inr m ↦ rw m refl ])

-- Ids that are `==` are `==` to the same ids.
pub cid_eq-congr : (a b c : ConnectionId) → cid_eq a b ≡ true → cid_eq c a ≡ cid_eq c b
cid_eq-congr a b c h = elim (cid_eq-cases a b h) [
  | inl (sa, sb, e) ↦ cid_eq-sn a b c sa sb e
  | inr (n, e, r) ↦ cid_eq-plain a b c n e r
]

pub cid_eq-sym : (a b : ConnectionId) → cid_eq a b ≡ true → cid_eq b a ≡ true
cid_eq-sym a b h = cid_eq-congr a b b h ∙ cid_eq_refl b
