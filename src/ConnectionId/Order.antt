-- ===== src/ConnectionId/Order.antt =====
-- oxenmq/connections.h: the comparison, the order and the hash of connection ids fit together, as
-- the containers that are keyed by them ask.
use oxen_mq.Common.{
  ℕ, ◌≡◌, refl, ◌⊎◌, inl, inr, Bool, true, false, Bytes, [], ◌∷◌, bytes_eq, eq_of_bytes_eq, ℤ, pos,
  negsuc, arith,
}
use oxen_mq.ConnectionId.{ConnectionId, int_eq, int_lt, bytes_lt, cid_eq, cid_lt, cid_hash}

-- For each pair exactly one of `<`, `==` and `>` holds.
abbrev pub OneOf : Bool → Bool → Bool → Type 0
OneOf lt eq gt =
    ((lt ≡ true) × (eq ≡ false) × (gt ≡ false))
    ⊎ (((lt ≡ false) × (eq ≡ true) × (gt ≡ false)) ⊎ ((lt ≡ false) × (eq ≡ false) × (gt ≡ true)))

int_trichotomy : (a b : ℤ) → OneOf (int_lt a b) (int_eq a b) (int_lt b a)
int_trichotomy (pos a) (pos b) = ground arith
int_trichotomy (pos a) (negsuc b) = inr (inr (refl, refl, refl))
int_trichotomy (negsuc a) (pos b) = inl (refl, refl, refl)
int_trichotomy (negsuc a) (negsuc b) = ground arith

bytes_trichotomy : (a b : Bytes) → OneOf (bytes_lt a b) (bytes_eq a b) (bytes_lt b a)
bytes_trichotomy [] [] = inr (inl (refl, refl, refl))
bytes_trichotomy [] (b ∷ bs) = inl (refl, refl, refl)
bytes_trichotomy (a ∷ as') [] = inr (inr (refl, refl, refl))
bytes_trichotomy (a ∷ as') (b ∷ bs) = ground (arith, bytes_trichotomy as' bs)

int_eq_sym : (a b : ℤ) → int_eq a b ≡ int_eq b a
int_eq_sym (pos a) (pos b) = ground arith
int_eq_sym (pos a) (negsuc b) = refl
int_eq_sym (negsuc a) (pos b) = refl
int_eq_sym (negsuc a) (negsuc b) = ground arith

pub eq_of_int_eq : (a b : ℤ) → int_eq a b ≡ true → a ≡ b
eq_of_int_eq (pos a) (pos b) h = ground arith
eq_of_int_eq (pos a) (negsuc b) h = cc
eq_of_int_eq (negsuc a) (pos b) h = cc
eq_of_int_eq (negsuc a) (negsuc b) h = ground arith

-- Of two connection ids exactly one of `a < b`, `a == b` and `b < a` holds.
pub cid_trichotomy : (a b : ConnectionId) → OneOf (cid_lt a b) (cid_eq a b) (cid_lt b a)
unfolding cid_lt cid_eq
cid_trichotomy a b = ground (
  arith,
  bytes_trichotomy a.pk b.pk,
  int_trichotomy a.id b.id,
  int_eq_sym a.id b.id,
  bytes_trichotomy a.route b.route,
)

-- Connection ids that compare equal hash equally, whatever the hash functions of their parts.
pub cid_hash-cid_eq :
    (hash_pk : Bytes → ℕ) (hash_id : ℤ → ℕ) (hash_route : Bytes → ℕ) (a b : ConnectionId)
    → cid_eq a b ≡ true
    → cid_hash hash_pk hash_id hash_route a ≡ cid_hash hash_pk hash_id hash_route b
unfolding cid_eq cid_hash
cid_hash-cid_eq hash_pk hash_id hash_route a b h =
    ground (arith, eq_of_bytes_eq a.pk b.pk, eq_of_int_eq a.id b.id, eq_of_bytes_eq a.route b.route)
