-- ===== src/ConnectionId.antt =====
-- oxenmq/connections.h, `struct ConnectionID`: comparison, order and hash. The two hash functions
-- of the standard library are parameters.
pub mod Order
pub mod Equality
use oxen_mq.Common.{
  ℕ, ◌+◌, ◌%◌, ◌^◌, Bool, true, false, ◌&&◌, ◌||◌, Bytes, [], ◌∷◌, bytes_eq, ltb, ◌==◌, ℤ, pos,
  negsuc, minus_one, is_minus_one, if◌then◌else◌,
}

pub record ConnectionId : Type 0 where
  pub id : ℤ  -- int64_t
  pub pk : Bytes
  pub route : Bytes

abbrev pub sn_id : ℤ
sn_id = minus_one

-- `ConnectionID{}`: an id that no connection has.
abbrev pub no_connection : ConnectionId
no_connection = record { id = pos 0; pk = []; route = [] }

-- A service node's id, from its pubkey; the constructor throws unless that has 32 bytes.
abbrev pub of_pubkey : Bytes → ConnectionId
of_pubkey pk = record { id = sn_id; pk = pk; route = [] }

abbrev pub is_sn : ConnectionId → Bool
is_sn c = is_minus_one c.id

abbrev pub int_eq : ℤ → ℤ → Bool
int_eq (pos a) (pos b) = a == b
int_eq (pos a) (negsuc b) = false
int_eq (negsuc a) (pos b) = false
int_eq (negsuc a) (negsuc b) = a == b

abbrev pub int_lt : ℤ → ℤ → Bool
int_lt (pos a) (pos b) = ltb a b
int_lt (pos a) (negsuc b) = false
int_lt (negsuc a) (pos b) = true
int_lt (negsuc a) (negsuc b) = ltb b a

-- `std::string::operator<`.
abbrev pub bytes_lt : Bytes → Bytes → Bool
bytes_lt [] [] = false
bytes_lt [] (b ∷ bs) = true
bytes_lt (a ∷ as') [] = false
bytes_lt (a ∷ as') (b ∷ bs) = ltb a b || (a == b && bytes_lt as' bs)

unfoldable pub cid_eq : ConnectionId → ConnectionId → Bool
cid_eq a b =
    if is_sn a && is_sn b then bytes_eq a.pk b.pk else int_eq a.id b.id && bytes_eq a.route b.route

unfoldable pub cid_lt : ConnectionId → ConnectionId → Bool
cid_lt a b =
    if is_sn a && is_sn b
    then bytes_lt a.pk b.pk
    else int_lt a.id b.id || (int_eq a.id b.id && bytes_lt a.route b.route)

-- `std::hash<ConnectionID>`: `hash_pk` is `already_hashed`, the sum wraps at size_t.
unfoldable pub cid_hash : (Bytes → ℕ) → (ℤ → ℕ) → (Bytes → ℕ) → ConnectionId → ℕ
cid_hash hash_pk hash_id hash_route c =
    if is_sn c then hash_pk c.pk else (hash_id c.id + hash_route c.route) % 2 ^ 64

pub unrouted : ConnectionId → ConnectionId
unrouted c = record c { route = [] }
