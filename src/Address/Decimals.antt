-- ===== src/Address/Decimals.antt =====
-- Hosts and ports are read back from their print.
use oxen_mq.Common.{
  ℕ, ◌≤◌, ◌≡◌, refl, sym, ap, ◌∙◌, true, false, inl, inr, [], ◌∷◌, ◌++◌, Bytes, length, ◌==◌,
  take_while, drop_while, all, is_digit, decimal, spelled-decimal, all-decimal, length-decimal,
  take_while_whole, take_while-append, drop_while-append, drop_while_whole, take_while-drop_while,
  all-take_while, eq_of_bytes_eq, ok, arith, Bool-cases,
}
use mathlib.Core.List.{append_assoc, append-nil}
use oxen_mq.Address.Parse.{stoi, parse_port, parse_host, in_ipv6, not_colon, int_max}
use oxen_mq.Address.WellFormed.{closes, host_ok}

stoi-decimal : (n : ℕ) → n ≤ int_max → stoi (decimal n) ≡ ok (n, length (decimal n))
unfolding stoi
stoi-decimal n h =
    rw (take_while_whole is_digit (decimal n) (all-decimal n), spelled-decimal n)
      (ground (arith, length-decimal n))

-- A port is read back before anything that does not go on with a digit.
pub parse_port-decimal :
    (n : ℕ) (rest : Bytes)
    → 1 ≤ n
    → n ≤ 65535
    → take_while is_digit (decimal n ++ rest) ≡ decimal n
    → drop_while is_digit (decimal n ++ rest) ≡ rest
    → parse_port (b':' ∷ (decimal n ++ rest)) ≡ ok (n, rest)
unfolding parse_port
parse_port-decimal n rest lo hi front remains =
    rw (front, remains, stoi-decimal n (omega arith)) (ground (arith, length-decimal n))

-- Either nothing or a `/` follows the port.
pub parse_port_end : (n : ℕ) → 1 ≤ n → n ≤ 65535 → parse_port (b':' ∷ decimal n) ≡ ok (n, [])
parse_port_end n lo hi = ground (
  arith,
  append-nil (decimal n),
  parse_port-decimal n [] lo hi,
  take_while_whole is_digit (decimal n) (all-decimal n),
  drop_while_whole is_digit (decimal n) (all-decimal n),
)

pub parse_port_slash :
    (n : ℕ) (s : Bytes)
    → 1 ≤ n
    → n ≤ 65535
    → parse_port (b':' ∷ (decimal n ++ b'/' ∷ s)) ≡ ok (n, b'/' ∷ s)
parse_port_slash n s lo hi =
    parse_port-decimal n (b'/' ∷ s) lo hi
      (take_while-append is_digit (decimal n) b'/' s (all-decimal n) refl)
      (drop_while-append is_digit (decimal n) b'/' s (all-decimal n) refl)

-- What `closes` says of the text.
pub closes_split :
    (s : Bytes)
    → closes s ≡ true
    → (inner : Bytes) × (all in_ipv6 inner ≡ true) × (s ≡ inner ++ b']' ∷ [])
closes_split s h = (
  take_while in_ipv6 s,
  all-take_while in_ipv6 s,
  sym (take_while-drop_while in_ipv6 s)
      ∙ ap (λ t. take_while in_ipv6 s ++ t) (eq_of_bytes_eq (drop_while in_ipv6 s) (b']' ∷ []) h),
)

bracketed-host :
    (inner rest : Bytes)
    → all in_ipv6 inner ≡ true
    → parse_host false (b'[' ∷ (inner ++ b']' ∷ rest)) ≡ ok (b'[' ∷ (inner ++ b']' ∷ []), rest)
unfolding parse_host
bracketed-host inner rest h =
    rw
      (
        take_while-append in_ipv6 inner b']' rest h refl,
        drop_while-append in_ipv6 inner b']' rest h refl,
      )
      refl

named_host_lem :
    (c : ℕ) (s rest : Bytes)
    → (c == b'[') ≡ false
    → all not_colon (c ∷ s) ≡ true
    → parse_host false (c ∷ (s ++ b':' ∷ rest)) ≡ ok (c ∷ s, b':' ∷ rest)
unfolding parse_host
named_host_lem c s rest plain h =
    rw
      (
        plain,
        take_while-append not_colon (c ∷ s) b':' rest h refl,
        drop_while-append not_colon (c ∷ s) b':' rest h refl,
      )
      refl

-- A host is read back before the colon of the port.
pub parse_host_lem :
    (host rest : Bytes)
    → host_ok host ≡ true
    → parse_host false (host ++ b':' ∷ rest) ≡ ok (host, b':' ∷ rest)
parse_host_lem [] rest h = absurd (cc)
parse_host_lem (c ∷ s) rest h = elim (Bool-cases (c == b'[')) [
  | inl open' ↦
      let (inner, valid, e) = closes_split s (rw open' at h) in
      let bracket : c ≡ b'[' = ground arith in
      rw (bracket, e, append_assoc) (bracketed-host inner (b':' ∷ rest) valid)
  | inr plain ↦ named_host_lem c s rest plain (rw plain at h)
]
