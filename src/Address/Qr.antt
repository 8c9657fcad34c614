-- ===== src/Address/Qr.antt =====
-- `qr_address` and the constructor of a text are inverse to each other on hosts in lower case.
use oxen_mq.Common.{
  ℕ, ◌≤◌, ◌≡◌, refl, ap, Bool, true, false, not, ◌&&◌, ◌||◌, inl, inr, [], ◌∷◌, ◌++◌, map, Bytes,
  is_empty, if◌then◌else◌, ◌==◌, all, back, is_digit, between, to_lower, to_upper, decimal,
  all-decimal, all-append, all-map, take_while-append, drop_while-append, ok, ◌>>=◌, arith,
  Bool-cases,
}
use mathlib.Core.List.{map-append, append_assoc, append-nil}
use oxen_mq.Address.{
  Proto, tcp, tcp_curve, ipc, ipc_curve, base32z_upper, Address, Oxenc, encode_pubkey, qr_address,
  dollar_ends, set_back, is_tcp, is_curve, tcp_proto, curve_proto,
}
use oxen_mq.Address.Parse.{
  in_ipv6, not_colon, in_qr, parse_host, parse_tcp, parse_tcp_pubkey, parse_rest, parse_address,
}
use oxen_mq.Address.Keys.{Codec, decode_pubkey-upper}
use oxen_mq.Address.WellFormed.{closes, host_ok, IsTcp, Shape, IsWellFormed}
use oxen_mq.Address.Decimals.{closes_split, parse_port_end, parse_port_slash}
use oxen_mq.Address.RoundTrip.{decoded_tcp_pubkey}

-- A host that a QR code can show and that is in lower case.
abbrev pub in_qr_name : ℕ → Bool
in_qr_name c = between b'a' b'z' c || is_digit c || c == b'.' || c == b'-' || c == b'/'

abbrev pub not_upper : ℕ → Bool
not_upper c = not (between b'A' b'Z' c)

abbrev pub qr_host_ok : Bytes → Bool
qr_host_ok [] = false
qr_host_ok (c ∷ s) = if c == b'[' then closes s && all not_upper s else all in_qr_name (c ∷ s)

back-end : (s : Bytes) (c d : ℕ) → back (s ++ c ∷ []) d ≡ c
back-end [] c d = refl
back-end (a ∷ s) c d = back-end s c a

set_back-end : (s : Bytes) (c d : ℕ) → set_back (s ++ c ∷ []) d ≡ s ++ d ∷ []
set_back-end [] c d = refl
set_back-end (a ∷ []) c d = refl
set_back-end (a ∷ b ∷ s) c d = ap (λ (t : Bytes). a ∷ t) (set_back-end (b ∷ s) c d)

-- Lower case comes back from upper case.
lower-upper : (c : ℕ) → not_upper c ≡ true → to_lower (to_upper c) ≡ c
lower-upper c h = ground arith

map_lower-upper : (s : Bytes) → all not_upper s ≡ true → map to_lower (map to_upper s) ≡ s
map_lower-upper [] h = refl
map_lower-upper (c ∷ s) h = ground (arith, lower-upper c, map_lower-upper s)

-- The IPv6 address, between dollars.
dollar_ends_bracketed :
    (inner : Bytes) → dollar_ends (b'[' ∷ (inner ++ b']' ∷ [])) ≡ b'$' ∷ (inner ++ b'$' ∷ [])
dollar_ends_bracketed inner = rw (back-end inner b']' b'[') (set_back_cons inner)
  where
    set_back_cons : (s : Bytes) → set_back (b'$' ∷ (s ++ b']' ∷ [])) b'$' ≡ b'$' ∷ (s ++ b'$' ∷ [])
    set_back_cons s = set_back-end (b'$' ∷ s) b']' b'$'

dollar_host :
    (inner rest : Bytes)
    → all in_ipv6 inner ≡ true
    → parse_host true (b'$' ∷ (inner ++ b'$' ∷ rest)) ≡ ok (b'[' ∷ (inner ++ b']' ∷ []), rest)
unfolding parse_host
dollar_host inner rest h =
    rw
      (
        take_while-append in_ipv6 inner b'$' rest h refl,
        drop_while-append in_ipv6 inner b'$' rest h refl,
      )
      refl

name_host :
    (c : ℕ) (s rest : Bytes)
    → (c == b'[' || c == b'$') ≡ false
    → all not_colon (c ∷ s) ≡ true
    → parse_host true (c ∷ (s ++ b':' ∷ rest)) ≡ ok (c ∷ s, b':' ∷ rest)
unfolding parse_host
name_host c s rest plain h =
    rw
      (
        plain,
        take_while-append not_colon (c ∷ s) b':' rest h refl,
        drop_while-append not_colon (c ∷ s) b':' rest h refl,
      )
      refl

in_qr-to_upper : (c : ℕ) → in_qr_name c ≡ true → in_qr (to_upper c) ≡ true
in_qr-to_upper c h = ground arith

in_qr_ipv6 : (c : ℕ) → in_ipv6 c ≡ true → in_qr (to_upper c) ≡ true
in_qr_ipv6 c h = ground arith

in_ipv6-to_upper : (c : ℕ) → in_ipv6 c ≡ true → in_ipv6 (to_upper c) ≡ true
in_ipv6-to_upper c h = ground arith

not_colon-to_upper : (c : ℕ) → in_qr_name c ≡ true → not_colon (to_upper c) ≡ true
not_colon-to_upper c h = ground arith

not_upper_name : (c : ℕ) → in_qr_name c ≡ true → not_upper c ≡ true
not_upper_name c h = ground arith

name_start : (c : ℕ) → in_qr_name c ≡ true → (to_upper c == b'[' || to_upper c == b'$') ≡ false
name_start c h = ground arith

all_mono :
    (p q : ℕ → Bool) (s : Bytes)
    → ((c : ℕ) → p c ≡ true → q c ≡ true)
    → all p s ≡ true
    → all q s ≡ true
all_mono p q [] h v = refl
all_mono p q (c ∷ s) h v = ground (arith, h c, all_mono p q s h)

and_split : (a b : Bool) → (a && b) ≡ true → (a ≡ true) × (b ≡ true)
and_split a b h = ground arith

-- How a host is shown in a QR address, and read back from there.
record Shown (host : Bytes) : Type 0 where
  upper : Bytes
  lowered : map to_lower upper ≡ host
  shown_in_qr : all in_qr (dollar_ends (map to_upper host)) ≡ true
  read_back :
      (rest : Bytes)
      → parse_host true (dollar_ends (map to_upper host) ++ b':' ∷ rest) ≡ ok (upper, b':' ∷ rest)

Shown-bracketed :
    (inner : Bytes)
    → all in_ipv6 inner ≡ true
    → all not_upper inner ≡ true
    → Shown (b'[' ∷ (inner ++ b']' ∷ []))
Shown-bracketed inner v low =
    let up = map to_upper inner in
    let ends : dollar_ends (map to_upper (b'[' ∷ (inner ++ b']' ∷ []))) ≡ b'$' ∷ (up ++ b'$' ∷ []) =
      rw (map-append to_upper inner (b']' ∷ [])) (dollar_ends_bracketed up) in
    record {
      upper = b'[' ∷ (up ++ b']' ∷ []);
      lowered = rw (map-append to_lower up (b']' ∷ []), map_lower-upper inner low) refl;
      shown_in_qr =
          rw
            (
              ends,
              all-append in_qr up (b'$' ∷ []),
              all-map in_ipv6 in_qr to_upper inner in_qr_ipv6 v,
            )
            refl;
      read_back = λ rest.
          rw (ends, append_assoc up (b'$' ∷ []) (b':' ∷ rest))
            (dollar_host up (b':' ∷ rest)
              (all-map in_ipv6 in_ipv6 to_upper inner in_ipv6-to_upper v));
    }

Shown-name : (c : ℕ) (s : Bytes) → all in_qr_name (c ∷ s) ≡ true → Shown (c ∷ s)
Shown-name c s v =
    let start = name_start c (ground arith) in
    let plain : (to_upper c == b'[') ≡ false = ground arith in
    record {
      upper = map to_upper (c ∷ s);
      lowered = map_lower-upper (c ∷ s) (all_mono in_qr_name not_upper (c ∷ s) not_upper_name v);
      shown_in_qr = rw plain (all-map in_qr_name in_qr to_upper (c ∷ s) in_qr-to_upper v);
      read_back = λ rest. rw plain (
          name_host (to_upper c) (map to_upper s) rest start
            (all-map in_qr_name not_colon to_upper (c ∷ s) not_colon-to_upper v));
    }

qr_host_ok-Shown : (host : Bytes) → qr_host_ok host ≡ true → Shown host
qr_host_ok-Shown [] h = absurd (cc)
qr_host_ok-Shown (c ∷ s) h = elim (Bool-cases (c == b'[')) [
  | inr n ↦ Shown-name c s (rw n at h)
  | inl o ↦
      let (closed, low) = and_split (closes s) _ (rw o at h) in
      let (inner, v, e) = closes_split s closed in
      let bracket : c ≡ b'[' = ground arith in
      rw (bracket, e)
        (Shown-bracketed inner v
          (and_split (all not_upper inner) _
            (rw (e, all-append not_upper inner (b']' ∷ [])) at low)).0)
]

in_qr_digit : (c : ℕ) → is_digit c ≡ true → in_qr c ≡ true
in_qr_digit c h = ground arith

decimal-in_qr : (n : ℕ) → all in_qr (decimal n) ≡ true
decimal-in_qr n = all_mono is_digit in_qr (decimal n) in_qr_digit (all-decimal n)

abbrev shown : Address → Bytes
shown a = dollar_ends (map to_upper a.host)

module _ (o : Oxenc) (a : Address) (s : Shown a.host) (lo : 1 ≤ a.port) (hi : a.port ≤ 65535) where
  qr_tcp :
      a.socket ≡ []
      → a.pubkey ≡ []
      → parse_rest o tcp true (shown a ++ b':' ∷ (decimal a.port ++ []))
        ≡ ok (record a { protocol = tcp })
  unfolding parse_rest parse_tcp
  qr_tcp no_socket no_key =
      rw
        (
          append-nil (decimal a.port),
          all-append in_qr (shown a) (b':' ∷ decimal a.port),
          s.shown_in_qr,
          decimal-in_qr a.port,
          s.read_back (decimal a.port),
          parse_port_end a.port lo hi,
          parse_tcp_pubkey,
          s.lowered,
        )
        (cc)

  qr_curve :
      a.socket ≡ []
      → Codec o a.pubkey
      → parse_rest o tcp_curve true
          (shown a ++ b':' ∷ (decimal a.port ++ b'/' ∷ encode_pubkey o base32z_upper a.pubkey))
        ≡ ok (record a { protocol = tcp_curve })
  unfolding parse_rest parse_tcp
  qr_curve no_socket k =
      let key = encode_pubkey o base32z_upper a.pubkey in
      rw
        (
          all-append in_qr (shown a) (b':' ∷ (decimal a.port ++ b'/' ∷ key)),
          all-append in_qr (decimal a.port) (b'/' ∷ key),
          s.shown_in_qr,
          decimal-in_qr a.port,
          k.upper_in_qr,
          s.read_back (decimal a.port ++ b'/' ∷ key),
          parse_port_slash a.port key lo hi,
          decoded_tcp_pubkey o true key a.pubkey (omega (arith, k.upper_size))
              (decode_pubkey-upper o a.pubkey k),
          s.lowered,
        )
        (cc)

not_empty_end : (s : Bytes) (c : ℕ) (t : Bytes) → is_empty (s ++ c ∷ t) ≡ false
not_empty_end [] c t = refl
not_empty_end (b ∷ s) c t = refl

ne_empty : (host : Bytes) → host_ok host ≡ true → is_empty host ≡ false
ne_empty [] h = absurd (cc)
ne_empty (c ∷ s) h = refl

module _ (o : Oxenc) (a : Address) (named : qr_host_ok a.host ≡ true) where
  qr_tcp_back :
      a.protocol ≡ tcp → IsTcp a → a.pubkey ≡ [] → (qr_address o a >>= parse_address o) ≡ ok a
  unfolding qr_address parse_address
  qr_tcp_back e t no_key =
      rw (e, ne_empty a.host t.host_valid, not_empty_end (shown a) b':' (decimal a.port ++ []))
        (qr_tcp o a (qr_host_ok-Shown a.host named) t.port_pos t.port_max t.no_socket no_key)

  qr_curve_back :
      a.protocol ≡ tcp_curve
      → IsTcp a
      → Codec o a.pubkey
      → (qr_address o a >>= parse_address o) ≡ ok a
  unfolding qr_address parse_address
  qr_curve_back e t k =
      rw
        (
          e,
          ne_empty a.host t.host_valid,
          not_empty_end (shown a) b':'
              (decimal a.port ++ b'/' ∷ encode_pubkey o base32z_upper a.pubkey),
        )
        (qr_curve o a (qr_host_ok-Shown a.host named) t.port_pos t.port_max t.no_socket k)

  qr_back :
      (p : Proto)
      → a.protocol ≡ p
      → tcp_proto p ≡ true
      → Shape p a
      → (curve_proto p ≡ true → Codec o a.pubkey)
      → (qr_address o a >>= parse_address o) ≡ ok a
  qr_back tcp e t (s, no_key) k = qr_tcp_back e s no_key
  qr_back tcp_curve e t s k = qr_curve_back e s (k refl)
  qr_back ipc e t s k = absurd (cc)
  qr_back ipc_curve e t s k = absurd (cc)

-- A well-formed TCP address whose host is in lower case, and is an IPv6 address or made of letters,
-- digits, `.`, `-` and `/`, has a QR address, which is read back as the same address, where oxenc
-- reads back its key from base32z in upper case.
pub parse_address-qr_address :
    (o : Oxenc) (a : Address)
    → is_tcp a ≡ true
    → IsWellFormed a
    → qr_host_ok a.host ≡ true
    → (is_curve a ≡ true → Codec o a.pubkey)
    → (qr_address o a >>= parse_address o) ≡ ok a
parse_address-qr_address o a t w named k = qr_back o a named a.protocol refl t w k
