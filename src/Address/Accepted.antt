-- ===== src/Address/Accepted.antt =====
-- What the parser accepts is well-formed: hosts, ports, and the fields that a protocol leaves empty.
use oxen_mq.Common.{
  ℕ, ◌≤◌, ◌≡◌, ◌≢◌, ◌⊎◌, refl, sym, Bool, true, false, not, ◌&&◌, ◌||◌, inl, inr, [], ◌∷◌, ◌++◌,
  map, Bytes, is_empty, if◌then◌else◌, ◌==◌, take_while, drop_while, all, to_lower,
  drop_while-append, all-take_while, all-map, Result, ok, ◌>>=◌, >>=-ok, ok_inj, subst, arith,
  Bool-cases, Option-cases,
}
use mathlib.Core.List.{map-append}
use oxen_mq.Address.{
  Proto, tcp, tcp_curve, ipc, ipc_curve, Address, Oxenc, Encoding, full_address, tcp_proto,
  is_curve, Exception,
}
use oxen_mq.Address.Parse.{
  parse_port, parse_host, close_ipv6, named_host, in_ipv6, not_colon, ipv6_end, parse_tcp,
  parse_tcp_pubkey, parse_unix, parse_tcp_rest, parse_unix_rest, parse_rest, parse_address,
  split_scheme, scheme, in_qr,
}
use oxen_mq.Address.Keys.{Codec, Alphabets}
use oxen_mq.Address.WellFormed.{host_ok, IsTcp, Shape, IsWellFormed}
use oxen_mq.Address.Decimals.{closes_split}
use oxen_mq.Address.RoundTrip.{parse_address-full_address}

host_ok_bracketed :
    (inner : Bytes) → all in_ipv6 inner ≡ true → host_ok (b'[' ∷ (inner ++ b']' ∷ [])) ≡ true
host_ok_bracketed inner h = rw (drop_while-append in_ipv6 inner b']' [] h refl) refl

close_ipv6-host_ok :
    (qr : Bool) (open_end : ℕ) (inner s : Bytes) {host rest : Bytes}
    → (open_end == b'[' || (qr && open_end == b'$')) ≡ true
    → all in_ipv6 inner ≡ true
    → close_ipv6 qr open_end inner s ≡ ok (host, rest)
    → host_ok host ≡ true
unfolding close_ipv6
close_ipv6-host_ok qr open_end inner [] o v e = absurd (cc)
close_ipv6-host_ok qr open_end inner (c ∷ s) {host} o v e =
    elim (Bool-cases (c == b']' || (qr && c == b'$'))) [
      | inr bad ↦ absurd (cc (rw bad at e))
      | inl good ↦
          let first : ipv6_end qr b'$' b'[' open_end ≡ b'[' = ground arith in
          let last : ipv6_end qr b'$' b']' c ≡ b']' = ground arith in
          let same : host ≡ b'[' ∷ (inner ++ b']' ∷ []) = cc (rw good at e) in
          rw same (host_ok_bracketed inner v)
    ]

named_host-host_ok :
    (c : ℕ) (name s : Bytes) {host rest : Bytes}
    → (c == b'[') ≡ false
    → all not_colon name ≡ true
    → (name ≡ []) ⊎ ((t : Bytes) × (name ≡ c ∷ t))
    → named_host name s ≡ ok (host, rest)
    → host_ok host ≡ true
unfolding named_host
named_host-host_ok c name [] plain v shape e = absurd (cc)
named_host-host_ok c [] (d ∷ s) plain v shape e = absurd (cc)
named_host-host_ok c (h ∷ name) (d ∷ s) plain v (inl none') e = absurd (cc)
named_host-host_ok c (h ∷ name) (d ∷ s) {host} plain v (inr (t, same)) e =
    let first : h ≡ c = cc in
    let whole : h ∷ name ≡ host = cc in
    let hp : (h == b'[') ≡ false = rw first plain in rw (← whole) (rw hp v)

take_while-shape :
    (p : ℕ → Bool) (c : ℕ) (s : Bytes)
    → (take_while p (c ∷ s) ≡ []) ⊎ ((t : Bytes) × (take_while p (c ∷ s) ≡ c ∷ t))
take_while-shape p c s = elim (Bool-cases (p c)) [
  | inl e ↦ inr (take_while p s, rw e refl)
  | inr e ↦ inl (rw e refl)
]

parse_host-host_ok :
    (qr : Bool) (addr : Bytes) {host rest : Bytes}
    → parse_host qr addr ≡ ok (host, rest)
    → host_ok host ≡ true
unfolding parse_host
parse_host-host_ok qr [] e = absurd (cc)
parse_host-host_ok qr (c ∷ addr) e = elim (Bool-cases (c == b'[' || (qr && c == b'$'))) [
  | inl o ↦
      close_ipv6-host_ok qr c (take_while in_ipv6 addr) (drop_while in_ipv6 addr) o
        (all-take_while in_ipv6 addr) (rw o at e)
  | inr n ↦
      named_host-host_ok c (take_while not_colon (c ∷ addr)) (drop_while not_colon (c ∷ addr))
        (ground arith) (all-take_while not_colon (c ∷ addr)) (take_while-shape not_colon c addr)
        (rw n at e)
]

in_ipv6-to_lower : (c : ℕ) → in_ipv6 c ≡ true → in_ipv6 (to_lower c) ≡ true
in_ipv6-to_lower c h = ground arith

not_colon-to_lower : (c : ℕ) → not_colon c ≡ true → not_colon (to_lower c) ≡ true
not_colon-to_lower c h = ground arith

to_lower-ne : (c : ℕ) → (c == b'[') ≡ false → (to_lower c == b'[') ≡ false
to_lower-ne c h = ground arith

host_ok-map-to_lower : (host : Bytes) → host_ok host ≡ true → host_ok (map to_lower host) ≡ true
host_ok-map-to_lower [] h = absurd (cc)
host_ok-map-to_lower (c ∷ s) h = elim (Bool-cases (c == b'[')) [
  | inl o ↦
      let (inner, v, e) = closes_split s (rw o at h) in
      let bracket : c ≡ b'[' = ground arith in
      rw (bracket, e, map-append to_lower inner (b']' ∷ []))
        (host_ok_bracketed (map to_lower inner)
          (all-map in_ipv6 in_ipv6 to_lower inner in_ipv6-to_lower v))
  | inr n ↦
      rw (to_lower-ne c n)
        (all-map not_colon not_colon to_lower (c ∷ s) not_colon-to_lower (rw n at h))
]

-- The number of an accepted port.
parse_port_range :
    (s : Bytes) {n : ℕ} {rest : Bytes} → parse_port s ≡ ok (n, rest) → (1 ≤ n) × (n ≤ 65535)
unfolding parse_port
parse_port_range [] e = absurd (cc)
parse_port_range (c ∷ s) e = ground arith

if_host_ok :
    (qr : Bool) (host : Bytes)
    → host_ok host ≡ true
    → host_ok (if qr then map to_lower host else host) ≡ true
if_host_ok true host h = host_ok-map-to_lower host h
if_host_ok false host h = h

IsTcp-shape :
    {a : Address} → host_ok a.host ≡ true → 1 ≤ a.port → a.port ≤ 65535 → a.socket ≡ [] → IsTcp a
IsTcp-shape v lo hi e = record { host_valid = v; port_pos = lo; port_max = hi; no_socket = e }

ne_of_is_empty : (s : Bytes) → is_empty s ≡ false → s ≢ []
ne_of_is_empty [] n e = absurd (cc)
ne_of_is_empty (c ∷ s) n e = absurd (cc)

Shape-of : {p : Proto} (a : Address) → (a.protocol ≡ p) × Shape p a → IsWellFormed a
Shape-of a (same, s) = subst (λ p. Shape p a) (sym same) s

module _ (o : Oxenc) where
  plain_no_pubkey :
      (qr : Bool) (s : Bytes) {pk : Bytes} → parse_tcp_pubkey o qr false s ≡ ok pk → pk ≡ []
  unfolding parse_tcp_pubkey
  plain_no_pubkey qr s e = ground arith

  -- What the parts of an accepted `host:port` or `host:port/key` are.
  abbrev Accepts : Bool → Bytes × (ℕ × Bytes) → Type 0
  Accepts k r = (host_ok r.0 ≡ true) × (1 ≤ r.1.0) × (r.1.0 ≤ 65535) × (k ≡ false → r.1.1 ≡ [])

  abbrev parts : Bool → Bytes → ℕ → Bytes → Result Exception (Bytes × (ℕ × Bytes))
  parts qr host port pk = ok ((if qr then map to_lower host else host), (port, pk))

  no_pubkey :
      (qr k : Bool) (s : Bytes) {pk : Bytes}
      → parse_tcp_pubkey o qr k s ≡ ok pk
      → k ≡ false
      → pk ≡ []
  no_pubkey qr false s e h = plain_no_pubkey qr s e
  no_pubkey qr true s e h = absurd (cc)

  parse_tcp-Accepts :
      (qr k : Bool) (s : Bytes) (r : Bytes × (ℕ × Bytes)) → parse_tcp o qr k s ≡ ok r → Accepts k r
  unfolding parse_tcp
  parse_tcp-Accepts qr k s r e = after_host (>>=-ok (parse_host qr s) _ e)
    where
      after_key :
          (h : Bytes × Bytes) (n : ℕ × Bytes)
          → host_ok h.0 ≡ true
          → (1 ≤ n.0) × (n.0 ≤ 65535)
          → (pk : Bytes) × (parse_tcp_pubkey o qr k n.1 ≡ ok pk) × (parts qr h.0 n.0 pk ≡ ok r)
          → Accepts k r
      after_key h n v b (pk, key, same) =
          subst (Accepts k) (ok_inj same) (if_host_ok qr h.0 v, b.0, b.1, no_pubkey qr k n.1 key)

      after_port :
          (h : Bytes × Bytes)
          → host_ok h.0 ≡ true
          → (n : ℕ × Bytes) × (parse_port h.1 ≡ ok n)
            × ((parse_tcp_pubkey o qr k n.1 >>= λ pk. parts qr h.0 n.0 pk) ≡ ok r)
          → Accepts k r
      after_port h v (n, port, e1) =
          after_key h n v (parse_port_range h.1 port) (>>=-ok (parse_tcp_pubkey o qr k n.1) _ e1)

      after_host :
          (h : Bytes × Bytes) × (parse_host qr s ≡ ok h)
            × ((parse_port h.1 >>= λ n. parse_tcp_pubkey o qr k n.1 >>= λ pk. parts qr h.0 n.0 pk)
                ≡ ok r)
          → Accepts k r
      after_host (h, host, e1) =
          after_port h (parse_host-host_ok qr s host) (>>=-ok (parse_port h.1) _ e1)

  parse_tcp_rest-Shape :
      (p : Proto) (qr : Bool) (s : Bytes) {a : Address}
      → tcp_proto p ≡ true
      → parse_tcp_rest o p qr s ≡ ok a
      → (a.protocol ≡ p) × Shape p a
  unfolding parse_tcp_rest
  parse_tcp_rest-Shape tcp qr s t e =
      let (r, parsed, built) = >>=-ok (parse_tcp o qr false s) _ e in
      let (valid, lo, hi, none') = parse_tcp-Accepts qr false s r parsed in
      subst (λ (x : Address). (x.protocol ≡ tcp) × Shape tcp x) (ok_inj built)
        (refl, (IsTcp-shape valid lo hi refl, none' refl))
  parse_tcp_rest-Shape tcp_curve qr s t e =
      let (r, parsed, built) = >>=-ok (parse_tcp o qr true s) _ e in
      let (valid, lo, hi, none') = parse_tcp-Accepts qr true s r parsed in
      subst (λ (x : Address). (x.protocol ≡ tcp_curve) × Shape tcp_curve x) (ok_inj built)
        (refl, IsTcp-shape valid lo hi refl)
  parse_tcp_rest-Shape ipc qr s t e = absurd (cc)
  parse_tcp_rest-Shape ipc_curve qr s t e = absurd (cc)

  parse_unix_rest-Shape :
      (p : Proto) (s : Bytes) {a : Address}
      → tcp_proto p ≡ false
      → is_empty s ≡ false
      → parse_unix_rest o p s ≡ ok a
      → (a.protocol ≡ p) × Shape p a
  unfolding parse_unix_rest
  parse_unix_rest-Shape tcp s t n e = absurd (cc)
  parse_unix_rest-Shape tcp_curve s t n e = absurd (cc)
  parse_unix_rest-Shape ipc s t n e =
      subst (λ (x : Address). (x.protocol ≡ ipc) × Shape ipc x) (ok_inj (unfold parse_unix in e))
        (refl, (record { no_host = refl; no_port = refl }, ne_of_is_empty s n, refl))
  parse_unix_rest-Shape ipc_curve s t n e =
      let (r, parsed, built) = >>=-ok (parse_unix o true s) _ e in
      subst (λ (x : Address). (x.protocol ≡ ipc_curve) × Shape ipc_curve x) (ok_inj built)
        (refl, record { no_host = refl; no_port = refl })

  parse_rest-Shape :
      (p : Proto) (qr : Bool) (s : Bytes) {a : Address}
      → is_empty s ≡ false
      → parse_rest o p qr s ≡ ok a
      → (a.protocol ≡ p) × Shape p a
  unfolding parse_rest
  parse_rest-Shape p qr s n e = elim (Bool-cases (qr && not (all in_qr s))) [
    | inl bad ↦ absurd (cc (rw bad at e))
    | inr good ↦ elim (Bool-cases (tcp_proto p)) [
      | inl t ↦ parse_tcp_rest-Shape p qr s t (rw (good, t) at e)
      | inr u ↦ parse_unix_rest-Shape p s u n (rw (good, u) at e)
    ]
  ]

  -- Every accepted text gives a well-formed address: a host of one of the two forms, a port from 1
  -- to 65535, and nothing in the fields that the protocol does not use.
  pub parse_address-IsWellFormed :
      (s : Bytes) {a : Address} → parse_address o s ≡ ok a → IsWellFormed a
  unfolding parse_address
  parse_address-IsWellFormed s e = elim (Option-cases (split_scheme s)) [
    | inl n ↦ absurd (cc (rw (n, parse_address) at e))
    | inr ((pro, value), split) ↦ elim (Bool-cases (is_empty pro)) [
      | inl b ↦ absurd (cc (rw (split, b, parse_address) at e))
      | inr b ↦ elim (Bool-cases (is_empty value)) [
        | inl c ↦ absurd (cc (rw (split, b, c, parse_address) at e))
        | inr c ↦ elim (Option-cases (scheme pro)) [
          | inl n ↦ absurd (cc (rw (split, b, c, n, parse_address) at e))
          | inr ((p, qr), found) ↦
              Shape-of _
                (parse_rest-Shape p qr value c (rw (split, b, c, found, parse_address) at e))
        ]
      ]
    ]
  ]

  -- So the text that an accepted address prints, in any encoding of its key, is accepted as the same
  -- address, where oxenc reads back that key and uses no `/` in hex and base32z.
  pub parse_address-full_address-parse_address :
      (enc : Encoding) (s : Bytes) {a : Address}
      → parse_address o s ≡ ok a
      → Alphabets o
      → (is_curve a ≡ true → Codec o a.pubkey)
      → parse_address o (full_address o enc a) ≡ ok a
  parse_address-full_address-parse_address enc s {a} e letters k =
      parse_address-full_address o enc a letters (parse_address-IsWellFormed s e) k
