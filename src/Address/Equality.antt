-- ===== src/Address/Equality.antt =====
-- `operator==` of addresses, the text that `std::hash<address>` hashes, and `set_pubkey`.
use oxen_mq.Common.{
  ℕ, ◌≡◌, ◌≢◌, ◌↔◌, refl, sym, ap, ◌∙◌, true, false, not, inl, inr, [], ◌∷◌, Bytes, bytes_eq_refl,
  eq_of_bytes_eq, length, is_empty, ◌==◌, Result, ok, err, arith, Bool-cases, ◌⊎◌, subst,
}
use oxen_mq.Address.{
  Proto, tcp, tcp_curve, ipc, ipc_curve, Encoding, Address, Oxenc, Exception, invalid_argument,
  same_proto, same_address, set_pubkey, full_address, zmq_address, print, is_tcp, is_curve,
  tcp_proto, curve_proto, plain_proto, encrypted_proto,
}
use oxen_mq.Address.WellFormed.{Shape, IsWellFormed}

eq_of_same_proto : (p q : Proto) → same_proto p q ≡ true → p ≡ q
eq_of_same_proto tcp tcp h = refl
eq_of_same_proto tcp_curve tcp_curve h = refl
eq_of_same_proto ipc ipc h = refl
eq_of_same_proto ipc_curve ipc_curve h = refl
eq_of_same_proto _ _ h = absurd (cc)

same_proto_refl : (p : Proto) → same_proto p p ≡ true
same_proto_refl tcp = refl
same_proto_refl tcp_curve = refl
same_proto_refl ipc = refl
same_proto_refl ipc_curve = refl

-- The fields that a protocol uses, in two addresses.
abbrev Agrees : Proto → Address → Address → Type 0
Agrees tcp a b = (a.host ≡ b.host) × (a.port ≡ b.port)
Agrees tcp_curve a b = (a.host ≡ b.host) × (a.port ≡ b.port) × (a.pubkey ≡ b.pubkey)
Agrees ipc a b = a.socket ≡ b.socket
Agrees ipc_curve a b = (a.socket ≡ b.socket) × (a.pubkey ≡ b.pubkey)

fields_agree :
    (p : Proto) (a b : Address)
    → a.protocol ≡ p
    → b.protocol ≡ p
    → same_address a b ≡ true
    → Agrees p a b
unfolding same_address
fields_agree tcp a b e f h = ground (arith, eq_of_bytes_eq a.host b.host)
fields_agree tcp_curve a b e f h =
    ground (arith, eq_of_bytes_eq a.host b.host, eq_of_bytes_eq a.pubkey b.pubkey)
fields_agree ipc a b e f h = ground (arith, eq_of_bytes_eq a.socket b.socket)
fields_agree ipc_curve a b e f h =
    ground (arith, eq_of_bytes_eq a.socket b.socket, eq_of_bytes_eq a.pubkey b.pubkey)

same_address_fields :
    (a b : Address) → same_address a b ≡ true → (a.protocol ≡ b.protocol) × Agrees a.protocol a b
same_address_fields a b h =
    let e = eq_of_same_proto a.protocol b.protocol (unfold same_address in ground arith) in
    (e, fields_agree a.protocol a b refl (sym e) h)

-- Equal addresses have the same text, in any encoding, and so the same hash.
pub full_address-same_address :
    (o : Oxenc) (enc : Encoding) (a b : Address)
    → same_address a b ≡ true
    → full_address o enc a ≡ full_address o enc b
unfolding full_address
full_address-same_address o enc a b h =
    let (e, f) = same_address_fields a b h in print_same a.protocol f ∙ ap (λ p. print o p enc b) e
  where
    print_same : (p : Proto) → Agrees p a b → print o p enc a ≡ print o p enc b
    print_same tcp (e, f) = rw (e, f) refl
    print_same tcp_curve (e, f, g) = rw (e, f, g) refl
    print_same ipc e = rw e refl
    print_same ipc_curve (e, f) = rw (e, f) refl

same_address_refl : (a : Address) → same_address a a ≡ true
unfolding same_address
same_address_refl a = ground (
  arith,
  bytes_eq_refl a.host,
  bytes_eq_refl a.socket,
  bytes_eq_refl a.pubkey,
  same_proto_refl a.protocol,
)

shapes_agree :
    (p : Proto) (a b : Address)
    → a.protocol ≡ p
    → b.protocol ≡ p
    → Shape p a
    → Shape p b
    → Agrees p a b
    → a ≡ b
shapes_agree tcp a b e f (s, k) (t, l) (g, h) = ground arith
shapes_agree tcp_curve a b e f s t (g, h, k) = ground arith
shapes_agree ipc a b e f (s, n, k) (t, m, l) g = ground arith
shapes_agree ipc_curve a b e f s t (g, h) = ground arith

-- On well-formed addresses, such as the parser returns, `==` is equality.
pub same_address_iff :
    (a b : Address) → IsWellFormed a → IsWellFormed b → (same_address a b ≡ true) ↔ (a ≡ b)
same_address_iff a b v w = (
  λ h.
      let (e, f) = same_address_fields a b h in
      shapes_agree a.protocol a b refl (sym e) v (subst (λ p. Shape p b) (sym e) w) f,
  λ e. rw e (same_address_refl b),
)

-- What `set_pubkey` may return.
abbrev pub KeySet : Bytes → Address → Result Exception Address → Type 0
KeySet pk a (err x) = (length pk ≢ 0) × (length pk ≢ 32) × (x ≡ invalid_argument)
KeySet pk a (ok b) =
    ((length pk ≡ 0) ⊎ (length pk ≡ 32))
    × (b.pubkey ≡ pk)
    × (is_curve b ≡ not (is_empty pk))
    × (is_tcp b ≡ is_tcp a)
    × (b.host ≡ a.host)
    × (b.port ≡ a.port)
    × (b.socket ≡ a.socket)
    × (zmq_address b ≡ zmq_address a)

-- Changing only the encryption and the key.
rekeyed :
    (pk : Bytes) (a : Address) (p : Proto)
    → ((length pk ≡ 0) ⊎ (length pk ≡ 32))
    → curve_proto p ≡ not (is_empty pk)
    → tcp_proto p ≡ is_tcp a
    → KeySet pk a (ok (record a { protocol = p; pubkey = pk }))
unfolding zmq_address
rekeyed pk a p n c t = (n, refl, c, t, refl, refl, refl, rw t refl)

curve-plain : (p : Proto) → curve_proto (plain_proto p) ≡ false
curve-plain tcp = refl
curve-plain tcp_curve = refl
curve-plain ipc = refl
curve-plain ipc_curve = refl

tcp-plain : (p : Proto) → tcp_proto (plain_proto p) ≡ tcp_proto p
tcp-plain tcp = refl
tcp-plain tcp_curve = refl
tcp-plain ipc = refl
tcp-plain ipc_curve = refl

curve-encrypted : (p : Proto) → curve_proto (encrypted_proto p) ≡ true
curve-encrypted tcp = refl
curve-encrypted tcp_curve = refl
curve-encrypted ipc = refl
curve-encrypted ipc_curve = refl

tcp-encrypted : (p : Proto) → tcp_proto (encrypted_proto p) ≡ tcp_proto p
tcp-encrypted tcp = refl
tcp-encrypted tcp_curve = refl
tcp-encrypted ipc = refl
tcp-encrypted ipc_curve = refl

length-is_empty : (s : Bytes) (n : ℕ) → length s ≡ n → is_empty s ≡ (n == 0)
length-is_empty [] n e = ground arith
length-is_empty (c ∷ s) n e = ground arith

-- `set_pubkey` accepts no bytes and 32 bytes, and throws `std::invalid_argument`
-- for any other number. It stores them, the connection is encrypted just if
-- there are some, and the transport, the host, the port, the path and the zmq address stay.
pub set_pubkey-KeySet : (pk : Bytes) (a : Address) → KeySet pk a (set_pubkey pk a)
unfolding set_pubkey
set_pubkey-KeySet pk a = elim (Bool-cases (length pk == 0)) [
  | inl z ↦ rw z (
      rekeyed pk a (plain_proto a.protocol) (inl (ground arith))
        (curve-plain a.protocol ∙ ap not (sym (length-is_empty pk 0 (ground arith))))
        (tcp-plain a.protocol))
  | inr n ↦ elim (Bool-cases (length pk == 32)) [
    | inl k ↦
        rw (n, k)
          (rekeyed pk a (encrypted_proto a.protocol) (inr (ground arith))
            (curve-encrypted a.protocol ∙ ap not (sym (length-is_empty pk 32 (ground arith))))
            (tcp-encrypted a.protocol))
    | inr m ↦ rw (n, m) (ground arith, ground arith, refl)
  ]
]
