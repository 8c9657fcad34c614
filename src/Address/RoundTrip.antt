-- ===== src/Address/RoundTrip.antt =====
-- `full_address` and the constructor of a text are inverse to each other.
use oxen_mq.Common.{
  ℕ, zero, suc, ◌+◌, ◌-◌, ◌≤◌, ◌<◌, ◌≡◌, ◌≢◌, refl, ◌∙◌, Bool, true, false, some, [], ◌∷◌, ◌++◌,
  Bytes, bytes, length, get_elem?, is_empty, if◌then◌else◌, ltb, ◌==◌, drop, all, back, take_all,
  length-append, ok, arith, decimal, Bool-cases, inl, inr, lt→ltb,
}
use oxen_mq.Address.{
  Proto, tcp, tcp_curve, ipc, ipc_curve, Encoding, hex, base32z, base32z_upper, base64, Address,
  Oxenc, encode_pubkey, print, full_address, enc_length, curve_proto, is_curve,
}
use oxen_mq.Address.Parse.{
  parse_tcp, parse_tcp_pubkey, parse_unix, parse_rest, parse_address, slash_before, before_last,
  last_bytes, decode_pubkey,
}
use oxen_mq.Address.Keys.{
  Codec, Alphabets, not_slash, length-encode_pubkey, decode_pubkey-encode_pubkey, strip_padding_lem,
}
use oxen_mq.Address.WellFormed.{host_ok, Shape, IsWellFormed}
use oxen_mq.Address.Decimals.{parse_host_lem, parse_port_end, parse_port_slash}

-- A path, a slash and the last k bytes.
module _ (path s : Bytes) where
  split_at : (k : ℕ) → length s ≡ k → length (path ++ b'/' ∷ s) ≡ length path + k + 1
  split_at k e = omega (arith, length-append path (b'/' ∷ s))

  get_elem?-slash : (path' : Bytes) → get_elem? (path' ++ b'/' ∷ s) (length path') ≡ some b'/'
  get_elem?-slash [] = refl
  get_elem?-slash (c ∷ path') = get_elem?-slash path'

drop_suc : (path s : Bytes) → drop (length path + 1) (path ++ b'/' ∷ s) ≡ s
drop_suc [] s = refl
drop_suc (c ∷ path) s = ground (arith, drop_suc path s)

module _ (path s : Bytes) (k : ℕ) (e : length s ≡ k) where
  pub slash_before_lem : slash_before k (path ++ b'/' ∷ s) ≡ true
  slash_before_lem =
      let n : length (path ++ b'/' ∷ s) - k - 1 ≡ length path =
        omega (arith, split_at path s k e) in
      rw (n, slash_before, get_elem?-slash path s path) refl

  pub before_last_lem : before_last k (path ++ b'/' ∷ s) ≡ path
  before_last_lem =
      let n : length (path ++ b'/' ∷ s) - k - 1 ≡ length path =
        omega (arith, split_at path s k e) in
      rw (n, take_all path (b'/' ∷ s)) refl

  pub last_bytes_lem : last_bytes k (path ++ b'/' ∷ s) ≡ s
  last_bytes_lem =
      let n : length (path ++ b'/' ∷ s) - k ≡ length path + 1 =
        omega (arith, split_at path s k e) in
      rw (n, drop_suc path s) refl

-- More than the bytes after the slash take the slash along.
drop-slash :
    (path s : Bytes) (n : ℕ) → n ≤ length path → all not_slash (drop n (path ++ b'/' ∷ s)) ≡ false
drop-slash [] s zero h = refl
drop-slash [] s (suc n) h = absurd (omega arith)
drop-slash (c ∷ path) s zero h = ground (arith, drop-slash path s 0)
drop-slash (c ∷ path) s (suc n) h = drop-slash path s n (omega arith)

-- So no codec without a slash accepts them.
refused :
    (valid : Bytes → Bool) (path s : Bytes) (k : ℕ)
    → ((t : Bytes) → valid t ≡ true → all not_slash t ≡ true)
    → length s < k
    → k < length (path ++ b'/' ∷ s)
    → valid (last_bytes k (path ++ b'/' ∷ s)) ≡ false
refused valid path s k law short long =
    elim (Bool-cases (valid (last_bytes k (path ++ b'/' ∷ s)))) [
      | inr e ↦ e
      | inl e ↦
          let n = length (path ++ b'/' ∷ s) - k in
          let m : n ≤ length path = omega (arith, split_at path s (length s) refl) in
          absurd (cc (law _ e, drop-slash path s n m))
    ]

back-append : (path s : Bytes) (c d : ℕ) → back (path ++ c ∷ s) d ≡ back s c
back-append [] s c d = refl
back-append (a ∷ path) s c d = back-append path s c a

-- The last byte of a text that is not empty is that of what follows a slash.
back_cons : (s : Bytes) (c d : ℕ) → 0 < length s → back s c ≡ back s d
back_cons [] c d h = absurd (omega arith)
back_cons (a ∷ s) c d h = refl

back-slash : (path s : Bytes) → 0 < length s → back (path ++ b'/' ∷ s) 0 ≡ back s 0
back-slash path s h = back-append path s b'/' 0 ∙ back_cons s b'/' 0 h

enc_length-ge : (enc : Encoding) → 43 ≤ enc_length enc
enc_length-ge hex = omega arith
enc_length-ge base32z = omega arith
enc_length-ge base32z_upper = omega arith
enc_length-ge base64 = omega arith

-- The three encodings of a key after a path.
module _ (o : Oxenc) (letters : Alphabets o) (path s : Bytes) where
  unix_hex :
      length s ≡ 64
      → o.is_hex s ≡ true
      → parse_unix o true (path ++ b'/' ∷ s) ≡ ok (path, o.from_hex s)
  unfolding parse_unix
  unix_hex n v =
      rw
        (
          slash_before_lem path s 64 n,
          last_bytes_lem path s 64 n,
          before_last_lem path s 64 n,
          v,
          lt→ltb 64 (length (path ++ b'/' ∷ s)) (omega (arith, split_at path s 64 n)),
        )
        refl

  unix_z :
      length s ≡ 52
      → o.is_base32z s ≡ true
      → parse_unix o true (path ++ b'/' ∷ s) ≡ ok (path, o.from_base32z s)
  unfolding parse_unix
  unix_z n v = ground (
    arith,
    slash_before_lem path s 52 n,
    last_bytes_lem path s 52 n,
    before_last_lem path s 52 n,
    refused o.is_hex path s 64 letters.hex_no_slash,
    split_at path s 52 n,
  )

  unix_b64 :
      length s ≡ 43
      → o.is_base64 s ≡ true
      → (back s 0 == b'=') ≡ false
      → parse_unix o true (path ++ b'/' ∷ s) ≡ ok (path, o.from_base64 s)
  unfolding parse_unix
  unix_b64 n v e = ground (
    arith,
    slash_before_lem path s 43 n,
    last_bytes_lem path s 43 n,
    before_last_lem path s 43 n,
    refused o.is_hex path s 64 letters.hex_no_slash,
    refused o.is_base32z path s 52 letters.z_no_slash,
    split_at path s 43 n,
    back-slash path s,
  )

long_enough : (m n : ℕ) → n ≤ m → ltb (suc m) (1 + n) ≡ false
long_enough m n h = ground arith

-- The `/PUBKEY` after a port, for a text that `decode_pubkey` uses up.
pub decoded_tcp_pubkey :
    (o : Oxenc) (qr : Bool) (s pk : Bytes)
    → enc_length (if qr then base32z else base64) ≤ length s
    → decode_pubkey o qr s ≡ ok (pk, [])
    → parse_tcp_pubkey o qr true (b'/' ∷ s) ≡ ok pk
unfolding parse_tcp_pubkey
decoded_tcp_pubkey o qr s pk n d = rw (long_enough (length s) _ n, d) refl

module _ (o : Oxenc) (pk : Bytes) where
  parse_unix-encode_pubkey :
      (enc : Encoding) (path : Bytes)
      → Alphabets o
      → Codec o pk
      → parse_unix o true (path ++ b'/' ∷ encode_pubkey o enc pk) ≡ ok (path, pk)
  parse_unix-encode_pubkey hex path letters k =
      unix_hex o letters path _ k.hex_size k.hex_valid ∙ rw k.hex_back refl
  parse_unix-encode_pubkey base32z path letters k =
      unix_z o letters path _ k.z_size k.z_valid ∙ rw k.z_back refl
  parse_unix-encode_pubkey base32z_upper path letters k =
      unix_z o letters path _ k.upper_size k.upper_valid ∙ rw k.upper_back refl
  parse_unix-encode_pubkey base64 path letters k =
      rw (strip_padding_lem o pk k)
        (unix_b64 o letters path _ k.b64_size k.b64_valid k.b64_end ∙ rw k.b64_back refl)

  parse_tcp_pubkey-encode_pubkey :
      (enc : Encoding)
      → Codec o pk
      → parse_tcp_pubkey o false true (b'/' ∷ encode_pubkey o enc pk) ≡ ok pk
  parse_tcp_pubkey-encode_pubkey enc k =
      decoded_tcp_pubkey o false _ pk
        (omega (arith, enc_length-ge enc, length-encode_pubkey o pk enc k))
        (decode_pubkey-encode_pubkey o pk enc k)

-- The four protocols, on the fields of the address.
module _ (o : Oxenc) where
  tcp_back :
      (host : Bytes) (port : ℕ)
      → host_ok host ≡ true
      → 1 ≤ port
      → port ≤ 65535
      → parse_tcp o false false (host ++ b':' ∷ decimal port) ≡ ok (host, (port, []))
  unfolding parse_tcp
  tcp_back host port h lo hi =
      rw (parse_host_lem host (decimal port) h, parse_port_end port lo hi)
        (unfold parse_tcp_pubkey in refl)

  curve_back :
      (host : Bytes) (port : ℕ) (enc : Encoding) (pk : Bytes)
      → host_ok host ≡ true
      → 1 ≤ port
      → port ≤ 65535
      → Codec o pk
      → parse_tcp o false true (host ++ b':' ∷ (decimal port ++ b'/' ∷ encode_pubkey o enc pk))
        ≡ ok (host, (port, pk))
  unfolding parse_tcp
  curve_back host port enc pk h lo hi k =
      rw
        (
          parse_host_lem host (decimal port ++ b'/' ∷ encode_pubkey o enc pk) h,
          parse_port_slash port (encode_pubkey o enc pk) lo hi,
          parse_tcp_pubkey-encode_pubkey o pk enc k,
        )
        refl

  -- The scheme that `full_address` prints selects the protocol, for a value that is not empty.
  abbrev scheme_text : Proto → Bytes
  scheme_text tcp = bytes "tcp://"
  scheme_text tcp_curve = bytes "curve://"
  scheme_text ipc = bytes "ipc://"
  scheme_text ipc_curve = bytes "ipc+curve://"

  parse_address-scheme :
      (p : Proto) (value : Bytes)
      → is_empty value ≡ false
      → parse_address o (scheme_text p ++ value) ≡ parse_rest o p false value
  unfolding parse_address
  parse_address-scheme tcp value h = rw h refl
  parse_address-scheme tcp_curve value h = rw h refl
  parse_address-scheme ipc value h = rw h refl
  parse_address-scheme ipc_curve value h = rw h refl

ends_not_empty : (s : Bytes) (c : ℕ) (t : Bytes) → is_empty (s ++ c ∷ t) ≡ false
ends_not_empty [] c t = refl
ends_not_empty (a ∷ s) c t = refl

not_empty : (s : Bytes) → s ≢ [] → is_empty s ≡ false
not_empty [] h = absurd (h refl)
not_empty (a ∷ s) h = refl

-- Reading what an address prints gives the fields of its protocol.
module _ (o : Oxenc) (letters : Alphabets o) (enc : Encoding) where
  value_text : Proto → Address → Bytes
  value_text tcp a = a.host ++ b':' ∷ decimal a.port
  value_text tcp_curve a = a.host ++ b':' ∷ (decimal a.port ++ b'/' ∷ encode_pubkey o enc a.pubkey)
  value_text ipc a = a.socket
  value_text ipc_curve a = a.socket ++ b'/' ∷ encode_pubkey o enc a.pubkey

  print-value_text : (p : Proto) (a : Address) → print o p enc a ≡ scheme_text o p ++ value_text p a
  unfolding value_text
  print-value_text tcp a = refl
  print-value_text tcp_curve a = refl
  print-value_text ipc a = refl
  print-value_text ipc_curve a = refl

  value_text-ne : (p : Proto) (a : Address) → Shape p a → is_empty (value_text p a) ≡ false
  unfolding value_text
  value_text-ne tcp a s = ends_not_empty a.host b':' _
  value_text-ne tcp_curve a s = ends_not_empty a.host b':' _
  value_text-ne ipc a s = not_empty a.socket s.1
  value_text-ne ipc_curve a s = ends_not_empty a.socket b'/' _

  value_text-back :
      (p : Proto) (a : Address)
      → Shape p a
      → (curve_proto p ≡ true → Codec o a.pubkey)
      → parse_rest o p false (value_text p a) ≡ ok (record a { protocol = p })
  unfolding value_text parse_rest
  value_text-back tcp a (t, e) k =
      rw (tcp_back o a.host a.port t.host_valid t.port_pos t.port_max) (cc)
  value_text-back tcp_curve a t k =
      rw (curve_back o a.host a.port enc a.pubkey t.host_valid t.port_pos t.port_max (k refl)) (cc)
  value_text-back ipc a (t, n, e) k = unfold parse_unix in cc
  value_text-back ipc_curve a t k =
      rw (parse_unix-encode_pubkey o a.pubkey enc a.socket letters (k refl)) (cc)

-- The text that a well-formed address prints, in any encoding of its key, is read back as the same
-- address, where oxenc reads back that key and uses no `/` in hex and base32z.
pub parse_address-full_address :
    (o : Oxenc) (enc : Encoding) (a : Address)
    → Alphabets o
    → IsWellFormed a
    → (is_curve a ≡ true → Codec o a.pubkey)
    → parse_address o (full_address o enc a) ≡ ok a
unfolding full_address
parse_address-full_address o enc a letters w k = rw (print-value_text o letters enc a.protocol a) (
    parse_address-scheme o a.protocol _ (value_text-ne o letters enc a.protocol a w)
    ∙ value_text-back o letters enc a.protocol a w k)
