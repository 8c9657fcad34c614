-- ===== src/Address/Parse.antt =====
-- oxenmq/address.cpp: parsing. A function that advances a `string_view` returns what is left of it.
-- A position is a split of the text: the part before it and the part from it on, empty for `npos`.
use oxen_mq.Common.{
  ℕ, suc, ◌+◌, ◌-◌, ◌^◌, Bool, true, false, not, ◌&&◌, ◌||◌, Option, none, some, [], ◌∷◌, ◌++◌, map,
  Bytes, bytes, bytes_eq, length, get_elem?, is_empty, if◌then◌else◌, ltb, leb, ◌==◌, take, drop,
  take_while, drop_while, all, back, between, is_digit, spelled, to_lower, Result, ok, err, ◌>>◌,
  ◌>>=◌, throw_if,
}
use oxen_mq.Address.{
  Proto, tcp, tcp_curve, ipc, ipc_curve, Address, Exception, invalid_argument, out_of_range, Oxenc,
  default_address, curve_proto, tcp_proto, enc_length, base64, base32z, set_pubkey,
}

abbrev pub int_max : ℕ
int_max = 2 ^ 31 - 1

-- `std::stoi` of a text that begins with no space or sign: the number, and how many bytes it took.
unfoldable pub stoi : Bytes → Result Exception (ℕ × ℕ)
stoi s =
    let digits = take_while is_digit s in
    let n = spelled digits 0 in
    if is_empty digits
    then err invalid_argument
    else if ltb int_max n
    then err out_of_range
    else ok (n, length digits)

-- ":.1234567890abcdefABCDEF".
abbrev pub in_ipv6 : ℕ → Bool
in_ipv6 c = c == b':' || c == b'.' || is_digit c || between b'a' b'f' c || between b'A' b'F' c

abbrev pub not_colon : ℕ → Bool
not_colon c = not (c == b':')

-- What `c == from` turns into `to`, for QR addresses.
abbrev pub ipv6_end : Bool → ℕ → ℕ → ℕ → ℕ
ipv6_end qr from to c = if qr && c == from then to else c

-- The host and what follows it: an IPv6 address in brackets, or all before the first colon.
unfoldable pub close_ipv6 : Bool → ℕ → Bytes → Bytes → Result Exception (Bytes × Bytes)
close_ipv6 qr open_end inner [] = err invalid_argument
close_ipv6 qr open_end inner (c ∷ rest) =
    if c == b']' || (qr && c == b'$')
    then ok (ipv6_end qr b'$' b'[' open_end ∷ (inner ++ ipv6_end qr b'$' b']' c ∷ []), rest)
    else err invalid_argument

unfoldable pub named_host : Bytes → Bytes → Result Exception (Bytes × Bytes)
named_host host [] = err invalid_argument
named_host [] (c ∷ rest) = err invalid_argument
named_host (h ∷ host) (c ∷ rest) = ok (h ∷ host, c ∷ rest)

unfoldable pub parse_host : Bool → Bytes → Result Exception (Bytes × Bytes)
unfolding close_ipv6 named_host
parse_host qr [] = err invalid_argument
parse_host qr (c ∷ addr) =
    if c == b'[' || (qr && c == b'$')
    then close_ipv6 qr c (take_while in_ipv6 addr) (drop_while in_ipv6 addr)
    else named_host (take_while not_colon (c ∷ addr)) (drop_while not_colon (c ∷ addr))

-- The number after `:`.
unfoldable pub parse_port : Bytes → Result Exception (ℕ × Bytes)
unfolding stoi spelled
parse_port [] = err invalid_argument
parse_port (c ∷ addr) = do
  throw_if (is_empty addr || not (c == b':')) invalid_argument
  throw_if (is_empty (take_while is_digit addr)) invalid_argument
  (port_int, processed) ← stoi (take_while is_digit addr)
  throw_if (port_int == 0 || not (processed == length (take_while is_digit addr))) invalid_argument
  throw_if (ltb 65535 port_int) invalid_argument
  ok (port_int, drop_while is_digit addr)

abbrev pub upper_or_digit : ℕ → Bool
upper_or_digit c = between b'A' b'Z' c || is_digit c

-- The characters of a QR address.
abbrev pub in_qr : ℕ → Bool
in_qr c = upper_or_digit c || c == b'$' || c == b':' || c == b'/' || c == b'.' || c == b'-'

-- An `=` after a key in base64 is eaten.
abbrev pub eat_padding : Bytes → Bytes
eat_padding [] = []
eat_padding (c ∷ s) = if c == b'=' then s else c ∷ s

-- The protocol of a scheme, and whether it is a QR address.
unfoldable pub scheme : Bytes → Option (Proto × Bool)
scheme pro =
    if bytes_eq pro (bytes "tcp")
    then some (tcp, false)
    else if bytes_eq pro (bytes "tcp+curve") || bytes_eq pro (bytes "curve")
    then some (tcp_curve, false)
    else if bytes_eq pro (bytes "ipc")
    then some (ipc, false)
    else if bytes_eq pro (bytes "ipc+curve")
    then some (ipc_curve, false)
    else if bytes_eq pro (bytes "TCP")
    then some (tcp, true)
    else if bytes_eq pro (bytes "CURVE")
    then some (tcp_curve, true)
    else none

-- `find("://")`: the text before its first occurrence, and the text after it.
abbrev pub has_prefix : Bytes → Bytes → Bool
has_prefix [] s = true
has_prefix (p ∷ ps) [] = false
has_prefix (p ∷ ps) (c ∷ s) = p == c && has_prefix ps s

unfoldable pub split_scheme : Bytes → Option (Bytes × Bytes)
split_scheme [] = none
split_scheme (c ∷ s) =
    if has_prefix (bytes "://") (c ∷ s)
    then some ([], drop 3 (c ∷ s))
    else elim (split_scheme s) [ none ↦ none | some r ↦ some (c ∷ r.0, r.1) ]

-- `addr[addr.size() - k - 1] == '/'`, for a text of more than k bytes.
abbrev pub slash_before : ℕ → Bytes → Bool
slash_before k addr = elim (get_elem? addr (length addr - k - 1)) [
  | none ↦ false
  | some c ↦ c == b'/'
]

-- The text without its last k + 1 bytes, and its last k.
abbrev pub before_last : ℕ → Bytes → Bytes
before_last k addr = take (length addr - k - 1) addr

abbrev pub last_bytes : ℕ → Bytes → Bytes
last_bytes k addr = drop (length addr - k) addr

module _ (o : Oxenc) where
  open o use {is_hex, from_hex, is_base32z, from_base32z, is_base64, from_base64}

  unfoldable pub decode_pubkey : Bool → Bytes → Result Exception (Bytes × Bytes)
  decode_pubkey qr s =
      if leb 64 (length s) && is_hex (take 64 s)
      then ok (from_hex (take 64 s), drop 64 s)
      else if leb 52 (length s) && is_base32z (take 52 s)
      then ok (from_base32z (take 52 s), drop 52 s)
      else if not qr && (leb 43 (length s) && is_base64 (take 43 s))
      then ok (from_base64 (take 43 s), eat_padding (drop 43 s))
      else err invalid_argument

  -- What follows the port.
  unfoldable pub parse_tcp_pubkey : Bool → Bool → Bytes → Result Exception Bytes
  unfolding decode_pubkey
  parse_tcp_pubkey qr false addr = do throw_if (not (is_empty addr)) invalid_argument; ok []
  parse_tcp_pubkey qr true [] = err invalid_argument
  parse_tcp_pubkey qr true (c ∷ addr) = do
    throw_if
        (ltb (suc (length addr)) (1 + enc_length (if qr then base32z else base64))
          || not (c == b'/'))
        invalid_argument
    (pubkey, rest) ← decode_pubkey qr addr
    throw_if (not (is_empty rest)) invalid_argument
    ok pubkey

  -- The host, the port and the public key, of a text that is used up.
  unfoldable pub parse_tcp : Bool → Bool → Bytes → Result Exception (Bytes × (ℕ × Bytes))
  unfolding parse_host parse_port parse_tcp_pubkey
  parse_tcp qr expect_pubkey addr = do
    (host, after_host) ← parse_host qr addr
    (port, after_port) ← parse_port after_host
    pubkey ← parse_tcp_pubkey qr expect_pubkey after_port
    ok ((if qr then map to_lower host else host), (port, pubkey))

  -- The path and the public key.
  unfoldable pub parse_unix : Bool → Bytes → Result Exception (Bytes × Bytes)
  parse_unix false addr = ok (addr, [])
  parse_unix true addr =
      let b64_len = if back addr 0 == b'=' then 44 else 43 in
      if ltb 64 (length addr) && (slash_before 64 addr && is_hex (last_bytes 64 addr))
      then ok (before_last 64 addr, from_hex (last_bytes 64 addr))
      else if ltb 52 (length addr) && (slash_before 52 addr && is_base32z (last_bytes 52 addr))
      then ok (before_last 52 addr, from_base32z (last_bytes 52 addr))
      else if ltb b64_len (length addr)
          && (slash_before b64_len addr && is_base64 (last_bytes b64_len addr))
      then ok (before_last b64_len addr, from_base64 (last_bytes b64_len addr))
      else err invalid_argument

  -- The parts that the two kinds of address tie to the result of the parse.
  unfoldable pub parse_tcp_rest : Proto → Bool → Bytes → Result Exception Address
  unfolding parse_tcp
  parse_tcp_rest protocol qr addr = do
    (host, (port, pubkey)) ← parse_tcp qr (curve_proto protocol) addr
    ok (record default_address { protocol = protocol; host = host; port = port; pubkey = pubkey })

  unfoldable pub parse_unix_rest : Proto → Bytes → Result Exception Address
  unfolding parse_unix
  parse_unix_rest protocol addr = do
    (socket, pubkey) ← parse_unix (curve_proto protocol) addr
    ok (record default_address { protocol = protocol; socket = socket; pubkey = pubkey })

  -- After the scheme.
  unfoldable pub parse_rest : Proto → Bool → Bytes → Result Exception Address
  unfolding parse_tcp_rest parse_unix_rest
  parse_rest protocol qr addr =
      if qr && not (all in_qr addr)
      then err invalid_argument
      else if tcp_proto protocol
      then parse_tcp_rest protocol qr addr
      else parse_unix_rest protocol addr

  -- The constructor of a text.
  unfoldable pub parse_address : Bytes → Result Exception Address
  unfolding parse_rest split_scheme scheme
  parse_address addr = elim (split_scheme addr) [
    | none ↦ err invalid_argument
    | some (pro, value) ↦
        if is_empty pro
        then err invalid_argument
        else if is_empty value
        then err invalid_argument
        else elim (scheme pro) [
          | none ↦ err invalid_argument
          | some (protocol, qr) ↦ parse_rest protocol qr value
        ]
  ]

  -- The constructor of a text and a public key.
  unfoldable pub parse_address_with : Bytes → Bytes → Result Exception Address
  unfolding parse_address set_pubkey
  parse_address_with addr pubkey = do a ← parse_address addr; set_pubkey pubkey a
