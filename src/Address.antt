-- ===== src/Address.antt =====
-- oxenmq/address.h and oxenmq/address.cpp: addresses, their printing, and their comparison. The codecs
-- of the oxenc library are an argument. A byte is a number, an exception has its type and no text.
pub mod Parse
pub mod Keys
pub mod WellFormed
pub mod Decimals
pub mod RoundTrip
pub mod Accepted
pub mod Qr
pub mod Equality
pub mod Ports
use oxen_mq.Common.{
  ℕ, ◌+◌, ◌-◌, Bool, true, false, not, ◌&&◌, ◌||◌, [], ◌∷◌, ◌++◌, map, Bytes, bytes, bytes_eq,
  length, is_empty, if◌then◌else◌, ◌==◌, take, back, to_upper, decimal, Result, ok, err, ◌>>◌,
  throw_if, List,
}

pub data Proto : Type 0 where
  tcp tcp_curve ipc ipc_curve : Proto

pub data Encoding : Type 0 where
  hex base32z base64 base32z_upper : Encoding

pub record Address : Type 0 where
  pub protocol : Proto
  pub host : Bytes
  pub port : ℕ  -- a `uint16_t`
  pub socket : Bytes
  pub pubkey : Bytes

pub data Exception : Type 0 where
  invalid_argument out_of_range logic_error : Exception

-- The functions of oxenc/hex.h, oxenc/base32z.h and oxenc/base64.h that the source calls.
pub record Oxenc : Type 0 where
  pub is_hex : Bytes → Bool
  pub from_hex : Bytes → Bytes
  pub to_hex : Bytes → Bytes
  pub is_base32z : Bytes → Bool
  pub from_base32z : Bytes → Bytes
  pub to_base32z : Bytes → Bytes
  pub is_base64 : Bytes → Bool
  pub from_base64 : Bytes → Bytes
  pub to_base64 : Bytes → Bytes

abbrev pub curve_proto : Proto → Bool
curve_proto tcp = false
curve_proto tcp_curve = true
curve_proto ipc = false
curve_proto ipc_curve = true

abbrev pub tcp_proto : Proto → Bool
tcp_proto tcp = true
tcp_proto tcp_curve = true
tcp_proto ipc = false
tcp_proto ipc_curve = false

-- The methods `curve()`, `tcp()` and `ipc()`.
abbrev pub is_curve : Address → Bool
is_curve a = curve_proto a.protocol

abbrev pub is_tcp : Address → Bool
is_tcp a = tcp_proto a.protocol

abbrev pub is_ipc : Address → Bool
is_ipc a = not (is_tcp a)

-- `address() = default`.
abbrev pub default_address : Address
default_address = record { protocol = tcp; host = []; port = 0; socket = []; pubkey = [] }

-- The factory functions `tcp`, `tcp_curve`, `ipc` and `ipc_curve`.
abbrev pub make_tcp : Bytes → ℕ → Address
make_tcp host port = record default_address { protocol = tcp; host = host; port = port }

abbrev pub make_tcp_curve : Bytes → ℕ → Bytes → Address
make_tcp_curve host port pubkey = record default_address {
  protocol = tcp_curve;
  host = host;
  port = port;
  pubkey = pubkey;
}

abbrev pub make_ipc : Bytes → Address
make_ipc path = record default_address { protocol = ipc; socket = path }

abbrev pub make_ipc_curve : Bytes → Bytes → Address
make_ipc_curve path pubkey = record default_address {
  protocol = ipc_curve;
  socket = path;
  pubkey = pubkey;
}

abbrev pub enc_length : Encoding → ℕ
enc_length hex = 64
enc_length base64 = 43
enc_length base32z = 52
enc_length base32z_upper = 52

abbrev pub plain_proto : Proto → Proto
plain_proto tcp_curve = tcp
plain_proto ipc_curve = ipc
plain_proto p = p

abbrev pub encrypted_proto : Proto → Proto
encrypted_proto tcp = tcp_curve
encrypted_proto ipc = ipc_curve
encrypted_proto p = p

unfoldable pub set_pubkey : Bytes → Address → Result Exception Address
set_pubkey pk a =
    if length pk == 0
    then ok (record a { protocol = plain_proto a.protocol; pubkey = pk })
    else if length pk == 32
    then ok (record a { protocol = encrypted_proto a.protocol; pubkey = pk })
    else err invalid_argument

abbrev pub same_proto : Proto → Proto → Bool
same_proto tcp tcp = true
same_proto tcp_curve tcp_curve = true
same_proto ipc ipc = true
same_proto ipc_curve ipc_curve = true
same_proto p q = false

-- `operator==`.
unfoldable pub same_address : Address → Address → Bool
same_address a b =
    if not (same_proto a.protocol b.protocol)
    then false
    else if is_tcp a && (not (bytes_eq a.host b.host) || not (a.port == b.port))
    then false
    else if is_ipc a && not (bytes_eq a.socket b.socket)
    then false
    else if is_curve a && not (bytes_eq a.pubkey b.pubkey)
    then false
    else true

unfoldable pub zmq_address : Address → Bytes
zmq_address a =
    if is_tcp a
    then bytes "tcp://" ++ (a.host ++ b':' ∷ decimal a.port)
    else bytes "ipc://" ++ a.socket

-- `if (pk.size() == 44 && pk.back() == '=') pk.resize(43);`
abbrev pub strip_padding : Bytes → Bytes
strip_padding pk = if length pk == 44 && back pk 0 == b'=' then take 43 pk else pk

-- `if (uc_host.front() == '[' && uc_host.back() == ']')`, with the assignments to both ends.
abbrev pub set_back : Bytes → ℕ → Bytes
set_back [] c = []
set_back (b ∷ []) c = c ∷ []
set_back (b ∷ s) c = b ∷ set_back s c

abbrev pub dollar_ends : Bytes → Bytes
dollar_ends [] = []
dollar_ends (b ∷ s) = if b == b'[' && back s b == b']' then set_back (b'$' ∷ s) b'$' else b ∷ s

module _ (o : Oxenc) where
  open o use {to_hex, to_base32z, to_base64}

  abbrev pub encode_pubkey : Encoding → Bytes → Bytes
  encode_pubkey hex pubkey = to_hex pubkey
  encode_pubkey base32z pubkey = to_base32z pubkey
  encode_pubkey base32z_upper pubkey = map to_upper (to_base32z pubkey)
  encode_pubkey base64 pubkey = strip_padding (to_base64 pubkey)

  -- `full_address`, by its protocol.
  abbrev pub print : Proto → Encoding → Address → Bytes
  print tcp enc a = bytes "tcp://" ++ (a.host ++ b':' ∷ decimal a.port)
  print tcp_curve enc a =
      bytes "curve://" ++ (a.host ++ b':' ∷ (decimal a.port ++ b'/' ∷ encode_pubkey enc a.pubkey))
  print ipc enc a = bytes "ipc://" ++ a.socket
  print ipc_curve enc a = bytes "ipc+curve://" ++ (a.socket ++ b'/' ∷ encode_pubkey enc a.pubkey)

  unfoldable pub full_address : Encoding → Address → Bytes
  full_address enc a = print a.protocol enc a

  unfoldable pub qr_address : Address → Result Exception Bytes
  qr_address a = do
    throw_if (not (is_tcp a)) logic_error
    throw_if (is_empty a.host) logic_error
    ok (
        (if is_curve a then bytes "CURVE://" else bytes "TCP://")
        ++ (dollar_ends (map to_upper a.host)
            ++ b':'
              ∷ (decimal a.port
                  ++ (if is_curve a then b'/' ∷ encode_pubkey base32z_upper a.pubkey else []))))
