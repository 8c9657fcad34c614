-- ===== src/Auth/Zap.antt =====
-- oxenmq/auth.cpp: `process_zap_requests`, which answers zmq's authentication requests, and
-- oxenmq/oxenmq.cpp: `extract_metadata`, which reads what was decided from each message.
-- `bt_deserialize`, `to_hex`, `from_hex` and the `allow` functions of the listeners are parameters.
use oxen_mq.Common.{
  ℕ, ◌/◌, ◌%◌, ◌^◌, Bool, not, ◌&&◌, ◌||◌, Option, none, some, List, [], ◌∷◌, ◌++◌, Bytes, bytes,
  bytes_eq, length, get_elem?, any, if◌then◌else◌, ltb, leb, ◌==◌,
}
use oxen_mq.Access.{AuthLevel, denied, none, admin, to_string, auth_from_string, rank}
use oxen_mq.Peers.{has}

-- A listener: whether it wants CURVE, and its callback on the address, pubkey and service node status.
pub record BindData : Type 0 where
  pub curve : Bool
  pub allow : Bytes → Bytes → Bool → AuthLevel

pub record ZapReply : Type 0 where
  pub status_code : Bytes
  pub status_text : Bytes
  pub user_id : Bytes
  pub metadata : Bytes

-- The 4 bytes of a size in network order.
abbrev pub network_order : ℕ → Bytes
network_order n = (n / 2 ^ 24) % 256 ∷ (n / 2 ^ 16) % 256 ∷ (n / 2 ^ 8) % 256 ∷ n % 256 ∷ []

-- `static_cast<char>(key.size())` is the low byte of the size.
unfoldable pub zmtp_metadata : Bytes → Bytes → Bytes
zmtp_metadata key value = (length key % 256 ∷ key) ++ network_order (length value) ++ value

abbrev pub is_ip_char : ℕ → Bool
is_ip_char b = (leb b'0' b && leb b b'9') || b == b'.'

abbrev pub all_ip_chars : Bytes → Bool
all_ip_chars s = not (any (λ b. not (is_ip_char b)) s)

-- An IPv4 address mapped to IPv6 loses its prefix `::ffff:`. `find_last_not_of(...) == 6`: the last
-- byte that is no digit or dot is that of the prefix.
unfoldable pub unmap_ip : Bytes → Bytes
unmap_ip (a ∷ b ∷ c ∷ d ∷ e ∷ f ∷ g ∷ rest) =
    if bytes_eq (a ∷ b ∷ c ∷ d ∷ e ∷ f ∷ g ∷ []) (bytes "::ffff:")
      && (leb 7 (length rest) && all_ip_chars rest)
    then rest
    else a ∷ b ∷ c ∷ d ∷ e ∷ f ∷ g ∷ rest
unmap_ip ip = ip

abbrev pub refuse : Bytes → Bytes → ZapReply
refuse code text = record { status_code = code; status_text = text; user_id = []; metadata = [] }

-- `auth <= AuthLevel::denied || auth > AuthLevel::admin`.
abbrev pub is_refused : AuthLevel → Bool
is_refused a = leb (rank a) (rank denied) || ltb (rank admin) (rank a)

abbrev pub frame : ℕ → List Bytes → Bytes
frame i frames = elim (get_elem? frames i) [ none ↦ [] | some f ↦ f ]

-- Whether the mechanism and the number of frames fit the listener.
abbrev pub is_mechanism : BindData → List Bytes → Bool
is_mechanism b frames =
    if b.curve
    then length frames == 7 && bytes_eq (frame 5 frames) (bytes "CURVE")
    else length frames == 6 && bytes_eq (frame 5 frames) (bytes "NULL")

module _ (to_hex : Bytes → Bytes) (from_hex : Bytes → Bytes) (deserialize : Bytes → Option ℕ) where
  -- The decision of a listener on a well-formed request.
  unfoldable pub zap_decide : BindData → List Bytes → List Bytes → ZapReply
  zap_decide b active frames =
      let pubkey = if b.curve then frame 6 frames else [] in
      let auth = b.allow (unmap_ip (frame 3 frames)) pubkey (b.curve && has pubkey active) in
      if is_refused auth then refuse (bytes "400") (bytes "Access denied") else record {
        status_code = bytes "200";
        status_text = [];
        user_id = if b.curve then to_hex pubkey else [];
        metadata = zmtp_metadata (bytes "X-AuthLevel") (to_string auth);
      }

  unfoldable pub zap_listener : BindData → List Bytes → List Bytes → ZapReply
  zap_listener b active frames =
      if not (is_mechanism b frames)
      then refuse (bytes "500") (bytes "Invalid authentication request mechanism")
      else if b.curve && not (length (frame 6 frames) == 32)
      then refuse (bytes "500") (bytes "Invalid public key size for CURVE authentication")
      else zap_decide b active frames

  -- The listener that the domain names; a domain that does not parse names none.
  abbrev pub zap_bind : List BindData → Bytes → Option BindData
  zap_bind binds domain = elim (deserialize domain) [ none ↦ none | some i ↦ get_elem? binds i ]

  unfoldable pub zap_request : List BindData → List Bytes → List Bytes → ZapReply
  zap_request binds active frames =
      if ltb (length frames) 6 || not (bytes_eq (frame 0 frames) (bytes "1.0"))
      then refuse (bytes "500") (bytes "Internal error: invalid auth request")
      else elim (zap_bind binds (frame 2 frames)) [
        | none ↦ refuse (bytes "400") (bytes "Unknown authentication domain: " ++ frame 2 frames)
        | some b ↦ zap_listener b active frames
      ]

  -- The six frames of the response to one request.
  unfoldable pub process_zap_request : List BindData → List Bytes → List Bytes → List Bytes
  process_zap_request binds active frames =
      let reply = zap_request binds active frames in
      bytes "1.0"
      ∷ (if leb 2 (length frames) then frame 1 frames else [])
      ∷ reply.status_code
      ∷ reply.status_text
      ∷ reply.user_id
      ∷ reply.metadata
      ∷ []

  -- `extract_metadata`, of the properties `User-Id` and `X-AuthLevel` of a message, where it has them.
  unfoldable pub extract_metadata : Option Bytes → Option Bytes → Bytes × AuthLevel
  extract_metadata user_id auth_level = (
    elim user_id [ none ↦ [] | some hex ↦ if length hex == 64 then from_hex hex else [] ],
    elim auth_level [ none ↦ AuthLevel.none | some a ↦ auth_from_string a ],
  )
