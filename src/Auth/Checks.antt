-- ===== src/Auth/Checks.antt =====
-- oxenmq/auth.cpp: what the checks of a command and of a connection decide.
use oxen_mq.Common.{
  ℕ, ◌*◌, ◌≤◌, ◌<◌, ◌≡◌, refl, subst, not, Bool-cases, inl, inr, Bool, true, false, ◌&&◌, Option,
  none, some, List, [], ◌∷◌, ◌++◌, Bytes, bytes, eq_of_bytes_eq, is_empty, if◌then◌else◌, arith,
  length, ◌↔◌, ◌==◌, Option-cases, some_inj,
}
use oxen_mq.Access.{AuthLevel, level_lt, none, rank, to_string, auth_from_string-to_string}
use oxen_mq.Pool.{Category, Callback}
use oxen_mq.Peers.{PeerInfo, has}
use oxen_mq.Auth.Zmtp.{zmtp_property, zmtp_property-metadata, level_size}
use oxen_mq.Auth.{is_request, denial, denial_tail, proxy_check_auth}
use oxen_mq.Auth.Zap.{
  BindData, ZapReply, frame, is_mechanism, is_refused, zap_decide, zap_listener, zap_bind,
  zap_request, extract_metadata, zmtp_metadata, unmap_ip,
}

-- A peer may call a command of the category: it has the level, and the service node status that is
-- asked for, on its side and on ours.
pub record IsAllowed (local_service_node : Bool) (peer : PeerInfo) (cat : Category) : Type 0 where
  pub level : rank cat.access.auth ≤ rank peer.auth_level
  pub local_sn : cat.access.local_sn ≡ true → local_service_node ≡ true
  pub remote_sn : cat.access.remote_sn ≡ true → peer.service_node ≡ true

allowed_back :
    (local_sn outgoing : Bool) (peer : PeerInfo) (cmd : Bytes) (c : Category)
    (call : Option (Callback × Bool)) (parts : List Bytes)
    → IsAllowed local_sn peer c
    → (is_request call ≡ true → is_empty parts ≡ false)
    → (proxy_check_auth local_sn outgoing peer cmd (some c) call parts).0 ≡ true
unfolding proxy_check_auth denial
allowed_back local_sn outgoing peer cmd c call parts allowed tag =
    ground (arith, allowed.level, allowed.local_sn, allowed.remote_sn, tag)

-- A command is let through if and only if its category exists and allows the peer, and it carries a
-- reply tag if it is a request.
pub proxy_check_auth-IsAllowed :
    (local_sn outgoing : Bool) (peer : PeerInfo) (cmd : Bytes) (cat : Option Category)
    (call : Option (Callback × Bool)) (parts : List Bytes)
    → ((proxy_check_auth local_sn outgoing peer cmd cat call parts).0 ≡ true) ↔ (
        (c : Category) × (cat ≡ some c)
        × IsAllowed local_sn peer c
        × (is_request call ≡ true → is_empty parts ≡ false))
unfolding proxy_check_auth denial
proxy_check_auth-IsAllowed local_sn outgoing peer cmd none call parts =
    ((λ h. absurd (cc)), (λ h. absurd (let (c, e, _, _) = h in cc)))
proxy_check_auth-IsAllowed local_sn outgoing peer cmd (some c) call parts = (
  (λ h. (
    c,
    refl,
    record { level = ground arith; local_sn = ground arith; remote_sn = ground arith },
    ground arith,
  )),
  (λ h.
      let (d, e, allowed, tag) = h in
      let same : c ≡ d = some_inj e in
      allowed_back local_sn outgoing peer cmd c call parts (rw same allowed) tag),
)

-- Why a command is refused, and the error that says so: the first of these that applies.
pub data IsRefused (local_sn : Bool) (peer : PeerInfo) (call : Option (Callback × Bool))
    (parts : List Bytes) : Option Category → Bytes → Type 0 where
  unknown : IsRefused local_sn peer call parts none (bytes "UNKNOWNCOMMAND")
  forbidden :
      (c : Category)
      → rank peer.auth_level < rank c.access.auth
      → IsRefused local_sn peer call parts (some c) (bytes "FORBIDDEN")
  not_a_service_node :
      (c : Category)
      → rank c.access.auth ≤ rank peer.auth_level
      → c.access.local_sn ≡ true
      → local_sn ≡ false
      → IsRefused local_sn peer call parts (some c) (bytes "NOT_A_SERVICE_NODE")
  forbidden_sn :
      (c : Category)
      → rank c.access.auth ≤ rank peer.auth_level
      → (c.access.local_sn ≡ true → local_sn ≡ true)
      → c.access.remote_sn ≡ true
      → peer.service_node ≡ false
      → IsRefused local_sn peer call parts (some c) (bytes "FORBIDDEN_SN")
  no_reply_tag :
      (c : Category)
      → IsAllowed local_sn peer c
      → is_request call ≡ true
      → parts ≡ []
      → IsRefused local_sn peer call parts (some c) (bytes "NO_REPLY_TAG")

-- What the answer names: a request with a tag by that tag, anything else by the command.
pub data Names (request : Bool) (cmd : Bytes) : List Bytes → List Bytes → Type 0 where
  by_tag :
      (tag : Bytes) (rest : List Bytes)
      → request ≡ true
      → Names request cmd (tag ∷ rest) (bytes "REPLY" ∷ tag ∷ [])
  untagged : Names request cmd [] (cmd ∷ [])
  by_command : (parts : List Bytes) → request ≡ false → Names request cmd parts (cmd ∷ [])

denial-IsRefused :
    (local_sn : Bool) (peer : PeerInfo) (cat : Option Category) (call : Option (Callback × Bool))
    (parts : List Bytes) (reply : Bytes)
    → denial local_sn peer cat call parts ≡ some reply
    → IsRefused local_sn peer call parts cat reply
unfolding denial
denial-IsRefused local_sn peer none call parts reply h =
    subst (IsRefused local_sn peer call parts none) (some_inj h) unknown
denial-IsRefused local_sn peer (some c) call parts reply h =
    elim (Bool-cases (level_lt peer.auth_level c.access.auth)) [
      | inl a ↦
          subst (IsRefused local_sn peer call parts (some c)) (some_inj (rw a at h))
            (forbidden c (ground arith))
      | inr a ↦ elim (Bool-cases (c.access.local_sn && not local_sn)) [
        | inl b ↦
            subst (IsRefused local_sn peer call parts (some c)) (some_inj (rw (a, b) at h))
              (not_a_service_node c (ground arith) (ground arith) (ground arith))
        | inr b ↦ elim (Bool-cases (c.access.remote_sn && not peer.service_node)) [
          | inl d ↦
              subst (IsRefused local_sn peer call parts (some c)) (some_inj (rw (a, b, d) at h))
                (forbidden_sn c (ground arith) (ground arith) (ground arith) (ground arith))
          | inr d ↦ elim (Bool-cases (is_request call && is_empty parts)) [
            | inl e ↦
                subst (IsRefused local_sn peer call parts (some c))
                  (some_inj (rw (a, b, d, e) at h))
                  (no_reply_tag c
                    (record {
                      level = ground arith;
                      local_sn = ground arith;
                      remote_sn = ground arith;
                    })
                    (ground arith) (ground arith))
            | inr e ↦ absurd (cc (rw (a, b, d, e) at h))
          ]
        ]
      ]
    ]

denial_tail-Names :
    (request : Bool) (cmd : Bytes) (parts : List Bytes)
    → Names request cmd parts (denial_tail request cmd parts)
denial_tail-Names true cmd [] = untagged
denial_tail-Names true cmd (tag ∷ rest) = by_tag tag rest refl
denial_tail-Names false cmd parts = by_command parts refl

-- A refused command is answered by one message: the peer's route if it connected to us, the error
-- for the first check that fails, and `REPLY` with the tag of a request that has one, or else the
-- command.
pub proxy_check_auth-reply :
    (local_sn outgoing : Bool) (peer : PeerInfo) (cmd : Bytes) (cat : Option Category)
    (call : Option (Callback × Bool)) (parts : List Bytes)
    → (proxy_check_auth local_sn outgoing peer cmd cat call parts).0 ≡ false
    → (reply : Bytes) × (tail : List Bytes) × IsRefused local_sn peer call parts cat reply
      × Names (is_request call) cmd parts tail
      × ((proxy_check_auth local_sn outgoing peer cmd cat call parts).1
          ≡ (if outgoing then [] else peer.route ∷ []) ++ reply ∷ tail)
unfolding proxy_check_auth
proxy_check_auth-reply local_sn outgoing peer cmd cat call parts h =
    elim (Option-cases (denial local_sn peer cat call parts)) [
      | inl e ↦ absurd (ground arith)
      | inr (reply, e) ↦ (
        reply,
        denial_tail (is_request call) cmd parts,
        denial-IsRefused local_sn peer cat call parts reply e,
        denial_tail-Names (is_request call) cmd parts,
        rw (e, proxy_check_auth) refl,
      )
    ]

module _ (to_hex : Bytes → Bytes) (from_hex : Bytes → Bytes) (deserialize : Bytes → Option ℕ) where
  -- What the listener is asked about a request.
  abbrev pub verdict : BindData → List Bytes → List Bytes → AuthLevel
  verdict b active frames =
      b.allow (unmap_ip (frame 3 frames)) (if b.curve then frame 6 frames else [])
        (b.curve && has (if b.curve then frame 6 frames else []) active)

  -- A request that a listener accepts.
  abbrev pub IsAccepted : List BindData → List Bytes → List Bytes → Type 0
  IsAccepted binds active frames =
      (b : BindData) × (6 ≤ length frames)
      × (frame 0 frames ≡ bytes "1.0")
      × (zap_bind to_hex from_hex deserialize binds (frame 2 frames) ≡ some b)
      × (is_mechanism b frames ≡ true)
      × (b.curve ≡ true → length (frame 6 frames) ≡ 32)
      × (is_refused (verdict b active frames) ≡ false)

  abbrev zap : List BindData → List Bytes → List Bytes → ZapReply
  zap = zap_request to_hex from_hex deserialize

  zap_listener-accepts :
      (b : BindData) (active frames : List Bytes)
      → (zap_listener to_hex from_hex deserialize b active frames).status_code ≡ bytes "200"
      → (is_mechanism b frames ≡ true)
        × (b.curve ≡ true → length (frame 6 frames) ≡ 32)
        × (is_refused (verdict b active frames) ≡ false)
  unfolding zap_listener zap_decide
  zap_listener-accepts b active frames h = (ground arith, ground arith, ground arith)

  zap_request-listener :
      (binds : List BindData) (active frames : List Bytes)
      → (zap binds active frames).status_code ≡ bytes "200"
      → (b : BindData) × (6 ≤ length frames)
        × (frame 0 frames ≡ bytes "1.0")
        × (zap_bind to_hex from_hex deserialize binds (frame 2 frames) ≡ some b)
        × ((zap_listener to_hex from_hex deserialize b active frames).status_code ≡ bytes "200")
  unfolding zap_request
  zap_request-listener binds active frames h =
      elim (Option-cases (zap_bind to_hex from_hex deserialize binds (frame 2 frames))) [
        | inl e ↦ absurd (ground arith)
        | inr (b, e) ↦ (
          b,
          ground arith,
          ground (arith, eq_of_bytes_eq (frame 0 frames) (bytes "1.0")),
          e,
          ground arith,
        )
      ]

  -- A ZAP request is answered with 200 only if it is well formed, of version 1.0, names a listener by
  -- its domain, has the listener's mechanism and, for CURVE, a key of 32 bytes, and the listener's
  -- callback, told whether the key is an active service node, gives a level that is not denied.
  pub zap_request-IsAccepted :
      (binds : List BindData) (active frames : List Bytes)
      → (zap_request to_hex from_hex deserialize binds active frames).status_code ≡ bytes "200"
      → IsAccepted binds active frames
  zap_request-IsAccepted binds active frames h =
      let (b, size, version, found, accepted) = zap_request-listener binds active frames h in
      let (mechanism, key, level) = zap_listener-accepts b active frames accepted in
      (b, size, version, found, mechanism, key, level)

  accepted_reply :
      (b : BindData) (active frames : List Bytes)
      → b.curve ≡ true
      → (zap_listener to_hex from_hex deserialize b active frames).status_code ≡ bytes "200"
      → ((zap_listener to_hex from_hex deserialize b active frames).user_id
          ≡ to_hex (frame 6 frames))
        × ((zap_listener to_hex from_hex deserialize b active frames).metadata
            ≡ zmtp_metadata (bytes "X-AuthLevel") (to_string (verdict b active frames)))
  unfolding zap_listener zap_decide
  accepted_reply b active frames c h = (ground arith, ground arith)

  -- What a CURVE connection is accepted with comes back from each of its messages, which zmq gives the
  -- user id and the metadata of the reply as properties: read by the format of ZMTP, the metadata is one
  -- property, `X-AuthLevel`, and `extract_metadata` gets the key as the pubkey, and the level of the
  -- listener's callback, if `from_hex` inverts `to_hex`, which writes two digits for a byte.
  pub zap_listener-extract_metadata :
      ((k : Bytes) → length (to_hex k) ≡ 2 * length k)
      → ((k : Bytes) → from_hex (to_hex k) ≡ k)
      → (b : BindData) (active frames : List Bytes) → b.curve ≡ true
      → (zap_listener to_hex from_hex deserialize b active frames).status_code ≡ bytes "200"
      → (level : Bytes) × (zmtp_property
            (zap_listener to_hex from_hex deserialize b active frames).metadata
          ≡ some ((bytes "X-AuthLevel", level), []))
        × (extract_metadata to_hex from_hex deserialize
              (some (zap_listener to_hex from_hex deserialize b active frames).user_id)
              (some level)
            ≡ (frame 6 frames, verdict b active frames))
  unfolding extract_metadata
  zap_listener-extract_metadata digits inverse b active frames c h =
      let (_, key, _) = zap_listener-accepts b active frames h in
      let (user, metadata) = accepted_reply b active frames c h in
      let hex : (length (to_hex (frame 6 frames)) == 64) ≡ true =
        ground (arith, digits (frame 6 frames), key c) in
      (
        to_string (verdict b active frames),
        rw metadata (
            zmtp_property-metadata (bytes "X-AuthLevel") (to_string (verdict b active frames))
              (omega arith) (level_size (verdict b active frames))),
        rw
            (
              user,
              hex,
              inverse (frame 6 frames),
              auth_from_string-to_string (verdict b active frames),
            )
            refl,
      )
