-- ===== src/Peers/Senders.antt =====
-- oxenmq/worker.cpp, the first part of `proxy_to_worker`: which peer sent a message. `pubkey` and
-- `auth_level` are what `extract_metadata` gives for the message.
use oxen_mq.Common.{
  ◌≡◌, refl, inl, inr, Bool, true, false, ◌&&◌, Option, none, some, List, [], ◌∷◌, Bytes, bytes_eq,
  eq_of_bytes_eq, ℤ, find, is_empty, length, ◌==◌, if◌then◌else◌, arith, Option-cases, Bool-cases,
}
use oxen_mq.Access.{AuthLevel}
use oxen_mq.ConnectionId.{ConnectionId, cid_eq, int_eq, of_pubkey}
use oxen_mq.ConnectionId.Order.{eq_of_int_eq}
use oxen_mq.Peers.{Net, PeerInfo, has}
use oxen_mq.Peers.Connecting.{plain_id}

-- A message on a connection of ours: the first peer of its id, whose service node status is checked
-- again. A connection without a peer is only logged.
abbrev pub recheck : List Bytes → PeerInfo → PeerInfo
recheck active i = if is_empty i.pubkey then i else record i { service_node = has i.pubkey active }

abbrev pub change_first :
    ConnectionId
    → (PeerInfo → PeerInfo)
    → List (ConnectionId × PeerInfo)
    → List (ConnectionId × PeerInfo)
change_first c f [] = []
change_first c f (e ∷ es) = if cid_eq e.0 c then (e.0, f e.1) ∷ es else e ∷ change_first c f es

unfoldable pub outgoing_sender : ℤ → Net → Net × Option PeerInfo
outgoing_sender conn_id n =
    let key : ConnectionId = elim (find int_eq conn_id n.outgoing_sn_conns) [
      | none ↦ plain_id conn_id
      | some c ↦ c
    ] in
    elim (find cid_eq key n.peers) [
      | none ↦ (n, none)
      | some i ↦ (
        record n { peers = change_first key (recheck n.active_service_nodes) n.peers },
        some (recheck n.active_service_nodes i),
      )
    ]

-- The peer of a service node with that connection and route.
abbrev pub is_sender : ConnectionId → ℤ → Bytes → ConnectionId × PeerInfo → Bool
is_sender c conn_id route e =
    cid_eq e.0 c && (int_eq e.1.conn_id conn_id && bytes_eq e.1.route route)

abbrev pub find_sender : ConnectionId → ℤ → Bytes → List (ConnectionId × PeerInfo) → Option PeerInfo
find_sender c conn_id route [] = none
find_sender c conn_id route (e ∷ es) =
    if is_sender c conn_id route e then some e.1 else find_sender c conn_id route es

abbrev pub update_sender :
    ConnectionId
    → ℤ
    → Bytes
    → (PeerInfo → PeerInfo)
    → List (ConnectionId × PeerInfo)
    → List (ConnectionId × PeerInfo)
update_sender c conn_id route f [] = []
update_sender c conn_id route f (e ∷ es) =
    if is_sender c conn_id route e
    then (e.0, f e.1) ∷ es
    else e ∷ update_sender c conn_id route f es

-- `tmp_peer`. Its times are not set.
abbrev pub temporary : ℤ → Bytes → Bytes → AuthLevel → Bool → PeerInfo
temporary conn_id route pubkey auth_level service_node = record {
  pubkey = pubkey;
  service_node = service_node;
  auth_level = auth_level;
  conn_id = conn_id;
  route = route;
  last_activity = 0;
  idle_expiry = 0;
}

abbrev pub promote : AuthLevel → PeerInfo → PeerInfo
promote auth_level i = record i { auth_level = auth_level; service_node = true }

-- A sender that is a service node: its peer, or a new one.
unfoldable pub sn_sender : ℤ → Bytes → Bytes → AuthLevel → Net → Net × PeerInfo
sn_sender conn_id route pubkey auth_level n =
    elim (find_sender (of_pubkey pubkey) conn_id route n.peers) [
      | some i ↦ (
        record n {
          peers = update_sender (of_pubkey pubkey) conn_id route (promote auth_level) n.peers;
        },
        promote auth_level i,
      )
      | none ↦
          let i = temporary conn_id route pubkey auth_level true in
          (record n { peers = (of_pubkey pubkey, i) ∷ n.peers }, i)
    ]

-- A message on a listening socket: `inproc` is the id of the internal listener, whose messages are
-- our own, with our pubkey and the highest level.
unfoldable pub incoming_sender : ℤ → Bytes → ℤ → Bytes → Bytes → AuthLevel → Net → Net × PeerInfo
incoming_sender inproc own_pubkey conn_id route pubkey auth_level n =
    let own = int_eq conn_id inproc in
    let pk = if own then own_pubkey else pubkey in
    let level = if own then AuthLevel.admin else auth_level in
    let service_node =
      if own
      then has own_pubkey n.active_service_nodes
      else length pubkey == 32 && has pubkey n.active_service_nodes in
    if service_node
    then sn_sender conn_id route pk level n
    else (n, temporary conn_id route pk level false)

find_sender-route :
    (c : ConnectionId) (conn_id : ℤ) (route : Bytes) (es : List (ConnectionId × PeerInfo))
    (i : PeerInfo)
    → find_sender c conn_id route es ≡ some i
    → (i.conn_id ≡ conn_id) × (i.route ≡ route)
find_sender-route c conn_id route [] i h = absurd (cc)
find_sender-route c conn_id route (e ∷ es) i h = elim (Bool-cases (is_sender c conn_id route e)) [
  | inl k ↦
      let same : e.1 ≡ i = ground arith in
      rw (← same) (
        eq_of_int_eq e.1.conn_id conn_id (ground arith),
        eq_of_bytes_eq e.1.route route (ground arith),
      )
  | inr k ↦ find_sender-route c conn_id route es i (ground arith)
]

sn_sender-level :
    (conn_id : ℤ) (route pubkey : Bytes) (auth_level : AuthLevel) (n : Net)
    → let i = (sn_sender conn_id route pubkey auth_level n).1 in
      (i.auth_level ≡ auth_level)
      × (i.service_node ≡ true)
      × (i.conn_id ≡ conn_id)
      × (i.route ≡ route)
unfolding sn_sender
sn_sender-level conn_id route pubkey auth_level n =
    elim (Option-cases (find_sender (of_pubkey pubkey) conn_id route n.peers)) [
      | inl e ↦ rw (e, sn_sender) (refl, refl, refl, refl)
      | inr (i, e) ↦
          let (c, r) = find_sender-route (of_pubkey pubkey) conn_id route n.peers i e in
          rw (e, sn_sender) (refl, refl, c, r)
    ]

-- The peer that a message of a client is checked as has the level of that message's own metadata, not
-- one that was stored before, and is a service node exactly if its key has 32 bytes and is active
-- now; it has the connection and the route of the message.
pub incoming_sender-level :
    (inproc : ℤ) (own_pubkey : Bytes) (conn_id : ℤ) (route pubkey : Bytes) (auth_level : AuthLevel)
    (n : Net)
    → int_eq conn_id inproc ≡ false
    → let i = (incoming_sender inproc own_pubkey conn_id route pubkey auth_level n).1 in
      (i.auth_level ≡ auth_level)
      × (i.service_node ≡ length pubkey == 32 && has pubkey n.active_service_nodes)
      × (i.conn_id ≡ conn_id)
      × (i.route ≡ route)
unfolding incoming_sender
incoming_sender-level inproc own_pubkey conn_id route pubkey auth_level n h =
    elim (Bool-cases (length pubkey == 32 && has pubkey n.active_service_nodes)) [
      | inl s ↦ rw (h, s) (sn_sender-level conn_id route pubkey auth_level n)
      | inr s ↦ rw (h, s) (refl, refl, refl, refl)
    ]
