-- ===== src/Peers/Links.antt =====
-- oxenmq/connections.cpp and oxenmq/auth.cpp: each outgoing peer has a connection of its own.
use oxen_mq.Common.{
  ℕ, ◌+◌, ◌-◌, ◌≤◌, ◌≡◌, refl, ap, inl, inr, Bool, true, false, not, ◌&&◌, List, [], ◌∷◌, Bytes, ℤ,
  has_key, erase, ltb, arith, Bool-cases,
}
use oxen_mq.ConnectionId.{ConnectionId, cid_eq, int_eq, of_pubkey}
use oxen_mq.ConnectionId.Order.{eq_of_int_eq}
use oxen_mq.Peers.{PeerInfo, Socket, Net, outgoing, proxy_close_connection}
use oxen_mq.Peers.ServiceNodes.{
  remove_peers, without, remove_sn, remove_sns, proxy_update_active_sns_clean,
}
use oxen_mq.Peers.Connecting.{expire_peers, proxy_expire_idle_peers, disconnect_peer}

abbrev pub one_if : Bool → ℕ
one_if true = 1
one_if false = 0

-- The outgoing peers that use the connection `id`.
abbrev pub users : ℤ → List (ConnectionId × PeerInfo) → ℕ
users id [] = 0
users id (e ∷ es) = one_if (outgoing e.1 && int_eq e.1.conn_id id) + users id es

-- No two outgoing peers share a connection, and none is without.
abbrev pub IsLinked : Net → Type 0
IsLinked n = (id : ℤ) → users id n.peers ≤ one_if (has_key int_eq id n.connections)

has_key-erase :
    (k id : ℤ) (es : List (ℤ × Socket))
    → has_key int_eq id (erase int_eq k es) ≡ has_key int_eq id es && not (int_eq k id)
has_key-erase k id [] = refl
has_key-erase k id (e ∷ es) = ground (arith, has_key-erase k id es, eq_of_int_eq e.0 k)

pub has_key-close :
    (k id : ℤ) (n : Net)
    → has_key int_eq id (proxy_close_connection k n).connections
      ≡ has_key int_eq id n.connections && not (int_eq k id)
unfolding proxy_close_connection
has_key-close k id n = elim (Bool-cases (int_eq k id)) [
  | inl e ↦
      let same : has_key int_eq k n.connections ≡ has_key int_eq id n.connections =
        ap (λ (x : ℤ). has_key int_eq x n.connections) (eq_of_int_eq k id e) in
      ground (arith, has_key-erase k id n.connections)
  | inr e ↦ ground (arith, has_key-erase k id n.connections)
]

pub peers-close : (k : ℤ) (n : Net) → (proxy_close_connection k n).peers ≡ n.peers
unfolding proxy_close_connection
peers-close k n = ground arith

-- What a loop over the peers keeps, beside `base` users that it has passed.
abbrev Bounded : ℤ → ℕ → List (ConnectionId × PeerInfo) → Net → Type 0
Bounded id base es n =
    base + users id es + users id n.peers ≤ one_if (has_key int_eq id n.connections)

-- A peer that is closed frees its connection.
close-Bounded :
    (id : ℤ) (base : ℕ) (e : ConnectionId × PeerInfo) (es : List (ConnectionId × PeerInfo))
    (n : Net)
    → outgoing e.1 ≡ true
    → Bounded id base (e ∷ es) n
    → Bounded id base es (proxy_close_connection e.1.conn_id n)
close-Bounded id base e es n o h =
    rw (peers-close e.1.conn_id n, has_key-close e.1.conn_id id n) (ground arith)

expire_peers-Bounded :
    (id : ℤ) (now base : ℕ) (es : List (ConnectionId × PeerInfo)) (n : Net)
    → Bounded id base es n
    → base + users id (expire_peers now es n).peers
      ≤ one_if (has_key int_eq id (expire_peers now es n).connections)
unfolding expire_peers
expire_peers-Bounded id now base [] n h = omega (arith, h)
expire_peers-Bounded id now base (e ∷ es) n h =
    elim (Bool-cases (outgoing e.1 && ltb e.1.idle_expiry (now - e.1.last_activity))) [
      | inl x ↦
          rw x
            (expire_peers-Bounded id now base es _ (close-Bounded id base e es n (ground arith) h))
      | inr x ↦ rw x (
          omega (
            arith,
            expire_peers-Bounded id now (base + one_if (outgoing e.1 && int_eq e.1.conn_id id)) es n
                (omega (arith, h)),
          ))
    ]

-- Closing the idle peers keeps each outgoing peer linked to a connection of its own.
pub proxy_expire_idle_peers-IsLinked :
    (now : ℕ) (n : Net) → IsLinked n → IsLinked (proxy_expire_idle_peers now n)
unfolding proxy_expire_idle_peers
proxy_expire_idle_peers-IsLinked now n v id =
    omega
      (arith, expire_peers-Bounded id now 0 n.peers (record n { peers = [] }) (omega (arith, v id)))

remove_peers-Bounded :
    (id : ℤ) (c : ConnectionId) (base : ℕ) (es : List (ConnectionId × PeerInfo)) (n : Net)
    → Bounded id base es n
    → base + users id (remove_peers c es n).peers
      ≤ one_if (has_key int_eq id (remove_peers c es n).connections)
unfolding remove_peers
remove_peers-Bounded id c base [] n h = omega (arith, h)
remove_peers-Bounded id c base (e ∷ es) n h = elim (Bool-cases (cid_eq e.0 c)) [
  | inl x ↦ elim (Bool-cases (outgoing e.1)) [
    | inl o ↦
        rw (x, o, remove_peers)
          (remove_peers-Bounded id c base es _ (close-Bounded id base e es n o h))
    | inr o ↦ rw (x, o, remove_peers) (remove_peers-Bounded id c base es n (ground arith))
  ]
  | inr x ↦
      rw (x, remove_peers)
        (omega (
          arith,
          remove_peers-Bounded id c (base + one_if (outgoing e.1 && int_eq e.1.conn_id id)) es n
              (omega (arith, h)),
        ))
]

pub remove_sn-IsLinked : (pk : Bytes) (n : Net) → IsLinked n → IsLinked (remove_sn pk n)
unfolding remove_sn
remove_sn-IsLinked pk n v id =
    let m = record n { active_service_nodes = without pk n.active_service_nodes; peers = [] } in
    omega (arith, remove_peers-Bounded id (of_pubkey pk) 0 n.peers m (omega (arith, v id)))

remove_sns-IsLinked : (pks : List Bytes) (n : Net) → IsLinked n → IsLinked (remove_sns pks n)
remove_sns-IsLinked [] n v = v
remove_sns-IsLinked (pk ∷ pks) n v =
    remove_sns-IsLinked pks (remove_sn pk n) (remove_sn-IsLinked pk n v)

-- A change of the active service nodes drops the peers of the removed ones with their connections.
pub proxy_update_active_sns_clean-IsLinked :
    (added removed : List Bytes) (n : Net)
    → IsLinked n
    → IsLinked (proxy_update_active_sns_clean added removed n)
unfolding proxy_update_active_sns_clean
proxy_update_active_sns_clean-IsLinked added removed n v = remove_sns-IsLinked removed n v

disconnect_peer-Bounded :
    (id : ℤ) (c : ConnectionId) (base : ℕ) (es : List (ConnectionId × PeerInfo)) (n : Net)
    → n.peers ≡ []
    → Bounded id base es n
    → base + users id (disconnect_peer c es n).peers
      ≤ one_if (has_key int_eq id (disconnect_peer c es n).connections)
unfolding disconnect_peer
disconnect_peer-Bounded id c base [] n m h = omega (arith, h)
disconnect_peer-Bounded id c base (e ∷ es) n m h =
    elim (Bool-cases (cid_eq e.0 c && outgoing e.1)) [
      | inl x ↦ rw x (omega (arith, close-Bounded id base e es n (ground arith) h))
      | inr x ↦ rw x (
          omega (
            arith,
            disconnect_peer-Bounded id c (base + one_if (outgoing e.1 && int_eq e.1.conn_id id)) es
                n m (omega (arith, h)),
          ))
    ]

-- So does closing a connection on request.
pub disconnect_peer-IsLinked :
    (c : ConnectionId) (n : Net)
    → IsLinked n
    → IsLinked (disconnect_peer c n.peers (record n { peers = [] }))
disconnect_peer-IsLinked c n v id = omega (
  arith,
  disconnect_peer-Bounded id c 0 n.peers (record n { peers = [] }) refl (omega (arith, v id)),
)
