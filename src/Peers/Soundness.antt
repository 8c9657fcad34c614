-- ===== src/Peers/Soundness.antt =====
-- The peers and connections of oxenmq/connections.cpp, with the invariant of the operations that only
-- take away: expiry, disconnect and the removal of service nodes.
use oxen_mq.Common.{
  ℕ, ◌+◌, ◌-◌, ◌≤◌, ◌≡◌, refl, inl, inr, Bool, false, ◌&&◌, ◌||◌, List, [], ◌∷◌, Bytes, ℤ, pos,
  has_key, any, ltb, arith, Bool-cases,
}
use oxen_mq.ConnectionId.{ConnectionId, cid_eq, int_eq, of_pubkey}
use oxen_mq.Peers.{Net, PeerInfo, outgoing, proxy_close_connection}
use oxen_mq.Peers.Connecting.{expire_peers, proxy_expire_idle_peers, disconnect_peer}
use oxen_mq.Peers.ServiceNodes.{
  remove_peers, without, remove_sn, remove_sns, proxy_update_active_sns_clean,
}
use oxen_mq.Peers.Links.{users, one_if, has_key-close, peers-close}
use oxen_mq.Peers.Opening.{IsBelow}

-- Some peer has the connection `id`.
abbrev pub used : ℤ → List (ConnectionId × PeerInfo) → Bool
used id es = any (λ e. int_eq e.1.conn_id id) es

-- No peer and no connection has an id that is still to be given.
abbrev pub IsUnused : Net → Type 0
IsUnused n = (k : ℕ) → n.next_conn_id ≤ k → used (pos k) n.peers ≡ false

-- No two outgoing peers share a connection, and the ids in use are below the next one.
pub record IsSound (n : Net) : Type 0 where
  pub distinct : (id : ℤ) → users id n.peers ≤ 1
  pub below : IsBelow n
  pub unused : IsUnused n

-- Nothing is added by a loop over the peers `es` that were taken out of `n`.
abbrev pub Less : ℤ → List (ConnectionId × PeerInfo) → Net → Net → Type 0
Less id es n m =
    (m.next_conn_id ≡ n.next_conn_id)
    × (one_if (has_key int_eq id m.connections)
        ≤ one_if (has_key int_eq id n.connections || used id es))
    × (one_if (used id m.peers) ≤ one_if (used id es || used id n.peers))
    × (users id m.peers ≤ users id es + users id n.peers)

next-close : (k : ℤ) (n : Net) → (proxy_close_connection k n).next_conn_id ≡ n.next_conn_id
unfolding proxy_close_connection
next-close k n = ground arith

pub close-Less : (k id : ℤ) (n : Net) → Less id [] n (proxy_close_connection k n)
close-Less k id n = (
  next-close k n,
  ground (arith, has_key-close k id n),
  rw (peers-close k n) (omega arith),
  rw (peers-close k n) (omega arith),
)

expire_peers-Less :
    (id : ℤ) (now : ℕ) (es : List (ConnectionId × PeerInfo)) (n : Net)
    → Less id es n (expire_peers now es n)
unfolding expire_peers
expire_peers-Less id now [] n = (refl, ground arith, omega arith, omega arith)
expire_peers-Less id now (e ∷ es) n =
    elim (Bool-cases (outgoing e.1 && ltb e.1.idle_expiry (now - e.1.last_activity))) [
      | inl x ↦ rw x (
          ground (
            arith,
            close-Less e.1.conn_id id n,
            expire_peers-Less id now es (proxy_close_connection e.1.conn_id n),
          ))
      | inr x ↦ rw x (ground (arith, expire_peers-Less id now es n))
    ]

remove_peers-Less :
    (id : ℤ) (c : ConnectionId) (es : List (ConnectionId × PeerInfo)) (n : Net)
    → Less id es n (remove_peers c es n)
unfolding remove_peers
remove_peers-Less id c [] n = (refl, ground arith, omega arith, omega arith)
remove_peers-Less id c (e ∷ es) n = elim (Bool-cases (cid_eq e.0 c)) [
  | inl x ↦ elim (Bool-cases (outgoing e.1)) [
    | inl o ↦
        rw (x, o, remove_peers)
          (ground (
            arith,
            close-Less e.1.conn_id id n,
            remove_peers-Less id c es (proxy_close_connection e.1.conn_id n),
          ))
    | inr o ↦ rw (x, o, remove_peers) (ground (arith, remove_peers-Less id c es n))
  ]
  | inr x ↦ rw (x, remove_peers) (ground (arith, remove_peers-Less id c es n))
]

disconnect_peer-Less :
    (id : ℤ) (c : ConnectionId) (es : List (ConnectionId × PeerInfo)) (n : Net)
    → Less id es n (disconnect_peer c es n)
unfolding disconnect_peer
disconnect_peer-Less id c [] n = (refl, ground arith, omega arith, omega arith)
disconnect_peer-Less id c (e ∷ es) n = elim (Bool-cases (cid_eq e.0 c && outgoing e.1)) [
  | inl x ↦ rw x (ground (arith, close-Less e.1.conn_id id n))
  | inr x ↦ rw x (ground (arith, disconnect_peer-Less id c es n))
]

-- What a loop that only takes away keeps.
module _ (n m : Net) (less : (id : ℤ) → Less id n.peers (record n { peers = [] }) m) where
  Less-IsBelow : IsBelow n → IsUnused n → IsBelow m
  Less-IsBelow b u k h = ground (arith, less (pos k), b k, u k)

  Less-IsUnused : IsUnused n → IsUnused m
  Less-IsUnused u k h = ground (arith, less (pos k), u k)

  pub Less-IsSound : IsSound n → IsSound m
  Less-IsSound s = record {
    distinct = λ id. omega (arith, less id, s.distinct id);
    below = Less-IsBelow s.below s.unused;
    unused = Less-IsUnused s.unused;
  }

-- Only the peers, the connections and the next id matter.
pub IsSound-transfer :
    (n m : Net)
    → m.peers ≡ n.peers
    → m.connections ≡ n.connections
    → m.next_conn_id ≡ n.next_conn_id
    → IsSound n
    → IsSound m
IsSound-transfer n m p c k s = record {
  distinct = λ id. ground (arith, s.distinct id);
  below = λ j h. ground (arith, s.below j);
  unused = λ j h. ground (arith, s.unused j);
}

pub expire-IsSound : (now : ℕ) (n : Net) → IsSound n → IsSound (proxy_expire_idle_peers now n)
unfolding proxy_expire_idle_peers
expire-IsSound now n s =
    Less-IsSound n (proxy_expire_idle_peers now n)
      (λ id. expire_peers-Less id now n.peers (record n { peers = [] })) s

pub disconnect-IsSound :
    (c : ConnectionId) (n : Net)
    → IsSound n
    → IsSound (disconnect_peer c n.peers (record n { peers = [] }))
disconnect-IsSound c n s =
    Less-IsSound n (disconnect_peer c n.peers (record n { peers = [] }))
      (λ id. disconnect_peer-Less id c n.peers (record n { peers = [] })) s

remove_sn-IsSound : (pk : Bytes) (n : Net) → IsSound n → IsSound (remove_sn pk n)
unfolding remove_sn
remove_sn-IsSound pk n s =
    Less-IsSound n (remove_sn pk n)
      (λ id.
        remove_peers-Less id (of_pubkey pk) n.peers
          (record n { active_service_nodes = without pk n.active_service_nodes; peers = [] }))
      s

remove_sns-IsSound : (pks : List Bytes) (n : Net) → IsSound n → IsSound (remove_sns pks n)
remove_sns-IsSound [] n s = s
remove_sns-IsSound (pk ∷ pks) n s =
    remove_sns-IsSound pks (remove_sn pk n) (remove_sn-IsSound pk n s)

pub update-IsSound :
    (added removed : List Bytes) (n : Net)
    → IsSound n
    → IsSound (proxy_update_active_sns_clean added removed n)
unfolding proxy_update_active_sns_clean
update-IsSound added removed n s =
    IsSound-transfer (remove_sns removed n) (proxy_update_active_sns_clean added removed n) refl
      refl refl (remove_sns-IsSound removed n s)
