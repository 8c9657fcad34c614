-- ===== src/Peers/Opening.antt =====
-- oxenmq/connections.cpp: connections to service nodes, reused or new, and what BYE leaves of them.
use oxen_mq.Common.{
  ℕ, ◌≤◌, ◌≡◌, refl, sym, ◌∙◌, ap, inl, inr, Bool, false, not, ◌||◌, some, List, [], ◌∷◌, Bytes, ℤ,
  pos, find, has_key, is_empty, if◌then◌else◌, arith, Bool-cases, Option-cases,
}
use oxen_mq.ConnectionId.{ConnectionId, int_eq, of_pubkey}
use oxen_mq.ConnectionId.Order.{eq_of_int_eq}
use oxen_mq.ConnectionId.Equality.{int_eq_refl}
use oxen_mq.Peers.{PeerInfo, null_socket, Net, proxy_close_connection}
use oxen_mq.Peers.Connecting.{
  pick_peer, change_peer, refresh, index_connection, open_sn, proxy_connect_sn, handle_bye,
}
use oxen_mq.Peers.Links.{one_if, users, IsLinked, has_key-close, peers-close}

-- The ids of connections are below the next one.
abbrev pub IsBelow : Net → Type 0
IsBelow n = (k : ℕ) → n.next_conn_id ≤ k → has_key int_eq (pos k) n.connections ≡ false

pub open_sn-IsLinked :
    (remote : Bytes) (now keep_alive : ℕ) (n : Net)
    → IsBelow n
    → IsLinked n
    → IsLinked (open_sn remote now keep_alive n)
unfolding open_sn
open_sn-IsLinked remote now keep_alive n b v id =
    elim (Bool-cases (int_eq (pos n.next_conn_id) id)) [
      | inl e ↦
          let unused : has_key int_eq id n.connections ≡ false =
            ap (λ (x : ℤ). has_key int_eq x n.connections)
              (sym (eq_of_int_eq (pos n.next_conn_id) id e))
            ∙ b n.next_conn_id (omega arith) in
          ground (arith, v id)
      | inr e ↦ ground (arith, v id)
    ]

pub users-change :
    (id : ℤ) (i o : Bool) (c : ConnectionId) (now keep_alive : ℕ)
    (es : List (ConnectionId × PeerInfo))
    → users id (change_peer i o c (refresh now keep_alive) es) ≡ users id es
users-change id i o c now keep_alive [] = refl
users-change id i o c now keep_alive (e ∷ es) =
    ground (arith, users-change id i o c now keep_alive es)

has_key-index :
    (k id : ℤ) (n : Net)
    → one_if (has_key int_eq id n.connections)
      ≤ one_if (has_key int_eq id (index_connection k n).connections)
has_key-index k id n = ground arith

reuse-IsLinked :
    (i o : Bool) (c : ConnectionId) (now keep_alive : ℕ) (k : ℤ) (n : Net)
    → IsLinked n
    → IsLinked (
        index_connection k
          (record n { peers = change_peer i o c (refresh now keep_alive) n.peers }))
reuse-IsLinked i o c now keep_alive k n v id =
    ground (arith, v id, users-change id i o c now keep_alive n.peers)

-- Sending to a service node, over a connection that is reused or new, or not at all, keeps each
-- outgoing peer linked to a connection of its own, if the ids in use are below the next one.
pub proxy_connect_sn-IsLinked :
    (lookup : Bytes → Bytes) (connects : Bytes → Bool) (remote hint : Bytes)
    (optional incoming_only outgoing_only : Bool) (keep_alive now : ℕ) (n : Net)
    → IsBelow n
    → IsLinked n
    → IsLinked
        (proxy_connect_sn lookup connects remote hint optional incoming_only outgoing_only
          keep_alive now n).0
unfolding proxy_connect_sn
proxy_connect_sn-IsLinked lookup connects remote hint optional i o keep_alive now n b v =
    elim (Option-cases (pick_peer i o (of_pubkey remote) n.peers)) [
      | inr (peer, e) ↦
          rw (e, proxy_connect_sn)
            (reuse-IsLinked i o (of_pubkey remote) now keep_alive peer.conn_id n v)
      | inl e ↦
          let addr = if is_empty hint then lookup remote else hint in
          elim (Bool-cases (optional || i)) [
            | inl x ↦ rw (e, x, proxy_connect_sn) v
            | inr x ↦ elim (Bool-cases (is_empty addr || not (connects addr))) [
              | inl y ↦ rw (e, x, y, proxy_connect_sn) v
              | inr y ↦
                  rw (e, x, y, proxy_connect_sn) (open_sn-IsLinked remote now keep_alive n b v)
            ]
          ]
    ]

index_missing :
    (k : ℤ) (n : Net)
    → has_key int_eq k n.connections ≡ false
    → find int_eq k (index_connection k n).connections ≡ some null_socket
index_missing k n h = ground (arith, int_eq_refl k)

gone : (k : ℤ) (n : Net) → has_key int_eq k (proxy_close_connection k n).connections ≡ false
gone k n = ground (arith, has_key-close k k n, int_eq_refl k)

-- BYE over an outgoing connection closes it but leaves its peers: a later connection to a service node,
-- with any flags, that picks a peer of this connection gets a socket without a handle, which
-- `connections[id]` makes.
pub handle_bye-null_socket :
    (lookup : Bytes → Bytes) (connects : Bytes → Bool) (remote hint : Bytes)
    (optional incoming_only outgoing_only : Bool) (keep_alive now : ℕ) (n : Net) (peer : PeerInfo)
    → pick_peer incoming_only outgoing_only (of_pubkey remote) n.peers ≡ some peer
    → find int_eq peer.conn_id
        (proxy_connect_sn lookup connects remote hint optional incoming_only outgoing_only
          keep_alive now
          (handle_bye false peer.conn_id n)).0.connections
      ≡ some null_socket
unfolding handle_bye proxy_connect_sn
handle_bye-null_socket lookup connects remote hint optional i o keep_alive now n peer h =
    rw (peers-close peer.conn_id n, h, proxy_connect_sn)
      (index_missing peer.conn_id _ (gone peer.conn_id n))
