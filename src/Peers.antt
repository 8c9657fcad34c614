-- ===== src/Peers.antt =====
-- The connections of the proxy: oxenmq/oxenmq.h (`peer_info` and the connection members of `OxenMQ`)
-- and oxenmq/connections.cpp. A connection id is an `int64_t`, a time a number of clock ticks.
pub mod Connecting
pub mod ServiceNodes
pub mod Links
pub mod Opening
pub mod Soundness
pub mod Builtins
pub mod Senders
use oxen_mq.Common.{
  ℕ, ◌+◌, Bool, true, false, Option, none, some, List, [], ◌∷◌, ◌++◌, Bytes, bytes_eq, ℤ, pos, any,
  is_empty, has_key, erase,
}
use oxen_mq.Access.{AuthLevel, none}
use oxen_mq.ConnectionId.{ConnectionId, int_eq, cid_eq}

pub record PeerInfo : Type 0 where
  pub pubkey : Bytes
  pub service_node : Bool
  pub auth_level : AuthLevel
  pub conn_id : ℤ
  pub route : Bytes
  pub last_activity : ℕ
  pub idle_expiry : ℕ

-- A pending connection: its id, when it times out, and its two callbacks.
pub record PendingConnect : Type 0 where
  pub conn_id : ℤ
  pub deadline : ℕ
  pub on_connect : ℕ
  pub on_failure : ℕ

-- The sockets of the map `connections`: one that listens, one that connects, and the one without a
-- handle that `connections[id]` makes for a missing id.
pub data Socket : Type 0 where
  router dealer null_socket : Socket

-- What the proxy does to the sockets and queues as jobs, latest first.
pub data NetEffect : Type 0 where
  closed : ℤ → NetEffect
  connect_failed : ℕ → ConnectionId → NetEffect
  request_failed : ℕ → Bytes → NetEffect
  said_hi : ℤ → NetEffect
  said_hello : Bytes → NetEffect
  connected : ℕ → ConnectionId → NetEffect
  request_answered : ℕ → Bool → List Bytes → NetEffect
  delivered : ℤ → List Bytes → NetEffect
  send_failed : ℕ → Bool → NetEffect  -- with an exception, or with a null pointer
  queue_was_full : ℕ → NetEffect
  bound : ℕ → Bool → NetEffect

pub record Net : Type 0 where
  pub peers : List (ConnectionId × PeerInfo)
  pub outgoing_sn_conns : List (ℤ × ConnectionId)
  pub connections : List (ℤ × Socket)
  pub next_conn_id : ℕ
  pub connections_updated : Bool
  pub active_service_nodes : List Bytes
  pub pending_connects : List PendingConnect
  pub pending_requests : List (Bytes × (ℕ × ℕ))  -- the time limit and the callback
  pub effects : List NetEffect

-- A peer we connected to has no route.
abbrev pub outgoing : PeerInfo → Bool
outgoing i = is_empty i.route

-- `activity()`.
abbrev pub touch : ℕ → PeerInfo → PeerInfo
touch now i = record i { last_activity = now }

-- `set.count(pk)`.
abbrev pub has : Bytes → List Bytes → Bool
has pk s = any (bytes_eq pk) s

-- `proxy_close_connection`. A connection that does not exist is only logged.
unfoldable pub proxy_close_connection : ℤ → Net → Net
proxy_close_connection id n = elim (has_key int_eq id n.connections) [
  | false ↦ n
  | true ↦ record n {
    connections = erase int_eq id n.connections;
    connections_updated = true;
    outgoing_sn_conns = erase int_eq id n.outgoing_sn_conns;
    effects = closed id ∷ n.effects;
  }
]
