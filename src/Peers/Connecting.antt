-- ===== src/Peers/Connecting.antt =====
-- oxenmq/connections.cpp: the proxy opens, reuses, expires and closes connections. What zmq does when
-- asked to connect is an argument.
use oxen_mq.Common.{
  ℕ, suc, ◌+◌, ◌-◌, Bool, true, false, not, ◌&&◌, ◌||◌, Option, none, some, List, [], ◌∷◌, ◌++◌,
  Bytes, ℤ, pos, has_key, erase, is_empty, if◌then◌else◌, ltb, length, ◌==◌, Result, ok, ◌>>◌,
  throw_if,
}
use oxen_mq.Access.{AuthLevel}
use oxen_mq.ConnectionId.{ConnectionId, cid_eq, int_eq, of_pubkey, is_sn}
use oxen_mq.Peers.{
  PeerInfo, PendingConnect, dealer, null_socket, connect_failed, request_failed, said_hi, Net,
  outgoing, proxy_close_connection,
}

-- The first peer of that id, in the order of iteration, that the caller accepts.
abbrev pub pick_peer : Bool → Bool → ConnectionId → List (ConnectionId × PeerInfo) → Option PeerInfo
pick_peer incoming_only outgoing_only c [] = none
pick_peer incoming_only outgoing_only c (e ∷ es) =
    if cid_eq e.0 c
      && not ((incoming_only && outgoing e.1) || (outgoing_only && not (outgoing e.1)))
    then some e.1
    else pick_peer incoming_only outgoing_only c es

-- Changes that peer.
abbrev pub change_peer :
    Bool
    → Bool
    → ConnectionId
    → (PeerInfo → PeerInfo)
    → List (ConnectionId × PeerInfo)
    → List (ConnectionId × PeerInfo)
change_peer incoming_only outgoing_only c f [] = []
change_peer incoming_only outgoing_only c f (e ∷ es) =
    if cid_eq e.0 c
      && not ((incoming_only && outgoing e.1) || (outgoing_only && not (outgoing e.1)))
    then (e.0, f e.1) ∷ es
    else e ∷ change_peer incoming_only outgoing_only c f es

-- An outgoing peer that is used again: its time limit may grow, and it is active now.
abbrev pub refresh : ℕ → ℕ → PeerInfo → PeerInfo
refresh now keep_alive i =
    if outgoing i
    then record i {
      idle_expiry = if ltb i.idle_expiry keep_alive then keep_alive else i.idle_expiry;
      last_activity = now;
    }
    else i

-- `connections[id]`: a missing socket is made, without a handle.
abbrev pub index_connection : ℤ → Net → Net
index_connection id n =
    if has_key int_eq id n.connections
    then n
    else record n { connections = (id, null_socket) ∷ n.connections }

-- A new connection to a service node, which zmq accepted. The new id is `next_conn_id`.
unfoldable pub open_sn : Bytes → ℕ → ℕ → Net → Net
open_sn remote now keep_alive n =
    let id = pos n.next_conn_id in
    record n {
      peers =
          (
            of_pubkey remote,
            record {
              pubkey = remote;
              service_node = true;
              auth_level = AuthLevel.none;
              conn_id = id;
              route = [];
              last_activity = now;
              idle_expiry = keep_alive;
            },
          )
          ∷ n.peers;
      next_conn_id = suc n.next_conn_id;
      connections_updated = true;
      outgoing_sn_conns = (id, of_pubkey remote) ∷ n.outgoing_sn_conns;
      connections = (id, dealer) ∷ n.connections;
    }

-- `proxy_connect_sn`, for a key of 32 bytes (`ConnectionID` throws otherwise): the socket's id and the
-- route. `lookup` is the application's address function, `connects` tells whether zmq accepts an address.
unfoldable pub proxy_connect_sn :
    (Bytes → Bytes)
    → (Bytes → Bool)
    → Bytes
    → Bytes
    → Bool
    → Bool
    → Bool
    → ℕ
    → ℕ
    → Net
    → Net × Option (ℤ × Bytes)
proxy_connect_sn lookup connects remote hint optional incoming_only outgoing_only keep_alive now n =
    elim (pick_peer incoming_only outgoing_only (of_pubkey remote) n.peers) [
      | some peer ↦ (
        index_connection peer.conn_id (record n {
          peers =
              change_peer incoming_only outgoing_only (of_pubkey remote) (refresh now keep_alive)
                n.peers;
        }),
        some (peer.conn_id, peer.route),
      )
      | none ↦
          let addr = if is_empty hint then lookup remote else hint in
          if optional || incoming_only
          then (n, none)
          else if is_empty addr || not (connects addr)
          then (n, none)
          else (open_sn remote now keep_alive n, some (pos n.next_conn_id, []))
    ]

-- `proxy_expire_idle_peers`: the loop over the peers, which are taken out of the state first.
unfoldable pub expire_peers : ℕ → List (ConnectionId × PeerInfo) → Net → Net
expire_peers now [] n = n
expire_peers now (e ∷ es) n =
    if outgoing e.1 && ltb e.1.idle_expiry (now - e.1.last_activity)
    then expire_peers now es (proxy_close_connection e.1.conn_id n)
    else let m = expire_peers now es n in record m { peers = e ∷ m.peers }

unfoldable pub proxy_expire_idle_peers : ℕ → Net → Net
proxy_expire_idle_peers now n = expire_peers now n.peers (record n { peers = [] })

abbrev pub plain_id : ℤ → ConnectionId
plain_id id = record { id = id; pk = []; route = [] }

-- The failure callback, the closing, and `peers.erase(cid)`.
unfoldable pub fail_connect : PendingConnect → Net → Net
fail_connect c n =
    let m =
      proxy_close_connection c.conn_id
        (record n { effects = connect_failed c.on_failure (plain_id c.conn_id) ∷ n.effects }) in
    record m { peers = erase cid_eq (plain_id c.conn_id) m.peers }

-- The loop over `pending_connects`, which are taken out of the state first.
unfoldable pub expire_connects : ℕ → List PendingConnect → Net → Net
expire_connects now [] n = n
expire_connects now (c ∷ cs) n =
    if ltb c.deadline now
    then expire_connects now cs (fail_connect c n)
    else let m = expire_connects now cs n in record m { pending_connects = c ∷ m.pending_connects }

-- The loop over `pending_requests`.
unfoldable pub expire_requests : ℕ → List (Bytes × (ℕ × ℕ)) → Net → Net
expire_requests now [] n = n
expire_requests now (r ∷ rs) n =
    if ltb r.1.0 now
    then expire_requests now rs (record n { effects = request_failed r.1.1 r.0 ∷ n.effects })
    else let m = expire_requests now rs n in record m { pending_requests = r ∷ m.pending_requests }

unfoldable pub proxy_conn_cleanup : ℕ → Net → Net
proxy_conn_cleanup now n =
    let a = proxy_expire_idle_peers now n in
    let b = expire_connects now a.pending_connects (record a { pending_connects = [] }) in
    expire_requests now b.pending_requests (record b { pending_requests = [] })

-- 24h * 10 * 365 in milliseconds.
abbrev pub forever : ℕ
forever = 315360000000

-- `proxy_connect_remote`, when zmq accepts the address; `id` was taken from `next_conn_id` by the
-- caller. If zmq refuses it, only the failure callback is queued.
unfoldable pub proxy_connect_remote : Bool → ℤ → Bytes → AuthLevel → ℕ → ℕ → ℕ → ℕ → Net → Net
proxy_connect_remote connects id remote_pubkey auth_level on_connect on_failure now timeout n =
    if not connects
    then record n { effects = connect_failed on_failure (plain_id id) ∷ n.effects }
    else record n {
      connections = (id, dealer) ∷ n.connections;
      connections_updated = true;
      effects = said_hi id ∷ n.effects;
      pending_connects =
          n.pending_connects
          ++ record {
            conn_id = id;
            deadline = now + timeout;
            on_connect = on_connect;
            on_failure = on_failure;
          }
            ∷ [];
      peers =
          (
            record { id = id; pk = remote_pubkey; route = [] },
            record {
              pubkey = remote_pubkey;
              service_node = false;
              auth_level = auth_level;
              conn_id = id;
              route = [];
              last_activity = now;
              idle_expiry = forever;
            },
          )
          ∷ n.peers;
    }

-- `proxy_disconnect`: the first outgoing peer of that id is closed and forgotten.
unfoldable pub disconnect_peer : ConnectionId → List (ConnectionId × PeerInfo) → Net → Net
disconnect_peer c [] n = n
disconnect_peer c (e ∷ es) n =
    if cid_eq e.0 c && outgoing e.1
    then record (proxy_close_connection e.1.conn_id n) { peers = es }
    else let m = disconnect_peer c es n in record m { peers = e ∷ m.peers }

pub data DisconnectError : Type 0 where
  invalid_pubkey : DisconnectError

unfoldable pub proxy_disconnect : ConnectionId → Net → Result DisconnectError Net
proxy_disconnect c n = do
  throw_if (is_sn c && not (length c.pk == 32)) invalid_pubkey
  ok (disconnect_peer c n.peers (record n { peers = [] }))

-- The BYE command of `proxy_handle_builtin` (oxenmq/proxy.cpp): the peer stays in `peers`.
unfoldable pub handle_bye : Bool → ℤ → Net → Net
handle_bye incoming conn_id n = if incoming then n else proxy_close_connection conn_id n
