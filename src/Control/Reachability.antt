-- ===== src/Control/Reachability.antt =====
-- The peers and connections that the operations of oxenmq/connections.cpp, oxenmq/auth.cpp,
-- oxenmq/worker.cpp and oxenmq/proxy.cpp lead to, from the first listener on.
use oxen_mq.Common.{
  has_key, ◌<◌, ℕ, suc, ◌≡◌, Bool, true, false, Option, List, [], Bytes, ℤ, pos, is_empty, ok,
}
use oxen_mq.Access.{AuthLevel}
use oxen_mq.ConnectionId.{ConnectionId, int_eq}
use oxen_mq.Peers.{Net}
use oxen_mq.Peers.Connecting.{
  proxy_connect_sn, proxy_conn_cleanup, proxy_connect_remote, proxy_disconnect,
}
use oxen_mq.Peers.Senders.{outgoing_sender, incoming_sender}
use oxen_mq.Peers.ServiceNodes.{proxy_update_active_sns, proxy_set_active_sns}
use oxen_mq.Control.{SendCommand, Dict}
use oxen_mq.Control.Sending.{Outside, Round, finished, again, endless, returns, send_out}
use oxen_mq.Control.Replying.{proxy_bind, proxy_reply, replied}
use oxen_mq.Peers.Builtins.{proxy_handle_builtin}
use oxen_mq.Peers.Soundness.{used, IsSound}

abbrev RoundIsSound : Round → Type 0
RoundIsSound (finished m sent f) = IsSound m
RoundIsSound (again m c) = IsSound m
RoundIsSound endless = Unit

-- The operations of the proxy on its peers and connections. A message from a listener comes over one of
-- the connections, with a route; the id of a remote was taken for it by `connect_remote` or
-- `connect_inproc`, and nothing has it yet. A send that never returns, and a reply that
-- steps past the end of the peers, have no state after them.
pub data NetStep (n : Net) : Net → Type 0 where
  sends : (o : Outside) (r : SendCommand) {m : Net} → send_out o r n ≡ returns m → NetStep n m
  replies : (o : Outside) (d : Dict) {m : Net} → proxy_reply o d n ≡ ok (replied m) → NetStep n m
  connects_sn :
      (lookup : Bytes → Bytes) (accepts : Bytes → Bool) (remote hint : Bytes)
      (optional incoming_only outgoing_only : Bool) (keep_alive now : ℕ)
      → NetStep n
          (proxy_connect_sn lookup accepts remote hint optional incoming_only outgoing_only
            keep_alive now n).0
  takes_id : NetStep n (record n { next_conn_id = suc n.next_conn_id })
  connects_remote :
      (accepts : Bool) (k : ℕ) (pk : Bytes) (level : AuthLevel)
      (on_connect on_failure now timeout : ℕ)
      → k < n.next_conn_id
      → has_key int_eq (pos k) n.connections ≡ false
      → used (pos k) n.peers ≡ false
      → NetStep n
          (proxy_connect_remote accepts (pos k) pk level on_connect on_failure now timeout n)
  hears :
      (incoming : Bool) (conn_id : ℤ) (parts : List Bytes)
      → NetStep n (proxy_handle_builtin incoming conn_id parts n).0
  hears_outgoing : (conn_id : ℤ) → NetStep n (outgoing_sender conn_id n).0
  hears_incoming :
      (inproc : ℤ) (own : Bytes) (conn_id : ℤ) (route pk : Bytes) (level : AuthLevel)
      → has_key int_eq conn_id n.connections ≡ true
      → is_empty route ≡ false
      → NetStep n (incoming_sender inproc own conn_id route pk level n).0
  cleans_up : (now : ℕ) → NetStep n (proxy_conn_cleanup now n)
  updates_sns : (added removed : List Bytes) → NetStep n (proxy_update_active_sns added removed n)
  sets_sns : (pks : List Bytes) → NetStep n (proxy_set_active_sns pks n)
  disconnects : (c : ConnectionId) {m : Net} → proxy_disconnect c n ≡ ok m → NetStep n m
  binds : (good : Bool) (on_bind : Option ℕ) → NetStep n (proxy_bind good on_bind n).0

pub data NetReach (n : Net) : Net → Type 0 where
  here : NetReach n n
  next : {k m : Net} → NetReach n k → NetStep k m → NetReach n m

-- The proxy before it binds its first listener: the first id is 1.
abbrev pub initial : Net
initial = record {
  peers = [];
  outgoing_sn_conns = [];
  connections = [];
  next_conn_id = 1;
  connections_updated = false;
  active_service_nodes = [];
  pending_connects = [];
  pending_requests = [];
  effects = [];
}
