-- ===== src/Examples/Network.antt =====
-- A proxy with an outgoing connection to one service node, and a CURVE listener.
use oxen_mq.Common.{
  negsuc, ◌==◌, ℕ, ◌*◌, ◌≡◌, refl, ◌↔◌, true, false, not, ◌&&◌, ◌||◌, Option, none, some, List, [],
  ◌∷◌, Bytes, bytes, pos, arith, find, length, is_empty, if◌then◌else◌,
}
use oxen_mq.Access.{basic}
use oxen_mq.ConnectionId.{cid_eq, int_eq, of_pubkey}
use oxen_mq.Pool.{Category}
use oxen_mq.Peers.{PeerInfo, Net, dealer, null_socket, has}
use oxen_mq.Peers.Connecting.{proxy_connect_sn, handle_bye, pick_peer}
use oxen_mq.Peers.ServiceNodes.{proxy_update_active_sns, proxy_set_active_sns, is_pubkey}
use oxen_mq.Peers.ServiceNodes.Membership.{proxy_update_active_sns-has}
use oxen_mq.Peers.ServiceNodes.Replacement.{proxy_set_active_sns-has}
use oxen_mq.Peers.Opening.{handle_bye-null_socket}
use oxen_mq.Peers.Soundness.{IsSound}
use oxen_mq.Peers.Builtins.{proxy_handle_builtin}
use oxen_mq.Peers.Builtins.Replies.{Answered, proxy_handle_builtin-Answered}
use oxen_mq.Peers.Senders.{incoming_sender, incoming_sender-level}
use oxen_mq.Peers.Soundness.{IsSound}
use oxen_mq.Control.Replying.{proxy_bind}
use oxen_mq.Control.Reachability.{initial}
use oxen_mq.Auth.{proxy_check_auth, is_request, denial}
use oxen_mq.Auth.Zmtp.{zmtp_property}
use oxen_mq.Auth.Zap.{BindData, frame, zap_request, zap_listener, zap_decide, extract_metadata}
use oxen_mq.Auth.Checks.{
  IsRefused, Names, IsAllowed, proxy_check_auth-IsAllowed, proxy_check_auth-reply, IsAccepted,
  verdict, zap_request-IsAccepted, zap_listener-extract_metadata,
}

abbrev key : Bytes
key = bytes "0123456789abcdef0123456789abcdef"

abbrev other_key : Bytes
other_key = bytes "abcdef0123456789abcdef0123456789"

abbrev peer : PeerInfo
peer = record {
  pubkey = key;
  service_node = true;
  auth_level = basic;
  conn_id = pos 0;
  route = [];
  last_activity = 3;
  idle_expiry = 10;
}

abbrev net : Net
net = record {
  peers = (of_pubkey key, peer) ∷ [];
  outgoing_sn_conns = (pos 0, of_pubkey key) ∷ [];
  connections = (pos 0, dealer) ∷ [];
  next_conn_id = 1;
  connections_updated = false;
  active_service_nodes = key ∷ [];
  pending_connects = [];
  pending_requests = [];
  effects = [];
}

abbrev lookup : Bytes → Bytes
lookup pk = bytes "tcp://127.0.0.1:1"

-- A listener is bound, a service node connects to it, and the other way round; then BYE comes over the
-- new connection.
abbrev bound_net : Net
bound_net = (proxy_bind true none initial).0

abbrev known_net : Net
known_net = proxy_set_active_sns (key ∷ []) bound_net

abbrev heard_net : Net
heard_net = (incoming_sender (negsuc 6) other_key (pos 1) (bytes "r") key basic known_net).0

abbrev connected_net : Net
connected_net = (proxy_connect_sn lookup (λ a. true) key [] false false true 30 20 heard_net).0

proxy_update_active_sns-has_example :
    has key (proxy_update_active_sns (other_key ∷ []) (key ∷ []) net).active_service_nodes
    ≡ (is_pubkey key && has key (other_key ∷ []))
      || (has key net.active_service_nodes
          && not (is_pubkey key && (has key (key ∷ []) && not (has key (other_key ∷ [])))))
proxy_update_active_sns-has_example =
    proxy_update_active_sns-has (other_key ∷ []) (key ∷ []) net key

proxy_set_active_sns-has_example :
    has key (proxy_set_active_sns (other_key ∷ []) net).active_service_nodes
    ≡ is_pubkey key && has key (other_key ∷ [])
proxy_set_active_sns-has_example =
    proxy_set_active_sns-has (other_key ∷ []) net (refl, tt) (refl, tt) key

picked : pick_peer false false (of_pubkey key) net.peers ≡ some peer
unfolding cid_eq
picked = refl

handle_bye-null_socket_example :
    find int_eq
      (pos 0)
      (proxy_connect_sn lookup
        (λ a. true)
        key
        []
        false
        false
        false
        30
        20
        (handle_bye false (pos 0) net)).0.connections
    ≡ some null_socket
handle_bye-null_socket_example =
    handle_bye-null_socket lookup (λ a. true) key [] false false false 30 20 net peer picked

abbrev rpc_category : Category
rpc_category = record {
  name = bytes "rpc";
  access = record { auth = basic; remote_sn = true; local_sn = false };
  commands = [];
  reserved_threads = 0;
  active_threads = 0;
  max_queue = pos 200;
  queued = 0;
}

proxy_check_auth-IsAllowed_example :
    ((proxy_check_auth false true peer (bytes "rpc.x") (some rpc_category) (some (1, false)) []).0
      ≡ true)
    ↔ ((c : Category) × (some rpc_category ≡ some c)
        × IsAllowed false peer c
        × (is_request (some (1, false)) ≡ true → true ≡ false))
proxy_check_auth-IsAllowed_example =
    proxy_check_auth-IsAllowed false true peer (bytes "rpc.x") (some rpc_category) (some (1, false))
      []

refused : (proxy_check_auth false true peer (bytes "rpc.x") none none []).0 ≡ false
unfolding proxy_check_auth denial
refused = refl

proxy_check_auth-reply_example :
    (reply : Bytes) × (tail : List Bytes) × IsRefused false peer none [] none reply
    × Names false (bytes "rpc.x") [] tail
    × ((proxy_check_auth false true peer (bytes "rpc.x") none none []).1 ≡ reply ∷ tail)
proxy_check_auth-reply_example =
    proxy_check_auth-reply false true peer (bytes "rpc.x") none none [] refused

-- Two digits for a byte: this stands in for hex.
abbrev twice : Bytes → Bytes
twice [] = []
twice (b ∷ bs) = b ∷ 0 ∷ twice bs

abbrev halve : Bytes → Bytes
halve [] = []
halve (b ∷ []) = []
halve (b ∷ c ∷ bs) = b ∷ halve bs

length-twice : (k : Bytes) → length (twice k) ≡ 2 * length k
length-twice [] = refl
length-twice (b ∷ bs) = omega (arith, length-twice bs)

halve-twice : (k : Bytes) → halve (twice k) ≡ k
halve-twice [] = refl
halve-twice (b ∷ bs) = rw (halve-twice bs)

abbrev parse_domain : Bytes → Option ℕ
parse_domain s = if is_empty s then none else some 0

abbrev listener : BindData
listener = record { curve = true; allow = λ ip pubkey sn. basic }

abbrev request : List Bytes
request = bytes "1.0" ∷ bytes "7" ∷ bytes "i0e" ∷ bytes "10.0.0.1" ∷ [] ∷ bytes "CURVE" ∷ key ∷ []

accepted :
    (zap_request twice halve parse_domain (listener ∷ []) [] request).status_code ≡ bytes "200"
unfolding zap_request zap_listener zap_decide
accepted = refl

zap_request-IsAccepted_example : IsAccepted twice halve parse_domain (listener ∷ []) [] request
zap_request-IsAccepted_example =
    zap_request-IsAccepted twice halve parse_domain (listener ∷ []) [] request accepted

listened : (zap_listener twice halve parse_domain listener [] request).status_code ≡ bytes "200"
unfolding zap_listener zap_decide
listened = refl

zap_listener-extract_metadata_example :
    (level : Bytes) × (zmtp_property
        (zap_listener twice halve parse_domain listener [] request).metadata
      ≡ some ((bytes "X-AuthLevel", level), []))
    × (extract_metadata twice halve parse_domain
          (some (zap_listener twice halve parse_domain listener [] request).user_id)
          (some level)
        ≡ (frame 6 request, verdict twice halve parse_domain listener [] request))
zap_listener-extract_metadata_example =
    zap_listener-extract_metadata twice halve parse_domain length-twice halve-twice listener []
      request refl listened

-- A request is pending under the tag "t1", with the callback 5.
abbrev asking : Net
asking = record net { pending_requests = (bytes "t1", (40, 5)) ∷ [] }

proxy_handle_builtin-Answered_example :
    Answered
      (bytes "t1")
      5
      true
      (bytes "yes" ∷ [])
      asking
      (proxy_handle_builtin false (pos 0) (bytes "REPLY" ∷ bytes "t1" ∷ bytes "yes" ∷ []) asking).0
proxy_handle_builtin-Answered_example =
    proxy_handle_builtin-Answered false (pos 0) [] (bytes "t1") (bytes "yes" ∷ []) asking (40, 5)
      refl

incoming_sender-level_example :
    let i = (incoming_sender (pos 9) other_key (pos 2) (bytes "r") key basic net).1 in
    (i.auth_level ≡ basic)
    × (i.service_node ≡ length key == 32 && has key net.active_service_nodes)
    × (i.conn_id ≡ pos 2)
    × (i.route ≡ bytes "r")
incoming_sender-level_example =
    incoming_sender-level (pos 9) other_key (pos 2) (bytes "r") key basic net refl
