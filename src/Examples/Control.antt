-- ===== src/Examples/Control.antt =====
-- Messages on their way from the public functions to zmq.
use oxen_mq.Common.{
  ℕ, ℤ, ◌>>=◌, Option, ◌*◌, ◌≡◌, refl, true, false, none, some, List, [], ◌∷◌, Bytes, bytes, pos,
  negsuc, ok, err, if◌then◌else◌, ◌==◌,
}
use oxen_mq.Access.{AuthLevel}
use oxen_mq.ConnectionId.{of_pubkey, cid_eq}
use oxen_mq.Address.{make_tcp_curve, is_curve, Address, hex, full_address, plain_proto}
use oxen_mq.Examples.Codecs.{codecs}
use oxen_mq.Peers.{Net, PeerInfo, router, dealer, delivered}
use oxen_mq.Peers.Connecting.{proxy_connect_sn}
use oxen_mq.Control.{SendCommand}
use oxen_mq.Control.Parsing.{
  parse_send, parse_connect_sn, parse_connect_remote, default_connect_sn_keep_alive,
  default_request_timeout,
}
use oxen_mq.Control.Interface.{
  SendOption, ConnectOption, build_send, build_request, connect_sn, connect_remote,
}
use oxen_mq.Control.Delivery.{wanted, parts_of, last_of, request_timeout_of, parse_send-build}
use oxen_mq.Control.Connections
use oxen_mq.Control.Connections.{parse_connect_sn-connect_sn, parse_connect_remote-connect_remote}
use oxen_mq.Control.Sending.{
  host_unreachable, Outside, returns, never_returns, send_out, send_loop, send_round, send_on,
  choose_socket, after_send, send_message_parts, build_send_parts, conclude,
}
use oxen_mq.Control.Retries.{send_out-returns}
use oxen_mq.Control.Outcomes.{SendReport, send_out-SendReport}
use oxen_mq.Control.Hanging.{send_out-never_returns}

abbrev key : Bytes
key = bytes "01234567890123456789012345678901"

-- A service node that we are connected to, and that is connected to us.
abbrev ours : PeerInfo
ours = record {
  pubkey = key;
  service_node = true;
  auth_level = AuthLevel.none;
  conn_id = pos 2;
  route = [];
  last_activity = 0;
  idle_expiry = 100;
}

abbrev theirs : PeerInfo
theirs = record ours { conn_id = pos 1; route = bytes "r" }

abbrev net : Net
net = record {
  peers = (of_pubkey key, ours) ∷ (of_pubkey key, theirs) ∷ [];
  outgoing_sn_conns = (pos 2, of_pubkey key) ∷ [];
  connections = (pos 1, router) ∷ (pos 2, dealer) ∷ [];
  next_conn_id = 3;
  connections_updated = false;
  active_service_nodes = key ∷ [];
  pending_connects = [];
  pending_requests = [];
  effects = [];
}

-- zmq accepts what is sent on connection 2 only.
abbrev outside : Outside
outside = record {
  lookup = λ pk. [];
  connects = λ a. true;
  now = 50;
  zmq_send = λ attempt id part more. elim id [
    | pos n ↦ if n == 2 then ok true else err host_unreachable
    | negsuc n ↦ err host_unreachable
  ];
}

abbrev options : List SendOption
options =
    SendOption.part (bytes "a") ∷ SendOption.keep_alive (negsuc 0) ∷ SendOption.incoming true ∷ []

abbrev to_node : SendCommand
to_node = wanted (of_pubkey key) (bytes "cmd" ∷ []) none []

abbrev to_incoming : SendCommand
to_incoming = wanted (of_pubkey key) (bytes "cmd" ∷ []) none (SendOption.incoming true ∷ [])

parse_send-build_example :
    (parse_send (build_send (of_pubkey key) (bytes "c.d") options)
      ≡ ok (wanted (of_pubkey key) (bytes "c.d" ∷ parts_of options) none options))
    × (parse_send (build_request (of_pubkey key) (bytes "c.d") 7 (bytes "tag") options)
        ≡ ok (
            wanted
              (of_pubkey key)
              (bytes "c.d" ∷ bytes "tag" ∷ parts_of options)
              (some (record {
                callback = 7;
                tag = bytes "tag";
                timeout = last_of request_timeout_of default_request_timeout options;
              }))
              options))
parse_send-build_example = parse_send-build (of_pubkey key) (bytes "c.d") options 7 (bytes "tag")

parse_connect_sn-connect_sn_example :
    parse_connect_sn false 0 (connect_sn false key [])
    ≡ ok (record {
      remote_pk = key;
      hint = last_of Connections.hint_of [] [];
      optional = false;
      incoming_only = false;
      outgoing_only = false;
      ephemeral_rid = last_of Connections.routing_of false [];
      keep_alive = last_of Connections.keep_alive_of (1000 * default_connect_sn_keep_alive) [];
    })
parse_connect_sn-connect_sn_example = parse_connect_sn-connect_sn false false 0 key []

abbrev remote : Address
remote = make_tcp_curve (bytes "h") 22 key

-- How oxenc reads an unsigned integer.
abbrev consume : ℤ → Option ℕ
consume (pos n) = some n
consume (negsuc n) = none

abbrev late : List ConnectOption
late = ConnectOption.timeout (pos 5) ∷ []

parse_connect_remote-connect_remote_example :
    parse_connect_remote consume false (connect_remote (pos 3) remote 1 2 late) ≡ (
      Connections.time_limit (last_of Connections.timeout_of none late) >>= λ timeout. ok (record {
        auth_level = last_of Connections.auth_level_of AuthLevel.none late;
        conn_id = pos 3;
        on_connect = some 1;
        on_failure = some 2;
        remote =
            full_address codecs hex
              (record remote { protocol = plain_proto remote.protocol; pubkey = [] });
        remote_pubkey = if is_curve remote then remote.pubkey else [];
        timeout = timeout;
        ephemeral_rid = last_of Connections.routing_of false late;
      }))
parse_connect_remote-connect_remote_example =
    parse_connect_remote-connect_remote consume codecs hex false (pos 3) remote 1 2 late (λ t. refl)
      (λ t. refl) refl

send_out-returns_example : (m : Net) × (send_out outside to_node net ≡ returns m)
send_out-returns_example = send_out-returns outside to_node net refl

send_out-never_returns_example : send_out outside to_incoming net ≡ never_returns
unfolding cid_eq send_message_parts build_send_parts
send_out-never_returns_example =
    send_out-never_returns outside to_incoming net theirs ours refl refl refl refl refl refl refl

-- The message goes out on our own connection, which is refreshed.
abbrev delivered_net : Net
delivered_net = record net {
  peers =
      (of_pubkey key, record ours { last_activity = 50; idle_expiry = 30000 })
      ∷ (of_pubkey key, theirs)
      ∷ [];
  effects = delivered (pos 2) (bytes "cmd" ∷ []) ∷ [];
}

send_out-SendReport_example : SendReport outside to_node [] [] delivered_net
unfolding send_out send_loop send_round send_on after_send choose_socket proxy_connect_sn cid_eq
    send_message_parts build_send_parts conclude
send_out-SendReport_example = send_out-SendReport outside to_node net delivered_net refl
