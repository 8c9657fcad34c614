-- ===== src/Control/Sending.antt =====
-- oxenmq/proxy.cpp, `proxy_send`, with the helpers of oxenmq/oxenmq-internal.h that put messages
-- together. What zmq does with each part of a message, and the application's address function, are
-- arguments.
use oxen_mq.Common.{
  ℕ, zero, suc, ◌+◌, Bool, true, false, not, ◌&&◌, Option, none, some, List, [], ◌∷◌, ◌++◌, Bytes,
  bytes, bytes_eq, ℤ, find, has_key, is_empty, if◌then◌else◌, Result, ok, err, ◌>>=◌,
}
use oxen_mq.ConnectionId.{ConnectionId, cid_eq, int_eq, is_sn}
use oxen_mq.Peers.{Net, PeerInfo, delivered, send_failed, queue_was_full, request_answered}
use oxen_mq.Peers.Connecting.{proxy_connect_sn}
use oxen_mq.Control.{Dict, ControlError, Request, SendCommand}
use oxen_mq.Control.Parsing.{parse_send}

-- `zmq::error_t`: EHOSTUNREACH, or another error number.
pub data ZmqError : Type 0 where
  host_unreachable : ZmqError
  other_error : ℕ → ZmqError

-- What the proxy meets outside: addresses of service nodes, which of them zmq accepts, the time, and
-- what zmq does with a part of a message, by the attempt, the socket, the part, and whether more
-- parts follow.
pub record Outside : Type 0 where
  pub lookup : Bytes → Bytes
  pub connects : Bytes → Bool
  pub now : ℕ
  pub zmq_send : ℕ → ℤ → Bytes → Bool → Result ZmqError Bool

unfoldable pub send_message_parts :
    (Bytes → Bool → Result ZmqError Bool) → List Bytes → Result ZmqError Bool
send_message_parts send [] = ok true
send_message_parts send (msg ∷ msgs) = do
  accepted ← send msg (not (is_empty msgs))
  if accepted then send_message_parts send msgs else ok false

unfoldable pub build_send_parts : List Bytes → Bytes → List Bytes
build_send_parts send route = (if is_empty route then [] else route ∷ []) ++ send

-- Which socket to send on, with the connection id that has its route then.
pub data Target : Type 0 where
  no_socket : Target
  send_to : ℤ → ConnectionId → Target

-- The socket and route that `proxy_connect_sn` gives.
abbrev pub sn_target : ConnectionId → Net × Option (ℤ × Bytes) → Net × Target
sn_target c (m, none) = (m, no_socket)
sn_target c (m, some (id, route)) = (m, send_to id (record c { route = route }))

unfoldable pub choose_socket : Outside → SendCommand → ConnectionId → Net → Net × Target
choose_socket o r c n =
    if is_sn c
    then sn_target c (
        proxy_connect_sn o.lookup o.connects c.pk r.hint r.optional r.incoming r.outgoing
          r.keep_alive o.now n)
    else if not (is_empty c.route)
    then (n, if has_key int_eq c.id n.connections then send_to c.id c else no_socket)
    else elim (find cid_eq c n.peers) [
      | none ↦ (n, no_socket)
      | some peer ↦ (
        n,
        if has_key int_eq peer.conn_id n.connections then send_to peer.conn_id c else no_socket,
      )
    ]

-- `peers.erase(it)` for the first of the peers of an id.
abbrev pub erase_first :
    ConnectionId → List (ConnectionId × PeerInfo) → List (ConnectionId × PeerInfo)
erase_first c [] = []
erase_first c (e ∷ es) = if cid_eq e.0 c then es else e ∷ erase_first c es

-- How a round of the loop ends: `sent` with the failure callback that is left, another round, or never,
-- since the loop over the peers of a service node does not advance past one with another route.
pub data Round : Type 0 where
  finished : Net → Bool → Option ℕ → Round
  again : Net → ConnectionId → Round
  endless : Round

-- The exception is reported, by the callback where there is one.
abbrev pub report_error : Option ℕ → Net → Net
report_error none n = n
report_error (some f) n = record n { effects = send_failed f true ∷ n.effects }

abbrev pub is_unreachable : ZmqError → Bool
is_unreachable host_unreachable = true
is_unreachable (other_error e) = false

-- The handler of an exception, for the peers of the id.
unfoldable pub drop_peer : SendCommand → ConnectionId → PeerInfo → Net → Round
drop_peer r c peer n =
    if not (is_sn c)
    then finished (report_error r.callback_nosend (record n { peers = erase_first c n.peers }))
        false none
    else if bytes_eq peer.route c.route
    then again (record n { peers = erase_first c n.peers }) c
    else endless

unfoldable pub recover : SendCommand → ZmqError → ConnectionId → Net → Round
recover r e c n =
    if is_unreachable e && not (is_empty c.route)
    then elim (find cid_eq c n.peers) [
      | none ↦ finished (report_error r.callback_nosend n) false none
      | some peer ↦ drop_peer r c peer n
    ]
    else finished (report_error r.callback_nosend n) false none

-- What the answer of zmq leads to.
unfoldable pub after_send : SendCommand → ℤ → ConnectionId → Net → Result ZmqError Bool → Round
unfolding recover
after_send r id c n (ok true) =
    finished (record n { effects = delivered id (build_send_parts r.parts c.route) ∷ n.effects })
      true r.callback_nosend
after_send r id c n (ok false) = finished n false r.callback_nosend
after_send r id c n (err e) = recover r e c n

unfoldable pub send_on : Outside → SendCommand → ℕ → Net × Target → Round
unfolding after_send
send_on o r attempt (n, no_socket) = finished n false r.callback_nosend
send_on o r attempt (n, send_to id c) =
    after_send r id c n
      (send_message_parts (o.zmq_send attempt id) (build_send_parts r.parts c.route))

unfoldable pub send_round : Outside → SendCommand → ℕ → ConnectionId → Net → Round
unfolding send_on choose_socket
send_round o r attempt c n = send_on o r attempt (choose_socket o r c n)

-- After the loop: a request waits for its reply or fails, and who asked is told of a failure.
unfoldable pub register_request : ℕ → Option Request → Bool → Net → Net
register_request now none sent n = n
register_request now (some q) true n =
    if has_key bytes_eq q.tag n.pending_requests
    then n
    else record n { pending_requests = (q.tag, (now + q.timeout, q.callback)) ∷ n.pending_requests }
register_request now (some q) false n = record n {
  effects = request_answered q.callback false (bytes "TIMEOUT" ∷ []) ∷ n.effects;
}

unfoldable pub report_unsent : Bool → Option ℕ → Option ℕ → Net → Net
report_unsent true nosend noqueue n = n
report_unsent false (some f) noqueue n = record n { effects = send_failed f false ∷ n.effects }
report_unsent false none (some f) n = record n { effects = queue_was_full f ∷ n.effects }
report_unsent false none none n = n

pub data Outcome : Type 0 where
  returns : Net → Outcome
  never_returns : Outcome
  out_of_fuel : Outcome

unfoldable pub conclude : Outside → SendCommand → Net → Bool → Option ℕ → Net
unfolding register_request report_unsent
conclude o r n sent nosend =
    report_unsent sent nosend r.callback_noqueue (register_request o.now r.request sent n)

unfoldable pub send_loop : Outside → SendCommand → ℕ → ℕ → ConnectionId → Net → Outcome
send_loop o r zero attempt c n = out_of_fuel
send_loop o r (suc fuel) attempt c n = elim (send_round o r attempt c n) [
  | finished m sent nosend ↦ returns (conclude o r m sent nosend)
  | again m c' ↦ send_loop o r fuel (suc attempt) c' m
  | endless ↦ never_returns
]

-- The peers that connected to us.
abbrev pub routed : List (ConnectionId × PeerInfo) → ℕ
routed [] = 0
routed (e ∷ es) = (if is_empty e.1.route then 0 else 1) + routed es

-- `proxy_send`, after it has read its dictionary: each further round has one incoming peer less.
unfoldable pub send_out : Outside → SendCommand → Net → Outcome
unfolding send_loop
send_out o r n = send_loop o r (suc (routed n.peers)) 0 r.conn_id n

unfoldable pub proxy_send : Outside → Dict → Net → Result ControlError Outcome
unfolding send_out
proxy_send o d n = do r ← parse_send d; ok (send_out o r n)
