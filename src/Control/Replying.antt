-- ===== src/Control/Replying.antt =====
-- oxenmq/proxy.cpp: `proxy_reply` and `proxy_bind`.
use oxen_mq.Common.{
  ℕ, suc, Bool, true, false, Option, none, some, List, [], ◌∷◌, Bytes, ℤ, pos, if◌then◌else◌,
  Result, ok, err, ◌>>=◌,
}
use oxen_mq.ConnectionId.{ConnectionId, cid_eq}
use oxen_mq.Peers.{Net, PeerInfo, router, delivered, bound, outgoing, proxy_close_connection}
use oxen_mq.Peers.Connecting.{index_connection}
use oxen_mq.Control.{Dict, ControlError}
use oxen_mq.Control.Parsing.{parse_reply}
use oxen_mq.Control.Sending.{Outside, is_unreachable, send_message_parts, build_send_parts}

-- How the loop over the peers of the connection ends: `++it` may step over the end of the range.
pub data ReplyOutcome : Type 0 where
  replied : Net → ReplyOutcome
  past_the_end : ReplyOutcome

-- A peer that the loop has passed stays.
abbrev pub put_back : ConnectionId × PeerInfo → ReplyOutcome → ReplyOutcome
put_back e (replied n) = replied (record n { peers = e ∷ n.peers })
put_back e past_the_end = past_the_end

-- The message was accepted, or would block, which is not told apart; the peers after `e` stay.
abbrev pub stop_reply :
    Outside
    → ℕ
    → List Bytes
    → ConnectionId × PeerInfo
    → List (ConnectionId × PeerInfo)
    → Bool
    → Net
    → Net
stop_reply o attempt parts e es true n = record n {
  peers = e ∷ es;
  effects = delivered e.1.conn_id (build_send_parts parts e.1.route) ∷ n.effects;
}
stop_reply o attempt parts e es false n = record n { peers = e ∷ es }

-- The loop, over the peers that it has not passed; these are taken out of the state. With `skip` the
-- next peer of the connection is passed over, which is what `it = peers.erase(it); ++it;` does.
unfoldable pub reply_loop :
    Outside
    → ConnectionId
    → List Bytes
    → Bool
    → ℕ
    → List (ConnectionId × PeerInfo)
    → Net
    → ReplyOutcome
reply_loop o c parts true attempt [] n = past_the_end
reply_loop o c parts false attempt [] n = replied n
reply_loop o c parts skip attempt (e ∷ es) n = elim (cid_eq e.0 c) [
  | false ↦ put_back e (reply_loop o c parts skip attempt es n)
  | true ↦ elim skip [
    | true ↦ put_back e (reply_loop o c parts false attempt es n)
    | false ↦
        let m = index_connection e.1.conn_id n in
        elim (send_message_parts (o.zmq_send attempt e.1.conn_id)
          (build_send_parts parts e.1.route)) [
            | ok b ↦ replied (stop_reply o attempt parts e es b m)
            | err x ↦ elim (is_unreachable x) [
              | false ↦ put_back e (reply_loop o c parts false (suc attempt) es m)
              | true ↦
                  reply_loop o c parts (outgoing e.1) (suc attempt) es
                    (if outgoing e.1 then proxy_close_connection e.1.conn_id m else m)
            ]
          ]
  ]
]

-- `proxy_reply`. A connection without peers is only logged.
unfoldable pub proxy_reply : Outside → Dict → Net → Result ControlError ReplyOutcome
unfolding reply_loop
proxy_reply o d n = do
  (c, parts) ← parse_reply d
  ok (reply_loop o c parts false 0 n.peers (record n { peers = [] }))

-- `proxy_bind`, given whether zmq could bind: the id of the listener, if it could.
unfoldable pub proxy_bind : Bool → Option ℕ → Net → Net × Option ℤ
proxy_bind good on_bind n =
    let m : Net = elim on_bind [
      | none ↦ n
      | some f ↦ record n { effects = bound f good ∷ n.effects }
    ] in
    if good
    then (
      record m {
        connections = (pos n.next_conn_id, router) ∷ m.connections;
        next_conn_id = suc m.next_conn_id;
        connections_updated = true;
      },
      some (pos n.next_conn_id),
    )
    else (m, none)
