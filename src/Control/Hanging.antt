-- ===== src/Control/Hanging.antt =====
-- oxenmq/proxy.cpp, `proxy_send`: the loop over the peers of a service node that does not advance.
use oxen_mq.Common.{
  ℕ, ◌≡◌, refl, ap, ◌∙◌, inl, inr, Bool, true, false, Option, none, some, List, [], ◌∷◌, Bytes,
  bytes_eq, find, is_empty, if◌then◌else◌, some_inj, err, arith, Bool-cases,
}
use oxen_mq.ConnectionId.{ConnectionId, cid_eq, is_sn, of_pubkey}
use oxen_mq.Peers.{Net, PeerInfo}
use oxen_mq.Peers.Connecting.{pick_peer, change_peer, refresh, index_connection, proxy_connect_sn}
use oxen_mq.Control.{SendCommand}
use oxen_mq.Control.Sending.{
  host_unreachable, Outside, send_to, choose_socket, endless, drop_peer, recover, after_send,
  send_on, send_round, never_returns, send_loop, send_out, send_message_parts, build_send_parts,
}
use oxen_mq.Control.Rounds.{routed-refresh, peers-index}
use oxen_mq.Control.Retries.{find_sn}

module _ (c : ConnectionId) where
  abbrev first_route : List (ConnectionId × PeerInfo) → Option Bytes
  first_route [] = none
  first_route (e ∷ es) = if cid_eq e.0 c then some e.1.route else first_route es

  first_route-change :
      (i b : Bool) (now keep_alive : ℕ) (es : List (ConnectionId × PeerInfo))
      → first_route (change_peer i b c (refresh now keep_alive) es) ≡ first_route es
  first_route-change i b now keep_alive [] = refl
  first_route-change i b now keep_alive (e ∷ es) =
      ground (arith, routed-refresh now keep_alive e.1, first_route-change i b now keep_alive es)

  first_route-find :
      (es : List (ConnectionId × PeerInfo)) (q : PeerInfo)
      → find cid_eq c es ≡ some q
      → first_route es ≡ some q.route
  first_route-find [] q h = absurd (cc)
  first_route-find (e ∷ es) q h = ground (arith, first_route-find es q)

  find-first_route :
      (es : List (ConnectionId × PeerInfo)) (route : Bytes)
      → first_route es ≡ some route
      → (q : PeerInfo) × (find cid_eq c es ≡ some q) × (q.route ≡ route)
  find-first_route [] route h = absurd (cc)
  find-first_route (e ∷ es) route h = elim (Bool-cases (cid_eq e.0 c)) [
    | inl same ↦ (e.1, rw (same, find) refl, some_inj (rw same at h))
    | inr other ↦
        let (q, f, s) = find-first_route es route (rw other at h) in (q, rw (other, find) f, s)
  ]

recover-hangs :
    (r : SendCommand) (c : ConnectionId) (n : Net) (first : PeerInfo)
    → is_sn c ≡ true
    → is_empty c.route ≡ false
    → find cid_eq c n.peers ≡ some first
    → bytes_eq first.route c.route ≡ false
    → recover r host_unreachable c n ≡ endless
unfolding recover drop_peer
recover-hangs r c n first sn route f other = rw (route, f, recover) (rw (sn, other, drop_peer) refl)

picked_target :
    (o : Outside) (r : SendCommand) (n : Net) (picked : PeerInfo)
    → is_sn r.conn_id ≡ true
    → pick_peer r.incoming r.outgoing (of_pubkey r.conn_id.pk) n.peers ≡ some picked
    → choose_socket o r r.conn_id n ≡ (
      index_connection picked.conn_id (record n {
        peers =
            change_peer r.incoming r.outgoing
              (of_pubkey r.conn_id.pk)
              (refresh o.now r.keep_alive)
              n.peers;
      }),
      send_to picked.conn_id (record r.conn_id { route = picked.route }),
    )
unfolding choose_socket proxy_connect_sn
picked_target o r n picked sn p = rw sn (rw (p, proxy_connect_sn) refl)

-- A message to a service node that asks for an incoming connection, whose first peer in `peers` is
-- another than the incoming one that is picked: if zmq cannot reach that one, `proxy_send` never
-- returns.
pub send_out-never_returns :
    (o : Outside) (r : SendCommand) (n : Net) (picked first : PeerInfo)
    → is_sn r.conn_id ≡ true
    → r.incoming ≡ true
    → pick_peer true r.outgoing (of_pubkey r.conn_id.pk) n.peers ≡ some picked
    → find cid_eq (of_pubkey r.conn_id.pk) n.peers ≡ some first
    → bytes_eq first.route picked.route ≡ false
    → is_empty picked.route ≡ false
    → send_message_parts (o.zmq_send 0 picked.conn_id) (build_send_parts r.parts picked.route)
      ≡ err host_unreachable
    → send_out o r n ≡ never_returns
unfolding send_out send_loop
send_out-never_returns o r n picked first sn inc p f other route dead =
    let c = of_pubkey r.conn_id.pk in
    let c' = record r.conn_id { route = picked.route } in
    let m = index_connection picked.conn_id (record n {
      peers = change_peer r.incoming r.outgoing c (refresh o.now r.keep_alive) n.peers;
    }) in
    let same_route : first_route c m.peers ≡ some first.route =
      ap (first_route c) (
        peers-index picked.conn_id (record n {
          peers = change_peer r.incoming r.outgoing c (refresh o.now r.keep_alive) n.peers;
        }))
      ∙ first_route-change c r.incoming r.outgoing o.now r.keep_alive n.peers
      ∙ first_route-find c n.peers first f in
    let (q, found, q_route) = find-first_route c m.peers first.route same_route in
    let found' : find cid_eq c' m.peers ≡ some q = find_sn c' c m.peers sn refl refl ∙ found in
    let differs : bytes_eq q.route picked.route ≡ false = rw q_route other in
    let target : choose_socket o r r.conn_id n ≡ (m, send_to picked.conn_id c') =
      picked_target o r n picked sn (rw inc p) in
    let round : send_round o r 0 r.conn_id n ≡ endless =
      unfold send_round send_on after_send in
      rw (target, dead) (recover-hangs r c' m q sn route found' differs) in
    rw (round, send_loop) refl
