-- ===== src/Control/Rounds.antt =====
-- The rounds of the retry loop of `proxy_send` (oxenmq/proxy.cpp), and the incoming peers they use up.
use oxen_mq.Common.{
  ℕ, zero, suc, ◌<◌, ◌≡◌, ◌≢◌, refl, ◌∙◌, inl, inr, ◌⊎◌, Bool, true, false, not, ◌&&◌, Option, none,
  some, List, [], ◌∷◌, Bytes, eq_of_bytes_eq, ℤ, find, is_empty, Result, ok, err, arith, Bool-cases,
  Option-cases,
}
use oxen_mq.ConnectionId.{ConnectionId, cid_eq, is_sn, of_pubkey}
use oxen_mq.Peers.{Net, PeerInfo}
use oxen_mq.Peers.Connecting.{
  pick_peer, change_peer, refresh, index_connection, open_sn, proxy_connect_sn,
}
use oxen_mq.Control.{SendCommand}
use oxen_mq.Control.Sending.{
  ZmqError, Outside, Target, no_socket, send_to, sn_target, choose_socket, erase_first, Round,
  finished, again, endless, drop_peer, recover, after_send, send_on, send_round, out_of_fuel,
  send_loop, routed, is_unreachable,
}

-- Reusing or opening a connection leaves the incoming peers as they are.
pub routed-refresh :
    (now keep_alive : ℕ) (i : PeerInfo) → (refresh now keep_alive i).route ≡ i.route
routed-refresh now keep_alive i = ground arith

routed-change :
    (i o : Bool) (c : ConnectionId) (now keep_alive : ℕ) (es : List (ConnectionId × PeerInfo))
    → routed (change_peer i o c (refresh now keep_alive) es) ≡ routed es
routed-change i o c now keep_alive [] = refl
routed-change i o c now keep_alive (e ∷ es) =
    ground (arith, routed-refresh now keep_alive e.1, routed-change i o c now keep_alive es)

pub peers-index : (id : ℤ) (n : Net) → (index_connection id n).peers ≡ n.peers
peers-index id n = ground arith

routed-connect_sn :
    (lookup : Bytes → Bytes) (connects : Bytes → Bool) (remote hint : Bytes) (optional i o : Bool)
    (keep_alive now : ℕ) (n : Net)
    → routed (proxy_connect_sn lookup connects remote hint optional i o keep_alive now n).0.peers
      ≡ routed n.peers
unfolding proxy_connect_sn open_sn
routed-connect_sn lookup connects remote hint optional i o keep_alive now n =
    elim (Option-cases (pick_peer i o (of_pubkey remote) n.peers)) [
      | inl e ↦ rw (e, proxy_connect_sn) (ground arith)
      | inr (peer, e) ↦
          rw (e, proxy_connect_sn, peers-index peer.conn_id)
            (routed-change i o (of_pubkey remote) now keep_alive n.peers)
    ]

routed-sn_target : (c : ConnectionId) (r : Net × Option (ℤ × Bytes)) → (sn_target c r).0 ≡ r.0
routed-sn_target c (m, none) = refl
routed-sn_target c (m, some (id, route)) = refl

routed-choose_socket :
    (o : Outside) (r : SendCommand) (c : ConnectionId) (n : Net)
    → routed (choose_socket o r c n).0.peers ≡ routed n.peers
unfolding choose_socket
routed-choose_socket o r c n = elim (Bool-cases (is_sn c)) [
  | inl sn ↦
      rw (sn, routed-sn_target)
        (routed-connect_sn o.lookup o.connects c.pk r.hint r.optional r.incoming r.outgoing
          r.keep_alive o.now n)
  | inr other ↦ rw other (ground arith)
]

-- Erasing a peer with a route leaves one less.
routed-erase_first :
    (c : ConnectionId) (es : List (ConnectionId × PeerInfo)) (peer : PeerInfo)
    → find cid_eq c es ≡ some peer
    → is_empty peer.route ≡ false
    → suc (routed (erase_first c es)) ≡ routed es
routed-erase_first c [] peer f e = absurd (cc)
routed-erase_first c (x ∷ es) peer f e = ground (arith, routed-erase_first c es peer)

drop_peer-again :
    (r : SendCommand) (c : ConnectionId) (peer : PeerInfo) (n m : Net) (c' : ConnectionId)
    → find cid_eq c n.peers ≡ some peer
    → is_empty c.route ≡ false
    → drop_peer r c peer n ≡ again m c'
    → suc (routed m.peers) ≡ routed n.peers
unfolding drop_peer
drop_peer-again r c peer n m c' f e h =
    ground (arith, eq_of_bytes_eq peer.route c.route, routed-erase_first c n.peers peer)

recover-again :
    (r : SendCommand) (x : ZmqError) (c : ConnectionId) (n m : Net) (c' : ConnectionId)
    → recover r x c n ≡ again m c'
    → suc (routed m.peers) ≡ routed n.peers
unfolding recover
recover-again r x c n m c' h = elim (Bool-cases (is_unreachable x && not (is_empty c.route))) [
  | inr stop ↦ absurd (cc (rw (stop, recover) at h))
  | inl go ↦ elim (Option-cases (find cid_eq c n.peers)) [
    | inl none' ↦ absurd (cc (rw (go, none', recover) at h))
    | inr (peer, f) ↦ drop_peer-again r c peer n m c' f (ground arith) (rw (go, f, recover) at h)
  ]
]

after_send-again :
    (r : SendCommand) (id : ℤ) (c : ConnectionId) (n : Net) (x : Result ZmqError Bool) (m : Net)
    (c' : ConnectionId)
    → after_send r id c n x ≡ again m c'
    → suc (routed m.peers) ≡ routed n.peers
unfolding after_send
after_send-again r id c n (ok true) m c' h = absurd (cc)
after_send-again r id c n (ok false) m c' h = absurd (cc)
after_send-again r id c n (err e) m c' h = recover-again r e c n m c' h

send_on-again :
    (o : Outside) (r : SendCommand) (attempt : ℕ) (t : Net × Target) (m : Net) (c' : ConnectionId)
    → send_on o r attempt t ≡ again m c'
    → suc (routed m.peers) ≡ routed t.0.peers
unfolding send_on
send_on-again o r attempt (n, no_socket) m c' h = absurd (cc)
send_on-again o r attempt (n, send_to id c) m c' h = after_send-again r id c n _ m c' h

pub send_round-again :
    (o : Outside) (r : SendCommand) (attempt : ℕ) (c : ConnectionId) (n m : Net) (c' : ConnectionId)
    → send_round o r attempt c n ≡ again m c'
    → suc (routed m.peers) ≡ routed n.peers
unfolding send_round
send_round-again o r attempt c n m c' h =
    send_on-again o r attempt (choose_socket o r c n) m c' h ∙ routed-choose_socket o r c n

-- The loop ends, by a result or in the loop over the peers, before its fuel does.
abbrev pub Round-cases :
    (x : Round)
    → ((m : Net) × (sent : Bool) × (f : Option ℕ) × (x ≡ finished m sent f))
      ⊎ (((m : Net) × (c : ConnectionId) × (x ≡ again m c)) ⊎ (x ≡ endless))
Round-cases (finished m sent f) = inl (m, sent, f, refl)
Round-cases (again m c) = inr (inl (m, c, refl))
Round-cases endless = inr (inr refl)

send_loop_fuel :
    (o : Outside) (r : SendCommand) (fuel attempt : ℕ) (c : ConnectionId) (n : Net)
    → routed n.peers < fuel
    → send_loop o r fuel attempt c n ≢ out_of_fuel
unfolding send_loop
send_loop_fuel o r zero attempt c n h e = omega arith
send_loop_fuel o r (suc fuel) attempt c n h e = elim (Round-cases (send_round o r attempt c n)) [
  | inl (m, sent, f, x) ↦ cc (rw (x, send_loop) at e)
  | inr (inr x) ↦ cc (rw (x, send_loop) at e)
  | inr (inl (m, c', x)) ↦
      send_loop_fuel o r fuel (suc attempt) c' m
        (omega (arith, send_round-again o r attempt c n m c' x)) (rw (x, send_loop) at e)
]
