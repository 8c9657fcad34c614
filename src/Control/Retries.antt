-- ===== src/Control/Retries.antt =====
-- The retry loop of `proxy_send` (oxenmq/proxy.cpp): when it ends.
use oxen_mq.Common.{
  ℕ, zero, suc, ◌<◌, ◌≡◌, ◌≢◌, refl, sym, ap, ◌∙◌, inl, inr, Bool, true, false, not, ◌&&◌, Option,
  none, some, List, [], ◌∷◌, Bytes, bytes_eq, bytes_eq_refl, ℤ, pos, negsuc, find, is_empty, Result,
  ok, err, some_inj, arith, Bool-cases, Option-cases, is_minus_one,
}
use oxen_mq.ConnectionId.{ConnectionId, cid_eq, int_eq, is_sn, of_pubkey}
use oxen_mq.Peers.{Net, PeerInfo}
use oxen_mq.Peers.Connecting.{pick_peer, change_peer, refresh, index_connection, proxy_connect_sn}
use oxen_mq.Control.{SendCommand}
use oxen_mq.Control.Sending.{
  ZmqError, Outside, Target, no_socket, send_to, sn_target, choose_socket, endless, drop_peer,
  recover, after_send, send_on, send_round, returns, send_loop, routed, send_out, is_unreachable,
  conclude,
}
use oxen_mq.Control.Rounds.{routed-refresh, peers-index, send_round-again, Round-cases}

-- Service nodes are told apart by their keys alone.
pub int_eq_sn : (a b : ℤ) → is_minus_one b ≡ true → int_eq a b ≡ is_minus_one a
int_eq_sn (pos a) (pos b) h = absurd (cc)
int_eq_sn (pos a) (negsuc b) h = refl
int_eq_sn (negsuc a) (pos b) h = absurd (cc)
int_eq_sn (negsuc zero) (negsuc zero) h = refl
int_eq_sn (negsuc (suc a)) (negsuc zero) h = ground arith
int_eq_sn (negsuc a) (negsuc (suc b)) h = absurd (cc)

cid_eq_sn : (a c : ConnectionId) → is_sn c ≡ true → cid_eq a c ≡ is_sn a && bytes_eq a.pk c.pk
unfolding cid_eq
cid_eq_sn a c h = ground (arith, int_eq_sn a.id c.id)

pub find_sn :
    (c d : ConnectionId) (es : List (ConnectionId × PeerInfo))
    → is_sn c ≡ true
    → is_sn d ≡ true
    → c.pk ≡ d.pk
    → find cid_eq c es ≡ find cid_eq d es
find_sn c d [] s t e = refl
find_sn c d (x ∷ es) s t e = ground (arith, cid_eq_sn x.0 c, cid_eq_sn x.0 d, find_sn c d es)

module _ (c : ConnectionId) where
  pick_outgoing :
      (es : List (ConnectionId × PeerInfo)) (peer : PeerInfo)
      → pick_peer false true c es ≡ some peer
      → is_empty peer.route ≡ true
  pick_outgoing [] peer h = absurd (cc)
  pick_outgoing (e ∷ es) peer h = ground (arith, pick_outgoing es peer)

  pick-find : (es : List (ConnectionId × PeerInfo)) → pick_peer false false c es ≡ find cid_eq c es
  pick-find [] = refl
  pick-find (e ∷ es) = ground (arith, pick-find es)

  find-change :
      (now keep_alive : ℕ) (es : List (ConnectionId × PeerInfo)) (peer : PeerInfo)
      → find cid_eq c es ≡ some peer
      → find cid_eq c (change_peer false false c (refresh now keep_alive) es)
        ≡ some (refresh now keep_alive peer)
  find-change now keep_alive [] peer h = absurd (cc)
  find-change now keep_alive (e ∷ es) peer h = ground (arith, find-change now keep_alive es peer)

-- Where a round can hang: a service node, whose first peer is not the one that was used.
recover-endless :
    (r : SendCommand) (x : ZmqError) (c : ConnectionId) (n : Net)
    → recover r x c n ≡ endless
    → (is_sn c ≡ true)
      × (is_empty c.route ≡ false)
      × ((peer : PeerInfo) × (find cid_eq c n.peers ≡ some peer)
          × (bytes_eq peer.route c.route ≡ false))
unfolding recover drop_peer
recover-endless r x c n h = elim (Bool-cases (is_unreachable x && not (is_empty c.route))) [
  | inr stop ↦ absurd (cc (rw (stop, recover) at h))
  | inl go ↦ elim (Option-cases (find cid_eq c n.peers)) [
    | inl none' ↦ absurd (cc (rw (go, none', recover) at h))
    | inr (peer, f) ↦
        let d : drop_peer r c peer n ≡ endless = rw (go, f, recover) at h in
        (ground arith, ground arith, (peer, f, ground arith))
  ]
]

first_route :
    (now keep_alive : ℕ) (n m : Net) (pk route : Bytes) (id : ℤ) (used peer : PeerInfo) (b : Bool)
    → pick_peer false b (of_pubkey pk) n.peers ≡ some used
    → ◌≡◌ {A = Net × Option (ℤ × Bytes)}
        (
          index_connection used.conn_id (record n {
            peers = change_peer false b (of_pubkey pk) (refresh now keep_alive) n.peers;
          }),
          some (used.conn_id, used.route),
        )
        (m, some (id, route))
    → is_empty route ≡ false
    → find cid_eq (of_pubkey pk) m.peers ≡ some peer
    → bytes_eq peer.route route ≡ true
first_route now keep_alive n m pk route id used peer true p h e f =
    let same : used.route ≡ route = ground arith in
    absurd (ground (arith, pick_outgoing (of_pubkey pk) n.peers used p))
first_route now keep_alive n m pk route id used peer false p h e f =
    let same : used.route ≡ route = ground arith in
    let first : find cid_eq (of_pubkey pk) n.peers ≡ some used =
      sym (pick-find (of_pubkey pk) n.peers) ∙ p in
    let peers : m.peers ≡ change_peer false false (of_pubkey pk) (refresh now keep_alive) n.peers =
      sym (ap (λ (x : Net × Option (ℤ × Bytes)). x.0.peers) h)
      ∙ peers-index used.conn_id (record n {
        peers = change_peer false false (of_pubkey pk) (refresh now keep_alive) n.peers;
      }) in
    let found : find cid_eq (of_pubkey pk) m.peers ≡ some (refresh now keep_alive used) =
      ap (λ (es : List (ConnectionId × PeerInfo)). find cid_eq (of_pubkey pk) es) peers
      ∙ find-change (of_pubkey pk) now keep_alive n.peers used first in
    let it : peer ≡ refresh now keep_alive used = some_inj (sym f ∙ found) in
    ground (arith, bytes_eq_refl route, routed-refresh now keep_alive used)

connect_sn-first :
    (lookup : Bytes → Bytes) (connects : Bytes → Bool) (pk hint : Bytes) (optional b : Bool)
    (keep_alive now : ℕ) (n m : Net) (id : ℤ) (route : Bytes) (peer : PeerInfo)
    → proxy_connect_sn lookup connects pk hint optional false b keep_alive now n
      ≡ (m, some (id, route))
    → is_empty route ≡ false
    → find cid_eq (of_pubkey pk) m.peers ≡ some peer
    → bytes_eq peer.route route ≡ true
unfolding proxy_connect_sn
connect_sn-first lookup connects pk hint optional b keep_alive now n m id route peer h e f =
    elim (Option-cases (pick_peer false b (of_pubkey pk) n.peers)) [
      | inl none' ↦ let k = rw (none', proxy_connect_sn) at h in absurd (ground arith)
      | inr (used, p) ↦
          first_route now keep_alive n m pk route id used peer b p (rw (p, proxy_connect_sn) at h) e
            f
    ]

sn_target-eq :
    (c : ConnectionId) (x : Net × Option (ℤ × Bytes)) (m : Net) (id : ℤ) (c' : ConnectionId)
    → sn_target c x ≡ (m, send_to id c')
    → (x ≡ (m, some (id, c'.route))) × (c'.id ≡ c.id) × (c'.pk ≡ c.pk)
sn_target-eq c (k, none) m id c' h = absurd (cc)
sn_target-eq c (k, some (i, route)) m id c' h = (ground arith, ground arith, ground arith)

-- The peer that a service node is sent to, if nothing asks for an incoming connection, is its first.
sn_target-first :
    (o : Outside) (r : SendCommand) (c : ConnectionId) (n m : Net) (id : ℤ) (c' : ConnectionId)
    (peer : PeerInfo)
    → r.incoming ≡ false
    → is_sn c ≡ true
    → choose_socket o r c n ≡ (m, send_to id c')
    → is_empty c'.route ≡ false
    → find cid_eq c' m.peers ≡ some peer
    → bytes_eq peer.route c'.route ≡ true
unfolding choose_socket
sn_target-first o r c n m id c' peer inc sn h route f =
    let (x, same_id, same_pk) = sn_target-eq c _ m id c' (rw (sn, inc) at h) in
    let sn' : is_sn c' ≡ true = ap is_minus_one same_id ∙ sn in
    connect_sn-first o.lookup o.connects c.pk r.hint r.optional r.outgoing r.keep_alive o.now n m id
      c'.route peer x route (sym (find_sn c' (of_pubkey c.pk) m.peers sn' refl same_pk) ∙ f)

same_target :
    (o : Outside) (r : SendCommand) (c : ConnectionId) (n m : Net) (id : ℤ) (c' : ConnectionId)
    → is_sn c ≡ false
    → choose_socket o r c n ≡ (m, send_to id c')
    → c ≡ c'
unfolding choose_socket
same_target o r c n m id c' other h = let k = rw other at h in ground arith

not_endless :
    (o : Outside) (r : SendCommand) (attempt : ℕ) (c : ConnectionId) (n : Net) (t : Net × Target)
    → r.incoming ≡ false
    → choose_socket o r c n ≡ t
    → send_on o r attempt t ≢ endless
unfolding send_on after_send
not_endless o r attempt c n (m, no_socket) inc h e = cc
not_endless o r attempt c n (m, send_to id c') inc h e = stuck _ e
  where
    stuck : (x : Result ZmqError Bool) → after_send r id c' m x ≡ endless → ⊥
    stuck (ok true) k = cc
    stuck (ok false) k = cc
    stuck (err x) k =
        let (sn, route, (peer, f, ne)) = recover-endless r x c' m k in
        elim (Bool-cases (is_sn c)) [
          | inl s ↦ cc (sn_target-first o r c n m id c' peer inc s h route f)
          | inr other ↦ cc (same_target o r c n m id c' other h)
        ]

send_loop-returns :
    (o : Outside) (r : SendCommand) (fuel attempt : ℕ) (c : ConnectionId) (n : Net)
    → r.incoming ≡ false
    → routed n.peers < fuel
    → (m : Net) × (send_loop o r fuel attempt c n ≡ returns m)
unfolding send_loop
send_loop-returns o r zero attempt c n inc h = absurd (omega arith)
send_loop-returns o r (suc fuel) attempt c n inc h =
    elim (Round-cases (send_round o r attempt c n)) [
      | inl (m, sent, f, x) ↦ (conclude o r m sent f, rw (x, send_loop) refl)
      | inr (inr x) ↦
          absurd
            (not_endless o r attempt c n (choose_socket o r c n) inc refl (unfold send_round in x))
      | inr (inl (m, c', x)) ↦
          rw (x, send_loop)
            (send_loop-returns o r fuel (suc attempt) c' m inc
              (omega (arith, send_round-again o r attempt c n m c' x)))
    ]

-- A message that does not ask for an incoming connection is dealt with in at most one more round than
-- there are incoming peers: `proxy_send` returns, whatever zmq answers.
pub send_out-returns :
    (o : Outside) (r : SendCommand) (n : Net)
    → r.incoming ≡ false
    → (m : Net) × (send_out o r n ≡ returns m)
unfolding send_out
send_out-returns o r n inc =
    send_loop-returns o r (suc (routed n.peers)) 0 r.conn_id n inc (omega arith)
