-- ===== src/Control/Arrivals.antt =====
-- New and expiring peers (oxenmq/worker.cpp, oxenmq/connections.cpp): the senders of messages, remotes that
-- the application connects to, and the cleanup.
use oxen_mq.Common.{
  ℕ, ◌≤◌, ◌<◌, ◌≡◌, refl, ap, inl, inr, Bool, true, false, none, some, List, [], ◌∷◌, Bytes, ℤ, pos,
  find, erase, has_key, is_empty, if◌then◌else◌, ltb, arith, Bool-cases, Option-cases,
}
use oxen_mq.Access.{AuthLevel}
use oxen_mq.ConnectionId.{ConnectionId, cid_eq, int_eq, of_pubkey}
use oxen_mq.ConnectionId.Order.{eq_of_int_eq}
use oxen_mq.Peers.{Net, PeerInfo, PendingConnect, connect_failed, proxy_close_connection}
use oxen_mq.Peers.Connecting.{
  plain_id, fail_connect, expire_connects, expire_requests, proxy_conn_cleanup,
  proxy_expire_idle_peers, proxy_connect_remote, forever,
}
use oxen_mq.Peers.Senders.{
  recheck, change_first, outgoing_sender, find_sender, update_sender, promote, sn_sender,
  incoming_sender,
}
use oxen_mq.Peers.Links.{users}
use oxen_mq.Peers.Soundness.{used, IsSound, IsSound-transfer, expire-IsSound}
use oxen_mq.Control.Reuse.{users-new}
use oxen_mq.Peers.Builtins.Handled.{close-IsSound}

change_first-same :
    (id : ℤ) (active : List Bytes) (c : ConnectionId) (es : List (ConnectionId × PeerInfo))
    → (users id (change_first c (recheck active) es) ≡ users id es)
      × (used id (change_first c (recheck active) es) ≡ used id es)
change_first-same id active c [] = (refl, refl)
change_first-same id active c (e ∷ es) =
    let (a, b) = change_first-same id active c es in (ground (arith, a), ground (arith, b))

pub outgoing_sender-IsSound : (k : ℤ) (n : Net) → IsSound n → IsSound (outgoing_sender k n).0
unfolding outgoing_sender
outgoing_sender-IsSound k n s =
    let key : ConnectionId = elim (find int_eq k n.outgoing_sn_conns) [
      | none ↦ plain_id k
      | some c ↦ c
    ] in
    elim (Option-cases (find cid_eq key n.peers)) [
      | inl e ↦ rw (e, outgoing_sender) s
      | inr (i, e) ↦
          rw (e, outgoing_sender)
            (record {
              distinct = λ id.
                  let (a, _) = change_first-same id n.active_service_nodes key n.peers in
                  ground (arith, a, s.distinct id);
              below = s.below;
              unused = λ j h.
                  let (_, b) = change_first-same (pos j) n.active_service_nodes key n.peers in
                  ground (arith, b, s.unused j);
            })
    ]

update_sender-same :
    (id : ℤ) (level : AuthLevel) (c : ConnectionId) (k : ℤ) (route : Bytes)
    (es : List (ConnectionId × PeerInfo))
    → (users id (update_sender c k route (promote level) es) ≡ users id es)
      × (used id (update_sender c k route (promote level) es) ≡ used id es)
update_sender-same id level c k route [] = (refl, refl)
update_sender-same id level c k route (e ∷ es) =
    let (a, b) = update_sender-same id level c k route es in (ground (arith, a), ground (arith, b))

-- A connection that is there has no id that is still to be given.
known_id :
    (k : ℤ) (n : Net) (j : ℕ)
    → has_key int_eq k n.connections ≡ true
    → IsSound n
    → n.next_conn_id ≤ j
    → int_eq k (pos j) ≡ false
known_id k n j there s h = elim (Bool-cases (int_eq k (pos j))) [
  | inr e ↦ e
  | inl e ↦
      let same : k ≡ pos j = eq_of_int_eq k (pos j) e in
      absurd (cc (ap (λ (x : ℤ). has_key int_eq x n.connections) same, s.below j h))
]

sn_sender-IsSound :
    (k : ℤ) (route pk : Bytes) (level : AuthLevel) (n : Net)
    → has_key int_eq k n.connections ≡ true
    → is_empty route ≡ false
    → IsSound n
    → IsSound (sn_sender k route pk level n).0
unfolding sn_sender
sn_sender-IsSound k route pk level n there r s =
    elim (Option-cases (find_sender (of_pubkey pk) k route n.peers)) [
      | inr (i, e) ↦
          rw (e, sn_sender)
            (record {
              distinct = λ id.
                  let (a, _) = update_sender-same id level (of_pubkey pk) k route n.peers in
                  ground (arith, a, s.distinct id);
              below = s.below;
              unused = λ j h.
                  let (_, b) = update_sender-same (pos j) level (of_pubkey pk) k route n.peers in
                  ground (arith, b, s.unused j);
            })
      | inl e ↦
          rw (e, sn_sender)
            (record {
              distinct = λ id. ground (arith, r, s.distinct id);
              below = s.below;
              unused = λ j h. ground (arith, known_id k n j there s h, s.unused j);
            })
    ]

if-IsSound :
    (b : Bool) (x y : Net × PeerInfo) → IsSound x.0 → IsSound y.0 → IsSound (if b then x else y).0
if-IsSound true x y a b = a
if-IsSound false x y a b = b

pub incoming_sender-IsSound :
    (inproc : ℤ) (own : Bytes) (k : ℤ) (route pk : Bytes) (level : AuthLevel) (n : Net)
    → has_key int_eq k n.connections ≡ true
    → is_empty route ≡ false
    → IsSound n
    → IsSound (incoming_sender inproc own k route pk level n).0
unfolding incoming_sender
incoming_sender-IsSound inproc own k route pk level n there r s =
    if-IsSound _ _ _ (sn_sender-IsSound k route _ _ n there r s) s

erase-less :
    (id : ℤ) (c : ConnectionId) (es : List (ConnectionId × PeerInfo))
    → (users id (erase cid_eq c es) ≤ users id es)
      × (used id es ≡ false → used id (erase cid_eq c es) ≡ false)
erase-less id c [] = (omega arith, λ h. refl)
erase-less id c (e ∷ es) =
    let (a, b) = erase-less id c es in (ground (arith, a), λ h. ground (arith, b))

fail_connect-IsSound : (c : PendingConnect) (n : Net) → IsSound n → IsSound (fail_connect c n)
unfolding fail_connect
fail_connect-IsSound c n s =
    let m : Net = record n {
      effects = connect_failed c.on_failure (plain_id c.conn_id) ∷ n.effects;
    } in
    let t = close-IsSound c.conn_id m (IsSound-transfer n m refl refl refl s) in
    let es = (proxy_close_connection c.conn_id m).peers in
    record {
      distinct = λ id.
          let (a, _) = erase-less id (plain_id c.conn_id) es in omega (arith, a, t.distinct id);
      below = t.below;
      unused = λ j h. let (_, b) = erase-less (pos j) (plain_id c.conn_id) es in b (t.unused j h);
    }

expire_connects-IsSound :
    (now : ℕ) (cs : List PendingConnect) (n : Net) → IsSound n → IsSound (expire_connects now cs n)
unfolding expire_connects
expire_connects-IsSound now [] n s = s
expire_connects-IsSound now (c ∷ cs) n s = elim (Bool-cases (ltb c.deadline now)) [
  | inl e ↦ rw e (expire_connects-IsSound now cs (fail_connect c n) (fail_connect-IsSound c n s))
  | inr e ↦ rw e (
      IsSound-transfer (expire_connects now cs n) _ refl refl refl
        (expire_connects-IsSound now cs n s))
]

expire_requests-IsSound :
    (now : ℕ) (rs : List (Bytes × (ℕ × ℕ))) (n : Net)
    → IsSound n
    → IsSound (expire_requests now rs n)
unfolding expire_requests
expire_requests-IsSound now [] n s = s
expire_requests-IsSound now (r ∷ rs) n s = elim (Bool-cases (ltb r.1.0 now)) [
  | inl e ↦ rw e (expire_requests-IsSound now rs _ (IsSound-transfer n _ refl refl refl s))
  | inr e ↦ rw e (
      IsSound-transfer (expire_requests now rs n) _ refl refl refl
        (expire_requests-IsSound now rs n s))
]

pub cleanup-IsSound : (now : ℕ) (n : Net) → IsSound n → IsSound (proxy_conn_cleanup now n)
unfolding proxy_conn_cleanup
cleanup-IsSound now n s =
    let a = expire-IsSound now n s in
    let b =
      expire_connects-IsSound now _ _
        (IsSound-transfer (proxy_expire_idle_peers now n) _ refl refl refl a) in
    expire_requests-IsSound now _ _ (IsSound-transfer _ _ refl refl refl b)

-- A remote that the application connects to, by an id that was taken for it and that nothing has yet.
pub connect_remote-IsSound :
    (accepts : Bool) (k : ℕ) (pk : Bytes) (level : AuthLevel)
    (on_connect on_failure now timeout : ℕ) (n : Net)
    → k < n.next_conn_id
    → has_key int_eq (pos k) n.connections ≡ false
    → used (pos k) n.peers ≡ false
    → IsSound n
    → IsSound (proxy_connect_remote accepts (pos k) pk level on_connect on_failure now timeout n)
unfolding proxy_connect_remote
connect_remote-IsSound false k pk level on_connect on_failure now timeout n h c u s =
    IsSound-transfer n _ refl refl refl s
connect_remote-IsSound true k pk level on_connect on_failure now timeout n h c u s = record {
  distinct =
      users-new k (record { id = pos k; pk = pk; route = [] })
        (record {
          pubkey = pk;
          service_node = false;
          auth_level = level;
          conn_id = pos k;
          route = [];
          last_activity = now;
          idle_expiry = forever;
        })
        n refl u s;
  below = λ j e. ground (arith, s.below j);
  unused = λ j e. ground (arith, s.unused j);
}
