-- ===== src/Control/Reuse.antt =====
-- `proxy_connect_sn` (oxenmq/connections.cpp), which opens a connection or uses one again, and the
-- invariant of the peers and connections.
use oxen_mq.Common.{
  ℕ, ◌≤◌, ◌≡◌, refl, sym, ap, ◌∙◌, inl, inr, Bool, true, false, not, ◌||◌, some, List, [], ◌∷◌,
  Bytes, ℤ, pos, has_key, is_empty, if◌then◌else◌, arith, Bool-cases, Option-cases,
}
use oxen_mq.Access.{AuthLevel}
use oxen_mq.ConnectionId.{ConnectionId, int_eq, of_pubkey}
use oxen_mq.Peers.{Net, PeerInfo}
use oxen_mq.Peers.Connecting.{
  pick_peer, change_peer, refresh, index_connection, open_sn, proxy_connect_sn,
}
use oxen_mq.Peers.Links.{users}
use oxen_mq.Peers.Opening.{IsBelow, users-change}
use oxen_mq.ConnectionId.Order.{eq_of_int_eq}
use oxen_mq.ConnectionId.Equality.{int_eq_refl}
use oxen_mq.Control.Rounds.{peers-index}
use oxen_mq.Peers.Soundness.{used, IsUnused, IsSound}

used-change :
    (id : ℤ) (i o : Bool) (c : ConnectionId) (now keep_alive : ℕ)
    (es : List (ConnectionId × PeerInfo))
    → used id (change_peer i o c (refresh now keep_alive) es) ≡ used id es
used-change id i o c now keep_alive [] = refl
used-change id i o c now keep_alive (e ∷ es) =
    ground (arith, used-change id i o c now keep_alive es)

pick-used :
    (i o : Bool) (c : ConnectionId) (es : List (ConnectionId × PeerInfo)) (peer : PeerInfo)
    → pick_peer i o c es ≡ some peer
    → used peer.conn_id es ≡ true
pick-used i o c [] peer h = absurd (cc)
pick-used i o c (e ∷ es) peer h = ground (arith, int_eq_refl peer.conn_id, pick-used i o c es peer)

index-below :
    (n : Net) (k : ℤ) (j : ℕ)
    → has_key int_eq (pos j) n.connections ≡ false
    → used (pos j) n.peers ≡ false
    → used k n.peers ≡ true
    → has_key int_eq (pos j) (index_connection k n).connections ≡ false
index-below n k j b u y = elim (Bool-cases (int_eq k (pos j))) [
  | inl e ↦
      let same : k ≡ pos j = eq_of_int_eq k (pos j) e in
      absurd (cc (ap (λ (x : ℤ). used x n.peers) same))
  | inr e ↦ ground arith
]

next-index : (k : ℤ) (n : Net) → (index_connection k n).next_conn_id ≡ n.next_conn_id
next-index k n = ground arith

reuse-IsSound :
    (i o : Bool) (c : ConnectionId) (now keep_alive : ℕ) (peer : PeerInfo) (n : Net)
    → IsSound n
    → pick_peer i o c n.peers ≡ some peer
    → let m =
        index_connection peer.conn_id
          (record n { peers = change_peer i o c (refresh now keep_alive) n.peers }) in
      IsBelow m × IsUnused m
reuse-IsSound i o c now keep_alive peer n s p = (
  λ j h.
      let up : n.next_conn_id ≤ j = rw next-index at h in
      index-below (record n { peers = change_peer i o c (refresh now keep_alive) n.peers })
        peer.conn_id j (s.below j up)
        (used-change (pos j) i o c now keep_alive n.peers ∙ s.unused j up)
        (used-change peer.conn_id i o c now keep_alive n.peers ∙ pick-used i o c n.peers peer p),
  λ j h.
      let up : n.next_conn_id ≤ j = rw next-index at h in
      rw peers-index (used-change (pos j) i o c now keep_alive n.peers ∙ s.unused j up),
)

open-IsUnused :
    (remote : Bytes) (now keep_alive : ℕ) (n : Net)
    → IsSound n
    → IsBelow (open_sn remote now keep_alive n) × IsUnused (open_sn remote now keep_alive n)
unfolding open_sn
open-IsUnused remote now keep_alive n s =
    (λ j h. ground (arith, s.below j), λ j h. ground (arith, s.unused j))

connect_ids :
    (lookup : Bytes → Bytes) (connects : Bytes → Bool) (remote hint : Bytes) (optional i o : Bool)
    (keep_alive now : ℕ) (n : Net)
    → IsSound n
    → IsBelow (proxy_connect_sn lookup connects remote hint optional i o keep_alive now n).0
      × IsUnused (proxy_connect_sn lookup connects remote hint optional i o keep_alive now n).0
unfolding proxy_connect_sn
connect_ids lookup connects remote hint optional i o keep_alive now n s =
    elim (Option-cases (pick_peer i o (of_pubkey remote) n.peers)) [
      | inr (peer, e) ↦
          rw (e, proxy_connect_sn) (reuse-IsSound i o (of_pubkey remote) now keep_alive peer n s e)
      | inl e ↦
          let addr = if is_empty hint then lookup remote else hint in
          elim (Bool-cases (optional || i)) [
            | inl x ↦ rw (e, x, proxy_connect_sn) (s.below, s.unused)
            | inr x ↦ elim (Bool-cases (is_empty addr || not (connects addr))) [
              | inl y ↦ rw (e, x, y, proxy_connect_sn) (s.below, s.unused)
              | inr y ↦ rw (e, x, y, proxy_connect_sn) (open-IsUnused remote now keep_alive n s)
            ]
          ]
    ]

users-unused : (id : ℤ) (es : List (ConnectionId × PeerInfo)) → used id es ≡ false → users id es ≡ 0
users-unused id [] h = refl
users-unused id (e ∷ es) h = ground (arith, users-unused id es)

-- A new peer takes an id that nothing has.
pub users-new :
    (k : ℕ) (c : ConnectionId) (i : PeerInfo) (n : Net)
    → i.conn_id ≡ pos k
    → used (pos k) n.peers ≡ false
    → IsSound n
    → (id : ℤ) → users id ((c, i) ∷ n.peers) ≤ 1
users-new k c i n e u s id = elim (Bool-cases (int_eq i.conn_id id)) [
  | inl same ↦
      let id_is : id ≡ pos k = sym (eq_of_int_eq i.conn_id id same) ∙ e in
      let free : users id n.peers ≡ 0 =
        users-unused id n.peers (ap (λ (x : ℤ). used x n.peers) id_is ∙ u) in
      ground (arith, free)
  | inr other ↦ ground (arith, s.distinct id)
]

connect_sn-distinct :
    (lookup : Bytes → Bytes) (connects : Bytes → Bool) (remote hint : Bytes) (optional i o : Bool)
    (keep_alive now : ℕ) (n : Net)
    → IsSound n
    → (id : ℤ)
    → users id (proxy_connect_sn lookup connects remote hint optional i o keep_alive now n).0.peers
      ≤ 1
unfolding proxy_connect_sn open_sn
connect_sn-distinct lookup connects remote hint optional i o keep_alive now n s id =
    elim (Option-cases (pick_peer i o (of_pubkey remote) n.peers)) [
      | inr (peer, e) ↦
          rw
            (
              e,
              peers-index,
              users-change id i o (of_pubkey remote) now keep_alive n.peers,
              proxy_connect_sn,
            )
            (s.distinct id)
      | inl e ↦
          let addr = if is_empty hint then lookup remote else hint in
          elim (Bool-cases (optional || i)) [
            | inl x ↦ rw (e, x, proxy_connect_sn) (s.distinct id)
            | inr x ↦ elim (Bool-cases (is_empty addr || not (connects addr))) [
              | inl y ↦ rw (e, x, y, proxy_connect_sn) (s.distinct id)
              | inr y ↦
                  rw (e, x, y, proxy_connect_sn)
                    (users-new n.next_conn_id (of_pubkey remote)
                      (record {
                        pubkey = remote;
                        service_node = true;
                        auth_level = AuthLevel.none;
                        conn_id = pos n.next_conn_id;
                        route = [];
                        last_activity = now;
                        idle_expiry = keep_alive;
                      })
                      n refl (s.unused n.next_conn_id (omega arith)) s id)
            ]
          ]
    ]

pub connect_sn-IsSound :
    (lookup : Bytes → Bytes) (connects : Bytes → Bool) (remote hint : Bytes) (optional i o : Bool)
    (keep_alive now : ℕ) (n : Net)
    → IsSound n
    → IsSound (proxy_connect_sn lookup connects remote hint optional i o keep_alive now n).0
connect_sn-IsSound lookup connects remote hint optional i o keep_alive now n s =
    let (b, u) = connect_ids lookup connects remote hint optional i o keep_alive now n s in
    record {
      distinct = connect_sn-distinct lookup connects remote hint optional i o keep_alive now n s;
      below = b;
      unused = u;
    }
