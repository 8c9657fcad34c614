-- ===== src/Peers/ServiceNodes/Membership.antt =====
-- oxenmq/auth.cpp: which service nodes are active after a change of the set.
use oxen_mq.Common.{
  ◌≡◌, refl, ◌∙◌, ap, inl, inr, Bool, false, not, ◌&&◌, ◌||◌, List, [], ◌∷◌, ◌++◌, Bytes, bytes_eq,
  eq_of_bytes_eq, bytes_eq_sym, keep, Bool-cases, arith,
}
use oxen_mq.ConnectionId.{ConnectionId, of_pubkey}
use oxen_mq.Peers.{Net, PeerInfo, has, proxy_close_connection}
use oxen_mq.Peers.ServiceNodes.{
  remove_peers, without, remove_sn, remove_sns, insert, insert_all, proxy_update_active_sns_clean,
  is_pubkey, proxy_update_active_sns,
}

-- A `pubkey_set` holds each key once.
abbrev pub IsDistinct : List Bytes → Type 0
IsDistinct [] = Unit
IsDistinct (x ∷ xs) = (has x xs ≡ false) × IsDistinct xs

pub has-keep :
    (p : Bytes → Bool) (pk : Bytes) (s : List Bytes) → has pk (keep p s) ≡ p pk && has pk s
has-keep p pk [] = ground arith
has-keep p pk (x ∷ s) = elim (Bool-cases (bytes_eq pk x)) [
  | inl e ↦ let same : p pk ≡ p x = ap p (eq_of_bytes_eq pk x e) in ground (arith, has-keep p pk s)
  | inr n ↦ ground (arith, has-keep p pk s)
]

has-append : (pk q : Bytes) (s : List Bytes) → has pk (s ++ q ∷ []) ≡ has pk s || bytes_eq pk q
has-append pk q [] = ground arith
has-append pk q (x ∷ s) = ground (arith, has-append pk q s)

has-insert : (q pk : Bytes) (s : List Bytes) → has pk (insert q s) ≡ has pk s || bytes_eq pk q
has-insert q pk s = elim (Bool-cases (bytes_eq pk q)) [
  | inl e ↦
      let same : has pk s ≡ has q s = ap (λ x. has x s) (eq_of_bytes_eq pk q e) in
      ground (arith, has-append pk q s)
  | inr n ↦ ground (arith, has-append pk q s)
]

has-insert_all :
    (ps : List Bytes) (pk : Bytes) (s : List Bytes)
    → has pk (insert_all ps s) ≡ has pk ps || has pk s
has-insert_all [] pk s = refl
has-insert_all (q ∷ ps) pk s = ground (arith, has-insert_all ps pk (insert q s), has-insert q pk s)

close-active :
    (id : _) (n : Net) → (proxy_close_connection id n).active_service_nodes ≡ n.active_service_nodes
unfolding proxy_close_connection
close-active id n = ground arith

remove_peers-active :
    (c : ConnectionId) (es : List (ConnectionId × PeerInfo)) (n : Net)
    → (remove_peers c es n).active_service_nodes ≡ n.active_service_nodes
unfolding remove_peers
remove_peers-active c [] n = refl
remove_peers-active c (e ∷ es) n = ground (
  arith,
  remove_peers-active c es n,
  remove_peers-active c es (proxy_close_connection e.1.conn_id n),
  close-active e.1.conn_id n,
)

remove_sn-active :
    (q : Bytes) (n : Net) → (remove_sn q n).active_service_nodes ≡ without q n.active_service_nodes
unfolding remove_sn
remove_sn-active q n = remove_peers-active (of_pubkey q) n.peers _

remove_sns-active :
    (ps : List Bytes) (pk : Bytes) (n : Net)
    → has pk (remove_sns ps n).active_service_nodes
      ≡ has pk n.active_service_nodes && not (has pk ps)
remove_sns-active [] pk n = ground arith
remove_sns-active (q ∷ ps) pk n =
    let keeps : has pk (remove_sn q n).active_service_nodes
        ≡ not (bytes_eq q pk) && has pk n.active_service_nodes =
      ap (has pk) (remove_sn-active q n)
      ∙ has-keep (λ x. not (bytes_eq q x)) pk n.active_service_nodes in
    ground (arith, remove_sns-active ps pk (remove_sn q n), bytes_eq_sym q pk)

pub clean-active :
    (added removed : List Bytes) (n : Net) (pk : Bytes)
    → has pk (proxy_update_active_sns_clean added removed n).active_service_nodes
      ≡ has pk added || (has pk n.active_service_nodes && not (has pk removed))
unfolding proxy_update_active_sns_clean
clean-active added removed n pk =
    has-insert_all added pk (remove_sns removed n).active_service_nodes
    ∙ ap (λ b. has pk added || b) (remove_sns-active removed pk n)

update_bools :
    (p a d r : Bool)
    → ((p && not a) && d) || (a && not ((p && (a && not d)) && r))
      ≡ (p && d) || (a && not (p && (r && not d)))
update_bools p a d r = ground arith

-- After an update a key is active if it is a pubkey that is to be added, or if it was active and is
-- not to be removed; one that is in both sets stays, junk has no effect.
pub proxy_update_active_sns-has :
    (added removed : List Bytes) (n : Net) (pk : Bytes)
    → has pk (proxy_update_active_sns added removed n).active_service_nodes
      ≡ (is_pubkey pk && has pk added)
        || (has pk n.active_service_nodes
            && not (is_pubkey pk && (has pk removed && not (has pk added))))
unfolding proxy_update_active_sns
proxy_update_active_sns-has added removed n pk =
    let added' = has-keep (λ x. is_pubkey x && not (has x n.active_service_nodes)) pk added in
    let removed' =
      has-keep (λ x. is_pubkey x && (has x n.active_service_nodes && not (has x added))) pk
        removed in
    let all =
      clean-active (keep (λ x. is_pubkey x && not (has x n.active_service_nodes)) added)
        (keep (λ x. is_pubkey x && (has x n.active_service_nodes && not (has x added))) removed) n
        pk in
    all
    ∙ rw (added', removed')
        (update_bools (is_pubkey pk) (has pk n.active_service_nodes) (has pk added)
          (has pk removed))
