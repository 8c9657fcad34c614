-- ===== src/Peers/ServiceNodes.antt =====
-- oxenmq/auth.cpp: the set of active service nodes. A `pubkey_set` is a list without duplicates, in
-- the order of its iteration.
pub mod Membership
pub mod Replacement
use oxen_mq.Common.{
  ℕ, ◌+◌, ◌-◌, Bool, true, false, not, ◌&&◌, ◌||◌, List, [], ◌∷◌, ◌++◌, Bytes, bytes_eq, ◌==◌,
  length, is_empty, keep, if◌then◌else◌,
}
use oxen_mq.ConnectionId.{ConnectionId, cid_eq, of_pubkey}
use oxen_mq.Peers.{Net, PeerInfo, outgoing, has, proxy_close_connection}

-- The loop over `peers.equal_range(c)`: each peer of that id is erased, an outgoing one closed.
unfoldable pub remove_peers : ConnectionId → List (ConnectionId × PeerInfo) → Net → Net
remove_peers c [] n = n
remove_peers c (e ∷ es) n = elim (cid_eq e.0 c) [
  | false ↦ let m = remove_peers c es n in record m { peers = e ∷ m.peers }
  | true ↦ remove_peers c es (if outgoing e.1 then proxy_close_connection e.1.conn_id n else n)
]

abbrev pub without : Bytes → List Bytes → List Bytes
without pk s = keep (λ x. not (bytes_eq pk x)) s

-- One round of the loop over `removed`.
unfoldable pub remove_sn : Bytes → Net → Net
remove_sn pk n =
    remove_peers (of_pubkey pk) n.peers
      (record n { active_service_nodes = without pk n.active_service_nodes; peers = [] })

abbrev pub remove_sns : List Bytes → Net → Net
remove_sns [] n = n
remove_sns (pk ∷ pks) n = remove_sns pks (remove_sn pk n)

-- `set.insert`.
abbrev pub insert : Bytes → List Bytes → List Bytes
insert pk s = if has pk s then s else s ++ pk ∷ []

abbrev pub insert_all : List Bytes → List Bytes → List Bytes
insert_all [] s = s
insert_all (pk ∷ pks) s = insert_all pks (insert pk s)

unfoldable pub proxy_update_active_sns_clean : List Bytes → List Bytes → Net → Net
proxy_update_active_sns_clean added removed n =
    let m = remove_sns removed n in
    record m { active_service_nodes = insert_all added m.active_service_nodes }

abbrev pub is_pubkey : Bytes → Bool
is_pubkey pk = length pk == 32

-- `removed` loses junk, unknown keys and those that are added too; `added` loses junk and known keys.
unfoldable pub proxy_update_active_sns : List Bytes → List Bytes → Net → Net
proxy_update_active_sns added removed n =
    let removed' =
      keep (λ pk. is_pubkey pk && (has pk n.active_service_nodes && not (has pk added))) removed in
    let added' = keep (λ pk. is_pubkey pk && not (has pk n.active_service_nodes)) added in
    proxy_update_active_sns_clean added' removed' n

-- The second loop of `proxy_set_active_sns`, over the active service nodes, with what is found to be
-- removed so far. It stops as soon as the sizes fit: `active + added - removed == pubkeys`, a size_t.
abbrev pub find_removed : ℕ → ℕ → List Bytes → List Bytes → List Bytes → List Bytes
find_removed total wanted pubkeys [] removed = removed
find_removed total wanted pubkeys (pk ∷ pks) removed =
    let now = if has pk pubkeys then removed else removed ++ pk ∷ [] in
    elim (total - length now == wanted) [
      | true ↦ now
      | false ↦ find_removed total wanted pubkeys pks now
    ]

unfoldable pub proxy_set_active_sns : List Bytes → Net → Net
proxy_set_active_sns pubkeys n =
    let valid = keep is_pubkey pubkeys in
    let added = keep (λ pk. not (has pk n.active_service_nodes)) valid in
    if is_empty added && length n.active_service_nodes == length valid
    then n
    else proxy_update_active_sns_clean added
        (find_removed (length n.active_service_nodes + length added) (length valid) valid
          n.active_service_nodes [])
        n
