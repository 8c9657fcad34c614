-- ===== src/Peers/Builtins.antt =====
-- oxenmq/proxy.cpp: `proxy_handle_builtin`, the commands of peers that the proxy handles itself.
pub mod Replies
pub mod Handled
use oxen_mq.Common.{
  ℕ, suc, Bool, true, false, not, ◌&&◌, ◌||◌, Option, none, some, List, [], ◌∷◌, ◌++◌, Bytes, bytes,
  bytes_eq, ℤ, find, erase, is_empty, any, if◌then◌else◌,
}
use oxen_mq.ConnectionId.{ConnectionId, cid_eq, int_eq}
use oxen_mq.Peers.{Net, PeerInfo, PendingConnect, said_hello, connected, request_answered}
use oxen_mq.Peers.Connecting.{plain_id, handle_bye}

unfoldable pub is_error_response : Bytes → Bool
is_error_response cmd =
    bytes_eq cmd (bytes "FORBIDDEN")
    || (bytes_eq cmd (bytes "FORBIDDEN_SN")
        || (bytes_eq cmd (bytes "NOT_A_SERVICE_NODE")
            || (bytes_eq cmd (bytes "UNKNOWNCOMMAND") || bytes_eq cmd (bytes "NO_REPLY_TAG"))))

-- The callback of a pending request is queued, and the request is pending no more. An unknown tag is
-- only logged.
unfoldable pub answer : Bytes → Bool → List Bytes → Net → Net
answer tag success parts n = elim (find bytes_eq tag n.pending_requests) [
  | none ↦ n
  | some r ↦ record n {
    pending_requests = erase bytes_eq tag n.pending_requests;
    effects = request_answered r.1 success parts ∷ n.effects;
  }
]

unfoldable pub handle_reply : List Bytes → Net → Net
handle_reply [] n = n
handle_reply (tag ∷ parts) n = answer tag true parts n

abbrev pub find_connect : ℤ → List PendingConnect → Option PendingConnect
find_connect id [] = none
find_connect id (c ∷ cs) = if int_eq c.conn_id id then some c else find_connect id cs

abbrev pub drop_connect : ℤ → List PendingConnect → List PendingConnect
drop_connect id [] = []
drop_connect id (c ∷ cs) = if int_eq c.conn_id id then cs else c ∷ drop_connect id cs

-- `peers.find(id)`: the key of the entry, which holds the pubkey.
abbrev pub find_peer_key : ConnectionId → List (ConnectionId × PeerInfo) → Option ConnectionId
find_peer_key c [] = none
find_peer_key c (e ∷ es) = if cid_eq e.0 c then some e.0 else find_peer_key c es

unfoldable pub handle_hello : Bool → ℤ → Net → Net
handle_hello incoming conn_id n =
    if incoming then n else elim (find_connect conn_id n.pending_connects) [
      | none ↦ n
      | some pc ↦ elim (find_peer_key (plain_id conn_id) n.peers) [
        | none ↦ n
        | some key ↦ record n {
          pending_connects = drop_connect conn_id n.pending_connects;
          effects = connected pc.on_connect key ∷ n.effects;
        }
      ]
    ]

-- An error in answer to a request of ours: `cmd`, "REPLY" and the tag. Others are only logged.
unfoldable pub handle_error : Bytes → List Bytes → Net → Net
handle_error cmd (reply ∷ tag ∷ []) n =
    if bytes_eq reply (bytes "REPLY") then answer tag false (cmd ∷ []) n else n
handle_error cmd rest n = n

-- The command, with the parts after it; false if it is not builtin.
unfoldable pub handle_command : Bool → ℤ → Bytes → Bytes → List Bytes → Net → Net × Bool
handle_command incoming conn_id route cmd rest n =
    if bytes_eq cmd (bytes "REPLY")
    then (handle_reply rest n, true)
    else if bytes_eq cmd (bytes "HI")
    then (if incoming then record n { effects = said_hello route ∷ n.effects } else n, true)
    else if bytes_eq cmd (bytes "HELLO")
    then (handle_hello incoming conn_id n, true)
    else if bytes_eq cmd (bytes "BYE")
    then (handle_bye incoming conn_id n, true)
    else if is_error_response cmd
    then (handle_error cmd rest n, true)
    else (n, false)

-- On a listening socket the first part is the route. An empty message counts as handled.
unfoldable pub proxy_handle_builtin : Bool → ℤ → List Bytes → Net → Net × Bool
proxy_handle_builtin true conn_id (route ∷ cmd ∷ rest) n =
    handle_command true conn_id route cmd rest n
proxy_handle_builtin false conn_id (cmd ∷ rest) n = handle_command false conn_id [] cmd rest n
proxy_handle_builtin incoming conn_id parts n = (n, true)
