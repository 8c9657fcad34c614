-- ===== src/Auth.antt =====
-- oxenmq/auth.cpp: `proxy_check_auth`, and the peer of an incoming message in `proxy_to_worker`
-- (oxenmq/worker.cpp). What zmq knows of the sender of a message is an argument.
pub mod Zap
pub mod Zmtp
pub mod Checks
use oxen_mq.Common.{
  ℕ, Bool, true, false, not, ◌&&◌, Option, none, some, List, [], ◌∷◌, ◌++◌, Bytes, bytes, bytes_eq,
  ℤ, is_empty, if◌then◌else◌,
}
use oxen_mq.Access.{AuthLevel, level_lt}
use oxen_mq.Pool.{Category, Callback}
use oxen_mq.Peers.{PeerInfo}

-- `cat_call.second->second` of a command that was found.
abbrev pub is_request : Option (Callback × Bool) → Bool
is_request none = false
is_request (some f) = f.1

-- The answer to a command that may not run; `none` lets it run.
unfoldable pub denial :
    Bool → PeerInfo → Option Category → Option (Callback × Bool) → List Bytes → Option Bytes
denial local_service_node peer none call parts = some (bytes "UNKNOWNCOMMAND")
denial local_service_node peer (some cat) call parts =
    if level_lt peer.auth_level cat.access.auth
    then some (bytes "FORBIDDEN")
    else if cat.access.local_sn && not local_service_node
    then some (bytes "NOT_A_SERVICE_NODE")
    else if cat.access.remote_sn && not peer.service_node
    then some (bytes "FORBIDDEN_SN")
    else if is_request call && is_empty parts
    then some (bytes "NO_REPLY_TAG")
    else none

-- The parts after the answer: the reply tag of a request, the command of anything else.
abbrev pub denial_tail : Bool → Bytes → List Bytes → List Bytes
denial_tail true cmd (tag ∷ parts) = bytes "REPLY" ∷ tag ∷ []
denial_tail request cmd parts = cmd ∷ []

-- `proxy_check_auth`: the result, and the message that is sent back to the peer if it is false.
unfoldable pub proxy_check_auth :
    Bool
    → Bool
    → PeerInfo
    → Bytes
    → Option Category
    → Option (Callback × Bool)
    → List Bytes
    → Bool × List Bytes
proxy_check_auth local_service_node outgoing peer cmd cat call parts =
    elim (denial local_service_node peer cat call parts) [
      | none ↦ (true, [])
      | some reply ↦ (
        false,
        (if outgoing then [] else peer.route ∷ [])
            ++ reply ∷ denial_tail (is_request call) cmd parts,
      )
    ]
