-- ===== src/Control/Parsing.antt =====
-- What the proxy reads from the dictionaries of SEND and REPLY (oxenmq/proxy.cpp) and of CONNECT_SN and
-- CONNECT_REMOTE (oxenmq/connections.cpp).
use oxen_mq.Common.{
  ℕ, Bool, true, false, ◌||◌, Option, none, some, List, [], Bytes, ℤ, is_minus_one, minus_one,
  is_empty, Result, ok, err, ◌>>=◌, ◌>>◌, throw_if,
}
use oxen_mq.Access.{AuthLevel}
use oxen_mq.ConnectionId.{ConnectionId, of_pubkey}
use oxen_mq.Control.{
  Dict, Request, SendCommand, ControlError, invalid_conn_id, exclusive_ids, missing_id,
  missing_callback, missing_tag, missing_parts, missing_pubkey, missing_remote, not_unsigned,
}

-- `if (data.skip_until(key)) x = …;` for a variable that starts as `x`.
abbrev pub read {ℓ} : {A : Type ℓ} → A → Option A → A
read x none = x
read x (some y) = y

-- `if (!data.skip_until(key)) throw …;`.
abbrev pub need {ℓ} : {A : Type ℓ} → ControlError → Option A → Result ControlError A
need e none = err e
need e (some x) = ok x

-- 30 s, 15 s, 5 min and 10 s.
abbrev pub default_send_keep_alive : ℕ
default_send_keep_alive = 30000

abbrev pub default_request_timeout : ℕ
default_request_timeout = 15000

abbrev pub default_connect_sn_keep_alive : ℕ
default_connect_sn_keep_alive = 300000

abbrev pub remote_connect_timeout : ℕ
remote_connect_timeout = 10000

-- The connection of a SEND or a REPLY; the route is read later, where there is one.
unfoldable pub parse_conn_id : Option ℤ → Option Bytes → Result ControlError ConnectionId
parse_conn_id none none = err missing_id
parse_conn_id none (some pk) = ok (of_pubkey pk)
parse_conn_id (some id) pk = do
  throw_if (is_minus_one id) invalid_conn_id
  elim pk [ some key ↦ err exclusive_ids | none ↦ ok (record { id = id; pk = []; route = [] }) ]

unfoldable pub parse_request : Dict → Result ControlError (Option Request)
parse_request d = elim (read false d.request) [
  | false ↦ ok none
  | true ↦ do
    callback ← need missing_callback d.request_callback
    tag ← need missing_tag d.request_tag
    ok (
        some (record {
          callback = callback;
          tag = tag;
          timeout = read default_request_timeout d.request_timeout;
        }))
]

-- The first part of `proxy_send`.
unfoldable pub parse_send : Dict → Result ControlError SendCommand
unfolding parse_conn_id parse_request
parse_send d = do
  conn_id ← parse_conn_id d.conn_id d.conn_pubkey
  request ← parse_request d
  parts ← need missing_parts d.send
  ok (record {
    conn_id = record conn_id { route = read [] d.conn_route };
    hint = read [] d.hint;
    keep_alive = read default_send_keep_alive d.keep_alive;
    optional = read false d.optional;
    outgoing = read false d.outgoing;
    incoming = read false d.incoming;
    request = request;
    parts = parts;
    callback_nosend = d.send_fail;
    callback_noqueue = d.send_full_q;
  })

-- The first part of `proxy_reply`: the connection and the parts.
unfoldable pub parse_reply : Dict → Result ControlError (ConnectionId × List Bytes)
unfolding parse_conn_id
parse_reply d = do
  conn_id ← parse_conn_id d.conn_id d.conn_pubkey
  parts ← need missing_parts d.send
  ok (conn_id, parts)

-- The arguments with which `proxy_connect_sn` calls itself. Without a keep-alive time the source
-- passes a variable that is not set: `unset` stands for its value.
pub record ConnectSn : Type 0 where
  pub remote_pk : Bytes
  pub hint : Bytes
  pub optional : Bool
  pub incoming_only : Bool
  pub outgoing_only : Bool
  pub ephemeral_rid : Bool
  pub keep_alive : ℕ

unfoldable pub parse_connect_sn : Bool → ℕ → Dict → Result ControlError ConnectSn
parse_connect_sn ephemeral_default unset d = do
  remote_pk ← need missing_pubkey d.pubkey
  ok (record {
    remote_pk = remote_pk;
    hint = read [] d.hint;
    optional = read false d.optional;
    incoming_only = read false d.incoming;
    outgoing_only = read false d.outgoing_only;
    ephemeral_rid = read ephemeral_default d.ephemeral_rid;
    keep_alive = read unset d.keep_alive;
  })

-- The variables of `proxy_connect_remote`; a callback that is not given is `none`.
pub record ConnectRemote : Type 0 where
  pub auth_level : AuthLevel
  pub conn_id : ℤ
  pub on_connect : Option ℕ
  pub on_failure : Option ℕ
  pub remote : Bytes
  pub remote_pubkey : Bytes
  pub timeout : ℕ
  pub ephemeral_rid : Bool

-- `consume_integer<uint64_t>`, which `consume` stands for: `none` where it throws.
abbrev pub read_timeout : (ℤ → Option ℕ) → Option ℤ → Result ControlError ℕ
read_timeout consume none = ok remote_connect_timeout
read_timeout consume (some t) = need not_unsigned (consume t)

unfoldable pub parse_connect_remote :
    (ℤ → Option ℕ) → Bool → Dict → Result ControlError ConnectRemote
parse_connect_remote consume ephemeral_default d = do
  timeout ← read_timeout consume d.timeout
  throw_if (is_minus_one (read minus_one d.conn_id) || is_empty (read [] d.remote)) missing_remote
  ok (record {
    auth_level = read AuthLevel.none d.auth_level;
    conn_id = read minus_one d.conn_id;
    on_connect = d.connect;
    on_failure = d.failure;
    remote = read [] d.remote;
    remote_pubkey = read [] d.pubkey;
    timeout = timeout;
    ephemeral_rid = read ephemeral_default d.ephemeral_rid;
  })
