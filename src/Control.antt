-- ===== src/Control.antt =====
-- The control messages SEND, REPLY, CONNECT_SN and CONNECT_REMOTE between the public functions of
-- oxenmq/oxenmq.h and the proxy thread (oxenmq/proxy.cpp, oxenmq/connections.cpp). A dictionary is a
-- record of the keys that are used, each with the type with which it is written and read; a callback is
-- a number, a duration a number of milliseconds.
pub mod Interface
pub mod Parsing
pub mod Delivery
pub mod Connections
pub mod Sending
pub mod Rounds
pub mod Retries
pub mod Outcomes
pub mod Hanging
pub mod Replying
pub mod Reuse
pub mod Arrivals
pub mod Answered
pub mod Reachability
use oxen_mq.Common.{ℕ, Bool, Option, none, List, Bytes, ℤ}
use oxen_mq.Access.{AuthLevel}
use oxen_mq.ConnectionId.{ConnectionId}

pub record Dict : Type 0 where
  pub auth_level : Option AuthLevel
  pub conn_id : Option ℤ
  pub conn_pubkey : Option Bytes
  pub conn_route : Option Bytes
  pub connect : Option ℕ
  pub ephemeral_rid : Option Bool
  pub failure : Option ℕ
  pub hint : Option Bytes
  pub incoming : Option Bool
  pub keep_alive : Option ℕ
  pub optional : Option Bool
  pub outgoing : Option Bool
  pub outgoing_only : Option Bool
  pub pubkey : Option Bytes
  pub remote : Option Bytes
  pub request : Option Bool
  pub request_callback : Option ℕ
  pub request_tag : Option Bytes
  pub request_timeout : Option ℕ
  pub send : Option (List Bytes)
  pub send_fail : Option ℕ
  pub send_full_q : Option ℕ
  pub timeout : Option ℤ

abbrev pub empty_dict : Dict
empty_dict = record {
  auth_level = none;
  conn_id = none;
  conn_pubkey = none;
  conn_route = none;
  connect = none;
  ephemeral_rid = none;
  failure = none;
  hint = none;
  incoming = none;
  keep_alive = none;
  optional = none;
  outgoing = none;
  outgoing_only = none;
  pubkey = none;
  remote = none;
  request = none;
  request_callback = none;
  request_tag = none;
  request_timeout = none;
  send = none;
  send_fail = none;
  send_full_q = none;
  timeout = none;
}

-- A request: the callback, the tag and how long to wait.
pub record Request : Type 0 where
  pub callback : ℕ
  pub tag : Bytes
  pub timeout : ℕ

-- The variables of `proxy_send` after it has read its dictionary.
pub record SendCommand : Type 0 where
  pub conn_id : ConnectionId
  pub hint : Bytes
  pub keep_alive : ℕ
  pub optional : Bool
  pub outgoing : Bool
  pub incoming : Bool
  pub request : Option Request
  pub parts : List Bytes
  pub callback_nosend : Option ℕ
  pub callback_noqueue : Option ℕ

-- The internal errors, which are exceptions.
pub data ControlError : Type 0 where
  invalid_conn_id exclusive_ids missing_id missing_callback missing_tag missing_parts : ControlError
  missing_pubkey missing_remote not_unsigned : ControlError
