-- ===== src/Control/Interface.antt =====
-- oxenmq/oxenmq.h: the options of `send`, `request`, `connect_sn` and `connect_remote`, and the control
-- messages that these send to the proxy.
use oxen_mq.Common.{
  ℕ, ◌*◌, Bool, true, false, Option, some, List, [], ◌∷◌, ◌++◌, Bytes, bytes, ℤ, pos, negsuc,
  is_empty, if◌then◌else◌,
}
use oxen_mq.Access.{AuthLevel, admin}
use oxen_mq.ConnectionId.{ConnectionId, is_sn}
use oxen_mq.Address.{Address, is_curve, zmq_address}
use oxen_mq.Control.{Dict, empty_dict}
use oxen_mq.Control.Parsing.{default_connect_sn_keep_alive}

-- The arguments after the command: `std::optional` arguments that are not set are left out.
pub data SendOption : Type 0 where
  part : Bytes → SendOption
  data_parts : List Bytes → SendOption
  hint : Bytes → SendOption
  optional : Bool → SendOption
  incoming : Bool → SendOption
  outgoing : Bool → SendOption
  keep_alive : ℤ → SendOption
  request_timeout : ℤ → SendOption
  queue_failure : ℕ → SendOption
  queue_full : ℕ → SendOption

-- `if (time >= 0ms) control_data[key] = time.count();`.
abbrev pub set_time : ℤ → Option ℕ → Option ℕ
set_time (pos t) old = some t
set_time (negsuc t) old = old

unfoldable pub apply_send_option : SendOption → List Bytes × Dict → List Bytes × Dict
apply_send_option (part arg) (parts, d) = (parts ++ arg ∷ [], d)
apply_send_option (data_parts args) (parts, d) = (parts ++ args, d)
apply_send_option (hint h) (parts, d) =
    (parts, if is_empty h then d else record d { hint = some h })
apply_send_option (optional b) (parts, d) = (parts, record d { optional = some b })
apply_send_option (incoming b) (parts, d) = (parts, record d { incoming = some b })
apply_send_option (outgoing b) (parts, d) = (parts, record d { outgoing = some b })
apply_send_option (keep_alive t) (parts, d) =
    (parts, record d { keep_alive = set_time t d.keep_alive })
apply_send_option (request_timeout t) (parts, d) =
    (parts, record d { request_timeout = set_time t d.request_timeout })
apply_send_option (queue_failure f) (parts, d) = (parts, record d { send_fail = some f })
apply_send_option (queue_full f) (parts, d) = (parts, record d { send_full_q = some f })

unfoldable pub apply_send_options : List SendOption → List Bytes × Dict → List Bytes × Dict
apply_send_options [] s = s
apply_send_options (o ∷ os) s = apply_send_options os (apply_send_option o s)

-- The connection of a message: a service node by its key, any other by its id and route.
abbrev pub address_to : ConnectionId → Dict → Dict
address_to to d =
    if is_sn to
    then record d { conn_pubkey = some to.pk }
    else record d { conn_id = some to.id; conn_route = some to.route }

unfoldable pub build_send : ConnectionId → Bytes → List SendOption → Dict
unfolding apply_send_options apply_send_option
build_send to cmd opts =
    let (parts, d) = apply_send_options opts (cmd ∷ [], empty_dict) in
    record (address_to to d) { send = some parts }

-- `request`: the tag, which is random, is the first part after the command.
unfoldable pub build_request : ConnectionId → Bytes → ℕ → Bytes → List SendOption → Dict
unfolding build_send
build_request to cmd callback reply_tag opts = record (build_send to cmd (part reply_tag ∷ opts)) {
  request = some true;
  request_callback = some callback;
  request_tag = some reply_tag;
}

pub data ConnectOption : Type 0 where
  auth_level : AuthLevel → ConnectOption
  ephemeral_routing_id : Bool → ConnectOption
  timeout : ℤ → ConnectOption
  keep_alive : ℤ → ConnectOption
  hint : Bytes → ConnectOption

-- `apply_connect_option`, with `remote` true for `connect_remote`; what does not apply is only logged. A
-- timeout is written as it is, also a negative one.
unfoldable pub apply_connect_option : Bool → ConnectOption → Dict → Dict
apply_connect_option true (auth_level l) d = record d { auth_level = some l }
apply_connect_option false (auth_level l) d = d
apply_connect_option remote (ephemeral_routing_id b) d = record d { ephemeral_rid = some b }
apply_connect_option true (timeout t) d = record d { timeout = some t }
apply_connect_option false (timeout t) d = d
apply_connect_option true (keep_alive t) d = d
apply_connect_option false (keep_alive t) d = record d { keep_alive = set_time t d.keep_alive }
apply_connect_option true (hint h) d = d
apply_connect_option false (hint h) d = if is_empty h then d else record d { hint = some h }

unfoldable pub apply_connect_options : Bool → List ConnectOption → Dict → Dict
apply_connect_options remote [] d = d
apply_connect_options remote (o ∷ os) d =
    apply_connect_options remote os (apply_connect_option remote o d)

-- `connect_sn`: the default keep-alive time is written in microseconds.
unfoldable pub connect_sn : Bool → Bytes → List ConnectOption → Dict
unfolding apply_connect_options apply_connect_option
connect_sn ephemeral_routing pubkey options =
    record (apply_connect_options false options (record empty_dict {
      keep_alive = some (default_connect_sn_keep_alive * 1000);
      ephemeral_rid = some ephemeral_routing;
    })) { pubkey = some pubkey }

-- `connect_remote`; `id` is the next connection id.
unfoldable pub connect_remote : ℤ → Address → ℕ → ℕ → List ConnectOption → Dict
unfolding apply_connect_options apply_connect_option zmq_address
connect_remote id address on_connect on_failure options =
    let opts = apply_connect_options true options empty_dict in
    record opts {
      conn_id = some id;
      connect = some on_connect;
      failure = some on_failure;
      pubkey = if is_curve address then some address.pubkey else opts.pubkey;
      remote = some (zmq_address address);
    }

-- 50 ms.
abbrev pub inproc_connect_timeout : ℕ
inproc_connect_timeout = 50

unfoldable pub connect_inproc : ℤ → ℕ → ℕ → List ConnectOption → Dict
unfolding apply_connect_options apply_connect_option
connect_inproc id on_connect on_failure options =
    record (apply_connect_options true options (record empty_dict {
      timeout = some (pos inproc_connect_timeout);
      auth_level = some admin;
    })) {
      conn_id = some id;
      connect = some on_connect;
      failure = some on_failure;
      remote = some (bytes "inproc://sn-self");
    }
