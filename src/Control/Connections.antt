-- ===== src/Control/Connections.antt =====
-- The proxy reads what `connect_sn` and `connect_remote` wrote.
use oxen_mq.Common.{
  ℕ, ◌*◌, ◌≡◌, refl, ap, ◌∙◌, Bool, true, false, inl, inr, Option, none, some, List, [], ◌∷◌, Bytes,
  ℤ, pos, negsuc, is_minus_one, is_empty, Result, ok, err, ◌>>=◌, if◌then◌else◌, arith, Bool-cases,
}
use oxen_mq.Access.{AuthLevel}
use oxen_mq.Address.{
  Address, Oxenc, Encoding, is_curve, zmq_address, is_tcp, full_address, plain_proto,
}
use oxen_mq.Control.{Dict, empty_dict, ControlError, not_unsigned}
use oxen_mq.Control.Parsing.{
  read, parse_connect_sn, parse_connect_remote, default_connect_sn_keep_alive,
  remote_connect_timeout, read_timeout,
}
use oxen_mq.Control.Interface.{
  ConnectOption, apply_connect_option, apply_connect_options, connect_sn, connect_remote,
}
use oxen_mq.Control.Delivery.{last_of, nonempty, nonnegative}

abbrev pub hint_of : ConnectOption → Option Bytes
hint_of (ConnectOption.hint h) = nonempty h
hint_of o = none

abbrev pub keep_alive_of : ConnectOption → Option ℕ
keep_alive_of (ConnectOption.keep_alive t) = nonnegative t
keep_alive_of o = none

abbrev pub routing_of : ConnectOption → Option Bool
routing_of (ConnectOption.ephemeral_routing_id b) = some b
routing_of o = none

abbrev pub auth_level_of : ConnectOption → Option AuthLevel
auth_level_of (ConnectOption.auth_level l) = some l
auth_level_of o = none

abbrev pub timeout_of : ConnectOption → Option (Option ℤ)
timeout_of (ConnectOption.timeout t) = some (some t)
timeout_of o = none

-- What the options of `connect_sn` make of a dictionary.
record AppliedSn (routing : Bool) (unset : ℕ) (os : List ConnectOption) (d e : Dict) : Type 0 where
  hint_is : read [] e.hint ≡ last_of hint_of (read [] d.hint) os
  keep_alive_is : read unset e.keep_alive ≡ last_of keep_alive_of (read unset d.keep_alive) os
  routing_is : read routing e.ephemeral_rid ≡ last_of routing_of (read routing d.ephemeral_rid) os
  optional_is : e.optional ≡ d.optional
  incoming_is : e.incoming ≡ d.incoming
  outgoing_is : e.outgoing_only ≡ d.outgoing_only

-- What the options of `connect_remote` make of one.
record AppliedRemote (routing : Bool) (os : List ConnectOption) (d e : Dict) : Type 0 where
  auth_level_is :
      read AuthLevel.none e.auth_level ≡ last_of auth_level_of (read AuthLevel.none d.auth_level) os
  timeout_is : e.timeout ≡ last_of timeout_of d.timeout os
  routing_is : read routing e.ephemeral_rid ≡ last_of routing_of (read routing d.ephemeral_rid) os
  pubkey_is : e.pubkey ≡ d.pubkey

module _ (routing : Bool) (unset : ℕ) where
  step-AppliedSn :
      (o : ConnectOption) (d : Dict)
      → AppliedSn routing unset (o ∷ []) d (apply_connect_option false o d)
  unfolding apply_connect_option
  step-AppliedSn (ConnectOption.auth_level l) d = ground arith
  step-AppliedSn (ConnectOption.ephemeral_routing_id b) d = ground arith
  step-AppliedSn (ConnectOption.timeout t) d = ground arith
  step-AppliedSn (ConnectOption.keep_alive (pos t)) d = ground arith
  step-AppliedSn (ConnectOption.keep_alive (negsuc t)) d = ground arith
  step-AppliedSn (ConnectOption.hint []) d = ground arith
  step-AppliedSn (ConnectOption.hint (c ∷ s)) d = ground arith

  options-AppliedSn :
      (os : List ConnectOption) (d : Dict)
      → AppliedSn routing unset os d (apply_connect_options false os d)
  unfolding apply_connect_options
  options-AppliedSn [] d = record {
    hint_is = refl;
    keep_alive_is = refl;
    routing_is = refl;
    optional_is = refl;
    incoming_is = refl;
    outgoing_is = refl;
  }
  options-AppliedSn (o ∷ os) d =
      let a = step-AppliedSn o d in
      let b = options-AppliedSn os (apply_connect_option false o d) in
      record {
        hint_is = b.hint_is ∙ ap (λ (x : Bytes). last_of hint_of x os) a.hint_is;
        keep_alive_is =
            b.keep_alive_is ∙ ap (λ (x : ℕ). last_of keep_alive_of x os) a.keep_alive_is;
        routing_is = b.routing_is ∙ ap (λ (x : Bool). last_of routing_of x os) a.routing_is;
        optional_is = b.optional_is ∙ a.optional_is;
        incoming_is = b.incoming_is ∙ a.incoming_is;
        outgoing_is = b.outgoing_is ∙ a.outgoing_is;
      }

module _ (routing : Bool) where
  step-AppliedRemote :
      (o : ConnectOption) (d : Dict)
      → AppliedRemote routing (o ∷ []) d (apply_connect_option true o d)
  unfolding apply_connect_option
  step-AppliedRemote (ConnectOption.auth_level l) d = ground arith
  step-AppliedRemote (ConnectOption.ephemeral_routing_id b) d = ground arith
  step-AppliedRemote (ConnectOption.timeout t) d = ground arith
  step-AppliedRemote (ConnectOption.keep_alive t) d = ground arith
  step-AppliedRemote (ConnectOption.hint h) d = ground arith

  options-AppliedRemote :
      (os : List ConnectOption) (d : Dict)
      → AppliedRemote routing os d (apply_connect_options true os d)
  unfolding apply_connect_options
  options-AppliedRemote [] d = record {
    auth_level_is = refl;
    timeout_is = refl;
    routing_is = refl;
    pubkey_is = refl;
  }
  options-AppliedRemote (o ∷ os) d =
      let a = step-AppliedRemote o d in
      let b = options-AppliedRemote os (apply_connect_option true o d) in
      record {
        auth_level_is =
            b.auth_level_is ∙ ap (λ (x : AuthLevel). last_of auth_level_of x os) a.auth_level_is;
        timeout_is = b.timeout_is ∙ ap (λ (x : Option ℤ). last_of timeout_of x os) a.timeout_is;
        routing_is = b.routing_is ∙ ap (λ (x : Bool). last_of routing_of x os) a.routing_is;
        pubkey_is = b.pubkey_is ∙ a.pubkey_is;
      }

-- `connect_sn` reaches the proxy with its key and its options, as given last, an empty hint and a
-- negative keep-alive time as not given. Without a keep-alive time the proxy takes 1000 times the
-- default, since the one side counts in microseconds and the other in milliseconds.
pub parse_connect_sn-connect_sn :
    (routing default_routing : Bool) (unset : ℕ) (pubkey : Bytes) (os : List ConnectOption)
    → parse_connect_sn default_routing unset (connect_sn routing pubkey os)
      ≡ ok (record {
        remote_pk = pubkey;
        hint = last_of hint_of [] os;
        optional = false;
        incoming_only = false;
        outgoing_only = false;
        ephemeral_rid = last_of routing_of routing os;
        keep_alive = last_of keep_alive_of (1000 * default_connect_sn_keep_alive) os;
      })
unfolding parse_connect_sn connect_sn
parse_connect_sn-connect_sn routing default_routing unset pubkey os =
    let a = options-AppliedSn default_routing unset os (record empty_dict {
      keep_alive = some (default_connect_sn_keep_alive * 1000);
      ephemeral_rid = some routing;
    }) in
    rw (a.hint_is, a.keep_alive_is, a.routing_is, a.optional_is, a.incoming_is, a.outgoing_is) refl

zmq_address-ne : (a : Address) → is_empty (zmq_address a) ≡ false
unfolding zmq_address
zmq_address-ne a = elim (Bool-cases (is_tcp a)) [ inl e ↦ rw e refl | inr e ↦ rw e refl ]

key_of : (b : Bool) (pk : Bytes) → read [] (if b then some pk else none) ≡ (if b then pk else [])
key_of true pk = refl
key_of false pk = refl

-- The text of an address without its key.
full_address-plain :
    (o : Oxenc) (enc : Encoding) (a : Address)
    → full_address o enc (record a { protocol = plain_proto a.protocol; pubkey = [] })
      ≡ zmq_address a
unfolding full_address zmq_address
full_address-plain o enc a = ground arith

-- How long the proxy waits: a negative time is not read as a `uint64_t`.
abbrev pub time_limit : Option ℤ → Result ControlError ℕ
time_limit none = ok remote_connect_timeout
time_limit (some (pos t)) = ok t
time_limit (some (negsuc t)) = err not_unsigned

read_timeout-time_limit :
    (consume : ℤ → Option ℕ)
    → ((t : ℕ) → consume (pos t) ≡ some t)
    → ((t : ℕ) → consume (negsuc t) ≡ none)
    → (t : Option ℤ) → read_timeout consume t ≡ time_limit t
read_timeout-time_limit consume reads throws none = refl
read_timeout-time_limit consume reads throws (some (pos t)) = rw (reads t) refl
read_timeout-time_limit consume reads throws (some (negsuc t)) = rw (throws t) refl

-- `connect_remote` reaches the proxy with its id, its callbacks, the remote as the text of its address
-- without the key, its key if the address asks for encryption, and its options, as given last, if oxenc
-- reads an unsigned integer where there is one and throws at a negative one; a negative timeout makes
-- the proxy throw.
pub parse_connect_remote-connect_remote :
    (consume : ℤ → Option ℕ) (o : Oxenc) (enc : Encoding) (routing : Bool) (id : ℤ) (a : Address)
    (on_connect on_failure : ℕ) (os : List ConnectOption)
    → ((t : ℕ) → consume (pos t) ≡ some t)
    → ((t : ℕ) → consume (negsuc t) ≡ none)
    → is_minus_one id ≡ false
    → parse_connect_remote consume routing (connect_remote id a on_connect on_failure os) ≡ (
        time_limit (last_of timeout_of none os) >>= λ timeout. ok (record {
          auth_level = last_of auth_level_of AuthLevel.none os;
          conn_id = id;
          on_connect = some on_connect;
          on_failure = some on_failure;
          remote = full_address o enc (record a { protocol = plain_proto a.protocol; pubkey = [] });
          remote_pubkey = if is_curve a then a.pubkey else [];
          timeout = timeout;
          ephemeral_rid = last_of routing_of routing os;
        }))
unfolding parse_connect_remote connect_remote
parse_connect_remote-connect_remote consume o enc routing id a on_connect on_failure os reads throws
      valid =
    let e = options-AppliedRemote routing os empty_dict in
    rw
      (
        valid,
        zmq_address-ne a,
        e.auth_level_is,
        e.timeout_is,
        read_timeout-time_limit consume reads throws (last_of timeout_of none os),
        e.routing_is,
        e.pubkey_is,
        key_of (is_curve a) a.pubkey,
        full_address-plain o enc a,
      )
      refl
