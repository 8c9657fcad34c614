-- ===== src/Control/Delivery.antt =====
-- The proxy reads what the public functions wrote.
use oxen_mq.Common.{
  ℕ, ◌≡◌, refl, sym, ap, ◌∙◌, Bool, true, false, inl, inr, Option, none, some, List, [], ◌∷◌, ◌++◌,
  Bytes, ℤ, pos, negsuc, is_minus_one, ok, if◌then◌else◌, arith, Bool-cases,
}
use mathlib.Core.List.{append_assoc, append-nil}
use oxen_mq.ConnectionId.{ConnectionId, is_sn, of_pubkey}
use oxen_mq.Control.{Dict, Request, SendCommand, empty_dict}
use oxen_mq.Control.Parsing.{
  read, parse_conn_id, parse_request, parse_send, default_send_keep_alive, default_request_timeout,
}
use oxen_mq.Control.Interface.{
  SendOption, apply_send_option, apply_send_options, build_send, build_request, address_to,
}

-- The parts that the options add, in order.
abbrev pub parts_of : List SendOption → List Bytes
parts_of [] = []
parts_of (SendOption.part b ∷ os) = b ∷ parts_of os
parts_of (SendOption.data_parts bs ∷ os) = bs ++ parts_of os
parts_of (o ∷ os) = parts_of os

-- The value that the last option of one kind gives, or the default.
abbrev pub last_of {ℓ κ} : {O : Type ℓ} {A : Type κ} → (O → Option A) → A → List O → A
last_of pick x [] = x
last_of pick x (o ∷ os) = last_of pick (read x (pick o)) os

abbrev pub nonempty : Bytes → Option Bytes
nonempty [] = none
nonempty (c ∷ s) = some (c ∷ s)

abbrev pub nonnegative : ℤ → Option ℕ
nonnegative (pos t) = some t
nonnegative (negsuc t) = none

abbrev pub hint_of : SendOption → Option Bytes
hint_of (SendOption.hint h) = nonempty h
hint_of o = none

abbrev pub optional_of : SendOption → Option Bool
optional_of (SendOption.optional b) = some b
optional_of o = none

abbrev pub incoming_of : SendOption → Option Bool
incoming_of (SendOption.incoming b) = some b
incoming_of o = none

abbrev pub outgoing_of : SendOption → Option Bool
outgoing_of (SendOption.outgoing b) = some b
outgoing_of o = none

abbrev pub keep_alive_of : SendOption → Option ℕ
keep_alive_of (SendOption.keep_alive t) = nonnegative t
keep_alive_of o = none

abbrev pub request_timeout_of : SendOption → Option ℕ
request_timeout_of (SendOption.request_timeout t) = nonnegative t
request_timeout_of o = none

abbrev pub queue_failure_of : SendOption → Option (Option ℕ)
queue_failure_of (SendOption.queue_failure f) = some (some f)
queue_failure_of o = none

abbrev pub queue_full_of : SendOption → Option (Option ℕ)
queue_full_of (SendOption.queue_full f) = some (some f)
queue_full_of o = none

-- Where a message goes: a service node by its key alone, any other by its id and route.
abbrev pub destination : ConnectionId → ConnectionId
destination to =
    if is_sn to then of_pubkey to.pk else record { id = to.id; pk = []; route = to.route }

-- What `proxy_send` is to read, by the options.
abbrev pub wanted : ConnectionId → List Bytes → Option Request → List SendOption → SendCommand
wanted to parts request opts = record {
  conn_id = destination to;
  hint = last_of hint_of [] opts;
  keep_alive = last_of keep_alive_of default_send_keep_alive opts;
  optional = last_of optional_of false opts;
  outgoing = last_of outgoing_of false opts;
  incoming = last_of incoming_of false opts;
  request = request;
  parts = parts;
  callback_nosend = last_of queue_failure_of none opts;
  callback_noqueue = last_of queue_full_of none opts;
}

-- What the options make of a dictionary, key by key.
record Applied (opts : List SendOption) (d e : Dict) : Type 0 where
  hint_is : read [] e.hint ≡ last_of hint_of (read [] d.hint) opts
  keep_alive_is :
      read default_send_keep_alive e.keep_alive
      ≡ last_of keep_alive_of (read default_send_keep_alive d.keep_alive) opts
  optional_is : read false e.optional ≡ last_of optional_of (read false d.optional) opts
  outgoing_is : read false e.outgoing ≡ last_of outgoing_of (read false d.outgoing) opts
  incoming_is : read false e.incoming ≡ last_of incoming_of (read false d.incoming) opts
  timeout_is :
      read default_request_timeout e.request_timeout
      ≡ last_of request_timeout_of (read default_request_timeout d.request_timeout) opts
  nosend_is : e.send_fail ≡ last_of queue_failure_of d.send_fail opts
  noqueue_is : e.send_full_q ≡ last_of queue_full_of d.send_full_q opts
  no_conn_id : e.conn_id ≡ d.conn_id
  no_conn_pubkey : e.conn_pubkey ≡ d.conn_pubkey
  no_conn_route : e.conn_route ≡ d.conn_route
  no_request : e.request ≡ d.request

step-Applied :
    (o : SendOption) (parts : List Bytes) (d : Dict)
    → Applied (o ∷ []) d (apply_send_option o (parts, d)).1
unfolding apply_send_option
step-Applied (SendOption.hint []) parts d = ground arith
step-Applied (SendOption.hint (c ∷ s)) parts d = ground arith
step-Applied (SendOption.keep_alive (pos t)) parts d = ground arith
step-Applied (SendOption.keep_alive (negsuc t)) parts d = ground arith
step-Applied (SendOption.request_timeout (pos t)) parts d = ground arith
step-Applied (SendOption.request_timeout (negsuc t)) parts d = ground arith
step-Applied (SendOption.part b) parts d = ground arith
step-Applied (SendOption.data_parts bs) parts d = ground arith
step-Applied (SendOption.optional b) parts d = ground arith
step-Applied (SendOption.incoming b) parts d = ground arith
step-Applied (SendOption.outgoing b) parts d = ground arith
step-Applied (SendOption.queue_failure f) parts d = ground arith
step-Applied (SendOption.queue_full f) parts d = ground arith

step-parts :
    (o : SendOption) (parts : List Bytes) (d : Dict)
    → (apply_send_option o (parts, d)).0 ≡ parts ++ parts_of (o ∷ [])
unfolding apply_send_option
step-parts (SendOption.part b) parts d = refl
step-parts (SendOption.data_parts bs) parts d = rw append-nil refl
step-parts (SendOption.hint h) parts d = rw append-nil refl
step-parts (SendOption.optional b) parts d = rw append-nil refl
step-parts (SendOption.incoming b) parts d = rw append-nil refl
step-parts (SendOption.outgoing b) parts d = rw append-nil refl
step-parts (SendOption.keep_alive t) parts d = rw append-nil refl
step-parts (SendOption.request_timeout t) parts d = rw append-nil refl
step-parts (SendOption.queue_failure f) parts d = rw append-nil refl
step-parts (SendOption.queue_full f) parts d = rw append-nil refl

parts_of_cons :
    (o : SendOption) (os : List SendOption) → parts_of (o ∷ os) ≡ parts_of (o ∷ []) ++ parts_of os
parts_of_cons (SendOption.data_parts bs) os = rw append-nil refl
parts_of_cons _ os = refl

options-parts :
    (os : List SendOption) (parts : List Bytes) (d : Dict)
    → (apply_send_options os (parts, d)).0 ≡ parts ++ parts_of os
unfolding apply_send_options
options-parts [] parts d = rw append-nil refl
options-parts (o ∷ os) parts d =
    options-parts os (apply_send_option o (parts, d)).0 (apply_send_option o (parts, d)).1
    ∙ ap (λ (l : List Bytes). l ++ parts_of os) (step-parts o parts d)
    ∙ append_assoc parts (parts_of (o ∷ [])) (parts_of os)
    ∙ ap (λ (l : List Bytes). parts ++ l) (sym (parts_of_cons o os))

Applied-trans :
    (o : SendOption) (os : List SendOption) (d e f : Dict)
    → Applied (o ∷ []) d e
    → Applied os e f
    → Applied (o ∷ os) d f
Applied-trans o os d e f a b = record {
  hint_is = b.hint_is ∙ ap (λ (x : Bytes). last_of hint_of x os) a.hint_is;
  keep_alive_is = b.keep_alive_is ∙ ap (λ (x : ℕ). last_of keep_alive_of x os) a.keep_alive_is;
  optional_is = b.optional_is ∙ ap (λ (x : Bool). last_of optional_of x os) a.optional_is;
  outgoing_is = b.outgoing_is ∙ ap (λ (x : Bool). last_of outgoing_of x os) a.outgoing_is;
  incoming_is = b.incoming_is ∙ ap (λ (x : Bool). last_of incoming_of x os) a.incoming_is;
  timeout_is = b.timeout_is ∙ ap (λ (x : ℕ). last_of request_timeout_of x os) a.timeout_is;
  nosend_is = b.nosend_is ∙ ap (λ (x : Option ℕ). last_of queue_failure_of x os) a.nosend_is;
  noqueue_is = b.noqueue_is ∙ ap (λ (x : Option ℕ). last_of queue_full_of x os) a.noqueue_is;
  no_conn_id = b.no_conn_id ∙ a.no_conn_id;
  no_conn_pubkey = b.no_conn_pubkey ∙ a.no_conn_pubkey;
  no_conn_route = b.no_conn_route ∙ a.no_conn_route;
  no_request = b.no_request ∙ a.no_request;
}

options-Applied :
    (os : List SendOption) (parts : List Bytes) (d : Dict)
    → Applied os d (apply_send_options os (parts, d)).1
unfolding apply_send_options
options-Applied [] parts d = record {
  hint_is = refl;
  keep_alive_is = refl;
  optional_is = refl;
  outgoing_is = refl;
  incoming_is = refl;
  timeout_is = refl;
  nosend_is = refl;
  noqueue_is = refl;
  no_conn_id = refl;
  no_conn_pubkey = refl;
  no_conn_route = refl;
  no_request = refl;
}
options-Applied (o ∷ os) parts d =
    let s = apply_send_option o (parts, d) in
    Applied-trans o os d s.1 (apply_send_options os s).1 (step-Applied o parts d)
      (options-Applied os s.0 s.1)

-- Reading the destination back.
parse-address_to :
    (to : ConnectionId) (d : Dict)
    → d.conn_id ≡ none
    → d.conn_pubkey ≡ none
    → d.conn_route ≡ none
    → let e = address_to to d in
      (c : ConnectionId) × (parse_conn_id e.conn_id e.conn_pubkey ≡ ok c)
      × (record c { route = read [] e.conn_route } ≡ destination to)
unfolding parse_conn_id
parse-address_to to d i k r = elim (Bool-cases (is_sn to)) [
  | inl sn ↦ rw (sn, i, r) (of_pubkey to.pk, refl, refl)
  | inr other ↦ rw (other, k) (record { id = to.id; pk = []; route = [] }, rw (other) refl, refl)
]

-- A dictionary with the keys of a SEND: what `parse_send` makes of it.
sent :
    (to : ConnectionId) (opts : List SendOption) (parts : List Bytes) (d : Dict)
    → Applied opts empty_dict d
    → parse_send (record (address_to to d) { send = some parts }) ≡ ok (wanted to parts none opts)
unfolding parse_send parse_conn_id parse_request
sent to opts parts d a = elim (Bool-cases (is_sn to)) [
  | inl sn ↦
      rw
        (
          sn, a.no_conn_id, a.no_conn_route, a.no_request, a.hint_is, a.keep_alive_is,
          a.optional_is, a.outgoing_is, a.incoming_is, a.nosend_is, a.noqueue_is,
        )
        refl
  | inr other ↦
      let plain : is_minus_one to.id ≡ false = other in
      rw
        (
          other, plain, a.no_conn_pubkey, a.no_request, a.hint_is, a.keep_alive_is, a.optional_is,
          a.outgoing_is, a.incoming_is, a.nosend_is, a.noqueue_is,
        )
        refl
]

requested :
    (to : ConnectionId) (opts : List SendOption) (parts : List Bytes) (d : Dict) (callback : ℕ)
    (tag : Bytes)
    → Applied opts empty_dict d
    → parse_send (record (address_to to d) {
      send = some parts;
      request = some true;
      request_callback = some callback;
      request_tag = some tag;
    })
      ≡ ok (
          wanted to parts
            (some (record {
              callback = callback;
              tag = tag;
              timeout = last_of request_timeout_of default_request_timeout opts;
            }))
            opts)
unfolding parse_send parse_conn_id parse_request
requested to opts parts d callback tag a = elim (Bool-cases (is_sn to)) [
  | inl sn ↦
      rw
        (
          sn, a.no_conn_id, a.no_conn_route, a.hint_is, a.keep_alive_is, a.optional_is,
          a.outgoing_is, a.incoming_is, a.nosend_is, a.noqueue_is, a.timeout_is,
        )
        refl
  | inr other ↦
      let plain : is_minus_one to.id ≡ false = other in
      rw
        (
          other, plain, a.no_conn_pubkey, a.hint_is, a.keep_alive_is, a.optional_is, a.outgoing_is,
          a.incoming_is, a.nosend_is, a.noqueue_is, a.timeout_is,
        )
        refl
]

-- What `send` and `request` write, the proxy reads: the connection (a service node by its key alone),
-- the command and all parts in order, and each option as it was given last, an empty hint and a
-- negative time as not given. A request has its callback, its tag as the first part, and its time.
pub parse_send-build :
    (to : ConnectionId) (cmd : Bytes) (opts : List SendOption) (callback : ℕ) (tag : Bytes)
    → (parse_send (build_send to cmd opts) ≡ ok (wanted to (cmd ∷ parts_of opts) none opts))
      × (parse_send (build_request to cmd callback tag opts)
          ≡ ok (
              wanted to
                (cmd ∷ tag ∷ parts_of opts)
                (some (record {
                  callback = callback;
                  tag = tag;
                  timeout = last_of request_timeout_of default_request_timeout opts;
                }))
                opts))
unfolding build_request
parse_send-build to cmd opts callback tag = (
  rw (options-parts opts (cmd ∷ []) empty_dict)
      (sent to opts (cmd ∷ parts_of opts) _ (options-Applied opts (cmd ∷ []) empty_dict)),
  rw (options-parts (SendOption.part tag ∷ opts) (cmd ∷ []) empty_dict) (
      requested to (SendOption.part tag ∷ opts) (cmd ∷ tag ∷ parts_of opts) _ callback tag
        (options-Applied (SendOption.part tag ∷ opts) (cmd ∷ []) empty_dict)),
)
