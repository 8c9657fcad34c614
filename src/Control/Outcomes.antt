-- ===== src/Control/Outcomes.antt =====
-- What `proxy_send` (oxenmq/proxy.cpp) has done when it returns.
use oxen_mq.Common.{
  ℕ, zero, suc, ◌+◌, ◌≡◌, refl, subst, inl, inr, Bool, true, false, not, ◌&&◌, Option, none, some,
  List, [], ◌∷◌, ◌++◌, Bytes, bytes, bytes_eq, ℤ, find, has_key, is_empty, if◌then◌else◌, Result,
  ok, err, arith, Bool-cases, Option-cases,
}
use oxen_mq.ConnectionId.{ConnectionId, cid_eq, is_sn}
use oxen_mq.Peers.{Net, NetEffect, delivered, send_failed, queue_was_full, request_answered}
use oxen_mq.Peers.Connecting.{open_sn, proxy_connect_sn}
use oxen_mq.Control.{SendCommand, Request}
use oxen_mq.Control.Sending.{
  ZmqError, Outside, Target, no_socket, send_to, sn_target, choose_socket, erase_first, Round,
  finished, again, endless, report_error, is_unreachable, drop_peer, recover, after_send, send_on,
  send_round, conclude, returns, send_loop, send_out, send_message_parts, build_send_parts, routed,
}
use oxen_mq.Control.Rounds.{Round-cases}

-- The requests that wait for a reply, with one more; a tag that is there already is kept.
abbrev pub awaiting : ℕ → Option Request → List (Bytes × (ℕ × ℕ)) → List (Bytes × (ℕ × ℕ))
awaiting now none waiting = waiting
awaiting now (some q) waiting =
    if has_key bytes_eq q.tag waiting
    then waiting
    else (q.tag, (now + q.timeout, q.callback)) ∷ waiting

-- The callback of a request that fails at once.
abbrev pub request_fails : Option Request → List NetEffect
request_fails none = []
request_fails (some q) = request_answered q.callback false (bytes "TIMEOUT" ∷ []) ∷ []

-- The failure callback, with an exception or with none.
abbrev pub failure_call : Bool → Option ℕ → List NetEffect
failure_call exception none = []
failure_call exception (some f) = send_failed f exception ∷ []

abbrev pub full_call : Option ℕ → List NetEffect
full_call none = []
full_call (some f) = queue_was_full f ∷ []

-- The callbacks of a message that was not sent, latest first.
abbrev pub dropped_calls : SendCommand → List NetEffect
dropped_calls r =
    (elim r.callback_nosend [
      | none ↦ full_call r.callback_noqueue
      | some f ↦ failure_call false (some f)
    ])
    ++ request_fails r.request

abbrev pub thrown_calls : SendCommand → List NetEffect
thrown_calls r =
    full_call r.callback_noqueue ++ (request_fails r.request ++ failure_call true r.callback_nosend)

pub data SendReport (o : Outside) (r : SendCommand) (before : List NetEffect)
    (waiting : List (Bytes × (ℕ × ℕ))) (m : Net) : Type 0 where
  was_sent :
      (attempt : ℕ) (id : ℤ) (route : Bytes)
      → send_message_parts (o.zmq_send attempt id) (build_send_parts r.parts route) ≡ ok true
      → m.effects ≡ delivered id (build_send_parts r.parts route) ∷ before
      → m.pending_requests ≡ awaiting o.now r.request waiting
      → SendReport o r before waiting m
  was_dropped :
      m.effects ≡ dropped_calls r ++ before
      → m.pending_requests ≡ waiting
      → SendReport o r before waiting m
  has_thrown :
      (attempt : ℕ) (id : ℤ) (route : Bytes) (x : ZmqError)
      → send_message_parts (o.zmq_send attempt id) (build_send_parts r.parts route) ≡ err x
      → m.effects ≡ thrown_calls r ++ before
      → m.pending_requests ≡ waiting
      → SendReport o r before waiting m

abbrev Kept : Net → Net → Type 0
Kept n m = (m.effects ≡ n.effects) × (m.pending_requests ≡ n.pending_requests)

connect_sn-Kept :
    (lookup : Bytes → Bytes) (connects : Bytes → Bool) (remote hint : Bytes) (optional i b : Bool)
    (keep_alive now : ℕ) (n : Net)
    → Kept n (proxy_connect_sn lookup connects remote hint optional i b keep_alive now n).0
unfolding proxy_connect_sn open_sn
connect_sn-Kept lookup connects remote hint optional i b keep_alive now n = ground arith

sn_target-Kept :
    (c : ConnectionId) (n : Net) (x : Net × Option (ℤ × Bytes))
    → Kept n x.0
    → Kept n (sn_target c x).0
sn_target-Kept c n (m, none) k = k
sn_target-Kept c n (m, some (id, route)) k = k

choose_socket-Kept :
    (o : Outside) (r : SendCommand) (c : ConnectionId) (n : Net) → Kept n (choose_socket o r c n).0
unfolding choose_socket
choose_socket-Kept o r c n = elim (Bool-cases (is_sn c)) [
  | inl sn ↦ rw sn (
      sn_target-Kept c n _ (
        connect_sn-Kept o.lookup o.connects c.pk r.hint r.optional r.incoming r.outgoing
          r.keep_alive o.now n))
  | inr other ↦ rw other (ground arith)
]

-- The last step, for the three ways in which the loop ends.
module _ (o : Outside) (r : SendCommand) (n m : Net) (k : Kept n m) where
  conclude_sent :
      (attempt : ℕ) (id : ℤ) (route : Bytes)
      → send_message_parts (o.zmq_send attempt id) (build_send_parts r.parts route) ≡ ok true
      → SendReport o r n.effects n.pending_requests (
          conclude o r
            (record m { effects = delivered id (build_send_parts r.parts route) ∷ m.effects })
            true
            r.callback_nosend)
  unfolding conclude
  conclude_sent attempt id route e = was_sent attempt id route e (ground arith) (ground arith)

  conclude_dropped :
      SendReport o r n.effects n.pending_requests (conclude o r m false r.callback_nosend)
  unfolding conclude
  conclude_dropped = was_dropped (ground arith) (ground arith)

  conclude_thrown :
      (attempt : ℕ) (id : ℤ) (route : Bytes) (x : ZmqError)
      → send_message_parts (o.zmq_send attempt id) (build_send_parts r.parts route) ≡ err x
      → SendReport o r n.effects n.pending_requests
          (conclude o r (report_error r.callback_nosend m) false none)
  unfolding conclude
  conclude_thrown attempt id route x e =
      has_thrown attempt id route x e (ground arith) (ground arith)

-- What a round has done: it ends the loop with a report, or leaves effects and requests alone.
abbrev RoundReport : Outside → SendCommand → Net → Round → Type 0
RoundReport o r n (finished m sent f) =
    SendReport o r n.effects n.pending_requests (conclude o r m sent f)
RoundReport o r n (again m c) = Kept n m
RoundReport o r n endless = Unit

module _ (o : Outside) (r : SendCommand) (n : Net) where
  recover-RoundReport :
      (attempt : ℕ) (id : ℤ) (c : ConnectionId) (m : Net) (x : ZmqError)
      → Kept n m
      → send_message_parts (o.zmq_send attempt id) (build_send_parts r.parts c.route) ≡ err x
      → RoundReport o r n (recover r x c m)
  unfolding recover drop_peer
  recover-RoundReport attempt id c m x k e =
      elim (Bool-cases (is_unreachable x && not (is_empty c.route))) [
        | inr stop ↦ rw (stop, recover) (conclude_thrown o r n m k attempt id c.route x e)
        | inl go ↦ elim (Option-cases (find cid_eq c m.peers)) [
          | inl none' ↦ rw (go, none', recover) (conclude_thrown o r n m k attempt id c.route x e)
          | inr (peer, f) ↦
              rw (go, f, recover)
                (elim (Bool-cases (is_sn c)) [
                  | inr plain ↦
                      rw (plain, drop_peer)
                        (conclude_thrown o r n (record m { peers = erase_first c m.peers }) k
                          attempt id c.route x e)
                  | inl sn ↦ elim (Bool-cases (bytes_eq peer.route c.route)) [
                    | inl same ↦ rw (sn, same, drop_peer) k
                    | inr other ↦ rw (sn, other, drop_peer) tt
                  ]
                ])
        ]
      ]

  after_send-RoundReport :
      (attempt : ℕ) (id : ℤ) (c : ConnectionId) (m : Net) (x : Result ZmqError Bool)
      → Kept n m
      → send_message_parts (o.zmq_send attempt id) (build_send_parts r.parts c.route) ≡ x
      → RoundReport o r n (after_send r id c m x)
  unfolding after_send
  after_send-RoundReport attempt id c m (ok true) k e = conclude_sent o r n m k attempt id c.route e
  after_send-RoundReport attempt id c m (ok false) k e = conclude_dropped o r n m k
  after_send-RoundReport attempt id c m (err x) k e = recover-RoundReport attempt id c m x k e

  send_on-RoundReport :
      (attempt : ℕ) (t : Net × Target) → Kept n t.0 → RoundReport o r n (send_on o r attempt t)
  unfolding send_on
  send_on-RoundReport attempt (m, no_socket) k = conclude_dropped o r n m k
  send_on-RoundReport attempt (m, send_to id c) k = after_send-RoundReport attempt id c m _ k refl

pub returns_inj : {m k : Net} → returns m ≡ returns k → m ≡ k
returns_inj e = cc

Kept-report :
    (o : Outside) (r : SendCommand) (n k m : Net)
    → Kept n k
    → SendReport o r k.effects k.pending_requests m
    → SendReport o r n.effects n.pending_requests m
Kept-report o r n k m (e, p) s =
    subst (λ (w : List (Bytes × (ℕ × ℕ))). SendReport o r n.effects w m) p
      (subst (λ (l : List NetEffect). SendReport o r l k.pending_requests m) e s)

send_loop-SendReport :
    (o : Outside) (r : SendCommand) (fuel attempt : ℕ) (c : ConnectionId) (n m : Net)
    → send_loop o r fuel attempt c n ≡ returns m
    → SendReport o r n.effects n.pending_requests m
unfolding send_loop send_round
send_loop-SendReport o r zero attempt c n m h = absurd (cc)
send_loop-SendReport o r (suc fuel) attempt c n m h =
    let report =
      send_on-RoundReport o r n attempt (choose_socket o r c n) (choose_socket-Kept o r c n) in
    elim (Round-cases (send_on o r attempt (choose_socket o r c n))) [
      | inl (k, sent, f, x) ↦
          subst (SendReport o r n.effects n.pending_requests) (returns_inj (rw (x, send_loop) at h))
            (rw x at report)
      | inr (inr x) ↦ absurd (cc (rw (x, send_loop) at h))
      | inr (inl (k, c', x)) ↦
          Kept-report o r n k m (rw x at report)
            (send_loop-SendReport o r fuel (suc attempt) c' k m (rw (x, send_loop) at h))
    ]

-- When `proxy_send` returns, zmq has accepted the message, once, and its request waits for the reply;
-- or the message was dropped, or zmq refused it with an exception. Then its request fails, and of the
-- two failure callbacks the one for any failure is called if it is given, and otherwise the one for a
-- full queue; after an exception both are called.
pub send_out-SendReport :
    (o : Outside) (r : SendCommand) (n m : Net)
    → send_out o r n ≡ returns m
    → SendReport o r n.effects n.pending_requests m
unfolding send_out
send_out-SendReport o r n m h = send_loop-SendReport o r (suc (routed n.peers)) 0 r.conn_id n m h
