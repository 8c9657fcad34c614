-- ===== src/Control/Answered.antt =====
-- `proxy_reply` (oxenmq/proxy.cpp) and the invariant of the connections.
use oxen_mq.Common.{
  ℕ, suc, ◌≡◌, refl, inl, inr, Bool, true, false, List, [], ◌∷◌, Bytes, ℤ, ok, ok_inj, >>=-ok,
  subst, if◌then◌else◌, arith, Bool-cases, Result-cases,
}
use oxen_mq.ConnectionId.{ConnectionId, cid_eq}
use oxen_mq.Peers.{Net, PeerInfo, outgoing, proxy_close_connection}
use oxen_mq.Peers.Connecting.{index_connection}
use oxen_mq.Peers.Soundness.{IsSound, Less, close-Less, Less-IsSound}
use oxen_mq.Control.{Dict}
use oxen_mq.Control.Parsing.{parse_reply}
use oxen_mq.Control.Sending.{Outside, is_unreachable, send_message_parts, build_send_parts}
use oxen_mq.Control.Replying.{
  ReplyOutcome, replied, past_the_end, put_back, stop_reply, reply_loop, proxy_reply,
}

abbrev ReplyLess : ℤ → List (ConnectionId × PeerInfo) → Net → ReplyOutcome → Type 0
ReplyLess id es n (replied m) = Less id es n m
ReplyLess id es n past_the_end = Unit {0}

put_back-Less :
    (id : ℤ) (e : ConnectionId × PeerInfo) (es : List (ConnectionId × PeerInfo)) (n : Net)
    (x : ReplyOutcome)
    → ReplyLess id es n x
    → ReplyLess id (e ∷ es) n (put_back e x)
put_back-Less id e es n (replied m) (a, b, c, d) =
    (a, ground (arith, b), ground (arith, c), ground (arith, d))
put_back-Less id e es n past_the_end h = tt

put_back-index :
    (id : ℤ) (e : ConnectionId × PeerInfo) (es : List (ConnectionId × PeerInfo)) (n : Net)
    (x : ReplyOutcome)
    → ReplyLess id es (index_connection e.1.conn_id n) x
    → ReplyLess id (e ∷ es) n (put_back e x)
put_back-index id e es n (replied m) (a, b, c, d) =
    (ground (arith, a), ground (arith, b), ground (arith, c), ground (arith, d))
put_back-index id e es n past_the_end h = tt

index-Less :
    (id : ℤ) (e : ConnectionId × PeerInfo) (es : List (ConnectionId × PeerInfo)) (n : Net)
    (x : ReplyOutcome)
    → ReplyLess id es (index_connection e.1.conn_id n) x
    → ReplyLess id (e ∷ es) n x
index-Less id e es n (replied m) (a, b, c, d) =
    (ground (arith, a), ground (arith, b), ground (arith, c), ground (arith, d))
index-Less id e es n past_the_end h = tt

stop-Less :
    (id : ℤ) (o : Outside) (attempt : ℕ) (parts : List Bytes) (e : ConnectionId × PeerInfo)
    (es : List (ConnectionId × PeerInfo)) (b : Bool) (n : Net)
    → Less id (e ∷ es) n (stop_reply o attempt parts e es b (index_connection e.1.conn_id n))
stop-Less id o attempt parts e es true n = (ground arith, ground arith, ground arith, ground arith)
stop-Less id o attempt parts e es false n = (ground arith, ground arith, ground arith, ground arith)

closed-Less :
    (id k : ℤ) (es : List (ConnectionId × PeerInfo)) (b : Bool) (n : Net) (x : ReplyOutcome)
    → ReplyLess id es (if b then proxy_close_connection k n else n) x
    → ReplyLess id es n x
closed-Less id k es false n x h = h
closed-Less id k es true n past_the_end h = tt
closed-Less id k es true n (replied m) (a, b, c, d) =
    let (p, q, r, t) = close-Less k id n in
    (ground (arith, a, p), ground (arith, b, q), ground (arith, c, r), ground (arith, d, t))

reply_loop-Less :
    (id : ℤ) (o : Outside) (c : ConnectionId) (parts : List Bytes) (skip : Bool) (attempt : ℕ)
    (es : List (ConnectionId × PeerInfo)) (n : Net)
    → ReplyLess id es n (reply_loop o c parts skip attempt es n)
unfolding reply_loop
reply_loop-Less id o c parts true attempt [] n = tt
reply_loop-Less id o c parts false attempt [] n = (refl, ground arith, omega arith, omega arith)
reply_loop-Less id o c parts skip attempt (e ∷ es) n = elim (Bool-cases (cid_eq e.0 c)) [
  | inr x ↦
      rw (x, reply_loop)
        (put_back-Less id e es n _ (reply_loop-Less id o c parts skip attempt es n))
  | inl x ↦ elim (Bool-cases skip) [
    | inl y ↦
        rw (x, y, reply_loop)
          (put_back-Less id e es n _ (reply_loop-Less id o c parts false attempt es n))
    | inr y ↦
        let m = index_connection e.1.conn_id n in
        elim (Result-cases (
          send_message_parts (o.zmq_send attempt e.1.conn_id) (build_send_parts parts e.1.route))) [
            | inl (b, z) ↦ rw (x, y, z, reply_loop) (stop-Less id o attempt parts e es b n)
            | inr (f, z) ↦ elim (Bool-cases (is_unreachable f)) [
              | inr w ↦
                  rw (x, y, z, w, reply_loop)
                    (put_back-index id e es n _
                      (reply_loop-Less id o c parts false (suc attempt) es m))
              | inl w ↦
                  rw (x, y, z, w, reply_loop)
                    (index-Less id e es n _ (
                      closed-Less id e.1.conn_id es (outgoing e.1) m _
                        (reply_loop-Less id o c parts (outgoing e.1) (suc attempt) es _)))
            ]
          ]
  ]
]

pub proxy_reply-IsSound :
    (o : Outside) (d : Dict) (n m : Net)
    → proxy_reply o d n ≡ ok (replied m)
    → IsSound n
    → IsSound m
unfolding proxy_reply
proxy_reply-IsSound o d n m h s =
    let ((c, parts), _, e) = >>=-ok (parse_reply d) _ h in
    let done : reply_loop o c parts false 0 n.peers (record n { peers = [] }) ≡ replied m =
      ok_inj e in
    Less-IsSound n m
      (λ id.
        subst (ReplyLess id n.peers (record n { peers = [] })) done
          (reply_loop-Less id o c parts false 0 n.peers (record n { peers = [] })))
      s
