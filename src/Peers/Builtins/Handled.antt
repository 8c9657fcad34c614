-- ===== src/Peers/Builtins/Handled.antt =====
-- The commands of peers (oxenmq/proxy.cpp), BYE among them, and the invariant of the connections.
use oxen_mq.Common.{
  refl, inl, inr, Bool, true, false, List, [], ◌∷◌, Bytes, bytes, bytes_eq, ℤ, pos, find,
  if◌then◌else◌, arith, Bool-cases, Option-cases,
}
use oxen_mq.Peers.{Net, proxy_close_connection}
use oxen_mq.Peers.Connecting.{plain_id, handle_bye}
use oxen_mq.Peers.Builtins.{
  answer, handle_hello, handle_reply, handle_error, handle_command, proxy_handle_builtin,
  find_connect, find_peer_key, is_error_response,
}
use oxen_mq.Peers.Soundness.{IsSound, IsSound-transfer, close-Less}

-- BYE and the other commands of peers.
pub close-IsSound : (k : ℤ) (n : Net) → IsSound n → IsSound (proxy_close_connection k n)
close-IsSound k n s = record {
  distinct = λ id. let (_, _, _, u) = close-Less k id n in omega (arith, u, s.distinct id);
  below = λ j h. let (x, c, _, _) = close-Less k (pos j) n in ground (arith, x, c, s.below j);
  unused = λ j h. let (x, _, u, _) = close-Less k (pos j) n in ground (arith, x, u, s.unused j);
}

answer-IsSound :
    (tag : Bytes) (success : Bool) (parts : List Bytes) (n : Net)
    → IsSound n
    → IsSound (answer tag success parts n)
unfolding answer
answer-IsSound tag success parts n s = elim (Option-cases (find bytes_eq tag n.pending_requests)) [
  | inl e ↦ rw (e, answer) s
  | inr (r, e) ↦ rw (e, answer) (IsSound-transfer n _ refl refl refl s)
]

hello-IsSound : (i : Bool) (k : ℤ) (n : Net) → IsSound n → IsSound (handle_hello i k n)
unfolding handle_hello
hello-IsSound true k n s = s
hello-IsSound false k n s = elim (Option-cases (find_connect k n.pending_connects)) [
  | inl e ↦ rw (e, handle_hello) s
  | inr (pc, e) ↦ elim (Option-cases (find_peer_key (plain_id k) n.peers)) [
    | inl f ↦ rw (e, f, handle_hello) s
    | inr (key, f) ↦ rw (e, f, handle_hello) (IsSound-transfer n _ refl refl refl s)
  ]
]

reply-IsSound : (parts : List Bytes) (n : Net) → IsSound n → IsSound (handle_reply parts n)
unfolding handle_reply
reply-IsSound [] n s = s
reply-IsSound (tag ∷ parts) n s = answer-IsSound tag true parts n s

error-IsSound :
    (cmd : Bytes) (rest : List Bytes) (n : Net) → IsSound n → IsSound (handle_error cmd rest n)
unfolding handle_error
error-IsSound cmd [] n s = s
error-IsSound cmd (a ∷ []) n s = s
error-IsSound cmd (reply ∷ tag ∷ []) n s = elim (Bool-cases (bytes_eq reply (bytes "REPLY"))) [
  | inl e ↦ rw e (answer-IsSound tag false (cmd ∷ []) n s)
  | inr e ↦ rw e s
]
error-IsSound cmd (a ∷ b ∷ c ∷ d) n s = s

if-IsSound :
    (b : Bool) (x y : Net × Bool) → IsSound x.0 → IsSound y.0 → IsSound (if b then x else y).0
if-IsSound true x y a b = a
if-IsSound false x y a b = b

command-IsSound :
    (i : Bool) (k : ℤ) (route cmd : Bytes) (rest : List Bytes) (n : Net)
    → IsSound n
    → IsSound (handle_command i k route cmd rest n).0
unfolding handle_command handle_bye
command-IsSound i k route cmd rest n s =
    if-IsSound (bytes_eq cmd (bytes "REPLY")) _ _ (reply-IsSound rest n s) (
      if-IsSound (bytes_eq cmd (bytes "HI")) _ _
        (elim (Bool-cases i) [
          | inl e ↦ rw e (IsSound-transfer n _ refl refl refl s)
          | inr e ↦ rw e s
        ])
        (if-IsSound (bytes_eq cmd (bytes "HELLO")) _ _ (hello-IsSound i k n s) (
          if-IsSound (bytes_eq cmd (bytes "BYE")) _ _
            (elim (Bool-cases i) [ inl e ↦ rw e s | inr e ↦ rw e (close-IsSound k n s) ])
            (if-IsSound (is_error_response cmd) _ _ (error-IsSound cmd rest n s) s))))

pub builtin-IsSound :
    (i : Bool) (k : ℤ) (parts : List Bytes) (n : Net)
    → IsSound n
    → IsSound (proxy_handle_builtin i k parts n).0
unfolding proxy_handle_builtin
builtin-IsSound true k (route ∷ cmd ∷ rest) n s = command-IsSound true k route cmd rest n s
builtin-IsSound true k (route ∷ []) n s = s
builtin-IsSound true k [] n s = s
builtin-IsSound false k (cmd ∷ rest) n s = command-IsSound false k [] cmd rest n s
builtin-IsSound false k [] n s = s
