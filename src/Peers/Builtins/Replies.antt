-- ===== src/Peers/Builtins/Replies.antt =====
-- oxenmq/proxy.cpp: each pending request is answered once.
use oxen_mq.Common.{
  ℕ, ◌≡◌, refl, ap, inl, inr, Bool, true, false, none, some, List, [], ◌∷◌, ◌++◌, Bytes, bytes,
  bytes_eq, eq_of_bytes_eq, ℤ, find, erase, if◌then◌else◌, arith, Bool-cases,
}
use oxen_mq.Peers.{Net, request_answered}
use oxen_mq.Peers.Builtins.{answer, handle_reply, handle_command, proxy_handle_builtin}

module _ {V : Type 0} where
  find-erase_self :
      (a : Bytes) (es : List (Bytes × V)) → find bytes_eq a (erase bytes_eq a es) ≡ none
  find-erase_self a [] = refl
  find-erase_self a (e ∷ es) = ground (arith, find-erase_self a es)

  find-erase_ne :
      (a b : Bytes) (es : List (Bytes × V))
      → bytes_eq a b ≡ false
      → find bytes_eq b (erase bytes_eq a es) ≡ find bytes_eq b es
  find-erase_ne a b [] h = refl
  find-erase_ne a b (e ∷ es) h = elim (Bool-cases (bytes_eq e.0 a)) [
    | inl k ↦
        let same : bytes_eq e.0 b ≡ bytes_eq a b =
          ap (λ x. bytes_eq x b) (eq_of_bytes_eq e.0 a k) in
        ground (arith, find-erase_ne a b es h)
    | inr k ↦ ground (arith, find-erase_ne a b es h)
  ]

answer_unknown :
    (tag : Bytes) (success : Bool) (parts : List Bytes) (n : Net)
    → find bytes_eq tag n.pending_requests ≡ none
    → answer tag success parts n ≡ n
unfolding answer
answer_unknown tag success parts n h = rw (h, answer) refl

-- What one answer leaves: its callback queued once, its tag unknown, other tags as they were.
abbrev pub Answered : Bytes → ℕ → Bool → List Bytes → Net → Net → Type 0
Answered tag callback success parts n m =
    (m.effects ≡ request_answered callback success parts ∷ n.effects)
    × ((again : Bool) (more : List Bytes) → answer tag again more m ≡ m)
    × ((other : Bytes)
        → bytes_eq tag other ≡ false
        → find bytes_eq other m.pending_requests ≡ find bytes_eq other n.pending_requests)

answer_known :
    (tag : Bytes) (success : Bool) (parts : List Bytes) (n : Net) (r : ℕ × ℕ)
    → find bytes_eq tag n.pending_requests ≡ some r
    → answer tag success parts n ≡ record n {
      pending_requests = erase bytes_eq tag n.pending_requests;
      effects = request_answered r.1 success parts ∷ n.effects;
    }
unfolding answer
answer_known tag success parts n r h = rw (h, answer) refl

answer-Answered :
    (tag : Bytes) (success : Bool) (parts : List Bytes) (n : Net) (r : ℕ × ℕ)
    → find bytes_eq tag n.pending_requests ≡ some r
    → Answered tag r.1 success parts n (answer tag success parts n)
answer-Answered tag success parts n r h = rw (answer_known tag success parts n r h) (
  refl,
  (λ again more. answer_unknown tag again more _ (find-erase_self tag n.pending_requests)),
  (λ other d. find-erase_ne tag other n.pending_requests d),
)

-- A REPLY with the tag of a pending request, on a connection of either kind, queues the request's
-- callback with the parts after the tag; a further answer to that tag, a success or a failure,
-- changes nothing, and the other pending requests are not touched.
pub proxy_handle_builtin-Answered :
    (incoming : Bool) (conn_id : ℤ) (route tag : Bytes) (parts : List Bytes) (n : Net) (r : ℕ × ℕ)
    → find bytes_eq tag n.pending_requests ≡ some r
    → Answered tag r.1 true parts n
        (proxy_handle_builtin incoming conn_id
          ((if incoming then route ∷ [] else []) ++ bytes "REPLY" ∷ tag ∷ parts)
          n).0
unfolding proxy_handle_builtin handle_command handle_reply
proxy_handle_builtin-Answered true conn_id route tag parts n r h =
    answer-Answered tag true parts n r h
proxy_handle_builtin-Answered false conn_id route tag parts n r h =
    answer-Answered tag true parts n r h
