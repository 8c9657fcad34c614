-- ===== src/Polling.antt =====
-- oxenmq/proxy.cpp, `proxy_loop`: the loop that takes messages from the connections, one from each in
-- turn, by a circular buffer. What zmq receives and what the handlers do are arguments.
pub mod Turns
use oxen_mq.Common.{
  ℕ, zero, suc, ◌+◌, ◌-◌, ◌%◌, Bool, true, false, Option, none, some, List, [], ◌∷◌, ◌++◌, map,
  Bytes, ℤ, length, get_elem?, modify, is_empty, ◌==◌, if◌then◌else◌,
}

-- The proxy: receiving gives the parts of one message, if there is one; a message is handled by
-- `proxy_handle_builtin` or `proxy_to_worker`.
pub record Proxy (S : Type 0) : Type 0 where
  pub receive : ℤ → S → Option (List Bytes × S)
  pub handle : ℤ → List Bytes → S → S
  pub connections_updated : S → Bool

-- How the loop ends, or that it goes wrong by a null pointer.
pub data Turn (S : Type 0) : Type 0 where
  stopped : S → Turn S
  null_pointer : Turn S
  out_of_fuel : Turn S

-- `queue.clear(); for (…) queue.push_back(&id_sock); queue.push_back(nullptr);`
abbrev pub fill_queue : List ℤ → List (Option ℤ)
fill_queue ids = map some ids ++ none ∷ []

module _ {S : Type 0} (p : Proxy S) where
  open p use {receive, handle, connections_updated}

  -- `for (size_t pos = 0; pos != end; ++pos %= queue.size())`.
  unfoldable pub poll_loop : ℕ → List (Option ℤ) → ℕ → ℕ → S → Turn S
  poll_loop zero queue pos end s = out_of_fuel
  poll_loop (suc fuel) queue pos end s =
      let next = (pos + 1) % length queue in
      elim (pos == end) [
        | true ↦ stopped s
        | false ↦ elim (get_elem? queue pos) [
          | none ↦ null_pointer
          | some slot ↦ elim slot [
            | none ↦ null_pointer
            | some id ↦ elim (receive id s) [
              | none ↦ poll_loop fuel queue next end s
              | some message ↦
                  let queue' = modify queue end (λ old. some id) in
                  let end' = (end + 1) % length queue in
                  let s' = handle id message.0 message.1 in
                  elim (is_empty message.0) [
                    | true ↦ poll_loop fuel queue' next end' message.1
                    | false ↦ elim (connections_updated s') [
                      | true ↦ stopped s'
                      | false ↦ poll_loop fuel queue' next end' s'
                    ]
                  ]
            ]
          ]
        ]
      ]

  -- From the start of a pass over the connections with pending messages.
  unfoldable pub poll_messages : ℕ → List ℤ → S → Turn S
  unfolding poll_loop
  poll_messages fuel ids s = poll_loop fuel (fill_queue ids) 0 (length (fill_queue ids) - 1) s

  -- The same by a plain queue: a connection that had a message goes to its end, one that had none
  -- leaves it.
  unfoldable pub take_turns : ℕ → List ℤ → S → Turn S
  take_turns zero ids s = out_of_fuel
  take_turns (suc fuel) [] s = stopped s
  take_turns (suc fuel) (id ∷ ids) s = elim (receive id s) [
    | none ↦ take_turns fuel ids s
    | some message ↦
        let s' = handle id message.0 message.1 in
        elim (is_empty message.0) [
          | true ↦ take_turns fuel (ids ++ id ∷ []) message.1
          | false ↦ elim (connections_updated s') [
            | true ↦ stopped s'
            | false ↦ take_turns fuel (ids ++ id ∷ []) s'
          ]
        ]
  ]
