-- ===== src/Subscription.antt =====
-- oxenmq/pubsub.h, `class Subscription<UserData>`. The clock is an argument of each operation, a time
-- a number of its ticks, and `==` on the user data a parameter. `Subscription<void>` is the case of
-- a user data type with one value.
pub mod Publishing
use oxen_mq.Common.{
  ℕ, ◌+◌, Bool, true, false, not, Option, none, some, List, [], ◌∷◌, ◌++◌, if◌then◌else◌, ltb, find,
  erase, has_key, update, is_empty,
}
use oxen_mq.ConnectionId.{ConnectionId, cid_eq}

-- `SubData<UserData>`.
pub record SubData (D : Type 0) : Type 0 where
  pub expiry : ℕ
  pub user_data : D

pub record Subscription (D : Type 0) : Type 0 where
  pub subs : List (ConnectionId × SubData D)
  pub sub_duration : ℕ

module _ {D : Type 0} where
  abbrev pub lookup : ConnectionId → Subscription D → Option (SubData D)
  lookup conn s = find cid_eq conn s.subs

  abbrev pub is_expired : ℕ → SubData D → Bool
  is_expired now d = ltb d.expiry now

  -- A refresh moves the expiry; it replaces the user data, and reports so, only if that changed.
  unfoldable pub subscribe :
      (D → D → Bool) → ℕ → ConnectionId → D → Subscription D → Subscription D × Bool
  subscribe same now conn value s =
      let expiry = now + s.sub_duration in
      elim (lookup conn s) [
        | none ↦ (
          record s { subs = s.subs ++ (conn, record { expiry = expiry; user_data = value }) ∷ [] },
          true,
        )
        | some old ↦
            if same old.user_data value
            then (
              record s { subs = update cid_eq conn (λ d. record d { expiry = expiry }) s.subs },
              false,
            )
            else (
              record s {
                subs =
                    update cid_eq conn (λ _. record { expiry = expiry; user_data = value }) s.subs;
              },
              true,
            )
      ]

  unfoldable pub unsubscribe : ConnectionId → Subscription D → Subscription D × Option D
  unsubscribe conn s = (
    record s { subs = erase cid_eq conn s.subs },
    elim (lookup conn s) [ none ↦ none | some d ↦ some d.user_data ],
  )

  abbrev pub unexpired : ℕ → List (ConnectionId × SubData D) → List (ConnectionId × SubData D)
  unexpired now [] = []
  unexpired now (e ∷ es) = elim (is_expired now e.1) [
    | true ↦ unexpired now es
    | false ↦ e ∷ unexpired now es
  ]

  unfoldable pub remove_expired : ℕ → Subscription D → Subscription D
  remove_expired now s = record s { subs = unexpired now s.subs }

  -- The calls of `func` and the connections to remove, under the shared lock.
  abbrev pub visit :
      ℕ → List (ConnectionId × SubData D) → List (ConnectionId × D) × List ConnectionId
  visit now [] = ([], [])
  visit now (e ∷ es) =
      let (calls, to_remove) = visit now es in
      elim (is_expired now e.1) [
        | true ↦ (calls, e.0 ∷ to_remove)
        | false ↦ ((e.0, e.1.user_data) ∷ calls, to_remove)
      ]

  -- The second half of `publish`, under the unique lock: each is looked up again.
  abbrev pub remove_if_expired :
      ℕ → List ConnectionId → List (ConnectionId × SubData D) → List (ConnectionId × SubData D)
  remove_if_expired now [] subs = subs
  remove_if_expired now (c ∷ cs) subs = elim (find cid_eq c subs) [
    | none ↦ remove_if_expired now cs subs
    | some d ↦ elim (is_expired now d) [
      | true ↦ remove_if_expired now cs (erase cid_eq c subs)
      | false ↦ remove_if_expired now cs subs
    ]
  ]

  -- `now` and `later` are the clock under the first and the second lock; `between` is what other
  -- threads did to the subscriptions between the two locks.
  unfoldable pub publish :
      ℕ
      → ℕ
      → (List (ConnectionId × SubData D) → List (ConnectionId × SubData D))
      → Subscription D
      → Subscription D × List (ConnectionId × D)
  publish now later between s =
      if is_empty s.subs
      then (record s { subs = between s.subs }, [])
      else let (calls, to_remove) = visit now s.subs in
        (
          record s {
            subs =
                if is_empty to_remove
                then between s.subs
                else remove_if_expired later to_remove (between s.subs);
          },
          calls,
        )
