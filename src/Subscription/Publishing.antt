-- ===== src/Subscription/Publishing.antt =====
-- oxenmq/pubsub.h: who is told what by `publish`, and who stays subscribed.
use oxen_mq.Common.{
  ℕ, ◌+◌, ◌≤◌, ◌≡◌, refl, ◌⊎◌, inl, inr, Bool, true, false, Option, none, some, List, [], ◌∷◌, ◌++◌,
  Bool-cases, find, erase, update, arith, map, any,
}
use oxen_mq.ConnectionId.{ConnectionId, cid_eq}
use oxen_mq.ConnectionId.Equality.{cid_eq_refl, cid_eq-congr, cid_eq-sym}
use oxen_mq.Subscription.{
  SubData, Subscription, lookup, is_expired, subscribe, unexpired, visit, remove_if_expired,
  publish,
}

module _ {V : Type 0} where
  -- Equal keys find the same entry.
  find-cid_eq :
      (a b : ConnectionId) (es : List (ConnectionId × V))
      → cid_eq a b ≡ true
      → find cid_eq a es ≡ find cid_eq b es
  find-cid_eq a b [] h = refl
  find-cid_eq a b (e ∷ es) h = ground (arith, find-cid_eq a b es h, cid_eq-congr a b e.0 h)

  find-erase_self :
      (a : ConnectionId) (es : List (ConnectionId × V)) → find cid_eq a (erase cid_eq a es) ≡ none
  find-erase_self a [] = refl
  find-erase_self a (e ∷ es) = ground (arith, find-erase_self a es)

  -- Erasing another key leaves a lookup as it was.
  find-erase_ne :
      (a b : ConnectionId) (es : List (ConnectionId × V))
      → cid_eq a b ≡ false
      → find cid_eq b (erase cid_eq a es) ≡ find cid_eq b es
  find-erase_ne a b [] h = refl
  find-erase_ne a b (e ∷ es) h =
      ground (arith, find-erase_ne a b es h, cid_eq-congr e.0 b a, cid_eq-sym e.0 a)

  find-append_new :
      (a : ConnectionId) (v : V) (es : List (ConnectionId × V))
      → find cid_eq a es ≡ none
      → find cid_eq a (es ++ (a, v) ∷ []) ≡ some v
  find-append_new a v [] h = ground (arith, cid_eq_refl a)
  find-append_new a v (e ∷ es) h = ground (arith, find-append_new a v es)

  find-update :
      (a : ConnectionId) (f : V → V) (es : List (ConnectionId × V)) (v : V)
      → find cid_eq a es ≡ some v
      → find cid_eq a (update cid_eq a f es) ≡ some (f v)
  find-update a f [] v h = absurd (cc)
  find-update a f (e ∷ es) v h = ground (arith, find-update a f es v)

module _ {D : Type 0} where
  -- How `subscribe` reports what it did: a new entry or changed data, or only a refresh.
  abbrev pub Subscribed : (D → D → Bool) → D → Option (SubData D) → D → Bool → Type 0
  Subscribed same value none stored added = (stored ≡ value) × (added ≡ true)
  Subscribed same value (some old) stored added =
      ((same old.user_data value ≡ false) × (stored ≡ value) × (added ≡ true))
      ⊎ ((same old.user_data value ≡ true) × (stored ≡ old.user_data) × (added ≡ false))

  subscribe_at :
      (same : D → D → Bool) (now : ℕ) (conn : ConnectionId) (value : D) (s : Subscription D)
      (o : Option (SubData D))
      → lookup conn s ≡ o
      → (d : SubData D) × (lookup conn (subscribe same now conn value s).0 ≡ some d)
        × (d.expiry ≡ now + s.sub_duration)
        × Subscribed same value o d.user_data (subscribe same now conn value s).1
  unfolding subscribe
  subscribe_at same now conn value s none e =
      rw (e, subscribe)
        (
          record { expiry = now + s.sub_duration; user_data = value },
          find-append_new conn _ s.subs e,
          refl,
          (refl, refl),
        )
  subscribe_at same now conn value s (some old) e = elim (Bool-cases (same old.user_data value)) [
    | inl h ↦
        rw (e, h, subscribe)
          (
            record old { expiry = now + s.sub_duration },
            find-update conn _ s.subs old e,
            refl,
            inr (refl, refl, refl),
          )
    | inr h ↦
        rw (e, h, subscribe)
          (
            record { expiry = now + s.sub_duration; user_data = value },
            find-update conn _ s.subs old e,
            refl,
            inl (refl, refl, refl),
          )
  ]

  -- After `subscribe` the connection is subscribed until `sub_duration` from now; the result is true,
  -- and the data stored the given one, unless there was an entry whose data is `==` to it.
  pub subscribe-Subscribed :
      (same : D → D → Bool) (now : ℕ) (conn : ConnectionId) (value : D) (s : Subscription D)
      → (d : SubData D) × (lookup conn (subscribe same now conn value s).0 ≡ some d)
        × (d.expiry ≡ now + s.sub_duration)
        × Subscribed same value (lookup conn s) d.user_data (subscribe same now conn value s).1
  subscribe-Subscribed same now conn value s =
      subscribe_at same now conn value s (lookup conn s) refl

  visit-unexpired :
      (now : ℕ) (es : List (ConnectionId × SubData D))
      → (visit now es).0 ≡ map (λ e. (e.0, e.1.user_data)) (unexpired now es)
  visit-unexpired now [] = refl
  visit-unexpired now (e ∷ es) = ground (arith, visit-unexpired now es)

  -- An entry that is not expired when the second lock is taken stays, whatever is to be removed.
  remove_if_expired-keeps :
      (later : ℕ) (cs : List ConnectionId) (es : List (ConnectionId × SubData D)) (c : ConnectionId)
      (d : SubData D)
      → find cid_eq c es ≡ some d
      → is_expired later d ≡ false
      → find cid_eq c (remove_if_expired later cs es) ≡ some d
  remove_if_expired-keeps later [] es c d h k = h
  remove_if_expired-keeps later (x ∷ cs) es c d h k = ground (
    arith,
    remove_if_expired-keeps later cs es c d,
    remove_if_expired-keeps later cs (erase cid_eq x es) c d,
    find-erase_ne x c es,
    find-cid_eq x c es,
  )

  remove_if_expired-none :
      (later : ℕ) (cs : List ConnectionId) (es : List (ConnectionId × SubData D)) (c : ConnectionId)
      → find cid_eq c es ≡ none
      → find cid_eq c (remove_if_expired later cs es) ≡ none
  remove_if_expired-none later [] es c h = h
  remove_if_expired-none later (x ∷ cs) es c h = ground (
    arith,
    remove_if_expired-none later cs es c,
    remove_if_expired-none later cs (erase cid_eq x es) c,
    find-erase_ne x c es,
    find-cid_eq x c es,
  )

  remove_if_expired-removes :
      (later : ℕ) (cs : List ConnectionId) (es : List (ConnectionId × SubData D)) (c : ConnectionId)
      (d : SubData D)
      → find cid_eq c es ≡ some d
      → is_expired later d ≡ true
      → any (λ x. cid_eq x c) cs ≡ true
      → find cid_eq c (remove_if_expired later cs es) ≡ none
  remove_if_expired-removes later [] es c d h k m = absurd (cc)
  remove_if_expired-removes later (x ∷ cs) es c d h k m = ground (
    arith,
    remove_if_expired-removes later cs es c d,
    remove_if_expired-removes later cs (erase cid_eq x es) c d,
    remove_if_expired-none later cs (erase cid_eq x es) c,
    find-erase_ne x c es,
    find-cid_eq x c es,
    find-cid_eq x c (erase cid_eq x es),
    find-erase_self x es,
  )

  -- A connection whose entry is expired is on the list of those to remove.
  visit-any :
      (now : ℕ) (es : List (ConnectionId × SubData D)) (c : ConnectionId) (d : SubData D)
      → find cid_eq c es ≡ some d
      → is_expired now d ≡ true
      → any (λ x. cid_eq x c) (visit now es).1 ≡ true
  visit-any now [] c d h k = absurd (cc)
  visit-any now (e ∷ es) c d h k = ground (arith, visit-any now es c d)

  -- `publish` calls `func` once for each subscription that is not expired, with its data, in the
  -- order of the map, whatever other threads do after the shared lock is released.
  pub publish-calls :
      (now later : ℕ) (between : List (ConnectionId × SubData D) → List (ConnectionId × SubData D))
      (s : Subscription D)
      → (publish now later between s).1 ≡ map (λ e. (e.0, e.1.user_data)) (unexpired now s.subs)
  unfolding publish
  publish-calls now later between s = ground (arith, visit-unexpired now s.subs)

  -- A connection that is subscribed, and not expired, when `publish` takes the unique lock, stays
  -- subscribed with its data, also if it was expired under the shared lock and subscribed again.
  pub publish-keeps :
      (now later : ℕ) (between : List (ConnectionId × SubData D) → List (ConnectionId × SubData D))
      (s : Subscription D) (c : ConnectionId) (d : SubData D)
      → find cid_eq c (between s.subs) ≡ some d
      → is_expired later d ≡ false
      → lookup c (publish now later between s).0 ≡ some d
  unfolding publish
  publish-keeps now later between s c d h k =
      ground (arith, remove_if_expired-keeps later (visit now s.subs).1 (between s.subs) c d h k)

  -- If no other thread changes the subscriptions meanwhile, a connection whose subscription was
  -- expired is not subscribed any more after `publish`.
  pub publish-removes :
      (now later : ℕ) (s : Subscription D) (c : ConnectionId) (d : SubData D)
      → lookup c s ≡ some d
      → is_expired now d ≡ true
      → now ≤ later
      → lookup c (publish now later (λ es. es) s).0 ≡ none
  unfolding publish
  publish-removes now later s c d h k m = ground (
    arith,
    visit-any now s.subs c d h k,
    remove_if_expired-removes later (visit now s.subs).1 s.subs c d h,
  )
