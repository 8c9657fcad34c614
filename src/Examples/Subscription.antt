-- ===== src/Examples/Subscription.antt =====
-- Two subscribers, one of them expired.
use oxen_mq.Common.{ℕ, ◌+◌, ◌≡◌, refl, some, List, [], ◌∷◌, bytes, pos, ◌==◌, map}
use oxen_mq.ConnectionId.{ConnectionId, cid_eq}
use oxen_mq.Subscription.{SubData, Subscription, lookup, subscribe, publish, unexpired}
use oxen_mq.Subscription.Publishing.{Subscribed, subscribe-Subscribed, publish-calls, publish-keeps}

abbrev alice : ConnectionId
alice = record { id = pos 1; pk = []; route = bytes "a" }

abbrev bob : ConnectionId
bob = record { id = pos 1; pk = []; route = bytes "b" }

abbrev two : Subscription ℕ
two = record {
  subs =
      (alice, record { expiry = 5; user_data = 1 })
      ∷ (bob, record { expiry = 9; user_data = 2 })
      ∷ [];
  sub_duration = 10;
}

-- Between the two locks of `publish`, bob's client subscribes until 20.
abbrev renew : List (ConnectionId × SubData ℕ) → List (ConnectionId × SubData ℕ)
renew es = (bob, record { expiry = 20; user_data = 3 }) ∷ es

alice_subscribed : lookup alice two ≡ some (record { expiry = 5; user_data = 1 })
unfolding cid_eq
alice_subscribed = refl

subscribe-Subscribed_example :
    (d : SubData ℕ) × (lookup alice (subscribe ◌==◌ 7 alice 4 two).0 ≡ some d)
    × (d.expiry ≡ 7 + two.sub_duration)
    × Subscribed ◌==◌ 4 (lookup alice two) d.user_data (subscribe ◌==◌ 7 alice 4 two).1
subscribe-Subscribed_example = subscribe-Subscribed ◌==◌ 7 alice 4 two

publish-calls_example :
    (publish 7 12 renew two).1 ≡ map (λ e. (e.0, e.1.user_data)) (unexpired 7 two.subs)
publish-calls_example = publish-calls 7 12 renew two

publish-keeps_example :
    lookup bob (publish 7 12 renew two).0 ≡ some (record { expiry = 20; user_data = 3 })
unfolding cid_eq
publish-keeps_example =
    publish-keeps 7 12 renew two bob (record { expiry = 20; user_data = 3 }) refl refl
