-- ===== src/Examples/Polling.antt =====
-- Two connections with pending messages.
use oxen_mq.Common.{
  suc, ◌+◌, ap, if◌then◌else◌, ◌<◌, ◌≡◌, refl, false, some, none, List, [], ◌∷◌, Bytes, bytes, ℤ,
  pos, length, arith, Option,
}
use oxen_mq.ConnectionId.{int_eq}
use oxen_mq.Polling.{Proxy, stopped, poll_messages, take_turns}
use oxen_mq.Polling.Turns.{poll_messages-take_turns, poll_messages-stops}

-- Where the messages come from, in their order, and from where some were handled, latest first.
record Inbox : Type 0 where
  arriving : List ℤ
  handled : List ℤ

abbrev take_one : List ℤ → ℤ → Inbox → Option (List Bytes × Inbox)
take_one [] id s = none
take_one (x ∷ xs) id s =
    if int_eq x id then some (bytes "m" ∷ [], record s { arriving = xs }) else none

abbrev proxy : Proxy Inbox
proxy = record {
  receive = λ id s. take_one s.arriving id s;
  handle = λ id parts s. record s { handled = id ∷ s.handled };
  connections_updated = λ s. false;
}

abbrev inbox : Inbox
inbox = record { arriving = pos 1 ∷ pos 2 ∷ pos 1 ∷ []; handled = [] }

taken_less :
    (xs : List ℤ) (id : ℤ) (s : Inbox) (message : List Bytes × Inbox)
    → xs ≡ s.arriving
    → take_one xs id s ≡ some message
    → length message.1.arriving < length s.arriving
taken_less [] id s message e h = absurd (cc)
taken_less (x ∷ xs) id s message e h = ground (arith, ap length e)

poll_messages-take_turns_example :
    poll_messages proxy 9 (pos 1 ∷ pos 2 ∷ []) inbox ≡ take_turns proxy 9 (pos 1 ∷ pos 2 ∷ []) inbox
poll_messages-take_turns_example = poll_messages-take_turns proxy 9 (pos 1 ∷ pos 2 ∷ []) inbox

in_turn :
    poll_messages proxy 9 (pos 1 ∷ pos 2 ∷ []) inbox
    ≡ stopped (record { arriving = []; handled = pos 1 ∷ pos 2 ∷ pos 1 ∷ [] })
unfolding poll_messages
in_turn = refl

poll_messages-stops_example :
    (t : Inbox) × (poll_messages proxy (suc (2 + 3)) (pos 1 ∷ pos 2 ∷ []) inbox ≡ stopped t)
poll_messages-stops_example =
    poll_messages-stops proxy (λ s. length s.arriving) (pos 1 ∷ pos 2 ∷ []) inbox
      (λ id t message e. taken_less t.arriving id t message refl e) (λ id parts t. omega arith)
