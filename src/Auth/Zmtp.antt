-- ===== src/Auth/Zmtp.antt =====
-- The metadata of a ZAP reply (oxenmq/auth.cpp), read by the format of ZMTP: for each property the size of
-- its name in one byte, the name, the size of its value in four bytes in network order, and the value.
use oxen_mq.Common.{
  ℕ, ◌+◌, ◌*◌, ◌/◌, ◌%◌, ◌^◌, ◌<◌, ◌≡◌, refl, ap, ◌∙◌, Option, none, some, [], ◌∷◌, ◌++◌, Bytes,
  length, take, drop, take-append, drop-append, take_whole, drop_whole, arith, if◌then◌else◌, leb,
}
use mathlib.Core.List.{append_assoc}
use oxen_mq.Access.{AuthLevel, to_string}
use oxen_mq.Auth.Zap.{zmtp_metadata, network_order}

-- The value after its name, and what follows.
abbrev pub zmtp_value : Bytes → Option (Bytes × Bytes)
zmtp_value (a ∷ b ∷ c ∷ d ∷ s) =
    let n = ((a * 256 + b) * 256 + c) * 256 + d in
    if leb n (length s) then some (take n s, drop n s) else none
zmtp_value _ = none

abbrev with_name : Bytes → Option (Bytes × Bytes) → Option ((Bytes × Bytes) × Bytes)
with_name name none = none
with_name name (some (value, rest)) = some ((name, value), rest)

-- The first property, and what follows.
abbrev pub zmtp_property : Bytes → Option ((Bytes × Bytes) × Bytes)
zmtp_property [] = none
zmtp_property (k ∷ s) = with_name (take k s) (zmtp_value (drop k s))

network_order-value :
    (n : ℕ)
    → n < 2 ^ 32
    → (((n / 2 ^ 24) % 256 * 256 + (n / 2 ^ 16) % 256) * 256 + (n / 2 ^ 8) % 256) * 256 + n % 256
      ≡ n
network_order-value n h = omega arith

zmtp_value-network_order :
    (value : Bytes)
    → length value < 2 ^ 32
    → zmtp_value (network_order (length value) ++ value) ≡ some (value, [])
zmtp_value-network_order value h =
    rw
      (
        network_order-value (length value) h,
        take_whole (length value) value refl,
        drop_whole (length value) value refl,
      )
      (ground arith)

-- A name and a value whose sizes fit are read back, and nothing else.
pub zmtp_property-metadata :
    (key value : Bytes)
    → length key < 256
    → length value < 2 ^ 32
    → zmtp_property (zmtp_metadata key value) ≡ some ((key, value), [])
unfolding zmtp_metadata
zmtp_property-metadata key value h k =
    let rest = network_order (length value) ++ value in
    let small : length key % 256 ≡ length key = omega arith in
    let cut : zmtp_property (length key ∷ (key ++ rest)) ≡ some ((key, value), []) =
      ap (λ (n : Bytes). with_name n (zmtp_value (drop (length key) (key ++ rest))))
        (take-append (length key) key rest refl)
      ∙ ap (λ (s : Bytes). with_name key (zmtp_value s)) (drop-append (length key) key rest refl)
      ∙ ap (with_name key) (zmtp_value-network_order value k) in
    ap zmtp_property
      (ap (◌∷◌ (length key % 256)) (append_assoc key (network_order (length value)) value))
    ∙ ap (λ (n : ℕ). zmtp_property (n ∷ (key ++ rest))) small
    ∙ cut

pub level_size : (a : AuthLevel) → length (to_string a) < 2 ^ 32
unfolding to_string
level_size AuthLevel.denied = omega arith
level_size AuthLevel.none = omega arith
level_size AuthLevel.basic = omega arith
level_size AuthLevel.admin = omega arith
