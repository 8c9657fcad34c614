-- ===== src/Examples/Keys.antt =====
-- A service node with a key pair, by a made-up function from private keys to public ones.
use oxen_mq.Common.{suc, ◌%◌, ◌≡◌, refl, true, false, bytes, Bytes, map, ok}
use oxen_mq.Setup.{Sodium, IsKeyPair, construct, construct-IsKeyPair}

abbrev private_key : Bytes
private_key = bytes "0123456789abcdef0123456789abcdef"

abbrev public_of : Bytes → Bytes
public_of = map (λ b. suc b % 256)

abbrev sodium : Sodium
sodium = record {
  init_fails = false;
  crypto_box_keypair = (public_of private_key, private_key);
  crypto_scalarmult_base = public_of;
}

made : IsKeyPair sodium sodium.crypto_box_keypair
made = record { pubkey_size = refl; privkey_size = refl; derived = refl }

accepted :
    construct sodium (public_of private_key) private_key true
    ≡ ok (public_of private_key, private_key)
unfolding construct
accepted = refl

construct-IsKeyPair_example :
    IsKeyPair sodium (public_of private_key, private_key)
    × (true ≡ true
        → ◌≡◌ {A = Bytes × Bytes}
            (public_of private_key, private_key)
            (public_of private_key, private_key))
construct-IsKeyPair_example =
    construct-IsKeyPair sodium (public_of private_key) private_key true made accepted
