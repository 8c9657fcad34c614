-- ===== src/Setup.antt =====
-- oxenmq/oxenmq.cpp: the keys that the constructor of OxenMQ takes or makes, and the listeners that
-- `listen_curve` and `listen_plain` add. libsodium is a parameter.
use oxen_mq.Common.{
  ℕ, ◌≡◌, sym, subst, Bool, true, false, not, inl, inr, List, [], ◌∷◌, ◌++◌, Option, none, some,
  Bytes, bytes, bytes_eq, eq_of_bytes_eq, length, is_empty, if◌then◌else◌, ◌==◌, take, Result, ok,
  ok_inj, ◌>>◌, throw_if, throw_if-ok, Bool-cases, arith,
}
use oxen_mq.Access.{AuthLevel, none}
use oxen_mq.Auth.Zap.{BindData}

-- libsodium: whether `sodium_init` fails, the pair that `crypto_box_keypair` makes, public key first,
-- and `crypto_scalarmult_base`, the public key of a private one.
pub record Sodium : Type 0 where
  pub init_fails : Bool
  pub crypto_box_keypair : Bytes × Bytes
  pub crypto_scalarmult_base : Bytes → Bytes

-- `std::runtime_error` if libsodium cannot start, `std::invalid_argument` for the keys.
pub data KeyError : Type 0 where
  sodium_failed one_key_missing keypair_needed pubkey_size privkey_size verification_failed :
      KeyError

-- The keys of the instance after its constructor, from the arguments `pubkey_` and `privkey_`.
unfoldable pub construct : Sodium → Bytes → Bytes → Bool → Result KeyError (Bytes × Bytes)
construct sodium pubkey privkey service_node = do
  throw_if sodium.init_fails sodium_failed
  throw_if (if is_empty pubkey then not (is_empty privkey) else is_empty privkey) one_key_missing
  if is_empty pubkey
      then (throw_if service_node keypair_needed >> ok sodium.crypto_box_keypair)
      else (throw_if (not (length pubkey == 32)) pubkey_size
          >> (throw_if (not (length privkey == 32)) privkey_size
              >> (throw_if (not (bytes_eq (sodium.crypto_scalarmult_base privkey) pubkey))
                    verification_failed
                  >> ok (pubkey, privkey))))

-- Two keys of 32 bytes, the first the public one of the second.
pub record IsKeyPair (sodium : Sodium) (k : Bytes × Bytes) : Type 0 where
  pub pubkey_size : length k.0 ≡ 32
  pub privkey_size : length k.1 ≡ 32
  pub derived : sodium.crypto_scalarmult_base k.1 ≡ k.0

construct-given :
    (sodium : Sodium) (pk sk : Bytes) (sn : Bool) (k : Bytes × Bytes)
    → is_empty pk ≡ false
    → construct sodium pk sk sn ≡ ok k
    → IsKeyPair sodium k × (k ≡ (pk, sk))
unfolding construct
construct-given sodium pk sk sn k e h =
    let (_, h1) = throw_if-ok sodium.init_fails _ _ k h in
    let (_, h2) = throw_if-ok (if is_empty pk then not (is_empty sk) else is_empty sk) _ _ k h1 in
    let (p, h3) = throw_if-ok (not (length pk == 32)) _ _ k (rw e at h2) in
    let (q, h4) = throw_if-ok (not (length sk == 32)) _ _ k h3 in
    let (v, h5) = throw_if-ok (not (bytes_eq (sodium.crypto_scalarmult_base sk) pk)) _ _ k h4 in
    let same : (pk, sk) ≡ k = ok_inj h5 in
    (
      subst (IsKeyPair sodium) same (record {
        pubkey_size = ground (arith, p);
        privkey_size = ground (arith, q);
        derived = eq_of_bytes_eq _ _ (ground (arith, v));
      }),
      sym same,
    )

construct-made :
    (sodium : Sodium) (pk sk : Bytes) (sn : Bool) (k : Bytes × Bytes)
    → is_empty pk ≡ true
    → construct sodium pk sk sn ≡ ok k
    → (sn ≡ false) × (sodium.crypto_box_keypair ≡ k)
unfolding construct
construct-made sodium pk sk sn k e h =
    let (_, h1) = throw_if-ok sodium.init_fails _ _ k h in
    let (_, h2) = throw_if-ok (if is_empty pk then not (is_empty sk) else is_empty sk) _ _ k h1 in
    let (n, h3) = throw_if-ok sn _ _ k (rw e at h2) in (n, ok_inj h3)

-- If libsodium makes key pairs, a constructor that returns has a key pair, and a service node the one
-- that was given.
pub construct-IsKeyPair :
    (sodium : Sodium) (pk sk : Bytes) (sn : Bool) {k : Bytes × Bytes}
    → IsKeyPair sodium sodium.crypto_box_keypair
    → construct sodium pk sk sn ≡ ok k
    → IsKeyPair sodium k × (sn ≡ true → k ≡ (pk, sk))
construct-IsKeyPair sodium pk sk sn {k} makes h = elim (Bool-cases (is_empty pk)) [
  | inr given ↦ let (pair, same) = construct-given sodium pk sk sn k given h in (pair, λ _. same)
  | inl made ↦
      let (n, same) = construct-made sodium pk sk sn k made h in
      (subst (IsKeyPair sodium) same makes, λ y. absurd (cc))
]

-- A listener that `start()` opens, or that the proxy is told to: address and callbacks.
pub record Listener : Type 0 where
  pub address : Bytes
  pub bind : BindData
  pub on_bind : Option ℕ

-- `std::logic_error` for an in-process address.
pub data ListenError : Type 0 where
  inproc_address : ListenError

-- What a listener allows without a callback.
abbrev pub or_none : Option (Bytes → Bytes → Bool → AuthLevel) → Bytes → Bytes → Bool → AuthLevel
or_none none address pubkey service_node = none
or_none (some allow) address pubkey service_node = allow address pubkey service_node

-- `listen_curve` and `listen_plain`, which differ in `curve`. Where the proxy runs the listener goes to
-- it in a BIND message, the second list, otherwise onto `bind`, the first.
unfoldable pub listen :
    Bool
    → Bytes
    → Option (Bytes → Bytes → Bool → AuthLevel)
    → Option ℕ
    → Bool
    → List Listener
    → List Listener
    → Result ListenError (List Listener × List Listener)
listen curve bind_addr allow_connection on_bind joinable bind sent = do
  throw_if (bytes_eq (take 9 bind_addr) (bytes "inproc://")) inproc_address
  let d : Listener = record {
    address = bind_addr;
    bind = record { curve = curve; allow = or_none allow_connection };
    on_bind = on_bind;
  }
  if joinable then ok (bind, sent ++ d ∷ []) else ok (bind ++ d ∷ [], sent)
