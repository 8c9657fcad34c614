-- ===== src/Examples/Codecs.antt =====
-- A concrete hex, base32z and base64 for the tests of addresses, of keys like those of
-- tests/test_address.cpp.
use oxen_mq.Common.{
  ℕ, zero, suc, ◌+◌, ◌-◌, ◌*◌, ◌/◌, ◌%◌, ◌^◌, ◌≡◌, refl, Bool, true, false, not, ◌&&◌, ◌||◌, [],
  ◌∷◌, ◌++◌, map, Bytes, bytes, if◌then◌else◌, ◌==◌, all, arith, between, is_digit, to_lower,
  get_elem?, some, none, List,
}
use oxen_mq.Address.{Oxenc}
use oxen_mq.Address.Keys.{Codec, Alphabets, not_slash}

abbrev to_bits : ℕ → ℕ → List ℕ
to_bits zero n = []
to_bits (suc w) n = (n / 2 ^ w % 2) ∷ to_bits w n

abbrev all_bits : ℕ → List ℕ → List ℕ
all_bits w [] = []
all_bits w (n ∷ ns) = to_bits w n ++ all_bits w ns

-- Groups of `w` bits, of which `k` are read; the last group is filled up with zeros, or dropped.
abbrev groups : Bool → ℕ → ℕ → ℕ → List ℕ → List ℕ
groups fill w k acc [] = if fill && not (k == 0) then acc * 2 ^ (w - k) ∷ [] else []
groups fill w k acc (b ∷ bs) = elim (suc k == w) [
  | true ↦ (acc * 2 + b) ∷ groups fill w 0 0 bs
  | false ↦ groups fill w (suc k) (acc * 2 + b) bs
]

abbrev letter : Bytes → ℕ → ℕ
letter alphabet i = elim (get_elem? alphabet i) [ none ↦ 0 | some c ↦ c ]

abbrev index : Bytes → ℕ → ℕ
index [] c = 0
index (a ∷ alphabet) c = elim (a == c) [ true ↦ 0 | false ↦ suc (index alphabet c) ]

abbrev encode : Bytes → ℕ → Bytes → Bytes
encode alphabet w s = map (letter alphabet) (groups true w 0 0 (all_bits 8 s))

abbrev decode : Bytes → ℕ → Bytes → Bytes
decode alphabet w s = groups false 8 0 0 (all_bits w (map (index alphabet) s))

abbrev hex_alphabet : Bytes
hex_alphabet = bytes "0123456789abcdef"

abbrev z_alphabet : Bytes
z_alphabet = bytes "ybndrfg8ejkmcpqxot1uwisza345h769"

abbrev b64_alphabet : Bytes
b64_alphabet = bytes "ABCDEFGHIJKLMNOPQRSTUVWXYZabcdefghijklmnopqrstuvwxyz0123456789+/"

abbrev hex_char : ℕ → Bool
hex_char c = is_digit c || between b'a' b'f' c || between b'A' b'F' c

-- Not `l`, `v`, `2` and `0`.
abbrev z_char : ℕ → Bool
z_char c =
    (is_digit c || between b'a' b'z' (to_lower c))
    && not (to_lower c == b'l' || to_lower c == b'v' || c == b'2' || c == b'0')

abbrev b64_char : ℕ → Bool
b64_char c =
    is_digit c || between b'a' b'z' c || between b'A' b'Z' c || c == b'+' || c == b'/' || c == b'='

unfoldable pub codecs : Oxenc
codecs = record {
  is_hex = all hex_char;
  from_hex = λ s. decode hex_alphabet 4 (map to_lower s);
  to_hex = encode hex_alphabet 4;
  is_base32z = all z_char;
  from_base32z = λ s. decode z_alphabet 5 (map to_lower s);
  to_base32z = encode z_alphabet 5;
  is_base64 = all b64_char;
  from_base64 = λ s. decode b64_alphabet 6 s;
  to_base64 = λ s. encode b64_alphabet 6 s ++ b'=' ∷ [];
}

all-imp :
    (p q : ℕ → Bool) (s : Bytes)
    → ((c : ℕ) → p c ≡ true → q c ≡ true)
    → all p s ≡ true
    → all q s ≡ true
all-imp p q [] h v = refl
all-imp p q (c ∷ s) h v = ground (arith, h c, all-imp p q s h)

hex_char-not_slash : (c : ℕ) → hex_char c ≡ true → not_slash c ≡ true
hex_char-not_slash c h = ground arith

z_char-not_slash : (c : ℕ) → z_char c ≡ true → not_slash c ≡ true
z_char-not_slash c h = ground arith

pub codecs-Alphabets : Alphabets codecs
unfolding codecs
codecs-Alphabets = record {
  hex_no_slash = λ s. all-imp hex_char not_slash s hex_char-not_slash;
  z_no_slash = λ s. all-imp z_char not_slash s z_char-not_slash;
}

abbrev pub some_key : Bytes
some_key =
    decode hex_alphabet 4 (bytes "f16ba5591039f089b42a834175093094074d0d937a79e53e5ce730f946e14b88")

pub codecs-Codec : Codec codecs some_key
unfolding codecs
codecs-Codec = record {
  key_size = refl;
  hex_size = refl;
  hex_valid = refl;
  hex_back = refl;
  z_size = refl;
  z_valid = refl;
  z_back = refl;
  upper_size = refl;
  upper_valid = refl;
  upper_back = refl;
  upper_in_qr = refl;
  b64_padded = refl;
  b64_padding = refl;
  b64_size = refl;
  b64_valid = refl;
  b64_back = refl;
  b64_end = refl;
}

some_key_texts :
    (codecs.to_base32z some_key ≡ bytes "6fi4kseo88aeupbkopyzknjo1odw4dcuxjh6kx1hhhax1tzbjqry")
    × (codecs.to_base64 some_key ≡ bytes "8WulWRA58Im0KoNBdQkwlAdNDZN6eeU+XOcw+UbhS4g=")
unfolding codecs
some_key_texts = (refl, refl)
