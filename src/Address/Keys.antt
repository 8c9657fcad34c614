-- ===== src/Address/Keys.antt =====
-- What addresses rely on in the codecs of oxenc, and public keys that are printed and read back.
use oxen_mq.Common.{
  ℕ, ◌≡◌, refl, ap, ◌∙◌, Bool, true, false, not, [], map, Bytes, length, ◌==◌, take, all, back,
  to_upper, take_whole, drop_whole, ok, arith,
}
use oxen_mq.Address.{
  Encoding, hex, base32z, base32z_upper, base64, Oxenc, encode_pubkey, strip_padding, enc_length,
}
use oxen_mq.Address.Parse.{decode_pubkey, in_qr}

abbrev pub not_slash : ℕ → Bool
not_slash c = not (c == b'/')

-- oxenc reads back what it prints of this key of 32 bytes: in hex, in base32z of both cases, and in
-- base64, whose 44th byte is padding. Base32z in upper case has digits and letters only.
pub record Codec (o : Oxenc) (pk : Bytes) : Type 0 where
  pub key_size : length pk ≡ 32
  pub hex_size : length (o.to_hex pk) ≡ 64
  pub hex_valid : o.is_hex (o.to_hex pk) ≡ true
  pub hex_back : o.from_hex (o.to_hex pk) ≡ pk
  pub z_size : length (o.to_base32z pk) ≡ 52
  pub z_valid : o.is_base32z (o.to_base32z pk) ≡ true
  pub z_back : o.from_base32z (o.to_base32z pk) ≡ pk
  pub upper_size : length (map to_upper (o.to_base32z pk)) ≡ 52
  pub upper_valid : o.is_base32z (map to_upper (o.to_base32z pk)) ≡ true
  pub upper_back : o.from_base32z (map to_upper (o.to_base32z pk)) ≡ pk
  pub upper_in_qr : all in_qr (map to_upper (o.to_base32z pk)) ≡ true
  pub b64_padded : length (o.to_base64 pk) ≡ 44
  pub b64_padding : back (o.to_base64 pk) 0 ≡ b'='
  pub b64_size : length (take 43 (o.to_base64 pk)) ≡ 43
  pub b64_valid : o.is_base64 (take 43 (o.to_base64 pk)) ≡ true
  pub b64_back : o.from_base64 (take 43 (o.to_base64 pk)) ≡ pk
  pub b64_end : (back (take 43 (o.to_base64 pk)) 0 == b'=') ≡ false

-- No hex or base32z text has a `/`.
pub record Alphabets (o : Oxenc) : Type 0 where
  pub hex_no_slash : (s : Bytes) → o.is_hex s ≡ true → all not_slash s ≡ true
  pub z_no_slash : (s : Bytes) → o.is_base32z s ≡ true → all not_slash s ≡ true

module _ (o : Oxenc) (pk : Bytes) where
  pub strip_padding_lem : Codec o pk → strip_padding (o.to_base64 pk) ≡ take 43 (o.to_base64 pk)
  strip_padding_lem k = ground arith

  pub length-encode_pubkey :
      (enc : Encoding) → Codec o pk → length (encode_pubkey o enc pk) ≡ enc_length enc
  length-encode_pubkey hex k = k.hex_size
  length-encode_pubkey base32z k = k.z_size
  length-encode_pubkey base32z_upper k = k.upper_size
  length-encode_pubkey base64 k = ap length (strip_padding_lem k) ∙ k.b64_size

module _ (o : Oxenc) (s : Bytes) where
  decode_hex :
      (qr : Bool) → length s ≡ 64 → o.is_hex s ≡ true → decode_pubkey o qr s ≡ ok (o.from_hex s, [])
  unfolding decode_pubkey
  decode_hex qr n v = rw (take_whole 64 s n, drop_whole 64 s n, n, v) refl

  decode_z :
      (qr : Bool)
      → length s ≡ 52
      → o.is_base32z s ≡ true
      → decode_pubkey o qr s ≡ ok (o.from_base32z s, [])
  unfolding decode_pubkey
  decode_z qr n v = rw (take_whole 52 s n, drop_whole 52 s n, n, v) refl

  decode_b64 :
      length s ≡ 43 → o.is_base64 s ≡ true → decode_pubkey o false s ≡ ok (o.from_base64 s, [])
  unfolding decode_pubkey
  decode_b64 n v = rw (take_whole 43 s n, drop_whole 43 s n, n, v) refl

module _ (o : Oxenc) (pk : Bytes) where
  -- A key that ends the text is read back from each encoding.
  pub decode_pubkey-encode_pubkey :
      (enc : Encoding) → Codec o pk → decode_pubkey o false (encode_pubkey o enc pk) ≡ ok (pk, [])
  decode_pubkey-encode_pubkey hex k =
      decode_hex o _ false k.hex_size k.hex_valid ∙ rw k.hex_back refl
  decode_pubkey-encode_pubkey base32z k = decode_z o _ false k.z_size k.z_valid ∙ rw k.z_back refl
  decode_pubkey-encode_pubkey base32z_upper k =
      decode_z o _ false k.upper_size k.upper_valid ∙ rw k.upper_back refl
  decode_pubkey-encode_pubkey base64 k =
      rw (strip_padding_lem o pk k) (decode_b64 o _ k.b64_size k.b64_valid ∙ rw k.b64_back refl)

  pub decode_pubkey-upper :
      Codec o pk → decode_pubkey o true (encode_pubkey o base32z_upper pk) ≡ ok (pk, [])
  decode_pubkey-upper k = decode_z o _ true k.upper_size k.upper_valid ∙ rw k.upper_back refl
