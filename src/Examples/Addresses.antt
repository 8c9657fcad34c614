-- ===== src/Examples/Addresses.antt =====
-- Addresses, printed and read back with concrete codecs.
use oxen_mq.Common.{
  ◌≡◌, refl, true, ◌∷◌, ◌++◌, ◌↔◌, bytes, ok, err, ◌>>=◌, arith, decimal, digits, spelled,
}
use oxen_mq.Address.{
  hex, base64, Address, invalid_argument, make_tcp, make_tcp_curve, make_ipc_curve, full_address,
  qr_address, same_address,
}
use oxen_mq.Address.Parse.{parse_address, decode_pubkey}
use oxen_mq.Address.WellFormed.{IsWellFormed}
use oxen_mq.Address.RoundTrip.{parse_address-full_address}
use oxen_mq.Address.Accepted.{parse_address-IsWellFormed, parse_address-full_address-parse_address}
use oxen_mq.Address.Qr.{parse_address-qr_address}
use oxen_mq.Address.Equality.{same_address_iff}
use oxen_mq.Address.Ports.{port_result, parse_address_port}
use oxen_mq.Examples.Codecs.{codecs, codecs-Alphabets, codecs-Codec, some_key}

abbrev node : Address
node = make_tcp_curve (bytes "[fd00::1]") 4567 some_key

abbrev worker : Address
worker = make_ipc_curve (bytes "/run/mq.sock") some_key

-- The tests of tests/test_address.cpp: texts with a key, and refused texts.
upper_case_hex :
    parse_address codecs
      (bytes "tcp+curve://a:1/F16BA5591039F089B42A834175093094074D0D937A79E53E5CE730F946E14B88")
    ≡ ok (make_tcp_curve (bytes "a") 1 some_key)
unfolding parse_address decode_pubkey spelled codecs
upper_case_hex = refl

qr_text :
    qr_address codecs node
    ≡ ok (bytes "CURVE://$FD00::1$:4567/6FI4KSEO88AEUPBKOPYZKNJO1ODW4DCUXJH6KX1HHHAX1TZBJQRY")
unfolding qr_address decimal digits codecs
qr_text = refl

three_parts : parse_address codecs (bytes "tcp://1:1:1") ≡ err invalid_argument
unfolding parse_address spelled
three_parts = refl

not_uppercase : parse_address codecs (bytes "TCP://foo.example.com:80") ≡ err invalid_argument
unfolding parse_address
not_uppercase = refl

node-IsWellFormed : IsWellFormed node
node-IsWellFormed = record {
  host_valid = refl;
  port_pos = omega arith;
  port_max = omega arith;
  no_socket = refl;
}

parse_address-full_address_example :
    parse_address codecs (full_address codecs base64 worker) ≡ ok worker
parse_address-full_address_example =
    parse_address-full_address codecs base64 worker codecs-Alphabets
      (record { no_host = refl; no_port = refl }) (λ _. codecs-Codec)

parse_address-IsWellFormed_example : IsWellFormed (make_tcp (bytes "localhost") 80)
unfolding parse_address spelled
parse_address-IsWellFormed_example =
    parse_address-IsWellFormed codecs (bytes "TCP://LOCALHOST:080") refl

parse_address-full_address-parse_address_example :
    parse_address codecs (full_address codecs hex node) ≡ ok node
unfolding parse_address decode_pubkey spelled codecs
parse_address-full_address-parse_address_example =
    parse_address-full_address-parse_address codecs hex
      (bytes "CURVE://$FD00::1$:4567/6FI4KSEO88AEUPBKOPYZKNJO1ODW4DCUXJH6KX1HHHAX1TZBJQRY") refl
      codecs-Alphabets (λ _. codecs-Codec)

parse_address-qr_address_example : (qr_address codecs node >>= parse_address codecs) ≡ ok node
parse_address-qr_address_example =
    parse_address-qr_address codecs node refl node-IsWellFormed refl (λ _. codecs-Codec)

same_address_iff_example : (same_address node node ≡ true) ↔ (node ≡ node)
same_address_iff_example = same_address_iff node node node-IsWellFormed node-IsWellFormed

parse_address_port_example :
    parse_address codecs (bytes "tcp://" ++ (bytes "h" ++ 58 ∷ decimal 2147483648))
    ≡ port_result 2147483648 (make_tcp (bytes "h") 2147483648)
parse_address_port_example = parse_address_port codecs (bytes "h") 2147483648 refl
