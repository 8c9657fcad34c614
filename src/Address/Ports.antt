-- ===== src/Address/Ports.antt =====
-- A port of any size in the text of an address.
use oxen_mq.Common.{
  ℕ, ◌≡◌, refl, true, false, [], ◌∷◌, ◌++◌, Bytes, bytes, length, is_empty, if◌then◌else◌, leb,
  ◌==◌, is_digit, decimal, spelled-decimal, all-decimal, length-decimal, take_while_whole,
  drop_while_whole, Result, ok, err, arith,
}
use oxen_mq.Address.{Oxenc, Exception, invalid_argument, out_of_range, make_tcp}
use oxen_mq.Address.Parse.{parse_port, parse_tcp, parse_tcp_pubkey, parse_address, stoi, int_max}
use oxen_mq.Address.WellFormed.{host_ok}
use oxen_mq.Address.Decimals.{parse_host_lem}

-- Port 0 and ports above 65535 are refused; above the range of `int` it is `std::stoi` that throws.
abbrev pub port_result {ℓ} : {A : Type ℓ} → ℕ → A → Result Exception A
port_result n r =
    if n == 0
    then err invalid_argument
    else if leb n 65535
    then ok r
    else if leb n int_max
    then err invalid_argument
    else err out_of_range

stoi_all :
    (n : ℕ)
    → stoi (decimal n) ≡ (if leb n int_max then ok (n, length (decimal n)) else err out_of_range)
unfolding stoi
stoi_all n =
    rw (take_while_whole is_digit (decimal n) (all-decimal n))
      (ground (arith, length-decimal n, spelled-decimal n))

parse_port_all : (n : ℕ) → parse_port (b':' ∷ decimal n) ≡ port_result n (n, [])
unfolding parse_port
parse_port_all n =
    rw
      (
        take_while_whole is_digit (decimal n) (all-decimal n),
        drop_while_whole is_digit (decimal n) (all-decimal n),
        stoi_all n,
      )
      (ground (arith, length-decimal n))

starts_not_empty : (s : Bytes) (c : ℕ) (t : Bytes) → is_empty (s ++ c ∷ t) ≡ false
starts_not_empty [] c t = refl
starts_not_empty (b ∷ s) c t = refl

-- The text `tcp://host:n`, for a host of one of the two forms and any number `n`: the address from 1
-- to 65535, `std::invalid_argument` at 0 and above 65535, and `std::out_of_range` above the largest
-- `int`.
pub parse_address_port :
    (o : Oxenc) (host : Bytes) (n : ℕ)
    → host_ok host ≡ true
    → parse_address o (bytes "tcp://" ++ (host ++ b':' ∷ decimal n))
      ≡ port_result n (make_tcp host n)
unfolding parse_address parse_tcp
parse_address_port o host n h =
    rw
      (
        starts_not_empty host b':' (decimal n),
        parse_host_lem host (decimal n) h,
        parse_port_all n,
        parse_tcp_pubkey,
      )
      (ground arith)
