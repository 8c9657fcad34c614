-- ===== src/Address/WellFormed.antt =====
-- Which addresses a text can stand for: the shape that each protocol asks of the fields.
use oxen_mq.Common.{
  ◌≤◌, ◌≡◌, ◌≢◌, Bool, true, false, [], ◌∷◌, Bytes, bytes_eq, if◌then◌else◌, ◌==◌, drop_while, all,
}
use oxen_mq.Address.{Proto, tcp, tcp_curve, ipc, ipc_curve, Address}
use oxen_mq.Address.Parse.{in_ipv6, not_colon}

-- The rest of an IPv6 address after `[`: it ends by the one `]`.
abbrev pub closes : Bytes → Bool
closes s = bytes_eq (drop_while in_ipv6 s) (b']' ∷ [])

-- An IPv6 address in brackets, or any other text with no colon.
abbrev pub host_ok : Bytes → Bool
host_ok [] = false
host_ok (c ∷ s) = if c == b'[' then closes s else all not_colon (c ∷ s)

pub record IsTcp (a : Address) : Type 0 where
  pub host_valid : host_ok a.host ≡ true
  pub port_pos : 1 ≤ a.port
  pub port_max : a.port ≤ 65535
  pub no_socket : a.socket ≡ []

pub record IsIpc (a : Address) : Type 0 where
  pub no_host : a.host ≡ []
  pub no_port : a.port ≡ 0

abbrev pub Shape : Proto → Address → Type 0
Shape tcp a = IsTcp a × (a.pubkey ≡ [])
Shape tcp_curve a = IsTcp a
Shape ipc a = IsIpc a × (a.socket ≢ []) × (a.pubkey ≡ [])
Shape ipc_curve a = IsIpc a

abbrev pub IsWellFormed : Address → Type 0
IsWellFormed a = Shape a.protocol a
