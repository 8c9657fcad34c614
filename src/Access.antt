-- ===== src/Access.antt =====
-- oxenmq/auth.h: authentication levels and the access that a command category asks for.
use oxen_mq.Common.{ℕ, ◌≡◌, refl, Bool, false, Bytes, bytes, bytes_eq, if◌then◌else◌, ltb}

pub data AuthLevel : Type 0 where
  denied none basic admin : AuthLevel

pub record Access : Type 0 where
  pub auth : AuthLevel
  pub remote_sn : Bool
  pub local_sn : Bool

-- `Access{}`: the defaults of the constructor.
abbrev pub default_access : Access
default_access = record { auth = none; remote_sn = false; local_sn = false }

-- The enumerators' values, by which `<` compares.
abbrev pub rank : AuthLevel → ℕ
rank denied = 0
rank none = 1
rank basic = 2
rank admin = 3

abbrev pub level_lt : AuthLevel → AuthLevel → Bool
level_lt a b = ltb (rank a) (rank b)

unfoldable pub to_string : AuthLevel → Bytes
to_string denied = bytes "denied"
to_string none = bytes "none"
to_string basic = bytes "basic"
to_string admin = bytes "admin"

unfoldable pub auth_from_string : Bytes → AuthLevel
auth_from_string a =
    if bytes_eq a (bytes "none")
    then none
    else if bytes_eq a (bytes "basic")
    then basic
    else if bytes_eq a (bytes "admin")
    then admin
    else denied

-- The level that the ZAP handler writes into a connection's metadata is the one read back from it.
pub auth_from_string-to_string : (a : AuthLevel) → auth_from_string (to_string a) ≡ a
unfolding auth_from_string to_string
auth_from_string-to_string denied = refl
auth_from_string-to_string none = refl
auth_from_string-to_string basic = refl
auth_from_string-to_string admin = refl
