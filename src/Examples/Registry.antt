-- ===== src/Examples/Registry.antt =====
-- A registry with one category and one command.
use oxen_mq.Common.{ℕ, ◌≡◌, refl, false, some, [], ◌∷◌, bytes, pos, arith, ok}
use oxen_mq.Access.{default_access}
use oxen_mq.Pool.{Category}
use oxen_mq.Commands.{
  Registry, full_name, find_category, add_command, insert_command, add_command_alias, get_command,
  with_command,
}
use oxen_mq.Commands.Lookup.{add_command-get_command}
use oxen_mq.Commands.Aliases.{IsUnmasked, add_command_alias-IsUnmasked}

abbrev category_rpc : Category
category_rpc = record {
  name = bytes "rpc";
  access = default_access;
  commands = [];
  reserved_threads = 0;
  active_threads = 0;
  max_queue = pos 200;
  queued = 0;
}

abbrev registry : Registry
registry = record { started = false; categories = category_rpc ∷ []; command_aliases = [] }

abbrev registered : Registry
registered = record registry {
  categories = with_command (bytes "ping") (6, false) category_rpc ∷ [];
}

added : add_command (bytes "rpc") (bytes "ping") 6 registry ≡ ok registered
unfolding add_command insert_command
added = refl

add_command-get_command_example :
    (i : ℕ) × (find_category (bytes "rpc") registry.categories ≡ some i)
    × (get_command (full_name (bytes "rpc") (bytes "ping")) registered
        ≡ (some (i, (6, false)), full_name (bytes "rpc") (bytes "ping")))
add_command-get_command_example =
    add_command-get_command (bytes "rpc") (bytes "ping") 6 registry registered
      ((refl, refl, omega arith), tt) added

abbrev aliased : Registry
aliased = record registered { command_aliases = (bytes "ping", bytes "rpc.ping") ∷ [] }

alias_added : add_command_alias (bytes "ping") (bytes "rpc.ping") registered ≡ ok aliased
unfolding add_command_alias
alias_added = refl

add_command_alias-IsUnmasked_example : IsUnmasked aliased
add_command_alias-IsUnmasked_example =
    add_command_alias-IsUnmasked (bytes "ping") (bytes "rpc.ping") registered aliased
      ((refl, refl, omega arith), tt) (λ category name h. refl) alias_added
