-- ===== src/Commands.antt =====
-- oxenmq/oxenmq.cpp: the registry of categories, commands and aliases (`add_category`,
-- `add_command`, `add_request_command`, `add_command_alias`, `get_command`).
pub mod Lookup
pub mod Aliases
use oxen_mq.Common.{
  ℕ, zero, suc, ◌+◌, Bool, true, false, ◌||◌, ◌&&◌, not, Option, none, some, List, [], ◌∷◌, ◌++◌,
  Bytes, bytes_eq, ℤ, Result, ok, err, ◌>>◌, ◌>>=◌, throw_if, length, get_elem?, modify, is_empty,
  any, find, has_key, update, if◌then◌else◌, ltb, ◌==◌,
}
use oxen_mq.Access.{Access}
use oxen_mq.Pool.{Category, Callback}

abbrev pub max_category_length : ℕ
max_category_length = 50

abbrev pub max_command_length : ℕ
max_command_length = 200

pub data RegistryError : Type 0 where
  already_started name_too_long invalid_name duplicate_category unknown_category masked_by_alias
        duplicate_command :
      RegistryError
  empty_alias invalid_alias invalid_target masks_command duplicate_alias : RegistryError

pub record Registry : Type 0 where
  pub started : Bool  -- `proxy_thread.joinable()`
  pub categories : List Category
  pub command_aliases : List (Bytes × Bytes)

abbrev pub dot : ℕ
dot = b'.'

abbrev pub has_dot : Bytes → Bool
has_dot s = any (λ b. b == dot) s

-- `find('.')` and the two `substr`: what is before and after the first dot.
abbrev pub split_dot : Bytes → Option (Bytes × Bytes)
split_dot [] = none
split_dot (b ∷ bs) =
    if b == dot
    then some ([], bs)
    else elim (split_dot bs) [ none ↦ none | some (l, r) ↦ some (b ∷ l, r) ]

-- `categories.find(name)`: the position of the category.
abbrev pub find_category : Bytes → List Category → Option ℕ
find_category name [] = none
find_category name (c ∷ cs) =
    if bytes_eq c.name name
    then some 0
    else elim (find_category name cs) [ none ↦ none | some i ↦ some (suc i) ]

abbrev pub full_name : Bytes → Bytes → Bytes
full_name category name = category ++ dot ∷ name

abbrev pub find_command : Bytes → Category → Option (Callback × Bool)
find_command name c = find bytes_eq name c.commands

abbrev pub is_some {ℓ} : {A : Type ℓ} → Option A → Bool
is_some none = false
is_some (some a) = true

-- `categories.find(...)` and `commands.find(...)`.
abbrev pub command_in : Bytes → Bytes → List Category → Option (ℕ × (Callback × Bool))
command_in category name cs = elim (find_category category cs) [
  | none ↦ none
  | some i ↦ elim (get_elem? cs i) [
    | none ↦ none
    | some c ↦ elim (find_command name c) [ none ↦ none | some f ↦ some (i, f) ]
  ]
]

unfoldable pub add_category : Bytes → Access → ℕ → ℤ → Registry → Result RegistryError Registry
add_category name access reserved_threads max_queue r = do
  throw_if r.started already_started
  throw_if (ltb max_category_length (length name)) name_too_long
  throw_if (is_empty name || has_dot name) invalid_name
  throw_if (is_some (find_category name r.categories)) duplicate_category
  ok (record r {
    categories =
        r.categories
        ++ record {
          name = name;
          access = access;
          commands = [];
          reserved_threads = reserved_threads;
          active_threads = 0;
          max_queue = max_queue;
          queued = 0;
        }
          ∷ [];
  })

abbrev pub with_command : Bytes → Callback × Bool → Category → Category
with_command name f c = record c { commands = (name, f) ∷ c.commands }

-- The part of `add_command` after the category is found, at position `i`.
unfoldable pub insert_command :
    Bytes → Bytes → Callback → ℕ → Registry → Result RegistryError Registry
insert_command category name callback i r = do
  throw_if (has_key bytes_eq (full_name category name) r.command_aliases) masked_by_alias
  throw_if (is_some (command_in category name r.categories)) duplicate_command
  ok (record r { categories = modify r.categories i (with_command name (callback, false)) })

unfoldable pub add_command : Bytes → Bytes → Callback → Registry → Result RegistryError Registry
add_command category name callback r = do
  throw_if r.started already_started
  throw_if (ltb max_command_length (length name)) name_too_long
  elim (find_category category r.categories) [
    | none ↦ err unknown_category
    | some i ↦ insert_command category name callback i r
  ]

abbrev pub as_request : Bytes → Category → Category
as_request name c = record c { commands = update bytes_eq name (λ f. (f.0, true)) c.commands }

unfoldable pub add_request_command :
    Bytes → Bytes → Callback → Registry → Result RegistryError Registry
add_request_command category name callback r = add_command category name callback r >>= λ q.
    elim (find_category category q.categories) [
      | none ↦ err unknown_category
      | some i ↦ ok (record q { categories = modify q.categories i (as_request name) })
    ]

-- Whether an alias hides a command: one of the same full name exists.
abbrev pub would_mask : Bytes → Registry → Bool
would_mask from r = elim (split_dot from) [
  | none ↦ false
  | some (category, name) ↦ is_some (command_in category name r.categories)
]

abbrev pub starts_with_dot : Bytes → Bool
starts_with_dot [] = false
starts_with_dot (b ∷ bs) = b == dot

unfoldable pub add_command_alias : Bytes → Bytes → Registry → Result RegistryError Registry
add_command_alias from to r = do
  throw_if r.started already_started
  throw_if (is_empty from) empty_alias
  throw_if (starts_with_dot from) invalid_alias
  throw_if (starts_with_dot to || not (has_dot to)) invalid_target
  throw_if (would_mask from r) masks_command
  throw_if (has_key bytes_eq from r.command_aliases) duplicate_alias
  ok (record r { command_aliases = (from, to) ∷ r.command_aliases })

-- The command's name after the aliases, which are not applied twice.
abbrev pub resolve : Bytes → Registry → Bytes
resolve command r = elim (find bytes_eq command r.command_aliases) [ none ↦ command | some to ↦ to ]

abbrev pub find_by_name : Bytes → Registry → Option (ℕ × (Callback × Bool))
find_by_name command r = elim (split_dot command) [
  | none ↦ none
  | some ([], name) ↦ none
  | some (b ∷ category, name) ↦ command_in (b ∷ category) name r.categories
]

-- The second part is the command's name, which an alias replaces.
unfoldable pub get_command : Bytes → Registry → Option (ℕ × (Callback × Bool)) × Bytes
get_command command r =
    if ltb (max_category_length + 1 + max_command_length) (length command)
    then (none, command)
    else let name = resolve command r in (find_by_name name r, name)
