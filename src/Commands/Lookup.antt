-- ===== src/Commands/Lookup.antt =====
-- oxenmq/oxenmq.cpp: a registered command is found under its name, and no alias hides it.
use oxen_mq.Common.{
  ℕ, zero, suc, ◌≤◌, ◌≡◌, refl, sym, ◌∙◌, ap, inl, inr, Bool, true, false, Option, none, some, List,
  [], ◌∷◌, Bytes, bytes_eq, bytes_eq_refl, eq_of_bytes_eq, length, length-append, get_elem?,
  get_elem?-modify_self, modify, is_empty, find, has_key, ltb, All, Bool-cases, Option-cases, ok,
  arith, Result, throw_if-ok,
}
use oxen_mq.Pool.{Category, Callback}
use oxen_mq.Commands.{
  Registry, RegistryError, dot, has_dot, split_dot, find_category, full_name, command_in,
  with_command, insert_command, add_command, resolve, find_by_name, get_command, already_started,
  name_too_long,
}

-- What `add_category` asks of a name.
abbrev pub IsName : Bytes → Type 0
IsName s = (has_dot s ≡ false) × (is_empty s ≡ false) × (length s ≤ 50)

abbrev pub IsNamed : List Category → Type 0
IsNamed cs = All (λ c. IsName c.name) cs

pub split_dot-full_name :
    (category name : Bytes)
    → has_dot category ≡ false
    → split_dot (full_name category name) ≡ some (category, name)
split_dot-full_name [] name h = refl
split_dot-full_name (b ∷ category) name h = ground (arith, split_dot-full_name category name)

pub find_category-IsName :
    (category : Bytes) (cs : List Category) (i : ℕ)
    → IsNamed cs
    → find_category category cs ≡ some i
    → IsName category
find_category-IsName category [] i h e = absurd (cc)
find_category-IsName category (c ∷ cs) i h e = elim (Bool-cases (bytes_eq c.name category)) [
  | inl same ↦ rw (← eq_of_bytes_eq c.name category same) h.0
  | inr other ↦ elim (Option-cases (find_category category cs)) [
    | inl n ↦ absurd (ground arith)
    | inr (j, k) ↦ find_category-IsName category cs j h.1 k
  ]
]

find_category-modify :
    (category name : Bytes) (f : Callback × Bool) (cs : List Category) (i : ℕ)
    → find_category category (modify cs i (with_command name f)) ≡ find_category category cs
find_category-modify category name f [] i = refl
find_category-modify category name f (c ∷ cs) zero = refl
find_category-modify category name f (c ∷ cs) (suc i) =
    ground (arith, find_category-modify category name f cs i)

find_category-get_elem :
    (category : Bytes) (cs : List Category) (i : ℕ)
    → find_category category cs ≡ some i
    → (c : Category) × (get_elem? cs i ≡ some c) × (bytes_eq c.name category ≡ true)
find_category-get_elem category [] i e = absurd (cc)
find_category-get_elem category (c ∷ cs) i e = elim (Bool-cases (bytes_eq c.name category)) [
  | inl same ↦ let z : i ≡ 0 = ground arith in (c, rw z refl, same)
  | inr other ↦ elim (Option-cases (find_category category cs)) [
    | inl n ↦ absurd (ground arith)
    | inr (j, k) ↦
        let z : i ≡ suc j = ground arith in
        let (d, at, same) = find_category-get_elem category cs j k in (d, rw z at, same)
  ]
]

-- What a successful `add_command` has tested, and its result.
abbrev Added : Bytes → Bytes → Callback → Registry → Registry → Type 0
Added category name callback r q =
    (i : ℕ) × (find_category category r.categories ≡ some i)
    × (length name ≤ 200)
    × (has_key bytes_eq (full_name category name) r.command_aliases ≡ false)
    × (q ≡ record r { categories = modify r.categories i (with_command name (callback, false)) })

pub ok_inj {ℓ} : {A : Type ℓ} {a b : A} → Path (Result RegistryError A) (ok a) (ok b) → a ≡ b
ok_inj e = cc

insert-result :
    (category name : Bytes) (callback : Callback) (i : ℕ) (r q : Registry)
    → insert_command category name callback i r ≡ ok q
    → (has_key bytes_eq (full_name category name) r.command_aliases ≡ false)
      × (q ≡ record r { categories = modify r.categories i (with_command name (callback, false)) })
unfolding insert_command
insert-result category name callback i r q e =
    let (plain, e1) = throw_if-ok _ _ _ q e in
    let (_, e2) = throw_if-ok _ _ _ q e1 in (plain, sym (ok_inj e2))

le_of_ltb : (a b : ℕ) → ltb a b ≡ false → b ≤ a
le_of_ltb a b h = ground arith

add_command-Added :
    (category name : Bytes) (callback : Callback) (r q : Registry)
    → add_command category name callback r ≡ ok q
    → Added category name callback r q
unfolding add_command
add_command-Added category name callback r q e =
    let (_, e1) = throw_if-ok r.started already_started _ q e in
    let (short, e2) = throw_if-ok (ltb 200 (length name)) name_too_long _ q e1 in
    elim (Option-cases (find_category category r.categories)) [
      | inl n ↦ absurd (ground arith)
      | inr (i, found) ↦
          let e3 : insert_command category name callback i r ≡ ok q = ground arith in
          let (plain, result) = insert-result category name callback i r q e3 in
          (i, found, le_of_ltb _ _ short, plain, result)
    ]

find_by_name-full_name :
    (category name : Bytes) (r : Registry)
    → IsName category
    → find_by_name (full_name category name) r ≡ command_in category name r.categories
find_by_name-full_name [] name r h = absurd (ground arith)
find_by_name-full_name (b ∷ category) name r h =
    rw (split_dot-full_name (b ∷ category) name h.0, find_by_name) refl

find-has_key :
    (k : Bytes) (es : List (Bytes × Bytes))
    → has_key bytes_eq k es ≡ false
    → find bytes_eq k es ≡ none
find-has_key k [] h = refl
find-has_key k (e ∷ es) h = ground (arith, find-has_key k es)

command_in-inserted :
    (category name : Bytes) (f : Callback × Bool) (cs : List Category) (i : ℕ)
    → find_category category cs ≡ some i
    → command_in category name (modify cs i (with_command name f)) ≡ some (i, f)
command_in-inserted category name f cs i h =
    let (c, at, _) = find_category-get_elem category cs i h in
    rw
      (
        find_category-modify category name f cs i,
        h,
        get_elem?-modify_self cs i (with_command name f) c at,
        bytes_eq_refl name,
        command_in,
        find,
      )
      refl

resolve_plain :
    (command : Bytes) (r : Registry)
    → has_key bytes_eq command r.command_aliases ≡ false
    → resolve command r ≡ command
resolve_plain command r h = rw (find-has_key command r.command_aliases h, resolve) refl

get_command-unaliased :
    (category name : Bytes) (r : Registry)
    → IsName category
    → length name ≤ 200
    → has_key bytes_eq (full_name category name) r.command_aliases ≡ false
    → get_command (full_name category name) r
      ≡ (command_in category name r.categories, full_name category name)
unfolding get_command
get_command-unaliased category name r h short plain =
    let limit : ltb 251 (length (full_name category name)) ≡ false =
      ground (arith, length-append category (dot ∷ name), h.2) in
    rw (limit, resolve_plain (full_name category name) r plain)
      (ap (λ (x : Option (ℕ × (Callback × Bool))). (x, full_name category name))
        (find_by_name-full_name category name r h))

-- A command that `add_command` accepted is found under its full name, if the categories have the
-- names that `add_category` accepts: the length limits admit it, and no alias has its name.
pub add_command-get_command :
    (category name : Bytes) (callback : Callback) (r q : Registry)
    → IsNamed r.categories
    → add_command category name callback r ≡ ok q
    → (i : ℕ) × (find_category category r.categories ≡ some i)
      × (get_command (full_name category name) q
          ≡ (some (i, (callback, false)), full_name category name))
add_command-get_command category name callback r q v e =
    let (i, found, short, plain, result) = add_command-Added category name callback r q e in
    let h = find_category-IsName category r.categories i v found in
    (
      i,
      found,
      rw result (
          get_command-unaliased category name
            (record r { categories = modify r.categories i (with_command name (callback, false)) })
            h short plain
          ∙ ap (λ (x : Option (ℕ × (Callback × Bool))). (x, full_name category name))
              (command_in-inserted category name (callback, false) r.categories i found)),
    )
