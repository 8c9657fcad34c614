-- ===== src/Commands/Aliases.antt =====
-- oxenmq/oxenmq.cpp: aliases do not hide commands.
use oxen_mq.Common.{
  ◌≡◌, refl, sym, ◌∙◌, ap, inl, inr, true, false, not, ◌||◌, List, ◌∷◌, Bytes, bytes_eq,
  eq_of_bytes_eq, is_empty, has_key, Bool-cases, Option-cases, ok, arith, throw_if-ok,
}
use oxen_mq.Pool.{Category}
use oxen_mq.Commands.{
  Registry, has_dot, find_category, full_name, is_some, command_in, add_command_alias, would_mask,
  already_started, empty_alias, invalid_alias, invalid_target, masks_command, duplicate_alias,
  starts_with_dot,
}
use oxen_mq.Commands.Lookup.{IsName, IsNamed, find_category-IsName, split_dot-full_name, ok_inj}

-- No alias has the name of a command.
abbrev pub IsUnmasked : Registry → Type 0
IsUnmasked r =
    (category name : Bytes)
    → is_some (command_in category name r.categories) ≡ true
    → has_key bytes_eq (full_name category name) r.command_aliases ≡ false

command_in-IsName :
    (category name : Bytes) (cs : List Category)
    → IsNamed cs
    → is_some (command_in category name cs) ≡ true
    → IsName category
command_in-IsName category name cs v h = elim (Option-cases (find_category category cs)) [
  | inl n ↦ absurd (ground arith)
  | inr (i, k) ↦ find_category-IsName category cs i v k
]

would_mask-full_name :
    (category name : Bytes) (r : Registry)
    → has_dot category ≡ false
    → would_mask (full_name category name) r ≡ is_some (command_in category name r.categories)
would_mask-full_name category name r h = rw (split_dot-full_name category name h, would_mask) refl

alias-has_key :
    (from to category name : Bytes) (r : Registry)
    → IsNamed r.categories
    → IsUnmasked r
    → would_mask from r ≡ false
    → is_some (command_in category name r.categories) ≡ true
    → has_key bytes_eq (full_name category name) ((from, to) ∷ r.command_aliases) ≡ false
alias-has_key from to category name r v u visible old =
    elim (Bool-cases (bytes_eq from (full_name category name))) [
      | inl same ↦
          let masks : would_mask from r ≡ is_some (command_in category name r.categories) =
            ap (λ (x : Bytes). would_mask x r) (eq_of_bytes_eq from (full_name category name) same)
            ∙ would_mask-full_name category name r
                (command_in-IsName category name r.categories v old).0 in
          let clash : true ≡ false = sym old ∙ sym masks ∙ visible in absurd (cc)
      | inr other ↦ rw (other, has_key) (u category name old)
    ]

-- An alias that `add_command_alias` accepts hides no command.
pub add_command_alias-IsUnmasked :
    (from to : Bytes) (r q : Registry)
    → IsNamed r.categories
    → IsUnmasked r
    → add_command_alias from to r ≡ ok q
    → IsUnmasked q
unfolding add_command_alias
add_command_alias-IsUnmasked from to r q v u e category name h =
    let (_, e1) = throw_if-ok r.started already_started _ q e in
    let (_, e2) = throw_if-ok (is_empty from) empty_alias _ q e1 in
    let (_, e3) = throw_if-ok (starts_with_dot from) invalid_alias _ q e2 in
    let (_, e4) = throw_if-ok (starts_with_dot to || not (has_dot to)) invalid_target _ q e3 in
    let (visible, e5) = throw_if-ok (would_mask from r) masks_command _ q e4 in
    let (_, e6) = throw_if-ok (has_key bytes_eq from r.command_aliases) duplicate_alias _ q e5 in
    let result : q ≡ record r { command_aliases = (from, to) ∷ r.command_aliases } =
      sym (ok_inj e6) in
    let old : is_some (command_in category name r.categories) ≡ true =
      ap (λ (x : Registry). is_some (command_in category name x.categories)) (sym result) ∙ h in
    rw result (alias-has_key from to category name r v u visible old)
