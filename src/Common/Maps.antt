-- ===== src/Common/Maps.antt =====
-- Maps as association lists: `std::map`, `std::unordered_map` and the multimap of peers. The order of
-- the list is the order of iteration, which the sources do not rely on.
use mathlib.Core.Bool.{Bool, true, false}
use mathlib.Core.List.{List, [], ◌∷◌}
use mathlib.Core.Option.{Option, none, some}

module _ {ℓ κ} {K : Type ℓ} {V : Type κ} (eq : K → K → Bool) where
  abbrev pub find : K → List (K × V) → Option V
  find k [] = none
  find k (e ∷ es) = elim (eq e.0 k) [ true ↦ some e.1 | false ↦ find k es ]

  -- All the entries of a key go.
  abbrev pub erase : K → List (K × V) → List (K × V)
  erase k [] = []
  erase k (e ∷ es) = elim (eq e.0 k) [ true ↦ erase k es | false ↦ e ∷ erase k es ]

  abbrev pub has_key : K → List (K × V) → Bool
  has_key k [] = false
  has_key k (e ∷ es) = elim (eq e.0 k) [ true ↦ true | false ↦ has_key k es ]

  -- Changes the first entry of a key.
  abbrev pub update : K → (V → V) → List (K × V) → List (K × V)
  update k f [] = []
  update k f (e ∷ es) = elim (eq e.0 k) [ true ↦ (e.0, f e.1) ∷ es | false ↦ e ∷ update k f es ]
