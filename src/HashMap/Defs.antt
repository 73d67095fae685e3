-- ===== src/HashMap/Defs.antt =====
-- The operations of a hash map.
use pincerbell.Base.{ℕ, ◌≡◌, Eq, ◌==◌, Option, none, some, List, [], ◌∷◌, if◌then◌else◌, length}

abbrev pub HashMap {ℓ κ} : Type ℓ → Type κ → Type (ℓ ⊔ κ)
HashMap K V = List (K × V)

abbrev pub empty {ℓ κ} : {K : Type ℓ} {V : Type κ} → HashMap K V
empty = []

module _ {ℓ κ} {K : Type ℓ} {V : Type κ} ⦃e : Eq K⦄ where
  unfoldable pub get : HashMap K V → K → Option V
  get [] j = none
  get ((k, v) ∷ m) j = if k == j then some v else get m j

  unfoldable pub remove : HashMap K V → K → HashMap K V
  remove [] j = []
  remove ((k, v) ∷ m) j = let rest = remove m j in if k == j then rest else (k, v) ∷ rest

  unfoldable pub insert : HashMap K V → K → V → HashMap K V
  insert m k v = (k, v) ∷ remove m k

  -- No key stands twice, so that the size is the number of keys.
  abbrev pub Distinct : HashMap K V → Type κ
  Distinct [] = Unit
  Distinct ((k, v) ∷ m) = (get m k ≡ none) × Distinct m

unfoldable pub len {ℓ κ} : {K : Type ℓ} {V : Type κ} → HashMap K V → ℕ
len m = length m
