-- ===== src/HashMap/Laws.antt =====
-- What a client of a hash map relies on.
use pincerbell.Base.{
  ◌+◌, ◌≤◌, ◌≡◌, refl, Eq, ◌==◌, none, some, [], ◌∷◌, false, if◌then◌else◌, arith, eq_self,
}
use pincerbell.HashMap.Defs.{HashMap, Distinct, get, remove, insert, len}

module _ {ℓ κ} {K : Type ℓ} {V : Type κ} ⦃e : Eq K⦄ where
  pub get-remove :
      (m : HashMap K V) (k j : K) → get (remove m k) j ≡ (if k == j then none else get m j)
  unfolding get remove
  get-remove [] k j = ground arith
  get-remove ((i, v) ∷ m) k j =
      ground (arith, get-remove m k j, e.test_iff i k, e.test_iff i j, e.test_iff k j)

  pub get-insert :
      (m : HashMap K V) (k j : K) (v : V)
      → get (insert m k v) j ≡ (if k == j then some v else get m j)
  unfolding get insert
  get-insert m k j v = ground (arith, get-remove m k j)

  pub remove-Distinct : (m : HashMap K V) (k : K) → Distinct m → Distinct (remove m k)
  unfolding remove
  remove-Distinct [] k d = tt
  remove-Distinct ((i, v) ∷ m) k d = ground (arith, remove-Distinct m k d.1, get-remove m k i)

  pub insert-Distinct : (m : HashMap K V) (k : K) (v : V) → Distinct m → Distinct (insert m k v)
  unfolding insert
  insert-Distinct m k v d = ground (arith, get-remove m k k, eq_self k, remove-Distinct m k d)

  pub len-remove-le : (m : HashMap K V) (k : K) → len (remove m k) ≤ len m
  unfolding len remove
  len-remove-le [] k = omega arith
  len-remove-le ((i, v) ∷ m) k = ground (arith, len-remove-le m k)

  pub len-insert-le : (m : HashMap K V) (k : K) (v : V) → len (insert m k v) ≤ len m + 1
  unfolding len insert
  len-insert-le m k v = omega (arith, len-remove-le m k)

  pub len-all_none : (m : HashMap K V) → ((j : K) → get m j ≡ none) → len m ≡ 0
  unfolding len get
  len-all_none [] h = refl
  len-all_none ((k, v) ∷ m) h = ground (arith, h k, eq_self k)

  -- A map whose keys are all `k` holds one entry at most.
  pub len-single :
      (m : HashMap K V) (k : K)
      → Distinct m
      → ((j : K) → (k == j) ≡ false → get m j ≡ none)
      → len m ≤ 1
  unfolding len get
  len-single [] k d h = omega arith
  len-single ((i, v) ∷ m) k d h = omega (
    arith,
    len-all_none m (λ j.
        ground (arith, h j, h i, d.0, e.test_iff k i, e.test_iff k j, e.test_iff i j, eq_self i)),
  )
