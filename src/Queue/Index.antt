-- ===== src/Queue/Index.antt =====
-- The count index: what `forget_count_key` changes.
use pincerbell.Base.{ℕ, ◌≡◌, ◌≢◌, true, false, some, nat_beq_iff, arith, Option-cases, inl, inr}
use pincerbell.HashMap
use pincerbell.HashMap.{HashMap}
use pincerbell.Queue.{CountKey, count_key_eq, Entry, owns, is_live, forget_count_key}

module _ (index : HashMap CountKey ℕ) (e : Entry) where
  -- Forgetting one entry leaves the others live.
  pub is_live-forget_ne :
      (x : Entry) → e.id ≢ x.id → is_live (forget_count_key index e) x ≡ is_live index x
  unfolding is_live forget_count_key owns
  is_live-forget_ne x ne = elim (Option-cases e.count_key) [
    | inl plain ↦ ground (arith, plain)
    | inr (k, counted) ↦ elim (Option-cases x.count_key) [
      | inl plain ↦ ground (arith, plain)
      | inr (j, other) ↦
          ground (arith, counted, other, HashMap.get-remove index k j, count_key_eq.test_iff k j)
    ]
  ]

  -- A superseded entry has nothing to forget.
  pub forget-not_live : is_live index e ≡ false → forget_count_key index e ≡ index
  unfolding is_live forget_count_key owns
  forget-not_live h = ground arith

  -- What stays in the index was there, and is not the forgotten entry.
  pub get-forget :
      (k : CountKey) (id : ℕ)
      → HashMap.get (forget_count_key index e) k ≡ some id
      → (HashMap.get index k ≡ some id) × ((e.id ≡ id) × (e.count_key ≡ some k) → ⊥)
  unfolding forget_count_key owns
  get-forget k id h = elim (Option-cases e.count_key) [
    | inl plain ↦ (ground (arith, plain), λ c. ground (arith, plain))
    | inr (j, counted) ↦ (
      ground (arith, counted, HashMap.get-remove index j k, count_key_eq.test_iff j k),
      λ c. ground (arith, counted, HashMap.get-remove index j k, count_key_eq.test_iff j k),
    )
  ]

  -- Forgetting makes no entry live.
  pub is_live-forget :
      (x : Entry) → is_live (forget_count_key index e) x ≡ true → is_live index x ≡ true
  unfolding is_live owns
  is_live-forget x h = elim (Option-cases x.count_key) [
    | inl plain ↦ ground (arith, plain)
    | inr (k, counted) ↦ ground (arith, counted, h, get-forget k x.id, nat_beq_iff x.id x.id)
  ]
