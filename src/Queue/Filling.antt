-- ===== src/Queue/Filling.antt =====
-- Inside `enqueue_at`: the entry that is not in the buffer yet.
use pincerbell.Base.{
  ℕ, ◌<◌, ◌≡◌, refl, Option, none, some, List, [], ◌∷◌, ◌++◌, nat_eq, if◌then◌else◌, leb, nat_beq,
  nat_beq_iff, arith, Bool-cases, eq-cases, inl, inr, ◌⊎◌, length,
}
use pincerbell.HashMap
use pincerbell.HashMap.{HashMap}
use pincerbell.Queue.{
  CountKey, count_key_eq, Entry, Inner, is_live, forget_count_key, make_room, index_count,
}
use pincerbell.Queue.Index.{get-forget, forget-not_live}
use pincerbell.Queue.Held.{Leases, find, held, Ids, Apart, IsValid, held-pop, Apart-pop, held-front}

-- The state inside `enqueue_at`, where the index may already name the entry that is not yet in
-- the buffer.
pub record Filling (n : ℕ) (key : Option CountKey) (index : HashMap CountKey ℕ)
    (pending : List Entry) (leased : Leases) : Type 0 where
  pub parts : Apart pending leased
  pub below : (id : ℕ) (e : Entry) → held pending leased id ≡ some e → id < n
  pub indexed :
      (k : CountKey) (id : ℕ)
      → HashMap.get index k ≡ some id
      → ((id ≡ n) × (key ≡ some k))
        ⊎ ((e : Entry) × (held pending leased id ≡ some e) × (e.count_key ≡ some k))

pub drop_forgets :
    (index : HashMap CountKey ℕ) (e : Entry)
    → (if is_live index e then forget_count_key index e else index) ≡ forget_count_key index e
drop_forgets index e = ground (arith, forget-not_live index e)

pub Filling-pop :
    (n : ℕ) (key : Option CountKey) (index : HashMap CountKey ℕ) (e : Entry) (rest : List Entry)
    (leased : Leases)
    → Filling n key index (e ∷ rest) leased
    → Filling n key (forget_count_key index e) rest leased
Filling-pop n key index e rest leased v = record {
  parts = Apart-pop e rest leased v.parts;
  below = λ id x h. v.below id x (ground (arith, held-pop e rest leased id v.parts, h));
  indexed = λ k id h.
      let (old, other) = get-forget index e k id h in
      elim (v.indexed k id old) [
        | inl new ↦ inl new
        | inr (x, here, counted) ↦ inr (
          x,
          ground (
            arith,
            held-pop e rest leased id v.parts,
            held-front e rest leased,
            here,
            counted,
            other,
            nat_beq_iff e.id id,
          ),
          counted,
        )
      ];
}

pub make_room-Filling :
    (max_entries n : ℕ) (key : Option CountKey) (index : HashMap CountKey ℕ) (pending : List Entry)
    (leased : Leases)
    → Filling n key index pending leased
    → Filling n key
        (make_room max_entries index pending).0
        (make_room max_entries index pending).1
        leased
unfolding make_room
make_room-Filling m n key index [] leased v = v
make_room-Filling m n key index (e ∷ rest) leased v =
    elim (Bool-cases (leb m (length (e ∷ rest)))) [
      | inl full ↦
          rw (full, drop_forgets index e)
            (make_room-Filling m n key (forget_count_key index e) rest leased
              (Filling-pop n key index e rest leased v))
      | inr fits ↦ rw fits v
    ]

find-append :
    (id : ℕ) (l : List Entry) (e : Entry)
    → find id (l ++ e ∷ [])
      ≡ elim (find id l) [ some x ↦ some x | none ↦ if nat_beq e.id id then some e else none ]
unfolding find
find-append id [] e = refl
find-append id (x ∷ rest) e = ground (arith, find-append id rest e)

Ids-append : (l : List Entry) (e : Entry) → find e.id l ≡ none → Ids l → Ids (l ++ e ∷ [])
unfolding find
Ids-append [] e fresh v = (refl, tt)
Ids-append (x ∷ rest) e fresh v = (
  ground (arith, find-append x.id rest e, fresh, v.0, nat_beq_iff e.id x.id, nat_beq_iff x.id e.id),
  Ids-append rest e (ground (arith, fresh)) v.1,
)

-- An entry with a new id at the back is held, and all else is as before.
pub held-append :
    (l : List Entry) (e : Entry) (leased : Leases) (j : ℕ)
    → held l leased e.id ≡ none
    → held (l ++ e ∷ []) leased j ≡ (if nat_beq e.id j then some e else held l leased j)
unfolding held
held-append l e leased j fresh = ground (arith, find-append j l e, fresh, nat_beq_iff e.id j)

pub Apart-append :
    (l : List Entry) (e : Entry) (leased : Leases)
    → held l leased e.id ≡ none
    → Apart l leased
    → Apart (l ++ e ∷ []) leased
unfolding held
Apart-append l e leased fresh v = record {
  distinct = Ids-append l e (ground (arith, fresh)) v.distinct;
  apart = λ j. ground (arith, find-append j l e, fresh, v.apart j, nat_beq_iff e.id j);
  keyed = v.keyed;
  leased_distinct = v.leased_distinct;
}

pub index-Filling :
    (i : Inner) (key : Option CountKey)
    → IsValid i
    → Filling i.next_id key (index_count i.count_index key i.next_id) i.pending i.leased
unfolding index_count
index-Filling i none v = record {
  parts = v.parts;
  below = v.below;
  indexed = λ k id h. inr (v.indexed k id h);
}
index-Filling i (some j) v = record {
  parts = v.parts;
  below = v.below;
  indexed = λ k id h. elim (eq-cases {A = CountKey} j k) [
    | inl same ↦ inl (
        ground (
          arith,
          h,
          HashMap.get-insert i.count_index j k i.next_id,
          count_key_eq.test_iff j k,
          same,
        ))
    | inr other ↦
        inr (
          v.indexed k id (ground (arith, h, HashMap.get-insert i.count_index j k i.next_id, other)))
  ];
}
