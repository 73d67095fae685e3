-- ===== src/Queue/Held.antt =====
-- The entries that the queue holds, pending or leased, and the invariant that ties its parts.
use pincerbell.Base.{
  ℕ, ◌<◌, ◌≡◌, Option, none, some, List, [], ◌∷◌, nat_eq, if◌then◌else◌, nat_beq, nat_beq_iff,
  arith, Option-cases, inl, inr, ◌⊎◌,
}
use pincerbell.Time.{Instant}
use pincerbell.HashMap
use pincerbell.HashMap.{HashMap}
use pincerbell.Queue.{CountKey, count_key_eq, Entry, Inner}

abbrev pub Leases : Type 0
Leases = HashMap ℕ (Instant × Entry)

unfoldable pub find : ℕ → List Entry → Option Entry
find id [] = none
find id (e ∷ rest) = if nat_beq e.id id then some e else find id rest

abbrev pub entry_of : Option (Instant × Entry) → Option Entry
entry_of none = none
entry_of (some (d, e)) = some e

-- The entry of an id.
unfoldable pub held : List Entry → Leases → ℕ → Option Entry
unfolding find
held pending leased id = elim (find id pending) [
  | some e ↦ some e
  | none ↦ entry_of (HashMap.get leased id)
]

-- No id stands twice in the buffer.
abbrev pub Ids : List Entry → Type 0
Ids [] = Unit
Ids (e ∷ rest) = (find e.id rest ≡ none) × Ids rest

pub record Apart (pending : List Entry) (leased : Leases) : Type 0 where
  pub distinct : Ids pending
  pub apart : (id : ℕ) → (find id pending ≡ none) ⊎ (HashMap.get leased id ≡ none)
  pub keyed : (id : ℕ) (d : Instant) (e : Entry) → HashMap.get leased id ≡ some (d, e) → e.id ≡ id
  pub leased_distinct : HashMap.Distinct leased

pub record IsValid (i : Inner) : Type 0 where
  pub parts : Apart i.pending i.leased
  pub below : (id : ℕ) (e : Entry) → held i.pending i.leased id ≡ some e → id < i.next_id
  pub indexed :
      (k : CountKey) (id : ℕ)
      → HashMap.get i.count_index k ≡ some id
      → (e : Entry) × (held i.pending i.leased id ≡ some e) × (e.count_key ≡ some k)

pub find-id : (id : ℕ) (l : List Entry) (e : Entry) → find id l ≡ some e → e.id ≡ id
unfolding find
find-id id [] e h = cc
find-id id (x ∷ rest) e h = ground (arith, find-id id rest e)

pub held-id :
    {pending : List Entry} {leased : Leases} (id : ℕ) (e : Entry)
    → Apart pending leased
    → held pending leased id ≡ some e
    → e.id ≡ id
unfolding held
held-id {pending} {leased} id e v h = elim (Option-cases (find id pending)) [
  | inr (x, found) ↦ ground (arith, found, find-id id pending x found)
  | inl absent ↦ elim (Option-cases (HashMap.get leased id)) [
    | inl none_left ↦ absurd (ground (arith, absent, none_left))
    | inr ((d, x), lent) ↦ ground (arith, absent, lent, v.keyed id d x lent)
  ]
]

-- The front entry of the buffer is in no other place.
pub held-pop :
    (e : Entry) (rest : List Entry) (leased : Leases) (id : ℕ)
    → Apart (e ∷ rest) leased
    → held rest leased id ≡ (if nat_beq e.id id then none else held (e ∷ rest) leased id)
unfolding held find
held-pop e rest leased id v = ground (arith, v.distinct.0, v.apart e.id, nat_beq_iff e.id id)

pub Apart-pop :
    (e : Entry) (rest : List Entry) (leased : Leases) → Apart (e ∷ rest) leased → Apart rest leased
unfolding find
Apart-pop e rest leased v = record {
  distinct = v.distinct.1;
  apart = λ id. ground (arith, v.apart id);
  keyed = v.keyed;
  leased_distinct = v.leased_distinct;
}

-- A new front entry, with an id that is nowhere yet.
pub Apart-push :
    (e : Entry) (pending : List Entry) (leased : Leases)
    → held pending leased e.id ≡ none
    → Apart pending leased
    → Apart (e ∷ pending) leased
unfolding find held
Apart-push e pending leased fresh v = record {
  distinct = (ground (arith, fresh), v.distinct);
  apart = λ id. ground (arith, fresh, v.apart id, nat_beq_iff e.id id);
  keyed = v.keyed;
  leased_distinct = v.leased_distinct;
}

pub held-remove :
    (pending : List Entry) (leased : Leases) (id : ℕ) (d : Instant) (e : Entry) (j : ℕ)
    → HashMap.get leased id ≡ some (d, e)
    → Apart pending leased
    → held pending (HashMap.remove leased id) j
      ≡ (if nat_beq id j then none else held pending leased j)
unfolding held
held-remove pending leased id d e j lent v =
    ground (arith, lent, HashMap.get-remove leased id j, v.apart id, nat_beq_iff id j)

pub Apart-remove :
    (pending : List Entry) (leased : Leases) (id : ℕ)
    → Apart pending leased
    → Apart pending (HashMap.remove leased id)
Apart-remove pending leased id v = record {
  distinct = v.distinct;
  apart = λ j. ground (arith, v.apart j, HashMap.get-remove leased id j);
  keyed = λ j d e h. ground (arith, v.keyed j d e, HashMap.get-remove leased id j);
  leased_distinct = HashMap.remove-Distinct leased id v.leased_distinct;
}

-- A lease for an entry that is nowhere else.
pub Apart-insert :
    (pending : List Entry) (leased : Leases) (d : Instant) (e : Entry)
    → find e.id pending ≡ none
    → Apart pending leased
    → Apart pending (HashMap.insert leased e.id (d, e))
Apart-insert pending leased d e fresh v = record {
  distinct = v.distinct;
  apart = λ j.
      ground (arith, fresh, v.apart j, HashMap.get-insert leased e.id j (d, e), nat_beq_iff e.id j);
  keyed = λ j d' e' h.
      ground (arith, v.keyed j d' e', HashMap.get-insert leased e.id j (d, e), nat_beq_iff e.id j);
  leased_distinct = HashMap.insert-Distinct leased e.id (d, e) v.leased_distinct;
}

-- Moving the front entry of the buffer into a lease leaves it held.
pub held-lend :
    (e : Entry) (rest : List Entry) (leased : Leases) (d : Instant) (j : ℕ)
    → Apart (e ∷ rest) leased
    → held rest (HashMap.insert leased e.id (d, e)) j ≡ held (e ∷ rest) leased j
unfolding held find
held-lend e rest leased d j v =
    ground (arith, v.distinct.0, HashMap.get-insert leased e.id j (d, e), nat_beq_iff e.id j)

-- The reverse of that, for a lease that has run out.
pub held-requeue :
    (pending : List Entry) (leased : Leases) (id : ℕ) (d : Instant) (e : Entry) (j : ℕ)
    → HashMap.get leased id ≡ some (d, e)
    → Apart pending leased
    → held (e ∷ pending) (HashMap.remove leased id) j ≡ held pending leased j
unfolding held find
held-requeue pending leased id d e j lent v = ground (
  arith,
  lent,
  v.keyed id d e,
  HashMap.get-remove leased id j,
  v.apart id,
  nat_beq_iff id j,
  nat_beq_iff e.id j,
)

pub held-front :
    (e : Entry) (rest : List Entry) (leased : Leases) → held (e ∷ rest) leased e.id ≡ some e
unfolding held find
held-front e rest leased = ground arith

pub held-lent :
    (pending : List Entry) (leased : Leases) (id : ℕ) (d : Instant) (e : Entry)
    → HashMap.get leased id ≡ some (d, e)
    → Apart pending leased
    → held pending leased id ≡ some e
unfolding held
held-lent pending leased id d e lent v = ground (arith, lent, v.apart id)

pub held-found :
    (pending : List Entry) (leased : Leases) (id : ℕ) (e : Entry)
    → find id pending ≡ some e
    → held pending leased id ≡ some e
unfolding held
held-found pending leased id e h = ground (arith, h)

-- With an empty buffer, what is held is leased.
pub held-nil :
    (leased : Leases) (id : ℕ) (e : Entry)
    → held [] leased id ≡ some e
    → (d : Instant) × (HashMap.get leased id ≡ some (d, e))
unfolding held find
held-nil leased id e h = elim (Option-cases (HashMap.get leased id)) [
  | inl absent ↦ absurd (ground (arith, absent))
  | inr ((d, x), lent) ↦ (d, ground (arith, lent))
]
