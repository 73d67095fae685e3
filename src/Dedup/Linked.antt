-- ===== src/Dedup/Linked.antt =====
-- The link between `seen` and `order` that the loops of `record_at` keep, whatever the clock says.
use pincerbell.Base.{
  ℕ, ◌≤◌, ◌<◌, ◌≡◌, refl, ◌∙◌, true, ltb_false→le, le→ltb_false, Option, none, some, List, [], ◌∷◌,
  ◌++◌, ◌==◌, inl, inr, if◌then◌else◌, ltb, arith, Bool-cases, Option-cases, eq_self,
}
use pincerbell.Time.{Duration, Instant, duration_since}
use pincerbell.HashMap
use pincerbell.HashMap.{HashMap}
use pincerbell.Dedup.{Key, key_eq, is_at, drop_front, expire, evict}

-- The time of the last entry of a key.
pub last_time : Key → List (Instant × Key) → Option Instant
last_time k [] = none
last_time k ((t, j) ∷ rest) = elim (last_time k rest) [
  | some u ↦ some u
  | none ↦ if j == k then some t else none
]

-- The entries of each key stand in the order of their times.
abbrev pub Increasing : List (Instant × Key) → Type 0
Increasing [] = Unit
Increasing ((t, j) ∷ rest) = ((u : Instant) → last_time j rest ≡ some u → t < u) × Increasing rest

pub record Linked (seen : HashMap Key Instant) (order : List (Instant × Key)) : Type 0 where
  pub agrees : (k : Key) → HashMap.get seen k ≡ last_time k order
  pub increasing : Increasing order
  pub distinct : HashMap.Distinct seen

pub Linked-empty : Linked HashMap.empty []
unfolding HashMap.get last_time
Linked-empty = record { agrees = λ k. refl; increasing = tt; distinct = tt }

module _ (seen : HashMap Key Instant) (t : Instant) (k : Key) (rest : List (Instant × Key)) where
  drop_front-agrees :
      Linked seen ((t, k) ∷ rest)
      → (j : Key) → HashMap.get (drop_front seen t k) j ≡ last_time j rest
  unfolding drop_front is_at last_time
  drop_front-agrees h j = elim (Option-cases (last_time k rest)) [
    | inl none_left ↦ ground (
      arith,
      none_left,
      h.agrees k,
      h.agrees j,
      HashMap.get-remove seen k j,
      key_eq.test_iff k j,
      eq_self k,
    )
    | inr (u, later) ↦
        ground (arith, later, h.increasing.0 u later, h.agrees k, h.agrees j, key_eq.test_iff k j)
  ]

  pub drop_front-Linked : Linked seen ((t, k) ∷ rest) → Linked (drop_front seen t k) rest
  unfolding drop_front
  drop_front-Linked h = record {
    agrees = drop_front-agrees h;
    increasing = h.increasing.1;
    distinct = ground (arith, HashMap.remove-Distinct seen k h.distinct);
  }

pub expire-Linked :
    (ttl : Duration) (now : Instant) (seen : HashMap Key Instant) (order : List (Instant × Key))
    → Linked seen order
    → Linked (expire ttl now seen order).seen (expire ttl now seen order).order
unfolding expire
expire-Linked ttl now seen [] h = h
expire-Linked ttl now seen ((t, k) ∷ rest) h = elim (Bool-cases (ltb (duration_since now t) ttl)) [
  | inl fresh ↦ rw fresh h
  | inr old ↦
      rw old (expire-Linked ttl now (drop_front seen t k) rest (drop_front-Linked seen t k rest h))
]

pub evict-Linked :
    (max_entries : ℕ) (seen : HashMap Key Instant) (order : List (Instant × Key))
    → Linked seen order
    → Linked (evict max_entries seen order).seen (evict max_entries seen order).order
unfolding evict
evict-Linked n seen [] h = h
evict-Linked n seen ((t, k) ∷ rest) h = elim (Bool-cases (ltb n (HashMap.len seen))) [
  | inl full ↦
      rw full (evict-Linked n (drop_front seen t k) rest (drop_front-Linked seen t k rest h))
  | inr fits ↦ rw fits h
]

pub last_time-append :
    (j k : Key) (now : Instant) (order : List (Instant × Key))
    → last_time j (order ++ (now, k) ∷ []) ≡ (if k == j then some now else last_time j order)
unfolding last_time
last_time-append j k now [] = refl
last_time-append j k now ((t, i) ∷ rest) = ground (arith, last_time-append j k now rest)

front_older :
    (k j : Key) (t now : Instant) (rest : List (Instant × Key))
    → ((u : Instant) → last_time k ((t, j) ∷ rest) ≡ some u → u < now)
    → ((u : Instant) → last_time j rest ≡ some u → t < u)
    → (k == j) ≡ true
    → t < now
unfolding last_time
front_older k j t now rest older h same = elim (Option-cases (last_time k rest)) [
  | inl absent ↦ ground (arith, absent, older t, key_eq.test_iff k j, key_eq.test_iff j k)
  | inr (x, later) ↦ ground (arith, later, older x, h x, key_eq.test_iff k j)
]

Increasing-append :
    (k : Key) (now : Instant) (order : List (Instant × Key))
    → ((u : Instant) → last_time k order ≡ some u → u < now)
    → Increasing order
    → Increasing (order ++ (now, k) ∷ [])
unfolding last_time
Increasing-append k now [] older h = (λ u e. cc, tt)
Increasing-append k now ((t, j) ∷ rest) older h = (
  λ u e.
      ground (arith, e, last_time-append j k now rest, h.0 u, front_older k j t now rest older h.0),
  Increasing-append k now rest (λ u e. older u (ground (arith, e))) h.1,
)

pub insert-Linked :
    (seen : HashMap Key Instant) (order : List (Instant × Key)) (k : Key) (now : Instant)
    → ((u : Instant) → HashMap.get seen k ≡ some u → u < now)
    → Linked seen order
    → Linked (HashMap.insert seen k now) (order ++ (now, k) ∷ [])
insert-Linked seen order k now older h = record {
  agrees = λ j.
      ground (arith, HashMap.get-insert seen k j now, last_time-append j k now order, h.agrees j);
  increasing = Increasing-append k now order (λ u e. older u (h.agrees k ∙ e)) h.increasing;
  distinct = HashMap.insert-Distinct seen k now h.distinct;
}

-- The size cap holds behind its loop.
pub evict-len :
    (max_entries : ℕ) (seen : HashMap Key Instant) (order : List (Instant × Key))
    → Linked seen order
    → HashMap.len (evict max_entries seen order).seen ≤ max_entries
unfolding evict last_time
evict-len n seen [] h = omega (arith, HashMap.len-all_none seen (λ j. h.agrees j))
evict-len n seen ((t, k) ∷ rest) h = elim (Bool-cases (ltb n (HashMap.len seen))) [
  | inl full ↦ rw full (evict-len n (drop_front seen t k) rest (drop_front-Linked seen t k rest h))
  | inr fits ↦ rw fits (ltb_false→le n (HashMap.len seen) fits)
]

-- The loop stops in front of the entry that was just recorded.
pub get-evict_last :
    (max_entries : ℕ) (seen : HashMap Key Instant) (order : List (Instant × Key)) (k : Key)
    (now : Instant)
    → 0 < max_entries
    → Linked seen (order ++ (now, k) ∷ [])
    → HashMap.get (evict max_entries seen (order ++ (now, k) ∷ [])).seen k ≡ some now
unfolding evict last_time
get-evict_last n seen [] k now pos h =
    rw (le→ltb_false n (HashMap.len seen) (omega (arith, single)))
      (h.agrees k ∙ ground (arith, eq_self k))
  where
    single : HashMap.len seen ≤ 1
    single = HashMap.len-single seen k h.distinct (λ j e. h.agrees j ∙ ground (arith, e))
get-evict_last n seen ((t, j) ∷ rest) k now pos h = elim (Bool-cases (ltb n (HashMap.len seen))) [
  | inl full ↦
      rw full
        (get-evict_last n (drop_front seen t j) rest k now pos (drop_front-Linked seen t j _ h))
  | inr fits ↦ rw fits (h.agrees k ∙ rw (last_time-append k k now rest, eq_self k))
]
