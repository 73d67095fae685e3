-- ===== src/Dedup.antt =====
-- src/dedup.rs: the record of recent deliveries that suppresses the homeserver's retries.
-- The mutex makes each method one step, so a method is a function of the state; `Instant::now()`
-- is an argument, as in the `_at` methods of the source.
pub mod Linked
pub mod Loops
pub mod Invariant
pub mod Window
pub mod History
mod Tests
use pincerbell.Base.{
  ℕ, ◌≡◌, ◌↔◌, ◌&&◌, ap, Bool, true, false, Option, none, some, List, [], ◌∷◌, ◌++◌, String, Eq,
  ◌==◌, if◌then◌else◌, ltb, nat_beq, arith, eq_iff, string_eq,
}
use pincerbell.Time.{Duration, Instant, duration_since, is_zero}
use pincerbell.HashMap
use pincerbell.HashMap.{HashMap}

-- (event_id, app_id, pushkey)
abbrev pub Key : Type 0
Key = String × String × String

unfoldable pub key_beq : Key → Key → Bool
key_beq (e, a, p) (e', a', p') = e == e' && a == a' && p == p'

pub key_beq_iff : (k j : Key) → (key_beq k j ≡ true) ↔ (k ≡ j)
unfolding key_beq
key_beq_iff (e, a, p) (e', a', p') = ground (arith, eq_iff e e', eq_iff a a', eq_iff p p')

instance abbrev pub key_eq : Eq Key
key_eq = record { test = key_beq; test_iff = key_beq_iff }

-- `order` may hold stale entries, for keys that were recorded again later.
pub record Inner : Type 0 where
  pub seen : HashMap Key Instant
  pub order : List (Instant × Key)

pub record DedupCache : Type 0 where
  pub ttl : Duration
  pub max_entries : ℕ
  pub inner : Inner
  pub open inner use *

unfoldable pub new : Duration → ℕ → DedupCache
new ttl max_entries = record {
  ttl = ttl;
  max_entries = max_entries;
  inner = record { seen = HashMap.empty; order = [] };
}

-- A stored time lies within the window.
unfoldable pub is_within : Duration → Instant → Option Instant → Bool
is_within ttl now none = false
is_within ttl now (some t) = ltb (duration_since now t) ttl

unfoldable pub is_duplicate_at : DedupCache → Instant → String → String → String → Bool
unfolding is_within
is_duplicate_at c now event_id app_id pushkey =
    if is_zero c.ttl
    then false
    else is_within c.ttl now (HashMap.get c.seen (event_id, app_id, pushkey))

pub is_at : Option Instant → Instant → Bool
is_at none t = false
is_at (some u) t = nat_beq u t

-- What both loops do with an entry taken off the front: forget the key, unless it is stale.
pub drop_front : HashMap Key Instant → Instant → Key → HashMap Key Instant
unfolding is_at
drop_front seen t key = if is_at (HashMap.get seen key) t then HashMap.remove seen key else seen

-- The expiry loop of `record_at`.
pub expire : Duration → Instant → HashMap Key Instant → List (Instant × Key) → Inner
expire ttl now seen [] = record { seen = seen; order = [] }
expire ttl now seen ((t, key) ∷ rest) =
    if ltb (duration_since now t) ttl
    then record { seen = seen; order = (t, key) ∷ rest }
    else expire ttl now (drop_front seen t key) rest

-- The size cap of `record_at`.
pub evict : ℕ → HashMap Key Instant → List (Instant × Key) → Inner
evict max_entries seen [] = record { seen = seen; order = [] }
evict max_entries seen ((t, key) ∷ rest) =
    if ltb max_entries (HashMap.len seen)
    then evict max_entries (drop_front seen t key) rest
    else record { seen = seen; order = (t, key) ∷ rest }

-- `record_at` behind the expiry loop.
pub insert_new : Duration → ℕ → Instant → Key → Inner → Inner
unfolding is_within
insert_new ttl max_entries now key i =
    if is_within ttl now (HashMap.get i.seen key)
    then i
    else evict max_entries (HashMap.insert i.seen key now) (i.order ++ (now, key) ∷ [])

unfoldable pub record_at : DedupCache → Instant → String → String → String → DedupCache
unfolding insert_new expire evict drop_front
record_at c now event_id app_id pushkey = if is_zero c.ttl then c else record c {
  inner =
      insert_new c.ttl c.max_entries now (event_id, app_id, pushkey)
        (expire c.ttl now c.seen c.order);
}
