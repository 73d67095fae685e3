-- ===== src/Dedup/Loops.antt =====
-- What the two loops of `record_at` do to the stored times.
use pincerbell.Base.{ℕ, ◌≤◌, ◌≡◌, refl, ◌⊎◌, none, some, List, [], ◌∷◌, inl, arith}
use pincerbell.Time.{Duration, Instant}
use pincerbell.HashMap
use pincerbell.HashMap.{HashMap}
use pincerbell.Dedup.{Key, key_eq, is_within, is_at, drop_front, expire, evict}

drop_front_cases :
    (seen : HashMap Key Instant) (t : Instant) (k j : Key)
    → (HashMap.get (drop_front seen t k) j ≡ HashMap.get seen j)
      ⊎ ((HashMap.get (drop_front seen t k) j ≡ none) × (HashMap.get seen j ≡ some t))
unfolding drop_front is_at
drop_front_cases seen t k j = ground (arith, HashMap.get-remove seen k j, key_eq.test_iff k j)

len-drop_front-le :
    (seen : HashMap Key Instant) (t : Instant) (k : Key)
    → HashMap.len (drop_front seen t k) ≤ HashMap.len seen
unfolding drop_front
len-drop_front-le seen t k = ground (arith, HashMap.len-remove-le seen k)

-- The expiry loop removes no time that is within the window, now or later.
pub is_within-expire :
    (ttl : Duration) (now later : Instant) (seen : HashMap Key Instant)
    (order : List (Instant × Key)) (j : Key)
    → now ≤ later
    → is_within ttl later (HashMap.get (expire ttl now seen order).seen j)
      ≡ is_within ttl later (HashMap.get seen j)
unfolding expire is_within
is_within-expire ttl now later seen [] j h = refl
is_within-expire ttl now later seen ((t, k) ∷ rest) j h = ground (
  arith,
  is_within-expire ttl now later (drop_front seen t k) rest j h,
  drop_front_cases seen t k j,
)

pub get-expire :
    (ttl : Duration) (now : Instant) (seen : HashMap Key Instant) (order : List (Instant × Key))
    (j : Key)
    → (HashMap.get (expire ttl now seen order).seen j ≡ HashMap.get seen j)
      ⊎ (HashMap.get (expire ttl now seen order).seen j ≡ none)
unfolding expire
get-expire ttl now seen [] j = inl refl
get-expire ttl now seen ((t, k) ∷ rest) j =
    ground (arith, get-expire ttl now (drop_front seen t k) rest j, drop_front_cases seen t k j)

pub len-expire-le :
    (ttl : Duration) (now : Instant) (seen : HashMap Key Instant) (order : List (Instant × Key))
    → HashMap.len (expire ttl now seen order).seen ≤ HashMap.len seen
unfolding expire
len-expire-le ttl now seen [] = omega arith
len-expire-le ttl now seen ((t, k) ∷ rest) =
    ground (arith, len-expire-le ttl now (drop_front seen t k) rest, len-drop_front-le seen t k)

-- The size cap only ever removes times.
pub get-evict :
    (max_entries : ℕ) (seen : HashMap Key Instant) (order : List (Instant × Key)) (j : Key)
    → (HashMap.get (evict max_entries seen order).seen j ≡ HashMap.get seen j)
      ⊎ (HashMap.get (evict max_entries seen order).seen j ≡ none)
unfolding evict
get-evict n seen [] j = inl refl
get-evict n seen ((t, k) ∷ rest) j =
    ground (arith, get-evict n (drop_front seen t k) rest j, drop_front_cases seen t k j)

-- It removes nothing where there is room.
pub evict_room :
    (max_entries : ℕ) (seen : HashMap Key Instant) (order : List (Instant × Key))
    → HashMap.len seen ≤ max_entries
    → (evict max_entries seen order).seen ≡ seen
unfolding evict
evict_room n seen [] h = refl
evict_room n seen ((t, k) ∷ rest) h = ground arith
