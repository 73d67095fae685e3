-- ===== src/Dedup/Tests.antt =====
-- The cache on concrete inputs.
use pincerbell.Base.{
  ◌-◌, ◌<◌, ◌≡◌, refl, true, false, none, [], ◌∷◌, if◌then◌else◌, ltb, arith, Any,
}
use pincerbell.Time.{Instant}
use pincerbell.HashMap
use pincerbell.Dedup.{
  key_beq, key_eq, DedupCache, new, is_within, is_duplicate_at, is_at, drop_front, expire, evict,
  insert_new, record_at,
}
use pincerbell.Dedup.Invariant.{IsValid, new-IsValid, record_at-IsValid}
use pincerbell.Dedup.Window.{is_duplicate_at-record_at_self}
use pincerbell.Dedup.History.{History, run, ideal, run-new-ideal, is_duplicate_at-run}

abbrev cache : DedupCache
cache = record_at (new 300 2) 10 "e1" "app" "k1"

cache-IsValid : IsValid cache
cache-IsValid = record_at-IsValid (new 300 2) 10 "e1" "app" "k1" (new-IsValid 300 2)

is_duplicate_at-record_at_self_example :
    is_duplicate_at (record_at cache 20 "e2" "app" "k1") 25 "e2" "app" "k1" ≡ (
      if is_duplicate_at cache 20 "e2" "app" "k1"
      then is_duplicate_at cache 25 "e2" "app" "k1"
      else ltb (25 - 20) cache.ttl)
unfolding new record_at
is_duplicate_at-record_at_self_example =
    is_duplicate_at-record_at_self cache 20 25 "e2" "app" "k1" cache-IsValid refl (omega arith)
      (omega arith)

abbrev recordings : History
recordings = (10, ("e1", "app", "k1")) ∷ (20, ("e1", "app", "k1")) ∷ (30, ("e2", "app", "k1")) ∷ []

run-new-ideal_example :
    is_duplicate_at (run (new 15 3) recordings) 31 "e1" "app" "k1"
    ≡ is_within 15 31 (ideal 15 (λ k. none) recordings ("e1", "app", "k1"))
run-new-ideal_example =
    run-new-ideal 15 3 recordings 31 "e1" "app" "k1" (omega arith) (omega arith)
      (omega arith, (omega arith, (omega arith, tt))) (omega arith)

suppressed : is_duplicate_at (run (new 300 3) recordings) 31 "e1" "app" "k1" ≡ true
unfolding run new record_at is_duplicate_at insert_new expire evict drop_front is_at is_within
    HashMap.insert HashMap.get HashMap.remove HashMap.len key_beq
suppressed = refl

is_duplicate_at-run_example :
    (t : Instant) × Any (λ x. x ≡ (t, ("e1", "app", "k1"))) recordings × (31 - t < 300)
is_duplicate_at-run_example = is_duplicate_at-run 300 3 recordings 31 "e1" "app" "k1" suppressed

-- The anchor of a window stays where it was: the second recording does not extend it.
not_extended : is_duplicate_at (run (new 15 3) recordings) 31 "e1" "app" "k1" ≡ false
unfolding run new record_at is_duplicate_at insert_new expire evict drop_front is_at is_within
    HashMap.insert HashMap.get HashMap.remove HashMap.len key_beq
not_extended = refl
