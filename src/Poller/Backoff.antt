-- ===== src/Poller/Backoff.antt =====
-- How long the poll loop waits between failures.
use pincerbell.Base.{
  ℕ, suc, ◌+◌, ◌^◌, ◌≤◌, ◌≡◌, ◌∙◌, ap, refl, List, [], ◌∷◌, ◌++◌, Result, ok, err, if◌then◌else◌,
  ltb, arith, length,
}
use Prim.Native.Nat.pow
use pincerbell.Time.{Duration, from_secs}
use pincerbell.Poller.{Failure, back_off, back_offs}

-- The first backoff doubled `k` times, and cut at a minute.
pub capped : ℕ → Duration
capped k = if ltb (from_secs 60) (from_secs (2 ^ k)) then from_secs 60 else from_secs (2 ^ k)

pub failures : List Failure → List (Result ℕ Failure)
failures [] = []
failures (e ∷ es) = err e ∷ failures es

pub capped-zero : from_secs 1 ≡ capped 0
unfolding capped
capped-zero = refl

-- One more failure.
pub capped-suc : (k : ℕ) (e : Failure) → (back_off (capped k) (err e)).1 ≡ capped (suc k)
unfolding back_off capped
capped-suc k e = ground (arith, pow.suc 2 k)

back_offs-failures :
    (k : ℕ) (es : List Failure) → back_offs (capped k) (failures es) ≡ capped (k + length es)
unfolding back_offs failures
back_offs-failures k [] = ap capped (omega arith)
back_offs-failures k (e ∷ es) =
    ap (λ b. back_offs b (failures es)) (capped-suc k e)
    ∙ back_offs-failures (suc k) es
    ∙ ap capped (omega arith)

back_offs-append :
    (b : Duration) (rs qs : List (Result ℕ Failure))
    → back_offs b (rs ++ qs) ≡ back_offs (back_offs b rs) qs
unfolding back_offs
back_offs-append b [] qs = refl
back_offs-append b (r ∷ rs) qs = back_offs-append (back_off b r).1 rs qs

-- Whatever came before, a number of failures in a row after a success make the backoff a second
-- doubled that many times, cut at a minute.
back_offs_after_ok :
    (backoff : Duration) (before : List (Result ℕ Failure)) (fetched : ℕ) (es : List Failure)
    → back_offs backoff (before ++ ok fetched ∷ failures es) ≡ capped (length es)
unfolding back_offs back_off capped
back_offs_after_ok backoff before fetched es =
    back_offs-append backoff before (ok fetched ∷ failures es)
    ∙ back_offs-failures 0 es
    ∙ ap capped (omega arith)

back_offs_within :
    (rs : List (Result ℕ Failure)) (b : Duration)
    → from_secs 1 ≤ b
    → b ≤ from_secs 60
    → (from_secs 1 ≤ back_offs b rs) × (back_offs b rs ≤ from_secs 60)
unfolding back_offs back_off
back_offs_within [] b low high = (low, high)
back_offs_within (ok fetched ∷ rs) b low high =
    back_offs_within rs (from_secs 1) (omega arith) (omega arith)
back_offs_within (err e ∷ rs) b low high =
    back_offs_within rs (back_off b (err e)).1 (ground arith) (ground arith)

-- The loop starts with a backoff of a second, and never gets below that or above a minute.
back_offs_bounds :
    (rs : List (Result ℕ Failure))
    → (from_secs 1 ≤ back_offs (from_secs 1) rs) × (back_offs (from_secs 1) rs ≤ from_secs 60)
back_offs_bounds rs = back_offs_within rs (from_secs 1) (omega arith) (omega arith)
