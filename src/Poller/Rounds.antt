-- ===== src/Poller/Rounds.antt =====
-- The sleeps of the poll loop.
use pincerbell.Base.{ℕ, suc, ◌≡◌, ◌∙◌, ap, refl, List, [], ◌∷◌, map, String, Result, ok, err, arith}
use pincerbell.Time.{Duration, from_secs}
use pincerbell.Json.{Value}
use pincerbell.Api.{Notification, Device}
use pincerbell.Gateway.{Disposition}
use pincerbell.Poller.{Failure, Exchange, poll_once, back_off, run_loop, run}
use pincerbell.Poller.Backoff.{capped, capped-zero, capped-suc}

-- The sleep after each of some results, where `k` failures in a row came before: none after a
-- success, and after a failure a second that doubles with each failure in a row, cut at a minute.
pub sleeps : ℕ → List (Result ℕ Failure) → List Duration
sleeps k [] = []
sleeps k (ok fetched ∷ rs) = 0 ∷ sleeps 0 rs
sleeps k (err e ∷ rs) = capped k ∷ sleeps (suc k) rs

module _ {ℓ} {S : Type ℓ} (read : Value → Result Notification String)
    (one : S → Notification → Device → S × Disposition) where
  -- The sleeps after some exchanges fit their results.
  Fits : List Exchange → Type ℓ
  Fits xs =
      (k : ℕ) (b : Duration) (s : S)
      → b ≡ capped k
      → map (λ r. r.1) (run_loop read one b xs s).1
        ≡ sleeps k (map (λ r. r.0) (run_loop read one b xs s).1)

  one_more :
      (xs : List Exchange) (k : ℕ) (b : Duration) (s : S) (r : Result ℕ Failure)
      → Fits xs
      → b ≡ capped k
      → (back_off b r).0 ∷ map (λ r. r.1) (run_loop read one (back_off b r).1 xs s).1
        ≡ sleeps k (r ∷ map (λ r. r.0) (run_loop read one (back_off b r).1 xs s).1)
  unfolding sleeps back_off Fits
  one_more xs k b s (ok fetched) fits at_k = ap (λ l. 0 ∷ l) (fits 0 (from_secs 1) s capped-zero)
  one_more xs k b s (err e) fits at_k =
      let next : (back_off b (err e)).1 ≡ capped (suc k) =
        ap (λ x. (back_off x (err e)).1) at_k ∙ capped-suc k e in
      ground (arith, fits (suc k) (back_off b (err e)).1 s next, at_k)

  run_loop-sleeps : (xs : List Exchange) → Fits xs
  unfolding run_loop sleeps Fits
  run_loop-sleeps [] k b s at_k = refl
  run_loop-sleeps (x ∷ xs) k b s at_k =
      one_more xs k b (poll_once read one x.reply x.send s).0
        (poll_once read one x.reply x.send s).2 (run_loop-sleeps xs) at_k

  -- However the cycles of the poll loop go, it sleeps after each failed one, for a second that
  -- doubles with each failure in a row and is cut at a minute, and after no other.
  pub run-sleeps :
      (xs : List Exchange) (s : S)
      → map (λ r. r.1) (run read one xs s).1 ≡ sleeps 0 (map (λ r. r.0) (run read one xs s).1)
  unfolding run Fits
  run-sleeps xs s = run_loop-sleeps xs 0 (from_secs 1) s capped-zero
