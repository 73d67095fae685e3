-- ===== src/Gateway/Interleaved/Tests.antt =====
-- Interleaved deliveries on concrete inputs.
use pincerbell.Base.{
  ℕ, zero, suc, ◌<◌, ◌≤◌, ◌≡◌, some, List, [], ◌∷◌, Result, string_eq, arith, length, All,
}
use pincerbell.Time.{Instant}
use pincerbell.Provider.{Worlds}
use pincerbell.Gateway.Sample.{notification}
use pincerbell.Gateway.Notify.{NotifyResponse, Refusal}
use pincerbell.Gateway.Ending.{turns}
use pincerbell.Gateway.Interleaved.{notify_with}
use pincerbell.Gateway.Interleaved.Ending.{InRange, notify_with_answers}
use pincerbell.Gateway.System.Sample.{first, worlds}

-- The two devices take turns.
abbrev rounds : ℕ → List (ℕ × Instant × Worlds)
rounds zero = []
rounds (suc k) = (0, 10, worlds) ∷ (1, 10, worlds) ∷ rounds k

often : (k : ℕ) → k < length notification.devices → 5 ≤ turns k (rounds 5)
unfolding turns
often zero small = omega arith
often (suc zero) small = omega arith
often (suc (suc k)) small = absurd (omega (arith, small))

worlds-InRange : InRange worlds
worlds-InRange = record {
  fcm_margin = omega arith;
  fcm_expiry = λ uri grant assertion reply t sent said. ground (arith, sent, said);
  vapid_margin = omega arith;
  vapid_expiry = omega arith;
}

rounds-InRange : (k : ℕ) → All (λ (e : ℕ × Instant × Worlds). InRange e.2) (rounds k)
rounds-InRange zero = tt
rounds-InRange (suc k) = (worlds-InRange, (worlds-InRange, rounds-InRange k))

notify_with_answers_example :
    (answer : Result NotifyResponse Refusal) × ((notify_with (rounds 5) first notification).1
      ≡ some answer)
notify_with_answers_example =
    notify_with_answers (rounds 5) first notification (rounds-InRange 5) often
