-- ===== src/Gateway/Interleaved/Ending.antt =====
-- `notify` answers, however the parts of its deliveries interleave.
use pincerbell.Base.{
  ◌+◌, ◌^◌, ok, String, ℕ, zero, suc, ◌-◌, ◌<◌, ◌≤◌, ◌≡◌, refl, ap, Option, none, some, List, [],
  ◌∷◌, string_eq, Result, nat_beq, if◌then◌else◌, arith, length, All, ltb,
}
use mathlib.Core.Option
use pincerbell.Time.{Instant, from_secs}
use pincerbell.Api.{Notification, Device}
use pincerbell.Fcm.{TokenReply, TokenResponse, token_refresh_margin}
use pincerbell.Webpush.Delivery.{vapid_refresh_margin, vapid_lifetime}
use pincerbell.Provider.{Provider, Worlds}
use pincerbell.Provider.Calls.{Running}
use pincerbell.Gateway.{AppState, Stage}
use pincerbell.Gateway.Notify.{Task, NotifyResponse, Refusal, tasks_of, respond}
use pincerbell.Gateway.Ending.{turns, left, left_at, join_of_none_left}
use pincerbell.Gateway.Interleaved.{advance, advance_at, interleave, notify_with}
use pincerbell.Gateway.Interleaved.Progress.{
  SameKinds, SameKinds-of_eq, parts, Fits, GetsOn, advance-GetsOn, Fits-SameKinds, All-Fits,
}

-- How many parts task `k` has left.
parts_at : ℕ → List (Task Running) → ℕ
unfolding parts
parts_at k [] = 0
parts_at zero (t ∷ ts) = parts t.1
parts_at (suc k) (t ∷ ts) = parts_at k ts

parts-first :
    (t' t : Task Running) (ts : List (Task Running))
    → parts t'.1 ≤ parts t.1 - 1
    → (k : ℕ) → parts_at k (t' ∷ ts) ≤ parts_at k (t ∷ ts) - (if nat_beq 0 k then 1 else 0)
unfolding parts_at
parts-first t' t ts fewer zero = ground (arith, fewer)
parts-first t' t ts fewer (suc k) = ground arith

parts-rest :
    (j : ℕ) (t : Task Running) (ts' ts : List (Task Running))
    → ((k : ℕ) → parts_at k ts' ≤ parts_at k ts - (if nat_beq j k then 1 else 0))
    → (k : ℕ) → parts_at k (t ∷ ts') ≤ parts_at k (t ∷ ts) - (if nat_beq (suc j) k then 1 else 0)
unfolding parts_at
parts-rest j t ts' ts fewer zero = ground arith
parts-rest j t ts' ts fewer (suc k) = ground (arith, fewer k)

module _ (n : Notification) (now : Instant) (w : Worlds) where
  advance_at-GetsOn :
      (j : ℕ) (st : AppState Provider) (ts : List (Task Running))
      → All (Fits st) ts
      → SameKinds (advance_at n now w j st ts).0 st
        × All (Fits (advance_at n now w j st ts).0) (advance_at n now w j st ts).1
        × ((k : ℕ)
            → parts_at k (advance_at n now w j st ts).1
              ≤ parts_at k ts - (if nat_beq j k then 1 else 0))
  unfolding advance_at parts_at GetsOn
  advance_at-GetsOn j st [] fits = (SameKinds-of_eq st st refl, tt, λ k. omega arith)
  advance_at-GetsOn zero st (t ∷ ts) (f, fits) =
      let (same, f', fewer) = advance-GetsOn n now w st t f in
      (
        same,
        (f', All-Fits n now w st (advance n now w st t).0 ts same fits),
        parts-first (advance n now w st t).1 t ts fewer,
      )
  advance_at-GetsOn (suc j) st (t ∷ ts) (f, fits) =
      let (same, fits', fewer) = advance_at-GetsOn j st ts fits in
      (
        same,
        (Fits-SameKinds n now w st (advance_at n now w j st ts).0 t same f, fits'),
        parts-rest j t (advance_at n now w j st ts).1 ts fewer,
      )

parts-interleave :
    (n : Notification) (events : List (ℕ × Instant × Worlds)) (st : AppState Provider)
    (ts : List (Task Running))
    → All (Fits st) ts
    → (k : ℕ) → parts_at k (interleave n events st ts).1 ≤ parts_at k ts - turns k events
unfolding interleave turns
parts-interleave n [] st ts fits k = omega arith
parts-interleave n ((j, now, w) ∷ events) st ts fits k =
    let r = advance_at n now w j st ts in
    let (_, fits', fewer) = advance_at-GetsOn n now w j st ts fits in
    ground (arith, fewer k, parts-interleave n events r.0 r.1 fits' k)

parts_at-tasks_of :
    (ds : List Device) (k : ℕ) → parts_at k (tasks_of ds) ≤ (if ltb k (length ds) then 5 else 0)
unfolding parts_at tasks_of parts
parts_at-tasks_of [] k = ground arith
parts_at-tasks_of (d ∷ ds) zero = ground arith
parts_at-tasks_of (d ∷ ds) (suc k) = ground (arith, parts_at-tasks_of ds k)

Fits-tasks_of : (st : AppState Provider) (ds : List Device) → All (Fits st) (tasks_of ds)
unfolding tasks_of Fits
Fits-tasks_of st [] = tt
Fits-tasks_of st (d ∷ ds) = (tt, Fits-tasks_of st ds)

left-le-parts : (s : Option (Stage Running)) → left s ≤ parts s
unfolding left parts
left-le-parts none = omega arith
left-le-parts (some (Stage.calling r)) = omega arith
left-le-parts (some (Stage.settled d)) = omega arith

left_at-le : (k : ℕ) (ts : List (Task Running)) → left_at k ts ≤ parts_at k ts
unfolding left_at parts_at
left_at-le k [] = omega arith
left_at-le zero (t ∷ ts) = left-le-parts t.1
left_at-le (suc k) (t ∷ ts) = left_at-le k ts

-- The largest moment that an `Instant` can be is below this: its seconds are those of an i64.
abbrev instant_limit : Instant
instant_limit = from_secs (2 ^ 63)

-- The moments that a delivery computes fit an `Instant`: the ends of the margins, the end of the
-- life of a token that FCM's token endpoint gives out, and that of a VAPID header.
pub record InRange (w : Worlds) : Type 0 where
  pub fcm_margin : w.fcm_world.now + token_refresh_margin < instant_limit
  pub fcm_expiry :
      (uri grant assertion : String) (reply : TokenReply) (t : TokenResponse)
      → w.fcm_world.post_token uri grant assertion ≡ ok reply
      → reply.json ≡ ok t
      → w.fcm_world.token_time + from_secs t.expires_in < instant_limit
  pub vapid_margin : w.webpush_world.now + vapid_refresh_margin < instant_limit
  pub vapid_expiry : w.webpush_world.signed_at + vapid_lifetime < instant_limit

-- `notify` answers once each of its devices has gone on five times, however the parts of its
-- deliveries interleave, whatever the outside says, and also where they share a token: up to its
-- call of the backend, to the look at the cached token, to the arrival of a new one, to the answer
-- of the push service, and to the end. This asks that all moments that are computed meanwhile fit
-- an `Instant`: otherwise, as for a token that is to live 2^63 seconds, the program panics.
pub notify_with_answers :
    (events : List (ℕ × Instant × Worlds)) (st : AppState Provider) (n : Notification)
    → All (λ e. InRange e.2) events
    → ((k : ℕ) → k < length n.devices → 5 ≤ turns k events)
    → (answer : Result NotifyResponse Refusal) × ((notify_with events st n).1 ≡ some answer)
unfolding notify_with
notify_with_answers events st n in_range often =
    let ts = tasks_of {P = Running} n.devices in
    let (xs, joined) = join_of_none_left (interleave n events st ts).1 (λ k. ground (
      arith,
      often k,
      left_at-le k (interleave n events st ts).1,
      parts-interleave n events st ts (Fits-tasks_of st n.devices) k,
      parts_at-tasks_of n.devices k,
    )) in
    (respond xs, ap (Option.map respond) joined)
