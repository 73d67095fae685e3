-- ===== src/Gateway/Interleaved/Progress.antt =====
-- Each part of a task gets it on, and leaves the kinds of the backends.
use pincerbell.Base.{
  ℕ, suc, ◌-◌, ◌≤◌, ◌≡◌, ◌∙◌, refl, sym, ap, Option, none, some, List, [], ◌∷◌, String, ◌==◌,
  string_eq, arith, Option-cases, Bool-cases, inl, inr, All, eq_iff,
}
use mathlib.Core.Option
use pincerbell.Time.{Instant}
use pincerbell.HashMap
use pincerbell.HashMap.{get-insert}
use pincerbell.Api.{Notification, Device}
use pincerbell.Provider.{Provider, Worlds}
use pincerbell.Provider.Calls.{Running, begin, outcome_of, proceed}
use pincerbell.Provider.Calls.Progress.{
  Kind, kind, kind_of, parts_of, kind-begin, kind-proceed, parts-proceed, parts-eq-none,
  parts-begin-le,
}
use pincerbell.Gateway.{AppState, Stage, is_suppressed, without_provider, start, finish}
use pincerbell.Gateway.Notify.{Task}
use pincerbell.Gateway.Interleaved.{begun, call_on, advance_call, advance}
use pincerbell.Gateway.Interleaved.Providers.{without_provider-keeps, finish-keeps}

-- The kind of an app's backend.
unfoldable pub kind_at : AppState Provider → String → Option Kind
kind_at st k = Option.map kind (HashMap.get st.providers k)

-- Two gateways with backends of the same kinds.
unfoldable pub SameKinds : AppState Provider → AppState Provider → Type 0
unfolding kind_at
SameKinds st st' = (k : String) → kind_at st k ≡ kind_at st' k

pub SameKinds-of_eq : (st st' : AppState Provider) → st.providers ≡ st'.providers → SameKinds st st'
unfolding SameKinds kind_at
SameKinds-of_eq st st' e = λ k. ap (λ m. Option.map kind (HashMap.get m k)) e

SameKinds-insert :
    (st : AppState Provider) (k : String) (p p' : Provider)
    → HashMap.get st.providers k ≡ some p
    → kind p' ≡ kind p
    → SameKinds (record st { providers = HashMap.insert st.providers k p' }) st
unfolding SameKinds kind_at
SameKinds-insert st k p p' there same j = elim (Bool-cases (k == j)) [
  | inl hit ↦
      let found : HashMap.get (HashMap.insert st.providers k p') j ≡ some p' =
        ground (arith, get-insert st.providers k j p', hit) in
      let old : HashMap.get st.providers j ≡ some p = ground (arith, hit, eq_iff k j, there) in
      rw (found, old) (ap some same)
  | inr miss ↦
      let found : HashMap.get (HashMap.insert st.providers k p') j ≡ HashMap.get st.providers j =
        ground (arith, get-insert st.providers k j p', miss) in
      rw found refl
]

-- How many parts a task has left.
unfoldable pub parts : Option (Stage Running) → ℕ
parts none = 5
parts (some (Stage.calling r)) = suc (parts_of r)
parts (some (Stage.settled d)) = 0

-- A call under way has the kind of the app's backend.
unfoldable pub Fits : AppState Provider → Task Running → Type 0
unfolding kind_at
Fits st (device, none) = Unit
Fits st (device, some (Stage.calling r)) = kind_at st device.app_id ≡ some (kind_of r)
Fits st (device, some (Stage.settled d)) = Unit

module _ (n : Notification) (now : Instant) (w : Worlds) where
  -- What a part of a task keeps, and by how much the task gets on.
  unfoldable pub GetsOn :
      AppState Provider → Task Running → AppState Provider × Task Running → Type 0
  unfolding SameKinds Fits parts
  GetsOn st t (st', t') = SameKinds st' st × Fits st' t' × (parts t'.1 ≤ parts t.1 - 1)

  call_on-GetsOn :
      (st : AppState Provider) (device : Device) (r : Running)
      → outcome_of r ≡ none
      → Fits st (device, some (Stage.calling r))
      → GetsOn st
          (device, some (Stage.calling r))
          ((call_on n now w st device r).0, (device, some (call_on n now w st device r).1))
  unfolding GetsOn call_on Fits parts SameKinds kind_at
  call_on-GetsOn st device r open_call fits =
      elim (Option-cases (HashMap.get st.providers device.app_id)) [
        | inl absent ↦ absurd (ground (arith, fits, absent))
        | inr (p, there) ↦
            let (kept, same) = kind-proceed w n device p r in
            let st' = record st {
              providers = HashMap.insert st.providers device.app_id (proceed p w n device r).1;
            } in
            let agree : kind p ≡ kind_of r = ground (arith, fits, there) in
            let steady =
              SameKinds-insert st device.app_id p (proceed p w n device r).1 there kept in
            rw (there, call_on)
              (
                steady,
                steady device.app_id ∙ fits ∙ ap some (sym same),
                omega (arith, parts-proceed w n device p r agree, parts-eq-none r open_call),
              )
      ]

  start-GetsOn :
      (st : AppState Provider) (device : Device)
      → GetsOn st
          (device, none)
          ((start st now n device).0, (device, some (begun (start st now n device).1)))
  unfolding GetsOn Fits parts begun start kind_at
  start-GetsOn st device = elim (Option-cases (HashMap.get st.providers device.app_id)) [
    | inl absent ↦
        rw (absent, start)
          (
            SameKinds-of_eq (without_provider st now n device).0 st
                (without_provider-keeps n st now device),
            tt,
            omega arith,
          )
    | inr (p, there) ↦ elim (Bool-cases (is_suppressed st.dedup now n.event_id device)) [
      | inl held ↦ rw (there, held, start) (SameKinds-of_eq st st refl, tt, omega arith)
      | inr fresh ↦
          let here : kind_at st device.app_id ≡ some (kind_of (begin p)) =
            rw there (ap some (sym (kind-begin p))) in
          rw (there, fresh, start)
            (SameKinds-of_eq st st refl, here, omega (arith, parts-begin-le p))
    ]
  ]

  pub advance-GetsOn :
      (st : AppState Provider) (t : Task Running) → Fits st t → GetsOn st t (advance n now w st t)
  unfolding GetsOn advance advance_call Fits parts
  advance-GetsOn st (device, none) fits = start-GetsOn st device
  advance-GetsOn st (device, some (Stage.calling r)) fits = elim (Option-cases (outcome_of r)) [
    | inl open_call ↦ rw (open_call, advance_call) (call_on-GetsOn st device r open_call fits)
    | inr (outcome, over) ↦
        rw (over, advance_call)
          (
            SameKinds-of_eq (finish st now n device outcome).0 st
                (finish-keeps n st now device outcome),
            tt,
            omega arith,
          )
  ]
  advance-GetsOn st (device, some (Stage.settled d)) fits =
      (SameKinds-of_eq st st refl, tt, omega arith)

  pub Fits-SameKinds :
      (st st' : AppState Provider) (t : Task Running) → SameKinds st' st → Fits st t → Fits st' t
  unfolding Fits SameKinds
  Fits-SameKinds st st' (device, none) same fits = tt
  Fits-SameKinds st st' (device, some (Stage.calling r)) same fits = same device.app_id ∙ fits
  Fits-SameKinds st st' (device, some (Stage.settled d)) same fits = tt

  pub All-Fits :
      (st st' : AppState Provider) (ts : List (Task Running))
      → SameKinds st' st
      → All (Fits st) ts
      → All (Fits st') ts
  All-Fits st st' [] same fits = tt
  All-Fits st st' (t ∷ ts) same (f, fits) =
      (Fits-SameKinds st st' t same f, All-Fits st st' ts same fits)
