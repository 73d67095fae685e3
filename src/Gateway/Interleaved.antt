-- ===== src/Gateway/Interleaved.antt =====
-- src/gateway.rs with the backends of src/provider.rs: `notify` where the parts of the deliveries
-- interleave, and with them the accesses to the cached tokens.
pub mod Providers
pub mod Progress
pub mod Ending
mod Tests
use pincerbell.Base.{ℕ, zero, suc, Option, none, some, List, [], ◌∷◌, Result, string_eq}
use mathlib.Core.Option
use pincerbell.Time.{Instant}
use pincerbell.HashMap
use pincerbell.Api.{Notification, Device}
use pincerbell.Provider.{Provider, Worlds}
use pincerbell.Provider.Calls.{Running, begin, outcome_of, proceed}
use pincerbell.Gateway.{AppState, Stage, calling, settled, start, finish}
use pincerbell.Gateway.Notify.{Task, NotifyResponse, Refusal, tasks_of, join, respond}

-- What `start` leads to: the delivery through the backend begins.
unfoldable pub begun : Stage Provider → Stage Running
begun (calling p) = calling (begin p)
begun (settled d) = settled d

module _ (n : Notification) (now : Instant) (w : Worlds) where
  -- The next part of a delivery through the backend of the device's app.
  unfoldable pub call_on : AppState Provider → Device → Running → AppState Provider × Stage Running
  unfolding proceed
  call_on st device r = elim (HashMap.get st.providers device.app_id) [
    | none ↦ (st, calling r)
    | some p ↦
        let (r', p') = proceed p w n device r in
        (record st { providers = HashMap.insert st.providers device.app_id p' }, calling r')
  ]

  -- A call goes on, or has ended.
  unfoldable pub advance_call :
      AppState Provider → Device → Running → AppState Provider × Stage Running
  unfolding call_on finish
  advance_call st device r = elim (outcome_of r) [
    | none ↦ call_on st device r
    | some outcome ↦ let (st', d) = finish st now n device outcome in (st', settled d)
  ]

  -- One task goes on by one part.
  unfoldable pub advance : AppState Provider → Task Running → AppState Provider × Task Running
  unfolding start begun advance_call
  advance st (device, none) =
      let (st', stage) = start st now n device in (st', (device, some (begun stage)))
  advance st (device, some (calling r)) =
      let (st', stage) = advance_call st device r in (st', (device, some stage))
  advance st (device, some (settled d)) = (st, (device, some (settled d)))

  unfoldable pub advance_at :
      ℕ → AppState Provider → List (Task Running) → AppState Provider × List (Task Running)
  unfolding advance
  advance_at k st [] = (st, [])
  advance_at zero st (t ∷ ts) = let (st', t') = advance st t in (st', t' ∷ ts)
  advance_at (suc k) st (t ∷ ts) = let (st', ts') = advance_at k st ts in (st', t ∷ ts')

-- `join_all` in any order: which task goes on, when, and what the outside says then.
unfoldable pub interleave :
    Notification
    → List (ℕ × Instant × Worlds)
    → AppState Provider
    → List (Task Running)
    → AppState Provider × List (Task Running)
unfolding advance_at
interleave n [] st ts = (st, ts)
interleave n ((k, now, w) ∷ turns) st ts =
    let (st', ts') = advance_at n now w k st ts in interleave n turns st' ts'

-- The handler's answer, once there is one, and the state.
unfoldable pub notify_with :
    List (ℕ × Instant × Worlds)
    → AppState Provider
    → Notification
    → AppState Provider × Option (Result NotifyResponse Refusal)
unfolding interleave join tasks_of respond
notify_with turns st n =
    let (st', ts) = interleave n turns st (tasks_of n.devices) in
    (st', Option.map respond (join ts))
