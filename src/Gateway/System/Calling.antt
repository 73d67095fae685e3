-- ===== src/Gateway/System/Calling.antt =====
-- Each part of a call through a backend keeps the account, and so each part of a task.
use pincerbell.Base.{
  ℕ, zero, suc, ◌≡◌, ◌==◌, subst, sym, none, some, List, [], ◌∷◌, String, arith, Option-cases,
  Bool-cases, inl, inr, string_eq, eq_iff, All, ◌∙◌,
}
use pincerbell.Time.{Instant}
use pincerbell.HashMap
use pincerbell.HashMap.{get-insert}
use pincerbell.Api.{Notification, Device}
use pincerbell.Dedup.{key_eq}
use pincerbell.Provider.{Provider, Worlds}
use pincerbell.Provider.Calls.{Running, outcome_of, proceed}
use pincerbell.Provider.Origins.{bare, Holds, Proper, Proper-bare, proceed-Proper, rejected-Gone}
use pincerbell.Gateway.{AppState, Stage}
use pincerbell.Gateway.Notify.{Task}
use pincerbell.Gateway.Interleaved.{call_on, advance_call, advance, advance_at}
use pincerbell.Gateway.System.Tidy.{Tidy, gone_key, StageOk, TaskOk, there_first}
use pincerbell.Gateway.System.Serving.{start-Tidy, finish-Tidy}

module _ (Says : Worlds → Type 0) (Reports : String → String → Type 0)
    (first : AppState Provider) where
  Tidy-insert :
      (st : AppState Provider) (k : String) (p p' : Provider)
      → HashMap.get first.providers k ≡ some p
      → bare p ≡ bare p'
      → Holds Says p'
      → Tidy Says Reports first st
      → Tidy Says Reports first (record st { providers = HashMap.insert st.providers k p' })
  Tidy-insert st k p p' there same holds v = record {
    config_kept = v.config_kept;
    queue_kept = v.queue_kept;
    providers_kept = λ j.
        let stored = get-insert st.providers k j p' in
        elim (Bool-cases (k == j)) [
          | inl hit ↦
              let here : HashMap.get first.providers j ≡ some p =
                ground (arith, hit, eq_iff k j, there) in
              let found : HashMap.get (HashMap.insert st.providers k p') j ≡ some p' =
                ground (arith, hit, stored) in
              rw (here, found) (same, holds)
          | inr miss ↦
              let found : HashMap.get (HashMap.insert st.providers k p') j
                  ≡ HashMap.get st.providers j =
                ground (arith, miss, stored) in
              rw found (v.providers_kept j)
        ];
    reported_only = v.reported_only;
  }

  call_on-Tidy :
      (n : Notification) (now : Instant) (w : Worlds) (st : AppState Provider) (device : Device)
      (r : Running)
      → Says w
      → StageOk Says Reports first n device (some (Stage.calling r))
      → Tidy Says Reports first st
      → Tidy Says Reports first (call_on n now w st device r).0
        × StageOk Says Reports first n device (some (call_on n now w st device r).1)
  unfolding call_on
  call_on-Tidy n now w st device r says (p, there, proper) v =
      elim (Option-cases (HashMap.get st.providers device.app_id)) [
        | inl absent ↦ rw (absent, call_on) (v, (p, there, proper))
        | inr (p', there') ↦
            let (p1, there1, same, holds) =
              there_first Says Reports first st device.app_id p' v there' in
            let one : p ≡ p1 = ground (arith, there, there1) in
            let (proper', holds', same') = proceed-Proper Says p' w n device r says holds (
              Proper-bare Says p1 p' n device r same
                (subst (λ x. Proper Says x n device r) one proper)) in
            let q' = (proceed p' w n device r).1 in
            let r' = (proceed p' w n device r).0 in
            rw (there', call_on)
              (
                Tidy-insert st device.app_id p1 q' there1 (same ∙ sym same') holds' v,
                (p1, there1, Proper-bare Says p' p1 n device r' (sym same) proper'),
              )
      ]

  advance-Tidy :
      (n : Notification) (now : Instant) (w : Worlds) (st : AppState Provider) (t : Task Running)
      → Says w
      → TaskOk Says Reports first n t
      → Tidy Says Reports first st
      → Tidy Says Reports first (advance n now w st t).0
        × TaskOk Says Reports first n (advance n now w st t).1
  unfolding advance advance_call
  advance-Tidy n now w st (device, none) says t v = start-Tidy Says Reports first st now n device v
  advance-Tidy n now w st (device, some (Stage.settled d)) says t v = (v, t)
  advance-Tidy n now w st (device, some (Stage.calling r)) says (p, there, proper) v =
      elim (Option-cases (outcome_of r)) [
        | inl open_call ↦
            rw (open_call, advance_call)
              (call_on-Tidy n now w st device r says (p, there, proper) v)
        | inr (outcome, over) ↦
            rw (over, advance_call)
              (finish-Tidy Says Reports first st now n device outcome
                (λ bad.
                  gone_key p there
                    (rejected-Gone Says p n device r proper (ground (arith, over, bad))))
                v)
      ]

  pub advance_at-Tidy :
      (n : Notification) (now : Instant) (w : Worlds) (k : ℕ) (st : AppState Provider)
      (ts : List (Task Running))
      → Says w
      → All (TaskOk Says Reports first n) ts
      → Tidy Says Reports first st
      → Tidy Says Reports first (advance_at n now w k st ts).0
        × All (TaskOk Says Reports first n) (advance_at n now w k st ts).1
  unfolding advance_at
  advance_at-Tidy n now w k st [] says oks v = (v, tt)
  advance_at-Tidy n now w zero st (t ∷ ts) says (first_ok, rest) v =
      let (v', done) = advance-Tidy n now w st t says first_ok v in (v', (done, rest))
  advance_at-Tidy n now w (suc k) st (t ∷ ts) says (first_ok, rest) v =
      let (v', done) = advance_at-Tidy n now w k st ts says rest v in (v', (first_ok, done))
