-- ===== src/Gateway/System/Tidy.antt =====
-- Where the tokens, the requests and the rejections of the gateway come from, whatever goes on.
-- `Says` is what the outside may answer, `Reports` what the poll side may report, and `first` the
-- gateway as it was built.
use pincerbell.Base.{
  ◌≡◌, ◌≢◌, ◌↔◌, refl, subst, Option, none, some, String, arith, true, Option-cases, inl, inr,
  string_eq,
}
use pincerbell.Time.{Instant}
use pincerbell.HashMap
use pincerbell.HashMap.{get-insert}
use pincerbell.Api.{Notification, Device}
use pincerbell.Dedup
use pincerbell.Dedup.{Key, key_eq, DedupCache}
use pincerbell.QueueSide.{QueueState, is_rejected}
use pincerbell.Provider.{Provider, Worlds}
use pincerbell.Provider.Calls.{Running}
use pincerbell.Provider.Origins.{bare, Holds, Gone, Proper}
use pincerbell.Gateway.{AppState, Disposition, Stage}
use pincerbell.Gateway.Notify.{Task}

module _ (Says : Worlds → Type 0) (Reports : String → String → Type 0)
    (first : AppState Provider) where
  -- A backend as it was built, but for its tokens, which are the app's own.
  abbrev pub Kept : Option Provider → Option Provider → Type 0
  Kept none none = Unit
  Kept (some p) (some p') = (bare p ≡ bare p') × Holds Says p'
  Kept p p' = ⊥

  -- The record of invalid pushkeys holds reported ones only.
  abbrev pub OnlyReported : QueueState → Type 0
  OnlyReported q =
      (key : Key) (t : Instant) → HashMap.get q.rejected.seen key ≡ some t → Reports key.1 key.2

  pub record Tidy (st : AppState Provider) : Type 0 where
    pub config_kept : st.config ≡ first.config
    pub queue_kept : (st.queue ≡ none) ↔ (first.queue ≡ none)
    pub providers_kept :
        (k : String) → Kept (HashMap.get first.providers k) (HashMap.get st.providers k)
    pub reported_only : (q : QueueState) → st.queue ≡ some q → OnlyReported q

  -- Why a pushkey is rejected to the homeserver.
  pub data Why (n : Notification) (device : Device) : Type 0 where
    unknown_app :
        HashMap.get first.providers device.app_id ≡ none
        → first.queue ≡ none
        → first.config.reject_unknown_apps ≡ true
        → Why n device
    reported_key :
        HashMap.get first.providers device.app_id ≡ none
        → first.queue ≢ none
        → Reports device.app_id device.pushkey
        → Why n device
    gone_key :
        (p : Provider)
        → HashMap.get first.providers device.app_id ≡ some p
        → Gone Says p n device
        → Why n device

  abbrev pub Justified : Notification → Device → Disposition → Type 0
  Justified n device Disposition.fine = Unit
  Justified n device (Disposition.reject k) = (k ≡ device.pushkey) × Why n device
  Justified n device Disposition.transient = Unit

  abbrev pub StageOk : Notification → Device → Option (Stage Running) → Type 0
  StageOk n device none = Unit
  StageOk n device (some (Stage.calling r)) =
      (p : Provider) × (HashMap.get first.providers device.app_id ≡ some p)
      × Proper Says p n device r
  StageOk n device (some (Stage.settled d)) = Justified n device d

  abbrev pub TaskOk : Notification → Task Running → Type 0
  TaskOk n (device, s) = StageOk n device s

  pub Tidy-dedup :
      (st : AppState Provider) (c : DedupCache) → Tidy st → Tidy (record st { dedup = c })
  Tidy-dedup st c v = record {
    config_kept = v.config_kept;
    queue_kept = v.queue_kept;
    providers_kept = v.providers_kept;
    reported_only = v.reported_only;
  }

  pub Tidy-queue :
      (st : AppState Provider) (q q' : QueueState)
      → st.queue ≡ some q
      → OnlyReported q'
      → Tidy st
      → Tidy (record st { queue = some q' })
  Tidy-queue st q q' there only v = record {
    config_kept = v.config_kept;
    queue_kept =
        (λ h. absurd (ground (arith, h)), λ h. absurd (ground (arith, v.queue_kept.1 h, there)));
    providers_kept = v.providers_kept;
    reported_only = λ x e. let same : q' ≡ x = ground (arith, e) in subst OnlyReported same only;
  }

  pub is_rejected-Reports :
      (q : QueueState) (now : Instant) (app_id pushkey : String)
      → OnlyReported q
      → is_rejected q now app_id pushkey ≡ true
      → Reports app_id pushkey
  unfolding is_rejected Dedup.is_duplicate_at Dedup.is_within
  is_rejected-Reports q now app_id pushkey only bad =
      elim (Option-cases (HashMap.get q.rejected.seen ("", app_id, pushkey))) [
        | inl absent ↦ absurd (ground (arith, bad, absent))
        | inr (t, there) ↦ only ("", app_id, pushkey) t there
      ]

  Kept-none : (x : Option Provider) → Kept x none → x ≡ none
  Kept-none none h = refl
  Kept-none (some p) h = absurd h

  Kept-some :
      (x : Option Provider) (p' : Provider)
      → Kept x (some p')
      → (p : Provider) × (x ≡ some p) × (bare p ≡ bare p') × Holds Says p'
  Kept-some none p' h = absurd h
  Kept-some (some p) p' h = (p, refl, h.0, h.1)

  -- A backend that is configured is there, and one that is there is configured.
  pub absent_first :
      (st : AppState Provider) (k : String)
      → Tidy st
      → HashMap.get st.providers k ≡ none
      → HashMap.get first.providers k ≡ none
  absent_first st k v absent =
      Kept-none (HashMap.get first.providers k)
        (subst (Kept (HashMap.get first.providers k)) absent (v.providers_kept k))

  pub there_first :
      (st : AppState Provider) (k : String) (p' : Provider)
      → Tidy st
      → HashMap.get st.providers k ≡ some p'
      → (p : Provider) × (HashMap.get first.providers k ≡ some p)
        × (bare p ≡ bare p')
        × Holds Says p'
  there_first st k p' v there =
      Kept-some (HashMap.get first.providers k) p'
        (subst (Kept (HashMap.get first.providers k)) there (v.providers_kept k))
