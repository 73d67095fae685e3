-- ===== src/Gateway/System/Tests.antt =====
-- The gateway at work on a concrete course of events: FCM says that the phone is gone, and the poll
-- side reports the pushkey of the other device.
use pincerbell.Base.{
  ℕ, ◌≡◌, ◌↔◌, refl, none, some, List, [], ◌∷◌, Option, String, string_eq, ok, arith, All,
}
use pincerbell.HashMap
use pincerbell.HashMap.{Distinct}
use pincerbell.Dedup
use pincerbell.Queue
use pincerbell.QueueSide
use pincerbell.Fcm
use pincerbell.Provider.{Provider, Worlds}
use pincerbell.Queue.Wire.{RejectedPushkey}
use pincerbell.Gateway.{AppState, Disposition, is_suppressed, without_provider}
use pincerbell.Http.{contains}
use pincerbell.Provider.Calls.{begin, outcome_of}
use pincerbell.Gateway.Sample.{notification}
use pincerbell.Gateway.Queueing.{IsSound}
use pincerbell.Gateway.QueueApi.{queue_ack, queue_auth, is_authorized, with_queue, report_all}
use pincerbell.QueueSide.{QueueState, verify_token, bytes_beq}
use pincerbell.Gateway.Notify.{tasks_of, join}
use pincerbell.Gateway.System.{
  idle, System, Request, Reach, arrives, goes_on, acks, start, later, go_on,
}
use pincerbell.Gateway.System.Tidy.{Kept}
use pincerbell.Gateway.System.Sound.{Reach-IsSound}
use pincerbell.Gateway.System.Safety.{
  Accounted, SendsOwn, Reach-Accounted, Reach-SendsOwn, Reach-Kept,
}
use pincerbell.Gateway.System.Sample.{environment, config, first, built, worlds}

-- The outside says nothing else, and the poll side reports nothing else.
abbrev Says : Worlds → Type 0
Says w = w ≡ worlds

abbrev Reports : String → String → Type 0
Reports app_id pushkey = (app_id ≡ "other") × (pushkey ≡ "k2")

abbrev report : RejectedPushkey
report = record { app_id = "other"; pushkey = "k2" }

abbrev queue_now : QueueState
queue_now = record {
  queue = Queue.ack (Queue.new 4 3600_000_000_000 60_000_000_000) [];
  token_hash = 6 ∷ [];
  rejected = Dedup.new 600_000_000_000 65536;
}

abbrev reported : AppState Provider
reported = with_queue first (report_all queue_now 10 (report ∷ []))

accepted :
    queue_ack environment.sha256 first 10
      (some "Bearer secret")
      (record { acked = []; rejected_pushkeys = report ∷ [] })
    ≡ ok reported
unfolding queue_ack queue_auth is_authorized verify_token bytes_beq
accepted = refl

abbrev asked : System
asked = record {
  gateway = reported;
  requests = record { notification = notification; tasks = tasks_of notification.devices } ∷ [];
}

-- Task `k` of the only request goes on.
abbrev turn : ℕ → System → System
turn k s = record {
  gateway = (go_on 0 k 10 worlds s.gateway s.requests).0;
  requests = (go_on 0 k 10 worlds s.gateway s.requests).1;
}

-- The request to FCM is under way, with a new token.
abbrev sent : System
sent = turn 0 (turn 0 (turn 0 asked))

sent-Reach : Reach environment.sha256 Says Reports (idle first) 5 sent
sent-Reach =
    let r =
      later
        (later start (
          acks 10 (some "Bearer secret") (record { acked = []; rejected_pushkeys = report ∷ [] })
            reported accepted ((refl, refl), tt)))
        (arrives notification) in
    later (later (later r (goes_on 0 0 10 worlds refl)) (goes_on 0 0 10 worlds refl))
      (goes_on 0 0 10 worlds refl)

abbrev settled : System
settled = turn 1 (turn 0 (turn 0 sent))

settled-Reach : Reach environment.sha256 Says Reports (idle first) 8 settled
settled-Reach =
    later (later (later sent-Reach (goes_on 0 0 10 worlds refl)) (goes_on 0 0 10 worlds refl))
      (goes_on 0 1 10 worlds refl)

-- Both devices are rejected: the one by FCM, the other by the report.
abbrev outcomes : List Request → List (Option (List Disposition))
outcomes [] = []
outcomes (r ∷ rs) = join r.tasks ∷ outcomes rs

both_rejected :
    outcomes settled.requests ≡ some (Disposition.reject "k1" ∷ Disposition.reject "k2" ∷ []) ∷ []
unfolding go_on join tasks_of HashMap.get is_suppressed Dedup.is_duplicate_at Dedup.new outcome_of
    begin Fcm.cached_bearer Fcm.fetch_token HashMap.insert with_queue Fcm.answer Fcm.classify
    contains HashMap.remove without_provider QueueSide.is_rejected report_all
    QueueSide.report_rejected Dedup.record_at HashMap.len Dedup.key_beq
both_rejected = refl

one_app : Distinct config.apps
unfolding HashMap.get
one_app = (refl, tt)

Reach-IsSound_example : IsSound 8 settled.gateway
Reach-IsSound_example =
    Reach-IsSound environment.sha256 Says Reports environment config first one_app built
      settled-Reach (omega arith)

Reach-Accounted_example :
    All (λ r. All (Accounted Says Reports first r.notification) r.tasks) settled.requests
Reach-Accounted_example =
    Reach-Accounted environment.sha256 Says Reports environment config first one_app built
      settled-Reach

Reach-SendsOwn_example :
    All (λ r. All (SendsOwn Says Reports first r.notification) r.tasks) sent.requests
Reach-SendsOwn_example =
    Reach-SendsOwn environment.sha256 Says Reports environment config first one_app built sent-Reach

Reach-Kept_example :
    (settled.gateway.config ≡ config)
    × ((settled.gateway.queue ≡ none) ↔ (first.queue ≡ none))
    × ((app_id : String)
        → Kept Says Reports first
            (HashMap.get first.providers app_id)
            (HashMap.get settled.gateway.providers app_id))
Reach-Kept_example =
    Reach-Kept environment.sha256 Says Reports environment config first one_app built settled-Reach
