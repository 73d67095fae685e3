-- ===== src/Gateway/System/Origins.antt =====
-- Every step of the gateway keeps the account of where its tokens, requests and rejections come
-- from.
use pincerbell.Base.{
  ℕ, zero, suc, ◌≡◌, subst, ap, Option, List, [], ◌∷◌, String, ok, arith, Option-cases, Bool-cases,
  inl, inr, string_eq, All,
}
use pincerbell.Time.{Instant}
use pincerbell.Api.{Notification, Device}
use pincerbell.Dedup.{Key, key_eq}
use pincerbell.Dedup.Window.{get-record_at}
use pincerbell.Queue
use pincerbell.Queue.Wire.{PollRequest, AckRequest, RejectedPushkey}
use pincerbell.QueueSide.{QueueState, report_rejected}
use pincerbell.Provider.{Provider, Worlds}
use pincerbell.Gateway.{AppState}
use pincerbell.Gateway.Notify.{tasks_of}
use pincerbell.Gateway.QueueApi.{queue_auth, queue_ack, report_all, with_queue, is_authorized}
use pincerbell.Gateway.System.{
  idle, System, Request, Step, Reach, arrives, goes_on, leaves, polls, acks, start, later, go_on,
  drop_at, attempt,
}
use pincerbell.Gateway.System.Tidy.{OnlyReported, Tidy, TaskOk, Tidy-queue}
use pincerbell.Gateway.System.Calling.{advance_at-Tidy}

module _ (Says : Worlds → Type 0) (Reports : String → String → Type 0)
    (first : AppState Provider) where
  -- Every task of every request.
  abbrev pub RequestOk : Request → Type 0
  RequestOk r = All (TaskOk Says Reports first r.notification) r.tasks

  pub record AllTidy (s : System) : Type 0 where
    pub state : Tidy Says Reports first s.gateway
    pub tasks : All RequestOk s.requests

  go_on-AllTidy :
      (i k : ℕ) (now : Instant) (w : Worlds) (st : AppState Provider) (rs : List Request)
      → Says w
      → Tidy Says Reports first st
      → All RequestOk rs
      → Tidy Says Reports first (go_on i k now w st rs).0 × All RequestOk (go_on i k now w st rs).1
  unfolding go_on
  go_on-AllTidy i k now w st [] says v oks = (v, tt)
  go_on-AllTidy zero k now w st (r ∷ rs) says v (first_ok, rest) =
      let (v', done) =
        advance_at-Tidy Says Reports first r.notification now w k st r.tasks says first_ok v in
      (v', (done, rest))
  go_on-AllTidy (suc i) k now w st (r ∷ rs) says v (first_ok, rest) =
      let (v', done) = go_on-AllTidy i k now w st rs says v rest in (v', (first_ok, done))

  tasks_of-TaskOk :
      (n : Notification) (ds : List Device) → All (TaskOk Says Reports first n) (tasks_of ds)
  unfolding tasks_of
  tasks_of-TaskOk n [] = tt
  tasks_of-TaskOk n (d ∷ ds) = (tt, tasks_of-TaskOk n ds)

  All-drop_at : (i : ℕ) (rs : List Request) → All RequestOk rs → All RequestOk (drop_at i rs)
  unfolding drop_at
  All-drop_at i [] oks = tt
  All-drop_at zero (r ∷ rs) oks = oks.1
  All-drop_at (suc i) (r ∷ rs) oks = (oks.0, All-drop_at i rs oks.1)

  report_all-OnlyReported :
      (q : QueueState) (now : Instant) (rs : List RejectedPushkey)
      → All (λ r. Reports r.app_id r.pushkey) rs
      → OnlyReported Says Reports first q
      → OnlyReported Says Reports first (report_all q now rs)
  unfolding report_all report_rejected
  report_all-OnlyReported q now [] reported only = only
  report_all-OnlyReported q now (r ∷ rs) (here, rest) only =
      report_all-OnlyReported (report_rejected q now r.app_id r.pushkey) now rs rest (λ key t h.
        elim (get-record_at q.rejected now now "" r.app_id r.pushkey key t h) [
          | inl old ↦ only key t old
          | inr same ↦
              subst (λ (x : Key). Reports x.1 x.2) (ap (λ (x : Instant × Key). x.1) same) here
        ])

  polls-Tidy :
      (sha256 : String → List ℕ) (st : AppState Provider) (now : Instant) (header : Option String)
      (req : PollRequest) (q : QueueState)
      → queue_auth sha256 st header ≡ ok q
      → Tidy Says Reports first st
      → Tidy Says Reports first (with_queue st (attempt q now req))
  unfolding queue_auth with_queue attempt
  polls-Tidy sha256 st now header req q opened v = elim (Option-cases st.queue) [
    | inl absent ↦ absurd (ground (arith, opened, absent))
    | inr (q', there) ↦
        let same : q' ≡ q = ground (arith, opened, there) in
        Tidy-queue Says Reports first st q' (attempt q now req) there
          (subst (OnlyReported Says Reports first) same (v.reported_only q' there)) v
  ]

  queue_ack-Tidy :
      (sha256 : String → List ℕ) (st st' : AppState Provider) (now : Instant)
      (header : Option String) (req : AckRequest)
      → queue_ack sha256 st now header req ≡ ok st'
      → All (λ r. Reports r.app_id r.pushkey) req.rejected_pushkeys
      → Tidy Says Reports first st
      → Tidy Says Reports first st'
  unfolding queue_ack queue_auth with_queue
  queue_ack-Tidy sha256 st st' now header req done reported v = elim (Option-cases st.queue) [
    | inl absent ↦ absurd (ground (arith, done, absent))
    | inr (q, there) ↦ elim (Bool-cases (is_authorized sha256 q header)) [
      | inr denied ↦ absurd (ground (arith, done, there, denied))
      | inl known ↦
          let acked : QueueState = record q { queue = Queue.ack q.queue req.acked } in
          subst (Tidy Says Reports first) (ground (arith, done, there, known)) (
            Tidy-queue Says Reports first st q (report_all acked now req.rejected_pushkeys) there
              (report_all-OnlyReported acked now req.rejected_pushkeys reported
                (v.reported_only q there))
              v)
    ]
  ]

  Step-AllTidy :
      (sha256 : String → List ℕ) {s t : System}
      → Step sha256 Says Reports s t
      → AllTidy s
      → AllTidy t
  Step-AllTidy sha256 {s} (arrives n) v = record {
    state = v.state;
    tasks = (tasks_of-TaskOk n n.devices, v.tasks);
  }
  Step-AllTidy sha256 {s} (goes_on i k now w says) v =
      let (v', oks) = go_on-AllTidy i k now w s.gateway s.requests says v.state v.tasks in
      record { state = v'; tasks = oks }
  Step-AllTidy sha256 {s} (leaves i) v = record {
    state = v.state;
    tasks = All-drop_at i s.requests v.tasks;
  }
  Step-AllTidy sha256 {s} (polls now header req q opened) v = record {
    state = polls-Tidy sha256 s.gateway now header req q opened v.state;
    tasks = v.tasks;
  }
  Step-AllTidy sha256 {s} (acks now header req st done reported) v = record {
    state = queue_ack-Tidy sha256 s.gateway st now header req done reported v.state;
    tasks = v.tasks;
  }

  pub Reach-AllTidy :
      (sha256 : String → List ℕ) {k : ℕ} {s : System}
      → Tidy Says Reports first first
      → Reach sha256 Says Reports (idle first) k s
      → AllTidy s
  Reach-AllTidy sha256 v start = record { state = v; tasks = tt }
  Reach-AllTidy sha256 v (later r step) = Step-AllTidy sha256 step (Reach-AllTidy sha256 v r)
