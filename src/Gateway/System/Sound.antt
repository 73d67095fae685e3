-- ===== src/Gateway/System/Sound.antt =====
-- The state of the gateway stays consistent, whatever goes on.
use pincerbell.Base.{
  ℕ, suc, ◌+◌, ◌<◌, ◌≡◌, subst, Option, List, [], ◌∷◌, String, ok, arith, Option-cases, Bool-cases,
  inl, inr, string_eq,
}
use pincerbell.Time.{Instant}
use pincerbell.HashMap
use pincerbell.HashMap.{Distinct}
use pincerbell.Config.{Config}
use pincerbell.Environment.{Environment}
use pincerbell.Dedup.Invariant
use pincerbell.Queue
use pincerbell.Queue.{u64_mod}
use pincerbell.Queue.Runs.{next_id-take_at, next_id-settle}
use pincerbell.Queue.Take.{take_at-IsValid}
use pincerbell.Queue.Ack.{ack-IsValid}
use pincerbell.Queue.Wire.{PollRequest, AckRequest, RejectedPushkey}
use pincerbell.QueueSide.{QueueState, report_rejected}
use pincerbell.Provider.{Provider, Worlds}
use pincerbell.Gateway.{AppState, record_delivery}
use pincerbell.Gateway.Construction.{new}
use pincerbell.Gateway.Constructed.{new-Built}
use pincerbell.Gateway.Queueing.{
  QueueIsSound, IsSound, later-IsSound, record_delivery-IsValid, QueueIsSound-enqueue,
}
use pincerbell.Gateway.QueueApi.{queue_auth, queue_ack, report_all, with_queue, is_authorized}
use pincerbell.Gateway.System.Effects.{Effect, nothing, recorded, queued, called, go_on-Effect}
use pincerbell.Gateway.System.{
  idle, System, Step, Reach, arrives, goes_on, leaves, polls, acks, start, later, attempt,
}

module _ (b : ℕ) where
  -- One step of a request.
  Effect-IsSound :
      {st st' : AppState Provider}
      → Effect st st'
      → b + 1 < u64_mod
      → IsSound b st
      → IsSound (b + 1) st'
  Effect-IsSound {st} nothing small v = later-IsSound b st v
  Effect-IsSound {st} (recorded now n device) small v =
      later-IsSound b (record st { dedup = record_delivery st.dedup now n.event_id device })
        (record {
          dedup_valid = record_delivery-IsValid st.dedup now n.event_id device v.dedup_valid;
          queue_sound = v.queue_sound;
        })
  Effect-IsSound {st} (queued now n device q queue' there done) small v = record {
    dedup_valid = record_delivery-IsValid st.dedup now n.event_id device v.dedup_valid;
    queue_sound = λ q' e.
        let same : record q { queue = queue' } ≡ q' = ground (arith, e) in
        subst (QueueIsSound (b + 1)) same
          (QueueIsSound-enqueue b q now n device queue' small done (v.queue_sound q there));
  }
  Effect-IsSound {st} (called k p) small v =
      later-IsSound b (record st { providers = HashMap.insert st.providers k p })
        (record { dedup_valid = v.dedup_valid; queue_sound = v.queue_sound })

  report_all-QueueIsSound :
      (q : QueueState) (now : Instant) (rs : List RejectedPushkey)
      → QueueIsSound b q
      → QueueIsSound b (report_all q now rs)
  unfolding report_all report_rejected
  report_all-QueueIsSound q now [] v = v
  report_all-QueueIsSound q now (r ∷ rs) v =
      report_all-QueueIsSound (report_rejected q now r.app_id r.pushkey) now rs (record {
        queue_valid = v.queue_valid;
        rejected_valid =
            Invariant.record_at-IsValid q.rejected now "" r.app_id r.pushkey v.rejected_valid;
        few_ids = v.few_ids;
      })

  with_queue-IsSound :
      (st : AppState Provider) (q : QueueState)
      → QueueIsSound b q
      → IsSound b st
      → IsSound b (with_queue st q)
  unfolding with_queue
  with_queue-IsSound st q s v = record {
    dedup_valid = v.dedup_valid;
    queue_sound = λ q' e. subst (QueueIsSound b) (ground (arith, e)) s;
  }

  attempt-QueueIsSound :
      (q : QueueState) (now : Instant) (req : PollRequest)
      → QueueIsSound b q
      → QueueIsSound b (attempt q now req)
  unfolding attempt
  attempt-QueueIsSound q now req s = record {
    queue_valid = take_at-IsValid q.queue now _ s.queue_valid;
    rejected_valid = s.rejected_valid;
    few_ids = omega (arith, s.few_ids, next_id-take_at q.queue now _);
  }

  ack-QueueIsSound :
      (q : QueueState) (ids : List ℕ)
      → QueueIsSound b q
      → QueueIsSound b (record q { queue = Queue.ack q.queue ids })
  unfolding Queue.ack
  ack-QueueIsSound q ids s = record {
    queue_valid = ack-IsValid q.queue ids s.queue_valid;
    rejected_valid = s.rejected_valid;
    few_ids = omega (arith, s.few_ids, next_id-settle ids q.queue.inner);
  }

  queue_ack-IsSound :
      (sha256 : String → List ℕ) (st st' : AppState Provider) (now : Instant)
      (header : Option String) (req : AckRequest)
      → queue_ack sha256 st now header req ≡ ok st'
      → IsSound b st
      → IsSound b st'
  unfolding queue_ack queue_auth
  queue_ack-IsSound sha256 st st' now header req done v = elim (Option-cases st.queue) [
    | inl absent ↦ absurd (ground (arith, done, absent))
    | inr (q, there) ↦ elim (Bool-cases (is_authorized sha256 q header)) [
      | inr denied ↦ absurd (ground (arith, done, there, denied))
      | inl known ↦ subst (IsSound b) (ground (arith, done, there, known)) (
          with_queue-IsSound st _
            (report_all-QueueIsSound (record q { queue = Queue.ack q.queue req.acked }) now
              req.rejected_pushkeys (ack-QueueIsSound q req.acked (v.queue_sound q there)))
            v)
    ]
  ]

  polls-IsSound :
      (sha256 : String → List ℕ) (st : AppState Provider) (now : Instant) (header : Option String)
      (req : PollRequest) (q : QueueState)
      → queue_auth sha256 st header ≡ ok q
      → IsSound b st
      → IsSound b (with_queue st (attempt q now req))
  unfolding queue_auth
  polls-IsSound sha256 st now header req q opened v = elim (Option-cases st.queue) [
    | inl absent ↦ absurd (ground (arith, opened, absent))
    | inr (q', there) ↦
        let same : q' ≡ q = ground (arith, opened, there) in
        with_queue-IsSound st (attempt q now req)
          (attempt-QueueIsSound q now req (subst (QueueIsSound b) same (v.queue_sound q' there))) v
  ]

module _ (sha256 : String → List ℕ) (Says : Worlds → Type 0)
    (Reports : String → String → Type 0) where
  Step-IsSound :
      (b : ℕ) {s t : System}
      → Step sha256 Says Reports s t
      → b + 1 < u64_mod
      → IsSound b s.gateway
      → IsSound (b + 1) t.gateway
  Step-IsSound b {s} (arrives n) small v = later-IsSound b s.gateway v
  Step-IsSound b {s} (goes_on i k now w says) small v =
      Effect-IsSound b (go_on-Effect i k now w s.gateway s.requests) small v
  Step-IsSound b {s} (leaves i) small v = later-IsSound b s.gateway v
  Step-IsSound b {s} (polls now header req q opened) small v =
      later-IsSound b _ (polls-IsSound b sha256 s.gateway now header req q opened v)
  Step-IsSound b {s} (acks now header req st done reported) small v =
      later-IsSound b st (queue_ack-IsSound b sha256 s.gateway st now header req done v)

  Reach-IsSound_from :
      (first : AppState Provider) {k : ℕ} {s : System}
      → Reach sha256 Says Reports (idle first) k s
      → k < u64_mod
      → IsSound 0 first
      → IsSound k s.gateway
  Reach-IsSound_from first start small v = v
  Reach-IsSound_from first {s = t} (later {k} r step) small v =
      let bumped : k + 1 ≡ suc k = omega arith in
      subst (λ m. IsSound m t.gateway) bumped
        (Step-IsSound k step (omega (arith, small))
          (Reach-IsSound_from first r (omega (arith, small)) v))

-- A gateway that was built from a configuration, whose apps have each key once, stays consistent
-- whatever goes on, for fewer than 2^64 steps: requests arrive, their deliveries go on part by part
-- in any order and whatever the outside says, callers hang up, and the poll side polls and acks.
-- The duplicate cache, the queue and the record of invalid pushkeys satisfy their invariants.
pub Reach-IsSound :
    (sha256 : String → List ℕ) (Says : Worlds → Type 0) (Reports : String → String → Type 0)
    (env : Environment) (config : Config) (first : AppState Provider) {k : ℕ} {s : System}
    → Distinct config.apps
    → new env config ≡ ok first
    → Reach sha256 Says Reports (idle first) k s
    → k < u64_mod
    → IsSound k s.gateway
Reach-IsSound sha256 Says Reports env config first d made r small =
    Reach-IsSound_from sha256 Says Reports first r small (new-Built env config first d made).2
