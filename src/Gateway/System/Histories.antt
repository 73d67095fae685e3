-- ===== src/Gateway/System/Histories.antt =====
-- The queue of the gateway at work: what happens to it is a history of calls on the queue.
use pincerbell.Base.{
  ℕ, suc, ◌+◌, ◌≤◌, ◌≡◌, ◌∙◌, refl, sym, ap, subst, Option, none, some, List, [], ◌∷◌, ◌++◌, String,
  ok, arith, Option-cases, Result-cases, inl, inr, length, length-append,
}
use pincerbell.Time.{Instant}
use pincerbell.Queue
use pincerbell.Queue.{u64_mod}
use pincerbell.Queue.Runs
use pincerbell.Queue.Runs.{run}
use pincerbell.Queue.Wire.{AckRequest, RejectedPushkey}
use pincerbell.QueueSide.{QueueState, report_rejected}
use pincerbell.Provider.{Provider, Worlds}
use pincerbell.Gateway.{AppState}
use pincerbell.Gateway.QueueApi.{queue_auth, queue_ack, report_all, with_queue, batch_size}
use pincerbell.Gateway.System.{
  System, Step, Reach, arrives, goes_on, leaves, polls, acks, start, later, attempt,
}
use pincerbell.Gateway.System.Effects.{Effect, nothing, recorded, queued, called, go_on-Effect}

-- Queue mode is on before and after, or off; the token stays, and the queue went through a history of
-- at most `b` calls.
abbrev pub After : ℕ → Option QueueState → Option QueueState → Type 0
After b none none = Unit
After b (some q) (some q') =
    (calls : List Queue.Runs.Call) × (length calls ≤ b)
    × (q'.queue ≡ run q.queue calls)
    × (q'.token_hash ≡ q.token_hash)
After b x y = ⊥

After-same : (b : ℕ) (x : Option QueueState) → After b x x
unfolding run
After-same b none = tt
After-same b (some q) = ([], omega arith, refl, refl)

-- One call, on a queue that is there.
After-one :
    (b : ℕ) (x : Option QueueState) (q q' : QueueState) (c : Queue.Runs.Call)
    → x ≡ some q
    → q'.queue ≡ Queue.Runs.step q.queue c
    → q'.token_hash ≡ q.token_hash
    → After (b + 1) x (some q')
unfolding run
After-one b x q q' c there called_once same =
    subst (λ y. After (b + 1) y (some q')) (sym there) (c ∷ [], omega arith, called_once, same)

run-append :
    (q : Queue.NotificationQueue) (cs ds : List Queue.Runs.Call)
    → run q (cs ++ ds) ≡ run (run q cs) ds
unfolding run
run-append q [] ds = refl
run-append q (c ∷ cs) ds = run-append (Queue.Runs.step q c) cs ds

After-trans : (b c : ℕ) (x y z : Option QueueState) → After b x y → After c y z → After (b + c) x z
After-trans b c none none none h k = tt
After-trans b c (some q) (some q') (some q'') (cs, few, e, same) (ds, few', e', same') = (
  cs ++ ds,
  omega (arith, length-append cs ds),
  e' ∙ ap (λ r. run r ds) e ∙ sym (run-append q.queue cs ds),
  same' ∙ same,
)
After-trans b c none (some q) z h k = absurd h
After-trans b c (some q) none z h k = absurd h
After-trans b c x (some q) none h k = absurd k
After-trans b c none none (some q) h k = absurd k

Effect-After : {st st' : AppState Provider} → Effect st st' → After 1 st.queue st'.queue
unfolding Queue.enqueue Queue.Runs.step
Effect-After {st} nothing = After-same 1 st.queue
Effect-After {st} (recorded now n device) = After-same 1 st.queue
Effect-After {st} (called k p) = After-same 1 st.queue
Effect-After {st} (queued now n device q queue' there done) =
    elim (Result-cases (Queue.payload_for n device)) [
      | inr (e, failed) ↦ absurd (ground (arith, done, failed))
      | inl (payload, made) ↦
          let key : Option Queue.CountKey = Queue.count_key_for n device in
          After-one 0 st.queue q (record q { queue = queue' }) (Queue.Runs.enqueues now payload key)
            there (ground (arith, done, made)) refl
    ]

-- The queue that the token opens.
pub queue_auth-some :
    (sha256 : String → List ℕ) (st : AppState Provider) (header : Option String) (q : QueueState)
    → queue_auth sha256 st header ≡ ok q
    → st.queue ≡ some q
unfolding queue_auth
queue_auth-some sha256 st header q opened = elim (Option-cases st.queue) [
  | inl absent ↦ absurd (ground (arith, opened, absent))
  | inr (q', there) ↦ ground (arith, opened, there)
]

report_all-queue :
    (q : QueueState) (now : Instant) (rs : List RejectedPushkey)
    → ((report_all q now rs).queue ≡ q.queue) × ((report_all q now rs).token_hash ≡ q.token_hash)
unfolding report_all report_rejected
report_all-queue q now [] = (refl, refl)
report_all-queue q now (r ∷ rs) = report_all-queue (report_rejected q now r.app_id r.pushkey) now rs

-- The queue after an ack.
pub queue_ack-queue :
    (sha256 : String → List ℕ) (st st' : AppState Provider) (now : Instant) (header : Option String)
    (req : AckRequest)
    → queue_ack sha256 st now header req ≡ ok st'
    → (q : QueueState) × (q' : QueueState) × (st.queue ≡ some q)
      × (st'.queue ≡ some q')
      × (q'.queue ≡ Queue.ack q.queue req.acked)
      × (q'.token_hash ≡ q.token_hash)
unfolding queue_ack with_queue
queue_ack-queue sha256 st st' now header req done =
    elim (Result-cases (queue_auth sha256 st header)) [
      | inr (e, denied) ↦ absurd (ground (arith, done, denied))
      | inl (q, opened) ↦
          let acked : QueueState = record q { queue = Queue.ack q.queue req.acked } in
          let (kept, same) = report_all-queue acked now req.rejected_pushkeys in
          (
            q,
            report_all acked now req.rejected_pushkeys,
            queue_auth-some sha256 st header q opened,
            ground (arith, done, opened),
            kept,
            same,
          )
    ]

module _ (sha256 : String → List ℕ) (Says : Worlds → Type 0)
    (Reports : String → String → Type 0) where
  Step-After :
      {s t : System} → Step sha256 Says Reports s t → After 1 s.gateway.queue t.gateway.queue
  unfolding with_queue attempt Queue.Runs.step
  Step-After {s} (arrives n) = After-same 1 s.gateway.queue
  Step-After {s} (goes_on i k now w says) =
      Effect-After (go_on-Effect i k now w s.gateway s.requests)
  Step-After {s} (leaves i) = After-same 1 s.gateway.queue
  Step-After {s} (polls now header req q opened) =
      After-one 0 s.gateway.queue q (attempt q now req) (Queue.Runs.takes now (batch_size req))
        (queue_auth-some sha256 s.gateway header q opened) refl refl
  Step-After {s} (acks now header req st done reported) =
      let (q, q', there, there', acked, same) =
        queue_ack-queue sha256 s.gateway st now header req done in
      subst (After 1 s.gateway.queue) (sym there')
        (After-one 0 s.gateway.queue q q' (Queue.Runs.acks req.acked) there acked same)

  -- Whatever goes on, the queue mode is not switched and the token stays, and the queue is what some
  -- history of calls makes of the one at first, of at most as many calls as there were steps.
  pub Reach-After :
      {first s : System} {k : ℕ}
      → Reach sha256 Says Reports first k s
      → After k first.gateway.queue s.gateway.queue
  Reach-After {first} start = After-same 0 first.gateway.queue
  Reach-After {first} {s = t} (later {k} {s} r step) =
      let bumped : k + 1 ≡ suc k = omega arith in
      subst (λ b. After b first.gateway.queue t.gateway.queue) bumped
        (After-trans k 1 first.gateway.queue s.gateway.queue t.gateway.queue (Reach-After r)
          (Step-After step))
