-- ===== src/Gateway/System/QueueTests.antt =====
-- The queue of the gateway at work: a notification for an app without a backend is queued, polled
-- and acknowledged.
use pincerbell.Base.{
  ◌≡◌, refl, none, some, [], ◌∷◌, Option, String, string_eq, nat_eq, ok, arith, Any,
}
use pincerbell.Time.{Instant}
use pincerbell.HashMap
use pincerbell.HashMap.{Distinct}
use pincerbell.Api.{to_value}
use pincerbell.Dedup
use pincerbell.Json.{Value, null}
use pincerbell.Queue
use pincerbell.Queue.Take.{batch_of}
use pincerbell.Queue.Wire.{PollRequest, AckRequest}
use pincerbell.QueueSide
use pincerbell.QueueSide.{QueueState, verify_token, bytes_beq}
use pincerbell.Provider.{Provider, Worlds}
use pincerbell.Gateway.{AppState, is_suppressed, without_provider}
use pincerbell.Gateway.Sample.{notification}
use pincerbell.Gateway.Notify.{tasks_of}
use pincerbell.Gateway.QueueApi.{queue_ack, queue_auth, is_authorized, with_queue}
use pincerbell.Gateway.System.{
  System, Reach, idle, arrives, goes_on, polls, start, later, go_on, attempt,
}
use pincerbell.Gateway.System.Acked.{acked_for_good}
use pincerbell.Gateway.System.Sample.{environment, config, first, built, worlds}

abbrev Anything : Worlds → Type 0
Anything w = Unit

abbrev Nothing : String → String → Type 0
Nothing app_id pushkey = ⊥

abbrev asked : System
asked = record {
  gateway = first;
  requests = record { notification = notification; tasks = tasks_of notification.devices } ∷ [];
}

-- The second device has no backend.
abbrev queueing : System
queueing = record {
  gateway = (go_on 0 1 10 worlds asked.gateway asked.requests).0;
  requests = (go_on 0 1 10 worlds asked.gateway asked.requests).1;
}

abbrev or_first : Option QueueState → QueueState
or_first none = record { queue = Queue.new 0 0 0; token_hash = []; rejected = Dedup.new 0 0 }
or_first (some q) = q

abbrev queue_then : QueueState
queue_then = or_first queueing.gateway.queue

abbrev request : PollRequest
request = record { max_batch = none; timeout_secs = some 0 }

opened : queue_auth environment.sha256 queueing.gateway (some "Bearer secret") ≡ ok queue_then
unfolding go_on tasks_of HashMap.get without_provider QueueSide.is_rejected Dedup.is_duplicate_at
    Dedup.new is_suppressed queue_auth is_authorized verify_token bytes_beq Queue.enqueue to_value
opened = refl

abbrev polled : System
polled = record queueing { gateway = with_queue queueing.gateway (attempt queue_then 20 request) }

polled-Reach : Reach environment.sha256 Anything Nothing (idle first) 3 polled
polled-Reach =
    later (later (later start (arrives notification)) (goes_on 0 1 10 worlds tt))
      (polls 20 (some "Bearer secret") request queue_then opened)

one_app : Distinct config.apps
unfolding HashMap.get
one_app = (refl, tt)

abbrev or_null : Option (Instant × Queue.Entry) → Value
or_null none = null
or_null (some (d, e)) = e.payload

abbrev lent : QueueState
lent = attempt queue_then 20 request

-- The entry, as it is leased.
abbrev entry : Queue.Entry
entry = record {
  id = 0;
  payload = or_null (HashMap.get lent.queue.leased 0);
  enqueued = 10;
  count_key = none;
}

leased : HashMap.get lent.queue.leased 0 ≡ some (60_000_000_020, entry)
unfolding attempt HashMap.get Queue.take_at go_on tasks_of without_provider QueueSide.is_rejected
    Dedup.is_duplicate_at Dedup.new is_suppressed Queue.enqueue to_value Queue.enqueue_at Queue.new
    Queue.is_live HashMap.insert
leased = refl

abbrev ack : AckRequest
ack = record { acked = 0 ∷ []; rejected_pushkeys = [] }

abbrev acked : AppState Provider
acked = with_queue polled.gateway (record lent { queue = Queue.ack lent.queue (0 ∷ []) })

accepted : queue_ack environment.sha256 polled.gateway 30 (some "Bearer secret") ack ≡ ok acked
unfolding queue_ack verify_token bytes_beq attempt go_on tasks_of HashMap.get without_provider
    QueueSide.is_rejected Dedup.is_duplicate_at Dedup.new is_suppressed Queue.enqueue to_value
accepted = refl

acked_for_good_example :
    ¬ Any
      (λ p. p.id ≡ 0)
      (batch_of (Queue.take_at (Queue.ack lent.queue (0 ∷ [])) 90_000_000_000 100))
unfolding with_queue
acked_for_good_example =
    acked_for_good environment.sha256 Anything Nothing environment config first 30
      (some "Bearer secret") ack acked lent (record lent { queue = Queue.ack lent.queue (0 ∷ []) })
      0 60_000_000_020 entry 90_000_000_000 100 one_app built polled-Reach accepted refl leased refl
      start (omega arith) refl
