-- ===== src/Gateway/System.antt =====
-- src/gateway.rs at work: the requests of the homeserver whose deliveries are under way, and the
-- polls and acks of the poll side, over one state, in any order of their parts.
pub mod Effects
pub mod Histories
pub mod Acked
pub mod Sound
pub mod Sample
mod Tests
mod QueueTests
pub mod Tidy
pub mod Serving
pub mod Calling
pub mod Built
pub mod Origins
pub mod Safety
use pincerbell.Base.{ℕ, zero, suc, ◌≡◌, List, [], ◌∷◌, Option, String, Result, ok, All}
use pincerbell.Time.{Instant}
use pincerbell.Api.{Notification}
use pincerbell.Queue
use pincerbell.Queue.Take.{queue_of}
use pincerbell.Queue.Wire.{PollRequest, AckRequest}
use pincerbell.QueueSide.{QueueState}
use pincerbell.Provider.{Provider, Worlds}
use pincerbell.Provider.Calls.{Running}
use pincerbell.Gateway.{AppState}
use pincerbell.Gateway.Notify.{Task, tasks_of}
use pincerbell.Gateway.QueueApi.{queue_auth, batch_size, queue_ack, with_queue}
use pincerbell.Gateway.Interleaved.{advance_at}

-- A running `notify`.
pub record Request : Type 0 where
  pub notification : Notification
  pub tasks : List (Task Running)

pub record System : Type 0 where
  pub gateway : AppState Provider
  pub requests : List Request

-- Task `k` of request `i` goes on by one part.
unfoldable pub go_on :
    ℕ → ℕ → Instant → Worlds → AppState Provider → List Request → AppState Provider × List Request
unfolding advance_at
go_on i k now w st [] = (st, [])
go_on zero k now w st (r ∷ rs) =
    let (st', ts) = advance_at r.notification now w k st r.tasks in
    (st', record r { tasks = ts } ∷ rs)
go_on (suc i) k now w st (r ∷ rs) = let (st', rs') = go_on i k now w st rs in (st', r ∷ rs')

unfoldable pub drop_at {ℓ} : {A : Type ℓ} → ℕ → List A → List A
drop_at i [] = []
drop_at zero (x ∷ xs) = xs
drop_at (suc i) (x ∷ xs) = x ∷ drop_at i xs

-- One attempt of `queue_poll`, of which it makes one at once and one after each wake-up.
unfoldable pub attempt : QueueState → Instant → PollRequest → QueueState
unfolding batch_size
attempt q now req = record q { queue = queue_of (Queue.take_at q.queue now (batch_size req)) }

-- `Says` is what the outside may answer to a delivery, and `Reports` the pushkeys that the poll side
-- may report.
pub data Step (sha256 : String → List ℕ) (Says : Worlds → Type 0)
    (Reports : String → String → Type 0) (s : System) : System → Type 0 where
  arrives :
      (n : Notification)
      → Step sha256 Says Reports s (record s {
        requests = record { notification = n; tasks = tasks_of n.devices } ∷ s.requests;
      })
  goes_on :
      (i k : ℕ) (now : Instant) (w : Worlds)
      → Says w
      → Step sha256 Says Reports s (record {
        gateway = (go_on i k now w s.gateway s.requests).0;
        requests = (go_on i k now w s.gateway s.requests).1;
      })
  -- The homeserver hangs up, or has its answer.
  leaves : (i : ℕ) → Step sha256 Says Reports s (record s { requests = drop_at i s.requests })
  polls :
      (now : Instant) (header : Option String) (req : PollRequest) (q : QueueState)
      → queue_auth sha256 s.gateway header ≡ ok q
      → Step sha256 Says Reports s (record s { gateway = with_queue s.gateway (attempt q now req) })
  acks :
      (now : Instant) (header : Option String) (req : AckRequest) (st : AppState Provider)
      → queue_ack sha256 s.gateway now header req ≡ ok st
      → All (λ r. Reports r.app_id r.pushkey) req.rejected_pushkeys
      → Step sha256 Says Reports s (record s { gateway = st })

-- No request is running.
abbrev pub idle : AppState Provider → System
idle st = record { gateway = st; requests = [] }

-- What is reached from a state, and in how many steps.
pub data Reach (sha256 : String → List ℕ) (Says : Worlds → Type 0)
    (Reports : String → String → Type 0) (first : System) : ℕ → System → Type 0 where
  start : Reach sha256 Says Reports first 0 first
  later :
      {k : ℕ} {s t : System}
      → Reach sha256 Says Reports first k s
      → Step sha256 Says Reports s t
      → Reach sha256 Says Reports first (suc k) t
