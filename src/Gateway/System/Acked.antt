-- ===== src/Gateway/System/Acked.antt =====
-- An ack to the gateway at work is for good.
use pincerbell.Base.{
  ℕ, ◌+◌, ◌≤◌, ◌<◌, ◌≡◌, ◌∙◌, sym, ap, subst, Option, some, List, String, ok, true, arith, length,
  Any, any, nat_beq, string_eq, nat_eq,
}
use pincerbell.Time.{Instant}
use pincerbell.HashMap
use pincerbell.HashMap.{Distinct}
use pincerbell.Config.{Config}
use pincerbell.Environment.{Environment}
use pincerbell.Queue
use pincerbell.Queue.{u64_mod}
use pincerbell.Queue.Runs
use pincerbell.Queue.Runs.{run}
use pincerbell.Queue.Take.{batch_of}
use pincerbell.Queue.Settled.{acked_never_again}
use pincerbell.Queue.Wire.{AckRequest}
use pincerbell.QueueSide.{QueueState}
use pincerbell.Provider.{Provider, Worlds}
use pincerbell.Gateway.{AppState}
use pincerbell.Gateway.Construction.{new}
use pincerbell.Gateway.QueueApi.{queue_ack}
use pincerbell.Gateway.System.{System, Reach, idle}
use pincerbell.Gateway.System.Sound.{Reach-IsSound}
use pincerbell.Gateway.System.Histories.{After, queue_ack-queue, Reach-After}

After-some :
    (b : ℕ) (x y : Option QueueState) (q q' : QueueState)
    → x ≡ some q
    → y ≡ some q'
    → After b x y
    → (calls : List Queue.Runs.Call) × (length calls ≤ b) × (q'.queue ≡ run q.queue calls)
After-some b x y q q' ex ey h =
    let (calls, few, e, _) = subst (λ v. After b (some q) v) ey (subst (λ u. After b u y) ex h) in
    (calls, few, e)

-- In a gateway that was built from a configuration, whose apps have each key once: an entry that is
-- leased when an ack with the right token names its id is handed out by no later poll, whatever
-- goes on in between and whatever the clock says, for fewer than 2^64 steps in all.
pub acked_for_good :
    (sha256 : String → List ℕ) (Says : Worlds → Type 0) (Reports : String → String → Type 0)
    (env : Environment) (config : Config) (first : AppState Provider) {k j : ℕ} {s t : System}
    (now : Instant) (header : Option String) (req : AckRequest) (st : AppState Provider)
    (q q' : QueueState) (id : ℕ) (d : Instant) (e : Queue.Entry) (later : Instant) (max_batch : ℕ)
    → Distinct config.apps
    → new env config ≡ ok first
    → Reach sha256 Says Reports (idle first) k s
    → queue_ack sha256 s.gateway now header req ≡ ok st
    → s.gateway.queue ≡ some q
    → HashMap.get q.queue.leased id ≡ some (d, e)
    → any (λ acked. nat_beq acked id) req.acked ≡ true
    → Reach sha256 Says Reports (record s { gateway = st }) j t
    → k + j < u64_mod
    → t.gateway.queue ≡ some q'
    → ¬ Any (λ p. p.id ≡ id) (batch_of (Queue.take_at q'.queue later max_batch))
acked_for_good sha256 Says Reports env config first {k} {j} {s} {t} now header req st q q' id d e
      later m distinct made before done there lent acked after small there' =
    let (q0, qa, there0, therea, is_ack, _) =
      queue_ack-queue sha256 s.gateway st now header req done in
    let same : q0 ≡ q = ground (arith, there0, there) in
    let sound =
      (Reach-IsSound sha256 Says Reports env config first distinct made before
          (omega (arith, small))).queue_sound
        q there in
    let (calls, few, e_run) =
      After-some j st.queue t.gateway.queue qa q' therea there'
        (Reach-After sha256 Says Reports after) in
    let is : q'.queue ≡ run (Queue.ack q.queue req.acked) calls =
      e_run
      ∙ ap (λ x. run x calls)
          (is_ack ∙ ap (λ (x : QueueState). Queue.ack x.queue req.acked) same) in
    subst (λ x. ¬ Any (λ p. p.id ≡ id) (batch_of (Queue.take_at x later m))) (sym is)
      (acked_never_again q.queue req.acked id d e calls later m sound.queue_valid lent acked
        (omega (arith, sound.few_ids, few, small)))
