-- ===== src/QueueSide/Tests.antt =====
-- The queue side's state on concrete inputs.
use pincerbell.Base.{◌≡◌, refl, [], ◌∷◌, ok}
use pincerbell.Text.{trim}
use pincerbell.Dedup
use pincerbell.Queue
use pincerbell.Environment.Sample.{environment, queue_config}
use pincerbell.QueueSide.{QueueState, new}

abbrev state : QueueState
state = record {
  queue = Queue.new 4 3600_000_000_000 60_000_000_000;
  token_hash = 6 ∷ [];
  rejected = Dedup.new 600_000_000_000 65536;
}

-- The white space around the token is cut off.
built : new environment queue_config ≡ ok state
unfolding new trim
built = refl
