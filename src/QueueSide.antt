-- ===== src/QueueSide.antt =====
-- src/queue.rs: `QueueState`, what the endpoints of the queue side need. The digest is that of the
-- sha2 crate, a parameter.
pub mod Laws
mod Tests
use pincerbell.Base.{
  ℕ, ◌≡◌, ◌↔◌, ◌&&◌, Bool, true, false, List, [], ◌∷◌, String, Eq, ◌==◌, nat_eq, string_eq, Result,
  ok, err, ◌>>=◌, map_err, if◌then◌else◌, eq_iff, arith,
}
use Prim.Native.String.{◌++◌}
use pincerbell.Text.{trim}
use pincerbell.Environment.{Environment}
use pincerbell.Time.{Instant, from_secs}
use pincerbell.Config.{QueueConfig}
use pincerbell.Dedup
use pincerbell.Dedup.{DedupCache}
use pincerbell.Queue
use pincerbell.Queue.{NotificationQueue}

unfoldable pub bytes_beq : List ℕ → List ℕ → Bool
bytes_beq [] [] = true
bytes_beq [] (b ∷ bs) = false
bytes_beq (a ∷ xs) [] = false
bytes_beq (a ∷ xs) (b ∷ bs) = let rest = bytes_beq xs bs in a == b && rest

-- A SHA-256 digest has 32 bytes.
pub record QueueState : Type 0 where
  pub queue : NotificationQueue
  pub token_hash : List ℕ
  pub rejected : DedupCache

-- Each call of `QueueState` on its record of invalid pushkeys has the empty event id.
abbrev pub rejected_capacity : ℕ
rejected_capacity = 65536

unfoldable pub new : Environment → QueueConfig → Result QueueState String
new env cfg = do
  raw ←
      map_err (λ e. "queue auth_token_file " ++ cfg.auth_token_file ++ ": " ++ env.message e)
        (env.read_to_string cfg.auth_token_file)
  let token = trim raw
  if token == ""
      then err ("queue auth_token_file " ++ cfg.auth_token_file ++ " is empty")
      else ok (record {
        queue = Queue.new cfg.max_entries (from_secs cfg.entry_ttl_secs) (from_secs cfg.lease_secs);
        token_hash = env.sha256 token;
        rejected = Dedup.new (from_secs cfg.rejected_ttl_secs) rejected_capacity;
      })

unfoldable pub verify_token : (String → List ℕ) → QueueState → String → Bool
verify_token sha256 q presented = bytes_beq (sha256 presented) q.token_hash

unfoldable pub report_rejected : QueueState → Instant → String → String → QueueState
report_rejected q now app_id pushkey = record q {
  rejected = Dedup.record_at q.rejected now "" app_id pushkey;
}

unfoldable pub is_rejected : QueueState → Instant → String → String → Bool
is_rejected q now app_id pushkey = Dedup.is_duplicate_at q.rejected now "" app_id pushkey
