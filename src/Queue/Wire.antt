-- ===== src/Queue/Wire.antt =====
-- src/queue.rs: the wire types of the poll and ack endpoints, used by both sides.
use pincerbell.Base.{ℕ, Option, List, String}
use pincerbell.Json.{Value}

pub record PollRequest : Type 0 where
  pub timeout_secs : Option ℕ
  pub max_batch : Option ℕ

pub record PollEntry : Type 0 where
  pub id : ℕ
  pub notification : Value

pub record PollResponse : Type 0 where
  pub entries : List PollEntry

pub record RejectedPushkey : Type 0 where
  pub app_id : String
  pub pushkey : String

pub record AckRequest : Type 0 where
  pub acked : List ℕ
  pub rejected_pushkeys : List RejectedPushkey
