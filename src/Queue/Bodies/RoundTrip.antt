-- ===== src/Queue/Bodies/RoundTrip.antt =====
-- The bodies of the poll and ack endpoints cross the wire unchanged.
use pincerbell.Base.{ℕ, ◌^◌, ◌<◌, string_eq}
use pincerbell.Json
use pincerbell.Json.{null, obj}

abbrev IsU64 : ℕ → Type 0
IsU64 n = n < 2 ^ 64
