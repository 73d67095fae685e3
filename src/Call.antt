-- ===== src/Call.antt =====
-- A delivery under way, in any of the backends of src/fcm.rs, src/apns.rs and src/webpush.rs. The
-- backends share their cached tokens behind locks, and other deliveries go on between two locks
-- and at each await, so a delivery is cut there: it looks for a cached token, gets a new one where
-- there is none, sends its request, and ends with the answer.
use pincerbell.Http.{Outcome}

-- `M` is what a delivery keeps while it has no token yet, and `R` its request.
pub data Call (M R : Type 0) : Type 0 where
  looking : Call M R
  minting : M → Call M R
  sending : R → Call M R
  ended : Outcome → Call M R
