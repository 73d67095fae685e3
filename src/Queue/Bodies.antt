-- ===== src/Queue/Bodies.antt =====
-- src/queue.rs: what the derived `Serialize` and `Deserialize` of the wire types write and read. On
-- the platforms it runs on, a usize is a u64.
pub mod RoundTrip
use pincerbell.Base.{ℕ, Option, none, some, List, [], ◌∷◌, String, Result, ok, err, ◌>>=◌}
use pincerbell.Json
use pincerbell.Json.{Value, null, str, arr, obj, Fields, end}
use pincerbell.Api.{nat_value, items_of}
use pincerbell.Api.Read.{fields_of, required, optional, read_string, read_u64, read_list}
use pincerbell.Queue.Wire.{PollRequest, PollEntry, PollResponse, RejectedPushkey, AckRequest}

-- A field that is written whether or not there is a value.
unfoldable pub option_value : Option ℕ → Value
option_value none = null
option_value (some n) = nat_value n

unfoldable pub request_value : PollRequest → Value
unfolding option_value
request_value r = obj (
    Json.put (Json.put end "timeout_secs" (option_value r.timeout_secs)) "max"
      (option_value r.max_batch))

unfoldable pub read_poll_request : Value → Result PollRequest String
read_poll_request v = do
  fs ← fields_of ("timeout_secs" ∷ "max" ∷ []) v
  timeout_secs ← optional read_u64 fs "timeout_secs"
  max_batch ← optional read_u64 fs "max"
  ok (record { timeout_secs = timeout_secs; max_batch = max_batch })

unfoldable pub entry_value : PollEntry → Value
entry_value e = obj (Json.put (Json.put end "id" (nat_value e.id)) "notification" e.notification)

unfoldable pub read_entry : Value → Result PollEntry String
read_entry v = do
  fs ← fields_of ("id" ∷ "notification" ∷ []) v
  id ← required read_u64 fs "id"
  notification ← required (λ v. ok v) fs "notification"
  ok (record { id = id; notification = notification })

unfoldable pub response_value : PollResponse → Value
unfolding entry_value
response_value r = obj (Json.put end "entries" (arr (items_of entry_value r.entries)))

unfoldable pub read_response : Value → Result PollResponse String
unfolding read_entry
read_response v = do
  fs ← fields_of ("entries" ∷ []) v
  entries ← required (read_list read_entry) fs "entries"
  ok (record { entries = entries })

unfoldable pub rejected_value : RejectedPushkey → Value
rejected_value r = obj (Json.put (Json.put end "app_id" (str r.app_id)) "pushkey" (str r.pushkey))

unfoldable pub read_rejected : Value → Result RejectedPushkey String
read_rejected v = do
  fs ← fields_of ("app_id" ∷ "pushkey" ∷ []) v
  app_id ← required read_string fs "app_id"
  pushkey ← required read_string fs "pushkey"
  ok (record { app_id = app_id; pushkey = pushkey })

unfoldable pub ack_value : AckRequest → Value
unfolding rejected_value
ack_value a = obj (
    Json.put (Json.put end "acked" (arr (items_of nat_value a.acked))) "rejected_pushkeys"
      (arr (items_of rejected_value a.rejected_pushkeys)))

-- A list that may be absent, but not `null`.
unfoldable pub or_empty {ℓ} :
    {A : Type ℓ} → (Value → Result A String) → Fields → String → Result (List A) String
or_empty read fs k = elim (Json.get fs k) [ none ↦ ok [] | some v ↦ read_list read v ]

unfoldable pub read_ack : Value → Result AckRequest String
unfolding or_empty read_rejected
read_ack v = do
  fs ← fields_of ("acked" ∷ "rejected_pushkeys" ∷ []) v
  acked ← or_empty read_u64 fs "acked"
  rejected_pushkeys ← or_empty read_rejected fs "rejected_pushkeys"
  ok (record { acked = acked; rejected_pushkeys = rejected_pushkeys })
