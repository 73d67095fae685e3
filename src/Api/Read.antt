-- ===== src/Api/Read.antt =====
-- src/api.rs: the derived `Deserialize` of the wire types, from a JSON value. Unknown keys are passed
-- over, an absent optional field is `none`, and so is one that is `null`. A message of an error is
-- cut down to the key, or to what was expected.
use pincerbell.Base.{
  ℕ, ◌^◌, Bool, Option, none, some, List, [], ◌∷◌, String, Result, ok, err, ◌>>=◌, ltb, ◌==◌,
  string_eq, if◌then◌else◌,
}
use pincerbell.Json.{
  ℤ, pos, negsuc, Value, null, bool, num, real, str, arr, obj, Items, nil, cons, Fields, end, field,
}
use pincerbell.Json
use pincerbell.Api.{Prio, Counts, PusherData, Device, Notification}

-- An array stands for the fields in the order of their declaration, the last of which may be absent.
unfoldable pub by_position : List String → Items → Result Fields String
by_position names nil = ok end
by_position [] (cons v vs) = err "fewer elements in array"
by_position (k ∷ names) (cons v vs) = do fs ← by_position names vs; ok (field k v fs)

unfoldable pub fields_of : List String → Value → Result Fields String
unfolding by_position
fields_of names (obj fs) = ok fs
fields_of names (arr vs) = by_position names vs
fields_of names _ = err "struct"

unfoldable pub required {ℓ} :
    {A : Type ℓ} → (Value → Result A String) → Fields → String → Result A String
required read fs k = elim (Json.get fs k) [ none ↦ err k | some v ↦ read v ]

unfoldable pub read_each {ℓ} :
    {A : Type ℓ} → (Value → Result A String) → Items → Result (List A) String
read_each read nil = ok []
read_each read (cons v vs) = do a ← read v; rest ← read_each read vs; ok (a ∷ rest)

-- Vec<A>
unfoldable pub read_list {ℓ} :
    {A : Type ℓ} → (Value → Result A String) → Value → Result (List A) String
unfolding read_each
read_list read (arr vs) = read_each read vs
read_list read _ = err "sequence"

unfoldable pub read_option {ℓ} :
    {A : Type ℓ} → (Value → Result A String) → Option Value → Result (Option A) String
read_option read none = ok none
read_option read (some null) = ok none
read_option read (some v) = do a ← read v; ok (some a)

unfoldable pub optional {ℓ} :
    {A : Type ℓ} → (Value → Result A String) → Fields → String → Result (Option A) String
unfolding read_option
optional read fs k = read_option read (Json.get fs k)

unfoldable pub read_string : Value → Result String String
read_string (str s) = ok s
read_string _ = err "string"

unfoldable pub read_bool : Value → Result Bool String
read_bool (bool b) = ok b
read_bool _ = err "bool"

unfoldable pub read_u64 : Value → Result ℕ String
read_u64 (num (pos n)) = if ltb n (2 ^ 64) then ok n else err "u64"
read_u64 _ = err "u64"

unfoldable pub read_i64 : Value → Result ℤ String
read_i64 (num (pos n)) = if ltb n (2 ^ 63) then ok (pos n) else err "i64"
read_i64 (num (negsuc n)) = if ltb n (2 ^ 63) then ok (negsuc n) else err "i64"
read_i64 _ = err "i64"

-- Map<String, Value>
unfoldable pub read_map : Value → Result Fields String
read_map (obj fs) = ok fs
read_map _ = err "map"

unfoldable pub prio_of : String → Result Prio String
prio_of s =
    if s == "high" then ok Prio.high else if s == "low" then ok Prio.low else err "unknown variant"

-- A variant is its name, or an object with the name as the one key and `null` in it.
unfoldable pub read_prio : Value → Result Prio String
unfolding prio_of
read_prio (str s) = prio_of s
read_prio (obj (field s null end)) = prio_of s
read_prio _ = err "enum"

unfoldable pub read_counts : Value → Result Counts String
unfolding fields_of optional read_u64
read_counts v = do
  fs ← fields_of ("unread" ∷ "missed_calls" ∷ []) v
  unread ← optional read_u64 fs "unread"
  missed_calls ← optional read_u64 fs "missed_calls"
  ok (record { unread = unread; missed_calls = missed_calls })

-- The entries under other keys.
unfoldable pub without : String → Fields → Fields
without k end = end
without k (field j v fs) = let rest = without k fs in if j == k then rest else field j v rest

-- With a flattened field only an object is read.
unfoldable pub read_pusher_data : Value → Result PusherData String
unfolding optional read_string read_map without
read_pusher_data v = do
  fs ← read_map v
  format ← optional read_string fs "format"
  ok (record { format = format; rest = without "format" fs })

unfoldable pub read_device : Value → Result Device String
unfolding fields_of required optional read_string read_i64 read_pusher_data read_map
read_device v = do
  fs ← fields_of ("app_id" ∷ "pushkey" ∷ "pushkey_ts" ∷ "data" ∷ "tweaks" ∷ []) v
  app_id ← required read_string fs "app_id"
  pushkey ← required read_string fs "pushkey"
  pushkey_ts ← optional read_i64 fs "pushkey_ts"
  pusher_data ← optional read_pusher_data fs "data"
  tweaks ← optional read_map fs "tweaks"
  ok (record {
    app_id = app_id;
    pushkey = pushkey;
    pushkey_ts = pushkey_ts;
    pusher_data = pusher_data;
    tweaks = tweaks;
  })

unfoldable pub notification_of : Fields → Result Notification String
unfolding required optional read_list read_device read_counts read_string read_bool read_prio
notification_of fs = do
  devices ← required (read_list read_device) fs "devices"
  content ← optional (λ v. ok v) fs "content"
  counts ← optional read_counts fs "counts"
  event_id ← optional read_string fs "event_id"
  room_id ← optional read_string fs "room_id"
  event_type ← optional read_string fs "type"
  sender ← optional read_string fs "sender"
  sender_display_name ← optional read_string fs "sender_display_name"
  room_name ← optional read_string fs "room_name"
  room_alias ← optional read_string fs "room_alias"
  user_is_target ← optional read_bool fs "user_is_target"
  prio ← optional read_prio fs "prio"
  ok (record {
    devices = devices;
    content = content;
    counts = counts;
    event_id = event_id;
    room_id = room_id;
    event_type = event_type;
    sender = sender;
    sender_display_name = sender_display_name;
    room_name = room_name;
    room_alias = room_alias;
    user_is_target = user_is_target;
    prio = prio;
  })

unfoldable pub read_notification : Value → Result Notification String
unfolding fields_of notification_of
read_notification v = do
  fs ←
      fields_of
        ("devices" ∷ "content" ∷ "counts" ∷ "event_id" ∷ "room_id" ∷ "type" ∷ "sender"
          ∷ "sender_display_name" ∷ "room_name" ∷ "room_alias" ∷ "user_is_target" ∷ "prio" ∷ [])
        v
  notification_of fs

pub record NotifyRequest : Type 0 where
  pub notification : Notification

unfoldable pub read_request : Value → Result NotifyRequest String
unfolding fields_of required read_notification
read_request v = do
  fs ← fields_of ("notification" ∷ []) v
  notification ← required read_notification fs "notification"
  ok (record { notification = notification })
