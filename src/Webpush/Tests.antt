-- ===== src/Webpush/Tests.antt =====
-- The gate of the Web Push backend on concrete inputs.
use pincerbell.Base.{
  none, arith, ◌+◌, ◌≡◌, ◌↔◌, ◌⊎◌, refl, true, some, [], ◌∷◌, ok, err, Any, false,
}
use pincerbell.QueueSide.{bytes_beq}
use pincerbell.Webpush.{
  Bytes, Url, Denial, is_loopback, is_covered, is_subdomain, ends_with, byte_at, is_dot, wildcard,
  scheme_allowed, endpoint_allowed,
}
use pincerbell.HashMap
use pincerbell.Json
use pincerbell.Json.{str, field, end}
use pincerbell.Api.{Notification, Device}
use pincerbell.Http.{Response}
use pincerbell.Webpush.Encryption.{Crypto}
use pincerbell.Webpush.Delivery.{
  WebPushApp, World, Subscription, CachedToken, subscription, cached_header, fresh_header,
  vapid_header, vapid_lifetime,
}
use pincerbell.Webpush.Contact.{vapid_header-reuse}
use pincerbell.Webpush.Hosts.{Covers, endpoint_allowed-eq-ok}

-- "a.b.c" and "*.b.c"
abbrev host : Bytes
host = 97 ∷ 46 ∷ 98 ∷ 46 ∷ 99 ∷ []

abbrev entry : Bytes
entry = 42 ∷ 46 ∷ 98 ∷ 46 ∷ 99 ∷ []

abbrev pub url : Url
url = record { scheme = "https"; host = some host; origin = "https://a.b.c" }

endpoint_allowed-eq-ok_example : (endpoint_allowed url (entry ∷ []) ≡ ok tt) ↔ (
    (h : Bytes) × (some host ≡ some h)
    × ((url.scheme ≡ "https") ⊎ ((url.scheme ≡ "http") × (is_loopback h ≡ true)))
    × Any (Covers h) (entry ∷ []))
endpoint_allowed-eq-ok_example = endpoint_allowed-eq-ok url (entry ∷ [])

subdomain_allowed : endpoint_allowed url (entry ∷ []) ≡ ok tt
unfolding endpoint_allowed scheme_allowed is_covered is_subdomain ends_with byte_at is_dot wildcard
    bytes_beq
subdomain_allowed = refl

-- The suffix alone, "b.c", and a host that only ends in it, "ab.c" for "*.b.c", are denied.
abbrev bare : Bytes
bare = 98 ∷ 46 ∷ 99 ∷ []

bare_denied :
    endpoint_allowed (record url { host = some bare }) (entry ∷ []) ≡ err (Denial.bad_host bare)
unfolding endpoint_allowed scheme_allowed is_covered is_subdomain ends_with byte_at is_dot wildcard
    bytes_beq
bare_denied = refl

abbrev glued : Bytes
glued = 97 ∷ 98 ∷ 46 ∷ 99 ∷ []

glued_denied :
    endpoint_allowed (record url { host = some glued }) (entry ∷ []) ≡ err (Denial.bad_host glued)
unfolding endpoint_allowed scheme_allowed is_covered is_subdomain ends_with byte_at is_dot wildcard
    bytes_beq
glued_denied = refl

abbrev pub app : WebPushApp
app = record {
  client = record {
    timeout = some 15_000_000_000;
    proxy = none;
    roots = [];
    accept_invalid_certs = false;
  };
  public_key_b64 = "key";
  contact = "mailto:me";
  allowed_endpoints = entry ∷ [];
  tokens = [];
}

abbrev gone : Response
gone = record { status = 410; text = ok "" }

abbrev crypto : Crypto
crypto = record {
  public_of = λ k. k;
  shared = λ k l. k;
  expand = λ s i f n. ok i;
  seal = λ k n t. ok t;
}

-- Every endpoint is the one of `at`.
abbrev pub world_at : Url → World
world_at at_url = record {
  decode = λ s. ok [];
  encode = λ s. s;
  public_key = λ b. ok b;
  parse_url = λ s. ok at_url;
  print = λ v. "{}";
  utf8 = λ s. [];
  crypto = crypto;
  secret = 7 ∷ [];
  salt = ok (1 ∷ []);
  now = 0;
  unix_now = 1000;
  signed_at = 5;
  sign = λ s. "sig";
  send = λ r. ok gone;
}

abbrev device : Device
device = record {
  app_id = "a";
  pushkey = "k";
  pushkey_ts = none;
  pusher_data = some (record {
    format = none;
    rest = field "endpoint" (str "https://a.b.c") (field "auth" (str "x") end);
  });
  tweaks = none;
}

abbrev notification : Notification
notification = record {
  devices = device ∷ [];
  content = none;
  counts = none;
  event_id = some "e";
  room_id = none;
  event_type = none;
  sender = none;
  sender_display_name = none;
  room_name = none;
  room_alias = none;
  user_is_target = none;
  prio = none;
}

abbrev bare_url : Url
bare_url = record url { host = some bare }

abbrev bare_subscription : Subscription
bare_subscription = record { endpoint = bare_url; p256dh = []; auth = [] }

bare_made : subscription (world_at bare_url) device ≡ ok bare_subscription
unfolding subscription Json.get Json.as_str
bare_made = refl

abbrev token : CachedToken
token = record { header = fresh_header app (world_at url) url.origin; expires = 5 + vapid_lifetime }

vapid_header-reuse_example :
    vapid_header (vapid_header app (world_at url) url).1 (record (world_at url) { now = 9 }) url
    ≡ vapid_header app (world_at url) url
unfolding vapid_header cached_header HashMap.get HashMap.insert HashMap.remove
vapid_header-reuse_example =
    vapid_header-reuse app (world_at url) (record (world_at url) { now = 9 }) url token refl
      (omega arith)
