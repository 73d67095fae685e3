-- ===== src/Webpush.antt =====
-- src/webpush.rs: the gate that decides which endpoints the Web Push backend may contact, its
-- payload, and what it makes of an answer. Hosts and the entries of the allowlist are lists of
-- bytes, as the source measures and indexes them; URLs are those of a library, which parses them.
pub mod Calls
pub mod Origins
pub mod Hosts
pub mod Encryption
pub mod Delivery
pub mod Contact
pub mod Construction
pub mod Tests
use pincerbell.Base.{
  ℕ, zero, suc, ◌+◌, ◌-◌, Bool, true, false, ◌&&◌, ◌||◌, Option, none, some, List, [], ◌∷◌, String,
  ◌==◌, string_eq, Result, ok, err, if◌then◌else◌, ltb, leb, nat_beq, length, drop, any,
}
use mathlib.Core.Option
use pincerbell.QueueSide.{bytes_beq}
use pincerbell.Json
use pincerbell.Json.{Value, pos, num, str, obj, end}
use pincerbell.Api.{Notification, Counts, Prio, priority}
use pincerbell.Http.{Response, is_success, is_server_error, Reason, Outcome}

abbrev pub Bytes : Type 0
Bytes = List ℕ

-- The parts of a parsed URL that the backend looks at.
pub record Url : Type 0 where
  pub scheme : String
  pub host : Option Bytes
  pub origin : String

pub data Denial : Type 0 where
  no_host : Denial
  bad_scheme : String → Denial
  bad_host : Bytes → Denial

-- "localhost", "127.0.0.1", "[::1]" and "::1"
abbrev pub loopback_hosts : List Bytes
loopback_hosts =
    (108 ∷ 111 ∷ 99 ∷ 97 ∷ 108 ∷ 104 ∷ 111 ∷ 115 ∷ 116 ∷ [])
    ∷ (49 ∷ 50 ∷ 55 ∷ 46 ∷ 48 ∷ 46 ∷ 48 ∷ 46 ∷ 49 ∷ [])
    ∷ (91 ∷ 58 ∷ 58 ∷ 49 ∷ 93 ∷ [])
    ∷ (58 ∷ 58 ∷ 49 ∷ [])
    ∷ []

unfoldable pub is_loopback : Bytes → Bool
is_loopback host = any (bytes_beq host) loopback_hosts

unfoldable pub byte_at : Bytes → ℕ → Option ℕ
byte_at [] k = none
byte_at (b ∷ bs) zero = some b
byte_at (b ∷ bs) (suc k) = byte_at bs k

unfoldable pub ends_with : Bytes → Bytes → Bool
ends_with host suffix =
    leb (length suffix) (length host) && bytes_beq (drop (length host - length suffix) host) suffix

abbrev pub dot : ℕ
dot = 46

unfoldable pub is_dot : Option ℕ → Bool
is_dot none = false
is_dot (some b) = nat_beq b dot

-- The test for an entry "*.suffix".
unfoldable pub is_subdomain : Bytes → Bytes → Bool
unfolding ends_with byte_at is_dot
is_subdomain host suffix =
    ltb (length suffix + 1) (length host)
    && (ends_with host suffix && is_dot (byte_at host (length host - length suffix - 1)))

-- The suffix of an entry "*.suffix".
unfoldable pub wildcard : Bytes → Option Bytes
wildcard [] = none
wildcard (a ∷ []) = none
wildcard (a ∷ b ∷ suffix) = if nat_beq a 42 && nat_beq b dot then some suffix else none

unfoldable pub is_covered : Bytes → Bytes → Bool
unfolding is_subdomain wildcard
is_covered host entry = elim (wildcard entry) [
  | some suffix ↦ is_subdomain host suffix
  | none ↦ bytes_beq host entry
]

unfoldable pub scheme_allowed : String → Bytes → Bool
unfolding is_loopback
scheme_allowed scheme host = scheme == "https" || (scheme == "http" && is_loopback host)

unfoldable pub endpoint_allowed : Url → List Bytes → Result (Unit {0}) Denial
unfolding scheme_allowed is_covered
endpoint_allowed url allowlist = elim url.host [
  | none ↦ err no_host
  | some host ↦
      if scheme_allowed url.scheme host
      then (if any (is_covered host) allowlist then ok tt else err (bad_host host))
      else err (bad_scheme url.scheme)
]

unfoldable pub build_payload : Notification → Value
build_payload n =
    let p0 = Json.put_opt end "event_id" (Option.map str n.event_id) in
    let p1 = Json.put_opt p0 "room_id" (Option.map str n.room_id) in
    let p2 = Json.put_opt p1 "type" (Option.map str n.event_type) in
    let p3 = Json.put_opt p2 "sender" (Option.map str n.sender) in
    let p4 = Json.put_opt p3 "sender_display_name" (Option.map str n.sender_display_name) in
    let p5 = Json.put_opt p4 "room_name" (Option.map str n.room_name) in
    let prio : String = elim (priority n) [ Prio.high ↦ "high" | Prio.low ↦ "low" ] in
    let p6 = Json.put p5 "prio" (str prio) in
    let unread = Option.bind n.counts (λ (c : Counts). c.unread) in
    let p7 = Json.put_opt p6 "unread" (Option.map (λ (u : ℕ). num (pos u)) unread) in
    let missed = Option.bind n.counts (λ (c : Counts). c.missed_calls) in
    obj (Json.put_opt p7 "missed_calls" (Option.map (λ (m : ℕ). num (pos m)) missed))

-- What `deliver` makes of the push service's answer.
unfoldable pub classify : Response → Outcome
classify r =
    if is_success r.status
    then Outcome.delivered
    else if nat_beq r.status 404 || nat_beq r.status 410
    then Outcome.rejected
    else if nat_beq r.status 401
        || nat_beq r.status 403
        || nat_beq r.status 408
        || nat_beq r.status 429
    then Outcome.transient (Reason.http r.status)
    else if is_server_error r.status
    then Outcome.transient (Reason.http r.status)
    else Outcome.skipped
