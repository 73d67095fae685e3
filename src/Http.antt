-- ===== src/Http.antt =====
-- What the delivery backends share: the answers of an HTTP client, which is no part of the
-- repository, and the outcomes of `src/provider.rs`.
mod Tests
use pincerbell.Base.{
  ℕ, ◌/◌, ◌%◌, ◌≡◌, refl, Bool, true, false, none, some, String, Result, ok, err, ltb, leb, nat_beq,
  ◌&&◌, if◌then◌else◌, suc, zero,
}
use text.Mathlib.Text.{find?}
use Prim.Native.String.{◌++◌}

-- A response: its status, and its body, which may fail to arrive.
pub record Response : Type 0 where
  pub status : ℕ
  pub text : Result String String

-- StatusCode::is_success, StatusCode::is_server_error
abbrev pub is_success : ℕ → Bool
is_success s = leb 200 s && ltb s 300

abbrev pub is_server_error : ℕ → Bool
is_server_error s = leb 500 s && ltb s 600

-- `resp.text().await.unwrap_or_default()`
abbrev pub body_of : Response → String
body_of r = elim r.text [ ok s ↦ s | err e ↦ "" ]

-- str::contains
unfoldable pub contains : String → String → Bool
contains s t = elim (find? s t) [ none ↦ false | some i ↦ true ]

-- What a transient failure is put down to; the messages of the source are kept as their parts.
pub data Reason : Type 0 where
  signing : String → Reason
  endpoint : String → Reason
  endpoint_status : ℕ → Reason
  endpoint_body : String → Reason
  network : String → Reason
  http : ℕ → Reason
  http_body : ℕ → String → Reason
  rng : String → Reason
  encryption : String → Reason

-- `Outcome` of src/provider.rs.
pub data Outcome : Type 0 where
  delivered : Outcome
  rejected : Outcome
  skipped : Outcome
  transient : Reason → Outcome

digit : ℕ → String
digit n =
    if nat_beq n 0
    then "0"
    else if nat_beq n 1
    then "1"
    else if nat_beq n 2
    then "2"
    else if nat_beq n 3
    then "3"
    else if nat_beq n 4
    then "4"
    else if nat_beq n 5
    then "5"
    else if nat_beq n 6
    then "6"
    else if nat_beq n 7
    then "7"
    else if nat_beq n 8
    then "8"
    else "9"

decimal : ℕ → ℕ → String
decimal zero n = ""
decimal (suc fuel) n =
    let front = decimal fuel (n / 10) in if ltb n 10 then digit n else front ++ digit (n % 10)

-- `to_string` of a u64: at most twenty digits.
unfoldable pub to_string : ℕ → String
unfolding decimal digit
to_string n = decimal 20 n
