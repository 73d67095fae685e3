-- ===== src/Poller/Upstreams.antt =====
-- src/poller.rs: an upstream, and the requests that go to it.
use pincerbell.Base.{
  ℕ, ◌+◌, ◌%◌, ◌^◌, none, some, String, ◌==◌, string_eq, Result, ok, err, ◌>>=◌, map_err,
  if◌then◌else◌,
}
use Prim.Native.String.{◌++◌}
use pincerbell.Text.{trim, trim_end_slashes}
use pincerbell.Time.{Duration, from_secs}
use pincerbell.Config.{PollUpstream, HttpOptions, upstream_http_options}
use pincerbell.Environment.{Environment, Client}
use pincerbell.HttpClient.{http_client}
use pincerbell.Queue.Wire.{PollRequest, AckRequest}

pub record Upstream : Type 0 where
  pub url : String
  pub token : String
  pub timeout_secs : ℕ
  pub max_batch : ℕ
  pub client : Client

-- Upstream::load
unfoldable pub load : Environment → PollUpstream → HttpOptions → Result Upstream String
load env cfg defaults = do
  client ←
      map_err (λ e. "poll " ++ cfg.url ++ ": " ++ e)
        (http_client env (upstream_http_options cfg defaults) none)
  raw ←
      map_err (λ e. "poll auth_token_file " ++ cfg.auth_token_file ++ ": " ++ env.message e)
        (env.read_to_string cfg.auth_token_file)
  let token = trim raw
  if token == ""
      then err ("poll auth_token_file " ++ cfg.auth_token_file ++ " is empty")
      else ok (record {
        url = trim_end_slashes cfg.url;
        token = token;
        timeout_secs = cfg.timeout_secs;
        max_batch = cfg.max_batch;
        client = client;
      })

-- A request with a body that is sent with the upstream's client.
pub record Post (B : Type 0) : Type 0 where
  pub url : String
  pub authorization : String
  pub timeout : Duration
  pub json : B

-- reqwest's `bearer_auth`: the characters of the header. What the other side sees of them as text is
-- up to its `HeaderValue::to_str`; reqwest sends no request with a control character in it.
abbrev pub bearer : String → String
bearer token = "Bearer " ++ token

-- The timeout in seconds is a u64.
unfoldable pub poll_request : Upstream → Post PollRequest
poll_request up = record {
  url = up.url ++ "/_pincerbell/v1/poll";
  authorization = bearer up.token;
  timeout = from_secs ((up.timeout_secs + 30) % 2 ^ 64);
  json = record { timeout_secs = some up.timeout_secs; max_batch = some up.max_batch };
}

unfoldable pub ack_request : Upstream → AckRequest → Post AckRequest
ack_request up a = record {
  url = up.url ++ "/_pincerbell/v1/ack";
  authorization = bearer up.token;
  timeout = from_secs 30;
  json = a;
}

-- What the upstream's answer to a GET of the address within ten seconds is, is given; an error is
-- that of the request.
unfoldable pub health_check : (String → Duration → Result ℕ String) → Upstream → Result ℕ String
health_check get up = get (up.url ++ "/health") (from_secs 10)
