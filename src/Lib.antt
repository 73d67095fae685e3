-- ===== src/Lib.antt =====
-- pincerbell: a push gateway for Matrix homeservers. A homeserver posts a notification for a number
-- of devices; the gateway delivers it through the backend that is configured for each device's app,
-- or, in queue mode, holds it for another instance that polls for it and delivers it there.
--
-- The parts, and the file that models each:
--   src/dedup.rs     Dedup      the record of recent deliveries: `is_duplicate_at`, `record_at`
--   src/queue.rs     Queue      the ring buffer: `enqueue`, `take_at`, `poll_wait`, `ack`
--                    Queue/Wire the bodies of the poll and ack endpoints, Queue/Bodies their JSON
--                    QueueSide  `QueueState`: the token and the record of invalid pushkeys
--   src/gateway.rs   Gateway    the state, `deliver_one` and `queue_one`
--                    Gateway/Notify `notify`
--                    Gateway/QueueApi `queue_auth`, `queue_poll`, `queue_ack`
--                    Gateway/Reported `notify` behind a `queue_ack`
--                    Gateway/Construction `AppState::new`
--                    Gateway/Backends `deliver_one` with the backends of Provider
--                    Gateway/Interleaved `notify` with these, part by part
--                    Gateway/System all requests, polls and acks over one state
--   src/poller.rs    Poller     `poll_once` and `run`, for any number of cycles
--                    Poller/Upstreams `Upstream::load`, the requests, `health_check`
--   src/api.rs       Api        the notification and its serialization, over the JSON of Json
--                    Api/Read   its deserialization
--   src/fcm.rs       Fcm        delivery via FCM, with the cached access token
--   src/apns.rs      Apns       delivery via APNs, with the cached provider token
--   src/webpush.rs   Webpush    the endpoint allowlist and the payload; Webpush/Encryption the message,
--                               Webpush/Delivery the subscription, the tokens and `deliver`
--                    Fcm/, Apns/, Webpush/ and Provider/Construction the `new` of each
--                    Fcm/, Apns/, Webpush/ and Provider/Calls each `deliver` in its parts, over Call
--   src/config.rs    Config     types, defaults and the resolution of the HTTP options
--                    Config/Loading `Config::load`
--   src/provider.rs  Provider   the backends and `deliver`; Http has `Outcome`, and what the backends
--                               share of an HTTP response
--                    HttpClient `http_client`
--   src/main.rs      Startup    `config_path` and `main`
-- Relay has what queue side and poll side do together. HashMap, Time and Text stand for the maps, the
-- clocks and the texts of the standard library, Environment for what the process finds outside when
-- it starts, Base for what all share.
--
-- State and operations. The state of each part is a record with the fields of the source, and each
-- method a function on it with the method's name. A mutex makes a method of the cache and of the
-- queue one step. `Instant::now()` is an argument, as in the source's own `_at` methods. The methods
-- `queue_one` and `queue_ack`, which never wait, read the clock once in the model and are one step
-- each; in the program `queue_one` takes the locks of the record, the cache and the queue one after
-- another, and other threads may come between. The concurrent
-- deliveries of `notify` are tasks that go on in the order of a list of events, so that a theorem on
-- `notify` is one on all interleavings: `deliver_one` is cut where it awaits the backend, into
-- `start` and `finish`. In Gateway/Interleaved it is cut further, at each lock of a cached token and at
-- each await, and the tokens are part of the state that the deliveries share; each part has its own
-- answers from outside. Gateway/System is the step relation of the whole server: notifications arrive,
-- deliveries go on part by part, callers leave, and the poll side polls and acks. The waiting poll
-- takes the wake-ups as a list: what other tasks did to the queue meanwhile, and the clock after it.
-- Its deadline is the end of that list.
--
-- Parameters. The answers of push services, of the token endpoint and of an upstream queue come as
-- arguments, and so do the signing of tokens, SHA-256 and the rest of the cryptography, base64 and
-- the parsing of URLs. The poll side is over any `deliver_one`, and its cycle over any reading of an
-- entry, which Relay takes to be that of Api/Read. At the start, the files, the parsers of TOML, JSON
-- and keys, and the library that builds clients are the fields of `Environment`. The text of
-- the Authorization header is what `HeaderValue::to_str` gives; Relay/Access has that function as a
-- parameter, with what it is documented to accept. Messages of errors
-- are kept as their parts, or as the texts of the source.
--
-- Numbers. The ids of the queue are 64-bit and wrap round; the theorems that need distinct ids ask
-- for fewer than 2^64 enqueues. Times are nanoseconds without a bound, and `duration_since` stops at
-- zero as in the source. The program panics where the sum of a moment and a duration does not fit an
-- `Instant`; the theorem that `notify` answers asks that it fits. A number is printed with at most
-- twenty digits, enough for a u64.
-- All loops are structural; no function runs on fuel but the printing of numbers.
--
-- Not modelled: the table by which a library routes requests to the handlers, and the constant answer
-- of the health check; the wait of `queue_poll` in Gateway/System, where a poll is any number of
-- attempts; log lines; and the signals that end the program.
pub mod Base
pub mod HashMap
pub mod Time
pub mod Text
pub mod Environment
pub mod HttpClient
pub mod Dedup
pub mod Json
pub mod Api
pub mod Queue
pub mod QueueSide
pub mod Relay
pub mod Gateway
pub mod Poller
pub mod Http
pub mod Fcm
pub mod Config
pub mod Apns
pub mod Webpush
pub mod Call
pub mod Provider
pub mod Startup
