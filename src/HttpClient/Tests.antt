-- ===== src/HttpClient/Tests.antt =====
-- A client on concrete options.
use pincerbell.Base.{false, some, [], ◌∷◌}
use pincerbell.Environment.{Client}

abbrev client : Client
client = record {
  timeout = some 15_000_000_000;
  proxy = some "http://proxy.example.test";
  roots = (1 ∷ []) ∷ [];
  accept_invalid_certs = false;
}
