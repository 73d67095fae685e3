-- ===== src/Json.antt =====
-- `serde_json::Value` as the program uses it. An object is a map: a key stands once, and a write
-- replaces. The program never depends on the order of the keys.
mod Laws
pub use Laws.*
mod Defs
pub use Defs.{
  ℤ, pos, negsuc, Value, null, bool, num, real, str, arr, obj, Items, nil, cons, Fields, end, field,
}
unfoldable pub use Defs.{get, put, put_opt, as_str, set}
