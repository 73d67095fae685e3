-- ===== src/HashMap.antt =====
-- `std::collections::HashMap` as the program uses it: lookups, insertion, removal and size. The
-- program never depends on the order of iteration (it sorts what it collects), so a map is an
-- association list; its functions are shut, and clients have the laws.
mod Laws
pub use Laws.*
mod Defs
pub use Defs.{HashMap, Distinct, empty}
unfoldable pub use Defs.{get, insert, remove, len}
