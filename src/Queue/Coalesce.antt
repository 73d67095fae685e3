-- ===== src/Queue/Coalesce.antt =====
-- Count-only notifications: only the newest of a device is live.
use pincerbell.HashMap
use pincerbell.HashMap.{HashMap}
use pincerbell.Queue.Filling.{Filling}
