-- ===== src/Gateway/Retries.antt =====
-- A homeserver's retry reaches no device twice.
use pincerbell.Base.{
  string_eq, ◌<◌, ◌≤◌, ◌≡◌, ◌+◌, refl, true, false, some, String, arith, Bool-cases, Option-cases,
  inl, inr,
}
use pincerbell.Time.{Instant, is_zero}
use pincerbell.HashMap
use pincerbell.Api.{Notification, Device}
use pincerbell.Http.{Outcome}
use pincerbell.Dedup
use pincerbell.Dedup.{DedupCache, key_eq}
use pincerbell.Dedup.Invariant
use pincerbell.Dedup.Window.{is_duplicate_at-record_at_self}
use pincerbell.Gateway.{AppState, Disposition, Stage, is_suppressed, record_delivery, start, finish}

-- A window that is over stays over.
pub is_duplicate_at_later :
    (c : DedupCache) (now later : Instant) (e a p : String)
    → now ≤ later
    → Dedup.is_duplicate_at c now e a p ≡ false
    → Dedup.is_duplicate_at c later e a p ≡ false
unfolding Dedup.is_duplicate_at Dedup.is_within
is_duplicate_at_later c now later e a p le over =
    elim (Option-cases (HashMap.get c.seen (e, a, p))) [
      | inl absent ↦ ground (arith, absent)
      | inr (t, seen) ↦ ground (arith, seen, over)
    ]

module _ {ℓ} {P : Type ℓ} (st : AppState P) (n : Notification) (device : Device) where
  -- The stage reached at the start, whatever the state.
  start-eq-calling :
      (now : Instant) (p : P)
      → (start st now n device).1 ≡ Stage.calling p
      → (HashMap.get st.providers device.app_id ≡ some p)
        × (is_suppressed st.dedup now n.event_id device ≡ false)
  unfolding start
  start-eq-calling now p called = elim (Option-cases (HashMap.get st.providers device.app_id)) [
    | inl absent ↦ absurd (ground (arith, absent, called))
    | inr (p', there) ↦ elim (Bool-cases (is_suppressed st.dedup now n.event_id device)) [
      | inl held ↦ absurd (ground (arith, there, held, called))
      | inr open_ ↦ (ground (arith, there, open_, called), open_)
    ]
  ]

  suppressed_again :
      (event_id : String) (now later again : Instant)
      → Dedup.Invariant.IsValid st.dedup
      → is_zero st.dedup.ttl ≡ false
      → 0 < st.dedup.max_entries
      → is_suppressed st.dedup now (some event_id) device ≡ false
      → now ≤ later
      → later ≤ again
      → again < later + st.dedup.ttl
      → is_suppressed
          (record_delivery st.dedup later (some event_id) device)
          again
          (some event_id)
          device
        ≡ true
  unfolding is_suppressed record_delivery
  suppressed_again event_id now later again v on pos over le le' within = ground (
    arith,
    is_duplicate_at-record_at_self st.dedup later again event_id device.app_id device.pushkey v on
        pos le',
    is_duplicate_at_later st.dedup now later event_id device.app_id device.pushkey le over,
  )

  -- An event that a backend was asked to deliver to a device, and delivered, does not get to the
  -- backend again within `ttl` of the delivery: the device then counts as served at once, and
  -- nothing changes. This asks for a consistent cache that holds entries at all, for suppression
  -- to be on, for a clock that does not run back, and that the call changes nothing else
  -- meanwhile.
  pub start-finish_delivered :
      (event_id : String) (now later again : Instant) (p : P)
      → Dedup.Invariant.IsValid st.dedup
      → is_zero st.dedup.ttl ≡ false
      → 0 < st.dedup.max_entries
      → n.event_id ≡ some event_id
      → (start st now n device).1 ≡ Stage.calling p
      → now ≤ later
      → later ≤ again
      → again < later + st.dedup.ttl
      → start ((finish st later n device Outcome.delivered).0) again n device
        ≡ ((finish st later n device Outcome.delivered).0, Stage.settled Disposition.fine)
  unfolding start finish HashMap.get record_delivery
  start-finish_delivered event_id now later again p v on pos has called le le' within =
      let (there, over) = start-eq-calling now p called in
      let held =
        suppressed_again event_id now later again v on pos (rw has at over) le le' within in
      rw (there, has, held) refl
