-- ===== src/QueueSide/Laws.antt =====
-- What the queue side's token and record of invalid pushkeys guarantee.
use pincerbell.Base.{
  ℕ, ◌≡◌, ◌≢◌, ◌↔◌, ◌-◌, ◌<◌, ◌≤◌, refl, true, false, List, [], ◌∷◌, String, ◌==◌, string_eq, ok,
  if◌then◌else◌, ltb, arith, Bool-cases, Result-cases, inl, inr, nat_eq, eq_iff,
}
use pincerbell.Text.{trim}
use pincerbell.Environment.{Environment}
use pincerbell.Time.{Instant, from_secs, is_zero}
use pincerbell.Config.{QueueConfig}
use pincerbell.Dedup
use pincerbell.Dedup.Invariant.{record_at-IsValid}
use pincerbell.Dedup.Window.{is_duplicate_at-record_at_self}
use pincerbell.Queue
use pincerbell.QueueSide.{
  QueueState, rejected_capacity, bytes_beq, new, verify_token, report_rejected, is_rejected,
}

pub bytes_beq_iff : (xs bs : List ℕ) → (bytes_beq xs bs ≡ true) ↔ (xs ≡ bs)
unfolding bytes_beq
bytes_beq_iff [] [] = (λ _. refl, λ _. refl)
bytes_beq_iff [] (b ∷ bs) = (λ h. ground arith, λ h. ground (arith, h))
bytes_beq_iff (a ∷ xs) [] = (λ h. ground arith, λ h. ground (arith, h))
bytes_beq_iff (a ∷ xs) (b ∷ bs) =
    (λ h. ground (arith, bytes_beq_iff xs bs), λ h. ground (arith, h, bytes_beq_iff xs bs))

-- A new queue side has an empty queue and an empty record.
pub queue-new :
    (env : Environment) (cfg : QueueConfig) (q : QueueState)
    → new env cfg ≡ ok q
    → (q.queue
        ≡ Queue.new cfg.max_entries (from_secs cfg.entry_ttl_secs) (from_secs cfg.lease_secs))
      × (q.rejected ≡ Dedup.new (from_secs cfg.rejected_ttl_secs) rejected_capacity)
unfolding new
queue-new env cfg q made = elim (Result-cases (env.read_to_string cfg.auth_token_file)) [
  | inr (e, failed) ↦ absurd (ground (arith, made, failed))
  | inl (raw, got) ↦ elim (Bool-cases (trim raw == "")) [
    | inl empty ↦ absurd (ground (arith, got, made, empty))
    | inr full ↦ (ground (arith, got, made, full), ground (arith, got, made, full))
  ]
]

pub token_hash-new :
    (env : Environment) (cfg : QueueConfig) (q : QueueState) (raw : String)
    → new env cfg ≡ ok q
    → env.read_to_string cfg.auth_token_file ≡ ok raw
    → q.token_hash ≡ env.sha256 (trim raw)
unfolding new
token_hash-new env cfg q raw made got = elim (Bool-cases (trim raw == "")) [
  | inl empty ↦ absurd (ground (arith, got, made, empty))
  | inr full ↦ ground (arith, got, made, full)
]

-- A queue side starts only with a token file that can be read and holds more than white space, and
-- then accepts the text of that file without the white space around it, and no other: none whose
-- digest differs, so that a wrong token passes only where the digests collide.
verify_token-new :
    (env : Environment) (cfg : QueueConfig) (q : QueueState) (presented : String)
    → new env cfg ≡ ok q
    → (raw : String) × (env.read_to_string cfg.auth_token_file ≡ ok raw)
      × (trim raw ≢ "")
      × ((verify_token env.sha256 q presented ≡ true)
          ↔ (env.sha256 presented ≡ env.sha256 (trim raw)))
unfolding new verify_token
verify_token-new env cfg q presented made =
    elim (Result-cases (env.read_to_string cfg.auth_token_file)) [
      | inr (e, failed) ↦ absurd (ground (arith, made, failed))
      | inl (raw, got) ↦ elim (Bool-cases (trim raw == "")) [
        | inl empty ↦ absurd (ground (arith, got, made, empty))
        | inr full ↦
            let hash = token_hash-new env cfg q raw made got in
            (
              raw,
              got,
              ground (arith, full, eq_iff (trim raw) ""),
              rw hash (bytes_beq_iff (env.sha256 presented) (env.sha256 (trim raw))),
            )
      ]
    ]

-- A pushkey that the poll side reports is known as invalid for `ttl` from that moment on, or, if
-- it was known already, for as long as that holds. This asks for a consistent record that is on
-- and holds entries at all, and a clock that does not run back.
pub is_rejected-report_rejected :
    (q : QueueState) (now later : Instant) (app_id pushkey : String)
    → Dedup.Invariant.IsValid q.rejected
    → is_zero q.rejected.ttl ≡ false
    → 0 < q.rejected.max_entries
    → now ≤ later
    → is_rejected (report_rejected q now app_id pushkey) later app_id pushkey ≡ (
        if is_rejected q now app_id pushkey
        then is_rejected q later app_id pushkey
        else ltb (later - now) q.rejected.ttl)
unfolding is_rejected report_rejected
is_rejected-report_rejected q now later app_id pushkey v on pos le =
    is_duplicate_at-record_at_self q.rejected now later "" app_id pushkey v on pos le
