-- ===== src/Gateway/Reported/Tasks.antt =====
-- The tasks of a reported device are rejected, in whatever order the deliveries go on.
use pincerbell.Base.{
  ℕ, zero, suc, ◌<◌, ◌≤◌, ◌≡◌, sym, ap, subst, none, some, List, [], ◌∷◌, String, All, Any,
  Option-cases, inl, inr, arith, string_eq, true, ◌∙◌, ◌⊎◌,
}
use pincerbell.Time.{Instant}
use pincerbell.HashMap
use pincerbell.HashMap.{HashMap}
use pincerbell.Api.{Notification, Device}
use pincerbell.Http.{Outcome}
use pincerbell.Dedup.{DedupCache, is_duplicate_at}
use pincerbell.QueueSide.{is_rejected}
use pincerbell.Gateway.{AppState, Disposition, Stage, start, finish}
use pincerbell.Gateway.Endpoints.{start_rejected}
use pincerbell.Gateway.Notify.{Task, fan_out, resume, resume_at, tasks_of, rejected_of}
use pincerbell.Gateway.Reported.Kept.{record_of, Same, start-Same, finish-Same}

-- A rejection of this pushkey.
unfoldable pub Rejects : String → Disposition → Type 0
Rejects pushkey Disposition.fine = ⊥
Rejects pushkey (Disposition.reject k) = k ≡ pushkey
Rejects pushkey Disposition.transient = ⊥

pub Any-rejected_of :
    (pushkey : String) (x : Disposition) (xs : List Disposition)
    → Rejects pushkey x ⊎ Any (λ k. k ≡ pushkey) (rejected_of xs)
    → Any (λ k. k ≡ pushkey) (rejected_of (x ∷ xs))
unfolding rejected_of Rejects
Any-rejected_of pushkey Disposition.fine xs (inl never) = absurd never
Any-rejected_of pushkey Disposition.fine xs (inr rest) = rest
Any-rejected_of pushkey (Disposition.reject k) xs found = found
Any-rejected_of pushkey Disposition.transient xs (inl never) = absurd never
Any-rejected_of pushkey Disposition.transient xs (inr rest) = rest

-- The device is settled with such a rejection.
unfoldable pub RejectedStage {ℓ} : {P : Type ℓ} → String → Stage P → Type 0
unfolding Rejects
RejectedStage pushkey (Stage.calling p) = ⊥
RejectedStage pushkey (Stage.settled d) = Rejects pushkey d

-- The pushkey `pushkey` of the app `app_id`, reported at `from` and rejected until `until`.
module _ {ℓ} {P : Type ℓ} (app_id pushkey : String) (from until : Instant) where
  -- The app has no backend, and the record has the pushkey.
  unfoldable pub Marked : AppState P → Type ℓ
  Marked st =
      (HashMap.get st.providers app_id ≡ none)
      × ((c : DedupCache) × (record_of st ≡ some c)
          × ((t : Instant) → from ≤ t → t < until → is_duplicate_at c t "" app_id pushkey ≡ true))

  Marked-Same : (st st' : AppState P) → Same st st' → Marked st → Marked st'
  unfolding Marked Same
  Marked-Same st st' (same_backends, same_record) (absent, (c, there, bad)) = (
    ap (λ (m : HashMap String P). HashMap.get m app_id) same_backends ∙ absent,
    (c, same_record ∙ there, bad),
  )

  -- If the device is the reported one: it is not looked at yet, or rejected.
  unfoldable pub Told : Task P → Type 0
  Told (device, none) = Unit
  Told (device, some s) =
      device.app_id ≡ app_id → device.pushkey ≡ pushkey → RejectedStage pushkey s

  start-Told :
      (st : AppState P) (now : Instant) (n : Notification) (device : Device)
      → Marked st
      → from ≤ now
      → now < until
      → Told (device, some (start st now n device).1)
  unfolding Told Marked record_of is_rejected RejectedStage Rejects
  start-Told st now n device (absent, (c, there, bad)) lo hi = λ app key.
      elim (Option-cases st.queue) [
        | inl off ↦ absurd (ground (arith, off, there))
        | inr (q, on) ↦
            let same : q.rejected ≡ c = ground (arith, on, there) in
            let rejects : is_rejected q now device.app_id device.pushkey ≡ true =
              rw (same, app, key) (bad now lo hi) in
            subst (λ (r : AppState P × Stage P). RejectedStage pushkey r.1)
              (sym (start_rejected st q now n device (rw app absent) on rejects)) key
      ]

  resume-Told :
      (n : Notification) (now : Instant) (answer : Outcome) (st : AppState P) (t : Task P)
      → from ≤ now
      → now < until
      → Marked st
      → Told t
      → Marked (resume n now answer st t).0 × Told (resume n now answer st t).1
  unfolding resume Told RejectedStage
  resume-Told n now answer st (device, none) lo hi m told = (
    Marked-Same st (start st now n device).0 (start-Same st now n device) m,
    start-Told st now n device m lo hi,
  )
  resume-Told n now answer st (device, some (Stage.calling p)) lo hi m told = (
    Marked-Same st (finish st now n device answer).0 (finish-Same st now n device answer) m,
    λ app key. absurd (told app key),
  )
  resume-Told n now answer st (device, some (Stage.settled d)) lo hi m told = (m, told)

  resume_at-Told :
      (n : Notification) (k : ℕ) (now : Instant) (answer : Outcome) (st : AppState P)
      (ts : List (Task P))
      → from ≤ now
      → now < until
      → Marked st
      → All Told ts
      → Marked (resume_at n k now answer st ts).0 × All Told (resume_at n k now answer st ts).1
  unfolding resume_at
  resume_at-Told n k now answer st [] lo hi m told = (m, tt)
  resume_at-Told n zero now answer st (t ∷ ts) lo hi m (told, tolds) =
      let (m', told') = resume-Told n now answer st t lo hi m told in (m', (told', tolds))
  resume_at-Told n (suc k) now answer st (t ∷ ts) lo hi m (told, tolds) =
      let (m', tolds') = resume_at-Told n k now answer st ts lo hi m tolds in (m', (told, tolds'))

  pub fan_out-Told :
      (n : Notification) (events : List (ℕ × Instant × Outcome)) (st : AppState P)
      (ts : List (Task P))
      → All (λ e. (from ≤ e.1) × (e.1 < until)) events
      → Marked st
      → All Told ts
      → All Told (fan_out n events st ts).1
  unfolding fan_out
  fan_out-Told n [] st ts within m told = told
  fan_out-Told n ((k, now, answer) ∷ events) st ts ((lo, hi), within) m told =
      let (m', told') = resume_at-Told n k now answer st ts lo hi m told in
      fan_out-Told n events (resume_at n k now answer st ts).0 (resume_at n k now answer st ts).1
        within m' told'

pub tasks_of-Told {ℓ} :
    (P : Type ℓ) (app_id pushkey : String) (from until : Instant) (ds : List Device)
    → All (Told app_id pushkey from until) (tasks_of {P = P} ds)
unfolding tasks_of Told
tasks_of-Told P app_id pushkey from until [] = tt
tasks_of-Told P app_id pushkey from until (d ∷ ds) =
    (tt, tasks_of-Told P app_id pushkey from until ds)
