-- ===== src/Apns/Laws.antt =====
-- When APNs rejects a pushkey, and which token a later delivery finds.
use pincerbell.Base.{◌≡◌, ◌↔◌, true, refl, arith, Result, ok, err, String, Result-cases, inl, inr}
use pincerbell.Api.{Notification, Device}
use pincerbell.Http.{Response, body_of, contains, Outcome}
use pincerbell.Apns.{ApnsApp, World, bearer_token, classify, answer, request_for, deliver}

pub answer-eq-rejected :
    (a : Result Response String)
    → ((answer a).0 ≡ Outcome.rejected) ↔ (
        (r : Response) × (a ≡ ok r)
        × (r.status ≡ 410)
        × (contains (body_of r) "Unregistered" ≡ true))
unfolding answer classify
answer-eq-rejected (err e) = (λ h. cc, λ h. ground (arith, h))
answer-eq-rejected (ok r) = (λ h. (r, refl, ground arith, ground arith), λ h. ground (arith, h))

-- A pushkey is rejected exactly if a token was at hand, the push service answered 410, and its
-- answer names Unregistered.
pub deliver-eq-rejected_apns :
    (app : ApnsApp) (w : World) (n : Notification) (device : Device)
    → ((deliver app w n device).0 ≡ Outcome.rejected) ↔ (
        (bearer : String) × (r : Response) × ((bearer_token app w).0 ≡ ok bearer)
        × (w.send (request_for app bearer n device) ≡ ok r)
        × (r.status ≡ 410)
        × (contains (body_of r) "Unregistered" ≡ true))
unfolding deliver
deliver-eq-rejected_apns app w n device = elim (Result-cases (bearer_token app w).0) [
  | inl (bearer, got) ↦ (
    λ h.
        let (r, sent, gone, named) =
          (answer-eq-rejected (w.send (request_for app bearer n device))).0
            (ground (arith, got, h)) in
        (bearer, r, got, sent, gone, named),
    λ (b, r, had, sent, gone, named).
        rw (got, deliver)
          ((answer-eq-rejected (w.send (request_for app bearer n device))).1
            (r, ground (arith, got, had, sent), gone, named)),
  )
  | inr (e, failed) ↦ (λ h. absurd (ground (arith, failed, h)), λ h. ground (arith, failed, h))
]
