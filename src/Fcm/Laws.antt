-- ===== src/Fcm/Laws.antt =====
-- When FCM rejects a pushkey, and how long a token is reused.
use pincerbell.Base.{
  ◌+◌, ◌<◌, ◌≡◌, ◌↔◌, true, refl, arith, some, Result, ok, err, String, Result-cases, inl, inr,
}
use pincerbell.Api.{Notification, Device}
use pincerbell.Http.{Response, body_of, contains, Outcome}
use pincerbell.Fcm.{
  FcmApp, World, CachedToken, token_refresh_margin, cached_bearer, fetch_token, store_token,
  access_token, classify, answer, request_for, deliver,
}

pub answer-eq-rejected :
    (a : Result Response String)
    → (answer a ≡ Outcome.rejected) ↔ (
        (r : Response) × (a ≡ ok r)
        × (r.status ≡ 404)
        × (contains (body_of r) "UNREGISTERED" ≡ true))
unfolding answer classify
answer-eq-rejected (err e) = (λ h. cc, λ h. ground (arith, h))
answer-eq-rejected (ok r) = (λ h. (r, refl, ground arith, ground arith), λ h. ground (arith, h))

-- A pushkey is rejected exactly if a token was at hand, the push service answered 404, and its
-- answer names UNREGISTERED.
pub deliver-eq-rejected_fcm :
    (app : FcmApp) (w : World) (n : Notification) (device : Device)
    → ((deliver app w n device).0 ≡ Outcome.rejected) ↔ (
        (bearer : String) × (r : Response) × ((access_token app w).0 ≡ ok bearer)
        × (w.send (request_for app bearer n device) ≡ ok r)
        × (r.status ≡ 404)
        × (contains (body_of r) "UNREGISTERED" ≡ true))
unfolding deliver
deliver-eq-rejected_fcm app w n device = elim (Result-cases (access_token app w).0) [
  | inl (bearer, got) ↦ (
    λ h.
        let (r, sent, gone, named) =
          (answer-eq-rejected (w.send (request_for app bearer n device))).0
            (ground (arith, got, h)) in
        (bearer, r, got, sent, gone, named),
    λ (b, r, had, sent, gone, named).
        rw (got, deliver)
          ((answer-eq-rejected (w.send (request_for app bearer n device))).1
            (r, ground (arith, got, had, sent), gone, named)),
  )
  | inr (e, failed) ↦ (λ h. absurd (ground (arith, failed, h)), λ h. ground (arith, failed, h))
]

-- The token that a delivery got is used again without asking anybody, whatever the outside would
-- answer, while it has more than the margin of its life left.
pub access_token-reuse :
    (app : FcmApp) (w later : World) (bearer : String) (t : CachedToken)
    → (access_token app w).0 ≡ ok bearer
    → (access_token app w).1.token ≡ some t
    → later.now + token_refresh_margin < t.expires
    → access_token (access_token app w).1 later ≡ (ok bearer, (access_token app w).1)
unfolding access_token fetch_token store_token cached_bearer
access_token-reuse app w later bearer t got stored valid = ground arith
