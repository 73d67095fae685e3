-- ===== src/Apns/Origins.antt =====
-- Where the tokens and the requests of src/apns.rs come from, over any course of events. `Says` is
-- what the outside may answer.
use pincerbell.Base.{
  ◌≡◌, refl, subst, true, none, some, String, ok, Result-cases, Bool-cases, Option-cases, inl, inr,
  arith,
}
use pincerbell.Time.{Instant}
use pincerbell.Call.{Call}
use pincerbell.Api.{Notification, Device}
use pincerbell.Http.{Outcome, Response, body_of, contains}
use pincerbell.Apns.{ApnsApp, World, CachedToken, Request, cached_bearer, request_for, answer}
use pincerbell.Apns.Laws.{answer-eq-rejected}
use pincerbell.Apns.Calls.{proceed, sign_token}

-- An app without its token.
abbrev pub bare : ApnsApp → ApnsApp
bare app = record app { token = none }

module _ (Says : World → Type 0) where
  -- The token was signed for the app's own team and key.
  unfoldable pub Issued : ApnsApp → String → Type 0
  Issued app bearer =
      (w : World) × Says w
      × (w.sign (record { kid = app.key_id; iss = app.team_id; iat = w.unix_now }) ≡ ok bearer)

  -- So was the cached token.
  unfoldable pub Holds : ApnsApp → Type 0
  unfolding Issued
  Holds app = (t : CachedToken) → app.token ≡ some t → Issued app t.bearer

  -- The request of the app for the device, with such a token.
  unfoldable pub Sent : ApnsApp → Notification → Device → Request → Type 0
  unfolding Issued
  Sent app n device r =
      (bearer : String) × Issued app bearer × (r ≡ request_for app bearer n device)

  -- The push service said to such a request that the device is gone.
  unfoldable pub Gone : ApnsApp → Notification → Device → Type 0
  unfolding Sent
  Gone app n device =
      (w : World) × (r : Request) × (resp : Response) × Says w
      × Sent app n device r
      × (w.send r ≡ ok resp)
      × (resp.status ≡ 410)
      × (contains (body_of resp) "Unregistered" ≡ true)

  -- A delivery under way.
  unfoldable pub Proper : ApnsApp → Notification → Device → Call Unit Request → Type 0
  unfolding Sent Gone
  Proper app n device Call.looking = Unit
  Proper app n device (Call.minting u) = Unit
  Proper app n device (Call.sending r) = Sent app n device r
  Proper app n device (Call.ended outcome) = outcome ≡ Outcome.rejected → Gone app n device

  pub Proper-bare :
      (app app' : ApnsApp) (n : Notification) (device : Device) (c : Call Unit Request)
      → bare app ≡ bare app'
      → Proper app n device c
      → Proper app' n device c
  unfolding Proper request_for
  Proper-bare app app' n device Call.looking e h = tt
  Proper-bare app app' n device (Call.minting u) e h = tt
  Proper-bare app app' n device (Call.sending r) e h = subst (λ x. Sent x n device r) e h
  Proper-bare app app' n device (Call.ended outcome) e h =
      λ bad. subst (λ x. Gone x n device) e (h bad)

  -- What the miss of the cache leads to.
  sign_token-Issued :
      (app : ApnsApp) (w : World)
      → Says w
      → Holds app
      → ((bearer : String) → (sign_token app w).0 ≡ ok bearer → Issued app bearer)
        × Holds (sign_token app w).1
        × (bare (sign_token app w).1 ≡ bare app)
  unfolding sign_token Issued Holds
  sign_token-Issued app w says holds =
      elim (Result-cases
        (w.sign (record { kid = app.key_id; iss = app.team_id; iat = w.unix_now }))) [
          | inr (e, failed) ↦
              rw (failed, sign_token) (λ b h. absurd (ground (arith, h)), holds, refl)
          | inl (bearer, signed) ↦
              rw (signed, sign_token)
                (
                  λ b h. (w, says, ground (arith, signed, h)),
                  λ x h. (w, says, ground (arith, signed, h)),
                  refl,
                )
        ]

  cached_bearer-Issued :
      (app : ApnsApp) (now : Instant) (bearer : String)
      → Holds app
      → cached_bearer app now ≡ some bearer
      → Issued app bearer
  unfolding cached_bearer Holds
  cached_bearer-Issued app now bearer holds found = elim (Option-cases app.token) [
    | inl empty ↦ absurd (ground (arith, found, empty))
    | inr (t, there) ↦ subst (Issued app) (ground (arith, found, there)) (holds t there)
  ]

  -- Each part of a delivery keeps to this.
  pub proceed-Proper :
      (app : ApnsApp) (w : World) (n : Notification) (device : Device) (c : Call Unit Request)
      → Says w
      → Holds app
      → Proper app n device c
      → Proper app n device (proceed app w n device c).0
        × Holds (proceed app w n device c).1
        × (bare (proceed app w n device c).1 ≡ bare app)
  unfolding proceed Proper Sent Gone Holds
  proceed-Proper app w n device Call.looking says holds h =
      elim (Option-cases (cached_bearer app w.now)) [
        | inl missed ↦ rw (missed, proceed) (tt, holds, refl)
        | inr (bearer, found) ↦
            rw (found, proceed)
              ((bearer, cached_bearer-Issued app w.now bearer holds found, refl), holds, refl)
      ]
  proceed-Proper app w n device (Call.minting u) says holds h =
      let (issued, held, same) = sign_token-Issued app w says holds in
      elim (Result-cases (sign_token app w).0) [
        | inr (e, failed) ↦ (rw (failed, proceed) (λ bad. absurd (ground (arith, bad))), held, same)
        | inl (bearer, got) ↦ (rw (got, proceed) (bearer, issued bearer got, refl), held, same)
      ]
  proceed-Proper app w n device (Call.sending r) says holds h = (
    λ bad.
        let (resp, sent, gone, named) = (answer-eq-rejected (w.send r)).0 bad in
        (w, r, resp, says, h, sent, gone, named),
    elim (Bool-cases (answer (w.send r)).1) [
      | inl discard ↦ rw (discard, proceed) (λ t e. absurd (ground (arith, e)))
      | inr keep ↦ rw (keep, proceed) holds
    ],
    elim (Bool-cases (answer (w.send r)).1) [
      | inl discard ↦ rw (discard, proceed) refl
      | inr keep ↦ rw (keep, proceed) refl
    ],
  )
  proceed-Proper app w n device (Call.ended outcome) says holds h = (h, holds, refl)
