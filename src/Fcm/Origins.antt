-- ===== src/Fcm/Origins.antt =====
-- Where the tokens and the requests of src/fcm.rs come from, over any course of events. `Says` is
-- what the outside may answer.
use pincerbell.Base.{
  ◌≡◌, refl, subst, true, none, some, String, ok, Result-cases, Bool-cases, Option-cases, inl, inr,
  arith,
}
use pincerbell.Time.{Instant}
use pincerbell.Call.{Call}
use pincerbell.Api.{Notification, Device}
use pincerbell.Http.{Outcome, Response, is_success, body_of, contains}
use pincerbell.Fcm.{
  FcmApp, World, CachedToken, TokenReply, TokenResponse, Request, token_grant_type, claims_at,
  cached_bearer, fetch_token, store_token, request_for,
}
use pincerbell.Fcm.Laws.{answer-eq-rejected}
use pincerbell.Fcm.Calls.{proceed}

-- An app without its token.
abbrev pub bare : FcmApp → FcmApp
bare app = record app { token = none }

module _ (Says : World → Type 0) where
  -- The app's token endpoint gave the token out, for an assertion about the app's own account.
  unfoldable pub Issued : FcmApp → String → Type 0
  unfolding claims_at
  Issued app bearer =
      (w : World) × (assertion : String) × (reply : TokenReply) × (t : TokenResponse) × Says w
      × (w.sign (claims_at app w.unix_now) ≡ ok assertion)
      × (w.post_token app.account.token_uri token_grant_type assertion ≡ ok reply)
      × (is_success reply.status ≡ true)
      × (reply.json ≡ ok t)
      × (t.access_token ≡ bearer)

  -- So was the cached token.
  unfoldable pub Holds : FcmApp → Type 0
  unfolding Issued
  Holds app = (t : CachedToken) → app.token ≡ some t → Issued app t.bearer

  -- The request of the app for the device, with such a token.
  unfoldable pub Sent : FcmApp → Notification → Device → Request → Type 0
  unfolding Issued
  Sent app n device r =
      (bearer : String) × Issued app bearer × (r ≡ request_for app bearer n device)

  -- The push service said to such a request that the device is gone.
  unfoldable pub Gone : FcmApp → Notification → Device → Type 0
  unfolding Sent
  Gone app n device =
      (w : World) × (r : Request) × (resp : Response) × Says w
      × Sent app n device r
      × (w.send r ≡ ok resp)
      × (resp.status ≡ 404)
      × (contains (body_of resp) "UNREGISTERED" ≡ true)

  -- A delivery under way.
  unfoldable pub Proper : FcmApp → Notification → Device → Call Unit Request → Type 0
  unfolding Sent Gone
  Proper app n device Call.looking = Unit
  Proper app n device (Call.minting u) = Unit
  Proper app n device (Call.sending r) = Sent app n device r
  Proper app n device (Call.ended outcome) = outcome ≡ Outcome.rejected → Gone app n device

  pub Proper-bare :
      (app app' : FcmApp) (n : Notification) (device : Device) (c : Call Unit Request)
      → bare app ≡ bare app'
      → Proper app n device c
      → Proper app' n device c
  unfolding Proper request_for
  Proper-bare app app' n device Call.looking e h = tt
  Proper-bare app app' n device (Call.minting u) e h = tt
  Proper-bare app app' n device (Call.sending r) e h = subst (λ x. Sent x n device r) e h
  Proper-bare app app' n device (Call.ended outcome) e h =
      λ bad. subst (λ x. Gone x n device) e (h bad)

  -- What the miss of the cache leads to.
  store_token-Issued :
      (app : FcmApp) (w : World) (assertion : String) (reply : TokenReply)
      → Says w
      → w.sign (claims_at app w.unix_now) ≡ ok assertion
      → w.post_token app.account.token_uri token_grant_type assertion ≡ ok reply
      → Holds app
      → ((bearer : String) → (store_token app w.token_time reply).0 ≡ ok bearer → Issued app bearer)
        × Holds (store_token app w.token_time reply).1
        × (bare (store_token app w.token_time reply).1 ≡ bare app)
  unfolding store_token Issued Holds
  store_token-Issued app w assertion reply says signed posted holds =
      elim (Bool-cases (is_success reply.status)) [
        | inr bad ↦ rw (bad, store_token) (λ b h. absurd (ground (arith, h)), holds, refl)
        | inl good ↦ elim (Result-cases reply.json) [
          | inr (e, failed) ↦
              rw (good, failed, store_token) (λ b h. absurd (ground (arith, h)), holds, refl)
          | inl (t, read) ↦
              rw (good, read, store_token)
                (
                  λ b h.
                      (w, assertion, reply, t, says, signed, posted, good, read, ground (arith, h)),
                  λ x h.
                      (w, assertion, reply, t, says, signed, posted, good, read, ground (arith, h)),
                  refl,
                )
        ]
      ]

  fetch_token-Issued :
      (app : FcmApp) (w : World)
      → Says w
      → Holds app
      → ((bearer : String) → (fetch_token app w).0 ≡ ok bearer → Issued app bearer)
        × Holds (fetch_token app w).1
        × (bare (fetch_token app w).1 ≡ bare app)
  unfolding fetch_token
  fetch_token-Issued app w says holds = elim (Result-cases (w.sign (claims_at app w.unix_now))) [
    | inr (e, failed) ↦ rw (failed, fetch_token) (λ b h. absurd (ground (arith, h)), holds, refl)
    | inl (assertion, signed) ↦
        elim (Result-cases (w.post_token app.account.token_uri token_grant_type assertion)) [
          | inr (e, failed) ↦
              rw (signed, failed, fetch_token) (λ b h. absurd (ground (arith, h)), holds, refl)
          | inl (reply, posted) ↦
              rw (signed, posted, fetch_token)
                (store_token-Issued app w assertion reply says signed posted holds)
        ]
  ]

  cached_bearer-Issued :
      (app : FcmApp) (now : Instant) (bearer : String)
      → Holds app
      → cached_bearer app now ≡ some bearer
      → Issued app bearer
  unfolding cached_bearer Holds
  cached_bearer-Issued app now bearer holds found = elim (Option-cases app.token) [
    | inl empty ↦ absurd (ground (arith, found, empty))
    | inr (t, there) ↦ subst (Issued app) (ground (arith, found, there)) (holds t there)
  ]

  -- Each part of a delivery keeps to this.
  pub proceed-Proper :
      (app : FcmApp) (w : World) (n : Notification) (device : Device) (c : Call Unit Request)
      → Says w
      → Holds app
      → Proper app n device c
      → Proper app n device (proceed app w n device c).0
        × Holds (proceed app w n device c).1
        × (bare (proceed app w n device c).1 ≡ bare app)
  unfolding proceed Proper Sent Gone
  proceed-Proper app w n device Call.looking says holds h =
      elim (Option-cases (cached_bearer app w.now)) [
        | inl missed ↦ rw (missed, proceed) (tt, holds, refl)
        | inr (bearer, found) ↦
            rw (found, proceed)
              ((bearer, cached_bearer-Issued app w.now bearer holds found, refl), holds, refl)
      ]
  proceed-Proper app w n device (Call.minting u) says holds h =
      let (issued, held, same) = fetch_token-Issued app w says holds in
      elim (Result-cases (fetch_token app w).0) [
        | inr (e, failed) ↦ (rw (failed, proceed) (λ bad. absurd (ground (arith, bad))), held, same)
        | inl (bearer, got) ↦ (rw (got, proceed) (bearer, issued bearer got, refl), held, same)
      ]
  proceed-Proper app w n device (Call.sending r) says holds h = (
    λ bad.
        let (resp, sent, gone, named) = (answer-eq-rejected (w.send r)).0 bad in
        (w, r, resp, says, h, sent, gone, named),
    holds,
    refl,
  )
  proceed-Proper app w n device (Call.ended outcome) says holds h = (h, holds, refl)
