-- ===== src/Apns/Calls.antt =====
-- `ApnsApp::deliver` cut at the locks of its cached token and at its await.
use pincerbell.Base.{none, some, Result, ok, err, String, if◌then◌else◌}
use pincerbell.Call.{Call}
use pincerbell.Api.{Notification, Device}
use pincerbell.Http.{Outcome, Reason}
use pincerbell.Apns.{ApnsApp, World, Request, cached_bearer, request_for, answer}

-- `bearer_token` from the point on where no cached token serves.
unfoldable pub sign_token : ApnsApp → World → Result String Reason × ApnsApp
sign_token app w =
    elim (w.sign (record { kid = app.key_id; iss = app.team_id; iat = w.unix_now })) [
      | err e ↦ (err (Reason.signing e), app)
      | ok bearer ↦ (
        ok bearer,
        record app { token = some (record { bearer = bearer; issued = w.signed_at }) },
      )
    ]

-- The next part of a delivery. The token is discarded in one go with the arrival of the answer.
unfoldable pub proceed :
    ApnsApp → World → Notification → Device → Call Unit Request → Call Unit Request × ApnsApp
unfolding sign_token
proceed app w n device Call.looking = elim (cached_bearer app w.now) [
  | some bearer ↦ (Call.sending (request_for app bearer n device), app)
  | none ↦ (Call.minting tt, app)
]
proceed app w n device (Call.minting u) =
    let (token, app') = sign_token app w in
    (
      elim token [
        | err e ↦ Call.ended (Outcome.transient e)
        | ok bearer ↦ Call.sending (request_for app bearer n device)
      ],
      app',
    )
proceed app w n device (Call.sending r) =
    let (outcome, discard) = answer (w.send r) in
    (Call.ended outcome, if discard then record app { token = none } else app)
proceed app w n device (Call.ended outcome) = (Call.ended outcome, app)
