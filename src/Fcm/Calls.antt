-- ===== src/Fcm/Calls.antt =====
-- `FcmApp::deliver` cut at the locks of its cached token and at its awaits.
use pincerbell.Base.{none, some, ok, err}
use pincerbell.Call.{Call}
use pincerbell.Api.{Notification, Device}
use pincerbell.Http.{Outcome}
use pincerbell.Fcm.{FcmApp, World, Request, cached_bearer, fetch_token, request_for, answer}

-- The next part of a delivery. The token endpoint's answer is stored in one go with its arrival.
unfoldable pub proceed :
    FcmApp → World → Notification → Device → Call Unit Request → Call Unit Request × FcmApp
proceed app w n device Call.looking = elim (cached_bearer app w.now) [
  | some bearer ↦ (Call.sending (request_for app bearer n device), app)
  | none ↦ (Call.minting tt, app)
]
proceed app w n device (Call.minting u) =
    let (token, app') = fetch_token app w in
    (
      elim token [
        | err e ↦ Call.ended (Outcome.transient e)
        | ok bearer ↦ Call.sending (request_for app bearer n device)
      ],
      app',
    )
proceed app w n device (Call.sending r) = (Call.ended (answer (w.send r)), app)
proceed app w n device (Call.ended outcome) = (Call.ended outcome, app)
