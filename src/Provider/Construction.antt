-- ===== src/Provider/Construction.antt =====
-- `Provider::new`.
use pincerbell.Base.{String, Result, ok, ◌>>=◌}
use pincerbell.Config.{AppConfig, HttpOptions}
use pincerbell.Environment.{Environment}
use pincerbell.Fcm.Construction as FcmApp
use pincerbell.Apns.Construction as ApnsApp
use pincerbell.Webpush.Construction as WebPushApp
use pincerbell.Provider.{Provider}

unfoldable pub new : Environment → AppConfig → HttpOptions → Result Provider String
new env AppConfig.log http = ok Provider.log
new env (AppConfig.fcm service_account_file project_id api_root) http = do
  app ← FcmApp.new env service_account_file project_id api_root http
  ok (Provider.fcm app)
new env (AppConfig.apns c) http = do
  app ← ApnsApp.new env (record {
    key_file = c.key_file;
    key_id = c.key_id;
    team_id = c.team_id;
    topic = c.topic;
    sandbox = c.sandbox;
    api_root = c.api_root;
    default_alert_title = c.default_alert_title;
    sound = c.sound;
    push_type = c.push_type;
    http = http;
  })
  ok (Provider.apns app)
new env (AppConfig.webpush vapid_private_key vapid_contact_email allowed_endpoints) http = do
  app ← WebPushApp.new env (record {
    vapid_private_key = vapid_private_key;
    vapid_contact_email = vapid_contact_email;
    allowed_endpoints = allowed_endpoints;
    http = http;
  })
  ok (Provider.webpush app)
