-- ===== src/Gateway/System/Built.antt =====
-- A gateway as `AppState::new` builds it: no token, no invalid pushkey.
use pincerbell.Base.{
  ◌≡◌, refl, sym, subst, Option, none, some, String, ok, arith, Result-cases, inl, inr, string_eq,
}
use pincerbell.HashMap
use pincerbell.HashMap.{HashMap, Distinct}
use pincerbell.Config.{Config, AppConfig, QueueConfig, HttpOptions, http_options}
use pincerbell.Environment.{Environment}
use pincerbell.Fcm.Construction as FcmApp
use pincerbell.Fcm.Origins as FcmOrigins
use pincerbell.Apns.Construction as ApnsApp
use pincerbell.Apns.Origins as ApnsOrigins
use pincerbell.Webpush.Construction as WebPushApp
use pincerbell.Webpush.Origins as WebpushOrigins
use pincerbell.Dedup
use pincerbell.Dedup.{Key, key_eq}
use pincerbell.QueueSide
use pincerbell.QueueSide.{QueueState}
use pincerbell.QueueSide.Laws.{queue-new}
use pincerbell.Gateway.{AppState}
use pincerbell.Gateway.Construction.{add_providers, queue_of, new}
use pincerbell.Gateway.Constructed.{Built, new-Built}
use pincerbell.Gateway.System.Tidy.{Kept, Tidy}
use pincerbell.Provider.{Provider, Worlds}
use pincerbell.Provider.Construction as Providers
use pincerbell.Provider.Origins.{Holds}

module _ (Says : Worlds → Type 0) where
  -- A backend begins without tokens.
  Holds-new :
      (env : Environment) (app : AppConfig) (http : HttpOptions) (p : Provider)
      → Providers.new env app http ≡ ok p
      → Holds Says p
  unfolding Providers.new Holds FcmOrigins.Holds ApnsOrigins.Holds WebpushOrigins.Holds HashMap.get
  Holds-new env AppConfig.log http p made =
      let same : Provider.log ≡ p = ground (arith, made) in subst (Holds Says) same tt
  Holds-new env (AppConfig.fcm file project_id api_root) http p made =
      elim (Result-cases (FcmApp.new env file project_id api_root http)) [
        | inr (e, failed) ↦ absurd (ground (arith, made, failed))
        | inl (app, built) ↦
            let same : Provider.fcm app ≡ p = ground (arith, made, built) in
            let empty = FcmApp.token-new env file project_id api_root http app built in
            subst (Holds Says) same (λ t h. absurd (ground (arith, h, empty)))
      ]
  Holds-new env (AppConfig.apns c) http p made =
      let settings : ApnsApp.ApnsSettings = record {
        key_file = c.key_file;
        key_id = c.key_id;
        team_id = c.team_id;
        topic = c.topic;
        sandbox = c.sandbox;
        api_root = c.api_root;
        default_alert_title = c.default_alert_title;
        sound = c.sound;
        push_type = c.push_type;
        http = http;
      } in
      elim (Result-cases (ApnsApp.new env settings)) [
        | inr (e, failed) ↦ absurd (ground (arith, made, failed))
        | inl (app, built) ↦
            let same : Provider.apns app ≡ p = ground (arith, made, built) in
            let empty = ApnsApp.token-new env settings app built in
            subst (Holds Says) same (λ t h. absurd (ground (arith, h, empty)))
      ]
  Holds-new env (AppConfig.webpush key email hosts) http p made =
      let settings : WebPushApp.WebPushSettings = record {
        vapid_private_key = key;
        vapid_contact_email = email;
        allowed_endpoints = hosts;
        http = http;
      } in
      elim (Result-cases (WebPushApp.new env settings)) [
        | inr (e, failed) ↦ absurd (ground (arith, made, failed))
        | inl (app, built) ↦
            let same : Provider.webpush app ≡ p = ground (arith, made, built) in
            let empty = WebPushApp.tokens-new env settings app built in
            subst (Holds Says) same (λ origin t h. absurd (ground (arith, h, empty)))
      ]

queue_of-rejected :
    (env : Environment) (cfg : Option QueueConfig) (queue : Option QueueState) (q : QueueState)
    (key : Key)
    → queue_of env cfg ≡ ok queue
    → queue ≡ some q
    → HashMap.get q.rejected.seen key ≡ none
unfolding queue_of Dedup.new HashMap.get
queue_of-rejected env none queue q key made there = absurd (ground (arith, made, there))
queue_of-rejected env (some cfg) queue q key made there =
    elim (Result-cases (QueueSide.new env cfg)) [
      | inr (e, failed) ↦ absurd (ground (arith, made, failed))
      | inl (q', good) ↦
          let same : q' ≡ q = ground (arith, made, good, there) in
          let (_, rejected_new) = queue-new env cfg q' good in
          subst (λ (x : QueueState). HashMap.get x.rejected.seen key ≡ none) same
            (subst (λ (x : Dedup.DedupCache). HashMap.get x.seen key ≡ none) (sym rejected_new)
              refl)
    ]

new-rejected :
    (env : Environment) (config : Config) (first : AppState Provider) (q : QueueState) (key : Key)
    → new env config ≡ ok first
    → first.queue ≡ some q
    → HashMap.get q.rejected.seen key ≡ none
unfolding new
new-rejected env config first q key made there =
    elim (Result-cases (add_providers env (http_options config) config.apps HashMap.empty)) [
      | inr (e, bad) ↦ absurd (ground (arith, bad, made))
      | inl (m, built) ↦ elim (Result-cases (queue_of env config.queue)) [
        | inr (e, bad) ↦ absurd (ground (arith, built, bad, made))
        | inl (queue, good) ↦
            queue_of-rejected env config.queue queue q key good
              (ground (arith, built, good, made, there))
      ]
    ]

module _ (Says : Worlds → Type 0) (Reports : String → String → Type 0) where
  Kept-self :
      (first : AppState Provider) (x : Option Provider)
      → ((p : Provider) → x ≡ some p → Holds Says p)
      → Kept Says Reports first x x
  Kept-self first none h = tt
  Kept-self first (some p) h = (refl, h p refl)

  Built-Holds :
      (env : Environment) (http : HttpOptions) (app : Option AppConfig) (x : Option Provider)
      (p : Provider)
      → Built env http app x
      → x ≡ some p
      → Holds Says p
  unfolding Built
  Built-Holds env http none x p b there = absurd (ground (arith, b, there))
  Built-Holds env http (some app) x p (p', e, made) there =
      Holds-new Says env app http p (ground (arith, e, there, made))

  pub Tidy-new :
      (env : Environment) (config : Config) (first : AppState Provider)
      → Distinct config.apps
      → new env config ≡ ok first
      → Tidy Says Reports first first
  Tidy-new env config first d made =
      let (_, built, _) = new-Built env config first d made in
      record {
        config_kept = refl;
        queue_kept = (λ h. h, λ h. h);
        providers_kept = λ k. Kept-self first (HashMap.get first.providers k) (λ p there.
            Built-Holds env (http_options config) (HashMap.get config.apps k)
              (HashMap.get first.providers k) p (built k) there);
        reported_only = λ q there key t h.
            absurd (ground (arith, h, new-rejected env config first q key made there));
      }
