-- ===== src/Gateway/Constructed.antt =====
-- What the state that `AppState::new` builds consists of.
use pincerbell.Base.{
  ◌≤◌, ◌≡◌, ◌∙◌, refl, sym, subst, Option, none, some, [], ◌∷◌, String, ◌==◌, string_eq, ok, arith,
  Result-cases, Bool-cases, inl, inr, eq_iff,
}
use pincerbell.Time.{from_secs}
use pincerbell.HashMap
use pincerbell.HashMap.{HashMap, Distinct, get-insert}
use pincerbell.Config.{Config, AppConfig, QueueConfig, HttpOptions, http_options}
use pincerbell.Environment.{Environment}
use pincerbell.Dedup
use pincerbell.Dedup.Invariant
use pincerbell.Queue
use pincerbell.Queue.Held
use pincerbell.Queue.Runs
use pincerbell.QueueSide
use pincerbell.QueueSide.{QueueState, rejected_capacity}
use pincerbell.QueueSide.Laws.{queue-new}
use pincerbell.Provider.{Provider}
use pincerbell.Provider.Construction as Providers
use pincerbell.Gateway.{AppState}
use pincerbell.Gateway.Construction.{add_providers, queue_of, new}
use pincerbell.Gateway.Queueing.{IsSound, QueueIsSound}

-- The backend of an app, if one is configured, is built from its configuration.
unfoldable pub Built : Environment → HttpOptions → Option AppConfig → Option Provider → Type 0
Built env http none p = p ≡ none
Built env http (some app) p =
    (provider : Provider) × (p ≡ some provider) × (Providers.new env app http ≡ ok provider)

module _ (env : Environment) (http : HttpOptions) where
  -- A key that is none of the apps' keeps what it has.
  get-add_providers_other :
      (apps : HashMap String AppConfig) (m m' : HashMap String Provider) (k : String)
      → HashMap.get apps k ≡ none
      → add_providers env http apps m ≡ ok m'
      → HashMap.get m' k ≡ HashMap.get m k
  unfolding add_providers HashMap.get
  get-add_providers_other [] m m' k absent made = ground (arith, made)
  get-add_providers_other ((app_id, app) ∷ apps) m m' k absent made =
      elim (Result-cases (Providers.new env app http)) [
        | inr (e, bad) ↦ absurd (ground (arith, bad, made))
        | inl (p, good) ↦ elim (Bool-cases (app_id == k)) [
          | inl hit ↦ absurd (ground (arith, hit, absent))
          | inr miss ↦
              get-add_providers_other apps (HashMap.insert m app_id p) m' k
                (ground (arith, miss, absent)) (ground (arith, good, made))
              ∙ ground (arith, get-insert m app_id k p, miss)
        ]
      ]

  get-add_providers :
      (apps : HashMap String AppConfig) (m m' : HashMap String Provider) (k : String)
      → Distinct apps
      → add_providers env http apps m ≡ ok m'
      → HashMap.get m k ≡ none
      → Built env http (HashMap.get apps k) (HashMap.get m' k)
  unfolding add_providers Built HashMap.get
  get-add_providers [] m m' k d made fresh = ground (arith, made, fresh)
  get-add_providers ((app_id, app) ∷ apps) m m' k (new_id, d) made fresh =
      elim (Result-cases (Providers.new env app http)) [
        | inr (e, bad) ↦ absurd (ground (arith, bad, made))
        | inl (p, good) ↦
            let rest : add_providers env http apps (HashMap.insert m app_id p) ≡ ok m' =
              ground (arith, good, made) in
            elim (Bool-cases (app_id == k)) [
              | inl hit ↦
                  let same : app_id ≡ k = ground (arith, hit, eq_iff app_id k) in
                  rw (hit, HashMap.get)
                    (
                      p,
                      get-add_providers_other apps (HashMap.insert m app_id p) m' k
                            (subst (λ x. HashMap.get apps x ≡ none) same new_id) rest
                          ∙ ground (arith, get-insert m app_id k p, hit),
                      good,
                    )
              | inr miss ↦
                  rw (miss, HashMap.get)
                    (get-add_providers apps (HashMap.insert m app_id p) m' k d rest
                      (ground (arith, get-insert m app_id k p, miss, fresh)))
            ]
      ]

queue_of-QueueIsSound :
    (env : Environment) (cfg : Option QueueConfig) (queue : Option QueueState) (q : QueueState)
    → queue_of env cfg ≡ ok queue
    → queue ≡ some q
    → QueueIsSound 0 q
unfolding queue_of Queue.new
queue_of-QueueIsSound env none queue q made there = absurd (ground (arith, made, there))
queue_of-QueueIsSound env (some cfg) queue q made there =
    elim (Result-cases (QueueSide.new env cfg)) [
      | inr (e, failed) ↦ absurd (ground (arith, made, failed))
      | inl (q', good) ↦
          let (queue_new, rejected_new) = queue-new env cfg q' good in
          let same : q' ≡ q = ground (arith, made, good, there) in
          subst (QueueIsSound 0) same (record {
            queue_valid =
                subst (λ x. Queue.Held.IsValid x.inner) (sym queue_new)
                  (Queue.Runs.new-IsValid cfg.max_entries (from_secs cfg.entry_ttl_secs)
                    (from_secs cfg.lease_secs));
            rejected_valid =
                subst Dedup.Invariant.IsValid (sym rejected_new)
                  (Dedup.Invariant.new-IsValid (from_secs cfg.rejected_ttl_secs) rejected_capacity);
            few_ids = subst (λ x. x.next_id ≤ 0) (sym queue_new) (omega arith);
          })
    ]

-- The state that is built from a configuration, whose apps have each key once, has exactly a backend
-- for each of its apps, each built from the app's own entry and the configuration's HTTP options; it
-- keeps the configuration, and its cache, its queue and its record of invalid pushkeys are
-- consistent.
pub new-Built :
    (env : Environment) (config : Config) (st : AppState Provider)
    → Distinct config.apps
    → new env config ≡ ok st
    → (st.config ≡ config)
      × ((app_id : String)
          → Built env
              (http_options config)
              (HashMap.get config.apps app_id)
              (HashMap.get st.providers app_id))
      × IsSound 0 st
unfolding new HashMap.get
new-Built env config st d made =
    elim (Result-cases (add_providers env (http_options config) config.apps HashMap.empty)) [
      | inr (e, bad) ↦ absurd (ground (arith, bad, made))
      | inl (m, built) ↦ elim (Result-cases (queue_of env config.queue)) [
        | inr (e, bad) ↦ absurd (ground (arith, built, bad, made))
        | inl (queue, good) ↦ subst IsBuilt (ground (arith, built, good, made)) (
          refl,
          λ k.
              get-add_providers env (http_options config) config.apps HashMap.empty m k d built
                refl,
          record {
            dedup_valid =
                Dedup.Invariant.new-IsValid (from_secs config.dedup_ttl_secs)
                  config.dedup_max_entries;
            queue_sound = λ q there. queue_of-QueueIsSound env config.queue queue q good there;
          },
        )
      ]
    ]
  where
    IsBuilt : AppState Provider → Type 0
    IsBuilt x =
        (x.config ≡ config)
        × ((app_id : String)
            → Built env (http_options config) (HashMap.get config.apps app_id)
                (HashMap.get x.providers app_id))
        × IsSound 0 x
