-- ===== src/Health/Discovery/Course.antt =====
-- What the discovery's task has done when its stream ends (src/health/discovery.rs).
use upstreamer.Common.{
  ◌*◌, ◌≡◌, ◌≢◌, ◌⊎◌, refl, sym, ap, ◌∙◌, subst, arith, Bool, true, false, Option, none, some, List,
  [], ◌∷◌, String, string_eq, inl, inr, In, Option-cases, if◌then◌else◌,
}
use upstreamer.Common.Table.{get}
use upstreamer.External.{UrlOps}
use upstreamer.Config.Validate.{first_some}
use upstreamer.Config.{Duration, from_secs, KubernetesConfig}
use upstreamer.Balance.{OriginState}
use upstreamer.Route.{K8sOrigins, from_config_with_k8s}
use upstreamer.State.{AppState, add_states}
use upstreamer.State.Cover.{get-add_states}
use upstreamer.Health.Discovery.{
  Service, service_to_origin, k8s_keys, apply_origin, rebuild_router, apply_service, apply_services,
}
use upstreamer.Health.Discovery.Latest.{latest, apply_services_lem}
use upstreamer.Health.Discovery.Watcher.{
  scope_of, Event, DiscoveryEnd, disabled, client_failed, stream_ended, Cluster, Discovering,
  services_of, errors_of, take_events, take_events_services, run_configured, run_k8s_discovery,
}

first_some-none : {A : Type 0} (o : Option A) → first_some o none ≡ o
first_some-none none = refl
first_some-none (some a) = refl

known_after :
    (states : List (String × OriginState)) (keys : List String) (key : String)
    → In key keys
    → get (add_states states keys) key ≢ none
known_after states keys key at missing = elim (Option-cases (get states key)) [
  | inl absent ↦ cc ((get-add_states states keys key).1 absent at, missing)
  | inr (s, there) ↦ cc ((get-add_states states keys key).0 s there, missing)
]

module _ {Url F : Type 0} ⦃u : UrlOps Url⦄ where
  -- What holds of the state and the discovered origins, from the state at the start: the
  -- configuration is that of the start and no origin's state is lost or changed; the table is the
  -- one built with the discovered origins, or nothing was discovered and nothing has changed; and
  -- every discovered origin has a state.
  pub record Tracks (start state : AppState Url F) (found : K8sOrigins Url) : Type 0 where
    pub same_config : state.config ≡ start.config
    pub kept :
        (key : String) (s : OriginState)
        → get start.origin_states key ≡ some s
        → get state.origin_states key ≡ some s
    pub table :
        ((found ≡ []) × (state ≡ start)) ⊎ (state.router ≡ from_config_with_k8s start.config found)
    pub known : (key : String) → In key (k8s_keys found) → get state.origin_states key ≢ none

  rebuild_router-Tracks :
      (start state : AppState Url F) (found after : K8sOrigins Url)
      → Tracks start state found
      → Tracks start (rebuild_router state after) after
  unfolding rebuild_router
  rebuild_router-Tracks start state found after t = record {
    same_config = t.same_config;
    kept = λ key s there.
        (get-add_states state.origin_states (k8s_keys after) key).0 s (t.kept key s there);
    table = inr (ap (λ c. from_config_with_k8s c after) t.same_config);
    known = known_after state.origin_states (k8s_keys after);
  }

  apply_service-Tracks :
      (start state : AppState Url F) (found : K8sOrigins Url) (svc : Service)
      → Tracks start state found
      → Tracks start (apply_service (state, found) svc).0 (apply_service (state, found) svc).1
  unfolding apply_service
  apply_service-Tracks start state found svc t =
      elim (Option-cases (service_to_origin {Url = Url} svc)) [
        | inl nothing ↦ rw (nothing, apply_service) t
        | inr (origin, there) ↦
            rw (there, apply_service)
              (rebuild_router-Tracks start state found (apply_origin found origin) t)
      ]

  apply_services-Tracks :
      (start state : AppState Url F) (found : K8sOrigins Url) (svcs : List Service)
      → Tracks start state found
      → Tracks start (apply_services (state, found) svcs).0 (apply_services (state, found) svcs).1
  unfolding apply_services
  apply_services-Tracks start state found [] t = t
  apply_services-Tracks start state found (svc ∷ svcs) t =
      apply_services-Tracks start (apply_service (state, found) svc).0
        (apply_service (state, found) svc).1 svcs (apply_service-Tracks start state found svc t)

  start-Tracks : (start : AppState Url F) → Tracks start start []
  unfolding k8s_keys
  start-Tracks start = record {
    same_config = refl;
    kept = λ key s there. there;
    table = inl (refl, refl);
    known = λ key at. absurd at;
  }

  -- How the task comes out.
  pub data Course (cluster : Cluster) (start : AppState Url F)
      : Discovering Url F × DiscoveryEnd → Type 0 where
    not_configured :
        start.config.kubernetes ≡ none → Course cluster start ((start, [], 0), disabled)
    no_client :
        (k8s_config : KubernetesConfig)
        → start.config.kubernetes ≡ some k8s_config
        → cluster.try_default ≡ false
        → Course cluster start ((start, [], 0), client_failed)
    streamed :
        (k8s_config : KubernetesConfig) (events : List Event) (state : AppState Url F)
        (found : K8sOrigins Url) (slept : Duration)
        → start.config.kubernetes ≡ some k8s_config
        → cluster.try_default ≡ true
        → events ≡ cluster.watcher (scope_of k8s_config.namespace) k8s_config.label_selector
        → Tracks start state found
        → ((pool : String) → get found pool ≡ latest (services_of events) pool)
        → slept ≡ errors_of events * from_secs 5
        → Course cluster start ((state, found, slept), stream_ended)

  take_events-Course :
      (cluster : Cluster) (start : AppState Url F) (k8s_config : KubernetesConfig)
      → start.config.kubernetes ≡ some k8s_config
      → cluster.try_default ≡ true
      → (events : List Event)
      → events ≡ cluster.watcher (scope_of k8s_config.namespace) k8s_config.label_selector
      → Course cluster start (take_events (start, [], 0) events, stream_ended)
  unfolding get
  take_events-Course cluster start k8s_config there client events e =
      subst (λ d. Course cluster start (d, stream_ended))
        (sym (take_events_services start [] 0 events))
        (streamed k8s_config events _ _ _ there client e
          (apply_services-Tracks start start [] (services_of events) (start-Tracks start))
          (λ pool. apply_services_lem start [] (services_of events) pool ∙ first_some-none _)
          (omega arith))

  configured :
      (cluster : Cluster) (start : AppState Url F) (k8s_config : KubernetesConfig) (client : Bool)
      → start.config.kubernetes ≡ some k8s_config
      → cluster.try_default ≡ client
      → Course cluster start (
          if client
          then (
            take_events
                (start, [], 0)
                (cluster.watcher (scope_of k8s_config.namespace) k8s_config.label_selector),
            stream_ended,
          )
          else ((start, [], 0), client_failed))
  configured cluster start k8s_config true there e =
      take_events-Course cluster start k8s_config there e _ refl
  configured cluster start k8s_config false there e = no_client k8s_config there e

  -- Without a configuration of Kubernetes, or without a client of the cluster, the discovery ends
  -- and changes nothing. Otherwise it watches the configured namespace, or all, with the configured
  -- labels; when the stream ends, it has slept five seconds for every error; a pool's discovered
  -- origin is that of the last service that gave it one; every discovered origin has a state, the
  -- states and the configuration of the start are as they were, and the table is the one built from
  -- that configuration with the discovered origins, unless nothing was discovered, when nothing
  -- has changed.
  pub run_k8s_discovery-Course :
      (cluster : Cluster) (start : AppState Url F)
      → Course cluster start (run_k8s_discovery cluster start)
  unfolding run_k8s_discovery run_configured
  run_k8s_discovery-Course cluster start = by_config start.config.kubernetes refl
    where
      by_config :
          (o : Option KubernetesConfig)
          → start.config.kubernetes ≡ o
          → Course cluster start (elim o [
            | none ↦ ((start, [], 0), disabled)
            | some k8s_config ↦ run_configured cluster start k8s_config
          ])
      by_config none e = not_configured e
      by_config (some k8s_config) e = configured cluster start k8s_config cluster.try_default e refl
