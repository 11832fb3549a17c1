-- ===== src/Health/Discovery/Watcher.antt =====
-- The discovery's task from its start (src/health/discovery.rs, `run_k8s_discovery`). The client of
-- the cluster and the stream of its watcher are arguments. A stream that goes on is seen after any
-- number of its events by `take_events`.
use upstreamer.Common.{
  ℕ, ◌+◌, ◌*◌, ◌≡◌, ap, ◌∙◌, arith, Bool, Option, none, some, List, [], ◌∷◌, String, string_eq,
  if◌then◌else◌,
}
use upstreamer.External.{UrlOps}
use upstreamer.Config.{Duration, from_secs, KubernetesConfig}
use upstreamer.Route.{K8sOrigins}
use upstreamer.State.{AppState}
use upstreamer.Health.Discovery.{Service, apply_service, apply_services}

-- `Api::namespaced` or `Api::all`, and the labels of the watcher.
pub data Scope : Type 0 where
  namespaced : String → Scope
  all_namespaces : Scope

abbrev pub scope_of : Option String → Scope
scope_of none = all_namespaces
scope_of (some ns) = namespaced ns

-- What the stream brings: a service that was applied, or an error.
pub data Event : Type 0 where
  applied : Service → Event
  watcher_error : Event

-- How the task ends.
pub data DiscoveryEnd : Type 0 where
  disabled client_failed stream_ended : DiscoveryEnd

-- The cluster: whether a client of it can be made, and the stream of a scope and a label selector.
pub record Cluster : Type 0 where
  pub try_default : Bool
  pub watcher : Scope → Option String → List Event

-- The state, the discovered origins, and the time for which the loop has slept.
abbrev pub Discovering : Type 0 → Type 0 → Type 0
Discovering Url F = AppState Url F × K8sOrigins Url × Duration

-- The services among the events, and the number of errors.
abbrev pub services_of : List Event → List Service
services_of [] = []
services_of (applied svc ∷ es) = svc ∷ services_of es
services_of (watcher_error ∷ es) = services_of es

abbrev pub errors_of : List Event → ℕ
errors_of [] = 0
errors_of (applied svc ∷ es) = errors_of es
errors_of (watcher_error ∷ es) = 1 + errors_of es

module _ {Url F : Type 0} ⦃u : UrlOps Url⦄ where
  -- One turn of the loop.
  unfoldable pub take_event : Discovering Url F → Event → Discovering Url F
  unfolding apply_service
  take_event (state, k8s, slept) (applied svc) =
      let (after, found) = apply_service (state, k8s) svc in (after, found, slept)
  take_event (state, k8s, slept) watcher_error = (state, k8s, slept + from_secs 5)

  unfoldable pub take_events : Discovering Url F → List Event → Discovering Url F
  unfolding take_event
  take_events d [] = d
  take_events d (e ∷ es) = take_events (take_event d e) es

  unfoldable pub run_configured :
      Cluster → AppState Url F → KubernetesConfig → Discovering Url F × DiscoveryEnd
  unfolding take_events
  run_configured cluster state k8s_config =
      if cluster.try_default
      then (
        take_events (state, [], 0)
            (cluster.watcher (scope_of k8s_config.namespace) k8s_config.label_selector),
        stream_ended,
      )
      else ((state, [], 0), client_failed)

  unfoldable pub run_k8s_discovery : Cluster → AppState Url F → Discovering Url F × DiscoveryEnd
  unfolding run_configured
  run_k8s_discovery cluster state = elim state.config.kubernetes [
    | none ↦ ((state, [], 0), disabled)
    | some k8s_config ↦ run_configured cluster state k8s_config
  ]

  pub take_events_services :
      (state : AppState Url F) (k8s : K8sOrigins Url) (slept : Duration) (es : List Event)
      → take_events (state, k8s, slept) es ≡ (
        (apply_services (state, k8s) (services_of es)).0,
        (apply_services (state, k8s) (services_of es)).1,
        slept + errors_of es * from_secs 5,
      )
  unfolding take_events apply_services
  take_events_services state k8s slept [] = ap (λ t. (state, k8s, t)) (omega arith)
  take_events_services state k8s slept (applied svc ∷ es) =
      take_events_services (apply_service (state, k8s) svc).0 (apply_service (state, k8s) svc).1
        slept es
  take_events_services state k8s slept (watcher_error ∷ es) =
      take_events_services state k8s (slept + from_secs 5) es
      ∙ ap
          (λ t. (
            (apply_services (state, k8s) (services_of es)).0,
            (apply_services (state, k8s) (services_of es)).1,
            t,
          ))
          (omega arith)
