-- ===== src/System/Keys.antt =====
-- The table of the origins' states, whatever the tasks do.
use upstreamer.Common.{
  ℕ, sym, subst, Bool, List, [], ◌∷◌, String, string_eq, inl, inr, Option-cases, Result, ok, err,
}
use upstreamer.Common.Table.{get, IsTable, insert-IsTable, or_insert, or_insert-IsTable}
use upstreamer.External.{UrlOps, F64Ops}
use upstreamer.Config.{Duration, ProxyConfig, PathBuf}
use upstreamer.Config.Validate.{Check, validate}
use upstreamer.Balance.{OriginEndpoint, new}
use upstreamer.Balance.RoundRobin.{OriginStates}
use upstreamer.Route.{K8sOrigins}
use upstreamer.State.{AppState, add_states, config_keys, new_state}
use upstreamer.Server.{Answer, finish_request, record_answer}
use upstreamer.Server.Unhealthy.{begin_request-origin_states}
use upstreamer.Reload.{LoadError, apply_config, apply_checked, reload}
use upstreamer.Health.{Target, ProbeResult, probe, probe_all}
use upstreamer.Health.Discovery.{
  Service, service_to_origin, apply_origin, k8s_keys, rebuild_router, apply_service,
}
use upstreamer.System.{
  System, Step, begins, finishes, checks, cleans, reloads, discovers, Reachable, starts, steps,
  cleanup_limiters, run_checks,
}

add_states-IsTable :
    (states : OriginStates) (keys : List String) → IsTable states → IsTable (add_states states keys)
unfolding add_states
add_states-IsTable states [] h = h
add_states-IsTable states (key ∷ keys) h =
    add_states-IsTable (or_insert states key new) keys (or_insert-IsTable states key new h)

module _ (client : String → ProbeResult) (up down : ℕ) where
  probe-IsTable :
      (states : OriginStates) (t : Target)
      → IsTable states
      → IsTable (probe client up down states t)
  unfolding probe
  probe-IsTable states (base, path) h = elim (Option-cases (get states base)) [
    | inl missing ↦ rw (missing, probe) h
    | inr (s, there) ↦ rw (there, probe) (insert-IsTable states base _ h)
  ]

  probe_all-IsTable :
      (states : OriginStates) (ts : List Target)
      → IsTable states
      → IsTable (probe_all client up down states ts)
  unfolding probe_all
  probe_all-IsTable states [] h = h
  probe_all-IsTable states (t ∷ ts) h =
      probe_all-IsTable (probe client up down states t) ts (probe-IsTable states t h)

module _ {Url F : Type 0} ⦃u : UrlOps Url⦄ where
  finishes-IsTable :
      (state : AppState Url F) (o : OriginEndpoint Url) (latency : Duration) (answer : Answer)
      → IsTable state.origin_states
      → IsTable (finish_request state o latency answer).origin_states
  unfolding finish_request
  finishes-IsTable state o latency answer h =
      elim (Option-cases (get state.origin_states o.url_key)) [
        | inl missing ↦ rw (missing, finish_request) h
        | inr (s, there) ↦
            rw (there, finish_request)
              (insert-IsTable state.origin_states o.url_key (record_answer state latency answer s)
                h)
      ]

  reloads-IsTable :
      (state : AppState Url F) (exists : PathBuf → Bool)
      (loaded : Result LoadError (ProxyConfig Url))
      → IsTable state.origin_states
      → IsTable (reload exists state loaded).origin_states
  unfolding reload apply_config
  reloads-IsTable state exists (err e) h = h
  reloads-IsTable state exists (ok c) h = by_check (validate exists c)
    where
      by_check : (r : Check) → IsTable (apply_checked state c r).origin_states
      by_check (ok tt) = add_states-IsTable state.origin_states (config_keys c.routes) h
      by_check (err e) = h

  discovers-IsTable :
      (state : AppState Url F) (k8s : K8sOrigins Url) (svc : Service)
      → IsTable state.origin_states
      → IsTable (apply_service (state, k8s) svc).0.origin_states
  unfolding apply_service rebuild_router
  discovers-IsTable state k8s svc h = elim (Option-cases (service_to_origin {Url = Url} svc)) [
    | inl nothing ↦ rw (nothing, apply_service) h
    | inr (origin, there) ↦
        rw (there, apply_service)
          (add_states-IsTable state.origin_states (k8s_keys (apply_origin k8s origin)) h)
  ]

module _ {Url F : Type 0} ⦃u : UrlOps Url⦄ ⦃f : F64Ops F⦄ where
  Step-IsTable :
      (s t : System Url F) → Step s t → IsTable s.0.origin_states → IsTable t.0.origin_states
  unfolding run_checks cleanup_limiters
  Step-IsTable _ _ (begins state k8s req ip now draw) h =
      subst (λ states. IsTable states) (sym (begin_request-origin_states state req ip now draw)) h
  Step-IsTable _ _ (finishes state k8s o latency answer) h =
      finishes-IsTable state o latency answer h
  Step-IsTable _ _ (checks state k8s client up down ts) h =
      probe_all-IsTable client up down state.origin_states ts h
  Step-IsTable _ _ (cleans state k8s now) h = h
  Step-IsTable _ _ (reloads state k8s exists loaded) h = reloads-IsTable state exists loaded h
  Step-IsTable _ _ (discovers state k8s svc) h = discovers-IsTable state k8s svc h

  -- However the tasks' steps interleave, no origin has two entries.
  pub Reachable-IsTable : (s : System Url F) → Reachable s → IsTable s.0.origin_states
  unfolding new_state
  Reachable-IsTable _ (starts read c) = add_states-IsTable [] (config_keys c.routes) tt
  Reachable-IsTable t (steps s _ before step) = Step-IsTable s t step (Reachable-IsTable s before)
