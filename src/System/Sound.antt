-- ===== src/System/Sound.antt =====
-- The invariant of the shared state, and the steps that keep it.
use mathlib.Core.Option
use upstreamer.Common.{
  ℕ, ap, ◌∙◌, Bool, Option, List, [], String, string_eq, inl, inr, Option-cases, All-mono, In,
  Result, ok, err,
}
use upstreamer.Common.Table.{get}
use upstreamer.External.{UrlOps}
use upstreamer.Config.{Duration, ProxyConfig, PathBuf}
use upstreamer.Config.Validate.{Check, validate}
use upstreamer.Balance.{OriginEndpoint}
use upstreamer.Balance.Health.{record_all}
use upstreamer.Balance.RoundRobin.{OriginStates}
use upstreamer.Route.{K8sOrigins, from_config}
use upstreamer.Route.Selection.{IsKeyedRouter, from_config-IsKeyedRouter}
use upstreamer.Errors.{Bytes}
use upstreamer.State.{AppState, add_states, config_keys, new_state}
use upstreamer.State.Cover.{
  HasState, IsCovered, add_states-keeps, add_states-HasState, add_states-IsCovered,
}
use upstreamer.State.Known.{
  Extends, insert-Extends, IsKnown, AreKnown, AreKnown-mono, IsCovered-AreKnown,
}
use upstreamer.Server.{Answer, finish_request, record_answer}
use upstreamer.Reload.{LoadError, apply_config, apply_checked, reload}
use upstreamer.Health.{Target, ProbeResult}
use upstreamer.Health.Probes.{get-probe_all, outcomes}
use upstreamer.Health.Discovery.{
  Service, service_to_origin, apply_origin, k8s_keys, rebuild_router, apply_service,
}
use upstreamer.Health.Discovery.Covered.{
  from_config_with_k8s_keys, from_config_with_k8s-IsKeyedRouter,
}
use upstreamer.System.{System, run_checks}

module _ {Url F : Type 0} ⦃u : UrlOps Url⦄ where
  -- Candidates are known by the texts of their URLs; the candidates of the table, the origins of
  -- the configuration and those that were discovered all have a state.
  pub record IsSound (system : System Url F) : Type 0 where
    pub keyed : IsKeyedRouter system.0.router
    pub covered : IsCovered system.0.origin_states system.0.router
    pub configured :
        (k : String) → In k (config_keys system.0.config.routes) → HasState system.0.origin_states k
    pub found : (k : String) → In k (k8s_keys system.1) → HasState system.0.origin_states k

  -- The same halfway through a change: the candidates with a key of `lacking` may have no state, and
  -- the keys of `kept` have one.
  pub record IsSoundFor (lacking kept : List String) (system : System Url F) : Type 0 where
    pub keyed : IsKeyedRouter system.0.router
    pub covered : AreKnown lacking system.0.origin_states system.0.router
    pub configured :
        (k : String) → In k (config_keys system.0.config.routes) → HasState system.0.origin_states k
    pub found : (k : String) → In k (k8s_keys system.1) → HasState system.0.origin_states k
    pub stays : (k : String) → In k kept → HasState system.0.origin_states k

  pub IsSoundFor-IsSound :
      (kept : List String) (system : System Url F) → IsSoundFor [] kept system → IsSound system
  IsSoundFor-IsSound kept system h = record {
    keyed = h.keyed;
    covered =
        All-mono _ _ system.0.router.routes
          (λ r.
            All-mono _ _ r.candidates
              (λ o known. elim known [ inl at ↦ at | inr missing ↦ absurd missing ]))
          h.covered;
    configured = h.configured;
    found = h.found;
  }

module _ {Url F : Type 0} ⦃u : UrlOps Url⦄ (lacking kept : List String) where
  -- A step that loses no state and leaves the rest alone.
  extend_states :
      (state : AppState Url F) (k8s : K8sOrigins Url) (b : OriginStates)
      → Extends state.origin_states b
      → IsSoundFor lacking kept (state, k8s)
      → IsSoundFor lacking kept (record state { origin_states = b }, k8s)
  extend_states state k8s b more h = record {
    keyed = h.keyed;
    covered = AreKnown-mono lacking state.origin_states b state.router more h.covered;
    configured = λ k at. more k (h.configured k at);
    found = λ k at. more k (h.found k at);
    stays = λ k at. more k (h.stays k at);
  }

  pub checks-IsSoundFor :
      (state : AppState Url F) (k8s : K8sOrigins Url) (client : String → ProbeResult) (up down : ℕ)
      (ts : List Target)
      → IsSoundFor lacking kept (state, k8s)
      → IsSoundFor lacking kept (run_checks client up down state ts, k8s)
  unfolding run_checks
  checks-IsSoundFor state k8s client up down ts h =
      extend_states state k8s _
        (λ k (s, there). (
          record_all up down s (outcomes client up down k ts),
          get-probe_all client up down state.origin_states ts k
              ∙ ap (Option.map (λ s. record_all up down s (outcomes client up down k ts))) there,
        ))
        h

  pub finishes-IsSoundFor :
      (state : AppState Url F) (k8s : K8sOrigins Url) (o : OriginEndpoint Url) (latency : Duration)
      (answer : Answer)
      → IsSoundFor lacking kept (state, k8s)
      → IsSoundFor lacking kept (finish_request state o latency answer, k8s)
  unfolding finish_request
  finishes-IsSoundFor state k8s o latency answer h =
      elim (Option-cases (get state.origin_states o.url_key)) [
        | inl missing ↦ rw (missing, finish_request) h
        | inr (s, there) ↦
            rw (there, finish_request)
              (extend_states state k8s _
                (insert-Extends state.origin_states o.url_key
                  (record_answer state latency answer s))
                h)
      ]

  apply_config-IsSoundFor :
      (state : AppState Url F) (k8s : K8sOrigins Url) (c : ProxyConfig Url)
      → IsSoundFor lacking kept (state, k8s)
      → IsSoundFor lacking kept (apply_config state c, k8s)
  unfolding apply_config
  apply_config-IsSoundFor state k8s c h =
      let after = add_states state.origin_states (config_keys c.routes) in
      record {
        keyed = from_config-IsKeyedRouter c;
        covered =
            IsCovered-AreKnown lacking after (from_config c)
              (add_states-IsCovered state.origin_states c);
        configured = add_states-HasState state.origin_states (config_keys c.routes);
        found = λ k at.
            let (s, there) = h.found k at in
            (s, add_states-keeps state.origin_states (config_keys c.routes) k s there);
        stays = λ k at.
            let (s, there) = h.stays k at in
            (s, add_states-keeps state.origin_states (config_keys c.routes) k s there);
      }

  pub reloads-IsSoundFor :
      (state : AppState Url F) (k8s : K8sOrigins Url) (exists : PathBuf → Bool)
      (loaded : Result LoadError (ProxyConfig Url))
      → IsSoundFor lacking kept (state, k8s)
      → IsSoundFor lacking kept (reload exists state loaded, k8s)
  unfolding reload
  reloads-IsSoundFor state k8s exists (err e) h = h
  reloads-IsSoundFor state k8s exists (ok c) h = by_check (validate exists c)
    where
      by_check : (r : Check) → IsSoundFor lacking kept (apply_checked state c r, k8s)
      by_check (ok tt) = apply_config-IsSoundFor state k8s c h
      by_check (err e) = h

  rebuild_router-IsSoundFor :
      (state : AppState Url F) (k8s after : K8sOrigins Url)
      → IsSoundFor lacking kept (state, k8s)
      → IsSoundFor lacking kept (rebuild_router state after, after)
  unfolding rebuild_router
  rebuild_router-IsSoundFor state k8s after h =
      let now = add_states state.origin_states (k8s_keys after) in
      let more : Extends state.origin_states now =
        λ k (s, there). (s, add_states-keeps state.origin_states (k8s_keys after) k s there) in
      let found = add_states-HasState state.origin_states (k8s_keys after) in
      record {
        keyed = from_config_with_k8s-IsKeyedRouter state.config after;
        covered =
            from_config_with_k8s_keys (IsKnown lacking now) after (λ k at. inl (found k at))
              state.config (λ k at. inl (more k (h.configured k at)));
        configured = λ k at. more k (h.configured k at);
        found = found;
        stays = λ k at. more k (h.stays k at);
      }

  pub discovers-IsSoundFor :
      (state : AppState Url F) (k8s : K8sOrigins Url) (svc : Service)
      → IsSoundFor lacking kept (state, k8s)
      → IsSoundFor lacking kept (apply_service (state, k8s) svc)
  unfolding apply_service
  discovers-IsSoundFor state k8s svc h = elim (Option-cases (service_to_origin {Url = Url} svc)) [
    | inl nothing ↦ rw (nothing, apply_service) h
    | inr (origin, there) ↦
        rw (there, apply_service) (rebuild_router-IsSoundFor state k8s (apply_origin k8s origin) h)
  ]

module _ {Url F : Type 0} ⦃u : UrlOps Url⦄ where
  pub new_state-IsSoundFor :
      (read : PathBuf → Option Bytes) (c : ProxyConfig Url)
      → IsSoundFor {F = F} [] [] (new_state read c, [])
  unfolding new_state k8s_keys
  new_state-IsSoundFor read c = record {
    keyed = from_config-IsKeyedRouter c;
    covered =
        IsCovered-AreKnown [] (add_states [] (config_keys c.routes)) (from_config c)
          (add_states-IsCovered [] c);
    configured = add_states-HasState [] (config_keys c.routes);
    found = λ k at. absurd at;
    stays = λ k at. absurd at;
  }
