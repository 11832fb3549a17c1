-- ===== src/Health/Discovery/Latest.antt =====
-- Which service a pool gets (src/health/discovery.rs).
use upstreamer.Common.{
  ◌≡◌, refl, arith, Option, none, some, List, [], ◌∷◌, String, string_eq, inl, inr, Option-cases,
  ◌==◌, if◌then◌else◌,
}
use upstreamer.Common.Table.{get, or_insert, get-insert, get-or_insert}
use upstreamer.External.{UrlOps}
use upstreamer.Config.Validate.{first_some}
use upstreamer.Route.{K8sOrigins}
use upstreamer.State.{AppState}
use upstreamer.Health.Discovery.{
  Service, service_to_origin, apply_origin, apply_service, apply_services,
}

module _ {Url : Type 0} ⦃u : UrlOps Url⦄ where
  get-apply_origin :
      (k8s : K8sOrigins Url) (origin : String × Url) (pool : String)
      → get (apply_origin k8s origin) pool
        ≡ (if origin.0 == pool then some (origin.1 ∷ []) else get k8s pool)
  unfolding apply_origin
  get-apply_origin k8s (p, url) pool =
      ground (arith, get-insert (or_insert k8s p []) p pool (url ∷ []), get-or_insert k8s p pool [])

  -- The origin that a service gives a pool.
  abbrev pub given : String → Option (String × Url) → Option (List Url)
  given pool none = none
  given pool (some (p, url)) = if p == pool then some (url ∷ []) else none

  -- The last of the services that gives the pool an origin.
  abbrev pub latest : List Service → String → Option (List Url)
  latest [] pool = none
  latest (svc ∷ svcs) pool = first_some (latest svcs pool) (given pool (service_to_origin svc))

  module _ {F : Type 0} where
    get-apply_service :
        (state : AppState Url F) (k8s : K8sOrigins Url) (svc : Service) (pool : String)
        → get (apply_service (state, k8s) svc).1 pool
          ≡ first_some (given pool (service_to_origin svc)) (get k8s pool)
    unfolding apply_service
    get-apply_service state k8s svc pool = elim (Option-cases (service_to_origin {Url = Url} svc)) [
      | inl nothing ↦ rw (nothing, apply_service) refl
      | inr (origin, there) ↦ ground (arith, there, get-apply_origin k8s origin pool)
    ]

    -- However many services name a pool, the pool holds the one origin of the service that was
    -- applied last; a pool that none of them names keeps what it had.
    pub apply_services_lem :
        (state : AppState Url F) (k8s : K8sOrigins Url) (svcs : List Service) (pool : String)
        → get (apply_services (state, k8s) svcs).1 pool
          ≡ first_some (latest svcs pool) (get k8s pool)
    unfolding apply_services
    apply_services_lem state k8s [] pool = refl
    apply_services_lem state k8s (svc ∷ svcs) pool =
        let after = apply_service (state, k8s) svc in
        ground (
          arith,
          apply_services_lem after.0 after.1 svcs pool,
          get-apply_service state k8s svc pool,
        )
