-- ===== src/System/Interleaving.antt =====
-- The steps of the tasks, interleaved.
use upstreamer.Common.{List, []}
use upstreamer.Common.{
  ℕ, ◌≡◌, ap, ◌∙◌, some, String, string_eq, inl, inr, Option-cases, Bool-cases, All, All_In,
  All-set, In-of_get_elem?, get_elem?,
}
use upstreamer.Common.Table.{get}
use upstreamer.External.{UrlOps, F64Ops, IpAddr}
use upstreamer.Config.Validate.{unwrap_or}
use upstreamer.Balance.Weighted.{Draw}
use upstreamer.Route.{RouteEntry, K8sOrigins, LoadBalancer, match_route, select_origin}
use upstreamer.Route.Matching.{match_route_lem}
use upstreamer.Route.Selection.{IsKeyed}
use upstreamer.RateLimit.{Instant}
use upstreamer.State.{AppState}
use upstreamer.State.Known.{IsKnown}
use upstreamer.Server.{Incoming, check_limits, begin_route, begin_request, set_balancer}
use upstreamer.Server.Branches.{check_limits_frame}
use upstreamer.System.{
  System, Step, begins, finishes, checks, cleans, reloads, discovers, Reachable, starts, steps,
  cleanup_limiters,
}
use upstreamer.System.Sound.{
  IsSound, IsSoundFor, IsSoundFor-IsSound, new_state-IsSoundFor, checks-IsSoundFor,
  finishes-IsSoundFor, reloads-IsSoundFor, discovers-IsSoundFor,
}

module _ {Url F : Type 0} ⦃u : UrlOps Url⦄ ⦃f : F64Ops F⦄ (lacking kept : List String) where
  check_limits-IsSoundFor :
      (state : AppState Url F) (k8s : K8sOrigins Url) (key : String) (ip : IpAddr) (now : Instant)
      → IsSoundFor lacking kept (state, k8s)
      → IsSoundFor lacking kept ((check_limits state key ip now).0, k8s)
  unfolding check_limits
  check_limits-IsSoundFor state k8s key ip now h =
      elim (Option-cases (get state.route_ratelimiters key)) [
        | inl missing ↦ elim (Option-cases state.ratelimiter) [
          | inl off ↦
              rw (missing, check_limits, off)
                (record {
                  keyed = h.keyed;
                  covered = h.covered;
                  configured = h.configured;
                  found = h.found;
                  stays = h.stays;
                })
          | inr (l, on) ↦
              rw (missing, check_limits, on)
                (record {
                  keyed = h.keyed;
                  covered = h.covered;
                  configured = h.configured;
                  found = h.found;
                  stays = h.stays;
                })
        ]
        | inr (l, there) ↦
            rw (there, check_limits)
              (record {
                keyed = h.keyed;
                covered = h.covered;
                configured = h.configured;
                found = h.found;
                stays = h.stays;
              })
      ]

  set_balancer-IsSoundFor :
      (state : AppState Url F) (k8s : K8sOrigins Url) (i : ℕ) (r : RouteEntry Url)
      (lb : LoadBalancer)
      → get_elem? state.router.routes i ≡ some r
      → IsSoundFor lacking kept (state, k8s)
      → IsSoundFor lacking kept (set_balancer state i r lb, k8s)
  set_balancer-IsSoundFor state k8s i r lb at h =
      let inside = In-of_get_elem? r state.router.routes i at in
      record {
        keyed =
            All-set _ state.router.routes i _ h.keyed
              (All_In (λ r. All IsKeyed r.candidates) r state.router.routes h.keyed inside);
        covered = All-set _ state.router.routes i _ h.covered (
            All_In (λ r. All (λ o. IsKnown lacking state.origin_states o.url_key) r.candidates) r
              state.router.routes h.covered inside);
        configured = h.configured;
        found = h.found;
        stays = h.stays;
      }

  begin_route-IsSoundFor :
      (state : AppState Url F) (k8s : K8sOrigins Url) (i : ℕ) (r : RouteEntry Url) (ip : IpAddr)
      (now : Instant) (draw : Draw F)
      → get_elem? state.router.routes i ≡ some r
      → IsSoundFor lacking kept (state, k8s)
      → IsSoundFor lacking kept ((begin_route state i r ip now draw).0, k8s)
  unfolding begin_route
  begin_route-IsSoundFor state k8s i r ip now draw at h =
      let limited = check_limits-IsSoundFor state k8s r.key ip now h in
      elim (Bool-cases (check_limits state r.key ip now).1) [
        | inr over ↦ rw (over, begin_route) limited
        | inl under ↦
            rw (under, begin_route)
              (set_balancer-IsSoundFor (check_limits state r.key ip now).0 k8s i r
                (select_origin r.load_balancer r.candidates
                  (check_limits state r.key ip now).0.origin_states draw).0
                (ap (λ router. get_elem? router.routes i) (check_limits_frame state r.key ip now).1
                  ∙ at)
                limited)
      ]

  begins-IsSoundFor :
      (state : AppState Url F) (k8s : K8sOrigins Url) (req : Incoming) (ip : IpAddr) (now : Instant)
      (draw : Draw F)
      → IsSoundFor lacking kept (state, k8s)
      → IsSoundFor lacking kept ((begin_request state req ip now draw).0, k8s)
  unfolding begin_request
  begins-IsSoundFor state k8s req ip now draw h =
      elim (Option-cases (match_route state.router (unwrap_or req.host "") req.path)) [
        | inl nothing ↦ rw (nothing, begin_request) h
        | inr ((i, r), found) ↦
            let first =
              ((match_route_lem (unwrap_or req.host "") req.path state.router).1 i r).0 found in
            rw (found, begin_request)
              (begin_route-IsSoundFor state k8s i r ip now draw first.there h)
      ]

  cleans-IsSoundFor :
      (state : AppState Url F) (k8s : K8sOrigins Url) (now : Instant)
      → IsSoundFor lacking kept (state, k8s)
      → IsSoundFor lacking kept (cleanup_limiters state now, k8s)
  unfolding cleanup_limiters
  cleans-IsSoundFor state k8s now h = record {
    keyed = h.keyed;
    covered = h.covered;
    configured = h.configured;
    found = h.found;
    stays = h.stays;
  }

  -- Each step of each task but a reload keeps what holds halfway through one.
  pub Step-IsSoundFor :
      (s t : System Url F) → Step s t → IsSoundFor lacking kept s → IsSoundFor lacking kept t
  Step-IsSoundFor _ _ (begins state k8s req ip now draw) h =
      begins-IsSoundFor state k8s req ip now draw h
  Step-IsSoundFor _ _ (finishes state k8s o latency answer) h =
      finishes-IsSoundFor lacking kept state k8s o latency answer h
  Step-IsSoundFor _ _ (checks state k8s client up down ts) h =
      checks-IsSoundFor lacking kept state k8s client up down ts h
  Step-IsSoundFor _ _ (cleans state k8s now) h = cleans-IsSoundFor state k8s now h
  Step-IsSoundFor _ _ (reloads state k8s exists loaded) h =
      reloads-IsSoundFor lacking kept state k8s exists loaded h
  Step-IsSoundFor _ _ (discovers state k8s svc) h =
      discovers-IsSoundFor lacking kept state k8s svc h

module _ {Url F : Type 0} ⦃u : UrlOps Url⦄ ⦃f : F64Ops F⦄ where
  pub Reachable-IsSoundFor : (s : System Url F) → Reachable s → IsSoundFor [] [] s
  Reachable-IsSoundFor _ (starts read c) = new_state-IsSoundFor read c
  Reachable-IsSoundFor t (steps s _ before step) =
      Step-IsSoundFor [] [] s t step (Reachable-IsSoundFor s before)

  -- Started with any configuration and however the tasks' steps interleave, every candidate of the
  -- table is known by the text of its URL and has a state, and so have all origins of the
  -- configuration in force and all discovered ones.
  pub Reachable-IsSound : (s : System Url F) → Reachable s → IsSound s
  Reachable-IsSound s before = IsSoundFor-IsSound [] s (Reachable-IsSoundFor s before)
