-- ===== src/System/Limited/Requests.antt =====
-- The limiters in force, under requests and in every reachable state.
use mathlib.Core.Option
use upstreamer.Common.{
  ℕ, ◌≡◌, refl, ap, sym, ◌∙◌, subst, arith, Option, none, some, String, string_eq, inl, inr,
  Option-cases, Bool-cases, ◌==◌,
}
use upstreamer.Common.Table.{get, insert, get-insert}
use upstreamer.External.{UrlOps, F64Ops, TokenLaws, IpAddr}
use upstreamer.Config.Validate.{unwrap_or}
use upstreamer.Balance.Weighted.{Draw}
use upstreamer.Route.{RouteEntry, Router, match_route}
use upstreamer.RateLimit.{RateLimiter, Instant, check}
use upstreamer.RateLimit.Limiter.{IsLimiter, check-IsLimiter}
use upstreamer.State.{AppState}
use upstreamer.State.Limiters.{last_limit}
use upstreamer.Server.{Incoming, check_limits, begin_route, begin_request}
use upstreamer.System.{
  System, Step, begins, finishes, checks, cleans, reloads, discovers, Reachable, starts, steps,
  run_checks,
}
use upstreamer.Server.{check_global}
use upstreamer.System.Limited.{
  limit_of, IsLimited, finishes-IsLimited, cleans-IsLimited, new_state-IsLimited, reloads-IsLimited,
  discovers-IsLimited,
}

module _ {Url F : Type 0} ⦃f : F64Ops F⦄ (laws : TokenLaws F) where
  global-IsLimited :
      (state : AppState Url F) (o : Option (RateLimiter F)) (ip : IpAddr) (now : Instant)
      → state.ratelimiter ≡ o
      → IsLimited state
      → IsLimited (check_global state o ip now).0
  global-IsLimited state none ip now off h = h
  global-IsLimited state (some l) ip now on h = record {
    global = λ k e.
        subst IsLimiter (Option.some-injective (check l ip now).0 k e)
          (check-IsLimiter laws l ip now (h.global l on));
    routes = h.routes;
    limits = h.limits;
    enabled = h.enabled;
    failures = h.failures;
    successes = h.successes;
  }

  module _ (state : AppState Url F) (key : String) (ip : IpAddr) (now : Instant)
      (h : IsLimited state) (l : RateLimiter F)
      (there : get state.route_ratelimiters key ≡ some l) where
    inserted_are :
        (other : String) (k : RateLimiter F)
        → get (insert state.route_ratelimiters key (check l ip now).0) other ≡ some k
        → IsLimiter k
    inserted_are other k at =
        let after = get-insert state.route_ratelimiters key other (check l ip now).0 in
        elim (Bool-cases (key == other)) [
          | inl same ↦
              subst IsLimiter
                (Option.some-injective (check l ip now).0 k (ground (arith, after, same, at)))
                (check-IsLimiter laws l ip now (h.routes key l there))
          | inr apart ↦ h.routes other k (ground (arith, after, apart, at))
        ]

    inserted_limits :
        (other : String)
        → Option.map limit_of (get (insert state.route_ratelimiters key (check l ip now).0) other)
          ≡ last_limit state.config.routes other
    unfolding check
    inserted_limits other =
        let after = get-insert state.route_ratelimiters key other (check l ip now).0 in
        elim (Bool-cases (key == other)) [
          | inl same ↦
              let name : key ≡ other = (string_eq.same_iff key other).0 same in
              let here : get state.route_ratelimiters other ≡ some l = rw (← name) there in
              ap (Option.map limit_of) after
              ∙ rw same (ap (Option.map limit_of) (sym here) ∙ h.limits other)
          | inr apart ↦ ap (Option.map limit_of) after ∙ rw apart (h.limits other)
        ]

  check_limits-IsLimited :
      (state : AppState Url F) (key : String) (ip : IpAddr) (now : Instant)
      → IsLimited state
      → IsLimited (check_limits state key ip now).0
  unfolding check_limits
  check_limits-IsLimited state key ip now h =
      elim (Option-cases (get state.route_ratelimiters key)) [
        | inl missing ↦
            rw (missing, check_limits) (global-IsLimited state state.ratelimiter ip now refl h)
        | inr (l, there) ↦
            rw (there, check_limits)
              (record {
                global = h.global;
                routes = inserted_are state key ip now h l there;
                limits = inserted_limits state key ip now h l there;
                enabled = h.enabled;
                failures = h.failures;
                successes = h.successes;
              })
      ]

  set_router-IsLimited :
      (state : AppState Url F) (router : Router Url)
      → IsLimited state
      → IsLimited (record state { router = router })
  set_router-IsLimited state router h = record {
    global = h.global;
    routes = h.routes;
    limits = h.limits;
    enabled = h.enabled;
    failures = h.failures;
    successes = h.successes;
  }

module _ {Url F : Type 0} ⦃u : UrlOps Url⦄ ⦃f : F64Ops F⦄ (laws : TokenLaws F) where
  begin_route-IsLimited :
      (state : AppState Url F) (i : ℕ) (r : RouteEntry Url) (ip : IpAddr) (now : Instant)
      (draw : Draw F)
      → IsLimited state
      → IsLimited (begin_route state i r ip now draw).0
  unfolding begin_route
  begin_route-IsLimited state i r ip now draw h =
      let limited = check_limits-IsLimited laws state r.key ip now h in
      elim (Bool-cases (check_limits state r.key ip now).1) [
        | inr over ↦ rw (over, begin_route) limited
        | inl under ↦
            rw (under, begin_route)
              (set_router-IsLimited laws (check_limits state r.key ip now).0 _ limited)
      ]

  begins-IsLimited :
      (state : AppState Url F) (req : Incoming) (ip : IpAddr) (now : Instant) (draw : Draw F)
      → IsLimited state
      → IsLimited (begin_request state req ip now draw).0
  unfolding begin_request
  begins-IsLimited state req ip now draw h =
      elim (Option-cases (match_route state.router (unwrap_or req.host "") req.path)) [
        | inl nothing ↦ rw (nothing, begin_request) h
        | inr ((i, r), found) ↦
            rw (found, begin_request) (begin_route-IsLimited state i r ip now draw h)
      ]

  Step-IsLimited : (s t : System Url F) → Step s t → IsLimited s.0 → IsLimited t.0
  unfolding run_checks
  Step-IsLimited _ _ (begins state k8s req ip now draw) h = begins-IsLimited state req ip now draw h
  Step-IsLimited _ _ (finishes state k8s o latency answer) h =
      finishes-IsLimited state o latency answer h
  Step-IsLimited _ _ (checks state k8s client up down ts) h = record {
    global = h.global;
    routes = h.routes;
    limits = h.limits;
    enabled = h.enabled;
    failures = h.failures;
    successes = h.successes;
  }
  Step-IsLimited _ _ (cleans state k8s now) h = cleans-IsLimited state now h
  Step-IsLimited _ _ (reloads state k8s exists loaded) h = reloads-IsLimited exists state loaded h
  Step-IsLimited _ _ (discovers state k8s svc) h = discovers-IsLimited state k8s svc h

  -- Under the laws of token counts, however the steps of the tasks interleave: every limiter is
  -- well formed, each key has a limiter exactly if the configuration in force gives it one, with
  -- the numbers of the last route that does, and the thresholds of the passive checks are those of
  -- the configuration in force.
  pub Reachable-IsLimited : (s : System Url F) → Reachable s → IsLimited s.0
  Reachable-IsLimited _ (starts read c) = new_state-IsLimited read c
  Reachable-IsLimited t (steps s _ before step) =
      Step-IsLimited s t step (Reachable-IsLimited s before)
