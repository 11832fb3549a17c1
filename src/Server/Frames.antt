-- ===== src/Server/Frames.antt =====
-- Which parts of the state a request touches (src/server.rs).
use upstreamer.Common.{
  ℕ, ◌≡◌, refl, sym, ap, ◌∙◌, String, string_eq, inl, inr, Bool-cases, Option-cases,
}
use upstreamer.Common.Table.{get}
use upstreamer.External.{UrlOps, F64Ops, IpAddr}
use upstreamer.Config.{Duration}
use upstreamer.Config.Validate.{unwrap_or}
use upstreamer.Balance.{OriginEndpoint}
use upstreamer.Balance.Weighted.{Draw}
use upstreamer.Route.{RouteEntry, Router, match_route}
use upstreamer.RateLimit.{Instant}
use upstreamer.State.{AppState}
use upstreamer.Server.{Incoming, Answer, check_limits, begin_route, begin_request, finish_request}

module _ {Url F : Type 0} where
  -- `t` is `s` with other limiters.
  abbrev pub HasLimitersOf : AppState Url F → AppState Url F → Type 0
  HasLimitersOf t s =
      t ≡ record s { ratelimiter = t.ratelimiter; route_ratelimiters = t.route_ratelimiters }

  -- `t` is `s` with another table and other limiters.
  abbrev pub HasRequestOf : AppState Url F → AppState Url F → Type 0
  HasRequestOf t s = t ≡ record s {
    router = t.router;
    ratelimiter = t.ratelimiter;
    route_ratelimiters = t.route_ratelimiters;
  }

  HasLimitersOf-HasRequestOf : (t s : AppState Url F) → HasLimitersOf t s → HasRequestOf t s
  HasLimitersOf-HasRequestOf t s e =
      e
      ∙ ap
          (λ x. record s {
            router = x;
            ratelimiter = t.ratelimiter;
            route_ratelimiters = t.route_ratelimiters;
          })
          (sym (ap (λ x. x.router) e))

  set_router-HasRequestOf :
      (t s : AppState Url F) (router : Router Url)
      → HasLimitersOf t s
      → HasRequestOf (record t { router = router }) s
  set_router-HasRequestOf t s router e = ap (λ (x : AppState Url F). record x { router = router }) e

module _ {Url F : Type 0} ⦃f : F64Ops F⦄ where
  check_limits_parts :
      (state : AppState Url F) (key : String) (ip : IpAddr) (now : Instant)
      → HasLimitersOf (check_limits state key ip now).0 state
  unfolding check_limits
  check_limits_parts state key ip now = elim (Option-cases (get state.route_ratelimiters key)) [
    | inl missing ↦ elim (Option-cases state.ratelimiter) [
      | inl off ↦ rw (missing, check_limits, off) refl
      | inr (l, on) ↦ rw (missing, check_limits, on) refl
    ]
    | inr (l, there) ↦ rw (there, check_limits) refl
  ]

module _ {Url F : Type 0} ⦃u : UrlOps Url⦄ ⦃f : F64Ops F⦄ where
  begin_route_parts :
      (state : AppState Url F) (i : ℕ) (r : RouteEntry Url) (ip : IpAddr) (now : Instant)
      (draw : Draw F)
      → HasRequestOf (begin_route state i r ip now draw).0 state
  unfolding begin_route
  begin_route_parts state i r ip now draw =
      let limited = check_limits_parts state r.key ip now in
      elim (Bool-cases (check_limits state r.key ip now).1) [
        | inr over ↦ rw (over, begin_route) (HasLimitersOf-HasRequestOf _ state limited)
        | inl under ↦ rw (under, begin_route) (set_router-HasRequestOf _ state _ limited)
      ]

  -- A request that begins changes the table (its counters) and the limiters, and nothing else.
  pub begin_request_parts :
      (state : AppState Url F) (req : Incoming) (ip : IpAddr) (now : Instant) (draw : Draw F)
      → HasRequestOf (begin_request state req ip now draw).0 state
  unfolding begin_request
  begin_request_parts state req ip now draw =
      elim (Option-cases (match_route state.router (unwrap_or req.host "") req.path)) [
        | inl nothing ↦ rw (nothing, begin_request) refl
        | inr ((i, r), found) ↦ rw (found, begin_request) (begin_route_parts state i r ip now draw)
      ]

module _ {Url F : Type 0} where
  -- A request that ends changes the states of the origins, and nothing else.
  pub finish_request_parts :
      (state : AppState Url F) (o : OriginEndpoint Url) (latency : Duration) (answer : Answer)
      → finish_request state o latency answer
        ≡ record state { origin_states = (finish_request state o latency answer).origin_states }
  unfolding finish_request
  finish_request_parts state o latency answer =
      elim (Option-cases (get state.origin_states o.url_key)) [
        | inl missing ↦ rw (missing, finish_request) refl
        | inr (s, there) ↦ rw (there, finish_request) refl
      ]
