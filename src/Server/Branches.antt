-- ===== src/Server/Branches.antt =====
-- What becomes of a request (src/server.rs).
use upstreamer.Common.{
  ℕ, ◌≡◌, refl, subst, sym, ap, arith, if◌then◌else◌, Bool, true, false, Option, none, some, [],
  ◌∷◌, nat_eq, String, string_eq, inl, inr, Option-cases, All,
}
use upstreamer.Common.Table.{get, insert}
use upstreamer.External.{UrlOps, F64Ops, IpAddr}
use upstreamer.Config.Validate.{unwrap_or}
use upstreamer.Balance.{OriginEndpoint}
use upstreamer.Balance.Weighted.{Draw}
use upstreamer.Route.{LoadBalancer, RouteEntry, match_route, select_origin}
use upstreamer.Route.Matching.{fits, IsFirst, match_route_lem}
use upstreamer.RateLimit.{RateLimiter, Instant, check}
use upstreamer.Errors.{Bytes, Response, ErrorPageStore, ascii, page_for, get_error_response}
use upstreamer.State.{AppState}
use upstreamer.Server.{
  Incoming, Begun, respond, forward, not_found, bad_gateway, rate_limited, check_limits,
  check_global, set_balancer, selected, begin_route, begin_request,
}

-- The response of an error: the page kept for the status, as HTML, or the text if there is none.
pub data IsErrorPage (store : Option ErrorPageStore) (status : ℕ) (text : String)
    : Response → Type 0 where
  own_page :
      (s : ErrorPageStore) (page : Bytes)
      → store ≡ some s
      → get s.pages status ≡ some page
      → IsErrorPage store status text
          (record { status = status; headers = ("Content-Type", "text/html") ∷ []; body = page })
  plain_text :
      ((s : ErrorPageStore) → store ≡ some s → get s.pages status ≡ none)
      → IsErrorPage store status text (record { status = status; headers = []; body = ascii text })

get_error_response-IsErrorPage :
    (store : Option ErrorPageStore) (status : ℕ) (text : String)
    → IsErrorPage store status text (get_error_response store status text)
unfolding get_error_response page_for
get_error_response-IsErrorPage none status text = plain_text (λ s e. cc)
get_error_response-IsErrorPage (some store) status text =
    elim (Option-cases (get store.pages status)) [
      | inl missing ↦
          rw (missing, get_error_response, page_for)
            (plain_text (λ s e. ground (arith, missing, e)))
      | inr (page, there) ↦
          rw (there, get_error_response, page_for) (own_page store page refl there)
    ]

module _ {Url F : Type 0} ⦃u : UrlOps Url⦄ ⦃f : F64Ops F⦄ where
  -- The limiters change no other part of the state.
  pub check_limits_frame :
      (state : AppState Url F) (key : String) (ip : IpAddr) (now : Instant)
      → ((check_limits state key ip now).0.origin_states ≡ state.origin_states)
        × ((check_limits state key ip now).0.router ≡ state.router)
        × ((check_limits state key ip now).0.error_pages ≡ state.error_pages)
  unfolding check_limits
  check_limits_frame state key ip now = elim (Option-cases (get state.route_ratelimiters key)) [
    | inl missing ↦ elim (Option-cases state.ratelimiter) [
      | inl off ↦ rw (missing, check_limits, off) (refl, refl, refl)
      | inr (l, on) ↦ rw (missing, check_limits, on) (refl, refl, refl)
    ]
    | inr (l, there) ↦ rw (there, check_limits) (refl, refl, refl)
  ]

  -- The limiter that a request is held against, what it leaves, and whether it lets the request
  -- through: the route's, if the route has one, whatever the global one would say; or else the
  -- global one; or else none.
  pub data Limited (state : AppState Url F) (key : String) (ip : IpAddr) (now : Instant)
      : AppState Url F → Bool → Type 0 where
    by_route :
        (l after : RateLimiter F) (allowed : Bool)
        → get state.route_ratelimiters key ≡ some l
        → check l ip now ≡ (after, allowed)
        → Limited state key ip now
            (record state { route_ratelimiters = insert state.route_ratelimiters key after })
            allowed
    by_global :
        (l after : RateLimiter F) (allowed : Bool)
        → get state.route_ratelimiters key ≡ none
        → state.ratelimiter ≡ some l
        → check l ip now ≡ (after, allowed)
        → Limited state key ip now (record state { ratelimiter = some after }) allowed
    by_none :
        get state.route_ratelimiters key ≡ none
        → state.ratelimiter ≡ none
        → Limited state key ip now state true

  check_global-Limited :
      (state : AppState Url F) (key : String) (ip : IpAddr) (now : Instant)
      (o : Option (RateLimiter F))
      → get state.route_ratelimiters key ≡ none
      → state.ratelimiter ≡ o
      → Limited state key ip now (check_global state o ip now).0 (check_global state o ip now).1
  check_global-Limited state key ip now none missing e = by_none missing e
  check_global-Limited state key ip now (some l) missing e = by_global l _ _ missing e refl

  check_limits-Limited :
      (state : AppState Url F) (key : String) (ip : IpAddr) (now : Instant)
      → Limited state key ip now (check_limits state key ip now).0 (check_limits state key ip now).1
  unfolding check_limits
  check_limits-Limited state key ip now = elim (Option-cases (get state.route_ratelimiters key)) [
    | inr (l, there) ↦ rw (there, check_limits) (by_route l _ _ there refl)
    | inl missing ↦
        rw (missing, check_limits)
          (check_global-Limited state key ip now state.ratelimiter missing refl)
  ]

  -- What a route makes of a request, with the state that it leaves. A request that is denied takes
  -- no turn of the balancer.
  pub data Fate (state : AppState Url F) (i : ℕ) (r : RouteEntry Url) (ip : IpAddr) (now : Instant)
      (draw : Draw F) : AppState Url F × Begun Url → Type 0 where
    denied :
        (limited : AppState Url F) (resp : Response)
        → Limited state r.key ip now limited false
        → IsErrorPage state.error_pages 429 "Too Many Requests" resp
        → Fate state i r ip now draw (limited, respond resp)
    no_origin :
        (limited : AppState Url F) (lb : LoadBalancer) (resp : Response)
        → Limited state r.key ip now limited true
        → select_origin r.load_balancer r.candidates state.origin_states draw ≡ (lb, none)
        → IsErrorPage state.error_pages 502 "No healthy origins available" resp
        → Fate state i r ip now draw (set_balancer limited i r lb, respond resp)
    chosen :
        (limited : AppState Url F) (lb : LoadBalancer) (o : OriginEndpoint Url)
        → Limited state r.key ip now limited true
        → select_origin r.load_balancer r.candidates state.origin_states draw ≡ (lb, some o)
        → Fate state i r ip now draw (set_balancer limited i r lb, forward o)

  -- What can become of a request.
  pub data Course (state : AppState Url F) (req : Incoming) (ip : IpAddr) (now : Instant)
      (draw : Draw F) : AppState Url F × Begun Url → Type 0 where
    unmatched :
        (resp : Response)
        → All (λ r. fits (unwrap_or req.host "") req.path r ≡ false) state.router.routes
        → IsErrorPage state.error_pages 404 "Not Found" resp
        → Course state req ip now draw (state, respond resp)
    matched :
        (i : ℕ) (r : RouteEntry Url) (result : AppState Url F × Begun Url)
        → IsFirst (unwrap_or req.host "") req.path state.router.routes i r
        → Fate state i r ip now draw result
        → Course state req ip now draw result

  selected-Fate :
      (state limited : AppState Url F) (i : ℕ) (r : RouteEntry Url) (ip : IpAddr) (now : Instant)
      (draw : Draw F) (lb : LoadBalancer) (o : Option (OriginEndpoint Url))
      → Limited state r.key ip now limited true
      → limited.error_pages ≡ state.error_pages
      → select_origin r.load_balancer r.candidates state.origin_states draw ≡ (lb, o)
      → Fate state i r ip now draw
          (set_balancer limited i r lb, selected (set_balancer limited i r lb) o)
  unfolding bad_gateway
  selected-Fate state limited i r ip now draw lb none h pages e = no_origin limited lb _ h e (
      subst
        (λ p.
          IsErrorPage p 502 "No healthy origins available"
            (get_error_response limited.error_pages 502 "No healthy origins available"))
        pages
        (get_error_response-IsErrorPage limited.error_pages 502 "No healthy origins available"))
  selected-Fate state limited i r ip now draw lb (some o) h pages e = chosen limited lb o h e

  limits-Fate :
      (state limited : AppState Url F) (i : ℕ) (r : RouteEntry Url) (ip : IpAddr) (now : Instant)
      (draw : Draw F) (allowed : Bool)
      → Limited state r.key ip now limited allowed
      → limited.origin_states ≡ state.origin_states
      → limited.error_pages ≡ state.error_pages
      → Fate state i r ip now draw (
          if allowed
          then (let (lb, choice) =
                select_origin r.load_balancer r.candidates limited.origin_states draw in
              let chosen = set_balancer limited i r lb in (chosen, selected chosen choice))
          else (limited, respond (rate_limited limited)))
  unfolding rate_limited
  limits-Fate state limited i r ip now draw false h states pages = denied limited _ h (
      subst
        (λ p.
          IsErrorPage p 429 "Too Many Requests"
            (get_error_response limited.error_pages 429 "Too Many Requests"))
        pages (get_error_response-IsErrorPage limited.error_pages 429 "Too Many Requests"))
  limits-Fate state limited i r ip now draw true h states pages =
      selected-Fate state limited i r ip now draw _ _ h pages
        (ap (λ s. select_origin r.load_balancer r.candidates s draw) (sym states))

  begin_route-Fate :
      (state : AppState Url F) (i : ℕ) (r : RouteEntry Url) (ip : IpAddr) (now : Instant)
      (draw : Draw F)
      → Fate state i r ip now draw (begin_route state i r ip now draw)
  unfolding begin_route
  begin_route-Fate state i r ip now draw =
      let (states, router, pages) = check_limits_frame state r.key ip now in
      limits-Fate state (check_limits state r.key ip now).0 i r ip now draw
        (check_limits state r.key ip now).1 (check_limits-Limited state r.key ip now) states pages

  -- A request that no route fits is answered with the page for 404 and changes nothing; any other
  -- is served by the first route that fits. It is held against that route's limiter if there is one,
  -- else against the global one, if any, and no other limiter is asked. Denied, it is answered with the
  -- page for 429, no turn of the balancer being taken; let through, it is forwarded to the balancer's
  -- choice, or answered with the page for 502 if there is none. A page is the one kept for its
  -- status, as HTML, or else a fixed text, under that status in either case.
  pub begin_request-Course :
      (state : AppState Url F) (req : Incoming) (ip : IpAddr) (now : Instant) (draw : Draw F)
      → Course state req ip now draw (begin_request state req ip now draw)
  unfolding begin_request not_found
  begin_request-Course state req ip now draw =
      let at = match_route_lem (unwrap_or req.host "") req.path state.router in
      elim (Option-cases (match_route state.router (unwrap_or req.host "") req.path)) [
        | inl nothing ↦
            rw (nothing, begin_request, not_found)
              (unmatched _ (at.0.0 nothing)
                (get_error_response-IsErrorPage state.error_pages 404 "Not Found"))
        | inr ((i, r), found) ↦
            rw (found, begin_request)
              (matched i r _ ((at.1 i r).0 found) (begin_route-Fate state i r ip now draw))
      ]
