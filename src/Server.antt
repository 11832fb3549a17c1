-- ===== src/Server.antt =====
-- Handling a request (src/server.rs). A request runs in two steps, with the wait for the origin
-- between them: `begin_request` up to the choice of an origin, `finish_request` after its answer.
pub mod Proxy
pub mod Branches
pub mod Unhealthy
pub mod Frames
pub mod Listener
use upstreamer.Common.{
  ℕ, ◌<◌, ◌≡◌, Bool, true, false, ◌&&◌, Option, none, some, List, [], ◌∷◌, String, string_eq, set,
  ltb, leb, if◌then◌else◌,
}
use upstreamer.Common.Table.{get, insert}
use upstreamer.External.{UrlOps, F64Ops, IpAddr}
use upstreamer.Config.{Duration}
use upstreamer.Config.Validate.{unwrap_or}
use upstreamer.Balance.{
  OriginEndpoint, OriginState, record_latency, increment_requests, record_success, record_failure,
  record_success_with_threshold, record_failure_with_threshold,
}
use upstreamer.Balance.Weighted.{Draw}
use upstreamer.Route.{RouteEntry, Router, LoadBalancer, match_route, select_origin}
use upstreamer.RateLimit.{RateLimiter, Instant, check}
use upstreamer.Errors.{Response, get_error_response}
use upstreamer.State.{AppState}

-- What the handler reads of a request: the `Host` header, if it is there and readable, and the
-- path of its URI.
pub record Incoming : Type 0 where
  pub host : Option String
  pub path : String

pub data Begun (Url : Type 0) : Type 0 where
  respond : Response → Begun Url
  forward : OriginEndpoint Url → Begun Url

-- What came back of the origin: a response, or an error of the transport.
pub data Answer : Type 0 where
  answered : Response → Answer
  failed : Answer

module _ {Url F : Type 0} where
  unfoldable pub not_found : AppState Url F → Response
  not_found state = get_error_response state.error_pages 404 "Not Found"

  unfoldable pub bad_gateway : AppState Url F → String → Response
  bad_gateway state message = get_error_response state.error_pages 502 message

  unfoldable pub rate_limited : AppState Url F → Response
  rate_limited state = get_error_response state.error_pages 429 "Too Many Requests"

  -- The balancer of the matched route lives on in the router.
  abbrev pub set_balancer : AppState Url F → ℕ → RouteEntry Url → LoadBalancer → AppState Url F
  set_balancer state i r lb = record state {
    router = record { routes = set state.router.routes i (record r { load_balancer = lb }) };
  }

module _ {Url F : Type 0} ⦃f : F64Ops F⦄ where
  abbrev pub check_global :
      AppState Url F → Option (RateLimiter F) → IpAddr → Instant → AppState Url F × Bool
  check_global state none ip now = (state, true)
  check_global state (some l) ip now =
      let (after, allowed) = check l ip now in (record state { ratelimiter = some after }, allowed)

  -- The route's limiter, or else the global one, or else none.
  unfoldable pub check_limits : AppState Url F → String → IpAddr → Instant → AppState Url F × Bool
  check_limits state key ip now = elim (get state.route_ratelimiters key) [
    | some l ↦
        let (after, allowed) = check l ip now in
        (record state { route_ratelimiters = insert state.route_ratelimiters key after }, allowed)
    | none ↦ check_global state state.ratelimiter ip now
  ]

module _ {Url F : Type 0} ⦃u : UrlOps Url⦄ ⦃f : F64Ops F⦄ where
  abbrev pub selected : AppState Url F → Option (OriginEndpoint Url) → Begun Url
  selected state none = respond (bad_gateway state "No healthy origins available")
  selected state (some o) = forward o

  -- From the limits on, for the matched route.
  unfoldable pub begin_route :
      AppState Url F → ℕ → RouteEntry Url → IpAddr → Instant → Draw F → AppState Url F × Begun Url
  unfolding check_limits
  begin_route state i r ip now draw =
      let (limited, allowed) = check_limits state r.key ip now in
      if allowed
      then (let (lb, choice) =
            select_origin r.load_balancer r.candidates limited.origin_states draw in
          let chosen = set_balancer limited i r lb in (chosen, selected chosen choice))
      else (limited, respond (rate_limited limited))

  unfoldable pub begin_request :
      AppState Url F → Incoming → IpAddr → Instant → Draw F → AppState Url F × Begun Url
  unfolding begin_route
  begin_request state req ip now draw =
      elim (match_route state.router (unwrap_or req.host "") req.path) [
        | none ↦ (state, respond (not_found state))
        | some (i, r) ↦ begin_route state i r ip now draw
      ]

-- `StatusCode::is_server_error`
unfoldable pub is_server_error : ℕ → Bool
is_server_error status = leb 500 status && ltb status 600

-- Whether an answer counts as a success of the origin.
unfoldable pub is_success : Answer → Bool
unfolding is_server_error
is_success (answered resp) = if is_server_error resp.status then false else true
is_success failed = false

module _ {Url F : Type 0} where
  -- The outcome is recorded with the thresholds of the state, or with fixed ones if passive checks
  -- are off.
  unfoldable pub record_result : AppState Url F → Answer → OriginState → OriginState
  record_result state answer s =
      if state.passive_enabled
      then (if is_success answer
          then record_success_with_threshold s state.passive_success_threshold
          else record_failure_with_threshold s state.passive_failure_threshold)
      else (if is_success answer then record_success s else record_failure s)

  unfoldable pub record_answer : AppState Url F → Duration → Answer → OriginState → OriginState
  unfolding record_result
  record_answer state latency answer s =
      record_result state answer (record_latency (increment_requests s) latency)

  unfoldable pub finish_request :
      AppState Url F → OriginEndpoint Url → Duration → Answer → AppState Url F
  unfolding record_answer
  finish_request state origin latency answer = elim (get state.origin_states origin.url_key) [
    | none ↦ state
    | some s ↦ record state {
      origin_states =
          insert state.origin_states origin.url_key (record_answer state latency answer s);
    }
  ]

module _ {Url F : Type 0} ⦃u : UrlOps Url⦄ ⦃f : F64Ops F⦄ where
  abbrev pub complete :
      (OriginEndpoint Url → Duration × Answer)
      → AppState Url F × Begun Url
      → AppState Url F × Answer
  complete proxy (state, respond resp) = (state, answered resp)
  complete proxy (state, forward o) =
      let (latency, answer) = proxy o in (finish_request state o latency answer, answer)

  -- `handle_request`, with nothing in between; `proxy` is what `proxy_request` brings back.
  unfoldable pub handle_request :
      (OriginEndpoint Url → Duration × Answer)
      → AppState Url F
      → Incoming
      → IpAddr
      → Instant
      → Draw F
      → AppState Url F × Answer
  unfolding begin_request finish_request
  handle_request proxy state req ip now draw = complete proxy (begin_request state req ip now draw)
