-- ===== src/State.antt =====
-- The state that the tasks of the proxy share, at start (src/state.rs). The HTTP client and the
-- metrics handle are left out: they keep no state of the program.
pub mod Cover
pub mod Limiters
pub mod Known
use upstreamer.Common.{ℕ, Bool, Option, none, some, List, [], ◌∷◌, String, string_eq, map, ◌++◌}
use mathlib.Core.Option
use upstreamer.Common.Table.{get, insert, or_insert}
use upstreamer.External.{UrlOps, as_str, F64Ops}
use upstreamer.Config.{RateLimitConfig, OriginConfig, PoolRef, RouteConfig, ProxyConfig, PathBuf}
use upstreamer.Balance.{OriginState, new}
use upstreamer.Balance.RoundRobin.{OriginStates}
use upstreamer.Route.{Router, route_key, from_config}
use upstreamer.RateLimit.{RateLimiter, new_limiter}
use upstreamer.Errors
use upstreamer.Errors.{ErrorPageStore, Bytes}

-- `ArcSwap` is a cell that is replaced as a whole; `DashMap` a table of the module `Table`.
pub record AppState (Url F : Type 0) : Type 0 where
  pub config : ProxyConfig Url
  pub router : Router Url
  pub origin_states : OriginStates
  pub ratelimiter : Option (RateLimiter F)
  pub route_ratelimiters : List (String × RateLimiter F)
  pub error_pages : Option ErrorPageStore
  pub passive_enabled : Bool
  pub passive_failure_threshold : ℕ
  pub passive_success_threshold : ℕ

-- `entry(key).or_default()` for each key.
unfoldable pub add_states : OriginStates → List String → OriginStates
add_states states [] = states
add_states states (key ∷ keys) = add_states (or_insert states key new) keys

module _ {Url : Type 0} ⦃u : UrlOps Url⦄ where
  unfoldable pub origin_keys : List (OriginConfig Url) → List String
  origin_keys [] = []
  origin_keys (o ∷ os) = as_str o.url ∷ origin_keys os

  unfoldable pub pool_keys : List (PoolRef Url) → List String
  unfolding origin_keys
  pool_keys [] = []
  pool_keys (p ∷ ps) = origin_keys p.origins ++ pool_keys ps

  -- The keys that the nested loops over routes, pools and origins visit.
  unfoldable pub config_keys : List (RouteConfig Url) → List String
  unfolding pool_keys
  config_keys [] = []
  config_keys (r ∷ rs) = pool_keys r.pools ++ config_keys rs

module _ {F : Type 0} where
  abbrev pub limiter_of : RateLimitConfig → RateLimiter F
  limiter_of rl = new_limiter rl.rate rl.burst

  abbrev pub insert_limiter :
      List (String × RateLimiter F)
      → String
      → Option RateLimitConfig
      → List (String × RateLimiter F)
  insert_limiter limiters key none = limiters
  insert_limiter limiters key (some rl) = insert limiters key (limiter_of rl)

module _ {Url F : Type 0} where
  -- The loop that creates the per-route limiters.
  unfoldable pub add_limiters :
      List (String × RateLimiter F) → List (RouteConfig Url) → List (String × RateLimiter F)
  add_limiters limiters [] = limiters
  add_limiters limiters (r ∷ rs) =
      add_limiters (insert_limiter limiters (route_key r.match_host r.match_path) r.ratelimit) rs

module _ {Url F : Type 0} ⦃u : UrlOps Url⦄ where
  -- `AppState::new`; `read` reads an error page.
  unfoldable pub new_state : (PathBuf → Option Bytes) → ProxyConfig Url → AppState Url F
  unfolding add_states config_keys add_limiters
  new_state read c = record {
    config = c;
    router = from_config c;
    origin_states = add_states [] (config_keys c.routes);
    ratelimiter = Option.map limiter_of c.ratelimit;
    route_ratelimiters = add_limiters [] c.routes;
    error_pages = Option.map (Errors.from_config read) c.error_pages;
    passive_enabled = c.health.passive.enabled;
    passive_failure_threshold = c.health.passive.failure_threshold;
    passive_success_threshold = c.health.passive.success_threshold;
  }
