-- ===== src/System/Limited.antt =====
-- The limiters and the thresholds in force, whatever the tasks do.
pub mod Requests
use mathlib.Core.Option
use upstreamer.Common.{
  ℕ, ◌≡◌, ◌≢◌, refl, ap, sym, ◌∙◌, subst, arith, Bool, true, false, Option, none, some, List, [],
  ◌∷◌, map, String, string_eq, inl, inr, Option-cases, Bool-cases, ◌==◌, if◌then◌else◌, Result, ok,
  err,
}
use upstreamer.Common.Table.{get, insert, get-insert}
use upstreamer.External.{UrlOps, F64Ops, TokenLaws, IpAddr}
use upstreamer.Config.{Duration, from_secs, RateLimitConfig, ProxyConfig, PathBuf}
use upstreamer.Config.Validate.{Check, validate, unwrap_or, first_some}
use upstreamer.Balance.{OriginEndpoint}
use upstreamer.Balance.Weighted.{Draw}
use upstreamer.Route.{RouteEntry, K8sOrigins, match_route}
use upstreamer.RateLimit.{RateLimiter, Instant, check, new_limiter, cleanup_stale}
use upstreamer.RateLimit.Limiter.{
  IsLimiter, check_lem, check-IsLimiter, new_limiter-IsLimiter, cleanup_stale-IsLimiter,
}
use upstreamer.Errors.{Bytes}
use upstreamer.State.{AppState, limiter_of, add_limiters, new_state}
use upstreamer.State.Limiters.{last_limit, get-add_limiters}
use upstreamer.Server.{Incoming, Answer, check_limits, begin_route, begin_request, finish_request}
use upstreamer.Server.Frames.{finish_request_parts}
use upstreamer.Reload.{LoadError, apply_config, apply_checked, reload}
use upstreamer.Health.{Target, ProbeResult}
use upstreamer.Health.Discovery.{
  Service, service_to_origin, apply_origin, rebuild_router, apply_service,
}
use upstreamer.System.{
  System, Step, begins, finishes, checks, cleans, reloads, discovers, Reachable, starts, steps,
  cleanup_limiters, run_checks,
}

abbrev pub limit_of : {F : Type 0} → RateLimiter F → RateLimitConfig
limit_of l = record { rate = l.rate; burst = l.burst }

limit_of-limiter_of :
    (F : Type 0) (o : Option RateLimitConfig)
    → Option.map (limit_of {F = F}) (first_some (Option.map limiter_of o) none) ≡ o
unfolding new_limiter
limit_of-limiter_of F none = refl
limit_of-limiter_of F (some rl) = refl

get-map :
    {A : Type 0} (g : A → A) (m : List (String × A)) (key : String)
    → get (map (λ (k, a). (k, g a)) m) key ≡ Option.map g (get m key)
unfolding get
get-map g [] key = refl
get-map g ((k, a) ∷ m) key = elim (Bool-cases (k == key)) [
  | inl same ↦ rw same
  | inr apart ↦ rw apart (get-map g m key)
]

module _ {Url : Type 0} (F : Type 0) where
  added_limits :
      (c : ProxyConfig Url) (key : String)
      → Option.map (limit_of {F = F}) (get (add_limiters [] c.routes) key) ≡ last_limit c.routes key
  unfolding get
  added_limits c key =
      ap (Option.map limit_of) (get-add_limiters [] c.routes key)
      ∙ limit_of-limiter_of F (last_limit c.routes key)

module _ {F : Type 0} ⦃f : F64Ops F⦄ where
  new_are :
      (o : Option RateLimitConfig) (l : RateLimiter F)
      → first_some (Option.map limiter_of o) none ≡ some l
      → IsLimiter l
  new_are none l e = cc
  new_are (some rl) l e =
      subst IsLimiter (Option.some-injective (limiter_of rl) l e)
        (new_limiter-IsLimiter rl.rate rl.burst)

  clean_global :
      (o : Option (RateLimiter F)) (now : Instant)
      → ((l : RateLimiter F) → o ≡ some l → IsLimiter l)
      → (l : RateLimiter F) → Option.map (λ l. cleanup_stale l (from_secs 300) now) o ≡ some l
      → IsLimiter l
  clean_global none now h l e = cc
  clean_global (some k) now h l e =
      subst IsLimiter (Option.some-injective (cleanup_stale k (from_secs 300) now) l e)
        (cleanup_stale-IsLimiter k (from_secs 300) now (h k refl))

  cleanup_limits :
      (o : Option (RateLimiter F)) (now : Instant)
      → Option.map limit_of (Option.map (λ l. cleanup_stale l (from_secs 300) now) o)
        ≡ Option.map limit_of o
  unfolding cleanup_stale
  cleanup_limits none now = refl
  cleanup_limits (some l) now = refl

module _ {Url F : Type 0} ⦃f : F64Ops F⦄ where
  -- Every limiter is well formed; the limiters of the routes are exactly those of the configuration
  -- in force, with its numbers; and so are the thresholds of the passive checks.
  pub record IsLimited (state : AppState Url F) : Type 0 where
    pub global : (l : RateLimiter F) → state.ratelimiter ≡ some l → IsLimiter l
    pub routes :
        (key : String) (l : RateLimiter F) → get state.route_ratelimiters key ≡ some l → IsLimiter l
    pub limits :
        (key : String)
        → Option.map limit_of (get state.route_ratelimiters key)
          ≡ last_limit state.config.routes key
    pub enabled : state.passive_enabled ≡ state.config.health.passive.enabled
    pub failures : state.passive_failure_threshold ≡ state.config.health.passive.failure_threshold
    pub successes : state.passive_success_threshold ≡ state.config.health.passive.success_threshold

  added_are :
      (c : ProxyConfig Url) (key : String) (l : RateLimiter F)
      → get (add_limiters [] c.routes) key ≡ some l
      → IsLimiter l
  unfolding get
  added_are c key l at =
      new_are (last_limit c.routes key) l (sym (get-add_limiters [] c.routes key) ∙ at)

  pub finishes-IsLimited :
      (state : AppState Url F) (o : OriginEndpoint Url) (latency : Duration) (answer : Answer)
      → IsLimited state
      → IsLimited (finish_request state o latency answer)
  finishes-IsLimited state o latency answer h =
      subst IsLimited (sym (finish_request_parts state o latency answer)) (record {
        global = h.global;
        routes = h.routes;
        limits = h.limits;
        enabled = h.enabled;
        failures = h.failures;
        successes = h.successes;
      })

  pub cleans-IsLimited :
      (state : AppState Url F) (now : Instant)
      → IsLimited state
      → IsLimited (cleanup_limiters state now)
  unfolding cleanup_limiters
  cleans-IsLimited state now h =
      let clean : RateLimiter F → RateLimiter F = λ l. cleanup_stale l (from_secs 300) now in
      record {
        global = clean_global state.ratelimiter now h.global;
        routes = λ key l at.
            clean_global (get state.route_ratelimiters key) now (h.routes key) l
              (sym (get-map clean state.route_ratelimiters key) ∙ at);
        limits = λ key.
            ap (Option.map limit_of) (get-map clean state.route_ratelimiters key)
            ∙ cleanup_limits (get state.route_ratelimiters key) now
            ∙ h.limits key;
        enabled = h.enabled;
        failures = h.failures;
        successes = h.successes;
      }

module _ {Url F : Type 0} ⦃u : UrlOps Url⦄ ⦃f : F64Ops F⦄ where
  pub new_state-IsLimited :
      (read : PathBuf → Option Bytes) (c : ProxyConfig Url) → IsLimited {F = F} (new_state read c)
  unfolding new_state
  new_state-IsLimited read c = record {
    global = λ l at. new_global c.ratelimit l at;
    routes = added_are c;
    limits = added_limits F c;
    enabled = refl;
    failures = refl;
    successes = refl;
  }
    where
      new_global :
          (o : Option RateLimitConfig) (l : RateLimiter F)
          → Option.map limiter_of o ≡ some l
          → IsLimiter l
      new_global none l e = cc
      new_global (some rl) l e = new_are (some rl) l e

  pub reloads-IsLimited :
      (exists : PathBuf → Bool) (state : AppState Url F)
      (loaded : Result LoadError (ProxyConfig Url))
      → IsLimited state
      → IsLimited (reload exists state loaded)
  unfolding reload apply_config
  reloads-IsLimited exists state (err e) h = h
  reloads-IsLimited exists state (ok c) h = by_check (validate exists c)
    where
      by_check : (r : Check) → IsLimited (apply_checked state c r)
      by_check (ok tt) = record {
        global = h.global;
        routes = added_are c;
        limits = added_limits F c;
        enabled = refl;
        failures = refl;
        successes = refl;
      }
      by_check (err e) = h

  pub discovers-IsLimited :
      (state : AppState Url F) (k8s : K8sOrigins Url) (svc : Service)
      → IsLimited state
      → IsLimited (apply_service (state, k8s) svc).0
  unfolding apply_service rebuild_router
  discovers-IsLimited state k8s svc h = elim (Option-cases (service_to_origin {Url = Url} svc)) [
    | inl nothing ↦ rw (nothing, apply_service) h
    | inr (origin, there) ↦
        rw (there, apply_service)
          (record {
            global = h.global;
            routes = h.routes;
            limits = h.limits;
            enabled = h.enabled;
            failures = h.failures;
            successes = h.successes;
          })
  ]
