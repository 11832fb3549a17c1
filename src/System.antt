-- ===== src/System.antt =====
-- The tasks that share the state (src/bin/upstreamer/main.rs), as the steps that they take: the
-- two halves of a request, a tick of the health checker, a tick of the clean-up, a change of the
-- configuration file and an event of the cluster. Any sequence of steps may occur. A step is taken
-- as a whole; the module `Halfway` takes a reload in its parts. The watcher of the file and its
-- channel are in the module `Watch`.
pub mod Sound
pub mod Interleaving
pub mod Watch
pub mod Limited
pub mod Keys
pub mod History
pub mod Counted
pub mod Reported
pub mod Halfway
use mathlib.Core.Option
use upstreamer.Common.{ℕ, ◌≡◌, Bool, Option, none, some, List, [], ◌∷◌, map, String, Result}
use upstreamer.External.{UrlOps, F64Ops, IpAddr}
use upstreamer.Config.{Duration, from_secs, ProxyConfig, PathBuf}
use upstreamer.Balance.{OriginEndpoint}
use upstreamer.Balance.Weighted.{Draw}
use upstreamer.Route.{K8sOrigins}
use upstreamer.RateLimit.{RateLimiter, Instant, cleanup_stale}
use upstreamer.Errors.{Bytes}
use upstreamer.State.{AppState, new_state}
use upstreamer.Server.{Incoming, Answer, begin_request, finish_request}
use upstreamer.Reload.{LoadError, reload}
use upstreamer.Health.{Target, ProbeResult, probe_all}
use upstreamer.Health.Discovery.{Service, apply_service}

module _ {Url F : Type 0} where
  -- A tick of the clean-up task: every limiter drops what was idle for five minutes.
  unfoldable pub cleanup_limiters : AppState Url F → Instant → AppState Url F
  cleanup_limiters state now = record state {
    ratelimiter = Option.map (λ l. cleanup_stale l (from_secs 300) now) state.ratelimiter;
    route_ratelimiters =
        map (λ (key, l). (key, cleanup_stale l (from_secs 300) now)) state.route_ratelimiters;
  }

  -- A tick of the health checker.
  unfoldable pub run_checks :
      (String → ProbeResult) → ℕ → ℕ → AppState Url F → List Target → AppState Url F
  run_checks client healthy_threshold unhealthy_threshold state ts = record state {
    origin_states = probe_all client healthy_threshold unhealthy_threshold state.origin_states ts;
  }

-- The shared state, and the origins that the discovery task has collected.
abbrev pub System : Type 0 → Type 0 → Type 0
System Url F = AppState Url F × K8sOrigins Url

module _ {Url F : Type 0} ⦃u : UrlOps Url⦄ ⦃f : F64Ops F⦄ where
  pub data Step : System Url F → System Url F → Type 0 where
    begins :
        (state : AppState Url F) (k8s : K8sOrigins Url) (req : Incoming) (ip : IpAddr)
        (now : Instant) (draw : Draw F)
        → Step (state, k8s) ((begin_request state req ip now draw).0, k8s)
    finishes :
        (state : AppState Url F) (k8s : K8sOrigins Url) (o : OriginEndpoint Url)
        (latency : Duration) (answer : Answer)
        → Step (state, k8s) (finish_request state o latency answer, k8s)
    checks :
        (state : AppState Url F) (k8s : K8sOrigins Url) (client : String → ProbeResult)
        (up down : ℕ) (ts : List Target)
        → Step (state, k8s) (run_checks client up down state ts, k8s)
    cleans :
        (state : AppState Url F) (k8s : K8sOrigins Url) (now : Instant)
        → Step (state, k8s) (cleanup_limiters state now, k8s)
    reloads :
        (state : AppState Url F) (k8s : K8sOrigins Url) (exists : PathBuf → Bool)
        (loaded : Result LoadError (ProxyConfig Url))
        → Step (state, k8s) (reload exists state loaded, k8s)
    discovers :
        (state : AppState Url F) (k8s : K8sOrigins Url) (svc : Service)
        → Step (state, k8s) (apply_service (state, k8s) svc)

  -- What the proxy can come to, started with some configuration.
  pub data Reachable : System Url F → Type 0 where
    starts :
        (read : PathBuf → Option Bytes) (c : ProxyConfig Url) → Reachable (new_state read c, [])
    steps : (s t : System Url F) → Reachable s → Step s t → Reachable t
