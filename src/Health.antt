-- ===== src/Health.antt =====
-- Active health checks (src/health/checker.rs) and the services of a cluster
-- (src/health/discovery.rs).
pub mod Probes
pub mod Discovery
pub mod Endpoint
pub mod Checker
use Prim.Native.String
use upstreamer.Common.{
  ℕ, ◌<◌, ◌≡◌, Bool, true, false, ◌&&◌, Option, none, some, List, [], ◌∷◌, ◌++◌, String, string_eq,
  leb, ltb, if◌then◌else◌,
}
use upstreamer.Common.Table.{get, insert}
use upstreamer.Text.{trim_end_matches}
use upstreamer.External.{UrlOps, as_str}
use upstreamer.Config.{OriginConfig, PoolRef, RouteConfig, ProxyConfig}
use upstreamer.Config.Validate.{unwrap_or}
use upstreamer.Balance.{OriginState, record_success_with_threshold, record_failure_with_threshold}
use upstreamer.Balance.RoundRobin.{OriginStates}
use upstreamer.Route.{slash}

-- A target: the origin's text without the slashes at its end, and the path to ask for.
abbrev pub Target : Type 0
Target = String × String

module _ {Url : Type 0} ⦃u : UrlOps Url⦄ where
  unfoldable pub target_of : OriginConfig Url → Target
  target_of o = (trim_end_matches (as_str o.url) slash, unwrap_or o.health_check_path "/")

  unfoldable pub origin_targets : List (OriginConfig Url) → List Target
  unfolding target_of
  origin_targets [] = []
  origin_targets (o ∷ os) = target_of o ∷ origin_targets os

  unfoldable pub pool_targets : List (PoolRef Url) → List Target
  unfolding origin_targets
  pool_targets [] = []
  pool_targets (p ∷ ps) = origin_targets p.origins ++ pool_targets ps

  -- The targets are computed once, when the checker starts.
  unfoldable pub targets : List (RouteConfig Url) → List Target
  unfolding pool_targets
  targets [] = []
  targets (r ∷ rs) = pool_targets r.pools ++ targets rs

-- What a probe brings back.
pub data ProbeResult : Type 0 where
  responded : ℕ → ProbeResult
  request_failed timed_out : ProbeResult

-- `StatusCode::is_success`
unfoldable pub is_success_status : ℕ → Bool
is_success_status status = leb 200 status && ltb status 300

unfoldable pub record_probe : ℕ → ℕ → ProbeResult → OriginState → OriginState
unfolding is_success_status
record_probe healthy_threshold unhealthy_threshold (responded status) s =
    if is_success_status status
    then record_success_with_threshold s healthy_threshold
    else record_failure_with_threshold s unhealthy_threshold
record_probe healthy_threshold unhealthy_threshold request_failed s =
    record_failure_with_threshold s unhealthy_threshold
record_probe healthy_threshold unhealthy_threshold timed_out s =
    record_failure_with_threshold s unhealthy_threshold

-- The body of the loop over the targets; `client` answers a request of a URI.
module _ (client : String → ProbeResult) (healthy_threshold unhealthy_threshold : ℕ) where
  unfoldable pub probe : OriginStates → Target → OriginStates
  unfolding record_probe
  probe states (base, path) =
      let result = client (String.◌++◌ base path) in
      elim (get states base) [
        | none ↦ states
        | some s ↦ insert states base (record_probe healthy_threshold unhealthy_threshold result s)
      ]

  -- One tick of the checker.
  unfoldable pub probe_all : OriginStates → List Target → OriginStates
  unfolding probe
  probe_all states [] = states
  probe_all states (t ∷ ts) = probe_all (probe states t) ts
