-- ===== src/Health/Checker.antt =====
-- The active health checker from its start (src/health/checker.rs, `run_active_checks`): what each
-- tick finds is an argument.
pub mod Ticks
pub mod Course
pub mod Recovers
use Prim.Native.String
use upstreamer.Common.{
  ℕ, ◌≡◌, ◌≢◌, ◌⊎◌, ◌↔◌, refl, sym, ap, ◌∙◌, arith, Bool, true, false, not, Option, none, some,
  List, [], ◌∷◌, ◌++◌, String, string_eq, All, inl, inr, Bool-cases, eqb, if◌then◌else◌,
}
use mathlib.Core.Option
use upstreamer.Common.Table.{get}
use upstreamer.External.{UrlOps}
use upstreamer.Config.{ProxyConfig}
use upstreamer.Balance.{OriginState}
use upstreamer.Balance.RoundRobin.{OriginStates}
use upstreamer.Balance.Health.{Outcome, record_outcome, record_all}
use upstreamer.Health.{Target, targets, ProbeResult, timed_out, probe, probe_all}
use upstreamer.Health.Probes.{outcomes, unchanged, get-probe_all}

-- How the checker's task stands: it has returned, it has panicked, or it goes on.
pub data CheckerEnd : Type 0 where
  returned panicked ticking : CheckerEnd

-- `is_uri` says which texts are URIs to `http`, whose builder the code expects to succeed.
module _ (is_uri : String → Bool) (healthy_threshold unhealthy_threshold : ℕ) where
  -- The loop over the targets, and whether it comes to its end.
  unfoldable pub probe_targets :
      (String → ProbeResult) → OriginStates → List Target → OriginStates × Bool
  unfolding probe
  probe_targets client states [] = (states, true)
  probe_targets client states ((base, path) ∷ ts) =
      let rest =
        probe_targets client
          (probe client healthy_threshold unhealthy_threshold states (base, path)) ts in
      if is_uri (String.◌++◌ base path) then rest else (states, false)

  -- The ticks, each with what the requests of the probes bring.
  unfoldable pub run_ticks :
      OriginStates → List Target → List (String → ProbeResult) → OriginStates × CheckerEnd
  unfolding probe_targets
  run_ticks states ts [] = (states, ticking)
  run_ticks states ts (client ∷ later) =
      let (after, through) = probe_targets client states ts in
      let rest = run_ticks after ts later in if through then rest else (after, panicked)

module _ {Url : Type 0} ⦃u : UrlOps Url⦄ where
  -- `tokio::time::interval` panics on a period of zero.
  unfoldable pub run_active_checks :
      (String → Bool)
      → ProxyConfig Url
      → OriginStates
      → List (String → ProbeResult)
      → OriginStates × CheckerEnd
  unfolding run_ticks
  run_active_checks is_uri c states ticks =
      let active = c.health.active in
      if not active.enabled
      then (states, returned)
      else (if eqb active.interval 0
          then (states, panicked)
          else run_ticks is_uri active.healthy_threshold active.unhealthy_threshold states
              (targets c.routes) ticks)
