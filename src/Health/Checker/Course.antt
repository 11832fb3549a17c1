-- ===== src/Health/Checker/Course.antt =====
-- The course of the checker's task (src/health/checker.rs).
use upstreamer.Common.{
  ◌≡◌, ◌≢◌, ◌⊎◌, inl, inr, refl, arith, Bool, true, false, not, List, [], ◌∷◌, ◌++◌, String,
  string_eq, All, eqb, if◌then◌else◌,
}
use upstreamer.Common.Table.{get}
use upstreamer.External.{UrlOps}
use upstreamer.Config.{ProxyConfig}
use upstreamer.Balance.RoundRobin.{OriginStates}
use upstreamer.Balance.Health.{record_all}
use upstreamer.Health.{Target, targets, ProbeResult, timed_out, probe_all}
use upstreamer.Health.Probes.{unchanged}
use upstreamer.Health.Checker.{
  CheckerEnd, returned, panicked, ticking, probe_targets, run_ticks, run_active_checks,
}
use upstreamer.Health.Checker.Ticks.{
  uri_of, Recorded, Through, all_probed, stopped, probe_targets-Through, run_ticks_good,
}

-- How the checker stands after its ticks.
module _ {Url : Type 0} ⦃u : UrlOps Url⦄ (is_uri : String → Bool) (c : ProxyConfig Url)
    (states : OriginStates) where
  pub data Course (ticks : List (String → ProbeResult)) : OriginStates × CheckerEnd → Type 0 where
    off : c.health.active.enabled ≡ false → Course ticks (states, returned)
    no_period :
        c.health.active.enabled ≡ true
        → c.health.active.interval ≡ 0
        → Course ticks (states, panicked)
    bad_uri :
        c.health.active.enabled ≡ true
        → c.health.active.interval ≢ 0
        → (client : String → ProbeResult) (later : List (String → ProbeResult))
          (front back : List Target) (t : Target)
        → ticks ≡ client ∷ later
        → targets c.routes ≡ front ++ t ∷ back
        → All (λ t. is_uri (uri_of t) ≡ true) front
        → is_uri (uri_of t) ≡ false
        → Course ticks (
          probe_all client c.health.active.healthy_threshold c.health.active.unhealthy_threshold
              states front,
          panicked,
        )
    goes_on :
        c.health.active.enabled ≡ true
        → c.health.active.interval ≢ 0
        → (ticks ≡ []) ⊎ All (λ t. is_uri (uri_of t) ≡ true) (targets c.routes)
        → (after : OriginStates)
        → Recorded c.health.active.healthy_threshold c.health.active.unhealthy_threshold states
            (targets c.routes)
            ticks
            after
        → Course ticks (after, ticking)

  Course-goes_on :
      (ticks : List (String → ProbeResult)) (result : OriginStates × CheckerEnd)
      → c.health.active.enabled ≡ true
      → c.health.active.interval ≢ 0
      → (ticks ≡ []) ⊎ All (λ t. is_uri (uri_of t) ≡ true) (targets c.routes)
      → result.1 ≡ ticking
      → Recorded c.health.active.healthy_threshold c.health.active.unhealthy_threshold states
          (targets c.routes)
          ticks
          result.0
      → Course ticks result
  Course-goes_on ticks (after, end) on some_period good e h =
      rw e (goes_on on some_period good after h)

  Course-stopped :
      c.health.active.enabled ≡ true
      → c.health.active.interval ≢ 0
      → (client : String → ProbeResult) (later : List (String → ProbeResult))
        (result : OriginStates × Bool)
      → Through is_uri c.health.active.healthy_threshold c.health.active.unhealthy_threshold client
          states
          (targets c.routes)
          result
      → probe_targets is_uri c.health.active.healthy_threshold c.health.active.unhealthy_threshold
          client states
          (targets c.routes)
        ≡ result
      → Course (client ∷ later) (
          run_ticks is_uri c.health.active.healthy_threshold c.health.active.unhealthy_threshold
            states
            (targets c.routes)
            (client ∷ later))
  unfolding run_ticks
  Course-stopped on some_period client later _ (all_probed h) e =
      let (ticks_on, kept) =
        run_ticks_good is_uri c.health.active.healthy_threshold c.health.active.unhealthy_threshold
          (targets c.routes) h states (client ∷ later) in
      Course-goes_on (client ∷ later)
        (run_ticks is_uri c.health.active.healthy_threshold c.health.active.unhealthy_threshold
          states (targets c.routes) (client ∷ later))
        on some_period (inr h) ticks_on kept
  Course-stopped on some_period client later _ (stopped front back t same h bad) e =
      rw e (bad_uri on some_period client later front back t refl same h bad)

  Course-enabled :
      (ticks : List (String → ProbeResult))
      → c.health.active.enabled ≡ true
      → c.health.active.interval ≢ 0
      → Course ticks (
          run_ticks is_uri c.health.active.healthy_threshold c.health.active.unhealthy_threshold
            states
            (targets c.routes)
            ticks)
  unfolding run_ticks record_all
  Course-enabled [] on some_period = goes_on on some_period (inl refl) states (λ key.
      unchanged (λ uri. timed_out) c.health.active.healthy_threshold
        c.health.active.unhealthy_threshold key (get states key))
  Course-enabled (client ∷ later) on some_period =
      Course-stopped on some_period client later _
        (probe_targets-Through is_uri c.health.active.healthy_threshold
          c.health.active.unhealthy_threshold client states (targets c.routes))
        refl

  Course-by :
      (ticks : List (String → ProbeResult)) (enabled zero_period : Bool)
      → c.health.active.enabled ≡ enabled
      → eqb c.health.active.interval 0 ≡ zero_period
      → Course ticks (
          if not enabled
          then (states, returned)
          else (if zero_period
              then (states, panicked)
              else run_ticks is_uri c.health.active.healthy_threshold
                  c.health.active.unhealthy_threshold states
                  (targets c.routes)
                  ticks))
  Course-by ticks false zero_period off_by e = off off_by
  Course-by ticks true true on e = no_period on (ground (arith, e))
  Course-by ticks true false on e = Course-enabled ticks on (λ z. ground (arith, e, z))

  -- A checker that is disabled returns at once and changes nothing. An enabled one panics at its
  -- start if its interval is zero. Otherwise it panics in its first tick, at the first target whose
  -- base and path give no URI, after the probes of the targets before it; or there is no such
  -- target, or no tick yet, and it goes on: under every key that has a state are then recorded the
  -- probes of all ticks, in order, of the targets whose base is that key, and no state is added.
  pub run_active_checks-Course :
      (ticks : List (String → ProbeResult)) → Course ticks (run_active_checks is_uri c states ticks)
  unfolding run_active_checks
  run_active_checks-Course ticks =
      Course-by ticks c.health.active.enabled (eqb c.health.active.interval 0) refl refl
