-- ===== src/Health/Checker/Recovers.antt =====
-- When an origin that answers again is healthy again (src/health/checker.rs).
use upstreamer.Common.{
  ℕ, ◌+◌, ◌^◌, ◌<◌, ◌≤◌, ◌≡◌, ◌≢◌, refl, ap, ◌∙◌, arith, Bool, true, some, List, [], ◌∷◌, String,
  string_eq, All, All-append, In, map, length-append, inl, inr, Bool-cases, ◌==◌, length, replicate,
}
use mathlib.Core.Option
use upstreamer.Common.Table.{get}
use upstreamer.External.{UrlOps}
use upstreamer.Config.{ProxyConfig}
use upstreamer.Balance.{OriginState}
use upstreamer.Balance.RoundRobin.{OriginStates}
use upstreamer.Balance.Health.{Outcome, success, record_all, successes-healthy}
use upstreamer.Health.{Target, targets, ProbeResult}
use upstreamer.Health.Probes.{outcome_of, outcomes}
use upstreamer.Health.Checker.{run_ticks, run_active_checks}
use upstreamer.Health.Checker.Ticks.{uri_of, ticked, run_ticks_good}

-- The probes of a key's targets succeed in a tick.
abbrev pub Succeeds : String → List Target → (String → ProbeResult) → Type 0
Succeeds key ts client = All (λ t. t.0 ≡ key → outcome_of (client (uri_of t)) ≡ success) ts

All-replicate :
    {A : Type 0} (a : A) (xs : List A) → All (λ x. x ≡ a) xs → xs ≡ replicate (length xs) a
All-replicate a [] h = refl
All-replicate a (x ∷ xs) (e, h) = rw e (ap (λ l. a ∷ l) (All-replicate a xs h))

module _ (up down : ℕ) (key : String) where
  outcomes_success :
      (client : String → ProbeResult) (ts : List Target)
      → Succeeds key ts client
      → All (λ o. o ≡ success) (outcomes client up down key ts)
  outcomes_success client [] h = tt
  outcomes_success client ((base, path) ∷ ts) (here, h) = elim (Bool-cases (base == key)) [
    | inl same ↦ rw same (here ((string_eq.same_iff base key).0 same), outcomes_success client ts h)
    | inr other ↦ rw other (outcomes_success client ts h)
  ]

  outcomes_some :
      (client : String → ProbeResult) (ts : List Target)
      → In key (map (λ t. t.0) ts)
      → 1 ≤ length (outcomes client up down key ts)
  outcomes_some client [] at = absurd at
  outcomes_some client ((base, path) ∷ ts) at = elim (Bool-cases (base == key)) [
    | inl same ↦ rw same (omega arith)
    | inr other ↦ elim at [
      | inl e ↦ cc ((string_eq.same_iff base key).1 e, other)
      | inr later ↦ rw other (outcomes_some client ts later)
    ]
  ]

  ticked_success :
      (ts : List Target) (ticks : List (String → ProbeResult))
      → All (Succeeds key ts) ticks
      → All (λ o. o ≡ success) (ticked up down key ts ticks)
  ticked_success ts [] h = tt
  ticked_success ts (client ∷ later) (here, h) =
      All-append (λ o. o ≡ success) (outcomes client up down key ts) (ticked up down key ts later)
        (outcomes_success client ts here) (ticked_success ts later h)

  ticked_some :
      (ts : List Target) (ticks : List (String → ProbeResult))
      → In key (map (λ t. t.0) ts)
      → length ticks ≤ length (ticked up down key ts ticks)
  ticked_some ts [] at = omega arith
  ticked_some ts (client ∷ later) at =
      let some_here = outcomes_some client ts at in
      let rest = ticked_some ts later at in
      rw (length-append (outcomes client up down key ts) (ticked up down key ts later))
        (omega arith)

  successes_mark :
      (s : OriginState) (os : List Outcome)
      → All (λ o. o ≡ success) os
      → 1 ≤ length os
      → s.consecutive_successes + length os < 2 ^ 32
      → up ≤ length os
      → (record_all up down s os).healthy ≡ true
  successes_mark s [] h some_here short enough = absurd (omega arith)
  successes_mark s (o ∷ os) h some_here short enough =
      rw (All-replicate success (o ∷ os) h)
        (successes-healthy up down s (length os) (omega arith) (omega arith))

module _ {Url : Type 0} ⦃u : UrlOps Url⦄ where
  run_active_checks_running :
      (is_uri : String → Bool) (c : ProxyConfig Url) (states : OriginStates)
      (ticks : List (String → ProbeResult))
      → c.health.active.enabled ≡ true
      → c.health.active.interval ≢ 0
      → run_active_checks is_uri c states ticks
        ≡ run_ticks is_uri c.health.active.healthy_threshold c.health.active.unhealthy_threshold
            states
            (targets c.routes)
            ticks
  unfolding run_active_checks
  run_active_checks_running is_uri c states ticks on period = ground (arith, on)

  -- An enabled checker with an interval above zero, whose targets all have URIs, marks an origin
  -- healthy that has a state under the base of one of its targets, once the probes of all targets
  -- with that base have succeeded in as many ticks as the threshold says, and in at least one,
  -- whatever the state was before, while the counter stays below 2^32.
  pub run_active_checks_recovers :
      (is_uri : String → Bool) (c : ProxyConfig Url) (states : OriginStates)
      (ticks : List (String → ProbeResult)) (key : String) (s : OriginState)
      → c.health.active.enabled ≡ true
      → c.health.active.interval ≢ 0
      → All (λ t. is_uri (uri_of t) ≡ true) (targets c.routes)
      → In key (map (λ t. t.0) (targets c.routes))
      → get states key ≡ some s
      → All (Succeeds key (targets c.routes)) ticks
      → 1 ≤ length ticks
      → c.health.active.healthy_threshold ≤ length ticks
      → s.consecutive_successes
          + length (
              ticked c.health.active.healthy_threshold c.health.active.unhealthy_threshold key
                (targets c.routes)
                ticks)
        < 2 ^ 32
      → (t : OriginState) × (get (run_active_checks is_uri c states ticks).0 key ≡ some t)
        × (t.healthy ≡ true)
  run_active_checks_recovers is_uri c states ticks key s on period uris at there well some_tick
        enough short =
      let up = c.health.active.healthy_threshold in
      let down = c.health.active.unhealthy_threshold in
      let os = ticked up down key (targets c.routes) ticks in
      let long = ticked_some up down key (targets c.routes) ticks at in
      (
        record_all up down s os,
        ap (λ r. get r.0 key) (run_active_checks_running is_uri c states ticks on period)
            ∙ (run_ticks_good is_uri up down (targets c.routes) uris states ticks).1 key
            ∙ ap (Option.map (λ t. record_all up down t os)) there,
        successes_mark up down key s os (ticked_success up down key (targets c.routes) ticks well)
            (omega arith) short (omega arith),
      )
