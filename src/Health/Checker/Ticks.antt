-- ===== src/Health/Checker/Ticks.antt =====
-- What the ticks of the checker record (src/health/checker.rs).
use Prim.Native.String
use upstreamer.Common.{
  ℕ, ◌≡◌, refl, sym, ap, ◌∙◌, Bool, true, false, Option, none, some, List, [], ◌∷◌, ◌++◌, String,
  string_eq, All, inl, inr, Bool-cases,
}
use mathlib.Core.Option
use upstreamer.Common.Table.{get}
use upstreamer.Balance.{OriginState}
use upstreamer.Balance.RoundRobin.{OriginStates}
use upstreamer.Balance.Health.{Outcome, record_outcome, record_all}
use upstreamer.Health.{Target, ProbeResult, timed_out, probe, probe_all}
use upstreamer.Health.Probes.{outcomes, unchanged, get-probe_all}
use upstreamer.Health.Checker.{ticking, probe_targets, run_ticks}

abbrev pub uri_of : Target → String
uri_of (base, path) = String.◌++◌ base path

module _ (up down : ℕ) where
  -- The outcomes of the ticks for a key, in order.
  abbrev pub ticked : String → List Target → List (String → ProbeResult) → List Outcome
  ticked key ts [] = []
  ticked key ts (client ∷ later) = outcomes client up down key ts ++ ticked key ts later

  -- What the ticks leave under every key.
  abbrev pub Recorded :
      OriginStates → List Target → List (String → ProbeResult) → OriginStates → Type 0
  Recorded states ts ticks after =
      (key : String)
      → get after key
        ≡ Option.map (λ s. record_all up down s (ticked key ts ticks)) (get states key)

  record_all-append :
      (s : OriginState) (a b : List Outcome)
      → record_all up down s (a ++ b) ≡ record_all up down (record_all up down s a) b
  unfolding record_all
  record_all-append s [] b = refl
  record_all-append s (o ∷ a) b = record_all-append (record_outcome up down s o) a b

  map-append :
      (a b : List Outcome) (o : Option OriginState)
      → Option.map (λ s. record_all up down s b) (Option.map (λ s. record_all up down s a) o)
        ≡ Option.map (λ s. record_all up down s (a ++ b)) o
  map-append a b none = refl
  map-append a b (some s) = ap some (sym (record_all-append s a b))

module _ (is_uri : String → Bool) (up down : ℕ) where
  -- Where the loop over the targets ends: after all of them, or at the first that gives no URI.
  pub data Through (client : String → ProbeResult) (states : OriginStates) (ts : List Target)
      : OriginStates × Bool → Type 0 where
    all_probed :
        All (λ t. is_uri (uri_of t) ≡ true) ts
        → Through client states ts (probe_all client up down states ts, true)
    stopped :
        (front later : List Target) (t : Target)
        → ts ≡ front ++ t ∷ later
        → All (λ t. is_uri (uri_of t) ≡ true) front
        → is_uri (uri_of t) ≡ false
        → Through client states ts (probe_all client up down states front, false)

  Through-next :
      (client : String → ProbeResult) (states : OriginStates) (t : Target) (ts : List Target)
      (result : OriginStates × Bool)
      → is_uri (uri_of t) ≡ true
      → Through client (probe client up down states t) ts result
      → Through client states (t ∷ ts) result
  unfolding probe_all
  Through-next client states t ts _ e (all_probed h) = all_probed (e, h)
  Through-next client states t ts _ e (stopped front later u same h bad) =
      stopped (t ∷ front) later u (ap (λ l. t ∷ l) same) (e, h) bad

  pub probe_targets-Through :
      (client : String → ProbeResult) (states : OriginStates) (ts : List Target)
      → Through client states ts (probe_targets is_uri up down client states ts)
  unfolding probe_targets probe_all
  probe_targets-Through client states [] = all_probed tt
  probe_targets-Through client states ((base, path) ∷ ts) =
      elim (Bool-cases (is_uri (String.◌++◌ base path))) [
        | inl good ↦ rw good (
            Through-next client states (base, path) ts _ good
              (probe_targets-Through client (probe client up down states (base, path)) ts))
        | inr bad ↦ rw bad (stopped [] ts (base, path) refl tt bad)
      ]

  probe_targets_good :
      (client : String → ProbeResult) (states : OriginStates) (ts : List Target)
      → All (λ t. is_uri (uri_of t) ≡ true) ts
      → probe_targets is_uri up down client states ts ≡ (probe_all client up down states ts, true)
  unfolding probe_targets probe_all
  probe_targets_good client states [] h = refl
  probe_targets_good client states ((base, path) ∷ ts) (good, h) =
      rw good (probe_targets_good client (probe client up down states (base, path)) ts h)

  pub run_ticks_good :
      (ts : List Target)
      → All (λ t. is_uri (uri_of t) ≡ true) ts
      → (states : OriginStates) (ticks : List (String → ProbeResult))
      → ((run_ticks is_uri up down states ts ticks).1 ≡ ticking)
        × Recorded up down states ts ticks (run_ticks is_uri up down states ts ticks).0
  unfolding run_ticks record_all
  run_ticks_good ts h states [] =
      (refl, λ key. unchanged (λ uri. timed_out) up down key (get states key))
  run_ticks_good ts h states (client ∷ later) =
      let (on, rest) = run_ticks_good ts h (probe_all client up down states ts) later in
      rw (probe_targets_good client states ts h) (
        on,
        λ key.
            rest key
            ∙ ap (Option.map (λ s. record_all up down s (ticked up down key ts later)))
                (get-probe_all client up down states ts key)
            ∙ map-append up down (outcomes client up down key ts) (ticked up down key ts later)
                (get states key),
      )
