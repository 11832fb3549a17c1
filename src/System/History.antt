-- ===== src/System/History.antt =====
-- What the tasks record of each origin, whatever the order of their steps.
use mathlib.Core.Option
use upstreamer.Common.{
  ℕ, ◌^◌, ◌<◌, ◌≡◌, refl, subst, arith, Bool, true, false, Option, none, some, List, [], ◌∷◌, map,
  length, String, string_eq, ◌==◌, if◌then◌else◌, inl, inr, Option-cases, Bool-cases, Result, ok,
  err,
}
use upstreamer.Common.Table.{get, or_else, or_insert, get-or_insert}
use upstreamer.External.{UrlOps, F64Ops}
use upstreamer.Config.{Duration, ProxyConfig, PathBuf}
use upstreamer.Config.Validate.{Check, validate}
use upstreamer.Balance.{OriginEndpoint, OriginState, new, record_success, record_failure}
use upstreamer.Balance.RoundRobin.{OriginStates}
use upstreamer.Balance.Health.{Outcome, success, failure, record_outcome, record_all}
use upstreamer.Balance.History.{
  Event, requested, succeeded, failed_once, record_event, record_events, Recounts, onto,
  length-onto_le, record_events-Recounts, new-Recounts,
}
use upstreamer.Route.{K8sOrigins}
use upstreamer.State.{AppState, add_states, config_keys, new_state}
use upstreamer.Server.{Answer, is_success, record_result, record_answer, finish_request}
use upstreamer.Server.Unhealthy.{begin_request-origin_states, get-finish_request}
use upstreamer.Reload.{LoadError, apply_config, apply_checked, reload}
use upstreamer.Health.{Target, ProbeResult}
use upstreamer.Health.Probes.{outcomes, get-probe_all}
use upstreamer.Health.Discovery.{
  Service, service_to_origin, apply_origin, k8s_keys, rebuild_router, apply_service,
}
use upstreamer.System.{
  System, Step, begins, finishes, checks, cleans, reloads, discovers, Reachable, starts, steps,
  cleanup_limiters, run_checks,
}

-- What becomes of a key that had a state, or had none, after the events.
abbrev pub After : Option OriginState → List Event → Option OriginState → Type 0
After none es none = Unit
After none es (some t) = t ≡ new
After (some s) es none = ⊥
After (some s) es (some t) = t ≡ record_events s es

pub After-nothing : (o : Option OriginState) → After o [] o
unfolding record_events
After-nothing none = tt
After-nothing (some s) = refl

After-map :
    (o : Option OriginState) (es : List Event) → After o es (Option.map (λ s. record_events s es) o)
After-map none es = tt
After-map (some s) es = refl

After-or_insert :
    (o : Option OriginState) (m : OriginStates) (k key : String)
    → After o [] (get m key)
    → After o [] (get (or_insert m k new) key)
After-or_insert o m k key h = rw (get-or_insert m k key new) (elim (Bool-cases (k == key)) [
  | inl same ↦ rw same (kept_or_new o (get m key) h)
  | inr apart ↦ rw apart h
])
  where
    kept_or_new : (o x : Option OriginState) → After o [] x → After o [] (or_else x new)
    kept_or_new none none h = refl
    kept_or_new none (some t) h = h
    kept_or_new (some s) none h = absurd h
    kept_or_new (some s) (some t) h = h

After-add_states :
    (o : Option OriginState) (m : OriginStates) (keys : List String) (key : String)
    → After o [] (get m key)
    → After o [] (get (add_states m keys) key)
unfolding add_states
After-add_states o m [] key h = h
After-add_states o m (k ∷ keys) key h =
    After-add_states o (or_insert m k new) keys key (After-or_insert o m k key h)

pub added :
    (m : OriginStates) (keys : List String) (key : String)
    → After (get m key) [] (get (add_states m keys) key)
added m keys key = After-add_states (get m key) m keys key (After-nothing (get m key))

module _ {Url F : Type 0} where
  -- The thresholds are those of the state, or fixed ones if the passive checks are off.
  abbrev pub outcome_event : AppState Url F → Bool → Event
  outcome_event state true =
      succeeded (if state.passive_enabled then state.passive_success_threshold else 2)
  outcome_event state false =
      failed_once (if state.passive_enabled then state.passive_failure_threshold else 5)

  record_answer_events :
      (state : AppState Url F) (latency : Duration) (answer : Answer) (s : OriginState)
      → record_answer state latency answer s
        ≡ record_events s (requested latency ∷ outcome_event state (is_success answer) ∷ [])
  unfolding record_answer record_result record_events record_event record_success record_failure
  record_answer_events state latency answer s = ground arith

-- A probe counts with the thresholds of the checker.
abbrev pub probe_event : ℕ → ℕ → Outcome → Event
probe_event up down success = succeeded up
probe_event up down failure = failed_once down

record_all_events :
    (up down : ℕ) (os : List Outcome) (s : OriginState)
    → record_all up down s os ≡ record_events s (map (probe_event up down) os)
unfolding record_all record_events
record_all_events up down [] s = refl
record_all_events up down (success ∷ os) s =
    unfold record_outcome record_event in record_all_events up down os _
record_all_events up down (failure ∷ os) s =
    unfold record_outcome record_event in record_all_events up down os _

-- What was recorded of a key since it has a state, newest first.
abbrev pub after_step : Option OriginState → List Event → List Event → List Event
after_step none es past = []
after_step (some s) es past = onto es past

After-Recounts :
    (before : Option OriginState) (es past : List Event) (t : OriginState)
    → ((s : OriginState) → before ≡ some s → length past < 2 ^ 32 → Recounts s past)
    → After before es (some t)
    → length (after_step before es past) < 2 ^ 32
    → Recounts t (after_step before es past)
After-Recounts none es past t earlier e short = rw e new-Recounts
After-Recounts (some s) es past t earlier e short = rw e (
    record_events-Recounts es past s short (earlier s refl (length-onto_le es past (2 ^ 32) short)))

module _ {Url F : Type 0} ⦃u : UrlOps Url⦄ ⦃f : F64Ops F⦄ where
  -- What a step records of an origin that has a state, oldest first.
  abbrev pub events_of : {s t : System Url F} → Step s t → String → List Event
  events_of (begins state k8s req ip now draw) key = []
  events_of (finishes state k8s o latency answer) key =
      if o.url_key == key
      then requested latency ∷ outcome_event state (is_success answer) ∷ []
      else []
  events_of (checks state k8s client up down ts) key =
      map (probe_event up down) (outcomes client up down key ts)
  events_of (cleans state k8s now) key = []
  events_of (reloads state k8s exists loaded) key = []
  events_of (discovers state k8s svc) key = []

  finishes-After :
      (state : AppState Url F) (o : OriginEndpoint Url) (latency : Duration) (answer : Answer)
      (key : String)
      → After
          (get state.origin_states key)
          (if o.url_key == key
            then requested latency ∷ outcome_event state (is_success answer) ∷ []
            else [])
          (get (finish_request state o latency answer).origin_states key)
  finishes-After state o latency answer key =
      rw (get-finish_request state o latency answer key) (elim (Bool-cases (o.url_key == key)) [
        | inl same ↦ rw same (recorded (get state.origin_states key))
        | inr apart ↦ rw apart (After-nothing (get state.origin_states key))
      ])
    where
      recorded :
          (before : Option OriginState)
          → After before
              (requested latency ∷ outcome_event state (is_success answer) ∷ [])
              (elim before [ none ↦ none | some s ↦ some (record_answer state latency answer s) ])
      recorded none = tt
      recorded (some s) = record_answer_events state latency answer s

  checks-After :
      (state : AppState Url F) (client : String → ProbeResult) (up down : ℕ) (ts : List Target)
      (key : String)
      → After
          (get state.origin_states key)
          (map (probe_event up down) (outcomes client up down key ts))
          (get (run_checks client up down state ts).origin_states key)
  unfolding run_checks
  checks-After state client up down ts key =
      rw (get-probe_all client up down state.origin_states ts key)
        (recorded (get state.origin_states key))
    where
      recorded :
          (before : Option OriginState)
          → After before
              (map (probe_event up down) (outcomes client up down key ts))
              (Option.map (λ s. record_all up down s (outcomes client up down key ts)) before)
      recorded none = tt
      recorded (some s) = record_all_events up down (outcomes client up down key ts) s

  reloads-After :
      (state : AppState Url F) (exists : PathBuf → Bool)
      (loaded : Result LoadError (ProxyConfig Url)) (key : String)
      → After (get state.origin_states key) [] (get (reload exists state loaded).origin_states key)
  unfolding reload apply_config
  reloads-After state exists (err e) key = After-nothing (get state.origin_states key)
  reloads-After state exists (ok c) key = by_check (validate exists c)
    where
      by_check :
          (r : Check)
          → After (get state.origin_states key) [] (get (apply_checked state c r).origin_states key)
      by_check (ok tt) = added state.origin_states (config_keys c.routes) key
      by_check (err e) = After-nothing (get state.origin_states key)

  discovers-After :
      (state : AppState Url F) (k8s : K8sOrigins Url) (svc : Service) (key : String)
      → After
          (get state.origin_states key)
          []
          (get (apply_service (state, k8s) svc).0.origin_states key)
  unfolding apply_service rebuild_router
  discovers-After state k8s svc key = elim (Option-cases (service_to_origin {Url = Url} svc)) [
    | inl nothing ↦ rw (nothing, apply_service) (After-nothing (get state.origin_states key))
    | inr (origin, there) ↦
        rw (there, apply_service)
          (added state.origin_states (k8s_keys (apply_origin k8s origin)) key)
  ]

  pub Step-After :
      (s t : System Url F) (step : Step s t) (key : String)
      → After (get s.0.origin_states key) (events_of step key) (get t.0.origin_states key)
  unfolding cleanup_limiters
  Step-After _ _ (begins state k8s req ip now draw) key =
      rw (begin_request-origin_states state req ip now draw)
        (After-nothing (get state.origin_states key))
  Step-After _ _ (finishes state k8s o latency answer) key =
      finishes-After state o latency answer key
  Step-After _ _ (checks state k8s client up down ts) key = checks-After state client up down ts key
  Step-After _ _ (cleans state k8s now) key = After-nothing (get state.origin_states key)
  Step-After _ _ (reloads state k8s exists loaded) key = reloads-After state exists loaded key
  Step-After _ _ (discovers state k8s svc) key = discovers-After state k8s svc key

  abbrev pub history : {s : System Url F} → Reachable s → String → List Event
  history (starts read c) key = []
  history (steps s t before step) key =
      after_step (get s.0.origin_states key) (events_of step key) (history before key)

  -- However the tasks' steps have interleaved, every field of the state of an origin is what the
  -- history of that origin says, as long as it has fewer than 2^32 events: the requests and the
  -- outcomes recorded since it has a state, each outcome with the threshold then in force: for the
  -- outcome of a request these are the thresholds 2 and 5 when passive checks are off, and it is
  -- recorded then too. No outcome is dropped for its age.
  pub Reachable-Recounts :
      (s : System Url F) (r : Reachable s) (key : String) (state : OriginState)
      → get s.0.origin_states key ≡ some state
      → length (history r key) < 2 ^ 32
      → Recounts state (history r key)
  unfolding new_state get
  Reachable-Recounts _ (starts read c) key state there short =
      let fresh : state ≡ new = subst (After none []) there (added [] (config_keys c.routes) key) in
      rw fresh new-Recounts
  Reachable-Recounts t (steps s _ before step) key state there short =
      After-Recounts (get s.0.origin_states key) (events_of step key) (history before key) state
        (λ earlier at. Reachable-Recounts s before key earlier at)
        (subst (After (get s.0.origin_states key) (events_of step key)) there
          (Step-After s t step key))
        short
