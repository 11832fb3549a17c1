-- ===== src/System/Counted.antt =====
-- The counters of every origin, whatever the tasks do.
use upstreamer.Common.{
  ◌/◌, ◌^◌, ◌<◌, ◌≤◌, ◌≡◌, ◌⊎◌, refl, subst, arith, Option, none, some, List, [], ◌∷◌, String,
  string_eq,
}
use upstreamer.Common.Table.{get}
use upstreamer.External.{UrlOps, F64Ops}
use upstreamer.Balance.{
  OriginState, ewma, increment_requests, record_success_with_threshold,
  record_failure_with_threshold,
}
use upstreamer.Balance.History.{
  Event, requested, succeeded, failed_once, record_event, record_events, record_latency_lem,
}
use upstreamer.State.{config_keys, new_state}
use upstreamer.System.{System, Reachable, starts, steps}
use upstreamer.System.History.{After, added, events_of, Step-After}

-- The counters fit their widths, and the successes and the failures are not both counted.
pub record IsCounted (s : OriginState) : Type 0 where
  pub successes : s.consecutive_successes < 2 ^ 32
  pub failures : s.consecutive_failures < 2 ^ 32
  pub one_sided : (s.consecutive_successes ≡ 0) ⊎ (s.consecutive_failures ≡ 0)
  pub requests : s.total_requests < 2 ^ 64
  pub all_failures : s.total_failures < 2 ^ 64
  pub latency : s.ewma_latency_ns ≤ 2 ^ 64 / 10

record_event-IsCounted : (s : OriginState) (e : Event) → IsCounted s → IsCounted (record_event s e)
unfolding record_event increment_requests ewma
record_event-IsCounted s (requested latency) h =
    ground (arith, record_latency_lem (increment_requests s) latency)
record_event-IsCounted s (succeeded threshold) h =
    unfold record_success_with_threshold in ground arith
record_event-IsCounted s (failed_once threshold) h =
    unfold record_failure_with_threshold in ground arith

record_events-IsCounted :
    (es : List Event) (s : OriginState) → IsCounted s → IsCounted (record_events s es)
unfolding record_events
record_events-IsCounted [] s h = h
record_events-IsCounted (e ∷ es) s h =
    record_events-IsCounted es (record_event s e) (record_event-IsCounted s e h)

After-IsCounted :
    (before : Option OriginState) (es : List Event) (t : OriginState)
    → ((s : OriginState) → before ≡ some s → IsCounted s)
    → After before es (some t)
    → IsCounted t
After-IsCounted none es t h e = rw e (ground arith)
After-IsCounted (some s) es t h e = rw e (record_events-IsCounted es s (h s refl))

module _ {Url F : Type 0} ⦃u : UrlOps Url⦄ ⦃f : F64Ops F⦄ where
  -- However the tasks' steps have interleaved and however long the proxy has run, the counters of
  -- every origin fit their widths, its average latency is at most a tenth of 2^64 nanoseconds, and
  -- its successes and its failures in a row are not both counted.
  pub Reachable-IsCounted :
      (s : System Url F) (key : String) (state : OriginState)
      → Reachable s
      → get s.0.origin_states key ≡ some state
      → IsCounted state
  unfolding new_state get
  Reachable-IsCounted _ key state (starts read c) there =
      After-IsCounted none [] state (λ s e. cc)
        (subst (After none []) there (added [] (config_keys c.routes) key))
  Reachable-IsCounted t key state (steps s _ before step) there =
      After-IsCounted (get s.0.origin_states key) (events_of step key) state
        (λ earlier at. Reachable-IsCounted s key earlier before at)
        (subst (After (get s.0.origin_states key) (events_of step key)) there
          (Step-After s t step key))
