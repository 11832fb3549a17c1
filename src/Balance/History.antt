-- ===== src/Balance/History.antt =====
-- What is recorded of an origin, and a specification that reads it off (src/balance/mod.rs).
use upstreamer.Common.{
  ℕ, suc, ◌+◌, ◌^◌, ◌≤◌, ◌<◌, ◌≡◌, arith, Bool, true, false, List, [], ◌∷◌, length, leb,
  if◌then◌else◌,
}
use upstreamer.Config.{Duration}
use upstreamer.Balance.{
  OriginState, new, ewma, sample_ns, record_latency, increment_requests,
  record_success_with_threshold, record_failure_with_threshold, exchange_loop,
}

-- A request with its latency, or an outcome with the threshold in force.
pub data Event : Type 0 where
  requested : Duration → Event
  succeeded : ℕ → Event
  failed_once : ℕ → Event

unfoldable pub record_event : OriginState → Event → OriginState
unfolding record_latency increment_requests record_success_with_threshold
    record_failure_with_threshold
record_event s (requested latency) = record_latency (increment_requests s) latency
record_event s (succeeded threshold) = record_success_with_threshold s threshold
record_event s (failed_once threshold) = record_failure_with_threshold s threshold

-- Oldest first.
unfoldable pub record_events : OriginState → List Event → OriginState
unfolding record_event
record_events s [] = s
record_events s (e ∷ es) = record_events (record_event s e) es

-- The specification, newest first. The successes, and the failures, since the last outcome of the
-- other kind.
abbrev pub successes_of : List Event → ℕ
successes_of [] = 0
successes_of (requested latency ∷ past) = successes_of past
successes_of (succeeded threshold ∷ past) = suc (successes_of past)
successes_of (failed_once threshold ∷ past) = 0

abbrev pub failures_of : List Event → ℕ
failures_of [] = 0
failures_of (requested latency ∷ past) = failures_of past
failures_of (succeeded threshold ∷ past) = 0
failures_of (failed_once threshold ∷ past) = suc (failures_of past)

-- The mark that the last run as long as its threshold left.
abbrev pub mark_of : List Event → Bool
mark_of [] = true
mark_of (requested latency ∷ past) = mark_of past
mark_of (succeeded threshold ∷ past) =
    if leb threshold (suc (successes_of past)) then true else mark_of past
mark_of (failed_once threshold ∷ past) =
    if leb threshold (suc (failures_of past)) then false else mark_of past

abbrev pub all_requests_of : List Event → ℕ
all_requests_of [] = 0
all_requests_of (requested latency ∷ past) = suc (all_requests_of past)
all_requests_of (succeeded threshold ∷ past) = all_requests_of past
all_requests_of (failed_once threshold ∷ past) = all_requests_of past

abbrev pub all_failures_of : List Event → ℕ
all_failures_of [] = 0
all_failures_of (requested latency ∷ past) = all_failures_of past
all_failures_of (succeeded threshold ∷ past) = all_failures_of past
all_failures_of (failed_once threshold ∷ past) = suc (all_failures_of past)

abbrev pub latency_of : List Event → ℕ
latency_of [] = 0
latency_of (requested latency ∷ past) = ewma (sample_ns latency) (latency_of past)
latency_of (succeeded threshold ∷ past) = latency_of past
latency_of (failed_once threshold ∷ past) = latency_of past

-- Every field is what the history says.
pub record Recounts (s : OriginState) (past : List Event) : Type 0 where
  pub successes : s.consecutive_successes ≡ successes_of past
  pub failures : s.consecutive_failures ≡ failures_of past
  pub mark : s.healthy ≡ mark_of past
  pub requests : s.total_requests ≡ all_requests_of past
  pub all_failures : s.total_failures ≡ all_failures_of past
  pub latency : s.ewma_latency_ns ≡ latency_of past

-- The counts are no longer than the history.
record Bounded (past : List Event) : Type 0 where
  successes : successes_of past ≤ length past
  failures : failures_of past ≤ length past
  requests : all_requests_of past ≤ length past
  all_failures : all_failures_of past ≤ length past

past-Bounded : (past : List Event) → Bounded past
past-Bounded [] = ground arith
past-Bounded (requested latency ∷ past) = ground (arith, past-Bounded past)
past-Bounded (succeeded threshold ∷ past) = ground (arith, past-Bounded past)
past-Bounded (failed_once threshold ∷ past) = ground (arith, past-Bounded past)

pub record_latency_lem :
    (s : OriginState) (latency : Duration)
    → record_latency s latency
      ≡ record s { ewma_latency_ns = ewma (sample_ns latency) s.ewma_latency_ns }
unfolding record_latency exchange_loop
record_latency_lem s latency = ground arith

record_event-Recounts :
    (s : OriginState) (past : List Event) (e : Event)
    → length past + 1 < 2 ^ 32
    → Recounts s past
    → Recounts (record_event s e) (e ∷ past)
unfolding record_event increment_requests
record_event-Recounts s past (requested latency) h r =
    ground (arith, record_latency_lem (increment_requests s) latency, past-Bounded past)
record_event-Recounts s past (succeeded threshold) h r =
    unfold record_success_with_threshold in ground (arith, past-Bounded past)
record_event-Recounts s past (failed_once threshold) h r =
    unfold record_failure_with_threshold in ground (arith, past-Bounded past)

-- The later events, put in front of the earlier ones.
abbrev pub onto : List Event → List Event → List Event
onto [] past = past
onto (e ∷ es) past = onto es (e ∷ past)

length-onto : (es past : List Event) → length past ≤ length (onto es past)
length-onto [] past = omega arith
length-onto (e ∷ es) past = omega (arith, length-onto es (e ∷ past))

pub length-onto_le : (es past : List Event) (n : ℕ) → length (onto es past) < n → length past < n
length-onto_le es past n h = omega (arith, length-onto es past)

pub record_events-Recounts :
    (es past : List Event) (s : OriginState)
    → length (onto es past) < 2 ^ 32
    → Recounts s past
    → Recounts (record_events s es) (onto es past)
unfolding record_events
record_events-Recounts [] past s h r = r
record_events-Recounts (e ∷ es) past s h r =
    record_events-Recounts es (e ∷ past) (record_event s e) h
      (record_event-Recounts s past e (omega (arith, length-onto es (e ∷ past))) r)

pub new-Recounts : Recounts new []
new-Recounts = ground arith
