-- ===== src/Tests/OfHistory.antt =====
-- Examples of what an origin's state recounts, in a system in which a request has failed.
use upstreamer.Common.{ℕ, ◌^◌, ◌<◌, ◌≡◌, refl, arith, some, [], length, string_eq, String, true}
use upstreamer.Common.Table.{get, insert, or_insert}
use upstreamer.External.Fixed.{fixed}
use upstreamer.Balance.{
  OriginState, record_latency, ewma, sample_ns, exchange_loop, record_failure_with_threshold,
  increment_requests,
}
use upstreamer.Balance.History.{Recounts}
use upstreamer.State.{AppState, new_state, add_states, config_keys, pool_keys, origin_keys}
use upstreamer.Server.{failed, finish_request, record_answer, record_result, is_success}
use upstreamer.System.{System, Reachable, starts, steps, finishes}
use upstreamer.System.History.{history, Reachable-Recounts}
use upstreamer.System.Counted.{IsCounted, Reachable-IsCounted}
use upstreamer.Tests.{text_url, config, read_page, a_end}

abbrev begun : AppState String ℕ
begun = new_state read_page config

abbrev answered : System String ℕ
answered = (finish_request begun a_end 7_000 failed, [])

abbrev answered-Reachable : Reachable answered
answered-Reachable =
    steps (begun, []) answered (starts read_page config) (finishes begun [] a_end 7_000 failed)

-- What the failure leaves.
abbrev failed_state : OriginState
failed_state = record {
  ewma_latency_ns = 700;
  consecutive_successes = 0;
  consecutive_failures = 1;
  total_requests = 1;
  total_failures = 1;
  healthy = true;
}

there : get answered.0.origin_states "http://a/" ≡ some failed_state
unfolding get insert or_insert finish_request record_answer record_result record_latency ewma
    sample_ns exchange_loop record_failure_with_threshold increment_requests new_state add_states
    config_keys pool_keys origin_keys is_success
there = refl

short : length (history answered-Reachable "http://a/") < 2 ^ 32
unfolding get insert or_insert finish_request record_answer record_result record_latency ewma
    sample_ns exchange_loop record_failure_with_threshold increment_requests new_state add_states
    config_keys pool_keys origin_keys is_success
short = omega arith

Reachable-Recounts_example : Recounts failed_state (history answered-Reachable "http://a/")
Reachable-Recounts_example =
    Reachable-Recounts answered answered-Reachable "http://a/" failed_state there short

Reachable-IsCounted_example : IsCounted failed_state
Reachable-IsCounted_example =
    Reachable-IsCounted answered "http://a/" failed_state answered-Reachable there
