-- ===== src/Balance.antt =====
-- The state kept for each origin, and its updates (src/balance/mod.rs). Numbers of a fixed width
-- wrap, as in a release build.
pub mod Health
pub mod Latency
pub mod Atomics
pub mod History
pub mod RoundRobin
pub mod Weighted
use upstreamer.Common.{
  ℕ, ◌+◌, ◌*◌, ◌/◌, ◌%◌, ◌^◌, Bool, true, false, not, ◌&&◌, Option, none, some, List, [], ◌∷◌,
  String, leb, eqb, if◌then◌else◌,
}
use upstreamer.Config.{Duration}

abbrev pub u32_mod : ℕ
u32_mod = 2 ^ 32

abbrev pub u64_mod : ℕ
u64_mod = 2 ^ 64

pub record OriginEndpoint (Url : Type 0) : Type 0 where
  pub url : Url
  pub url_key : String
  pub url_base : String
  pub weight : Option ℕ
  pub health_check_path : Option String

-- Each field is an atomic of its own: u64, u32, u32, u64, u64 and bool.
pub record OriginState : Type 0 where
  pub ewma_latency_ns : ℕ
  pub consecutive_successes : ℕ
  pub consecutive_failures : ℕ
  pub total_requests : ℕ
  pub total_failures : ℕ
  pub healthy : Bool

-- `OriginState::new`, which is also its default.
abbrev pub new : OriginState
new = record {
  ewma_latency_ns = 0;
  consecutive_successes = 0;
  consecutive_failures = 0;
  total_requests = 0;
  total_failures = 0;
  healthy = true;
}

-- `(sample_ns + 9 * old) / 10` on u64.
unfoldable pub ewma : ℕ → ℕ → ℕ
ewma sample old = (sample + 9 * old % u64_mod) % u64_mod / 10

-- `latency.as_nanos() as u64`
unfoldable pub sample_ns : Duration → ℕ
sample_ns latency = latency % u64_mod

-- One attempt of `compare_exchange_weak`: what the cell held, and whether the attempt failed for
-- no reason.
pub record Attempt : Type 0 where
  pub cell : ℕ
  pub spurious : Bool

-- The loop of `record_latency`, against the attempts that it meets: the value replaced and the
-- value stored, or `none` while it is still trying.
unfoldable pub exchange_loop : ℕ → ℕ → List Attempt → Option (ℕ × ℕ)
unfolding ewma
exchange_loop sample old [] = none
exchange_loop sample old (a ∷ rest) =
    let again = exchange_loop sample a.cell rest in
    if eqb a.cell old && not a.spurious then some (a.cell, ewma sample old) else again

abbrev stored : OriginState → Option (ℕ × ℕ) → OriginState
stored s none = s
stored s (some (_, value)) = record s { ewma_latency_ns = value }

-- `record_latency` with no other thread at the cell.
unfoldable pub record_latency : OriginState → Duration → OriginState
unfolding exchange_loop sample_ns
record_latency s latency =
    let quiet : Attempt = record { cell = s.ewma_latency_ns; spurious = false } in
    stored s (exchange_loop (sample_ns latency) s.ewma_latency_ns (quiet ∷ []))

-- `fetch_add(1) + 1`, the sum that is compared being a u32 too.
abbrev pub bump32 : ℕ → ℕ
bump32 n = (n + 1) % u32_mod

unfoldable pub record_success_with_threshold : OriginState → ℕ → OriginState
record_success_with_threshold s threshold =
    let successes = bump32 s.consecutive_successes in
    record s {
      consecutive_successes = successes;
      consecutive_failures = 0;
      healthy = if leb threshold successes then true else s.healthy;
    }

unfoldable pub record_failure_with_threshold : OriginState → ℕ → OriginState
record_failure_with_threshold s threshold =
    let failures = bump32 s.consecutive_failures in
    record s {
      consecutive_failures = failures;
      consecutive_successes = 0;
      total_failures = (s.total_failures + 1) % u64_mod;
      healthy = if leb threshold failures then false else s.healthy;
    }

unfoldable pub record_success : OriginState → OriginState
unfolding record_success_with_threshold
record_success s = record_success_with_threshold s 2

unfoldable pub record_failure : OriginState → OriginState
unfolding record_failure_with_threshold
record_failure s = record_failure_with_threshold s 5

unfoldable pub increment_requests : OriginState → OriginState
increment_requests s = record s { total_requests = (s.total_requests + 1) % u64_mod }
