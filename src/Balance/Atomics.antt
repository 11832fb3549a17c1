-- ===== src/Balance/Atomics.antt =====
-- The updates of an origin's state (src/balance/mod.rs) as the atomic operations that they are made
-- of, with several threads at one state. The operations of a thread are taken in their order, and a
-- schedule says which thread goes next.
pub mod Interleaved
pub mod Flips
pub mod Turns
use upstreamer.Common.{
  ℕ, zero, suc, ◌+◌, ◌%◌, Bool, true, false, Option, none, some, List, [], ◌∷◌, get_elem?, set, leb,
  if◌then◌else◌,
}
use upstreamer.Balance.{OriginState, u64_mod, bump32}

-- The operation that comes next, with the threshold, and with what was fetched.
pub data Thread : Type 0 where
  -- of `record_success_with_threshold`
  adds_success : ℕ → Thread
  clears_failures : ℕ → ℕ → Thread
  judges_successes : ℕ → ℕ → Thread
  -- of `record_failure_with_threshold`
  adds_failure : ℕ → Thread
  clears_successes : ℕ → ℕ → Thread
  adds_total_failure : ℕ → ℕ → Thread
  judges_failures : ℕ → ℕ → Thread
  -- of `increment_requests`
  adds_request : Thread
  finished : Thread

-- The next operation of a thread.
unfoldable pub advance : Thread → OriginState → OriginState × Thread
advance (adds_success threshold) s =
    let successes = bump32 s.consecutive_successes in
    (record s { consecutive_successes = successes }, clears_failures threshold successes)
advance (clears_failures threshold successes) s =
    (record s { consecutive_failures = 0 }, judges_successes threshold successes)
advance (judges_successes threshold successes) s =
    (record s { healthy = if leb threshold successes then true else s.healthy }, finished)
advance (adds_failure threshold) s =
    let failures = bump32 s.consecutive_failures in
    (record s { consecutive_failures = failures }, clears_successes threshold failures)
advance (clears_successes threshold failures) s =
    (record s { consecutive_successes = 0 }, adds_total_failure threshold failures)
advance (adds_total_failure threshold failures) s = (
  record s { total_failures = (s.total_failures + 1) % u64_mod },
  judges_failures threshold failures,
)
advance (judges_failures threshold failures) s =
    (record s { healthy = if leb threshold failures then false else s.healthy }, finished)
advance adds_request s = (record s { total_requests = (s.total_requests + 1) % u64_mod }, finished)
advance finished s = (s, finished)

abbrev pub Shared : Type 0
Shared = OriginState × List Thread

-- The thread of an index goes on by one operation.
unfoldable pub advance_at : Shared → ℕ → Shared
unfolding advance
advance_at (s, threads) i = elim (get_elem? threads i) [
  | none ↦ (s, threads)
  | some t ↦ let (after, next) = advance t s in (after, set threads i next)
]

unfoldable pub run_schedule : Shared → List ℕ → Shared
unfolding advance_at
run_schedule shared [] = shared
run_schedule shared (i ∷ schedule) = run_schedule (advance_at shared i) schedule

-- One thread alone, for as many operations as given.
unfoldable pub run_alone : ℕ → Thread → OriginState → OriginState × Thread
unfolding advance
run_alone zero t s = (s, t)
run_alone (suc n) t s = let (after, next) = advance t s in run_alone n next after
