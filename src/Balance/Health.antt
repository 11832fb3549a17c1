-- ===== src/Balance/Health.antt =====
-- Marking an origin healthy and unhealthy (src/balance/mod.rs).
use upstreamer.Common.{
  ℕ, zero, suc, ◌+◌, ◌^◌, ◌≤◌, ◌<◌, ◌≡◌, ◌⊎◌, inl, inr, refl, arith, Bool, true, false, List, [],
  ◌∷◌, if◌then◌else◌, leb, length, replicate, ◌≢◌,
}
use upstreamer.Balance.{
  OriginState, new, record_success_with_threshold, record_failure_with_threshold,
}

-- What is recorded of an origin: an answer that counts as a success, or a failure.
pub data Outcome : Type 0 where
  success failure : Outcome

-- `up` and `down` are the thresholds in force for successes and for failures.
module _ (up down : ℕ) where
  unfoldable pub record_outcome : OriginState → Outcome → OriginState
  unfolding record_success_with_threshold record_failure_with_threshold
  record_outcome s success = record_success_with_threshold s up
  record_outcome s failure = record_failure_with_threshold s down

  unfoldable pub record_all : OriginState → List Outcome → OriginState
  unfolding record_outcome
  record_all s [] = s
  record_all s (o ∷ os) = record_all (record_outcome s o) os

  -- A specification that reads the history alone, newest first: how many outcomes of one kind
  -- stand at its head, and the mark that the last full run left.
  abbrev pub run_of : Outcome → List Outcome → ℕ
  run_of success (success ∷ past) = suc (run_of success past)
  run_of failure (failure ∷ past) = suc (run_of failure past)
  run_of _ _ = 0

  abbrev pub is_marked_healthy : List Outcome → Bool
  is_marked_healthy [] = true
  is_marked_healthy (success ∷ past) =
      if leb up (run_of success (success ∷ past)) then true else is_marked_healthy past
  is_marked_healthy (failure ∷ past) =
      if leb down (run_of failure (failure ∷ past)) then false else is_marked_healthy past

  abbrev pub total_failures_of : List Outcome → ℕ
  total_failures_of [] = 0
  total_failures_of (success ∷ past) = total_failures_of past
  total_failures_of (failure ∷ past) = suc (total_failures_of past)

  -- The counters and the mark are those of the history.
  pub record Represents (s : OriginState) (past : List Outcome) : Type 0 where
    pub successes : s.consecutive_successes ≡ run_of success past
    pub failures : s.consecutive_failures ≡ run_of failure past
    pub mark : s.healthy ≡ is_marked_healthy past
    pub total : s.total_failures ≡ total_failures_of past

  run_of-le : (o : Outcome) (past : List Outcome) → run_of o past ≤ length past
  run_of-le success [] = omega arith
  run_of-le failure [] = omega arith
  run_of-le success (success ∷ past) = omega (arith, run_of-le success past)
  run_of-le failure (failure ∷ past) = omega (arith, run_of-le failure past)
  run_of-le success (failure ∷ past) = omega arith
  run_of-le failure (success ∷ past) = omega arith

  total_failures_of-le : (past : List Outcome) → total_failures_of past ≤ length past
  total_failures_of-le [] = omega arith
  total_failures_of-le (success ∷ past) = omega (arith, total_failures_of-le past)
  total_failures_of-le (failure ∷ past) = omega (arith, total_failures_of-le past)

  record_outcome-Represents :
      (s : OriginState) (past : List Outcome) (o : Outcome)
      → length past + 1 < 2 ^ 32
      → Represents s past
      → Represents (record_outcome s o) (o ∷ past)
  unfolding record_outcome
  record_outcome-Represents s past success h r =
      ground (arith, run_of-le success past, total_failures_of-le past)
  record_outcome-Represents s past failure h r =
      ground (arith, run_of-le failure past, total_failures_of-le past)

  abbrev pub onto : List Outcome → List Outcome → List Outcome
  onto [] past = past
  onto (o ∷ os) past = onto os (o ∷ past)

  record_all-Represents_from :
      (s : OriginState) (past os : List Outcome)
      → length past + length os < 2 ^ 32
      → Represents s past
      → Represents (record_all s os) (onto os past)
  unfolding record_all
  record_all-Represents_from s past [] h r = r
  record_all-Represents_from s past (o ∷ os) h r =
      record_all-Represents_from (record_outcome s o) (o ∷ past) os (omega arith)
        (record_outcome-Represents s past o (omega arith) r)

  -- After any history of fewer than 2^32 outcomes, a new origin's counters of successes and
  -- failures in a row, its mark and its total of failures are those that the specification reads
  -- off the history.
  pub record_all-Represents :
      (os : List Outcome) → length os < 2 ^ 32 → Represents (record_all new os) (onto os [])
  record_all-Represents os h =
      record_all-Represents_from new [] os (omega arith)
        (record { successes = refl; failures = refl; mark = refl; total = refl })

  -- Failures in a row, at least one, leave an origin unhealthy, whatever its state was, once they
  -- and those counted before reach the threshold and are fewer than 2^32.
  pub failures-unhealthy :
      (s : OriginState) (k : ℕ)
      → s.consecutive_failures + suc k < 2 ^ 32
      → down ≤ s.consecutive_failures + suc k
      → (record_all s (replicate (suc k) failure)).healthy ≡ false
  unfolding record_all
  failures-unhealthy s zero h e = ground arith
  failures-unhealthy s (suc k) h e =
      failures-unhealthy (record_outcome s failure) k (unfold record_outcome in omega arith)
        (unfold record_outcome in omega arith)

  -- The same for successes, which leave it healthy.
  pub successes-healthy :
      (s : OriginState) (k : ℕ)
      → s.consecutive_successes + suc k < 2 ^ 32
      → up ≤ s.consecutive_successes + suc k
      → (record_all s (replicate (suc k) success)).healthy ≡ true
  unfolding record_all
  successes-healthy s zero h e = ground arith
  successes-healthy s (suc k) h e =
      successes-healthy (record_outcome s success) k (unfold record_outcome in omega arith)
        (unfold record_outcome in omega arith)

  -- Below the wrap of the 32-bit counters, the mark changes only at a full run: a healthy origin is
  -- marked unhealthy by a failure that is at least the `down`-th in a row, and an unhealthy one is
  -- marked healthy by a success that is at least the `up`-th.
  pub record_outcome_flip :
      (s : OriginState) (o : Outcome)
      → s.consecutive_successes + 1 < 2 ^ 32
      → s.consecutive_failures + 1 < 2 ^ 32
      → (record_outcome s o).healthy ≢ s.healthy
      → ((o ≡ failure) × (s.healthy ≡ true) × (down ≤ s.consecutive_failures + 1))
        ⊎ ((o ≡ success) × (s.healthy ≡ false) × (up ≤ s.consecutive_successes + 1))
  unfolding record_outcome
  record_outcome_flip s success h k e = inr (refl, ground arith, ground arith)
  record_outcome_flip s failure h k e = inl (refl, ground arith, ground arith)
