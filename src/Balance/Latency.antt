-- ===== src/Balance/Latency.antt =====
-- The moving average of latencies and its exchange loop (src/balance/mod.rs).
use upstreamer.Common.{
  ℕ, ◌+◌, ◌*◌, ◌/◌, ◌%◌, ◌≢◌, ◌^◌, ◌≤◌, ◌<◌, ◌≡◌, ◌↔◌, arith, false, none, some, List, [], ◌∷◌,
  ◌++◌, In,
}
use upstreamer.Balance.{OriginState, Attempt, ewma, exchange_loop, record_latency}
use upstreamer.Config.{Duration}

-- With the old average and the sample below a tenth of 2^64 nanoseconds (58 years), the new average
-- is the weighted mean rounded down, without a wrap, and it lies between the two.
pub ewma_bounds :
    (sample old : ℕ)
    → sample < 2 ^ 64 / 10
    → old < 2 ^ 64 / 10
    → (10 * ewma sample old ≤ sample + 9 * old)
      × (sample + 9 * old < 10 * ewma sample old + 10)
      × ((old ≤ sample) → (old ≤ ewma sample old) × (ewma sample old ≤ sample))
      × ((sample ≤ old) → (sample ≤ ewma sample old) × (ewma sample old ≤ old))
unfolding ewma
ewma_bounds sample old hs ho = omega arith

-- With both below a tenth of 2^64, the average stays where it is exactly when it is at most nine
-- nanoseconds below the sample, and not above it.
pub ewma_fixed_iff :
    (sample old : ℕ)
    → sample < 2 ^ 64 / 10
    → old < 2 ^ 64 / 10
    → (ewma sample old ≡ old) ↔ ((old ≤ sample) × (sample ≤ old + 9))
unfolding ewma
ewma_fixed_iff sample old hs ho = (λ e. omega arith, λ h. omega arith)

abbrev cells : List Attempt → List ℕ
cells [] = []
cells (a ∷ rest) = a.cell ∷ cells rest

-- What the loop stores is the average of the sample and the value that it replaces, which the
-- cell held at the attempt that succeeded: no concurrent update is lost.
pub exchange_loop_sound :
    (sample old : ℕ) (attempts : List Attempt) (cell value : ℕ)
    → exchange_loop sample old attempts ≡ some (cell, value)
    → (value ≡ ewma sample cell) × In cell (cells attempts)
unfolding exchange_loop
exchange_loop_sound sample old [] cell value h = cc
exchange_loop_sound sample old (a ∷ rest) cell value h =
    ground (arith, exchange_loop_sound sample a.cell rest cell value)

-- The loop has stored a value, whatever came before, once two attempts in a row meet the same value
-- in the cell and the second does not fail for no reason.
pub exchange_loop_total :
    (sample old : ℕ) (before : List Attempt) (a b : Attempt) (after : List Attempt)
    → a.cell ≡ b.cell
    → b.spurious ≡ false
    → exchange_loop sample old (before ++ a ∷ b ∷ after) ≢ none
unfolding exchange_loop
exchange_loop_total sample old [] a b after same real = ground arith
exchange_loop_total sample old (x ∷ before) a b after same real =
    ground (arith, exchange_loop_total sample x.cell before a b after same real)

-- Without contention the average is replaced in one attempt, and nothing else of the state changes.
pub record_latency_lem :
    (s : OriginState) (latency : Duration)
    → record_latency s latency
      ≡ record s { ewma_latency_ns = ewma (latency % 2 ^ 64) s.ewma_latency_ns }
unfolding record_latency
record_latency_lem s latency = ground arith
