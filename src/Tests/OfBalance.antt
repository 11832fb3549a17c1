-- ===== src/Tests/OfBalance.antt =====
-- Examples of balancing and of health marks.
use upstreamer.Common.{ℕ, zero, ◌+◌, ◌<◌, ◌^◌}
use upstreamer.Balance.Atomics.{Thread, adds_success, adds_failure, adds_request, run_schedule}
use upstreamer.Balance.Atomics.Interleaved.{sum, failures_due, requests_due, AreFinished}
use upstreamer.Balance.Atomics.Turns.{turns, run_schedule_totals}
use upstreamer.Balance.Atomics.Flips.{counts_due, run_schedule-healthy}
use upstreamer.Common.{
  suc, ◌+◌, ◌%◌, ◌^◌, ◌≤◌, ◌<◌, ◌≡◌, ◌≢◌, refl, arith, true, false, none, some, List, [], ◌∷◌, ◌++◌,
  map, length, All, replicate,
}
use upstreamer.Balance.{
  OriginState, OriginEndpoint, new, Attempt, ewma, exchange_loop, record_latency,
}
use upstreamer.Balance.Latency.{exchange_loop_total, record_latency_lem}
use upstreamer.Balance.Health.{
  Outcome, success, failure, record_outcome, record_all, Represents, onto, record_all-Represents,
  successes-healthy,
}
use upstreamer.Balance.RoundRobin.{select_round_robin, is_up}
use upstreamer.Balance.RoundRobin.Fair.{picks, picks-rotation}
use upstreamer.Tests.{a_end, b_end, both_up, a_down, down}
use upstreamer.Common.Table.{get}

abbrev lost : Attempt
lost = record { cell = 40; spurious = false }

abbrev steady : Attempt
steady = record { cell = 40; spurious = false }

exchange_loop_total_example : exchange_loop 100 7 ([] ++ lost ∷ steady ∷ []) ≢ none
exchange_loop_total_example = exchange_loop_total 100 7 [] lost steady [] refl refl

record_latency_lem_example :
    record_latency down 90 ≡ record down { ewma_latency_ns = ewma (90 % 2 ^ 64) 70 }
record_latency_lem_example = record_latency_lem down 90

abbrev history : List Outcome
history = failure ∷ failure ∷ success ∷ failure ∷ []

record_all-Represents_example : Represents 2 3 (record_all 2 3 new history) (onto 2 3 history [])
record_all-Represents_example = record_all-Represents 2 3 history (omega arith)

successes-healthy_example : (record_all 2 3 down (replicate (suc 1) success)).healthy ≡ true
successes-healthy_example = successes-healthy 2 3 down 1 (omega arith) (omega arith)

abbrev nearly : OriginState
nearly = record down { consecutive_successes = 1 }

flipped : (record_outcome 2 3 nearly success).healthy ≢ nearly.healthy
unfolding record_outcome
flipped e = cc

skips : (select_round_robin (a_end ∷ b_end ∷ []) a_down 4).1 ≡ some b_end
unfolding select_round_robin is_up get
skips = refl

are_up : All (λ o. is_up both_up o.url_key ≡ true) (a_end ∷ b_end ∷ [])
unfolding is_up get
are_up = (refl, (refl, tt))

picks-rotation_example :
    (front : List (OriginEndpoint _)) × (back : List (OriginEndpoint _)) × ((a_end ∷ b_end ∷ [])
      ≡ front ++ back)
    × (length front ≡ 3 % 2)
    × (picks (a_end ∷ b_end ∷ []) both_up 3 2 ≡ map some (back ++ front))
picks-rotation_example =
    picks-rotation (a_end ∷ b_end ∷ []) both_up 3 (omega arith) are_up (omega arith)

-- Two failures and a success at a healthy origin, their operations interleaved.
abbrev threads : List Thread
threads = adds_failure 3 ∷ adds_success 2 ∷ adds_failure 3 ∷ adds_request ∷ []

abbrev schedule : List ℕ
schedule = 0 ∷ 2 ∷ 1 ∷ 3 ∷ 2 ∷ 0 ∷ 1 ∷ 3 ∷ 1 ∷ 0 ∷ 2 ∷ 3 ∷ 0 ∷ 1 ∷ 2 ∷ 3 ∷ []

fair : (i : ℕ) → i < 4 → 4 ≤ turns i schedule
unfolding turns
fair zero h = omega arith
fair (suc zero) h = omega arith
fair (suc (suc zero)) h = omega arith
fair (suc (suc (suc zero))) h = omega arith
fair (suc (suc (suc (suc i)))) h = absurd (omega arith)

run_schedule_totals_example :
    AreFinished (run_schedule (new, threads) schedule).1
    × ((run_schedule (new, threads) schedule).0.total_failures % 2 ^ 64
        ≡ (new.total_failures + sum failures_due threads) % 2 ^ 64)
    × ((run_schedule (new, threads) schedule).0.total_requests % 2 ^ 64
        ≡ (new.total_requests + sum requests_due threads) % 2 ^ 64)
run_schedule_totals_example = run_schedule_totals new threads schedule fair

few : new.consecutive_failures + sum counts_due threads < 3
unfolding sum counts_due
few = omega arith

run_schedule-healthy_example : (run_schedule (new, threads) schedule).0.healthy ≡ true
run_schedule-healthy_example =
    run_schedule-healthy 3 new threads schedule refl few
      (omega arith, (tt, (omega arith, (tt, tt))))
