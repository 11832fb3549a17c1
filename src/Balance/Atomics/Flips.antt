-- ===== src/Balance/Atomics/Flips.antt =====
-- How many threads it takes to mark an origin unhealthy (src/balance/mod.rs).
use upstreamer.Common.{
  ℕ, ◌+◌, ◌≤◌, ◌<◌, ◌≡◌, arith, true, some, List, [], ◌∷◌, get_elem?, set, All, All_In, All-set,
  In-of_get_elem?,
}
use upstreamer.Balance.{OriginState}
use upstreamer.Balance.Atomics.{
  Thread, adds_success, clears_failures, judges_successes, adds_failure, clears_successes,
  adds_total_failure, judges_failures, adds_request, finished, advance, Shared, run_schedule,
}
use upstreamer.Balance.Atomics.Interleaved.{sum, sum-set, run_schedule-keeps}

-- Whether a thread has still to count a failure.
unfoldable pub counts_due : Thread → ℕ
counts_due (adds_failure threshold) = 1
counts_due _ = 0

-- A thread at its start, its threshold for failures being at least `down`.
abbrev pub IsStart : ℕ → Thread → Type 0
IsStart down (adds_success threshold) = Unit
IsStart down (adds_failure threshold) = down ≤ threshold
IsStart down adds_request = Unit
IsStart down _ = ⊥

-- A thread that has fetched no count of failures at or above its threshold.
abbrev Spares : ℕ → Thread → Type 0
Spares down (adds_failure threshold) = down ≤ threshold
Spares down (clears_successes threshold failures) = failures < down × down ≤ threshold
Spares down (adds_total_failure threshold failures) = failures < down × down ≤ threshold
Spares down (judges_failures threshold failures) = failures < down × down ≤ threshold
Spares down _ = Unit

IsStart-Spares : (down : ℕ) (t : Thread) → IsStart down t → Spares down t
IsStart-Spares down (adds_success threshold) h = tt
IsStart-Spares down (adds_failure threshold) h = h
IsStart-Spares down adds_request h = tt
IsStart-Spares down (clears_failures threshold n) h = absurd h
IsStart-Spares down (judges_successes threshold n) h = absurd h
IsStart-Spares down (clears_successes threshold n) h = absurd h
IsStart-Spares down (adds_total_failure threshold n) h = absurd h
IsStart-Spares down (judges_failures threshold n) h = absurd h
IsStart-Spares down finished h = absurd h

advance-Spares :
    (down : ℕ) (t : Thread) (s : OriginState) (rest : ℕ)
    → s.healthy ≡ true
    → s.consecutive_failures + (rest + counts_due t) < down
    → Spares down t
    → ((advance t s).0.healthy ≡ true)
      × ((advance t s).0.consecutive_failures + (rest + counts_due (advance t s).1) < down)
      × Spares down (advance t s).1
unfolding advance counts_due
advance-Spares down (adds_success threshold) s rest up few spares = (up, few, tt)
advance-Spares down (clears_failures threshold n) s rest up few spares = (up, omega arith, tt)
advance-Spares down (judges_successes threshold n) s rest up few spares = (ground arith, few, tt)
advance-Spares down (adds_failure threshold) s rest up few spares =
    (up, omega arith, (omega arith, spares))
advance-Spares down (clears_successes threshold n) s rest up few spares = (up, few, spares)
advance-Spares down (adds_total_failure threshold n) s rest up few spares = (up, few, spares)
advance-Spares down (judges_failures threshold n) s rest up few (below, high) =
    (ground arith, few, tt)
advance-Spares down adds_request s rest up few spares = (up, few, tt)
advance-Spares down finished s rest up few spares = (up, few, tt)

abbrev StaysUp : ℕ → Shared → Type 0
StaysUp down (s, threads) =
    (s.healthy ≡ true)
    × (s.consecutive_failures + sum counts_due threads < down)
    × All (Spares down) threads

advance-StaysUp :
    (down : ℕ) (s : OriginState) (threads : List Thread) (i : ℕ) (t : Thread)
    → get_elem? threads i ≡ some t
    → StaysUp down (s, threads)
    → StaysUp down ((advance t s).0, set threads i (advance t s).1)
advance-StaysUp down s threads i t at (up, few, spares) =
    let (rest, before, after) = sum-set counts_due threads i t (advance t s).1 at in
    let here = All_In (Spares down) t threads spares (In-of_get_elem? t threads i at) in
    let (up', few', spares') = advance-Spares down t s rest up (omega (arith, before)) here in
    (up', omega (arith, after), All-set (Spares down) threads i (advance t s).1 spares spares')

All-Spares : (down : ℕ) (ts : List Thread) → All (IsStart down) ts → All (Spares down) ts
All-Spares down [] h = tt
All-Spares down (t ∷ ts) (p, h) = (IsStart-Spares down t p, All-Spares down ts h)

-- A healthy origin stays healthy, in whatever order the operations of several threads interleave,
-- if the failures it has counted in a row and the failures that the threads record make fewer than
-- `down`, each thread being at its start and its threshold for failures at least `down`.
pub run_schedule-healthy :
    (down : ℕ) (s : OriginState) (threads : List Thread) (schedule : List ℕ)
    → s.healthy ≡ true
    → s.consecutive_failures + sum counts_due threads < down
    → All (IsStart down) threads
    → (run_schedule (s, threads) schedule).0.healthy ≡ true
run_schedule-healthy down s threads schedule up few starts =
    (run_schedule-keeps (StaysUp down) (advance-StaysUp down) (s, threads) schedule
      (up, few, All-Spares down threads starts)).0
