-- ===== src/Balance/Atomics/Turns.antt =====
-- A schedule that gives every thread its turns finishes them all (src/balance/mod.rs).
use upstreamer.Common.{
  ℕ, zero, suc, ◌+◌, ◌-◌, ◌%◌, ◌^◌, ◌≤◌, ◌<◌, ◌≡◌, ◌≢◌, refl, sym, ap, ◌∙◌, arith, some, List, [],
  ◌∷◌, get_elem?, get_elem?-lt, get_elem?_total, set, All, length, inl, inr, Option-cases,
  Bool-cases, eqb, eqb_iff, if◌then◌else◌,
}
use upstreamer.Balance.{OriginState}
use upstreamer.Balance.Atomics.{
  Thread, adds_success, clears_failures, judges_successes, adds_failure, clears_successes,
  adds_total_failure, judges_failures, adds_request, finished, advance, advance_at, run_schedule,
}
use upstreamer.Balance.Atomics.Interleaved.{
  sum, failures_due, requests_due, AreFinished, finished_totals,
}

-- How often an index occurs in a schedule.
unfoldable pub turns : ℕ → List ℕ → ℕ
turns i [] = 0
turns i (j ∷ schedule) = (if eqb j i then 1 else 0) + turns i schedule

-- How many operations a thread has before it.
unfoldable pub operations_left : Thread → ℕ
operations_left (adds_success threshold) = 3
operations_left (clears_failures threshold n) = 2
operations_left (judges_successes threshold n) = 1
operations_left (adds_failure threshold) = 4
operations_left (clears_successes threshold n) = 3
operations_left (adds_total_failure threshold n) = 2
operations_left (judges_failures threshold n) = 1
operations_left adds_request = 1
operations_left finished = 0

operations_left-le : (t : Thread) → operations_left t ≤ 4
unfolding operations_left
operations_left-le (adds_success threshold) = omega arith
operations_left-le (clears_failures threshold n) = omega arith
operations_left-le (judges_successes threshold n) = omega arith
operations_left-le (adds_failure threshold) = omega arith
operations_left-le (clears_successes threshold n) = omega arith
operations_left-le (adds_total_failure threshold n) = omega arith
operations_left-le (judges_failures threshold n) = omega arith
operations_left-le adds_request = omega arith
operations_left-le finished = omega arith

operations_left-advance :
    (t : Thread) (s : OriginState) → operations_left (advance t s).1 ≡ operations_left t - 1
unfolding operations_left advance
operations_left-advance (adds_success threshold) s = refl
operations_left-advance (clears_failures threshold n) s = refl
operations_left-advance (judges_successes threshold n) s = refl
operations_left-advance (adds_failure threshold) s = refl
operations_left-advance (clears_successes threshold n) s = refl
operations_left-advance (adds_total_failure threshold n) s = refl
operations_left-advance (judges_failures threshold n) s = refl
operations_left-advance adds_request s = refl
operations_left-advance finished s = refl

none_left-finished : (t : Thread) → operations_left t ≡ 0 → t ≡ finished
unfolding operations_left
none_left-finished (adds_success threshold) e = cc
none_left-finished (clears_failures threshold n) e = cc
none_left-finished (judges_successes threshold n) e = cc
none_left-finished (adds_failure threshold) e = cc
none_left-finished (clears_successes threshold n) e = cc
none_left-finished (adds_total_failure threshold n) e = cc
none_left-finished (judges_failures threshold n) e = cc
none_left-finished adds_request e = cc
none_left-finished finished e = refl

get_elem?-set_same :
    {A : Type 0} (xs : List A) (i : ℕ) (v x : A)
    → get_elem? xs i ≡ some x
    → get_elem? (set xs i v) i ≡ some v
get_elem?-set_same [] i v x at = cc
get_elem?-set_same (y ∷ xs) zero v x at = refl
get_elem?-set_same (y ∷ xs) (suc i) v x at = get_elem?-set_same xs i v x at

get_elem?-set_other :
    {A : Type 0} (xs : List A) (i j : ℕ) (v : A) → i ≢ j → get_elem? (set xs i v) j ≡ get_elem? xs j
get_elem?-set_other [] i j v apart = refl
get_elem?-set_other (y ∷ xs) zero zero v apart = absurd (apart refl)
get_elem?-set_other (y ∷ xs) zero (suc j) v apart = refl
get_elem?-set_other (y ∷ xs) (suc i) zero v apart = refl
get_elem?-set_other (y ∷ xs) (suc i) (suc j) v apart =
    get_elem?-set_other xs i j v (λ e. apart (ap suc e))

-- Whether a turn is the thread's.
abbrev turn : ℕ → ℕ → ℕ
turn i j = if eqb i j then 1 else 0

-- A turn takes one operation off the thread whose turn it is, and leaves the others alone.
turn_left :
    (s : OriginState) (threads : List Thread) (i j : ℕ) (t : Thread)
    → get_elem? threads j ≡ some t
    → (next : Thread) × (get_elem? (advance_at (s, threads) i).1 j ≡ some next)
      × (operations_left next ≡ operations_left t - turn i j)
unfolding advance_at
turn_left s threads i j t at = elim (Bool-cases (eqb i j)) [
  | inl same ↦
      let here : get_elem? threads i ≡ some t =
        ap (get_elem? threads) ((eqb_iff i j).0 same) ∙ at in
      (
        (advance t s).1,
        ap (get_elem? (advance_at (s, threads) i).1) (sym ((eqb_iff i j).0 same))
            ∙ rw (here, advance_at) (get_elem?-set_same threads i (advance t s).1 t here),
        rw same (operations_left-advance t s),
      )
  | inr apart ↦ elim (Option-cases (get_elem? threads i)) [
    | inl beyond ↦ (t, rw (beyond, advance_at) at, rw apart (omega arith))
    | inr (q, there) ↦ (
      t,
      rw (there, advance_at)
          (get_elem?-set_other threads i j (advance q s).1 (λ e. cc ((eqb_iff i j).1 e, apart))
            ∙ at),
      rw apart (omega arith),
    )
  ]
]

turns_left :
    (schedule : List ℕ) (s : OriginState) (threads : List Thread) (j : ℕ) (t : Thread)
    → get_elem? threads j ≡ some t
    → (next : Thread) × (get_elem? (run_schedule (s, threads) schedule).1 j ≡ some next)
      × (operations_left next ≡ operations_left t - turns j schedule)
unfolding run_schedule turns
turns_left [] s threads j t at = (t, at, omega arith)
turns_left (i ∷ schedule) s threads j t at =
    let (mid, here, left) = turn_left s threads i j t at in
    let after = advance_at (s, threads) i in
    let (next, there, rest) = turns_left schedule after.0 after.1 j mid here in
    (next, there, omega (arith, left, rest))

length-set : {A : Type 0} (xs : List A) (i : ℕ) (v : A) → length (set xs i v) ≡ length xs
length-set [] i v = refl
length-set (x ∷ xs) zero v = refl
length-set (x ∷ xs) (suc i) v = omega (arith, length-set xs i v)

length-advance_at :
    (s : OriginState) (threads : List Thread) (i : ℕ)
    → length (advance_at (s, threads) i).1 ≡ length threads
unfolding advance_at
length-advance_at s threads i = elim (Option-cases (get_elem? threads i)) [
  | inl beyond ↦ rw (beyond, advance_at) refl
  | inr (t, there) ↦ rw (there, advance_at) (length-set threads i (advance t s).1)
]

length-run_schedule :
    (schedule : List ℕ) (s : OriginState) (threads : List Thread)
    → length (run_schedule (s, threads) schedule).1 ≡ length threads
unfolding run_schedule
length-run_schedule [] s threads = refl
length-run_schedule (i ∷ schedule) s threads =
    let after = advance_at (s, threads) i in
    length-run_schedule schedule after.0 after.1 ∙ length-advance_at s threads i

All-of_get_elem? :
    {A : Type 0} (P : A → Type 0) (xs : List A)
    → ((i : ℕ) (x : A) → get_elem? xs i ≡ some x → P x)
    → All P xs
All-of_get_elem? P [] h = tt
All-of_get_elem? P (x ∷ xs) h = (h zero x refl, All-of_get_elem? P xs (λ i. h (suc i)))

run_schedule-AreFinished :
    (s : OriginState) (threads : List Thread) (schedule : List ℕ)
    → ((i : ℕ) → i < length threads → 4 ≤ turns i schedule)
    → AreFinished (run_schedule (s, threads) schedule).1
run_schedule-AreFinished s threads schedule fair =
    All-of_get_elem? (λ t. t ≡ finished) (run_schedule (s, threads) schedule).1
      (λ i x at.
        let below : i < length threads = omega (
          arith,
          get_elem?-lt (run_schedule (s, threads) schedule).1 i x at,
          length-run_schedule schedule s threads,
        ) in
        let (t, before) = get_elem?_total threads i below in
        let (next, there, left) = turns_left schedule s threads i t before in
        let same : next ≡ x = ground (arith, there, at) in
        none_left-finished x
          (rw (← same) (omega (arith, left, operations_left-le t, fair i below))))

-- Whatever the order in which the operations of several threads interleave, if each thread is given
-- at least four turns, all threads are finished in the end, and the totals have grown, up to
-- wrapping, by exactly the failures and the requests that the threads had still to add.
pub run_schedule_totals :
    (s : OriginState) (threads : List Thread) (schedule : List ℕ)
    → ((i : ℕ) → i < length threads → 4 ≤ turns i schedule)
    → AreFinished (run_schedule (s, threads) schedule).1
      × ((run_schedule (s, threads) schedule).0.total_failures % 2 ^ 64
          ≡ (s.total_failures + sum failures_due threads) % 2 ^ 64)
      × ((run_schedule (s, threads) schedule).0.total_requests % 2 ^ 64
          ≡ (s.total_requests + sum requests_due threads) % 2 ^ 64)
run_schedule_totals s threads schedule fair =
    let done = run_schedule-AreFinished s threads schedule fair in
    let (failures, requests) = finished_totals s threads schedule done in (done, failures, requests)
