-- ===== src/Balance/Atomics/Interleaved.antt =====
-- What several threads at one state come to, in any order of their operations (src/balance/mod.rs).
use upstreamer.Common.{
  ℕ, zero, suc, ◌+◌, ◌%◌, ◌^◌, ◌≡◌, refl, ap, ◌∙◌, arith, some, List, [], ◌∷◌, get_elem?, set, All,
  inl, inr, Option-cases,
}
use upstreamer.Balance.{
  OriginState, record_success_with_threshold, record_failure_with_threshold, increment_requests,
}
use upstreamer.Balance.Atomics.{
  Thread, adds_success, clears_failures, judges_successes, adds_failure, clears_successes,
  adds_total_failure, judges_failures, adds_request, finished, advance, Shared, advance_at,
  run_schedule, run_alone,
}

-- Alone at a state, the operations of a thread come to the update that they are made of.
pub run_alone_lem :
    (s : OriginState) (threshold : ℕ)
    → (run_alone 3 (adds_success threshold) s
        ≡ (record_success_with_threshold s threshold, finished))
      × (run_alone 4 (adds_failure threshold) s
          ≡ (record_failure_with_threshold s threshold, finished))
      × (run_alone 1 adds_request s ≡ (increment_requests s, finished))
unfolding run_alone advance record_success_with_threshold record_failure_with_threshold
    increment_requests
run_alone_lem s threshold = (refl, refl, refl)

-- The sum over the threads.
unfoldable pub sum : (Thread → ℕ) → List Thread → ℕ
sum f [] = 0
sum f (t ∷ ts) = f t + sum f ts

-- The share of one thread in the sum.
pub sum-set :
    (f : Thread → ℕ) (ts : List Thread) (i : ℕ) (t next : Thread)
    → get_elem? ts i ≡ some t
    → (rest : ℕ) × (sum f ts ≡ rest + f t) × (sum f (set ts i next) ≡ rest + f next)
unfolding sum
sum-set f [] i t next at = cc
sum-set f (x ∷ ts) zero t next at = (sum f ts, ground arith, omega arith)
sum-set f (x ∷ ts) (suc i) t next at =
    let (rest, before, after) = sum-set f ts i t next at in
    (f x + rest, omega (arith, before), omega (arith, after))

-- A step of a schedule keeps what every operation keeps.
module _ (P : Shared → Type 0)
    (keeps : (s : OriginState) (threads : List Thread) (i : ℕ) (t : Thread)
      → get_elem? threads i ≡ some t
      → P (s, threads)
      → P ((advance t s).0, set threads i (advance t s).1)) where
  advance_at-keeps : (shared : Shared) (i : ℕ) → P shared → P (advance_at shared i)
  unfolding advance_at
  advance_at-keeps (s, threads) i h = elim (Option-cases (get_elem? threads i)) [
    | inl beyond ↦ rw (beyond, advance_at) h
    | inr (t, there) ↦ rw (there, advance_at) (keeps s threads i t there h)
  ]

  pub run_schedule-keeps :
      (shared : Shared) (schedule : List ℕ) → P shared → P (run_schedule shared schedule)
  unfolding run_schedule
  run_schedule-keeps shared [] h = h
  run_schedule-keeps shared (i ∷ schedule) h =
      run_schedule-keeps (advance_at shared i) schedule (advance_at-keeps shared i h)

-- The failures that a thread has still to add to the total, and its requests.
unfoldable pub failures_due : Thread → ℕ
failures_due (adds_failure threshold) = 1
failures_due (clears_successes threshold failures) = 1
failures_due (adds_total_failure threshold failures) = 1
failures_due _ = 0

unfoldable pub requests_due : Thread → ℕ
requests_due adds_request = 1
requests_due _ = 0

advance-failures_due :
    (t : Thread) (s : OriginState) (rest : ℕ)
    → ((advance t s).0.total_failures + (rest + failures_due (advance t s).1)) % 2 ^ 64
      ≡ (s.total_failures + (rest + failures_due t)) % 2 ^ 64
unfolding advance failures_due
advance-failures_due (adds_success threshold) s rest = refl
advance-failures_due (clears_failures threshold n) s rest = refl
advance-failures_due (judges_successes threshold n) s rest = refl
advance-failures_due (adds_failure threshold) s rest = refl
advance-failures_due (clears_successes threshold n) s rest = refl
advance-failures_due (adds_total_failure threshold n) s rest = omega arith
advance-failures_due (judges_failures threshold n) s rest = refl
advance-failures_due adds_request s rest = refl
advance-failures_due finished s rest = refl

advance-requests_due :
    (t : Thread) (s : OriginState) (rest : ℕ)
    → ((advance t s).0.total_requests + (rest + requests_due (advance t s).1)) % 2 ^ 64
      ≡ (s.total_requests + (rest + requests_due t)) % 2 ^ 64
unfolding advance requests_due
advance-requests_due (adds_success threshold) s rest = refl
advance-requests_due (clears_failures threshold n) s rest = refl
advance-requests_due (judges_successes threshold n) s rest = refl
advance-requests_due (adds_failure threshold) s rest = refl
advance-requests_due (clears_successes threshold n) s rest = refl
advance-requests_due (adds_total_failure threshold n) s rest = refl
advance-requests_due (judges_failures threshold n) s rest = refl
advance-requests_due adds_request s rest = omega arith
advance-requests_due finished s rest = refl

-- What the totals come to when the threads are done with them.
abbrev pub Totals : ℕ → ℕ → Shared → Type 0
Totals failures requests (s, threads) =
    ((s.total_failures + sum failures_due threads) % 2 ^ 64 ≡ failures)
    × ((s.total_requests + sum requests_due threads) % 2 ^ 64 ≡ requests)

advance-Totals :
    (failures requests : ℕ) (s : OriginState) (threads : List Thread) (i : ℕ) (t : Thread)
    → get_elem? threads i ≡ some t
    → Totals failures requests (s, threads)
    → Totals failures requests ((advance t s).0, set threads i (advance t s).1)
advance-Totals failures requests s threads i t at (f, r) =
    let (rest, before, after) = sum-set failures_due threads i t (advance t s).1 at in
    let (rest', before', after') = sum-set requests_due threads i t (advance t s).1 at in
    (
      rw after (advance-failures_due t s rest ∙ rw (← before) f),
      rw after' (advance-requests_due t s rest' ∙ rw (← before') r),
    )

abbrev pub AreFinished : List Thread → Type 0
AreFinished threads = All (λ t. t ≡ finished) threads

sum-finished : (f : Thread → ℕ) (ts : List Thread) → f finished ≡ 0 → AreFinished ts → sum f ts ≡ 0
unfolding sum
sum-finished f [] none_due h = refl
sum-finished f (t ∷ ts) none_due (e, h) =
    rw (e, none_due) (omega (arith, sum-finished f ts none_due h))

-- Once all threads are finished the totals have grown by what was due.
pub finished_totals :
    (s : OriginState) (threads : List Thread) (schedule : List ℕ)
    → AreFinished (run_schedule (s, threads) schedule).1
    → ((run_schedule (s, threads) schedule).0.total_failures % 2 ^ 64
        ≡ (s.total_failures + sum failures_due threads) % 2 ^ 64)
      × ((run_schedule (s, threads) schedule).0.total_requests % 2 ^ 64
          ≡ (s.total_requests + sum requests_due threads) % 2 ^ 64)
unfolding failures_due requests_due
finished_totals s threads schedule done =
    let (f, r) =
      run_schedule-keeps (Totals _ _) (advance-Totals _ _) (s, threads) schedule (refl, refl) in
    let after = (run_schedule (s, threads) schedule).1 in
    let no_failure = sum-finished failures_due after refl done in
    let no_request = sum-finished requests_due after refl done in
    (
      ap (λ n. n % 2 ^ 64) (omega (arith, no_failure)) ∙ f,
      ap (λ n. n % 2 ^ 64) (omega (arith, no_request)) ∙ r,
    )
