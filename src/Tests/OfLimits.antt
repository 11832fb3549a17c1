-- ===== src/Tests/OfLimits.antt =====
-- Examples of rate limiting, over fixed-point numbers.
use upstreamer.Common.{ℕ, ◌-◌, ◌≡◌, refl, arith, List, [], ◌∷◌}
use upstreamer.External.{ip_eq, ◌≼◌}
use upstreamer.External.Fixed.{fixed, Fixed-TokenLaws, Fixed-ExactLaws}
use upstreamer.RateLimit.{
  RateLimiter, TokenBucket, new_limiter, new_bucket, try_consume, check, cleanup_stale,
}
use upstreamer.RateLimit.Bucket.{IsBucket, new_bucket-IsBucket, answers}
use upstreamer.RateLimit.Bound.{count_true, last_instant, earned, answers-le_budget}
use upstreamer.RateLimit.Limiter.{IsLimiter, new_limiter-IsLimiter, check-IsLimiter}
use upstreamer.RateLimit.Eviction.{check-cleanup_stale}
use upstreamer.Tests.{here}

abbrev full : TokenBucket ℕ
full = new_bucket 2 5 100

full-IsBucket : IsBucket 2 5 full
full-IsBucket = new_bucket-IsBucket Fixed-TokenLaws 2 5 100

abbrev times : List ℕ
times = 100 ∷ 150 ∷ 150 ∷ 4_000_000_000 ∷ []

answers-le_budget_example :
    fixed.of_nat (count_true (answers {F = ℕ} (new_bucket 2 5 100) times))
    ≼ fixed.add (fixed.of_nat 5) (earned Fixed-ExactLaws 2 (last_instant 100 times - 100))
answers-le_budget_example =
    answers-le_budget Fixed-ExactLaws 2 5 100 times
      (omega arith, (omega arith, (omega arith, (omega arith, tt))))

abbrev fresh : RateLimiter ℕ
fresh = new_limiter 2 5

-- A limiter that has served one address.
abbrev used : RateLimiter ℕ
used = (check fresh here 100).0

used-IsLimiter : IsLimiter used
used-IsLimiter = check-IsLimiter Fixed-TokenLaws fresh here 100 (new_limiter-IsLimiter 2 5)

abbrev stored : TokenBucket ℕ
stored = (try_consume (new_bucket 2 5 100) 100).0

enough : fixed.of_nat used.burst ≼ fixed.mul (fixed.secs 300_000_000_000) (fixed.of_nat used.rate)
unfolding check new_limiter
enough = refl

check-cleanup_stale_example :
    (check (cleanup_stale used 300_000_000_000 500_000_000_000) here 600_000_000_000).1
    ≡ (check used here 600_000_000_000).1
check-cleanup_stale_example =
    check-cleanup_stale Fixed-TokenLaws used 300_000_000_000 500_000_000_000 600_000_000_000 here
      used-IsLimiter enough (omega arith)
