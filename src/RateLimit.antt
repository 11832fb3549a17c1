-- ===== src/RateLimit.antt =====
-- The token buckets and the limiters (src/middleware/ratelimit.rs), over `f64` as a parameter.
-- `Instant` is a number of nanoseconds on the monotonic clock; a call that reads the clock more
-- than once is taken to read one value.
pub mod Bucket
pub mod Bound
pub mod Limiter
pub mod Eviction
use upstreamer.Common.{
  ℕ, ◌-◌, ◌≡◌, Bool, true, false, not, Option, none, some, List, [], ◌∷◌, if◌then◌else◌, ltb,
}
use upstreamer.Common.Table.{get, insert, retain}
use upstreamer.External.{F64Ops, IpAddr, ip_eq, one}
use upstreamer.Config.{Duration}

abbrev pub Instant : Type 0
Instant = ℕ

pub record TokenBucket (F : Type 0) : Type 0 where
  pub tokens : F
  pub max_tokens : F
  pub refill_rate : F
  pub last_refill : Instant
  pub last_used : Instant

pub record RateLimiter (F : Type 0) : Type 0 where
  pub buckets : List (IpAddr × TokenBucket F)
  pub rate : ℕ
  pub burst : ℕ

module _ {F : Type 0} where
  -- `RateLimiter::new`
  unfoldable pub new_limiter : ℕ → ℕ → RateLimiter F
  new_limiter rate burst = record { buckets = []; rate = rate; burst = burst }

  -- `TokenBucket::is_stale`
  unfoldable pub is_stale : TokenBucket F → Duration → Instant → Bool
  is_stale b max_idle now = ltb max_idle (now - b.last_used)

  -- `RateLimiter::cleanup_stale`
  unfoldable pub cleanup_stale : RateLimiter F → Duration → Instant → RateLimiter F
  unfolding is_stale
  cleanup_stale l max_idle now = record l {
    buckets = retain (λ _ b. not (is_stale b max_idle now)) l.buckets;
  }

module _ {F : Type 0} ⦃f : F64Ops F⦄ where
  -- `TokenBucket::new`
  unfoldable pub new_bucket : ℕ → ℕ → Instant → TokenBucket F
  new_bucket rate burst now = record {
    tokens = f.of_nat burst;
    max_tokens = f.of_nat burst;
    refill_rate = f.of_nat rate;
    last_refill = now;
    last_used = now;
  }

  -- `duration_since` of an earlier instant is 0 where the clock stands still.
  abbrev pub refilled : TokenBucket F → Instant → F
  refilled b now =
      f.min (f.add b.tokens (f.mul (f.secs (now - b.last_refill)) b.refill_rate)) b.max_tokens

  unfoldable pub try_consume : TokenBucket F → Instant → TokenBucket F × Bool
  try_consume b now =
      let tokens = refilled b now in
      if f.le one tokens
      then (record b { tokens = f.sub tokens one; last_refill = now; last_used = now }, true)
      else (record b { tokens = tokens; last_refill = now; last_used = now }, false)

  -- The bucket of an address, or a new one.
  abbrev pub bucket_or_new : RateLimiter F → Instant → Option (TokenBucket F) → TokenBucket F
  bucket_or_new l now none = new_bucket l.rate l.burst now
  bucket_or_new l now (some b) = b

  -- `RateLimiter::check`: the limiter after it, and whether the request may pass.
  unfoldable pub check : RateLimiter F → IpAddr → Instant → RateLimiter F × Bool
  unfolding try_consume new_bucket
  check l ip now =
      let (b, allowed) = try_consume (bucket_or_new l now (get l.buckets ip)) now in
      (record l { buckets = insert l.buckets ip b }, allowed)
