-- ===== src/RateLimit/Limiter.antt =====
-- The limiter and its table of buckets (src/middleware/ratelimit.rs).
use mathlib.Core.Option
use upstreamer.Common.{
  ◌↔◌, ℕ, ◌-◌, ◌≤◌, ◌<◌, ◌≡◌, ◌≢◌, refl, arith, not, none, some, inl, inr, Bool-cases, Option-cases,
  subst, ◌==◌,
}
use upstreamer.Common.Table.{
  get, retain, get-insert, get-retain, IsTable, insert-IsTable, retain-IsTable,
}
use upstreamer.External.{F64Ops, TokenLaws, IpAddr, ip_eq, ip_beq_iff}
use upstreamer.Config.{Duration}
use upstreamer.RateLimit.{
  TokenBucket, RateLimiter, Instant, new_limiter, bucket_or_new, try_consume, check, is_stale,
  cleanup_stale,
}
use upstreamer.RateLimit.Bucket.{IsBucket, try_consume-IsBucket, new_bucket-IsBucket}

module _ {F : Type 0} ⦃f : F64Ops F⦄ where
  -- One bucket for an address, and each within the limiter's bounds.
  pub record IsLimiter (l : RateLimiter F) : Type 0 where
    pub table : IsTable l.buckets
    pub bounded :
        (ip : IpAddr) (b : TokenBucket F) → get l.buckets ip ≡ some b → IsBucket l.rate l.burst b

  -- The bucket that an address would be served from.
  abbrev pub bucket_of : RateLimiter F → IpAddr → Instant → TokenBucket F
  bucket_of l ip now = bucket_or_new l now (get l.buckets ip)

  -- `check` serves an address from its own bucket, a full one if it has none, stores that bucket,
  -- and leaves every other address's bucket alone.
  pub check_lem :
      (l : RateLimiter F) (ip : IpAddr) (now : Instant)
      → ((check l ip now).1 ≡ (try_consume (bucket_of l ip now) now).1)
        × (get (check l ip now).0.buckets ip ≡ some (try_consume (bucket_of l ip now) now).0)
        × ((other : IpAddr)
            → ip ≢ other
            → get (check l ip now).0.buckets other ≡ get l.buckets other)
        × ((check l ip now).0.rate ≡ l.rate)
        × ((check l ip now).0.burst ≡ l.burst)
  unfolding check
  check_lem l ip now =
      let b = (try_consume (bucket_of l ip now) now).0 in
      (
        refl,
        ground (arith, get-insert l.buckets ip ip b, ip_beq_iff ip ip),
        λ other ne. ground (arith, get-insert l.buckets ip other b, ip_beq_iff ip other),
        refl,
        refl,
      )

  module _ (laws : TokenLaws F) where
    pub bucket_of-IsBucket :
        (l : RateLimiter F) (ip : IpAddr) (now : Instant)
        → IsLimiter l
        → IsBucket l.rate l.burst (bucket_of l ip now)
    bucket_of-IsBucket l ip now h = elim (Option-cases (get l.buckets ip)) [
      | inl missing ↦ rw missing (new_bucket-IsBucket laws l.rate l.burst now)
      | inr (b, there) ↦ rw there (h.bounded ip b there)
    ]

    -- Under the laws of token counts, `check` keeps a limiter well formed: one bucket for an
    -- address, and each with the limiter's rate and burst and a number of tokens between none and
    -- the burst.
    pub check-IsLimiter :
        (l : RateLimiter F) (ip : IpAddr) (now : Instant)
        → IsLimiter l
        → IsLimiter (check l ip now).0
    unfolding check
    check-IsLimiter l ip now h =
        let b = (try_consume (bucket_of l ip now) now).0 in
        let fits =
          try_consume-IsBucket laws l.rate l.burst (bucket_of l ip now) now
            (bucket_of-IsBucket l ip now h) in
        record {
          table = insert-IsTable l.buckets ip b h.table;
          bounded = λ other c at. elim (Bool-cases (ip == other)) [
            | inl same ↦
                subst (IsBucket l.rate l.burst)
                  (Option.some-injective b c (ground (arith, get-insert l.buckets ip other b))) fits
            | inr apart ↦ h.bounded other c (ground (arith, get-insert l.buckets ip other b))
          ];
        }

  pub new_limiter-IsLimiter : (rate burst : ℕ) → IsLimiter (new_limiter rate burst)
  unfolding new_limiter get
  new_limiter-IsLimiter rate burst = record { table = tt; bounded = λ ip b e. cc }

  pub cleanup_stale-IsLimiter :
      (l : RateLimiter F) (max_idle : Duration) (now : Instant)
      → IsLimiter l
      → IsLimiter (cleanup_stale l max_idle now)
  unfolding cleanup_stale
  cleanup_stale-IsLimiter l max_idle now h = record {
    table = retain-IsTable (λ _ b. not (is_stale b max_idle now)) l.buckets h.table;
    bounded = λ ip b at. h.bounded ip b (kept_there ip b at);
  }
    where
      kept_there :
          (ip : IpAddr) (b : TokenBucket F)
          → get (retain (λ _ b. not (is_stale b max_idle now)) l.buckets) ip ≡ some b
          → get l.buckets ip ≡ some b
      kept_there ip b at =
          ground (arith, get-retain (λ _ b. not (is_stale b max_idle now)) l.buckets ip h.table)

  -- Of a well-formed limiter, a clean-up keeps exactly the buckets that were last used no more than
  -- `max_idle` ago, as they are.
  pub cleanup_stale_lem :
      (l : RateLimiter F) (max_idle : Duration) (now : Instant) (ip : IpAddr) (b : TokenBucket F)
      → IsLimiter l
      → (get (cleanup_stale l max_idle now).buckets ip ≡ some b)
        ↔ ((get l.buckets ip ≡ some b) × (now - b.last_used ≤ max_idle))
  unfolding cleanup_stale
  cleanup_stale_lem l max_idle now ip b h =
      ground (arith, get-retain (λ _ b. not (is_stale b max_idle now)) l.buckets ip h.table)

  pub get-cleanup_stale_missing :
      (l : RateLimiter F) (max_idle : Duration) (now : Instant) (ip : IpAddr)
      → IsLimiter l
      → get l.buckets ip ≡ none
      → get (cleanup_stale l max_idle now).buckets ip ≡ none
  unfolding cleanup_stale
  get-cleanup_stale_missing l max_idle now ip h missing =
      ground (arith, get-retain (λ _ b. not (is_stale b max_idle now)) l.buckets ip h.table)

  pub get-cleanup_stale_stale :
      (l : RateLimiter F) (max_idle : Duration) (now : Instant) (ip : IpAddr) (b : TokenBucket F)
      → IsLimiter l
      → get l.buckets ip ≡ some b
      → max_idle < now - b.last_used
      → get (cleanup_stale l max_idle now).buckets ip ≡ none
  unfolding cleanup_stale
  get-cleanup_stale_stale l max_idle now ip b h there stale =
      ground (arith, get-retain (λ _ b. not (is_stale b max_idle now)) l.buckets ip h.table)
