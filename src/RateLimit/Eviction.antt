-- ===== src/RateLimit/Eviction.antt =====
-- Dropping idle buckets (src/middleware/ratelimit.rs, and the clean-up task of
-- src/bin/upstreamer/main.rs).
use native.Mathlib.Decide.{dec_le}
use upstreamer.Common.{
  ℕ, ◌-◌, ◌≤◌, ◌≡◌, ◌⊎◌, refl, ap, sym, ◌∙◌, arith, none, some, inl, inr, Option-cases,
}
use upstreamer.Common.Table.{get}
use upstreamer.External.{F64Ops, TokenLaws, IpAddr, ip_eq, nought, one, ◌≼◌}
use upstreamer.Config.{Duration}
use upstreamer.RateLimit.{
  TokenBucket, RateLimiter, Instant, new_bucket, refilled, try_consume, check, cleanup_stale,
}
use upstreamer.RateLimit.Bucket.{IsBucket}
use upstreamer.RateLimit.Limiter.{
  IsLimiter, check_lem, bucket_of, cleanup_stale_lem, get-cleanup_stale_missing,
  get-cleanup_stale_stale,
}

module _ {F : Type 0} ⦃f : F64Ops F⦄ (laws : TokenLaws F) where
  open laws use {
    ordered.{le_refl, le_trans, of_nat_mono, add-nought},
    min_of_le,
    min_of_ge,
    le-add_left,
    refill_mono,
    refill_none,
    refill_nonneg,
  }

  -- The answer is decided by the tokens after the refill.
  answer-try_consume :
      (b : TokenBucket F) (now : Instant) → (try_consume b now).1 ≡ f.le one (refilled b now)
  unfolding try_consume
  answer-try_consume b now = ground arith

  refilled-new_bucket :
      (rate burst : ℕ) (now : Instant) → refilled (new_bucket rate burst now) now ≡ f.of_nat burst
  unfolding new_bucket
  refilled-new_bucket rate burst now =
      let still : now - now ≡ 0 = omega arith in
      let none_added : f.mul (f.secs (now - now)) (f.of_nat rate) ≡ nought =
        ap (λ s. f.mul (f.secs s) (f.of_nat rate)) still ∙ refill_none rate in
      ap (λ x. f.min (f.add (f.of_nat burst) x) (f.of_nat burst)) none_added
      ∙ ap (λ x. f.min x (f.of_nat burst)) (add-nought (f.of_nat burst))
      ∙ min_of_le (f.of_nat burst) (f.of_nat burst) (le_refl (f.of_nat burst))

  -- A bucket idle for long enough is full again.
  refilled_idle :
      (rate burst : ℕ) (b : TokenBucket F) (idle : Duration) (now : Instant)
      → IsBucket rate burst b
      → f.of_nat burst ≼ f.mul (f.secs idle) (f.of_nat rate)
      → idle ≤ now - b.last_refill
      → refilled b now ≡ f.of_nat burst
  refilled_idle rate burst b idle now h enough long =
      let gain = f.mul (f.secs (now - b.last_refill)) (f.of_nat rate) in
      let full : f.of_nat burst ≼ f.add b.tokens gain =
        le_trans (f.of_nat burst) gain (f.add b.tokens gain)
          (le_trans (f.of_nat burst) (f.mul (f.secs idle) (f.of_nat rate)) gain enough
            (refill_mono idle (now - b.last_refill) rate long))
          (le-add_left b.tokens gain h.nonneg) in
      ap (λ r. f.min (f.add b.tokens (f.mul (f.secs (now - b.last_refill)) r)) b.max_tokens)
        h.rate_is
      ∙ ap (f.min (f.add b.tokens gain)) h.max_is
      ∙ min_of_ge (f.add b.tokens gain) (f.of_nat burst) full

  -- Under the laws of token counts: if the rate fills a bucket of a well-formed limiter in
  -- `max_idle`, a clean-up changes no later answer: a request gets the answer that it would get
  -- without the clean-up.
  pub check-cleanup_stale :
      (l : RateLimiter F) (max_idle : Duration) (cleaned now : Instant) (ip : IpAddr)
      → IsLimiter l
      → f.of_nat l.burst ≼ f.mul (f.secs max_idle) (f.of_nat l.rate)
      → cleaned ≤ now
      → (check (cleanup_stale l max_idle cleaned) ip now).1 ≡ (check l ip now).1
  unfolding cleanup_stale
  check-cleanup_stale l max_idle cleaned now ip h enough order =
      (check_lem (cleanup_stale l max_idle cleaned) ip now).0
      ∙ same (Option-cases (get l.buckets ip))
      ∙ sym (check_lem l ip now).0
    where
      after : RateLimiter F
      after = cleanup_stale l max_idle cleaned

      same :
          ((get l.buckets ip ≡ none) ⊎ ((b : TokenBucket F) × (get l.buckets ip ≡ some b)))
          → (try_consume (bucket_of after ip now) now).1 ≡ (try_consume (bucket_of l ip now) now).1
      same (inl missing) =
          rw (get-cleanup_stale_missing l max_idle cleaned ip h missing, missing) refl
      same (inr (b, there)) = elim (dec_le (cleaned - b.last_used) max_idle) [
        | yes fresh ↦
            rw ((cleanup_stale_lem l max_idle cleaned ip b h).1 (there, fresh), there) refl
        | no stale ↦
            let fits = h.bounded ip b there in
            let long : max_idle ≤ now - b.last_refill = omega (arith, fits.used_is) in
            rw (get-cleanup_stale_stale l max_idle cleaned ip b h there (omega arith), there)
              (answer-try_consume (new_bucket l.rate l.burst now) now
                ∙ ap (f.le one) (
                    refilled-new_bucket l.rate l.burst now
                    ∙ sym (refilled_idle l.rate l.burst b max_idle now fits enough long))
                ∙ sym (answer-try_consume b now))
      ]
