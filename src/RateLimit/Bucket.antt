-- ===== src/RateLimit/Bucket.antt =====
-- Token buckets over rows of requests (src/middleware/ratelimit.rs).
use mathlib.Core.Path.{ap₂}
use upstreamer.Common.{
  ℕ, zero, suc, ◌-◌, ◌^◌, ◌≤◌, ◌<◌, ◌≡◌, refl, ap, sym, ◌∙◌, arith, Bool, true, false, List, [],
  ◌∷◌, ◌++◌, replicate, inl, inr, Bool-cases,
}
use upstreamer.External.{F64Ops, TokenLaws, nought, one, ◌≼◌}
use upstreamer.RateLimit.{TokenBucket, Instant, new_bucket, refilled, try_consume}

module _ {F : Type 0} ⦃f : F64Ops F⦄ where
  -- The answers to a row of requests, and the bucket after them.
  unfoldable pub answers : TokenBucket F → List Instant → List Bool
  answers b [] = []
  answers b (now ∷ later) =
      let (after, allowed) = try_consume b now in allowed ∷ answers after later

  unfoldable pub bucket_after : TokenBucket F → List Instant → TokenBucket F
  bucket_after b [] = b
  bucket_after b (now ∷ later) = bucket_after (try_consume b now).0 later

  -- A bucket for the configured numbers, its tokens between none and the burst.
  pub record IsBucket (rate burst : ℕ) (b : TokenBucket F) : Type 0 where
    pub nonneg : nought ≼ b.tokens
    pub capped : b.tokens ≼ b.max_tokens
    pub max_is : b.max_tokens ≡ f.of_nat burst
    pub rate_is : b.refill_rate ≡ f.of_nat rate
    pub used_is : b.last_used ≡ b.last_refill

  module _ (laws : TokenLaws F) where
    open laws use {
      ordered.{le_refl, le_trans, lt-eq-not-le, le_total, of_nat_mono, add-nought},
      min-le_left,
      min-le_right,
      min_of_le,
      min_greatest,
      le-add,
      sub-le,
      sub_nonneg,
      refill_nonneg,
      refill_none,
      sub-of_nat,
      one-not-le-nought,
    }

    pub new_bucket-IsBucket :
        (rate burst : ℕ) (now : Instant) → IsBucket rate burst (new_bucket rate burst now)
    unfolding new_bucket
    new_bucket-IsBucket rate burst now = record {
      nonneg = of_nat_mono 0 burst (omega arith);
      capped = le_refl (f.of_nat burst);
      max_is = refl;
      rate_is = refl;
      used_is = refl;
    }

    refilled-nonneg :
        (rate burst : ℕ) (b : TokenBucket F) (now : Instant)
        → IsBucket rate burst b
        → nought ≼ refilled b now
    refilled-nonneg rate burst b now h =
        let more : nought ≼ f.mul (f.secs (now - b.last_refill)) b.refill_rate =
          rw h.rate_is (refill_nonneg (now - b.last_refill) rate) in
        min_greatest _ _ nought (le_trans nought b.tokens _ h.nonneg (le-add b.tokens _ more))
          (rw h.max_is (of_nat_mono 0 burst (omega arith)))

    -- Under the laws of token counts, refilling and consuming keep a bucket's tokens between none
    -- and the burst, and its rate and burst as they are, whatever the clock says.
    pub try_consume-IsBucket :
        (rate burst : ℕ) (b : TokenBucket F) (now : Instant)
        → IsBucket rate burst b
        → IsBucket rate burst (try_consume b now).0
    unfolding try_consume
    try_consume-IsBucket rate burst b now h = elim (Bool-cases (f.le one (refilled b now))) [
      | inl pass ↦
          rw (pass, try_consume)
            (record {
              nonneg = sub_nonneg (refilled b now) pass;
              capped =
                  le_trans (f.sub (refilled b now) one) (refilled b now) b.max_tokens
                    (sub-le (refilled b now)) (min-le_right _ _);
              max_is = h.max_is;
              rate_is = h.rate_is;
              used_is = refl;
            })
      | inr deny ↦
          rw (deny, try_consume)
            (record {
              nonneg = refilled-nonneg rate burst b now h;
              capped = min-le_right _ _;
              max_is = h.max_is;
              rate_is = h.rate_is;
              used_is = refl;
            })
    ]

    -- With a whole number of tokens and no time gone, the refill changes nothing.
    refilled_at_once :
        (rate burst k : ℕ) (b : TokenBucket F)
        → k ≤ burst
        → b.tokens ≡ f.of_nat k
        → b.max_tokens ≡ f.of_nat burst
        → b.refill_rate ≡ f.of_nat rate
        → refilled b b.last_refill ≡ f.of_nat k
    refilled_at_once rate burst k b h t m r =
        let still : b.last_refill - b.last_refill ≡ 0 = omega arith in
        let none_added : f.mul (f.secs (b.last_refill - b.last_refill)) b.refill_rate ≡ nought =
          ap (λ s. f.mul (f.secs s) b.refill_rate) still
          ∙ ap (f.mul (f.secs 0)) r
          ∙ refill_none rate in
        ap (λ x. f.min (f.add b.tokens x) b.max_tokens) none_added
        ∙ ap (λ x. f.min x b.max_tokens) (add-nought b.tokens ∙ t)
        ∙ ap (f.min (f.of_nat k)) m
        ∙ min_of_le (f.of_nat k) (f.of_nat burst) (of_nat_mono k burst h)

    -- A bucket with `k` whole tokens that was refilled last at `now`.
    abbrev HasWhole : ℕ → ℕ → ℕ → Instant → TokenBucket F → Type 0
    HasWhole rate burst k now b =
        (b.tokens ≡ f.of_nat k)
        × (b.max_tokens ≡ f.of_nat burst)
        × (b.refill_rate ≡ f.of_nat rate)
        × (b.last_refill ≡ now)

    consume_whole :
        (rate burst k : ℕ) (now : Instant) (b : TokenBucket F)
        → k < burst
        → burst < 2 ^ 32
        → HasWhole rate burst (suc k) now b
        → ((try_consume b now).1 ≡ true) × HasWhole rate burst k now (try_consume b now).0
    unfolding try_consume
    consume_whole rate burst k now b h fits (t, m, r, l) =
        let full : refilled b now ≡ f.of_nat (suc k) =
          ap (refilled b) (sym l) ∙ refilled_at_once rate burst (suc k) b (omega arith) t m r in
        let pass : f.le one (refilled b now) ≡ true =
          ap (f.le one) full ∙ of_nat_mono 1 (suc k) (omega arith) in
        rw (pass, try_consume)
          (refl, (ap (λ x. f.sub x one) full ∙ sub-of_nat k (omega arith), m, r, refl))

    consume_empty :
        (rate burst : ℕ) (now : Instant) (b : TokenBucket F)
        → HasWhole rate burst 0 now b
        → ((try_consume b now).1 ≡ false) × HasWhole rate burst 0 now (try_consume b now).0
    unfolding try_consume
    consume_empty rate burst now b (t, m, r, l) =
        let bare : refilled b now ≡ nought =
          ap (refilled b) (sym l) ∙ refilled_at_once rate burst 0 b (omega arith) t m r in
        let deny : f.le one (refilled b now) ≡ false = ap (f.le one) bare ∙ one-not-le-nought in
        rw (deny, try_consume) (refl, (bare, m, r, refl))

    row_denied :
        (rate burst m : ℕ) (now : Instant) (b : TokenBucket F)
        → HasWhole rate burst 0 now b
        → answers b (replicate m now) ≡ replicate m false
    unfolding answers
    row_denied rate burst zero now b h = refl
    row_denied rate burst (suc m) now b h =
        let (denied, next) = consume_empty rate burst now b h in
        ap₂ ◌∷◌ denied (row_denied rate burst m now (try_consume b now).0 next)

    row :
        (rate burst k m : ℕ) (now : Instant) (b : TokenBucket F)
        → k ≤ burst
        → burst < 2 ^ 32
        → HasWhole rate burst k now b
        → answers b (replicate k now ++ replicate m now) ≡ replicate k true ++ replicate m false
    unfolding answers
    row rate burst zero m now b h fits whole = row_denied rate burst m now b whole
    row rate burst (suc k) m now b h fits whole =
        let (allowed, next) = consume_whole rate burst k now b h fits whole in
        ap₂ ◌∷◌ allowed (row rate burst k m now (try_consume b now).0 (omega arith) fits next)

    -- Under the laws of token counts, of requests at one instant a new bucket lets exactly as many
    -- through as its burst, which is below 2^32, and then none.
    pub answers-new_bucket :
        (rate burst m : ℕ) (now : Instant)
        → burst < 2 ^ 32
        → answers (new_bucket rate burst now) (replicate burst now ++ replicate m now)
          ≡ replicate burst true ++ replicate m false
    unfolding new_bucket
    answers-new_bucket rate burst m now fits =
        row rate burst burst m now (new_bucket rate burst now) (omega arith) fits
          (refl, refl, refl, refl)
