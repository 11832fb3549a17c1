-- ===== src/RateLimit/Bound.antt =====
-- How many requests a bucket lets through over time (src/middleware/ratelimit.rs).
use upstreamer.Common.{
  ℕ, suc, ◌+◌, ◌-◌, ◌≤◌, ◌≡◌, ap, sym, ◌∙◌, arith, Bool, true, false, List, [], ◌∷◌, inl, inr,
  Bool-cases, subst,
}
use upstreamer.External.{F64Ops, ExactLaws, nought, one, ◌≼◌}
use upstreamer.RateLimit.{TokenBucket, Instant, new_bucket, refilled, try_consume}
use upstreamer.RateLimit.Bucket.{
  IsBucket, try_consume-IsBucket, new_bucket-IsBucket, answers, bucket_after,
}

abbrev pub count_true : List Bool → ℕ
count_true [] = 0
count_true (true ∷ bs) = suc (count_true bs)
count_true (false ∷ bs) = count_true bs

-- The clock does not run backwards: each instant is at least the one before it.
abbrev pub IsClock : Instant → List Instant → Type 0
IsClock start [] = Unit
IsClock start (now ∷ later) = (start ≤ now) × IsClock now later

abbrev pub last_instant : Instant → List Instant → Instant
last_instant start [] = start
last_instant start (now ∷ later) = last_instant now later

clock-le : (start : Instant) (ts : List Instant) → IsClock start ts → start ≤ last_instant start ts
clock-le start [] h = omega arith
clock-le start (now ∷ later) (here, h) = omega (arith, clock-le now later h)

module _ {F : Type 0} ⦃f : F64Ops F⦄ (laws : ExactLaws F) where
  open laws use {
    tokens, le_refl, le_trans, of_nat_mono, add-nought, min-le_left, refill_none, refill_nonneg,
    le-add, add_comm, add_assoc, add_mono, sub-add, of_nat-suc, refill-add,
  }

  -- The tokens that a rate brings in a time.
  abbrev pub earned : ℕ → ℕ → F
  earned rate t = f.mul (f.secs t) (f.of_nat rate)

  swap_right : (x y z : F) → f.add (f.add x y) z ≡ f.add (f.add x z) y
  swap_right x y z = add_assoc x y z ∙ ap (f.add x) (add_comm y z) ∙ sym (add_assoc x z y)

  -- One request: what it takes and what is left is no more than what was there and what came in.
  consume_budget :
      (rate burst : ℕ) (b : TokenBucket F) (now : Instant)
      → IsBucket rate burst b
      → f.add (f.of_nat (count_true ((try_consume b now).1 ∷ []))) (try_consume b now).0.tokens
        ≼ f.add b.tokens (earned rate (now - b.last_refill))
  unfolding try_consume
  consume_budget rate burst b now h =
      let came : refilled b now ≼ f.add b.tokens (earned rate (now - b.last_refill)) =
        subst (λ r. refilled b now ≼ f.add b.tokens (f.mul (f.secs (now - b.last_refill)) r))
          h.rate_is (min-le_left _ _) in
      elim (Bool-cases (f.le one (refilled b now))) [
        | inl pass ↦
            rw (pass, try_consume)
              (rw (add_comm one (f.sub (refilled b now) one), sub-add (refilled b now) pass) came)
        | inr deny ↦
            rw (deny, try_consume)
              (rw (add_comm nought (refilled b now), add-nought (refilled b now)) came)
      ]

  last_refill-try_consume :
      (b : TokenBucket F) (now : Instant) → (try_consume b now).0.last_refill ≡ now
  unfolding try_consume
  last_refill-try_consume b now = ground arith

  count_split :
      (a : Bool) (bs : List Bool)
      → f.of_nat (count_true (a ∷ bs))
        ≡ f.add (f.of_nat (count_true bs)) (f.of_nat (count_true (a ∷ [])))
  count_split true bs = of_nat-suc (count_true bs)
  count_split false bs = sym (add-nought (f.of_nat (count_true bs)))

  -- Two requests' budgets together.
  join :
      (r a e t t' i j : F)
      → f.add r e ≼ f.add t' j
      → f.add a t' ≼ f.add t i
      → f.add (f.add r a) e ≼ f.add t (f.add i j)
  join r a e t t' i j later now =
      let moved : f.add (f.add r a) e ≼ f.add (f.add t' a) j =
        rw (swap_right r a e, ← swap_right t' j a) (add_mono _ _ a later) in
      let fed : f.add (f.add t' a) j ≼ f.add (f.add t i) j =
        add_mono _ _ j (rw (add_comm t' a) now) in
      subst (λ x. f.add (f.add r a) e ≼ x) (add_assoc t i j) (le_trans _ _ _ moved fed)

  budget :
      (rate burst : ℕ) (b : TokenBucket F) (ts : List Instant)
      → IsBucket rate burst b
      → IsClock b.last_refill ts
      → f.add (f.of_nat (count_true (answers b ts))) (bucket_after b ts).tokens
        ≼ f.add b.tokens (earned rate (last_instant b.last_refill ts - b.last_refill))
  unfolding answers bucket_after
  budget rate burst b [] h c =
      rw (add_comm (f.of_nat 0) b.tokens, add-nought b.tokens)
        (le-add b.tokens _ (refill_nonneg (b.last_refill - b.last_refill) rate))
  budget rate burst b (now ∷ later) h (here, c) =
      let step = try_consume b now in
      let stamp : step.0.last_refill ≡ now = last_refill-try_consume b now in
      let rest = answers step.0 later in
      let end = (bucket_after step.0 later).tokens in
      let after : f.add (f.of_nat (count_true rest)) end
          ≼ f.add step.0.tokens (earned rate (last_instant now later - now)) =
        subst
          (λ t.
            f.add (f.of_nat (count_true rest)) end
            ≼ f.add step.0.tokens (earned rate (last_instant t later - t)))
          stamp
          (budget rate burst step.0 later (try_consume-IsBucket tokens rate burst b now h)
            (subst (λ t. IsClock t later) (sym stamp) c)) in
      let both =
        join (f.of_nat (count_true rest)) (f.of_nat (count_true (step.1 ∷ []))) end b.tokens
          step.0.tokens (earned rate (now - b.last_refill))
          (earned rate (last_instant now later - now)) after (consume_budget rate burst b now h) in
      let span : (now - b.last_refill) + (last_instant now later - now)
          ≡ last_instant now later - b.last_refill =
        omega (arith, clock-le now later c) in
      let gained =
        refill-add (now - b.last_refill) (last_instant now later - now) rate
        ∙ ap (earned rate) span in
      subst
        (λ x. f.add x end ≼ f.add b.tokens (earned rate (last_instant now later - b.last_refill)))
        (sym (count_split step.1 rest))
        (subst
          (λ x.
            f.add (f.add (f.of_nat (count_true rest)) (f.of_nat (count_true (step.1 ∷ [])))) end
            ≼ f.add b.tokens x)
          gained both)

  bucket_after-IsBucket :
      (rate burst : ℕ) (b : TokenBucket F) (ts : List Instant)
      → IsBucket rate burst b
      → IsBucket rate burst (bucket_after b ts)
  unfolding bucket_after
  bucket_after-IsBucket rate burst b [] h = h
  bucket_after-IsBucket rate burst b (now ∷ later) h =
      bucket_after-IsBucket rate burst (try_consume b now).0 later
        (try_consume-IsBucket tokens rate burst b now h)

  -- In arithmetic without rounding, and with a clock that does not run backwards: over any stretch
  -- of time, a new bucket lets through at most its burst and what the rate brings in that time.
  pub answers-le_budget :
      (rate burst : ℕ) (start : Instant) (ts : List Instant)
      → IsClock start ts
      → f.of_nat (count_true (answers {F = F} (new_bucket rate burst start) ts))
        ≼ f.add (f.of_nat burst) (earned rate (last_instant start ts - start))
  answers-le_budget rate burst start ts c =
      let fresh = new_bucket-IsBucket tokens rate burst start in
      let b : TokenBucket F = new_bucket rate burst start in
      le_trans _ _ _ (le-add _ _ (bucket_after-IsBucket rate burst b ts fresh).nonneg)
        (unfold new_bucket in budget rate burst b ts fresh c)
