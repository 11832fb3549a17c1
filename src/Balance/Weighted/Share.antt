-- ===== src/Balance/Weighted/Share.antt =====
-- The share that each weight gets of the draws (src/balance/weighted.rs).
use upstreamer.Common.{
  ℕ, zero, suc, ◌+◌, ◌≤◌, ◌≡◌, ◌↔◌, refl, inl, inr, arith, false, some, List, [], ◌∷◌, length,
  get_elem?, All, Bool-cases,
}
use upstreamer.External.{F64Ops, WeightLaws, TokenLaws, nought, ◌≼◌, ◌≺◌}
use upstreamer.Balance.Weighted.{Draw, sum_from, pick, weighted_random_select}
use upstreamer.Balance.Weighted.Select.{IsWeight, IsDraw, weight-nonneg, pick_sound, lt→not-le}

module _ {F : Type 0} ⦃f : F64Ops F⦄ (laws : WeightLaws F) (tokens : TokenLaws F) where
  open laws use {ordered.{le_trans, lt-eq-not-le, le_total}, mul-lt, mul_nonneg}
  open tokens use {le-add}

  -- The sum of the weights before an index, from the left.
  abbrev pub sum_before : F → ℕ → List F → F
  sum_before acc i [] = acc
  sum_before acc zero (w ∷ ws) = acc
  sum_before acc (suc i) (w ∷ ws) = sum_before (f.add acc w) i ws

  le-sum_before :
      (acc : F) (i : ℕ) (ws : List F) → All (IsWeight laws) ws → acc ≼ sum_before acc i ws
  le-sum_before acc i [] h = laws.ordered.le_refl acc
  le-sum_before acc zero (w ∷ ws) h = laws.ordered.le_refl acc
  le-sum_before acc (suc i) (w ∷ ws) (here, h) =
      le_trans acc (f.add acc w) (sum_before (f.add acc w) i ws)
        (le-add acc w (weight-nonneg laws w here)) (le-sum_before (f.add acc w) i ws h)

  pick-le : (random acc : F) (i j : ℕ) (ws : List F) → pick random acc i ws ≡ some j → i ≤ j
  unfolding pick
  pick-le random acc i j [] e = cc
  pick-le random acc i j (w ∷ ws) e = elim (Bool-cases (f.lt random (f.add acc w))) [
    | inl stop ↦ ground (arith, stop, e)
    | inr go ↦
        let later : suc i ≤ j = pick-le random (f.add acc w) (suc i) j ws (rw (go, pick) at e) in
        omega arith
  ]

  pick_share :
      (random acc : F) (i k : ℕ) (w : F) (ws : List F)
      → All (IsWeight laws) ws
      → f.lt random acc ≡ false
      → get_elem? ws k ≡ some w
      → (pick random acc i ws ≡ some (i + k))
        ↔ ((sum_before acc k ws ≼ random) × (random ≺ f.add (sum_before acc k ws) w))
  unfolding pick
  pick_share random acc i k w [] h low there = cc
  pick_share random acc i zero w (v ∷ vs) (here, h) low there =
      elim (Bool-cases (f.lt random (f.add acc v))) [
        | inl stop ↦
            rw (stop, pick)
              (
                λ _. (ground (arith, lt-eq-not-le random acc), ground (arith, there, stop)),
                λ _. ground arith,
              )
        | inr go ↦
            rw (go, pick)
              (
                λ e.
                    let later = pick-le random (f.add acc v) (suc i) (i + 0) vs e in
                    absurd (omega arith),
                λ (_, above). ground (arith, there, go, above),
              )
      ]
  pick_share random acc i (suc k) w (v ∷ vs) (here, h) low there =
      elim (Bool-cases (f.lt random (f.add acc v))) [
        | inl stop ↦
            rw (stop, pick)
              (
                λ e. ground (arith, e),
                λ (below, above).
                    let up =
                      le_trans (f.add acc v) (sum_before (f.add acc v) k vs) random
                        (le-sum_before (f.add acc v) k vs h) below in
                    ground (arith, lt-eq-not-le random (f.add acc v), up, stop),
              )
        | inr go ↦
            let shifted : i + suc k ≡ suc i + k = omega arith in
            rw (go, pick, shifted) (pick_share random (f.add acc v) (suc i) k w vs h go there)
      ]

  -- Under the laws of weights and those of token counts, with weights that are nought or positive
  -- and not all nought, and a draw in the range that `rand` promises: an index is selected exactly
  -- if the drawn fraction of the total is at least the sum of the weights before it, and less than
  -- that sum and its own weight.
  pub weighted_random_select_share :
      (ws : List F) (draw : Draw F) (i : ℕ) (w : F)
      → All (IsWeight laws) ws
      → nought ≺ sum_from nought ws
      → IsDraw laws (length ws) draw
      → get_elem? ws i ≡ some w
      → (weighted_random_select ws draw ≡ i) ↔ (
          (sum_before nought i ws ≼ f.mul draw.unit (sum_from nought ws))
          × (f.mul draw.unit (sum_from nought ws) ≺ f.add (sum_before nought i ws) w))
  unfolding weighted_random_select
  weighted_random_select_share ws draw i w h pos d there =
      let total = sum_from nought ws in
      let random = f.mul draw.unit total in
      let low : f.lt random nought ≡ false =
        ground (arith, lt-eq-not-le random nought, mul_nonneg draw.unit total d.nonneg pos) in
      let high = mul-lt draw.unit total d.below_one pos in
      let share = pick_share random nought 0 i w ws h low there in
      elim (pick_sound laws random nought 0 ws h low) [
        | inl (j, k, v, e, at, here, ok) ↦
            let selected : weighted_random_select ws draw ≡ j =
              rw (weighted_random_select, lt→not-le laws nought total pos, e) refl in
            (
              λ same. share.0 (ground (arith, e, selected, same)),
              λ r. ground (arith, e, selected, share.1 r),
            )
        | inr (e, below) ↦ absurd (cc (below, high))
      ]
