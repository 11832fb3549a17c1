-- ===== src/Balance/Weighted/Select.antt =====
-- The weighted random selection (src/balance/weighted.rs).
use native.Mathlib.Nat.{zero-add}
use upstreamer.Common.{
  ℕ, suc, ◌+◌, ◌<◌, ◌≡◌, refl, ◌⊎◌, inl, inr, arith, false, none, some, List, [], ◌∷◌, length,
  get_elem?, All, Bool-cases,
}
use upstreamer.External.{F64Ops, WeightLaws, nought, one, ◌≼◌, ◌≺◌}
use upstreamer.Balance.Weighted.{Draw, sum_from, pick, weighted_random_select}

module _ {F : Type 0} ⦃f : F64Ops F⦄ (laws : WeightLaws F) where
  open laws use {
    ordered.{le_refl, le_trans, lt-eq-not-le, le_total, add-nought},
    add_pos_left,
    add_pos_right,
    mul-lt,
    mul_nonneg,
  }

  -- A weight is nought or positive.
  abbrev pub IsWeight : F → Type 0
  IsWeight w = (w ≡ nought) ⊎ (nought ≺ w)

  pub weight-nonneg : (w : F) → IsWeight w → nought ≼ w
  weight-nonneg w (inl e) = rw e (le_refl nought)
  weight-nonneg w (inr h) = elim (Bool-cases (f.le w nought)) [
    | inl low ↦ ground (arith, lt-eq-not-le nought w)
    | inr high ↦ le_total w nought high
  ]

  -- If the loop stops, the weight there is positive; if it does not, the sum is not above `random`.
  pub pick_sound :
      (random cumulative : F) (i : ℕ) (ws : List F)
      → All IsWeight ws
      → f.lt random cumulative ≡ false
      → ((j : ℕ) × (k : ℕ) × (w : F) × (pick random cumulative i ws ≡ some j)
          × (j ≡ i + k)
          × (get_elem? ws k ≡ some w)
          × (nought ≺ w))
        ⊎ ((pick random cumulative i ws ≡ none) × (f.lt random (sum_from cumulative ws) ≡ false))
  unfolding pick sum_from
  pick_sound random cumulative i [] h low = inr (refl, low)
  pick_sound random cumulative i (w ∷ ws) (here, h) low =
      elim (Bool-cases (f.lt random (f.add cumulative w))) [
        | inl stop ↦ elim here [
          | inl zeroed ↦ cc (add-nought cumulative)
          | inr pos ↦ inl (i, 0, w, ground arith, omega arith, refl, pos)
        ]
        | inr go ↦ elim (pick_sound random (f.add cumulative w) (suc i) ws h go) [
          | inl (j, k, v, e, at, there, pos) ↦
              inl (j, suc k, v, ground arith, omega arith, there, pos)
          | inr (e, below) ↦ inr (ground arith, below)
        ]
      ]

  pub lt→not-le : (x y : F) → x ≺ y → f.le y x ≡ false
  lt→not-le x y h = ground (arith, lt-eq-not-le x y)

  sum-pos : (acc : F) (ws : List F) → All IsWeight ws → nought ≺ acc → nought ≺ sum_from acc ws
  unfolding sum_from
  sum-pos acc [] h pos = pos
  sum-pos acc (w ∷ ws) (here, h) pos =
      sum-pos (f.add acc w) ws h (add_pos_left acc w pos (weight-nonneg w here))

  -- The sum is nought if every weight is, and positive otherwise.
  sum_cases :
      (ws : List F)
      → All IsWeight ws
      → (All (λ w. w ≡ nought) ws × (sum_from nought ws ≡ nought)) ⊎ (nought ≺ sum_from nought ws)
  unfolding sum_from
  sum_cases [] h = inl (tt, refl)
  sum_cases (w ∷ ws) (inl e, h) = elim (sum_cases ws h) [
    | inl (zeros, total) ↦ inl ((e, zeros), rw (e, add-nought) total)
    | inr pos ↦ inr (rw (e, add-nought) pos)
  ]
  sum_cases (w ∷ ws) (inr pos, h) =
      inr (sum-pos (f.add nought w) ws h (add_pos_right nought w (le_refl nought) pos))

  -- What `rand` promises of its answers, for a list of `n` weights.
  pub record IsDraw (n : ℕ) (draw : Draw F) : Type 0 where
    pub in_range : draw.index < n
    pub nonneg : nought ≼ draw.unit
    pub below_one : draw.unit ≺ one

  -- Under the laws of weights, with weights that are nought or positive and a draw in the range
  -- that `rand` promises, the index that the selection returns is that of a positive weight, unless
  -- every weight is nought, when it is the drawn index.
  pub weighted_random_select_pos :
      (ws : List F) (draw : Draw F)
      → All IsWeight ws
      → IsDraw (length ws) draw
      → (All (λ w. w ≡ nought) ws × (weighted_random_select ws draw ≡ draw.index))
        ⊎ ((w : F) × (get_elem? ws (weighted_random_select ws draw) ≡ some w) × (nought ≺ w))
  unfolding weighted_random_select
  weighted_random_select_pos ws draw h d = elim (sum_cases ws h) [
    | inl (zeros, total) ↦ inl (zeros, rw (total, le_refl nought))
    | inr pos ↦
        let total = sum_from nought ws in
        let low = mul_nonneg draw.unit total d.nonneg pos in
        let high = mul-lt draw.unit total d.below_one pos in
        elim (pick_sound (f.mul draw.unit total) nought 0 ws h
          (ground (arith, lt-eq-not-le (f.mul draw.unit total) nought))) [
            | inl (j, k, w, e, at, there, ok) ↦
                inr (w, rw (lt→not-le nought total pos, e, at, zero-add) there, ok)
            | inr (e, below) ↦ cc (below, high)
          ]
  ]
