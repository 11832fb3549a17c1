-- ===== src/Balance/Weighted/Eligible.antt =====
-- Which origins the weighted balancers select (src/balance/weighted.rs).
use upstreamer.Common.{
  ℕ, suc, zero, ◌^◌, ◌<◌, ◌≡◌, ◌≢◌, refl, ap, ◌∙◌, ◌⊎◌, inl, inr, arith, true, false, not, Option,
  none, some, string_eq, eqb, if◌then◌else◌, Bool-cases,
}
use upstreamer.Common.Table.{get}
use upstreamer.External.{UrlOps, as_str, F64Ops, WeightLaws, nought, one, ◌≺◌}
use upstreamer.Balance.{OriginEndpoint, OriginState}
use upstreamer.Balance.RoundRobin.{OriginStates}
use upstreamer.Balance.Weighted.{latency_base, metrics_base, metrics_weight, scaled, weigh}

-- The latency that is kept is a 64-bit number.
abbrev pub FitsLatency : Option OriginState → Type 0
FitsLatency none = Unit
FitsLatency (some s) = s.ewma_latency_ns < 2 ^ 64

-- An origin without a state counts as healthy here.
abbrev pub IsServing : Option OriginState → Type 0
IsServing none = Unit
IsServing (some s) = s.healthy ≡ true

abbrev pub IsDown : Option OriginState → Type 0
IsDown none = ⊥
IsDown (some s) = s.healthy ≡ false

not_both : (s : Option OriginState) → IsDown s → IsServing s → ⊥
not_both none d h = d
not_both (some s) d h = cc

module _ {F : Type 0} ⦃f : F64Ops F⦄ (laws : WeightLaws F) where
  open laws use {
    ordered.{le_refl, lt-eq-not-le, of_nat_mono},
    of_nat_pos,
    inverse_pos,
    mul_pos,
    mul-nought,
    sub-nought,
    max_of_le,
  }

  pub nought-not-pos : f.lt nought nought ≡ false
  nought-not-pos = ground (arith, lt-eq-not-le nought nought, le_refl nought)

  -- What a base weight must do for the theorems below: be missing for the unhealthy, and positive
  -- otherwise.
  abbrev pub IsBase : (Option OriginState → Option F) → Type 0
  IsBase base =
      (s : Option OriginState)
      → FitsLatency s
      → ((base s ≡ none) × IsDown s) ⊎ ((b : F) × (base s ≡ some b) × (nought ≺ b) × IsServing s)

  pub latency_base-IsBase : IsBase latency_base
  unfolding latency_base
  latency_base-IsBase none fits = inr (one, refl, of_nat_pos 1 (omega arith), tt)
  latency_base-IsBase (some s) fits = elim (Bool-cases s.healthy) [
    | inr down ↦ inl (ground arith, down)
    | inl up ↦ elim (Bool-cases (eqb s.ewma_latency_ns 0)) [
      | inl fresh ↦ inr (one, ground (arith), of_nat_pos 1 (omega arith), up)
      | inr measured ↦ inr (
        f.div one (f.add (f.of_nat s.ewma_latency_ns) one),
        ground arith,
        inverse_pos s.ewma_latency_ns fits,
        up,
      )
    ]
  ]

  metrics_weight_lem : metrics_weight ≡ f.of_nat 1000
  metrics_weight_lem =
      max_of_le (f.sub (f.of_nat 1000) nought) nought
        (rw (sub-nought) (of_nat_mono 0 1000 (omega arith)))
      ∙ sub-nought (f.of_nat 1000)

  -- A known origin's weight under the metrics balancer is a thousand times its configured weight
  -- whenever it is healthy: its latency has no part in it.
  pub metrics_base_lem :
      (s : OriginState) → metrics_base (some s) ≡ (if s.healthy then some (f.of_nat 1000) else none)
  unfolding metrics_base
  metrics_base_lem s =
      let small : f.lt (f.of_nat 1000) (f.of_nat 100) ≡ false =
        lt-eq-not-le (f.of_nat 1000) (f.of_nat 100) ∙ ap not (of_nat_mono 100 1000 (omega arith)) in
      rw (metrics_weight_lem, small) (ground arith)

  pub metrics_base-IsBase : IsBase metrics_base
  metrics_base-IsBase none fits =
      inr (f.of_nat 1000, unfold metrics_base in refl, of_nat_pos 1000 (omega arith), tt)
  metrics_base-IsBase (some s) fits = elim (Bool-cases s.healthy) [
    | inr down ↦ inl (ground (arith, metrics_base_lem s), down)
    | inl up ↦
        inr (f.of_nat 1000, ground (arith, metrics_base_lem s), of_nat_pos 1000 (omega arith), up)
  ]

  scaled_cases :
      (b : F) (user : Option ℕ)
      → nought ≺ b
      → ((scaled b user ≡ nought) × (user ≡ some 0)) ⊎ ((nought ≺ scaled b user) × (user ≢ some 0))
  scaled_cases b none pos = inr (pos, λ e. cc)
  scaled_cases b (some zero) pos = inl (mul-nought b, refl)
  scaled_cases b (some (suc w)) pos = inr (mul_pos b (suc w) pos (omega arith), λ e. ground arith)

  module _ {Url : Type 0} ⦃u : UrlOps Url⦄ (states : OriginStates) where
    -- An origin may be selected if it is not marked unhealthy and its weight is not 0.
    abbrev pub IsEligible : OriginEndpoint Url → Type 0
    IsEligible o = IsServing (get states (as_str o.url)) × (o.weight ≢ some 0)

    abbrev pub HasLatency : OriginEndpoint Url → Type 0
    HasLatency o = FitsLatency (get states (as_str o.url))

    module _ (base : Option OriginState → Option F) (is_base : IsBase base) where
      pub weigh_cases :
          (o : OriginEndpoint Url)
          → HasLatency o
          → ((weigh base states o ≡ nought) × ¬ IsEligible o)
            ⊎ ((nought ≺ weigh base states o) × IsEligible o)
      weigh_cases o fits = elim (is_base (get states (as_str o.url)) fits) [
        | inl (missing, down) ↦
            inl (rw missing refl, λ h. not_both (get states (as_str o.url)) down h.0)
        | inr (b, there, pos, up) ↦ elim (scaled_cases b o.weight pos) [
          | inl (e, zeroed) ↦ inl (rw there e, λ h. h.1 zeroed)
          | inr (p, kept) ↦ inr (rw there p, (up, kept))
        ]
      ]
