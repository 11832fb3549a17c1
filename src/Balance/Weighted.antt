-- ===== src/Balance/Weighted.antt =====
-- The weighted balancers (src/balance/weighted.rs), over `f64` as a parameter.
pub mod Select
pub mod Eligible
pub mod Choice
pub mod Share
use upstreamer.Common.{
  ℕ, suc, ◌-◌, ◌≡◌, Bool, true, false, not, Option, none, some, List, [], ◌∷◌, String, string_eq,
  map, length, get_elem?, is_empty, if◌then◌else◌, eqb, ltb,
}
use upstreamer.Common.Table.{get}
use upstreamer.External.{UrlOps, as_str, F64Ops, nought, one}
use upstreamer.Balance.{OriginEndpoint, OriginState}
use upstreamer.Balance.RoundRobin.{OriginStates}

-- What `rand` answers to one selection: `random_range(0..len)` and `random::<f64>()`. The code
-- asks for one of the two.
pub record Draw (F : Type 0) : Type 0 where
  pub index : ℕ
  pub unit : F

module _ {F : Type 0} ⦃f : F64Ops F⦄ where
  -- `weights.iter().sum()`, from the left.
  unfoldable pub sum_from : F → List F → F
  sum_from acc [] = acc
  sum_from acc (w ∷ ws) = sum_from (f.add acc w) ws

  -- The loop over the weights: the first index at which the running sum passes `random`.
  unfoldable pub pick : F → F → ℕ → List F → Option ℕ
  pick random cumulative i [] = none
  pick random cumulative i (w ∷ ws) =
      let sum = f.add cumulative w in
      let rest = pick random sum (suc i) ws in if f.lt random sum then some i else rest

  unfoldable pub weighted_random_select : List F → Draw F → ℕ
  unfolding sum_from pick
  weighted_random_select weights draw =
      let total = sum_from nought weights in
      if f.le total nought
      then draw.index
      else elim (pick (f.mul draw.unit total) nought 0 weights) [
        | none ↦ length weights - 1
        | some i ↦ i
      ]

  -- `base_weight * user_weight as f64`, where the configuration gives a weight.
  abbrev pub scaled : F → Option ℕ → F
  scaled base none = base
  scaled base (some w) = f.mul base (f.of_nat w)

  -- The base weight of the latency balancer; `none` is an unhealthy origin.
  unfoldable pub latency_base : Option OriginState → Option F
  latency_base none = some one
  latency_base (some s) =
      if not s.healthy
      then none
      else some (
          if eqb s.ewma_latency_ns 0
          then one
          else f.div one (f.add (f.of_nat s.ewma_latency_ns) one))

  -- `(1000.0 - pressure).max(0.0)` at the default pressure.
  abbrev pub metrics_weight : F
  metrics_weight = f.max (f.sub (f.of_nat 1000) nought) nought

  -- The base weight of the metrics balancer.
  unfoldable pub metrics_base : Option OriginState → Option F
  metrics_base none = some (f.of_nat 1000)
  metrics_base (some s) =
      if not s.healthy
      then none
      else some (
          if f.lt metrics_weight (f.of_nat 100)
          then (if ltb 0 s.ewma_latency_ns
              then f.mul metrics_weight (f.div one (f.add (f.of_nat s.ewma_latency_ns) one))
              else metrics_weight)
          else metrics_weight)

  -- `if weights[idx] > 0.0 { Some(&candidates[idx]) } else { None }`; the reads are in range.
  unfoldable pub take_positive {ℓ} : {A : Type ℓ} → List A → List F → ℕ → Option A
  take_positive candidates weights idx = elim (get_elem? weights idx) [
    | none ↦ none
    | some w ↦ if f.lt nought w then get_elem? candidates idx else none
  ]

  abbrev pub weight_from : Option F → Option ℕ → F
  weight_from none user = nought
  weight_from (some base) user = scaled base user

  module _ {Url : Type 0} ⦃u : UrlOps Url⦄ (base : Option OriginState → Option F) where
    -- One round of the loop that fills `weights`.
    abbrev pub weigh : OriginStates → OriginEndpoint Url → F
    weigh states o = weight_from (base (get states (as_str o.url))) o.weight

    -- `select_origin` of either weighted balancer.
    unfoldable pub select_weighted :
        List (OriginEndpoint Url) → OriginStates → Draw F → Option (OriginEndpoint Url)
    unfolding weighted_random_select take_positive
    select_weighted candidates states draw =
        if is_empty candidates
        then none
        else (let weights = map (weigh states) candidates in
            take_positive candidates weights (weighted_random_select weights draw))

  module _ {Url : Type 0} ⦃u : UrlOps Url⦄ where
    unfoldable pub select_weighted_latency :
        List (OriginEndpoint Url) → OriginStates → Draw F → Option (OriginEndpoint Url)
    unfolding select_weighted latency_base
    select_weighted_latency = select_weighted latency_base

    unfoldable pub select_weighted_metrics :
        List (OriginEndpoint Url) → OriginStates → Draw F → Option (OriginEndpoint Url)
    unfolding select_weighted metrics_base
    select_weighted_metrics = select_weighted metrics_base
