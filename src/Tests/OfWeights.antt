-- ===== src/Tests/OfWeights.antt =====
-- Examples of the weighted balancers, over fixed-point numbers.
use upstreamer.Common.{
  ℕ, ◌≡◌, ◌↔◌, inl, inr, refl, arith, none, some, String, string_eq, List, [], ◌∷◌, In, All,
  get_elem?,
}
use upstreamer.Common.Table.{get}
use upstreamer.External.Fixed.{fixed, Fixed-WeightLaws, Fixed-TokenLaws}
use upstreamer.External.{nought, ◌≼◌, ◌≺◌}
use upstreamer.Balance.{OriginEndpoint, new}
use upstreamer.Balance.RoundRobin.{OriginStates}
use upstreamer.Balance.Weighted.{
  sum_from, weighted_random_select, select_weighted_latency, select_weighted_metrics,
}
use upstreamer.Balance.Weighted.Share.{sum_before, weighted_random_select_share}
use upstreamer.Balance.Weighted.Select.{IsWeight, IsDraw}
use upstreamer.Balance.Weighted.Eligible.{IsEligible, HasLatency}
use upstreamer.Balance.Weighted.Choice.{
  select_weighted_latency_lem, select_weighted_metrics_ignores_latency, mark,
}
use upstreamer.Tests.{text_url, a_end, b_end, a_down, half, down}

abbrev weights : List ℕ
weights = 0 ∷ 7 ∷ []

weights_are : All (IsWeight Fixed-WeightLaws) weights
weights_are = (inl refl, (inr refl, tt))

half-IsDraw : IsDraw Fixed-WeightLaws 2 half
half-IsDraw = record { in_range = omega arith; nonneg = refl; below_one = refl }

abbrev both : List (OriginEndpoint String)
both = a_end ∷ b_end ∷ []

measured : All (HasLatency Fixed-WeightLaws a_down) both
unfolding get
measured = (omega arith, (omega arith, tt))

select_weighted_latency_lem_example :
    ((select_weighted_latency both a_down half ≡ none)
      ↔ All (λ o. ¬ IsEligible Fixed-WeightLaws a_down o) both)
    × ((o : OriginEndpoint String)
        → select_weighted_latency both a_down half ≡ some o
        → In o both × IsEligible Fixed-WeightLaws a_down o)
select_weighted_latency_lem_example =
    select_weighted_latency_lem Fixed-WeightLaws both a_down half measured half-IsDraw

abbrev slow : OriginStates
slow = ("http://a/", record down { ewma_latency_ns = 9_000_000 }) ∷ ("http://b/up", new) ∷ []

same_marks : All (λ o. mark Fixed-WeightLaws a_down o ≡ mark Fixed-WeightLaws slow o) both
unfolding get
same_marks = (refl, (refl, tt))

select_weighted_metrics_ignores_latency_example :
    select_weighted_metrics both a_down half ≡ select_weighted_metrics both slow half
select_weighted_metrics_ignores_latency_example =
    select_weighted_metrics_ignores_latency Fixed-WeightLaws both a_down slow half same_marks

seven_there : get_elem? weights 1 ≡ some 7
seven_there = refl

positive : nought ≺ sum_from nought weights
unfolding sum_from
positive = refl

weighted_random_select_share_example : (weighted_random_select weights half ≡ 1) ↔ (
    (sum_before Fixed-WeightLaws Fixed-TokenLaws nought 1 weights
      ≼ fixed.mul half.unit (sum_from nought weights))
    × (fixed.mul half.unit (sum_from nought weights)
        ≺ fixed.add (sum_before Fixed-WeightLaws Fixed-TokenLaws nought 1 weights) 7))
weighted_random_select_share_example =
    weighted_random_select_share Fixed-WeightLaws Fixed-TokenLaws weights half 1 7 weights_are
      positive half-IsDraw seven_there
