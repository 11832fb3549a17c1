-- ===== src/Balance/Weighted/Choice.antt =====
-- What the weighted balancers answer (src/balance/weighted.rs).
use upstreamer.Common.{
  ℕ, ◌≡◌, ◌↔◌, refl, ap, inl, inr, arith, Bool, false, Option, none, some, List, [], ◌∷◌, string_eq,
  map, length, get_elem?, is_empty, if◌then◌else◌, All, In, Option-cases, Bool-cases,
  In-of_get_elem?, All_In, length-map, get_elem?-map,
}
use upstreamer.Common.Table.{get}
use mathlib.Core.Path.{ap₂}
use mathlib.Core.Option
use upstreamer.External.{UrlOps, as_str, F64Ops, WeightLaws, nought, ◌≺◌}
use upstreamer.Balance.{OriginEndpoint, OriginState}
use upstreamer.Balance.RoundRobin.{OriginStates}
use upstreamer.Balance.Weighted.{
  Draw, weighted_random_select, weigh, weight_from, take_positive, select_weighted, latency_base,
  metrics_base, select_weighted_latency, select_weighted_metrics,
}
use upstreamer.Balance.Weighted.Select.{IsWeight, IsDraw, weighted_random_select_pos}
use upstreamer.Balance.Weighted.Eligible.{
  IsBase, IsEligible, HasLatency, weigh_cases, latency_base-IsBase, metrics_base-IsBase,
  nought-not-pos, metrics_base_lem,
}

not_empty :
    {A B : Type 0} (g : A → B) (xs : List A) (i : ℕ) (y : B)
    → get_elem? (map g xs) i ≡ some y
    → is_empty xs ≡ false
not_empty g [] i y h = cc
not_empty g (x ∷ xs) i y h = refl

module _ {F : Type 0} ⦃f : F64Ops F⦄ (laws : WeightLaws F) where
  module _ {Url : Type 0} ⦃u : UrlOps Url⦄ (states : OriginStates)
      (base : Option OriginState → Option F) (is_base : IsBase laws base) where
    weights-IsWeight :
        (candidates : List (OriginEndpoint Url))
        → All (HasLatency laws states) candidates
        → All (IsWeight laws) (map (weigh base states) candidates)
    weights-IsWeight [] h = tt
    weights-IsWeight (o ∷ os) (here, h) =
        (ground (arith, weigh_cases laws states base is_base o here), weights-IsWeight os h)

    pub take_sound :
        (candidates : List (OriginEndpoint Url)) (idx : ℕ) (o : OriginEndpoint Url)
        → take_positive candidates (map (weigh base states) candidates) idx ≡ some o
        → In o candidates × (nought ≺ weigh base states o)
    unfolding take_positive
    take_sound candidates idx o e =
        elim (Option-cases (get_elem? (map (weigh base states) candidates) idx)) [
          | inl missing ↦ cc (rw (missing, take_positive) at e)
          | inr (w, there) ↦
              let (x, at, same) = get_elem?-map (weigh base states) candidates idx w there in
              elim (Bool-cases (f.lt nought w)) [
                | inr low ↦ cc (rw (there, take_positive, low) at e)
                | inl pos ↦
                    let here : get_elem? candidates idx ≡ some o =
                      rw (there, take_positive, pos) at e in
                    (In-of_get_elem? o candidates idx here, ground (arith, same, at, here, pos))
              ]
        ]

    take_found :
        (candidates : List (OriginEndpoint Url)) (idx : ℕ) (w : F)
        → get_elem? (map (weigh base states) candidates) idx ≡ some w
        → nought ≺ w
        → (o : OriginEndpoint Url) × (take_positive candidates
              (map (weigh base states) candidates)
              idx
            ≡ some o)
    unfolding take_positive
    take_found candidates idx w there pos =
        let (o, at, same) = get_elem?-map (weigh base states) candidates idx w there in
        (o, rw (there, take_positive, pos) at)

    weighted_sound :
        (candidates : List (OriginEndpoint Url)) (draw : Draw F) (o : OriginEndpoint Url)
        → All (HasLatency laws states) candidates
        → select_weighted base candidates states draw ≡ some o
        → In o candidates × IsEligible laws states o
    unfolding select_weighted
    weighted_sound candidates draw o h e =
        let (at, pos) =
          take_sound candidates (weighted_random_select (map (weigh base states) candidates) draw) o
            (ground arith) in
        (
          at,
          elim (weigh_cases laws states base is_base o (All_In _ o candidates h at)) [
            | inl (zeroed, _) ↦ cc (rw zeroed at pos, nought-not-pos laws)
            | inr (_, eligible) ↦ eligible
          ],
        )

    select_found :
        (candidates : List (OriginEndpoint Url)) (draw : Draw F) (w : F)
        → (let weights = map (weigh base states) candidates in
            get_elem? weights (weighted_random_select weights draw) ≡ some w)
        → nought ≺ w
        → (o : OriginEndpoint Url) × (select_weighted base candidates states draw ≡ some o)
    unfolding select_weighted
    select_found candidates draw w there pos =
        let weights = map (weigh base states) candidates in
        let idx = weighted_random_select weights draw in
        let (o, found) = take_found candidates idx w there pos in
        (o, rw (not_empty (weigh base states) candidates idx w there) found)

    -- With every weight nought there is no one to select.
    zeros_In :
        (candidates : List (OriginEndpoint Url))
        → All (HasLatency laws states) candidates
        → All (λ w. w ≡ nought) (map (weigh base states) candidates)
        → All (λ o. ¬ IsEligible laws states o) candidates
    zeros_In [] h z = tt
    zeros_In (o ∷ os) (here, h) (e, z) = (
      elim (weigh_cases laws states base is_base o here) [
        | inl (_, no_one) ↦ no_one
        | inr (pos, _) ↦ λ _. cc (rw e at pos, nought-not-pos laws)
      ],
      zeros_In os h z,
    )

    weighted_none_iff :
        (candidates : List (OriginEndpoint Url)) (draw : Draw F)
        → All (HasLatency laws states) candidates
        → IsDraw laws (length candidates) draw
        → (select_weighted base candidates states draw ≡ none)
          ↔ All (λ o. ¬ IsEligible laws states o) candidates
    weighted_none_iff candidates draw h d = (
      (λ e.
          elim (weighted_random_select_pos laws (map (weigh base states) candidates) draw
            (weights-IsWeight candidates h) (rw (length-map (weigh base states) candidates) d)) [
              | inl (zeros, _) ↦ zeros_In candidates h zeros
              | inr (w, there, pos) ↦
                  let (o, found) = select_found candidates draw w there pos in cc (e, found)
            ]),
      (λ nobody. elim (Option-cases (select_weighted base candidates states draw)) [
        | inl nothing ↦ nothing
        | inr (o, found) ↦
            let (at, eligible) = weighted_sound candidates draw o h found in
            absurd (All_In _ o candidates nobody at eligible)
      ]),
    )

  same_base :
      (s t : Option OriginState)
      → Option.map (λ s. s.healthy) s ≡ Option.map (λ s. s.healthy) t
      → metrics_base {F = F} s ≡ metrics_base t
  same_base none none e = refl
  same_base none (some t) e = cc
  same_base (some s) none e = cc
  same_base (some s) (some t) e = ground (arith, metrics_base_lem laws s, metrics_base_lem laws t)

  module _ {Url : Type 0} ⦃u : UrlOps Url⦄ where
    -- Under the laws of weights, with latencies of 64 bits and a draw in the range that `rand`
    -- promises, the latency balancer answers with a candidate that is not marked unhealthy and
    -- whose weight is not 0, and it gives up exactly when there is no such candidate. Unlike
    -- round-robin it takes an origin without a state for a healthy one.
    pub select_weighted_latency_lem :
        (candidates : List (OriginEndpoint Url)) (states : OriginStates) (draw : Draw F)
        → All (HasLatency laws states) candidates
        → IsDraw laws (length candidates) draw
        → ((select_weighted_latency candidates states draw ≡ none)
            ↔ All (λ o. ¬ IsEligible laws states o) candidates)
          × ((o : OriginEndpoint Url)
              → select_weighted_latency candidates states draw ≡ some o
              → In o candidates × IsEligible laws states o)
    unfolding select_weighted_latency
    select_weighted_latency_lem candidates states draw h d = (
      weighted_none_iff states latency_base (latency_base-IsBase laws) candidates draw h d,
      λ o. weighted_sound states latency_base (latency_base-IsBase laws) candidates draw o h,
    )

    -- Under the same conditions, the metrics balancer answers with a candidate that is not marked
    -- unhealthy and whose weight is not 0, and it gives up exactly when there is no such candidate.
    pub select_weighted_metrics_lem :
        (candidates : List (OriginEndpoint Url)) (states : OriginStates) (draw : Draw F)
        → All (HasLatency laws states) candidates
        → IsDraw laws (length candidates) draw
        → ((select_weighted_metrics candidates states draw ≡ none)
            ↔ All (λ o. ¬ IsEligible laws states o) candidates)
          × ((o : OriginEndpoint Url)
              → select_weighted_metrics candidates states draw ≡ some o
              → In o candidates × IsEligible laws states o)
    unfolding select_weighted_metrics
    select_weighted_metrics_lem candidates states draw h d = (
      weighted_none_iff states metrics_base (metrics_base-IsBase laws) candidates draw h d,
      λ o. weighted_sound states metrics_base (metrics_base-IsBase laws) candidates draw o h,
    )

    -- The mark of the origin's state, if there is one.
    abbrev pub mark : OriginStates → OriginEndpoint Url → Option Bool
    mark states o = Option.map (λ s. s.healthy) (get states (as_str o.url))

    same_weights :
        (candidates : List (OriginEndpoint Url)) (s t : OriginStates)
        → All (λ o. mark s o ≡ mark t o) candidates
        → map {B = F} (weigh metrics_base s) candidates ≡ map (weigh metrics_base t) candidates
    same_weights [] s t h = refl
    same_weights (o ∷ os) s t (here, h) =
        ap₂ ◌∷◌
          (ap (λ b. weight_from b o.weight)
            (same_base (get s (as_str o.url)) (get t (as_str o.url)) here))
          (same_weights os s t h)

    -- Under the laws of weights, with the same marks of the candidates in two tables of states, the
    -- metrics balancer makes the same choice, whatever the measured latencies and counters are.
    pub select_weighted_metrics_ignores_latency :
        (candidates : List (OriginEndpoint Url)) (s t : OriginStates) (draw : Draw F)
        → All (λ o. mark s o ≡ mark t o) candidates
        → select_weighted_metrics candidates s draw ≡ select_weighted_metrics candidates t draw
    unfolding select_weighted_metrics
    select_weighted_metrics_ignores_latency candidates s t draw h =
        ap
          (λ (ws : List F).
            if is_empty candidates
            then none
            else take_positive candidates ws (weighted_random_select ws draw))
          (same_weights candidates s t h)
