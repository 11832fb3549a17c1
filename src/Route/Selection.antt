-- ===== src/Route/Selection.antt =====
-- Which origins a route's balancer hands out (src/route.rs, src/balance/mod.rs).
use upstreamer.Common.{
  ◌≡◌, refl, arith, true, false, Option, none, some, List, [], ◌∷◌, map, string_eq, inl, inr,
  Bool-cases, All, All-append, In, All_In,
}
use upstreamer.Common.Table.{get}
use upstreamer.External.{UrlOps, as_str, F64Ops, WeightLaws}
use upstreamer.Config.{OriginConfig, PoolRef, RouteConfig, ProxyConfig}
use upstreamer.Balance.{OriginEndpoint, OriginState}
use upstreamer.Balance.RoundRobin.{OriginStates, is_up, select_round_robin_sound}
use upstreamer.Balance.Weighted.{
  Draw, weigh, weighted_random_select, select_weighted, latency_base, metrics_base,
  select_weighted_latency, select_weighted_metrics,
}
use upstreamer.Balance.Weighted.Eligible.{
  IsBase, nought-not-pos, latency_base-IsBase, metrics_base-IsBase,
}
use upstreamer.Balance.Weighted.Choice.{take_sound}
use upstreamer.Route.{
  LoadBalancer, round_robin, weighted_latency, weighted_metrics, Router, entry, static_candidates,
  pool_candidates, from_config, select_origin,
}

module _ {Url : Type 0} ⦃u : UrlOps Url⦄ where
  -- An endpoint is known by the text of its URL.
  abbrev pub IsKeyed : OriginEndpoint Url → Type 0
  IsKeyed o = o.url_key ≡ as_str o.url

  -- Every candidate in the table is known by the text of its URL.
  abbrev pub IsKeyedRouter : Router Url → Type 0
  IsKeyedRouter router = All (λ r. All IsKeyed r.candidates) router.routes

  pub static-IsKeyed : (os : List (OriginConfig Url)) → All IsKeyed (static_candidates os)
  unfolding static_candidates
  static-IsKeyed [] = tt
  static-IsKeyed (o ∷ os) = (refl, static-IsKeyed os)

  pool-IsKeyed : (ps : List (PoolRef Url)) → All IsKeyed (pool_candidates ps)
  unfolding pool_candidates
  pool-IsKeyed [] = tt
  pool-IsKeyed (p ∷ ps) =
      All-append IsKeyed (static_candidates p.origins) (pool_candidates ps)
        (static-IsKeyed p.origins) (pool-IsKeyed ps)

  entries-IsKeyed :
      (rs : List (RouteConfig Url))
      → All (λ r. All IsKeyed r.candidates) (map (λ r. entry r (pool_candidates r.pools)) rs)
  entries-IsKeyed [] = tt
  entries-IsKeyed (r ∷ rs) = (pool-IsKeyed r.pools, entries-IsKeyed rs)

  pub from_config-IsKeyedRouter : (c : ProxyConfig Url) → IsKeyedRouter (from_config c)
  unfolding from_config
  from_config-IsKeyedRouter c = entries-IsKeyed c.routes

  module _ {F : Type 0} ⦃f : F64Ops F⦄ (laws : WeightLaws F) (states : OriginStates) where
    module _ (base : Option OriginState → Option F) (is_base : IsBase laws base)
        (unhealthy : (s : OriginState) → s.healthy ≡ false → base (some s) ≡ none) where
      weighted_up :
          (candidates : List (OriginEndpoint Url)) (draw : Draw F) (o : OriginEndpoint Url)
          → All IsKeyed candidates
          → select_weighted base candidates states draw ≡ some o
          → In o candidates × ((s : OriginState) → get states o.url_key ≡ some s → s.healthy ≡ true)
      unfolding select_weighted
      weighted_up candidates draw o keyed e =
          let (at, pos) =
            take_sound laws states base is_base candidates
              (weighted_random_select (map (weigh base states) candidates) draw) o (ground arith) in
          (
            at,
            λ s there.
                let known : get states (as_str o.url) ≡ some s =
                  rw (← All_In IsKeyed o candidates keyed at) there in
                elim (Bool-cases s.healthy) [
                  | inl up ↦ up
                  | inr down ↦ cc (rw (known, unhealthy s down) at pos, nought-not-pos laws)
                ],
          )

    -- Whatever the balancer, an origin that it hands out is a candidate, and is not marked
    -- unhealthy.
    pub select_origin_up :
        (lb : LoadBalancer) (candidates : List (OriginEndpoint Url)) (draw : Draw F)
        (o : OriginEndpoint Url)
        → All IsKeyed candidates
        → (select_origin lb candidates states draw).1 ≡ some o
        → In o candidates × ((s : OriginState) → get states o.url_key ≡ some s → s.healthy ≡ true)
    unfolding select_origin select_weighted_latency select_weighted_metrics is_up
    select_origin_up (round_robin counter) candidates draw o keyed e =
        let (at, up) = select_round_robin_sound candidates states counter o e in
        (at, λ s there. ground (arith, there, up))
    select_origin_up weighted_latency candidates draw o keyed e =
        weighted_up latency_base (latency_base-IsBase laws)
          (λ s down. unfold latency_base in ground (arith, down)) candidates draw o keyed e
    select_origin_up weighted_metrics candidates draw o keyed e =
        weighted_up metrics_base (metrics_base-IsBase laws)
          (λ s down. unfold metrics_base in ground (arith, down)) candidates draw o keyed e
