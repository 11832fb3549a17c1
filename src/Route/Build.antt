-- ===== src/Route/Build.antt =====
-- The table that a configuration gives (src/route.rs).
use upstreamer.Common.{
  ◌≡◌, refl, ap, ◌↔◌, ◌⊎◌, inl, inr, none, some, List, [], ◌∷◌, ◌++◌, map, string_eq, All, In,
  In-append_left, In-append_right, Option-cases,
}
use mathlib.Core.Path.{ap₂}
use upstreamer.Common.Table.{get}
use upstreamer.External.{UrlOps}
use upstreamer.Config.{OriginConfig, PoolRef, RouteConfig, ProxyConfig}
use upstreamer.Balance.{OriginEndpoint}
use upstreamer.Route.{
  K8sOrigins, entry, endpoint, static_candidates, pool_candidates, discovered,
  pool_candidates_with_k8s, from_config, from_config_with_k8s,
}

In-append_split : {A : Type 0} (a : A) (xs ys : List A) → In a (xs ++ ys) → In a xs ⊎ In a ys
In-append_split a [] ys h = inr h
In-append_split a (x ∷ xs) ys (inl e) = inl (inl e)
In-append_split a (x ∷ xs) ys (inr h) = elim (In-append_split a xs ys h) [
  | inl l ↦ inl (inr l)
  | inr r ↦ inr r
]

module _ {Url : Type 0} ⦃u : UrlOps Url⦄ where
  -- No service is discovered for the pool.
  abbrev pub IsUndiscovered : K8sOrigins Url → PoolRef Url → Type 0
  IsUndiscovered k8s p = get k8s p.name ≡ none

  pool_candidates_undiscovered :
      (k8s : K8sOrigins Url) (ps : List (PoolRef Url))
      → All (IsUndiscovered k8s) ps
      → pool_candidates_with_k8s k8s ps ≡ pool_candidates ps
  unfolding pool_candidates_with_k8s pool_candidates
  pool_candidates_undiscovered k8s [] h = refl
  pool_candidates_undiscovered k8s (p ∷ ps) (here, h) =
      rw here (ap (◌++◌ (static_candidates p.origins)) (pool_candidates_undiscovered k8s ps h))

  entries_undiscovered :
      (k8s : K8sOrigins Url) (rs : List (RouteConfig Url))
      → All (λ r. All (IsUndiscovered k8s) r.pools) rs
      → map (λ r. entry r (pool_candidates_with_k8s k8s r.pools)) rs
        ≡ map (λ r. entry r (pool_candidates r.pools)) rs
  entries_undiscovered k8s [] h = refl
  entries_undiscovered k8s (r ∷ rs) (here, h) =
      ap₂ ◌∷◌ (ap (entry r) (pool_candidates_undiscovered k8s r.pools here))
        (entries_undiscovered k8s rs h)

  -- The two ways to build the table agree where no pool of the configuration has a discovered
  -- service.
  pub from_config_with_k8s-undiscovered :
      (c : ProxyConfig Url) (k8s : K8sOrigins Url)
      → All (λ r. All (IsUndiscovered k8s) r.pools) c.routes
      → from_config_with_k8s c k8s ≡ from_config c
  unfolding from_config_with_k8s from_config
  from_config_with_k8s-undiscovered c k8s h =
      λ i. record { routes = entries_undiscovered k8s c.routes h i }

  -- Where a candidate of a pool comes from.
  pub data FromPool (k8s : K8sOrigins Url) (p : PoolRef Url) (o : OriginEndpoint Url) : Type 0 where
    static :
        (c : OriginConfig Url)
        → In c p.origins
        → endpoint c.url c.weight c.health_check_path ≡ o
        → FromPool k8s p o
    service :
        (urls : List Url) (url : Url)
        → get k8s p.name ≡ some urls
        → In url urls
        → endpoint url none none ≡ o
        → FromPool k8s p o

  In-static :
      (os : List (OriginConfig Url)) (o : OriginEndpoint Url)
      → In o (static_candidates os)
        ↔ ((c : OriginConfig Url) × In c os × (endpoint c.url c.weight c.health_check_path ≡ o))
  unfolding static_candidates
  In-static [] o = (λ h. absurd h, λ (_, h, _). absurd h)
  In-static (c ∷ os) o = (
    (λ h. elim h [
      | inl e ↦ (c, inl refl, e)
      | inr later ↦ let (d, at, e) = (In-static os o).0 later in (d, inr at, e)
    ]),
    (λ (d, at, e). elim at [
      | inl same ↦ inl (rw same e)
      | inr later ↦ inr ((In-static os o).1 (d, later, e))
    ]),
  )

  In-map :
      (urls : List Url) (o : OriginEndpoint Url)
      → In o (map (λ url. endpoint url none none) urls)
        ↔ ((url : Url) × In url urls × (endpoint url none none ≡ o))
  In-map [] o = (λ h. absurd h, λ (_, h, _). absurd h)
  In-map (url ∷ urls) o = (
    (λ h. elim h [
      | inl e ↦ (url, inl refl, e)
      | inr later ↦ let (d, at, e) = (In-map urls o).0 later in (d, inr at, e)
    ]),
    (λ (d, at, e). elim at [
      | inl same ↦ inl (rw same e)
      | inr later ↦ inr ((In-map urls o).1 (d, later, e))
    ]),
  )

  discovered-FromPool :
      (k8s : K8sOrigins Url) (p : PoolRef Url) (o : OriginEndpoint Url)
      → In o (discovered (get k8s p.name))
      → FromPool k8s p o
  discovered-FromPool k8s p o h = elim (Option-cases (get k8s p.name)) [
    | inl missing ↦ absurd (rw missing at h)
    | inr (urls, there) ↦
        let (url, at, e) = (In-map urls o).0 (rw there at h) in service urls url there at e
  ]

  FromPool-In :
      (k8s : K8sOrigins Url) (p : PoolRef Url) (o : OriginEndpoint Url)
      → FromPool k8s p o
      → In o (static_candidates p.origins) ⊎ In o (discovered (get k8s p.name))
  FromPool-In k8s p o (static c at e) = inl ((In-static p.origins o).1 (c, at, e))
  FromPool-In k8s p o (service urls url there at e) =
      inr (rw there ((In-map urls o).1 (url, at, e)))

  -- The candidates of a route are the origins of its pools and the services discovered under the
  -- names of its pools, and nothing else.
  pub pool_candidates_with_k8s_iff :
      (k8s : K8sOrigins Url) (ps : List (PoolRef Url)) (o : OriginEndpoint Url)
      → In o (pool_candidates_with_k8s k8s ps) ↔ ((p : PoolRef Url) × In p ps × FromPool k8s p o)
  unfolding pool_candidates_with_k8s
  pool_candidates_with_k8s_iff k8s [] o = (λ h. absurd h, λ (_, h, _). absurd h)
  pool_candidates_with_k8s_iff k8s (p ∷ ps) o = (
    (λ h. elim (In-append_split o (static_candidates p.origins) _ h) [
      | inl here ↦ let (c, at, e) = (In-static p.origins o).0 here in (p, inl refl, static c at e)
      | inr more ↦ elim (In-append_split o (discovered (get k8s p.name)) _ more) [
        | inl here ↦ (p, inl refl, discovered-FromPool k8s p o here)
        | inr later ↦
            let (q, at, from) = (pool_candidates_with_k8s_iff k8s ps o).0 later in (q, inr at, from)
      ]
    ]),
    (λ (q, at, from). elim at [
      | inl same ↦ elim (FromPool-In k8s q o from) [
        | inl l ↦ In-append_left o (static_candidates p.origins) _ (rw same l)
        | inr r ↦
            In-append_right o (static_candidates p.origins) _
              (In-append_left o (discovered (get k8s p.name)) _ (rw same r))
      ]
      | inr later ↦ In-append_right o (static_candidates p.origins) _ (
          In-append_right o (discovered (get k8s p.name)) _
            ((pool_candidates_with_k8s_iff k8s ps o).1 (q, later, from)))
    ]),
  )
