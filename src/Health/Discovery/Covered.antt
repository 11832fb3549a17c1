-- ===== src/Health/Discovery/Covered.antt =====
-- The keys of a table with discovered origins (src/route.rs, src/health/discovery.rs).
use upstreamer.Common.{
  ◌≡◌, refl, arith, Option, none, some, List, [], ◌∷◌, map, String, string_eq, inl, inr, Bool-cases,
  ◌==◌, All, All-append, In, In-append_left, In-append_right,
}
use upstreamer.Common.Table.{get}
use upstreamer.External.{UrlOps, as_str}
use upstreamer.Config.{PoolRef, RouteConfig, ProxyConfig}
use upstreamer.Route.{
  K8sOrigins, entry, endpoint, static_candidates, discovered, pool_candidates_with_k8s,
  from_config_with_k8s,
}
use upstreamer.Route.Selection.{IsKeyed, IsKeyedRouter, static-IsKeyed}
use upstreamer.State.{pool_keys, config_keys}
use upstreamer.State.Cover.{static_keys}
use upstreamer.Health.Discovery.{k8s_keys}

module _ {Url : Type 0} ⦃u : UrlOps Url⦄ where
  get-k8s_keys :
      (k8s : K8sOrigins Url) (pool : String) (urls : List Url) (k : String)
      → get k8s pool ≡ some urls
      → In k (map as_str urls)
      → In k (k8s_keys k8s)
  unfolding k8s_keys get
  get-k8s_keys [] pool urls k there h = cc
  get-k8s_keys ((p, us) ∷ k8s) pool urls k there h = elim (Bool-cases (p == pool)) [
    | inl same ↦
        let here : us ≡ urls = ground (arith, same, there) in
        In-append_left k (map as_str us) (k8s_keys k8s) (rw here h)
    | inr apart ↦
        In-append_right k (map as_str us) (k8s_keys k8s)
          (get-k8s_keys k8s pool urls k (ground (arith, apart, there)) h)
  ]

  -- What holds of the keys of a configuration and of the discovered ones holds of the candidates.
  module _ (P : String → Type 0) (k8s : K8sOrigins Url)
      (found : (k : String) → In k (k8s_keys k8s) → P k) where
    discovered_keys :
        (urls : List Url)
        → ((k : String) → In k (map as_str urls) → P k)
        → All (λ o. P o.url_key) (map (λ url. endpoint url none none) urls)
    discovered_keys [] h = tt
    discovered_keys (url ∷ urls) h =
        (h (as_str url) (inl refl), discovered_keys urls (λ k at. h k (inr at)))

    pool_discovered :
        (pool : String) (o : Option (List Url))
        → get k8s pool ≡ o
        → All (λ o. P o.url_key) (discovered o)
    pool_discovered pool none e = tt
    pool_discovered pool (some urls) e =
        discovered_keys urls (λ k at. found k (get-k8s_keys k8s pool urls k e at))

    pools_with_k8s_keys :
        (ps : List (PoolRef Url))
        → ((k : String) → In k (pool_keys ps) → P k)
        → All (λ o. P o.url_key) (pool_candidates_with_k8s k8s ps)
    unfolding pool_candidates_with_k8s pool_keys
    pools_with_k8s_keys [] h = tt
    pools_with_k8s_keys (p ∷ ps) h =
        All-append (λ o. P o.url_key) (static_candidates p.origins) _
          (static_keys P p.origins (λ k at. h k (In-append_left k _ _ at)))
          (All-append (λ o. P o.url_key) (discovered (get k8s p.name)) _
            (pool_discovered p.name (get k8s p.name) refl)
            (pools_with_k8s_keys ps (λ k at. h k (In-append_right k _ _ at))))

    entries_with_k8s_keys :
        (rs : List (RouteConfig Url))
        → ((k : String) → In k (config_keys rs) → P k)
        → All
            (λ r. All (λ o. P o.url_key) r.candidates)
            (map (λ r. entry r (pool_candidates_with_k8s k8s r.pools)) rs)
    unfolding config_keys
    entries_with_k8s_keys [] h = tt
    entries_with_k8s_keys (r ∷ rs) h = (
      pools_with_k8s_keys r.pools (λ k at. h k (In-append_left k _ _ at)),
      entries_with_k8s_keys rs (λ k at. h k (In-append_right k _ _ at)),
    )

    pub from_config_with_k8s_keys :
        (c : ProxyConfig Url)
        → ((k : String) → In k (config_keys c.routes) → P k)
        → All (λ r. All (λ o. P o.url_key) r.candidates) (from_config_with_k8s c k8s).routes
    unfolding from_config_with_k8s
    from_config_with_k8s_keys c h = entries_with_k8s_keys c.routes h

  discovered-IsKeyed : (o : Option (List Url)) → All IsKeyed (discovered o)
  discovered-IsKeyed none = tt
  discovered-IsKeyed (some []) = tt
  discovered-IsKeyed (some (url ∷ urls)) = (refl, discovered-IsKeyed (some urls))

  pools_with_k8s-IsKeyed :
      (k8s : K8sOrigins Url) (ps : List (PoolRef Url))
      → All IsKeyed (pool_candidates_with_k8s k8s ps)
  unfolding pool_candidates_with_k8s
  pools_with_k8s-IsKeyed k8s [] = tt
  pools_with_k8s-IsKeyed k8s (p ∷ ps) =
      All-append IsKeyed (static_candidates p.origins) _ (static-IsKeyed p.origins) (
        All-append IsKeyed (discovered (get k8s p.name)) _ (discovered-IsKeyed (get k8s p.name))
          (pools_with_k8s-IsKeyed k8s ps))

  entries_with_k8s-IsKeyed :
      (k8s : K8sOrigins Url) (rs : List (RouteConfig Url))
      → All
          (λ r. All IsKeyed r.candidates)
          (map (λ r. entry r (pool_candidates_with_k8s k8s r.pools)) rs)
  entries_with_k8s-IsKeyed k8s [] = tt
  entries_with_k8s-IsKeyed k8s (r ∷ rs) =
      (pools_with_k8s-IsKeyed k8s r.pools, entries_with_k8s-IsKeyed k8s rs)

  pub from_config_with_k8s-IsKeyedRouter :
      (c : ProxyConfig Url) (k8s : K8sOrigins Url) → IsKeyedRouter (from_config_with_k8s c k8s)
  unfolding from_config_with_k8s
  from_config_with_k8s-IsKeyedRouter c k8s = entries_with_k8s-IsKeyed k8s c.routes
