-- ===== src/Health/Discovery/Order.antt =====
-- The order in which services are applied (src/health/discovery.rs).
use mathlib.Core.Path.{ap₂}
use mathlib.Core.List.{Permᴰ, Pairwise, mem-cons_self}
use mathlib.Core.List.Permᴰ
use upstreamer.Common.{
  ◌≡◌, ◌≢◌, refl, sym, ap, ◌∙◌, Option, none, some, List, [], ◌∷◌, map, String, string_eq,
}
use upstreamer.Common.Table.{get}
use upstreamer.External.{UrlOps}
use upstreamer.Config.{PoolRef, RouteConfig, ProxyConfig}
use upstreamer.Config.Validate.{first_some}
use upstreamer.Route.{K8sOrigins, entry, pool_candidates_with_k8s, from_config_with_k8s}
use upstreamer.State.{AppState}
use upstreamer.Health.Discovery.{Service, service_to_origin, apply_services}
use upstreamer.Health.Discovery.Latest.{given, latest, apply_services_lem}

-- Lists of origins with the same lookups.
abbrev pub SameOrigins : {Url : Type 0} → K8sOrigins Url → K8sOrigins Url → Type 0
SameOrigins k8s k8s' = (pool : String) → get k8s pool ≡ get k8s' pool

module _ {Url : Type 0} ⦃u : UrlOps Url⦄ where
  -- The table is built from the lookups alone.
  pool_candidates_same :
      (k8s k8s' : K8sOrigins Url) (ps : List (PoolRef Url))
      → SameOrigins k8s k8s'
      → pool_candidates_with_k8s k8s ps ≡ pool_candidates_with_k8s k8s' ps
  unfolding pool_candidates_with_k8s
  pool_candidates_same k8s k8s' [] same = refl
  pool_candidates_same k8s k8s' (p ∷ ps) same =
      rw (same p.name, pool_candidates_same k8s k8s' ps same) refl

  entries_same :
      (k8s k8s' : K8sOrigins Url) (rs : List (RouteConfig Url))
      → SameOrigins k8s k8s'
      → map (λ r. entry r (pool_candidates_with_k8s k8s r.pools)) rs
        ≡ map (λ r. entry r (pool_candidates_with_k8s k8s' r.pools)) rs
  entries_same k8s k8s' [] same = refl
  entries_same k8s k8s' (r ∷ rs) same =
      rw (pool_candidates_same k8s k8s' r.pools same, entries_same k8s k8s' rs same) refl

  from_config_with_k8s_same :
      (k8s k8s' : K8sOrigins Url) (c : ProxyConfig Url)
      → SameOrigins k8s k8s'
      → from_config_with_k8s c k8s ≡ from_config_with_k8s c k8s'
  unfolding from_config_with_k8s
  from_config_with_k8s_same k8s k8s' c same =
      λ i. record { routes = entries_same k8s k8s' c.routes same i }

-- No pool gets an origin from both services.
abbrev pub Apart : (Url : Type 0) ⦃u : UrlOps Url⦄ → Service → Service → Type 0
Apart Url a b =
    (pool : String)
    → given pool (service_to_origin {Url = Url} a) ≢ none
    → ¬ (given pool (service_to_origin {Url = Url} b) ≢ none)

module _ {Url : Type 0} ⦃u : UrlOps Url⦄ where
  Apart-sym : (a b : Service) → Apart Url a b → Apart Url b a
  Apart-sym a b h pool x y = h pool y x

  Apart-prop : (a b : Service) → IsProp (Apart Url a b)
  Apart-prop a b = hlevel

  first_some_swap :
      (l a b : Option (List Url))
      → (a ≢ none → ¬ (b ≢ none))
      → first_some (first_some l b) a ≡ first_some (first_some l a) b
  first_some_swap (some x) a b h = refl
  first_some_swap none none none h = refl
  first_some_swap none none (some y) h = refl
  first_some_swap none (some x) none h = refl
  first_some_swap none (some x) (some y) h = absurd (h (λ e. cc) (λ e. cc))

  latest_perm :
      (xs ys : List Service)
      → Permᴰ xs ys
      → Pairwise (Apart Url) xs
      → (pool : String) → latest {Url = Url} xs pool ≡ latest ys pool
  latest_perm _ _ Permᴰ.nil h pool = refl
  latest_perm _ _ (Permᴰ.cons {a = a} {b = b} {l₁ = xs} {l₂ = ys} e p) (Pairwise.cons h later)
        pool =
      ap₂ first_some (latest_perm xs ys p later pool)
        (ap (λ s. given pool (service_to_origin {Url = Url} s)) e)
  latest_perm _ _ (Permᴰ.swap {a = a} {b = b} {a' = a'} {b' = b'} {l = l} e e')
        (Pairwise.cons h later) pool =
      rw (sym e, sym e')
        (first_some_swap (latest l pool) (given pool (service_to_origin {Url = Url} a))
          (given pool (service_to_origin b)) (h b mem-cons_self pool))
  latest_perm xs ys (Permᴰ.trans {l₂ = zs} p q) h pool =
      latest_perm xs zs p h pool
      ∙ latest_perm zs ys q (Permᴰ.pairwise {R = Apart Url} Apart-prop Apart-sym p h) pool

  module _ {F : Type 0} where
    -- Of services of which no two give the same pool an origin, the order does not matter: the
    -- discovered origins of every pool are the same, and so is the table that any configuration
    -- gives with them.
    pub apply_services_order :
        (state : AppState Url F) (k8s : K8sOrigins Url) (xs ys : List Service)
        → Permᴰ xs ys
        → Pairwise (Apart Url) xs
        → SameOrigins (apply_services (state, k8s) xs).1 (apply_services (state, k8s) ys).1
          × ((c : ProxyConfig Url)
              → from_config_with_k8s c (apply_services (state, k8s) xs).1
                ≡ from_config_with_k8s c (apply_services (state, k8s) ys).1)
    apply_services_order state k8s xs ys p h =
        let same : SameOrigins (apply_services (state, k8s) xs).1
            (apply_services (state, k8s) ys).1 =
          λ pool.
            apply_services_lem state k8s xs pool
            ∙ ap (λ o. first_some o (get k8s pool)) (latest_perm xs ys p h pool)
            ∙ sym (apply_services_lem state k8s ys pool) in
        (same, λ c. from_config_with_k8s_same _ _ c same)
