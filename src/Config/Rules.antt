-- ===== src/Config/Rules.antt =====
-- What `validate` accepts (src/config/parser.rs).
use upstreamer.Common.{
  ℕ, suc, ◌<◌, ◌≡◌, ◌≢◌, ◌↔◌, refl, arith, Bool, true, string_eq, Option, none, some, List, [], ◌∷◌,
  String, All, In, ok, pair_eq, option_eq, pair_beq_iff,
}
use text.Mathlib.TextEquality.{eq_iff}
use upstreamer.External.{UrlOps, scheme}
use upstreamer.Config.{
  RateLimitConfig, OriginConfig, PoolRef, RouteConfig, ErrorPagesConfig, ProxyConfig, PathBuf,
}
use upstreamer.Config.Validate.{
  MatchKey, seen_contains, check_ratelimit, check_origin, check_origins, check_pool, check_pools,
  match_key, route_name, check_route, check_routes, check_error_pages, validate,
}

-- A rate limit that is there has a positive rate and a positive burst.
abbrev pub IsPositive : Option RateLimitConfig → Type 0
IsPositive none = Unit
IsPositive (some rl) = (0 < rl.rate) × (0 < rl.burst)

abbrev pub Exists : (PathBuf → Bool) → Option ErrorPagesConfig → Type 0
Exists exists none = Unit
Exists exists (some pages) = exists pages.directory ≡ true

check_ratelimit_iff : (rl : Option RateLimitConfig) → (check_ratelimit rl ≡ ok tt) ↔ IsPositive rl
unfolding check_ratelimit
check_ratelimit_iff none = (λ _. tt, λ _. refl)
check_ratelimit_iff (some rl) = ground arith

check_error_pages_iff :
    (exists : PathBuf → Bool) (o : Option ErrorPagesConfig)
    → (check_error_pages exists o ≡ ok tt) ↔ Exists exists o
unfolding check_error_pages
check_error_pages_iff exists none = (λ _. tt, λ _. refl)
check_error_pages_iff exists (some pages) = ground arith

pub seen_contains_iff :
    (seen : List MatchKey) (k : MatchKey)
    → ((seen_contains seen k ≡ true) → In k seen) × (In k seen → seen_contains seen k ≡ true)
unfolding seen_contains
seen_contains_iff [] k = (λ e. cc, λ h. absurd h)
seen_contains_iff (j ∷ seen) k = ground (arith, pair_beq_iff j k, seen_contains_iff seen k)

module _ {Url : Type 0} ⦃u : UrlOps Url⦄ where
  abbrev pub IsHttp : OriginConfig Url → Type 0
  IsHttp o = scheme o.url ≡ "http"

  abbrev pub PoolIsValid : PoolRef Url → Type 0
  PoolIsValid p = (p.origins ≢ []) × All IsHttp p.origins

  abbrev pub RouteIsValid : RouteConfig Url → Type 0
  RouteIsValid r = (r.pools ≢ []) × (All PoolIsValid r.pools × IsPositive r.ratelimit)

  -- No later route has the key.
  abbrev pub IsFresh : MatchKey → List (RouteConfig Url) → Type 0
  IsFresh k rs = All (λ r. match_key r ≢ k) rs

  abbrev pub AreDistinct : List (RouteConfig Url) → Type 0
  AreDistinct [] = Unit
  AreDistinct (r ∷ rs) = IsFresh (match_key r) rs × AreDistinct rs

  -- What a configuration must satisfy, said without the order of the checks.
  pub record IsValid (exists : PathBuf → Bool) (c : ProxyConfig Url) : Type 0 where
    pub routes : All RouteIsValid c.routes
    pub distinct : AreDistinct c.routes
    pub ratelimit : IsPositive c.ratelimit
    pub pages : Exists exists c.error_pages

  check_origin_iff :
      (route pool : String) (o : OriginConfig Url) → (check_origin route pool o ≡ ok tt) ↔ IsHttp o
  unfolding check_origin
  check_origin_iff route pool o = ground (arith, eq_iff (scheme o.url) "http")

  check_origins_iff :
      (route pool : String) (os : List (OriginConfig Url))
      → (check_origins route pool os ≡ ok tt) ↔ All IsHttp os
  unfolding check_origins
  check_origins_iff route pool [] = (λ _. tt, λ _. refl)
  check_origins_iff route pool (o ∷ os) =
      ground (arith, check_origin_iff route pool o, check_origins_iff route pool os)

  check_pool_iff : (route : String) (p : PoolRef Url) → (check_pool route p ≡ ok tt) ↔ PoolIsValid p
  unfolding check_pool
  check_pool_iff route p = ground (arith, check_origins_iff route p.name p.origins)

  check_pools_iff :
      (route : String) (ps : List (PoolRef Url))
      → (check_pools route ps ≡ ok tt) ↔ All PoolIsValid ps
  unfolding check_pools
  check_pools_iff route [] = (λ _. tt, λ _. refl)
  check_pools_iff route (p ∷ ps) = ground (arith, check_pool_iff route p, check_pools_iff route ps)

  check_route_iff :
      (seen : List MatchKey) (idx : ℕ) (r : RouteConfig Url)
      → (check_route seen idx r ≡ ok tt) ↔ (¬ In (match_key r) seen × RouteIsValid r)
  unfolding check_route
  check_route_iff seen idx r = ground (
    arith,
    seen_contains_iff seen (match_key r),
    check_pools_iff (route_name idx r) r.pools,
    check_ratelimit_iff r.ratelimit,
  )

  -- Every route's key is new to the keys seen so far.
  abbrev AreUnseen : List MatchKey → List (RouteConfig Url) → Type 0
  AreUnseen seen rs = All (λ r. ¬ In (match_key r) seen) rs

  unseen-cons :
      (k : MatchKey) (seen : List MatchKey) (rs : List (RouteConfig Url))
      → AreUnseen (k ∷ seen) rs ↔ (IsFresh k rs × AreUnseen seen rs)
  unseen-cons k seen [] = (λ _. (tt, tt), λ _. tt)
  unseen-cons k seen (r ∷ rs) = ground (arith, unseen-cons k seen rs)

  check_routes_iff :
      (seen : List MatchKey) (idx : ℕ) (rs : List (RouteConfig Url))
      → (check_routes seen idx rs ≡ ok tt)
        ↔ (All RouteIsValid rs × (AreDistinct rs × AreUnseen seen rs))
  unfolding check_routes
  check_routes_iff seen idx [] = (λ _. (tt, (tt, tt)), λ _. refl)
  check_routes_iff seen idx (r ∷ rs) = ground (
    arith,
    check_route_iff seen idx r,
    check_routes_iff (match_key r ∷ seen) (suc idx) rs,
    unseen-cons (match_key r) seen rs,
  )

  unseen_nil : (rs : List (RouteConfig Url)) → AreUnseen [] rs
  unseen_nil [] = tt
  unseen_nil (r ∷ rs) = ((λ h. h), unseen_nil rs)

  -- `validate` succeeds exactly on the configurations in which every route has a pool, every pool
  -- an origin, and every origin the scheme `http`, every rate limit is positive in both numbers, no
  -- two routes have the same match, and the directory of error pages exists.
  pub validate_iff :
      (exists : PathBuf → Bool) (c : ProxyConfig Url)
      → (validate exists c ≡ ok tt) ↔ IsValid exists c
  unfolding validate
  validate_iff exists c = ground (
    arith,
    check_routes_iff [] 0 c.routes,
    unseen_nil c.routes,
    check_ratelimit_iff c.ratelimit,
    check_error_pages_iff exists c.error_pages,
  )
