-- ===== src/Config/Faults.antt =====
-- What the errors of `validate` mean (src/config/parser.rs).
use upstreamer.Common.{
  ℕ, suc, ◌≡◌, ◌≢◌, ◌⊎◌, inl, inr, refl, arith, Bool, false, Option, none, some, List, [], ◌∷◌,
  String, In, ok, err, ◌>>◌, Bool-cases, ◌==◌, string_eq, pair_eq, option_eq, is_empty, map, ap,
  ◌++◌,
}
use text.Mathlib.TextEquality.{eq_iff}
use upstreamer.External.{UrlOps, scheme, as_str}
use upstreamer.Config.{
  ConfigError, route_has_no_pools, pool_has_no_origins, invalid_origin_url, https_not_supported,
  invalid_rate_limit, duplicate_route_match, error_pages_directory_not_found, RateLimitConfig,
  OriginConfig, PoolRef, RouteConfig, ErrorPagesConfig, ProxyConfig, PathBuf,
}
use upstreamer.Config.Validate.{
  MatchKey, seen_contains, check_ratelimit, check_origin, check_origins, check_pool, check_pools,
  match_key, route_name, bad_scheme, check_route, check_routes, check_error_pages, validate, Check,
}
use upstreamer.Config.Rules.{seen_contains_iff}

abbrev pub IsZero : RateLimitConfig → Type 0
IsZero rl = (rl.rate ≡ 0) ⊎ (rl.burst ≡ 0)

-- An error of a chain comes from its first or its second part.
>>-eq-err : (m k : Check) {e : ConfigError} → (m >> k) ≡ err e → (m ≡ err e) ⊎ (k ≡ err e)
>>-eq-err (ok tt) k h = inr h
>>-eq-err (err e) k h = inl h

check_ratelimit-Fault :
    (o : Option RateLimitConfig) (e : ConfigError)
    → check_ratelimit o ≡ err e
    → (rl : RateLimitConfig) × (e ≡ invalid_rate_limit) × (o ≡ some rl) × IsZero rl
unfolding check_ratelimit
check_ratelimit-Fault none e h = cc
check_ratelimit-Fault (some rl) e h = (rl, ground arith, refl, ground arith)

module _ {Url : Type 0} ⦃u : UrlOps Url⦄ where
  -- What an error says of an origin, of a pool, of a route, and of the whole configuration.
  pub data OriginFault (o : OriginConfig Url) (e : ConfigError) : Type 0 where
    https :
        (route pool text : String)
        → e ≡ https_not_supported route pool text
        → scheme o.url ≡ "https"
        → OriginFault o e
    other :
        (route pool text reason : String)
        → e ≡ invalid_origin_url route pool text reason
        → scheme o.url ≢ "http"
        → scheme o.url ≢ "https"
        → OriginFault o e

  pub data PoolFault (p : PoolRef Url) (e : ConfigError) : Type 0 where
    no_origins :
        (route : String) → e ≡ pool_has_no_origins route p.name → p.origins ≡ [] → PoolFault p e
    bad_origin : (o : OriginConfig Url) → In o p.origins → OriginFault o e → PoolFault p e

  pub data RouteFault (r : RouteConfig Url) (e : ConfigError) : Type 0 where
    no_pools : (route : String) → e ≡ route_has_no_pools route → r.pools ≡ [] → RouteFault r e
    bad_pool : (p : PoolRef Url) → In p r.pools → PoolFault p e → RouteFault r e
    bad_limit :
        (rl : RateLimitConfig)
        → e ≡ invalid_rate_limit
        → r.ratelimit ≡ some rl
        → IsZero rl
        → RouteFault r e

  pub data RoutesFault (seen : List MatchKey) (rs : List (RouteConfig Url)) (e : ConfigError)
      : Type 0 where
    bad_route : (r : RouteConfig Url) → In r rs → RouteFault r e → RoutesFault seen rs e
    duplicate :
        (earlier : List (RouteConfig Url)) (r : RouteConfig Url) (later : List (RouteConfig Url))
        → e ≡ duplicate_route_match r.match_host r.match_path
        → rs ≡ earlier ++ r ∷ later
        → (In (match_key r) seen ⊎ In (match_key r) (map match_key earlier))
        → RoutesFault seen rs e

  pub data Fault (exists : PathBuf → Bool) (c : ProxyConfig Url) (e : ConfigError) : Type 0 where
    bad_routes : RoutesFault [] c.routes e → Fault exists c e
    bad_global_limit :
        (rl : RateLimitConfig)
        → e ≡ invalid_rate_limit
        → c.ratelimit ≡ some rl
        → IsZero rl
        → Fault exists c e
    no_directory :
        (pages : ErrorPagesConfig)
        → e ≡ error_pages_directory_not_found pages.directory
        → c.error_pages ≡ some pages
        → exists pages.directory ≡ false
        → Fault exists c e

  check_origin-Fault :
      (route name : String) (o : OriginConfig Url) (e : ConfigError)
      → check_origin route name o ≡ err e
      → OriginFault o e
  unfolding check_origin
  check_origin-Fault route name o e h = elim (Bool-cases (scheme o.url == "https")) [
    | inl yes_https ↦
        https route name (as_str o.url)
          (ground (arith, eq_iff (scheme o.url) "http", eq_iff (scheme o.url) "https"))
          ((eq_iff _ _).0 yes_https)
    | inr not_https ↦
        other route name (as_str o.url) (bad_scheme (scheme o.url)) (ground arith)
          (ground (arith, eq_iff (scheme o.url) "http"))
          (ground (arith, eq_iff (scheme o.url) "https"))
  ]

  check_origins-Fault :
      (route name : String) (os : List (OriginConfig Url)) (e : ConfigError)
      → check_origins route name os ≡ err e
      → (o : OriginConfig Url) × In o os × OriginFault o e
  unfolding check_origins
  check_origins-Fault route name [] e h = cc
  check_origins-Fault route name (o ∷ os) e h = elim (>>-eq-err _ _ h) [
    | inl here ↦ (o, inl refl, check_origin-Fault route name o e here)
    | inr later ↦
        let (o', at, fault) = check_origins-Fault route name os e later in (o', inr at, fault)
  ]

  check_pool-Fault :
      (route : String) (p : PoolRef Url) (e : ConfigError)
      → check_pool route p ≡ err e
      → PoolFault p e
  unfolding check_pool
  check_pool-Fault route p e h = elim (Bool-cases (is_empty p.origins)) [
    | inl bare ↦ no_origins route (ground arith) (ground arith)
    | inr filled ↦
        let (o, at, fault) = check_origins-Fault route p.name p.origins e (ground arith) in
        bad_origin o at fault
  ]

  check_pools-Fault :
      (route : String) (ps : List (PoolRef Url)) (e : ConfigError)
      → check_pools route ps ≡ err e
      → (p : PoolRef Url) × In p ps × PoolFault p e
  unfolding check_pools
  check_pools-Fault route [] e h = cc
  check_pools-Fault route (p ∷ ps) e h = elim (>>-eq-err _ _ h) [
    | inl here ↦ (p, inl refl, check_pool-Fault route p e here)
    | inr later ↦ let (p', at, fault) = check_pools-Fault route ps e later in (p', inr at, fault)
  ]

  check_route-Fault :
      (seen : List MatchKey) (idx : ℕ) (r : RouteConfig Url) (e : ConfigError)
      → seen_contains seen (match_key r) ≡ false
      → check_route seen idx r ≡ err e
      → RouteFault r e
  unfolding check_route
  check_route-Fault seen idx r e new h = elim (Bool-cases (is_empty r.pools)) [
    | inl bare ↦ no_pools (route_name idx r) (ground arith) (ground arith)
    | inr filled ↦
        elim (>>-eq-err (check_pools (route_name idx r) r.pools) (check_ratelimit r.ratelimit)
          (ground arith)) [
            | inl in_pools ↦
                let (p, at, fault) = check_pools-Fault (route_name idx r) r.pools e in_pools in
                bad_pool p at fault
            | inr in_limit ↦
                let (rl, is, there, zeroed) = check_ratelimit-Fault r.ratelimit e in_limit in
                bad_limit rl is there zeroed
          ]
  ]

  RoutesFault-cons :
      (seen : List MatchKey) (r : RouteConfig Url) (rs : List (RouteConfig Url)) (e : ConfigError)
      → RoutesFault (match_key r ∷ seen) rs e
      → RoutesFault seen (r ∷ rs) e
  RoutesFault-cons seen r rs e (bad_route q at fault) = bad_route q (inr at) fault
  RoutesFault-cons seen r rs e (duplicate earlier q later is parts (inl (inl same))) =
      duplicate (r ∷ earlier) q later is (ap (◌∷◌ r) parts) (inr (inl same))
  RoutesFault-cons seen r rs e (duplicate earlier q later is parts (inl (inr old))) =
      duplicate (r ∷ earlier) q later is (ap (◌∷◌ r) parts) (inl old)
  RoutesFault-cons seen r rs e (duplicate earlier q later is parts (inr before)) =
      duplicate (r ∷ earlier) q later is (ap (◌∷◌ r) parts) (inr (inr before))

  check_routes-Fault :
      (seen : List MatchKey) (idx : ℕ) (rs : List (RouteConfig Url)) (e : ConfigError)
      → check_routes seen idx rs ≡ err e
      → RoutesFault seen rs e
  unfolding check_routes
  check_routes-Fault seen idx [] e h = cc
  check_routes-Fault seen idx (r ∷ rs) e h = elim (>>-eq-err (check_route seen idx r) _ h) [
    | inl here ↦ elim (Bool-cases (seen_contains seen (match_key r))) [
      | inl old ↦
          duplicate [] r rs (unfold check_route in ground arith) refl
            (inl ((seen_contains_iff seen (match_key r)).0 old))
      | inr new ↦ bad_route r (inl refl) (check_route-Fault seen idx r e new here)
    ]
    | inr below ↦
        RoutesFault-cons seen r rs e (check_routes-Fault (match_key r ∷ seen) (suc idx) rs e below)
  ]

  pages-Fault :
      (exists : PathBuf → Bool) (c : ProxyConfig Url) (e : ConfigError)
      (o : Option ErrorPagesConfig)
      → c.error_pages ≡ o
      → check_error_pages exists o ≡ err e
      → Fault exists c e
  unfolding check_error_pages
  pages-Fault exists c e none there k = cc
  pages-Fault exists c e (some pages) there k =
      no_directory pages (ground arith) there (ground arith)

  -- Each error of `validate` names a fault that the configuration has: the kind of error says
  -- which rule is broken, and a route, a pool or an origin of the configuration breaks it.
  pub validate-Fault :
      (exists : PathBuf → Bool) (c : ProxyConfig Url) (e : ConfigError)
      → validate exists c ≡ err e
      → Fault exists c e
  unfolding validate
  validate-Fault exists c e h = elim (>>-eq-err _ _ h) [
    | inl in_routes ↦ bad_routes (check_routes-Fault [] 0 c.routes e in_routes)
    | inr below ↦ elim (>>-eq-err _ _ below) [
      | inl in_limit ↦
          let (rl, is, there, zeroed) = check_ratelimit-Fault c.ratelimit e in_limit in
          bad_global_limit rl is there zeroed
      | inr in_pages ↦ pages-Fault exists c e c.error_pages refl in_pages
    ]
  ]
