-- ===== src/Config/Validate.antt =====
-- `ProxyConfig::validate` (src/config/parser.rs).
use Prim.Native.String
use upstreamer.Common.{
  ℕ, suc, Bool, false, ◌||◌, not, ◌==◌, string_eq, option_eq, pair_eq, if◌then◌else◌, eqb, Option,
  none, some, List, [], ◌∷◌, String, is_empty, Result, ok, err, ◌>>◌,
}
use upstreamer.Common.Decimal.{decimal}
use upstreamer.External.{UrlOps, scheme, as_str}
use upstreamer.Config.{
  ConfigError, route_has_no_pools, pool_has_no_origins, invalid_origin_url, https_not_supported,
  invalid_rate_limit, duplicate_route_match, error_pages_directory_not_found, RateLimitConfig,
  OriginConfig, PoolRef, RouteConfig, ErrorPagesConfig, ProxyConfig, PathBuf,
}

abbrev pub Check : Type 0
Check = Result ConfigError (Unit {0})

-- `a.or_else(|| b)` and `a.unwrap_or_else(|| b)`
abbrev pub first_some {ℓ} : {A : Type ℓ} → Option A → Option A → Option A
first_some none b = b
first_some (some a) b = some a

abbrev pub unwrap_or {ℓ} : {A : Type ℓ} → Option A → A → A
unwrap_or none b = b
unwrap_or (some a) b = a

-- `seen.contains(&key)`
abbrev pub MatchKey : Type 0
MatchKey = Option String × Option String

unfoldable pub seen_contains : List MatchKey → MatchKey → Bool
seen_contains [] key = false
seen_contains (k ∷ seen) key = k == key || seen_contains seen key

-- A rate limit that is there must be positive.
unfoldable pub check_ratelimit : Option RateLimitConfig → Check
check_ratelimit none = ok tt
check_ratelimit (some rl) =
    if eqb rl.rate 0 || eqb rl.burst 0 then err invalid_rate_limit else ok tt

unfoldable pub check_error_pages : (PathBuf → Bool) → Option ErrorPagesConfig → Check
check_error_pages exists none = ok tt
check_error_pages exists (some pages) =
    if not (exists pages.directory)
    then err (error_pages_directory_not_found pages.directory)
    else ok tt

-- `format!("invalid scheme '{}'", …)`
abbrev pub bad_scheme : String → String
bad_scheme s = String.◌++◌ "invalid scheme '" (String.◌++◌ s "'")

module _ {Url : Type 0} ⦃u : UrlOps Url⦄ where
  unfoldable pub check_origin : String → String → OriginConfig Url → Check
  check_origin route pool origin =
      if not (scheme origin.url == "http")
      then (if scheme origin.url == "https"
          then err (https_not_supported route pool (as_str origin.url))
          else err
              (invalid_origin_url route pool (as_str origin.url) (bad_scheme (scheme origin.url))))
      else ok tt

  unfoldable pub check_origins : String → String → List (OriginConfig Url) → Check
  check_origins route pool [] = ok tt
  check_origins route pool (o ∷ os) = do check_origin route pool o; check_origins route pool os

  unfoldable pub check_pool : String → PoolRef Url → Check
  check_pool route pool =
      if is_empty pool.origins
      then err (pool_has_no_origins route pool.name)
      else check_origins route pool.name pool.origins

  unfoldable pub check_pools : String → List (PoolRef Url) → Check
  check_pools route [] = ok tt
  check_pools route (p ∷ ps) = do check_pool route p; check_pools route ps

  abbrev pub match_key : RouteConfig Url → MatchKey
  match_key r = (r.match_host, r.match_path)

  unfoldable pub route_name : ℕ → RouteConfig Url → String
  route_name idx r =
      unwrap_or (first_some r.match_host r.match_path) (String.◌++◌ "index-" (decimal idx))

  -- The body of the loop over the routes.
  unfoldable pub check_route : List MatchKey → ℕ → RouteConfig Url → Check
  check_route seen idx r =
      if seen_contains seen (match_key r)
      then err (duplicate_route_match r.match_host r.match_path)
      else (if is_empty r.pools
          then err (route_has_no_pools (route_name idx r))
          else (do check_pools (route_name idx r) r.pools; check_ratelimit r.ratelimit))

  -- The loop; `seen` is kept newest first.
  unfoldable pub check_routes : List MatchKey → ℕ → List (RouteConfig Url) → Check
  check_routes seen idx [] = ok tt
  check_routes seen idx (r ∷ rs) = do
    check_route seen idx r
    check_routes (match_key r ∷ seen) (suc idx) rs

  -- `exists` is `Path::exists`, what the file system answers.
  unfoldable pub validate : (PathBuf → Bool) → ProxyConfig Url → Check
  validate exists c = do
    check_routes [] 0 c.routes
    check_ratelimit c.ratelimit
    check_error_pages exists c.error_pages
