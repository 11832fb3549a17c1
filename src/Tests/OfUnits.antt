-- ===== src/Tests/OfUnits.antt =====
-- The unit tests of the source, run in the model (src/route.rs, src/middleware/ratelimit.rs,
-- src/config/parser.rs): each test is whether all of its assertions hold. The clock of a test moves
-- only while it sleeps, and numbers of tokens are fixed-point numbers.
use upstreamer.Common.{
  ℕ, zero, suc, ◌*◌, ◌≡◌, refl, Bool, true, false, not, ◌&&◌, Option, none, some, List, [], ◌∷◌,
  String, eqb, length, ok, err,
}
use upstreamer.Common.Table.{get, insert, retain}
use upstreamer.External.{v4}
use upstreamer.External.Fixed.{fixed}
use upstreamer.Config.{
  LbAlgorithm, PoolRef, RouteConfig, ProxyConfig, Duration, from_secs, default_listen,
  default_metrics_addr, default_health,
}
use upstreamer.Config.Validate.{Check, validate, check_routes, check_route, seen_contains}
use upstreamer.Text.{contains, split, starts_with, ends_with}
use upstreamer.Route.{match_glob, match_route, from_config}
use upstreamer.RateLimit.{
  TokenBucket, RateLimiter, new_limiter, new_bucket, is_stale, try_consume, check, cleanup_stale,
}
use upstreamer.Tests.{text_url}

unfoldable test_match_glob_exact : Bool
test_match_glob_exact =
    match_glob "example.com" "example.com" && not (match_glob "example.com" "other.com")

unfoldable test_match_glob_wildcard : Bool
test_match_glob_wildcard = match_glob "example.com" "*" && match_glob "anything" "*"

unfoldable test_match_glob_pattern : Bool
test_match_glob_pattern =
    match_glob "foo.example.com" "*.example.com"
    && (match_glob "bar.example.com" "*.example.com"
        && (not (match_glob "example.com" "*.example.com")
            && not (match_glob "foo.other.com" "*.example.com")))

match_glob_passes :
    (test_match_glob_exact ≡ true)
    × (test_match_glob_wildcard ≡ true)
    × (test_match_glob_pattern ≡ true)
unfolding test_match_glob_exact test_match_glob_wildcard test_match_glob_pattern match_glob contains
    split starts_with ends_with
match_glob_passes = (refl, refl, refl)

abbrev is_some {ℓ} : {A : Type ℓ} → Option A → Bool
is_some none = false
is_some (some a) = true

abbrev bare_pool : String → PoolRef String
bare_pool name = record { name = name; origins = [] }

abbrev bare_route : Option String → Option String → List (PoolRef String) → RouteConfig String
bare_route host path pools = record {
  match_host = host;
  match_path = path;
  pools = pools;
  lb_algorithm = LbAlgorithm.round_robin;
  ratelimit = none;
}

abbrev bare_config : List (RouteConfig String) → ProxyConfig String
bare_config routes = record {
  listen = default_listen;
  metrics_addr = default_metrics_addr;
  routes = routes;
  ratelimit = none;
  health = default_health;
  kubernetes = none;
  error_pages = none;
}

unfoldable test_match_route : Bool
test_match_route =
    let config = bare_config (
      bare_route (some "example.com") (some "/api") (bare_pool "pool1" ∷ [])
      ∷ bare_route (some "*.test.com") none (bare_pool "pool2" ∷ [])
      ∷ []) in
    let router = from_config config in
    is_some (match_route router "example.com" "/api/test")
    && (is_some (match_route router "example.com" "/api")
        && (not (is_some (match_route router "example.com" "/other"))
            && (is_some (match_route router "foo.test.com" "/anything")
                && not (is_some (match_route router "other.com" "/api")))))

match_route_passes : test_match_route ≡ true
unfolding test_match_route match_route from_config contains split starts_with ends_with
match_route_passes = refl

abbrev is_err : Check → Bool
is_err (ok _) = false
is_err (err e) = true

unfoldable test_validate_empty_route : Bool
test_validate_empty_route =
    is_err (validate (λ path. true) (bare_config (bare_route none (some "/") [] ∷ [])))

validate_passes : test_validate_empty_route ≡ true
unfolding test_validate_empty_route validate check_routes check_route seen_contains
validate_passes = refl

abbrev millis : ℕ → Duration
millis n = n * 1_000_000

unfoldable test_fresh_bucket_allows_requests : Bool
test_fresh_bucket_allows_requests =
    let bucket : TokenBucket ℕ = new_bucket 10 5 0 in
    let (bucket, first) = try_consume bucket 0 in first && eqb bucket.tokens (fixed.of_nat 4)

unfoldable test_exceeding_burst_rate_limits : Bool
test_exceeding_burst_rate_limits =
    let bucket : TokenBucket ℕ = new_bucket 10 2 0 in
    let (bucket, first) = try_consume bucket 0 in
    let (bucket, second) = try_consume bucket 0 in
    let (bucket, third) = try_consume bucket 0 in first && (second && not third)

-- The loop that takes `n` tokens, all of which must be given.
unfoldable exhaust : ℕ → TokenBucket ℕ → TokenBucket ℕ × Bool
exhaust zero bucket = (bucket, true)
exhaust (suc n) bucket =
    let (bucket, given) = try_consume bucket 0 in
    let (bucket, rest) = exhaust n bucket in (bucket, given && rest)

unfoldable test_tokens_refill_over_time : Bool
unfolding exhaust
test_tokens_refill_over_time =
    let (bucket, all_given) = exhaust 5 (new_bucket 100 5 0) in
    let (bucket, exhausted) = try_consume bucket 0 in
    let (bucket, refilled) = try_consume bucket (millis 20) in
    all_given && (not exhausted && refilled)

unfoldable test_multiple_ips_independent_buckets : Bool
test_multiple_ips_independent_buckets =
    let limiter : RateLimiter ℕ = new_limiter 10 2 in
    let ip1 = v4 2130706433 in
    let ip2 = v4 2130706434 in
    let (limiter, a1) = check limiter ip1 0 in
    let (limiter, a2) = check limiter ip1 0 in
    let (limiter, a3) = check limiter ip1 0 in
    let (limiter, b1) = check limiter ip2 0 in
    let (limiter, b2) = check limiter ip2 0 in
    let (limiter, b3) = check limiter ip2 0 in a1 && (a2 && (not a3 && (b1 && (b2 && not b3))))

unfoldable test_cleanup_stale_buckets : Bool
test_cleanup_stale_buckets =
    let limiter : RateLimiter ℕ = new_limiter 10 5 in
    let ip1 = v4 2130706433 in
    let ip2 = v4 2130706434 in
    let limiter = (check limiter ip1 0).0 in
    let limiter = (check limiter ip2 0).0 in
    let cleaned = cleanup_stale limiter (millis 20) (millis 60) in
    eqb (length limiter.buckets) 2 && eqb (length cleaned.buckets) 0

unfoldable test_is_stale : Bool
test_is_stale =
    let bucket : TokenBucket ℕ = new_bucket 10 5 0 in
    not (is_stale bucket (from_secs 1) 0)
    && (is_stale bucket (millis 5) (millis 10) && not (is_stale bucket (millis 20) (millis 10)))

ratelimit_passes :
    (test_fresh_bucket_allows_requests ≡ true)
    × (test_exceeding_burst_rate_limits ≡ true)
    × (test_tokens_refill_over_time ≡ true)
    × (test_multiple_ips_independent_buckets ≡ true)
    × (test_cleanup_stale_buckets ≡ true)
    × (test_is_stale ≡ true)
unfolding test_fresh_bucket_allows_requests test_exceeding_burst_rate_limits
    test_tokens_refill_over_time test_multiple_ips_independent_buckets test_cleanup_stale_buckets
    test_is_stale new_bucket try_consume new_limiter check cleanup_stale is_stale get insert retain
ratelimit_passes = (refl, refl, refl, refl, refl, refl)
