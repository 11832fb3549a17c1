-- ===== src/Route.antt =====
-- Routes, their table, and matching a request (src/route.rs).
pub mod Glob
pub mod Matching
pub mod Build
pub mod Selection
use upstreamer.Common.{
  ℕ, zero, suc, ◌≡◌, Bool, true, false, ◌&&◌, Option, none, some, List, [], ◌∷◌, ◌++◌, map, String,
  string_eq, ◌==◌, if◌then◌else◌, Char,
}
use Prim.Native.String
use upstreamer.Common.Table.{get}
use upstreamer.Text.{starts_with, ends_with, contains, split, trim_end_matches}
use upstreamer.External.{UrlOps, as_str, F64Ops}
use upstreamer.Config.{LbAlgorithm, OriginConfig, PoolRef, RouteConfig, ProxyConfig}
use upstreamer.Config.Validate.{unwrap_or}
use upstreamer.Balance.{OriginEndpoint}
use upstreamer.Balance.RoundRobin.{OriginStates, select_round_robin}
use upstreamer.Balance.Weighted.{Draw, select_weighted_latency, select_weighted_metrics}

-- `Arc<dyn LoadBalancer>`: the balancers there are, with their state.
pub data LoadBalancer : Type 0 where
  round_robin : ℕ → LoadBalancer
  weighted_latency weighted_metrics : LoadBalancer

pub record RouteEntry (Url : Type 0) : Type 0 where
  pub match_host : Option String
  pub match_path : Option String
  pub key : String
  pub config : RouteConfig Url
  pub load_balancer : LoadBalancer
  pub candidates : List (OriginEndpoint Url)

pub record Router (Url : Type 0) : Type 0 where
  pub routes : List (RouteEntry Url)

abbrev pub star : Char
star = "*"

abbrev pub slash : Char
slash = "/"

-- The two parts of a pattern with one star; a pattern with more stars is compared as it is.
unfoldable pub match_parts : String → String → List String → Bool
match_parts value pattern (prefix ∷ suffix ∷ []) =
    starts_with value prefix && ends_with value suffix
match_parts value pattern _ = value == pattern

unfoldable pub match_glob : String → String → Bool
unfolding match_parts
match_glob value pattern =
    if pattern == "*"
    then true
    else (if contains pattern star
        then match_parts value pattern (split pattern star)
        else value == pattern)

unfoldable pub host_matches : String → Option String → Bool
unfolding match_glob
host_matches host none = true
host_matches host (some pattern) = match_glob host pattern

unfoldable pub path_matches : String → Option String → Bool
path_matches path none = true
path_matches path (some prefix) = starts_with path prefix

-- `format!("{}:{}", host.unwrap_or("*"), path.unwrap_or("*"))`
unfoldable pub route_key : Option String → Option String → String
route_key host path = String.◌++◌ (unwrap_or host "*") (String.◌++◌ ":" (unwrap_or path "*"))

abbrev pub new_balancer : LbAlgorithm → LoadBalancer
new_balancer LbAlgorithm.round_robin = round_robin 0
new_balancer LbAlgorithm.weighted_latency = weighted_latency
new_balancer LbAlgorithm.weighted_metrics = weighted_metrics

-- `HashMap<String, Vec<Url>>`
abbrev pub K8sOrigins : Type 0 → Type 0
K8sOrigins Url = List (String × List Url)

module _ {Url : Type 0} where
  -- A reference to a route is its place and the entry there.
  unfoldable pub match_from :
      ℕ → List (RouteEntry Url) → String → String → Option (ℕ × RouteEntry Url)
  unfolding host_matches path_matches
  match_from i [] host path = none
  match_from i (r ∷ rs) host path =
      if host_matches host r.match_host && path_matches path r.match_path
      then some (i, r)
      else match_from (suc i) rs host path

  unfoldable pub match_route : Router Url → String → String → Option (ℕ × RouteEntry Url)
  unfolding match_from
  match_route router host path = match_from 0 router.routes host path

module _ {Url : Type 0} ⦃u : UrlOps Url⦄ where
  abbrev pub endpoint : Url → Option ℕ → Option String → OriginEndpoint Url
  endpoint url weight check = record {
    url = url;
    url_key = as_str url;
    url_base = trim_end_matches (as_str url) slash;
    weight = weight;
    health_check_path = check;
  }

  unfoldable pub static_candidates : List (OriginConfig Url) → List (OriginEndpoint Url)
  static_candidates [] = []
  static_candidates (o ∷ os) = endpoint o.url o.weight o.health_check_path ∷ static_candidates os

  unfoldable pub pool_candidates : List (PoolRef Url) → List (OriginEndpoint Url)
  unfolding static_candidates
  pool_candidates [] = []
  pool_candidates (p ∷ ps) = static_candidates p.origins ++ pool_candidates ps

  abbrev pub entry : RouteConfig Url → List (OriginEndpoint Url) → RouteEntry Url
  entry r candidates = record {
    match_host = r.match_host;
    match_path = r.match_path;
    key = route_key r.match_host r.match_path;
    config = r;
    load_balancer = new_balancer r.lb_algorithm;
    candidates = candidates;
  }

  unfoldable pub from_config : ProxyConfig Url → Router Url
  unfolding pool_candidates
  from_config c = record { routes = map (λ r. entry r (pool_candidates r.pools)) c.routes }

  abbrev pub discovered : Option (List Url) → List (OriginEndpoint Url)
  discovered none = []
  discovered (some urls) = map (λ url. endpoint url none none) urls

  unfoldable pub pool_candidates_with_k8s :
      K8sOrigins Url → List (PoolRef Url) → List (OriginEndpoint Url)
  unfolding static_candidates
  pool_candidates_with_k8s k8s [] = []
  pool_candidates_with_k8s k8s (p ∷ ps) =
      static_candidates p.origins
      ++ (discovered (get k8s p.name) ++ pool_candidates_with_k8s k8s ps)

  unfoldable pub from_config_with_k8s : ProxyConfig Url → K8sOrigins Url → Router Url
  unfolding pool_candidates_with_k8s
  from_config_with_k8s c k8s = record {
    routes = map (λ r. entry r (pool_candidates_with_k8s k8s r.pools)) c.routes;
  }

module _ {Url : Type 0} ⦃u : UrlOps Url⦄ {F : Type 0} ⦃f : F64Ops F⦄ where
  -- `select_origin` of the route's balancer, with the balancer that it leaves.
  unfoldable pub select_origin :
      LoadBalancer
      → List (OriginEndpoint Url)
      → OriginStates
      → Draw F
      → LoadBalancer × Option (OriginEndpoint Url)
  select_origin (round_robin counter) candidates states draw =
      let (next, o) = select_round_robin candidates states counter in (round_robin next, o)
  select_origin weighted_latency candidates states draw =
      (weighted_latency, select_weighted_latency candidates states draw)
  select_origin weighted_metrics candidates states draw =
      (weighted_metrics, select_weighted_metrics candidates states draw)
