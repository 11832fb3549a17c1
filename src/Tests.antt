-- ===== src/Tests.antt =====
-- The data of the examples that the modules below evaluate.
mod OfBalance
mod OfWeights
mod OfRoutes
mod OfLimits
mod OfConfig
mod OfServer
mod OfHealth
mod OfTasks
mod OfHistory
mod OfConnections
mod OfMain
mod OfUnits
use upstreamer.Common.{
  ℕ, Bool, true, false, Option, none, some, List, [], ◌∷◌, String, if◌then◌else◌,
}
use upstreamer.Text.{starts_with}
use upstreamer.External.{UrlOps, IpAddr, v4}
use upstreamer.Config.{
  OriginConfig, PoolRef, RouteConfig, ProxyConfig, LbAlgorithm, RateLimitConfig, ErrorPagesConfig,
  ErrorPage, default_listen, default_metrics_addr, default_health, PathBuf,
}
use upstreamer.Balance.{OriginEndpoint, OriginState, new}
use upstreamer.Balance.RoundRobin.{OriginStates}
use upstreamer.Balance.Weighted.{Draw}
use upstreamer.Route.{endpoint}
use upstreamer.Errors.{Bytes}

-- URLs as their own texts.
instance abbrev pub text_url : UrlOps String
text_url = record {
  as_str = λ s. s;
  scheme = λ s. if starts_with s "https:" then "https" else "http";
  authority = λ s. s;
  parse = λ s. some s;
}

abbrev pub here : IpAddr
here = v4 2130706433

abbrev pub a_origin : OriginConfig String
a_origin = record { url = "http://a/"; weight = some 3; health_check_path = none }

abbrev pub b_origin : OriginConfig String
b_origin = record { url = "http://b/up"; weight = none; health_check_path = some "/health" }

abbrev pub a_end : OriginEndpoint String
a_end = endpoint "http://a/" (some 3) none

abbrev pub b_end : OriginEndpoint String
b_end = endpoint "http://b/up" none (some "/health")

abbrev pub down : OriginState
down = record {
  ewma_latency_ns = 70;
  consecutive_successes = 0;
  consecutive_failures = 5;
  total_requests = 9;
  total_failures = 6;
  healthy = false;
}

abbrev pub web : PoolRef String
web = record { name = "web"; origins = a_origin ∷ b_origin ∷ [] }

abbrev pub limit : RateLimitConfig
limit = record { rate = 2; burst = 5 }

abbrev pub site : RouteConfig String
site = record {
  match_host = some "*.example.org";
  match_path = none;
  pools = web ∷ [];
  lb_algorithm = LbAlgorithm.round_robin;
  ratelimit = none;
}

abbrev pub pages : ErrorPagesConfig
pages = record {
  directory = "/pages";
  pages =
      record { code = 404; file = "lost.html" } ∷ record { code = 502; file = "gone.html" } ∷ [];
}

abbrev pub config : ProxyConfig String
config = record {
  listen = default_listen;
  metrics_addr = default_metrics_addr;
  routes = site ∷ [];
  ratelimit = some limit;
  health = default_health;
  kubernetes = none;
  error_pages = some pages;
}

-- Only one page can be read.
abbrev pub read_page : PathBuf → Option Bytes
read_page path = if starts_with path "/pages/lost" then some (60 ∷ []) else none

abbrev pub both_up : OriginStates
both_up = ("http://a/", new) ∷ ("http://b/up", new) ∷ []

abbrev pub a_down : OriginStates
a_down = ("http://a/", down) ∷ ("http://b/up", new) ∷ []

abbrev pub half : Draw ℕ
half = record { index = 0; unit = 5 }
