-- ===== src/Cli.antt =====
-- The command line and the summary of a configuration (src/bin/upstreamer/cli.rs). The arguments
-- are those that the parser of the command line hands over; `show_addr` is `Display` of a socket
-- address, `show_duration` is `Debug` of a duration, and a line printed is an entry of a list.
pub mod Summary
use Prim.Native.String
use upstreamer.Common.{
  ℕ, zero, suc, ◌-◌, Bool, true, false, Option, none, some, List, [], ◌∷◌, ◌++◌, String, length,
  replicate, leb, if◌then◌else◌,
}
use upstreamer.Common.Decimal.{decimal}
use upstreamer.Text.Laws.{chars, ◌+++◌}
use upstreamer.External.{UrlOps, as_str, SocketAddr}
use upstreamer.Config.{
  PathBuf, Duration, LbAlgorithm, round_robin, weighted_latency, weighted_metrics, RateLimitConfig,
  OriginConfig, PoolRef, RouteConfig, ActiveHealthConfig, PassiveHealthConfig, KubernetesConfig,
  ErrorPage, ErrorPagesConfig, ProxyConfig,
}
use upstreamer.Config.Validate.{unwrap_or}

pub record Args : Type 0 where
  pub config : PathBuf
  pub validate : Bool
  pub log_level : String

unfoldable pub green : String → String
green s = "\u{1b}[32m" +++ (s +++ "\u{1b}[0m")

unfoldable pub dim : String → String
dim s = "\u{1b}[2m" +++ (s +++ "\u{1b}[0m")

abbrev pub spaces : ℕ → String
spaces zero = ""
spaces (suc n) = String.◌∷◌ " " (spaces n)

-- `{:10}` of a text: spaces behind it, up to ten characters.
unfoldable pub pad : String → String
pad s = s +++ spaces (10 - chars s)

-- `format!("{:?}", lb_algorithm).to_lowercase()`
unfoldable pub algo : LbAlgorithm → String
algo round_robin = "roundrobin"
algo weighted_latency = "weightedlatency"
algo weighted_metrics = "weightedmetrics"

-- `{}/s burst={}`
abbrev pub show_limit : RateLimitConfig → String
show_limit rl = decimal rl.rate +++ ("/s burst=" +++ decimal rl.burst)

abbrev pub show_weight : Option ℕ → String
show_weight none = ""
show_weight (some w) = " " +++ dim ("weight=" +++ decimal w)

-- A line `    {:10} {}` with a dimmed label.
unfoldable pub labelled : String → String → String
labelled label value = "    " +++ (pad (dim label) +++ (" " +++ value))

unfoldable pub route_limit_lines : Option RateLimitConfig → List String
unfolding labelled
route_limit_lines none = []
route_limit_lines (some rl) = labelled "ratelimit:" (show_limit rl) ∷ []

module _ {Url : Type 0} ⦃u : UrlOps Url⦄ where
  unfoldable pub origin_line : OriginConfig Url → String
  unfolding dim
  origin_line o = "      " +++ (dim "→" +++ (" " +++ (as_str o.url +++ show_weight o.weight)))

  unfoldable pub origin_lines : List (OriginConfig Url) → List String
  unfolding origin_line
  origin_lines [] = []
  origin_lines (o ∷ os) = origin_line o ∷ origin_lines os

  unfoldable pub pool_lines : List (PoolRef Url) → List String
  unfolding labelled origin_lines
  pool_lines [] = []
  pool_lines (p ∷ ps) = labelled "pool:" p.name ∷ (origin_lines p.origins ++ pool_lines ps)

  -- The body of the loop over the routes.
  unfoldable pub route_lines : ℕ → RouteConfig Url → List String
  unfolding dim labelled algo pool_lines route_limit_lines
  route_lines i route =
      let host = unwrap_or route.match_host "*" in
      let path = unwrap_or route.match_path "/" in
      ""
      ∷ ("  " +++ (dim "route" +++ (" [" +++ (decimal i +++ "]"))))
      ∷ labelled "match:" (host +++ (" " +++ path))
      ∷ labelled "algo:" (algo route.lb_algorithm)
      ∷ (pool_lines route.pools ++ route_limit_lines route.ratelimit)

  unfoldable pub routes_lines : ℕ → List (RouteConfig Url) → List String
  unfolding route_lines
  routes_lines i [] = []
  routes_lines i (r ∷ rs) = route_lines i r ++ routes_lines (suc i) rs

abbrev pub limit_lines : Option RateLimitConfig → List String
limit_lines none = []
limit_lines (some rl) = "" ∷ ("  " +++ (dim "ratelimit:" +++ (" " +++ show_limit rl))) ∷ []

unfoldable pub active_line : (Duration → String) → ActiveHealthConfig → String
unfolding green dim pad labelled
active_line show_duration a =
    if a.enabled
    then labelled "active:" (
        green "on"
        +++ (" interval="
            +++ (show_duration a.interval
                +++ (" timeout="
                    +++ (show_duration a.timeout
                        +++ (" thresholds="
                            +++ (decimal a.healthy_threshold
                                +++ ("/" +++ decimal a.unhealthy_threshold))))))))
    else labelled "active:" "\u{1b}[31moff\u{1b}[0m"

unfoldable pub passive_line : PassiveHealthConfig → String
unfolding labelled
passive_line p = labelled "passive:" (
    "failures="
    +++ (decimal p.failure_threshold +++ (" successes=" +++ decimal p.success_threshold)))

abbrev pub kubernetes_lines : Option KubernetesConfig → List String
kubernetes_lines none = []
kubernetes_lines (some k8s) =
    let ns = unwrap_or k8s.namespace "default" in
    let sel = unwrap_or k8s.label_selector "(none)" in
    "" ∷ ("  " +++ (dim "kubernetes:" +++ (" ns=" +++ (ns +++ (" selector=" +++ sel))))) ∷ []

unfoldable pub page_lines : List ErrorPage → List String
page_lines [] = []
page_lines (page ∷ pages) =
    ("    " +++ (decimal page.code +++ (" → " +++ page.file))) ∷ page_lines pages

unfoldable pub error_pages_lines : Option ErrorPagesConfig → List String
unfolding dim page_lines
error_pages_lines none = []
error_pages_lines (some ep) =
    "" ∷ ("  " +++ (dim "error_pages:" +++ (" " +++ ep.directory))) ∷ page_lines ep.pages

module _ {Url : Type 0} ⦃u : UrlOps Url⦄ (version : String) (show_addr : SocketAddr → String)
    (show_duration : Duration → String) where
  -- The lines above those of the routes.
  unfoldable pub header_lines : ProxyConfig Url → List String
  unfolding green dim
  header_lines config =
      ("  "
        +++ (green "✓"
            +++ (" upstreamer v" +++ (version +++ (" — " +++ green "configuration valid")))))
      ∷ ""
      ∷ ("  " +++ (dim "listen:" +++ (" " +++ show_addr config.listen)))
      ∷ ("  " +++ (dim "metrics:" +++ (" " +++ show_addr config.metrics_addr)))
      ∷ ""
      ∷ ("  " +++ (dim "routes:" +++ (" " +++ decimal (length config.routes))))
      ∷ []

  -- The lines below those of the routes.
  unfoldable pub footer_lines : ProxyConfig Url → List String
  unfolding dim active_line passive_line error_pages_lines
  footer_lines config =
      limit_lines config.ratelimit
      ++ (""
          ∷ ("  " +++ dim "health:")
          ∷ active_line show_duration config.health.active
          ∷ passive_line config.health.passive
          ∷ (kubernetes_lines config.kubernetes ++ error_pages_lines config.error_pages))

  unfoldable pub print_config_summary : ProxyConfig Url → List String
  unfolding header_lines routes_lines footer_lines
  print_config_summary config =
      header_lines config ++ (routes_lines 0 config.routes ++ footer_lines config)
