-- ===== src/Tests/OfHealth.antt =====
-- Examples of probes and of discovered services.
use upstreamer.Common.{
  ℕ, ◌≡◌, refl, true, none, some, List, [], ◌∷◌, String, string_eq, Bool-cases, ◌==◌, inl, inr,
}
use upstreamer.Common.Table.{get}
use upstreamer.External.Fixed.{fixed}
use upstreamer.Text.{ends_with}
use upstreamer.Route.{K8sOrigins}
use upstreamer.State.{AppState, new_state}
use upstreamer.Health.{Target, ProbeResult, responded, targets, probe_all}
use upstreamer.Health.Probes.{get-probe_all_slashed}
use upstreamer.Health.Discovery.{Service, pos, apply_services}
use upstreamer.Health.Discovery.{service_to_origin, port_text, parse_u16}
use upstreamer.Health.Discovery.Watcher.{applied, watcher_error, Cluster, run_k8s_discovery}
use upstreamer.Health.Discovery.Course as Discovery
use upstreamer.Health.Discovery.Course.{run_k8s_discovery-Course}
use upstreamer.Health.Discovery.Order.{Apart, SameOrigins, apply_services_order}
use upstreamer.Health.Checker.{run_active_checks}
use upstreamer.Health.Checker.Course as Checker
use upstreamer.Health.Checker.Course.{run_active_checks-Course}
use upstreamer.Text.Numbers.{parse_uint, parse_digits}
use upstreamer.Common.Decimal.{digit, decimal_from, decimal}
use upstreamer.Config.{ProxyConfig, default_poll_interval}
use upstreamer.Route.{from_config_with_k8s}
use mathlib.Core.List.{Permᴰ, Pairwise, Pairwise-pair}
use upstreamer.Balance.{OriginState}
use upstreamer.Balance.RoundRobin.{OriginStates}
use upstreamer.Text.{trim_end_matches}
use upstreamer.Common.{In, map, All, length, arith, ◌<◌, ◌^◌}
use upstreamer.Health.{target_of, origin_targets, pool_targets}
use upstreamer.Health.Checker.Recovers.{Succeeds, run_active_checks_recovers}
use upstreamer.Health.Checker.Ticks.{ticked}
use upstreamer.Health.{is_success_status}
use upstreamer.Tests.{text_url, config, site, b_origin, down, read_page, a_down}

abbrev client : String → ProbeResult
client uri = responded 503

abbrev due : List Target
due = ("http://b/up", "/health") ∷ ("http://b/up", "/") ∷ ("http://a", "/") ∷ []

slashed : ends_with "http://a/" "/" ≡ true
unfolding ends_with
slashed = refl

get-probe_all_slashed_example :
    get (probe_all client 2 3 a_down (targets config.routes)) "http://a/" ≡ get a_down "http://a/"
get-probe_all_slashed_example =
    get-probe_all_slashed client 2 3 "http://a/" slashed a_down config.routes

abbrev service_of : String → Service
service_of ip = record {
  name = some "blue";
  annotations = some (("upstreamer/pool", "web") ∷ []);
  spec = some (record { cluster_ip = some ip; ports = some (pos 8080 ∷ []) });
}

abbrev running : AppState String ℕ
running = new_state read_page config

abbrev none_yet : K8sOrigins String
none_yet = []

abbrev services : List Service
services = service_of "10.0.0.1" ∷ service_of "10.0.0.2" ∷ []

-- A configuration with discovery, and a cluster whose watcher fails once.
abbrev in_cluster : AppState String ℕ
in_cluster = new_state read_page (record config {
  kubernetes = some (record {
    namespace = some "web";
    label_selector = none;
    poll_interval = default_poll_interval;
  });
})

abbrev cluster : Cluster
cluster = record {
  try_default = true;
  watcher = λ scope labels.
      applied (service_of "10.0.0.1") ∷ watcher_error ∷ applied (service_of "10.0.0.2") ∷ [];
}

run_k8s_discovery-Course_example :
    Discovery.Course cluster in_cluster (run_k8s_discovery cluster in_cluster)
run_k8s_discovery-Course_example = run_k8s_discovery-Course cluster in_cluster

-- Two services of different pools, in both orders.
abbrev pooled : String → Service
pooled pool = record {
  name = some pool;
  annotations = none;
  spec = some (record { cluster_ip = some "10.0.0.7"; ports = some (pos 8080 ∷ []) });
}

abbrev swapped : Permᴰ (pooled "web" ∷ pooled "api" ∷ []) (pooled "api" ∷ pooled "web" ∷ [])
swapped = Permᴰ.swap refl refl

web_there : service_to_origin {Url = String} (pooled "web") ≡ some ("web", "http://10.0.0.7:8080")
unfolding service_to_origin port_text get parse_u16 parse_uint parse_digits decimal decimal_from
    digit
web_there = refl

api_there : service_to_origin {Url = String} (pooled "api") ≡ some ("api", "http://10.0.0.7:8080")
unfolding service_to_origin port_text get parse_u16 parse_uint parse_digits decimal decimal_from
    digit
api_there = refl

pooled-Apart : Apart String (pooled "web") (pooled "api")
pooled-Apart pool x y =
    let web : "web" ≡ pool = elim (Bool-cases ("web" == pool)) [
      | inl same ↦ (string_eq.same_iff "web" pool).0 same
      | inr other ↦ absurd (x (rw (web_there, other) refl))
    ] in
    y (rw (api_there, ← web) refl)

pooled-Pairwise : Pairwise (Apart String) (pooled "web" ∷ pooled "api" ∷ [])
pooled-Pairwise = (Pairwise-pair {R = Apart String} (λ a b. hlevel)).1 pooled-Apart

abbrev in_order : List Service
in_order = pooled "web" ∷ pooled "api" ∷ []

abbrev in_turn : List Service
in_turn = pooled "api" ∷ pooled "web" ∷ []

apply_services_order_example :
    SameOrigins
      (apply_services (running, none_yet) in_order).1
      (apply_services (running, none_yet) in_turn).1
    × ((c : ProxyConfig String)
        → from_config_with_k8s c (apply_services (running, none_yet) in_order).1
          ≡ from_config_with_k8s c (apply_services (running, none_yet) in_turn).1)
apply_services_order_example =
    apply_services_order running none_yet in_order in_turn swapped pooled-Pairwise

run_active_checks-Course_example :
    Checker.Course
      (λ uri. true)
      config
      a_down
      (client ∷ client ∷ [])
      (run_active_checks (λ uri. true) config a_down (client ∷ client ∷ []))
run_active_checks-Course_example =
    run_active_checks-Course (λ uri. true) config a_down (client ∷ client ∷ [])

-- The first origin has no slash at its end, is marked unhealthy, and answers again.
abbrev revived : ProxyConfig String
revived = record config {
  routes = record site { pools = record { name = "web"; origins = b_origin ∷ [] } ∷ [] } ∷ [];
}

abbrev b_down : OriginStates
b_down = ("http://b/up", down) ∷ []

abbrev fine : String → ProbeResult
fine uri = responded 200

bases : In "http://b/up" (map (λ t. t.0) (targets revived.routes))
unfolding targets pool_targets origin_targets target_of trim_end_matches
bases = inl refl

are_uris : All (λ t. true ≡ true) (targets revived.routes)
unfolding targets pool_targets origin_targets target_of
are_uris = (refl, tt)

all_fine : Succeeds "http://b/up" (targets revived.routes) fine
unfolding targets pool_targets origin_targets target_of is_success_status
all_fine = (λ e. refl, tt)

b_there : get b_down "http://b/up" ≡ some down
unfolding get
b_there = refl

few : length (ticked 2 3 "http://b/up" (targets revived.routes) (fine ∷ fine ∷ [])) < 2 ^ 32
unfolding targets pool_targets origin_targets target_of trim_end_matches
few = omega arith

run_active_checks_recovers_example :
    (t : OriginState) × (get
        (run_active_checks (λ uri. true) revived b_down (fine ∷ fine ∷ [])).0
        "http://b/up"
      ≡ some t)
    × (t.healthy ≡ true)
run_active_checks_recovers_example =
    run_active_checks_recovers (λ uri. true) revived b_down (fine ∷ fine ∷ []) "http://b/up" down
      refl (λ e. cc) are_uris bases b_there (all_fine, (all_fine, tt)) (omega arith) (omega arith)
      (omega (arith, few))
