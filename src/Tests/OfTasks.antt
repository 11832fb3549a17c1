-- ===== src/Tests/OfTasks.antt =====
-- Examples of the tasks together: the watcher, the limits, the health server and the counts.
use upstreamer.Common.Decimal.{digit, decimal_from, decimal}
use upstreamer.Config.Validate.{
  validate, check_routes, check_route, seen_contains, check_pools, check_pool, check_origins,
  check_origin, check_error_pages, check_ratelimit,
}
use upstreamer.Text.{starts_with}
use upstreamer.Text.Numbers.{parse_uint, parse_digits}
use upstreamer.Route.{from_config_with_k8s}
use upstreamer.Reload.{swap_router}
use upstreamer.Health.Discovery.{
  Service, service_to_origin, port_text, parse_u16, apply_origin, apply_service,
}
use upstreamer.System.Sound.{IsSound}
use upstreamer.Balance.{OriginState}
use upstreamer.System.Halfway.{
  at_rest, swapped, begins_reload, between, Reached, starts_at_rest, goes_on,
}
use upstreamer.System.Halfway.Parts.{Reached-IsSound}
use upstreamer.System.Halfway.Race.{UnderWay, has_begun, comes_on, Completes, apply_service-halfway}
use mathlib.Core.Option
use upstreamer.Common.{
  ℕ, ◌≤◌, ◌≡◌, ◌⊎◌, refl, Bool, true, Option, none, some, List, [], ◌∷◌, String, string_eq, In, ok,
}
use upstreamer.Common.Table.{get}
use upstreamer.External.{IpAddr}
use upstreamer.External.Fixed.{fixed, Fixed-WeightLaws, Fixed-TokenLaws}
use upstreamer.Config.{ProxyConfig, PathBuf}
use upstreamer.Balance.{OriginEndpoint}
use upstreamer.Balance.Weighted.{Draw}
use upstreamer.RateLimit.{Instant}
use upstreamer.Errors.{Bytes, ascii}
use upstreamer.State.{AppState, config_keys, new_state}
use upstreamer.Server.{Incoming, forward, failed, begin_request, finish_request}
use upstreamer.Health.{Target, ProbeResult, responded}
use upstreamer.Health.Discovery.{k8s_keys}
use upstreamer.Health.Endpoint.{Json, object, Members, upstreams_body, handle_health_request}
use upstreamer.Health.Endpoint.Report.{find, ReportsKey}
use upstreamer.System.{System, Reachable, starts, steps, finishes, checks, run_checks}
use upstreamer.System.Watch.{
  is_sent, create, receiving, Watch, Own, writes, IsInForce, Watched, watches, world, Owns, AtRest,
}
use upstreamer.System.Watch.Settles.{steps_left, steps_of, Watched-settles}
use upstreamer.System.Limited.{IsLimited}
use upstreamer.System.Limited.Requests.{Reachable-IsLimited}
use upstreamer.System.Reported.{ok_response, handle_health_request_upstreams}
use upstreamer.Tests.{text_url, config, read_page, a_end}

abbrev begun : AppState String ℕ
begun = new_state read_page config

-- A tick of the checker at which nothing answers as it should.
abbrev client : String → ProbeResult
client uri = responded 503

abbrev due : List Target
due = ("http://b/up", "/health") ∷ []

-- A request has failed at one origin, and a probe at the other.
abbrev answered : System String ℕ
answered = (finish_request begun a_end 7_000 failed, [])

abbrev probed : System String ℕ
probed = (run_checks client 2 1 answered.0 due, [])

probed-Reachable : Reachable probed
probed-Reachable =
    steps answered probed
      (steps (begun, []) answered (starts read_page config) (finishes begun [] a_end 7_000 failed))
      (checks answered.0 [] client 2 1 due)

Reachable-IsLimited_example : IsLimited probed.0
Reachable-IsLimited_example = Reachable-IsLimited Fixed-TokenLaws probed probed-Reachable

abbrev to_string : Json → Option Bytes
to_string j = some (ascii "{}")

handle_health_request_upstreams_example :
    (origins : Members) × (handle_health_request to_string [] "/healthz/upstreams" probed.0
      ≡ Option.map ok_response (to_string (upstreams_body origins)))
    × ((key : String) → ReportsKey origins key (get probed.0.origin_states key))
    × ((key : String)
        → In key (config_keys probed.0.config.routes) ⊎ In key (k8s_keys probed.1)
        → (obj : Members) × (find origins key ≡ some (object obj)))
handle_health_request_upstreams_example =
    handle_health_request_upstreams to_string [] probed probed-Reachable

abbrev everywhere : PathBuf → Bool
everywhere path = true

-- The watcher starts; then the file is created anew.
abbrev watched : Watch String ℕ
watched = record {
  system = (begun, []);
  disk = ok config;
  unsent = 0;
  pending = 0;
  phase = receiving;
}

abbrev changed : ProxyConfig String
changed = record config { ratelimit = none }

abbrev written : Watch String ℕ
written = record watched { disk = ok changed; unsent = 1 }

written-Watched : Watched everywhere written (some create)
unfolding is_sent
written-Watched =
    world watched written none (watches watched refl refl refl) (writes watched (ok changed) create)

Watched-settles_example :
    ((v : Watch String ℕ) (path : Owns everywhere written v)
      → (steps_of everywhere path ≤ steps_left written)
        × (((x : Watch String ℕ) → ¬ Own everywhere v x) → AtRest v × IsInForce everywhere v))
    × ((v : Watch String ℕ) × Owns everywhere written v
        × AtRest v
        × (v.disk ≡ written.disk)
        × IsInForce everywhere v)
Watched-settles_example = Watched-settles everywhere written (some create) written-Watched tt

changed_valid : validate everywhere changed ≡ ok tt
unfolding validate check_routes check_route seen_contains check_pools check_pool check_origins
    check_origin check_error_pages check_ratelimit starts_with
changed_valid = refl

-- A reload has swapped the table, and a request has failed meanwhile.
abbrev half_state : AppState String ℕ
half_state = finish_request (swap_router begun changed) a_end 7_000 failed

half_Reached : Reached everywhere ((half_state, []), swapped changed)
half_Reached =
    goes_on ((swap_router begun changed, []), swapped changed) ((half_state, []), swapped changed)
      (goes_on ((begun, []), at_rest) ((swap_router begun changed, []), swapped changed)
        (starts_at_rest read_page config) (begins_reload begun [] changed changed_valid))
      (between (swap_router begun changed, []) (half_state, []) (swapped changed)
        (finishes (swap_router begun changed) [] a_end 7_000 failed) tt)

Reached-IsSound_example :
    (swapped changed ≡ at_rest → IsSound (half_state, []))
    × ((req : Incoming) (ip : IpAddr) (now : Instant) (draw : Draw ℕ) (o : OriginEndpoint String)
          (state : OriginState)
        → (begin_request half_state req ip now draw).1 ≡ forward o
        → get half_state.origin_states o.url_key ≡ some state
        → state.healthy ≡ true)
Reached-IsSound_example =
    Reached-IsSound Fixed-WeightLaws everywhere (half_state, []) (swapped changed) half_Reached

abbrev a_service : Service
a_service = record {
  name = some "blue";
  annotations = some (("upstreamer/pool", "web") ∷ ("upstreamer/port", "80") ∷ []);
  spec = some (record { cluster_ip = some "10.0.0.1"; ports = none });
}

a_service_there : service_to_origin {Url = String} a_service ≡ some ("web", "http://10.0.0.1:80")
unfolding service_to_origin port_text get parse_u16 parse_uint parse_digits decimal decimal_from
    digit
a_service_there = refl

-- The service is applied when the reload has swapped the table, and a request has failed meanwhile.
half_UnderWay : UnderWay everywhere begun [] changed ((half_state, []), swapped changed)
half_UnderWay =
    comes_on ((swap_router begun changed, []), swapped changed) ((half_state, []), swapped changed)
      (has_begun ((swap_router begun changed, []), swapped changed)
        (begins_reload begun [] changed changed_valid) refl)
      (between (swap_router begun changed, []) (half_state, []) (swapped changed)
        (finishes (swap_router begun changed) [] a_end 7_000 failed) tt)
      refl

apply_service-halfway_example :
    ((v : System String ℕ)
      → Completes everywhere (apply_service (half_state, []) a_service, swapped changed) v
      → (v.0.router
          ≡ from_config_with_k8s begun.config (apply_origin [] ("web", "http://10.0.0.1:80")))
        × (v.0.config ≡ changed))
    × ((v : System String ℕ) × Completes everywhere
          (apply_service (half_state, []) a_service, swapped changed)
          v)
apply_service-halfway_example =
    apply_service-halfway everywhere begun [] changed (half_state, []) (swapped changed) a_service
      ("web", "http://10.0.0.1:80") half_UnderWay a_service_there
