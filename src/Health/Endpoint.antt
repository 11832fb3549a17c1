-- ===== src/Health/Endpoint.antt =====
-- What the health server answers (src/health/checker.rs). The text of the metrics and the
-- serialization of a JSON value are arguments; the loop that accepts the connections, each of which
-- hands its requests to the handler, is in Server.Listener.
pub mod Report
use Prim.Native.String
use upstreamer.Common.{
  ℕ, Bool, Option, none, some, List, [], ◌∷◌, String, ◌==◌, string_eq, if◌then◌else◌,
}
use upstreamer.Balance.{OriginState}
use upstreamer.Balance.RoundRobin.{OriginStates}
use upstreamer.Errors.{Bytes, ascii, Response}
use upstreamer.State.{AppState}

-- `serde_json::Value`, as far as the handler builds it.
mutual
  pub data Json : Type 0 where
    boolean : Bool → Json
    number : ℕ → Json
    object : Members → Json

  pub data Members : Type 0 where
    no_members : Members
    member : String → Json → Members → Members

-- `Map::insert`: the value of a key that is there is replaced.
unfoldable pub insert_member : Members → String → Json → Members
insert_member no_members key v = member key v no_members
insert_member (member k w rest) key v =
    if k == key then member key v rest else member k w (insert_member rest key v)

-- The object of one origin.
unfoldable pub origin_object : OriginState → Members
unfolding insert_member
origin_object s =
    let obj = insert_member no_members "healthy" (boolean s.healthy) in
    let obj = insert_member obj "consecutive_successes" (number s.consecutive_successes) in
    let obj = insert_member obj "consecutive_failures" (number s.consecutive_failures) in
    let obj = insert_member obj "total_requests" (number s.total_requests) in
    let obj = insert_member obj "total_failures" (number s.total_failures) in
    insert_member obj "ewma_latency_ns" (number s.ewma_latency_ns)

-- The loop over the entries of the table of states.
unfoldable pub insert_origins : Members → OriginStates → Members
unfolding insert_member origin_object
insert_origins origins [] = origins
insert_origins origins ((key, s) ∷ states) =
    insert_origins (insert_member origins key (object (origin_object s))) states

-- `json!({ "origins": origins })`
abbrev pub upstreams_body : Members → Json
upstreams_body origins = object (member "origins" (object origins) no_members)

module _ {Url F : Type 0} where
  -- `to_string` is `serde_json::to_string`, `none` standing for its error.
  unfoldable pub upstreams : (Json → Option Bytes) → AppState Url F → Option Response
  unfolding insert_origins
  upstreams to_string state =
      elim (to_string (upstreams_body (insert_origins no_members state.origin_states))) [
        | none ↦ none
        | some body ↦ some (record { status = 200; headers = []; body = body })
      ]

  -- `handle_health_request`, of a path; `metrics` is what the metrics handle renders.
  unfoldable pub handle_health_request :
      (Json → Option Bytes) → Bytes → String → AppState Url F → Option Response
  unfolding upstreams
  handle_health_request to_string metrics path state =
      if path == "/metrics"
      then some (record {
        status = 200;
        headers = ("Content-Type", "text/plain; version=0.0.4") ∷ [];
        body = metrics;
      })
      else (if path == "/healthz"
          then some (record { status = 200; headers = []; body = ascii "{\"status\":\"ok\"}" })
          else (if path == "/healthz/upstreams"
              then upstreams to_string state
              else some (record { status = 404; headers = []; body = ascii "Not Found" })))
