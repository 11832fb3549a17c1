-- ===== src/System/Reported.antt =====
-- What the health server answers while the tasks run (src/health/checker.rs).
use mathlib.Core.Option
use upstreamer.Common.{
  ◌≡◌, refl, ◌⊎◌, inl, inr, Option, none, some, [], String, string_eq, In, Option-cases,
}
use upstreamer.Common.Table.{get}
use upstreamer.External.{UrlOps, F64Ops}
use upstreamer.Balance.{OriginState}
use upstreamer.Errors.{Bytes, Response}
use upstreamer.State.{AppState, config_keys}
use upstreamer.State.Cover.{HasState}
use upstreamer.Health.Discovery.{k8s_keys}
use upstreamer.Health.Endpoint.{
  Json, object, Members, no_members, insert_origins, upstreams_body, upstreams,
  handle_health_request,
}
use upstreamer.Health.Endpoint.Report.{find, ReportsKey, insert_origins-ReportsKey}
use upstreamer.System.{System, Reachable}
use upstreamer.System.Interleaving.{Reachable-IsSound}
use upstreamer.System.Keys.{Reachable-IsTable}

abbrev pub ok_response : Bytes → Response
ok_response body = record { status = 200; headers = []; body = body }

-- A key that has a state has an object.
ReportsKey-present :
    (origins : Members) (key : String) (o : Option OriginState) (s : OriginState)
    → ReportsKey origins key o
    → o ≡ some s
    → (obj : Members) × (find origins key ≡ some (object obj))
ReportsKey-present origins key none s h e = cc
ReportsKey-present origins key (some t) s (obj, at, _) e = (obj, at)

upstreams_lem :
    {Url F : Type 0} (to_string : Json → Option Bytes) (state : AppState Url F)
    → upstreams to_string state
      ≡ Option.map ok_response
          (to_string (upstreams_body (insert_origins no_members state.origin_states)))
unfolding upstreams
upstreams_lem to_string state =
    elim (Option-cases
      (to_string (upstreams_body (insert_origins no_members state.origin_states)))) [
        | inl failed ↦ rw (failed, upstreams) refl
        | inr (body, written) ↦ rw (written, upstreams) refl
      ]

module _ {Url F : Type 0} ⦃u : UrlOps Url⦄ ⦃f : F64Ops F⦄ (to_string : Json → Option Bytes)
    (metrics : Bytes) where
  -- However the tasks of the proxy have interleaved, the health server answers `/healthz/upstreams`
  -- with the text of one object, as far as it can be serialized; its members report, of every key,
  -- the fields of the state that the key has, and nothing of a key without a state; and every origin
  -- of the configuration in force and every discovered one is among them.
  pub handle_health_request_upstreams :
      (s : System Url F)
      → Reachable s
      → (origins : Members) × (handle_health_request to_string metrics "/healthz/upstreams" s.0
          ≡ Option.map ok_response (to_string (upstreams_body origins)))
        × ((key : String) → ReportsKey origins key (get s.0.origin_states key))
        × ((key : String)
            → In key (config_keys s.0.config.routes) ⊎ In key (k8s_keys s.1)
            → (obj : Members) × (find origins key ≡ some (object obj)))
  unfolding handle_health_request
  handle_health_request_upstreams (state, k8s) before =
      let origins = insert_origins no_members state.origin_states in
      let sound = Reachable-IsSound (state, k8s) before in
      let table = Reachable-IsTable (state, k8s) before in
      let reports : (key : String) → ReportsKey origins key (get state.origin_states key) =
        λ key. insert_origins-ReportsKey state.origin_states key table in
      (
        origins,
        upstreams_lem to_string state,
        reports,
        λ key at.
            let known : HasState state.origin_states key = elim at [
              | inl configured ↦ sound.configured key configured
              | inr found ↦ sound.found key found
            ] in
            let (s, there) = known in
            ReportsKey-present origins key (get state.origin_states key) s (reports key) there,
      )
