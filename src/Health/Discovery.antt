-- ===== src/Health/Discovery.antt =====
-- The services of a cluster (src/health/discovery.rs). The client of the cluster is a parameter:
-- its stream of applied services is the input.
pub mod Latest
pub mod Covered
pub mod Ports
pub mod Watcher
pub mod Course
pub mod Order
use Prim.Native.String
use upstreamer.Common.{
  ◌^◌, ℕ, suc, ◌+◌, ◌-◌, ◌*◌, ◌<◌, ◌≡◌, Bool, true, false, ◌&&◌, Option, none, some, List, [], ◌∷◌,
  ◌++◌, map, String, Char, code, string_eq, leb, ltb, eqb, if◌then◌else◌,
}
use upstreamer.Common.Table.{get, insert, or_insert}
use upstreamer.Common.Decimal.{decimal}
use upstreamer.Text.Numbers.{parse_uint}
use upstreamer.External.{UrlOps, as_str}
use upstreamer.Config.{ProxyConfig}
use upstreamer.Config.Validate.{unwrap_or, first_some}
use upstreamer.Route.{K8sOrigins, from_config_with_k8s}
use upstreamer.State.{AppState, add_states}

-- `i32`, the type of a port in a service.
pub data ℤ : Type 0 where
  pos : ℕ → ℤ
  negsuc : ℕ → ℤ

abbrev pub to_string : ℤ → String
to_string (pos n) = decimal n
to_string (negsuc n) = String.◌++◌ "-" (decimal (suc n))

-- What the code reads of a `Service`.
pub record ServiceSpec : Type 0 where
  pub cluster_ip : Option String
  pub ports : Option (List ℤ)

pub record Service : Type 0 where
  pub name : Option String
  pub annotations : Option (List (String × String))
  pub spec : Option ServiceSpec

abbrev pub pool_annotation : String
pool_annotation = "upstreamer/pool"

abbrev pub port_annotation : String
port_annotation = "upstreamer/port"

-- `and_then`, and `?` on an option.
abbrev pub and_then {ℓ κ} : {A : Type ℓ} {B : Type κ} → Option A → (A → Option B) → Option B
and_then none g = none
and_then (some a) g = g a

abbrev pub first : List ℤ → Option ℤ
first [] = none
first (p ∷ ps) = some p

-- `str::parse::<u16>().ok()`
unfoldable pub parse_u16 : String → Option ℕ
unfolding parse_uint
parse_u16 s = parse_uint (2 ^ 16) s

abbrev pub annotation : Service → String → Option String
annotation svc key = and_then svc.annotations (λ a. get a key)

-- The annotated port, or the first one of the service.
unfoldable pub port_text : Service → ServiceSpec → Option String
port_text svc spec =
    first_some (annotation svc port_annotation)
      (and_then spec.ports (λ ports. and_then (first ports) (λ p. some (to_string p))))

module _ {Url : Type 0} ⦃u : UrlOps Url⦄ where
  unfoldable pub service_to_origin : Service → Option (String × Url)
  unfolding port_text parse_u16
  service_to_origin svc = and_then svc.name (λ name. and_then svc.spec (λ spec.
      and_then spec.cluster_ip (λ cluster_ip. and_then (port_text svc spec) (λ port_str.
        and_then (parse_u16 port_str) (λ port.
          and_then
            (u.parse
              (String.◌++◌ "http://" (String.◌++◌ cluster_ip (String.◌++◌ ":" (decimal port)))))
            (λ url. some (unwrap_or (annotation svc pool_annotation) name, url)))))))

  -- `entry(pool).or_default()`, `clear`, `push`.
  unfoldable pub apply_origin : K8sOrigins Url → String × Url → K8sOrigins Url
  apply_origin k8s (pool, url) = insert (or_insert k8s pool []) pool (url ∷ [])

  unfoldable pub k8s_keys : K8sOrigins Url → List String
  k8s_keys [] = []
  k8s_keys ((pool, urls) ∷ k8s) = map as_str urls ++ k8s_keys k8s

module _ {Url F : Type 0} ⦃u : UrlOps Url⦄ where
  unfoldable pub rebuild_router : AppState Url F → K8sOrigins Url → AppState Url F
  unfolding k8s_keys
  rebuild_router state k8s = record state {
    router = from_config_with_k8s state.config k8s;
    origin_states = add_states state.origin_states (k8s_keys k8s);
  }

  -- One event of the stream; an error of the watcher changes nothing.
  unfoldable pub apply_service :
      AppState Url F × K8sOrigins Url → Service → AppState Url F × K8sOrigins Url
  unfolding rebuild_router apply_origin
  apply_service (state, k8s) svc = elim (service_to_origin {Url = Url} svc) [
    | none ↦ (state, k8s)
    | some origin ↦ let after = apply_origin k8s origin in (rebuild_router state after, after)
  ]

  unfoldable pub apply_services :
      AppState Url F × K8sOrigins Url → List Service → AppState Url F × K8sOrigins Url
  unfolding apply_service
  apply_services system [] = system
  apply_services system (svc ∷ svcs) = apply_services (apply_service system svc) svcs
