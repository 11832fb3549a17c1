-- ===== src/System/Halfway.antt =====
-- A reload in its parts (src/config/reload.rs), with the steps of the other tasks between them.
pub mod Parts
pub mod Race
use upstreamer.Common.{◌≡◌, Bool, Option, List, [], String, ok}
use upstreamer.External.{UrlOps, F64Ops}
use upstreamer.Config.{ProxyConfig, PathBuf}
use upstreamer.Config.Validate.{validate}
use upstreamer.Errors.{Bytes}
use upstreamer.State.{AppState, new_state}
use upstreamer.Route.{K8sOrigins}
use upstreamer.Reload.{swap_router, replace_limiters, add_origins, store_passive, swap_config}
use upstreamer.System.{System, Step}
use upstreamer.System.Watch.{IsOther}

-- How far the reload of a configuration has come: none is under way, the table is swapped, the
-- limiters are replaced, the states are added, or the cached values are stored.
pub data Progress (Url : Type 0) : Type 0 where
  at_rest : Progress Url
  swapped limited added stored : ProxyConfig Url → Progress Url

module _ {Url F : Type 0} ⦃u : UrlOps Url⦄ ⦃f : F64Ops F⦄ where
  pub data Part (exists : PathBuf → Bool)
      : System Url F × Progress Url → System Url F × Progress Url → Type 0 where
    -- the file is loaded and valid
    begins_reload :
        (state : AppState Url F) (k8s : K8sOrigins Url) (c : ProxyConfig Url)
        → validate exists c ≡ ok tt
        → Part exists ((state, k8s), at_rest) ((swap_router state c, k8s), swapped c)
    limits :
        (state : AppState Url F) (k8s : K8sOrigins Url) (c : ProxyConfig Url)
        → Part exists ((state, k8s), swapped c) ((replace_limiters state c, k8s), limited c)
    adds :
        (state : AppState Url F) (k8s : K8sOrigins Url) (c : ProxyConfig Url)
        → Part exists ((state, k8s), limited c) ((add_origins state c, k8s), added c)
    stores :
        (state : AppState Url F) (k8s : K8sOrigins Url) (c : ProxyConfig Url)
        → Part exists ((state, k8s), added c) ((store_passive state c, k8s), stored c)
    ends_reload :
        (state : AppState Url F) (k8s : K8sOrigins Url) (c : ProxyConfig Url)
        → Part exists ((state, k8s), stored c) ((swap_config state c, k8s), at_rest)
    -- another task goes on
    between :
        (s t : System Url F) (p : Progress Url) (step : Step s t)
        → IsOther step
        → Part exists (s, p) (t, p)

  -- What the proxy can come to when other tasks take steps halfway through a reload.
  pub data Reached (exists : PathBuf → Bool) : System Url F × Progress Url → Type 0 where
    starts_at_rest :
        (read : PathBuf → Option Bytes) (c : ProxyConfig Url)
        → Reached exists ((new_state read c, []), at_rest)
    goes_on :
        (w v : System Url F × Progress Url) → Reached exists w → Part exists w v → Reached exists v
