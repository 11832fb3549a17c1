-- ===== src/Reload.antt =====
-- A new configuration for a running proxy (src/config/reload.rs): what one change of the file does.
-- The watcher of the file and its channel are in the module `System.Watch`.
pub mod Outcomes
use upstreamer.Common.{ℕ, ◌≡◌, Bool, Option, none, some, List, [], ◌∷◌, String, Result, ok, err}
use upstreamer.External.{UrlOps, F64Ops}
use upstreamer.Config.{ProxyConfig, PathBuf}
use upstreamer.Config.Validate.{Check, validate}
use upstreamer.Route.{from_config}
use upstreamer.State.{AppState, add_states, config_keys, add_limiters}

module _ {Url F : Type 0} ⦃u : UrlOps Url⦄ where
  -- The branch for a configuration that loads and is valid, in the order of the code.
  unfoldable pub swap_router : AppState Url F → ProxyConfig Url → AppState Url F
  swap_router state c = record state { router = from_config c }

  -- `clear`, then one limiter for each route that has one.
  unfoldable pub replace_limiters : AppState Url F → ProxyConfig Url → AppState Url F
  replace_limiters state c = record state { route_ratelimiters = add_limiters [] c.routes }

  unfoldable pub add_origins : AppState Url F → ProxyConfig Url → AppState Url F
  add_origins state c = record state {
    origin_states = add_states state.origin_states (config_keys c.routes);
  }

  unfoldable pub store_passive : AppState Url F → ProxyConfig Url → AppState Url F
  store_passive state c = record state {
    passive_enabled = c.health.passive.enabled;
    passive_failure_threshold = c.health.passive.failure_threshold;
    passive_success_threshold = c.health.passive.success_threshold;
  }

  unfoldable pub swap_config : AppState Url F → ProxyConfig Url → AppState Url F
  swap_config state c = record state { config = c }

  unfoldable pub apply_config : AppState Url F → ProxyConfig Url → AppState Url F
  unfolding swap_router replace_limiters add_origins store_passive swap_config
  apply_config state c =
      swap_config (store_passive (add_origins (replace_limiters (swap_router state c) c) c) c) c

-- What `ProxyConfig::load` reports.
pub data LoadError : Type 0 where
  failed_to_read failed_to_parse : LoadError

module _ {Url : Type 0} where
  -- `ProxyConfig::load`; `read` reads a file as text, and `from_str` is `toml::from_str`.
  unfoldable pub load :
      (PathBuf → Option String)
      → (String → Option (ProxyConfig Url))
      → PathBuf
      → Result LoadError (ProxyConfig Url)
  load read from_str path = elim (read path) [
    | none ↦ err failed_to_read
    | some contents ↦ elim (from_str contents) [ none ↦ err failed_to_parse | some c ↦ ok c ]
  ]

module _ {Url F : Type 0} ⦃u : UrlOps Url⦄ where
  abbrev pub apply_checked : AppState Url F → ProxyConfig Url → Check → AppState Url F
  apply_checked state c (ok _) = apply_config state c
  apply_checked state c (err e) = state

  -- What one change of the file does.
  unfoldable pub reload :
      (PathBuf → Bool) → AppState Url F → Result LoadError (ProxyConfig Url) → AppState Url F
  unfolding apply_config validate
  reload exists state (ok c) = apply_checked state c (validate exists c)
  reload exists state (err e) = state
