-- ===== src/Main.antt =====
-- The program from its arguments to the running proxy (src/bin/upstreamer/main.rs). What the tasks
-- do once they run is the matter of the module `System`, and how the program ends that of Main.Ends;
-- the lines that are logged are left out.
pub mod Starts
pub mod Ends
use upstreamer.Common.{
  ℕ, Bool, true, false, Option, none, some, List, [], ◌∷◌, ◌++◌, String, Result, ok, err,
  if◌then◌else◌,
}
use upstreamer.External.{UrlOps, F64Ops, SocketAddr}
use upstreamer.Config.{PathBuf, Duration, ConfigError, KubernetesConfig, ProxyConfig}
use upstreamer.Config.Validate.{Check, validate}
use upstreamer.Errors.{Bytes}
use upstreamer.State.{AppState, new_state}
use upstreamer.Health.{Target, targets}
use upstreamer.Reload.{LoadError, load}
use upstreamer.Server.Listener.{ServerError}
use upstreamer.Cli.{Args, print_config_summary}

-- What is spawned: the clean-up of the limiters, the health checker with its targets, the metrics
-- thread, the discovery and the watcher of the configuration file; and what `main` itself runs: the
-- proxy and the health server.
pub data Task : Type 0 where
  cleanup self_metrics k8s_discovery proxy health_server : Task
  active_checks : List Target → Task
  watch_config : PathBuf → Task

-- How `main` ends, or what it runs.
pub data Run (Url F : Type 0) : Type 0 where
  load_failed : LoadError → Run Url F
  config_invalid : ConfigError → Run Url F
  printed : List String → Run Url F
  running : AppState Url F → List Task → Run Url F

abbrev pub discovery_tasks : Option KubernetesConfig → List Task
discovery_tasks none = []
discovery_tasks (some k8s) = k8s_discovery ∷ []

module _ {Url : Type 0} ⦃u : UrlOps Url⦄ where
  abbrev pub check_tasks : Bool → ProxyConfig Url → List Task
  check_tasks true c = active_checks (targets c.routes) ∷ []
  check_tasks false c = []

module _ {Url F : Type 0} ⦃u : UrlOps Url⦄ where
  -- The tasks, in the order in which they are spawned.
  unfoldable pub spawned : PathBuf → AppState Url F → List Task
  spawned path state =
      cleanup
      ∷ (check_tasks state.config.health.active.enabled state.config
          ++ (self_metrics
              ∷ (discovery_tasks state.config.kubernetes
                  ++ (watch_config path ∷ proxy ∷ health_server ∷ []))))

-- The files, the TOML parser and the printing, as arguments.
pub record Outside (Url : Type 0) : Type 0 where
  pub read_text : PathBuf → Option String
  pub from_str : String → Option (ProxyConfig Url)
  pub exists : PathBuf → Bool
  pub read : PathBuf → Option Bytes
  pub version : String
  pub show_addr : SocketAddr → String
  pub show_duration : Duration → String

module _ {Url F : Type 0} ⦃u : UrlOps Url⦄ (outside : Outside Url) where
  -- A configuration that is valid, with `args.validate`.
  unfoldable pub run_valid : Args → ProxyConfig Url → Bool → Run Url F
  unfolding print_config_summary new_state spawned
  run_valid args c true =
      printed (print_config_summary outside.version outside.show_addr outside.show_duration c)
  run_valid args c false =
      let state = new_state outside.read c in running state (spawned args.config state)

  unfoldable pub run_checked : Args → ProxyConfig Url → Check → Run Url F
  unfolding run_valid
  run_checked args c (err e) = config_invalid e
  run_checked args c (ok _) = run_valid args c args.validate

  unfoldable pub run_loaded : Args → Result LoadError (ProxyConfig Url) → Run Url F
  unfolding run_checked validate
  run_loaded args (err e) = load_failed e
  run_loaded args (ok c) = run_checked args c (validate outside.exists c)

  -- `main`, of the parsed arguments.
  unfoldable pub main : Args → Run Url F
  unfolding load run_loaded
  main args = run_loaded args (load outside.read_text outside.from_str args.config)

-- The status that the program leaves: `main` returns `Ok(())` or an error.
pub data Exit : Type 0 where
  exit_success exit_failure : Exit

-- `select!` of the two servers: it ends with the first that ends, an error being logged.
unfoldable pub select_servers : Option ServerError → Option ServerError → Option Exit
select_servers none none = none
select_servers none (some e) = some exit_success
select_servers (some e) health = some exit_success

module _ {Url F : Type 0} where
  -- With the errors that the proxy and the health server have ended with; `none` is a program that goes on.
  unfoldable pub exit_of : Run Url F → Option ServerError → Option ServerError → Option Exit
  unfolding select_servers
  exit_of (load_failed e) p h = some exit_failure
  exit_of (config_invalid e) p h = some exit_failure
  exit_of (printed lines) p h = some exit_success
  exit_of (running state tasks) p h = select_servers p h
