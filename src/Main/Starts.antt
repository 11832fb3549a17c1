-- ===== src/Main/Starts.antt =====
-- When the proxy runs (src/bin/upstreamer/main.rs).
use upstreamer.Common.{
  arith, ◌≡◌, ◌≢◌, ◌↔◌, refl, Bool, true, false, Option, none, some, List, [], ◌∷◌, ◌++◌, Result,
  ok, err, In,
}
use upstreamer.External.{UrlOps, F64Ops}
use upstreamer.Config.{ConfigError, KubernetesConfig, ProxyConfig, PathBuf}
use upstreamer.Config.Validate.{Check, validate}
use upstreamer.Config.Rules.{IsValid, validate_iff}
use upstreamer.State.{AppState, new_state}
use upstreamer.Health.{Target, targets}
use upstreamer.Reload.{LoadError, load}
use upstreamer.System.{Reachable, starts}
use upstreamer.Cli.{Args, print_config_summary}
use upstreamer.Main.{
  Task, cleanup, self_metrics, k8s_discovery, proxy, health_server, active_checks, watch_config,
  Run, load_failed, config_invalid, printed, running, discovery_tasks, check_tasks, spawned,
  Outside, run_valid, run_checked, run_loaded, main,
}

-- The tasks that a configuration asks for are there, and those that it does not are not.
pub record Suits {Url : Type 0} ⦃u : UrlOps Url⦄ (c : ProxyConfig Url) (path : PathBuf)
    (tasks : List Task) : Type 0 where
  pub checked :
      (ts : List Target)
      → In (active_checks ts) tasks ↔ ((c.health.active.enabled ≡ true) × (ts ≡ targets c.routes))
  pub discovered : In k8s_discovery tasks ↔ (c.kubernetes ≢ none)
  pub watched : (p : PathBuf) → In (watch_config p) tasks ↔ (p ≡ path)
  pub always : In cleanup tasks × In self_metrics tasks × In proxy tasks × In health_server tasks

module _ {Url : Type 0} ⦃u : UrlOps Url⦄ (c : ProxyConfig Url) (path : PathBuf) where
  abbrev tasks_of : Bool → Option KubernetesConfig → List Task
  tasks_of b k =
      cleanup
      ∷ (check_tasks b c
          ++ (self_metrics
              ∷ (discovery_tasks k ++ (watch_config path ∷ proxy ∷ health_server ∷ []))))

  tasks_checked :
      (b : Bool) (k : Option KubernetesConfig) (ts : List Target)
      → In (active_checks ts) (tasks_of b k) ↔ ((b ≡ true) × (ts ≡ targets c.routes))
  tasks_checked true none ts = ground arith
  tasks_checked true (some k) ts = ground arith
  tasks_checked false none ts = ground arith
  tasks_checked false (some k) ts = ground arith

  tasks_discovered :
      (b : Bool) (k : Option KubernetesConfig) → In k8s_discovery (tasks_of b k) ↔ (k ≢ none)
  tasks_discovered true none = ground arith
  tasks_discovered true (some k) = ground arith
  tasks_discovered false none = ground arith
  tasks_discovered false (some k) = ground arith

  tasks_watched :
      (b : Bool) (k : Option KubernetesConfig) (p : PathBuf)
      → In (watch_config p) (tasks_of b k) ↔ (p ≡ path)
  tasks_watched true none p = ground arith
  tasks_watched true (some k) p = ground arith
  tasks_watched false none p = ground arith
  tasks_watched false (some k) p = ground arith

  tasks_always :
      (b : Bool) (k : Option KubernetesConfig)
      → In cleanup (tasks_of b k)
        × In self_metrics (tasks_of b k)
        × In proxy (tasks_of b k)
        × In health_server (tasks_of b k)
  tasks_always true none = ground arith
  tasks_always true (some k) = ground arith
  tasks_always false none = ground arith
  tasks_always false (some k) = ground arith

module _ {Url F : Type 0} ⦃u : UrlOps Url⦄ where
  spawned-Suits :
      (path : PathBuf) (state : AppState Url F) → Suits state.config path (spawned path state)
  unfolding spawned
  spawned-Suits path state =
      let enabled = state.config.health.active.enabled in
      let kubernetes = state.config.kubernetes in
      record {
        checked = tasks_checked state.config path enabled kubernetes;
        discovered = tasks_discovered state.config path enabled kubernetes;
        watched = tasks_watched state.config path enabled kubernetes;
        always = tasks_always state.config path enabled kubernetes;
      }

module _ {Url F : Type 0} ⦃u : UrlOps Url⦄ ⦃f : F64Ops F⦄ (outside : Outside Url)
    (args : Args) where
  -- What `main` comes to.
  pub data Ending : Run Url F → Type 0 where
    unreadable :
        (e : LoadError)
        → load outside.read_text outside.from_str args.config ≡ err e
        → Ending (load_failed e)
    refused :
        (c : ProxyConfig Url) (e : ConfigError)
        → load outside.read_text outside.from_str args.config ≡ ok c
        → validate outside.exists c ≡ err e
        → Ending (config_invalid e)
    shown :
        (c : ProxyConfig Url)
        → load outside.read_text outside.from_str args.config ≡ ok c
        → IsValid outside.exists c
        → args.validate ≡ true
        → Ending (
            printed
              (print_config_summary outside.version outside.show_addr outside.show_duration c))
    runs :
        (c : ProxyConfig Url) (state : AppState Url F) (tasks : List Task)
        → load outside.read_text outside.from_str args.config ≡ ok c
        → IsValid outside.exists c
        → args.validate ≡ false
        → state.config ≡ c
        → Reachable (state, [])
        → Suits c args.config tasks
        → Ending (running state tasks)

  run_valid-Ending :
      (c : ProxyConfig Url) (flag : Bool)
      → load outside.read_text outside.from_str args.config ≡ ok c
      → IsValid outside.exists c
      → args.validate ≡ flag
      → Ending (run_valid outside args c flag)
  unfolding run_valid new_state
  run_valid-Ending c true loaded valid asked = shown c loaded valid asked
  run_valid-Ending c false loaded valid asked =
      let state : AppState Url F = new_state outside.read c in
      runs c state (spawned args.config state) loaded valid asked refl (starts outside.read c)
        (spawned-Suits args.config state)

  -- `main` ends with an error where the configuration cannot be loaded or is not valid; with the
  -- summary where it is valid and only validation was asked for; and runs otherwise, from a state
  -- that the tasks can start from, with the health checker, the discovery and the watcher as the
  -- configuration asks for them, and always the other tasks. There is no other course.
  pub main-Ending : Ending (main outside args)
  unfolding main run_loaded run_checked
  main-Ending = by_load (load outside.read_text outside.from_str args.config) refl
    where
      by_check :
          (c : ProxyConfig Url) (r : Check)
          → load outside.read_text outside.from_str args.config ≡ ok c
          → validate outside.exists c ≡ r
          → Ending (run_checked outside args c r)
      by_check c (ok tt) loaded valid =
          run_valid-Ending c args.validate loaded ((validate_iff outside.exists c).0 valid) refl
      by_check c (err e) loaded valid = refused c e loaded valid

      by_load :
          (l : Result LoadError (ProxyConfig Url))
          → load outside.read_text outside.from_str args.config ≡ l
          → Ending (run_loaded outside args l)
      by_load (ok c) loaded = by_check c (validate outside.exists c) loaded refl
      by_load (err e) loaded = unreadable e loaded
