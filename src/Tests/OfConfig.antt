-- ===== src/Tests/OfConfig.antt =====
-- Examples of configurations, error pages, the state at start and a reload.
use upstreamer.Common.{ℕ, ◌≡◌, ◌↔◌, refl, Bool, true, some, [], String, Result, ok, err, string_eq}
use upstreamer.External.Fixed.{fixed}
use upstreamer.Config.{invalid_rate_limit, ProxyConfig, PathBuf}
use upstreamer.Config.Validate.{validate, check_routes, check_ratelimit}
use upstreamer.Config.Rules.{IsValid, validate_iff}
use upstreamer.Config.Faults.{Fault, validate-Fault}
use upstreamer.State.{AppState, add_states, config_keys, new_state}
use upstreamer.Reload.{LoadError, reload}
use upstreamer.Reload.Outcomes.{reload_lem}
use upstreamer.Tests.{text_url, config, read_page}

abbrev everywhere : PathBuf → Bool
everywhere path = true

validate_iff_example : (validate everywhere config ≡ ok tt) ↔ IsValid everywhere config
validate_iff_example = validate_iff everywhere config

abbrev stopped : ProxyConfig String
stopped = record config { routes = []; ratelimit = some (record { rate = 0; burst = 5 }) }

refused : validate everywhere stopped ≡ err invalid_rate_limit
unfolding validate check_routes check_ratelimit
refused = refl

validate-Fault_example : Fault everywhere stopped invalid_rate_limit
validate-Fault_example = validate-Fault everywhere stopped invalid_rate_limit refused

abbrev added : String
added = "http://c/"

abbrev running : AppState String ℕ
running = new_state read_page config

abbrev loaded : Result LoadError (ProxyConfig String)
loaded = ok stopped

reload_lem_example :
    ((c : ProxyConfig String)
      → loaded ≡ ok c
      → IsValid everywhere c
      → reload everywhere running loaded ≡ record (new_state read_page c) {
        origin_states = add_states running.origin_states (config_keys c.routes);
        ratelimiter = running.ratelimiter;
        error_pages = running.error_pages;
      })
    × ((c : ProxyConfig String)
        → loaded ≡ ok c
        → ¬ IsValid everywhere c
        → reload everywhere running loaded ≡ running)
    × ((e : LoadError) → loaded ≡ err e → reload everywhere running loaded ≡ running)
reload_lem_example = reload_lem everywhere read_page running loaded
