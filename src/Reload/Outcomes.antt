-- ===== src/Reload/Outcomes.antt =====
-- What a change of the configuration file does (src/config/reload.rs).
use upstreamer.Common.{◌≡◌, refl, Bool, Option, string_eq, Result, ok, err, inl, inr, ◌⊎◌}
use upstreamer.External.{UrlOps}
use upstreamer.Config.{ProxyConfig, PathBuf}
use upstreamer.Config.Validate.{Check, validate}
use upstreamer.Config.Rules.{IsValid, validate_iff}
use upstreamer.Errors.{Bytes}
use upstreamer.State.{AppState, add_states, config_keys, new_state}
use upstreamer.Reload.{LoadError, apply_checked, reload}

Check-cases : (r : Check) → (r ≡ ok tt) ⊎ ((r ≡ ok tt) → ⊥)
Check-cases (ok tt) = inl refl
Check-cases (err e) = inr (λ h. cc)

module _ {Url F : Type 0} ⦃u : UrlOps Url⦄ where
  -- A valid configuration leaves the proxy as if it had been started with it, except that the
  -- states of the origins are kept and only added to, and that the global limiter and the error
  -- pages stay as they were. A configuration that breaks a rule, or that cannot be loaded, changes
  -- nothing.
  pub reload_lem :
      (exists : PathBuf → Bool) (read : PathBuf → Option Bytes) (state : AppState Url F)
      (loaded : Result LoadError (ProxyConfig Url))
      → ((c : ProxyConfig Url)
          → loaded ≡ ok c
          → IsValid exists c
          → reload exists state loaded ≡ record (new_state read c) {
            origin_states = add_states state.origin_states (config_keys c.routes);
            ratelimiter = state.ratelimiter;
            error_pages = state.error_pages;
          })
        × ((c : ProxyConfig Url)
            → loaded ≡ ok c
            → ¬ IsValid exists c
            → reload exists state loaded ≡ state)
        × ((e : LoadError) → loaded ≡ err e → reload exists state loaded ≡ state)
  unfolding reload new_state
  reload_lem exists read state loaded = (
    λ c e h. rw (e, reload, (validate_iff exists c).1 h) refl,
    λ c e h.
        rw (e, reload) (unchanged c (validate exists c) (λ v. h ((validate_iff exists c).0 v))),
    λ l e. rw (e, reload) refl,
  )
    where
      unchanged :
          (c : ProxyConfig Url) (r : Check) → ¬ (r ≡ ok tt) → apply_checked state c r ≡ state
      unchanged c (ok tt) h = absurd (h refl)
      unchanged c (err e) h = refl
