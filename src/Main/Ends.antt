-- ===== src/Main/Ends.antt =====
-- How the program ends (src/bin/upstreamer/main.rs).
use upstreamer.Common.{◌≡◌, ◌≢◌, ◌↔◌, refl, Bool, true, false, Option, none, some, List, ok, err}
use upstreamer.External.{UrlOps, F64Ops}
use upstreamer.Config.{ProxyConfig, ConfigError}
use upstreamer.Config.Validate.{validate}
use upstreamer.Config.Rules.{IsValid, validate_iff}
use upstreamer.Server.Listener.{Accept, ServerError, run_proxy, run_health_server}
use upstreamer.Server.Listener.Ends.{NoneFails, NoFailure, run_proxy_iff, run_health_server_iff}
use upstreamer.Reload.{LoadError, load}
use upstreamer.Cli.{Args}
use upstreamer.Main.{Run, Outside, main, Exit, exit_failure, select_servers, exit_of}
use upstreamer.Main.Starts.{Ending, unreadable, refused, shown, runs, main-Ending}

-- What the sockets of one server do: whether `bind` succeeds, and what `accept` brings.
pub record Sockets (C : Type 0) : Type 0 where
  pub bound : Bool
  pub accepts : List (Accept C)

select_servers_iff :
    (p h : Option ServerError) → (select_servers p h ≡ none) ↔ ((p ≡ none) × (h ≡ none))
unfolding select_servers
select_servers_iff none none = (λ _. (refl, refl), λ _. refl)
select_servers_iff none (some e) = (λ e. cc, λ h. cc)
select_servers_iff (some e) none = (λ e. cc, λ h. cc)
select_servers_iff (some e) (some d) = (λ e. cc, λ h. cc)

select_servers_status : (p h : Option ServerError) → select_servers p h ≢ some exit_failure
unfolding select_servers
select_servers_status none none e = cc
select_servers_status none (some d) e = cc
select_servers_status (some d) none e = cc
select_servers_status (some d) (some c) e = cc

module _ {Url : Type 0} ⦃u : UrlOps Url⦄ (outside : Outside Url) (args : Args) where
  -- A valid configuration can be loaded.
  abbrev pub IsServable : Type 0
  IsServable =
      (c : ProxyConfig Url) × (load outside.read_text outside.from_str args.config ≡ ok c)
      × IsValid outside.exists c

  not_unreadable :
      (e : LoadError) → load outside.read_text outside.from_str args.config ≡ err e → ¬ IsServable
  not_unreadable e failed (c, loaded, valid) = cc

  not_refused :
      (c : ProxyConfig Url) (e : ConfigError)
      → load outside.read_text outside.from_str args.config ≡ ok c
      → validate outside.exists c ≡ err e
      → ¬ IsServable
  not_refused c e loaded invalid (d, loaded', valid) =
      cc (loaded, loaded', invalid, (validate_iff outside.exists d).1 valid)

  module _ {F : Type 0} ⦃f : F64Ops F⦄ (p h : Option ServerError) where
    Ending-exit :
        (r : Run Url F)
        → Ending outside args r
        → ((exit_of r p h ≡ some exit_failure) ↔ (¬ IsServable))
          × ((exit_of r p h ≡ none)
              ↔ (IsServable × (args.validate ≡ false) × (p ≡ none) × (h ≡ none)))
    unfolding exit_of
    Ending-exit _ (unreadable e failed) = (
      (λ _. not_unreadable e failed, λ _. refl),
      (λ k. cc, λ k. absurd (not_unreadable e failed k.0)),
    )
    Ending-exit _ (refused c e loaded invalid) = (
      (λ _. not_refused c e loaded invalid, λ _. refl),
      (λ k. cc, λ k. absurd (not_refused c e loaded invalid k.0)),
    )
    Ending-exit _ (shown c loaded valid asked) = (
      (λ k. cc, λ none_valid. absurd (none_valid (c, loaded, valid))),
      (λ k. cc, λ k. cc (k.1, asked)),
    )
    Ending-exit _ (runs c state tasks loaded valid not_asked same before suits) = (
      (
        λ k. absurd (select_servers_status p h k),
        λ none_valid. absurd (none_valid (c, loaded, valid)),
      ),
      (
        λ k.
            let (no_p, no_h) = (select_servers_iff p h).0 k in
            ((c, loaded, valid), not_asked, no_p, no_h),
        λ k. (select_servers_iff p h).1 (k.2, k.3),
      ),
    )

module _ {Url : Type 0} (F C : Type 0) ⦃u : UrlOps Url⦄ ⦃f : F64Ops F⦄ (outside : Outside Url)
    (args : Args) (proxy health : Sockets C) where
  -- The exit of the whole program, if it ends.
  abbrev pub program_exit : Option Exit
  program_exit =
      exit_of {F = F} (main outside args) (run_proxy proxy.bound proxy.accepts).1
        (run_health_server health.bound health.accepts).1

  -- Of a program whose runtime and metrics recorder start: it fails exactly if no valid configuration can be loaded. It goes on exactly if one
  -- can, validation alone was not asked for, both servers could bind, and neither server has met a
  -- failure of `accept`, nor the proxy one of `set_nodelay`. So, of a program that runs, a server
  -- that cannot bind, and a single connection that cannot be accepted, end it with success.
  pub program_exit_lem :
      ((program_exit ≡ some exit_failure) ↔ (¬ IsServable outside args))
      × ((program_exit ≡ none) ↔ (
          IsServable outside args
          × (args.validate ≡ false)
          × ((proxy.bound ≡ true) × NoneFails proxy.accepts)
          × ((health.bound ≡ true) × NoFailure health.accepts)))
  program_exit_lem =
      let (fails, goes_on) =
        Ending-exit outside args (run_proxy proxy.bound proxy.accepts).1
          (run_health_server health.bound health.accepts).1 (main {F = F} outside args)
          (main-Ending outside args) in
      let proxy_iff = run_proxy_iff proxy.bound proxy.accepts in
      let health_iff = run_health_server_iff health.bound health.accepts in
      (
        fails,
        (
          λ k.
              let (able, asked, p, h) = goes_on.0 k in (able, asked, proxy_iff.0 p, health_iff.0 h),
          λ (able, asked, p, h). goes_on.1 (able, asked, proxy_iff.1 p, health_iff.1 h),
        ),
      )
