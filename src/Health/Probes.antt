-- ===== src/Health/Probes.antt =====
-- What the active checks record (src/health/checker.rs).
use Prim.Native.String
use upstreamer.Common.{
  ℕ, ◌≡◌, ◌≢◌, refl, ap, sym, ◌∙◌, arith, true, Option, none, some, List, [], ◌∷◌, String,
  string_eq, inl, inr, Option-cases, Bool-cases, ◌==◌, if◌then◌else◌, All, All-append,
}
use mathlib.Core.Option
use upstreamer.Common.Table.{get, get-insert}
use upstreamer.Text.{ends_with}
use upstreamer.Text.Laws.{trim_end_matches-ends_with}
use upstreamer.External.{UrlOps, as_str}
use upstreamer.Config.{OriginConfig, PoolRef, RouteConfig}
use upstreamer.Balance.{OriginState}
use upstreamer.Balance.RoundRobin.{OriginStates}
use upstreamer.Balance.Health.{Outcome, success, failure, record_outcome, record_all}
use upstreamer.Health.{
  Target, target_of, origin_targets, pool_targets, targets, ProbeResult, responded, request_failed,
  timed_out, is_success_status, record_probe, probe, probe_all,
}

-- What a probe counts as.
abbrev pub outcome_of : ProbeResult → Outcome
outcome_of (responded status) = if is_success_status status then success else failure
outcome_of request_failed = failure
outcome_of timed_out = failure

module _ (client : String → ProbeResult) (up down : ℕ) where
  record_probe_lem :
      (result : ProbeResult) (s : OriginState)
      → record_probe up down result s ≡ record_outcome up down s (outcome_of result)
  unfolding record_probe record_outcome
  record_probe_lem (responded status) s = ground arith
  record_probe_lem request_failed s = refl
  record_probe_lem timed_out s = refl

  -- The outcomes of the probes whose base is the key, in order.
  abbrev pub outcomes : String → List Target → List Outcome
  outcomes key [] = []
  outcomes key ((base, path) ∷ ts) =
      if base == key
      then outcome_of (client (String.◌++◌ base path)) ∷ outcomes key ts
      else outcomes key ts

  get-probe :
      (states : OriginStates) (base path key : String)
      → get (probe client up down states (base, path)) key
        ≡ Option.map (λ s. record_all up down s (outcomes key ((base, path) ∷ []))) (get states key)
  unfolding probe record_all
  get-probe states base path key = elim (Option-cases (get states base)) [
    | inl missing ↦ ground (arith, string_eq.same_iff base key, missing)
    | inr (s, there) ↦
        let result = client (String.◌++◌ base path) in
        ground (
          arith,
          string_eq.same_iff base key,
          there,
          record_probe_lem result s,
          get-insert states base key (record_probe up down result s),
        )
  ]

  pub unchanged :
      (key : String) (o : Option OriginState)
      → o ≡ Option.map (λ s. record_all up down s (outcomes key [])) o
  unfolding record_all
  unchanged key none = refl
  unchanged key (some s) = refl

  in_turn :
      (base path key : String) (ts : List Target) (o : Option OriginState)
      → Option.map
          (λ s. record_all up down s (outcomes key ts))
          (Option.map (λ s. record_all up down s (outcomes key ((base, path) ∷ []))) o)
        ≡ Option.map (λ s. record_all up down s (outcomes key ((base, path) ∷ ts))) o
  unfolding record_all
  in_turn base path key ts none = refl
  in_turn base path key ts (some s) = ground arith

  -- One tick of the checker records, under every key that has a state, the probes of the targets
  -- whose base is that key, in order, a status of 200 to 299 as a success and all else as a
  -- failure; and it adds no state.
  pub get-probe_all :
      (states : OriginStates) (ts : List Target) (key : String)
      → get (probe_all client up down states ts) key
        ≡ Option.map (λ s. record_all up down s (outcomes key ts)) (get states key)
  unfolding probe_all record_all
  get-probe_all states [] key = unchanged key (get states key)
  get-probe_all states ((base, path) ∷ ts) key =
      get-probe_all (probe client up down states (base, path)) ts key
      ∙ ap (Option.map (λ s. record_all up down s (outcomes key ts)))
          (get-probe states base path key)
      ∙ in_turn base path key ts (get states key)

  none_recorded : (key : String) (ts : List Target) → All (λ t. t.0 ≢ key) ts → outcomes key ts ≡ []
  none_recorded key [] h = refl
  none_recorded key ((base, path) ∷ ts) (apart, h) = elim (Bool-cases (base == key)) [
    | inl same ↦ absurd (apart ((string_eq.same_iff base key).0 same))
    | inr other ↦ rw other (none_recorded key ts h)
  ]

  module _ {Url : Type 0} ⦃u : UrlOps Url⦄ (key : String) (slashed : ends_with key "/" ≡ true) where
    origin_targets_apart : (os : List (OriginConfig Url)) → All (λ t. t.0 ≢ key) (origin_targets os)
    unfolding origin_targets target_of
    origin_targets_apart [] = tt
    origin_targets_apart (o ∷ os) = (
      (λ e. cc (trim_end_matches-ends_with (as_str o.url), ap (λ k. ends_with k "/") e, slashed)),
      origin_targets_apart os,
    )

    pool_targets_apart : (ps : List (PoolRef Url)) → All (λ t. t.0 ≢ key) (pool_targets ps)
    unfolding pool_targets
    pool_targets_apart [] = tt
    pool_targets_apart (p ∷ ps) =
        All-append (λ t. t.0 ≢ key) (origin_targets p.origins) (pool_targets ps)
          (origin_targets_apart p.origins) (pool_targets_apart ps)

    targets_apart : (rs : List (RouteConfig Url)) → All (λ t. t.0 ≢ key) (targets rs)
    unfolding targets
    targets_apart [] = tt
    targets_apart (r ∷ rs) =
        All-append (λ t. t.0 ≢ key) (pool_targets r.pools) (targets rs) (pool_targets_apart r.pools)
          (targets_apart rs)

    -- No probe of a configuration's targets changes the state under a key that ends with a slash,
    -- as the text of a URL without a path does.
    pub get-probe_all_slashed :
        (states : OriginStates) (rs : List (RouteConfig Url))
        → get (probe_all client up down states (targets rs)) key ≡ get states key
    get-probe_all_slashed states rs =
        get-probe_all states (targets rs) key
        ∙ ap (λ os. Option.map (λ s. record_all up down s os) (get states key))
            (none_recorded key (targets rs) (targets_apart rs))
        ∙ sym (unchanged key (get states key))
