-- ===== src/System/Halfway/Parts.antt =====
-- What holds at every part of a reload (src/config/reload.rs).
use upstreamer.Common.{◌≡◌, subst, Bool, true, some, List, [], String, string_eq, inr}
use upstreamer.Common.Table.{get}
use upstreamer.External.{UrlOps, F64Ops, WeightLaws, IpAddr}
use upstreamer.Config.{PathBuf}
use upstreamer.Balance.{OriginEndpoint, OriginState}
use upstreamer.Balance.Weighted.{Draw}
use upstreamer.Route.{from_config}
use upstreamer.Route.Selection.{from_config-IsKeyedRouter}
use upstreamer.RateLimit.{Instant}
use upstreamer.State.{add_states, config_keys}
use upstreamer.State.Cover.{add_states-keeps, add_states-HasState, config_keys_lem}
use upstreamer.State.Known.{Extends, IsKnown, AreKnown-mono, AreKnown-added}
use upstreamer.Server.{Incoming, forward, begin_request}
use upstreamer.Server.Unhealthy.{begin_request_up}
use upstreamer.Reload.{swap_router, replace_limiters, add_origins, store_passive, swap_config}
use upstreamer.System.{System}
use upstreamer.System.Sound.{IsSound, IsSoundFor, IsSoundFor-IsSound, new_state-IsSoundFor}
use upstreamer.System.Interleaving.{Step-IsSoundFor}
use upstreamer.System.Halfway.{
  Progress, at_rest, swapped, limited, added, stored, Part, begins_reload, limits, adds, stores,
  ends_reload, between, Reached, starts_at_rest, goes_on,
}

module _ {Url : Type 0} ⦃u : UrlOps Url⦄ where
  -- The keys whose states may be missing, and those whose states are there for good.
  abbrev pub lacking_at : Progress Url → List String
  lacking_at at_rest = []
  lacking_at (swapped c) = config_keys c.routes
  lacking_at (limited c) = config_keys c.routes
  lacking_at (added c) = []
  lacking_at (stored c) = []

  abbrev pub kept_at : Progress Url → List String
  kept_at at_rest = []
  kept_at (swapped c) = []
  kept_at (limited c) = []
  kept_at (added c) = config_keys c.routes
  kept_at (stored c) = config_keys c.routes

module _ {Url F : Type 0} ⦃u : UrlOps Url⦄ ⦃f : F64Ops F⦄ where
  abbrev pub HoldsAt : System Url F × Progress Url → Type 0
  HoldsAt (s, p) = IsSoundFor (lacking_at p) (kept_at p) s

  Part-HoldsAt :
      (exists : PathBuf → Bool) (w v : System Url F × Progress Url)
      → Part exists w v
      → HoldsAt w
      → HoldsAt v
  unfolding swap_router replace_limiters add_origins store_passive swap_config from_config
  Part-HoldsAt exists _ _ (begins_reload state k8s c valid) h = record {
    keyed = from_config-IsKeyedRouter c;
    covered =
        config_keys_lem (IsKnown (config_keys c.routes) state.origin_states) c.routes (λ k. inr);
    configured = h.configured;
    found = h.found;
    stays = h.stays;
  }
  Part-HoldsAt exists _ _ (limits state k8s c) h = record {
    keyed = h.keyed;
    covered = h.covered;
    configured = h.configured;
    found = h.found;
    stays = h.stays;
  }
  Part-HoldsAt exists _ _ (adds state k8s c) h =
      let after = add_states state.origin_states (config_keys c.routes) in
      let there = add_states-HasState state.origin_states (config_keys c.routes) in
      let more : Extends state.origin_states after =
        λ k (s, at). (s, add_states-keeps state.origin_states (config_keys c.routes) k s at) in
      record {
        keyed = h.keyed;
        covered = AreKnown-added (config_keys c.routes) after state.router there (
            AreKnown-mono (config_keys c.routes) state.origin_states after state.router more
              h.covered);
        configured = λ k at. more k (h.configured k at);
        found = λ k at. more k (h.found k at);
        stays = there;
      }
  Part-HoldsAt exists _ _ (stores state k8s c) h = record {
    keyed = h.keyed;
    covered = h.covered;
    configured = h.configured;
    found = h.found;
    stays = h.stays;
  }
  Part-HoldsAt exists _ _ (ends_reload state k8s c) h = record {
    keyed = h.keyed;
    covered = h.covered;
    configured = h.stays;
    found = h.found;
    stays = λ k at. absurd at;
  }
  Part-HoldsAt exists _ _ (between s t p step other) h =
      Step-IsSoundFor (lacking_at p) (kept_at p) s t step h

  Reached-HoldsAt :
      (exists : PathBuf → Bool) (w : System Url F × Progress Url) → Reached exists w → HoldsAt w
  Reached-HoldsAt exists _ (starts_at_rest read c) = new_state-IsSoundFor read c
  Reached-HoldsAt exists v (goes_on w _ before part) =
      Part-HoldsAt exists w v part (Reached-HoldsAt exists w before)

  -- Where other tasks may take steps between the parts of a reload: whenever no reload is under way
  -- the system is sound; and at any time, under the laws of weights, no request is forwarded to an
  -- origin whose state is marked unhealthy.
  pub Reached-IsSound :
      WeightLaws F
      → (exists : PathBuf → Bool) (s : System Url F) (p : Progress Url) → Reached exists (s, p)
      → (p ≡ at_rest → IsSound s)
        × ((req : Incoming) (ip : IpAddr) (now : Instant) (draw : Draw F) (o : OriginEndpoint Url)
              (state : OriginState)
            → (begin_request s.0 req ip now draw).1 ≡ forward o
            → get s.0.origin_states o.url_key ≡ some state
            → state.healthy ≡ true)
  Reached-IsSound laws exists s p before =
      let h = Reached-HoldsAt exists (s, p) before in
      (
        λ e. IsSoundFor-IsSound [] s (subst (λ q. HoldsAt (s, q)) e h),
        λ req ip now draw o state e there.
            begin_request_up laws s.0 req ip now draw o state h.keyed e there,
      )
