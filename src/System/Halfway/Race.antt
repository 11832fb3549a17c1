-- ===== src/System/Halfway/Race.antt =====
-- A service that is applied halfway through a reload (src/config/reload.rs,
-- src/health/discovery.rs).
use upstreamer.Common.{◌≡◌, refl, ap, ◌∙◌, Bool, some, String}
use upstreamer.External.{UrlOps, F64Ops}
use upstreamer.Config.{ProxyConfig, PathBuf}
use upstreamer.Route.{Router, K8sOrigins, from_config_with_k8s}
use upstreamer.State.{AppState}
use upstreamer.Reload.{swap_router, replace_limiters, add_origins, store_passive, swap_config}
use upstreamer.Health.Discovery.{
  Service, service_to_origin, apply_origin, rebuild_router, apply_service,
}
use upstreamer.System.{System}
use upstreamer.System.Watch.Settles.{Step-config}
use upstreamer.System.Halfway.{
  Progress, at_rest, swapped, limited, added, stored, Part, begins_reload, limits, adds, stores,
  ends_reload, between,
}

-- A reload of `c` is under way.
abbrev pub IsReloading : {Url : Type 0} → ProxyConfig Url → Progress Url → Type 0
IsReloading c at_rest = ⊥
IsReloading c (swapped d) = d ≡ c
IsReloading c (limited d) = d ≡ c
IsReloading c (added d) = d ≡ c
IsReloading c (stored d) = d ≡ c

module _ {Url F : Type 0} ⦃u : UrlOps Url⦄ ⦃f : F64Ops F⦄ (exists : PathBuf → Bool) where
  -- What a reload of `c`, begun in a state, has come to before it ends, with steps of other tasks in
  -- between.
  pub data UnderWay (state : AppState Url F) (k8s : K8sOrigins Url) (c : ProxyConfig Url)
      : System Url F × Progress Url → Type 0 where
    has_begun :
        (v : System Url F × Progress Url)
        → Part exists ((state, k8s), at_rest) v
        → IsReloading c v.1
        → UnderWay state k8s c v
    comes_on :
        (w v : System Url F × Progress Url)
        → UnderWay state k8s c w
        → Part exists w v
        → IsReloading c v.1
        → UnderWay state k8s c v

  -- A part of the reload itself.
  abbrev pub IsOwn : {w v : System Url F × Progress Url} → Part exists w v → Type 0
  IsOwn (begins_reload state k8s c valid) = ⊥
  IsOwn (limits state k8s c) = Unit
  IsOwn (adds state k8s c) = Unit
  IsOwn (stores state k8s c) = Unit
  IsOwn (ends_reload state k8s c) = Unit
  IsOwn (between s t p step other) = ⊥

  -- The reload goes on to its end, with no step of another task.
  pub data Completes : System Url F × Progress Url → System Url F → Type 0 where
    ends : (v : System Url F) → Completes (v, at_rest) v
    goes_on :
        (w x : System Url F × Progress Url) (v : System Url F) (part : Part exists w x)
        → IsOwn part
        → Completes x v
        → Completes w v

  -- While a reload is under way, the configuration in force is the one before it.
  Part-config :
      (w v : System Url F × Progress Url) (c : ProxyConfig Url)
      → Part exists w v
      → IsReloading c v.1
      → v.0.0.config ≡ w.0.0.config
  unfolding swap_router replace_limiters add_origins store_passive
  Part-config _ _ c (begins_reload state k8s d valid) h = refl
  Part-config _ _ c (limits state k8s d) h = refl
  Part-config _ _ c (adds state k8s d) h = refl
  Part-config _ _ c (stores state k8s d) h = refl
  Part-config _ _ c (ends_reload state k8s d) h = absurd h
  Part-config _ _ c (between s t p step other) h = Step-config s t step other

  UnderWay-config :
      (state : AppState Url F) (k8s : K8sOrigins Url) (c : ProxyConfig Url)
      (w : System Url F × Progress Url)
      → UnderWay state k8s c w
      → w.0.0.config ≡ state.config
  UnderWay-config state k8s c w (has_begun _ part h) = Part-config _ w c part h
  UnderWay-config state k8s c v (comes_on w _ before part h) =
      Part-config w v c part h ∙ UnderWay-config state k8s c w before

  UnderWay-IsReloading :
      (state : AppState Url F) (k8s : K8sOrigins Url) (c : ProxyConfig Url)
      (w : System Url F × Progress Url)
      → UnderWay state k8s c w
      → IsReloading c w.1
  UnderWay-IsReloading state k8s c w (has_begun _ part h) = h
  UnderWay-IsReloading state k8s c v (comes_on w _ before part h) = h

  -- The table `table` is left alone, and the configuration, once the reload has ended, is `c`.
  abbrev Keeps : ProxyConfig Url → Router Url → System Url F × Progress Url → Type 0
  Keeps c table (v, at_rest) = (v.0.router ≡ table) × (v.0.config ≡ c)
  Keeps c table (v, swapped d) = (v.0.router ≡ table) × (d ≡ c)
  Keeps c table (v, limited d) = (v.0.router ≡ table) × (d ≡ c)
  Keeps c table (v, added d) = (v.0.router ≡ table) × (d ≡ c)
  Keeps c table (v, stored d) = (v.0.router ≡ table) × (d ≡ c)

  Part-Keeps :
      (w v : System Url F × Progress Url) (c : ProxyConfig Url) (table : Router Url)
      (part : Part exists w v)
      → IsOwn part
      → Keeps c table w
      → Keeps c table v
  unfolding replace_limiters add_origins store_passive swap_config
  Part-Keeps _ _ c table (begins_reload state k8s d valid) own h = absurd own
  Part-Keeps _ _ c table (limits state k8s d) own h = h
  Part-Keeps _ _ c table (adds state k8s d) own h = h
  Part-Keeps _ _ c table (stores state k8s d) own h = h
  Part-Keeps _ _ c table (ends_reload state k8s d) own h = h
  Part-Keeps _ _ c table (between s t p step other) own h = absurd own

  Completes-Keeps :
      (w : System Url F × Progress Url) (v : System Url F) (c : ProxyConfig Url)
      (table : Router Url)
      → Completes w v
      → Keeps c table w
      → Keeps c table (v, at_rest)
  Completes-Keeps _ _ c table (ends v) h = h
  Completes-Keeps _ _ c table (goes_on w x v part own rest) h =
      Completes-Keeps x v c table rest (Part-Keeps w x c table part own h)

  Reloading-Keeps :
      (v : System Url F) (p : Progress Url) (c : ProxyConfig Url)
      → IsReloading c p
      → Keeps c v.0.router (v, p)
  Reloading-Keeps v at_rest c h = absurd h
  Reloading-Keeps v (swapped d) c h = (refl, h)
  Reloading-Keeps v (limited d) c h = (refl, h)
  Reloading-Keeps v (added d) c h = (refl, h)
  Reloading-Keeps v (stored d) c h = (refl, h)

  -- A part of the reload itself, and a way on from there.
  way_on :
      (w x : System Url F × Progress Url) (part : Part exists w x)
      → IsOwn part
      → (v : System Url F) × Completes x v
      → (v : System Url F) × Completes w v
  way_on w x part own (v, rest) = (v, goes_on w x v part own rest)

  from_stored :
      (v : System Url F) (c : ProxyConfig Url) → (x : System Url F) × Completes (v, stored c) x
  from_stored v c = way_on _ _ (ends_reload v.0 v.1 c) tt (_, ends _)

  from_added :
      (v : System Url F) (c : ProxyConfig Url) → (x : System Url F) × Completes (v, added c) x
  from_added v c = way_on _ _ (stores v.0 v.1 c) tt (from_stored _ c)

  from_limited :
      (v : System Url F) (c : ProxyConfig Url) → (x : System Url F) × Completes (v, limited c) x
  from_limited v c = way_on _ _ (adds v.0 v.1 c) tt (from_added _ c)

  completion :
      (v : System Url F) (p : Progress Url) (c : ProxyConfig Url)
      → IsReloading c p
      → (x : System Url F) × Completes (v, p) x
  completion v at_rest c h = absurd h
  completion v (stored d) c h = from_stored v d
  completion v (added d) c h = from_added v d
  completion v (limited d) c h = from_limited v d
  completion v (swapped d) c h = way_on _ _ (limits v.0 v.1 d) tt (from_limited _ d)

  applied-router :
      (w : System Url F) (svc : Service) (origin : String × Url)
      → service_to_origin svc ≡ some origin
      → (apply_service w svc).0.router ≡ from_config_with_k8s w.0.config (apply_origin w.1 origin)
  unfolding apply_service rebuild_router
  applied-router (state, k8s) svc origin there = rw (there, apply_service) refl

  -- A service that gives an origin and is applied at any point after a reload has swapped the table
  -- and before it has swapped the configuration, whatever other tasks have done until then: if the
  -- reload then goes on to its end with no step of another task, as it can, it leaves the new
  -- configuration in force with a table built from the old one.
  pub apply_service-halfway :
      (state : AppState Url F) (k8s : K8sOrigins Url) (c : ProxyConfig Url) (w : System Url F)
      (p : Progress Url) (svc : Service) (origin : String × Url)
      → UnderWay state k8s c (w, p)
      → service_to_origin svc ≡ some origin
      → ((v : System Url F)
          → Completes (apply_service w svc, p) v
          → (v.0.router ≡ from_config_with_k8s state.config (apply_origin w.1 origin))
            × (v.0.config ≡ c))
        × ((v : System Url F) × Completes (apply_service w svc, p) v)
  apply_service-halfway state k8s c w p svc origin way there =
      let reloading = UnderWay-IsReloading state k8s c (w, p) way in
      let table =
        applied-router w svc origin there
        ∙ ap (λ d. from_config_with_k8s d (apply_origin w.1 origin))
            (UnderWay-config state k8s c (w, p) way) in
      (
        λ v rest.
            let (same, force) =
              Completes-Keeps (apply_service w svc, p) v c (apply_service w svc).0.router rest
                (Reloading-Keeps (apply_service w svc) p c reloading) in
            (same ∙ table, force),
        completion (apply_service w svc) p c reloading,
      )
