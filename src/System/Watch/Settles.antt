-- ===== src/System/Watch/Settles.antt =====
-- After the last change of the file, the watcher comes to rest (src/config/reload.rs).
use upstreamer.Common.{
  ℕ, zero, suc, ◌+◌, ◌*◌, ◌≤◌, ◌<◌, ◌≡◌, ◌≢◌, refl, ap, ◌∙◌, ◌⊎◌, inl, inr, arith, Bool, Option, ok,
  Option-cases,
}
use upstreamer.Route.{K8sOrigins}
use upstreamer.Server.Frames.{begin_request_parts, finish_request_parts}
use upstreamer.External.{UrlOps, F64Ops}
use upstreamer.Config.{ProxyConfig, PathBuf}
use upstreamer.Config.Rules.{IsValid, validate_iff}
use upstreamer.State.{AppState}
use upstreamer.Reload.{reload, apply_config}
use upstreamer.Health.Discovery.{Service, service_to_origin, apply_service, rebuild_router}
use upstreamer.System.{
  System, Step, begins, finishes, checks, cleans, reloads, discovers, run_checks, cleanup_limiters,
}
use upstreamer.System.Watch.{
  EventKind, any, access, create, modify, remove, other, is_sent, IsWritten, last_change, Phase,
  receiving, sleeping, draining, loading, Watch, IsOther, Own, sends, receives, wakes, drains,
  finds_none, loads, World, writes, others, IsInForce, Watched, watches, own, world, Owns, done,
  next, AtRest,
}

-- How many steps of its own the watcher can still take.
abbrev phase_steps : Phase → ℕ
phase_steps receiving = 0
phase_steps loading = 1
phase_steps draining = 2
phase_steps sleeping = 3

abbrev phase-cases :
    (p : Phase) → (p ≡ receiving) ⊎ ((p ≡ sleeping) ⊎ ((p ≡ draining) ⊎ (p ≡ loading)))
phase-cases receiving = inl refl
phase-cases sleeping = inr (inl refl)
phase-cases draining = inr (inr (inl refl))
phase-cases loading = inr (inr (inr refl))

ℕ-cases : (n : ℕ) → (n ≡ 0) ⊎ ((m : ℕ) × (n ≡ suc m))
ℕ-cases zero = inl refl
ℕ-cases (suc m) = inr (m, refl)

module _ {Url F : Type 0} ⦃u : UrlOps Url⦄ where
  apply_service-config :
      (state : AppState Url F) (k8s : K8sOrigins Url) (svc : Service)
      → (apply_service (state, k8s) svc).0.config ≡ state.config
  unfolding apply_service rebuild_router
  apply_service-config state k8s svc = elim (Option-cases (service_to_origin {Url = Url} svc)) [
    | inl nothing ↦ rw (nothing, apply_service) refl
    | inr (origin, there) ↦ rw (there, apply_service) refl
  ]

  reload-config :
      (exists : PathBuf → Bool) (state : AppState Url F) (c : ProxyConfig Url)
      → IsValid exists c
      → (reload exists state (ok c)).config ≡ c
  unfolding reload apply_config
  reload-config exists state c h = rw ((validate_iff exists c).1 h, reload) refl

module _ {Url F : Type 0} ⦃u : UrlOps Url⦄ ⦃f : F64Ops F⦄ where
  -- Only a reload changes the configuration in force.
  pub Step-config : (s t : System Url F) (step : Step s t) → IsOther step → t.0.config ≡ s.0.config
  unfolding cleanup_limiters run_checks
  Step-config _ _ (begins state k8s req ip now draw) h =
      ap (λ s. s.config) (begin_request_parts state req ip now draw)
  Step-config _ _ (finishes state k8s o latency answer) h =
      ap (λ s. s.config) (finish_request_parts state o latency answer)
  Step-config _ _ (checks state k8s client up down ts) h = refl
  Step-config _ _ (cleans state k8s now) h = refl
  Step-config _ _ (reloads state k8s exists loaded) h = absurd h
  Step-config _ _ (discovers state k8s svc) h = apply_service-config state k8s svc

module _ {Url F : Type 0} where
  abbrev pub steps_left : Watch Url F → ℕ
  steps_left w = 6 * w.unsent + 5 * w.pending + phase_steps w.phase

module _ {Url F : Type 0} ⦃u : UrlOps Url⦄ ⦃f : F64Ops F⦄ (exists : PathBuf → Bool) where
  Own-steps_left : (w v : Watch Url F) → Own exists w v → steps_left v < steps_left w
  Own-steps_left _ _ (sends w n e h) = omega arith
  Own-steps_left _ _ (receives w n p e) = rw p (omega arith)
  Own-steps_left _ _ (wakes w p) = rw p (omega arith)
  Own-steps_left _ _ (drains w n p e) = omega arith
  Own-steps_left _ _ (finds_none w p e) = rw p (omega arith)
  Own-steps_left _ _ (loads w p) = rw p (omega arith)

  Own-disk : (w v : Watch Url F) → Own exists w v → v.disk ≡ w.disk
  Own-disk _ _ (sends w n e h) = refl
  Own-disk _ _ (receives w n p e) = refl
  Own-disk _ _ (wakes w p) = refl
  Own-disk _ _ (drains w n p e) = refl
  Own-disk _ _ (finds_none w p e) = refl
  Own-disk _ _ (loads w p) = refl

  -- Unless it is at rest, the watcher has a step to take.
  progress : (w : Watch Url F) → AtRest w ⊎ ((v : Watch Url F) × Own exists w v)
  progress w = elim (phase-cases w.phase) [
    | inr (inl p) ↦ inr (record w { phase = draining }, wakes w p)
    | inr (inr (inr p)) ↦ inr (_, loads w p)
    | inr (inr (inl p)) ↦ elim (ℕ-cases w.pending) [
      | inl e ↦ inr (record w { phase = loading }, finds_none w p e)
      | inr (n, e) ↦ inr (record w { pending = n }, drains w n p e)
    ]
    | inl p ↦ elim (ℕ-cases w.pending) [
      | inr (n, e) ↦ inr (record w { pending = n; phase = sleeping }, receives w n p e)
      | inl e ↦ elim (ℕ-cases w.unsent) [
        | inl none_left ↦ inl (none_left, e, p)
        | inr (n, more) ↦ inr (_, sends w n more (omega arith))
      ]
    ]
  ]

  settle_from :
      (n : ℕ) (w : Watch Url F)
      → steps_left w < n
      → (v : Watch Url F) × Owns exists w v × AtRest v × (v.disk ≡ w.disk)
  settle_from zero w h = absurd (omega arith)
  settle_from (suc n) w h = elim (progress w) [
    | inl rest ↦ (w, done w, rest, refl)
    | inr (v, step) ↦
        let fewer = Own-steps_left w v step in
        let (x, path, rest, same) = settle_from n v (omega arith) in
        (x, next w v x step path, rest, same ∙ Own-disk w v step)
  ]

  -- If the last change was a write, the file's valid configuration is in force, or a reload is due.
  abbrev IsCurrent : Watch Url F → Option EventKind → Type 0
  IsCurrent w last =
      IsWritten last
      → (c : ProxyConfig Url) → w.disk ≡ ok c
      → IsValid exists c
      → (w.system.0.config ≡ c) ⊎ ((0 < w.unsent + w.pending) ⊎ (w.phase ≢ receiving))

  Own-IsCurrent :
      (w v : Watch Url F) (last : Option EventKind)
      → Own exists w v
      → IsCurrent w last
      → IsCurrent v last
  Own-IsCurrent _ _ last (sends w n e h) current written c at valid =
      elim (current written c at valid) [
        | inl same ↦ inl same
        | inr (inl due) ↦ inr (inl (omega arith))
        | inr (inr busy) ↦ inr (inr busy)
      ]
  Own-IsCurrent _ _ last (receives w n p e) current written c at valid = inr (inr (λ q. cc))
  Own-IsCurrent _ _ last (wakes w p) current written c at valid = inr (inr (λ q. cc))
  Own-IsCurrent _ _ last (drains w n p e) current written c at valid = inr (inr (λ q. cc (q, p)))
  Own-IsCurrent _ _ last (finds_none w p e) current written c at valid = inr (inr (λ q. cc))
  Own-IsCurrent _ _ last (loads w p) current written c at valid =
      inl (rw at (reload-config exists w.system.0 c valid))

  World-IsCurrent :
      (w v : Watch Url F) (last : Option EventKind) (step : World exists w v)
      → IsCurrent w last
      → IsCurrent v (last_change exists step last)
  unfolding is_sent
  World-IsCurrent _ _ last (writes w disk create) current written c at valid =
      inr (inl (omega arith))
  World-IsCurrent _ _ last (writes w disk modify) current written c at valid =
      inr (inl (omega arith))
  World-IsCurrent _ _ last (writes w disk any) current written c at valid = absurd written
  World-IsCurrent _ _ last (writes w disk access) current written c at valid = absurd written
  World-IsCurrent _ _ last (writes w disk remove) current written c at valid = absurd written
  World-IsCurrent _ _ last (writes w disk other) current written c at valid = absurd written
  World-IsCurrent _ _ last (others w t step apart) current written c at valid =
      elim (current written c at valid) [
        | inl same ↦ inl (Step-config w.system t step apart ∙ same)
        | inr due ↦ inr due
      ]

  Watched-IsCurrent :
      (w : Watch Url F) (last : Option EventKind) → Watched exists w last → IsCurrent w last
  Watched-IsCurrent _ _ (watches w e p q) = λ written. absurd written
  Watched-IsCurrent v _ (own w _ last before step) =
      Own-IsCurrent w v last step (Watched-IsCurrent w last before)
  Watched-IsCurrent v _ (world w _ last before step) =
      World-IsCurrent w v last step (Watched-IsCurrent w last before)

  Owns-Watched :
      (w v : Watch Url F) (last : Option EventKind)
      → Owns exists w v
      → Watched exists w last
      → Watched exists v last
  Owns-Watched _ _ last (done w) h = h
  Owns-Watched _ _ last (next w v x step path) h = Owns-Watched v x last path (own w v last h step)

  AtRest-IsInForce :
      (w : Watch Url F) (last : Option EventKind)
      → Watched exists w last
      → IsWritten last
      → AtRest w
      → IsInForce exists w
  AtRest-IsInForce w last h written (unsent, pending, phase) c at valid =
      elim (Watched-IsCurrent w last h written c at valid) [
        | inl same ↦ same
        | inr (inl due) ↦ absurd (omega arith)
        | inr (inr busy) ↦ absurd (busy phase)
      ]

  -- The number of steps.
  abbrev pub steps_of : {w v : Watch Url F} → Owns exists w v → ℕ
  steps_of (done w) = 0
  steps_of (next w v x step path) = suc (steps_of path)

  steps_of-le : (w v : Watch Url F) (path : Owns exists w v) → steps_of path ≤ steps_left w
  steps_of-le _ _ (done w) = omega arith
  steps_of-le _ _ (next w v x step path) =
      omega (arith, Own-steps_left w v step, steps_of-le v x path)

  -- However changes of the file of any kind, the steps of the watcher and those of the other tasks
  -- have interleaved, if the last change was the file's creation or modification: once the file is
  -- left alone the watcher takes no more than a given number of steps of its own, in whichever
  -- order, and where it can take none it is at rest and the file's configuration, if valid, is in
  -- force; and it does come there. Nothing is asked of what was in force when the watcher started.
  pub Watched-settles :
      (w : Watch Url F) (last : Option EventKind)
      → Watched exists w last
      → IsWritten last
      → ((v : Watch Url F) (path : Owns exists w v)
          → (steps_of path ≤ steps_left w)
            × (((x : Watch Url F) → ¬ Own exists v x) → AtRest v × IsInForce exists v))
        × ((v : Watch Url F) × Owns exists w v × AtRest v × (v.disk ≡ w.disk) × IsInForce exists v)
  Watched-settles w last h written =
      let in_force = λ (v : Watch Url F) (path : Owns exists w v).
        AtRest-IsInForce v last (Owns-Watched w v last path h) written in
      let (v, path, rest, same) = settle_from (suc (steps_left w)) w (omega arith) in
      (
        λ v path. (
          steps_of-le w v path,
          λ stuck. elim (progress v) [
            | inl rest ↦ (rest, in_force v path rest)
            | inr (x, step) ↦ absurd (stuck x step)
          ],
        ),
        (v, path, rest, same, in_force v path rest),
      )
