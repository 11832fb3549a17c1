-- ===== src/Server/Unhealthy.antt =====
-- Requests and the origins that are marked unhealthy (src/server.rs).
use upstreamer.Common.{
  ℕ, ◌≡◌, refl, ap, ◌∙◌, arith, true, false, none, some, String, string_eq, In, inl, inr,
  Bool-cases, Option-cases, All, All_In, In-of_get_elem?, ◌==◌, if◌then◌else◌,
}
use upstreamer.Common.Table.{get, get-insert}
use upstreamer.External.{UrlOps, F64Ops, WeightLaws, IpAddr}
use upstreamer.Config.{Duration}
use upstreamer.Config.Validate.{unwrap_or}
use upstreamer.Balance.{OriginEndpoint, OriginState}
use upstreamer.Balance.Weighted.{Draw}
use upstreamer.Route.{RouteEntry, match_route}
use upstreamer.Route.Selection.{IsKeyed, IsKeyedRouter, select_origin_up}
use upstreamer.RateLimit.{Instant}
use upstreamer.State.{AppState}
use upstreamer.Server.{
  Incoming, Begun, respond, forward, Answer, check_limits, begin_route, begin_request,
  record_answer, finish_request, complete, handle_request,
}
use upstreamer.Server.Branches.{
  Fate, denied, no_origin, chosen, Course, unmatched, matched, begin_request-Course,
  check_limits_frame,
}

module _ {Url F : Type 0} ⦃u : UrlOps Url⦄ ⦃f : F64Ops F⦄ where
  begin_route-origin_states :
      (state : AppState Url F) (i : ℕ) (r : RouteEntry Url) (ip : IpAddr) (now : Instant)
      (draw : Draw F)
      → (begin_route state i r ip now draw).0.origin_states ≡ state.origin_states
  unfolding begin_route
  begin_route-origin_states state i r ip now draw =
      let (states, router, pages) = check_limits_frame state r.key ip now in
      elim (Bool-cases (check_limits state r.key ip now).1) [
        | inr over ↦ rw (over, begin_route) states
        | inl under ↦ rw (under, begin_route) states
      ]

  pub begin_request-origin_states :
      (state : AppState Url F) (req : Incoming) (ip : IpAddr) (now : Instant) (draw : Draw F)
      → (begin_request state req ip now draw).0.origin_states ≡ state.origin_states
  unfolding begin_request
  begin_request-origin_states state req ip now draw =
      elim (Option-cases (match_route state.router (unwrap_or req.host "") req.path)) [
        | inl nothing ↦ rw (nothing, begin_request) refl
        | inr ((i, r), found) ↦
            rw (found, begin_request) (begin_route-origin_states state i r ip now draw)
      ]

  -- Only the state of the origin that answered changes.
  pub get-finish_request :
      (state : AppState Url F) (o : OriginEndpoint Url) (latency : Duration) (answer : Answer)
      (key : String)
      → get (finish_request state o latency answer).origin_states key ≡ (
          if o.url_key == key
          then (elim (get state.origin_states key) [
            | none ↦ none
            | some s ↦ some (record_answer state latency answer s)
          ])
          else get state.origin_states key)
  unfolding finish_request
  get-finish_request state o latency answer key =
      elim (Option-cases (get state.origin_states o.url_key)) [
        | inl missing ↦ ground (arith, string_eq.same_iff o.url_key key, missing)
        | inr (s, there) ↦ ground (
          arith,
          string_eq.same_iff o.url_key key,
          there,
          get-insert state.origin_states o.url_key key (record_answer state latency answer s),
        )
      ]

  module _ (laws : WeightLaws F) where
    Fate-up :
        (state : AppState Url F) (i : ℕ) (r : RouteEntry Url) (ip : IpAddr) (now : Instant)
        (draw : Draw F) (b : AppState Url F × Begun Url) (o : OriginEndpoint Url) (s : OriginState)
        → All IsKeyed r.candidates
        → Fate state i r ip now draw b
        → b.1 ≡ forward o
        → get state.origin_states o.url_key ≡ some s
        → s.healthy ≡ true
    Fate-up state i r ip now draw _ o s keyed (denied limited resp over page) e there = cc
    Fate-up state i r ip now draw _ o s keyed (no_origin limited lb resp under nothing page) e
          there =
        cc
    Fate-up state i r ip now draw _ o s keyed (chosen limited lb q under found) e there =
        (select_origin_up laws state.origin_states r.load_balancer r.candidates draw o keyed
            (ground (arith, found, e))).1
          s there

    Course-up :
        (state : AppState Url F) (req : Incoming) (ip : IpAddr) (now : Instant) (draw : Draw F)
        (b : AppState Url F × Begun Url) (o : OriginEndpoint Url) (s : OriginState)
        → IsKeyedRouter state.router
        → Course state req ip now draw b
        → b.1 ≡ forward o
        → get state.origin_states o.url_key ≡ some s
        → s.healthy ≡ true
    Course-up state req ip now draw _ o s keyed (unmatched resp misses page) e there = cc
    Course-up state req ip now draw _ o s keyed (matched i r b first fate) e there =
        Fate-up state i r ip now draw _ o s
          (All_In (λ r. All IsKeyed r.candidates) r state.router.routes keyed
            (In-of_get_elem? r state.router.routes i first.there))
          fate e there

    Fate-candidate :
        (state : AppState Url F) (i : ℕ) (r : RouteEntry Url) (ip : IpAddr) (now : Instant)
        (draw : Draw F) (b : AppState Url F × Begun Url) (o : OriginEndpoint Url)
        → All IsKeyed r.candidates
        → Fate state i r ip now draw b
        → b.1 ≡ forward o
        → In o r.candidates
    Fate-candidate state i r ip now draw _ o keyed (denied limited resp over page) e = cc
    Fate-candidate state i r ip now draw _ o keyed (no_origin limited lb resp under nothing page)
          e =
        cc
    Fate-candidate state i r ip now draw _ o keyed (chosen limited lb q under found) e =
        (select_origin_up laws state.origin_states r.load_balancer r.candidates draw o keyed
          (ground (arith, found, e))).0

    -- An origin that a request is forwarded to is a candidate of the table.
    pub begin_request_candidate :
        (state : AppState Url F) (req : Incoming) (ip : IpAddr) (now : Instant) (draw : Draw F)
        (o : OriginEndpoint Url)
        → IsKeyedRouter state.router
        → (begin_request state req ip now draw).1 ≡ forward o
        → (r : RouteEntry Url) × In r state.router.routes × In o r.candidates
    begin_request_candidate state req ip now draw o keyed e =
        located (begin_request state req ip now draw) (begin_request-Course state req ip now draw) e
      where
        located :
            (b : AppState Url F × Begun Url)
            → Course state req ip now draw b
            → b.1 ≡ forward o
            → (r : RouteEntry Url) × In r state.router.routes × In o r.candidates
        located _ (unmatched resp misses page) e = cc
        located _ (matched i r b first fate) e =
            let inside = In-of_get_elem? r state.router.routes i first.there in
            let keys = All_In (λ r. All IsKeyed r.candidates) r state.router.routes keyed inside in
            (r, inside, Fate-candidate state i r ip now draw b o keys fate e)

    -- Under the laws of weights, and where every candidate of the table is known by the text of its
    -- URL, a request is never forwarded to an origin whose state is marked unhealthy, whichever the
    -- balancer.
    pub begin_request_up :
        (state : AppState Url F) (req : Incoming) (ip : IpAddr) (now : Instant) (draw : Draw F)
        (o : OriginEndpoint Url) (s : OriginState)
        → IsKeyedRouter state.router
        → (begin_request state req ip now draw).1 ≡ forward o
        → get state.origin_states o.url_key ≡ some s
        → s.healthy ≡ true
    begin_request_up state req ip now draw o s keyed e there =
        Course-up state req ip now draw (begin_request state req ip now draw) o s keyed
          (begin_request-Course state req ip now draw) e there

    -- Under the laws of weights, and where every candidate of the table is known by the text of its
    -- URL, a request leaves the state of an origin that is marked unhealthy as it is, whatever the
    -- origins answer: no request gets to it, so that none can mark it healthy again.
    pub handle_request_unhealthy :
        (proxy : OriginEndpoint Url → Duration × Answer) (state : AppState Url F) (req : Incoming)
        (ip : IpAddr) (now : Instant) (draw : Draw F) (key : String) (s : OriginState)
        → IsKeyedRouter state.router
        → get state.origin_states key ≡ some s
        → s.healthy ≡ false
        → get (handle_request proxy state req ip now draw).0.origin_states key ≡ some s
    unfolding handle_request
    handle_request_unhealthy proxy state req ip now draw key s keyed there down =
        let same = begin_request-origin_states state req ip now draw in
        completed (begin_request state req ip now draw).0 (begin_request state req ip now draw).1
          (λ o e at.
            begin_request_up state req ip now draw o s keyed e
              (ap (get state.origin_states) at ∙ there))
          (ap (λ m. get m key) same ∙ there)
      where
        completed :
            (after : AppState Url F) (b : Begun Url)
            → ((o : OriginEndpoint Url) → b ≡ forward o → o.url_key ≡ key → s.healthy ≡ true)
            → get after.origin_states key ≡ some s
            → get (complete proxy (after, b)).0.origin_states key ≡ some s
        completed after (respond resp) up at = at
        completed after (forward o) up at = elim (Bool-cases (o.url_key == key)) [
          | inl same ↦ cc (up o refl ((string_eq.same_iff o.url_key key).0 same), down)
          | inr apart ↦
              ground (arith, apart, at, get-finish_request after o (proxy o).0 (proxy o).1 key)
        ]
