-- ===== src/Metrics/Counts.antt =====
-- The counts of origins that the metrics thread publishes (src/middleware/metrics.rs).
use upstreamer.Common.{
  ℕ, ◌+◌, ◌≤◌, ◌≡◌, ◌≢◌, arith, false, some, [], ◌∷◌, String, string_eq, length, All, All_In,
  if◌then◌else◌,
}
use upstreamer.Common.Table.{get, insert}
use upstreamer.External.{UrlOps, F64Ops, WeightLaws, IpAddr}
use upstreamer.Balance.{OriginEndpoint, OriginState}
use upstreamer.Balance.RoundRobin.{OriginStates}
use upstreamer.Balance.Weighted.{Draw}
use upstreamer.RateLimit.{Instant}
use upstreamer.State.Cover.{HasState}
use upstreamer.Server.{Incoming, forward, begin_request}
use upstreamer.Server.Unhealthy.{begin_request_up, begin_request_candidate}
use upstreamer.System.{System, Reachable}
use upstreamer.System.Interleaving.{Reachable-IsSound}
use upstreamer.Metrics.{count_healthy}

abbrev pub up : OriginState → ℕ
up s = if s.healthy then 1 else 0

-- When the state of a key is replaced, the healthy count changes by what that state did, and the
-- total count stays.
pub count_healthy-insert :
    (states : OriginStates) (key : String) (s t : OriginState)
    → get states key ≡ some s
    → (count_healthy (insert states key t) + up s ≡ count_healthy states + up t)
      × (length (insert states key t) ≡ length states)
unfolding count_healthy get insert
count_healthy-insert [] key s t h = cc
count_healthy-insert ((j, v) ∷ states) key s t h =
    ground (arith, count_healthy-insert states key s t)

pub count_healthy-le : (states : OriginStates) → count_healthy states ≤ length states
unfolding count_healthy
count_healthy-le [] = omega arith
count_healthy-le ((j, v) ∷ states) = ground (arith, count_healthy-le states)

-- If the healthy count is nought, no key has a healthy state.
count_healthy-zero :
    (states : OriginStates) (key : String) (s : OriginState)
    → count_healthy states ≡ 0
    → get states key ≡ some s
    → s.healthy ≡ false
unfolding count_healthy get
count_healthy-zero [] key s none_up there = cc
count_healthy-zero ((j, v) ∷ states) key s none_up there =
    ground (arith, count_healthy-zero states key s)

module _ {Url F : Type 0} ⦃u : UrlOps Url⦄ ⦃f : F64Ops F⦄ (laws : WeightLaws F) where
  -- Under the laws of weights, however the tasks of the proxy have interleaved, the healthy count is
  -- at most the total count; and while it is nought, no request is forwarded to any origin.
  pub Reachable-count_healthy :
      (s : System Url F)
      → Reachable s
      → (count_healthy s.0.origin_states ≤ length s.0.origin_states)
        × (count_healthy s.0.origin_states ≡ 0
            → (req : Incoming) (ip : IpAddr) (now : Instant) (draw : Draw F)
              (o : OriginEndpoint Url)
            → (begin_request s.0 req ip now draw).1 ≢ forward o)
  Reachable-count_healthy (state, k8s) before =
      let sound = Reachable-IsSound (state, k8s) before in
      (
        count_healthy-le state.origin_states,
        λ none_up req ip now draw o e.
            let (r, inside, at) =
              begin_request_candidate laws state req ip now draw o sound.keyed e in
            let covered =
              All_In (λ r. All (λ o. HasState state.origin_states o.url_key) r.candidates) r
                state.router.routes sound.covered inside in
            let (s, there) =
              All_In (λ o. HasState state.origin_states o.url_key) o r.candidates covered at in
            cc (
              begin_request_up laws state req ip now draw o s sound.keyed e there,
              count_healthy-zero state.origin_states o.url_key s none_up there,
            ),
      )
