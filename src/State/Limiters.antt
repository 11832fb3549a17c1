-- ===== src/State/Limiters.antt =====
-- The limiters of the routes, as the configuration gives them (src/state.rs).
use mathlib.Core.Option
use upstreamer.Common.{
  ◌≡◌, refl, ap, ◌∙◌, arith, Option, none, some, List, [], ◌∷◌, String, string_eq, inl, inr,
  Bool-cases, ◌==◌, if◌then◌else◌,
}
use upstreamer.Common.Table.{get, get-insert}
use upstreamer.Config.{RateLimitConfig, RouteConfig}
use upstreamer.Config.Validate.{first_some}
use upstreamer.Route.{route_key}
use upstreamer.RateLimit.{RateLimiter}
use upstreamer.State.{limiter_of, insert_limiter, add_limiters}

module _ {F : Type 0} where
  get-insert_limiter :
      (limiters : List (String × RateLimiter F)) (k key : String) (o : Option RateLimitConfig)
      → get (insert_limiter limiters k o) key
        ≡ first_some (Option.map limiter_of (if k == key then o else none)) (get limiters key)
  get-insert_limiter limiters k key none = elim (Bool-cases (k == key)) [
    | inl same ↦ rw same
    | inr apart ↦ rw apart
  ]
  get-insert_limiter limiters k key (some rl) = elim (Bool-cases (k == key)) [
    | inl same ↦ rw same (ground (arith, get-insert limiters k key (limiter_of rl), same))
    | inr apart ↦ rw apart (ground (arith, get-insert limiters k key (limiter_of rl), apart))
  ]

  first_first :
      (a b : Option RateLimitConfig) (c : Option (RateLimiter F))
      → first_some (Option.map limiter_of a) (first_some (Option.map limiter_of b) c)
        ≡ first_some (Option.map limiter_of (first_some a b)) c
  first_first none b c = refl
  first_first (some rl) b c = refl

module _ {Url : Type 0} where
  abbrev pub key_of : RouteConfig Url → String
  key_of r = route_key r.match_host r.match_path

  -- The limit that the configuration gives a key: that of the last route with the key that has one.
  abbrev pub last_limit : List (RouteConfig Url) → String → Option RateLimitConfig
  last_limit [] key = none
  last_limit (r ∷ rs) key =
      first_some (last_limit rs key) (if key_of r == key then r.ratelimit else none)

  module _ {F : Type 0} where
    -- A key has the limiter of the last route that gives it one, a new one; or the one it had.
    pub get-add_limiters :
        (limiters : List (String × RateLimiter F)) (rs : List (RouteConfig Url)) (key : String)
        → get (add_limiters limiters rs) key
          ≡ first_some (Option.map limiter_of (last_limit rs key)) (get limiters key)
    unfolding add_limiters
    get-add_limiters limiters [] key = refl
    get-add_limiters limiters (r ∷ rs) key =
        get-add_limiters (insert_limiter limiters (key_of r) r.ratelimit) rs key
        ∙ ap (first_some (Option.map limiter_of (last_limit rs key)))
            (get-insert_limiter limiters (key_of r) key r.ratelimit)
        ∙ first_first (last_limit rs key) (if key_of r == key then r.ratelimit else none)
            (get limiters key)
