-- ===== src/Route/Matching.antt =====
-- Which route serves a request (src/route.rs).
use native.Mathlib.Decide.{dec_lt}
use mathlib.Core.Option
use upstreamer.Common.{
  subst, All_In, ℕ, zero, suc, ◌+◌, ◌≡◌, refl, ap, sym, ◌∙◌, ◌↔◌, inl, inr, arith, Bool, true,
  false, ◌&&◌, none, some, List, [], ◌∷◌, String, get_elem?, ◌<◌, Bool-cases, Option-cases, All,
  In-of_get_elem?,
}
use upstreamer.Route.{RouteEntry, Router, host_matches, path_matches, match_from, match_route}

module _ {Url : Type 0} (host path : String) where
  abbrev pub fits : RouteEntry Url → Bool
  fits r = host_matches host r.match_host && path_matches path r.match_path

  -- The first of the routes that fits: it fits, and none before it does.
  pub record IsFirst (rs : List (RouteEntry Url)) (i : ℕ) (r : RouteEntry Url) : Type 0 where
    pub there : get_elem? rs i ≡ some r
    pub fitting : fits r ≡ true
    pub before : (j : ℕ) (q : RouteEntry Url) → j < i → get_elem? rs j ≡ some q → fits q ≡ false

  match_from-none :
      (i : ℕ) (rs : List (RouteEntry Url))
      → (match_from i rs host path ≡ none) ↔ All (λ r. fits r ≡ false) rs
  unfolding match_from
  match_from-none i [] = (λ _. tt, λ _. refl)
  match_from-none i (r ∷ rs) = ground (arith, match_from-none (suc i) rs)

  match_from-some :
      (i : ℕ) (rs : List (RouteEntry Url)) (j : ℕ) (r : RouteEntry Url)
      → match_from i rs host path ≡ some (j, r)
      → (k : ℕ) × (j ≡ i + k) × IsFirst rs k r
  unfolding match_from
  match_from-some i [] j r h = cc
  match_from-some i (q ∷ rs) j r h = elim (Bool-cases (fits q)) [
    | inl hit ↦ (
      0,
      ground arith,
      record {
        there = ground arith;
        fitting = ground arith;
        before = λ j q lt. absurd (omega arith);
      },
    )
    | inr miss ↦
        let (k, at, first) = match_from-some (suc i) rs j r (ground arith) in
        (
          suc k,
          omega arith,
          record {
            there = first.there;
            fitting = first.fitting;
            before = later q rs k miss first.before;
          },
        )
  ]
    where
      later :
          (q : RouteEntry Url) (rs : List (RouteEntry Url)) (k : ℕ)
          → fits q ≡ false
          → ((j : ℕ) (p : RouteEntry Url) → j < k → get_elem? rs j ≡ some p → fits p ≡ false)
          → (j : ℕ) (p : RouteEntry Url) → j < suc k
          → get_elem? (q ∷ rs) j ≡ some p
          → fits p ≡ false
      later q rs k miss below zero p lt at = ground arith
      later q rs k miss below (suc j) p lt at = below j p (omega arith) at

  first_unique :
      (rs : List (RouteEntry Url)) (i j : ℕ) (r q : RouteEntry Url)
      → IsFirst rs i r
      → IsFirst rs j q
      → (i ≡ j) × (r ≡ q)
  first_unique rs i j r q a b = elim (dec_lt i j) [
    | yes earlier ↦ cc (b.before i r earlier a.there, a.fitting)
    | no not_earlier ↦ elim (dec_lt j i) [
      | yes later ↦ cc (a.before j q later b.there, b.fitting)
      | no not_later ↦
          let same : i ≡ j = omega arith in
          (same, Option.some-injective r q (sym a.there ∙ ap (get_elem? rs) same ∙ b.there))
    ]
  ]

  pub match_route_lem :
      (router : Router Url)
      → ((match_route router host path ≡ none) ↔ All (λ r. fits r ≡ false) router.routes)
        × ((i : ℕ) (r : RouteEntry Url)
            → (match_route router host path ≡ some (i, r)) ↔ IsFirst router.routes i r)
  unfolding match_route
  match_route_lem router = (
    match_from-none 0 router.routes,
    λ i r. (
      (λ e.
          let (k, at, first) = match_from-some 0 router.routes i r e in
          subst (λ n. IsFirst router.routes n r) (omega arith) first),
      (λ first. elim (Option-cases (match_from 0 router.routes host path)) [
        | inl nothing ↦
            let misses = (match_from-none 0 router.routes).0 nothing in
            cc (
              All_In (λ q. fits q ≡ false) r router.routes misses
                  (In-of_get_elem? r router.routes i first.there),
              first.fitting,
            )
        | inr ((j, q), found) ↦
            let (k, at, other) = match_from-some 0 router.routes j q found in
            let (same, same_r) = first_unique router.routes i k r q first other in
            let same_i : i ≡ j = omega arith in cc (found, same_i, same_r)
      ]),
    ),
  )
