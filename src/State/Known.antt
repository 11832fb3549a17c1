-- ===== src/State/Known.antt =====
-- Candidates whose states are there, or may be lacking for a while (src/state.rs).
use upstreamer.Common.{
  arith, List, [], String, string_eq, inl, inr, ◌⊎◌, Bool-cases, ◌==◌, All, All-mono, In,
}
use upstreamer.Common.Table.{insert, get-insert}
use upstreamer.External.{UrlOps}
use upstreamer.Balance.{OriginState}
use upstreamer.Balance.RoundRobin.{OriginStates}
use upstreamer.Route.{Router}
use upstreamer.State.Cover.{HasState, IsCovered}

-- No state is lost.
abbrev pub Extends : OriginStates → OriginStates → Type 0
Extends a b = (k : String) → HasState a k → HasState b k

pub insert-Extends :
    (a : OriginStates) (key : String) (v : OriginState) → Extends a (insert a key v)
insert-Extends a key v k (s, there) = elim (Bool-cases (key == k)) [
  | inl same ↦ (v, ground (arith, get-insert a key k v, same))
  | inr apart ↦ (s, ground (arith, get-insert a key k v, apart, there))
]

-- A key that has a state, or that is among those that may lack one.
abbrev pub IsKnown : List String → OriginStates → String → Type 0
IsKnown lacking states k = HasState states k ⊎ In k lacking

IsKnown-mono :
    (lacking : List String) (a b : OriginStates) (k : String)
    → Extends a b
    → IsKnown lacking a k
    → IsKnown lacking b k
IsKnown-mono lacking a b k more (inl h) = inl (more k h)
IsKnown-mono lacking a b k more (inr at) = inr at

module _ {Url : Type 0} where
  -- Every candidate of the table is known.
  abbrev pub AreKnown : List String → OriginStates → Router Url → Type 0
  AreKnown lacking states router =
      All (λ r. All (λ o. IsKnown lacking states o.url_key) r.candidates) router.routes

  pub AreKnown-mono :
      (lacking : List String) (a b : OriginStates) (router : Router Url)
      → Extends a b
      → AreKnown lacking a router
      → AreKnown lacking b router
  AreKnown-mono lacking a b router more h =
      All-mono _ _ router.routes
        (λ r. All-mono _ _ r.candidates (λ o. IsKnown-mono lacking a b o.url_key more)) h

  -- Keys that may lack a state, and all have one.
  pub AreKnown-added :
      (lacking : List String) (states : OriginStates) (router : Router Url)
      → ((k : String) → In k lacking → HasState states k)
      → AreKnown lacking states router
      → AreKnown [] states router
  AreKnown-added lacking states router there h =
      All-mono _ _ router.routes
        (λ r.
          All-mono _ _ r.candidates (λ o known. elim known [
            | inl at ↦ inl at
            | inr missing ↦ inl (there o.url_key missing)
          ]))
        h

module _ {Url : Type 0} ⦃u : UrlOps Url⦄ where
  pub IsCovered-AreKnown :
      (lacking : List String) (states : OriginStates) (router : Router Url)
      → IsCovered states router
      → AreKnown lacking states router
  IsCovered-AreKnown lacking states router h =
      All-mono _ _ router.routes (λ r. All-mono _ _ r.candidates (λ o. inl)) h
