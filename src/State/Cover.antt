-- ===== src/State/Cover.antt =====
-- The origins that have a state from the start (src/state.rs).
use upstreamer.Common.{
  ◌≡◌, refl, arith, false, none, some, List, [], ◌∷◌, map, String, string_eq, inl, inr, Bool-cases,
  Option-cases, All, All-append, In, In-append_left, In-append_right, ◌==◌,
}
use upstreamer.Common.Table.{get, or_insert, get-or_insert}
use upstreamer.External.{UrlOps, as_str}
use upstreamer.Config.{OriginConfig, PoolRef, RouteConfig, ProxyConfig}
use upstreamer.Balance.{OriginState, new}
use upstreamer.Balance.RoundRobin.{OriginStates}
use upstreamer.Route.{Router, entry, static_candidates, pool_candidates, from_config}
use upstreamer.State.{add_states, origin_keys, pool_keys, config_keys}

-- A key that has a state.
abbrev pub HasState : OriginStates → String → Type 0
HasState states key = (s : OriginState) × (get states key ≡ some s)

-- A state that is there is kept.
pub add_states-keeps :
    (states : OriginStates) (keys : List String) (key : String) (s : OriginState)
    → get states key ≡ some s
    → get (add_states states keys) key ≡ some s
unfolding add_states
add_states-keeps states [] key s there = there
add_states-keeps states (k ∷ keys) key s there =
    add_states-keeps (or_insert states k new) keys key s
      (ground (arith, get-or_insert states k key new, there))

-- A key that is missing gets a fresh state if it is among the keys, and none otherwise.
add_states-In :
    (states : OriginStates) (keys : List String) (key : String)
    → get states key ≡ none
    → In key keys
    → get (add_states states keys) key ≡ some new
unfolding add_states
add_states-In states [] key missing h = absurd h
add_states-In states (k ∷ keys) key missing h = elim (Bool-cases (k == key)) [
  | inl same ↦
      add_states-keeps (or_insert states k new) keys key new
        (ground (arith, get-or_insert states k key new, missing, same))
  | inr apart ↦
      add_states-In (or_insert states k new) keys key
        (ground (arith, get-or_insert states k key new, missing, apart))
        (elim h [ inl e ↦ cc ((string_eq.same_iff k key).1 e, apart) | inr later ↦ later ])
]

add_states-not_In :
    (states : OriginStates) (keys : List String) (key : String)
    → get states key ≡ none
    → ¬ In key keys
    → get (add_states states keys) key ≡ none
unfolding add_states
add_states-not_In states [] key missing h = missing
add_states-not_In states (k ∷ keys) key missing h =
    let apart : (k == key) ≡ false = elim (Bool-cases (k == key)) [
      | inl same ↦ absurd (h (inl ((string_eq.same_iff k key).0 same)))
      | inr apart ↦ apart
    ] in
    add_states-not_In (or_insert states k new) keys key
      (ground (arith, get-or_insert states k key new, missing, apart)) (λ later. h (inr later))

-- Adding keys keeps every state that is there, gives a fresh state to every key of the list that
-- had none, and gives no state to another key.
pub get-add_states :
    (states : OriginStates) (keys : List String) (key : String)
    → ((s : OriginState) → get states key ≡ some s → get (add_states states keys) key ≡ some s)
      × (get states key ≡ none → In key keys → get (add_states states keys) key ≡ some new)
      × (get states key ≡ none → ¬ In key keys → get (add_states states keys) key ≡ none)
get-add_states states keys key = (
  λ s. add_states-keeps states keys key s,
  add_states-In states keys key,
  add_states-not_In states keys key,
)

pub add_states-HasState :
    (states : OriginStates) (keys : List String) (key : String)
    → In key keys
    → HasState (add_states states keys) key
add_states-HasState states keys key h = elim (Option-cases (get states key)) [
  | inl missing ↦ (new, add_states-In states keys key missing h)
  | inr (s, there) ↦ (s, add_states-keeps states keys key s there)
]

module _ {Url : Type 0} ⦃u : UrlOps Url⦄ where
  -- The balancers find a state for every candidate of the table.
  abbrev pub IsCovered : OriginStates → Router Url → Type 0
  IsCovered states router =
      All (λ r. All (λ o. HasState states o.url_key) r.candidates) router.routes

  -- A property of the keys of a configuration holds of its candidates.
  module _ (P : String → Type 0) where
    pub static_keys :
        (os : List (OriginConfig Url))
        → ((k : String) → In k (origin_keys os) → P k)
        → All (λ o. P o.url_key) (static_candidates os)
    unfolding static_candidates origin_keys
    static_keys [] h = tt
    static_keys (o ∷ os) h = (h (as_str o.url) (inl refl), static_keys os (λ k at. h k (inr at)))

    pool_keys_lem :
        (ps : List (PoolRef Url))
        → ((k : String) → In k (pool_keys ps) → P k)
        → All (λ o. P o.url_key) (pool_candidates ps)
    unfolding pool_candidates pool_keys
    pool_keys_lem [] h = tt
    pool_keys_lem (p ∷ ps) h =
        All-append (λ o. P o.url_key) (static_candidates p.origins) (pool_candidates ps)
          (static_keys p.origins (λ k at. h k (In-append_left k (origin_keys p.origins) _ at)))
          (pool_keys_lem ps (λ k at. h k (In-append_right k (origin_keys p.origins) _ at)))

    pub config_keys_lem :
        (rs : List (RouteConfig Url))
        → ((k : String) → In k (config_keys rs) → P k)
        → All
            (λ r. All (λ o. P o.url_key) r.candidates)
            (map (λ r. entry r (pool_candidates r.pools)) rs)
    unfolding config_keys
    config_keys_lem [] h = tt
    config_keys_lem (r ∷ rs) h = (
      pool_keys_lem r.pools (λ k at. h k (In-append_left k (pool_keys r.pools) _ at)),
      config_keys_lem rs (λ k at. h k (In-append_right k (pool_keys r.pools) _ at)),
    )

  -- Every candidate of the table built from a configuration has a state, once the keys of that
  -- configuration are added: to none at the start, or to those there are.
  pub add_states-IsCovered :
      (states : OriginStates) (c : ProxyConfig Url)
      → IsCovered (add_states states (config_keys c.routes)) (from_config c)
  unfolding from_config
  add_states-IsCovered states c =
      config_keys_lem (HasState (add_states states (config_keys c.routes))) c.routes
        (add_states-HasState states (config_keys c.routes))
