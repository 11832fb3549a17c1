-- ===== src/Balance/RoundRobin.antt =====
-- The round-robin balancer (src/balance/round_robin.rs).
pub mod Fair
use native.Mathlib.Nat.{mod-lt, mod-eq_of_lt, mod-eq-sub-mod}
use native.Mathlib.Decide.{ℕ_discrete, dec_le}
use upstreamer.Common.{
  ap, ◌∙◌, get_elem?-lt, is_empty-length, ℕ, zero, suc, ◌+◌, ◌-◌, ◌%◌, ◌≤◌, ◌<◌, ◌≡◌, ◌≢◌, refl,
  ◌⊎◌, inl, inr, arith, Bool, true, false, Option, none, some, List, [], ◌∷◌, String, string_eq,
  length, get_elem?, In, In-of_get_elem?, get_elem?_total, is_empty, Bool-cases, Option-cases,
  if◌then◌else◌, All,
}
use upstreamer.Common.Table.{get}
use upstreamer.Balance.{OriginEndpoint, OriginState, u64_mod}

-- `DashMap<String, OriginState>`
abbrev pub OriginStates : Type 0
OriginStates = List (String × OriginState)

-- `origin_states.get(key)` has a state, and it is healthy.
unfoldable pub is_up : OriginStates → String → Bool
is_up states key = elim (get states key) [ none ↦ false | some s ↦ s.healthy ]

-- Every index is visited.
pub visit : (start n j : ℕ) → start < n → j < n → (k : ℕ) × (k < n) × ((start + k) % n ≡ j)
visit start n j s h = elim (dec_le start j) [
  | yes after ↦ (j - start, omega arith, ap (λ t. t % n) (omega arith) ∙ mod-eq_of_lt h)
  | no before ↦ (
    j + n - start,
    omega arith,
    ap (λ t. t % n) (omega arith)
        ∙ mod-eq-sub-mod {n = j + n} {m = n} (omega arith)
        ∙ ap (λ t. t % n) (omega arith)
        ∙ mod-eq_of_lt h,
  )
]

module _ {Url : Type 0} (candidates : List (OriginEndpoint Url)) (states : OriginStates) where
  -- The loop, with the rounds that are left; the read of `candidates[idx]` is in range.
  unfoldable pub scan : ℕ → ℕ → ℕ → Option (OriginEndpoint Url)
  scan start zero i = none
  scan start (suc rounds) i =
      let rest = scan start rounds (suc i) in
      elim (get_elem? candidates ((start + i) % length candidates)) [
        | none ↦ none
        | some origin ↦ if is_up states origin.url_key then some origin else rest
      ]

  -- The new counter and the origin.
  unfoldable pub select_round_robin : ℕ → ℕ × Option (OriginEndpoint Url)
  unfolding scan
  select_round_robin counter =
      if is_empty candidates
      then (counter, none)
      else ((counter + 1) % u64_mod, scan (counter % length candidates) (length candidates) 0)

  abbrev pub IsUp : OriginEndpoint Url → Type 0
  IsUp o = is_up states o.url_key ≡ true

  scan_sound :
      (start rounds i : ℕ) (o : OriginEndpoint Url)
      → scan start rounds i ≡ some o
      → In o candidates × IsUp o
  unfolding scan
  scan_sound start zero i o h = cc
  scan_sound start (suc rounds) i o h = ground (
    arith,
    In-of_get_elem? o candidates ((start + i) % length candidates),
    scan_sound start rounds (suc i) o,
  )

  -- If a round finds nothing, no index that it visits is up.
  scan-none :
      (start rounds i k : ℕ) (o : OriginEndpoint Url)
      → 0 < length candidates
      → scan start rounds i ≡ none
      → i ≤ k
      → k < i + rounds
      → get_elem? candidates ((start + k) % length candidates) ≡ some o
      → is_up states o.url_key ≡ false
  unfolding scan
  scan-none start zero i k o pos h lo hi at = absurd (omega arith)
  scan-none start (suc rounds) i k o pos h lo hi at =
      let (here, found) =
        get_elem?_total candidates ((start + i) % length candidates) (mod-lt _ pos) in
      elim (ℕ_discrete i k) [
        | yes now ↦ ground (arith, now)
        | no later ↦
            scan-none start rounds (suc i) k o pos (ground arith) (omega arith) (omega arith) at
      ]

  -- An origin that round-robin selects is a candidate that is known and healthy.
  pub select_round_robin_sound :
      (counter : ℕ) (o : OriginEndpoint Url)
      → (select_round_robin counter).1 ≡ some o
      → In o candidates × IsUp o
  unfolding select_round_robin
  select_round_robin_sound counter o h =
      ground (arith, scan_sound (counter % length candidates) (length candidates) 0 o)

  -- No origin is selected only if no candidate is known and healthy.
  select_round_robin-none :
      (counter j : ℕ) (o : OriginEndpoint Url)
      → (select_round_robin counter).1 ≡ none
      → get_elem? candidates j ≡ some o
      → is_up states o.url_key ≡ false
  unfolding select_round_robin
  select_round_robin-none counter j o h at =
      let below = get_elem?-lt candidates j o at in
      let pos : 0 < length candidates = omega arith in
      let (k, in_range, hit) =
        visit (counter % length candidates) (length candidates) j (mod-lt _ pos) below in
      scan-none (counter % length candidates) (length candidates) 0 k o pos
        (ground (arith, is_empty-length candidates)) (omega arith) (omega arith) (rw hit at)
