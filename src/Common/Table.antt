-- ===== src/Common/Table.antt =====
-- `DashMap` and `HashMap` as association lists: at most one entry for a key, the order of the
-- entries being that of their insertion. (The order in which a hash map is walked is not
-- specified, and no theorem rests on it.)
use mathlib.Core.Path.{◌≡◌, refl}
use mathlib.Core.Bool.{Bool}
use mathlib.Core.Option.{Option, none, some}
use mathlib.Core.List.{List, [], ◌∷◌}
use native.Mathlib.Omega.{arith}
use upstreamer.Common.Tests.{Eq, ◌==◌, if◌then◌else◌}

-- What `or_insert` leaves at its key.
abbrev pub or_else {ℓ} : {V : Type ℓ} → Option V → V → Option V
or_else none v = some v
or_else (some w) v = some w

module _ {ℓ κ} {K : Type ℓ} {V : Type κ} ⦃e : Eq K⦄ where
  unfoldable pub get : List (K × V) → K → Option V
  get [] k = none
  get ((j, v) ∷ m) k = if j == k then some v else get m k

  -- `insert` replaces the value of a key that is there.
  unfoldable pub insert : List (K × V) → K → V → List (K × V)
  insert [] k v = (k, v) ∷ []
  insert ((j, w) ∷ m) k v = if j == k then (k, v) ∷ m else (j, w) ∷ insert m k v

  -- `entry(k).or_insert(v)`: a key that is there keeps its value.
  unfoldable pub or_insert : List (K × V) → K → V → List (K × V)
  or_insert [] k v = (k, v) ∷ []
  or_insert ((j, w) ∷ m) k v = if j == k then (j, w) ∷ m else (j, w) ∷ or_insert m k v

  pub get-insert :
      (m : List (K × V)) (k j : K) (v : V)
      → get (insert m k v) j ≡ (if k == j then some v else get m j)
  unfolding get insert
  get-insert [] k j v = refl
  get-insert ((i, w) ∷ m) k j v =
      ground (arith, e.same_iff k j, e.same_iff i k, e.same_iff i j, get-insert m k j v)

  pub get-or_insert :
      (m : List (K × V)) (k j : K) (v : V)
      → get (or_insert m k v) j ≡ (if k == j then or_else (get m j) v else get m j)
  unfolding get or_insert
  get-or_insert [] k j v = refl
  get-or_insert ((i, w) ∷ m) k j v =
      ground (arith, e.same_iff k j, e.same_iff i k, e.same_iff i j, get-or_insert m k j v)

  -- `retain(f)`
  unfoldable pub retain : (K → V → Bool) → List (K × V) → List (K × V)
  retain keep [] = []
  retain keep ((k, v) ∷ m) = if keep k v then (k, v) ∷ retain keep m else retain keep m

  -- No key stands twice.
  abbrev pub IsTable : List (K × V) → Type κ
  IsTable [] = Unit
  IsTable ((k, v) ∷ m) = (get m k ≡ none) × IsTable m

  abbrev pub kept : (K → V → Bool) → K → Option V → Option V
  kept keep k none = none
  kept keep k (some v) = if keep k v then some v else none

  pub get-retain :
      (keep : K → V → Bool) (m : List (K × V)) (k : K)
      → IsTable m
      → get (retain keep m) k ≡ kept keep k (get m k)
  unfolding get retain
  get-retain keep [] k h = refl
  get-retain keep ((j, v) ∷ m) k (new, h) = ground (arith, e.same_iff j k, get-retain keep m k h)

  pub retain-IsTable :
      (keep : K → V → Bool) (m : List (K × V)) → IsTable m → IsTable (retain keep m)
  unfolding retain
  retain-IsTable keep [] h = tt
  retain-IsTable keep ((j, v) ∷ m) (new, h) =
      ground (arith, get-retain keep m j h, retain-IsTable keep m h)

  pub insert-IsTable : (m : List (K × V)) (k : K) (v : V) → IsTable m → IsTable (insert m k v)
  unfolding get insert
  insert-IsTable [] k v h = (refl, tt)
  insert-IsTable ((j, w) ∷ m) k v (new, h) =
      ground (arith, e.same_iff j k, e.same_iff k j, get-insert m k j v, insert-IsTable m k v h)

  pub or_insert-IsTable : (m : List (K × V)) (k : K) (v : V) → IsTable m → IsTable (or_insert m k v)
  unfolding get or_insert
  or_insert-IsTable [] k v h = (refl, tt)
  or_insert-IsTable ((j, w) ∷ m) k v (new, h) =
      ground
        (arith, e.same_iff j k, e.same_iff k j, get-or_insert m k j v, or_insert-IsTable m k v h)
