-- ===== src/Balance/RoundRobin/Fair.antt =====
-- The windows of round-robin, and when it gives up (src/balance/round_robin.rs).
use native.Mathlib.Nat.{mod-lt, mod-eq_of_lt, mod-add-mod, mod_self, zero-add, add-zero, suc-add}
use mathlib.Core.Path.{ap₂}
use mathlib.Core.List.{append_assoc, map-append, append-nil}
use upstreamer.Common.{
  ℕ, zero, suc, ◌+◌, ◌%◌, ◌^◌, ◌≤◌, ◌<◌, ◌≡◌, refl, sym, ap, ◌∙◌, ◌↔◌, inl, inr, arith, true, false,
  Option, none, some, List, [], ◌∷◌, ◌++◌, map, length, length-append, get_elem?, get_elem?-append,
  In, In-to_get_elem?, All, All-split, subst, Option-cases, get_elem?-lt, is_empty-length, split_at,
}
use upstreamer.Balance.{OriginEndpoint}
use upstreamer.Balance.RoundRobin.{
  OriginStates, is_up, scan, select_round_robin, select_round_robin_sound, select_round_robin-none,
}

module _ {Url : Type 0} (candidates : List (OriginEndpoint Url)) (states : OriginStates) where
  -- Round-robin selects no origin exactly when no candidate is known and healthy: an origin
  -- without a state counts as down.
  pub select_round_robin-none_iff :
      (counter : ℕ)
      → ((select_round_robin candidates states counter).1 ≡ none)
        ↔ ((o : OriginEndpoint Url) → In o candidates → is_up states o.url_key ≡ false)
  select_round_robin-none_iff counter = (
    (λ h o at.
        let (j, here) = In-to_get_elem? o candidates at in
        select_round_robin-none candidates states counter j o h here),
    (λ down. elim (Option-cases (select_round_robin candidates states counter).1) [
      | inl nothing ↦ nothing
      | inr (o, found) ↦
          let (at, up) = select_round_robin_sound candidates states counter o found in
          cc (down o at, up)
    ]),
  )

  -- The origins of `k` requests in a row, with the counter before them.
  unfoldable pub picks : ℕ → ℕ → List (Option (OriginEndpoint Url))
  picks counter zero = []
  picks counter (suc k) =
      let (next, o) = select_round_robin candidates states counter in o ∷ picks next k

  scan-first :
      (start rounds i : ℕ) (o : OriginEndpoint Url)
      → 0 < rounds
      → get_elem? candidates ((start + i) % length candidates) ≡ some o
      → is_up states o.url_key ≡ true
      → scan candidates states start rounds i ≡ some o
  unfolding scan
  scan-first start zero i o pos at up = absurd (omega arith)
  scan-first start (suc rounds) i o pos at up = ground arith

  select-up :
      (counter : ℕ) (o : OriginEndpoint Url)
      → get_elem? candidates (counter % length candidates) ≡ some o
      → is_up states o.url_key ≡ true
      → select_round_robin candidates states counter ≡ ((counter + 1) % 2 ^ 64, some o)
  unfolding select_round_robin
  select-up counter o at up =
      let start : ℕ = counter % length candidates in
      let below = get_elem?-lt candidates start o at in
      let same : (start + 0) % length candidates ≡ start =
        ap (λ t. t % length candidates) (omega arith) ∙ mod-eq_of_lt below in
      let found = scan-first start (length candidates) 0 o (omega arith) (rw same at) up in
      ground (arith, found, is_empty-length candidates)

  -- Stepping from one place to the next, where there is a next one.
  mod-next : (c n m : ℕ) → c % n ≡ m → m + 1 < n → (c + 1) % n ≡ m + 1
  mod-next c n m at below = sym (mod-add-mod c n 1) ∙ rw at (mod-eq_of_lt below)

  run :
      (front back rest : List (OriginEndpoint Url)) (counter : ℕ)
      → candidates ≡ front ++ (back ++ rest)
      → counter % length candidates ≡ length front
      → counter + length back ≤ 2 ^ 64
      → All (λ o. is_up states o.url_key ≡ true) back
      → picks counter (length back) ≡ map some back
  unfolding picks
  run front [] rest counter parts at fits up = refl
  run front (b ∷ []) rest counter parts at fits (here, up) =
      rw (select-up counter b (rw (at, parts) (get_elem?-append front b rest)) here)
  run front (b ∷ b' ∷ back) rest counter parts at fits (here, up) =
      let longer : candidates ≡ (front ++ b ∷ []) ++ ((b' ∷ back) ++ rest) =
        parts ∙ sym (append_assoc front (b ∷ []) ((b' ∷ back) ++ rest)) in
      let size = length-append front (b ∷ []) in
      let total : length candidates ≡ length front + suc (suc (length (back ++ rest))) =
        ap length parts ∙ length-append front (b ∷ b' ∷ (back ++ rest)) in
      let wrap : (counter + 1) % 2 ^ 64 ≡ counter + 1 = omega arith in
      let next = mod-next counter (length candidates) (length front) at (omega arith) in
      let after =
        run (front ++ b ∷ []) (b' ∷ back) rest (counter + 1) longer (next ∙ omega (arith, size))
          (omega arith) up in
      rw
        (
          select-up counter b (rw (at, parts) (get_elem?-append front b (b' ∷ back ++ rest))) here,
          wrap,
        )
        (ap (◌∷◌ (some b)) after)

  select-counter :
      (counter : ℕ)
      → 0 < length candidates
      → (select_round_robin candidates states counter).0 ≡ (counter + 1) % 2 ^ 64
  unfolding select_round_robin
  select-counter counter pos = ground (arith, is_empty-length candidates)

  picks-append :
      (counter a b : ℕ)
      → 0 < length candidates
      → counter + a < 2 ^ 64
      → picks counter (a + b) ≡ picks counter a ++ picks (counter + a) b
  unfolding picks
  picks-append counter zero b pos fits = rw (zero-add, add-zero)
  picks-append counter (suc a) b pos fits =
      let wrap : (counter + 1) % 2 ^ 64 ≡ counter + 1 = omega arith in
      let shift : counter + suc a ≡ counter + 1 + a = omega arith in
      rw (suc-add, shift, select-counter counter pos, wrap)
        (ap (◌∷◌ (select_round_robin candidates states counter).1)
          (picks-append (counter + 1) a b pos (omega arith)))

  -- The window as two runs: up to the end of the list, and from its start.
  rotated :
      (counter : ℕ) (front back : List (OriginEndpoint Url))
      → 0 < length candidates
      → All (λ o. is_up states o.url_key ≡ true) candidates
      → counter + length candidates ≤ 2 ^ 64
      → candidates ≡ front ++ back
      → length front ≡ counter % length candidates
      → picks counter (length candidates) ≡ map some (back ++ front)
  rotated counter [] back pos up fits parts size =
      let same : length candidates ≡ length back = ap length parts in
      let whole : candidates ≡ [] ++ (back ++ []) = parts ∙ sym (append-nil back) in
      rw (append-nil back, same)
        (run [] back [] counter whole (sym size) (omega arith)
          (subst (All (λ o. is_up states o.url_key ≡ true)) parts up))
  rotated counter (f ∷ front) back pos up fits parts size =
      let ups =
        All-split (λ o. is_up states o.url_key ≡ true) (f ∷ front) back
          (subst (All (λ o. is_up states o.url_key ≡ true)) parts up) in
      let lengths = ap length parts ∙ length-append (f ∷ front) back in
      let total : length candidates ≡ length back + length (f ∷ front) = omega (arith, lengths) in
      let home : (counter + length back) % length candidates ≡ 0 =
        sym (mod-add-mod counter (length candidates) (length back))
        ∙ ap (λ t. t % length candidates) (omega (arith, lengths, size))
        ∙ mod_self (length candidates) in
      let first =
        run (f ∷ front) back [] counter (parts ∙ ap (◌++◌ (f ∷ front)) (sym (append-nil back)))
          (sym size) (omega arith) ups.1 in
      let second = run [] (f ∷ front) back (counter + length back) parts home (omega arith) ups.0 in
      ap (picks counter) total
      ∙ picks-append counter (length back) (length (f ∷ front)) pos (omega (arith, lengths))
      ∙ ap₂ ◌++◌ first second
      ∙ sym (map-append _ back (f ∷ front))

  -- If there are candidates and every one is known and healthy, any window of as many requests as
  -- there are candidates serves each candidate exactly once, in the order of the list, starting at
  -- the counter's place; as long as the 64-bit counter does not wrap in the window.
  pub picks-rotation :
      (counter : ℕ)
      → 0 < length candidates
      → All (λ o. is_up states o.url_key ≡ true) candidates
      → counter + length candidates ≤ 2 ^ 64
      → (front : List (OriginEndpoint Url)) × (back : List (OriginEndpoint Url)) × (candidates
          ≡ front ++ back)
        × (length front ≡ counter % length candidates)
        × (picks counter (length candidates) ≡ map some (back ++ front))
  picks-rotation counter pos up fits =
      let (front, back, parts, size) =
        split_at (counter % length candidates) candidates
          (omega (arith, mod-lt counter {m = length candidates} pos)) in
      (front, back, parts, size, rotated counter front back pos up fits parts size)
