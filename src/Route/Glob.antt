-- ===== src/Route/Glob.antt =====
-- What a host pattern matches (src/route.rs).
use text.Mathlib.TextEquality.{eq_iff}
use text.Mathlib.TextLemmas.{
  nil-append, cons-append, append-nil, append_assoc, tail-eq_of_cons-eq,
  append-ne-nil_of_right_ne-nil, cons-ne-nil, append_cancel_left, append-eq-nil_iff,
}
use native.Mathlib.Nat.{zero-add}
use mathlib.Core.Bool.{and-eq-true_iff}
use upstreamer.Common.{
  ◌≡◌, refl, ◌↔◌, inl, inr, true, false, String, arith, ◌+◌, ◌≤◌, ◌==◌, string_eq, ◌&&◌, Bool-cases,
  sym, ap, ◌∙◌, subst, ◌≢◌,
}
use upstreamer.Text.{starts_with, ends_with, contains}
use upstreamer.Text.Laws.{
  starts_with_iff, ends_with-of_append, ends_with_sound, split-one, chars, ◌+++◌,
}
use upstreamer.Route.{match_glob, star}

-- A pattern with one star, the other characters being literal.
abbrev pub with_star : String → String → String
with_star prefix suffix = prefix +++ String.◌∷◌ star suffix

star_alone :
    (prefix suffix : String) → with_star prefix suffix ≡ "*" → (prefix ≡ "") × (suffix ≡ "")
star_alone String.[] suffix e =
    (refl, tail-eq_of_cons-eq (sym (nil-append (String.◌∷◌ star suffix)) ∙ e))
star_alone (String.◌∷◌ c prefix) suffix e = absurd (
    append-ne-nil_of_right_ne-nil prefix (cons-ne-nil star suffix)
      (tail-eq_of_cons-eq (sym (cons-append c prefix (String.◌∷◌ star suffix)) ∙ e)))

contains-with_star : (prefix suffix : String) → contains (with_star prefix suffix) star ≡ true
unfolding contains
contains-with_star String.[] suffix = rw nil-append refl
contains-with_star (String.◌∷◌ c prefix) suffix =
    rw cons-append (ground (arith, contains-with_star prefix suffix))

match_glob-with_star :
    (value prefix suffix : String)
    → contains prefix star ≡ false
    → contains suffix star ≡ false
    → match_glob value (with_star prefix suffix)
      ≡ (starts_with value prefix && ends_with value suffix)
unfolding match_glob
match_glob-with_star value prefix suffix h k = elim (Bool-cases (with_star prefix suffix == "*")) [
  | inl alone ↦
      let (no_prefix, no_suffix) = star_alone prefix suffix ((eq_iff _ _).0 alone) in
      let ends : ends_with value "" ≡ true =
        subst (λ v. ends_with v "" ≡ true) (append-nil value) (ends_with-of_append value "") in
      rw (alone, match_glob)
        (rw
          (no_prefix, no_suffix, ends, (starts_with_iff value "").1 (value, sym (nil-append value)))
          refl)
  | inr longer ↦
      rw (longer, match_glob, contains-with_star prefix suffix, split-one prefix suffix star h k)
        refl
]

-- A pattern with one star matches exactly the values that begin with what stands before the star
-- and end with what stands after it.
pub match_glob_iff :
    (value prefix suffix : String)
    → contains prefix star ≡ false
    → contains suffix star ≡ false
    → (match_glob value (with_star prefix suffix) ≡ true) ↔ (
        ((rest : String) × (value ≡ prefix +++ rest))
        × ((front : String) × (value ≡ front +++ suffix)))
match_glob_iff value prefix suffix h k = (
  (λ e.
      let (s, t) =
        (and-eq-true_iff _ _).0 (sym (match_glob-with_star value prefix suffix h k) ∙ e) in
      ((starts_with_iff value prefix).0 s, ends_with_sound value suffix t)),
  (λ (s, (front, t)).
      match_glob-with_star value prefix suffix h k
      ∙ (and-eq-true_iff _ _).1
          ((starts_with_iff value prefix).1 s, rw t (ends_with-of_append front suffix))),
)

-- A pattern without a star matches itself only.
pub match_glob_literal_iff :
    (value pattern : String)
    → contains pattern star ≡ false
    → (match_glob value pattern ≡ true) ↔ (value ≡ pattern)
unfolding match_glob contains
match_glob_literal_iff value pattern h =
    let not_star : (pattern == "*") ≡ false = elim (Bool-cases (pattern == "*")) [
      | inr no_star ↦ no_star
      | inl alone ↦ cc (rw ((eq_iff pattern "*").0 alone) at h)
    ] in
    rw (not_star, match_glob, h) (eq_iff value pattern)

-- The texts that the star can stand for.
abbrev pub Completes : String → String → String → Type 0
Completes prefix suffix value = (middle : String) × (value ≡ prefix +++ (middle +++ suffix))

-- Two ways to cut a text, the first no later than the second.
cut_between :
    (prefix rest front suffix : String)
    → prefix +++ rest ≡ front +++ suffix
    → chars prefix ≤ chars front
    → (middle : String) × (rest ≡ middle +++ suffix)
cut_between String.[] rest front suffix e h = (front, sym (nil-append rest) ∙ e)
cut_between (String.◌∷◌ c prefix) rest String.[] suffix e h = absurd (omega arith)
cut_between (String.◌∷◌ c prefix) rest (String.◌∷◌ d front) suffix e h =
    cut_between prefix rest front suffix
      (tail-eq_of_cons-eq (sym (cons-append c prefix rest) ∙ e ∙ cons-append d front suffix))
      (omega arith)

chars-append : (s t : String) → chars (s +++ t) ≡ chars s + chars t
chars-append String.[] t = rw (nil-append, zero-add)
chars-append (String.◌∷◌ c s) t = rw cons-append (omega (arith, chars-append s t))

-- For a value at least as long as the literal parts together, a pattern with one star matches
-- exactly the values that some text in the star's place makes.
pub match_glob-Completes_iff :
    (value prefix suffix : String)
    → contains prefix star ≡ false
    → contains suffix star ≡ false
    → chars prefix + chars suffix ≤ chars value
    → (match_glob value (with_star prefix suffix) ≡ true) ↔ Completes prefix suffix value
match_glob-Completes_iff value prefix suffix h k long = (
  (λ e.
      let ((rest, s), (front, t)) = (match_glob_iff value prefix suffix h k).0 e in
      let (middle, m) =
        cut_between prefix rest front suffix (sym s ∙ t)
          (omega (arith, ap chars t, chars-append front suffix)) in
      (middle, s ∙ ap (λ r. prefix +++ r) m)),
  (λ (middle, e).
      (match_glob_iff value prefix suffix h k).1
        ((middle +++ suffix, e), (prefix +++ middle, e ∙ sym (append_assoc prefix middle suffix)))),
)

-- The literal parts of a pattern may overlap in a value: a value that is not empty and has no star
-- matches the pattern with itself on both sides of a star, although no text in the star's place
-- makes it.
pub match_glob_overlaps :
    (value : String)
    → contains value star ≡ false
    → value ≢ ""
    → (match_glob value (with_star value value) ≡ true) × ¬ Completes value value value
match_glob_overlaps value h filled = (
  (match_glob_iff value value value h h).1
      (("", sym (append-nil value)), ("", sym (nil-append value))),
  λ (middle, e).
      let whole = append_cancel_left value "" (middle +++ value) (append-nil value ∙ e) in
      filled ((append-eq-nil_iff {p = middle}).0 (sym whole)).1,
)
