-- ===== src/Text/Laws.antt =====
-- Laws of the operations on texts.
use Prim.Native.String
use text.Mathlib.TextEquality.{Char-path, eq_iff}
use mathlib.Core.Path.{ap₂}
use mathlib.Core.Bool.{and-eq-true_iff}
use text.Mathlib.TextPositions.{eq_refl}
use text.Mathlib.TextLemmas.{
  nil-append, cons-append, nil≢cons, head-eq_of_cons-eq, tail-eq_of_cons-eq,
}
use upstreamer.Common.{
  ℕ, suc, ◌≡◌, refl, sym, ap, ◌∙◌, ◌↔◌, inl, inr, true, String, Char, code, arith, [], ◌∷◌, eqb_iff,
  Bool-cases, eqb, if◌then◌else◌, false, ◌&&◌, ◌==◌, string_eq,
}
use upstreamer.Text.{starts_with, ends_with, contains, split, trim_end_matches, is_nil}

-- The number of characters.
abbrev pub chars : String → ℕ
chars String.[] = 0
chars (String.◌∷◌ c s) = suc (chars s)

infixr 65 ◌+++◌
abbrev pub ◌+++◌ : String → String → String
s +++ t = String.◌++◌ s t

-- A prefix is a text that some rest completes.
pub starts_with_iff :
    (s p : String) → (starts_with s p ≡ true) ↔ ((rest : String) × (s ≡ p +++ rest))
unfolding starts_with
starts_with_iff s String.[] = (λ _. (s, sym (nil-append s)), λ _. refl)
starts_with_iff String.[] (String.◌∷◌ d p) =
    (λ e. cc, λ h. absurd (nil≢cons (h.1 ∙ cons-append d p h.0)))
starts_with_iff (String.◌∷◌ c s) (String.◌∷◌ d p) = (
  (λ h.
      let (same, below) = (and-eq-true_iff _ _).0 h in
      let (rest, e) = (starts_with_iff s p).0 below in
      (rest, ap₂ String.◌∷◌ (Char-path c d ((eqb_iff _ _).0 same)) e ∙ sym (cons-append d p rest))),
  (λ h.
      let e = h.1 ∙ cons-append d p h.0 in
      (and-eq-true_iff _ _).1 (
        (eqb_iff _ _).1 (ap code (head-eq_of_cons-eq e)),
        (starts_with_iff s p).1 (h.0, tail-eq_of_cons-eq e),
      )),
)

-- A suffix is a text that some front completes.
pub ends_with-of_append : (front p : String) → ends_with (front +++ p) p ≡ true
unfolding ends_with
ends_with-of_append String.[] String.[] = refl
ends_with-of_append String.[] (String.◌∷◌ c p) =
    rw nil-append (ground (arith, eq_refl (String.◌∷◌ c p)))
ends_with-of_append (String.◌∷◌ c f) p = rw cons-append (ground (arith, ends_with-of_append f p))

pub ends_with_sound : (s p : String) → ends_with s p ≡ true → (front : String) × (s ≡ front +++ p)
unfolding ends_with
ends_with_sound String.[] p h = ("", (eq_iff "" p).0 h ∙ sym (nil-append p))
ends_with_sound (String.◌∷◌ c s) p h = elim (Bool-cases (String.◌∷◌ c s == p)) [
  | inl here ↦ ("", (eq_iff _ p).0 here ∙ sym (nil-append p))
  | inr later ↦
      let (front, e) = ends_with_sound s p (ground (arith, later)) in
      (String.◌∷◌ c front, ap (String.◌∷◌ c) e ∙ sym (cons-append c front p))
]

-- A text free of the separator is one part.
pub split_of_not-contains : (s : String) (c : Char) → contains s c ≡ false → split s c ≡ s ∷ []
unfolding split contains
split_of_not-contains String.[] c h = refl
split_of_not-contains (String.◌∷◌ d s) c h = ground (arith, split_of_not-contains s c)

pub split-one :
    (s t : String) (c : Char)
    → contains s c ≡ false
    → contains t c ≡ false
    → split (s +++ String.◌∷◌ c t) c ≡ s ∷ t ∷ []
unfolding split contains
split-one String.[] t c h k = rw nil-append (ground (arith, split_of_not-contains t c))
split-one (String.◌∷◌ d s) t c h k = rw cons-append (ground (arith, split-one s t c))

not_last :
    (c : Char) (rest : String)
    → (is_nil rest && eqb (code c) 47) ≡ false
    → (String.◌∷◌ c rest == "/") ≡ false
not_last c rest h = elim (Bool-cases (String.◌∷◌ c rest == "/")) [
  | inr apart ↦ apart
  | inl same ↦
      let e : String.◌∷◌ c rest ≡ String.◌∷◌ "/" "" = (eq_iff (String.◌∷◌ c rest) "/").0 same in
      let first = head-eq_of_cons-eq e in
      let last = tail-eq_of_cons-eq e in ground (arith, last, ap code first, ap is_nil last)
]

trim_step :
    (c : Char) (rest : String)
    → ends_with rest "/" ≡ false
    → ends_with (if is_nil rest && eqb (code c) 47 then "" else String.◌∷◌ c rest) "/" ≡ false
unfolding ends_with
trim_step c rest h = elim (Bool-cases (is_nil rest && eqb (code c) 47)) [
  | inl dropped ↦ rw dropped refl
  | inr kept ↦ rw (kept, ends_with, not_last c rest kept) h
]

-- A text without the separators at its end does not end with one.
pub trim_end_matches-ends_with : (s : String) → ends_with (trim_end_matches s "/") "/" ≡ false
unfolding ends_with trim_end_matches
trim_end_matches-ends_with String.[] = refl
trim_end_matches-ends_with (String.◌∷◌ c s) =
    trim_step c (trim_end_matches s "/") (trim_end_matches-ends_with s)
