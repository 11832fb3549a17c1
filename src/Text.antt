-- ===== src/Text.antt =====
-- What the code uses of Rust's `str`, over the characters of a text.
pub mod Laws
pub mod Numbers
use upstreamer.Common.{
  Bool, true, false, ◌&&◌, ◌||◌, String, Char, code, List, [], ◌∷◌, ◌==◌, string_eq, if◌then◌else◌,
  eqb,
}

-- `s.starts_with(p)`
unfoldable pub starts_with : String → String → Bool
starts_with s String.[] = true
starts_with String.[] (String.◌∷◌ d p) = false
starts_with (String.◌∷◌ c s) (String.◌∷◌ d p) = eqb (code c) (code d) && starts_with s p

-- `s.ends_with(p)`
unfoldable pub ends_with : String → String → Bool
ends_with String.[] p = "" == p
ends_with (String.◌∷◌ c s) p = String.◌∷◌ c s == p || ends_with s p

-- `s.contains(c)`
unfoldable pub contains : String → Char → Bool
contains String.[] c = false
contains (String.◌∷◌ d s) c = eqb (code d) (code c) || contains s c

-- Puts a character in front of the first part.
abbrev pub push_first : Char → List String → List String
push_first d [] = String.◌∷◌ d "" ∷ []
push_first d (p ∷ ps) = String.◌∷◌ d p ∷ ps

-- `s.split(c).collect::<Vec<_>>()`: one part more than there are separators.
unfoldable pub split : String → Char → List String
split String.[] c = "" ∷ []
split (String.◌∷◌ d s) c =
    let rest = split s c in if eqb (code d) (code c) then "" ∷ rest else push_first d rest

abbrev pub is_nil : String → Bool
is_nil String.[] = true
is_nil (String.◌∷◌ c s) = false

-- `s.trim_end_matches(c)`
unfoldable pub trim_end_matches : String → Char → String
trim_end_matches String.[] c = ""
trim_end_matches (String.◌∷◌ d s) c =
    let rest = trim_end_matches s c in
    if is_nil rest && eqb (code d) (code c) then "" else String.◌∷◌ d rest
