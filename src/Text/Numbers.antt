-- ===== src/Text/Numbers.antt =====
-- `str::parse` of an unsigned number of a fixed width, and the numbers that `to_string` printed.
pub mod RoundTrip
use upstreamer.Common.{
  ℕ, ◌+◌, ◌-◌, ◌*◌, Bool, ◌&&◌, Option, none, some, String, code, leb, ltb, eqb, if◌then◌else◌,
}

-- The digits; a value that is not below the limit is an error.
unfoldable pub parse_digits : ℕ → ℕ → String → Option ℕ
parse_digits limit acc String.[] = some acc
parse_digits limit acc (String.◌∷◌ c s) =
    let next = acc * 10 + (code c - 48) in
    let rest = parse_digits limit next s in
    if leb 48 (code c) && leb (code c) 57 && ltb next limit then rest else none

-- A plus sign may stand first, and there is at least one digit.
unfoldable pub parse_uint : ℕ → String → Option ℕ
unfolding parse_digits
parse_uint limit String.[] = none
parse_uint limit (String.◌∷◌ c String.[]) = parse_digits limit 0 (String.◌∷◌ c "")
parse_uint limit (String.◌∷◌ c (String.◌∷◌ d s)) =
    if eqb (code c) 43
    then parse_digits limit 0 (String.◌∷◌ d s)
    else parse_digits limit 0 (String.◌∷◌ c (String.◌∷◌ d s))
