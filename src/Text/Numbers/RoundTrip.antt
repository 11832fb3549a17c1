-- ===== src/Text/Numbers/RoundTrip.antt =====
-- A printed number is read back (`to_string`, and `str::parse`).
use Prim.Native.String
use text.Mathlib.TextLemmas.{nil-append, cons-append}
use upstreamer.Common.{
  ℕ, zero, suc, ◌+◌, ◌*◌, ◌/◌, ◌%◌, ◌≤◌, ◌<◌, ◌≡◌, refl, ◌∙◌, arith, Bool, true, false, none, some,
  String, code, inl, inr, Bool-cases, ltb, eqb, if◌then◌else◌,
}
use upstreamer.Common.Decimal.{digit, decimal_from, decimal}
use upstreamer.Text.Numbers.{parse_digits, parse_uint}

-- A text whose first character is a digit.
abbrev HasDigit : String → Type 0
HasDigit String.[] = ⊥
HasDigit (String.◌∷◌ c s) = 48 ≤ code c

HasDigit-append : (s rest : String) → HasDigit s → HasDigit (String.◌++◌ s rest)
HasDigit-append String.[] rest h = absurd h
HasDigit-append (String.◌∷◌ c s) rest h = rw cons-append h

HasDigit-if : (b : Bool) (s t : String) → HasDigit s → HasDigit t → HasDigit (if b then s else t)
HasDigit-if true s t h k = h
HasDigit-if false s t h k = k

HasDigit-digit : (d : ℕ) → HasDigit (digit d)
unfolding digit
HasDigit-digit d = HasDigit-if (eqb d 0) _ _ (omega arith) (
    HasDigit-if (eqb d 1) _ _ (omega arith) (
      HasDigit-if (eqb d 2) _ _ (omega arith) (
        HasDigit-if (eqb d 3) _ _ (omega arith) (
          HasDigit-if (eqb d 4) _ _ (omega arith) (
            HasDigit-if (eqb d 5) _ _ (omega arith) (
              HasDigit-if (eqb d 6) _ _ (omega arith) (
                HasDigit-if (eqb d 7) _ _ (omega arith)
                  (HasDigit-if (eqb d 8) _ _ (omega arith) (omega arith)))))))))

HasDigit-decimal_from :
    (fuel n : ℕ) (rest : String) → n < fuel → HasDigit (decimal_from fuel n rest)
unfolding decimal_from
HasDigit-decimal_from zero n rest h = elim h [ ]
HasDigit-decimal_from (suc fuel) n rest h = elim (Bool-cases (ltb n 10)) [
  | inl last ↦ rw (last, decimal_from) (HasDigit-append (digit n) rest (HasDigit-digit n))
  | inr more ↦
      rw (more, decimal_from)
        (HasDigit-decimal_from fuel (n / 10) (String.◌++◌ (digit (n % 10)) rest) (ground arith))
]

module _ (limit : ℕ) where
  -- One digit read.
  digit_step :
      (acc d : ℕ) (rest : String)
      → d < 10
      → parse_digits limit acc (String.◌++◌ (digit d) rest)
        ≡ (if ltb (acc * 10 + d) limit then parse_digits limit (acc * 10 + d) rest else none)
  unfolding digit parse_digits
  digit_step acc zero rest h = rw (cons-append, nil-append)
  digit_step acc (suc zero) rest h = rw (cons-append, nil-append)
  digit_step acc (suc (suc zero)) rest h = rw (cons-append, nil-append)
  digit_step acc (suc (suc (suc zero))) rest h = rw (cons-append, nil-append)
  digit_step acc (suc (suc (suc (suc zero)))) rest h = rw (cons-append, nil-append)
  digit_step acc (suc (suc (suc (suc (suc zero))))) rest h = rw (cons-append, nil-append)
  digit_step acc (suc (suc (suc (suc (suc (suc zero)))))) rest h = rw (cons-append, nil-append)
  digit_step acc (suc (suc (suc (suc (suc (suc (suc zero))))))) rest h =
      rw (cons-append, nil-append)
  digit_step acc (suc (suc (suc (suc (suc (suc (suc (suc zero)))))))) rest h =
      rw (cons-append, nil-append)
  digit_step acc (suc (suc (suc (suc (suc (suc (suc (suc (suc zero))))))))) rest h =
      rw (cons-append, nil-append)
  digit_step acc (suc (suc (suc (suc (suc (suc (suc (suc (suc (suc d)))))))))) rest h =
      absurd (omega arith)

  -- Printed digits are read back, with any rest behind them, as long as the number fits a port.
  parse_digits-decimal_from :
      (fuel n : ℕ) (rest : String)
      → n < fuel
      → n < limit
      → parse_digits limit 0 (decimal_from fuel n rest) ≡ parse_digits limit n rest
  unfolding decimal_from
  parse_digits-decimal_from zero n rest h k = elim h [ ]
  parse_digits-decimal_from (suc fuel) n rest h k = elim (Bool-cases (ltb n 10)) [
    | inl last ↦ rw (last, decimal_from) (ground (arith, digit_step 0 n rest, last))
    | inr more ↦
        let front =
          parse_digits-decimal_from fuel (n / 10) (String.◌++◌ (digit (n % 10)) rest) (ground arith)
            (omega arith) in
        let same : n / 10 * 10 + n % 10 ≡ n = omega arith in
        rw (more, decimal_from)
          (front ∙ digit_step (n / 10) (n % 10) rest (omega arith) ∙ ground (arith, same))
  ]

  -- A number that does not fit is refused, whatever follows.
  parse_digits-decimal_from_large :
      (fuel n : ℕ) (rest : String)
      → n < fuel
      → limit ≤ n
      → parse_digits limit 0 (decimal_from fuel n rest) ≡ none
  unfolding decimal_from
  parse_digits-decimal_from_large zero n rest h k = elim h [ ]
  parse_digits-decimal_from_large (suc fuel) n rest h k = elim (Bool-cases (ltb n 10)) [
    | inl last ↦ rw (last, decimal_from) (ground (arith, digit_step 0 n rest, last))
    | inr more ↦
        let after = String.◌++◌ (digit (n % 10)) rest in
        rw (more, decimal_from)
          (elim (Bool-cases (ltb (n / 10) limit)) [
            | inr large ↦
                parse_digits-decimal_from_large fuel (n / 10) after (ground arith) (ground arith)
            | inl small ↦
                parse_digits-decimal_from fuel (n / 10) after (ground arith) (ground arith)
                ∙ digit_step (n / 10) (n % 10) rest (omega arith)
                ∙ ground (arith, small)
          ])
  ]

  parse_uint_of_digit : (s : String) → HasDigit s → parse_uint limit s ≡ parse_digits limit 0 s
  unfolding parse_uint
  parse_uint_of_digit String.[] h = absurd h
  parse_uint_of_digit (String.◌∷◌ c String.[]) h = refl
  parse_uint_of_digit (String.◌∷◌ c (String.◌∷◌ d s)) h = ground arith

  -- A number that is printed is read back as it is if it is below the limit, and refused otherwise.
  pub parse_uint-decimal :
      (n : ℕ) → parse_uint limit (decimal n) ≡ (if ltb n limit then some n else none)
  unfolding decimal
  parse_uint-decimal n =
      parse_uint_of_digit (decimal n) (HasDigit-decimal_from (suc n) n "" (omega arith))
      ∙ elim (Bool-cases (ltb n limit)) [
        | inl fits ↦ rw fits (
            parse_digits-decimal_from (suc n) n "" (omega arith) (ground arith)
            ∙ unfold parse_digits in refl)
        | inr large ↦
            rw large (parse_digits-decimal_from_large (suc n) n "" (omega arith) (ground arith))
      ]

  -- A number with a minus sign is refused.
  pub parse_uint-minus : (s : String) → parse_uint limit (String.◌∷◌ "-" s) ≡ none
  unfolding parse_uint
  parse_uint-minus String.[] = refl
  parse_uint-minus (String.◌∷◌ c s) = refl
