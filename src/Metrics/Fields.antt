-- ===== src/Metrics/Fields.antt =====
-- The fields of the lines of /proc that the metrics thread reads (src/middleware/metrics.rs).
use text.Mathlib.TextLemmas.{nil-append, cons-append, append-nil}
use native.Mathlib.Nat.{mod-eq_of_lt}
use upstreamer.Common.{
  ℕ, zero, suc, ◌+◌, ◌*◌, ◌/◌, ◌%◌, ◌^◌, ◌<◌, ◌≡◌, refl, ap, ◌∙◌, arith, Bool, true, false, some,
  List, [], ◌∷◌, map, String, Char, code, All, get_elem?, get_elem?-lt, inl, inr, Bool-cases, ltb,
  eqb, if◌then◌else◌,
}
use upstreamer.Common.Decimal.{digit, decimal_from, decimal}
use upstreamer.Text.Laws.{◌+++◌}
use upstreamer.Text.Numbers.RoundTrip.{parse_uint-decimal}
use upstreamer.External.{F64Ops}
use upstreamer.Metrics.{
  memory_gauge, cpu_gauge, is_whitespace, keep_word, split_words, split_whitespace, parse_u64,
  parse_at, resident_memory, cpu_seconds,
}

-- No character is white.
abbrev pub IsSolid : String → Type 0
IsSolid String.[] = Unit
IsSolid (String.◌∷◌ c s) = (is_whitespace (code c) ≡ false) × IsSolid s

-- A text that is not empty, none of its characters white.
abbrev pub IsWord : String → Type 0
IsWord String.[] = ⊥
IsWord (String.◌∷◌ c s) = (is_whitespace (code c) ≡ false) × IsSolid s

IsWord-IsSolid : (s : String) → IsWord s → IsSolid s
IsWord-IsSolid String.[] h = absurd h
IsWord-IsSolid (String.◌∷◌ c s) h = h

-- A line, each word with the white character behind it.
abbrev pub line : List (String × Char) → String
line [] = ""
line ((w, c) ∷ ws) = w +++ String.◌∷◌ c (line ws)

abbrev pub IsField : String × Char → Type 0
IsField (w, c) = IsWord w × (is_whitespace (code c) ≡ true)

split_words-append :
    (s t : String)
    → IsSolid s
    → split_words (s +++ t) ≡ (s +++ (split_words t).0, (split_words t).1)
unfolding split_words
split_words-append String.[] t h = rw (nil-append, nil-append) refl
split_words-append (String.◌∷◌ c s) t (solid, h) =
    rw (cons-append, cons-append) (rw (split_words-append s t h, solid) refl)

keep_word-IsWord : (w : String) (ws : List String) → IsWord w → keep_word w ws ≡ w ∷ ws
keep_word-IsWord String.[] ws h = absurd h
keep_word-IsWord (String.◌∷◌ c w) ws h = refl

split_words-white :
    (c : Char) (t : String)
    → is_whitespace (code c) ≡ true
    → split_words (String.◌∷◌ c t) ≡ ("", split_whitespace t)
unfolding split_words split_whitespace
split_words-white c t h = rw h refl

-- The words of a line are got back.
pub split_whitespace-line :
    (fields : List (String × Char))
    → All IsField fields
    → split_whitespace (line fields) ≡ map (λ (w, c). w) fields
unfolding split_whitespace split_words
split_whitespace-line [] h = refl
split_whitespace-line ((w, c) ∷ fields) ((word, white), h) =
    rw
      (
        split_words-append w (String.◌∷◌ c (line fields)) (IsWord-IsSolid w word),
        split_words-white c (line fields) white,
        append-nil,
      )
      (keep_word-IsWord w (split_whitespace (line fields)) word
        ∙ ap (λ ws. w ∷ ws) (split_whitespace-line fields h))

IsSolid-append : (s t : String) → IsSolid s → IsSolid t → IsSolid (s +++ t)
IsSolid-append String.[] t h k = rw nil-append k
IsSolid-append (String.◌∷◌ c s) t (solid, h) k = rw cons-append (solid, IsSolid-append s t h k)

IsWord-append : (s t : String) → IsWord s → IsSolid t → IsWord (s +++ t)
IsWord-append String.[] t h k = absurd h
IsWord-append (String.◌∷◌ c s) t (solid, h) k = rw cons-append (solid, IsSolid-append s t h k)

IsWord-if : (b : Bool) (s t : String) → IsWord s → IsWord t → IsWord (if b then s else t)
IsWord-if true s t h k = h
IsWord-if false s t h k = k

digit-IsWord : (d : ℕ) → IsWord (digit d)
unfolding digit is_whitespace
digit-IsWord d =
    IsWord-if (eqb d 0) _ _ (refl, tt)
      (IsWord-if (eqb d 1) _ _ (refl, tt)
        (IsWord-if (eqb d 2) _ _ (refl, tt)
          (IsWord-if (eqb d 3) _ _ (refl, tt)
            (IsWord-if (eqb d 4) _ _ (refl, tt)
              (IsWord-if (eqb d 5) _ _ (refl, tt)
                (IsWord-if (eqb d 6) _ _ (refl, tt)
                  (IsWord-if (eqb d 7) _ _ (refl, tt)
                    (IsWord-if (eqb d 8) _ _ (refl, tt) (refl, tt)))))))))

decimal_from-IsWord :
    (fuel n : ℕ) (rest : String) → n < fuel → IsSolid rest → IsWord (decimal_from fuel n rest)
unfolding decimal_from
decimal_from-IsWord zero n rest h k = elim h [ ]
decimal_from-IsWord (suc fuel) n rest h k = elim (Bool-cases (ltb n 10)) [
  | inl last ↦ rw (last, decimal_from) (IsWord-append (digit n) rest (digit-IsWord n) k)
  | inr more ↦
      rw (more, decimal_from)
        (decimal_from-IsWord fuel (n / 10) (digit (n % 10) +++ rest) (ground arith)
          (IsWord-IsSolid _ (IsWord-append (digit (n % 10)) rest (digit-IsWord (n % 10)) k)))
]

-- A printed number is a word.
pub decimal-IsWord : (n : ℕ) → IsWord (decimal n)
unfolding decimal
decimal-IsWord n = decimal_from-IsWord (suc n) n "" (omega arith) tt

parse_u64-decimal : (n : ℕ) → n < 2 ^ 64 → parse_u64 (decimal n) ≡ some n
unfolding parse_u64
parse_u64-decimal n h = parse_uint-decimal (2 ^ 64) n ∙ ground arith

abbrev pub words_of : List (String × Char) → List String
words_of fields = map (λ (w, c). w) fields

parse_at-decimal :
    (words : List String) (i n : ℕ)
    → get_elem? words i ≡ some (decimal n)
    → n < 2 ^ 64
    → parse_at words i ≡ some n
parse_at-decimal words i n at h = rw (parse_at, at) (parse_u64-decimal n h)

module _ {F : Type 0} ⦃f : F64Ops F⦄ where
  memory_gauge-decimal :
      (page_size pages : ℕ) (words : List String)
      → get_elem? words 1 ≡ some (decimal pages)
      → pages < 2 ^ 64
      → pages * page_size < 2 ^ 64
      → memory_gauge page_size words
        ≡ ("upstreamer_process_resident_memory_bytes", f.of_nat (pages * page_size)) ∷ []
  unfolding memory_gauge
  memory_gauge-decimal page_size pages words at small fits =
      let read = parse_at-decimal words 1 pages at small in
      let enough = get_elem?-lt words 1 (decimal pages) at in
      let whole : pages * page_size % 2 ^ 64 ≡ pages * page_size = mod-eq_of_lt fits in
      ground (arith, read, enough, whole)

  -- Where the line of the process's memory consists of words, each with a white character behind
  -- it, and its second word is a printed number of pages whose size in bytes is below 2^64, the
  -- gauge of the resident memory is set to that size.
  pub resident_memory-line :
      (page_size pages : ℕ) (fields : List (String × Char))
      → All IsField fields
      → get_elem? (words_of fields) 1 ≡ some (decimal pages)
      → pages < 2 ^ 64
      → pages * page_size < 2 ^ 64
      → resident_memory page_size (some (line fields))
        ≡ ("upstreamer_process_resident_memory_bytes", f.of_nat (pages * page_size)) ∷ []
  unfolding resident_memory
  resident_memory-line page_size pages fields h at small fits =
      ap (memory_gauge page_size) (split_whitespace-line fields h)
      ∙ memory_gauge-decimal page_size pages (words_of fields) at small fits

  cpu_gauge-decimal :
      (clk_tck utime stime : ℕ) (words : List String)
      → get_elem? words 13 ≡ some (decimal utime)
      → get_elem? words 14 ≡ some (decimal stime)
      → utime + stime < 2 ^ 64
      → 0 < clk_tck
      → cpu_gauge clk_tck words
        ≡ (
          "upstreamer_process_cpu_seconds_total",
          f.div (f.of_nat (utime + stime)) (f.of_nat clk_tck),
        )
          ∷ []
  unfolding cpu_gauge
  cpu_gauge-decimal clk_tck utime stime words user system fits ticking =
      let read_user = parse_at-decimal words 13 utime user (omega arith) in
      let read_system = parse_at-decimal words 14 stime system (omega arith) in
      let enough = get_elem?-lt words 14 (decimal stime) system in
      let whole : (utime + stime) % 2 ^ 64 ≡ utime + stime = mod-eq_of_lt fits in
      ground (arith, read_user, read_system, enough, whole)

  -- Where the line of the process's status consists of words, each with a white character behind
  -- it, its 14th and 15th words are printed numbers of ticks whose sum is below 2^64, and there are
  -- ticks in a second, the gauge of the CPU time is set to the sum over the ticks in a second.
  pub cpu_seconds-line :
      (clk_tck utime stime : ℕ) (fields : List (String × Char))
      → All IsField fields
      → get_elem? (words_of fields) 13 ≡ some (decimal utime)
      → get_elem? (words_of fields) 14 ≡ some (decimal stime)
      → utime + stime < 2 ^ 64
      → 0 < clk_tck
      → cpu_seconds clk_tck (some (line fields))
        ≡ (
          "upstreamer_process_cpu_seconds_total",
          f.div (f.of_nat (utime + stime)) (f.of_nat clk_tck),
        )
          ∷ []
  unfolding cpu_seconds
  cpu_seconds-line clk_tck utime stime fields h user system fits ticking =
      ap (cpu_gauge clk_tck) (split_whitespace-line fields h)
      ∙ cpu_gauge-decimal clk_tck utime stime (words_of fields) user system fits ticking
