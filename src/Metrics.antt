-- ===== src/Metrics.antt =====
-- What the metrics thread collects (src/middleware/metrics.rs). The files of the system and the
-- constants of `sysconf` are arguments; a gauge that is set is an entry of the result.
pub mod Counts
pub mod Fields
use Prim.Native.String
use upstreamer.Common.{
  ℕ, ◌+◌, ◌*◌, ◌%◌, ◌^◌, Bool, true, false, ◌||◌, ◌&&◌, Option, none, some, List, [], ◌∷◌, ◌++◌,
  String, Char, code, length, get_elem?, leb, ltb, eqb, if◌then◌else◌,
}
use upstreamer.Text.Numbers.{parse_uint}
use upstreamer.Config.Validate.{unwrap_or}
use upstreamer.External.{F64Ops}
use upstreamer.Balance.{OriginState}
use upstreamer.Balance.RoundRobin.{OriginStates}

-- `char::is_whitespace`
unfoldable pub is_whitespace : ℕ → Bool
is_whitespace c =
    (leb 9 c && leb c 13)
    || (eqb c 32
        || (eqb c 133
            || (eqb c 160
                || (eqb c 5760
                    || ((leb 8192 c && leb c 8202)
                        || (eqb c 8232
                            || (eqb c 8233 || (eqb c 8239 || (eqb c 8287 || eqb c 12288)))))))))

-- A word that is not empty is kept.
abbrev pub keep_word : String → List String → List String
keep_word String.[] words = words
keep_word (String.◌∷◌ c w) words = String.◌∷◌ c w ∷ words

-- The first word, as far as it goes on, and the words behind it.
unfoldable pub split_words : String → String × List String
unfolding is_whitespace
split_words String.[] = ("", [])
split_words (String.◌∷◌ c s) =
    let (word, words) = split_words s in
    if is_whitespace (code c) then ("", keep_word word words) else (String.◌∷◌ c word, words)

-- `s.split_whitespace().collect::<Vec<_>>()`
unfoldable pub split_whitespace : String → List String
unfolding split_words
split_whitespace s = let (word, words) = split_words s in keep_word word words

unfoldable pub parse_u64 : String → Option ℕ
unfolding parse_uint
parse_u64 s = parse_uint (2 ^ 64) s

-- `parts[i].parse::<u64>().ok()`; the index is in range where the code reads it.
abbrev pub parse_at : List String → ℕ → Option ℕ
parse_at words i = elim (get_elem? words i) [ none ↦ none | some w ↦ parse_u64 w ]

abbrev pub Gauges : Type 0 → Type 0
Gauges F = List (String × F)

-- `iter().filter(healthy).count()`
unfoldable pub count_healthy : OriginStates → ℕ
count_healthy [] = 0
count_healthy ((key, s) ∷ states) = (if s.healthy then 1 else 0) + count_healthy states

module _ {F : Type 0} ⦃f : F64Ops F⦄ where
  unfoldable pub memory_gauge : ℕ → List String → Gauges F
  unfolding parse_u64
  memory_gauge page_size parts =
      if leb 2 (length parts)
      then (elim (parse_at parts 1) [
        | none ↦ []
        | some rss_pages ↦
            ("upstreamer_process_resident_memory_bytes", f.of_nat (rss_pages * page_size % 2 ^ 64))
            ∷ []
      ])
      else []

  -- The file of the process's memory, if it can be read.
  unfoldable pub resident_memory : ℕ → Option String → Gauges F
  unfolding memory_gauge split_whitespace
  resident_memory page_size none = []
  resident_memory page_size (some statm) = memory_gauge page_size (split_whitespace statm)

  unfoldable pub open_fds : Option ℕ → Gauges F
  open_fds none = []
  open_fds (some count) = ("upstreamer_process_open_fds", f.of_nat count) ∷ []

  unfoldable pub cpu_gauge : ℕ → List String → Gauges F
  unfolding parse_u64
  cpu_gauge clk_tck fields =
      let utime = unwrap_or (parse_at fields 13) 0 in
      let stime = unwrap_or (parse_at fields 14) 0 in
      let ticks = (utime + stime) % 2 ^ 64 in
      if leb 15 (length fields) && ltb 0 clk_tck
      then ("upstreamer_process_cpu_seconds_total", f.div (f.of_nat ticks) (f.of_nat clk_tck)) ∷ []
      else []

  -- The line of the process's status, if it can be read.
  unfoldable pub cpu_seconds : ℕ → Option String → Gauges F
  unfolding cpu_gauge split_whitespace
  cpu_seconds clk_tck none = []
  cpu_seconds clk_tck (some stat) = cpu_gauge clk_tck (split_whitespace stat)

  unfoldable pub origin_counts : OriginStates → Gauges F
  unfolding count_healthy
  origin_counts states =
      ("upstreamer_total_origins", f.of_nat (length states))
      ∷ ("upstreamer_healthy_origins", f.of_nat (count_healthy states))
      ∷ []

  -- `collect`, with the two files of /proc, the number of open files, and the constants.
  unfoldable pub collect :
      Option String → Option ℕ → Option String → ℕ → ℕ → OriginStates → Gauges F
  unfolding resident_memory open_fds cpu_seconds origin_counts
  collect statm fds stat page_size clk_tck states =
      resident_memory page_size statm
      ++ (open_fds fds ++ (cpu_seconds clk_tck stat ++ origin_counts states))
