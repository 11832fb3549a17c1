-- ===== src/External/Fixed.antt =====
-- Fixed-point numbers, an instance of the laws asked of `f64`: a value is
-- a number of parts of which `scale` make one. A nanosecond is a whole number of parts.
use Prim.Native.Nat.{min, max}
use upstreamer.Common.{ℕ, ◌+◌, ◌-◌, ◌*◌, ◌/◌, ◌^◌, ◌≤◌, ◌<◌, ◌≡◌, refl, arith, ltb, leb}
use upstreamer.External.{F64Ops, IsOrdered, WeightLaws, TokenLaws, ExactLaws}

abbrev pub scale : ℕ
scale = 2 ^ 64 * 1_000_000_000

instance abbrev pub fixed : F64Ops ℕ
fixed = record {
  of_nat = λ n. n * scale;
  secs = λ t. t * 2 ^ 64;
  add = λ a b. a + b;
  sub = λ a b. a - b;
  mul = λ a b. a * b / scale;
  div = λ a b. a * scale / b;
  min = λ a b. min a b;
  max = λ a b. max a b;
  lt = ltb;
  le = leb;
}

div-pos : (a b : ℕ) → 0 < b → b ≤ a → 0 < a / b
div-pos a b h k = grind arith

inverse-pos : (n : ℕ) → n < 2 ^ 64 → 0 < 1 * scale * scale / (n * scale + 1 * scale)
inverse-pos n h = div-pos (1 * scale * scale) (n * scale + 1 * scale) (omega arith) (omega arith)

product-pos : (x n : ℕ) → 0 < x → 0 < n → 0 < x * n
product-pos x n h k = grind arith

product-lt : (r x : ℕ) → r < scale → 0 < x → r * x < scale * x
product-lt r x h k = grind arith

product_mono : (s t n : ℕ) → s ≤ t → s * n ≤ t * n
product_mono s t n h = grind arith

earned_mono :
    (s t n : ℕ) → s ≤ t → s * 2 ^ 64 * (n * scale) / scale ≤ t * 2 ^ 64 * (n * scale) / scale
earned_mono s t n h = omega (arith, product_mono s t n h)

mul-of_nat : (a n : ℕ) → a * (n * scale) / scale ≡ a * n
mul-of_nat a n = omega arith

pub Fixed-IsOrdered : IsOrdered ℕ
Fixed-IsOrdered = record {
  le_refl = λ x. ground arith;
  le_trans = λ x y z. ground arith;
  lt-eq-not-le = λ x y. ground arith;
  le_total = λ x y. ground arith;
  of_nat_mono = λ m n h. ground arith;
  add-nought = λ x. omega arith;
}

pub Fixed-TokenLaws : TokenLaws ℕ
Fixed-TokenLaws = record {
  ordered = Fixed-IsOrdered;
  min-le_left = λ x y. ground arith;
  min-le_right = λ x y. ground arith;
  min_of_le = λ x y h. ground arith;
  min_of_ge = λ x y h. ground arith;
  min_greatest = λ x y z h k. ground arith;
  le-add = λ x y h. ground arith;
  le-add_left = λ x y h. ground arith;
  sub-le = λ x. ground arith;
  sub_nonneg = λ x h. ground arith;
  refill_nonneg = λ t n. ground arith;
  refill_mono = λ s t n h. ground (arith, earned_mono s t n h);
  refill_none = λ n. ground arith;
  sub-of_nat = λ n h. ground arith;
  one-not-le-nought = refl;
}

pub Fixed-ExactLaws : ExactLaws ℕ
Fixed-ExactLaws = record {
  tokens = Fixed-TokenLaws;
  add_comm = λ x y. omega arith;
  add_assoc = λ x y z. omega arith;
  add_mono = λ x y z h. ground arith;
  sub-add = λ x h. ground arith;
  of_nat-suc = λ n. omega arith;
  refill-add = λ s t n. omega arith;
}

pub Fixed-WeightLaws : WeightLaws ℕ
Fixed-WeightLaws = record {
  ordered = Fixed-IsOrdered;
  add_pos_left = λ x y h k. ground arith;
  add_pos_right = λ x y h k. ground arith;
  of_nat_pos = λ n h. ground arith;
  inverse_pos = λ n h. ground (arith, inverse-pos n);
  mul_pos = λ x n h k. ground (arith, mul-of_nat x n, product-pos x n);
  mul-nought = λ x. omega arith;
  sub-nought = λ x. omega arith;
  max_of_le = λ x y h. ground arith;
  mul-lt = λ r x h k. ground (arith, product-lt r x);
  mul_nonneg = λ r x h k. ground arith;
}
