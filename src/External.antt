-- ===== src/External.antt =====
-- What the code takes from elsewhere, as parameters: the `url` crate and `f64` arithmetic; and the
-- addresses of `std::net`.
pub mod Fixed
use upstreamer.Common.{
  ℕ, Bool, true, false, ◌≡◌, ◌↔◌, Option, String, Eq, ◌==◌, nat_eq, eqb_iff, arith, suc, ◌+◌, ◌^◌,
  ◌≤◌, ◌<◌, not,
}

-- The `url` crate, over its type of URLs. `to_string` and `as_str` both give the serialization.
pub record UrlOps (Url : Type 0) : Type 0 where
  pub as_str : Url → String
  pub scheme : Url → String
  pub authority : Url → String
  -- `Url::parse(s).ok()`
  pub parse : String → Option Url

module _ {Url : Type 0} ⦃u : UrlOps Url⦄ where
  abbrev pub as_str : Url → String
  as_str = u.as_str

  abbrev pub scheme : Url → String
  scheme = u.scheme

  abbrev pub authority : Url → String
  authority = u.authority

-- `std::net::IpAddr`, an address being read as one number.
pub data IpAddr : Type 0 where
  v4 : ℕ → IpAddr
  v6 : ℕ → IpAddr

abbrev pub ip_beq : IpAddr → IpAddr → Bool
ip_beq (v4 a) (v4 b) = a == b
ip_beq (v6 a) (v6 b) = a == b
ip_beq _ _ = false

pub ip_beq_iff : (a b : IpAddr) → (ip_beq a b ≡ true) ↔ (a ≡ b)
ip_beq_iff (v4 a) (v4 b) = ground (arith, eqb_iff a b)
ip_beq_iff (v6 a) (v6 b) = ground (arith, eqb_iff a b)
ip_beq_iff (v4 a) (v6 b) = ground arith
ip_beq_iff (v6 a) (v4 b) = ground arith

instance abbrev pub ip_eq : Eq IpAddr
ip_eq = record { same = ip_beq; same_iff = ip_beq_iff }

pub record SocketAddr : Type 0 where
  pub ip : IpAddr
  pub port : ℕ

-- The operations on `f64` that the code uses. `of_nat` is the cast `as f64` of an unsigned number,
-- and `secs` is `Duration::as_secs_f64` of a number of nanoseconds.
pub record F64Ops (F : Type 0) : Type 0 where
  pub of_nat : ℕ → F
  pub secs : ℕ → F
  pub add : F → F → F
  pub sub : F → F → F
  pub mul : F → F → F
  pub div : F → F → F
  pub min : F → F → F
  pub max : F → F → F
  pub lt : F → F → Bool
  pub le : F → F → Bool

module _ {F : Type 0} ⦃f : F64Ops F⦄ where
  infix 4 ◌≼◌ ◌≺◌
  abbrev pub ◌≼◌ : F → F → Type 0
  x ≼ y = f.le x y ≡ true

  abbrev pub ◌≺◌ : F → F → Type 0
  x ≺ y = f.lt x y ≡ true

  abbrev pub nought : F
  nought = f.of_nat 0

  abbrev pub one : F
  one = f.of_nat 1

-- What the code rests on of `f64`, over the values that it meets: finite and not NaN, so that the
-- comparisons are those of a total order.
pub record IsOrdered (F : Type 0) ⦃f : F64Ops F⦄ : Type 0 where
  pub le_refl : (x : F) → x ≼ x
  pub le_trans : (x y z : F) → x ≼ y → y ≼ z → x ≼ z
  pub lt-eq-not-le : (x y : F) → f.lt x y ≡ not (f.le y x)
  pub le_total : (x y : F) → f.le x y ≡ false → y ≼ x
  pub of_nat_mono : (m n : ℕ) → m ≤ n → f.of_nat m ≼ f.of_nat n
  pub add-nought : (x : F) → f.add x nought ≡ x

-- The laws of weights. Rounding is monotone and does not take a positive value of this size to 0.
pub record WeightLaws (F : Type 0) ⦃f : F64Ops F⦄ : Type 0 where
  pub ordered : IsOrdered F
  pub open ordered use *
  pub add_pos_left : (x y : F) → nought ≺ x → nought ≼ y → nought ≺ f.add x y
  pub add_pos_right : (x y : F) → nought ≼ x → nought ≺ y → nought ≺ f.add x y
  pub of_nat_pos : (n : ℕ) → 0 < n → nought ≺ f.of_nat n
  pub inverse_pos : (n : ℕ) → n < 2 ^ 64 → nought ≺ f.div one (f.add (f.of_nat n) one)
  pub mul_pos : (x : F) (n : ℕ) → nought ≺ x → 0 < n → nought ≺ f.mul x (f.of_nat n)
  pub mul-nought : (x : F) → f.mul x nought ≡ nought
  pub sub-nought : (x : F) → f.sub x nought ≡ x
  pub max_of_le : (x y : F) → y ≼ x → f.max x y ≡ x
  -- a fraction of a positive value
  pub mul-lt : (r x : F) → r ≺ one → nought ≺ x → f.mul r x ≺ x
  pub mul_nonneg : (r x : F) → nought ≼ r → nought ≺ x → nought ≼ f.mul r x

-- The laws of token counts, which hold of `f64` as it rounds: counts up to 2^32 are exact.
pub record TokenLaws (F : Type 0) ⦃f : F64Ops F⦄ : Type 0 where
  pub ordered : IsOrdered F
  pub open ordered use *
  pub min-le_left : (x y : F) → f.min x y ≼ x
  pub min-le_right : (x y : F) → f.min x y ≼ y
  pub min_of_le : (x y : F) → x ≼ y → f.min x y ≡ x
  pub min_of_ge : (x y : F) → y ≼ x → f.min x y ≡ y
  pub min_greatest : (x y z : F) → z ≼ x → z ≼ y → z ≼ f.min x y
  pub le-add : (x y : F) → nought ≼ y → x ≼ f.add x y
  pub le-add_left : (x y : F) → nought ≼ x → y ≼ f.add x y
  pub sub-le : (x : F) → f.sub x one ≼ x
  pub sub_nonneg : (x : F) → one ≼ x → nought ≼ f.sub x one
  pub refill_nonneg : (t n : ℕ) → nought ≼ f.mul (f.secs t) (f.of_nat n)
  pub refill_mono :
      (s t n : ℕ) → s ≤ t → f.mul (f.secs s) (f.of_nat n) ≼ f.mul (f.secs t) (f.of_nat n)
  pub refill_none : (n : ℕ) → f.mul (f.secs 0) (f.of_nat n) ≡ nought
  pub sub-of_nat : (n : ℕ) → n < 2 ^ 32 → f.sub (f.of_nat (suc n)) one ≡ f.of_nat n
  pub one-not-le-nought : f.le one nought ≡ false

-- Arithmetic without rounding, for the bound on a rate over time.
pub record ExactLaws (F : Type 0) ⦃f : F64Ops F⦄ : Type 0 where
  pub tokens : TokenLaws F
  pub open tokens use *
  pub add_comm : (x y : F) → f.add x y ≡ f.add y x
  pub add_assoc : (x y z : F) → f.add (f.add x y) z ≡ f.add x (f.add y z)
  pub add_mono : (x y z : F) → x ≼ y → f.add x z ≼ f.add y z
  pub sub-add : (x : F) → one ≼ x → f.add (f.sub x one) one ≡ x
  pub of_nat-suc : (n : ℕ) → f.of_nat (suc n) ≡ f.add (f.of_nat n) one
  pub refill-add :
      (s t n : ℕ)
      → f.add (f.mul (f.secs s) (f.of_nat n)) (f.mul (f.secs t) (f.of_nat n))
        ≡ f.mul (f.secs (s + t)) (f.of_nat n)
