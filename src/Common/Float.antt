-- ===== src/Common/Float.antt =====
-- float64, as far as the balancer and the router use it: a carrier with the operations, and the
-- laws of IEEE 754 that the construction of a router relies on. The laws hold for NaN and for the
-- infinities too: they speak of the test `w <= 0` being false.
use Prim.Native.Nat.{ℕ, ◌+◌, ◌*◌, ◌/◌}
use mathlib.Core.Path.{◌≡◌, refl}
use mathlib.Core.Bool.{Bool, false}
use native.Mathlib.Omega.{arith}
use aura_proxy.Common.Tests.{◌==◌, ltb, leb}

pub record Float64 (F : Type 0) : Type 0 where
  pub f_zero : F
  pub f_one : F
  pub f_add : F → F → F
  pub f_mul : F → F → F
  pub f_div : F → F → F
  pub f_lt : F → F → Bool
  pub f_le : F → F → Bool
  pub f_eq : F → F → Bool

-- IEEE 754: a number that is not `<= 0` is not `< 0` and does not equal 0, the sum of two such
-- numbers is such a number, adding one to +0 leaves it such, and 1 is such a number.
pub record IsIeee {F : Type 0} (fl : Float64 F) : Type 0 where
  pub not_lt : (a : F) → fl.f_le a fl.f_zero ≡ false → fl.f_lt a fl.f_zero ≡ false
  pub not_eq : (a : F) → fl.f_le a fl.f_zero ≡ false → fl.f_eq a fl.f_zero ≡ false
  pub add_pos :
      (a b : F)
      → fl.f_le a fl.f_zero ≡ false
      → fl.f_le b fl.f_zero ≡ false
      → fl.f_le (fl.f_add a b) fl.f_zero ≡ false
  pub zero_add_pos :
      (a : F) → fl.f_le a fl.f_zero ≡ false → fl.f_le (fl.f_add fl.f_zero a) fl.f_zero ≡ false
  pub one_pos : fl.f_le fl.f_one fl.f_zero ≡ false

-- Fixed-point numbers with three decimals, rounded down, meet these laws; the examples use them.
abbrev pub milli : Float64 ℕ
milli = record {
  f_zero = 0;
  f_one = 1000;
  f_add = λ a b. a + b;
  f_mul = λ a b. a * b / 1000;
  f_div = λ a b. a * 1000 / b;
  f_lt = ltb;
  f_le = leb;
  f_eq = ◌==◌;
}

pub milli-IsIeee : IsIeee milli
milli-IsIeee = record {
  not_lt = λ a h. ground arith;
  not_eq = λ a h. ground arith;
  add_pos = λ a b h k. ground arith;
  zero_add_pos = λ a h. ground arith;
  one_pos = refl;
}
