-- ===== src/Tests/Floats.antt =====
-- Whole numbers obey the laws that the program relies on of `float`.
use native.Mathlib.Nat.{mul-le-mul_left, mul-le-mul_right, pow-le-pow_right}
use call_audit_supervisor.Common.Float.{FloatOps, FloatLaws}
use call_audit_supervisor.Common.{
  ℕ, ◌+◌, ◌-◌, ◌*◌, ◌/◌, ◌^◌, ◌≤◌, ◌≡◌, refl, true, leb, decimal, arith,
}

abbrev pub whole : FloatOps
whole = record {
  F = ℕ;
  of_nat = λ n. n;
  pow2 = λ n. 2 ^ n;
  add = λ a b. a + b;
  sub = λ a b. a - b;
  mul = λ a b. a * b;
  div = λ a b. a / b;
  le = leb;
  micros = λ a. a * 1000000;
  fixed2 = decimal;
  percent = decimal;
}

of_leb : (a b : ℕ) → leb a b ≡ true → a ≤ b
of_leb a b h = ground arith

to_leb : (a b : ℕ) → a ≤ b → leb a b ≡ true
to_leb a b h = ground arith

pub whole_laws : FloatLaws whole
whole_laws = record {
  le_refl = λ a. ground arith;
  le_trans = λ a b c h k. ground arith;
  le_total = λ a b h. ground arith;
  add_mono = λ a b c d h k. ground arith;
  add_zero = λ a. omega arith;
  sub_mono = λ a b c h. ground arith;
  sub_self = λ a. omega arith;
  sub_le = λ a b h. ground arith;
  two_minus_one = refl;
  mul_mono = λ a b c h k. to_leb (a * b) (a * c) (mul-le-mul_left a (of_leb b c k));
  mul_mono_left = λ a b c h k. to_leb (a * c) (b * c) (mul-le-mul_right c (of_leb a b k));
  mul_zero = λ a. omega arith;
  mul_one = λ a. omega arith;
  of_nat_mono = λ m n h. to_leb m n h;
  pow2_one = refl;
  pow2_mono = λ m n h k. to_leb (2 ^ m) (2 ^ n) (pow-le-pow_right (omega arith) h);
}
