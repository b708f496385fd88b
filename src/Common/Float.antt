-- ===== src/Common/Float.antt =====
-- Python's `float` as an interface: the operations that the program uses, and what IEEE 754
-- arithmetic promises of them away from NaN and overflow. Rounding is monotone, so sums and
-- products keep the order; no law of exact arithmetic (associativity, distribution) is assumed.
use mathlib.Core.Path.{subst}
use call_audit_supervisor.Common.{ℕ, ◌≤◌, ◌≡◌, refl, Bool, true, false, String}

pub record FloatOps : Type 1 where
  pub F : Type 0
  pub of_nat : ℕ → F  -- `float(n)`
  pub pow2 : ℕ → F  -- `2.0 ** n`
  pub add : F → F → F
  pub sub : F → F → F
  pub mul : F → F → F
  pub div : F → F → F
  pub le : F → F → Bool  -- `a <= b`
  pub micros : F → ℕ  -- `timedelta(seconds=x)`, in microseconds
  pub fixed2 : F → String  -- `f"{x:.2f}"`
  pub percent : F → String  -- `f"{x:.0%}"`

module _ (f : FloatOps) where
  open f use {F, of_nat, le}

  -- `a < b`, for numbers
  abbrev pub lt : F → F → Bool
  lt a b = elim (le b a) [ true ↦ false | false ↦ true ]

  -- Python's `min(a, b)` and `max(a, b)` give the first of two equals.
  abbrev pub min : F → F → F
  min a b = elim (le a b) [ true ↦ a | false ↦ b ]

  abbrev pub max : F → F → F
  max a b = elim (le b a) [ true ↦ a | false ↦ b ]

  abbrev pub ◌≤F◌ : F → F → Type 0
  ◌≤F◌ a b = le a b ≡ true

  abbrev pub zero : F
  zero = of_nat 0

  abbrev pub one : F
  one = of_nat 1

  abbrev pub two : F
  two = of_nat 2

pub record FloatLaws (f : FloatOps) : Type 0 where
  pub le_refl : (a : f.F) → ◌≤F◌ f a a
  pub le_trans : (a b c : f.F) → ◌≤F◌ f a b → ◌≤F◌ f b c → ◌≤F◌ f a c
  pub le_total : (a b : f.F) → f.le a b ≡ false → ◌≤F◌ f b a
  pub add_mono : (a b c d : f.F) → ◌≤F◌ f a b → ◌≤F◌ f c d → ◌≤F◌ f (f.add a c) (f.add b d)
  pub add_zero : (a : f.F) → f.add a (zero f) ≡ a
  pub sub_mono : (a b c : f.F) → ◌≤F◌ f a b → ◌≤F◌ f (f.sub a c) (f.sub b c)
  pub sub_self : (a : f.F) → f.sub a a ≡ zero f
  pub sub_le : (a b : f.F) → ◌≤F◌ f (zero f) b → ◌≤F◌ f (f.sub a b) a
  pub two_minus_one : f.sub (two f) (one f) ≡ one f
  pub mul_mono : (a b c : f.F) → ◌≤F◌ f (zero f) a → ◌≤F◌ f b c → ◌≤F◌ f (f.mul a b) (f.mul a c)
  pub mul_mono_left :
      (a b c : f.F) → ◌≤F◌ f (zero f) c → ◌≤F◌ f a b → ◌≤F◌ f (f.mul a c) (f.mul b c)
  pub mul_zero : (a : f.F) → f.mul a (zero f) ≡ zero f
  pub mul_one : (a : f.F) → f.mul a (one f) ≡ a
  pub of_nat_mono : (m n : ℕ) → m ≤ n → ◌≤F◌ f (f.of_nat m) (f.of_nat n)
  -- powers of two are exact up to the greatest exponent
  pub pow2_one : f.pow2 0 ≡ one f
  pub pow2_mono : (m n : ℕ) → m ≤ n → n ≤ 1023 → ◌≤F◌ f (f.pow2 m) (f.pow2 n)

module _ (f : FloatOps) (laws : FloatLaws f) where
  open f use {F, le, add, sub, mul}

  abbrev pick : Bool → F → F → F
  pick t a b = elim t [ true ↦ a | false ↦ b ]

  -- A choice between two numbers keeps what both have.
  pick_cases {κ} :
      (P : F → Type κ) (t : Bool) (a b : F) → (t ≡ true → P a) → (t ≡ false → P b) → P (pick t a b)
  pick_cases P true a b x y = x refl
  pick_cases P false a b x y = y refl

  pub min_le_left : (a b : F) → ◌≤F◌ f (min f a b) a
  min_le_left a b =
      pick_cases (λ c. ◌≤F◌ f c a) (le a b) a b (λ e. laws.le_refl a) (λ e. laws.le_total a b e)

  pub min_le_right : (a b : F) → ◌≤F◌ f (min f a b) b
  min_le_right a b = pick_cases (λ c. ◌≤F◌ f c b) (le a b) a b (λ e. e) (λ e. laws.le_refl b)

  pub le-min : (a b c : F) → ◌≤F◌ f c a → ◌≤F◌ f c b → ◌≤F◌ f c (min f a b)
  le-min a b c x y = pick_cases (λ d. ◌≤F◌ f c d) (le a b) a b (λ e. x) (λ e. y)

  pub le_max_left : (a b : F) → ◌≤F◌ f a (max f a b)
  le_max_left a b =
      pick_cases (λ c. ◌≤F◌ f a c) (le b a) a b (λ e. laws.le_refl a) (λ e. laws.le_total b a e)

  pub max-le : (a b c : F) → ◌≤F◌ f a c → ◌≤F◌ f b c → ◌≤F◌ f (max f a b) c
  max-le a b c x y = pick_cases (λ d. ◌≤F◌ f d c) (le b a) a b (λ e. x) (λ e. y)

  -- A difference is not negative when the second number is not greater.
  pub sub_nonneg : (a b : F) → ◌≤F◌ f a b → ◌≤F◌ f (zero f) (sub b a)
  sub_nonneg a b h = subst (λ z. ◌≤F◌ f z (sub b a)) (laws.sub_self a) (laws.sub_mono a b a h)

  pub mul_nonneg : (a b : F) → ◌≤F◌ f (zero f) a → ◌≤F◌ f (zero f) b → ◌≤F◌ f (zero f) (mul a b)
  mul_nonneg a b x y =
      subst (λ z. ◌≤F◌ f z (mul a b)) (laws.mul_zero a) (laws.mul_mono a (zero f) b x y)

  pub add_nonneg : (a b : F) → ◌≤F◌ f (zero f) a → ◌≤F◌ f (zero f) b → ◌≤F◌ f (zero f) (add a b)
  add_nonneg a b x y =
      subst (λ z. ◌≤F◌ f z (add a b)) (laws.add_zero (zero f))
        (laws.add_mono (zero f) a (zero f) b x y)
