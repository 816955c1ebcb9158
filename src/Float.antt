-- ===== src/Float.antt =====
-- Go's `float64`, which is not implemented in the repository: its operations are a record that the
-- definitions take as an argument, and the IEEE 754 facts that a theorem needs are a second record.
-- Every law is stated so that it also holds of NaN, for which each comparison is false.
use terminal_army_go.Base.{ℕ, ◌^◌, ◌≡◌, Bool, true, false}
use terminal_army_go.Int.{ℤ, pos, ◌+ℤ◌, ◌≤ℤ◌}

pub record Float64 : Type 1 where
  pub F : Type 0
  -- `float64(n)`
  pub of_int : ℤ → F
  -- The literal `m / 10^k`: 1.1 is `dec (pos 11) 1`.
  pub dec : ℤ → ℕ → F
  pub add : F → F → F
  pub sub : F → F → F
  pub mul : F → F → F
  pub div : F → F → F
  pub lt : F → F → Bool
  pub le : F → F → Bool
  -- `int(x)`, towards zero
  pub trunc : F → ℤ
  pub floor : F → F
  pub ceil : F → F
  pub sqrt : F → F
  pub exp : F → F
  pub pow : F → F → F
  pub min : F → F → F
  pub max : F → F → F
  -- `time.Duration.Hours`, of a duration in nanoseconds
  pub hours : ℤ → F

module _ (fl : Float64) where
  open fl use {F, of_int, lt}

  -- Not below zero.
  abbrev pub NonNeg : F → Type 0
  NonNeg x = lt x (of_int (pos 0)) ≡ false

-- Facts of IEEE 754 arithmetic, each true of every value, NaN and the infinities included.
pub record Float64Laws (fl : Float64) : Type 0 where
  pub lt_irrefl : (x : fl.F) → fl.lt x x ≡ false
  -- Conversion rounds, and rounding keeps order.
  pub of_int_mono : (a b : ℤ) → a ≤ℤ b → fl.lt (fl.of_int b) (fl.of_int a) ≡ false
  -- A sum of two numbers that are not negative is not negative.
  pub add_NonNeg : (x y : fl.F) → NonNeg fl x → NonNeg fl y → NonNeg fl (fl.add x y)
  -- `x - y` is not negative unless `x` is below `y`.
  pub sub_NonNeg : (x y : fl.F) → fl.lt x y ≡ false → NonNeg fl (fl.sub x y)
  -- A number that is not negative is not below a bound that its integer part reaches.
  pub trunc_reaches :
      (x : fl.F) (c : ℤ) → NonNeg fl x → c ≤ℤ fl.trunc x → fl.lt x (fl.of_int c) ≡ false

-- Half of a number from zero to below 2^63, whose integer part `int` gives: the division by two is
-- exact, or its result is below one.
pub record HalvingLaws (fl : Float64) : Type 0 where
  pub half_trunc :
      (x : fl.F)
      → NonNeg fl x
      → fl.lt x (fl.of_int (pos (2 ^ 63))) ≡ true
      → (pos 0 ≤ℤ fl.trunc (fl.div x (fl.of_int (pos 2))))
        × (fl.trunc (fl.div x (fl.of_int (pos 2))) +ℤ fl.trunc (fl.div x (fl.of_int (pos 2)))
            ≤ℤ fl.trunc x)
