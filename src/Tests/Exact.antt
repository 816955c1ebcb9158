-- ===== src/Tests/Exact.antt =====
-- A concrete arithmetic in place of Go's `float64`: integers, with division towards zero. The laws
-- hold of it, so the theorems that assume them are about something.
use terminal_army_go.Base.{ℕ, ◌≡◌, false, zero, suc, ◌*◌, ◌^◌, leb, arith, if◌then◌else◌}
use terminal_army_go.Int.{
  ℤ, pos, negsuc, ◌+ℤ◌, ◌-ℤ◌, ◌*ℤ◌, ◌/ℤ◌, ◌≤ℤ◌, ltb_ℤ, leb_ℤ, pos_part, int_laws, le→ltb_ℤ_false,
  ltb_ℤ_false→le, +ℤ_nonneg,
}
use terminal_army_go.Float.{Float64, Float64Laws, HalvingLaws}

-- The largest `k ≤ n` with `k * k ≤ x`.
abbrev root_below : ℕ → ℕ → ℕ
root_below x zero = 0
root_below x (suc n) = let rest = root_below x n in if leb (suc n * suc n) x then suc n else rest

-- 3 for Euler's number.
abbrev power_of_three : ℤ → ℤ
power_of_three (pos n) = pos (3 ^ n)
power_of_three (negsuc n) = pos 0

abbrev power : ℤ → ℤ → ℤ
power x (pos zero) = pos 1
power x (pos (suc n)) = x *ℤ power x (pos n)
power x (negsuc n) = pos 0

abbrev pub exact : Float64
exact = record {
  F = ℤ;
  of_int = λ n. n;
  dec = λ m k. m /ℤ pos (10 ^ k);
  add = ◌+ℤ◌;
  sub = ◌-ℤ◌;
  mul = ◌*ℤ◌;
  div = ◌/ℤ◌;
  lt = ltb_ℤ;
  le = leb_ℤ;
  trunc = λ x. x;
  floor = λ x. x;
  ceil = λ x. x;
  sqrt = λ x. pos (root_below (pos_part x) 1000);
  exp = power_of_three;
  pow = power;
  min = λ x y. if leb_ℤ x y then x else y;
  max = λ x y. if leb_ℤ x y then y else x;
  hours = λ t. t /ℤ pos 3600000000000;
}

sub_nonneg : (x y : ℤ) → y ≤ℤ x → pos 0 ≤ℤ x -ℤ y
sub_nonneg x y h = omega int_laws

pub exact_laws : Float64Laws exact
exact_laws = record {
  lt_irrefl = λ x. ground arith;
  of_int_mono = λ a b h. ground arith;
  add_NonNeg = λ x y h k. ground (arith, +ℤ_nonneg x y);
  sub_NonNeg = λ x y h. le→ltb_ℤ_false (x -ℤ y) (pos 0) (sub_nonneg x y (ltb_ℤ_false→le x y h));
  trunc_reaches = λ x c h k. ground arith;
}

half_exact :
    (x : ℤ) → ltb_ℤ x (pos 0) ≡ false → (pos 0 ≤ℤ x /ℤ pos 2) × (x /ℤ pos 2 +ℤ x /ℤ pos 2 ≤ℤ x)
unfolding ◌/ℤ◌ ◌+ℤ◌
half_exact x h = (ground arith, ground arith)

pub exact_halving : HalvingLaws exact
exact_halving = record { half_trunc = λ x h small. half_exact x h }
