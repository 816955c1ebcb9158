-- ===== src/Scheduler/Fleet/Codes.antt =====
-- The strings that a colony is named with (`generatePlanetCode` and `resolveColonize` of
-- `internal/scheduler/fleet.go`), as `fmt.Sprintf` writes them.
use Prim.Native.String.{String, ◌++◌, count}
use text.Mathlib.TextLemmas.{length-append}
use terminal_army_go.Base.{
  ℕ, zero, suc, ◌+◌, ◌/◌, ◌%◌, ◌≤◌, ◌==◌, Bool, true, false, arith, if◌then◌else◌, ltb,
}
use terminal_army_go.Int.{ℤ, pos, negsuc}

-- A digit below ten.
unfoldable pub digit : ℕ → String
digit d =
    if d == 0
    then "0"
    else if d == 1
    then "1"
    else if d == 2
    then "2"
    else if d == 3
    then "3"
    else if d == 4
    then "4"
    else if d == 5
    then "5"
    else if d == 6
    then "6"
    else if d == 7
    then "7"
    else if d == 8
    then "8"
    else "9"

-- The digits of a number, on a fuel that is at least as large.
unfoldable pub digits : ℕ → ℕ → String
unfolding digit
digits zero n = digit (n % 10)
digits (suc fuel) n =
    let rest = digits fuel (n / 10) in if ltb n 10 then digit n else rest ++ digit (n % 10)

-- `%d`
unfoldable pub decimal : ℤ → String
unfolding digits
decimal (pos n) = digits n n
decimal (negsuc n) = "-" ++ digits (suc n) (suc n)

-- `generatePlanetCode`, with the nanoseconds of the clock
unfoldable pub generate_planet_code : ℕ → ℤ → ℤ → ℤ → ℕ → String
unfolding decimal
generate_planet_code u g s p unix_nano =
    ("u" ++ decimal (pos u))
    ++ (("-" ++ decimal g)
        ++ (("-" ++ decimal s)
            ++ (("-" ++ decimal p) ++ ("-" ++ decimal (pos (unix_nano % 100000))))))

-- The name of a colony.
unfoldable pub colony_name : ℤ → ℤ → ℤ → String
unfolding decimal
colony_name g s p = "Colony " ++ (decimal g ++ (":" ++ (decimal s ++ (":" ++ decimal p))))

count-if : (b : Bool) (s t : String) → 1 ≤ count s → 1 ≤ count t → 1 ≤ count (if b then s else t)
count-if true s t h k = h
count-if false s t h k = k

count-digit : (d : ℕ) → 1 ≤ count (digit d)
unfolding digit
count-digit d = count-if (d == 0) "0" _ (omega arith) (
    count-if (d == 1) "1" _ (omega arith) (
      count-if (d == 2) "2" _ (omega arith) (
        count-if (d == 3) "3" _ (omega arith) (
          count-if (d == 4) "4" _ (omega arith) (
            count-if (d == 5) "5" _ (omega arith) (
              count-if (d == 6) "6" _ (omega arith) (
                count-if (d == 7) "7" _ (omega arith)
                  (count-if (d == 8) "8" _ (omega arith) (omega arith)))))))))

count-digits : (fuel n : ℕ) → 1 ≤ count (digits fuel n)
unfolding digits
count-digits zero n = count-digit (n % 10)
count-digits (suc fuel) n = ground (
  arith,
  count-digit n,
  count-digit (n % 10),
  length-append (digits fuel (n / 10)) (digit (n % 10)),
)

count-decimal : (n : ℤ) → 1 ≤ count (decimal n)
unfolding decimal
count-decimal (pos n) = count-digits n n
count-decimal (negsuc n) =
    omega (arith, count-digits (suc n) (suc n), length-append "-" (digits (suc n) (suc n)))

count-append : (m n : ℕ) (s t : String) → m ≤ count s → n ≤ count t → m + n ≤ count (s ++ t)
count-append m n s t h k = omega (arith, length-append s t)

-- A dash and a number.
count-dashed : (n : ℤ) → 2 ≤ count ("-" ++ decimal n)
count-dashed n = count-append 1 1 "-" (decimal n) (omega arith) (count-decimal n)

-- A code has at least ten characters.
pub count-generate_planet_code :
    (u : ℕ) (g s p : ℤ) (unix_nano : ℕ) → 10 ≤ count (generate_planet_code u g s p unix_nano)
unfolding generate_planet_code
count-generate_planet_code u g s p unix_nano =
    count-append 2 8 ("u" ++ decimal (pos u)) _
      (count-append 1 1 "u" (decimal (pos u)) (omega arith) (count-decimal (pos u)))
      (count-append 2 6 ("-" ++ decimal g) _ (count-dashed g) (
        count-append 2 4 ("-" ++ decimal s) _ (count-dashed s) (
          count-append 2 2 ("-" ++ decimal p) _ (count-dashed p)
            (count-dashed (pos (unix_nano % 100000))))))
