-- ===== src/Game/Production/Output.antt =====
-- What a production report guarantees (`internal/game/production.go`).
use terminal_army_go.Base.{arith}
use terminal_army_go.Int.{ℤ, pos}
use terminal_army_go.Dict.{Dict}
use terminal_army_go.Float.{Float64, Float64Laws, NonNeg}
use terminal_army_go.Game.Production.{floor_at_zero, compute_planet_production}

module _ (fl : Float64) (laws : Float64Laws fl) where
  open fl use {F, of_int, lt}
  open laws use {lt_irrefl}

  pub floor_at_zero-NonNeg : (x : F) → NonNeg fl (floor_at_zero fl x)
  floor_at_zero-NonNeg x = ground (arith, lt_irrefl (of_int (pos 0)))

  -- A planet never produces a negative amount of anything: not with a negative bonus, not on a hot
  -- planet whose synthesizer formula is negative, and not when the reactor burns more deuterium than
  -- the planet makes.
  pub compute_planet_production-NonNeg :
      (buildings researches : Dict ℤ) (temp_min temp_max : ℤ) (metal_bonus crystal_bonus speed : F)
      → let r =
          compute_planet_production fl buildings researches temp_min temp_max metal_bonus
            crystal_bonus speed in
        NonNeg fl r.metal_per_hour × NonNeg fl r.crystal_per_hour × NonNeg fl r.deuterium_per_hour
  unfolding compute_planet_production
  compute_planet_production-NonNeg b r t u m c s =
      (floor_at_zero-NonNeg _, floor_at_zero-NonNeg _, floor_at_zero-NonNeg _)
