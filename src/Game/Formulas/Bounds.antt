-- ===== src/Game/Formulas/Bounds.antt =====
-- Bounds on the results of the formulas (`internal/game/formulas.go`).
use terminal_army_go.Base.{arith}
use terminal_army_go.Int.{ℤ, pos, ◌≤ℤ◌, ◌+ℤ◌, ◌*ℤ◌, *ℤ_nonneg}
use terminal_army_go.Float.{Float64}
use terminal_army_go.Game.Formulas.{
  active_crawler_count, build_time_seconds_with, building_upgrade_time_seconds, build_time_seconds,
  research_time_seconds,
}

-- When neither the mine levels' sum nor the count is negative, the number of working crawlers lies
-- between zero and both the crawlers present and eight for each mine level.
pub active_crawler_count_bounds :
    (count m c d : ℤ)
    → pos 0 ≤ℤ m +ℤ c +ℤ d
    → pos 0 ≤ℤ count
    → (pos 0 ≤ℤ active_crawler_count count m c d)
      × (active_crawler_count count m c d ≤ℤ (m +ℤ c +ℤ d) *ℤ pos 8)
      × (active_crawler_count count m c d ≤ℤ count)
unfolding active_crawler_count
active_crawler_count_bounds count m c d h k =
    ground (arith, *ℤ_nonneg (m +ℤ c +ℤ d) (pos 8) h (omega arith))

module _ (fl : Float64) where
  open fl use {F}

  -- Every building, unit and research takes at least one second, whatever the arithmetic returns.
  pub times_positive :
      (metal crystal robotics nanite target lab : ℤ) (speed : F)
      → (pos 1 ≤ℤ building_upgrade_time_seconds fl metal crystal robotics nanite target speed)
        × (pos 1 ≤ℤ build_time_seconds fl metal crystal robotics nanite speed)
        × (pos 1 ≤ℤ research_time_seconds fl metal crystal lab speed)
  unfolding building_upgrade_time_seconds build_time_seconds build_time_seconds_with
      research_time_seconds
  times_positive metal crystal robotics nanite target lab speed =
      (ground arith, ground arith, ground arith)
