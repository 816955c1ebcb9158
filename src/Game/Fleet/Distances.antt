-- ===== src/Game/Fleet/Distances.antt =====
-- Distances, durations and espionage (`internal/game/fleet.go`).
use terminal_army_go.Base.{◌≡◌, false, arith}
use terminal_army_go.Int.{ℤ, pos, ◌≤ℤ◌, ◌-ℤ◌}
use terminal_army_go.Float.{Float64, Float64Laws, NonNeg}
use terminal_army_go.Game.Fleet.{abs_int, distance, espionage_info_level, counter_espionage_chance}

abs_int-sub_comm : (a b : ℤ) → abs_int (a -ℤ b) ≡ abs_int (b -ℤ a)
unfolding abs_int ◌-ℤ◌
abs_int-sub_comm a b = ground arith

-- The way back is as long as the way there.
pub distance_comm : (g s p g' s' p' : ℤ) → distance g s p g' s' p' ≡ distance g' s' p' g s p
unfolding distance
distance_comm g s p g' s' p' =
    ground (arith, abs_int-sub_comm g g', abs_int-sub_comm s s', abs_int-sub_comm p p')

-- The information level of a spy report is between 1 and 5.
pub espionage_info_level_bounds :
    (probes a d : ℤ)
    → (pos 1 ≤ℤ espionage_info_level probes a d) × (espionage_info_level probes a d ≤ℤ pos 5)
unfolding espionage_info_level
espionage_info_level_bounds probes a d = ground arith

module _ (fl : Float64) (laws : Float64Laws fl) where
  open fl use {lt, of_int}
  open laws use {lt_irrefl, of_int_mono}

  -- The chance that probes are shot down is never above one and never below zero.
  pub counter_espionage_chance_bounds :
      (probes d a : ℤ)
      → (lt (of_int (pos 1)) (counter_espionage_chance fl probes d a) ≡ false)
        × NonNeg fl (counter_espionage_chance fl probes d a)
  unfolding counter_espionage_chance
  counter_espionage_chance_bounds probes d a = ground (
    arith,
    lt_irrefl (of_int (pos 1)),
    lt_irrefl (of_int (pos 0)),
    of_int_mono (pos 0) (pos 1) (omega arith),
  )
