-- ===== src/Game/Fleet.antt =====
-- Fleet movement and espionage formulas (`internal/game/fleet.go`, the part above the combat).
pub mod Distances
pub mod Cargo
use Prim.Native.String.{String}
use text.Mathlib.Text.{◌==◌ as str_eq}
use terminal_army_go.Base.{ℕ, List, [], ◌∷◌, Option, none, some, Bool, ◌||◌, if◌then◌else◌}
use terminal_army_go.Int.{ℤ, pos, negsuc, ◌+ℤ◌, ◌-ℤ◌, ◌*ℤ◌, ◌/ℤ◌, ltb_ℤ, leb_ℤ, eqb_ℤ}
use terminal_army_go.Dict.{Dict, lookup, level}
use terminal_army_go.Float.{Float64}
use terminal_army_go.Game.Techs.{TechType, tech_impulse_drive, tech_hyperspace_drive}
use terminal_army_go.Game.Ships.{ShipType, ship_stats, ship_drive}

-- `absInt`
unfoldable pub abs_int : ℤ → ℤ
abs_int x = if ltb_ℤ x (pos 0) then pos 0 -ℤ x else x

-- `clampInt`
unfoldable pub clamp_int : ℤ → ℤ → ℤ → ℤ
clamp_int x lo hi = if ltb_ℤ x lo then lo else if ltb_ℤ hi x then hi else x

-- `Distance`
unfoldable pub distance : ℤ → ℤ → ℤ → ℤ → ℤ → ℤ → ℤ
unfolding abs_int
distance g_from s_from p_from g_to s_to p_to =
    if eqb_ℤ g_from g_to
    then (if eqb_ℤ s_from s_to
        then (if eqb_ℤ p_from p_to then pos 5 else pos 1000 +ℤ pos 5 *ℤ abs_int (p_from -ℤ p_to))
        else pos 2700 +ℤ pos 95 *ℤ abs_int (s_from -ℤ s_to))
    else pos 20000 *ℤ abs_int (g_from -ℤ g_to)

-- `FleetCargoCapacity`, the body of its loop and the loop
unfoldable pub hull_capacity : ShipType → ℤ → ℤ
hull_capacity st count =
    if leb_ℤ count (pos 0)
    then pos 0
    else elim (lookup st ship_stats) [ none ↦ pos 0 | some stat ↦ stat.cargo *ℤ count ]

unfoldable pub fleet_cargo_from : ℤ → Dict ℤ → ℤ
fleet_cargo_from total [] = total
fleet_cargo_from total ((st, count) ∷ ships) =
    fleet_cargo_from (total +ℤ hull_capacity st count) ships

unfoldable pub fleet_cargo_capacity : Dict ℤ → ℤ
unfolding fleet_cargo_from hull_capacity
fleet_cargo_capacity ships = fleet_cargo_from (pos 0) ships

-- `EspionageInfoLevel`
unfoldable pub espionage_info_level : ℤ → ℤ → ℤ → ℤ
espionage_info_level probes attacker_tech defender_tech =
    let diff = attacker_tech -ℤ defender_tech in
    let delta = if ltb_ℤ diff (pos 0) then pos 0 else diff in
    let raised = probes /ℤ pos 2 +ℤ delta +ℤ pos 1 in
    let least = if ltb_ℤ raised (pos 1) then pos 1 else raised in
    if ltb_ℤ (pos 5) least then pos 5 else least

module _ (fl : Float64) where
  open fl use {F, of_int, dec, add, mul, div, lt, trunc, sqrt}

  -- The bonus for one level of a drive: 0.10, 0.20 or 0.30.
  abbrev drive_multiplier : TechType → F
  drive_multiplier drive =
      if str_eq drive tech_impulse_drive
      then dec (pos 20) 2
      else if str_eq drive tech_hyperspace_drive
      then dec (pos 30) 2
      else dec (pos 10) 2

  -- `ShipSpeed`
  unfoldable pub ship_speed : ShipType → Dict ℤ → ℤ
  ship_speed ship tech_levels = elim (lookup ship ship_stats) [
    | none ↦ pos 0
    | some stat ↦ elim (lookup ship ship_drive) [
      | none ↦ stat.speed
      | some drive ↦ trunc (
          mul (of_int stat.speed) (
            add (of_int (pos 1)) (mul (drive_multiplier drive) (of_int (level tech_levels drive)))))
    ]
  ]

  -- `FlightDurationSeconds`
  unfoldable pub flight_duration_seconds : ℤ → ℤ → ℤ → ℤ → ℤ
  unfolding clamp_int
  flight_duration_seconds distance_units fleet_speed universe_speed speed_percent =
      if leb_ℤ fleet_speed (pos 0)
      then pos 1
      else (let factor = if ltb_ℤ universe_speed (pos 1) then pos 1 else universe_speed in
          let sp = div (of_int (clamp_int speed_percent (pos 10) (pos 100))) (of_int (pos 100)) in
          let root =
            sqrt (div (mul (of_int (pos 10)) (of_int distance_units)) (of_int fleet_speed)) in
          let base =
            div (add (of_int (pos 10)) (mul (div (of_int (pos 3500)) sp) root)) (of_int factor) in
          let secs = trunc base in if ltb_ℤ secs (pos 1) then pos 1 else secs)

  -- `FleetFuelConsumption`, the loop and the function
  unfoldable pub fuel_from : F → ℤ → F → Dict ℤ → F
  fuel_from total distance_units speed_term [] = total
  fuel_from total distance_units speed_term ((st, count) ∷ ships) =
      let total' = if leb_ℤ count (pos 0) then total else elim (lookup st ship_stats) [
        | none ↦ total
        | some stat ↦ add total (
            mul
              (mul (mul (of_int count) (of_int stat.fuel))
                (div (of_int distance_units) (of_int (pos 35000))))
              speed_term)
      ] in
      fuel_from total' distance_units speed_term ships

  unfoldable pub fleet_fuel_consumption : Dict ℤ → ℤ → ℤ → ℤ
  unfolding clamp_int fuel_from
  fleet_fuel_consumption [] distance_units speed_percent = pos 0
  fleet_fuel_consumption (entry ∷ ships) distance_units speed_percent =
      let sp = div (of_int (clamp_int speed_percent (pos 10) (pos 100))) (of_int (pos 100)) in
      let speed_term = mul (add (of_int (pos 1)) sp) (add (of_int (pos 1)) sp) in
      let fuel = trunc (fuel_from (of_int (pos 0)) distance_units speed_term (entry ∷ ships)) in
      if ltb_ℤ fuel (pos 1) then pos 1 else fuel

  -- `SlowestShipSpeed`, the loop (`min` starts at -1) and the function
  unfoldable pub slowest_from : ℤ → Dict ℤ → Dict ℤ → ℤ
  slowest_from slowest tech_levels [] = slowest
  slowest_from slowest tech_levels ((st, count) ∷ ships) =
      let s = ship_speed st tech_levels in
      slowest_from
        (if leb_ℤ count (pos 0)
          then slowest
          else if ltb_ℤ slowest (pos 0) || ltb_ℤ s slowest
          then s
          else slowest)
        tech_levels ships

  unfoldable pub slowest_ship_speed : Dict ℤ → Dict ℤ → ℤ
  unfolding slowest_from
  slowest_ship_speed ships tech_levels =
      let slowest = slowest_from (negsuc 0) tech_levels ships in
      if ltb_ℤ slowest (pos 0) then pos 5000 else slowest

  -- `CounterEspionageChance`
  unfoldable pub counter_espionage_chance : ℤ → ℤ → ℤ → F
  counter_espionage_chance probes defender_tech attacker_tech =
      if ltb_ℤ defender_tech attacker_tech
      then of_int (pos 0)
      else (let base = div (of_int probes) (of_int (pos 5)) in
          let gap = defender_tech -ℤ attacker_tech in
          let diff = if ltb_ℤ gap (pos 0) then pos 0 else gap in
          let chance = mul base (add (dec (pos 5) 2) (mul (dec (pos 5) 2) (of_int diff))) in
          let most = if lt (of_int (pos 1)) chance then of_int (pos 1) else chance in
          if lt most (of_int (pos 0)) then of_int (pos 0) else most)
