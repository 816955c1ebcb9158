-- ===== src/Game/Formulas.antt =====
-- The economic formulas (`internal/game/formulas.go`), over any floating point arithmetic.
pub mod Bounds
use terminal_army_go.Base.{ℕ, Option, none, some, ◌&&◌, ◌||◌, not, if◌then◌else◌}
use terminal_army_go.Int.{ℤ, pos, ◌+ℤ◌, ◌-ℤ◌, ◌*ℤ◌, ltb_ℤ, leb_ℤ}
use terminal_army_go.Dict.{lookup}
use terminal_army_go.Float.{Float64}
use terminal_army_go.Game.Buildings.{BuildingType, building_costs, mine_energy_coeff}
use terminal_army_go.Game.Techs.{TechType, research_costs}
use terminal_army_go.Game.Ships.{ShipType, ship_stats}
use terminal_army_go.Game.Defenses.{DefenseType, defense_stats}

-- The three results of a cost function.
pub record Cost : Type 0 where
  pub metal : ℤ
  pub crystal : ℤ
  pub deuterium : ℤ

abbrev pub no_cost : Cost
no_cost = record { metal = pos 0; crystal = pos 0; deuterium = pos 0 }

-- `ActiveCrawlerCount`
unfoldable pub active_crawler_count : ℤ → ℤ → ℤ → ℤ → ℤ
active_crawler_count count metal_lvl crystal_lvl deut_lvl =
    if leb_ℤ count (pos 0)
    then pos 0
    else (let limit = (metal_lvl +ℤ crystal_lvl +ℤ deut_lvl) *ℤ pos 8 in
        if ltb_ℤ limit (pos 0) then pos 0 else if ltb_ℤ limit count then limit else count)

-- `CrawlerEnergyConsumption`
unfoldable pub crawler_energy_consumption : ℤ → ℤ
crawler_energy_consumption active = if leb_ℤ active (pos 0) then pos 0 else active *ℤ pos 50

-- `ShipUnitCost`
unfoldable pub ship_unit_cost : ShipType → Cost
ship_unit_cost s = elim (lookup s ship_stats) [
  | none ↦ no_cost
  | some st ↦ record { metal = st.metal; crystal = st.crystal; deuterium = st.deuterium }
]

-- `DefenseUnitCost`
unfoldable pub defense_unit_cost : DefenseType → Cost
defense_unit_cost d = elim (lookup d defense_stats) [
  | none ↦ no_cost
  | some st ↦ record { metal = st.metal; crystal = st.crystal; deuterium = st.deuterium }
]

module _ (fl : Float64) where
  open fl use {F, of_int, dec, add, sub, mul, div, le, trunc, floor, ceil, exp, pow}

  abbrev zero_f : F
  zero_f = of_int (pos 0)

  abbrev one_f : F
  one_f = of_int (pos 1)

  -- `math.Pow(1.1, float64(level))`
  abbrev growth : ℤ → F
  growth level = pow (dec (pos 11) 1) (of_int level)

  -- `MetalMineProduction`
  unfoldable pub metal_mine_production : ℤ → F → F → ℤ → F
  metal_mine_production level speed position_bonus plasma_tech =
      if leb_ℤ level (pos 0)
      then zero_f
      else mul
          (mul (mul (mul (mul (of_int (pos 30)) (of_int level)) (growth level)) speed)
            (add one_f (mul (of_int plasma_tech) (dec (pos 1) 2))))
          (add one_f position_bonus)

  -- `CrystalMineProduction`
  unfoldable pub crystal_mine_production : ℤ → F → F → ℤ → F
  crystal_mine_production level speed position_bonus plasma_tech =
      if leb_ℤ level (pos 0)
      then zero_f
      else mul
          (mul (mul (mul (mul (of_int (pos 20)) (of_int level)) (growth level)) speed)
            (add one_f (mul (of_int plasma_tech) (dec (pos 66) 4))))
          (add one_f position_bonus)

  -- `DeuteriumSynthesizerProduction`
  unfoldable pub deuterium_synthesizer_production : ℤ → ℤ → F → ℤ → F
  deuterium_synthesizer_production level avg_temp speed plasma_tech =
      if leb_ℤ level (pos 0)
      then zero_f
      else mul
          (mul
            (mul (mul (mul (of_int (pos 10)) (of_int level)) (growth level))
              (sub (dec (pos 136) 2) (mul (dec (pos 4) 3) (of_int avg_temp))))
            speed)
          (add one_f (mul (of_int plasma_tech) (dec (pos 33) 4)))

  -- `BasePassiveProduction`
  unfoldable pub base_passive_production : F → F × F × F
  base_passive_production speed = (mul (of_int (pos 30)) speed, mul (of_int (pos 15)) speed, zero_f)

  -- `SolarPlantOutput`
  unfoldable pub solar_plant_output : ℤ → ℤ
  solar_plant_output level =
      if leb_ℤ level (pos 0)
      then pos 0
      else trunc (floor (mul (mul (of_int (pos 20)) (of_int level)) (growth level)))

  -- `SolarSatelliteOutput`
  unfoldable pub solar_satellite_output : ℤ → ℤ → ℤ
  solar_satellite_output count avg_temp =
      if leb_ℤ count (pos 0)
      then pos 0
      else (let per_unit = trunc (floor (div (of_int (avg_temp +ℤ pos 160)) (of_int (pos 6)))) in
          (if ltb_ℤ per_unit (pos 0) then pos 0 else per_unit) *ℤ count)

  -- `FusionReactorOutput`
  unfoldable pub fusion_reactor_output : ℤ → ℤ → ℤ
  fusion_reactor_output level energy_tech =
      if leb_ℤ level (pos 0)
      then pos 0
      else trunc (
          floor (
            mul (mul (of_int (pos 30)) (of_int level)) (
              pow (add (dec (pos 105) 2) (mul (of_int energy_tech) (dec (pos 1) 2)))
                (of_int level))))

  -- `FusionDeutConsumption`
  unfoldable pub fusion_deut_consumption : ℤ → F → ℤ
  fusion_deut_consumption level speed =
      if leb_ℤ level (pos 0)
      then pos 0
      else trunc (ceil (mul (mul (mul (of_int (pos 10)) speed) (of_int level)) (growth level)))

  -- `MineEnergyConsumption`
  unfoldable pub mine_energy_consumption : BuildingType → ℤ → ℤ
  mine_energy_consumption b level =
      if leb_ℤ level (pos 0) then pos 0 else elim (lookup b mine_energy_coeff) [
        | none ↦ pos 0
        | some coeff ↦ trunc (ceil (mul (mul (of_int coeff) (of_int level)) (growth level)))
      ]

  -- `int(math.Floor(float64(base) * math.Pow(factor, exp)))`
  abbrev scaled : ℤ → F → F → ℤ
  scaled base factor e = trunc (floor (mul (of_int base) (pow factor e)))

  -- `BuildingLevelCost`
  unfoldable pub building_level_cost : BuildingType → ℤ → Cost
  building_level_cost b target =
      if leb_ℤ target (pos 0) then no_cost else elim (lookup b building_costs) [
        | none ↦ no_cost
        | some cost ↦
            (let factor = dec (pos cost.factor) 1 in
              let e = of_int (target -ℤ pos 1) in
              record {
                metal = scaled cost.metal factor e;
                crystal = scaled cost.crystal factor e;
                deuterium = scaled cost.deuterium factor e;
              })
      ]

  -- `ResearchLevelCost`
  unfoldable pub research_level_cost : TechType → ℤ → Cost
  research_level_cost t target =
      if leb_ℤ target (pos 0) then no_cost else elim (lookup t research_costs) [
        | none ↦ no_cost
        | some cost ↦
            (let factor = dec (pos cost.factor) 2 in
              let e = of_int (target -ℤ pos 1) in
              record {
                metal = scaled cost.metal factor e;
                crystal = scaled cost.crystal factor e;
                deuterium = scaled cost.deuterium factor e;
              })
      ]

  -- `buildTimeSeconds`
  unfoldable pub build_time_seconds_with : ℤ → ℤ → ℤ → ℤ → F → F → ℤ
  build_time_seconds_with metal crystal robotics_level nanite_level speed extra_divisor =
      let divisor = if le extra_divisor zero_f then one_f else extra_divisor in
      let hours = div (of_int (metal +ℤ crystal)) (
        mul
          (mul (mul (mul (of_int (pos 2500)) (add one_f (of_int robotics_level))) speed)
            (pow (of_int (pos 2)) (of_int nanite_level)))
          divisor) in
      let secs = trunc (mul hours (of_int (pos 3600))) in if ltb_ℤ secs (pos 1) then pos 1 else secs

  -- `BuildTimeSeconds`
  unfoldable pub build_time_seconds : ℤ → ℤ → ℤ → ℤ → F → ℤ
  build_time_seconds metal crystal robotics_level nanite_level speed =
      build_time_seconds_with metal crystal robotics_level nanite_level speed one_f

  -- `earlyBuildingTimeDivisor`
  unfoldable pub early_building_time_divisor : ℤ → F
  early_building_time_divisor target =
      let current = target -ℤ pos 1 in
      if ltb_ℤ current (pos 0) || leb_ℤ (pos 5) current
      then one_f
      else div (of_int (pos 7 -ℤ current)) (of_int (pos 2))

  -- `BuildingUpgradeTimeSeconds`
  unfoldable pub building_upgrade_time_seconds : ℤ → ℤ → ℤ → ℤ → ℤ → F → ℤ
  building_upgrade_time_seconds metal crystal robotics_level nanite_level target speed =
      build_time_seconds_with metal crystal robotics_level nanite_level speed
        (early_building_time_divisor target)

  -- `ResearchTimeSeconds`
  unfoldable pub research_time_seconds : ℤ → ℤ → ℤ → F → ℤ
  research_time_seconds metal crystal lab_level speed =
      let hours =
        div (of_int (metal +ℤ crystal))
          (mul (mul (of_int (pos 1000)) speed) (add one_f (of_int lab_level))) in
      let secs = trunc (mul hours (of_int (pos 3600))) in if ltb_ℤ secs (pos 1) then pos 1 else secs

  abbrev base_storage_capacity : ℤ
  base_storage_capacity = pos 10000

  -- `StorageCapacity`
  unfoldable pub storage_capacity : ℤ → ℤ
  storage_capacity level =
      if leb_ℤ level (pos 0)
      then base_storage_capacity
      else trunc (
          floor (
            mul (of_int (pos 5000)) (
              floor (
                mul (dec (pos 25) 1)
                  (exp (div (mul (of_int (pos 20)) (of_int level)) (of_int (pos 33))))))))
