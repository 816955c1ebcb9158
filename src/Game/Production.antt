-- ===== src/Game/Production.antt =====
-- The hourly production of a planet (`internal/game/production.go`), over any floating point
-- arithmetic.
pub mod Output
use terminal_army_go.Base.{ℕ, if◌then◌else◌}
use terminal_army_go.Int.{ℤ, pos, ◌+ℤ◌, ◌-ℤ◌, ltb_ℤ}
use terminal_army_go.Dict.{Dict, level}
use terminal_army_go.Float.{Float64}
use terminal_army_go.Game.Buildings.{
  building_metal_mine, building_crystal_mine, building_deuterium_synthesizer, building_solar_plant,
  building_fusion_reactor, building_solar_satellite, building_crawler,
}
use terminal_army_go.Game.Techs.{tech_plasma, tech_energy}
use terminal_army_go.Game.Formulas.{
  metal_mine_production, crystal_mine_production, deuterium_synthesizer_production,
  base_passive_production, solar_plant_output, solar_satellite_output, fusion_reactor_output,
  fusion_deut_consumption, mine_energy_consumption, active_crawler_count,
  crawler_energy_consumption,
}

pub record ProductionReport (F : Type 0) : Type 0 where
  pub metal_per_hour : F
  pub crystal_per_hour : F
  pub deuterium_per_hour : F
  pub energy_produced : ℤ
  pub energy_consumed : ℤ
  pub production_factor : F
  pub gross_metal : F
  pub gross_crystal : F
  pub gross_deuterium : F

module _ (fl : Float64) where
  open fl use {F, of_int, dec, add, sub, mul, div, lt, trunc, floor, min, max}

  -- `EnergyBalance`
  unfoldable pub energy_balance : ProductionReport F → ℤ
  energy_balance r = r.energy_produced -ℤ r.energy_consumed

  -- `AvgTemp`
  unfoldable pub avg_temp : ℤ → ℤ → ℤ
  avg_temp temp_min temp_max = trunc (floor (div (of_int (temp_min +ℤ temp_max)) (of_int (pos 2))))

  -- The sum of what the mines and the crawlers burn.
  unfoldable pub energy_consumed_by : Dict ℤ → ℤ
  energy_consumed_by buildings =
      let metal_lvl = level buildings building_metal_mine in
      let crystal_lvl = level buildings building_crystal_mine in
      let deut_lvl = level buildings building_deuterium_synthesizer in
      mine_energy_consumption fl building_metal_mine metal_lvl
      +ℤ mine_energy_consumption fl building_crystal_mine crystal_lvl
      +ℤ mine_energy_consumption fl building_deuterium_synthesizer deut_lvl
      +ℤ crawler_energy_consumption
          (active_crawler_count (level buildings building_crawler) metal_lvl crystal_lvl deut_lvl)

  -- The sum of what the plants, the satellites and the reactor give.
  unfoldable pub energy_produced_by : Dict ℤ → Dict ℤ → ℤ → ℤ
  energy_produced_by buildings researches avg_t =
      solar_plant_output fl (level buildings building_solar_plant)
      +ℤ solar_satellite_output fl (level buildings building_solar_satellite) avg_t
      +ℤ fusion_reactor_output fl (level buildings building_fusion_reactor)
          (level researches tech_energy)

  -- `if x < 0 { x = 0 }`
  abbrev pub floor_at_zero : F → F
  floor_at_zero x = if lt x (of_int (pos 0)) then of_int (pos 0) else x

  -- `if crawlerBonus > 0 { x *= 1 + crawlerBonus }`
  abbrev with_bonus : F → F → F
  with_bonus bonus x = if lt (of_int (pos 0)) bonus then mul x (add (of_int (pos 1)) bonus) else x

  -- `ComputePlanetProduction`
  unfoldable pub compute_planet_production :
      Dict ℤ → Dict ℤ → ℤ → ℤ → F → F → F → ProductionReport F
  unfolding avg_temp energy_consumed_by energy_produced_by base_passive_production
  compute_planet_production buildings researches temp_min temp_max metal_bonus crystal_bonus speed =
      let plasma = level researches tech_plasma in
      let metal_lvl = level buildings building_metal_mine in
      let crystal_lvl = level buildings building_crystal_mine in
      let deut_lvl = level buildings building_deuterium_synthesizer in
      let (base_m, base_c, base_d) = base_passive_production fl speed in
      let avg_t = avg_temp temp_min temp_max in
      let gross_m = add base_m (metal_mine_production fl metal_lvl speed metal_bonus plasma) in
      let gross_c =
        add base_c (crystal_mine_production fl crystal_lvl speed crystal_bonus plasma) in
      let gross_d = add base_d (deuterium_synthesizer_production fl deut_lvl avg_t speed plasma) in
      let active =
        active_crawler_count (level buildings building_crawler) metal_lvl crystal_lvl deut_lvl in
      let consumed = energy_consumed_by buildings in
      let produced = energy_produced_by buildings researches avg_t in
      let fusion_deut =
        of_int (fusion_deut_consumption fl (level buildings building_fusion_reactor) speed) in
      let factor =
        if ltb_ℤ (pos 0) consumed
        then min (of_int (pos 1)) (div (of_int produced) (of_int consumed))
        else of_int (pos 1) in
      let bonus = mul (of_int active) (dec (pos 2) 4) in
      let mine_m = with_bonus bonus (mul (sub gross_m base_m) factor) in
      let mine_c = with_bonus bonus (mul (sub gross_c base_c) factor) in
      let mine_d =
        with_bonus bonus
          (mul (deuterium_synthesizer_production fl deut_lvl avg_t speed plasma) factor) in
      record {
        metal_per_hour = floor_at_zero (add base_m mine_m);
        crystal_per_hour = floor_at_zero (add base_c mine_c);
        deuterium_per_hour = floor_at_zero (sub (add base_d mine_d) fusion_deut);
        energy_produced = produced;
        energy_consumed = consumed;
        production_factor = factor;
        gross_metal = gross_m;
        gross_crystal = gross_c;
        gross_deuterium = max (of_int (pos 0)) (sub gross_d fusion_deut);
      }
