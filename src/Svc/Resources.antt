-- ===== src/Svc/Resources.antt =====
-- Lazy production (`internal/svc/resources.go`): a planet's pools are brought up to now before they
-- are read.
pub mod Refresh
pub mod Frame
use Prim.Native.String.{String}
use terminal_army_go.Base.{ℕ, Option, none, some, if◌then◌else◌}
use terminal_army_go.Int.{ℤ, pos, ◌-ℤ◌, ltb_ℤ, eqb_ℤ}
use terminal_army_go.Dict.{Dict, level}
use terminal_army_go.Float.{Float64}
use terminal_army_go.Game.Buildings.{
  building_metal_storage, building_crystal_storage, building_deuterium_tank,
}
use terminal_army_go.Game.Formulas.{storage_capacity}
use terminal_army_go.Game.Colonization.{metal_bonus, crystal_bonus}
use terminal_army_go.Game.Production.{ProductionReport, compute_planet_production}
use terminal_army_go.Store.Tx.{Tx, not_found, ◌>>=◌, ◌>>◌, pure, gets, modify, fetch}
use terminal_army_go.Store.Rows.{Planet, World}
use terminal_army_go.Store.Planets.{get_planet, get_universe, update_planet_resources}

-- `time.Second`
abbrev pub second : ℤ
second = pos 1000000000

module _ (fl : Float64) where
  open fl use {F, of_int, add, mul, lt, hours}

  -- `ComputePlanetProduction` on a row.
  unfoldable pub report_of : Planet F → Dict ℤ → Dict ℤ → ℤ → ProductionReport F
  report_of p buildings researches speed_economy =
      compute_planet_production fl buildings researches p.temp_min p.temp_max
        (metal_bonus fl p.position) (crystal_bonus fl p.position) (of_int speed_economy)

  -- `reportForPlanet`
  unfoldable pub report_for_planet : Planet F → Tx (World F) (ProductionReport F)
  unfolding report_of
  report_for_planet p = do
    u ← fetch (get_universe p.universe_id) not_found
    buildings ← gets (λ w. w.buildings p.id)
    researches ← gets (λ w. w.researches p.owner_user_id)
    pure (report_of p buildings researches u.speed_economy)

  -- The cap at the storage's capacity, and then at zero.
  unfoldable pub capped : F → F → F
  capped cap x =
      let y = if lt cap x then cap else x in if lt y (of_int (pos 0)) then of_int (pos 0) else y

  abbrev pub capacity_of : Dict ℤ → String → F
  capacity_of buildings storage = of_int (storage_capacity fl (level buildings storage))

  -- The part of `refreshTx` that credits the window since the last update.
  unfoldable pub credit_window : ℤ → Planet F → Tx (World F) (Unit {0})
  unfolding report_for_planet capped
  credit_window now p = do
    report ← report_for_planet p
    buildings ← gets (λ w. w.buildings p.id)
    let window = hours (now -ℤ p.resources_last_updated_at)
    modify (
        update_planet_resources p.id
          (capped (capacity_of buildings building_metal_storage)
            (add p.metal (mul report.metal_per_hour window)))
          (capped (capacity_of buildings building_crystal_storage)
            (add p.crystal (mul report.crystal_per_hour window)))
          (capped (capacity_of buildings building_deuterium_tank)
            (add p.deuterium (mul report.deuterium_per_hour window)))
          now)

  -- The part of `refreshTx` that follows the read of the planet.
  unfoldable pub refresh_row : ℤ → Planet F → Tx (World F) (Unit {0})
  unfolding credit_window
  refresh_row now p =
      if eqb_ℤ p.resources_last_updated_at (pos 0)
      then modify (update_planet_resources p.id p.metal p.crystal p.deuterium now)
      else if ltb_ℤ (now -ℤ p.resources_last_updated_at) second
      then pure tt
      else credit_window now p

  -- `refreshTx`, with the time that it reads
  unfoldable pub refresh_tx : ℤ → ℕ → Tx (World F) (Unit {0})
  unfolding refresh_row
  refresh_tx now planet_id = do p ← fetch (get_planet planet_id) not_found; refresh_row now p
