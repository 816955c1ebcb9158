-- ===== src/Game/Buildings.antt =====
-- The catalogue of buildings (`internal/game/constants.go`). `BuildingType` is a string type in the
-- source, and its map literals are association lists.
use Prim.Native.String.{String}
use terminal_army_go.Base.{ℕ, List, [], ◌∷◌}
use terminal_army_go.Int.{ℤ, pos}
use terminal_army_go.Dict.{Dict}
use terminal_army_go.Game.Techs.{TechType, tech_energy, tech_computer}

abbrev pub BuildingType : Type 0
BuildingType = String

abbrev pub building_metal_mine : BuildingType
building_metal_mine = "metal_mine"

abbrev pub building_crystal_mine : BuildingType
building_crystal_mine = "crystal_mine"

abbrev pub building_deuterium_synthesizer : BuildingType
building_deuterium_synthesizer = "deuterium_synthesizer"

abbrev pub building_solar_plant : BuildingType
building_solar_plant = "solar_plant"

abbrev pub building_fusion_reactor : BuildingType
building_fusion_reactor = "fusion_reactor"

abbrev pub building_solar_satellite : BuildingType
building_solar_satellite = "solar_satellite"

abbrev pub building_crawler : BuildingType
building_crawler = "crawler"

abbrev pub building_metal_storage : BuildingType
building_metal_storage = "metal_storage"

abbrev pub building_crystal_storage : BuildingType
building_crystal_storage = "crystal_storage"

abbrev pub building_deuterium_tank : BuildingType
building_deuterium_tank = "deuterium_tank"

abbrev pub building_robotics_factory : BuildingType
building_robotics_factory = "robotics_factory"

abbrev pub building_shipyard : BuildingType
building_shipyard = "shipyard"

abbrev pub building_research_lab : BuildingType
building_research_lab = "research_lab"

abbrev pub building_alliance_depot : BuildingType
building_alliance_depot = "alliance_depot"

abbrev pub building_missile_silo : BuildingType
building_missile_silo = "missile_silo"

abbrev pub building_nanite_factory : BuildingType
building_nanite_factory = "nanite_factory"

abbrev pub building_terraformer : BuildingType
building_terraformer = "terraformer"

-- The order of the Resources tab.
unfoldable pub resource_buildings : List BuildingType
resource_buildings =
    building_metal_mine ∷ building_crystal_mine ∷ building_deuterium_synthesizer
    ∷ building_solar_plant ∷ building_fusion_reactor ∷ building_solar_satellite ∷ building_crawler
    ∷ building_metal_storage ∷ building_crystal_storage ∷ building_deuterium_tank ∷ []

-- The order of the Facilities tab.
unfoldable pub facility_buildings : List BuildingType
facility_buildings =
    building_robotics_factory ∷ building_shipyard ∷ building_research_lab ∷ building_alliance_depot
    ∷ building_missile_silo ∷ building_nanite_factory ∷ building_terraformer ∷ []

unfoldable pub building_labels : Dict String
building_labels =
    (building_metal_mine, "Metal Mine")
    ∷ (building_crystal_mine, "Crystal Mine")
    ∷ (building_deuterium_synthesizer, "Deuterium Synthesizer")
    ∷ (building_solar_plant, "Solar Plant")
    ∷ (building_fusion_reactor, "Fusion Reactor")
    ∷ (building_solar_satellite, "Solar Satellite")
    ∷ (building_crawler, "Crawler")
    ∷ (building_robotics_factory, "Robotics Factory")
    ∷ (building_shipyard, "Shipyard")
    ∷ (building_research_lab, "Research Laboratory")
    ∷ (building_metal_storage, "Metal Storage")
    ∷ (building_crystal_storage, "Crystal Storage")
    ∷ (building_deuterium_tank, "Deuterium Tank")
    ∷ (building_nanite_factory, "Nanite Factory")
    ∷ (building_missile_silo, "Missile Silo")
    ∷ (building_alliance_depot, "Alliance Depot")
    ∷ (building_terraformer, "Terraformer")
    ∷ []

-- `factor` is in tenths: every growth factor of the table has one decimal.
pub record BuildingCost : Type 0 where
  pub metal : ℤ
  pub crystal : ℤ
  pub deuterium : ℤ
  pub factor : ℕ

abbrev building_cost_row : ℕ → ℕ → ℕ → ℕ → BuildingCost
building_cost_row m c d f = record { metal = pos m; crystal = pos c; deuterium = pos d; factor = f }

unfoldable pub building_costs : Dict BuildingCost
building_costs =
    (building_metal_mine, building_cost_row 60 15 0 15)
    ∷ (building_crystal_mine, building_cost_row 48 24 0 16)
    ∷ (building_deuterium_synthesizer, building_cost_row 225 75 0 15)
    ∷ (building_solar_plant, building_cost_row 75 30 0 15)
    ∷ (building_fusion_reactor, building_cost_row 900 360 180 18)
    ∷ (building_solar_satellite, building_cost_row 0 2000 500 10)
    ∷ (building_crawler, building_cost_row 2000 2000 1000 10)
    ∷ (building_robotics_factory, building_cost_row 400 120 200 20)
    ∷ (building_shipyard, building_cost_row 400 200 100 20)
    ∷ (building_research_lab, building_cost_row 200 400 200 20)
    ∷ (building_metal_storage, building_cost_row 1000 0 0 20)
    ∷ (building_crystal_storage, building_cost_row 1000 500 0 20)
    ∷ (building_deuterium_tank, building_cost_row 1000 1000 0 20)
    ∷ (building_nanite_factory, building_cost_row 1000000 500000 100000 20)
    ∷ (building_missile_silo, building_cost_row 20000 20000 1000 20)
    ∷ (building_alliance_depot, building_cost_row 20000 40000 0 20)
    ∷ (building_terraformer, building_cost_row 0 50000 100000 20)
    ∷ []

unfoldable pub mine_energy_coeff : Dict ℤ
mine_energy_coeff =
    (building_metal_mine, pos 10)
    ∷ (building_crystal_mine, pos 10)
    ∷ (building_deuterium_synthesizer, pos 20)
    ∷ []

-- Either another building at a level (`building` is not empty) or a technology at a level.
pub record BuildingPrereqEntry : Type 0 where
  pub building : BuildingType
  pub tech : TechType
  pub level : ℤ

abbrev needs_building : BuildingType → ℕ → BuildingPrereqEntry
needs_building b n = record { building = b; tech = ""; level = pos n }

abbrev needs_tech : TechType → ℕ → BuildingPrereqEntry
needs_tech t n = record { building = ""; tech = t; level = pos n }

unfoldable pub building_prerequisites : Dict (List BuildingPrereqEntry)
building_prerequisites =
    (
      building_fusion_reactor,
      needs_building building_deuterium_synthesizer 5 ∷ needs_tech tech_energy 3 ∷ [],
    )
    ∷ (building_shipyard, needs_building building_robotics_factory 2 ∷ [])
    ∷ (building_research_lab, [])
    ∷ (building_missile_silo, needs_building building_shipyard 1 ∷ [])
    ∷ (
      building_nanite_factory,
      needs_building building_robotics_factory 10 ∷ needs_tech tech_computer 10 ∷ [],
    )
    ∷ (
      building_terraformer,
      needs_building building_nanite_factory 1 ∷ needs_tech tech_energy 12 ∷ [],
    )
    ∷ []
