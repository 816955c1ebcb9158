-- ===== src/Game/Ships.antt =====
-- The catalogue of ships (`internal/game/constants.go`).
use Prim.Native.String.{String}
use terminal_army_go.Base.{ℕ, List, [], ◌∷◌}
use terminal_army_go.Int.{ℤ, pos}
use terminal_army_go.Dict.{Dict}
use terminal_army_go.Game.Techs.{
  TechType, tech_armour, tech_combustion_drive, tech_espionage, tech_hyperspace,
  tech_hyperspace_drive, tech_impulse_drive, tech_ion, tech_laser, tech_plasma, tech_shielding,
}

abbrev pub ShipType : Type 0
ShipType = String

abbrev pub ship_small_cargo : ShipType
ship_small_cargo = "small_cargo"

abbrev pub ship_large_cargo : ShipType
ship_large_cargo = "large_cargo"

abbrev pub ship_light_fighter : ShipType
ship_light_fighter = "light_fighter"

abbrev pub ship_heavy_fighter : ShipType
ship_heavy_fighter = "heavy_fighter"

abbrev pub ship_cruiser : ShipType
ship_cruiser = "cruiser"

abbrev pub ship_battleship : ShipType
ship_battleship = "battleship"

abbrev pub ship_colony_ship : ShipType
ship_colony_ship = "colony_ship"

abbrev pub ship_recycler : ShipType
ship_recycler = "recycler"

abbrev pub ship_espionage_probe : ShipType
ship_espionage_probe = "espionage_probe"

abbrev pub ship_bomber : ShipType
ship_bomber = "bomber"

abbrev pub ship_destroyer : ShipType
ship_destroyer = "destroyer"

abbrev pub ship_battlecruiser : ShipType
ship_battlecruiser = "battlecruiser"

unfoldable pub ship_labels : Dict String
ship_labels =
    (ship_small_cargo, "Small Cargo")
    ∷ (ship_large_cargo, "Large Cargo")
    ∷ (ship_light_fighter, "Light Fighter")
    ∷ (ship_heavy_fighter, "Heavy Fighter")
    ∷ (ship_cruiser, "Cruiser")
    ∷ (ship_battleship, "Battleship")
    ∷ (ship_colony_ship, "Colony Ship")
    ∷ (ship_recycler, "Recycler")
    ∷ (ship_espionage_probe, "Espionage Probe")
    ∷ (ship_bomber, "Bomber")
    ∷ (ship_destroyer, "Destroyer")
    ∷ (ship_battlecruiser, "Battlecruiser")
    ∷ []

-- The order of the shipyard view.
unfoldable pub ships : List ShipType
ships =
    ship_small_cargo ∷ ship_large_cargo ∷ ship_light_fighter ∷ ship_heavy_fighter ∷ ship_cruiser
    ∷ ship_battleship ∷ ship_battlecruiser ∷ ship_bomber ∷ ship_destroyer ∷ ship_recycler
    ∷ ship_espionage_probe ∷ ship_colony_ship ∷ []

pub record ShipStat : Type 0 where
  pub metal : ℤ
  pub crystal : ℤ
  pub deuterium : ℤ
  pub armor : ℤ
  pub shield : ℤ
  pub weapon : ℤ
  pub speed : ℤ
  pub cargo : ℤ
  pub fuel : ℤ

abbrev ship_stat_row : ℕ → ℕ → ℕ → ℕ → ℕ → ℕ → ℕ → ℕ → ℕ → ShipStat
ship_stat_row m c d a s w v g f = record {
  metal = pos m;
  crystal = pos c;
  deuterium = pos d;
  armor = pos a;
  shield = pos s;
  weapon = pos w;
  speed = pos v;
  cargo = pos g;
  fuel = pos f;
}

unfoldable pub ship_stats : Dict ShipStat
ship_stats =
    (ship_small_cargo, ship_stat_row 2000 2000 0 4000 10 5 5000 5000 10)
    ∷ (ship_large_cargo, ship_stat_row 6000 6000 0 12000 25 5 7500 25000 50)
    ∷ (ship_light_fighter, ship_stat_row 3000 1000 0 4000 10 50 12500 50 20)
    ∷ (ship_heavy_fighter, ship_stat_row 6000 4000 0 10000 25 150 10000 100 75)
    ∷ (ship_cruiser, ship_stat_row 20000 7000 2000 27000 50 400 15000 800 300)
    ∷ (ship_battleship, ship_stat_row 45000 15000 0 60000 200 1000 10000 1500 500)
    ∷ (ship_colony_ship, ship_stat_row 10000 20000 10000 30000 100 50 2500 7500 1000)
    ∷ (ship_recycler, ship_stat_row 10000 6000 2000 16000 10 1 2000 20000 300)
    ∷ (ship_espionage_probe, ship_stat_row 0 1000 0 1000 0 0 100000000 5 1)
    ∷ (ship_bomber, ship_stat_row 50000 25000 15000 75000 500 1000 4000 500 700)
    ∷ (ship_destroyer, ship_stat_row 60000 50000 15000 110000 500 2000 5000 2000 1000)
    ∷ (ship_battlecruiser, ship_stat_row 30000 40000 15000 70000 400 700 10000 750 250)
    ∷ []

-- Either a shipyard at a level (`shipyard_level` is above 0) or a technology at a level.
pub record ShipPrereqEntry : Type 0 where
  pub shipyard_level : ℤ
  pub tech : TechType
  pub level : ℤ

abbrev needs_shipyard : ℕ → ShipPrereqEntry
needs_shipyard n = record { shipyard_level = pos n; tech = ""; level = pos 0 }

abbrev needs_tech : TechType → ℕ → ShipPrereqEntry
needs_tech t n = record { shipyard_level = pos 0; tech = t; level = pos n }

unfoldable pub ship_prerequisites : Dict (List ShipPrereqEntry)
ship_prerequisites =
    (ship_small_cargo, needs_shipyard 2 ∷ needs_tech tech_combustion_drive 2 ∷ [])
    ∷ (ship_large_cargo, needs_shipyard 4 ∷ needs_tech tech_combustion_drive 6 ∷ [])
    ∷ (ship_light_fighter, needs_shipyard 1 ∷ needs_tech tech_combustion_drive 1 ∷ [])
    ∷ (
      ship_heavy_fighter,
      needs_shipyard 3 ∷ needs_tech tech_armour 2 ∷ needs_tech tech_impulse_drive 2 ∷ [],
    )
    ∷ (
      ship_cruiser,
      needs_shipyard 5 ∷ needs_tech tech_impulse_drive 4 ∷ needs_tech tech_ion 2 ∷ [],
    )
    ∷ (ship_battleship, needs_shipyard 7 ∷ needs_tech tech_hyperspace_drive 4 ∷ [])
    ∷ (ship_colony_ship, needs_shipyard 4 ∷ needs_tech tech_impulse_drive 3 ∷ [])
    ∷ (
      ship_recycler,
      needs_shipyard 4 ∷ needs_tech tech_combustion_drive 6 ∷ needs_tech tech_shielding 2 ∷ [],
    )
    ∷ (
      ship_espionage_probe,
      needs_shipyard 3 ∷ needs_tech tech_combustion_drive 3 ∷ needs_tech tech_espionage 2 ∷ [],
    )
    ∷ (
      ship_bomber,
      needs_shipyard 8 ∷ needs_tech tech_impulse_drive 6 ∷ needs_tech tech_plasma 5 ∷ [],
    )
    ∷ (
      ship_destroyer,
      needs_shipyard 9 ∷ needs_tech tech_hyperspace_drive 6 ∷ needs_tech tech_hyperspace 5 ∷ [],
    )
    ∷ (
      ship_battlecruiser,
      needs_shipyard 8
          ∷ needs_tech tech_hyperspace_drive 5
          ∷ needs_tech tech_laser 12
          ∷ needs_tech tech_hyperspace 5
          ∷ [],
    )
    ∷ []

-- The drive that makes each hull faster.
unfoldable pub ship_drive : Dict TechType
ship_drive =
    (ship_small_cargo, tech_combustion_drive)
    ∷ (ship_large_cargo, tech_combustion_drive)
    ∷ (ship_light_fighter, tech_combustion_drive)
    ∷ (ship_recycler, tech_combustion_drive)
    ∷ (ship_espionage_probe, tech_combustion_drive)
    ∷ (ship_heavy_fighter, tech_impulse_drive)
    ∷ (ship_cruiser, tech_impulse_drive)
    ∷ (ship_colony_ship, tech_impulse_drive)
    ∷ (ship_bomber, tech_impulse_drive)
    ∷ (ship_battleship, tech_hyperspace_drive)
    ∷ (ship_destroyer, tech_hyperspace_drive)
    ∷ (ship_battlecruiser, tech_hyperspace_drive)
    ∷ []
