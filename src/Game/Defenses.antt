-- ===== src/Game/Defenses.antt =====
-- The catalogue of defenses (`internal/game/constants.go`).
use Prim.Native.String.{String}
use terminal_army_go.Base.{ℕ, List, [], ◌∷◌}
use terminal_army_go.Int.{ℤ, pos}
use terminal_army_go.Dict.{Dict}
use terminal_army_go.Game.Techs.{
  TechType, tech_energy, tech_ion, tech_laser, tech_plasma, tech_shielding, tech_weapons,
}

abbrev pub DefenseType : Type 0
DefenseType = String

abbrev pub defense_rocket_launcher : DefenseType
defense_rocket_launcher = "rocket_launcher"

abbrev pub defense_light_laser : DefenseType
defense_light_laser = "light_laser"

abbrev pub defense_heavy_laser : DefenseType
defense_heavy_laser = "heavy_laser"

abbrev pub defense_gauss_cannon : DefenseType
defense_gauss_cannon = "gauss_cannon"

abbrev pub defense_ion_cannon : DefenseType
defense_ion_cannon = "ion_cannon"

abbrev pub defense_plasma_turret : DefenseType
defense_plasma_turret = "plasma_turret"

abbrev pub defense_small_shield_dome : DefenseType
defense_small_shield_dome = "small_shield_dome"

abbrev pub defense_large_shield_dome : DefenseType
defense_large_shield_dome = "large_shield_dome"

unfoldable pub defense_labels : Dict String
defense_labels =
    (defense_rocket_launcher, "Rocket Launcher")
    ∷ (defense_light_laser, "Light Laser")
    ∷ (defense_heavy_laser, "Heavy Laser")
    ∷ (defense_gauss_cannon, "Gauss Cannon")
    ∷ (defense_ion_cannon, "Ion Cannon")
    ∷ (defense_plasma_turret, "Plasma Turret")
    ∷ (defense_small_shield_dome, "Small Shield Dome")
    ∷ (defense_large_shield_dome, "Large Shield Dome")
    ∷ []

-- The order of the defense view.
unfoldable pub defenses : List DefenseType
defenses =
    defense_rocket_launcher ∷ defense_light_laser ∷ defense_heavy_laser ∷ defense_gauss_cannon
    ∷ defense_ion_cannon ∷ defense_plasma_turret ∷ defense_small_shield_dome
    ∷ defense_large_shield_dome ∷ []

pub record DefenseStat : Type 0 where
  pub metal : ℤ
  pub crystal : ℤ
  pub deuterium : ℤ
  pub armor : ℤ
  pub shield : ℤ
  pub weapon : ℤ

abbrev defense_stat_row : ℕ → ℕ → ℕ → ℕ → ℕ → ℕ → DefenseStat
defense_stat_row m c d a s w = record {
  metal = pos m;
  crystal = pos c;
  deuterium = pos d;
  armor = pos a;
  shield = pos s;
  weapon = pos w;
}

unfoldable pub defense_stats : Dict DefenseStat
defense_stats =
    (defense_rocket_launcher, defense_stat_row 2000 0 0 2000 20 80)
    ∷ (defense_light_laser, defense_stat_row 1500 500 0 2000 25 100)
    ∷ (defense_heavy_laser, defense_stat_row 6000 2000 0 8000 100 250)
    ∷ (defense_gauss_cannon, defense_stat_row 20000 15000 2000 35000 200 1100)
    ∷ (defense_ion_cannon, defense_stat_row 5000 3000 0 8000 500 150)
    ∷ (defense_plasma_turret, defense_stat_row 50000 50000 30000 100000 300 3000)
    ∷ (defense_small_shield_dome, defense_stat_row 10000 10000 0 20000 2000 1)
    ∷ (defense_large_shield_dome, defense_stat_row 50000 50000 0 100000 10000 1)
    ∷ []

-- Either a shipyard at a level (`shipyard_level` is above 0) or a technology at a level.
pub record DefensePrereqEntry : Type 0 where
  pub shipyard_level : ℤ
  pub tech : TechType
  pub level : ℤ

abbrev needs_shipyard : ℕ → DefensePrereqEntry
needs_shipyard n = record { shipyard_level = pos n; tech = ""; level = pos 0 }

abbrev needs_tech : TechType → ℕ → DefensePrereqEntry
needs_tech t n = record { shipyard_level = pos 0; tech = t; level = pos n }

unfoldable pub defense_prerequisites : Dict (List DefensePrereqEntry)
defense_prerequisites =
    (defense_rocket_launcher, needs_shipyard 1 ∷ [])
    ∷ (
      defense_light_laser,
      needs_shipyard 2 ∷ needs_tech tech_energy 1 ∷ needs_tech tech_laser 3 ∷ [],
    )
    ∷ (
      defense_heavy_laser,
      needs_shipyard 4 ∷ needs_tech tech_energy 3 ∷ needs_tech tech_laser 6 ∷ [],
    )
    ∷ (
      defense_gauss_cannon,
      needs_shipyard 6
          ∷ needs_tech tech_weapons 3
          ∷ needs_tech tech_shielding 1
          ∷ needs_tech tech_energy 6
          ∷ [],
    )
    ∷ (defense_ion_cannon, needs_shipyard 4 ∷ needs_tech tech_ion 4 ∷ [])
    ∷ (defense_plasma_turret, needs_shipyard 8 ∷ needs_tech tech_plasma 7 ∷ [])
    ∷ (defense_small_shield_dome, needs_shipyard 1 ∷ needs_tech tech_shielding 2 ∷ [])
    ∷ (defense_large_shield_dome, needs_shipyard 6 ∷ needs_tech tech_shielding 6 ∷ [])
    ∷ []
