-- ===== src/Game/Techs.antt =====
-- The catalogue of technologies (`internal/game/constants.go`, `internal/game/tech_tree.go`).
use Prim.Native.String.{String}
use terminal_army_go.Base.{ℕ, List, [], ◌∷◌}
use terminal_army_go.Int.{ℤ, pos}
use terminal_army_go.Dict.{Dict}

abbrev pub TechType : Type 0
TechType = String

abbrev pub tech_energy : TechType
tech_energy = "energy"

abbrev pub tech_laser : TechType
tech_laser = "laser"

abbrev pub tech_ion : TechType
tech_ion = "ion"

abbrev pub tech_hyperspace : TechType
tech_hyperspace = "hyperspace"

abbrev pub tech_plasma : TechType
tech_plasma = "plasma"

abbrev pub tech_computer : TechType
tech_computer = "computer"

abbrev pub tech_astrophysics : TechType
tech_astrophysics = "astrophysics"

abbrev pub tech_espionage : TechType
tech_espionage = "espionage"

abbrev pub tech_combustion_drive : TechType
tech_combustion_drive = "combustion_drive"

abbrev pub tech_impulse_drive : TechType
tech_impulse_drive = "impulse_drive"

abbrev pub tech_hyperspace_drive : TechType
tech_hyperspace_drive = "hyperspace_drive"

abbrev pub tech_weapons : TechType
tech_weapons = "weapons"

abbrev pub tech_shielding : TechType
tech_shielding = "shielding"

abbrev pub tech_armour : TechType
tech_armour = "armour"

-- The order of the research view.
unfoldable pub research_techs : List TechType
research_techs =
    tech_energy ∷ tech_laser ∷ tech_ion ∷ tech_hyperspace ∷ tech_plasma ∷ tech_computer
    ∷ tech_astrophysics ∷ tech_espionage ∷ tech_combustion_drive ∷ tech_impulse_drive
    ∷ tech_hyperspace_drive ∷ tech_weapons ∷ tech_shielding ∷ tech_armour ∷ []

unfoldable pub tech_labels : Dict String
tech_labels =
    (tech_energy, "Energy Technology")
    ∷ (tech_laser, "Laser Technology")
    ∷ (tech_ion, "Ion Technology")
    ∷ (tech_hyperspace, "Hyperspace Technology")
    ∷ (tech_plasma, "Plasma Technology")
    ∷ (tech_computer, "Computer Technology")
    ∷ (tech_astrophysics, "Astrophysics")
    ∷ (tech_espionage, "Espionage Technology")
    ∷ (tech_combustion_drive, "Combustion Drive")
    ∷ (tech_impulse_drive, "Impulse Drive")
    ∷ (tech_hyperspace_drive, "Hyperspace Drive")
    ∷ (tech_weapons, "Weapons Technology")
    ∷ (tech_shielding, "Shielding Technology")
    ∷ (tech_armour, "Armour Technology")
    ∷ []

-- `factor` is in hundredths: 1.75 is the finest of the table.
pub record ResearchCost : Type 0 where
  pub metal : ℤ
  pub crystal : ℤ
  pub deuterium : ℤ
  pub factor : ℕ

abbrev research_cost_row : ℕ → ℕ → ℕ → ℕ → ResearchCost
research_cost_row m c d f = record { metal = pos m; crystal = pos c; deuterium = pos d; factor = f }

unfoldable pub research_costs : Dict ResearchCost
research_costs =
    (tech_energy, research_cost_row 0 800 400 200)
    ∷ (tech_laser, research_cost_row 200 100 0 200)
    ∷ (tech_ion, research_cost_row 1000 300 100 200)
    ∷ (tech_hyperspace, research_cost_row 0 4000 2000 200)
    ∷ (tech_plasma, research_cost_row 2000 4000 1000 200)
    ∷ (tech_computer, research_cost_row 0 400 600 200)
    ∷ (tech_astrophysics, research_cost_row 4000 8000 4000 175)
    ∷ (tech_espionage, research_cost_row 200 1000 200 200)
    ∷ (tech_combustion_drive, research_cost_row 400 0 600 200)
    ∷ (tech_impulse_drive, research_cost_row 2000 4000 600 200)
    ∷ (tech_hyperspace_drive, research_cost_row 10000 20000 6000 200)
    ∷ (tech_weapons, research_cost_row 800 200 0 200)
    ∷ (tech_shielding, research_cost_row 200 600 0 200)
    ∷ (tech_armour, research_cost_row 1000 0 0 200)
    ∷ []

-- Either a research laboratory at a level (`lab_level` is above 0) or a technology at a level.
pub record TechPrereqEntry : Type 0 where
  pub tech : TechType
  pub level : ℤ
  pub lab_level : ℤ

abbrev needs_lab : ℕ → TechPrereqEntry
needs_lab n = record { tech = ""; level = pos 0; lab_level = pos n }

abbrev needs_tech : TechType → ℕ → TechPrereqEntry
needs_tech t n = record { tech = t; level = pos n; lab_level = pos 0 }

unfoldable pub tech_prerequisites : Dict (List TechPrereqEntry)
tech_prerequisites =
    (tech_energy, needs_lab 1 ∷ [])
    ∷ (tech_laser, needs_lab 1 ∷ needs_tech tech_energy 2 ∷ [])
    ∷ (tech_ion, needs_lab 4 ∷ needs_tech tech_energy 4 ∷ needs_tech tech_laser 5 ∷ [])
    ∷ (tech_hyperspace, needs_lab 7 ∷ needs_tech tech_energy 5 ∷ needs_tech tech_shielding 5 ∷ [])
    ∷ (
      tech_plasma,
      needs_lab 4
          ∷ needs_tech tech_energy 8
          ∷ needs_tech tech_laser 10
          ∷ needs_tech tech_ion 5
          ∷ [],
    )
    ∷ (tech_computer, needs_lab 1 ∷ [])
    ∷ (tech_astrophysics, needs_lab 3 ∷ needs_tech tech_espionage 4 ∷ [])
    ∷ (tech_espionage, needs_lab 3 ∷ [])
    ∷ (tech_combustion_drive, needs_lab 1 ∷ needs_tech tech_energy 1 ∷ [])
    ∷ (tech_impulse_drive, needs_lab 2 ∷ needs_tech tech_energy 1 ∷ [])
    ∷ (
      tech_hyperspace_drive,
      needs_lab 7
          ∷ needs_tech tech_energy 5
          ∷ needs_tech tech_shielding 5
          ∷ needs_tech tech_hyperspace 3
          ∷ [],
    )
    ∷ (tech_weapons, needs_lab 4 ∷ [])
    ∷ (tech_shielding, needs_lab 6 ∷ needs_tech tech_energy 3 ∷ [])
    ∷ (tech_armour, needs_lab 2 ∷ [])
    ∷ []

-- The parent of each technology that has one, for an indented list.
unfoldable pub tech_tree_parent : Dict TechType
tech_tree_parent =
    (tech_laser, tech_energy)
    ∷ (tech_ion, tech_laser)
    ∷ (tech_plasma, tech_ion)
    ∷ (tech_hyperspace, tech_energy)
    ∷ (tech_combustion_drive, tech_energy)
    ∷ (tech_impulse_drive, tech_energy)
    ∷ (tech_shielding, tech_energy)
    ∷ (tech_hyperspace_drive, tech_hyperspace)
    ∷ (tech_astrophysics, tech_espionage)
    ∷ []
