-- ===== src/Game/TechTree/Prerequisites.antt =====
-- The checks against an independent reading of the tables, and the shape of the technology tree.
use text.Mathlib.TextEquality.{eq_iff}
use terminal_army_go.Base.{◌≡◌, ◌≢◌, ◌↔◌, true, List, [], ◌∷◌, All, arith, refl}
use terminal_army_go.Int.{ℤ, pos, ◌≤ℤ◌}
use terminal_army_go.Dict.{Dict, level}
use terminal_army_go.Game.Buildings.{BuildingType, BuildingPrereqEntry, building_prerequisites}
use terminal_army_go.Game.Techs.{TechType, TechPrereqEntry, tech_prerequisites}
use terminal_army_go.Game.Ships.{ShipType, ShipPrereqEntry, ship_prerequisites}
use terminal_army_go.Game.Defenses.{DefenseType, DefensePrereqEntry, defense_prerequisites}
use terminal_army_go.Game.TechTree.{
  is_empty, reqs_of, missing_for_building, check_building_prereqs, missing_for_research,
  check_research_prereqs, missing_for_ship, check_ship_prereqs, missing_for_defense,
  check_defense_prereqs,
}

-- One requirement of a building is met.
abbrev pub BuildingMet : Dict ℤ → Dict ℤ → BuildingPrereqEntry → Type 0
BuildingMet buildings techs req =
    (req.building ≢ "" → req.level ≤ℤ level buildings req.building)
    × (req.building ≡ "" → req.tech ≢ "" → req.level ≤ℤ level techs req.tech)

missing_for_building_iff :
    (buildings techs : Dict ℤ) (reqs : List BuildingPrereqEntry)
    → (is_empty (missing_for_building buildings techs reqs) ≡ true)
      ↔ All (BuildingMet buildings techs) reqs
unfolding missing_for_building
missing_for_building_iff buildings techs [] = (λ _. tt, λ _. refl)
missing_for_building_iff buildings techs (req ∷ reqs) = (
  λ h. ground (
    arith,
    eq_iff req.building "",
    eq_iff req.tech "",
    (missing_for_building_iff buildings techs reqs).0,
  ),
  λ h. ground (
    arith,
    eq_iff req.building "",
    eq_iff req.tech "",
    (missing_for_building_iff buildings techs reqs).1,
  ),
)

-- A building passes the check exactly when every requirement that the table lists for it is met.
pub check_building_prereqs_iff :
    (b : BuildingType) (buildings techs : Dict ℤ)
    → ((check_building_prereqs b buildings techs).0 ≡ true)
      ↔ All (BuildingMet buildings techs) (reqs_of b building_prerequisites)
unfolding check_building_prereqs
check_building_prereqs_iff b buildings techs =
    missing_for_building_iff buildings techs (reqs_of b building_prerequisites)

-- One requirement of a technology is met: the laboratory, or else the technology, has its level.
abbrev pub ResearchMet : ℤ → Dict ℤ → TechPrereqEntry → Type 0
ResearchMet lab techs req =
    (pos 1 ≤ℤ req.lab_level → req.lab_level ≤ℤ lab)
    × (req.lab_level ≤ℤ pos 0 → req.level ≤ℤ level techs req.tech)

missing_for_research_iff :
    (lab : ℤ) (techs : Dict ℤ) (reqs : List TechPrereqEntry)
    → (is_empty (missing_for_research lab techs reqs) ≡ true) ↔ All (ResearchMet lab techs) reqs
unfolding missing_for_research
missing_for_research_iff lab techs [] = (λ _. tt, λ _. refl)
missing_for_research_iff lab techs (req ∷ reqs) = (
  λ h. ground (arith, (missing_for_research_iff lab techs reqs).0),
  λ h. ground (arith, (missing_for_research_iff lab techs reqs).1),
)

-- A technology passes the check exactly when every requirement that the table lists for it is met.
pub check_research_prereqs_iff :
    (key : TechType) (lab : ℤ) (techs : Dict ℤ)
    → ((check_research_prereqs key lab techs).0 ≡ true)
      ↔ All (ResearchMet lab techs) (reqs_of key tech_prerequisites)
unfolding check_research_prereqs
check_research_prereqs_iff key lab techs =
    missing_for_research_iff lab techs (reqs_of key tech_prerequisites)

-- One requirement of a ship is met: the shipyard, or else the technology, has its level.
abbrev pub ShipMet : ℤ → Dict ℤ → ShipPrereqEntry → Type 0
ShipMet shipyard techs req =
    (pos 1 ≤ℤ req.shipyard_level → req.shipyard_level ≤ℤ shipyard)
    × (req.shipyard_level ≤ℤ pos 0 → req.level ≤ℤ level techs req.tech)

missing_for_ship_iff :
    (shipyard : ℤ) (techs : Dict ℤ) (reqs : List ShipPrereqEntry)
    → (is_empty (missing_for_ship shipyard techs reqs) ≡ true) ↔ All (ShipMet shipyard techs) reqs
unfolding missing_for_ship
missing_for_ship_iff shipyard techs [] = (λ _. tt, λ _. refl)
missing_for_ship_iff shipyard techs (req ∷ reqs) = (
  λ h. ground (arith, (missing_for_ship_iff shipyard techs reqs).0),
  λ h. ground (arith, (missing_for_ship_iff shipyard techs reqs).1),
)

-- A ship passes the check exactly when every requirement that the table lists for it is met.
pub check_ship_prereqs_iff :
    (key : ShipType) (shipyard : ℤ) (techs : Dict ℤ)
    → ((check_ship_prereqs key shipyard techs).0 ≡ true)
      ↔ All (ShipMet shipyard techs) (reqs_of key ship_prerequisites)
unfolding check_ship_prereqs
check_ship_prereqs_iff key shipyard techs =
    missing_for_ship_iff shipyard techs (reqs_of key ship_prerequisites)

-- One requirement of a defense is met: the shipyard, or else the technology, has its level.
abbrev pub DefenseMet : ℤ → Dict ℤ → DefensePrereqEntry → Type 0
DefenseMet shipyard techs req =
    (pos 1 ≤ℤ req.shipyard_level → req.shipyard_level ≤ℤ shipyard)
    × (req.shipyard_level ≤ℤ pos 0 → req.level ≤ℤ level techs req.tech)

missing_for_defense_iff :
    (shipyard : ℤ) (techs : Dict ℤ) (reqs : List DefensePrereqEntry)
    → (is_empty (missing_for_defense shipyard techs reqs) ≡ true)
      ↔ All (DefenseMet shipyard techs) reqs
unfolding missing_for_defense
missing_for_defense_iff shipyard techs [] = (λ _. tt, λ _. refl)
missing_for_defense_iff shipyard techs (req ∷ reqs) = (
  λ h. ground (arith, (missing_for_defense_iff shipyard techs reqs).0),
  λ h. ground (arith, (missing_for_defense_iff shipyard techs reqs).1),
)

-- A defense passes the check exactly when every requirement that the table lists for it is met.
pub check_defense_prereqs_iff :
    (key : DefenseType) (shipyard : ℤ) (techs : Dict ℤ)
    → ((check_defense_prereqs key shipyard techs).0 ≡ true)
      ↔ All (DefenseMet shipyard techs) (reqs_of key defense_prerequisites)
unfolding check_defense_prereqs
check_defense_prereqs_iff key shipyard techs =
    missing_for_defense_iff shipyard techs (reqs_of key defense_prerequisites)
