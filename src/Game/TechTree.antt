-- ===== src/Game/TechTree.antt =====
-- Prerequisite checks (`internal/game/tech_tree.go`). A missing requirement is reported as the name
-- and level that the source formats into a message.
pub mod Prerequisites
pub mod Order
use Prim.Native.String.{String}
use text.Mathlib.Text.{◌==◌ as str_eq}
use terminal_army_go.Base.{Bool, true, false, not, List, [], ◌∷◌, Option, none, some, if◌then◌else◌}
use terminal_army_go.Int.{ℤ, pos, ltb_ℤ}
use terminal_army_go.Dict.{Dict, lookup, level}
use terminal_army_go.Game.Buildings.{BuildingType, BuildingPrereqEntry, building_prerequisites}
use terminal_army_go.Game.Techs.{TechType, TechPrereqEntry, tech_prerequisites}
use terminal_army_go.Game.Ships.{ShipType, ShipPrereqEntry, ship_prerequisites}
use terminal_army_go.Game.Defenses.{DefenseType, DefensePrereqEntry, defense_prerequisites}

abbrev pub Missing : Type 0
Missing = List (String × ℤ)

-- `len(missing) == 0`
abbrev pub is_empty {ℓ} : {A : Type ℓ} → List A → Bool
is_empty [] = true
is_empty (_ ∷ _) = false

abbrev pub or_empty {ℓ} : {A : Type ℓ} → Option (List A) → List A
or_empty none = []
or_empty (some reqs) = reqs

-- `m[k]` of a map to lists: none where the key is missing.
abbrev pub reqs_of {ℓ} : {A : Type ℓ} → String → Dict (List A) → List A
reqs_of k m = or_empty (lookup k m)

-- The loop of `CheckBuildingPrereqs`
unfoldable pub missing_for_building : Dict ℤ → Dict ℤ → List BuildingPrereqEntry → Missing
missing_for_building buildings techs [] = []
missing_for_building buildings techs (req ∷ reqs) =
    let rest = missing_for_building buildings techs reqs in
    if not (str_eq req.building "")
    then (if ltb_ℤ (level buildings req.building) req.level
        then (req.building, req.level) ∷ rest
        else rest)
    else if not (str_eq req.tech "")
    then (if ltb_ℤ (level techs req.tech) req.level then (req.tech, req.level) ∷ rest else rest)
    else rest

-- `CheckBuildingPrereqs`
unfoldable pub check_building_prereqs : BuildingType → Dict ℤ → Dict ℤ → Bool × Missing
unfolding missing_for_building
check_building_prereqs building buildings techs =
    let missing = missing_for_building buildings techs (reqs_of building building_prerequisites) in
    (is_empty missing, missing)

-- The loop of `CheckResearchPrereqs`
unfoldable pub missing_for_research : ℤ → Dict ℤ → List TechPrereqEntry → Missing
missing_for_research lab techs [] = []
missing_for_research lab techs (req ∷ reqs) =
    let rest = missing_for_research lab techs reqs in
    if ltb_ℤ (pos 0) req.lab_level
    then (if ltb_ℤ lab req.lab_level then ("Research Lab", req.lab_level) ∷ rest else rest)
    else if ltb_ℤ (level techs req.tech) req.level
    then (req.tech, req.level) ∷ rest
    else rest

-- `CheckResearchPrereqs`
unfoldable pub check_research_prereqs : TechType → ℤ → Dict ℤ → Bool × Missing
unfolding missing_for_research
check_research_prereqs tech lab techs =
    let missing = missing_for_research lab techs (reqs_of tech tech_prerequisites) in
    (is_empty missing, missing)

-- The loop of `CheckShipPrereqs`
unfoldable pub missing_for_ship : ℤ → Dict ℤ → List ShipPrereqEntry → Missing
missing_for_ship shipyard techs [] = []
missing_for_ship shipyard techs (req ∷ reqs) =
    let rest = missing_for_ship shipyard techs reqs in
    if ltb_ℤ (pos 0) req.shipyard_level
    then (if ltb_ℤ shipyard req.shipyard_level
        then ("Shipyard", req.shipyard_level) ∷ rest
        else rest)
    else if ltb_ℤ (level techs req.tech) req.level
    then (req.tech, req.level) ∷ rest
    else rest

-- `CheckShipPrereqs`
unfoldable pub check_ship_prereqs : ShipType → ℤ → Dict ℤ → Bool × Missing
unfolding missing_for_ship
check_ship_prereqs ship shipyard techs =
    let missing = missing_for_ship shipyard techs (reqs_of ship ship_prerequisites) in
    (is_empty missing, missing)

-- The loop of `CheckDefensePrereqs`
unfoldable pub missing_for_defense : ℤ → Dict ℤ → List DefensePrereqEntry → Missing
missing_for_defense shipyard techs [] = []
missing_for_defense shipyard techs (req ∷ reqs) =
    let rest = missing_for_defense shipyard techs reqs in
    if ltb_ℤ (pos 0) req.shipyard_level
    then (if ltb_ℤ shipyard req.shipyard_level
        then ("Shipyard", req.shipyard_level) ∷ rest
        else rest)
    else if ltb_ℤ (level techs req.tech) req.level
    then (req.tech, req.level) ∷ rest
    else rest

-- `CheckDefensePrereqs`
unfoldable pub check_defense_prereqs : DefenseType → ℤ → Dict ℤ → Bool × Missing
unfolding missing_for_defense
check_defense_prereqs def shipyard techs =
    let missing = missing_for_defense shipyard techs (reqs_of def defense_prerequisites) in
    (is_empty missing, missing)
