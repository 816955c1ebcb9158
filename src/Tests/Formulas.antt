-- ===== src/Tests/Formulas.antt =====
-- The theorems on formulas and prerequisites, at concrete inputs.
use terminal_army_go.Base.{ℕ, suc, ◌<◌, ◌≡◌, ◌↔◌, refl, none, true, [], ◌∷◌, All, arith}
use terminal_army_go.Int.{ℤ, pos, ◌≤ℤ◌, ◌<ℤ◌}
use terminal_army_go.Dict.{Dict, level}
use terminal_army_go.Float.{NonNeg}
use terminal_army_go.Game.Buildings.{building_prerequisites}
use terminal_army_go.Game.Techs.{research_costs, tech_prerequisites}
use terminal_army_go.Game.Ships.{ship_prerequisites, ship_stats}
use terminal_army_go.Game.Defenses.{defense_prerequisites}
use terminal_army_go.Game.TechTree.{
  reqs_of, check_building_prereqs, check_research_prereqs, check_ship_prereqs,
  check_defense_prereqs,
}
use terminal_army_go.Game.TechTree.Prerequisites.{
  BuildingMet, ResearchMet, ShipMet, DefenseMet, check_building_prereqs_iff,
  check_research_prereqs_iff, check_ship_prereqs_iff, check_defense_prereqs_iff,
}
use terminal_army_go.Game.TechTree.Order.{tech_rank, tech_tree_climbable}
use terminal_army_go.Game.Production.{compute_planet_production}
use terminal_army_go.Game.Production.Output.{compute_planet_production-NonNeg}
use terminal_army_go.Game.Fleet.{distance, fleet_cargo_capacity}
use terminal_army_go.Sum.{sum_of}
use terminal_army_go.Game.Fleet.Cargo.{carried, fleet_cargo_capacity-eq-sum}
use terminal_army_go.Game.Fleet.Distances.{distance_comm}
use terminal_army_go.Game.Colonization.{colonize_rejection, generate_planet_attributes}
use terminal_army_go.Game.Colonization.Slots.{
  HasRoom, OpenSlot, colonize_rejection_iff, generate_planet_attributes-RolledAt, RolledAt,
}
use terminal_army_go.Tests.Exact.{exact, exact_laws}

abbrev buildings : Dict ℤ
buildings =
    ("metal_mine", pos 3)
    ∷ ("solar_plant", pos 2)
    ∷ ("robotics_factory", pos 2)
    ∷ ("shipyard", pos 1)
    ∷ []

abbrev techs : Dict ℤ
techs = ("energy", pos 2) ∷ ("combustion_drive", pos 1) ∷ []

check_building_prereqs_iff_example :
    ((check_building_prereqs "shipyard" buildings techs).0 ≡ true)
    ↔ All (BuildingMet buildings techs) (reqs_of "shipyard" building_prerequisites)
check_building_prereqs_iff_example = check_building_prereqs_iff "shipyard" buildings techs

check_research_prereqs_iff_example :
    ((check_research_prereqs "laser" (pos 1) techs).0 ≡ true)
    ↔ All (ResearchMet (pos 1) techs) (reqs_of "laser" tech_prerequisites)
check_research_prereqs_iff_example = check_research_prereqs_iff "laser" (pos 1) techs

check_ship_prereqs_iff_example :
    ((check_ship_prereqs "light_fighter" (pos 1) techs).0 ≡ true)
    ↔ All (ShipMet (pos 1) techs) (reqs_of "light_fighter" ship_prerequisites)
check_ship_prereqs_iff_example = check_ship_prereqs_iff "light_fighter" (pos 1) techs

check_defense_prereqs_iff_example :
    ((check_defense_prereqs "rocket_launcher" (pos 1) techs).0 ≡ true)
    ↔ All (DefenseMet (pos 1) techs) (reqs_of "rocket_launcher" defense_prerequisites)
check_defense_prereqs_iff_example = check_defense_prereqs_iff "rocket_launcher" (pos 1) techs

-- Every technology that the rank of `laser` is above is at level 10.
abbrev climbed : Dict ℤ
climbed =
    ("energy", pos 10)
    ∷ ("computer", pos 10)
    ∷ ("espionage", pos 10)
    ∷ ("weapons", pos 10)
    ∷ ("armour", pos 10)
    ∷ []

climbed_lower :
    All (λ e. tech_rank e.0 < tech_rank "laser" → pos 10 ≤ℤ level climbed e.0) research_costs
unfolding tech_rank research_costs
climbed_lower = ground arith

tech_tree_climbable_example : (check_research_prereqs "laser" (pos 7) climbed).0 ≡ true
tech_tree_climbable_example =
    tech_tree_climbable "laser" (pos 7) climbed (omega arith) climbed_lower

compute_planet_production-NonNeg_example :
    let r =
      compute_planet_production exact buildings techs (pos 10) (pos 50) (pos 1) (pos 1) (pos 1) in
    NonNeg exact r.metal_per_hour
    × NonNeg exact r.crystal_per_hour
    × NonNeg exact r.deuterium_per_hour
compute_planet_production-NonNeg_example =
    compute_planet_production-NonNeg exact exact_laws buildings techs (pos 10) (pos 50) (pos 1)
      (pos 1) (pos 1)

distance_comm_example :
    distance (pos 1) (pos 20) (pos 4) (pos 1) (pos 33) (pos 9)
    ≡ distance (pos 1) (pos 33) (pos 9) (pos 1) (pos 20) (pos 4)
distance_comm_example = distance_comm (pos 1) (pos 20) (pos 4) (pos 1) (pos 33) (pos 9)

fleet_cargo_capacity-eq-sum_example :
    fleet_cargo_capacity (("small_cargo", pos 2) ∷ ("cruiser", pos 1) ∷ [])
    ≡ sum_of (carried (("small_cargo", pos 2) ∷ ("cruiser", pos 1) ∷ [])) ship_stats
fleet_cargo_capacity-eq-sum_example =
    fleet_cargo_capacity-eq-sum (("small_cargo", pos 2) ∷ ("cruiser", pos 1) ∷ [])
      (refl, (refl, tt))

colonize_rejection_iff_example :
    (colonize_rejection (pos 5) (pos 1) (pos 3) ≡ none)
    ↔ (OpenSlot (pos 5) (pos 3) × HasRoom (pos 5) (pos 1))
colonize_rejection_iff_example = colonize_rejection_iff (pos 5) (pos 1) (pos 3)

-- A generator that counts up from a seed.
abbrev intn : ℤ → ℕ → ℤ × ℕ
intn n seed = (pos 0, suc seed)

intn_range : (n : ℤ) (s : ℕ) → pos 1 ≤ℤ n → (pos 0 ≤ℤ (intn n s).0) × ((intn n s).0 <ℤ n)
intn_range n s h = (omega arith, omega arith)

generate_planet_attributes-RolledAt_example :
    RolledAt exact (pos 4) (generate_planet_attributes exact intn (pos 4) 7)
generate_planet_attributes-RolledAt_example =
    generate_planet_attributes-RolledAt exact intn intn_range 4 7 (omega arith) (omega arith)
