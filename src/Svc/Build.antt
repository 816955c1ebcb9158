-- ===== src/Svc/Build.antt =====
-- The building queue (`internal/svc/build.go`). `normalize` is `strings.ToLower` after
-- `strings.TrimSpace`.
pub mod Repair
pub mod Listing
pub mod Refunds
pub mod Acceptance
pub mod Purchase
pub mod Cancellation
use Prim.Native.String.{String}
use text.Mathlib.Text.{◌==◌ as str_eq}
use terminal_army_go.Base.{
  ℕ, ◌==◌, leb, Bool, true, false, not, ◌&&◌, ◌||◌, List, [], ◌∷◌, length, map, Option, none, some,
  if◌then◌else◌,
}
use terminal_army_go.Int.{ℤ, pos, ◌+ℤ◌, ltb_ℤ, leb_ℤ, eqb_ℤ}
use terminal_army_go.Dict.{Dict, has, level}
use terminal_army_go.Float.{Float64}
use terminal_army_go.Game.Buildings.{
  BuildingType, building_costs, building_solar_plant, building_robotics_factory,
  building_nanite_factory,
}
use terminal_army_go.Game.Formulas.{Cost, building_level_cost, building_upgrade_time_seconds}
use terminal_army_go.Game.TechTree.{check_building_prereqs}
use terminal_army_go.Store.Tx.{
  Tx, not_found, forbidden, insufficient_resources, queue_busy, already_resolved,
  prerequisite_not_met, unknown_key, ◌>>=◌, ◌>>◌, pure, gets, modify, fetch, or_fail, fail_if,
}
use terminal_army_go.Store.Rows.{Planet, QueueItem, World}
use terminal_army_go.Store.Planets.{get_planet, get_universe, update_planet_resources}
use terminal_army_go.Store.Queue.{
  list_active_queue_for_planet, mark_queue_applied, get_queue_item, cancel_queue_item,
}
use terminal_army_go.Svc.Resources.{report_of, refresh_tx}
use terminal_army_go.Svc.Orders.{
  PublicItem, queue_item_to_public, finish_after, load_owned, lacks, chain_and_insert,
}

-- `BuildQueueMaxActive`
abbrev pub build_queue_max_active : ℕ
build_queue_max_active = 5

-- `parseBuildingType`
unfoldable pub parse_building_type : (String → String) → String → Option BuildingType
parse_building_type normalize key =
    if has (normalize key) building_costs then some (normalize key) else none

-- The test of `repairCompletedBuildingQueues`: the level that the row builds is there.
unfoldable pub is_completed : Dict ℤ → QueueItem → Bool
is_completed buildings q =
    str_eq q.queue_type "building"
    && ltb_ℤ (pos 0) q.target_level
    && leb_ℤ q.target_level (level buildings q.item_key)

-- The loop over the pending rows that finds the level to build on.
unfoldable pub base_level : BuildingType → List QueueItem → ℤ → ℤ
base_level bt [] best = best
base_level bt (q ∷ rows) best = base_level bt rows (
    if str_eq q.queue_type "building" && str_eq q.item_key bt && ltb_ℤ best q.target_level
    then q.target_level
    else best)

module _ (fl : Float64) where
  open fl use {F, of_int, add, le, trunc}

  -- `repairCompletedBuildingQueues`
  unfoldable pub repair_completed_building_queues :
      Dict ℤ → List QueueItem → Tx (World F) (List QueueItem)
  repair_completed_building_queues buildings [] = pure []
  repair_completed_building_queues buildings (q ∷ rows) = elim (is_completed buildings q) [
    | true ↦ modify (mark_queue_applied q.id) >> repair_completed_building_queues buildings rows
    | false ↦ do out ← repair_completed_building_queues buildings rows; pure (q ∷ out)
  ]

  -- `applyFirstSolarRescueCost`
  unfoldable pub apply_first_solar_rescue_cost :
      BuildingType → ℤ → Planet F → Dict ℤ → Dict ℤ → Cost → ℤ → ℤ
  unfolding report_of
  apply_first_solar_rescue_cost bt target p buildings researches cost speed_economy =
      if not (str_eq bt building_solar_plant)
        || not (eqb_ℤ target (pos 1))
        || ltb_ℤ (pos 0) (level buildings building_solar_plant)
      then cost.metal
      else if ltb_ℤ (trunc p.crystal) cost.crystal
          || ltb_ℤ (trunc p.deuterium) cost.deuterium
          || leb_ℤ cost.metal (trunc p.metal)
      then cost.metal
      else (let report = report_of fl p buildings researches speed_economy in
          if ltb_ℤ (pos 0) report.energy_produced || eqb_ℤ report.energy_consumed (pos 0)
          then cost.metal
          else if le p.metal (of_int (pos 0))
          then pos 0
          else trunc p.metal)

  -- The cost of the next level, the rescue included.
  unfoldable pub building_cost : BuildingType → ℤ → Planet F → Dict ℤ → Dict ℤ → ℤ → Cost
  unfolding apply_first_solar_rescue_cost
  building_cost bt target p buildings researches speed_economy =
      let cost = building_level_cost fl bt target in
      record cost {
        metal = apply_first_solar_rescue_cost bt target p buildings researches cost speed_economy;
      }

  -- The row of a building order.
  unfoldable pub building_row : ℤ → ℤ → Planet F → BuildingType → ℤ → Cost → QueueItem
  building_row start seconds p bt target cost = record {
    id = 0;
    planet_id = some p.id;
    user_id = p.owner_user_id;
    queue_type = "building";
    item_key = bt;
    target_level = target;
    count = pos 1;
    cost_metal = cost.metal;
    cost_crystal = cost.crystal;
    cost_deuterium = cost.deuterium;
    started_at = start;
    finished_at = finish_after start seconds;
    cancelled = false;
    applied = false;
  }

  -- What `QueueBuilding` does once the pending rows are known.
  unfoldable pub place_building :
      ℤ → ℤ → Planet F → BuildingType → Dict ℤ → Dict ℤ → List QueueItem → Tx (World F) PublicItem
  place_building now db_now p bt buildings researches pending = do
    fail_if (leb build_queue_max_active (length pending)) queue_busy
    let target = base_level bt pending (level buildings bt) +ℤ pos 1
    let checked = check_building_prereqs bt buildings researches
    fail_if (not checked.0) (prerequisite_not_met checked.1)
    u ← fetch (get_universe p.universe_id) not_found
    let cost = building_cost bt target p buildings researches u.speed_economy
    fail_if (lacks fl p cost) insufficient_resources
    let seconds =
        building_upgrade_time_seconds fl cost.metal cost.crystal
          (level buildings building_robotics_factory) (level buildings building_nanite_factory)
          target (of_int u.speed_economy)
    chain_and_insert fl now db_now p pending (λ start. building_row start seconds p bt target cost)

  -- `QueueBuilding`
  unfoldable pub queue_building :
      (String → String) → ℤ → ℤ → ℤ → ℕ → ℕ → String → Tx (World F) PublicItem
  queue_building normalize refreshed_at now db_now user planet_id key = do
    bt ← or_fail (parse_building_type normalize key) (unknown_key key)
    p ← load_owned fl refreshed_at user planet_id
    buildings ← gets (λ w. w.buildings p.id)
    researches ← gets (λ w. w.researches p.owner_user_id)
    rows ← gets (list_active_queue_for_planet p.id)
    pending ← repair_completed_building_queues buildings rows
    place_building now db_now p bt buildings researches pending

  -- `PlanetQueues`
  unfoldable pub planet_queues : ℕ → ℕ → Tx (World F) (List PublicItem)
  planet_queues user planet_id = do
    p ← fetch (get_planet planet_id) not_found
    fail_if (not (p.owner_user_id == user)) forbidden
    rows ← gets (list_active_queue_for_planet planet_id)
    buildings ← gets (λ w. w.buildings planet_id)
    out ← repair_completed_building_queues buildings rows
    pure (map queue_item_to_public out)

  -- The refund of a cancelled row, where it stands on a planet.
  unfoldable pub refund : ℤ → ℤ → QueueItem → Tx (World F) (Unit {0})
  refund refreshed_at now item = elim item.planet_id [
    | none ↦ pure tt
    | some k ↦ do
      p ← fetch (get_planet k) not_found
      refresh_tx fl refreshed_at p.id
      r ← fetch (get_planet k) not_found
      modify (
          update_planet_resources r.id (add r.metal (of_int item.cost_metal))
            (add r.crystal (of_int item.cost_crystal))
            (add r.deuterium (of_int item.cost_deuterium)) now)
  ]

  -- `Cancel`
  unfoldable pub cancel : ℤ → ℤ → ℕ → ℕ → Tx (World F) (Unit {0})
  unfolding refund
  cancel refreshed_at now user queue_id = do
    item ← fetch (get_queue_item queue_id) not_found
    fail_if (not (item.user_id == user)) forbidden
    fail_if (item.cancelled || item.applied) already_resolved
    modify (cancel_queue_item queue_id)
    refund refreshed_at now item
