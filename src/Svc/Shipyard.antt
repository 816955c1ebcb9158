-- ===== src/Svc/Shipyard.antt =====
-- Orders of ships and defenses (`internal/svc/shipyard.go`). `normalize` is `strings.ToLower` after
-- `strings.TrimSpace`.
pub mod Batches
use Prim.Native.String.{String}
use terminal_army_go.Base.{ℕ, leb, Bool, false, not, Option, none, some, if◌then◌else◌}
use terminal_army_go.Int.{ℤ, pos, ◌*ℤ◌, ltb_ℤ}
use terminal_army_go.Dict.{Dict, has, level}
use terminal_army_go.Float.{Float64}
use terminal_army_go.Game.Buildings.{
  building_shipyard, building_robotics_factory, building_nanite_factory,
}
use terminal_army_go.Game.Ships.{ShipType, ship_stats}
use terminal_army_go.Game.Defenses.{DefenseType, defense_stats}
use terminal_army_go.Game.Formulas.{Cost, ship_unit_cost, defense_unit_cost, build_time_seconds}
use terminal_army_go.Game.TechTree.{Missing, check_ship_prereqs, check_defense_prereqs}
use terminal_army_go.Store.Tx.{
  Tx, not_found, insufficient_resources, queue_busy, prerequisite_not_met, unknown_key,
  count_too_small, count_too_large, ◌>>=◌, ◌>>◌, gets, fetch, or_fail, fail_if,
}
use terminal_army_go.Store.Rows.{QueueItem, World}
use terminal_army_go.Store.Planets.{get_universe}
use terminal_army_go.Store.Queue.{count_active_queue_for_planet, list_active_queue_for_planet}
use terminal_army_go.Svc.Orders.{PublicItem, finish_after, load_owned, lacks, chain_and_insert}
use terminal_army_go.Svc.Build.{build_queue_max_active}

-- `MaxUnitBatch`
abbrev pub max_unit_batch : ℤ
max_unit_batch = pos 1000000

-- `parseShipType`
unfoldable pub parse_ship_type : (String → String) → String → Option ShipType
parse_ship_type normalize key =
    if has (normalize key) ship_stats then some (normalize key) else none

-- `parseDefenseType`
unfoldable pub parse_defense_type : (String → String) → String → Option DefenseType
parse_defense_type normalize key =
    if has (normalize key) defense_stats then some (normalize key) else none

-- The cost of a batch.
unfoldable pub batch_cost : Cost → ℤ → Cost
batch_cost unit n = record {
  metal = unit.metal *ℤ n;
  crystal = unit.crystal *ℤ n;
  deuterium = unit.deuterium *ℤ n;
}

-- The row of a batch.
unfoldable pub unit_row : ℕ → ℕ → String → String → ℤ → Cost → ℤ → ℤ → QueueItem
unit_row planet_id user queue_type key n cost seconds start = record {
  id = 0;
  planet_id = some planet_id;
  user_id = user;
  queue_type = queue_type;
  item_key = key;
  target_level = pos 0;
  count = n;
  cost_metal = cost.metal;
  cost_crystal = cost.crystal;
  cost_deuterium = cost.deuterium;
  started_at = start;
  finished_at = finish_after start seconds;
  cancelled = false;
  applied = false;
}

module _ (fl : Float64) where
  open fl use {F, of_int}

  -- The body that `QueueShip` and `QueueDefense` share. `check` is the test of the requirements and
  -- `unit` the cost of one unit.
  unfoldable pub queue_units :
      String
      → (ℤ → Dict ℤ → Bool × Missing)
      → Cost
      → ℤ
      → ℤ
      → ℤ
      → ℕ
      → ℕ
      → String
      → ℤ
      → Tx (World F) PublicItem
  unfolding batch_cost unit_row
  queue_units queue_type check unit refreshed_at now db_now user planet_id key n = do
    p ← load_owned fl refreshed_at user planet_id
    active ← gets (count_active_queue_for_planet p.id)
    fail_if (leb build_queue_max_active active) queue_busy
    buildings ← gets (λ w. w.buildings p.id)
    researches ← gets (λ w. w.researches user)
    let checked = check (level buildings building_shipyard) researches
    fail_if (not checked.0) (prerequisite_not_met checked.1)
    let cost = batch_cost unit n
    fail_if (lacks fl p cost) insufficient_resources
    u ← fetch (get_universe p.universe_id) not_found
    let seconds =
        build_time_seconds fl unit.metal unit.crystal (level buildings building_robotics_factory)
          (level buildings building_nanite_factory) (of_int u.speed_economy)
        *ℤ n
    pending ← gets (list_active_queue_for_planet p.id)
    chain_and_insert fl now db_now p pending (unit_row p.id user queue_type key n cost seconds)

  -- `QueueShip`
  unfoldable pub queue_ship :
      (String → String) → ℤ → ℤ → ℤ → ℕ → ℕ → String → ℤ → Tx (World F) PublicItem
  unfolding queue_units
  queue_ship normalize refreshed_at now db_now user planet_id key n = do
    st ← or_fail (parse_ship_type normalize key) (unknown_key key)
    fail_if (ltb_ℤ n (pos 1)) count_too_small
    fail_if (ltb_ℤ max_unit_batch n) count_too_large
    queue_units "ship" (check_ship_prereqs st) (ship_unit_cost st) refreshed_at now db_now user
        planet_id st n

  -- `QueueDefense`
  unfoldable pub queue_defense :
      (String → String) → ℤ → ℤ → ℤ → ℕ → ℕ → String → ℤ → Tx (World F) PublicItem
  unfolding queue_units
  queue_defense normalize refreshed_at now db_now user planet_id key n = do
    dt ← or_fail (parse_defense_type normalize key) (unknown_key key)
    fail_if (ltb_ℤ n (pos 1)) count_too_small
    fail_if (ltb_ℤ max_unit_batch n) count_too_large
    queue_units "defense" (check_defense_prereqs dt) (defense_unit_cost dt) refreshed_at now db_now
        user planet_id dt n
