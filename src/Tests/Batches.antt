-- ===== src/Tests/Batches.antt =====
-- The theorems on research, ships, the sweep and the shown queue, at the same world.
use terminal_army_go.Base.{◌≤◌, ◌≡◌, refl, true, some, List, [], select, length}
use terminal_army_go.Int.{ℤ, pos, ◌+ℤ◌, ◌-ℤ◌, ◌*ℤ◌, ◌/ℤ◌, ◌≤ℤ◌}
use terminal_army_go.Dict.{level}
use terminal_army_go.Store.Tx.{Result, ok}
use terminal_army_go.Store.Rows.{Planet, World}
use terminal_army_go.Store.Planets.{get_planet, get_universe}
use terminal_army_go.Store.Queue.{
  is_active, by_finish, insert_by_finish, list_active_queue_for_planet,
  count_active_queue_for_planet, has_active_research, active_research_of,
  latest_active_queue_finish, mark_queue_applied, list_due_queue_items,
}
use terminal_army_go.Svc.Resources.{refresh_tx, refresh_row}
use terminal_army_go.Svc.Orders.{PublicItem}
use terminal_army_go.Svc.Orders.{
  load_owned, lacks, chain_and_insert, chained_start, debit_and_insert,
}
use terminal_army_go.Game.Techs.{research_costs, tech_prerequisites}
use terminal_army_go.Game.Ships.{ShipType, ship_stats, ship_prerequisites}
use terminal_army_go.Game.Formulas.{research_level_cost, ship_unit_cost}
use terminal_army_go.Game.TechTree.{
  check_research_prereqs, missing_for_research, check_ship_prereqs, missing_for_ship,
}
use terminal_army_go.Store.Planets.{max_building_level_across_user}
use terminal_army_go.Svc.Build.{planet_queues, repair_completed_building_queues, is_completed}
use terminal_army_go.Svc.Build.Listing.{planet_queues-count}
use terminal_army_go.Svc.Research.{queue_research, parse_tech_type, place_research}
use terminal_army_go.Svc.Research.Slot.{queue_research-slot}
use terminal_army_go.Svc.Shipyard.{
  max_unit_batch, queue_ship, queue_units, parse_ship_type, batch_cost,
}
use terminal_army_go.Svc.Shipyard.Batches.{Bought, queue_ship-Bought}
use terminal_army_go.Scheduler.{batch_size, queue_sweep}
use terminal_army_go.Scheduler.Sweep.{
  researches_tech, builds_level, queue_sweep-researches, queue_sweep-buildings,
}
use terminal_army_go.Tests.Sample.{
  result_or, world, lower, is_ok, ok_parts, no_item, state_after, answer_of,
}
use terminal_army_go.Tests.Exact.{exact}

unfoldable research : Result (PublicItem × World ℤ)
research = queue_research exact lower (pos 120) (pos 200) 7 1 "energy" world

research-is_ok : is_ok research ≡ true
unfolding research queue_research parse_tech_type research_costs load_owned refresh_tx refresh_row
    get_planet place_research has_active_research is_active max_building_level_across_user
    check_research_prereqs missing_for_research tech_prerequisites research_level_cost lacks
    get_universe debit_and_insert ◌+ℤ◌ ◌-ℤ◌ ◌*ℤ◌ ◌/ℤ◌
research-is_ok = refl

researched :
    queue_research exact lower (pos 120) (pos 200) 7 1 "energy" world
    ≡ ok (answer_of research, state_after research)
unfolding research
researched = ok_parts no_item research research-is_ok

queue_research-slot_example :
    (length (select (active_research_of 7) world.queue) ≡ 0)
    × (length (select (active_research_of 7) (state_after research).queue) ≡ 1)
queue_research-slot_example =
    queue_research-slot exact lower (pos 120) (pos 200) 7 1 "energy" world (state_after research)
      researched

unfoldable batch : Result (PublicItem × World ℤ)
batch = queue_ship exact lower (pos 120) (pos 200) (pos 200) 7 1 "light_fighter" (pos 3) world

batch-is_ok : is_ok batch ≡ true
unfolding batch queue_ship queue_units parse_ship_type ship_stats load_owned refresh_tx refresh_row
    get_planet count_active_queue_for_planet is_active check_ship_prereqs missing_for_ship
    ship_prerequisites ship_unit_cost batch_cost lacks get_universe list_active_queue_for_planet
    by_finish insert_by_finish chain_and_insert chained_start latest_active_queue_finish
    debit_and_insert ◌+ℤ◌ ◌-ℤ◌ ◌*ℤ◌
batch-is_ok = refl

bought :
    queue_ship exact lower (pos 120) (pos 200) (pos 200) 7 1 "light_fighter" (pos 3) world
    ≡ ok (answer_of batch, state_after batch)
unfolding batch
bought = ok_parts no_item batch batch-is_ok

queue_ship-Bought_example :
    (pos 1 ≤ℤ pos 3)
    × (pos 3 ≤ℤ max_unit_batch)
    × (st : ShipType) × (parse_ship_type lower "light_fighter" ≡ some st)
    × Bought exact
        (pos 120)
        (pos 200)
        "ship"
        (check_ship_prereqs st)
        (ship_unit_cost st)
        7
        1
        st
        (pos 3)
        world
        (state_after batch)
queue_ship-Bought_example =
    queue_ship-Bought exact lower (pos 120) (pos 200) (pos 200) 7 1 "light_fighter" (pos 3) world
      (state_after batch) bought

queue_sweep-researches_example :
    level ((queue_sweep (pos 1000) world).researches 7) "energy"
    ≡ level (world.researches 7) "energy"
      +ℤ pos (
          length (
            select (researches_tech 7 "energy") (list_due_queue_items (pos 1000) batch_size world)))
queue_sweep-researches_example = queue_sweep-researches 7 "energy" (pos 1000) world

queue_sweep-buildings_example :
    level ((queue_sweep (pos 1000) world).buildings 1) "solar_plant"
    ≡ level (world.buildings 1) "solar_plant"
      +ℤ pos (
          length (
            select
              (builds_level 1 "solar_plant")
              (list_due_queue_items (pos 1000) batch_size world)))
queue_sweep-buildings_example = queue_sweep-buildings 1 "solar_plant" (pos 1000) world

unfoldable listing : Result (List PublicItem × World ℤ)
listing = planet_queues exact 7 1 world

listing-is_ok : is_ok listing ≡ true
unfolding listing planet_queues get_planet list_active_queue_for_planet by_finish insert_by_finish
    is_active repair_completed_building_queues is_completed mark_queue_applied
listing-is_ok = refl

listed : planet_queues exact 7 1 world ≡ ok (result_or [] listing, state_after listing)
unfolding listing
listed = ok_parts [] listing listing-is_ok

planet_queues-count_example :
    (p : Planet ℤ) × (get_planet 1 world ≡ some p)
    × (p.owner_user_id ≡ 7)
    × (count_active_queue_for_planet 1 (state_after listing) ≤ length (result_or [] listing))
planet_queues-count_example =
    planet_queues-count exact 7 1 (result_or [] listing) world (state_after listing) listed
