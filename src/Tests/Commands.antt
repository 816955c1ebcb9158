-- ===== src/Tests/Commands.antt =====
-- The theorems on the queue commands and the sweep, at a world with one planet.
use terminal_army_go.Base.{◌≤◌, ◌≡◌, refl, true, some, List, map, [], ◌∷◌, ◌++◌, All, select}
use terminal_army_go.Int.{ℤ, pos, ◌+ℤ◌, ◌-ℤ◌, ◌*ℤ◌, ◌/ℤ◌, ◌≤ℤ◌}
use terminal_army_go.Store.Tx.{Result, ok}
use terminal_army_go.Store.Rows.{Planet, Universe, QueueItem, World}
use terminal_army_go.Store.Planets.{get_planet, get_universe}
use terminal_army_go.Store.Queue.{
  is_active, active_on_planet, by_finish, insert_by_finish, list_active_queue_for_planet,
  count_active_queue_for_planet, latest_active_queue_finish, latest_finish, mark_queue_applied,
}
use terminal_army_go.Svc.Resources.{refresh_tx, refresh_row}
use terminal_army_go.Svc.Orders.{PublicItem}
use terminal_army_go.Svc.Resources.Refresh.{Refreshed, Solvent}
use terminal_army_go.Svc.Orders.{
  load_owned, lacks, chain_and_insert, chained_start, debit_and_insert, queue_item_to_public,
}
use terminal_army_go.Svc.Orders.Payment.{cost_of, debited}
use terminal_army_go.Game.Buildings.{BuildingType, building_costs, building_prerequisites}
use terminal_army_go.Game.Formulas.{building_level_cost}
use terminal_army_go.Game.TechTree.{check_building_prereqs, missing_for_building}
use terminal_army_go.Svc.Build.{
  queue_building, parse_building_type, repair_completed_building_queues, is_completed,
  place_building, base_level, building_cost, apply_first_solar_rescue_cost,
}
use terminal_army_go.Svc.Build.Repair.{unmarked}
use terminal_army_go.Svc.Build.Purchase.{
  queue_building-count, queue_building-after, queue_building-Paid,
}
use terminal_army_go.Tests.Sample.{
  home, world, lower, is_ok, ok_parts, no_item, state_after, answer_of,
}
use terminal_army_go.Tests.Exact.{exact, exact_laws}

unfoldable order : Result (PublicItem × World ℤ)
order = queue_building exact lower (pos 120) (pos 200) (pos 200) 7 1 "metal_mine" world

order-is_ok : is_ok order ≡ true
unfolding order queue_building parse_building_type building_costs load_owned refresh_tx refresh_row
    get_planet list_active_queue_for_planet by_finish insert_by_finish is_active
    repair_completed_building_queues is_completed mark_queue_applied place_building base_level
    check_building_prereqs missing_for_building building_prerequisites get_universe building_cost
    apply_first_solar_rescue_cost building_level_cost lacks chain_and_insert chained_start
    latest_active_queue_finish latest_finish debit_and_insert ◌+ℤ◌ ◌-ℤ◌ ◌*ℤ◌ ◌/ℤ◌
order-is_ok = refl

ordered :
    queue_building exact lower (pos 120) (pos 200) (pos 200) 7 1 "metal_mine" world
    ≡ ok (answer_of order, state_after order)
unfolding order
ordered = ok_parts no_item order order-is_ok

queue_building-count_example : count_active_queue_for_planet 1 (state_after order) ≤ 5
queue_building-count_example =
    queue_building-count exact lower (pos 120) (pos 200) (pos 200) 7 1 "metal_mine" world
      (state_after order) ordered

queue_building-after_example :
    (v : World ℤ) × (q : QueueItem) × ((state_after order).queue ≡ v.queue ++ (q ∷ []))
    × (answer_of order ≡ queue_item_to_public q)
    × (pos 200 ≤ℤ q.started_at)
    × All (λ x. x.finished_at ≤ℤ q.started_at) (select (active_on_planet 1) v.queue)
queue_building-after_example =
    queue_building-after exact lower (pos 120) (pos 200) (pos 200) 7 1 "metal_mine" world
      (state_after order) ordered

home_found : get_planet 1 world ≡ some home
unfolding get_planet
home_found = refl

queue_building-Paid_example :
    (bt : BuildingType) × (r : Planet ℤ) × (w1 : World ℤ) × (u : Universe) × (q : QueueItem)
    × (before : List QueueItem) × (parse_building_type lower "metal_mine" ≡ some bt)
    × Refreshed exact (pos 120) 7 1 r world w1
    × (get_universe r.universe_id world ≡ some u)
    × ((state_after order).queue ≡ before ++ (q ∷ []))
    × (map unmarked before ≡ map unmarked world.queue)
    × (q.planet_id ≡ some 1)
    × (q.item_key ≡ bt)
    × (cost_of exact q
        ≡ building_cost exact bt q.target_level r
            (world.buildings r.id)
            (world.researches r.owner_user_id)
            u.speed_economy)
    × (get_planet 1 (state_after order) ≡ some (debited exact (pos 200) r q))
    × Solvent exact (debited exact (pos 200) r q)
queue_building-Paid_example =
    queue_building-Paid exact exact_laws lower (pos 120) (pos 200) (pos 200) 7 1 "metal_mine" home
      world (state_after order) ordered home_found (refl, refl, refl)
