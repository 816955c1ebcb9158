-- ===== src/Tests/Departures.antt =====
-- The theorems on dispatch and recall, at the harbor.
use Prim.Native.String.{String}
use terminal_army_go.Base.{◌≡◌, refl, ◌++◌, [], ◌∷◌, true, false, none, some}
use terminal_army_go.Int.{ℤ, pos, ◌+ℤ◌, ◌-ℤ◌, ◌*ℤ◌, ◌/ℤ◌, ◌≤ℤ◌, wrap64}
use terminal_army_go.Dict.{level}
use terminal_army_go.Game.Ships.{ship_stats, ship_drive}
use terminal_army_go.Game.Fleet.{
  abs_int, clamp_int, distance, fleet_cargo_capacity, fleet_cargo_from, fleet_fuel_consumption,
  flight_duration_seconds, fuel_from, hull_capacity, ship_speed, slowest_from, slowest_ship_speed,
}
use terminal_army_go.Store.Tx.{Result, ok, err, not_recallable}
use terminal_army_go.Store.Rows.{Fleet, Planet, World}
use terminal_army_go.Store.Planets.{
  add_count, add_ships, get_planet, get_planet_by_coord, get_universe, update_planet_resources,
}
use terminal_army_go.Store.Fleets.{
  fits_integer, fleet_fits, get_fleet, insert_fleet, insert_fleet_ship, is_due_arrival,
  list_fleet_ships, mark_return_processed, new_fleet, set_fleet_return, set_fleet_status,
}
use terminal_army_go.Svc.Resources.{refresh_row, refresh_tx}
use terminal_army_go.Svc.Resources.Refresh.{Solvent}
use terminal_army_go.Svc.Orders.{finish_after}
use terminal_army_go.Svc.Fleet.{
  Flight, PublicFleet, cargo_from, checked_request, chosen_speed, fleet_to_public, header_error,
  require_mission_ships, ships_error, speed_error, typed_ships_from, valid_mission,
}
use terminal_army_go.Svc.Fleet.Dispatch.{
  board_ships, cannot_pay, cargo_sum, dispatch, dispatch_flight, launch, needed_deuterium,
  outbound_row, prepare, short_of_ships, take_ships, target_planet, targets_itself,
}
use terminal_army_go.Svc.Fleet.Recall.{recall, time_of_return}
use terminal_army_go.Svc.Fleet.Departure.{fuel_of}
use terminal_army_go.Svc.Resources.Refresh.{Refreshed}
use terminal_army_go.Svc.Fleet.Fare.{dispatch-Paid, paid, whole_cargo}
use terminal_army_go.Svc.Fleet.Crew.{dispatch-Crewed}
use terminal_army_go.Svc.Fleet.Turning.{recall_once, turned}
use terminal_army_go.Tests.Sample.{is_ok, lower, ok_parts, result_or, state_after}
use terminal_army_go.Scheduler.Fleet.{
  credit_cargo, handle_return, has_cargo, land_ships, refreshed_planet, unload,
}
use terminal_army_go.Scheduler.Fleet.Roundtrip.{roundtrip_ships}
use terminal_army_go.Tests.Harbor.{
  docked_nonneg, found_row, harbor, is_there, no_fleet, row_or, shipment, timetable,
}
use terminal_army_go.Tests.Exact.{exact, exact_laws}

unfoldable pub sending : Result (PublicFleet × World ℤ)
sending = dispatch exact lower (pos 120) (pos 130) 7 shipment harbor

sending-is_ok : is_ok sending ≡ true
unfolding sending dispatch checked_request header_error valid_mission typed_ships_from ship_stats
    ships_error require_mission_ships cargo_from chosen_speed speed_error dispatch_flight get_planet
    targets_itself refresh_tx refresh_row ◌-ℤ◌ ◌+ℤ◌ ◌*ℤ◌ ◌/ℤ◌ prepare short_of_ships get_universe
    distance abs_int slowest_ship_speed slowest_from ship_speed ship_drive flight_duration_seconds
    clamp_int fleet_fuel_consumption fuel_from fleet_cargo_capacity fleet_cargo_from hull_capacity
    cargo_sum wrap64 cannot_pay needed_deuterium launch target_planet get_planet_by_coord
    update_planet_resources take_ships add_ships add_count outbound_row finish_after insert_fleet
    fleet_fits fits_integer
sending-is_ok = refl

pub sent :
    dispatch exact lower (pos 120) (pos 130) 7 shipment harbor
    ≡ ok (result_or no_fleet sending, state_after sending)
unfolding sending
sent = ok_parts no_fleet sending sending-is_ok

dispatch-Paid_example :
    let w' = state_after sending in
    (f : Flight) × (r : Planet ℤ) × (w1 : World ℤ) × (checked_request lower shipment ≡ ok f)
    × Refreshed exact (pos 120) 7 f.origin_planet_id r harbor w1
    × (get_planet f.origin_planet_id w' ≡ some (paid exact (pos 130) r f))
    × Solvent exact (paid exact (pos 130) r f)
    × (pos 0 ≤ℤ fuel_of exact r f)
    × (whole_cargo f.cargo ≤ℤ fleet_cargo_capacity f.ships)
dispatch-Paid_example =
    dispatch-Paid exact exact_laws lower (pos 120) (pos 130) 7 shipment harbor (state_after sending)
      sent

dispatch-Crewed_example :
    let w' = state_after sending in
    (f : Flight) × (r : Planet ℤ) × (w1 : World ℤ) × (seconds : ℤ) × (checked_request lower shipment
      ≡ ok f)
    × Refreshed exact (pos 120) 7 1 r harbor w1
    × (w'.fleets
        ≡ []
          ++ (new_fleet 1
                (outbound_row (pos 130) 7 r f (target_planet r f w1) seconds (fuel_of exact r f))
              ∷ []))
    × (list_fleet_ships 1 w' ≡ f.ships)
    × ((key : String)
        → (pos 0 ≤ℤ level (w'.ships 1) key)
          × (level (w'.ships 1) key +ℤ level (list_fleet_ships 1 w') key
              ≡ level (harbor.ships 1) key))
dispatch-Crewed_example =
    dispatch-Crewed exact lower (pos 120) (pos 130) 7 shipment harbor (state_after sending) refl
      docked_nonneg sent

no_fleet_yet : get_fleet 1 harbor ≡ none
unfolding get_fleet
no_fleet_yet = refl

-- The fleet of the dispatch is recalled, and comes home.
unfoldable turning : Result (PublicFleet × World ℤ)
turning = recall (pos 140) 7 1 (state_after sending)

unfoldable homecoming : Result (Unit {0} × World ℤ)
homecoming =
    handle_return exact timetable (row_or (get_fleet 1 (state_after turning))) (state_after turning)

voyage-is_ok :
    (is_ok turning ≡ true)
    × (is_there (get_fleet 1 (state_after turning)) ≡ true)
    × (is_ok homecoming ≡ true)
unfolding turning homecoming recall set_fleet_status set_fleet_return time_of_return get_fleet
    fleet_to_public handle_return unload credit_cargo refreshed_planet has_cargo land_ships
    list_fleet_ships board_ships insert_fleet_ship mark_return_processed sending dispatch
    checked_request header_error valid_mission typed_ships_from ship_stats ships_error
    require_mission_ships cargo_from chosen_speed speed_error dispatch_flight get_planet
    targets_itself refresh_tx refresh_row ◌-ℤ◌ ◌+ℤ◌ ◌*ℤ◌ ◌/ℤ◌ prepare short_of_ships get_universe
    distance abs_int slowest_ship_speed slowest_from ship_speed ship_drive flight_duration_seconds
    clamp_int fleet_fuel_consumption fuel_from fleet_cargo_capacity fleet_cargo_from hull_capacity
    cargo_sum wrap64 cannot_pay needed_deuterium launch target_planet get_planet_by_coord
    update_planet_resources take_ships add_ships add_count outbound_row finish_after insert_fleet
    fleet_fits fits_integer
voyage-is_ok = (refl, refl, refl)

turned_around :
    recall (pos 140) 7 1 (state_after sending)
    ≡ ok (result_or no_fleet turning, state_after turning)
unfolding turning
turned_around = ok_parts no_fleet turning voyage-is_ok.0

recall_once_example :
    let w = state_after sending in
    let w' = state_after turning in
    (f : Fleet) × (get_fleet 1 w ≡ some f)
    × (f.owner_id ≡ 7)
    × (f.status ≡ "outbound")
    × (get_fleet 1 w' ≡ some (turned (pos 140) f))
    × (f.departure_at ≤ℤ pos 140
        → time_of_return (pos 140) f.departure_at -ℤ pos 140 ≡ pos 140 -ℤ f.departure_at)
    × ((t : ℤ) → is_due_arrival t (turned (pos 140) f) ≡ false)
    × (recall (pos 150) 7 1 w' ≡ err not_recallable)
recall_once_example =
    recall_once (pos 140) (pos 150) 7 1 (state_after sending) (state_after turning) turned_around

home_again :
    handle_return exact timetable (row_or (get_fleet 1 (state_after turning))) (state_after turning)
    ≡ ok (tt, state_after homecoming)
unfolding homecoming
home_again = ok_parts tt homecoming voyage-is_ok.2

roundtrip_ships_example :
    level ((state_after homecoming).ships 1) "small_cargo" ≡ level (harbor.ships 1) "small_cargo"
roundtrip_ships_example =
    roundtrip_ships exact exact_laws lower (pos 120) (pos 130) (pos 140) timetable 7 shipment
      (row_or (get_fleet 1 (state_after turning))) harbor (state_after sending)
      (state_after turning) (state_after homecoming) refl no_fleet_yet docked_nonneg sent
      turned_around (found_row (get_fleet 1 (state_after turning)) voyage-is_ok.1) home_again
      "small_cargo"
