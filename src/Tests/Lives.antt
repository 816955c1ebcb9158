-- ===== src/Tests/Lives.antt =====
-- The theorems on the life of a fleet and on a sweep that cannot go on.
use terminal_army_go.Base.{arith, ℕ, ◌≡◌, refl, ap, ◌∙◌, ◌≤◌, true, none, some, [], ◌∷◌}
use terminal_army_go.Int.{ℤ, pos, ◌+ℤ◌, ◌-ℤ◌, ◌/ℤ◌}
use terminal_army_go.Game.Colonization.{
  can_colonize_position, colonizable_position_range, colonize_rejection, fields_ranges_by_position,
  generate_planet_attributes, max_planets, temperature_ranges_by_position,
}
use terminal_army_go.Store.Tx.{Result, ok}
use terminal_army_go.Store.Rows.{Fleet, World}
use terminal_army_go.Store.Planets.{
  add_count, add_ships, get_planet, get_planet_by_coord, get_universe, update_planet_resources,
}
use terminal_army_go.Store.Colonies.{insert_planet, list_planets_by_owner, planets_in_order}
use terminal_army_go.Store.Fleets.{
  by_time, get_fleet, insert_by_time, is_due_arrival, is_due_return, list_due_arrivals,
  list_fleet_ships, mark_arrival_processed, mark_return_processed, update_fleet_cargo,
}
use terminal_army_go.Store.Messages.{insert_message}
use terminal_army_go.Svc.Resources.{refresh_row, refresh_tx}
use terminal_army_go.Svc.Fleet.Recall.{time_of_return}
use terminal_army_go.Scheduler.Fleet.{
  Clock, at_target, credit_cargo, deliver, drop_cargo, handle_return, has_cargo, land_ships,
  resolve_recycle, mark_attack_returning, notify_delivery, refreshed_planet, resolve_transport,
  unload,
}
use terminal_army_go.Scheduler.Fleet.Colonize.{Naming}
use terminal_army_go.Scheduler.Fleet.Arrivals.{arrival_sweep, handle_arrival}
use terminal_army_go.Scheduler.Fleet.Blocked.{MayColonize, arrival_sweep-blocked}
use terminal_army_go.Scheduler.Fleet.Lifecycle.{
  Event, Life, Life-bounds, Phase, Ready, Step, arrives, comes_home, idle, other, outbound, own,
  phase_of, phase_of_status, run_event, run_event-Step, subject,
}
use terminal_army_go.Scheduler.{batch_size}
use terminal_army_go.Tests.Sample.{is_ok, lower, ok_parts, state_after}
use terminal_army_go.Tests.Harbor.{at_sea, found_row, freighter, is_there, row_or, timetable}
use terminal_army_go.Tests.Exact.{exact}

-- The clock of a colony's code, and a generator that rolls zeros.
abbrev names : Naming ℕ
names = record { unix_nano = 1700000000123456789; intn = λ n s. (pos 0, s); seed = 0 }

abbrev late : Clock
late = record {
  refreshed_at = pos 410;
  updated_at = pos 420;
  turned_at = pos 430;
  db_now = pos 440;
}

abbrev arrival : Event ℤ
arrival = arrives (pos 155) timetable (pos 0) freighter

unfoldable arriving : Result (Unit {0} × World ℤ)
arriving = run_event names exact lower arrival (at_sea freighter)

abbrev returning_row : Fleet
returning_row = row_or (get_fleet 1 (state_after arriving))

unfoldable coming : Result (Unit {0} × World ℤ)
coming =
    run_event names exact lower (comes_home (pos 400) late returning_row) (state_after arriving)

life-is_ok :
    (is_ok arriving ≡ true)
    × (is_there (get_fleet 1 (state_after arriving)) ≡ true)
    × (is_due_return (pos 400) returning_row ≡ true)
    × (returning_row.id ≡ 1)
    × (is_ok coming ≡ true)
unfolding arriving coming run_event handle_arrival resolve_transport at_target deliver
    refreshed_planet refresh_tx refresh_row get_planet drop_cargo has_cargo credit_cargo
    update_planet_resources update_fleet_cargo notify_delivery insert_message mark_attack_returning
    mark_arrival_processed time_of_return get_fleet is_due_return handle_return unload
    list_fleet_ships land_ships add_ships add_count mark_return_processed ◌+ℤ◌ ◌-ℤ◌
life-is_ok = (refl, refl, refl, refl, refl)

arrived : run_event names exact lower arrival (at_sea freighter) ≡ ok (tt, state_after arriving)
unfolding arriving
arrived = ok_parts tt arriving life-is_ok.0

came_home :
    run_event names exact lower (comes_home (pos 400) late returning_row) (state_after arriving)
    ≡ ok (tt, state_after coming)
unfolding coming
came_home = ok_parts tt coming life-is_ok.4

arrival-Ready : Ready arrival (at_sea freighter)
unfolding get_fleet is_due_arrival
arrival-Ready = (refl, refl)

run_event-Step_example :
    (a : Phase) × (b : Phase) × (phase_of (get_fleet (subject arrival) (at_sea freighter)) ≡ some a)
    × (phase_of (get_fleet (subject arrival) (state_after arriving)) ≡ some b)
    × Step a b
run_event-Step_example =
    run_event-Step names exact lower arrival (at_sea freighter) (state_after arriving) arrival-Ready
      arrived

return-Ready : Ready (comes_home (pos 400) late returning_row) (state_after arriving)
return-Ready = (
  ap (λ k. get_fleet k (state_after arriving)) life-is_ok.3
      ∙ found_row (get_fleet 1 (state_after arriving)) life-is_ok.1,
  life-is_ok.2,
)

-- An event of another fleet, which a sweep handles afterwards.
abbrev stray : Event ℤ
stray = arrives (pos 430) late (pos 0) (record freighter { id = 2; mission = "recycle" })

unfoldable passing : Result (Unit {0} × World ℤ)
passing = run_event names exact lower stray (state_after coming)

passing-is_ok : is_ok passing ≡ true
unfolding passing run_event handle_arrival resolve_recycle mark_attack_returning
passing-is_ok = refl

passed : run_event names exact lower stray (state_after coming) ≡ ok (tt, state_after passing)
unfolding passing
passed = ok_parts tt passing passing-is_ok

trip-Life : Life names exact lower 1 (at_sea freighter) (state_after passing) 2
unfolding subject
trip-Life = own arrival refl arrival-Ready arrived (
    own (comes_home (pos 400) late returning_row) life-is_ok.3 return-Ready came_home
      (other stray (λ same. absurd (omega arith)) passed idle))

freighter_outbound : phase_of (get_fleet 1 (at_sea freighter)) ≡ some outbound
unfolding phase_of phase_of_status get_fleet
freighter_outbound = refl

Life-bounds_example : 2 ≤ 2
Life-bounds_example =
    Life-bounds names exact lower 1 {w = at_sea freighter} {u = state_after passing} outbound
      freighter_outbound trip-Life

abbrev colonist : Fleet
colonist = record freighter {
  mission = "colonize";
  target_position = pos 9;
  target_planet_id = none;
}

abbrev frontier : World ℤ
frontier = record (at_sea colonist) { researches = λ _. ("astrophysics", pos 1) ∷ [] }

colonist_due : list_due_arrivals (pos 155) batch_size frontier ≡ colonist ∷ []
unfolding list_due_arrivals by_time insert_by_time is_due_arrival
colonist_due = refl

colonist-MayColonize : MayColonize names exact colonist frontier
unfolding get_universe get_planet_by_coord colonize_rejection can_colonize_position
    colonizable_position_range max_planets list_planets_by_owner planets_in_order insert_planet
    generate_planet_attributes temperature_ranges_by_position fields_ranges_by_position ◌+ℤ◌ ◌-ℤ◌
    ◌/ℤ◌
colonist-MayColonize = (_, _, refl, refl, refl, refl)

arrival_sweep-blocked_example :
    arrival_sweep names exact lower (pos 155) (λ _. timetable) (λ _. pos 0) frontier ≡ frontier
arrival_sweep-blocked_example =
    arrival_sweep-blocked names exact lower (pos 155) (λ _. timetable) (λ _. pos 0) colonist []
      frontier colonist_due refl colonist-MayColonize
