-- ===== src/Svc/Fleet/Dispatch.antt =====
-- Launching a fleet and listing fleets (`Dispatch` and `List` of `internal/svc/fleet.go`). A call of
-- the event sink is not modelled: it reads and writes no table.
use Prim.Native.String.{String}
use terminal_army_go.Base.{
  ℕ, ◌==◌, Bool, false, not, ◌&&◌, ◌||◌, List, [], ◌∷◌, map, Option, none, some,
}
use terminal_army_go.Int.{ℤ, pos, ◌+ℤ◌, ◌-ℤ◌, ltb_ℤ, eqb_ℤ, wrap64}
use terminal_army_go.Dict.{Dict, level}
use terminal_army_go.Float.{Float64}
use terminal_army_go.Game.Fleet.{
  distance, slowest_ship_speed, flight_duration_seconds, fleet_fuel_consumption,
  fleet_cargo_capacity,
}
use terminal_army_go.Store.Tx.{
  Tx, ok, err, not_found, forbidden, insufficient_resources, target_is_origin, not_enough_ships,
  outside_universe, cargo_exceeds_capacity, ◌>>=◌, ◌>>◌, pure, gets, modify, fetch, fail_if,
}
use terminal_army_go.Store.Rows.{Fleet, Planet, World}
use terminal_army_go.Store.Planets.{
  get_planet, get_universe, get_planet_by_coord, update_planet_resources, add_ships,
}
use terminal_army_go.Store.Fleets.{
  insert_fleet, insert_fleet_ship, list_active_fleets_by_owner, list_fleet_ships,
}
use terminal_army_go.Svc.Resources.{refresh_tx}
use terminal_army_go.Svc.Orders.{finish_after}
use terminal_army_go.Svc.Fleet.{
  Cargo, DispatchRequest, Flight, PublicFleet, checked_request, fleet_to_public,
}

-- The target is the planet's own slot.
unfoldable pub targets_itself : {F : Type 0} → Planet F → Flight → Bool
targets_itself p f =
    eqb_ℤ p.galaxy f.target_galaxy
    && eqb_ℤ p.system f.target_system
    && eqb_ℤ p.position f.target_position

-- The loop that compares the ships with the planet's.
unfoldable pub short_of_ships : Dict ℤ → Dict ℤ → Bool
short_of_ships stockpile [] = false
short_of_ships stockpile ((st, count) ∷ ships) =
    ltb_ℤ (level stockpile st) count || short_of_ships stockpile ships

-- `cargoSum`, which may wrap around
unfoldable pub cargo_sum : Cargo → ℤ
cargo_sum c = wrap64 (c.metal +ℤ c.crystal +ℤ c.deuterium)

-- `cargoDeut + fuel`
unfoldable pub needed_deuterium : Cargo → ℤ → ℤ
needed_deuterium c fuel = wrap64 (c.deuterium +ℤ fuel)

-- The row of the fleet.
unfoldable pub outbound_row : {F : Type 0} → ℤ → ℕ → Planet F → Flight → Option ℕ → ℤ → ℤ → Fleet
outbound_row now user p f target seconds fuel = record {
  id = 0;
  owner_id = user;
  origin_planet_id = p.id;
  mission = f.mission;
  status = "outbound";
  universe_id = p.universe_id;
  target_galaxy = f.target_galaxy;
  target_system = f.target_system;
  target_position = f.target_position;
  target_planet_id = target;
  speed_percent = f.speed_percent;
  departure_at = now;
  arrival_at = finish_after now seconds;
  return_at = none;
  cargo_metal = f.cargo.metal;
  cargo_crystal = f.cargo.crystal;
  cargo_deuterium = f.cargo.deuterium;
  fuel_cost = fuel;
  arrival_processed = false;
  return_processed = false;
}

module _ {F : Type 0} where
  -- The loop that takes the ships from the planet.
  unfoldable pub take_ships : ℕ → Dict ℤ → World F → World F
  take_ships k [] w = w
  take_ships k ((st, count) ∷ ships) w = take_ships k ships (add_ships k st (pos 0 -ℤ count) w)

  -- The loop that gives them to the fleet.
  unfoldable pub board_ships : ℕ → Dict ℤ → World F → World F
  board_ships k [] w = w
  board_ships k ((st, count) ∷ ships) w = board_ships k ships (insert_fleet_ship k st count w)

  -- `target_planet_id` of the row
  unfoldable pub target_planet : Planet F → Flight → World F → Option ℕ
  target_planet p f w =
      elim (get_planet_by_coord p.universe_id f.target_galaxy f.target_system f.target_position w) [
        | none ↦ none
        | some q ↦ some q.id
      ]

module _ (fl : Float64) where
  open fl use {F, of_int, sub, lt}

  -- `planet.Metal < needMetal || …`
  unfoldable pub cannot_pay : Planet F → Cargo → ℤ → Bool
  unfolding needed_deuterium
  cannot_pay p c fuel =
      lt p.metal (of_int c.metal)
      || lt p.crystal (of_int c.crystal)
      || lt p.deuterium (of_int (needed_deuterium c fuel))

  -- The part of `Dispatch` that pays for the flight and inserts its rows.
  unfoldable pub launch : ℤ → ℕ → Planet F → Flight → ℤ → ℤ → Tx (World F) PublicFleet
  unfolding target_planet needed_deuterium
  launch now user p f seconds fuel = do
    target ← gets (target_planet p f)
    modify (
        update_planet_resources p.id (sub p.metal (of_int f.cargo.metal))
          (sub p.crystal (of_int f.cargo.crystal))
          (sub p.deuterium (of_int (needed_deuterium f.cargo fuel))) now)
    modify (take_ships p.id f.ships)
    row ← insert_fleet (outbound_row now user p f target seconds fuel)
    modify (board_ships row.id f.ships)
    pure (fleet_to_public row f.ships)

  -- The part of `Dispatch` that follows the refresh: the numbers of the flight, and its checks.
  unfoldable pub prepare : ℤ → ℕ → Flight → Planet F → Tx (World F) PublicFleet
  unfolding short_of_ships cargo_sum cannot_pay
  prepare now user f p = do
    stockpile ← gets (λ w. w.ships p.id)
    fail_if (short_of_ships stockpile f.ships) not_enough_ships
    techs ← gets (λ w. w.researches user)
    u ← fetch (get_universe p.universe_id) not_found
    fail_if (ltb_ℤ u.galaxies_count f.target_galaxy || ltb_ℤ u.systems_count f.target_system)
        outside_universe
    let units =
        distance p.galaxy p.system p.position f.target_galaxy f.target_system f.target_position
    let speed = slowest_ship_speed fl f.ships techs
    let seconds = flight_duration_seconds fl units speed u.speed_fleet f.speed_percent
    let fuel = fleet_fuel_consumption fl f.ships units f.speed_percent
    fail_if (ltb_ℤ (fleet_cargo_capacity f.ships) (cargo_sum f.cargo)) cargo_exceeds_capacity
    fail_if (cannot_pay p f.cargo fuel) insufficient_resources
    launch now user p f seconds fuel

  -- The transaction of `Dispatch`; `refreshed_at` is the time that the refresh reads.
  unfoldable pub dispatch_flight : ℤ → ℤ → ℕ → Flight → Tx (World F) PublicFleet
  unfolding targets_itself prepare
  dispatch_flight refreshed_at now user f = do
    p ← fetch (get_planet f.origin_planet_id) not_found
    fail_if (not (p.owner_user_id == user)) forbidden
    fail_if (targets_itself p f) target_is_origin
    refresh_tx fl refreshed_at p.id
    r ← fetch (get_planet f.origin_planet_id) not_found
    prepare now user f r

  -- `Dispatch`
  unfoldable pub dispatch :
      (String → String) → ℤ → ℤ → ℕ → DispatchRequest → Tx (World F) PublicFleet
  unfolding dispatch_flight
  dispatch normalize refreshed_at now user request w = elim (checked_request normalize request) [
    | err e ↦ err e
    | ok f ↦ dispatch_flight refreshed_at now user f w
  ]

  -- `List`
  unfoldable pub list_fleets : ℕ → World F → List PublicFleet
  list_fleets user w =
      map (λ f. fleet_to_public f (list_fleet_ships f.id w)) (list_active_fleets_by_owner user w)
