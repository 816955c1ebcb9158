-- ===== src/Svc/Fleet.antt =====
-- The fleet service (`internal/svc/fleet.go`): what a request to dispatch a fleet must be, before the
-- database is read, and how a fleet is shown. `normalize` is `strings.ToLower` after
-- `strings.TrimSpace`.
pub mod Dispatch
pub mod Recall
pub mod Stock
pub mod Requests
pub mod Departure
pub mod Fare
pub mod Crew
pub mod Turning
use Prim.Native.String.{String}
use text.Mathlib.Text.{◌==◌ as str_eq}
use terminal_army_go.Base.{
  ℕ, ◌==◌, Bool, true, false, not, ◌&&◌, ◌||◌, List, [], ◌∷◌, ◌++◌, Option, if◌then◌else◌,
}
use terminal_army_go.Int.{ℤ, pos, ltb_ℤ, leb_ℤ}
use terminal_army_go.Dict.{Dict, has, insert, level}
use terminal_army_go.Game.Ships.{ship_stats, ship_colony_ship, ship_recycler, ship_espionage_probe}
use terminal_army_go.Store.Tx.{
  Result, ok, err, unknown_mission, unknown_ship, unknown_cargo_key, origin_required,
  target_out_of_range, no_ships, missing_hull, negative_cargo, bad_speed_percent,
}
use terminal_army_go.Store.Rows.{Fleet}

-- `FleetDispatchRequest`
pub record DispatchRequest : Type 0 where
  pub mission : String
  pub origin_planet_id : ℕ
  pub target_galaxy : ℤ
  pub target_system : ℤ
  pub target_position : ℤ
  pub ships : Dict ℤ
  pub cargo : Dict ℤ
  pub speed_percent : ℤ

-- The amounts of the three resources.
pub record Cargo : Type 0 where
  pub metal : ℤ
  pub crystal : ℤ
  pub deuterium : ℤ

-- A request that has passed the checks.
pub record Flight : Type 0 where
  pub mission : String
  pub origin_planet_id : ℕ
  pub target_galaxy : ℤ
  pub target_system : ℤ
  pub target_position : ℤ
  pub ships : Dict ℤ
  pub cargo : Cargo
  pub speed_percent : ℤ

-- `validMissions`
unfoldable pub valid_mission : String → Bool
valid_mission m =
    str_eq m "attack"
    || str_eq m "transport"
    || str_eq m "colonize"
    || str_eq m "deploy"
    || str_eq m "espionage"
    || str_eq m "recycle"

-- `requireMissionShips`
unfoldable pub require_mission_ships : String → Dict ℤ → Bool
require_mission_ships mission ships =
    if str_eq mission "colonize"
    then leb_ℤ (pos 1) (level ships ship_colony_ship)
    else if str_eq mission "recycle"
    then leb_ℤ (pos 1) (level ships ship_recycler)
    else if str_eq mission "espionage"
    then leb_ℤ (pos 1) (level ships ship_espionage_probe)
    else true

infixl 5 ◌then_ok◌
abbrev pub ◌then_ok◌ : {A B : Type 0} → Result A → (A → Result B) → Result B
m then_ok f = elim m [ err e ↦ err e | ok a ↦ f a ]

-- The loop over `in.Ships`: a count that is not positive is skipped.
unfoldable pub typed_ships_from : (String → String) → Dict ℤ → Dict ℤ → Result (Dict ℤ)
typed_ships_from normalize typed [] = ok typed
typed_ships_from normalize typed ((k, count) ∷ ships) =
    let rest = typed_ships_from normalize (insert (normalize k) count typed) ships in
    let skipped = typed_ships_from normalize typed ships in
    if leb_ℤ count (pos 0)
    then skipped
    else if not (has (normalize k) ship_stats)
    then err unknown_ship
    else rest

-- The loop over `in.Cargo`
unfoldable pub cargo_from : (String → String) → Cargo → Dict ℤ → Result Cargo
cargo_from normalize c [] = ok c
cargo_from normalize c ((k, v) ∷ cargo) =
    if ltb_ℤ v (pos 0)
    then err negative_cargo
    else if str_eq (normalize k) "metal"
    then cargo_from normalize (record c { metal = v }) cargo
    else if str_eq (normalize k) "crystal"
    then cargo_from normalize (record c { crystal = v }) cargo
    else if str_eq (normalize k) "deuterium"
    then cargo_from normalize (record c { deuterium = v }) cargo
    else err unknown_cargo_key

abbrev pub no_cargo : Cargo
no_cargo = record { metal = pos 0; crystal = pos 0; deuterium = pos 0 }

-- `if speedPct <= 0 { speedPct = 100 }`
unfoldable pub chosen_speed : ℤ → ℤ
chosen_speed percent = if leb_ℤ percent (pos 0) then pos 100 else percent

abbrev pub no_entries {ℓ} : {A : Type ℓ} → List A → Bool
no_entries [] = true
no_entries (_ ∷ _) = false

-- The tests of `Dispatch` on the request before its ships are read.
unfoldable pub header_error : (String → String) → DispatchRequest → Result (Unit {0})
unfolding valid_mission
header_error normalize r =
    if not (valid_mission (normalize r.mission))
    then err unknown_mission
    else if r.origin_planet_id == 0
    then err origin_required
    else if ltb_ℤ r.target_galaxy (pos 1)
        || ltb_ℤ r.target_system (pos 1)
        || ltb_ℤ r.target_position (pos 1)
        || ltb_ℤ (pos 15) r.target_position
    then err target_out_of_range
    else if no_entries r.ships
    then err no_ships
    else ok tt

-- The tests of `Dispatch` on the ships that the request names.
unfoldable pub ships_error : String → Dict ℤ → Result (Unit {0})
unfolding require_mission_ships
ships_error mission typed =
    if no_entries typed
    then err no_ships
    else if not (require_mission_ships mission typed)
    then err missing_hull
    else ok tt

-- The test of `Dispatch` on the speed.
unfoldable pub speed_error : ℤ → Result (Unit {0})
speed_error percent =
    if ltb_ℤ percent (pos 10) || ltb_ℤ (pos 100) percent then err bad_speed_percent else ok tt

-- The part of `Dispatch` before its transaction.
unfoldable pub checked_request : (String → String) → DispatchRequest → Result Flight
unfolding chosen_speed
checked_request normalize r = header_error normalize r then_ok λ _.
    typed_ships_from normalize [] r.ships then_ok λ typed.
    ships_error (normalize r.mission) typed then_ok λ _.
    cargo_from normalize no_cargo r.cargo then_ok λ cargo.
    speed_error (chosen_speed r.speed_percent) then_ok λ _. ok (record {
      mission = normalize r.mission;
      origin_planet_id = r.origin_planet_id;
      target_galaxy = r.target_galaxy;
      target_system = r.target_system;
      target_position = r.target_position;
      ships = typed;
      cargo = cargo;
      speed_percent = chosen_speed r.speed_percent;
    })

-- The public view of a fleet.
pub record PublicFleet : Type 0 where
  pub id : ℕ
  pub user_id : ℕ
  pub origin_planet_id : ℕ
  pub target_galaxy : ℤ
  pub target_system : ℤ
  pub target_position : ℤ
  pub mission : String
  pub state : String
  pub departure_at : ℤ
  pub arrival_at : ℤ
  pub return_at : Option ℤ
  pub ships : Dict ℤ
  pub cargo : Dict ℤ

-- An entry of the public cargo: left out when it is not positive.
abbrev pub cargo_entry : String → ℤ → Dict ℤ
cargo_entry key amount = if ltb_ℤ (pos 0) amount then (key, amount) ∷ [] else []

-- `fleetToPublic`
unfoldable pub fleet_to_public : Fleet → Dict ℤ → PublicFleet
fleet_to_public f ships = record {
  id = f.id;
  user_id = f.owner_id;
  origin_planet_id = f.origin_planet_id;
  target_galaxy = f.target_galaxy;
  target_system = f.target_system;
  target_position = f.target_position;
  mission = f.mission;
  state = f.status;
  departure_at = f.departure_at;
  arrival_at = f.arrival_at;
  return_at = f.return_at;
  ships = ships;
  cargo =
      cargo_entry "metal" f.cargo_metal
      ++ cargo_entry "crystal" f.cargo_crystal
      ++ cargo_entry "deuterium" f.cargo_deuterium;
}
