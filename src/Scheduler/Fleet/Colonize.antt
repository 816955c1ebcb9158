-- ===== src/Scheduler/Fleet/Colonize.antt =====
-- Fleets that found a colony (`resolveColonize` of `internal/scheduler/fleet.go`).
use Prim.Native.String.{count}
use terminal_army_go.Base.{ℕ, true, false, length, none, some, if◌then◌else◌}
use terminal_army_go.Int.{ℤ, pos, ◌-ℤ◌, ltb_ℤ}
use terminal_army_go.Dict.{Dict, insert, level}
use terminal_army_go.Float.{Float64}
use terminal_army_go.Game.Techs.{tech_astrophysics}
use terminal_army_go.Game.Ships.{ship_colony_ship}
use terminal_army_go.Game.Colonization.{
  PlanetAttributes, colonize_rejection, generate_planet_attributes,
}
use terminal_army_go.Store.Tx.{
  Tx, ok, err, not_found, invalid_position, ◌>>=◌, ◌>>◌, gets, modify, fetch, or_fail,
}
use terminal_army_go.Store.Rows.{
  Fleet, Notice, Planet, World, slot_occupied, slot_just_taken, colony_rejected, colony_founded,
}
use terminal_army_go.Store.Planets.{get_universe, get_planet_by_coord}
use terminal_army_go.Store.Colonies.{create_planet, is_slot_taken, list_planets_by_owner}
use terminal_army_go.Store.Fleets.{list_fleet_ships, delete_fleet}
use terminal_army_go.Store.Messages.{insert_message}
use terminal_army_go.Scheduler.Fleet.Codes.{colony_name, generate_planet_code}
use terminal_army_go.Scheduler.Fleet.{Clock, land_ships, mark_attack_returning}

-- What the resolver takes from the libraries: the nanoseconds of the clock and the random generator.
pub record Naming (S : Type 0) : Type 0 where
  pub unix_nano : ℕ
  pub intn : ℤ → S → ℤ × S
  pub seed : S

-- One colony ship is used up, where there is one.
unfoldable pub without_colony_ship : Dict ℤ → Dict ℤ
without_colony_ship ships =
    if ltb_ℤ (pos 0) (level ships ship_colony_ship)
    then insert ship_colony_ship (level ships ship_colony_ship -ℤ pos 1) ships
    else ships

module _ {F : Type 0} where
  -- A message of failure, and the way home.
  unfoldable pub bounce : Clock → Fleet → Notice → Tx (World F) (Unit {0})
  unfolding mark_attack_returning
  bounce clock f text = do
    modify (insert_message clock.db_now none f.owner_id text "colonization")
    mark_attack_returning clock f

  -- The part of `resolveColonize` that follows the creation of the planet.
  unfoldable pub populate : Clock → Fleet → Planet F → Tx (World F) (Unit {0})
  unfolding without_colony_ship
  populate clock f created = do
    ships ← gets (list_fleet_ships f.id)
    modify (land_ships created.id (without_colony_ship ships))
    modify (
        insert_message clock.db_now none f.owner_id
          (colony_founded f.target_galaxy f.target_system f.target_position) "colonization")
    modify (delete_fleet f.id)

module _ {S : Type 0} (naming : Naming S) (fl : Float64) where
  open fl use {F, of_int}
  open naming use {unix_nano, intn, seed}

  -- The row of the colony.
  unfoldable pub colony_row : Clock → Fleet → PlanetAttributes F → Planet F
  colony_row clock f attrs = record {
    id = 0;
    code =
        generate_planet_code f.universe_id f.target_galaxy f.target_system f.target_position
          unix_nano;
    owner_user_id = f.owner_id;
    universe_id = f.universe_id;
    galaxy = f.target_galaxy;
    system = f.target_system;
    position = f.target_position;
    name = colony_name f.target_galaxy f.target_system f.target_position;
    fields_used = pos 0;
    fields_total = attrs.fields_total;
    temp_min = attrs.temp_min;
    temp_max = attrs.temp_max;
    metal = of_int f.cargo_metal;
    crystal = of_int f.cargo_crystal;
    deuterium = of_int f.cargo_deuterium;
    resources_last_updated_at = clock.updated_at;
  }

  -- The part of `resolveColonize` that creates the planet.
  unfoldable pub found_colony : Clock → Fleet → PlanetAttributes F → Tx (World F) (Unit {0})
  unfolding colony_row bounce populate
  found_colony clock f attrs w = elim (create_planet count (colony_row clock f attrs) w) [
    | ok (created, w') ↦ populate clock f created w'
    | err e ↦ elim (is_slot_taken e) [
      | true ↦ bounce clock f (slot_just_taken f.target_galaxy f.target_system f.target_position) w
      | false ↦ err e
    ]
  ]

  -- The part of `resolveColonize` for a slot that is free.
  unfoldable pub colonize_slot : Clock → Fleet → Tx (World F) (Unit {0})
  unfolding found_colony bounce
  colonize_slot clock f = do
    astro ← gets (λ w. level (w.researches f.owner_id) tech_astrophysics)
    owned ← gets (λ w. pos (length (list_planets_by_owner f.owner_id w)))
    elim (colonize_rejection astro owned f.target_position) [
      | some reason ↦ bounce clock f (colony_rejected reason)
      | none ↦ do
        rolled ←
            or_fail (generate_planet_attributes fl intn f.target_position seed) invalid_position
        found_colony clock f rolled.0
    ]

  -- `resolveColonize`
  unfoldable pub resolve_colonize : Clock → Fleet → Tx (World F) (Unit {0})
  unfolding colonize_slot bounce
  resolve_colonize clock f = do
    fetch (get_universe f.universe_id) not_found
    occupied ←
        gets (get_planet_by_coord f.universe_id f.target_galaxy f.target_system f.target_position)
    elim occupied [
      | some _ ↦ bounce clock f (slot_occupied f.target_galaxy f.target_system f.target_position)
      | none ↦ colonize_slot clock f
    ]
