-- ===== src/Scheduler/Fleet.antt =====
-- Fleets that arrive without a fight and fleets that come home (`internal/scheduler/fleet.go`). A
-- call of the event sink is not modelled: it reads and writes no table.
pub mod Codes
pub mod Colonize
pub mod Espionage
pub mod Attack
pub mod Arrivals
pub mod Landing
pub mod Delivery
pub mod Unloading
pub mod Loot
pub mod Blocked
pub mod Roundtrip
pub mod Endings
pub mod Founding
pub mod Fights
pub mod Handled
pub mod Others
pub mod Bystanders
pub mod Undisturbed
pub mod Lifecycle
use terminal_army_go.Base.{
  ℕ, ◌==◌, Bool, true, false, ◌||◌, [], ◌∷◌, Option, none, some, if◌then◌else◌,
}
use terminal_army_go.Int.{ℤ, pos, ltb_ℤ, leb_ℤ}
use terminal_army_go.Dict.{Dict}
use terminal_army_go.Float.{Float64}
use terminal_army_go.Store.Tx.{Tx, not_found, ◌>>=◌, ◌>>◌, pure, gets, modify, fetch}
use terminal_army_go.Store.Rows.{Fleet, Planet, World, transport_delivered}
use terminal_army_go.Store.Planets.{get_planet, update_planet_resources, add_ships}
use terminal_army_go.Store.Fleets.{
  mark_arrival_processed, mark_return_processed, update_fleet_cargo, list_fleet_ships, delete_fleet,
}
use terminal_army_go.Store.Messages.{insert_message}
use terminal_army_go.Svc.Resources.{refresh_tx}
use terminal_army_go.Svc.Fleet.Recall.{time_of_return}

-- The times that one handler reads: by the refresh, for the pools, for the way home, and `NOW()` in
-- the database.
pub record Clock : Type 0 where
  pub refreshed_at : ℤ
  pub updated_at : ℤ
  pub turned_at : ℤ
  pub db_now : ℤ

-- `f.CargoMetal > 0 || …`
unfoldable pub has_cargo : Fleet → Bool
has_cargo f =
    ltb_ℤ (pos 0) f.cargo_metal || ltb_ℤ (pos 0) f.cargo_crystal || ltb_ℤ (pos 0) f.cargo_deuterium

module _ {F : Type 0} where
  -- The loop that adds a fleet's ships to a planet.
  unfoldable pub land_ships : ℕ → Dict ℤ → World F → World F
  land_ships k [] w = w
  land_ships k ((name, count) ∷ ships) w =
      land_ships k ships (if leb_ℤ count (pos 0) then w else add_ships k name count w)

  -- `markAttackReturning`
  unfoldable pub mark_attack_returning : Clock → Fleet → Tx (World F) (Unit {0})
  unfolding time_of_return
  mark_attack_returning clock f = modify (
      mark_arrival_processed f.id "returning"
        (some (time_of_return clock.turned_at f.departure_at)))

  -- `resolveRecycle`
  unfoldable pub resolve_recycle : Clock → Fleet → Tx (World F) (Unit {0})
  unfolding mark_attack_returning
  resolve_recycle clock f = mark_attack_returning clock f

  -- The message to the owner of the target, where it is not the fleet's.
  unfoldable pub notify_delivery : Clock → Fleet → Planet F → Tx (World F) (Unit {0})
  notify_delivery clock f p = elim (p.owner_user_id == f.owner_id) [
    | true ↦ pure tt
    | false ↦ modify (
        insert_message clock.db_now (some f.owner_id) p.owner_user_id
          (transport_delivered p.name f.cargo_metal f.cargo_crystal f.cargo_deuterium) "transport")
  ]

module _ (fl : Float64) where
  open fl use {F, of_int, add}

  -- A planet's row after a refresh, which locks it.
  unfoldable pub refreshed_planet : Clock → ℕ → ℕ → Tx (World F) (Planet F)
  unfolding refresh_tx
  refreshed_planet clock k id = do
    refresh_tx fl clock.refreshed_at id
    fetch (get_planet k) not_found

  -- The pools of a planet with a fleet's cargo added to them.
  unfoldable pub credit_cargo : ℤ → Planet F → Fleet → World F → World F
  credit_cargo now p f =
      update_planet_resources p.id (add p.metal (of_int f.cargo_metal))
        (add p.crystal (of_int f.cargo_crystal)) (add p.deuterium (of_int f.cargo_deuterium)) now

  -- The part of `resolveTransport` that drops the cargo.
  unfoldable pub drop_cargo : Clock → Planet F → Fleet → Tx (World F) (Unit {0})
  unfolding credit_cargo
  drop_cargo clock p f = elim (has_cargo f) [
    | true ↦ do
      modify (credit_cargo clock.updated_at p f)
      modify (update_fleet_cargo f.id (pos 0) (pos 0) (pos 0))
    | false ↦ pure tt
  ]

  -- The part of `resolveTransport` that follows the first read of the target.
  unfoldable pub deliver : Clock → Fleet → ℕ → Planet F → Tx (World F) (Unit {0})
  unfolding drop_cargo notify_delivery mark_attack_returning refreshed_planet
  deliver clock f k p = do
    r ← refreshed_planet clock k p.id
    drop_cargo clock r f
    notify_delivery clock f r
    mark_attack_returning clock f

  -- The target's row, where the fleet has one; without it the fleet turns around.
  unfoldable pub at_target :
      Clock → Fleet → (ℕ → Planet F → Tx (World F) (Unit {0})) → Tx (World F) (Unit {0})
  unfolding mark_attack_returning
  at_target clock f resolve w = elim f.target_planet_id [
    | none ↦ mark_attack_returning clock f w
    | some k ↦ elim (get_planet k w) [
      | none ↦ mark_attack_returning clock f w
      | some p ↦ resolve k p w
    ]
  ]

  -- `resolveTransport`
  unfoldable pub resolve_transport : Clock → Fleet → Tx (World F) (Unit {0})
  unfolding at_target deliver
  resolve_transport clock f = at_target clock f (deliver clock f)

  -- The part of `resolveDeploy` for a target of the fleet's owner.
  unfoldable pub settle : Clock → Fleet → ℕ → Planet F → Tx (World F) (Unit {0})
  unfolding credit_cargo refreshed_planet
  settle clock f k p = do
    r ← refreshed_planet clock k p.id
    ships ← gets (list_fleet_ships f.id)
    modify (land_ships r.id ships)
    modify (λ w. if has_cargo f then credit_cargo clock.updated_at r f w else w)
    modify (delete_fleet f.id)

  -- `resolveDeploy`
  unfoldable pub resolve_deploy : Clock → Fleet → Tx (World F) (Unit {0})
  unfolding at_target settle resolve_transport
  resolve_deploy clock f = at_target clock f (λ k p. elim (p.owner_user_id == f.owner_id) [
    | true ↦ settle clock f k p
    | false ↦ resolve_transport clock f
  ])

  -- The part of `handleReturn` that follows the first read of the origin.
  unfoldable pub unload : Clock → Fleet → Planet F → Tx (World F) (Unit {0})
  unfolding credit_cargo refreshed_planet
  unload clock f p = do
    r ← refreshed_planet clock f.origin_planet_id p.id
    ships ← gets (list_fleet_ships f.id)
    modify (land_ships r.id ships)
    modify (λ w. if has_cargo f then credit_cargo clock.updated_at r f w else w)
    modify (mark_return_processed f.id)

  -- `handleReturn`
  unfoldable pub handle_return : Clock → Fleet → Tx (World F) (Unit {0})
  unfolding unload
  handle_return clock f w = elim (get_planet f.origin_planet_id w) [
    | none ↦ modify (delete_fleet f.id) w
    | some p ↦ unload clock f p w
  ]
