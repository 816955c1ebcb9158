-- ===== src/Scheduler/Fleet/Attack.antt =====
-- Fleets that attack (`resolveAttack` of `internal/scheduler/fleet.go`).
use terminal_army_go.Base.{ℕ, Bool, true, false, ◌&&◌, [], ◌∷◌, none, if◌then◌else◌}
use terminal_army_go.Int.{ℤ, pos, ◌+ℤ◌, ◌-ℤ◌, ltb_ℤ, eqb_ℤ}
use terminal_army_go.Dict.{Dict, insert, level}
use terminal_army_go.Float.{Float64}
use terminal_army_go.Game.Techs.{tech_weapons, tech_shielding, tech_armour}
use terminal_army_go.Game.Fleet.{fleet_cargo_capacity}
use terminal_army_go.Game.Combat.{
  CombatResult, attacker, build_units_from_ships, build_units_from_defenses, simulate_combat,
}
use terminal_army_go.Store.Tx.{Tx, ◌>>=◌, ◌>>◌, pure, gets, modify}
use terminal_army_go.Store.Rows.{Fleet, Planet, World, combat_payload, planet_attacked}
use terminal_army_go.Store.Planets.{add_ships, add_defenses, update_planet_resources}
use terminal_army_go.Store.Fleets.{
  list_fleet_ships, set_fleet_ship_count, update_fleet_cargo, delete_fleet,
}
use terminal_army_go.Store.Messages.{insert_message, insert_report}
use terminal_army_go.Svc.Fleet.{Cargo, no_cargo}
use terminal_army_go.Scheduler.Fleet.{Clock, at_target, mark_attack_returning, refreshed_planet}

-- `minInt`
unfoldable pub min_int : ℤ → ℤ → ℤ
min_int a b = if ltb_ℤ a b then a else b

-- What a turn of the loop over the attacker's ships leaves of a type.
unfoldable pub surviving : Dict ℤ → Dict ℤ → Dict ℤ
surviving destroyed [] = []
surviving destroyed ((name, before) ∷ ships) =
    let remaining = before -ℤ level destroyed name in
    (name, if ltb_ℤ remaining (pos 0) then pos 0 else remaining) ∷ surviving destroyed ships

-- `totalSurvivors`
unfoldable pub total_of : Dict ℤ → ℤ
total_of [] = pos 0
total_of ((_, n) ∷ ships) = n +ℤ total_of ships

-- `capRemaining`
unfoldable pub cap_remaining : Dict ℤ → Fleet → ℤ
cap_remaining survivors f =
    let left =
      fleet_cargo_capacity survivors -ℤ (f.cargo_metal +ℤ f.cargo_crystal +ℤ f.cargo_deuterium) in
    if ltb_ℤ left (pos 0) then pos 0 else left

-- The capacity is filled with metal first, then crystal, then deuterium.
unfoldable pub distribute : ℤ → Cargo → Cargo
unfolding min_int
distribute take loot =
    let take_metal = min_int loot.metal take in
    let take_crystal = min_int loot.crystal (take -ℤ take_metal) in
    let take_deuterium = min_int loot.deuterium (take -ℤ take_metal -ℤ take_crystal) in
    record { metal = take_metal; crystal = take_crystal; deuterium = take_deuterium }

module _ {F : Type 0} where
  -- The writes of the loop over the attacker's ships: `survivors` has the keys of `ships`.
  unfoldable pub apply_attacker_losses : ℕ → Dict ℤ → Dict ℤ → Tx (World F) (Unit {0})
  apply_attacker_losses k [] survivors = pure tt
  apply_attacker_losses k (_ ∷ _) [] = pure tt
  apply_attacker_losses k ((name, before) ∷ ships) ((_, remaining) ∷ survivors) =
      let rest = apply_attacker_losses k ships survivors in
      if eqb_ℤ remaining before then rest else set_fleet_ship_count k name remaining >> rest

  -- The two loops over the defender's losses
  unfoldable pub apply_ship_losses : ℕ → Dict ℤ → World F → World F
  apply_ship_losses k [] w = w
  apply_ship_losses k ((name, killed) ∷ losses) w =
      apply_ship_losses k losses
        (if ltb_ℤ (pos 0) killed then add_ships k name (pos 0 -ℤ killed) w else w)

  unfoldable pub apply_defense_losses : ℕ → Dict ℤ → World F → World F
  apply_defense_losses k [] w = w
  apply_defense_losses k ((name, killed) ∷ losses) w =
      apply_defense_losses k losses
        (if ltb_ℤ (pos 0) killed then add_defenses k name (pos 0 -ℤ killed) w else w)

module _ (fl : Float64) where
  open fl use {F, of_int, sub, div, trunc}

  -- `int(target.Metal / 2)` and so on
  unfoldable pub half_of : Planet F → Cargo
  half_of p = record {
    metal = trunc (div p.metal (of_int (pos 2)));
    crystal = trunc (div p.crystal (of_int (pos 2)));
    deuterium = trunc (div p.deuterium (of_int (pos 2)));
  }

  -- What the attacker takes.
  unfoldable pub loot_of : Fleet → Planet F → Dict ℤ → Cargo
  unfolding half_of distribute cap_remaining
  loot_of f p survivors = distribute (cap_remaining survivors f) (half_of p)

  -- `result.Winner == "attacker" && totalSurvivors > 0`
  unfoldable pub takes_loot : CombatResult → Dict ℤ → Bool
  unfolding total_of
  takes_loot result survivors =
      elim result.winner [ attacker ↦ true | _ ↦ false ] && ltb_ℤ (pos 0) (total_of survivors)

  -- The debit of the defender's pools and the credit of the fleet's cargo
  unfoldable pub take_loot : Clock → Fleet → Planet F → Cargo → World F → World F
  take_loot clock f p loot w =
      update_fleet_cargo f.id (f.cargo_metal +ℤ loot.metal) (f.cargo_crystal +ℤ loot.crystal)
        (f.cargo_deuterium +ℤ loot.deuterium)
        (update_planet_resources p.id (sub p.metal (of_int loot.metal))
          (sub p.crystal (of_int loot.crystal)) (sub p.deuterium (of_int loot.deuterium))
          clock.updated_at w)

  -- The combat of a fleet's ships with what stands on a planet.
  unfoldable pub combat_at : Fleet → Planet F → World F → CombatResult
  combat_at f p w =
      let theirs = w.researches f.owner_id in
      let ours = w.researches p.owner_user_id in
      simulate_combat fl
        (build_units_from_ships fl (list_fleet_ships f.id w) (level theirs tech_weapons)
          (level theirs tech_shielding) (level theirs tech_armour))
        (build_units_from_ships fl (w.ships p.id) (level ours tech_weapons)
          (level ours tech_shielding) (level ours tech_armour))
        (build_units_from_defenses fl (w.defenses p.id) (level ours tech_weapons)
          (level ours tech_shielding) (level ours tech_armour))

  -- The two reports and the message to the defender
  unfoldable pub report_combat : Clock → Fleet → Planet F → CombatResult → Cargo → World F → World F
  report_combat clock f p result loot w =
      let payload = combat_payload result loot.metal loot.crystal loot.deuterium in
      insert_message clock.db_now none p.owner_user_id
        (planet_attacked p.name p.galaxy p.system p.position) "combat"
        (insert_report clock.db_now p.owner_user_id "combat" payload f
          (insert_report clock.db_now f.owner_id "combat" payload f w))

  -- The part of `resolveAttack` that follows the losses.
  unfoldable pub conclude_attack :
      Clock → Fleet → Planet F → CombatResult → Dict ℤ → Tx (World F) (Unit {0})
  unfolding loot_of takes_loot take_loot report_combat mark_attack_returning total_of
  conclude_attack clock f p result survivors = do
    let loot = if takes_loot result survivors then loot_of f p survivors else no_cargo
    modify (λ w. if takes_loot result survivors then take_loot clock f p loot w else w)
    modify (report_combat clock f p result loot)
    (if eqb_ℤ (total_of survivors) (pos 0)
        then modify (delete_fleet f.id)
        else mark_attack_returning clock f)

  -- The part of `resolveAttack` that follows the first read of the target.
  unfoldable pub battle : Clock → Fleet → ℕ → Planet F → Tx (World F) (Unit {0})
  unfolding conclude_attack combat_at surviving apply_attacker_losses apply_ship_losses
      apply_defense_losses refreshed_planet
  battle clock f k p = do
    r ← refreshed_planet fl clock k p.id
    ships ← gets (list_fleet_ships f.id)
    result ← gets (combat_at f r)
    let survivors = surviving result.attacker_destroyed ships
    apply_attacker_losses f.id ships survivors
    modify (apply_ship_losses r.id result.defender_ships_destroyed)
    modify (apply_defense_losses r.id result.defender_defenses_destroyed)
    conclude_attack clock f r result survivors

  -- `resolveAttack`
  unfoldable pub resolve_attack : Clock → Fleet → Tx (World F) (Unit {0})
  unfolding battle at_target mark_attack_returning
  resolve_attack clock f = do
    ships ← gets (list_fleet_ships f.id)
    elim ships [
      | [] ↦ mark_attack_returning clock f
      | _ ∷ _ ↦ at_target fl clock f (battle clock f)
    ]

-- `mergeLossMaps`, of which the body of a combat report is made
unfoldable pub merge_into : Dict ℤ → Dict ℤ → Dict ℤ
merge_into out [] = out
merge_into out ((k, v) ∷ losses) = merge_into (insert k (level out k +ℤ v) out) losses

unfoldable pub merge_loss_maps : Dict ℤ → Dict ℤ → Dict ℤ
unfolding merge_into
merge_loss_maps a b = merge_into (merge_into [] a) b
