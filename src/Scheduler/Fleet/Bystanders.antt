-- ===== src/Scheduler/Fleet/Bystanders.antt =====
-- Every handler leaves the rows of all other fleets alone (`internal/scheduler/fleet.go`, and `Recall` of
-- `internal/svc/fleet.go`).
use terminal_army_go.Base.{ℕ, ◌≡◌, refl, ◌∙◌, Bool, [], ◌∷◌, none, if◌then◌else◌}
use terminal_army_go.Int.{ℤ, pos, ◌+ℤ◌, ◌-ℤ◌, eqb_ℤ, ltb_ℤ}
use terminal_army_go.Dict.{Dict, level}
use terminal_army_go.Float.{Float64}
use terminal_army_go.Game.Combat.{CombatResult}
use terminal_army_go.Game.Fleet.{counter_espionage_chance, espionage_info_level}
use terminal_army_go.Game.Ships.{ship_espionage_probe}
use terminal_army_go.Game.Techs.{tech_espionage}
use terminal_army_go.Store.Tx.{Tx, err≢ok, gets}
use terminal_army_go.Store.Rows.{Fleet, Planet, World, empty_slot, probes_destroyed}
use terminal_army_go.Store.Planets.{add_defenses, add_ships, get_planet, update_planet_resources}
use terminal_army_go.Store.Fleets.{
  get_fleet, list_fleet_ships, mark_return_processed, marked_returned, set_fleet_ship_count,
  update_fleet_cargo, with_cargo,
}
use terminal_army_go.Store.Fleets.Lookup.{get_fleet-update_other}
use terminal_army_go.Svc.Fleet.{Cargo, no_cargo}
use terminal_army_go.Scheduler.Fleet.{
  Clock, at_target, handle_return, mark_attack_returning, refreshed_planet, resolve_recycle, unload,
}
use terminal_army_go.Scheduler.Fleet.Espionage.{
  end_espionage, resolve_espionage, spy_on, spy_payload,
}
use terminal_army_go.Scheduler.Fleet.Attack.{
  apply_attacker_losses, apply_defense_losses, apply_ship_losses, battle, combat_at,
  conclude_attack, loot_of, report_combat, resolve_attack, surviving, take_loot, takes_loot,
  total_of,
}
use terminal_army_go.Scheduler.Fleet.Others.{
  Keeps, at_target-Keeps, bind-Keeps, case-Keeps, delete_fleet-Keeps, gets-Keeps, if-Keeps,
  if-keeps, insert_message-keeps, insert_report-keeps, landed-Keeps, mark_attack_returning-Keeps,
  modify-Keeps, option-Keeps, option-KeepsAt, pure-Keeps, refreshed_planet-Keeps,
}

module _ (fl : Float64) (j : ℕ) where
  open fl use {F, lt, sub, of_int}

  pub handle_return-Keeps :
      (clock : Clock) (f : Fleet) → ¬ (j ≡ f.id) → Keeps j (handle_return fl clock f)
  unfolding handle_return unload mark_return_processed
  handle_return-Keeps clock f other w =
      option-KeepsAt j w (get_planet f.origin_planet_id w) _ _ (delete_fleet-Keeps j f.id other w)
        (λ p.
          bind-Keeps j (refreshed_planet fl clock f.origin_planet_id p.id) _
            (refreshed_planet-Keeps fl j clock f.origin_planet_id p.id)
            (λ r.
              bind-Keeps j (gets (list_fleet_ships f.id)) _ (gets-Keeps j (list_fleet_ships f.id))
                (λ ships. landed-Keeps fl j clock f r ships _ (
                  modify-Keeps j _
                    (λ w. get_fleet-update_other j f.id marked_returned w (λ x. refl) other))))
            w)

  spied-Keeps :
      (clock : Clock) (f : Fleet) (p : Planet F) (caught : Bool)
      → ¬ (j ≡ f.id)
      → Keeps j (end_espionage fl clock f p caught)
  unfolding end_espionage
  spied-Keeps clock f p caught other =
      case-Keeps j caught _ _
        (bind-Keeps j _ _
          (modify-Keeps j _ (
            insert_message-keeps j clock.db_now none p.owner_user_id
              (probes_destroyed p.name p.galaxy p.system p.position) "espionage"))
          (λ _. delete_fleet-Keeps j f.id other))
        (mark_attack_returning-Keeps j clock f other)

  spy_on-Keeps :
      (clock : Clock) (roll : F) (probes spy : ℤ) (f : Fleet) (k : ℕ) (p : Planet F)
      → ¬ (j ≡ f.id)
      → Keeps j (spy_on fl clock roll probes spy f k p)
  unfolding spy_on
  spy_on-Keeps clock roll probes spy f k p other =
      bind-Keeps j (refreshed_planet fl clock k p.id) _ (refreshed_planet-Keeps fl j clock k p.id)
        (λ r.
          bind-Keeps j (gets (λ w. level (w.researches r.owner_user_id) tech_espionage)) _
            (gets-Keeps j _)
            (λ defender.
              let info = espionage_info_level probes spy defender in
              let counter = counter_espionage_chance fl probes defender spy in
              bind-Keeps j (gets (spy_payload fl info probes counter r)) _ (gets-Keeps j _)
                (λ payload.
                  bind-Keeps j _ _
                    (modify-Keeps j _
                      (insert_report-keeps j clock.db_now f.owner_id "espionage" payload f))
                    (λ _. spied-Keeps clock f r (lt roll counter) other))))

  pub resolve_espionage-Keeps :
      (clock : Clock) (roll : F) (f : Fleet)
      → ¬ (j ≡ f.id)
      → Keeps j (resolve_espionage fl clock roll f)
  unfolding resolve_espionage
  resolve_espionage-Keeps clock roll f other =
      let back = mark_attack_returning-Keeps j clock f other in
      bind-Keeps j (gets (λ w. level (w.researches f.owner_id) tech_espionage)) _ (gets-Keeps j _)
        (λ spy.
          bind-Keeps j (gets (λ w. level (list_fleet_ships f.id w) ship_espionage_probe)) _
            (gets-Keeps j _)
            (λ probes.
              option-Keeps j f.target_planet_id _ _
                (bind-Keeps j _ _
                  (modify-Keeps j _
                    (insert_report-keeps j clock.db_now f.owner_id "espionage" empty_slot f))
                  (λ _. back))
                (λ k. bind-Keeps j (gets (get_planet k)) _ (gets-Keeps j _) (λ target.
                  option-Keeps j target _ _ back
                    (λ p. spy_on-Keeps clock roll probes spy f k p other)))))

  pub resolve_recycle-Keeps :
      (clock : Clock) (f : Fleet) → ¬ (j ≡ f.id) → Keeps {F = F} j (resolve_recycle clock f)
  unfolding resolve_recycle
  resolve_recycle-Keeps clock f other = mark_attack_returning-Keeps j clock f other

  -- The loops of an attack.
  apply_attacker_losses-Keeps :
      (k : ℕ) (ships survivors : Dict ℤ) → Keeps {F = F} j (apply_attacker_losses k ships survivors)
  unfolding apply_attacker_losses set_fleet_ship_count
  apply_attacker_losses-Keeps k [] survivors = pure-Keeps j tt
  apply_attacker_losses-Keeps k (x ∷ ships) [] = pure-Keeps j tt
  apply_attacker_losses-Keeps k ((name, before) ∷ ships) ((_, remaining) ∷ survivors) =
      let rest = apply_attacker_losses-Keeps k ships survivors in
      if-Keeps j (eqb_ℤ remaining before) _ _ rest (
        bind-Keeps j (set_fleet_ship_count k name remaining) _ (λ w w' a h. absurd (err≢ok h))
          (λ _. rest))

  apply_ship_losses-keeps :
      (k : ℕ) (losses : Dict ℤ) (w : World F)
      → get_fleet j (apply_ship_losses k losses w) ≡ get_fleet j w
  unfolding apply_ship_losses get_fleet add_ships
  apply_ship_losses-keeps k [] w = refl
  apply_ship_losses-keeps k ((name, killed) ∷ losses) w =
      apply_ship_losses-keeps k losses _
      ∙ if-keeps j (ltb_ℤ (pos 0) killed) w (add_ships k name (pos 0 -ℤ killed) w) refl

  apply_defense_losses-keeps :
      (k : ℕ) (losses : Dict ℤ) (w : World F)
      → get_fleet j (apply_defense_losses k losses w) ≡ get_fleet j w
  unfolding apply_defense_losses get_fleet add_defenses
  apply_defense_losses-keeps k [] w = refl
  apply_defense_losses-keeps k ((name, killed) ∷ losses) w =
      apply_defense_losses-keeps k losses _
      ∙ if-keeps j (ltb_ℤ (pos 0) killed) w (add_defenses k name (pos 0 -ℤ killed) w) refl

  take_loot-keeps :
      (clock : Clock) (f : Fleet) (p : Planet F) (loot : Cargo) (w : World F)
      → ¬ (j ≡ f.id)
      → get_fleet j (take_loot fl clock f p loot w) ≡ get_fleet j w
  unfolding take_loot update_fleet_cargo get_fleet update_planet_resources
  take_loot-keeps clock f p loot w other =
      get_fleet-update_other j f.id
        (with_cargo (f.cargo_metal +ℤ loot.metal) (f.cargo_crystal +ℤ loot.crystal)
          (f.cargo_deuterium +ℤ loot.deuterium))
        (update_planet_resources p.id (sub p.metal (of_int loot.metal))
          (sub p.crystal (of_int loot.crystal)) (sub p.deuterium (of_int loot.deuterium))
          clock.updated_at w)
        (λ x. refl) other

  report_combat-keeps :
      (clock : Clock) (f : Fleet) (p : Planet F) (result : CombatResult) (loot : Cargo)
      (w : World F)
      → get_fleet j (report_combat fl clock f p result loot w) ≡ get_fleet j w
  unfolding report_combat
  report_combat-keeps clock f p result loot w =
      insert_message-keeps j _ _ _ _ _ _
      ∙ insert_report-keeps j _ _ _ _ _ _
      ∙ insert_report-keeps j _ _ _ _ _ _

  conclude_attack-Keeps :
      (clock : Clock) (f : Fleet) (p : Planet F) (result : CombatResult) (survivors : Dict ℤ)
      → ¬ (j ≡ f.id)
      → Keeps j (conclude_attack fl clock f p result survivors)
  unfolding conclude_attack
  conclude_attack-Keeps clock f p result survivors other =
      let loot = if takes_loot fl result survivors then loot_of fl f p survivors else no_cargo in
      bind-Keeps j _ _
        (modify-Keeps j _ (λ w.
          if-keeps j (takes_loot fl result survivors) w _ (take_loot-keeps clock f p loot w other)))
        (λ _. bind-Keeps j _ _ (modify-Keeps j _ (report_combat-keeps clock f p result loot)) (λ _.
          if-Keeps j (eqb_ℤ (total_of survivors) (pos 0)) _ _ (delete_fleet-Keeps j f.id other)
            (mark_attack_returning-Keeps j clock f other)))

  battle-Keeps :
      (clock : Clock) (f : Fleet) (k : ℕ) (p : Planet F)
      → ¬ (j ≡ f.id)
      → Keeps j (battle fl clock f k p)
  unfolding battle
  battle-Keeps clock f k p other =
      bind-Keeps j (refreshed_planet fl clock k p.id) _ (refreshed_planet-Keeps fl j clock k p.id)
        (λ r. bind-Keeps j (gets (list_fleet_ships f.id)) _ (gets-Keeps j _) (λ ships.
          bind-Keeps j (gets (combat_at fl f r)) _ (gets-Keeps j _) (λ result.
            let survivors = surviving result.attacker_destroyed ships in
            bind-Keeps j _ _ (apply_attacker_losses-Keeps f.id ships survivors) (λ _.
              bind-Keeps j _ _
                (modify-Keeps j _ (apply_ship_losses-keeps r.id result.defender_ships_destroyed))
                (λ _.
                  bind-Keeps j _ _
                    (modify-Keeps j _
                      (apply_defense_losses-keeps r.id result.defender_defenses_destroyed))
                    (λ _. conclude_attack-Keeps clock f r result survivors other))))))

  pub resolve_attack-Keeps :
      (clock : Clock) (f : Fleet) → ¬ (j ≡ f.id) → Keeps j (resolve_attack fl clock f)
  unfolding resolve_attack
  resolve_attack-Keeps clock f other =
      bind-Keeps j (gets (list_fleet_ships f.id)) _ (gets-Keeps j _) (λ ships. with_ships ships)
    where
      with_ships :
          (ships : Dict ℤ)
          → Keeps j (elim ships as (λ _. Tx (World F) (Unit {0})) [
            | [] ↦ mark_attack_returning clock f
            | _ ∷ _ ↦ at_target fl clock f (battle fl clock f)
          ])
      with_ships [] = mark_attack_returning-Keeps j clock f other
      with_ships (_ ∷ _) =
          at_target-Keeps fl j clock f _ other (λ k p. battle-Keeps clock f k p other)
