-- ===== src/Scheduler/Fleet/Fights.antt =====
-- How an espionage and an attack end for the fleet (`internal/scheduler/fleet.go`).
use terminal_army_go.Base.{
  ℕ, ◌≡◌, refl, sym, ap, ◌∙◌, Bool, true, false, [], ◌∷◌, some, Bool-cases, inl, inr, if◌then◌else◌,
}
use terminal_army_go.Int.{ℤ, pos, ◌+ℤ◌, ltb_ℤ, eqb_ℤ}
use terminal_army_go.Dict.{Dict, level}
use terminal_army_go.Float.{Float64}
use terminal_army_go.Game.Techs.{tech_espionage}
use terminal_army_go.Game.Ships.{ship_espionage_probe}
use terminal_army_go.Game.Combat.{CombatResult}
use terminal_army_go.Store.Tx.{Tx, ok, err≢ok, ok_state, >>=-eq-ok}
use terminal_army_go.Store.Rows.{Fleet, Planet, World, empty_slot}
use terminal_army_go.Store.Planets.{add_ships, add_defenses, get_planet, update_planet_resources}
use terminal_army_go.Store.Fleets.{
  get_fleet, list_fleet_ships, set_fleet_ship_count, update_fleet_cargo, with_cargo,
}
use terminal_army_go.Store.Fleets.Lookup.{get_fleet-updated}
use terminal_army_go.Store.Messages.{insert_message, insert_report}
use terminal_army_go.Svc.Fleet.{Cargo, no_cargo}
use terminal_army_go.Scheduler.Fleet.{Clock, at_target, mark_attack_returning, refreshed_planet}
use terminal_army_go.Scheduler.Fleet.Delivery.{refreshed-get_fleet, refreshed_planet-eq-ok}
use terminal_army_go.Scheduler.Fleet.Espionage.{end_espionage, resolve_espionage, spy_on}
use terminal_army_go.Scheduler.Fleet.Attack.{
  apply_attacker_losses, apply_defense_losses, apply_ship_losses, battle, combat_at,
  conclude_attack, loot_of, report_combat, resolve_attack, surviving, take_loot, takes_loot,
  total_of,
}
use terminal_army_go.Scheduler.Fleet.Endings.{
  Ended, at_target-Ended, by_option, deleted, turned_back,
}
use terminal_army_go.Scheduler.Fleet.Founding.{get_fleet-insert_report}

module _ (fl : Float64) where
  open fl use {F, of_int, sub}

  end_espionage-Ended :
      (clock : Clock) (f g : Fleet) (p : Planet F) (caught : Bool) (w w' : World F)
      → get_fleet f.id w ≡ some g
      → end_espionage fl clock f p caught w ≡ ok (tt, w')
      → Ended clock f w'
  unfolding end_espionage
  end_espionage-Ended clock f g p true w w' flying h = deleted clock f _ w' h
  end_espionage-Ended clock f g p false w w' flying h = turned_back fl clock f g w w' flying h

  spy_on-Ended :
      (clock : Clock) (roll : F) (probes spy : ℤ) (f g : Fleet) (k : ℕ) (p : Planet F)
      (w w' : World F)
      → get_planet k w ≡ some p
      → get_fleet f.id w ≡ some g
      → spy_on fl clock roll probes spy f k p w ≡ ok (tt, w')
      → Ended clock f w'
  unfolding spy_on
  spy_on-Ended clock roll probes spy f g k p w w' found flying h =
      let (r, w1, e1, h1) = >>=-eq-ok (refreshed_planet fl clock k p.id) _ w h in
      let ready = refreshed_planet-eq-ok fl clock k p r w w1 found e1 in
      end_espionage-Ended clock f g r _ _ w'
        (get_fleet-insert_report fl f.id clock.db_now f.owner_id "espionage" _ f w1
          ∙ refreshed-get_fleet fl clock f.id k r w w1 ready
          ∙ flying)
        h1

  pub resolve_espionage-Ended :
      (clock : Clock) (roll : F) (f g : Fleet) (w w' : World F)
      → get_fleet f.id w ≡ some g
      → resolve_espionage fl clock roll f w ≡ ok (tt, w')
      → Ended clock f w'
  unfolding resolve_espionage
  resolve_espionage-Ended clock roll f g w w' flying h =
      let spy = level (w.researches f.owner_id) tech_espionage in
      let probes = level (list_fleet_ships f.id w) ship_espionage_probe in
      elim (by_option f.target_planet_id _ _ w h) [
        | inl (_, h') ↦
            turned_back fl clock f g _ w'
              (get_fleet-insert_report fl f.id clock.db_now f.owner_id "espionage" empty_slot f w
                ∙ flying)
              h'
        | inr (k, _, h') ↦ elim (by_option (get_planet k w) _ _ w h') [
          | inl (_, h'') ↦ turned_back fl clock f g w w' flying h''
          | inr (p, found, h'') ↦ spy_on-Ended clock roll probes spy f g k p w w' found flying h''
        ]
      ]

  -- The losses of the attacker can only be written where there are none.
  apply_attacker_losses-keeps :
      (k : ℕ) (ships survivors : Dict ℤ) (w w' : World F)
      → apply_attacker_losses k ships survivors w ≡ ok (tt, w')
      → w' ≡ w
  unfolding apply_attacker_losses set_fleet_ship_count
  apply_attacker_losses-keeps k [] survivors w w' h = sym (ok_state h)
  apply_attacker_losses-keeps k (_ ∷ _) [] w w' h = sym (ok_state h)
  apply_attacker_losses-keeps k ((name, before) ∷ ships) ((_, remaining) ∷ survivors) w w' h =
      elim (Bool-cases (eqb_ℤ remaining before)) [
        | inl unhurt ↦
            apply_attacker_losses-keeps k ships survivors w w'
              (rw (unhurt, apply_attacker_losses) at h)
        | inr hurt ↦ absurd (err≢ok (rw (hurt, apply_attacker_losses) at h))
      ]

  fleet-apply_ship_losses :
      (j k : ℕ) (losses : Dict ℤ) (w : World F)
      → get_fleet j (apply_ship_losses k losses w) ≡ get_fleet j w
  unfolding apply_ship_losses get_fleet add_ships
  fleet-apply_ship_losses j k [] w = refl
  fleet-apply_ship_losses j k ((name, killed) ∷ losses) w =
      fleet-apply_ship_losses j k losses _ ∙ elim (Bool-cases (ltb_ℤ (pos 0) killed)) [
        | inl some_lost ↦ rw some_lost refl
        | inr none_lost ↦ rw none_lost refl
      ]

  fleet-apply_defense_losses :
      (j k : ℕ) (losses : Dict ℤ) (w : World F)
      → get_fleet j (apply_defense_losses k losses w) ≡ get_fleet j w
  unfolding apply_defense_losses get_fleet add_defenses
  fleet-apply_defense_losses j k [] w = refl
  fleet-apply_defense_losses j k ((name, killed) ∷ losses) w =
      fleet-apply_defense_losses j k losses _ ∙ elim (Bool-cases (ltb_ℤ (pos 0) killed)) [
        | inl some_lost ↦ rw some_lost refl
        | inr none_lost ↦ rw none_lost refl
      ]

  fleet-report_combat :
      (j : ℕ) (clock : Clock) (f : Fleet) (p : Planet F) (result : CombatResult) (loot : Cargo)
      (w : World F)
      → get_fleet j (report_combat fl clock f p result loot w) ≡ get_fleet j w
  unfolding report_combat get_fleet insert_message insert_report
  fleet-report_combat j clock f p result loot w = refl

  -- The fleet's row with the loot.
  fleet-take_loot :
      (clock : Clock) (f g : Fleet) (p : Planet F) (loot : Cargo) (w : World F)
      → get_fleet f.id w ≡ some g
      → get_fleet f.id (take_loot fl clock f p loot w)
        ≡ some (
            with_cargo
              (f.cargo_metal +ℤ loot.metal)
              (f.cargo_crystal +ℤ loot.crystal)
              (f.cargo_deuterium +ℤ loot.deuterium)
              g)
  unfolding take_loot update_fleet_cargo update_planet_resources get_fleet
  fleet-take_loot clock f g p loot w flying =
      get_fleet-updated f.id
        (with_cargo (f.cargo_metal +ℤ loot.metal) (f.cargo_crystal +ℤ loot.crystal)
          (f.cargo_deuterium +ℤ loot.deuterium))
        (update_planet_resources p.id (sub p.metal (of_int loot.metal))
          (sub p.crystal (of_int loot.crystal)) (sub p.deuterium (of_int loot.deuterium))
          clock.updated_at w)
        g (λ x. refl) flying

  abbrev Flying : Fleet → World F → Type 0
  Flying f w = (g : Fleet) × (get_fleet f.id w ≡ some g)

  looted-Flying :
      (clock : Clock) (f g : Fleet) (p : Planet F) (loot : Cargo) (taking : Bool) (w : World F)
      → get_fleet f.id w ≡ some g
      → Flying f (if taking then take_loot fl clock f p loot w else w)
  looted-Flying clock f g p loot true w flying = (
    with_cargo (f.cargo_metal +ℤ loot.metal) (f.cargo_crystal +ℤ loot.crystal)
        (f.cargo_deuterium +ℤ loot.deuterium) g,
    fleet-take_loot clock f g p loot w flying,
  )
  looted-Flying clock f g p loot false w flying = (g, flying)

  conclude_attack-Ended :
      (clock : Clock) (f g : Fleet) (p : Planet F) (result : CombatResult) (survivors : Dict ℤ)
      (w w' : World F)
      → get_fleet f.id w ≡ some g
      → conclude_attack fl clock f p result survivors w ≡ ok (tt, w')
      → Ended clock f w'
  unfolding conclude_attack
  conclude_attack-Ended clock f g p result survivors w w' flying h =
      let loot = if takes_loot fl result survivors then loot_of fl f p survivors else no_cargo in
      let (g', aloft) = looted-Flying clock f g p loot (takes_loot fl result survivors) w flying in
      let v = if takes_loot fl result survivors then take_loot fl clock f p loot w else w in
      elim (Bool-cases (eqb_ℤ (total_of survivors) (pos 0))) [
        | inl all_lost ↦
            deleted clock f (report_combat fl clock f p result loot v) w'
              (rw (all_lost, conclude_attack) at h)
        | inr some_left ↦
            turned_back fl clock f g' (report_combat fl clock f p result loot v) w'
              (fleet-report_combat f.id clock f p result loot v ∙ aloft)
              (rw (some_left, conclude_attack) at h)
      ]

  battle-Ended :
      (clock : Clock) (f g : Fleet) (k : ℕ) (p : Planet F) (w w' : World F)
      → get_planet k w ≡ some p
      → get_fleet f.id w ≡ some g
      → battle fl clock f k p w ≡ ok (tt, w')
      → Ended clock f w'
  unfolding battle
  battle-Ended clock f g k p w w' found flying h =
      let (r, w1, e1, h1) = >>=-eq-ok (refreshed_planet fl clock k p.id) _ w h in
      let ready = refreshed_planet-eq-ok fl clock k p r w w1 found e1 in
      let result = combat_at fl f r w1 in
      let ships = list_fleet_ships f.id w1 in
      let survivors = surviving result.attacker_destroyed ships in
      let (_, w2, e2, h2) = >>=-eq-ok (apply_attacker_losses f.id ships survivors) _ w1 h1 in
      let same = apply_attacker_losses-keeps f.id ships survivors w1 w2 e2 in
      conclude_attack-Ended clock f g r result survivors _ w'
        (fleet-apply_defense_losses f.id r.id result.defender_defenses_destroyed _
          ∙ fleet-apply_ship_losses f.id r.id result.defender_ships_destroyed w2
          ∙ ap (get_fleet f.id) same
          ∙ refreshed-get_fleet fl clock f.id k r w w1 ready
          ∙ flying)
        h2

  pub resolve_attack-Ended :
      (clock : Clock) (f g : Fleet) (w w' : World F)
      → get_fleet f.id w ≡ some g
      → resolve_attack fl clock f w ≡ ok (tt, w')
      → Ended clock f w'
  unfolding resolve_attack
  resolve_attack-Ended clock f g w w' flying h = by_ships (list_fleet_ships f.id w) h
    where
      by_ships :
          (ships : Dict ℤ)
          → (elim ships as (λ _. Tx (World F) (Unit {0})) [
            | [] ↦ mark_attack_returning clock f
            | _ ∷ _ ↦ at_target fl clock f (battle fl clock f)
          ])
              w
            ≡ ok (tt, w')
          → Ended clock f w'
      by_ships [] h' = turned_back fl clock f g w w' flying h'
      by_ships (_ ∷ _) h' =
          at_target-Ended fl clock f g (battle fl clock f) w w' flying
            (λ k p found e. battle-Ended clock f g k p w w' found flying e) h'
