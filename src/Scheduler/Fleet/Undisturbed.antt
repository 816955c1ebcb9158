-- ===== src/Scheduler/Fleet/Undisturbed.antt =====
-- A colonisation, the choice between the missions and a recall leave the rows of all other fleets alone
-- (`internal/scheduler/fleet.go`, and `Recall` of `internal/svc/fleet.go`).
use Prim.Native.String.{String, count}
use text.Mathlib.Text.{◌==◌ as str_eq}
use terminal_army_go.Base.{
  ℕ, ◌==◌, ◌≡◌, refl, sym, ap, ◌∙◌, Bool, true, false, not, length, none, some, suc, ◌++◌, [], ◌∷◌,
  ltb,
}
use terminal_army_go.Int.{ℤ, pos}
use terminal_army_go.Dict.{level}
use terminal_army_go.Float.{Float64}
use terminal_army_go.Game.Colonization.{
  PlanetAttributes, colonize_rejection, generate_planet_attributes,
}
use terminal_army_go.Game.Techs.{tech_astrophysics}
use terminal_army_go.Store.Tx.{
  Error, Result, Tx, ok, err, err≢ok, fail_if, fetch, fetch-eq-ok, gets, invalid_position, modify,
  not_found, forbidden, not_recallable, or_fail, ok_state, unique_violation, value_too_long,
  >>=-eq-ok,
}
use terminal_army_go.Store.Rows.{
  Fleet, Notice, Planet, World, colony_founded, colony_rejected, slot_just_taken, slot_occupied,
}
use terminal_army_go.Store.Planets.{get_planet_by_coord, get_universe}
use terminal_army_go.Store.Colonies.{
  code_width, create_planet, get_planet_by_code, is_slot_taken, is_some, new_planet,
  list_planets_by_owner,
}
use terminal_army_go.Store.Fleets.{get_fleet, list_fleet_ships, set_fleet_return, set_fleet_status}
use terminal_army_go.Store.Fleets.Lookup.{get_fleet-id, get_fleet-update_other}
use terminal_army_go.Svc.Fleet.{fleet_to_public}
use terminal_army_go.Svc.Fleet.Recall.{recall, time_of_return}
use terminal_army_go.Scheduler.Fleet.{Clock}
use terminal_army_go.Scheduler.Fleet.Colonize.{
  Naming, bounce, colonize_slot, colony_row, found_colony, populate, resolve_colonize,
  without_colony_ship,
}
use terminal_army_go.Scheduler.Fleet.Arrivals.{handle_arrival}
use terminal_army_go.Scheduler.Fleet.Others.{
  Keeps, KeepsAt, bind-Keeps, delete_fleet-Keeps, fail_if-Keeps, fetch-Keeps, gets-Keeps, if-Keeps,
  insert_message-keeps, land_ships-keeps, mark_attack_returning-Keeps, modify-Keeps, option-Keeps,
  or_fail-Keeps, pure-Keeps, resolve_deploy-Keeps, resolve_transport-Keeps,
}
use terminal_army_go.Scheduler.Fleet.Bystanders.{
  resolve_attack-Keeps, resolve_espionage-Keeps, resolve_recycle-Keeps,
}

module _ {F : Type 0} (j : ℕ) where
  bounce-Keeps :
      (clock : Clock) (f : Fleet) (text : Notice)
      → ¬ (j ≡ f.id)
      → Keeps {F = F} j (bounce clock f text)
  unfolding bounce
  bounce-Keeps clock f text other =
      bind-Keeps j _ _
        (modify-Keeps j _ (insert_message-keeps j clock.db_now none f.owner_id text "colonization"))
        (λ _. mark_attack_returning-Keeps j clock f other)

  populate-Keeps :
      (clock : Clock) (f : Fleet) (created : Planet F)
      → ¬ (j ≡ f.id)
      → Keeps j (populate clock f created)
  unfolding populate
  populate-Keeps clock f created other =
      bind-Keeps j (gets (list_fleet_ships f.id)) _ (gets-Keeps j _) (λ ships.
        bind-Keeps j _ _
          (modify-Keeps j _ (land_ships-keeps j created.id (without_colony_ship ships)))
          (λ _.
            bind-Keeps j _ _
              (modify-Keeps j _ (
                insert_message-keeps j clock.db_now none f.owner_id
                  (colony_founded f.target_galaxy f.target_system f.target_position)
                  "colonization"))
              (λ _. delete_fleet-Keeps j f.id other)))

  -- The last statement of `create_planet`.
  abbrev added : Planet F → Tx (World F) (Planet F)
  added p w = ok (
    new_planet w.next_planet p,
    record w {
      planets = w.planets ++ (new_planet w.next_planet p ∷ []);
      next_planet = suc w.next_planet;
    },
  )

  create_planet-Keeps : (p : Planet F) → Keeps j (create_planet count p)
  unfolding create_planet get_fleet
  create_planet-Keeps p =
      bind-Keeps j _ _ (fail_if-Keeps j (ltb code_width (count p.code)) value_too_long) (λ _.
        bind-Keeps j (gets (λ w. get_planet_by_code p.code w.planets)) _ (gets-Keeps j _)
          (λ same_code.
            bind-Keeps j _ _ (fail_if-Keeps j (is_some same_code) unique_violation) (λ _.
              bind-Keeps j (gets (get_planet_by_coord p.universe_id p.galaxy p.system p.position)) _
                (gets-Keeps j _)
                (λ same_slot.
                  bind-Keeps j (fail_if (is_some same_slot) unique_violation) (λ _. added p)
                    (fail_if-Keeps j (is_some same_slot) unique_violation)
                    (λ _ w w' a h. ap (get_fleet j) (sym (ok_state h)))))))

  -- A recall of one fleet.
  pub recall-Keeps : (now : ℤ) (user k : ℕ) → ¬ (j ≡ k) → Keeps {F = F} j (recall now user k)
  unfolding recall set_fleet_status set_fleet_return
  recall-Keeps now user k other w w' out h =
      let (f, w1, found, h1) = >>=-eq-ok (fetch (get_fleet k) not_found) _ w h in
      let (there, same) = fetch-eq-ok (get_fleet k) not_found w w1 found in
      let apart : ¬ (j ≡ f.id) = λ e. other (e ∙ get_fleet-id k w there) in
      bind-Keeps j (fail_if (not (f.owner_id == user)) forbidden) _ (fail_if-Keeps j _ forbidden)
        (λ _.
          bind-Keeps j (fail_if (not (str_eq f.status "outbound")) not_recallable) _
            (fail_if-Keeps j _ not_recallable)
            (λ _.
              bind-Keeps j (modify (set_fleet_status f.id "returning")) _
                (modify-Keeps j _ (λ w.
                  get_fleet-update_other j f.id (λ f. record f { status = "returning" }) w
                    (λ x. refl) apart))
                (λ _.
                  bind-Keeps j (modify (set_fleet_return f.id (time_of_return now f.departure_at)))
                    _
                    (modify-Keeps j _ (λ w.
                      get_fleet-update_other j f.id
                        (λ g. record g { return_at = some (time_of_return now f.departure_at) }) w
                        (λ x. refl) apart))
                    (λ _.
                      bind-Keeps j (fetch (get_fleet f.id) not_found) _ (fetch-Keeps j _ not_found)
                        (λ g.
                          bind-Keeps j (gets (list_fleet_ships g.id)) _ (gets-Keeps j _)
                            (λ ships. pure-Keeps j (fleet_to_public g ships)))))))
        w1 w' out h1
      ∙ ap (get_fleet j) same

module _ {S : Type 0} (naming : Naming S) (fl : Float64) (j : ℕ) where
  open fl use {F}
  open naming use {intn, seed}

  found_colony-Keeps :
      (clock : Clock) (f : Fleet) (attrs : PlanetAttributes F)
      → ¬ (j ≡ f.id)
      → Keeps j (found_colony naming fl clock f attrs)
  unfolding found_colony
  found_colony-Keeps clock f attrs other w =
      made (create_planet count (colony_row naming fl clock f attrs) w) refl
    where
      clash :
          (b : Bool) (e : Error)
          → KeepsAt j w (elim b as (λ _. Result (Unit {0} × World F)) [
            | true ↦
                bounce clock f (slot_just_taken f.target_galaxy f.target_system f.target_position) w
            | false ↦ err e
          ])
      clash true e = bounce-Keeps j clock f _ other w
      clash false e = λ w' a h. absurd (err≢ok h)

      made :
          (r : Result (Planet F × World F))
          → create_planet count (colony_row naming fl clock f attrs) w ≡ r
          → KeepsAt j w (elim r as (λ _. Result (Unit {0} × World F)) [
            | ok (created, v) ↦ populate clock f created v
            | err e ↦ elim (is_slot_taken e) as (λ _. Result (Unit {0} × World F)) [
              | true ↦
                  bounce clock f
                    (slot_just_taken f.target_galaxy f.target_system f.target_position)
                    w
              | false ↦ err e
            ]
          ])
      made (ok (created, v)) run = λ w' a h.
          populate-Keeps j clock f created other v w' a h
          ∙ create_planet-Keeps j (colony_row naming fl clock f attrs) w v created run
      made (err e) run = clash (is_slot_taken e) e

  colonize_slot-Keeps :
      (clock : Clock) (f : Fleet) → ¬ (j ≡ f.id) → Keeps j (colonize_slot naming fl clock f)
  unfolding colonize_slot
  colonize_slot-Keeps clock f other =
      bind-Keeps j (gets (λ w. level (w.researches f.owner_id) tech_astrophysics)) _
        (gets-Keeps j _)
        (λ astro.
          bind-Keeps j (gets (λ w. pos (length (list_planets_by_owner f.owner_id w)))) _
            (gets-Keeps j _)
            (λ owned.
              option-Keeps j (colonize_rejection astro owned f.target_position) _ _
                (bind-Keeps j
                  (or_fail (generate_planet_attributes fl intn f.target_position seed)
                    invalid_position)
                  _ (or_fail-Keeps j _ invalid_position)
                  (λ rolled. found_colony-Keeps clock f rolled.0 other))
                (λ reason. bounce-Keeps j clock f (colony_rejected reason) other)))

  resolve_colonize-Keeps :
      (clock : Clock) (f : Fleet) → ¬ (j ≡ f.id) → Keeps j (resolve_colonize naming fl clock f)
  unfolding resolve_colonize
  resolve_colonize-Keeps clock f other =
      bind-Keeps j (fetch (get_universe f.universe_id) not_found) _ (fetch-Keeps j _ not_found)
        (λ _.
          bind-Keeps j
            (gets
              (get_planet_by_coord f.universe_id f.target_galaxy f.target_system f.target_position))
            _ (gets-Keeps j _)
            (λ occupied. option-Keeps j occupied _ _ (colonize_slot-Keeps clock f other) (λ _.
              bounce-Keeps j clock f
                (slot_occupied f.target_galaxy f.target_system f.target_position) other)))

  -- The handling of the arrival of one fleet.
  pub handle_arrival-Keeps :
      (lower : String → String) (clock : Clock) (roll : F) (f : Fleet)
      → ¬ (j ≡ f.id)
      → Keeps j (handle_arrival naming fl lower clock roll f)
  unfolding handle_arrival
  handle_arrival-Keeps lower clock roll f other =
      let mission = lower f.mission in
      if-Keeps j (str_eq mission "attack") _ _ (resolve_attack-Keeps fl j clock f other) (
        if-Keeps j (str_eq mission "transport") _ _ (resolve_transport-Keeps fl j clock f other) (
          if-Keeps j (str_eq mission "deploy") _ _ (resolve_deploy-Keeps fl j clock f other) (
            if-Keeps j (str_eq mission "colonize") _ _ (resolve_colonize-Keeps clock f other) (
              if-Keeps j (str_eq mission "espionage") _ _
                (resolve_espionage-Keeps fl j clock roll f other)
                (if-Keeps j (str_eq mission "recycle") _ _
                  (resolve_recycle-Keeps fl j clock f other) (λ w w' a h. absurd (err≢ok h)))))))
