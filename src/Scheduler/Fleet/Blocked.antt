-- ===== src/Scheduler/Fleet/Blocked.antt =====
-- Colonisation with the code that `generatePlanetCode` makes, and what a sweep is after an error of
-- PostgreSQL (`internal/scheduler/fleet.go`).
use Prim.Native.String.{String, count}
use terminal_army_go.Base.{
  ltb, lt→ltb, arith, ◌≡◌, refl, ap, ◌∙◌, true, List, ◌∷◌, length, Option, none, some,
}
use terminal_army_go.Int.{ℤ, pos}
use terminal_army_go.Dict.{level}
use terminal_army_go.Float.{Float64}
use terminal_army_go.Game.Techs.{tech_astrophysics}
use terminal_army_go.Game.Colonization.{
  PlanetAttributes, colonize_rejection, generate_planet_attributes,
}
use terminal_army_go.Store.Tx.{
  Error, Tx, fail_if-true, err, value_too_long, not_found, invalid_position, fetch-some,
  or_fail-some, in_tx,
}
use terminal_army_go.Store.Rows.{Fleet, Universe, World}
use terminal_army_go.Store.Planets.{get_universe, get_planet_by_coord}
use terminal_army_go.Store.Colonies.{
  create_planet, code_width, is_slot_taken, list_planets_by_owner,
}
use terminal_army_go.Store.Fleets.{list_due_arrivals}
use terminal_army_go.Scheduler.{batch_size}
use terminal_army_go.Scheduler.Fleet.{Clock}
use terminal_army_go.Scheduler.Fleet.Colonize.{
  Naming, colonize_slot, colony_row, found_colony, resolve_colonize,
}
use terminal_army_go.Scheduler.Fleet.Codes.{count-generate_planet_code, generate_planet_code}
use terminal_army_go.Scheduler.Fleet.Arrivals.{aborts, arrival_sweep, each_fleet, handle_arrival}

elim_none :
    {A B : Type 0} (o : Option A) (x : B) (g : A → B)
    → o ≡ none
    → (elim o [ none ↦ x | some a ↦ g a ]) ≡ x
elim_none none x g h = refl
elim_none (some a) x g h = cc

-- A transaction that ends in an error changes nothing.
rolled_back : {W A : Type 0} (m : Tx W A) (w : W) {e : Error} → m w ≡ err e → (in_tx m w).1 ≡ w
unfolding in_tx
rolled_back m w h = rw (h, in_tx) refl

module _ {S : Type 0} (naming : Naming S) (fl : Float64) where
  open fl use {F}
  open naming use {unix_nano, intn, seed}

  -- The target's slot is free, and the owner may colonise it.
  abbrev pub MayColonize : Fleet → World F → Type 0
  MayColonize f w =
      (u : Universe) × (rolled : PlanetAttributes F × S) × (get_universe f.universe_id w ≡ some u)
      × (get_planet_by_coord f.universe_id f.target_galaxy f.target_system f.target_position w
          ≡ none)
      × (colonize_rejection (level (w.researches f.owner_id) tech_astrophysics)
            (pos (length (list_planets_by_owner f.owner_id w))) f.target_position
          ≡ none)
      × (generate_planet_attributes fl intn f.target_position seed ≡ some rolled)

  create_planet-too_long :
      (clock : Clock) (f : Fleet) (attrs : PlanetAttributes F) (w : World F)
      → create_planet count (colony_row naming fl clock f attrs) w ≡ err value_too_long
  unfolding create_planet colony_row
  create_planet-too_long clock f attrs w =
      let code =
        generate_planet_code f.universe_id f.target_galaxy f.target_system f.target_position
          unix_nano in
      let long : ltb code_width (count code) ≡ true = lt→ltb code_width (count code) (
        omega (
          arith,
          count-generate_planet_code f.universe_id f.target_galaxy f.target_system f.target_position
              unix_nano,
        )) in
      fail_if-true _ value_too_long _ w long

  found_colony-too_long :
      (clock : Clock) (f : Fleet) (attrs : PlanetAttributes F) (w : World F)
      → found_colony naming fl clock f attrs w ≡ err value_too_long
  unfolding found_colony is_slot_taken
  found_colony-too_long clock f attrs w =
      rw (create_planet-too_long clock f attrs w, found_colony) refl

  resolve_colonize-too_long :
      (clock : Clock) (f : Fleet) (w : World F)
      → MayColonize f w
      → resolve_colonize naming fl clock f w ≡ err value_too_long
  unfolding resolve_colonize colonize_slot
  resolve_colonize-too_long clock f w (u, rolled, known, free, allowed, roll) =
      fetch-some (get_universe f.universe_id) u not_found _ w known
      ∙ ap (λ (t : Tx (World F) (Unit {0})). t w)
          (elim_none _ (colonize_slot naming fl clock f) _ free)
      ∙ ap (λ (t : Tx (World F) (Unit {0})). t w) (elim_none _ _ _ allowed)
      ∙ or_fail-some _ rolled invalid_position _ w roll
      ∙ found_colony-too_long clock f rolled.0 w

  handle_arrival-colonize :
      (lower : String → String) (clock : Clock) (roll : F) (f : Fleet)
      → lower f.mission ≡ "colonize"
      → handle_arrival naming fl lower clock roll f ≡ resolve_colonize naming fl clock f
  unfolding handle_arrival
  handle_arrival-colonize lower clock roll f mission = rw mission refl

  each_fleet-aborted :
      (handle : Fleet → Tx (World F) (Unit {0})) (f : Fleet) (due : List Fleet) (w : World F)
      → handle f w ≡ err value_too_long
      → each_fleet handle (f ∷ due) w ≡ err value_too_long
  unfolding each_fleet aborts
  each_fleet-aborted handle f due w failed = rw (failed, each_fleet) refl

  -- Where the first due arrival is a colonisation of a free slot that its owner may colonise: the code
  -- for the colony does not fit its column, and the sweep leaves the database as it was, all other due
  -- fleets included.
  pub arrival_sweep-blocked :
      (lower : String → String) (now : ℤ) (clocks : Fleet → Clock) (rolls : Fleet → F) (f : Fleet)
      (due : List Fleet) (w : World F)
      → list_due_arrivals now batch_size w ≡ f ∷ due
      → lower f.mission ≡ "colonize"
      → MayColonize f w
      → arrival_sweep naming fl lower now clocks rolls w ≡ w
  unfolding arrival_sweep in_tx
  arrival_sweep-blocked lower now clocks rolls f due w first mission may =
      let handle = λ (g : Fleet). handle_arrival naming fl lower (clocks g) (rolls g) g in
      let failed : handle f w ≡ err value_too_long =
        ap (λ (t : Tx (World F) (Unit {0})). t w)
          (handle_arrival-colonize lower (clocks f) (rolls f) f mission)
        ∙ resolve_colonize-too_long (clocks f) f w may in
      ap (λ rows. (in_tx (each_fleet handle rows) w).1) first
      ∙ rolled_back (each_fleet handle (f ∷ due)) w (each_fleet-aborted handle f due w failed)
