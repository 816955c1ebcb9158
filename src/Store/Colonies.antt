-- ===== src/Store/Colonies.antt =====
-- Creating, listing and counting planets (`internal/store/planets.go`).
use Prim.Native.String.{String}
use text.Mathlib.Text.{◌==◌ as str_eq}
use terminal_army_go.Base.{
  ℕ, suc, ◌==◌, ltb, ◌++◌, ◌≡◌, refl, Bool, true, false, ◌&&◌, ◌||◌, List, [], ◌∷◌, select, length,
  Option, none, some, if◌then◌else◌,
}
use terminal_army_go.Int.{ℤ, ltb_ℤ, eqb_ℤ}
use terminal_army_go.Store.Tx.{
  Tx, Error, ok, value_too_long, unique_violation, slot_taken, ◌>>=◌, ◌>>◌, gets, fail_if,
}
use terminal_army_go.Store.Rows.{Planet, World}
use terminal_army_go.Store.Planets.{get_planet_by_coord, update_planets}

abbrev pub is_some : {A : Type 0} → Option A → Bool
is_some none = false
is_some (some _) = true

pub is_some-false : {A : Type 0} (o : Option A) → is_some o ≡ false → o ≡ none
is_some-false none h = refl
is_some-false (some a) h = cc

-- `planets.code` is a VARCHAR(8).
abbrev pub code_width : ℕ
code_width = 8

-- `IsSlotTaken`
unfoldable pub is_slot_taken : Error → Bool
is_slot_taken e = elim e [ slot_taken ↦ true | _ ↦ false ]

module _ {F : Type 0} where
  -- `GetPlanetByCode`
  unfoldable pub get_planet_by_code : String → List (Planet F) → Option (Planet F)
  get_planet_by_code code [] = none
  get_planet_by_code code (p ∷ ps) =
      if str_eq p.code code then some p else get_planet_by_code code ps

  -- The row that `CreatePlanet` stores: its id from the sequence.
  abbrev pub new_planet : ℕ → Planet F → Planet F
  new_planet k p = record p { id = k }

  -- `CreatePlanet`: the code has to fit its column, and neither it nor the coordinate may be taken.
  -- `char_count` is PostgreSQL's `char_length`.
  unfoldable pub create_planet : (String → ℕ) → Planet F → Tx (World F) (Planet F)
  unfolding get_planet_by_code
  create_planet char_count p = do
    fail_if (ltb code_width (char_count p.code)) value_too_long
    same_code ← gets (λ w. get_planet_by_code p.code w.planets)
    fail_if (is_some same_code) unique_violation
    same_slot ← gets (get_planet_by_coord p.universe_id p.galaxy p.system p.position)
    fail_if (is_some same_slot) unique_violation
    (λ w. ok (
      new_planet w.next_planet p,
      record w {
        planets = w.planets ++ (new_planet w.next_planet p ∷ []);
        next_planet = suc w.next_planet;
      },
    ))

  -- `ORDER BY` on a number of a row, which `before` compares
  unfoldable pub insert_planet :
      (Planet F → Planet F → Bool) → Planet F → List (Planet F) → List (Planet F)
  insert_planet before p [] = p ∷ []
  insert_planet before p (q ∷ ps) = if before q p then q ∷ insert_planet before p ps else p ∷ q ∷ ps

  unfoldable pub planets_in_order : (Planet F → Planet F → Bool) → List (Planet F) → List (Planet F)
  unfolding insert_planet
  planets_in_order before [] = []
  planets_in_order before (p ∷ ps) = insert_planet before p (planets_in_order before ps)

  -- `ListPlanetsByOwner`
  unfoldable pub list_planets_by_owner : ℕ → World F → List (Planet F)
  unfolding planets_in_order
  list_planets_by_owner user w =
      planets_in_order (λ p q. ltb p.id q.id) (select (λ p. p.owner_user_id == user) w.planets)

  abbrev pub in_system : ℕ → ℤ → ℤ → Planet F → Bool
  in_system u g s p = (p.universe_id == u) && eqb_ℤ p.galaxy g && eqb_ℤ p.system s

  -- `ListPlanetsInSystem`
  unfoldable pub list_planets_in_system : ℕ → ℤ → ℤ → World F → List (Planet F)
  unfolding planets_in_order
  list_planets_in_system u g s w =
      planets_in_order (λ p q. ltb_ℤ p.position q.position) (select (in_system u g s) w.planets)

  -- `CountPlanetsByUser`
  unfoldable pub count_planets_by_user : ℕ → World F → ℕ
  count_planets_by_user user w = length (select (λ p. p.owner_user_id == user) w.planets)

  -- `TotalPlanets`
  unfoldable pub total_planets : World F → ℕ
  total_planets w = length w.planets

  -- `out[pos]` of `OccupiedPositionsInSystem`
  unfoldable pub occupied_in : ℤ → List (Planet F) → Bool
  occupied_in n [] = false
  occupied_in n (p ∷ ps) = eqb_ℤ p.position n || occupied_in n ps

  unfoldable pub occupied_positions_in_system : ℕ → ℤ → ℤ → World F → ℤ → Bool
  unfolding occupied_in
  occupied_positions_in_system u g s w n = occupied_in n (select (in_system u g s) w.planets)

  -- `SetPlanetName`
  unfoldable pub set_planet_name : ℕ → String → World F → World F
  set_planet_name k name w = record w {
    planets = update_planets k (λ p. record p { name = name }) w.planets;
  }
