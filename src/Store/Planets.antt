-- ===== src/Store/Planets.antt =====
-- Queries on planets and on what stands on them (`internal/store/planets.go`, `buildings.go`,
-- `researches.go`, `planet_ships.go`, `universes.go`).
use Prim.Native.String.{String}
use terminal_army_go.Base.{
  ℕ, ◌==◌, ◌≡◌, refl, ◌&&◌, List, [], ◌∷◌, Option, none, some, arith, if◌then◌else◌,
}
use terminal_army_go.Int.{ℤ, pos, ◌+ℤ◌, ltb_ℤ, eqb_ℤ}
use terminal_army_go.Dict.{Dict, lookup, insert}
use terminal_army_go.Store.Rows.{Universe, Planet, World, update}

-- `SELECT … FROM universes WHERE id = $1`
abbrev pub find_universe : ℕ → List Universe → Option Universe
find_universe k [] = none
find_universe k (u ∷ us) = if u.id == k then some u else find_universe k us

-- `INSERT … ON CONFLICT DO UPDATE SET count = GREATEST(0, count + $3)`: a new row takes the delta as
-- it is.
unfoldable pub add_count : String → ℤ → Dict ℤ → Dict ℤ
add_count key delta counts = elim (lookup key counts) [
  | none ↦ insert key delta counts
  | some n ↦ insert key (if ltb_ℤ (n +ℤ delta) (pos 0) then pos 0 else n +ℤ delta) counts
]

-- `INSERT … ON CONFLICT DO UPDATE SET level = level + $3`
unfoldable pub add_level : String → ℤ → Dict ℤ → Dict ℤ
add_level key delta levels = elim (lookup key levels) [
  | none ↦ insert key delta levels
  | some n ↦ insert key (n +ℤ delta) levels
]

module _ {F : Type 0} where
  -- `SELECT … FROM planets WHERE id = $1`
  abbrev pub find_planet : ℕ → List (Planet F) → Option (Planet F)
  find_planet k [] = none
  find_planet k (p ∷ ps) = if p.id == k then some p else find_planet k ps

  -- `GetPlanet` and `GetPlanetForUpdate`
  unfoldable pub get_planet : ℕ → World F → Option (Planet F)
  get_planet k w = find_planet k w.planets

  -- `GetUniverse`
  unfoldable pub get_universe : ℕ → World F → Option Universe
  get_universe k w = find_universe k w.universes

  -- `UPDATE planets SET … WHERE id = $1`, for an assignment that leaves `id` alone
  abbrev pub update_planets : ℕ → (Planet F → Planet F) → List (Planet F) → List (Planet F)
  update_planets k f [] = []
  update_planets k f (p ∷ ps) = (if p.id == k then f p else p) ∷ update_planets k f ps

  abbrev pub with_resources : F → F → F → ℤ → Planet F → Planet F
  with_resources m c d ts p = record p {
    metal = m;
    crystal = c;
    deuterium = d;
    resources_last_updated_at = ts;
  }

  -- `UpdatePlanetResources`
  unfoldable pub update_planet_resources : ℕ → F → F → F → ℤ → World F → World F
  update_planet_resources k m c d ts w = record w {
    planets = update_planets k (with_resources m c d ts) w.planets;
  }

  -- `IncrementPlanetFields`
  unfoldable pub increment_planet_fields : ℕ → ℤ → World F → World F
  increment_planet_fields k delta w = record w {
    planets = update_planets k (λ p. record p { fields_used = p.fields_used +ℤ delta }) w.planets;
  }

  -- `GetPlanetByCoord`
  abbrev pub find_coord : ℕ → ℤ → ℤ → ℤ → List (Planet F) → Option (Planet F)
  find_coord u g s n [] = none
  find_coord u g s n (p ∷ ps) =
      if p.universe_id == u && eqb_ℤ p.galaxy g && eqb_ℤ p.system s && eqb_ℤ p.position n
      then some p
      else find_coord u g s n ps

  unfoldable pub get_planet_by_coord : ℕ → ℤ → ℤ → ℤ → World F → Option (Planet F)
  get_planet_by_coord u g s n w = find_coord u g s n w.planets

  -- `IncrementBuildingLevel`
  unfoldable pub increment_building_level : ℕ → String → ℤ → World F → World F
  unfolding add_level
  increment_building_level k key delta w = record w {
    buildings = update w.buildings k (add_level key delta (w.buildings k));
  }

  -- `IncrementResearchLevel`
  unfoldable pub increment_research_level : ℕ → String → ℤ → World F → World F
  unfolding add_level
  increment_research_level user key delta w = record w {
    researches = update w.researches user (add_level key delta (w.researches user));
  }

  -- `AddShips`
  unfoldable pub add_ships : ℕ → String → ℤ → World F → World F
  unfolding add_count
  add_ships k key delta w = record w { ships = update w.ships k (add_count key delta (w.ships k)) }

  -- `AddDefenses`
  unfoldable pub add_defenses : ℕ → String → ℤ → World F → World F
  unfolding add_count
  add_defenses k key delta w = record w {
    defenses = update w.defenses k (add_count key delta (w.defenses k));
  }

  -- `MaxBuildingLevelAcrossUser`: `COALESCE(MAX(level), 0)` over the user's planets that have a row.
  abbrev pub max_level_from : ℕ → String → (ℕ → Dict ℤ) → Option ℤ → List (Planet F) → Option ℤ
  max_level_from user key levels best [] = best
  max_level_from user key levels best (p ∷ ps) =
      max_level_from user key levels
        (if p.owner_user_id == user
          then elim (lookup key (levels p.id)) [
            | none ↦ best
            | some n ↦ elim best [ none ↦ some n | some b ↦ if ltb_ℤ b n then some n else some b ]
          ]
          else best)
        ps

  unfoldable pub max_building_level_across_user : ℕ → String → World F → ℤ
  max_building_level_across_user user key w =
      elim (max_level_from user key w.buildings none w.planets) [ none ↦ pos 0 | some n ↦ n ]

  find_planet-update :
      (j k : ℕ) (f : Planet F → Planet F) (ps : List (Planet F))
      → ((p : Planet F) → (f p).id ≡ p.id)
      → find_planet j (update_planets k f ps) ≡ (
          if j == k
          then elim (find_planet j ps) [ none ↦ none | some p ↦ some (f p) ]
          else find_planet j ps)
  find_planet-update j k f [] same = ground arith
  find_planet-update j k f (p ∷ ps) same = ground (arith, same p, find_planet-update j k f ps same)

  -- A resource update is seen by the next read of that planet, and by no read of another.
  pub get_planet-update_planet_resources :
      (j k : ℕ) (m c d : F) (ts : ℤ) (w : World F)
      → get_planet j (update_planet_resources k m c d ts w) ≡ (
          if j == k
          then elim (get_planet j w) [ none ↦ none | some p ↦ some (with_resources m c d ts p) ]
          else get_planet j w)
  unfolding get_planet update_planet_resources
  get_planet-update_planet_resources j k m c d ts w =
      find_planet-update j k (with_resources m c d ts) w.planets (λ p. refl)

  find_planet-id :
      (k : ℕ) (ps : List (Planet F)) {p : Planet F} → find_planet k ps ≡ some p → p.id ≡ k
  find_planet-id k [] h = cc
  find_planet-id k (q ∷ ps) {p} h = ground (arith, find_planet-id k ps {p = p})

  -- A row that is found by an id has that id.
  pub get_planet-id : (k : ℕ) (w : World F) {p : Planet F} → get_planet k w ≡ some p → p.id ≡ k
  unfolding get_planet
  get_planet-id k w h = find_planet-id k w.planets h
