-- ===== src/Svc/Planet.antt =====
-- Planets as their owners see them (`internal/svc/planet.go`, and `Refresh` and `computeReport` of
-- `resources.go`). A refresh is a transaction of its own, so each function gives its answer and the
-- state after it, which a later error does not undo. `normalize` is `normalizePlanetCode`,
-- `byte_length` is `len`.
use Prim.Native.String.{String}
use terminal_army_go.Base.{
  ℕ, ◌==◌, ltb, ◌||◌, not, List, [], ◌∷◌, Option, none, some, if◌then◌else◌,
}
use terminal_army_go.Int.{ℤ}
use terminal_army_go.Dict.{Dict, level}
use terminal_army_go.Float.{Float64}
use terminal_army_go.Game.Buildings.{
  building_metal_storage, building_crystal_storage, building_deuterium_tank,
}
use terminal_army_go.Game.Formulas.{storage_capacity}
use terminal_army_go.Game.Production.{ProductionReport}
use terminal_army_go.Store.Tx.{Result, ok, err, not_found, forbidden, bad_planet_name, in_tx}
use terminal_army_go.Store.Rows.{Planet, World}
use terminal_army_go.Store.Planets.{get_planet, get_universe}
use terminal_army_go.Store.Colonies.{get_planet_by_code, list_planets_by_owner, set_planet_name}
use terminal_army_go.Svc.Resources.{refresh_tx, report_of}

-- The public view of a planet.
pub record PublicPlanet (F : Type 0) : Type 0 where
  pub row : Planet F
  pub energy_used : ℤ
  pub energy_produced : ℤ
  pub buildings : Dict ℤ
  pub ships : Dict ℤ
  pub defense : Dict ℤ

-- The report of `/production`, with the storage capacities.
pub record PublicReport (F : Type 0) : Type 0 where
  pub planet_id : ℕ
  pub report : ProductionReport F
  pub storage_cap_metal : ℤ
  pub storage_cap_crystal : ℤ
  pub storage_cap_deuterium : ℤ

module _ (fl : Float64) where
  open fl use {F}

  -- `Refresh`
  unfoldable pub refresh : ℤ → ℕ → World F → Result (Unit {0}) × World F
  unfolding in_tx
  refresh now k w = if k == 0 then (ok tt, w) else in_tx (refresh_tx fl now k) w

  -- `refreshAndReload`: the row after a refresh, if that did not fail.
  unfoldable pub refresh_and_reload : ℤ → Planet F → World F → Option (Planet F) × World F
  unfolding refresh
  refresh_and_reload now p w =
      let (r, w1) = refresh now p.id w in
      elim r [ err _ ↦ (none, w1) | ok _ ↦ (get_planet p.id w1, w1) ]

  -- The stale row stands in for one that was not refreshed.
  abbrev pub row_or_stale : Planet F → Option (Planet F) → Planet F
  row_or_stale p none = p
  row_or_stale p (some q) = q

  -- `toPublic`
  unfoldable pub to_public : Planet F → World F → Result (PublicPlanet F)
  unfolding report_of
  to_public p w = elim (get_universe p.universe_id w) [
    | none ↦ err not_found
    | some u ↦
        let report =
          report_of fl p (w.buildings p.id) (w.researches p.owner_user_id) u.speed_economy in
        ok (record {
          row = p;
          energy_used = report.energy_consumed;
          energy_produced = report.energy_produced;
          buildings = w.buildings p.id;
          ships = w.ships p.id;
          defense = w.defenses p.id;
        })
  ]

  -- The planet of its owner, refreshed.
  unfoldable pub shown_to : ℤ → ℕ → Option (Planet F) → World F → Result (PublicPlanet F) × World F
  unfolding refresh_and_reload to_public
  shown_to now user none w = (err not_found, w)
  shown_to now user (some p) w =
      if not (p.owner_user_id == user)
      then (err forbidden, w)
      else let (row, w1) = refresh_and_reload now p w in (to_public (row_or_stale p row) w1, w1)

  -- `GetForUser`
  unfoldable pub get_for_user : ℤ → ℕ → ℕ → World F → Result (PublicPlanet F) × World F
  unfolding shown_to
  get_for_user now user k w = shown_to now user (get_planet k w) w

  -- `GetByCodeForUser`
  unfoldable pub get_by_code_for_user :
      (String → String) → ℤ → ℕ → String → World F → Result (PublicPlanet F) × World F
  unfolding shown_to
  get_by_code_for_user normalize now user code w =
      shown_to now user (get_planet_by_code (normalize code) w.planets) w

  -- The loop of `ListByUser`; `clock` gives the time at which a planet is refreshed.
  unfoldable pub show_each :
      (ℕ → ℤ) → List (Planet F) → World F → Result (List (PublicPlanet F)) × World F
  unfolding refresh_and_reload to_public
  show_each clock [] w = (ok [], w)
  show_each clock (p ∷ rows) w =
      let (row, w1) = refresh_and_reload (clock p.id) p w in
      let (rest, w2) = show_each clock rows w1 in
      elim (to_public (row_or_stale p row) w1) [
        | err e ↦ (err e, w1)
        | ok shown ↦ elim rest [ err e ↦ (err e, w2) | ok others ↦ (ok (shown ∷ others), w2) ]
      ]

  -- `ListByUser`
  unfoldable pub list_by_user : (ℕ → ℤ) → ℕ → World F → Result (List (PublicPlanet F)) × World F
  unfolding show_each
  list_by_user clock user w = show_each clock (list_planets_by_owner user w) w

  -- `Rename`
  unfoldable pub rename :
      (String → ℕ) → ℤ → ℕ → ℕ → String → World F → Result (PublicPlanet F) × World F
  unfolding get_for_user
  rename byte_length now user k name w =
      if ltb (byte_length name) 1 || ltb 32 (byte_length name)
      then (err bad_planet_name, w)
      else elim (get_planet k w) [
        | none ↦ (err not_found, w)
        | some p ↦
            if not (p.owner_user_id == user)
            then (err forbidden, w)
            else get_for_user now user k (set_planet_name k name w)
      ]

  -- `computeReport`
  unfoldable pub compute_report : PublicPlanet F → World F → Result (PublicReport F)
  unfolding report_of
  compute_report p w = elim (get_universe p.row.universe_id w) [
    | none ↦ err not_found
    | some u ↦ ok (record {
      planet_id = p.row.id;
      report = report_of fl p.row p.buildings (w.researches p.row.owner_user_id) u.speed_economy;
      storage_cap_metal = storage_capacity fl (level p.buildings building_metal_storage);
      storage_cap_crystal = storage_capacity fl (level p.buildings building_crystal_storage);
      storage_cap_deuterium = storage_capacity fl (level p.buildings building_deuterium_tank);
    })
  ]

  -- `Production`
  unfoldable pub production : ℤ → ℕ → ℕ → World F → Result (PublicReport F) × World F
  unfolding get_for_user compute_report
  production now user k w =
      let (answer, w1) = get_for_user now user k w in
      elim answer [ err e ↦ (err e, w1) | ok p ↦ (compute_report p w1, w1) ]
