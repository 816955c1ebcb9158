-- ===== src/Scheduler/Fleet/Unloading.antt =====
-- What the return of a fleet does (`handleReturn` of `internal/scheduler/fleet.go`).
use Prim.Native.String.{String}
use mathlib.Core.Path.{subst}
use terminal_army_go.Base.{ℕ, ◌≡◌, refl, sym, ap, ◌∙◌, some, Bool-cases, inl, inr, if◌then◌else◌}
use terminal_army_go.Int.{ℤ, pos, ◌+ℤ◌, ◌≤ℤ◌}
use terminal_army_go.Dict.{level}
use terminal_army_go.Float.{Float64}
use terminal_army_go.Store.Tx.{ok, ok_state, >>=-eq-ok}
use terminal_army_go.Store.Rows.{Fleet, Planet, World}
use terminal_army_go.Store.Planets.{add_ships, get_planet, get_planet-id, update_planet_resources}
use terminal_army_go.Store.Counts.{AllNonNeg, Distinct}
use terminal_army_go.Store.Fleets.{
  get_fleet, list_fleet_ships, mark_return_processed, marked_returned,
}
use terminal_army_go.Store.Fleets.Lookup.{get_fleet-updated}
use terminal_army_go.Svc.Resources.Frame.{refresh_tx-keeps, Untouched}
use terminal_army_go.Scheduler.Fleet.{
  Clock, credit_cargo, handle_return, has_cargo, land_ships, refreshed_planet, unload,
}
use terminal_army_go.Scheduler.Fleet.Delivery.{
  AfterRefresh, get_planet-credit_cargo, refreshed-get_fleet, refreshed_planet-eq-ok, with_delivery,
}
use terminal_army_go.Scheduler.Fleet.Landing.{land_ships-keeps, land_ships-level}

module _ (fl : Float64) where
  open fl use {F}

  -- The state once the ships have landed and the cargo is credited.
  abbrev unloaded : Clock → Fleet → Planet F → World F → World F
  unloaded clock f r w =
      let v = land_ships r.id (list_fleet_ships f.id w) w in
      if has_cargo f then credit_cargo fl clock.updated_at r f v else v

  unloaded-keeps :
      {B : Type 0} (g : World F → B) (clock : Clock) (f : Fleet) (r : Planet F) (w : World F)
      → ((j : ℕ) (key : String) (d : ℤ) (u : World F) → g (add_ships j key d u) ≡ g u)
      → Untouched fl g
      → g (unloaded clock f r w) ≡ g w
  unfolding credit_cargo
  unloaded-keeps g clock f r w ships pools =
      let v = land_ships r.id (list_fleet_ships f.id w) w in
      let landing = land_ships-keeps g ships r.id (list_fleet_ships f.id w) w in
      elim (Bool-cases (has_cargo f)) [
        | inl loaded ↦ rw loaded (pools r.id _ _ _ clock.updated_at v ∙ landing)
        | inr empty ↦ rw empty landing
      ]

  get_planet-unloaded :
      (clock : Clock) (k : ℕ) (f : Fleet) (r : Planet F) (w : World F)
      → get_planet k w ≡ some r
      → get_planet k (unloaded clock f r w)
        ≡ some (if has_cargo f then with_delivery fl clock.updated_at f r else r)
  unfolding get_planet add_ships
  get_planet-unloaded clock k f r w found =
      let landing =
        land_ships-keeps (get_planet k) (λ j key d u. refl) r.id (list_fleet_ships f.id w) w
        ∙ found in
      elim (Bool-cases (has_cargo f)) [
        | inl loaded ↦
            rw loaded (get_planet-credit_cargo fl clock.updated_at k f r w _ found landing)
        | inr empty ↦ rw empty landing
      ]

  unload-eq-ok :
      (clock : Clock) (f : Fleet) (p : Planet F) (w w' : World F)
      → get_planet f.origin_planet_id w ≡ some p
      → unload fl clock f p w ≡ ok (tt, w')
      → (r : Planet F) × (w1 : World F) × AfterRefresh fl clock f.origin_planet_id r w w1
        × (w' ≡ mark_return_processed f.id (unloaded clock f r w1))
  unfolding unload
  unload-eq-ok clock f p w w' found h =
      let k = f.origin_planet_id in
      let (r, w1, e1, h1) = >>=-eq-ok (refreshed_planet fl clock k p.id) _ w h in
      (r, w1, refreshed_planet-eq-ok fl clock k p r w w1 found e1, sym (ok_state h1))

  -- The row of a fleet that has come home.
  pub unload-returned :
      (clock : Clock) (f g : Fleet) (p : Planet F) (w w' : World F)
      → get_planet f.origin_planet_id w ≡ some p
      → get_fleet f.id w ≡ some g
      → unload fl clock f p w ≡ ok (tt, w')
      → get_fleet f.id w' ≡ some (marked_returned g)
  unfolding mark_return_processed get_fleet add_ships update_planet_resources
  unload-returned clock f g p w w' found flying h =
      let k = f.origin_planet_id in
      let (r, w1, ready, after) = unload-eq-ok clock f p w w' found h in
      ap (get_fleet f.id) after
      ∙ get_fleet-updated f.id marked_returned (unloaded clock f r w1) g (λ x. refl)
          (unloaded-keeps (get_fleet f.id) clock f r w1 (λ j key e u. refl) (λ j m c e t u. refl)
            ∙ refreshed-get_fleet fl clock f.id k r w w1 ready
            ∙ flying)

  unloaded-level :
      (clock : Clock) (f : Fleet) (r : Planet F) (w : World F) (key : String)
      → Distinct (list_fleet_ships f.id w)
      → AllNonNeg (list_fleet_ships f.id w)
      → ((j : String) → pos 0 ≤ℤ level (w.ships r.id) j)
      → level ((unloaded clock f r w).ships r.id) key
        ≡ level (w.ships r.id) key +ℤ level (list_fleet_ships f.id w) key
  unfolding credit_cargo update_planet_resources
  unloaded-level clock f r w key d n stock =
      let landing = land_ships-level r.id (list_fleet_ships f.id w) w key d n stock in
      elim (Bool-cases (has_cargo f)) [
        | inl loaded ↦ rw loaded landing
        | inr empty ↦ rw empty landing
      ]

  ships-Untouched : Untouched fl (λ u. u.ships)
  unfolding update_planet_resources
  ships-Untouched k m c d t w = refl

  list_fleet_ships-Untouched : (j : ℕ) → Untouched fl (list_fleet_ships j)
  unfolding update_planet_resources list_fleet_ships
  list_fleet_ships-Untouched j k m c d t w = refl

  stock_after :
      (clock : Clock) (k : ℕ) (f : Fleet) (r : Planet F) (w w1 : World F) (key : String)
      → r.id ≡ k
      → w1.ships ≡ w.ships
      → list_fleet_ships f.id w1 ≡ list_fleet_ships f.id w
      → Distinct (list_fleet_ships f.id w)
      → AllNonNeg (list_fleet_ships f.id w)
      → ((j : String) → pos 0 ≤ℤ level (w.ships k) j)
      → level ((unloaded clock f r w1).ships k) key
        ≡ level (w.ships k) key +ℤ level (list_fleet_ships f.id w) key
  stock_after clock k f r w w1 key here ships crew d n stock =
      let grown =
        unloaded-level clock f r w1 key (subst Distinct (sym crew) d) (subst AllNonNeg (sym crew) n)
          (λ j.
            subst (λ m. pos 0 ≤ℤ level m j) (sym (ap w1.ships here ∙ ap (λ s. s k) ships))
              (stock j)) in
      subst
        (λ j.
          level ((unloaded clock f r w1).ships j) key
          ≡ level (w1.ships j) key +ℤ level (list_fleet_ships f.id w1) key)
        here grown
      ∙ ap (λ s. level (s k) key +ℤ level (list_fleet_ships f.id w1) key) ships
      ∙ ap (λ m. level (w.ships k) key +ℤ level m key) crew

  pub handle_return-Unloaded :
      (clock : Clock) (f g : Fleet) (p : Planet F) (w w' : World F)
      → get_planet f.origin_planet_id w ≡ some p
      → get_fleet f.id w ≡ some g
      → Distinct (list_fleet_ships f.id w)
      → AllNonNeg (list_fleet_ships f.id w)
      → ((j : String) → pos 0 ≤ℤ level (w.ships f.origin_planet_id) j)
      → handle_return fl clock f w ≡ ok (tt, w')
      → (r : Planet F) × (w1 : World F) × AfterRefresh fl clock f.origin_planet_id r w w1
        × (get_planet f.origin_planet_id w'
            ≡ some (if has_cargo f then with_delivery fl clock.updated_at f r else r))
        × (get_fleet f.id w' ≡ some (marked_returned g))
        × ((key : String)
            → level (w'.ships f.origin_planet_id) key
              ≡ level (w.ships f.origin_planet_id) key +ℤ level (list_fleet_ships f.id w) key)
  unfolding handle_return mark_return_processed get_planet get_fleet add_ships
      update_planet_resources
  handle_return-Unloaded clock f g p w w' found flying d n stock h =
      let k = f.origin_planet_id in
      let (r, w1, ready, after) =
        unload-eq-ok clock f p w w' found (rw (found, handle_return) at h) in
      let here = get_planet-id k w1 ready.1 in
      let ships =
        refresh_tx-keeps fl (λ u. u.ships) ships-Untouched clock.refreshed_at k w w1 ready.0 in
      let crew =
        refresh_tx-keeps fl (list_fleet_ships f.id) (list_fleet_ships-Untouched f.id)
          clock.refreshed_at k w w1 ready.0 in
      (
        r,
        w1,
        ready,
        ap (get_planet k) after ∙ get_planet-unloaded clock k f r w1 ready.1,
        unload-returned clock f g p w w' found flying (rw (found, handle_return) at h),
        λ key.
            ap (λ (u : World F). level (u.ships k) key) after
            ∙ stock_after clock k f r w w1 key here ships crew d n stock,
      )
