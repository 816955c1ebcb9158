-- ===== src/Scheduler/Fleet/Delivery.antt =====
-- What a transport does at its target (`resolveTransport` of `internal/scheduler/fleet.go`).
use Prim.Native.String.{String}
use mathlib.Core.Path.{subst}
use terminal_army_go.Base.{
  ℕ, ◌==◌, ◌≡◌, refl, sym, ap, ◌∙◌, Option, some, Bool-cases, inl, inr, ==_self, if◌then◌else◌,
}
use terminal_army_go.Int.{ℤ, pos}
use terminal_army_go.Float.{Float64}
use terminal_army_go.Store.Tx.{ok, ok_state, >>=-eq-ok, fetch-eq-ok, not_found}
use terminal_army_go.Store.Rows.{Fleet, Planet, Notice, World, transport_delivered}
use terminal_army_go.Store.Planets.{
  get_planet, get_planet-id, get_planet-update_planet_resources, update_planet_resources,
  with_resources,
}
use terminal_army_go.Store.Fleets.{
  get_fleet, mark_arrival_processed, marked_arrived, update_fleet_cargo, with_cargo,
}
use terminal_army_go.Store.Fleets.Lookup.{get_fleet-updated}
use terminal_army_go.Store.Messages.{insert_message}
use terminal_army_go.Svc.Resources.{refresh_tx}
use terminal_army_go.Svc.Resources.Frame.{Untouched, refresh_tx-keeps}
use terminal_army_go.Svc.Fleet.Recall.{time_of_return}
use terminal_army_go.Scheduler.Fleet.{
  Clock, credit_cargo, deliver, drop_cargo, has_cargo, mark_attack_returning, notify_delivery,
  refreshed_planet,
}

-- The row of a fleet that has arrived and flies home.
abbrev pub homeward : Clock → Fleet → Fleet → Fleet
homeward clock f g =
    marked_arrived "returning" (some (time_of_return clock.turned_at f.departure_at)) g

module _ (fl : Float64) where
  open fl use {F, of_int, add}

  -- A planet with a fleet's cargo in its pools.
  abbrev pub with_delivery : ℤ → Fleet → Planet F → Planet F
  with_delivery now f p =
      with_resources (add p.metal (of_int f.cargo_metal)) (add p.crystal (of_int f.cargo_crystal))
        (add p.deuterium (of_int f.cargo_deuterium)) now p

  pub get_planet-credit_cargo :
      (now : ℤ) (k : ℕ) (f : Fleet) (r : Planet F) (w v : World F)
      → get_planet k w ≡ some r
      → get_planet k v ≡ some r
      → get_planet k (credit_cargo fl now r f v) ≡ some (with_delivery now f r)
  unfolding credit_cargo
  get_planet-credit_cargo now k f r w v found same =
      let m = add r.metal (of_int f.cargo_metal) in
      let c = add r.crystal (of_int f.cargo_crystal) in
      let d = add r.deuterium (of_int f.cargo_deuterium) in
      ap (λ j. get_planet k (update_planet_resources j m c d now v)) (get_planet-id k w found)
      ∙ get_planet-update_planet_resources k k m c d now v
      ∙ rw (==_self k, same) refl

  -- A planet's row after a refresh, and the state that it is read from.
  abbrev pub AfterRefresh : Clock → ℕ → Planet F → World F → World F → Type 0
  AfterRefresh clock k r w w1 =
      (refresh_tx fl clock.refreshed_at k w ≡ ok (tt, w1)) × (get_planet k w1 ≡ some r)

  pub refreshed_planet-eq-ok :
      (clock : Clock) (k : ℕ) (p r : Planet F) (w w1 : World F)
      → get_planet k w ≡ some p
      → refreshed_planet fl clock k p.id w ≡ ok (r, w1)
      → AfterRefresh clock k r w w1
  unfolding refreshed_planet
  refreshed_planet-eq-ok clock k p r w w1 found h =
      let (_, v, e, h1) = >>=-eq-ok (refresh_tx fl clock.refreshed_at p.id) _ w h in
      let (reread, same) = fetch-eq-ok (get_planet k) not_found v w1 h1 in
      (
        subst (λ u. refresh_tx fl clock.refreshed_at k w ≡ ok (tt, u)) (sym same)
            (subst (λ j. refresh_tx fl clock.refreshed_at j w ≡ ok (tt, v))
              (get_planet-id k w found) e),
        ap (get_planet k) same ∙ reread,
      )

  -- A refresh leaves every fleet as it is.
  pub refreshed-get_fleet :
      (clock : Clock) (j k : ℕ) (r : Planet F) (w w1 : World F)
      → AfterRefresh clock k r w w1
      → get_fleet j w1 ≡ get_fleet j w
  unfolding get_fleet update_planet_resources
  refreshed-get_fleet clock j k r w w1 h =
      refresh_tx-keeps fl (λ u. get_fleet j u) row-Untouched clock.refreshed_at k w w1 h.0
    where
      row-Untouched : Untouched fl (λ u. get_fleet j u)
      row-Untouched k m c d t w = refl

  notify_delivery-keeps :
      {B : Type 0} (g : World F → B) (clock : Clock) (f : Fleet) (r : Planet F) (w w' : World F)
      → ((s : Option ℕ) (o : ℕ) (t : Notice) (c : String) (u : World F)
          → g (insert_message clock.db_now s o t c u) ≡ g u)
      → notify_delivery clock f r w ≡ ok (tt, w')
      → g w' ≡ g w
  unfolding notify_delivery
  notify_delivery-keeps g clock f r w w' same h =
      elim (Bool-cases (r.owner_user_id == f.owner_id)) [
        | inl own ↦ ap g (sym (ok_state (rw (own, notify_delivery) at h)))
        | inr other ↦
            ap g (sym (ok_state (rw (other, notify_delivery) at h)))
            ∙ same (some f.owner_id) r.owner_user_id
                (transport_delivered r.name f.cargo_metal f.cargo_crystal f.cargo_deuterium)
                "transport" w
      ]

  get_planet-dropped :
      (clock : Clock) (k : ℕ) (f : Fleet) (r : Planet F) (w w' : World F)
      → get_planet k w ≡ some r
      → drop_cargo fl clock r f w ≡ ok (tt, w')
      → get_planet k w' ≡ some (if has_cargo f then with_delivery clock.updated_at f r else r)
  unfolding drop_cargo update_fleet_cargo get_planet
  get_planet-dropped clock k f r w w' found h = elim (Bool-cases (has_cargo f)) [
    | inl loaded ↦
        ap (get_planet k) (sym (ok_state (rw (loaded, drop_cargo) at h)))
        ∙ get_planet-credit_cargo clock.updated_at k f r w w found found
        ∙ rw loaded refl
    | inr empty ↦
        ap (get_planet k) (sym (ok_state (rw (empty, drop_cargo) at h))) ∙ found ∙ rw empty refl
  ]

  get_fleet-dropped :
      (clock : Clock) (f g : Fleet) (r : Planet F) (w w' : World F)
      → get_fleet f.id w ≡ some g
      → drop_cargo fl clock r f w ≡ ok (tt, w')
      → get_fleet f.id w' ≡ some (if has_cargo f then with_cargo (pos 0) (pos 0) (pos 0) g else g)
  unfolding drop_cargo update_fleet_cargo get_fleet credit_cargo update_planet_resources
  get_fleet-dropped clock f g r w w' found h = elim (Bool-cases (has_cargo f)) [
    | inl loaded ↦
        ap (get_fleet f.id) (sym (ok_state (rw (loaded, drop_cargo) at h)))
        ∙ get_fleet-updated f.id (with_cargo (pos 0) (pos 0) (pos 0))
            (credit_cargo fl clock.updated_at r f w) g (λ x. refl) found
        ∙ rw loaded refl
    | inr empty ↦
        ap (get_fleet f.id) (sym (ok_state (rw (empty, drop_cargo) at h))) ∙ found ∙ rw empty refl
  ]

  pub get_fleet-homeward :
      (clock : Clock) (f g : Fleet) (w w' : World F)
      → get_fleet f.id w ≡ some g
      → mark_attack_returning clock f w ≡ ok (tt, w')
      → get_fleet f.id w' ≡ some (homeward clock f g)
  unfolding mark_attack_returning mark_arrival_processed
  get_fleet-homeward clock f g w w' found h =
      ap (get_fleet f.id) (sym (ok_state h))
      ∙ get_fleet-updated f.id (homeward clock f) w g (λ x. refl) found

  pub get_planet-homeward :
      (clock : Clock) (f : Fleet) (k : ℕ) (w w' : World F)
      → mark_attack_returning clock f w ≡ ok (tt, w')
      → get_planet k w' ≡ get_planet k w
  unfolding mark_attack_returning mark_arrival_processed get_planet
  get_planet-homeward clock f k w w' h = ap (get_planet k) (sym (ok_state h))

  -- The fleet and its target after a delivery from a refreshed planet `r`.
  abbrev pub Delivered : Clock → Fleet → Fleet → ℕ → Planet F → World F → Type 0
  Delivered clock f g k r w' =
      (get_planet k w' ≡ some (if has_cargo f then with_delivery clock.updated_at f r else r))
      × (get_fleet f.id w'
          ≡ some
              (homeward clock f (if has_cargo f then with_cargo (pos 0) (pos 0) (pos 0) g else g)))

  pub deliver-Delivered :
      (clock : Clock) (f g : Fleet) (k : ℕ) (p : Planet F) (w w' : World F)
      → get_planet k w ≡ some p
      → get_fleet f.id w ≡ some g
      → deliver fl clock f k p w ≡ ok (tt, w')
      → (r : Planet F) × (w1 : World F) × AfterRefresh clock k r w w1 × Delivered clock f g k r w'
  unfolding deliver insert_message get_planet get_fleet
  deliver-Delivered clock f g k p w w' found flying h =
      let (r, w1, e1, h1) = >>=-eq-ok (refreshed_planet fl clock k p.id) _ w h in
      let ready = refreshed_planet-eq-ok clock k p r w w1 found e1 in
      let (_, w2, e2, h2) = >>=-eq-ok (drop_cargo fl clock r f) _ w1 h1 in
      let (_, w3, e3, h3) = >>=-eq-ok (notify_delivery clock f r) _ w2 h2 in
      let aloft =
        get_fleet-dropped clock f g r w1 w2 (refreshed-get_fleet clock f.id k r w w1 ready ∙ flying)
          e2 in
      (
        r,
        w1,
        ready,
        (
          get_planet-homeward clock f k w3 w' h3
              ∙ notify_delivery-keeps (get_planet k) clock f r w2 w3 (λ s o t c u. refl) e3
              ∙ get_planet-dropped clock k f r w1 w2 ready.1 e2,
          get_fleet-homeward clock f _ w3 w'
              (notify_delivery-keeps (get_fleet f.id) clock f r w2 w3 (λ s o t c u. refl) e3
                ∙ aloft)
              h3,
        ),
      )
