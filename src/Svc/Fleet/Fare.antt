-- ===== src/Svc/Fleet/Fare.antt =====
-- What an accepted dispatch takes from the planet (`Dispatch` of `internal/svc/fleet.go`).
use Prim.Native.String.{String}
use mathlib.Core.Path.{subst}
use terminal_army_go.Base.{ℕ, ◌≡◌, refl, ap, ◌∙◌, false, some, arith, ==_self}
use terminal_army_go.Int.{ℤ, pos, ◌+ℤ◌, ◌≤ℤ◌, int_laws}
use terminal_army_go.Float.{Float64, Float64Laws}
use terminal_army_go.Game.Fleet.{fleet_cargo_capacity}
use terminal_army_go.Store.Tx.{ok}
use terminal_army_go.Store.Rows.{Planet, World}
use terminal_army_go.Store.Planets.{
  get_planet, get_planet-id, get_planet-update_planet_resources, add_ships, update_planet_resources,
  with_resources,
}
use terminal_army_go.Store.Fleets.{insert_fleet_ship}
use terminal_army_go.Svc.Resources.Refresh.{Refreshed, Solvent}
use terminal_army_go.Svc.Fleet.{Cargo, DispatchRequest, Flight, PublicFleet, checked_request}
use terminal_army_go.Svc.Fleet.Dispatch.{
  cannot_pay, cargo_sum, dispatch, launch, needed_deuterium, outbound_row, target_planet,
}
use terminal_army_go.Svc.Fleet.Requests.{NonNegCargo, checked_request-Checked}
use terminal_army_go.Svc.Fleet.Stock.{board_ships-keeps, take_ships-keeps}
use terminal_army_go.Svc.Fleet.Departure.{
  debited_world, dispatch-Launched, fleet_fits-bounds, fuel_nonneg, fuel_of, launch-eq-ok, with_row,
  wrap64_small,
}

-- The cargo of a flight, without wrap-around.
abbrev pub whole_cargo : Cargo → ℤ
whole_cargo c = c.metal +ℤ c.crystal +ℤ c.deuterium

module _ (fl : Float64) where
  open fl use {F, of_int, sub, lt}

  -- The planet after it has paid a flight's cargo and fuel.
  abbrev pub paid : ℤ → Planet F → Flight → Planet F
  paid now r f =
      with_resources (sub r.metal (of_int f.cargo.metal)) (sub r.crystal (of_int f.cargo.crystal))
        (sub r.deuterium (of_int (f.cargo.deuterium +ℤ fuel_of fl r f))) now r

  launch-planet :
      (now : ℤ) (user : ℕ) (k : ℕ) (r : Planet F) (f : Flight) (seconds : ℤ) (w w' : World F)
      {out : PublicFleet}
      → get_planet k w ≡ some r
      → needed_deuterium f.cargo (fuel_of fl r f) ≡ f.cargo.deuterium +ℤ fuel_of fl r f
      → launch fl now user r f seconds (fuel_of fl r f) w ≡ ok (out, w')
      → get_planet k w' ≡ some (paid now r f)
  unfolding get_planet add_ships insert_fleet_ship
  launch-planet now user k r f seconds w w' found exact h =
      let fuel = fuel_of fl r f in
      let row = outbound_row now user r f (target_planet r f w) seconds fuel in
      let v = debited_world fl now r f fuel w in
      let after_fuel = sub r.deuterium (of_int (f.cargo.deuterium +ℤ fuel)) in
      let debit : ℕ → F → World F = λ j d.
        update_planet_resources j (sub r.metal (of_int f.cargo.metal))
          (sub r.crystal (of_int f.cargo.crystal)) d now w in
      let (_, after, _) = launch-eq-ok fl now user r f seconds fuel w w' h in
      ap (get_planet k) after
      ∙ board_ships-keeps (get_planet k) (λ j key n u. refl) v.next_fleet f.ships
          (with_row fl row v)
      ∙ take_ships-keeps (get_planet k) (λ j key n u. refl) r.id f.ships _
      ∙ ap (λ d. get_planet k (debit r.id (sub r.deuterium (of_int d)))) exact
      ∙ ap (λ j. get_planet k (debit j after_fuel)) (get_planet-id k w found)
      ∙ get_planet-update_planet_resources k k (sub r.metal (of_int f.cargo.metal))
          (sub r.crystal (of_int f.cargo.crystal)) after_fuel now w
      ∙ rw (==_self k, found) refl

  -- The amounts of a stored fleet are so small that their sums do not wrap around.
  sums_exact :
      (now : ℤ) (user : ℕ) (r : Planet F) (f : Flight) (seconds : ℤ) (w w' : World F)
      {out : PublicFleet}
      → NonNegCargo f.cargo
      → launch fl now user r f seconds (fuel_of fl r f) w ≡ ok (out, w')
      → (cargo_sum f.cargo ≡ whole_cargo f.cargo)
        × (needed_deuterium f.cargo (fuel_of fl r f) ≡ f.cargo.deuterium +ℤ fuel_of fl r f)
        × (pos 0 ≤ℤ fuel_of fl r f)
  unfolding cargo_sum needed_deuterium outbound_row
  sums_exact now user r f seconds w w' n h =
      let fuel = fuel_of fl r f in
      let row = outbound_row now user r f (target_planet r f w) seconds fuel in
      let (fits, _, _) = launch-eq-ok fl now user r f seconds fuel w w' h in
      let (m, c, d, u) = fleet_fits-bounds row fits in
      let burnt : pos 0 ≤ℤ fuel = fuel_nonneg fl f.ships _ f.speed_percent in
      let (n0, n1, n2) = n in
      (
        wrap64_small (whole_cargo f.cargo) (omega int_laws) (omega int_laws),
        wrap64_small (f.cargo.deuterium +ℤ fuel) (omega int_laws) (omega int_laws),
        burnt,
      )

  pays_for :
      (r : Planet F) (f : Flight)
      → needed_deuterium f.cargo (fuel_of fl r f) ≡ f.cargo.deuterium +ℤ fuel_of fl r f
      → cannot_pay fl r f.cargo (fuel_of fl r f) ≡ false
      → (lt r.metal (of_int f.cargo.metal) ≡ false)
        × (lt r.crystal (of_int f.cargo.crystal) ≡ false)
        × (lt r.deuterium (of_int (f.cargo.deuterium +ℤ fuel_of fl r f)) ≡ false)
  unfolding cannot_pay
  pays_for r f exact h = (
    ground arith,
    ground arith,
    subst (λ n. lt r.deuterium (of_int n) ≡ false) exact (ground arith),
  )

  module _ (laws : Float64Laws fl) where
    open laws use {sub_NonNeg}

    -- With the arithmetic's laws: an accepted dispatch is from a planet of the user's own, takes from its
    -- refreshed pools exactly the cargo and, in deuterium, the fuel of the flight, and leaves no pool
    -- below zero. The cargo, summed without wrap-around, is at most the ships' capacity.
    pub dispatch-Paid :
        (normalize : String → String) (refreshed_at now : ℤ) (user : ℕ) (request : DispatchRequest)
        (w w' : World F) {out : PublicFleet}
        → dispatch fl normalize refreshed_at now user request w ≡ ok (out, w')
        → (f : Flight) × (r : Planet F) × (w1 : World F) × (checked_request normalize request
            ≡ ok f)
          × Refreshed fl refreshed_at user f.origin_planet_id r w w1
          × (get_planet f.origin_planet_id w' ≡ some (paid now r f))
          × Solvent fl (paid now r f)
          × (pos 0 ≤ℤ fuel_of fl r f)
          × (whole_cargo f.cargo ≤ℤ fleet_cargo_capacity f.ships)
    dispatch-Paid normalize refreshed_at now user request w w' h =
        let (f, r, w1, seconds, checked, ready, covered, room, rich, launched) =
          dispatch-Launched fl normalize refreshed_at now user request w w' h in
        let ((_, _, amounts, _, _), _) = checked_request-Checked normalize request f checked in
        let (sum, need, burnt) = sums_exact now user r f seconds w1 w' amounts launched in
        let (m, c, d) = pays_for r f need rich in
        let (p, _, _, _, reread) = ready in
        (
          f,
          r,
          w1,
          checked,
          ready,
          launch-planet now user f.origin_planet_id r f seconds w1 w' reread need launched,
          (sub_NonNeg r.metal _ m, sub_NonNeg r.crystal _ c, sub_NonNeg r.deuterium _ d),
          burnt,
          subst (λ n. n ≤ℤ fleet_cargo_capacity f.ships) sum room,
        )
