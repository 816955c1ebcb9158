-- ===== src/Svc/Fleet/Departure.antt =====
-- What an accepted dispatch does (`Dispatch` of `internal/svc/fleet.go`).
use Prim.Native.String.{String}
use mathlib.Core.Path.{subst}
use terminal_army_go.Base.{
  ℕ, suc, ◌==◌, ◌≡◌, refl, sym, ap, ◌∙◌, true, false, not, ◌||◌, [], ◌∷◌, ◌++◌, ==→eq, arith,
}
use terminal_army_go.Int.{ℤ, pos, negsuc, ◌≤ℤ◌, ltb_ℤ, wrap64, wrap64_fits}
use terminal_army_go.Dict.{Dict}
use terminal_army_go.Float.{Float64}
use terminal_army_go.Game.Fleet.{
  distance, slowest_ship_speed, flight_duration_seconds, fleet_fuel_consumption,
  fleet_cargo_capacity,
}
use terminal_army_go.Store.Tx.{
  Result, ok, err, ok_state, ok_result, >>=-eq-ok, fail_if, fail_if-eq-ok, fetch, fetch-eq-ok,
  not_found, forbidden, insufficient_resources, target_is_origin, not_enough_ships,
  outside_universe, cargo_exceeds_capacity, value_out_of_range,
}
use terminal_army_go.Store.Rows.{Fleet, Planet, World}
use terminal_army_go.Store.Planets.{
  get_planet, get_planet-id, get_universe, update_planet_resources,
}
use terminal_army_go.Store.Fleets.{fits_integer, fleet_fits, insert_fleet, new_fleet}
use terminal_army_go.Svc.Resources.{refresh_tx}
use terminal_army_go.Svc.Resources.Refresh.{Refreshed}
use terminal_army_go.Svc.Fleet.{
  DispatchRequest, Flight, PublicFleet, checked_request, fleet_to_public,
}
use terminal_army_go.Svc.Fleet.Dispatch.{
  board_ships, cannot_pay, cargo_sum, dispatch, dispatch_flight, launch, needed_deuterium,
  outbound_row, prepare, short_of_ships, take_ships, target_planet, targets_itself,
}

-- A sum of columns does not wrap around.
pub wrap64_small : (x : ℤ) → pos 0 ≤ℤ x → x ≤ℤ pos 6442450941 → wrap64 x ≡ x
wrap64_small (pos n) low high = wrap64_fits n (omega arith)
wrap64_small (negsuc n) low high = absurd (omega arith)

-- A row that is stored has amounts that fit their columns.
pub fleet_fits-bounds :
    (f : Fleet)
    → fleet_fits f ≡ true
    → (f.cargo_metal ≤ℤ pos 2147483647)
      × (f.cargo_crystal ≤ℤ pos 2147483647)
      × (f.cargo_deuterium ≤ℤ pos 2147483647)
      × (f.fuel_cost ≤ℤ pos 2147483647)
unfolding fleet_fits fits_integer
fleet_fits-bounds f h = (ground arith, ground arith, ground arith, ground arith)

checked_run :
    {A B : Type 0} (r : Result A) (run : A → Result B) {b : B}
    → (elim r [ err e ↦ err e | ok a ↦ run a ]) ≡ ok b
    → (a : A) × (r ≡ ok a) × (run a ≡ ok b)
checked_run (err e) run h = cc
checked_run (ok a) run h = (a, refl, h)

insert_fleet-eq-ok :
    {F : Type 0} (f row : Fleet) (w w' : World F)
    → insert_fleet f w ≡ ok (row, w')
    → (fleet_fits f ≡ true)
      × (row ≡ new_fleet w.next_fleet f)
      × (w' ≡ record w {
        fleets = w.fleets ++ (new_fleet w.next_fleet f ∷ []);
        next_fleet = suc w.next_fleet;
      })
unfolding insert_fleet
insert_fleet-eq-ok f row w w' h =
    let (_, w1, e1, h1) = >>=-eq-ok (fail_if (not (fleet_fits f)) value_out_of_range) _ w h in
    let (fits, same) = fail_if-eq-ok (not (fleet_fits f)) value_out_of_range w w1 e1 in
    (
      ground arith,
      sym (ok_result h1) ∙ ap (λ (v : World _). new_fleet v.next_fleet f) same,
      sym (ok_state h1)
          ∙ ap
              (λ (v : World _). record v {
                fleets = v.fleets ++ (new_fleet v.next_fleet f ∷ []);
                next_fleet = suc v.next_fleet;
              })
              same,
    )

module _ (fl : Float64) where
  open fl use {F, of_int, sub, lt}

  -- The fuel of a flight from a planet.
  abbrev pub fuel_of : Planet F → Flight → ℤ
  fuel_of r f =
      fleet_fuel_consumption fl f.ships
        (distance r.galaxy r.system r.position f.target_galaxy f.target_system f.target_position)
        f.speed_percent

  pub fuel_nonneg :
      (ships : Dict ℤ) (units percent : ℤ) → pos 0 ≤ℤ fleet_fuel_consumption fl ships units percent
  unfolding fleet_fuel_consumption
  fuel_nonneg [] units percent = omega arith
  fuel_nonneg (e ∷ ships) units percent = ground arith

  -- The world once the pools are debited and the ships taken.
  abbrev pub debited_world : ℤ → Planet F → Flight → ℤ → World F → World F
  debited_world now r f fuel w = take_ships r.id f.ships (
      update_planet_resources r.id (sub r.metal (of_int f.cargo.metal))
        (sub r.crystal (of_int f.cargo.crystal))
        (sub r.deuterium (of_int (needed_deuterium f.cargo fuel))) now w)

  -- The world with the fleet's row stored.
  abbrev pub with_row : Fleet → World F → World F
  with_row row w = record w {
    fleets = w.fleets ++ (new_fleet w.next_fleet row ∷ []);
    next_fleet = suc w.next_fleet;
  }

  pub launch-eq-ok :
      (now : ℤ) (user : ℕ) (r : Planet F) (f : Flight) (seconds fuel : ℤ) (w w' : World F)
      {out : PublicFleet}
      → launch fl now user r f seconds fuel w ≡ ok (out, w')
      → let row = outbound_row now user r f (target_planet r f w) seconds fuel in
        let v = debited_world now r f fuel w in
        (fleet_fits row ≡ true)
        × (w' ≡ board_ships v.next_fleet f.ships (with_row row v))
        × (out ≡ fleet_to_public (new_fleet v.next_fleet row) f.ships)
  unfolding launch
  launch-eq-ok now user r f seconds fuel w w' h =
      let row = outbound_row now user r f (target_planet r f w) seconds fuel in
      let v = debited_world now r f fuel w in
      let (stored, w1, e1, h1) = >>=-eq-ok (insert_fleet row) _ v h in
      let (fits, is_row, after) = insert_fleet-eq-ok row stored v w1 e1 in
      (
        fits,
        sym (ok_state h1)
            ∙ ap (λ (g : Fleet). board_ships g.id f.ships w1) is_row
            ∙ ap (board_ships v.next_fleet f.ships) after,
        sym (ok_result h1) ∙ ap (λ g. fleet_to_public g f.ships) is_row,
      )

  prepare-eq-ok :
      (now : ℤ) (user : ℕ) (f : Flight) (r : Planet F) (w w' : World F) {out : PublicFleet}
      → prepare fl now user f r w ≡ ok (out, w')
      → (seconds : ℤ) × (short_of_ships (w.ships r.id) f.ships ≡ false)
        × (cargo_sum f.cargo ≤ℤ fleet_cargo_capacity f.ships)
        × (cannot_pay fl r f.cargo (fuel_of r f) ≡ false)
        × (launch fl now user r f seconds (fuel_of r f) w ≡ ok (out, w'))
  unfolding prepare
  prepare-eq-ok now user f r w w' {out} h =
      let (_, w1, e1, h1) =
        >>=-eq-ok (fail_if (short_of_ships (w.ships r.id) f.ships) not_enough_ships) _ w h in
      let (covered, s1) =
        fail_if-eq-ok (short_of_ships (w.ships r.id) f.ships) not_enough_ships w w1 e1 in
      let (u, w2, e2, h2) = >>=-eq-ok (fetch (get_universe r.universe_id) not_found) _ w1 h1 in
      let (_, s2) = fetch-eq-ok (get_universe r.universe_id) not_found w1 w2 e2 in
      let beyond =
        ltb_ℤ u.galaxies_count f.target_galaxy || ltb_ℤ u.systems_count f.target_system in
      let (_, w3, e3, h3) = >>=-eq-ok (fail_if beyond outside_universe) _ w2 h2 in
      let (_, s3) = fail_if-eq-ok beyond outside_universe w2 w3 e3 in
      let full = ltb_ℤ (fleet_cargo_capacity f.ships) (cargo_sum f.cargo) in
      let (_, w4, e4, h4) = >>=-eq-ok (fail_if full cargo_exceeds_capacity) _ w3 h3 in
      let (fits, s4) = fail_if-eq-ok full cargo_exceeds_capacity w3 w4 e4 in
      let poor = cannot_pay fl r f.cargo (fuel_of r f) in
      let (_, w5, e5, h5) = >>=-eq-ok (fail_if poor insufficient_resources) _ w4 h4 in
      let (rich, s5) = fail_if-eq-ok poor insufficient_resources w4 w5 e5 in
      let units =
        distance r.galaxy r.system r.position f.target_galaxy f.target_system f.target_position in
      let seconds =
        flight_duration_seconds fl units (slowest_ship_speed fl f.ships (w1.researches user))
          u.speed_fleet f.speed_percent in
      (
        seconds,
        covered,
        ground arith,
        rich,
        subst (λ v. launch fl now user r f seconds (fuel_of r f) v ≡ ok (out, w'))
            (s5 ∙ s4 ∙ s3 ∙ s2 ∙ s1) h5,
      )

  dispatch_flight-eq-ok :
      (refreshed_at now : ℤ) (user : ℕ) (f : Flight) (w w' : World F) {out : PublicFleet}
      → dispatch_flight fl refreshed_at now user f w ≡ ok (out, w')
      → (r : Planet F) × (w1 : World F) × Refreshed fl refreshed_at user f.origin_planet_id r w w1
        × (prepare fl now user f r w1 ≡ ok (out, w'))
  unfolding dispatch_flight
  dispatch_flight-eq-ok refreshed_at now user f w w' {out} h =
      let k = f.origin_planet_id in
      let (p, w1, e1, h1) = >>=-eq-ok (fetch (get_planet k) not_found) _ w h in
      let (found, s1) = fetch-eq-ok (get_planet k) not_found w w1 e1 in
      let (_, w2, e2, h2) = >>=-eq-ok (fail_if (not (p.owner_user_id == user)) forbidden) _ w1 h1 in
      let (owned, s2) = fail_if-eq-ok (not (p.owner_user_id == user)) forbidden w1 w2 e2 in
      let (_, w3, e3, h3) = >>=-eq-ok (fail_if (targets_itself p f) target_is_origin) _ w2 h2 in
      let (_, s3) = fail_if-eq-ok (targets_itself p f) target_is_origin w2 w3 e3 in
      let (_, w4, e4, h4) = >>=-eq-ok (refresh_tx fl refreshed_at p.id) _ w3 h3 in
      let (r, w5, e5, h5) = >>=-eq-ok (fetch (get_planet k) not_found) _ w4 h4 in
      let (reread, s5) = fetch-eq-ok (get_planet k) not_found w4 w5 e5 in
      (
        r,
        w4,
        (
          p,
          found,
          ==→eq p.owner_user_id user (ground arith),
          subst (λ v. refresh_tx fl refreshed_at k v ≡ ok (tt, w4)) (s3 ∙ s2 ∙ s1)
              (subst (λ j. refresh_tx fl refreshed_at j w3 ≡ ok (tt, w4)) (get_planet-id k w found)
                e4),
          reread,
        ),
        subst (λ v. prepare fl now user f r v ≡ ok (out, w')) s5 h5,
      )

  -- What an accepted dispatch has worked out: the checked request, the refreshed planet, and that the
  -- transaction ends with the launch.
  abbrev pub Launched :
      (String → String) → ℤ → ℤ → ℕ → DispatchRequest → World F → PublicFleet → World F → Type 0
  Launched normalize refreshed_at now user request w out w' =
      (f : Flight) × (r : Planet F) × (w1 : World F) × (seconds : ℤ) × (checked_request normalize
          request
        ≡ ok f)
      × Refreshed fl refreshed_at user f.origin_planet_id r w w1
      × (short_of_ships (w1.ships r.id) f.ships ≡ false)
      × (cargo_sum f.cargo ≤ℤ fleet_cargo_capacity f.ships)
      × (cannot_pay fl r f.cargo (fuel_of r f) ≡ false)
      × (launch fl now user r f seconds (fuel_of r f) w1 ≡ ok (out, w'))

  pub dispatch-Launched :
      (normalize : String → String) (refreshed_at now : ℤ) (user : ℕ) (request : DispatchRequest)
      (w w' : World F) {out : PublicFleet}
      → dispatch fl normalize refreshed_at now user request w ≡ ok (out, w')
      → Launched normalize refreshed_at now user request w out w'
  unfolding dispatch
  dispatch-Launched normalize refreshed_at now user request w w' {out} h =
      let (f, checked, h0) =
        checked_run (checked_request normalize request)
          (λ g. dispatch_flight fl refreshed_at now user g w) h in
      let (r, w1, ready, h1) = dispatch_flight-eq-ok refreshed_at now user f w w' h0 in
      let (seconds, covered, room, rich, h2) = prepare-eq-ok now user f r w1 w' h1 in
      (f, r, w1, seconds, checked, ready, covered, room, rich, h2)
