-- ===== src/Scheduler/Fleet/Roundtrip.antt =====
-- A fleet that is dispatched, recalled and home again (`internal/svc/fleet.go`,
-- `internal/scheduler/fleet.go`).
use Prim.Native.String.{String}
use mathlib.Core.Path.{subst}
use mathlib.Core.Option.{some-injective}
use terminal_army_go.Base.{
  ℕ, ◌≡◌, refl, sym, ap, ◌∙◌, List, [], ◌∷◌, ◌++◌, Option, none, some, arith,
}
use terminal_army_go.Int.{ℤ, pos, ◌+ℤ◌, ◌≤ℤ◌}
use terminal_army_go.Dict.{Dict, level}
use terminal_army_go.Float.{Float64, Float64Laws}
use terminal_army_go.Store.Tx.{ok}
use terminal_army_go.Store.Rows.{Fleet, Planet, World}
use terminal_army_go.Store.Planets.{get_planet, get_planet-id}
use terminal_army_go.Store.Counts.{AllNonNeg, Distinct, positive→nonneg}
use terminal_army_go.Store.Fleets.{
  find_fleet, get_fleet, list_fleet_ships, new_fleet, set_fleet_return, set_fleet_status,
}
use terminal_army_go.Store.Fleets.Lookup.{get_fleet-id}
use terminal_army_go.Svc.Fleet.{DispatchRequest, Flight, PublicFleet}
use terminal_army_go.Svc.Fleet.Dispatch.{dispatch, outbound_row, target_planet}
use terminal_army_go.Svc.Fleet.Recall.{recall}
use terminal_army_go.Svc.Fleet.Requests.{checked_request-Checked}
use terminal_army_go.Svc.Fleet.Departure.{fuel_of}
use terminal_army_go.Svc.Fleet.Fare.{dispatch-Paid, paid}
use terminal_army_go.Svc.Fleet.Crew.{dispatch-Crewed}
use terminal_army_go.Svc.Fleet.Turning.{recall-turned, turned}
use terminal_army_go.Scheduler.Fleet.{Clock, handle_return}
use terminal_army_go.Scheduler.Fleet.Unloading.{handle_return-Unloaded}

-- A row that is appended is found, where no other has its number.
find_fleet-append :
    (k : ℕ) (rows : List Fleet) (f : Fleet)
    → f.id ≡ k
    → find_fleet k rows ≡ none
    → find_fleet k (rows ++ (f ∷ [])) ≡ some f
find_fleet-append k [] f same h = ground (arith, same)
find_fleet-append k (x ∷ rows) f same h = ground (arith, find_fleet-append k rows f same)

module _ (fl : Float64) where
  open fl use {F}

  ships_status : (k i : ℕ) (t : String) (u : World F) → (set_fleet_status i t u).ships k ≡ u.ships k
  unfolding set_fleet_status
  ships_status k i t u = refl

  ships_return : (k i : ℕ) (t : ℤ) (u : World F) → (set_fleet_return i t u).ships k ≡ u.ships k
  unfolding set_fleet_return
  ships_return k i t u = refl

  -- A recall leaves the fleet's ships and the planets as they are.
  recalled_state :
      (k j : ℕ) (now : ℤ) (user : ℕ) (w1 w2 : World F) {out : PublicFleet}
      → recall now user j w1 ≡ ok (out, w2)
      → (list_fleet_ships j w2 ≡ list_fleet_ships j w1) × (get_planet k w2 ≡ get_planet k w1)
  unfolding set_fleet_status set_fleet_return list_fleet_ships get_planet
  recalled_state k j now user w1 w2 h =
      let (_, _, _, crew) =
        recall-turned (list_fleet_ships j) now user j w1 w2 (λ i s u. refl) (λ i t u. refl) h in
      let (_, _, _, planet) =
        recall-turned (get_planet k) now user j w1 w2 (λ i s u. refl) (λ i t u. refl) h in
      (crew, planet)

  origin_of :
      (now : ℤ) (user : ℕ) (r : Planet F) (f : Flight) (target : Option ℕ) (seconds fuel : ℤ)
      → (outbound_row now user r f target seconds fuel).origin_planet_id ≡ r.id
  unfolding outbound_row
  origin_of now user r f target seconds fuel = refl

  module _ (laws : Float64Laws fl) where
    -- What the rest of the trip needs of a dispatch.
    abbrev Sent : ℕ → ℕ → World F → World F → Type 0
    Sent k j w w1 =
        (row : Fleet) × (p : Planet F) × (get_fleet j w1 ≡ some row)
        × (row.origin_planet_id ≡ k)
        × (get_planet k w1 ≡ some p)
        × Distinct (list_fleet_ships j w1)
        × AllNonNeg (list_fleet_ships j w1)
        × ((key : String)
            → (pos 0 ≤ℤ level (w1.ships k) key)
              × (level (w1.ships k) key +ℤ level (list_fleet_ships j w1) key
                  ≡ level (w.ships k) key))

    dispatch-Sent :
        (normalize : String → String) (refreshed_at now : ℤ) (user : ℕ) (request : DispatchRequest)
        (w w1 : World F) {out : PublicFleet}
        → w.fleet_ships w.next_fleet ≡ []
        → get_fleet w.next_fleet w ≡ none
        → ((j : String) → pos 0 ≤ℤ level (w.ships request.origin_planet_id) j)
        → dispatch fl normalize refreshed_at now user request w ≡ ok (out, w1)
        → Sent request.origin_planet_id w.next_fleet w w1
    unfolding get_fleet
    dispatch-Sent normalize refreshed_at now user request w w1 empty fresh stock sent =
        let k = request.origin_planet_id in
        let j = w.next_fleet in
        let (f, r, v, seconds, checked, ready, rows, crew, left) =
          dispatch-Crewed fl normalize refreshed_at now user request w w1 empty stock sent in
        let (f', r', _, checked', _, landed_on, _, _, _) =
          dispatch-Paid fl laws normalize refreshed_at now user request w w1 sent in
        let ((distinct, positive, _, _, _), _) =
          checked_request-Checked normalize request f checked in
        let (_, from') = checked_request-Checked normalize request f' checked' in
        let (_, _, _, _, reread) = ready in
        let row =
          new_fleet j (outbound_row now user r f (target_planet r f v) seconds (fuel_of fl r f)) in
        (
          row,
          paid fl now r' f',
          ap (find_fleet j) rows ∙ find_fleet-append j w.fleets row refl fresh,
          origin_of now user r f (target_planet r f v) seconds (fuel_of fl r f)
              ∙ get_planet-id k v reread,
          subst (λ i. get_planet i w1 ≡ some (paid fl now r' f')) from' landed_on,
          subst Distinct (sym crew) distinct,
          subst AllNonNeg (sym crew) (positive→nonneg f.ships positive),
          left,
        )

    -- With the arithmetic's laws, and where no fleet and no ships have the fleet number that is next and
    -- the planet's stock has no negative count: a dispatch, a recall of the fleet and its return leave the
    -- planet with exactly the ships of each type that it had.
    pub roundtrip_ships :
        (normalize : String → String) (refreshed_at now recalled_at : ℤ) (clock : Clock) (user : ℕ)
        (request : DispatchRequest) (g : Fleet) (w w1 w2 w3 : World F) {out back : PublicFleet}
        → w.fleet_ships w.next_fleet ≡ []
        → get_fleet w.next_fleet w ≡ none
        → ((j : String) → pos 0 ≤ℤ level (w.ships request.origin_planet_id) j)
        → dispatch fl normalize refreshed_at now user request w ≡ ok (out, w1)
        → recall recalled_at user w.next_fleet w1 ≡ ok (back, w2)
        → get_fleet w.next_fleet w2 ≡ some g
        → handle_return fl clock g w2 ≡ ok (tt, w3)
        → (key : String)
        → level (w3.ships request.origin_planet_id) key
          ≡ level (w.ships request.origin_planet_id) key
    roundtrip_ships normalize refreshed_at now recalled_at clock user request g w w1 w2 w3 empty
          fresh stock sent turned_back there unloaded key =
        let k = request.origin_planet_id in
        let j = w.next_fleet in
        let (row, p, launched, from, home, distinct, positive, left) =
          dispatch-Sent normalize refreshed_at now user request w w1 empty fresh stock sent in
        let (f, flying, turning, ships) =
          recall-turned (λ (u : World F). u.ships k) recalled_at user j w1 w2 (ships_status k)
            (ships_return k) turned_back in
        let (crew, planet) = recalled_state k j recalled_at user w1 w2 turned_back in
        let mine : g ≡ turned recalled_at row = some-injective g (turned recalled_at row) (
          sym there
          ∙ turning
          ∙ ap (λ x. some (turned recalled_at x)) (some-injective f row (sym flying ∙ launched))) in
        let number : g.id ≡ j = get_fleet-id j w2 there in
        let origin : g.origin_planet_id ≡ k = ap (λ (x : Fleet). x.origin_planet_id) mine ∙ from in
        let aboard : list_fleet_ships g.id w2 ≡ list_fleet_ships j w1 =
          ap (λ i. list_fleet_ships i w2) number ∙ crew in
        let grown =
          handle_return-Unloaded fl clock g g p w2 w3
            (ap (λ i. get_planet i w2) origin ∙ planet ∙ home)
            (ap (λ i. get_fleet i w2) number ∙ there) (subst Distinct (sym aboard) distinct)
            (subst AllNonNeg (sym aboard) positive)
            (λ i.
              subst (λ (m : Dict ℤ). pos 0 ≤ℤ level m i) (sym (ap w2.ships origin ∙ ships))
                (left i).0)
            unloaded in
        let (_, _, _, _, _, levels) = grown in
        subst
          (λ i.
            level (w3.ships i) key ≡ level (w2.ships i) key +ℤ level (list_fleet_ships g.id w2) key)
          origin (levels key)
        ∙ ap (λ m. level m key +ℤ level (list_fleet_ships g.id w2) key) ships
        ∙ ap (λ m. level (w1.ships k) key +ℤ level m key) aboard
        ∙ (left key).1
