-- ===== src/Svc/Fleet/Crew.antt =====
-- The ships of a dispatched fleet (`Dispatch` of `internal/svc/fleet.go`).
use Prim.Native.String.{String}
use mathlib.Core.Path.{subst}
use terminal_army_go.Base.{ℕ, ◌≡◌, refl, sym, ap, ◌∙◌, false, [], ◌∷◌, ◌++◌}
use terminal_army_go.Int.{ℤ, pos, ◌+ℤ◌, ◌-ℤ◌, ◌≤ℤ◌, int_laws}
use terminal_army_go.Dict.{level}
use terminal_army_go.Float.{Float64}
use terminal_army_go.Store.Tx.{ok}
use terminal_army_go.Store.Rows.{Fleet, Planet, World}
use terminal_army_go.Store.Planets.{get_planet-id, add_ships, update_planet_resources}
use terminal_army_go.Store.Counts.{AllPositive, Distinct}
use terminal_army_go.Store.Fleets.{insert_fleet_ship, new_fleet, list_fleet_ships}
use terminal_army_go.Svc.Resources.Frame.{Untouched, refresh_tx-keeps}
use terminal_army_go.Svc.Fleet.{DispatchRequest, Flight, PublicFleet, checked_request}
use terminal_army_go.Svc.Fleet.Dispatch.{
  board_ships, dispatch, launch, outbound_row, short_of_ships, target_planet,
}
use terminal_army_go.Svc.Fleet.Requests.{checked_request-Checked}
use terminal_army_go.Svc.Fleet.Stock.{
  board_ships-boarded, board_ships-keeps, covered-level, take_ships-keeps, take_ships-level,
}
use terminal_army_go.Svc.Resources.Refresh.{Refreshed}
use terminal_army_go.Svc.Fleet.Departure.{
  debited_world, dispatch-Launched, fuel_of, launch-eq-ok, with_row,
}

restored : (n c : ℤ) → n -ℤ c +ℤ c ≡ n
restored n c = omega int_laws

not_negative : (n c : ℤ) → c ≤ℤ n → pos 0 ≤ℤ n -ℤ c
not_negative n c h = omega int_laws

module _ (fl : Float64) where
  open fl use {F}

  launch-stock :
      (now : ℤ) (user : ℕ) (r : Planet F) (f : Flight) (seconds fuel : ℤ) (w w' : World F)
      {out : PublicFleet} (key : String)
      → Distinct f.ships
      → AllPositive f.ships
      → short_of_ships (w.ships r.id) f.ships ≡ false
      → launch fl now user r f seconds fuel w ≡ ok (out, w')
      → level (w'.ships r.id) key ≡ level (w.ships r.id) key -ℤ level f.ships key
  unfolding insert_fleet_ship update_planet_resources
  launch-stock now user r f seconds fuel w w' key d p covered h =
      let row = outbound_row now user r f (target_planet r f w) seconds fuel in
      let v = debited_world fl now r f fuel w in
      let (_, after, _) = launch-eq-ok fl now user r f seconds fuel w w' h in
      ap (λ (u : World F). level (u.ships r.id) key) after
      ∙ board_ships-keeps (λ (u : World F). level (u.ships r.id) key) (λ j k n u. refl) v.next_fleet
          f.ships (with_row fl row v)
      ∙ take_ships-level r.id f.ships _ key d p covered

  -- The number of the fleet is the sequence's next.
  debited-next :
      (now : ℤ) (r : Planet F) (f : Flight) (fuel : ℤ) (w : World F)
      → (debited_world fl now r f fuel w).next_fleet ≡ w.next_fleet
  unfolding add_ships update_planet_resources
  debited-next now r f fuel w =
      take_ships-keeps (λ (u : World F). u.next_fleet) (λ j k n u. refl) r.id f.ships _

  launch-crew :
      (now : ℤ) (user : ℕ) (r : Planet F) (f : Flight) (seconds fuel : ℤ) (w w' : World F)
      {out : PublicFleet}
      → w.fleet_ships w.next_fleet ≡ []
      → launch fl now user r f seconds fuel w ≡ ok (out, w')
      → list_fleet_ships w.next_fleet w' ≡ f.ships
  unfolding add_ships update_planet_resources list_fleet_ships
  launch-crew now user r f seconds fuel w w' empty h =
      let row = outbound_row now user r f (target_planet r f w) seconds fuel in
      let v = debited_world fl now r f fuel w in
      let (_, after, _) = launch-eq-ok fl now user r f seconds fuel w w' h in
      let next : v.next_fleet ≡ w.next_fleet = debited-next now r f fuel w in
      ap (λ (u : World F). u.fleet_ships w.next_fleet) after
      ∙ ap (λ j. (board_ships v.next_fleet f.ships (with_row fl row v)).fleet_ships j) (sym next)
      ∙ board_ships-boarded v.next_fleet f.ships (with_row fl row v) (
          take_ships-keeps (λ (u : World F). u.fleet_ships v.next_fleet) (λ j k n u. refl) r.id
            f.ships _
          ∙ ap w.fleet_ships next
          ∙ empty)

  launch-row :
      (now : ℤ) (user : ℕ) (r : Planet F) (f : Flight) (seconds fuel : ℤ) (w w' : World F)
      {out : PublicFleet}
      → launch fl now user r f seconds fuel w ≡ ok (out, w')
      → w'.fleets
        ≡ w.fleets
          ++ (new_fleet w.next_fleet (outbound_row now user r f (target_planet r f w) seconds fuel)
              ∷ [])
  unfolding add_ships insert_fleet_ship update_planet_resources
  launch-row now user r f seconds fuel w w' h =
      let row = outbound_row now user r f (target_planet r f w) seconds fuel in
      let v = debited_world fl now r f fuel w in
      let (_, after, _) = launch-eq-ok fl now user r f seconds fuel w w' h in
      ap (λ (u : World F). u.fleets) after
      ∙ board_ships-keeps (λ (u : World F). u.fleets) (λ j k n u. refl) v.next_fleet f.ships
          (with_row fl row v)
      ∙ ap (λ rows. rows ++ (new_fleet v.next_fleet row ∷ []))
          (take_ships-keeps (λ (u : World F). u.fleets) (λ j k n u. refl) r.id f.ships _)
      ∙ ap (λ j. w.fleets ++ (new_fleet j row ∷ [])) (debited-next now r f fuel w)

  next_fleet-Untouched : Untouched fl (λ u. u.next_fleet)
  unfolding update_planet_resources
  next_fleet-Untouched k m c d t w = refl

  ships-Untouched : Untouched fl (λ u. u.ships)
  unfolding update_planet_resources
  ships-Untouched k m c d t w = refl

  fleets-Untouched : Untouched fl (λ u. u.fleets)
  unfolding update_planet_resources
  fleets-Untouched k m c d t w = refl

  fleet_ships-Untouched : Untouched fl (λ u. u.fleet_ships)
  unfolding update_planet_resources
  fleet_ships-Untouched k m c d t w = refl

  -- Where no ships belong to the fleet number that is next, and the planet's stock has no negative count:
  -- an accepted dispatch appends one row, the fleet's, with that number and the ships of the checked
  -- request. Of each type, the ships that the planet keeps and those of the fleet are together the ships
  -- that the planet had, and the planet keeps no negative number.
  pub dispatch-Crewed :
      (normalize : String → String) (refreshed_at now : ℤ) (user : ℕ) (request : DispatchRequest)
      (w w' : World F) {out : PublicFleet}
      → w.fleet_ships w.next_fleet ≡ []
      → ((j : String) → pos 0 ≤ℤ level (w.ships request.origin_planet_id) j)
      → dispatch fl normalize refreshed_at now user request w ≡ ok (out, w')
      → (f : Flight) × (r : Planet F) × (w1 : World F) × (seconds : ℤ) × (checked_request normalize
            request
          ≡ ok f)
        × Refreshed fl refreshed_at user request.origin_planet_id r w w1
        × (w'.fleets
            ≡ w.fleets
              ++ (new_fleet w.next_fleet
                    (outbound_row now user r f (target_planet r f w1) seconds (fuel_of fl r f))
                  ∷ []))
        × (list_fleet_ships w.next_fleet w' ≡ f.ships)
        × ((key : String)
            → (pos 0 ≤ℤ level (w'.ships request.origin_planet_id) key)
              × (level (w'.ships request.origin_planet_id) key
                    +ℤ level (list_fleet_ships w.next_fleet w') key
                  ≡ level (w.ships request.origin_planet_id) key))
  dispatch-Crewed normalize refreshed_at now user request w w' empty stock h =
      let (f, r, w1, seconds, checked, ready, covered, _, _, launched) =
        dispatch-Launched fl normalize refreshed_at now user request w w' h in
      let ((distinct, positive, _, _, _), from) =
        checked_request-Checked normalize request f checked in
      let k = request.origin_planet_id in
      let ready' = subst (λ j. Refreshed fl refreshed_at user j r w w1) from ready in
      let (_, _, _, refreshed, reread) = ready' in
      let here : r.id ≡ k = get_planet-id k w1 reread in
      let fuel = fuel_of fl r f in
      let row_of : ℕ → Fleet =
        λ j. new_fleet j (outbound_row now user r f (target_planet r f w1) seconds fuel) in
      let number =
        refresh_tx-keeps fl (λ u. u.next_fleet) next_fleet-Untouched refreshed_at k w w1
          refreshed in
      let ships =
        refresh_tx-keeps fl (λ u. u.ships) ships-Untouched refreshed_at k w w1 refreshed in
      let crews =
        refresh_tx-keeps fl (λ u. u.fleet_ships) fleet_ships-Untouched refreshed_at k w w1
          refreshed in
      let left : (key : String)
          → level (w'.ships k) key ≡ level (w.ships k) key -ℤ level f.ships key =
        λ key.
          subst (λ j. level (w'.ships j) key ≡ level (w1.ships j) key -ℤ level f.ships key) here
            (launch-stock now user r f seconds fuel w1 w' key distinct positive covered launched)
          ∙ ap (λ m. level (m k) key -ℤ level f.ships key) ships in
      let enough : (key : String) → level f.ships key ≤ℤ level (w.ships k) key = λ key.
        covered-level f.ships (w.ships k) key distinct stock (
          subst (λ m. short_of_ships m f.ships ≡ false) (ap w1.ships here ∙ ap (λ m. m k) ships)
            covered) in
      let crew =
        subst (λ j. list_fleet_ships j w' ≡ f.ships) number
          (launch-crew now user r f seconds fuel w1 w'
            (ap w1.fleet_ships number ∙ ap (λ m. m w.next_fleet) crews ∙ empty) launched) in
      (
        f,
        r,
        w1,
        seconds,
        checked,
        ready',
        launch-row now user r f seconds fuel w1 w' launched
            ∙ ap (λ rows. rows ++ (row_of w1.next_fleet ∷ []))
                (refresh_tx-keeps fl (λ u. u.fleets) fleets-Untouched refreshed_at k w w1 refreshed)
            ∙ ap (λ j. w.fleets ++ (row_of j ∷ [])) number,
        crew,
        λ key. (
          subst (λ x. pos 0 ≤ℤ x) (sym (left key))
              (not_negative (level (w.ships k) key) (level f.ships key) (enough key)),
          ap (λ m. level (w'.ships k) key +ℤ level m key) crew
              ∙ ap (λ x. x +ℤ level f.ships key) (left key)
              ∙ restored (level (w.ships k) key) (level f.ships key),
        ),
      )
