-- ===== src/Store/Fleets.antt =====
-- Queries on fleets and their ships (`internal/store/fleets.go`).
pub mod Lookup
use Prim.Native.String.{String}
use text.Mathlib.Text.{◌==◌ as str_eq}
use terminal_army_go.Base.{
  ℕ, suc, ◌==◌, ◌++◌, Bool, true, false, not, ◌&&◌, ◌||◌, List, [], ◌∷◌, select, Option, none, some,
  if◌then◌else◌,
}
use terminal_army_go.Int.{ℤ, pos, negsuc, pos_part, ◌-ℤ◌, ltb_ℤ, leb_ℤ}
use terminal_army_go.Dict.{Dict, insert}
use terminal_army_go.Store.Tx.{
  Tx, ok, err, value_out_of_range, no_matching_constraint, ◌>>=◌, ◌>>◌, fail_if,
}
use terminal_army_go.Store.Rows.{Fleet, World, update}
use terminal_army_go.Store.Queue.{limit}

-- `status IN ('outbound', 'holding', 'returning')`
unfoldable pub in_motion : Fleet → Bool
in_motion f = str_eq f.status "outbound" || str_eq f.status "holding" || str_eq f.status "returning"

-- `ORDER BY` on a time of a row, ascending
unfoldable pub insert_by_time : (Fleet → ℤ) → Fleet → List Fleet → List Fleet
insert_by_time time f [] = f ∷ []
insert_by_time time f (g ∷ rows) =
    if ltb_ℤ (time g) (time f) then g ∷ insert_by_time time f rows else f ∷ g ∷ rows

unfoldable pub by_time : (Fleet → ℤ) → List Fleet → List Fleet
unfolding insert_by_time
by_time time [] = []
by_time time (f ∷ rows) = insert_by_time time f (by_time time rows)

abbrev pub return_time : Fleet → ℤ
return_time f = elim f.return_at [ none ↦ pos 0 | some t ↦ t ]

-- The condition of `ListDueArrivals`
unfoldable pub is_due_arrival : ℤ → Fleet → Bool
is_due_arrival now f =
    str_eq f.status "outbound" && not f.arrival_processed && leb_ℤ f.arrival_at now

-- The condition of `ListDueReturns`
unfoldable pub is_due_return : ℤ → Fleet → Bool
is_due_return now f =
    str_eq f.status "returning"
    && not f.return_processed
    && elim f.return_at [ none ↦ false | some t ↦ leb_ℤ t now ]

abbrev pub find_fleet : ℕ → List Fleet → Option Fleet
find_fleet k [] = none
find_fleet k (f ∷ rows) = if f.id == k then some f else find_fleet k rows

-- `UPDATE fleets SET … WHERE id = $1`
abbrev pub update_fleets : ℕ → (Fleet → Fleet) → List Fleet → List Fleet
update_fleets k g [] = []
update_fleets k g (f ∷ rows) = (if f.id == k then g f else f) ∷ update_fleets k g rows

-- An INTEGER column holds 32 bits.
unfoldable pub fits_integer : ℤ → Bool
fits_integer x = leb_ℤ (negsuc 2147483647) x && leb_ℤ x (pos 2147483647)

-- The row that `InsertFleet` stores: its id from the sequence, the flags at their defaults.
abbrev pub new_fleet : ℕ → Fleet → Fleet
new_fleet k f = record f { id = k; arrival_processed = false; return_processed = false }

-- The numbers of a fleet that come from a request and a formula, and that its columns must hold.
unfoldable pub fleet_fits : Fleet → Bool
unfolding fits_integer
fleet_fits f =
    fits_integer f.target_galaxy
    && fits_integer f.target_system
    && fits_integer f.cargo_metal
    && fits_integer f.cargo_crystal
    && fits_integer f.cargo_deuterium
    && fits_integer f.fuel_cost

abbrev pub remove_key {ℓ} : {V : Type ℓ} → String → Dict V → Dict V
remove_key k [] = []
remove_key k ((j, v) ∷ m) = if str_eq j k then remove_key k m else (j, v) ∷ remove_key k m

abbrev pub marked_arrived : String → Option ℤ → Fleet → Fleet
marked_arrived status return_at f = record f {
  arrival_processed = true;
  status = status;
  return_at = elim return_at [ none ↦ f.return_at | some t ↦ some t ];
}

abbrev pub marked_returned : Fleet → Fleet
marked_returned f = record f { return_processed = true; status = "returned" }

abbrev pub with_cargo : ℤ → ℤ → ℤ → Fleet → Fleet
with_cargo m c d f = record f { cargo_metal = m; cargo_crystal = c; cargo_deuterium = d }

module _ {F : Type 0} where
  -- `GetFleet`
  unfoldable pub get_fleet : ℕ → World F → Option Fleet
  get_fleet k w = find_fleet k w.fleets

  -- `InsertFleet`
  unfoldable pub insert_fleet : Fleet → Tx (World F) Fleet
  unfolding fleet_fits
  insert_fleet f = do
    fail_if (not (fleet_fits f)) value_out_of_range
    (λ w. ok (
      new_fleet w.next_fleet f,
      record w {
        fleets = w.fleets ++ (new_fleet w.next_fleet f ∷ []);
        next_fleet = suc w.next_fleet;
      },
    ))

  -- `InsertFleetShip`
  unfoldable pub insert_fleet_ship : ℕ → String → ℤ → World F → World F
  insert_fleet_ship k ship count w = record w {
    fleet_ships = update w.fleet_ships k (w.fleet_ships k ++ ((ship, count) ∷ []));
  }

  -- `ListFleetsByOwner`, with `n` the requested limit; rows in descending order of departure
  unfoldable pub list_fleets_by_owner : ℕ → ℤ → World F → List Fleet
  unfolding by_time
  list_fleets_by_owner user n w =
      limit (if leb_ℤ n (pos 0) then 50 else pos_part n)
        (by_time (λ f. pos 0 -ℤ f.departure_at) (select (λ f. f.owner_id == user) w.fleets))

  -- `ListFleetsByOriginPlanet`
  unfoldable pub list_fleets_by_origin_planet : ℕ → World F → List Fleet
  unfolding by_time in_motion
  list_fleets_by_origin_planet k w =
      by_time (λ f. f.arrival_at) (select (λ f. (f.origin_planet_id == k) && in_motion f) w.fleets)

  -- `ListActiveFleetsByOwner`
  unfoldable pub list_active_fleets_by_owner : ℕ → World F → List Fleet
  unfolding by_time in_motion
  list_active_fleets_by_owner user w =
      by_time (λ f. f.arrival_at) (select (λ f. (f.owner_id == user) && in_motion f) w.fleets)

  -- `ListDueArrivals`; a row that another worker has locked is as if it were not due.
  unfoldable pub list_due_arrivals : ℤ → ℕ → World F → List Fleet
  unfolding by_time is_due_arrival
  list_due_arrivals now n w =
      limit n (by_time (λ f. f.arrival_at) (select (is_due_arrival now) w.fleets))

  -- `ListDueReturns`
  unfoldable pub list_due_returns : ℤ → ℕ → World F → List Fleet
  unfolding by_time is_due_return
  list_due_returns now n w = limit n (by_time return_time (select (is_due_return now) w.fleets))

  abbrev pub with_fleets : List Fleet → World F → World F
  with_fleets rows w = record w { fleets = rows }

  -- `SetFleetStatus`
  unfoldable pub set_fleet_status : ℕ → String → World F → World F
  set_fleet_status k status w =
      with_fleets (update_fleets k (λ f. record f { status = status }) w.fleets) w

  -- `SetFleetReturn`
  unfoldable pub set_fleet_return : ℕ → ℤ → World F → World F
  set_fleet_return k return_at w =
      with_fleets (update_fleets k (λ f. record f { return_at = some return_at }) w.fleets) w

  -- `MarkArrivalProcessed`
  unfoldable pub mark_arrival_processed : ℕ → String → Option ℤ → World F → World F
  mark_arrival_processed k status return_at w =
      with_fleets (update_fleets k (marked_arrived status return_at) w.fleets) w

  -- `MarkReturnProcessed`
  unfoldable pub mark_return_processed : ℕ → World F → World F
  mark_return_processed k w = with_fleets (update_fleets k marked_returned w.fleets) w

  -- `UpdateFleetCargo`
  unfoldable pub update_fleet_cargo : ℕ → ℤ → ℤ → ℤ → World F → World F
  update_fleet_cargo k m c d w = with_fleets (update_fleets k (with_cargo m c d) w.fleets) w

  -- `ListFleetShips`
  unfoldable pub list_fleet_ships : ℕ → World F → Dict ℤ
  list_fleet_ships k w = w.fleet_ships k

  -- `DeleteFleet`, which cascades to the ships
  unfoldable pub delete_fleet : ℕ → World F → World F
  delete_fleet k w = record w {
    fleets = select (λ f. not (f.id == k)) w.fleets;
    fleet_ships = update w.fleet_ships k [];
  }

  -- `SetFleetShipCount`: the schema has no unique constraint on (fleet_id, ship_type), without which
  -- PostgreSQL refuses the `ON CONFLICT` clause, whatever the row.
  unfoldable pub set_fleet_ship_count : ℕ → String → ℤ → Tx (World F) (Unit {0})
  set_fleet_ship_count k ship count w = err no_matching_constraint

  -- `DeleteFleetShip`
  unfoldable pub delete_fleet_ship : ℕ → String → World F → World F
  delete_fleet_ship k ship w = record w {
    fleet_ships = update w.fleet_ships k (remove_key ship (w.fleet_ships k));
  }
