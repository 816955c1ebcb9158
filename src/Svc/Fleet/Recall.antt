-- ===== src/Svc/Fleet/Recall.antt =====
-- Turning a fleet around (`Recall` of `internal/svc/fleet.go`).
use text.Mathlib.Text.{◌==◌ as str_eq}
use terminal_army_go.Base.{ℕ, ◌==◌, not, if◌then◌else◌}
use terminal_army_go.Int.{ℤ, pos, ◌+ℤ◌, ◌-ℤ◌, ltb_ℤ}
use terminal_army_go.Store.Tx.{
  Tx, not_found, forbidden, not_recallable, ◌>>=◌, ◌>>◌, pure, gets, modify, fetch, fail_if,
}
use terminal_army_go.Store.Rows.{World}
use terminal_army_go.Store.Fleets.{get_fleet, set_fleet_status, set_fleet_return, list_fleet_ships}
use terminal_army_go.Svc.Fleet.{PublicFleet, fleet_to_public}

-- The time that a fleet which turns around at `now` is back: `now` and the time since its departure,
-- which is taken as zero where it is negative.
unfoldable pub time_of_return : ℤ → ℤ → ℤ
time_of_return now departure =
    let elapsed = now -ℤ departure in now +ℤ (if ltb_ℤ elapsed (pos 0) then pos 0 else elapsed)

module _ {F : Type 0} where
  -- `Recall`
  unfoldable pub recall : ℤ → ℕ → ℕ → Tx (World F) PublicFleet
  unfolding time_of_return
  recall now user k = do
    f ← fetch (get_fleet k) not_found
    fail_if (not (f.owner_id == user)) forbidden
    fail_if (not (str_eq f.status "outbound")) not_recallable
    modify (set_fleet_status f.id "returning")
    modify (set_fleet_return f.id (time_of_return now f.departure_at))
    g ← fetch (get_fleet f.id) not_found
    ships ← gets (list_fleet_ships g.id)
    pure (fleet_to_public g ships)
