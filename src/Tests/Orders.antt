-- ===== src/Tests/Orders.antt =====
-- The theorems on refreshes and cancellations, at the same world.
use terminal_army_go.Base.{arith, ◌≡◌, refl, true, false, some}
use terminal_army_go.Int.{ℤ, pos, ◌-ℤ◌}
use terminal_army_go.Store.Tx.{Result, ok, err, already_resolved}
use terminal_army_go.Store.Rows.{Planet, QueueItem, World}
use terminal_army_go.Store.Planets.{get_planet, get_universe, update_planet_resources}
use terminal_army_go.Store.Queue.{cancel_queue_item, get_queue_item}
use terminal_army_go.Svc.Resources.{refresh_tx, refresh_row}
use terminal_army_go.Game.Buildings.{
  building_metal_storage, building_crystal_storage, building_deuterium_tank,
}
use terminal_army_go.Svc.Resources.{credit_window, report_for_planet, capacity_of}
use terminal_army_go.Svc.Resources.Refresh.{
  Solvent, Within, Kept, credit_window-Within, refresh_tx-Kept,
}
use terminal_army_go.Svc.Build.{cancel, refund}
use terminal_army_go.Svc.Build.Refunds.{credited, refund-Repaid}
use terminal_army_go.Svc.Build.Cancellation.{cancel_once}
use terminal_army_go.Tests.Sample.{row_of, home, world, is_ok, ok_parts, state_after}
use terminal_army_go.Tests.Exact.{exact, exact_laws}

unfoldable credit : Result (Unit {0} × World ℤ)
credit = credit_window exact (pos 7200000000000) home world

credit-is_ok : is_ok credit ≡ true
unfolding credit credit_window report_for_planet get_universe
credit-is_ok = refl

window_credited : credit_window exact (pos 7200000000000) home world ≡ ok (tt, state_after credit)
unfolding credit
window_credited = ok_parts tt credit credit-is_ok

credit_window-Within_example :
    (m : ℤ) × (c : ℤ) × (d : ℤ) × (state_after credit
      ≡ update_planet_resources 1 m c d (pos 7200000000000) world)
    × Within exact (capacity_of exact (world.buildings 1) building_metal_storage) m
    × Within exact (capacity_of exact (world.buildings 1) building_crystal_storage) c
    × Within exact (capacity_of exact (world.buildings 1) building_deuterium_tank) d
credit_window-Within_example =
    credit_window-Within exact exact_laws (pos 7200000000000) home world (state_after credit)
      window_credited

unfoldable refreshing : Result (Unit {0} × World ℤ)
refreshing = refresh_tx exact (pos 7200000000000) 1 world

refreshing-is_ok : is_ok refreshing ≡ true
unfolding refreshing refresh_tx refresh_row get_planet credit_window report_for_planet get_universe
    ◌-ℤ◌
refreshing-is_ok = refl

refreshed : refresh_tx exact (pos 7200000000000) 1 world ≡ ok (tt, state_after refreshing)
unfolding refreshing
refreshed = ok_parts tt refreshing refreshing-is_ok

home_found : get_planet 1 world ≡ some home
unfolding get_planet
home_found = refl

refresh_tx-Kept_example : Kept exact exact_laws 1 home world (state_after refreshing)
refresh_tx-Kept_example =
    refresh_tx-Kept exact exact_laws (pos 7200000000000) 1 home world (state_after refreshing)
      refreshed home_found (refl, refl, refl)

unfoldable cancelling : Result (Unit {0} × World ℤ)
cancelling = cancel exact (pos 120) (pos 130) 7 2 world

cancelling-is_ok : is_ok cancelling ≡ true
unfolding cancelling cancel refund get_queue_item cancel_queue_item get_planet refresh_tx
    refresh_row ◌-ℤ◌
cancelling-is_ok = refl

cancelled_row : cancel exact (pos 120) (pos 130) 7 2 world ≡ ok (tt, state_after cancelling)
unfolding cancelling
cancelled_row = ok_parts tt cancelling cancelling-is_ok

cancel_once_example :
    (item : QueueItem) × (get_queue_item 2 world ≡ some item)
    × (item.user_id ≡ 7)
    × (item.cancelled ≡ false)
    × (item.applied ≡ false)
    × (cancel exact (pos 140) (pos 150) 7 2 (state_after cancelling) ≡ err already_resolved)
cancel_once_example =
    cancel_once exact (pos 120) (pos 130) (pos 140) (pos 150) 7 2 world (state_after cancelling)
      cancelled_row

unfoldable refunding : Result (Unit {0} × World ℤ)
refunding = refund exact (pos 120) (pos 130) (row_of 2 "building" "solar_plant" 3 900) world

refunding-is_ok : is_ok refunding ≡ true
unfolding refunding refund get_planet refresh_tx refresh_row ◌-ℤ◌
refunding-is_ok = refl

refunded :
    refund exact (pos 120) (pos 130) (row_of 2 "building" "solar_plant" 3 900) world
    ≡ ok (tt, state_after refunding)
unfolding refunding
refunded = ok_parts tt refunding refunding-is_ok

refund-Repaid_example :
    let item = row_of 2 "building" "solar_plant" 3 900 in
    (r : Planet ℤ) × (w1 : World ℤ) × (refresh_tx exact (pos 120) 1 world ≡ ok (tt, w1))
    × (get_planet 1 w1 ≡ some r)
    × (get_planet 1 (state_after refunding) ≡ some (credited exact (pos 130) r item))
    × Solvent exact (credited exact (pos 130) r item)
refund-Repaid_example =
    refund-Repaid exact exact_laws (pos 120) (pos 130) (row_of 2 "building" "solar_plant" 3 900) 1
      home world (state_after refunding) refunded refl home_found (refl, refl, refl) (omega arith)
      (omega arith) (omega arith)
