-- ===== src/Tests/Voyages.antt =====
-- The theorems on arrivals and returns, at the harbor with a fleet in flight.
use Prim.Native.String.{String}
use terminal_army_go.Base.{refl, [], ◌∷◌}
use terminal_army_go.Int.{ℤ, pos, ◌+ℤ◌, ◌≤ℤ◌}
use terminal_army_go.Dict.{Dict}
use terminal_army_go.Game.Fleet.{fleet_cargo_capacity}
use terminal_army_go.Store.Tx.{Result}
use terminal_army_go.Store.Rows.{World}
use terminal_army_go.Svc.Fleet.Fare.{whole_cargo}
use terminal_army_go.Svc.Fleet.Requests.{NonNegCargo}
use terminal_army_go.Scheduler.Fleet.{handle_return, resolve_transport}
use terminal_army_go.Scheduler.Fleet.Attack.{loot_of}
use terminal_army_go.Scheduler.Fleet.Loot.{loot_of-Fits}
use terminal_army_go.Tests.Sample.{home}
use terminal_army_go.Tests.Harbor.{at_sea, freighter, timetable}
use terminal_army_go.Tests.Exact.{exact, exact_halving}

unfoldable delivering : Result (Unit {0} × World ℤ)
delivering = resolve_transport exact timetable freighter (at_sea freighter)

unfoldable unloading : Result (Unit {0} × World ℤ)
unloading = handle_return exact timetable freighter (at_sea freighter)

loot_of-Fits_example :
    let survivors : Dict ℤ = ("small_cargo", pos 3) ∷ [] in
    let loot = loot_of exact freighter home survivors in
    let before = pos 900 +ℤ pos 100 +ℤ pos 0 in
    NonNegCargo loot
    × (loot.metal +ℤ loot.metal ≤ℤ home.metal)
    × (loot.crystal +ℤ loot.crystal ≤ℤ home.crystal)
    × (loot.deuterium +ℤ loot.deuterium ≤ℤ home.deuterium)
    × (before ≤ℤ fleet_cargo_capacity survivors
        → whole_cargo loot +ℤ before ≤ℤ fleet_cargo_capacity survivors)
loot_of-Fits_example =
    loot_of-Fits exact exact_halving freighter home (("small_cargo", pos 3) ∷ []) (refl, refl, refl)
      (refl, refl, refl)
