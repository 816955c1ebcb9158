-- ===== src/Tests/Newcomers.antt =====
-- The theorems on joining a universe.
use terminal_army_go.Base.{ℕ, suc, ◌==◌, ◌≡◌, refl, true, false, some, arith, if◌then◌else◌}
use terminal_army_go.Int.{ℤ, pos, ◌+ℤ◌, ◌-ℤ◌, ◌/ℤ◌}
use terminal_army_go.Game.Colonization.{
  fields_ranges_by_position, generate_planet_attributes, temperature_ranges_by_position,
}
use terminal_army_go.Store.Tx.{Result, ok, err, already_in_universe}
use terminal_army_go.Store.Rows.{Planet, Universe, World}
use terminal_army_go.Store.Planets.{get_planet_by_coord, get_universe}
use terminal_army_go.Store.Colonies.{
  create_planet, get_planet_by_code, list_planets_by_owner, planets_in_order,
}
use terminal_army_go.Store.Users.{set_current_universe}
use terminal_army_go.Svc.Universe.{
  Dice, homeworld_row, is_unique_violation, join_universe, settle_at, settled_in, try_slots,
}
use terminal_army_go.Svc.Universe.Settling.{
  Fair, Settled, join_universe-Settled, join_universe_once,
}
use terminal_army_go.Tests.Sample.{home, is_ok, ok_parts, result_or, state_after, world}
use terminal_army_go.Tests.Exact.{exact}

-- Every number is zero, and the first code is taken.
abbrev zeros : Dice ℕ
zeros = record {
  intn = λ n s. (pos 0, s);
  new_code = λ s. (if s == 0 then "home" else "2345ABCD", suc s);
  char_count = λ c. 8;
}

zeros-Fair : Fair zeros.intn
zeros-Fair n s h = (omega arith, h)

unfoldable joining : Result (Planet ℤ × World ℤ)
joining = join_universe zeros exact (pos 700) 8 1 0 world

joining-is_ok : is_ok joining ≡ true
unfolding joining join_universe get_universe list_planets_by_owner planets_in_order settled_in
    try_slots settle_at homeworld_row is_unique_violation create_planet get_planet_by_code
    get_planet_by_coord set_current_universe generate_planet_attributes
    temperature_ranges_by_position fields_ranges_by_position ◌+ℤ◌ ◌-ℤ◌ ◌/ℤ◌
joining-is_ok = refl

joined :
    join_universe zeros exact (pos 700) 8 1 0 world
    ≡ ok (result_or home joining, state_after joining)
unfolding joining
joined = ok_parts home joining joining-is_ok

join_universe-Settled_example :
    ((u : Universe) × (get_universe 1 world ≡ some u))
    × (settled_in 1 (list_planets_by_owner 8 world) ≡ false)
    × Settled 8 1 (result_or home joining) world (state_after joining)
join_universe-Settled_example =
    join_universe-Settled zeros exact (pos 700) 8 1 0 (result_or home joining) world
      (state_after joining) zeros-Fair joined

join_universe_once_example :
    join_universe zeros exact (pos 900) 8 1 5 (state_after joining) ≡ err already_in_universe
join_universe_once_example =
    join_universe_once zeros exact (pos 700) (pos 900) 8 1 0 5 (result_or home joining) world
      (state_after joining) zeros-Fair joined
