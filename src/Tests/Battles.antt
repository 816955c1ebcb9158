-- ===== src/Tests/Battles.antt =====
-- The theorems on combat, at concrete inputs.
use terminal_army_go.Base.{◌≡◌, refl, List, [], ◌∷◌, arith}
use terminal_army_go.Int.{pos, ◌+ℤ◌, ◌-ℤ◌, ◌*ℤ◌, ◌/ℤ◌}
use terminal_army_go.Game.Combat.{
  CombatUnit, units_left, winner_of, attacker, simulate_combat, apply_damage, total_attack,
  total_hp_pool, named_in,
}
use terminal_army_go.Game.Combat.Losses.{Distinct, Accounted, apply_damage-Accounted}
use terminal_army_go.Game.Combat.Outcome.{attacker_wins_only_undefended}
use terminal_army_go.Tests.Exact.{exact}

abbrev fighters : List CombatUnit
fighters =
    record {
      name = "light_fighter";
      count = pos 10;
      weapon = pos 50;
      shield = pos 10;
      armor = pos 400;
    }
    ∷ record {
      name = "cruiser";
      count = pos 2;
      weapon = pos 400;
      shield = pos 50;
      armor = pos 2700;
    }
    ∷ []

fighters-Distinct : Distinct fighters
unfolding named_in
fighters-Distinct = (refl, (refl, tt))

apply_damage-Accounted_example :
    let r = apply_damage exact fighters (pos 3000) (pos 9600) in Accounted r.1 fighters r.0
apply_damage-Accounted_example =
    apply_damage-Accounted exact fighters (pos 3000) (pos 9600) fighters-Distinct (omega arith)

-- Nobody is at home.
unopposed : (simulate_combat exact fighters [] []).winner ≡ attacker
unfolding simulate_combat winner_of units_left apply_damage total_attack total_hp_pool ◌+ℤ◌ ◌-ℤ◌
    ◌*ℤ◌ ◌/ℤ◌
unopposed = refl

attacker_wins_only_undefended_example : units_left [] +ℤ units_left [] ≡ pos 0
attacker_wins_only_undefended_example = attacker_wins_only_undefended exact fighters [] [] unopposed
