-- ===== src/Game/Combat/Outcome.antt =====
-- Who wins a combat (`SimulateCombat` in `internal/game/fleet.go`).
use terminal_army_go.Base.{◌≡◌, List, arith}
use terminal_army_go.Int.{pos, ◌+ℤ◌, eq_of_parts}
use terminal_army_go.Float.{Float64}
use terminal_army_go.Game.Combat.{CombatUnit, attacker, winner_of, units_left, simulate_combat}

module _ (fl : Float64) where
  -- The attacker wins only against a side that had no unit to begin with. However large the damage,
  -- an attack on a planet with one ship or defense is never won.
  pub attacker_wins_only_undefended :
      (attackers ships defenses : List CombatUnit)
      → (simulate_combat fl attackers ships defenses).winner ≡ attacker
      → units_left ships +ℤ units_left defenses ≡ pos 0
  unfolding simulate_combat winner_of
  attacker_wins_only_undefended attackers ships defenses h =
      ground (arith, eq_of_parts (units_left ships +ℤ units_left defenses) (pos 0))
