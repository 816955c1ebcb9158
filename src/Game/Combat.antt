-- ===== src/Game/Combat.antt =====
-- The combat resolver (`internal/game/fleet.go`, from `CombatUnit` on).
pub mod Losses
pub mod Outcome
use Prim.Native.String.{String}
use text.Mathlib.Text.{◌==◌ as str_eq}
use terminal_army_go.Base.{List, [], ◌∷◌, ◌++◌, none, some, Bool, false, ◌&&◌, ◌||◌, if◌then◌else◌}
use terminal_army_go.Int.{ℤ, pos, ◌+ℤ◌, ◌-ℤ◌, ◌*ℤ◌, ◌/ℤ◌, ltb_ℤ, leb_ℤ, eqb_ℤ}
use terminal_army_go.Dict.{Dict, lookup, insert}
use terminal_army_go.Float.{Float64}
use terminal_army_go.Game.Ships.{ship_stats}
use terminal_army_go.Game.Defenses.{defense_stats}

pub record CombatUnit : Type 0 where
  pub name : String
  pub count : ℤ
  pub weapon : ℤ
  pub shield : ℤ
  pub armor : ℤ

-- `totalAttack`
unfoldable pub total_attack : List CombatUnit → ℤ
total_attack [] = pos 0
total_attack (u ∷ units) =
    (if ltb_ℤ (pos 0) u.count then u.count *ℤ u.weapon else pos 0) +ℤ total_attack units

-- `totalHPPool`
unfoldable pub total_hp_pool : List CombatUnit → ℤ
total_hp_pool [] = pos 0
total_hp_pool (u ∷ units) =
    (if ltb_ℤ (pos 0) u.count then u.count *ℤ (u.shield +ℤ u.armor) else pos 0)
    +ℤ total_hp_pool units

pub data Winner : Type 0 where
  attacker defender draw : Winner

-- The sum of the counts of one side.
unfoldable pub units_left : List CombatUnit → ℤ
units_left [] = pos 0
units_left (u ∷ units) = u.count +ℤ units_left units

-- The last `switch` of `SimulateCombat`.
unfoldable pub winner_of : ℤ → ℤ → Winner
winner_of atk_left def_left =
    if ltb_ℤ (pos 0) atk_left && eqb_ℤ def_left (pos 0)
    then attacker
    else if ltb_ℤ (pos 0) def_left && eqb_ℤ atk_left (pos 0)
    then defender
    else draw

pub record CombatResult : Type 0 where
  pub attacker_remaining : Dict ℤ
  pub defender_ships_remaining : Dict ℤ
  pub defender_defenses_remaining : Dict ℤ
  pub attacker_destroyed : Dict ℤ
  pub defender_ships_destroyed : Dict ℤ
  pub defender_defenses_destroyed : Dict ℤ
  pub attacker_total_attack : ℤ
  pub defender_total_attack : ℤ
  pub winner : Winner
  pub debris_metal : ℤ
  pub debris_crystal : ℤ

-- `for _, u := range units { m[u.Name] = u.Count }`
unfoldable pub remaining_from : Dict ℤ → List CombatUnit → Dict ℤ
remaining_from m [] = m
remaining_from m (u ∷ units) = remaining_from (insert u.name u.count m) units

-- The positive entries of a loss map.
unfoldable pub positive_from : Dict ℤ → Dict ℤ → Dict ℤ
positive_from m [] = m
positive_from m ((n, v) ∷ losses) =
    positive_from (if ltb_ℤ (pos 0) v then insert n v m else m) losses

-- `_, ok := names[n]` for the set of the names of `units`
unfoldable pub named_in : String → List CombatUnit → Bool
named_in n [] = false
named_in n (u ∷ units) = str_eq u.name n || named_in n units

-- The loop that sorts the defender's losses into ships and defenses.
unfoldable pub split_losses :
    List CombatUnit → List CombatUnit → Dict ℤ × Dict ℤ → Dict ℤ → Dict ℤ × Dict ℤ
split_losses ships defenses acc [] = acc
split_losses ships defenses (s, d) ((n, v) ∷ losses) =
    split_losses ships defenses
      (if leb_ℤ v (pos 0)
        then (s, d)
        else if named_in n ships
        then (insert n v s, d)
        else if named_in n defenses
        then (s, insert n v d)
        else (s, d))
      losses

module _ (fl : Float64) where
  open fl use {F, of_int, dec, mul, div, trunc, add}

  -- `applyTechMods`, one of its three results
  unfoldable pub apply_tech_mod : ℤ → ℤ → ℤ
  apply_tech_mod stat tech =
      trunc (mul (of_int stat) (add (of_int (pos 1)) (mul (dec (pos 10) 2) (of_int tech))))

  -- `BuildUnitsFromShips`
  unfoldable pub build_units_from_ships : Dict ℤ → ℤ → ℤ → ℤ → List CombatUnit
  unfolding apply_tech_mod
  build_units_from_ships [] weapons shielding armour = []
  build_units_from_ships ((st, count) ∷ ships) weapons shielding armour =
      let rest = build_units_from_ships ships weapons shielding armour in
      if leb_ℤ count (pos 0) then rest else elim (lookup st ship_stats) [
        | none ↦ rest
        | some stat ↦
            record {
              name = st;
              count = count;
              weapon = apply_tech_mod stat.weapon weapons;
              shield = apply_tech_mod stat.shield shielding;
              armor = apply_tech_mod stat.armor armour;
            }
            ∷ rest
      ]

  -- `BuildUnitsFromDefenses`
  unfoldable pub build_units_from_defenses : Dict ℤ → ℤ → ℤ → ℤ → List CombatUnit
  unfolding apply_tech_mod
  build_units_from_defenses [] weapons shielding armour = []
  build_units_from_defenses ((dt, count) ∷ defenses) weapons shielding armour =
      let rest = build_units_from_defenses defenses weapons shielding armour in
      if leb_ℤ count (pos 0) then rest else elim (lookup dt defense_stats) [
        | none ↦ rest
        | some stat ↦
            record {
              name = dt;
              count = count;
              weapon = apply_tech_mod stat.weapon weapons;
              shield = apply_tech_mod stat.shield shielding;
              armor = apply_tech_mod stat.armor armour;
            }
            ∷ rest
      ]

  -- How many units of one pool the loop of `applyDamage` kills.
  unfoldable pub killed_in : ℤ → ℤ → CombatUnit → ℤ
  killed_in total_damage total_hp u =
      let hp = u.shield +ℤ u.armor in
      let per_unit_hp = if ltb_ℤ hp (pos 1) then pos 1 else hp in
      let share = div (of_int (u.count *ℤ per_unit_hp)) (of_int total_hp) in
      let killed = trunc (mul (of_int total_damage) share) /ℤ per_unit_hp in
      if ltb_ℤ u.count killed then u.count else killed

  -- The loop of `applyDamage`: the slice as it is left, and the losses.
  unfoldable pub damage_from : ℤ → ℤ → Dict ℤ → List CombatUnit → List CombatUnit × Dict ℤ
  damage_from total_damage total_hp destroyed [] = ([], destroyed)
  damage_from total_damage total_hp destroyed (u ∷ units) =
      let killed = killed_in total_damage total_hp u in
      let skip = leb_ℤ u.count (pos 0) in
      let (units', destroyed') =
        damage_from total_damage total_hp
          (if skip then destroyed else insert u.name killed destroyed) units in
      ((if skip then u else record u { count = u.count -ℤ killed }) ∷ units', destroyed')

  -- `applyDamage`
  unfoldable pub apply_damage : List CombatUnit → ℤ → ℤ → List CombatUnit × Dict ℤ
  unfolding damage_from killed_in
  apply_damage units total_damage total_hp =
      if leb_ℤ total_hp (pos 0) then (units, []) else damage_from total_damage total_hp [] units

  -- `addShipDebris`: the metal and crystal added for one loss map.
  unfoldable pub add_ship_debris : ℤ × ℤ → Dict ℤ → ℤ × ℤ
  add_ship_debris acc [] = acc
  add_ship_debris (m, c) ((name, killed) ∷ losses) =
      add_ship_debris
        (if leb_ℤ killed (pos 0) then (m, c) else elim (lookup name ship_stats) [
          | none ↦ (m, c)
          | some stat ↦ (
            m +ℤ trunc (mul (mul (dec (pos 3) 1) (of_int stat.metal)) (of_int killed)),
            c +ℤ trunc (mul (mul (dec (pos 3) 1) (of_int stat.crystal)) (of_int killed)),
          )
        ])
        losses

  -- `SimulateCombat`. `append` copies the defender's units into the pool that takes the damage, so
  -- `ships` and `defenses` keep the counts that they came with; the attacker's own slice is mutated.
  unfoldable pub simulate_combat :
      List CombatUnit → List CombatUnit → List CombatUnit → CombatResult
  unfolding apply_damage
  simulate_combat attackers ships defenses =
      let atk_attack = total_attack attackers in
      let def_attack = total_attack ships +ℤ total_attack defenses in
      let def_hp = total_hp_pool ships +ℤ total_hp_pool defenses in
      let atk_hp = total_hp_pool attackers in
      let (pool, def_destroyed) = apply_damage (ships ++ defenses) atk_attack def_hp in
      let (attackers', atk_destroyed) = apply_damage attackers def_attack atk_hp in
      let (ships_destroyed, defenses_destroyed) =
        split_losses ships defenses ([], []) def_destroyed in
      let (debris_m, debris_c) =
        add_ship_debris (add_ship_debris (pos 0, pos 0) atk_destroyed) def_destroyed in
      record {
        attacker_remaining = remaining_from [] attackers';
        defender_ships_remaining = remaining_from [] ships;
        defender_defenses_remaining = remaining_from [] defenses;
        attacker_destroyed = positive_from [] atk_destroyed;
        defender_ships_destroyed = ships_destroyed;
        defender_defenses_destroyed = defenses_destroyed;
        attacker_total_attack = atk_attack;
        defender_total_attack = def_attack;
        winner = winner_of (units_left attackers') (units_left ships +ℤ units_left defenses);
        debris_metal = debris_m;
        debris_crystal = debris_c;
      }
