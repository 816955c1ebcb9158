-- ===== src/Scheduler.antt =====
-- The sweep over the build queue (`internal/scheduler/scheduler.go`). A call of the event sink that
-- announces a completed item is not modelled: it reads and writes no table.
pub mod Sweep
pub mod Fleet
use text.Mathlib.Text.{◌==◌ as str_eq}
use terminal_army_go.Base.{ℕ, List, [], ◌∷◌, Option, none, some, if◌then◌else◌}
use terminal_army_go.Int.{ℤ, pos, leb_ℤ}
use terminal_army_go.Store.Tx.{
  Tx, ok, err, missing_planet_id, invalid_queue_type, ◌>>=◌, ◌>>◌, pure, fail, modify,
}
use terminal_army_go.Store.Rows.{QueueItem, World}
use terminal_army_go.Store.Planets.{
  increment_building_level, increment_planet_fields, increment_research_level, add_ships,
  add_defenses,
}
use terminal_army_go.Store.Queue.{list_due_queue_items, mark_queue_applied}

-- `batchSize`
abbrev pub batch_size : ℕ
batch_size = 50

-- The number of units that a row adds.
unfoldable pub delta_of : QueueItem → ℤ
delta_of q = if leb_ℤ q.count (pos 0) then pos 1 else q.count

module _ {F : Type 0} where
  -- `applyBuilding`
  unfoldable pub apply_building : QueueItem → Tx (World F) (Unit {0})
  apply_building q = elim q.planet_id [
    | none ↦ fail missing_planet_id
    | some k ↦ do
      modify (increment_building_level k q.item_key (pos 1))
      modify (increment_planet_fields k (pos 1))
  ]

  -- `applyResearch`
  unfoldable pub apply_research : QueueItem → Tx (World F) (Unit {0})
  apply_research q = modify (increment_research_level q.user_id q.item_key (pos 1))

  -- `applyShip`
  unfoldable pub apply_ship : QueueItem → Tx (World F) (Unit {0})
  unfolding delta_of
  apply_ship q = elim q.planet_id [
    | none ↦ fail missing_planet_id
    | some k ↦ modify (add_ships k q.item_key (delta_of q))
  ]

  -- `applyDefense`
  unfoldable pub apply_defense : QueueItem → Tx (World F) (Unit {0})
  unfolding delta_of
  apply_defense q = elim q.planet_id [
    | none ↦ fail missing_planet_id
    | some k ↦ modify (add_defenses k q.item_key (delta_of q))
  ]

  -- `applyOne`
  unfoldable pub apply_one : QueueItem → Tx (World F) (Unit {0})
  unfolding apply_building apply_research apply_ship apply_defense
  apply_one q =
      if str_eq q.queue_type "building"
      then apply_building q
      else if str_eq q.queue_type "research"
      then apply_research q
      else if str_eq q.queue_type "ship"
      then apply_ship q
      else if str_eq q.queue_type "defense"
      then apply_defense q
      else fail invalid_queue_type

  -- One turn of the loop of `queueSweep`: an item that cannot be applied is skipped.
  unfoldable pub sweep_one : QueueItem → World F → World F
  unfolding apply_one
  sweep_one q w = elim (apply_one q w) [ err _ ↦ w | ok (_, w') ↦ mark_queue_applied q.id w' ]

  -- The loop of `queueSweep`
  unfoldable pub sweep_all : List QueueItem → World F → World F
  unfolding sweep_one
  sweep_all [] w = w
  sweep_all (q ∷ due) w = sweep_all due (sweep_one q w)

  -- `queueSweep`
  unfoldable pub queue_sweep : ℤ → World F → World F
  unfolding sweep_all
  queue_sweep now w = sweep_all (list_due_queue_items now batch_size w) w
