-- ===== src/Svc/Research.antt =====
-- The research queue (`internal/svc/research.go`). `normalize` is `strings.ToLower` after
-- `strings.TrimSpace`.
pub mod Slot
use Prim.Native.String.{String}
use terminal_army_go.Base.{ℕ, false, not, Option, none, some, if◌then◌else◌}
use terminal_army_go.Int.{ℤ, pos, ◌+ℤ◌}
use terminal_army_go.Dict.{has, level}
use terminal_army_go.Float.{Float64}
use terminal_army_go.Game.Buildings.{building_research_lab}
use terminal_army_go.Game.Techs.{TechType, research_costs}
use terminal_army_go.Game.Formulas.{Cost, research_level_cost, research_time_seconds}
use terminal_army_go.Game.TechTree.{check_research_prereqs}
use terminal_army_go.Store.Tx.{
  Tx, not_found, insufficient_resources, queue_busy, prerequisite_not_met, unknown_key, ◌>>=◌, ◌>>◌,
  gets, fetch, or_fail, fail_if,
}
use terminal_army_go.Store.Rows.{Planet, QueueItem, World}
use terminal_army_go.Store.Planets.{get_universe, max_building_level_across_user}
use terminal_army_go.Store.Queue.{has_active_research}
use terminal_army_go.Svc.Orders.{PublicItem, finish_after, load_owned, lacks, debit_and_insert}

-- `parseTechType`
unfoldable pub parse_tech_type : (String → String) → String → Option TechType
parse_tech_type normalize key =
    if has (normalize key) research_costs then some (normalize key) else none

-- The row of a research order.
unfoldable pub research_row : ℕ → ℕ → TechType → ℤ → Cost → ℤ → ℤ → QueueItem
research_row planet_id user tech target cost seconds start = record {
  id = 0;
  planet_id = some planet_id;
  user_id = user;
  queue_type = "research";
  item_key = tech;
  target_level = target;
  count = pos 1;
  cost_metal = cost.metal;
  cost_crystal = cost.crystal;
  cost_deuterium = cost.deuterium;
  started_at = start;
  finished_at = finish_after start seconds;
  cancelled = false;
  applied = false;
}

module _ (fl : Float64) where
  open fl use {F, of_int}

  -- What `Queue` does once the planet is loaded.
  unfoldable pub place_research : ℤ → ℕ → Planet F → TechType → Tx (World F) PublicItem
  unfolding research_row
  place_research now user p tech = do
    busy ← gets (has_active_research user)
    fail_if busy queue_busy
    researches ← gets (λ w. w.researches user)
    lab ← gets (max_building_level_across_user user building_research_lab)
    let checked = check_research_prereqs tech lab researches
    fail_if (not checked.0) (prerequisite_not_met checked.1)
    let target = level researches tech +ℤ pos 1
    let cost = research_level_cost fl tech target
    fail_if (lacks fl p cost) insufficient_resources
    u ← fetch (get_universe p.universe_id) not_found
    let seconds = research_time_seconds fl cost.metal cost.crystal lab (of_int u.speed_research)
    debit_and_insert fl now p (research_row p.id user tech target cost seconds now)

  -- `Queue`
  unfoldable pub queue_research :
      (String → String) → ℤ → ℤ → ℕ → ℕ → String → Tx (World F) PublicItem
  unfolding place_research
  queue_research normalize refreshed_at now user planet_id key = do
    tech ← or_fail (parse_tech_type normalize key) (unknown_key key)
    p ← load_owned fl refreshed_at user planet_id
    place_research now user p tech
