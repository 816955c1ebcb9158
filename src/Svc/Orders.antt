-- ===== src/Svc/Orders.antt =====
-- What the commands that fill the build queue share (`internal/svc/build.go`, `shipyard.go`,
-- `research.go`): the planet is loaded and brought up to date, the funds are compared, and at the
-- end the pools are debited and a row is inserted. `now` is the time that a command reads after the
-- refresh, `db_now` what `NOW()` gives in the transaction.
pub mod Payment
use Prim.Native.String.{String}
use terminal_army_go.Base.{ℕ, ◌==◌, Bool, not, ◌||◌, List, [], ◌∷◌, Option, some, if◌then◌else◌}
use terminal_army_go.Int.{ℤ, ◌*ℤ◌, ◌+ℤ◌, ltb_ℤ, wrap64}
use terminal_army_go.Float.{Float64}
use terminal_army_go.Game.Formulas.{Cost}
use terminal_army_go.Store.Tx.{
  Tx, Error, not_found, forbidden, ◌>>=◌, ◌>>◌, ok, pure, gets, modify, fetch, fail_if,
}
use terminal_army_go.Store.Rows.{Planet, QueueItem, World}
use terminal_army_go.Store.Planets.{get_planet, update_planet_resources}
use terminal_army_go.Store.Queue.{latest_active_queue_finish, insert_queue_item}
use terminal_army_go.Svc.Resources.{second, refresh_tx}

-- The public view of a row.
pub record PublicItem : Type 0 where
  pub id : ℕ
  pub planet_id : Option ℕ
  pub user_id : ℕ
  pub queue_type : String
  pub item_key : String
  pub target_level : ℤ
  pub count : ℤ
  pub started_at : ℤ
  pub finished_at : ℤ

-- `queueItemToPublic`
unfoldable pub queue_item_to_public : QueueItem → PublicItem
queue_item_to_public q = record {
  id = q.id;
  planet_id = q.planet_id;
  user_id = q.user_id;
  queue_type = q.queue_type;
  item_key = q.item_key;
  target_level = q.target_level;
  count = q.count;
  started_at = q.started_at;
  finished_at = q.finished_at;
}

-- `start.Add(time.Duration(seconds) * time.Second)`, whose product wraps around
unfoldable pub finish_after : ℤ → ℤ → ℤ
finish_after start seconds = start +ℤ wrap64 (seconds *ℤ second)

module _ (fl : Float64) where
  open fl use {F, of_int, sub, trunc}

  -- The planet of a command: found, owned by the user, and brought up to date.
  unfoldable pub load_owned : ℤ → ℕ → ℕ → Tx (World F) (Planet F)
  unfolding refresh_tx
  load_owned refreshed_at user planet_id = do
    p ← fetch (get_planet planet_id) not_found
    fail_if (not (p.owner_user_id == user)) forbidden
    refresh_tx fl refreshed_at p.id
    fetch (get_planet planet_id) not_found

  -- `int(planet.Metal) < costMetal || …`
  unfoldable pub lacks : Planet F → Cost → Bool
  lacks p cost =
      ltb_ℤ (trunc p.metal) cost.metal
      || ltb_ℤ (trunc p.crystal) cost.crystal
      || ltb_ℤ (trunc p.deuterium) cost.deuterium

  -- The start of a build: now, or the queue's last finish where that is later.
  unfoldable pub chained_start : ℕ → List QueueItem → ℤ → ℤ → Tx (World F) ℤ
  chained_start k [] db_now now = pure now
  chained_start k (_ ∷ _) db_now now = do
    tail ← gets (latest_active_queue_finish k db_now)
    pure (if ltb_ℤ now tail then tail else now)

  -- The debit and the insertion with which each command ends.
  unfoldable pub debit_and_insert : ℤ → Planet F → QueueItem → Tx (World F) PublicItem
  debit_and_insert now p item = do
    modify (
        update_planet_resources p.id (sub p.metal (of_int item.cost_metal))
          (sub p.crystal (of_int item.cost_crystal)) (sub p.deuterium (of_int item.cost_deuterium))
          now)
    row ← (λ w. ok (insert_queue_item item w))
    pure (queue_item_to_public row)

  -- The end of a command on the planet's queue: `row` is the row that starts at a given time.
  unfoldable pub chain_and_insert :
      ℤ → ℤ → Planet F → List QueueItem → (ℤ → QueueItem) → Tx (World F) PublicItem
  unfolding chained_start debit_and_insert
  chain_and_insert now db_now p pending row = do
    start ← chained_start p.id pending db_now now
    debit_and_insert now p (row start)
