-- ===== src/Store/Rows.antt =====
-- The rows of the tables, as `internal/store` scans them, and the whole database. Counts and levels
-- of one planet, user or fleet are one dictionary. Times are nanoseconds since Go's zero time.
use Prim.Native.String.{String}
use terminal_army_go.Base.{ℕ, ◌==◌, Bool, List, Option, if◌then◌else◌}
use terminal_army_go.Int.{ℤ}
use terminal_army_go.Dict.{Dict}
use terminal_army_go.Game.Colonization.{Rejection}
use terminal_army_go.Game.Combat.{CombatResult}

pub record Universe : Type 0 where
  pub id : ℕ
  pub speed_economy : ℤ
  pub speed_fleet : ℤ
  pub speed_research : ℤ
  pub galaxies_count : ℤ
  pub systems_count : ℤ

pub record Planet (F : Type 0) : Type 0 where
  pub id : ℕ
  pub code : String
  pub owner_user_id : ℕ
  pub universe_id : ℕ
  pub galaxy : ℤ
  pub system : ℤ
  pub position : ℤ
  pub name : String
  pub fields_used : ℤ
  pub fields_total : ℤ
  pub temp_min : ℤ
  pub temp_max : ℤ
  pub metal : F
  pub crystal : F
  pub deuterium : F
  pub resources_last_updated_at : ℤ

pub record QueueItem : Type 0 where
  pub id : ℕ
  pub planet_id : Option ℕ
  pub user_id : ℕ
  pub queue_type : String
  pub item_key : String
  pub target_level : ℤ
  pub count : ℤ
  pub cost_metal : ℤ
  pub cost_crystal : ℤ
  pub cost_deuterium : ℤ
  pub started_at : ℤ
  pub finished_at : ℤ
  pub cancelled : Bool
  pub applied : Bool

pub record Fleet : Type 0 where
  pub id : ℕ
  pub owner_id : ℕ
  pub origin_planet_id : ℕ
  pub mission : String
  pub status : String
  pub universe_id : ℕ
  pub target_galaxy : ℤ
  pub target_system : ℤ
  pub target_position : ℤ
  pub target_planet_id : Option ℕ
  pub speed_percent : ℤ
  pub departure_at : ℤ
  pub arrival_at : ℤ
  pub return_at : Option ℤ
  pub cargo_metal : ℤ
  pub cargo_crystal : ℤ
  pub cargo_deuterium : ℤ
  pub fuel_cost : ℤ
  pub arrival_processed : Bool
  pub return_processed : Bool

-- What a message says. Go formats it with `fmt.Sprintf`: a constructor stands for one format, with the
-- values that it shows.
pub data Notice : Type 0 where
  slot_occupied slot_just_taken colony_founded : ℤ → ℤ → ℤ → Notice
  colony_rejected : Rejection → Notice
  player_message : String → Notice
  transport_delivered : String → ℤ → ℤ → ℤ → Notice
  planet_attacked probes_destroyed : String → ℤ → ℤ → ℤ → Notice

pub record Message : Type 0 where
  pub id : ℕ
  pub sender_id : Option ℕ
  pub recipient_id : ℕ
  pub text : Notice
  pub category : String
  pub read : Bool
  pub created_at : ℤ

-- The payload of a report, from which its title and body are formatted. A combat report has the
-- result and the loot, an espionage report what the probes saw.
pub data Payload (F : Type 0) : Type 0 where
  combat_payload : CombatResult → ℤ → ℤ → ℤ → Payload F
  empty_slot : Payload F
  espionage_payload :
      ℤ
      → ℤ
      → F
      → F
      → F
      → F
      → Option (Dict ℤ)
      → Option (Dict ℤ)
      → Option (Dict ℤ)
      → Option (Dict ℤ)
      → Payload F

pub record Report (F : Type 0) : Type 0 where
  pub id : ℕ
  pub owner_id : ℕ
  pub report_type : String
  pub payload : Payload F
  pub target_galaxy : ℤ
  pub target_system : ℤ
  pub target_position : ℤ
  pub created_at : ℤ

-- The columns of `users` that the modelled code reads.
pub record User : Type 0 where
  pub id : ℕ
  pub username : String
  pub current_universe_id : Option ℕ

-- The tables. `buildings`, `ships` and `defenses` are by planet, `researches` by user, `fleet_ships`
-- by fleet. The fields `next_…` are the sequences of the primary keys.
pub record World (F : Type 0) : Type 0 where
  pub planets : List (Planet F)
  pub universes : List Universe
  pub buildings : ℕ → Dict ℤ
  pub researches : ℕ → Dict ℤ
  pub ships : ℕ → Dict ℤ
  pub defenses : ℕ → Dict ℤ
  pub queue : List QueueItem
  pub next_queue : ℕ
  pub fleets : List Fleet
  pub next_fleet : ℕ
  pub fleet_ships : ℕ → Dict ℤ
  pub next_planet : ℕ
  pub reports : List (Report F)
  pub next_report : ℕ
  pub messages : List Message
  pub next_message : ℕ
  pub users : List User

-- One entry of a table by key is replaced.
abbrev pub update {ℓ} : {A : Type ℓ} → (ℕ → A) → ℕ → A → ℕ → A
update f k a j = if j == k then a else f j
