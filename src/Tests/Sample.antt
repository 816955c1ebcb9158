-- ===== src/Tests/Sample.antt =====
-- A world with one planet, on which the commands are run.
use Prim.Native.String.{String}
use terminal_army_go.Base.{ℕ, ◌≡◌, refl, Bool, true, false, none, some, [], ◌∷◌}
use terminal_army_go.Int.{ℤ, pos}
use terminal_army_go.Store.Tx.{Result, ok, err}
use terminal_army_go.Store.Rows.{Planet, QueueItem, World}
use terminal_army_go.Svc.Orders.{PublicItem}

abbrev pub home : Planet ℤ
home = record {
  id = 1;
  code = "home";
  owner_user_id = 7;
  universe_id = 1;
  galaxy = pos 1;
  system = pos 20;
  position = pos 8;
  name = "Homeworld";
  fields_used = pos 1;
  fields_total = pos 163;
  temp_min = pos 10;
  temp_max = pos 50;
  metal = pos 20000;
  crystal = pos 10000;
  deuterium = pos 500;
  resources_last_updated_at = pos 100;
}

-- A row of the queue on the home planet.
abbrev pub row_of : ℕ → String → String → ℕ → ℕ → QueueItem
row_of id queue_type key target finish = record {
  id = id;
  planet_id = some 1;
  user_id = 7;
  queue_type = queue_type;
  item_key = key;
  target_level = pos target;
  count = pos 1;
  cost_metal = pos 60;
  cost_crystal = pos 15;
  cost_deuterium = pos 0;
  started_at = pos 100;
  finished_at = pos finish;
  cancelled = false;
  applied = false;
}

-- The first row is completed but not marked: the planet has the level that it builds.
abbrev pub world : World ℤ
world = record {
  planets = home ∷ [];
  universes =
      record {
        id = 1;
        speed_economy = pos 1;
        speed_fleet = pos 1;
        speed_research = pos 1;
        galaxies_count = pos 9;
        systems_count = pos 499;
      }
      ∷ [];
  buildings = λ _.
      ("metal_mine", pos 3)
      ∷ ("solar_plant", pos 2)
      ∷ ("shipyard", pos 1)
      ∷ ("research_lab", pos 1)
      ∷ [];
  researches = λ _. ("combustion_drive", pos 1) ∷ [];
  ships = λ _. [];
  defenses = λ _. [];
  queue = row_of 1 "building" "metal_mine" 3 150 ∷ row_of 2 "building" "solar_plant" 3 900 ∷ [];
  next_queue = 3;
  fleets = [];
  next_fleet = 1;
  fleet_ships = λ _. [];
  next_planet = 2;
  reports = [];
  next_report = 1;
  messages = [];
  next_message = 1;
  users =
      record { id = 7; username = "ada"; current_universe_id = some 1 }
      ∷ record { id = 8; username = "bob"; current_universe_id = none }
      ∷ [];
}

abbrev pub state_after : {A : Type 0} → Result (A × World ℤ) → World ℤ
state_after (ok (_, w)) = w
state_after (err _) = world

abbrev pub result_or : {A : Type 0} → A → Result (A × World ℤ) → A
result_or fallback (ok (a, _)) = a
result_or fallback (err _) = fallback

abbrev pub no_item : PublicItem
no_item = record {
  id = 0;
  planet_id = none;
  user_id = 0;
  queue_type = "";
  item_key = "";
  target_level = pos 0;
  count = pos 0;
  started_at = pos 0;
  finished_at = pos 0;
}

abbrev pub answer_of : Result (PublicItem × World ℤ) → PublicItem
answer_of r = result_or no_item r

abbrev pub lower : String → String
lower key = key

abbrev pub is_ok : {A : Type 0} → Result A → Bool
is_ok (ok _) = true
is_ok (err _) = false

pub ok_parts :
    {A : Type 0} (fallback : A) (r : Result (A × World ℤ))
    → is_ok r ≡ true
    → r ≡ ok (result_or fallback r, state_after r)
ok_parts fallback (ok (a, w)) h = refl
ok_parts fallback (err e) h = cc
