-- ===== src/Tests/Harbor.antt =====
-- A world with two planets and ships on the first one, and requests to dispatch them.
use Prim.Native.String.{String}
use terminal_army_go.Base.{
  ◌==◌, ◌≡◌, refl, Bool, true, false, Option, none, some, [], ◌∷◌, arith, if◌then◌else◌,
}
use terminal_army_go.Int.{ℤ, pos, ◌≤ℤ◌}
use terminal_army_go.Dict.{Dict, level}
use terminal_army_go.Store.Rows.{Fleet, Planet, World}
use terminal_army_go.Svc.Fleet.{DispatchRequest, PublicFleet}
use terminal_army_go.Scheduler.Fleet.{Clock}
use terminal_army_go.Tests.Sample.{home, world}

abbrev pub neighbor : Planet ℤ
neighbor = record home { id = 2; code = "next"; owner_user_id = 9; position = pos 10 }

abbrev pub docked : Dict ℤ
docked = ("small_cargo", pos 5) ∷ ("colony_ship", pos 1) ∷ []

abbrev pub harbor : World ℤ
harbor = record world {
  planets = home ∷ neighbor ∷ [];
  ships = λ k. if k == 1 then docked else [];
  next_planet = 3;
}

-- Three small cargos with 900 metal and 100 crystal, in a transport to the neighbor.
abbrev pub shipment : DispatchRequest
shipment = record {
  mission = "transport";
  origin_planet_id = 1;
  target_galaxy = pos 1;
  target_system = pos 20;
  target_position = pos 10;
  ships = ("small_cargo", pos 3) ∷ [];
  cargo = ("metal", pos 900) ∷ ("crystal", pos 100) ∷ [];
  speed_percent = pos 0;
}

abbrev pub no_fleet : PublicFleet
no_fleet = record {
  id = 0;
  user_id = 0;
  origin_planet_id = 0;
  target_galaxy = pos 0;
  target_system = pos 0;
  target_position = pos 0;
  mission = "";
  state = "";
  departure_at = pos 0;
  arrival_at = pos 0;
  return_at = none;
  ships = [];
  cargo = [];
}

pub docked_nonneg : (j : String) → pos 0 ≤ℤ level docked j
docked_nonneg j = ground arith

abbrev pub timetable : Clock
timetable = record {
  refreshed_at = pos 160;
  updated_at = pos 170;
  turned_at = pos 180;
  db_now = pos 190;
}

-- A fleet of the first planet's owner, in flight to the neighbor.
abbrev pub freighter : Fleet
freighter = record {
  id = 1;
  owner_id = 7;
  origin_planet_id = 1;
  mission = "transport";
  status = "outbound";
  universe_id = 1;
  target_galaxy = pos 1;
  target_system = pos 20;
  target_position = pos 10;
  target_planet_id = some 2;
  speed_percent = pos 100;
  departure_at = pos 130;
  arrival_at = pos 150;
  return_at = none;
  cargo_metal = pos 900;
  cargo_crystal = pos 100;
  cargo_deuterium = pos 0;
  fuel_cost = pos 1;
  arrival_processed = false;
  return_processed = false;
}

-- The harbor with a fleet in flight.
abbrev pub at_sea : Fleet → World ℤ
at_sea f = record harbor {
  fleets = f ∷ [];
  next_fleet = 2;
  fleet_ships = λ k. if k == 1 then ("small_cargo", pos 3) ∷ [] else [];
}

abbrev pub row_or : Option Fleet → Fleet
row_or none = freighter
row_or (some f) = f

abbrev pub is_there : Option Fleet → Bool
is_there none = false
is_there (some _) = true

pub found_row : (o : Option Fleet) → is_there o ≡ true → o ≡ some (row_or o)
found_row none h = cc
found_row (some f) h = refl
