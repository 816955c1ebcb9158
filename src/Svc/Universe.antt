-- ===== src/Svc/Universe.antt =====
-- Joining a universe (`internal/svc/universe.go`).
pub mod Settling
use Prim.Native.String.{String}
use terminal_army_go.Base.{
  ℕ, zero, suc, ◌==◌, Bool, true, false, ◌||◌, List, [], ◌∷◌, Option, none, some,
}
use terminal_army_go.Int.{ℤ, pos, ◌+ℤ◌}
use terminal_army_go.Float.{Float64}
use terminal_army_go.Game.Colonization.{PlanetAttributes, generate_planet_attributes}
use terminal_army_go.Store.Tx.{
  Error, Tx, ok, err, not_found, already_in_universe, universe_full, unique_violation, ◌>>=◌, ◌>>◌,
  pure, fail, gets, modify, fetch, fail_if,
}
use terminal_army_go.Store.Rows.{Planet, Universe, World}
use terminal_army_go.Store.Planets.{get_universe}
use terminal_army_go.Store.Colonies.{create_planet, list_planets_by_owner}
use terminal_army_go.Store.Users.{set_current_universe}

-- `maxAttempts`
abbrev pub max_attempts : ℕ
max_attempts = 60

-- `isUniqueViolation`
unfoldable pub is_unique_violation : Error → Bool
is_unique_violation e = elim e [ unique_violation ↦ true | _ ↦ false ]

-- The random numbers that a join draws, over the generators' state: `rng.Intn`, and `newPlanetCode`,
-- which reads `crypto/rand`; and PostgreSQL's length of a string.
pub record Dice (S : Type 0) : Type 0 where
  pub intn : ℤ → S → ℤ × S
  pub new_code : S → String × S
  pub char_count : String → ℕ

-- One of the planets is in the universe.
unfoldable pub settled_in : {F : Type 0} → ℕ → List (Planet F) → Bool
settled_in u [] = false
settled_in u (p ∷ planets) = (p.universe_id == u) || settled_in u planets

module _ {S : Type 0} (dice : Dice S) (fl : Float64) where
  open fl use {F, of_int}
  open dice use {intn, new_code, char_count}

  -- The row of a home planet.
  unfoldable pub homeworld_row : ℤ → ℕ → ℕ → ℤ → ℤ → ℤ → String → PlanetAttributes F → Planet F
  homeworld_row now user u g s n code attrs = record {
    id = 0;
    code = code;
    owner_user_id = user;
    universe_id = u;
    galaxy = g;
    system = s;
    position = n;
    name = "Homeworld";
    fields_used = pos 0;
    fields_total = attrs.fields_total;
    temp_min = attrs.temp_min;
    temp_max = attrs.temp_max;
    metal = of_int (pos 500);
    crystal = of_int (pos 500);
    deuterium = of_int (pos 0);
    resources_last_updated_at = now;
  }

  -- The transaction of one attempt.
  unfoldable pub settle_at : ℕ → ℕ → Planet F → Tx (World F) (Planet F)
  settle_at user u row = do
    created ← create_planet char_count row
    modify (set_current_universe user u)
    pure created

  -- The loop over the attempts; `now` is the time of the one that succeeds. The position is from 4 to
  -- 12. A slot or a code that is taken leads to the next attempt, and so does a position without
  -- attributes.
  unfoldable pub try_slots : ℕ → ℤ → ℕ → Universe → S → Tx (World F) (Planet F)
  unfolding settle_at homeworld_row is_unique_violation
  try_slots zero now user u s w = err universe_full
  try_slots (suc n) now user u s w =
      let (g, s1) = intn u.galaxies_count s in
      let (sys, s2) = intn u.systems_count s1 in
      let (p, s3) = intn (pos 9) s2 in
      elim (generate_planet_attributes fl intn (p +ℤ pos 4) s3) [
        | none ↦ try_slots n now user u s3 w
        | some (attrs, s4) ↦
            let (code, s5) = new_code s4 in
            let row =
              homeworld_row now user u.id (g +ℤ pos 1) (sys +ℤ pos 1) (p +ℤ pos 4) code attrs in
            let rest = try_slots n now user u s5 w in
            elim (settle_at user u.id row w) [
              | ok made ↦ ok made
              | err e ↦ elim (is_unique_violation e) [ true ↦ rest | false ↦ err e ]
            ]
      ]

  -- `JoinUniverse`
  unfoldable pub join_universe : ℤ → ℕ → ℕ → S → Tx (World F) (Planet F)
  unfolding try_slots settled_in
  join_universe now user universe_id s = do
    u ← fetch (get_universe universe_id) not_found
    existing ← gets (list_planets_by_owner user)
    fail_if (settled_in universe_id existing) already_in_universe
    try_slots max_attempts now user u s
