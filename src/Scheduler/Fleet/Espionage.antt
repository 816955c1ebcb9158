-- ===== src/Scheduler/Fleet/Espionage.antt =====
-- Probes at their target (`resolveEspionage` of `internal/scheduler/fleet.go`).
use terminal_army_go.Base.{ℕ, Bool, true, false, none, some, Option, if◌then◌else◌}
use terminal_army_go.Int.{ℤ, pos, leb_ℤ}
use terminal_army_go.Dict.{level}
use terminal_army_go.Float.{Float64}
use terminal_army_go.Game.Techs.{tech_espionage}
use terminal_army_go.Game.Ships.{ship_espionage_probe}
use terminal_army_go.Game.Fleet.{espionage_info_level, counter_espionage_chance}
use terminal_army_go.Store.Tx.{Tx, ◌>>=◌, ◌>>◌, gets, modify}
use terminal_army_go.Store.Rows.{
  Fleet, Payload, Planet, World, empty_slot, espionage_payload, probes_destroyed,
}
use terminal_army_go.Store.Planets.{get_planet}
use terminal_army_go.Store.Fleets.{list_fleet_ships, delete_fleet}
use terminal_army_go.Store.Messages.{insert_message, insert_report}
use terminal_army_go.Scheduler.Fleet.{Clock, mark_attack_returning, refreshed_planet}

-- `if level >= n { payload[…] = … }`
abbrev pub seen_from {ℓ} : {A : Type ℓ} → ℤ → ℤ → A → Option A
seen_from n info a = if leb_ℤ n info then some a else none

module _ (fl : Float64) where
  open fl use {F, lt}

  -- The payload of the report. The comment on it in the source lists what each level shows.
  unfoldable pub spy_payload : ℤ → ℤ → F → Planet F → World F → Payload F
  spy_payload info probes counter p w =
      espionage_payload info probes p.metal p.crystal p.deuterium counter
        (seen_from (pos 2) info (w.ships p.id)) (seen_from (pos 3) info (w.defenses p.id))
        (seen_from (pos 4) info (w.buildings p.id))
        (seen_from (pos 5) info (w.researches p.owner_user_id))

  -- The end of `resolveEspionage`, once it is known whether the probes are caught.
  unfoldable pub end_espionage : Clock → Fleet → Planet F → Bool → Tx (World F) (Unit {0})
  unfolding mark_attack_returning
  end_espionage clock f p caught = elim caught [
    | true ↦ do
      modify (
          insert_message clock.db_now none p.owner_user_id
            (probes_destroyed p.name p.galaxy p.system p.position) "espionage")
      modify (delete_fleet f.id)
    | false ↦ mark_attack_returning clock f
  ]

  -- The part of `resolveEspionage` that follows the first read of the target. `roll` is what
  -- `rng.Float64()` gives.
  unfoldable pub spy_on : Clock → F → ℤ → ℤ → Fleet → ℕ → Planet F → Tx (World F) (Unit {0})
  unfolding end_espionage refreshed_planet spy_payload
  spy_on clock roll probes attacker_spy f k p = do
    r ← refreshed_planet fl clock k p.id
    defender_spy ← gets (λ w. level (w.researches r.owner_user_id) tech_espionage)
    let info = espionage_info_level probes attacker_spy defender_spy
    let counter = counter_espionage_chance fl probes defender_spy attacker_spy
    payload ← gets (spy_payload info probes counter r)
    modify (insert_report clock.db_now f.owner_id "espionage" payload f)
    end_espionage clock f r (lt roll counter)

  -- `resolveEspionage`
  unfoldable pub resolve_espionage : Clock → F → Fleet → Tx (World F) (Unit {0})
  unfolding spy_on mark_attack_returning
  resolve_espionage clock roll f = do
    attacker_spy ← gets (λ w. level (w.researches f.owner_id) tech_espionage)
    probes ← gets (λ w. level (list_fleet_ships f.id w) ship_espionage_probe)
    elim f.target_planet_id [
      | none ↦ do
        modify (insert_report clock.db_now f.owner_id "espionage" empty_slot f)
        mark_attack_returning clock f
      | some k ↦ do
        target ← gets (get_planet k)
        elim target [
          | none ↦ mark_attack_returning clock f
          | some p ↦ spy_on clock roll probes attacker_spy f k p
        ]
    ]
