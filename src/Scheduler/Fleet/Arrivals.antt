-- ===== src/Scheduler/Fleet/Arrivals.antt =====
-- The two sweeps over the fleets (`internal/scheduler/fleet.go`). A handler whose error is not from
-- PostgreSQL has written nothing, and its fleet is skipped. After an error of PostgreSQL each later
-- statement of the transaction fails, and so does its commit, which rolls it back.
use Prim.Native.String.{String}
use text.Mathlib.Text.{◌==◌ as str_eq}
use terminal_army_go.Base.{Bool, true, false, List, [], ◌∷◌, if◌then◌else◌}
use terminal_army_go.Int.{ℤ}
use terminal_army_go.Float.{Float64}
use terminal_army_go.Store.Tx.{
  Tx, Error, ok, err, unknown_stored_mission, value_too_long, no_matching_constraint,
  unique_violation, pure, fail, in_tx,
}
use terminal_army_go.Store.Rows.{Fleet, World}
use terminal_army_go.Store.Fleets.{list_due_arrivals, list_due_returns}
use terminal_army_go.Scheduler.{batch_size}
use terminal_army_go.Scheduler.Fleet.{
  Clock, handle_return, resolve_deploy, resolve_recycle, resolve_transport,
}
use terminal_army_go.Scheduler.Fleet.Colonize.{Naming, resolve_colonize}
use terminal_army_go.Scheduler.Fleet.Espionage.{resolve_espionage}
use terminal_army_go.Scheduler.Fleet.Attack.{resolve_attack}

-- The error is from PostgreSQL.
unfoldable pub aborts : Error → Bool
aborts e = elim e [
  | value_too_long ↦ true
  | no_matching_constraint ↦ true
  | unique_violation ↦ true
  | _ ↦ false
]

-- The loop of a sweep.
unfoldable pub each_fleet :
    {F : Type 0} → (Fleet → Tx (World F) (Unit {0})) → List Fleet → Tx (World F) (Unit {0})
unfolding aborts
each_fleet handle [] = pure tt
each_fleet handle (f ∷ due) = λ w. elim (handle f w) [
  | ok (_, w') ↦ each_fleet handle due w'
  | err e ↦ elim (aborts e) [ true ↦ err e | false ↦ each_fleet handle due w ]
]

-- `returnSweep`
unfoldable pub return_sweep : (fl : Float64) → ℤ → (Fleet → Clock) → World fl.F → World fl.F
unfolding each_fleet
return_sweep fl now clocks w =
    (in_tx (each_fleet (λ f. handle_return fl (clocks f) f) (list_due_returns now batch_size w))
      w).1

module _ {S : Type 0} (naming : Naming S) (fl : Float64) where
  open fl use {F}

  -- `handleArrival`. `lower` is `strings.ToLower`, `roll` the number that an espionage draws.
  unfoldable pub handle_arrival : (String → String) → Clock → F → Fleet → Tx (World F) (Unit {0})
  handle_arrival lower clock roll f =
      if str_eq (lower f.mission) "attack"
      then resolve_attack fl clock f
      else if str_eq (lower f.mission) "transport"
      then resolve_transport fl clock f
      else if str_eq (lower f.mission) "deploy"
      then resolve_deploy fl clock f
      else if str_eq (lower f.mission) "colonize"
      then resolve_colonize naming fl clock f
      else if str_eq (lower f.mission) "espionage"
      then resolve_espionage fl clock roll f
      else if str_eq (lower f.mission) "recycle"
      then resolve_recycle clock f
      else fail unknown_stored_mission

  -- `arrivalSweep`. Each fleet has its own times and roll.
  unfoldable pub arrival_sweep :
      (String → String) → ℤ → (Fleet → Clock) → (Fleet → F) → World F → World F
  unfolding each_fleet handle_arrival
  arrival_sweep lower now clocks rolls w =
      (in_tx
        (each_fleet (λ f. handle_arrival lower (clocks f) (rolls f) f)
          (list_due_arrivals now batch_size w))
        w).1
