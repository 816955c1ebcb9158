-- ===== src/Scheduler/Fleet/Handled.antt =====
-- How the handling of an arrival ends for the fleet, whatever its mission (`handleArrival` of
-- `internal/scheduler/fleet.go`).
use Prim.Native.String.{String}
use text.Mathlib.Text.{◌==◌ as str_eq}
use terminal_army_go.Base.{◌≡◌, Bool, true, false, some, if◌then◌else◌}
use terminal_army_go.Float.{Float64}
use terminal_army_go.Store.Tx.{ok, err, err≢ok, unknown_stored_mission}
use terminal_army_go.Store.Rows.{Fleet, World}
use terminal_army_go.Store.Fleets.{get_fleet}
use terminal_army_go.Scheduler.Fleet.{Clock, resolve_deploy, resolve_recycle, resolve_transport}
use terminal_army_go.Scheduler.Fleet.Colonize.{Naming, resolve_colonize}
use terminal_army_go.Scheduler.Fleet.Espionage.{resolve_espionage}
use terminal_army_go.Scheduler.Fleet.Attack.{resolve_attack}
use terminal_army_go.Scheduler.Fleet.Arrivals.{handle_arrival}
use terminal_army_go.Scheduler.Fleet.Endings.{
  Ended, resolve_deploy-Ended, resolve_transport-Ended, turned_back,
}
use terminal_army_go.Scheduler.Fleet.Founding.{resolve_colonize-Ended}
use terminal_army_go.Scheduler.Fleet.Fights.{resolve_attack-Ended, resolve_espionage-Ended}

module _ {S : Type 0} (naming : Naming S) (fl : Float64) where
  open fl use {F}

  resolve_recycle-Ended :
      (clock : Clock) (f g : Fleet) (w w' : World F)
      → get_fleet f.id w ≡ some g
      → resolve_recycle clock f w ≡ ok (tt, w')
      → Ended clock f w'
  unfolding resolve_recycle
  resolve_recycle-Ended clock f g w w' flying h = turned_back fl clock f g w w' flying h

  pub handle_arrival-Ended :
      (lower : String → String) (clock : Clock) (roll : F) (f g : Fleet) (w w' : World F)
      → get_fleet f.id w ≡ some g
      → handle_arrival naming fl lower clock roll f w ≡ ok (tt, w')
      → Ended clock f w'
  unfolding handle_arrival
  handle_arrival-Ended lower clock roll f g w w' flying h =
      by_mission (str_eq (lower f.mission) "attack") (str_eq (lower f.mission) "transport")
        (str_eq (lower f.mission) "deploy") (str_eq (lower f.mission) "colonize")
        (str_eq (lower f.mission) "espionage") (str_eq (lower f.mission) "recycle") h
    where
      by_mission :
          (attack transport deploy colonize espionage recycle : Bool)
          → (if attack
                then resolve_attack fl clock f
                else if transport
                then resolve_transport fl clock f
                else if deploy
                then resolve_deploy fl clock f
                else if colonize
                then resolve_colonize naming fl clock f
                else if espionage
                then resolve_espionage fl clock roll f
                else if recycle
                then resolve_recycle clock f
                else λ _. err unknown_stored_mission)
              w
            ≡ ok (tt, w')
          → Ended clock f w'
      by_mission true _ _ _ _ _ e = resolve_attack-Ended fl clock f g w w' flying e
      by_mission false true _ _ _ _ e = resolve_transport-Ended fl clock f g w w' flying e
      by_mission false false true _ _ _ e = resolve_deploy-Ended fl clock f g w w' flying e
      by_mission false false false true _ _ e =
          resolve_colonize-Ended fl naming clock f g w w' flying e
      by_mission false false false false true _ e =
          resolve_espionage-Ended fl clock roll f g w w' flying e
      by_mission false false false false false true e =
          resolve_recycle-Ended clock f g w w' flying e
      by_mission false false false false false false e = absurd (err≢ok e)
