-- ===== src/Scheduler/Fleet/Founding.antt =====
-- How a colonisation ends for the fleet (`resolveColonize` of `internal/scheduler/fleet.go`).
use Prim.Native.String.{count}
use Prim.Native.String.{String}
use mathlib.Core.Path.{subst}
use terminal_army_go.Base.{
  ℕ, ◌≡◌, refl, ap, ◌∙◌, Option, none, some, Bool-cases, length, inl, inr, ◌⊎◌,
}
use terminal_army_go.Int.{ℤ, pos}
use terminal_army_go.Dict.{level}
use terminal_army_go.Float.{Float64}
use terminal_army_go.Game.Techs.{tech_astrophysics}
use terminal_army_go.Game.Colonization.{
  PlanetAttributes, colonize_rejection, generate_planet_attributes,
}
use terminal_army_go.Store.Colonies.{create_planet, is_slot_taken, list_planets_by_owner}
use terminal_army_go.Store.Tx.{
  Error, Result, ok, err, err≢ok, >>=-eq-ok, fetch, fetch-eq-ok, not_found, invalid_position,
  or_fail, or_fail-eq-ok,
}
use terminal_army_go.Store.Rows.{
  Fleet, Notice, Payload, Planet, World, colony_rejected, slot_occupied,
}
use terminal_army_go.Store.Planets.{get_planet_by_coord, get_universe}
use terminal_army_go.Store.Fleets.{get_fleet}
use terminal_army_go.Store.Messages.{insert_message, insert_report}
use terminal_army_go.Scheduler.Fleet.{Clock}
use terminal_army_go.Scheduler.Fleet.Colonize.{
  Naming, bounce, colonize_slot, colony_row, found_colony, populate, resolve_colonize,
}
use terminal_army_go.Scheduler.Fleet.Endings.{Ended, by_option, deleted, turned_back}

Result-cases : {A : Type 0} (r : Result A) → ((e : Error) × (r ≡ err e)) ⊎ ((a : A) × (r ≡ ok a))
Result-cases (err e) = inl (e, refl)
Result-cases (ok a) = inr (a, refl)

module _ (fl : Float64) where
  open fl use {F}

  pub get_fleet-insert_message :
      (j : ℕ) (t : ℤ) (s : Option ℕ) (o : ℕ) (n : Notice) (c : String) (w : World F)
      → get_fleet j (insert_message t s o n c w) ≡ get_fleet j w
  unfolding get_fleet insert_message
  get_fleet-insert_message j t s o n c w = refl

  pub get_fleet-insert_report :
      (j : ℕ) (t : ℤ) (o : ℕ) (c : String) (p : Payload F) (f : Fleet) (w : World F)
      → get_fleet j (insert_report t o c p f w) ≡ get_fleet j w
  unfolding get_fleet insert_report
  get_fleet-insert_report j t o c p f w = refl

  bounce-Ended :
      (clock : Clock) (f g : Fleet) (text : Notice) (w w' : World F)
      → get_fleet f.id w ≡ some g
      → bounce clock f text w ≡ ok (tt, w')
      → Ended clock f w'
  unfolding bounce
  bounce-Ended clock f g text w w' flying h =
      turned_back fl clock f g _ w'
        (get_fleet-insert_message f.id clock.db_now none f.owner_id text "colonization" w ∙ flying)
        h

  populate-Ended :
      (clock : Clock) (f : Fleet) (created : Planet F) (w w' : World F)
      → populate clock f created w ≡ ok (tt, w')
      → Ended clock f w'
  unfolding populate
  populate-Ended clock f created w w' h = deleted clock f _ w' h

  module _ {S : Type 0} (naming : Naming S) where
    found_colony-Ended :
        (clock : Clock) (f g : Fleet) (attrs : PlanetAttributes F) (w w' : World F)
        → get_fleet f.id w ≡ some g
        → found_colony naming fl clock f attrs w ≡ ok (tt, w')
        → Ended clock f w'
    unfolding found_colony
    found_colony-Ended clock f g attrs w w' flying h =
        elim (Result-cases (create_planet count (colony_row naming fl clock f attrs) w)) [
          | inl (e, failed) ↦ elim (Bool-cases (is_slot_taken e)) [
            | inl taken ↦
                bounce-Ended clock f g _ w w' flying (rw (failed, taken, found_colony) at h)
            | inr other ↦ absurd (err≢ok (rw (failed, other, found_colony) at h))
          ]
          | inr ((created, v), made) ↦
              populate-Ended clock f created v w' (rw (made, found_colony) at h)
        ]

    colonize_slot-Ended :
        (clock : Clock) (f g : Fleet) (w w' : World F)
        → get_fleet f.id w ≡ some g
        → colonize_slot naming fl clock f w ≡ ok (tt, w')
        → Ended clock f w'
    unfolding colonize_slot
    colonize_slot-Ended clock f g w w' flying h =
        elim (by_option
          (colonize_rejection (level (w.researches f.owner_id) tech_astrophysics)
            (pos (length (list_planets_by_owner f.owner_id w))) f.target_position)
          _ _ w h) [
            | inl (_, h') ↦
                let (rolled, v, e, h1) =
                  >>=-eq-ok
                    (or_fail
                      (generate_planet_attributes fl naming.intn f.target_position naming.seed)
                      invalid_position)
                    _ w h' in
                found_colony-Ended clock f g rolled.0 w w' flying (
                  subst (λ u. found_colony naming fl clock f rolled.0 u ≡ ok (tt, w'))
                    (or_fail-eq-ok
                      (generate_planet_attributes fl naming.intn f.target_position naming.seed)
                      invalid_position w v e).1
                    h1)
            | inr (reason, _, h') ↦ bounce-Ended clock f g (colony_rejected reason) w w' flying h'
          ]

    pub resolve_colonize-Ended :
        (clock : Clock) (f g : Fleet) (w w' : World F)
        → get_fleet f.id w ≡ some g
        → resolve_colonize naming fl clock f w ≡ ok (tt, w')
        → Ended clock f w'
    unfolding resolve_colonize
    resolve_colonize-Ended clock f g w w' flying h =
        let (u, v, e, h1) = >>=-eq-ok (fetch (get_universe f.universe_id) not_found) _ w h in
        let same = (fetch-eq-ok (get_universe f.universe_id) not_found w v e).1 in
        let aloft : get_fleet f.id v ≡ some g = ap (get_fleet f.id) same ∙ flying in
        elim (by_option
          (get_planet_by_coord f.universe_id f.target_galaxy f.target_system f.target_position v) _
          _ v h1) [
            | inl (_, h') ↦ colonize_slot-Ended clock f g v w' aloft h'
            | inr (p, _, h') ↦
                bounce-Ended clock f g
                  (slot_occupied f.target_galaxy f.target_system f.target_position) v w' aloft h'
          ]
