-- ===== src/Scheduler/Fleet/Endings.antt =====
-- How an arrival ends for the fleet (`internal/scheduler/fleet.go`).
use terminal_army_go.Base.{
  ℕ, ◌==◌, ◌≡◌, refl, sym, ap, ◌∙◌, true, false, Option, none, some, Bool-cases, Option-cases,
  if◌then◌else◌, inl, inr, ◌⊎◌,
}
use terminal_army_go.Int.{pos}
use terminal_army_go.Float.{Float64}
use terminal_army_go.Store.Tx.{Tx, ok, ok_state, >>=-eq-ok, modify}
use terminal_army_go.Store.Rows.{Fleet, Planet, World}
use terminal_army_go.Store.Planets.{get_planet}
use terminal_army_go.Store.Fleets.{delete_fleet, get_fleet, with_cargo}
use terminal_army_go.Store.Fleets.Lookup.{get_fleet-delete_fleet}
use terminal_army_go.Scheduler.Fleet.{
  Clock, at_target, deliver, mark_attack_returning, has_cargo, refreshed_planet, resolve_deploy,
  resolve_transport, settle,
}
use terminal_army_go.Scheduler.Fleet.Delivery.{deliver-Delivered, get_fleet-homeward, homeward}

-- Which case of an `elim` on a computed option has succeeded.
pub by_option :
    {A W : Type 0} (o : Option A) (n : Tx W (Unit {0})) (s : A → Tx W (Unit {0})) (w : W)
    {r : Unit {0} × W}
    → (elim o as (λ _. Tx W (Unit {0})) [ none ↦ n | some a ↦ s a ]) w ≡ ok r
    → ((o ≡ none) × (n w ≡ ok r)) ⊎ ((a : A) × (o ≡ some a) × (s a w ≡ ok r))
by_option none n s w h = inl (refl, h)
by_option (some a) n s w h = inr (a, refl, h)

-- The fleet is gone, or flies home.
abbrev pub Ended : {F : Type 0} → Clock → Fleet → World F → Type 0
Ended clock f w =
    (get_fleet f.id w ≡ none) ⊎ ((g : Fleet) × (get_fleet f.id w ≡ some (homeward clock f g)))

module _ {F : Type 0} where
  pub deleted :
      (clock : Clock) (f : Fleet) (w w' : World F)
      → modify (delete_fleet f.id) w ≡ ok (tt, w')
      → Ended clock f w'
  deleted clock f w w' h =
      inl (ap (get_fleet f.id) (sym (ok_state h)) ∙ get_fleet-delete_fleet f.id w)

module _ (fl : Float64) where
  open fl use {F}

  pub turned_back :
      (clock : Clock) (f g : Fleet) (w w' : World F)
      → get_fleet f.id w ≡ some g
      → mark_attack_returning clock f w ≡ ok (tt, w')
      → Ended clock f w'
  turned_back clock f g w w' flying h = inr (g, get_fleet-homeward fl clock f g w w' flying h)

  pub at_target-Ended :
      (clock : Clock) (f g : Fleet) (resolve : ℕ → Planet F → Tx (World F) (Unit {0}))
      (w w' : World F)
      → get_fleet f.id w ≡ some g
      → ((k : ℕ) (p : Planet F)
          → get_planet k w ≡ some p
          → resolve k p w ≡ ok (tt, w')
          → Ended clock f w')
      → at_target fl clock f resolve w ≡ ok (tt, w')
      → Ended clock f w'
  unfolding at_target
  at_target-Ended clock f g resolve w w' flying ends h = elim (Option-cases f.target_planet_id) [
    | inl nowhere ↦ turned_back clock f g w w' flying (rw (nowhere, at_target) at h)
    | inr (k, aimed) ↦ elim (Option-cases (get_planet k w)) [
      | inl missing ↦ turned_back clock f g w w' flying (rw (aimed, missing, at_target) at h)
      | inr (p, found) ↦ ends k p found (rw (aimed, found, at_target) at h)
    ]
  ]

  deliver-Ended :
      (clock : Clock) (f g : Fleet) (k : ℕ) (p : Planet F) (w w' : World F)
      → get_fleet f.id w ≡ some g
      → get_planet k w ≡ some p
      → deliver fl clock f k p w ≡ ok (tt, w')
      → Ended clock f w'
  deliver-Ended clock f g k p w w' flying found h =
      let (r, w1, _, both) = deliver-Delivered fl clock f g k p w w' found flying h in
      inr (if has_cargo f then with_cargo (pos 0) (pos 0) (pos 0) g else g, both.1)

  pub resolve_transport-Ended :
      (clock : Clock) (f g : Fleet) (w w' : World F)
      → get_fleet f.id w ≡ some g
      → resolve_transport fl clock f w ≡ ok (tt, w')
      → Ended clock f w'
  unfolding resolve_transport
  resolve_transport-Ended clock f g w w' flying h =
      at_target-Ended clock f g (deliver fl clock f) w w' flying
        (λ k p found h'. deliver-Ended clock f g k p w w' flying found h') h

  settle-Ended :
      (clock : Clock) (f : Fleet) (k : ℕ) (p : Planet F) (w w' : World F)
      → settle fl clock f k p w ≡ ok (tt, w')
      → Ended clock f w'
  unfolding settle
  settle-Ended clock f k p w w' h =
      let (r, w1, e1, h1) = >>=-eq-ok (refreshed_planet fl clock k p.id) _ w h in
      deleted clock f _ w' h1

  pub resolve_deploy-Ended :
      (clock : Clock) (f g : Fleet) (w w' : World F)
      → get_fleet f.id w ≡ some g
      → resolve_deploy fl clock f w ≡ ok (tt, w')
      → Ended clock f w'
  unfolding resolve_deploy
  resolve_deploy-Ended clock f g w w' flying h =
      at_target-Ended clock f g
        (λ k p. elim (p.owner_user_id == f.owner_id) [
          | true ↦ settle fl clock f k p
          | false ↦ resolve_transport fl clock f
        ])
        w w' flying
        (λ k p found h'. elim (Bool-cases (p.owner_user_id == f.owner_id)) [
          | inl own ↦ settle-Ended clock f k p w w' (rw own at h')
          | inr other ↦ resolve_transport-Ended clock f g w w' flying (rw other at h')
        ])
        h
