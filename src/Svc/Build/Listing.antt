-- ===== src/Svc/Build/Listing.antt =====
-- Showing a planet's queue (`internal/svc/build.go`).
use mathlib.Core.Path.{subst}
use terminal_army_go.Base.{
  ℕ, ◌==◌, ◌≤◌, ◌≡◌, refl, ap, not, List, [], ◌∷◌, length, map, some, arith, ==→eq,
}
use terminal_army_go.Float.{Float64}
use terminal_army_go.Store.Tx.{
  ok, ok_state, ok_result, >>=-eq-ok, fetch, fetch-eq-ok, not_found, forbidden, fail_if,
  fail_if-eq-ok,
}
use terminal_army_go.Store.Rows.{Planet, World}
use terminal_army_go.Store.Planets.{get_planet}
use terminal_army_go.Store.Queue.{list_active_queue_for_planet, count_active_queue_for_planet}
use terminal_army_go.Svc.Orders.{PublicItem, queue_item_to_public}
use terminal_army_go.Svc.Build.{planet_queues, repair_completed_building_queues}
use terminal_army_go.Svc.Build.Repair.{repair-count}

length-map : {A B : Type 0} (f : A → B) (xs : List A) → length (map f xs) ≡ length xs
length-map f [] = refl
length-map f (x ∷ xs) = omega (arith, length-map f xs)

module _ (fl : Float64) where
  open fl use {F}

  -- The queue of a planet is shown to its owner alone, and no more items are active afterwards than
  -- are shown.
  pub planet_queues-count :
      (user k : ℕ) (out : List PublicItem) (w w' : World F)
      → planet_queues fl user k w ≡ ok (out, w')
      → (p : Planet F) × (get_planet k w ≡ some p)
        × (p.owner_user_id ≡ user)
        × (count_active_queue_for_planet k w' ≤ length out)
  unfolding planet_queues
  planet_queues-count user k out w w' h =
      let (p, w1, e1, h1) = >>=-eq-ok (fetch (get_planet k) not_found) _ w h in
      let (found, _) = fetch-eq-ok (get_planet k) not_found w w1 e1 in
      let (_, w2, e2, h2) = >>=-eq-ok (fail_if (not (p.owner_user_id == user)) forbidden) _ w1 h1 in
      let (own, _) = fail_if-eq-ok (not (p.owner_user_id == user)) forbidden w1 w2 e2 in
      let (kept, w3, e3, h3) =
        >>=-eq-ok
          (repair_completed_building_queues fl (w2.buildings k) (list_active_queue_for_planet k w2))
          _ w2 h2 in
      let shown = ap length (ok_result h3) in
      (
        p,
        found,
        ==→eq p.owner_user_id user (ground arith),
        subst (λ v. count_active_queue_for_planet k v ≤ length out) (ok_state h3)
            (omega (
              arith,
              repair-count k (w2.buildings k) fl kept w2 w3 e3,
              length-map queue_item_to_public kept,
              shown,
            )),
      )
