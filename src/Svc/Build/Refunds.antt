-- ===== src/Svc/Build/Refunds.antt =====
-- The refund of a cancelled queue item (`internal/svc/build.go`).
use mathlib.Core.Path.{subst}
use mathlib.Core.Option.{some-injective}
use terminal_army_go.Base.{ℕ, ◌≡◌, sym, ap, ◌∙◌, some, ==_self}
use terminal_army_go.Int.{ℤ, pos, ◌≤ℤ◌}
use terminal_army_go.Float.{Float64, Float64Laws}
use terminal_army_go.Store.Tx.{ok, ok_state, >>=-eq-ok, fetch, fetch-eq-ok, not_found}
use terminal_army_go.Store.Rows.{Planet, QueueItem, World}
use terminal_army_go.Store.Planets.{
  get_planet, get_planet-id, get_planet-update_planet_resources, update_planet_resources,
  with_resources,
}
use terminal_army_go.Svc.Resources.{refresh_tx}
use terminal_army_go.Svc.Resources.Refresh.{Solvent, refresh_tx-Kept}
use terminal_army_go.Svc.Build.{refund}

module _ (fl : Float64) where
  open fl use {F, add, of_int}

  -- The planet after the cost of a row has been given back to it.
  abbrev pub credited : ℤ → Planet F → QueueItem → Planet F
  credited now r q =
      with_resources (add r.metal (of_int q.cost_metal)) (add r.crystal (of_int q.cost_crystal))
        (add r.deuterium (of_int q.cost_deuterium)) now r

  -- The next read of a planet that has been written by its row's id.
  own_row :
      (k : ℕ) (r : Planet F) (m c d : F) (ts : ℤ) (w : World F)
      → get_planet k w ≡ some r
      → get_planet k (update_planet_resources r.id m c d ts w) ≡ some (with_resources m c d ts r)
  own_row k r m c d ts w found =
      let key = get_planet-id k w found in
      let own = subst (λ j. get_planet j w ≡ some r) (sym key) found in
      subst
        (λ j.
          get_planet j (update_planet_resources r.id m c d ts w) ≡ some (with_resources m c d ts r))
        key (get_planet-update_planet_resources r.id r.id m c d ts w ∙ rw (==_self r.id, own))

  -- What a refund on a planet has read and written.
  refund_planet-eq-ok :
      (refreshed_at now : ℤ) (item : QueueItem) (k : ℕ) (w w' : World F)
      → refund fl refreshed_at now (record item { planet_id = some k }) w ≡ ok (tt, w')
      → (r : Planet F) × (w1 : World F) × (refresh_tx fl refreshed_at k w ≡ ok (tt, w1))
        × (get_planet k w1 ≡ some r)
        × (get_planet k w' ≡ some (credited now r item))
  unfolding refund
  refund_planet-eq-ok refreshed_at now item k w w' h =
      let (q, w1, e1, h1) = >>=-eq-ok (fetch (get_planet k) not_found) _ w h in
      let (found, s1) = fetch-eq-ok (get_planet k) not_found w w1 e1 in
      let (_, w2, e2, h2) = >>=-eq-ok (refresh_tx fl refreshed_at q.id) _ w1 h1 in
      let (r, w3, e3, h3) = >>=-eq-ok (fetch (get_planet k) not_found) _ w2 h2 in
      let (reread, s3) = fetch-eq-ok (get_planet k) not_found w2 w3 e3 in
      let refreshed =
        subst (λ v. refresh_tx fl refreshed_at k v ≡ ok (tt, w2)) s1
          (subst (λ j. refresh_tx fl refreshed_at j w1 ≡ ok (tt, w2)) (get_planet-id k w found)
            e2) in
      (
        r,
        w2,
        refreshed,
        reread,
        ap (get_planet k) (sym (ok_state h3))
            ∙ own_row k r (add r.metal (of_int item.cost_metal))
                (add r.crystal (of_int item.cost_crystal))
                (add r.deuterium (of_int item.cost_deuterium)) now w3
                (ap (get_planet k) s3 ∙ reread),
      )

  module _ (laws : Float64Laws fl) where
    open laws use {add_NonNeg, of_int_mono}

    -- With the arithmetic's laws: if the pools of the planet are not negative and the costs of the row
    -- are not either, the refund of a row that stands on the planet adds exactly its costs to the pools
    -- of the planet as its refresh has left it, and no pool is below zero afterwards.
    pub refund-Repaid :
        (refreshed_at now : ℤ) (item : QueueItem) (k : ℕ) (p : Planet F) (w w' : World F)
        → refund fl refreshed_at now item w ≡ ok (tt, w')
        → item.planet_id ≡ some k
        → get_planet k w ≡ some p
        → Solvent fl p
        → pos 0 ≤ℤ item.cost_metal
        → pos 0 ≤ℤ item.cost_crystal
        → pos 0 ≤ℤ item.cost_deuterium
        → (r : Planet F) × (w1 : World F) × (refresh_tx fl refreshed_at k w ≡ ok (tt, w1))
          × (get_planet k w1 ≡ some r)
          × (get_planet k w' ≡ some (credited now r item))
          × Solvent fl (credited now r item)
    refund-Repaid refreshed_at now item k p w w' h on found s metal crystal deuterium =
        let (r, w1, refreshed, reread, after) = refund_planet-eq-ok refreshed_at now item k w w' (
          subst (λ o. refund fl refreshed_at now (record item { planet_id = o }) w ≡ ok (tt, w')) on
            h) in
        let (m, c, d, t, kept, solvent, _) =
          refresh_tx-Kept fl laws refreshed_at k p w w1 refreshed found s in
        let (n0, n1, n2) : Solvent fl r =
          subst (Solvent fl) (some-injective (with_resources m c d t p) r (sym kept ∙ reread))
            solvent in
        (
          r,
          w1,
          refreshed,
          reread,
          after,
          (
            add_NonNeg r.metal _ n0 (of_int_mono (pos 0) item.cost_metal metal),
            add_NonNeg r.crystal _ n1 (of_int_mono (pos 0) item.cost_crystal crystal),
            add_NonNeg r.deuterium _ n2 (of_int_mono (pos 0) item.cost_deuterium deuterium),
          ),
        )
