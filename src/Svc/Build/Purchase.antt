-- ===== src/Svc/Build/Purchase.antt =====
-- What an accepted building order has done (`internal/svc/build.go`).
use mathlib.Core.Path.{subst}
use mathlib.Core.Option.{some-injective}
use Prim.Native.String.{String}
use terminal_army_go.Base.{
  ℕ, ◌≤◌, leb_false→lt, ◌≡◌, refl, sym, ap, ◌∙◌, List, map, [], ◌∷◌, ◌++◌, select, All, length,
  arith, some,
}
use terminal_army_go.Int.{ℤ, ◌≤ℤ◌}
use terminal_army_go.Float.{Float64, Float64Laws}
use terminal_army_go.Game.Buildings.{BuildingType}
use terminal_army_go.Store.Tx.{ok}
use terminal_army_go.Store.Rows.{Universe, Planet, QueueItem, World}
use terminal_army_go.Store.Planets.{
  get_planet, get_planet-id, get_universe, update_planet_resources, with_resources,
}
use terminal_army_go.Store.Queue.{
  active_on_planet, count_active_queue_for_planet, list_active_queue_for_planet, new_row,
}
use terminal_army_go.Svc.Resources.Refresh.{Refreshed, Solvent, refresh_tx-Kept, refresh_tx-queue}
use terminal_army_go.Svc.Resources.Frame.{refresh_tx-keeps}
use terminal_army_go.Svc.Orders.{PublicItem, queue_item_to_public}
use terminal_army_go.Svc.Orders.Payment.{
  placed-count, placed-queue, placed-planet, cost_of, debited, chained_start-after,
  chained_start-All, load_owned-eq-ok, debited-Solvent,
}
use terminal_army_go.Svc.Build.{parse_building_type, building_cost, queue_building}
use terminal_army_go.Svc.Build.Repair.{repair-eq-ok, repair-count, unmarked, unmarked-marked}
use terminal_army_go.Svc.Build.Acceptance.{queue_building-eq-ok, priced_before}

module _ (fl : Float64) where
  open fl use {F}

  -- An accepted building order leaves at most five active items on the planet, whatever completed
  -- rows it found there.
  pub queue_building-count :
      (normalize : String → String) (refreshed_at now db_now : ℤ) (user k : ℕ) (key : String)
      (w w' : World F) {a : PublicItem}
      → queue_building fl normalize refreshed_at now db_now user k key w ≡ ok (a, w')
      → count_active_queue_for_planet k w' ≤ 5
  queue_building-count normalize refreshed_at now db_now user k key w w' h =
      let (bt, r, pending, q, v1, v, (_, loaded, repaired, _, _, _, (free, _, _, _, _, _, after))) =
        queue_building-eq-ok fl normalize refreshed_at now db_now user k key w w' h in
      let (_, _, _, _, found) = load_owned-eq-ok fl refreshed_at user k r w v1 loaded in
      subst (λ j. count_active_queue_for_planet j w' ≤ 5) (get_planet-id k v1 found)
        (subst (λ x. count_active_queue_for_planet r.id x ≤ 5) (sym after)
          (omega (
            arith,
            leb_false→lt 5 (length pending) free,
            placed-count fl r.id now r q v,
            repair-count r.id (v1.buildings r.id) fl pending v1 v repaired,
          )))

  -- An accepted building order appends one item to the queue. It starts no earlier than the time of the order, and no earlier than the end of every
  -- item that is active on the planet when it is inserted.
  pub queue_building-after :
      (normalize : String → String) (refreshed_at now db_now : ℤ) (user k : ℕ) (key : String)
      (w w' : World F) {a : PublicItem}
      → queue_building fl normalize refreshed_at now db_now user k key w ≡ ok (a, w')
      → (v : World F) × (q : QueueItem) × (w'.queue ≡ v.queue ++ (q ∷ []))
        × (a ≡ queue_item_to_public q)
        × (now ≤ℤ q.started_at)
        × All (λ x. x.finished_at ≤ℤ q.started_at) (select (active_on_planet k) v.queue)
  queue_building-after normalize refreshed_at now db_now user k key w w' h =
      let (
        bt,
        r,
        pending,
        q,
        v1,
        v,
        (_, loaded, repaired, _, _, answer, (_, _, _, chained, _, _, after)),
      ) =
        queue_building-eq-ok fl normalize refreshed_at now db_now user k key w w' h in
      let (_, _, _, _, found) = load_owned-eq-ok fl refreshed_at user k r w v1 loaded in
      let (_, late, _) = chained_start-after fl r.id pending db_now now q.started_at v v chained in
      (
        v,
        new_row v.next_queue q,
        ap (λ (x : World F). x.queue) after ∙ placed-queue fl now r q v,
        answer,
        late,
        subst (λ j. All (λ x. x.finished_at ≤ℤ q.started_at) (select (active_on_planet j) v.queue))
            (get_planet-id k v1 found)
            (chained_start-All fl r.id pending db_now now q.started_at v v chained
              (repair-count r.id (v1.buildings r.id) fl pending v1 v repaired)),
      )

  module _ (laws : Float64Laws fl) where
    -- With the arithmetic's laws: if the pools of the planet are not negative, an accepted order is of a
    -- known building and of a planet of the user's own. It appends a row of that building and planet to
    -- the queue, of which otherwise at most marks of completion have changed. The row costs what the
    -- rules say for its level, the refreshed planet and the speed of the planet's universe; exactly that
    -- cost is taken from the refreshed planet, and no pool is below zero.
    pub queue_building-Paid :
        (normalize : String → String) (refreshed_at now db_now : ℤ) (user k : ℕ) (key : String)
        (p : Planet F) (w w' : World F) {a : PublicItem}
        → queue_building fl normalize refreshed_at now db_now user k key w ≡ ok (a, w')
        → get_planet k w ≡ some p
        → Solvent fl p
        → (bt : BuildingType) × (r : Planet F) × (w1 : World F) × (u : Universe) × (q : QueueItem)
          × (before : List QueueItem) × (parse_building_type normalize key ≡ some bt)
          × Refreshed fl refreshed_at user k r w w1
          × (get_universe r.universe_id w ≡ some u)
          × (w'.queue ≡ before ++ (q ∷ []))
          × (map unmarked before ≡ map unmarked w.queue)
          × (q.planet_id ≡ some k)
          × (q.item_key ≡ bt)
          × (cost_of fl q
              ≡ building_cost fl bt q.target_level r
                  (w.buildings r.id)
                  (w.researches r.owner_user_id)
                  u.speed_economy)
          × (get_planet k w' ≡ some (debited fl now r q))
          × Solvent fl (debited fl now r q)
    unfolding get_planet get_universe update_planet_resources
    queue_building-Paid normalize refreshed_at now db_now user k key p w w' h found s =
        let (
          bt,
          r,
          pending,
          q,
          v1,
          v,
          (
            known,
            loaded,
            repaired,
            on,
            item,
            answer,
            (_, _, funded, _, _, (u, there, priced), after),
          ),
        ) =
          queue_building-eq-ok fl normalize refreshed_at now db_now user k key w w' h in
        let ready = load_owned-eq-ok fl refreshed_at user k r w v1 loaded in
        let (_, _, _, refreshed, reread) = ready in
        let (m, c, d, t, kept, solvent, touched) =
          refresh_tx-Kept fl laws refreshed_at k p w v1 refreshed found s in
        let (_, after_repair) = repair-eq-ok fl _ _ pending v1 v repaired in
        let same = some-injective r (with_resources m c d t p) (sym reread ∙ kept) in
        let marks : map unmarked v.queue ≡ map unmarked w.queue =
          ap (λ (x : World F). map unmarked x.queue) after_repair
          ∙ unmarked-marked (v1.buildings r.id) (list_active_queue_for_planet r.id v1) v1.queue
          ∙ ap (map unmarked) (refresh_tx-queue fl refreshed_at k w v1 refreshed) in
        (
          bt,
          r,
          v1,
          u,
          new_row v.next_queue q,
          v.queue,
          known,
          ready,
          sym (
                refresh_tx-keeps fl (get_universe r.universe_id) (λ j m c d t x. refl) refreshed_at
                  k w v1 refreshed)
              ∙ ap (get_universe r.universe_id) (sym after_repair)
              ∙ there,
          ap (λ (x : World F). x.queue) after ∙ placed-queue fl now r q v,
          marks,
          on ∙ ap some (get_planet-id k v1 reread),
          item,
          priced_before fl q.target_level (cost_of fl q) u.speed_economy k bt r w v1 touched priced,
          ap (get_planet k) after
              ∙ placed-planet fl now k r q v (ap (get_planet k) after_repair ∙ reread),
          debited-Solvent fl laws now r q (subst (Solvent fl) (sym same) solvent) funded,
        )
