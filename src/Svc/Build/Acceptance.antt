-- ===== src/Svc/Build/Acceptance.antt =====
-- What an accepted building order has passed through, step by step (`internal/svc/build.go`).
use mathlib.Core.Path.{subst}
use Prim.Native.String.{String}
use terminal_army_go.Base.{
  ℕ, leb, ◌≡◌, refl, sym, ap, ◌∙◌, true, false, not, List, length, arith, some, inl, inr,
}
use terminal_army_go.Int.{ℤ, pos, ◌+ℤ◌}
use terminal_army_go.Dict.{Dict, level}
use terminal_army_go.Float.{Float64}
use terminal_army_go.Game.Buildings.{
  BuildingType, building_robotics_factory, building_nanite_factory,
}
use terminal_army_go.Game.TechTree.{check_building_prereqs}
use terminal_army_go.Store.Tx.{
  ok, >>=-eq-ok, fail_if, fail_if-eq-ok, fetch, fetch-eq-ok, or_fail, or_fail-eq-ok, not_found,
  queue_busy, prerequisite_not_met, insufficient_resources, unknown_key,
}
use terminal_army_go.Store.Rows.{Universe, Planet, QueueItem, World}
use terminal_army_go.Store.Planets.{get_universe, update_planet_resources}
use terminal_army_go.Store.Queue.{list_active_queue_for_planet, new_row}
use terminal_army_go.Game.Formulas.{Cost, building_upgrade_time_seconds}
use terminal_army_go.Svc.Resources.Refresh.{Touched}
use terminal_army_go.Svc.Orders.{
  PublicItem, load_owned, lacks, chained_start, chain_and_insert, queue_item_to_public,
}
use terminal_army_go.Svc.Orders.Payment.{placed, cost_of, chain_and_insert-eq-ok}
use terminal_army_go.Svc.Build.{
  build_queue_max_active, parse_building_type, base_level, place_building, building_row,
  building_cost, queue_building, repair_completed_building_queues,
}

module _ (fl : Float64) where
  open fl use {F}

  -- The row costs what the rules say for its level, at the speed of the planet's universe.
  abbrev pub Priced : Planet F → BuildingType → Dict ℤ → Dict ℤ → QueueItem → World F → Type 0
  Priced p bt buildings researches q w =
      (u : Universe) × (get_universe p.universe_id w ≡ some u)
      × (cost_of fl q ≡ building_cost fl bt q.target_level p buildings researches u.speed_economy)

  -- The checks that an accepted order has passed, and the world that it leaves.
  abbrev pub Accepted :
      ℤ
      → ℤ
      → Planet F
      → BuildingType
      → Dict ℤ
      → Dict ℤ
      → List QueueItem
      → QueueItem
      → World F
      → World F
      → Type 0
  Accepted now db_now p bt buildings researches pending q w w' =
      (leb build_queue_max_active (length pending) ≡ false)
      × ((check_building_prereqs bt buildings researches).0 ≡ true)
      × (lacks fl p (cost_of fl q) ≡ false)
      × (chained_start fl p.id pending db_now now w ≡ ok (q.started_at, w))
      × (q.target_level ≡ base_level bt pending (level buildings bt) +ℤ pos 1)
      × Priced p bt buildings researches q w
      × (w' ≡ placed fl now p q w)

  place_building-eq-ok :
      (now db_now : ℤ) (p : Planet F) (bt : BuildingType) (buildings researches : Dict ℤ)
      (pending : List QueueItem) (w w' : World F) {a : PublicItem}
      → place_building fl now db_now p bt buildings researches pending w ≡ ok (a, w')
      → (q : QueueItem) × (q.planet_id ≡ some p.id)
        × (q.item_key ≡ bt)
        × (a ≡ queue_item_to_public (new_row w.next_queue q))
        × Accepted now db_now p bt buildings researches pending q w w'
  unfolding place_building building_row
  place_building-eq-ok now db_now p bt buildings researches pending w w' {a} h =
      let busy = leb build_queue_max_active (length pending) in
      let checked = check_building_prereqs bt buildings researches in
      let (_, w1, e1, h1) = >>=-eq-ok (fail_if busy queue_busy) _ w h in
      let (free, s1) = fail_if-eq-ok busy queue_busy w w1 e1 in
      let (_, w2, e2, h2) =
        >>=-eq-ok (fail_if (not checked.0) (prerequisite_not_met checked.1)) _ w1 h1 in
      let (met, s2) = fail_if-eq-ok (not checked.0) (prerequisite_not_met checked.1) w1 w2 e2 in
      let (u, w3, e3, h3) = >>=-eq-ok (fetch (get_universe p.universe_id) not_found) _ w2 h2 in
      let (known_universe, s3) = fetch-eq-ok (get_universe p.universe_id) not_found w2 w3 e3 in
      let target = base_level bt pending (level buildings bt) +ℤ pos 1 in
      let cost = building_cost fl bt target p buildings researches u.speed_economy in
      let (_, w4, e4, h4) = >>=-eq-ok (fail_if (lacks fl p cost) insufficient_resources) _ w3 h3 in
      let (funded, s4) = fail_if-eq-ok (lacks fl p cost) insufficient_resources w3 w4 e4 in
      let seconds =
        building_upgrade_time_seconds fl cost.metal cost.crystal
          (level buildings building_robotics_factory) (level buildings building_nanite_factory)
          target (fl.of_int u.speed_economy) in
      let row = λ (start : ℤ). building_row fl start seconds p bt target cost in
      let same = s4 ∙ s3 ∙ s2 ∙ s1 in
      let (start, chained, after, answer) =
        chain_and_insert-eq-ok fl now db_now p pending row w w'
          (subst (λ v. chain_and_insert fl now db_now p pending row v ≡ ok (a, w')) same h4) in
      (
        row start,
        refl,
        refl,
        answer,
        (
          free,
          ground (arith, met),
          funded,
          chained,
          refl,
          (u, ap (get_universe p.universe_id) (sym (s2 ∙ s1)) ∙ known_universe, refl),
          after,
        ),
      )

  abbrev PricedIn : ℤ → Cost → ℤ → BuildingType → Planet F → World F → Type 0
  PricedIn target cost speed bt r w =
      cost ≡ building_cost fl bt target r (w.buildings r.id) (w.researches r.owner_user_id) speed

  -- A refresh leaves what a price depends on.
  pub priced_before :
      (target : ℤ) (cost : Cost) (speed : ℤ) (k : ℕ) (bt : BuildingType) (r : Planet F)
      (w w' : World F)
      → Touched fl k w w'
      → cost
        ≡ building_cost fl bt target r (w'.buildings r.id) (w'.researches r.owner_user_id) speed
      → cost ≡ building_cost fl bt target r (w.buildings r.id) (w.researches r.owner_user_id) speed
  unfolding update_planet_resources
  priced_before target cost speed k bt r w w' (inl same) h =
      subst (PricedIn target cost speed bt r) same h
  priced_before target cost speed k bt r w w' (inr (m, c, d, t, same)) h =
      subst (PricedIn target cost speed bt r) same h

  -- An accepted order, step by step: the key is known, the planet is loaded, its queue is repaired,
  -- and the order passes the checks.
  abbrev pub Ordered :
      (String → String)
      → ℤ
      → ℤ
      → ℤ
      → ℕ
      → ℕ
      → String
      → World F
      → World F
      → PublicItem
      → BuildingType
      → Planet F
      → List QueueItem
      → QueueItem
      → World F
      → World F
      → Type 0
  Ordered normalize refreshed_at now db_now user k key w w' a bt r pending q v1 v =
      (parse_building_type normalize key ≡ some bt)
      × (load_owned fl refreshed_at user k w ≡ ok (r, v1))
      × (repair_completed_building_queues fl (v1.buildings r.id)
            (list_active_queue_for_planet r.id v1) v1
          ≡ ok (pending, v))
      × (q.planet_id ≡ some r.id)
      × (q.item_key ≡ bt)
      × (a ≡ queue_item_to_public (new_row v.next_queue q))
      × Accepted now db_now r bt (v1.buildings r.id) (v1.researches r.owner_user_id) pending q v w'

  pub queue_building-eq-ok :
      (normalize : String → String) (refreshed_at now db_now : ℤ) (user k : ℕ) (key : String)
      (w w' : World F) {a : PublicItem}
      → queue_building fl normalize refreshed_at now db_now user k key w ≡ ok (a, w')
      → (bt : BuildingType) × (r : Planet F) × (pending : List QueueItem) × (q : QueueItem)
        × (v1 : World F) × (v : World F) × Ordered normalize refreshed_at now db_now user k key w w'
            a bt r pending q v1 v
  unfolding queue_building
  queue_building-eq-ok normalize refreshed_at now db_now user k key w w' h =
      let parsed = parse_building_type normalize key in
      let (bt, w1, e1, h1) = >>=-eq-ok (or_fail parsed (unknown_key key)) _ w h in
      let (known, s1) = or_fail-eq-ok parsed (unknown_key key) w w1 e1 in
      let (r, v1, e2, h2) = >>=-eq-ok (load_owned fl refreshed_at user k) _ w1 h1 in
      let rows = list_active_queue_for_planet r.id v1 in
      let (pending, v, e3, h3) =
        >>=-eq-ok (repair_completed_building_queues fl (v1.buildings r.id) rows) _ v1 h2 in
      let (q, on, item, answer, accepted) =
        place_building-eq-ok now db_now r bt (v1.buildings r.id) (v1.researches r.owner_user_id)
          pending v w' h3 in
      (
        bt,
        r,
        pending,
        q,
        v1,
        v,
        (
          known,
          subst (λ x. load_owned fl refreshed_at user k x ≡ ok (r, v1)) s1 e2,
          e3,
          on,
          item,
          answer,
          accepted,
        ),
      )
