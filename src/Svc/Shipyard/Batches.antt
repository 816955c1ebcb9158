-- ===== src/Svc/Shipyard/Batches.antt =====
-- What an accepted order of ships has done (`internal/svc/shipyard.go`).
use mathlib.Core.Path.{subst}
use Prim.Native.String.{String}
use terminal_army_go.Base.{
  ℕ, leb, leb_false→lt, ◌≤◌, ◌≡◌, refl, sym, ap, ◌∙◌, Bool, true, false, not, arith, some, [], ◌∷◌,
  ◌++◌,
}
use terminal_army_go.Int.{ℤ, pos, ◌*ℤ◌, ◌≤ℤ◌, ltb_ℤ, ltb_ℤ_false→le}
use terminal_army_go.Dict.{Dict, level}
use terminal_army_go.Float.{Float64}
use terminal_army_go.Game.Buildings.{
  building_shipyard, building_robotics_factory, building_nanite_factory,
}
use terminal_army_go.Game.Ships.{ShipType}
use terminal_army_go.Game.Formulas.{Cost, ship_unit_cost, build_time_seconds}
use terminal_army_go.Game.TechTree.{Missing, check_ship_prereqs}
use terminal_army_go.Store.Tx.{
  ok, >>=-eq-ok, fail_if, fail_if-eq-ok, fetch, fetch-eq-ok, or_fail, or_fail-eq-ok, not_found,
  queue_busy, insufficient_resources, prerequisite_not_met, unknown_key, count_too_small,
  count_too_large,
}
use terminal_army_go.Store.Rows.{Planet, QueueItem, World}
use terminal_army_go.Store.Planets.{
  get_planet, get_planet-id, get_universe, update_planet_resources,
}
use terminal_army_go.Store.Queue.{
  new_row, count_active_queue_for_planet, list_active_queue_for_planet,
}
use terminal_army_go.Svc.Resources.Refresh.{Refreshed}
use terminal_army_go.Svc.Resources.Frame.{refresh_tx-keeps}
use terminal_army_go.Svc.Orders.{PublicItem, load_owned, lacks}
use terminal_army_go.Svc.Orders.Payment.{
  debited, placed, placed-count, placed-planet, placed-queue, chain_and_insert-eq-ok,
  load_owned-eq-ok, load_owned-queue,
}
use terminal_army_go.Svc.Build.{build_queue_max_active}
use terminal_army_go.Svc.Shipyard.{
  max_unit_batch, parse_ship_type, batch_cost, unit_row, queue_units, queue_ship,
}

true_of_not : (b : Bool) → not b ≡ false → b ≡ true
true_of_not b h = ground (arith, h)

module _ (fl : Float64) where
  open fl use {F, trunc}

  -- What an accepted order of a batch has read, appended to the queue and taken from the planet.
  abbrev pub Bought :
      ℤ
      → ℤ
      → String
      → (ℤ → Dict ℤ → Bool × Missing)
      → Cost
      → ℕ
      → ℕ
      → String
      → ℤ
      → World F
      → World F
      → Type 0
  Bought refreshed_at now queue_type check unit user k key n w w' =
      (r : Planet F) × (w1 : World F) × (q : QueueItem) × Refreshed fl refreshed_at user k r w w1
      × (w'.queue ≡ w.queue ++ (q ∷ []))
      × (q.planet_id ≡ some k)
      × (q.user_id ≡ user)
      × (q.queue_type ≡ queue_type)
      × (q.item_key ≡ key)
      × (q.count ≡ n)
      × (q.cost_metal ≡ unit.metal *ℤ n)
      × (q.cost_crystal ≡ unit.crystal *ℤ n)
      × (q.cost_deuterium ≡ unit.deuterium *ℤ n)
      × (q.cost_metal ≤ℤ trunc r.metal)
      × (q.cost_crystal ≤ℤ trunc r.crystal)
      × (q.cost_deuterium ≤ℤ trunc r.deuterium)
      × (get_planet k w' ≡ some (debited fl now r q))
      × ((check (level (w.buildings k) building_shipyard) (w.researches user)).0 ≡ true)
      × (count_active_queue_for_planet k w' ≤ 5)

  not_short :
      (r : Planet F) (cost : Cost)
      → lacks fl r cost ≡ false
      → (cost.metal ≤ℤ trunc r.metal)
        × (cost.crystal ≤ℤ trunc r.crystal)
        × (cost.deuterium ≤ℤ trunc r.deuterium)
  unfolding lacks
  not_short r cost h = (ground arith, ground arith, ground arith)

  batch-Bought :
      (queue_type : String) (check : ℤ → Dict ℤ → Bool × Missing) (unit : Cost)
      (refreshed_at now : ℤ) (user k : ℕ) (key : String) (n seconds start : ℤ) (r : Planet F)
      (w v w' : World F)
      → load_owned fl refreshed_at user k w ≡ ok (r, v)
      → leb build_queue_max_active (count_active_queue_for_planet r.id v) ≡ false
      → (check (level (v.buildings r.id) building_shipyard) (v.researches user)).0 ≡ true
      → lacks fl r (batch_cost unit n) ≡ false
      → w'
        ≡ placed fl now r (unit_row r.id user queue_type key n (batch_cost unit n) seconds start) v
      → Bought refreshed_at now queue_type check unit user k key n w w'
  unfolding unit_row batch_cost update_planet_resources
  batch-Bought queue_type check unit refreshed_at now user k key n seconds start r w v w' loaded
        free met funded after =
      let ready = load_owned-eq-ok fl refreshed_at user k r w v loaded in
      let (_, _, _, refreshed, found) = ready in
      let key_eq = get_planet-id k v found in
      let cost = batch_cost unit n in
      let q = unit_row r.id user queue_type key n cost seconds start in
      let (metal, crystal, deuterium) = not_short r cost funded in
      let met_before : (check (level (w.buildings k) building_shipyard) (w.researches user)).0
          ≡ true =
        subst (λ j. (check (level (w.buildings j) building_shipyard) (w.researches user)).0 ≡ true)
          key_eq
          (sym (
              refresh_tx-keeps fl
                (λ (x : World F).
                  (check (level (x.buildings r.id) building_shipyard) (x.researches user)).0)
                (λ j m c d t x. refl) refreshed_at k w v refreshed)
            ∙ met) in
      (
        r,
        v,
        new_row v.next_queue q,
        ready,
        ap (λ (x : World F). x.queue) after
            ∙ placed-queue fl now r q v
            ∙ ap (λ rows. rows ++ (new_row v.next_queue q ∷ []))
                (load_owned-queue fl refreshed_at user k r w v loaded),
        ap some key_eq,
        refl,
        refl,
        refl,
        refl,
        refl,
        refl,
        refl,
        metal,
        crystal,
        deuterium,
        ap (get_planet k) after ∙ placed-planet fl now k r q v found,
        met_before,
        subst (λ j. count_active_queue_for_planet j w' ≤ 5) key_eq
            (subst (λ x. count_active_queue_for_planet r.id x ≤ 5) (sym after)
              (omega (
                arith,
                leb_false→lt 5 (count_active_queue_for_planet r.id v) free,
                placed-count fl r.id now r q v,
              ))),
      )

  -- The checks that an accepted batch has passed, and the state that it leaves.
  queue_units-eq-ok :
      (queue_type : String) (check : ℤ → Dict ℤ → Bool × Missing) (unit : Cost)
      (refreshed_at now db_now : ℤ) (user k : ℕ) (key : String) (n : ℤ) (w w' : World F)
      {a : PublicItem}
      → queue_units fl queue_type check unit refreshed_at now db_now user k key n w ≡ ok (a, w')
      → (r : Planet F) × (v : World F) × (seconds : ℤ) × (start : ℤ) × (load_owned fl refreshed_at
            user k w
          ≡ ok (r, v))
        × (leb build_queue_max_active (count_active_queue_for_planet r.id v) ≡ false)
        × ((check (level (v.buildings r.id) building_shipyard) (v.researches user)).0 ≡ true)
        × (lacks fl r (batch_cost unit n) ≡ false)
        × (w'
            ≡ placed fl now r
                (unit_row r.id user queue_type key n (batch_cost unit n) seconds start)
                v)
  unfolding queue_units
  queue_units-eq-ok queue_type check unit refreshed_at now db_now user k key n w w' {a} h =
      let (r, v, e0, h0) = >>=-eq-ok (load_owned fl refreshed_at user k) _ w h in
      let busy = leb build_queue_max_active (count_active_queue_for_planet r.id v) in
      let (_, w1, e1, h1) = >>=-eq-ok (fail_if busy queue_busy) _ v h0 in
      let (free, s1) = fail_if-eq-ok busy queue_busy v w1 e1 in
      let checked = check (level (w1.buildings r.id) building_shipyard) (w1.researches user) in
      let (_, w2, e2, h2) =
        >>=-eq-ok (fail_if (not checked.0) (prerequisite_not_met checked.1)) _ w1 h1 in
      let (met, s2) = fail_if-eq-ok (not checked.0) (prerequisite_not_met checked.1) w1 w2 e2 in
      let cost = batch_cost unit n in
      let (_, w3, e3, h3) = >>=-eq-ok (fail_if (lacks fl r cost) insufficient_resources) _ w2 h2 in
      let (funded, s3) = fail_if-eq-ok (lacks fl r cost) insufficient_resources w2 w3 e3 in
      let (u, w4, e4, h4) = >>=-eq-ok (fetch (get_universe r.universe_id) not_found) _ w3 h3 in
      let (_, s4) = fetch-eq-ok (get_universe r.universe_id) not_found w3 w4 e4 in
      let seconds =
        build_time_seconds fl unit.metal unit.crystal
          (level (w1.buildings r.id) building_robotics_factory)
          (level (w1.buildings r.id) building_nanite_factory) (fl.of_int u.speed_economy)
        *ℤ n in
      let row = λ (start : ℤ). unit_row r.id user queue_type key n cost seconds start in
      let (start, _, after, _) =
        chain_and_insert-eq-ok fl now db_now r (list_active_queue_for_planet r.id w4) row w4 w'
          h4 in
      let same = s4 ∙ s3 ∙ s2 ∙ s1 in
      let placed_v = after ∙ ap (λ (x : World F). placed fl now r (row start) x) same in
      (
        r,
        v,
        seconds,
        start,
        e0,
        free,
        subst
            (λ (x : World F).
              (check (level (x.buildings r.id) building_shipyard) (x.researches user)).0 ≡ true)
            s1 (true_of_not checked.0 met),
        funded,
        placed_v,
      )

  queue_units-Bought :
      (queue_type : String) (check : ℤ → Dict ℤ → Bool × Missing) (unit : Cost)
      (refreshed_at now db_now : ℤ) (user k : ℕ) (key : String) (n : ℤ) (w w' : World F)
      {a : PublicItem}
      → queue_units fl queue_type check unit refreshed_at now db_now user k key n w ≡ ok (a, w')
      → Bought refreshed_at now queue_type check unit user k key n w w'
  queue_units-Bought queue_type check unit refreshed_at now db_now user k key n w w' h =
      let (r, v, seconds, start, loaded, free, met, funded, after) =
        queue_units-eq-ok queue_type check unit refreshed_at now db_now user k key n w w' h in
      batch-Bought queue_type check unit refreshed_at now user k key n seconds start r w v w' loaded
        free met funded after

  -- An accepted order of ships is of between one and a million ships of a known type, on a planet of the
  -- user's own. It appends one row to the queue, for that planet, user, type and number, that costs the
  -- number times each cost of one ship. The refreshed planet has these amounts, and they are taken from
  -- it; the requirements of the ship are met, and at most five items are active on the planet afterwards.
  pub queue_ship-Bought :
      (normalize : String → String) (refreshed_at now db_now : ℤ) (user k : ℕ) (key : String)
      (n : ℤ) (w w' : World F) {a : PublicItem}
      → queue_ship fl normalize refreshed_at now db_now user k key n w ≡ ok (a, w')
      → (pos 1 ≤ℤ n)
        × (n ≤ℤ max_unit_batch)
        × (st : ShipType) × (parse_ship_type normalize key ≡ some st)
        × Bought refreshed_at now "ship"
            (check_ship_prereqs st)
            (ship_unit_cost st)
            user
            k
            st
            n
            w
            w'
  unfolding queue_ship
  queue_ship-Bought normalize refreshed_at now db_now user k key n w w' h =
      let parsed = parse_ship_type normalize key in
      let (st, w1, e1, h1) = >>=-eq-ok (or_fail parsed (unknown_key key)) _ w h in
      let (known, s1) = or_fail-eq-ok parsed (unknown_key key) w w1 e1 in
      let small = ltb_ℤ n (pos 1) in
      let (_, w2, e2, h2) = >>=-eq-ok (fail_if small count_too_small) _ w1 h1 in
      let (one, s2) = fail_if-eq-ok small count_too_small w1 w2 e2 in
      let large = ltb_ℤ max_unit_batch n in
      let (_, w3, e3, h3) = >>=-eq-ok (fail_if large count_too_large) _ w2 h2 in
      let (million, s3) = fail_if-eq-ok large count_too_large w2 w3 e3 in
      let bought =
        queue_units-Bought "ship" (check_ship_prereqs st) (ship_unit_cost st) refreshed_at now
          db_now user k st n w3 w' h3 in
      (
        ltb_ℤ_false→le n (pos 1) one,
        ltb_ℤ_false→le max_unit_batch n million,
        st,
        known,
        subst
            (λ x.
              Bought refreshed_at now "ship" (check_ship_prereqs st) (ship_unit_cost st) user k st n
                x w')
            (s3 ∙ s2 ∙ s1) bought,
      )
