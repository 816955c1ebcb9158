-- ===== src/Svc/Research/Slot.antt =====
-- The single research slot of an account (`internal/svc/research.go`).
use Prim.Native.String.{String}
use terminal_army_go.Base.{
  ℕ, suc, ◌≡◌, sym, ap, ◌∙◌, Bool, true, not, List, [], ◌∷◌, ◌++◌, select, length, arith, ==_self,
}
use terminal_army_go.Int.{ℤ, pos, ◌+ℤ◌}
use terminal_army_go.Dict.{level}
use terminal_army_go.Float.{Float64}
use terminal_army_go.Game.Buildings.{building_research_lab}
use terminal_army_go.Game.Techs.{TechType}
use terminal_army_go.Game.Formulas.{research_level_cost, research_time_seconds}
use terminal_army_go.Game.TechTree.{check_research_prereqs}
use terminal_army_go.Store.Tx.{
  ok, >>=-eq-ok, fail_if, fail_if-eq-ok, fetch, fetch-eq-ok, or_fail, or_fail-eq-ok, not_found,
  queue_busy, insufficient_resources, prerequisite_not_met, unknown_key,
}
use terminal_army_go.Store.Rows.{Planet, QueueItem, World}
use terminal_army_go.Store.Planets.{get_universe, max_building_level_across_user}
use terminal_army_go.Store.Queue.{active_research_of, has_active_research, new_row, is_active}
use terminal_army_go.Svc.Orders.{PublicItem, load_owned, lacks}
use terminal_army_go.Svc.Orders.Payment.{placed-queue, debit_and_insert-eq-ok, load_owned-queue}
use terminal_army_go.Svc.Research.{parse_tech_type, research_row, place_research, queue_research}

length-select-snoc :
    (p : QueueItem → Bool) (rows : List QueueItem) (q : QueueItem)
    → p q ≡ true
    → length (select p (rows ++ (q ∷ []))) ≡ suc (length (select p rows))
length-select-snoc p [] q h = ground (arith, h)
length-select-snoc p (x ∷ rows) q h = ground (arith, length-select-snoc p rows q h)

module _ (fl : Float64) where
  open fl use {F}

  place_research-slot :
      (now : ℤ) (user : ℕ) (p : Planet F) (tech : TechType) (w w' : World F) {a : PublicItem}
      → place_research fl now user p tech w ≡ ok (a, w')
      → (length (select (active_research_of user) w.queue) ≡ 0)
        × (length (select (active_research_of user) w'.queue) ≡ 1)
  unfolding place_research has_active_research research_row is_active
  place_research-slot now user p tech w w' {a} h =
      let busy = has_active_research user w in
      let (_, w1, e1, h1) = >>=-eq-ok (fail_if busy queue_busy) _ w h in
      let (free, s1) = fail_if-eq-ok busy queue_busy w w1 e1 in
      let lab = max_building_level_across_user user building_research_lab w1 in
      let checked = check_research_prereqs tech lab (w1.researches user) in
      let (_, w2, e2, h2) =
        >>=-eq-ok (fail_if (not checked.0) (prerequisite_not_met checked.1)) _ w1 h1 in
      let (_, s2) = fail_if-eq-ok (not checked.0) (prerequisite_not_met checked.1) w1 w2 e2 in
      let target = level (w1.researches user) tech +ℤ pos 1 in
      let cost = research_level_cost fl tech target in
      let (_, w3, e3, h3) = >>=-eq-ok (fail_if (lacks fl p cost) insufficient_resources) _ w2 h2 in
      let (_, s3) = fail_if-eq-ok (lacks fl p cost) insufficient_resources w2 w3 e3 in
      let (u, w4, e4, h4) = >>=-eq-ok (fetch (get_universe p.universe_id) not_found) _ w3 h3 in
      let (_, s4) = fetch-eq-ok (get_universe p.universe_id) not_found w3 w4 e4 in
      let seconds =
        research_time_seconds fl cost.metal cost.crystal lab (fl.of_int u.speed_research) in
      let row = research_row p.id user tech target cost seconds now in
      let (after, _) = debit_and_insert-eq-ok fl now p row w4 w' h4 in
      (
        ground (arith, free),
        ap (λ (v : World F). length (select (active_research_of user) v.queue)) after
            ∙ ap (λ rows. length (select (active_research_of user) rows))
                (placed-queue fl now p row w4)
            ∙ length-select-snoc (active_research_of user) w4.queue (new_row w4.next_queue row)
                (ground (arith, ==_self user))
            ∙ ap (λ (v : World F). suc (length (select (active_research_of user) v.queue)))
                (s4 ∙ s3 ∙ s2 ∙ s1)
            ∙ ground (arith, free),
      )

  -- An accepted research order is of an account without active research, and leaves it with exactly
  -- one.
  pub queue_research-slot :
      (normalize : String → String) (refreshed_at now : ℤ) (user k : ℕ) (key : String)
      (w w' : World F) {a : PublicItem}
      → queue_research fl normalize refreshed_at now user k key w ≡ ok (a, w')
      → (length (select (active_research_of user) w.queue) ≡ 0)
        × (length (select (active_research_of user) w'.queue) ≡ 1)
  unfolding queue_research
  queue_research-slot normalize refreshed_at now user k key w w' h =
      let parsed = parse_tech_type normalize key in
      let (tech, w1, e1, h1) = >>=-eq-ok (or_fail parsed (unknown_key key)) _ w h in
      let (_, same) = or_fail-eq-ok parsed (unknown_key key) w w1 e1 in
      let (r, w2, e2, h2) = >>=-eq-ok (load_owned fl refreshed_at user k) _ w1 h1 in
      let rows =
        load_owned-queue fl refreshed_at user k r w1 w2 e2 ∙ ap (λ (v : World F). v.queue) same in
      let (before, after) = place_research-slot now user r tech w2 w' h2 in
      (ap (λ q. length (select (active_research_of user) q)) (sym rows) ∙ before, after)
