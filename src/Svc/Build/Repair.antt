-- ===== src/Svc/Build/Repair.antt =====
-- The repair of a planet's queue (`internal/svc/build.go`).
use mathlib.Core.Path.{subst}
use terminal_army_go.Base.{
  ℕ, ◌≤◌, ◌==◌, ◌≡◌, inl, inr, refl, sym, ap, ◌∙◌, Bool, true, false, not, ◌&&◌, ◌||◌, List, [],
  ◌∷◌, map, select, All, length, arith, Bool-cases, if◌then◌else◌,
}
use terminal_army_go.Int.{ℤ}
use terminal_army_go.Dict.{Dict}
use terminal_army_go.Float.{Float64}
use terminal_army_go.Store.Tx.{ok, ok_state, ok_result, >>=-eq-ok, pure}
use terminal_army_go.Store.Rows.{QueueItem, World}
use terminal_army_go.Store.Queue.{
  is_active, active_on_planet, update_items, mark_queue_applied, by_finish, insert_by_finish,
  list_active_queue_for_planet, count_active_queue_for_planet,
}
use terminal_army_go.Svc.Build.{is_completed, repair_completed_building_queues}

-- The queue after the completed rows have been marked.
unfoldable pub marked : Dict ℤ → List QueueItem → List QueueItem → List QueueItem
marked b [] queue = queue
marked b (r ∷ rows) queue =
    marked b rows (
      if is_completed b r
      then update_items r.id (λ q. record q { applied = true }) queue
      else queue)

-- A row but for the mark of completion.
abbrev pub unmarked : QueueItem → QueueItem
unmarked q = record q { applied = true }

unmarked-update_items :
    (k : ℕ) (queue : List QueueItem)
    → map unmarked (update_items k unmarked queue) ≡ map unmarked queue
unmarked-update_items k [] = refl
unmarked-update_items k (q ∷ queue) = elim (Bool-cases (q.id == k)) [
  | inl same ↦ rw same (ap (λ rest. unmarked q ∷ rest) (unmarked-update_items k queue))
  | inr differ ↦ rw differ (ap (λ rest. unmarked q ∷ rest) (unmarked-update_items k queue))
]

-- The repair changes no row but by that mark.
pub unmarked-marked :
    (b : Dict ℤ) (rows queue : List QueueItem)
    → map unmarked (marked b rows queue) ≡ map unmarked queue
unfolding marked
unmarked-marked b [] queue = refl
unmarked-marked b (r ∷ rows) queue = elim (Bool-cases (is_completed b r)) [
  | inl done ↦
      rw done (
        unmarked-marked b rows (update_items r.id unmarked queue)
        ∙ unmarked-update_items r.id queue)
  | inr open_row ↦ rw open_row (unmarked-marked b rows queue)
]

-- A completed row among `rows` has the id of `q`.
unfoldable hit : Dict ℤ → List QueueItem → QueueItem → Bool
hit b [] q = false
hit b (r ∷ rows) q = (is_completed b r && (q.id == r.id)) || hit b rows q

module _ (fl : Float64) where
  open fl use {F}

  -- What is kept is what is not completed, and the rest is marked.
  pub repair-eq-ok :
      (b : Dict ℤ) (rows out : List QueueItem) (w w' : World F)
      → repair_completed_building_queues fl b rows w ≡ ok (out, w')
      → (out ≡ select (λ q. not (is_completed b q)) rows)
        × (w' ≡ record w { queue = marked b rows w.queue })
  unfolding repair_completed_building_queues marked mark_queue_applied
  repair-eq-ok b [] out w w' h = (sym (ok_result h), sym (ok_state h))
  repair-eq-ok b (r ∷ rows) out w w' h = elim (Bool-cases (is_completed b r)) [
    | inl done ↦
        let (o, v) =
          repair-eq-ok b rows out (mark_queue_applied r.id w) w'
            (rw (repair_completed_building_queues, done) at h) in
        (o ∙ rw done, v ∙ rw done)
    | inr open_row ↦
        let (o, w1, e1, h1) =
          >>=-eq-ok (repair_completed_building_queues fl b rows) (λ o. pure (r ∷ o)) w
            (rw (repair_completed_building_queues, open_row) at h) in
        let (ho, hv) = repair-eq-ok b rows o w w1 e1 in
        (sym (ok_result h1) ∙ rw (open_row, ho), sym (ok_state h1) ∙ rw open_row hv)
  ]

length-select_mono :
    (p q : QueueItem → Bool) (rows : List QueueItem)
    → All (λ x. p x ≡ true → q x ≡ true) rows
    → length (select p rows) ≤ length (select q rows)
length-select_mono p q [] h = omega arith
length-select_mono p q (x ∷ rows) h = ground (arith, h.0, length-select_mono p q rows h.1)

All-every : (P : QueueItem → Type 0) (rows : List QueueItem) → ((q : QueueItem) → P q) → All P rows
All-every P [] h = tt
All-every P (q ∷ rows) h = (h q, All-every P rows h)

module _ (k : ℕ) (b : Dict ℤ) where
  abbrev left_by : List QueueItem → QueueItem → Bool
  left_by rows q = active_on_planet k q && not (hit b rows q)

  -- Marking one id leaves the rows with another.
  length-select-update_items :
      (r : QueueItem) (rows queue : List QueueItem)
      → is_completed b r ≡ true
      → length (select (left_by rows) (update_items r.id (λ q. record q { applied = true }) queue))
        ≤ length (select (left_by (r ∷ rows)) queue)
  unfolding hit is_active
  length-select-update_items r rows [] done = omega arith
  length-select-update_items r rows (q ∷ queue) done =
      ground (arith, length-select-update_items r rows queue done)

  length-select-marked :
      (rows queue : List QueueItem)
      → length (select (active_on_planet k) (marked b rows queue))
        ≤ length (select (left_by rows) queue)
  unfolding marked hit
  length-select-marked [] queue =
      length-select_mono (active_on_planet k) (left_by []) queue
        (All-every _ queue (λ q h. ground arith))
  length-select-marked (r ∷ rows) queue = elim (Bool-cases (is_completed b r)) [
    | inl done ↦ ground (
      arith,
      length-select-marked rows (update_items r.id (λ q. record q { applied = true }) queue),
      length-select-update_items r rows queue done,
    )
    | inr open_row ↦ ground (
      arith,
      length-select-marked rows queue,
      length-select_mono (left_by rows) (left_by (r ∷ rows)) queue
          (All-every _ queue (λ q h. ground arith)),
    )
  ]

  -- Every completed row of the planet is hit by `rows`.
  abbrev OwnHit : List QueueItem → List QueueItem → Type 0
  OwnHit rows queue =
      All (λ q. active_on_planet k q ≡ true → is_completed b q ≡ true → hit b rows q ≡ true) queue

  hit-more :
      (x : QueueItem) (rows queue : List QueueItem) → OwnHit rows queue → OwnHit (x ∷ rows) queue
  unfolding hit
  hit-more x rows [] h = tt
  hit-more x rows (q ∷ queue) h =
      ((λ on done. ground (arith, h.0 on done)), hit-more x rows queue h.1)

  select-yes :
      (q : QueueItem) (queue : List QueueItem)
      → active_on_planet k q ≡ true
      → select (active_on_planet k) (q ∷ queue) ≡ q ∷ select (active_on_planet k) queue
  select-yes q queue h = rw h

  select-no :
      (q : QueueItem) (queue : List QueueItem)
      → active_on_planet k q ≡ false
      → select (active_on_planet k) (q ∷ queue) ≡ select (active_on_planet k) queue
  select-no q queue h = rw h

  hit-own : (queue : List QueueItem) → OwnHit (select (active_on_planet k) queue) queue
  unfolding hit
  hit-own [] = tt
  hit-own (q ∷ queue) = elim (Bool-cases (active_on_planet k q)) [
    | inl on ↦
        subst (λ rows. OwnHit rows (q ∷ queue)) (sym (select-yes q queue on))
          ((λ _ done. ground (arith, done)), hit-more q _ queue (hit-own queue))
    | inr off ↦
        subst (λ rows. OwnHit rows (q ∷ queue)) (sym (select-no q queue off))
          ((λ on. absurd (ground (arith, on, off))), hit-own queue)
  ]

  hit-insert_by_finish :
      (r q : QueueItem) (rows : List QueueItem)
      → hit b (insert_by_finish r rows) q ≡ hit b (r ∷ rows) q
  unfolding hit insert_by_finish
  hit-insert_by_finish r q [] = refl
  hit-insert_by_finish r q (x ∷ rows) = ground (arith, hit-insert_by_finish r q rows)

  hit-by_finish : (q : QueueItem) (rows : List QueueItem) → hit b (by_finish rows) q ≡ hit b rows q
  unfolding hit by_finish
  hit-by_finish q [] = refl
  hit-by_finish q (x ∷ rows) =
      ground (arith, hit-insert_by_finish x q (by_finish rows), hit-by_finish q rows)

  length-select-insert_by_finish :
      (p : QueueItem → Bool) (r : QueueItem) (rows : List QueueItem)
      → length (select p (insert_by_finish r rows)) ≡ length (select p (r ∷ rows))
  unfolding insert_by_finish
  length-select-insert_by_finish p r [] = refl
  length-select-insert_by_finish p r (x ∷ rows) =
      ground (arith, length-select-insert_by_finish p r rows)

  length-select-by_finish :
      (p : QueueItem → Bool) (rows : List QueueItem)
      → length (select p (by_finish rows)) ≡ length (select p rows)
  unfolding by_finish
  length-select-by_finish p [] = refl
  length-select-by_finish p (x ∷ rows) =
      ground
        (arith, length-select-insert_by_finish p x (by_finish rows), length-select-by_finish p rows)

  not_hit_mono :
      (rows queue : List QueueItem)
      → OwnHit rows queue
      → length (select (left_by (by_finish rows)) queue)
        ≤ length (select (λ q. not (is_completed b q)) (select (active_on_planet k) queue))
  not_hit_mono rows [] h = omega arith
  not_hit_mono rows (q ∷ queue) h =
      ground (arith, h.0, hit-by_finish q rows, not_hit_mono rows queue h.1)

  -- After the repair the planet has at most the items that are kept.
  pub repair-count :
      (fl : Float64) (out : List QueueItem) (w w' : World fl.F)
      → repair_completed_building_queues fl b (list_active_queue_for_planet k w) w ≡ ok (out, w')
      → count_active_queue_for_planet k w' ≤ length out
  unfolding count_active_queue_for_planet list_active_queue_for_planet
  repair-count fl out w w' h =
      let (kept, after) =
        repair-eq-ok fl b (by_finish (select (active_on_planet k) w.queue)) out w w' h in
      subst (λ v. length (select (active_on_planet k) v) ≤ length out)
        (ap (λ (v : World fl.F). v.queue) (sym after))
        (subst
          (λ o.
            length (
              select (active_on_planet k)
                (marked b (by_finish (select (active_on_planet k) w.queue)) w.queue))
            ≤ length o)
          (sym kept)
          (omega (
            arith,
            length-select-marked (by_finish (select (active_on_planet k) w.queue)) w.queue,
            not_hit_mono (select (active_on_planet k) w.queue) w.queue (hit-own w.queue),
            length-select-by_finish (λ q. not (is_completed b q))
                (select (active_on_planet k) w.queue),
          )))
