-- ===== src/Svc/Orders/Payment.antt =====
-- Loading the planet of a command and paying for it (`internal/svc/build.go`, `shipyard.go`,
-- `research.go`).
use mathlib.Core.Path.{subst}
use terminal_army_go.Base.{
  ℕ, ◌==◌, ◌≡◌, ◌⊎◌, not, Bool, suc, ◌≤◌, length, ◌++◌, ==_self, refl, sym, ◌∙◌, ==→eq, List, [],
  ◌∷◌, All, select, false, inl, inr, some, arith,
}
use terminal_army_go.Int.{ℤ, ◌≤ℤ◌}
use terminal_army_go.Float.{Float64, Float64Laws, NonNeg}
use terminal_army_go.Game.Formulas.{Cost}
use terminal_army_go.Store.Tx.{
  ok, ok_state, ok_result, fetch, fail_if, fetch-eq-ok, fail_if-eq-ok, not_found, forbidden,
  >>=-eq-ok,
}
use terminal_army_go.Store.Rows.{Planet, QueueItem, World}
use terminal_army_go.Store.Planets.{
  get_planet, get_planet-id, get_planet-update_planet_resources, update_planet_resources,
  with_resources,
}
use terminal_army_go.Store.Queue.{
  count_active_queue_for_planet, insert_queue_item, new_row, latest_active_queue_finish,
  latest_active_queue_finish-upper, All-weaken, active_on_planet,
}
use terminal_army_go.Svc.Resources.{refresh_tx}
use terminal_army_go.Svc.Resources.Refresh.{Solvent, refresh_tx-queue}
use terminal_army_go.Svc.Orders.{
  PublicItem, load_owned, lacks, chained_start, chain_and_insert, debit_and_insert,
  queue_item_to_public,
}

All-none : (P : QueueItem → Type 0) (rows : List QueueItem) → length rows ≤ 0 → All P rows
All-none P [] h = tt
All-none P (q ∷ rows) h = absurd (omega arith)

length-select-append :
    (p : QueueItem → Bool) (rows : List QueueItem) (q : QueueItem)
    → length (select p (rows ++ (q ∷ []))) ≤ suc (length (select p rows))
length-select-append p [] q = ground arith
length-select-append p (x ∷ rows) q = ground (arith, length-select-append p rows q)

module _ (fl : Float64) where
  open fl use {F, sub, of_int, trunc}

  -- The planet after the cost of a row has been taken from it.
  abbrev pub debited : ℤ → Planet F → QueueItem → Planet F
  debited now r q =
      with_resources (sub r.metal (of_int q.cost_metal)) (sub r.crystal (of_int q.cost_crystal))
        (sub r.deuterium (of_int q.cost_deuterium)) now r

  -- The world after the debit and the insertion.
  abbrev pub placed : ℤ → Planet F → QueueItem → World F → World F
  placed now r q w =
      (insert_queue_item q (
        update_planet_resources r.id (sub r.metal (of_int q.cost_metal))
          (sub r.crystal (of_int q.cost_crystal)) (sub r.deuterium (of_int q.cost_deuterium)) now
          w)).1

  abbrev pub cost_of : QueueItem → Cost
  cost_of q = record {
    metal = q.cost_metal;
    crystal = q.cost_crystal;
    deuterium = q.cost_deuterium;
  }

  pub debit_and_insert-eq-ok :
      (now : ℤ) (r : Planet F) (q : QueueItem) (w w' : World F) {a : PublicItem}
      → debit_and_insert fl now r q w ≡ ok (a, w')
      → (w' ≡ placed now r q w) × (a ≡ queue_item_to_public (new_row w.next_queue q))
  unfolding debit_and_insert insert_queue_item update_planet_resources
  debit_and_insert-eq-ok now r q w w' h = (sym (ok_state h), sym (ok_result h))

  pub placed-queue :
      (now : ℤ) (r : Planet F) (q : QueueItem) (w : World F)
      → (placed now r q w).queue ≡ w.queue ++ (new_row w.next_queue q ∷ [])
  unfolding insert_queue_item update_planet_resources
  placed-queue now r q w = refl

  pub placed-planet :
      (now : ℤ) (k : ℕ) (r : Planet F) (q : QueueItem) (w : World F)
      → get_planet k w ≡ some r
      → get_planet k (placed now r q w) ≡ some (debited now r q)
  unfolding insert_queue_item get_planet
  placed-planet now k r q w found =
      let key = get_planet-id k w found in
      let own = subst (λ j. get_planet j w ≡ some r) (sym key) found in
      subst (λ j. get_planet j (placed now r q w) ≡ some (debited now r q)) key
        (get_planet-update_planet_resources r.id r.id _ _ _ now w ∙ rw (==_self r.id, own))

  -- An order adds one active item at most.
  pub placed-count :
      (k : ℕ) (now : ℤ) (r : Planet F) (q : QueueItem) (w : World F)
      → count_active_queue_for_planet k (placed now r q w) ≤ suc (count_active_queue_for_planet k w)
  unfolding insert_queue_item update_planet_resources count_active_queue_for_planet
  placed-count k now r q w =
      length-select-append (active_on_planet k) w.queue (new_row w.next_queue q)

  -- The start is not before now, and not before the end of an active item.
  pub chained_start-after :
      (k : ℕ) (pending : List QueueItem) (db_now now start : ℤ) (w w' : World F)
      → chained_start fl k pending db_now now w ≡ ok (start, w')
      → (w' ≡ w)
        × (now ≤ℤ start)
        × ((pending ≡ []) ⊎ All (λ q. q.finished_at ≤ℤ start) (select (active_on_planet k) w.queue))
  unfolding chained_start
  chained_start-after k [] db_now now start w w' h =
      (sym (ok_state h), subst (λ s. now ≤ℤ s) (ok_result h) (omega arith), inl refl)
  chained_start-after k (x ∷ xs) db_now now start w w' h =
      let tail = latest_active_queue_finish k db_now w in
      let last = ok_result h in
      (
        sym (ok_state h),
        subst (λ s. now ≤ℤ s) last (ground arith),
        inr (
            All-weaken tail start _ (subst (λ s. tail ≤ℤ s) last (ground arith))
              (latest_active_queue_finish-upper k db_now w)),
      )

  -- An item that is chained to all that is active starts after all of it.
  pub chained_start-All :
      (k : ℕ) (pending : List QueueItem) (db_now now start : ℤ) (w w' : World F)
      → chained_start fl k pending db_now now w ≡ ok (start, w')
      → count_active_queue_for_planet k w ≤ length pending
      → All (λ q. q.finished_at ≤ℤ start) (select (active_on_planet k) w.queue)
  unfolding count_active_queue_for_planet
  chained_start-All k pending db_now now start w w' h count =
      let (_, _, cases) = chained_start-after k pending db_now now start w w' h in
      elim cases [
        | inl nothing ↦
            All-none _ (select (active_on_planet k) w.queue)
              (subst (λ xs. length (select (active_on_planet k) w.queue) ≤ length xs) nothing count)
        | inr after ↦ after
      ]

  pub chain_and_insert-eq-ok :
      (now db_now : ℤ) (r : Planet F) (pending : List QueueItem) (row : ℤ → QueueItem)
      (w w' : World F) {a : PublicItem}
      → chain_and_insert fl now db_now r pending row w ≡ ok (a, w')
      → (start : ℤ) × (chained_start fl r.id pending db_now now w ≡ ok (start, w))
        × (w' ≡ placed now r (row start) w)
        × (a ≡ queue_item_to_public (new_row w.next_queue (row start)))
  unfolding chain_and_insert
  chain_and_insert-eq-ok now db_now r pending row w w' {a} h =
      let (start, w1, e1, h1) = >>=-eq-ok (chained_start fl r.id pending db_now now) _ w h in
      let (same, _, _) = chained_start-after r.id pending db_now now start w w1 e1 in
      let chained =
        subst (λ v. chained_start fl r.id pending db_now now w ≡ ok (start, v)) same e1 in
      let (after, answer) =
        debit_and_insert-eq-ok now r (row start) w w'
          (subst (λ v. debit_and_insert fl now r (row start) v ≡ ok (a, w')) same h1) in
      (start, chained, after, answer)

  -- The planet that a command works on is a row of the state that it goes on with, its pools are not
  -- negative, and the state differs from the one before at that planet's pools at most.
  pub load_owned-eq-ok :
      (refreshed_at : ℤ) (user k : ℕ) (r : Planet F) (w w' : World F)
      → load_owned fl refreshed_at user k w ≡ ok (r, w')
      → (p : Planet F) × (get_planet k w ≡ some p)
        × (p.owner_user_id ≡ user)
        × (refresh_tx fl refreshed_at k w ≡ ok (tt, w'))
        × (get_planet k w' ≡ some r)
  unfolding load_owned
  load_owned-eq-ok refreshed_at user k r w w' h =
      let (p, w1, e1, h1) = >>=-eq-ok (fetch (get_planet k) not_found) _ w h in
      let (found, same1) = fetch-eq-ok (get_planet k) not_found w w1 e1 in
      let (_, w2, e2, h2) = >>=-eq-ok (fail_if (not (p.owner_user_id == user)) forbidden) _ w1 h1 in
      let (owned, same2) = fail_if-eq-ok (not (p.owner_user_id == user)) forbidden w1 w2 e2 in
      let (_, w3, e3, h3) = >>=-eq-ok (refresh_tx fl refreshed_at p.id) _ w2 h2 in
      let (reread, same3) = fetch-eq-ok (get_planet k) not_found w3 w' h3 in
      (
        p,
        found,
        ==→eq p.owner_user_id user (ground arith),
        subst (λ v. refresh_tx fl refreshed_at k w ≡ ok (tt, v)) (sym same3)
            (subst (λ v. refresh_tx fl refreshed_at k v ≡ ok (tt, w3)) (same2 ∙ same1)
              (subst (λ j. refresh_tx fl refreshed_at j w2 ≡ ok (tt, w3)) (get_planet-id k w found)
                e3)),
        subst (λ v. get_planet k v ≡ some r) (sym same3) reread,
      )

  pub load_owned-queue :
      (refreshed_at : ℤ) (user k : ℕ) (r : Planet F) (w w' : World F)
      → load_owned fl refreshed_at user k w ≡ ok (r, w')
      → w'.queue ≡ w.queue
  load_owned-queue refreshed_at user k r w w' h =
      let (_, _, _, refreshed, _) = load_owned-eq-ok refreshed_at user k r w w' h in
      refresh_tx-queue fl refreshed_at k w w' refreshed

  module _ (laws : Float64Laws fl) where
    open laws use {sub_NonNeg, trunc_reaches}

    -- A pool that is not short of a cost stays above zero when the cost is taken from it.
    sub-NonNeg : (x : F) (c : ℤ) → NonNeg fl x → c ≤ℤ trunc x → NonNeg fl (sub x (of_int c))
    sub-NonNeg x c h enough = sub_NonNeg x (of_int c) (trunc_reaches x c h enough)

    pub debited-Solvent :
        (now : ℤ) (r : Planet F) (q : QueueItem)
        → Solvent fl r
        → lacks fl r (cost_of q) ≡ false
        → Solvent fl (debited now r q)
    unfolding lacks
    debited-Solvent now r q s h = (
      sub-NonNeg r.metal q.cost_metal s.0 (ground arith),
      sub-NonNeg r.crystal q.cost_crystal s.1 (ground arith),
      sub-NonNeg r.deuterium q.cost_deuterium s.2 (ground arith),
    )
