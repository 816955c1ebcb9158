-- ===== src/Svc/Build/Cancellation.antt =====
-- Cancelling a queue item (`internal/svc/build.go`).
use mathlib.Core.Path.{subst}
use terminal_army_go.Base.{
  ℕ, ◌==◌, ◌≡◌, refl, sym, ap, ◌∙◌, true, false, not, ◌||◌, List, [], ◌∷◌, some, arith, ==→eq,
  Option-cases, inl, inr,
}
use terminal_army_go.Int.{ℤ}
use terminal_army_go.Float.{Float64}
use terminal_army_go.Store.Tx.{
  ok, err, ok_state, >>=-eq-ok, fail_if, fail_if-eq-ok, fetch, fetch-eq-ok, not_found, forbidden,
  already_resolved, fetch-some, fail_if-false, fail_if-true,
}
use terminal_army_go.Store.Rows.{QueueItem, World}
use terminal_army_go.Store.Planets.{get_planet, update_planet_resources}
use terminal_army_go.Store.Queue.{get_queue_item, cancel_queue_item, find_item, update_items}
use terminal_army_go.Svc.Resources.{refresh_tx}
use terminal_army_go.Svc.Resources.Refresh.{refresh_tx-queue}
use terminal_army_go.Svc.Build.{cancel, refund}

find_item-cancel :
    (k : ℕ) (rows : List QueueItem) (q : QueueItem)
    → find_item k rows ≡ some q
    → find_item k (update_items k (λ x. record x { cancelled = true }) rows)
      ≡ some (record q { cancelled = true })
find_item-cancel k [] q h = cc
find_item-cancel k (x ∷ rows) q h = ground (arith, find_item-cancel k rows q)

module _ (fl : Float64) where
  open fl use {F}

  refund_planet-queue :
      (refreshed_at now : ℤ) (item : QueueItem) (k : ℕ) (w w' : World F)
      → refund fl refreshed_at now (record item { planet_id = some k }) w ≡ ok (tt, w')
      → w'.queue ≡ w.queue
  unfolding refund update_planet_resources
  refund_planet-queue refreshed_at now item k w w' h =
      let (p, w1, e1, h1) = >>=-eq-ok (fetch (get_planet k) not_found) _ w h in
      let (_, w2, e2, h2) = >>=-eq-ok (refresh_tx fl refreshed_at p.id) _ w1 h1 in
      let (r, w3, e3, h3) = >>=-eq-ok (fetch (get_planet k) not_found) _ w2 h2 in
      ap (λ (v : World F). v.queue)
        (sym (ok_state h3)
          ∙ ap (update_planet_resources r.id _ _ _ now)
              (fetch-eq-ok (get_planet k) not_found w2 w3 e3).1)
      ∙ refresh_tx-queue fl refreshed_at p.id w1 w2 e2
      ∙ ap (λ (v : World F). v.queue) (fetch-eq-ok (get_planet k) not_found w w1 e1).1

  refund-queue :
      (refreshed_at now : ℤ) (item : QueueItem) (w w' : World F)
      → refund fl refreshed_at now item w ≡ ok (tt, w')
      → w'.queue ≡ w.queue
  unfolding refund
  refund-queue refreshed_at now item w w' h = elim (Option-cases item.planet_id) [
    | inl nowhere ↦ ap (λ (v : World F). v.queue) (sym (ok_state (rw nowhere at h)))
    | inr (k, on) ↦ refund_planet-queue refreshed_at now item k w w' (
        subst (λ o. refund fl refreshed_at now (record item { planet_id = o }) w ≡ ok (tt, w')) on
          h)
  ]

  -- A row that is cancelled or applied cannot be cancelled.
  cancel_resolved :
      (refreshed_at now : ℤ) (user k : ℕ) (item : QueueItem) (w : World F)
      → get_queue_item k w ≡ some item
      → not (item.user_id == user) ≡ false
      → (item.cancelled || item.applied) ≡ true
      → cancel fl refreshed_at now user k w ≡ err already_resolved
  unfolding cancel
  cancel_resolved refreshed_at now user k item w found own resolved =
      fetch-some (get_queue_item k) item not_found _ w found
      ∙ fail_if-false _ forbidden _ w own
      ∙ fail_if-true _ already_resolved _ w resolved

  -- A cancellation is of a row of the user's own that was neither cancelled nor applied, and a second
  -- cancellation of the row fails, whoever's clock it reads.
  pub cancel_once :
      (refreshed_at now refreshed_again now_again : ℤ) (user k : ℕ) (w w' : World F)
      → cancel fl refreshed_at now user k w ≡ ok (tt, w')
      → (item : QueueItem) × (get_queue_item k w ≡ some item)
        × (item.user_id ≡ user)
        × (item.cancelled ≡ false)
        × (item.applied ≡ false)
        × (cancel fl refreshed_again now_again user k w' ≡ err already_resolved)
  unfolding cancel get_queue_item cancel_queue_item
  cancel_once refreshed_at now refreshed_again now_again user k w w' h =
      let (item, w1, e1, h1) = >>=-eq-ok (fetch (get_queue_item k) not_found) _ w h in
      let (found, s1) = fetch-eq-ok (get_queue_item k) not_found w w1 e1 in
      let (_, w2, e2, h2) = >>=-eq-ok (fail_if (not (item.user_id == user)) forbidden) _ w1 h1 in
      let (own, s2) = fail_if-eq-ok (not (item.user_id == user)) forbidden w1 w2 e2 in
      let (_, w3, e3, h3) =
        >>=-eq-ok (fail_if (item.cancelled || item.applied) already_resolved) _ w2 h2 in
      let (unresolved, s3) =
        fail_if-eq-ok (item.cancelled || item.applied) already_resolved w2 w3 e3 in
      let after : find_item k w'.queue ≡ some (record item { cancelled = true }) =
        ap (find_item k) (
          refund-queue refreshed_at now item (cancel_queue_item k w3) w' h3
          ∙ ap (λ (v : World F). (cancel_queue_item k v).queue) (s3 ∙ s2 ∙ s1))
        ∙ find_item-cancel k w.queue item found in
      (
        item,
        found,
        ==→eq item.user_id user (ground arith),
        ground arith,
        ground arith,
        cancel_resolved refreshed_again now_again user k (record item { cancelled = true }) w' after
            own refl,
      )
