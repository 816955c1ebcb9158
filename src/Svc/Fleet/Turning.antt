-- ===== src/Svc/Fleet/Turning.antt =====
-- What a recall does (`Recall` of `internal/svc/fleet.go`).
use Prim.Native.String.{String}
use text.Mathlib.Text.{◌==◌ as str_eq}
use text.Mathlib.TextEquality.{eq_iff}
use terminal_army_go.Base.{ℕ, ◌==◌, ◌≡◌, refl, sym, ap, ◌∙◌, true, false, not, some, arith, ==→eq}
use terminal_army_go.Int.{ℤ, pos, ◌-ℤ◌, ◌≤ℤ◌, ltb_ℤ, int_laws, le→ltb_ℤ_false}
use terminal_army_go.Store.Tx.{
  ok, err, ok_state, >>=-eq-ok, fail_if, fail_if-eq-ok, fetch, fetch-eq-ok, not_found, forbidden,
  not_recallable, fetch-some, fail_if-false, fail_if-true,
}
use terminal_army_go.Store.Rows.{Fleet, World}
use terminal_army_go.Store.Fleets.{get_fleet, is_due_arrival, set_fleet_return, set_fleet_status}
use terminal_army_go.Store.Fleets.Lookup.{get_fleet-id, get_fleet-updated}
use terminal_army_go.Svc.Fleet.{PublicFleet}
use terminal_army_go.Svc.Fleet.Recall.{recall, time_of_return}

-- A fleet that has turned around.
abbrev pub turned : ℤ → Fleet → Fleet
turned now f = record f {
  status = "returning";
  return_at = some (time_of_return now f.departure_at);
}

-- The way home takes as long as the way out took so far.
pub time_of_return_symmetric :
    (now departure : ℤ) → departure ≤ℤ now → time_of_return now departure -ℤ now ≡ now -ℤ departure
unfolding time_of_return
time_of_return_symmetric now departure h =
    let forward : ltb_ℤ (now -ℤ departure) (pos 0) ≡ false =
      le→ltb_ℤ_false (now -ℤ departure) (pos 0) (omega int_laws) in
    rw forward (omega int_laws)

module _ {F : Type 0} where
  get_fleet-turned :
      (now : ℤ) (k : ℕ) (f : Fleet) (w : World F)
      → get_fleet k w ≡ some f
      → get_fleet k (
          set_fleet_return k (time_of_return now f.departure_at) (set_fleet_status k "returning" w))
        ≡ some (turned now f)
  unfolding set_fleet_return set_fleet_status
  get_fleet-turned now k f w found =
      get_fleet-updated k (λ x. record x { return_at = some (time_of_return now f.departure_at) })
        (set_fleet_status k "returning" w) (record f { status = "returning" }) (λ x. refl)
        (get_fleet-updated k (λ x. record x { status = "returning" }) w f (λ x. refl) found)

  -- A fleet that is not outbound cannot be recalled.
  recall_refused :
      (now : ℤ) (user k : ℕ) (f : Fleet) (w : World F)
      → get_fleet k w ≡ some f
      → not (f.owner_id == user) ≡ false
      → not (str_eq f.status "outbound") ≡ true
      → recall now user k w ≡ err not_recallable
  unfolding recall
  recall_refused now user k f w found own away =
      fetch-some (get_fleet k) f not_found _ w found
      ∙ fail_if-false _ forbidden _ w own
      ∙ fail_if-true _ not_recallable _ w away

  recall-eq-ok :
      (now : ℤ) (user k : ℕ) (w w' : World F) {out : PublicFleet}
      → recall now user k w ≡ ok (out, w')
      → (f : Fleet) × (get_fleet k w ≡ some f)
        × (not (f.owner_id == user) ≡ false)
        × (not (str_eq f.status "outbound") ≡ false)
        × (w'
            ≡ set_fleet_return k
                (time_of_return now f.departure_at)
                (set_fleet_status k "returning" w))
  unfolding recall
  recall-eq-ok now user k w w' h =
      let (f, w1, e1, h1) = >>=-eq-ok (fetch (get_fleet k) not_found) _ w h in
      let (found, s1) = fetch-eq-ok (get_fleet k) not_found w w1 e1 in
      let (_, w2, e2, h2) = >>=-eq-ok (fail_if (not (f.owner_id == user)) forbidden) _ w1 h1 in
      let (own, s2) = fail_if-eq-ok (not (f.owner_id == user)) forbidden w1 w2 e2 in
      let away = not (str_eq f.status "outbound") in
      let (_, w3, e3, h3) = >>=-eq-ok (fail_if away not_recallable) _ w2 h2 in
      let (out_there, s3) = fail_if-eq-ok away not_recallable w2 w3 e3 in
      let turn : ℕ → World F → World F = λ j v.
        set_fleet_return j (time_of_return now f.departure_at) (set_fleet_status j "returning" v) in
      let (g, w5, e5, h5) = >>=-eq-ok (fetch (get_fleet f.id) not_found) _ (turn f.id w3) h3 in
      let (_, s5) = fetch-eq-ok (get_fleet f.id) not_found (turn f.id w3) w5 e5 in
      (
        f,
        found,
        own,
        out_there,
        sym (ok_state h5)
            ∙ s5
            ∙ ap (λ j. turn j w3) (get_fleet-id k w found)
            ∙ ap (turn k) (s3 ∙ s2 ∙ s1),
      )

  -- A recall keeps what the two updates of the fleet's row keep, and turns the row.
  pub recall-turned :
      {B : Type 0} (g : World F → B) (now : ℤ) (user k : ℕ) (w w' : World F) {out : PublicFleet}
      → ((j : ℕ) (s : String) (u : World F) → g (set_fleet_status j s u) ≡ g u)
      → ((j : ℕ) (t : ℤ) (u : World F) → g (set_fleet_return j t u) ≡ g u)
      → recall now user k w ≡ ok (out, w')
      → (f : Fleet) × (get_fleet k w ≡ some f)
        × (get_fleet k w' ≡ some (turned now f))
        × (g w' ≡ g w)
  recall-turned g now user k w w' status return h =
      let (f, found, _, _, after) = recall-eq-ok now user k w w' h in
      (
        f,
        found,
        ap (get_fleet k) after ∙ get_fleet-turned now k f w found,
        ap g after
            ∙ return k (time_of_return now f.departure_at) (set_fleet_status k "returning" w)
            ∙ status k "returning" w,
      )

  -- A recall is of an outbound fleet of the user's own. Its row is then returning, with the time of
  -- return that is as far ahead as the departure is behind; no arrival of it is due, whatever the time;
  -- and a second recall of it fails.
  pub recall_once :
      (now again : ℤ) (user k : ℕ) (w w' : World F) {out : PublicFleet}
      → recall now user k w ≡ ok (out, w')
      → (f : Fleet) × (get_fleet k w ≡ some f)
        × (f.owner_id ≡ user)
        × (f.status ≡ "outbound")
        × (get_fleet k w' ≡ some (turned now f))
        × (f.departure_at ≤ℤ now → time_of_return now f.departure_at -ℤ now ≡ now -ℤ f.departure_at)
        × ((t : ℤ) → is_due_arrival t (turned now f) ≡ false)
        × (recall again user k w' ≡ err not_recallable)
  unfolding is_due_arrival
  recall_once now again user k w w' h =
      let (f, found, own, out_there, turning) = recall-eq-ok now user k w w' h in
      let after = ap (get_fleet k) turning ∙ get_fleet-turned now k f w found in
      (
        f,
        found,
        ==→eq f.owner_id user (ground arith),
        (eq_iff f.status "outbound").0 (ground arith),
        after,
        time_of_return_symmetric now f.departure_at,
        λ t. refl,
        recall_refused again user k (turned now f) w' after own refl,
      )
