-- ===== src/Svc/Resources/Refresh.antt =====
-- What a refresh does to a planet (`internal/svc/resources.go`).
use mathlib.Core.Path.{subst}
use mathlib.Core.Option.{some-injective}
use terminal_army_go.Base.{
  ℕ, ◌≡◌, ◌⊎◌, inl, inr, refl, sym, ap, ◌∙◌, true, false, if◌then◌else◌, Bool-cases, some, arith,
  ==_self,
}
use terminal_army_go.Int.{ℤ, pos, ◌-ℤ◌, ltb_ℤ, eqb_ℤ}
use terminal_army_go.Float.{Float64, Float64Laws, NonNeg}
use terminal_army_go.Game.Buildings.{
  building_metal_storage, building_crystal_storage, building_deuterium_tank,
}
use terminal_army_go.Game.Production.{ProductionReport}
use terminal_army_go.Store.Tx.{ok, ok_state, fetch, fetch-eq-ok, not_found, >>=-eq-ok}
use terminal_army_go.Store.Rows.{Planet, World}
use terminal_army_go.Store.Planets.{
  get_planet, get_planet-id, get_universe, get_planet-update_planet_resources,
  update_planet_resources, with_resources,
}
use terminal_army_go.Svc.Resources.{
  report_for_planet, capped, capacity_of, credit_window, refresh_row, refresh_tx, second,
}

module _ (fl : Float64) where
  open fl use {F, lt, of_int}

  -- `w'` is `w` with new pools and a new timestamp on planet `k` at most.
  abbrev pub Touched : ℕ → World F → World F → Type 0
  Touched k w w' =
      (w' ≡ w)
      ⊎ ((m : F) × (c : F) × (d : F) × (t : ℤ) × (w' ≡ update_planet_resources k m c d t w))

  -- A command has read the planet as it is after its refresh, and the planet is the user's.
  abbrev pub Refreshed : ℤ → ℕ → ℕ → Planet F → World F → World F → Type 0
  Refreshed refreshed_at user k r w w1 =
      (p : Planet F) × (get_planet k w ≡ some p)
      × (p.owner_user_id ≡ user)
      × (refresh_tx fl refreshed_at k w ≡ ok (tt, w1))
      × (get_planet k w1 ≡ some r)

  -- No pool of the planet is negative.
  abbrev pub Solvent : Planet F → Type 0
  Solvent p = NonNeg fl p.metal × NonNeg fl p.crystal × NonNeg fl p.deuterium

  -- The pool is not negative, and it is not above the cap unless the cap is below zero and the pool is
  -- zero.
  abbrev pub Within : F → F → Type 0
  Within cap x =
      ((lt cap x ≡ false) ⊎ ((lt cap (of_int (pos 0)) ≡ true) × (x ≡ of_int (pos 0)))) × NonNeg fl x

  pub report_for_planet-reads :
      (p : Planet F) (w w' : World F) {r : ProductionReport F}
      → report_for_planet fl p w ≡ ok (r, w')
      → w' ≡ w
  unfolding report_for_planet
  report_for_planet-reads p w w' h =
      let (u, w1, e1, h1) = >>=-eq-ok (fetch (get_universe p.universe_id) not_found) _ w h in
      sym (ok_state h1) ∙ (fetch-eq-ok (get_universe p.universe_id) not_found w w1 e1).1

  refresh_row-queue :
      (now : ℤ) (p : Planet F) (w w' : World F)
      → refresh_row fl now p w ≡ ok (tt, w')
      → w'.queue ≡ w.queue
  unfolding refresh_row credit_window update_planet_resources
  refresh_row-queue now p w w' h = elim (Bool-cases (eqb_ℤ p.resources_last_updated_at (pos 0))) [
    | inl first ↦ ap (λ (v : World F). v.queue) (sym (ok_state (rw first at h)))
    | inr later ↦ elim (Bool-cases (ltb_ℤ (now -ℤ p.resources_last_updated_at) second)) [
      | inl soon ↦ ap (λ (v : World F). v.queue) (sym (ok_state (rw (later, soon) at h)))
      | inr due ↦
          let (r, w1, e1, h1) = >>=-eq-ok (report_for_planet fl p) _ w (rw (later, due) at h) in
          ap (λ (v : World F). v.queue) (sym (ok_state h1))
          ∙ ap (λ (v : World F). v.queue) (report_for_planet-reads p w w1 e1)
    ]
  ]

  -- A refresh leaves the queue as it is.
  pub refresh_tx-queue :
      (now : ℤ) (k : ℕ) (w w' : World F) → refresh_tx fl now k w ≡ ok (tt, w') → w'.queue ≡ w.queue
  unfolding refresh_tx
  refresh_tx-queue now k w w' h =
      let (p, w1, e1, h1) = >>=-eq-ok (fetch (get_planet k) not_found) _ w h in
      refresh_row-queue now p w1 w' h1
      ∙ ap (λ (v : World F). v.queue) (fetch-eq-ok (get_planet k) not_found w w1 e1).1

  module _ (laws : Float64Laws fl) where
    open laws use {lt_irrefl}

    -- The clamp at zero, of a pool that is not above its cap.
    floored-Within :
        (cap y : F)
        → lt cap y ≡ false
        → Within cap (if lt y (of_int (pos 0)) then of_int (pos 0) else y)
    floored-Within cap y below = ground (arith, lt_irrefl (of_int (pos 0)))

    capped-Within : (cap x : F) → Within cap (capped fl cap x)
    unfolding capped
    capped-Within cap x = elim (Bool-cases (lt cap x)) [
      | inl over ↦ rw over (floored-Within cap cap (lt_irrefl cap))
      | inr under ↦ rw under (floored-Within cap x under)
    ]

    -- With the arithmetic's laws: crediting a window of production leaves no pool negative and each pool
    -- at most at the capacity of its storage building, but for a pool at zero under a capacity below zero;
    -- and it changes nothing but the planet's pools and timestamp.
    pub credit_window-Within :
        (now : ℤ) (p : Planet F) (w w' : World F)
        → credit_window fl now p w ≡ ok (tt, w')
        → (m : F) × (c : F) × (d : F) × (w' ≡ update_planet_resources p.id m c d now w)
          × Within (capacity_of fl (w.buildings p.id) building_metal_storage) m
          × Within (capacity_of fl (w.buildings p.id) building_crystal_storage) c
          × Within (capacity_of fl (w.buildings p.id) building_deuterium_tank) d
    unfolding credit_window
    credit_window-Within now p w w' h =
        let (r, w1, e1, h1) = >>=-eq-ok (report_for_planet fl p) _ w h in
        let same = report_for_planet-reads p w w1 e1 in
        subst
          (λ v.
            (m : F) × (c : F) × (d : F) × (w' ≡ update_planet_resources p.id m c d now v)
            × Within (capacity_of fl (v.buildings p.id) building_metal_storage) m
            × Within (capacity_of fl (v.buildings p.id) building_crystal_storage) c
            × Within (capacity_of fl (v.buildings p.id) building_deuterium_tank) d)
          same (_, _, _, sym (ok_state h1), capped-Within _ _, capped-Within _ _, capped-Within _ _)

    -- The planet after a refresh: its pools are not negative, and nothing else of it has changed but
    -- the timestamp.
    abbrev pub Kept : ℕ → Planet F → World F → World F → Type 0
    Kept k p w w' =
        (m : F) × (c : F) × (d : F) × (t : ℤ) × (get_planet k w' ≡ some (with_resources m c d t p))
        × Solvent (with_resources m c d t p)
        × Touched k w w'

    updated_Kept :
        (k : ℕ) (p : Planet F) (m c d : F) (t : ℤ) (w : World F)
        → get_planet k w ≡ some p
        → Solvent (with_resources m c d t p)
        → Kept k p w (update_planet_resources k m c d t w)
    updated_Kept k p m c d t w found s = (
      m,
      c,
      d,
      t,
      get_planet-update_planet_resources k k m c d t w ∙ rw (==_self k, found),
      s,
      inr (m, c, d, t, refl),
    )

    refreshed_Kept :
        (now : ℤ) (k : ℕ) (p : Planet F) (w w' : World F)
        → p.id ≡ k
        → get_planet k w ≡ some p
        → Solvent p
        → refresh_row fl now p w ≡ ok (tt, w')
        → Kept k p w w'
    unfolding refresh_row
    refreshed_Kept now k p w w' key found s h =
        elim (Bool-cases (eqb_ℤ p.resources_last_updated_at (pos 0))) [
          | inl first ↦
              subst (Kept k p w) (ok_state (rw (first, key) at h))
                (updated_Kept k p p.metal p.crystal p.deuterium now w found s)
          | inr later ↦ elim (Bool-cases (ltb_ℤ (now -ℤ p.resources_last_updated_at) second)) [
            | inl soon ↦
                subst (Kept k p w) (ok_state (rw (later, soon) at h))
                  (p.metal, p.crystal, p.deuterium, p.resources_last_updated_at, found, s, inl refl)
            | inr due ↦
                let (m, c, d, e, wm, wc, wd) =
                  credit_window-Within now p w w' (rw (later, due) at h) in
                subst (Kept k p w) (sym e ∙ refl) (
                  subst (λ j. Kept k p w (update_planet_resources j m c d now w)) (sym key)
                    (updated_Kept k p m c d now w found (wm.1, wc.1, wd.1)))
          ]
        ]

    -- With the arithmetic's laws: a successful refresh of a planet whose pools are not negative keeps them so, and changes nothing but that planet's pools and
    -- timestamp.
    pub refresh_tx-Kept :
        (now : ℤ) (k : ℕ) (p : Planet F) (w w' : World F)
        → refresh_tx fl now k w ≡ ok (tt, w')
        → get_planet k w ≡ some p
        → Solvent p
        → Kept k p w w'
    unfolding refresh_tx
    refresh_tx-Kept now k p w w' h found s =
        let (q, w1, e1, h1) = >>=-eq-ok (fetch (get_planet k) not_found) _ w h in
        let (row, same) = fetch-eq-ok (get_planet k) not_found w w1 e1 in
        refreshed_Kept now k p w w' (get_planet-id k w found) found s (
          subst (λ v. refresh_row fl now p v ≡ ok (tt, w')) same
            (subst (λ r. refresh_row fl now r w1 ≡ ok (tt, w'))
              (some-injective q p (sym row ∙ found)) h1))
