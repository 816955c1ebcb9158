-- ===== src/Svc/Resources/Frame.antt =====
-- What a refresh leaves alone (`internal/svc/resources.go`).
use terminal_army_go.Base.{ℕ, ◌≡◌, sym, ap, ◌∙◌, Bool-cases, inl, inr}
use terminal_army_go.Int.{ℤ, pos, ◌-ℤ◌, ltb_ℤ, eqb_ℤ}
use terminal_army_go.Float.{Float64}
use terminal_army_go.Store.Tx.{ok, ok_state, fetch, fetch-eq-ok, not_found, >>=-eq-ok}
use terminal_army_go.Store.Rows.{Planet, World}
use terminal_army_go.Store.Planets.{get_planet, update_planet_resources}
use terminal_army_go.Svc.Resources.{
  credit_window, refresh_row, refresh_tx, report_for_planet, second,
}
use terminal_army_go.Svc.Resources.Refresh.{report_for_planet-reads}

module _ (fl : Float64) where
  open fl use {F}

  -- What every update of a planet's pools keeps.
  abbrev pub Untouched : {B : Type 0} → (World F → B) → Type 0
  Untouched g =
      (k : ℕ) (m c d : F) (t : ℤ) (w : World F) → g (update_planet_resources k m c d t w) ≡ g w

  refresh_row-keeps :
      {B : Type 0} (g : World F → B)
      → Untouched g
      → (now : ℤ) (p : Planet F) (w w' : World F) → refresh_row fl now p w ≡ ok (tt, w')
      → g w' ≡ g w
  unfolding refresh_row credit_window
  refresh_row-keeps g same now p w w' h =
      elim (Bool-cases (eqb_ℤ p.resources_last_updated_at (pos 0))) [
        | inl first ↦ ap g (sym (ok_state (rw first at h))) ∙ same p.id _ _ _ _ w
        | inr later ↦ elim (Bool-cases (ltb_ℤ (now -ℤ p.resources_last_updated_at) second)) [
          | inl soon ↦ ap g (sym (ok_state (rw (later, soon) at h)))
          | inr due ↦
              let (r, w1, e1, h1) = >>=-eq-ok (report_for_planet fl p) _ w (rw (later, due) at h) in
              ap g (sym (ok_state h1))
              ∙ same p.id _ _ _ _ w1
              ∙ ap g (report_for_planet-reads fl p w w1 e1)
        ]
      ]

  -- A refresh keeps what every update of a planet's pools keeps.
  pub refresh_tx-keeps :
      {B : Type 0} (g : World F → B)
      → Untouched g
      → (now : ℤ) (k : ℕ) (w w' : World F) → refresh_tx fl now k w ≡ ok (tt, w')
      → g w' ≡ g w
  unfolding refresh_tx
  refresh_tx-keeps g same now k w w' h =
      let (p, w1, e1, h1) = >>=-eq-ok (fetch (get_planet k) not_found) _ w h in
      refresh_row-keeps g same now p w1 w' h1
      ∙ ap g (fetch-eq-ok (get_planet k) not_found w w1 e1).1
