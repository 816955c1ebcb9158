-- ===== src/Scheduler/Fleet/Landing.antt =====
-- The ships that a fleet leaves on a planet (`internal/scheduler/fleet.go`).
use Prim.Native.String.{String}
use mathlib.Core.Path.{subst}
use text.Mathlib.Text.{◌==◌ as str_eq}
use terminal_army_go.Base.{
  ℕ, ◌≡◌, refl, sym, ap, ◌∙◌, true, [], ◌∷◌, Bool-cases, inl, inr, arith, ==_self, if◌then◌else◌,
}
use terminal_army_go.Int.{ℤ, pos, ◌+ℤ◌, ◌≤ℤ◌, leb_ℤ, int_laws, +ℤ_zero}
use terminal_army_go.Dict.{Dict, level}
use terminal_army_go.Store.Rows.{World}
use terminal_army_go.Store.Planets.{add_count, add_ships}
use terminal_army_go.Store.Counts.{Distinct, AllNonNeg, level-add_count, level-cons}
use terminal_army_go.Scheduler.Fleet.{land_ships}

-- What `land_ships` makes of one planet's stock.
abbrev landed : Dict ℤ → Dict ℤ → Dict ℤ
landed [] stock = stock
landed ((name, count) ∷ ships) stock =
    landed ships (if leb_ℤ count (pos 0) then stock else add_count name count stock)

landed_zero : (n count : ℤ) → pos 0 ≤ℤ count → leb_ℤ count (pos 0) ≡ true → n +ℤ count ≡ n
landed_zero n count p h = let most : count ≤ℤ pos 0 = ground arith in omega int_laws

landed_one :
    (name j : String) (count : ℤ) (stock : Dict ℤ)
    → pos 0 ≤ℤ count
    → pos 0 ≤ℤ level stock name
    → level (if leb_ℤ count (pos 0) then stock else add_count name count stock) j
      ≡ (if str_eq name j then level stock j +ℤ count else level stock j)
landed_one name j count stock positive enough = elim (Bool-cases (leb_ℤ count (pos 0))) [
  | inl none_left ↦ rw none_left (ground (arith, landed_zero (level stock j) count))
  | inr some_left ↦ rw some_left (level-add_count name j count stock (omega int_laws))
]

landed_nonneg :
    (name j : String) (count : ℤ) (stock : Dict ℤ)
    → pos 0 ≤ℤ count
    → pos 0 ≤ℤ level stock name
    → pos 0 ≤ℤ level stock j
    → pos 0 ≤ℤ level (if leb_ℤ count (pos 0) then stock else add_count name count stock) j
landed_nonneg name j count stock p n m =
    let after = if leb_ℤ count (pos 0) then stock else add_count name count stock in
    let one = landed_one name j count stock p n in
    elim (Bool-cases (str_eq name j)) [
      | inl same ↦
          let added : level after j ≡ level stock j +ℤ count = one ∙ rw same refl in
          subst (λ x. pos 0 ≤ℤ x) (sym added) (omega int_laws)
      | inr other ↦
          let kept : level after j ≡ level stock j = one ∙ rw other refl in
          subst (λ x. pos 0 ≤ℤ x) (sym kept) m
    ]

level-landed :
    (ships stock : Dict ℤ) (key : String)
    → Distinct ships
    → AllNonNeg ships
    → ((j : String) → pos 0 ≤ℤ level stock j)
    → level (landed ships stock) key ≡ level stock key +ℤ level ships key
level-landed [] stock key d p n = omega int_laws
level-landed ((name, count) ∷ ships) stock key d p n =
    let stock' = if leb_ℤ count (pos 0) then stock else add_count name count stock in
    let rest =
      level-landed ships stock' key d.1 p.1
        (λ j. landed_nonneg name j count stock p.0 (n name) (n j)) in
    elim (level-cons name key count ships d.0) [
      | inl (same, here, gone) ↦
          let one : level stock' key ≡ level stock key +ℤ count =
            landed_one name key count stock p.0 (n name) ∙ rw same refl in
          rest
          ∙ ap (λ x. level stock' key +ℤ x) gone
          ∙ ap (λ x. x +ℤ pos 0) one
          ∙ +ℤ_zero (level stock key +ℤ count)
          ∙ ap (λ x. level stock key +ℤ x) (sym here)
      | inr (other, there) ↦
          let one : level stock' key ≡ level stock key =
            landed_one name key count stock p.0 (n name) ∙ rw other refl in
          rest ∙ ap (λ x. x +ℤ level ships key) one ∙ ap (λ x. level stock key +ℤ x) (sym there)
    ]

module _ {F : Type 0} where
  land_ships-landed :
      (k : ℕ) (ships : Dict ℤ) (w : World F)
      → (land_ships k ships w).ships k ≡ landed ships (w.ships k)
  unfolding land_ships add_ships
  land_ships-landed k [] w = refl
  land_ships-landed k ((name, count) ∷ ships) w =
      land_ships-landed k ships (if leb_ℤ count (pos 0) then w else add_ships k name count w)
      ∙ ap (landed ships) (elim (Bool-cases (leb_ℤ count (pos 0))) [
        | inl none_left ↦ rw none_left refl
        | inr some_left ↦ rw (some_left, ==_self k) refl
      ])

  -- Landing ships keeps what each single `AddShips` keeps.
  pub land_ships-keeps :
      {B : Type 0} (g : World F → B)
      → ((j : ℕ) (key : String) (d : ℤ) (w : World F) → g (add_ships j key d w) ≡ g w)
      → (k : ℕ) (ships : Dict ℤ) (w : World F) → g (land_ships k ships w) ≡ g w
  unfolding land_ships
  land_ships-keeps g same k [] w = refl
  land_ships-keeps g same k ((name, count) ∷ ships) w =
      land_ships-keeps g same k ships (if leb_ℤ count (pos 0) then w else add_ships k name count w)
      ∙ elim (Bool-cases (leb_ℤ count (pos 0))) [
        | inl none_left ↦ rw none_left refl
        | inr some_left ↦ rw some_left (same k name count w)
      ]

  -- A planet's stock of each type grows by exactly the ships that land.
  pub land_ships-level :
      (k : ℕ) (ships : Dict ℤ) (w : World F) (key : String)
      → Distinct ships
      → AllNonNeg ships
      → ((j : String) → pos 0 ≤ℤ level (w.ships k) j)
      → level ((land_ships k ships w).ships k) key ≡ level (w.ships k) key +ℤ level ships key
  land_ships-level k ships w key d p n =
      ap (λ m. level m key) (land_ships-landed k ships w) ∙ level-landed ships (w.ships k) key d p n
