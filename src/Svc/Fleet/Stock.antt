-- ===== src/Svc/Fleet/Stock.antt =====
-- The ships that a dispatch takes from a planet and gives to a fleet (`internal/svc/fleet.go`).
use Prim.Native.String.{String}
use mathlib.Core.Path.{subst}
use text.Mathlib.Text.{◌==◌ as str_eq}
use text.Mathlib.TextEquality.{eq_iff}
use terminal_army_go.Base.{
  ℕ, ◌≡◌, refl, sym, ap, ◌∙◌, false, ◌++◌, [], ◌∷◌, inl, inr, arith, ==_self, if◌then◌else◌,
}
use terminal_army_go.Int.{ℤ, pos, ◌+ℤ◌, ◌-ℤ◌, ◌≤ℤ◌, int_laws}
use terminal_army_go.Dict.{Dict, has, level}
use terminal_army_go.Store.Rows.{World}
use terminal_army_go.Store.Planets.{add_count, add_ships}
use terminal_army_go.Store.Counts.{Distinct, AllPositive, level-add_count, level-cons, has-cons}
use terminal_army_go.Store.Fleets.{insert_fleet_ship}
use terminal_army_go.Svc.Fleet.Dispatch.{short_of_ships, take_ships, board_ships}

-- What `take_ships` makes of one planet's stock.
abbrev taken : Dict ℤ → Dict ℤ → Dict ℤ
taken [] stock = stock
taken ((st, count) ∷ ships) stock = taken ships (add_count st (pos 0 -ℤ count) stock)

-- A stock covers ships whose levels it shares with a stock that covers them.
short_of_ships-frame :
    (stock other ships : Dict ℤ) (st : String)
    → ((j : String) → str_eq st j ≡ false → level other j ≡ level stock j)
    → has st ships ≡ false
    → short_of_ships stock ships ≡ false
    → short_of_ships other ships ≡ false
unfolding short_of_ships
short_of_ships-frame stock other [] st same absent h = refl
short_of_ships-frame stock other ((k, count) ∷ ships) st same absent h =
    let (other_key, later) = has-cons st k count ships absent in
    ground (arith, same k other_key, short_of_ships-frame stock other ships st same later)

taken_one :
    (st j : String) (count : ℤ) (stock : Dict ℤ)
    → count ≤ℤ level stock st
    → level (add_count st (pos 0 -ℤ count) stock) j
      ≡ (if str_eq st j then level stock j -ℤ count else level stock j)
taken_one st j count stock covered = ground (
  arith,
  level-add_count st j (pos 0 -ℤ count) stock (omega int_laws),
  minus (level stock j) count,
)
  where
    minus : (n c : ℤ) → n +ℤ (pos 0 -ℤ c) ≡ n -ℤ c
    minus n c = omega int_laws

-- The rest of the ships is taken from a key of its own.
level-after_one :
    (st key : String) (count before after rest : ℤ)
    → (ships : Dict ℤ) → has st ships ≡ false
    → after ≡ (if str_eq st key then before -ℤ count else before)
    → rest ≡ after -ℤ level ships key
    → rest ≡ before -ℤ level ((st, count) ∷ ships) key
level-after_one st key count before after rest ships absent one h =
    elim (level-cons st key count ships absent) [
      | inl (same, here, gone) ↦
          let one' : after ≡ before -ℤ count = one ∙ rw same refl in
          h
          ∙ ap (λ x. after -ℤ x) gone
          ∙ ap (λ x. x -ℤ pos 0) one'
          ∙ minus_zero (before -ℤ count)
          ∙ ap (λ x. before -ℤ x) (sym here)
      | inr (other, there) ↦
          let one' : after ≡ before = one ∙ rw other refl in
          h ∙ ap (λ x. x -ℤ level ships key) one' ∙ ap (λ x. before -ℤ x) (sym there)
    ]
  where
    minus_zero : (n : ℤ) → n -ℤ pos 0 ≡ n
    minus_zero n = omega int_laws

-- A stock that covers ships keeps, of each type, what they do not take.
level-taken :
    (ships stock : Dict ℤ) (key : String)
    → Distinct ships
    → AllPositive ships
    → short_of_ships stock ships ≡ false
    → level (taken ships stock) key ≡ level stock key -ℤ level ships key
unfolding short_of_ships
level-taken [] stock key d p h = omega int_laws
level-taken ((st, count) ∷ ships) stock key d p h =
    let covered : count ≤ℤ level stock st = ground arith in
    let stock' = add_count st (pos 0 -ℤ count) stock in
    level-after_one st key count (level stock key) (level stock' key)
      (level (taken ships stock') key) ships d.0 (taken_one st key count stock covered)
      (level-taken ships stock' key d.1 p.1 (
        short_of_ships-frame stock stock' ships st
          (λ j other. taken_one st j count stock covered ∙ rw other refl) d.0 (ground arith)))

-- A stock that covers ships has at least as many of each type.
pub covered-level :
    (ships stock : Dict ℤ) (key : String)
    → Distinct ships
    → ((j : String) → pos 0 ≤ℤ level stock j)
    → short_of_ships stock ships ≡ false
    → level ships key ≤ℤ level stock key
unfolding short_of_ships
covered-level [] stock key d n h = n key
covered-level ((st, count) ∷ ships) stock key d n h = elim (level-cons st key count ships d.0) [
  | inl (same, here, gone) ↦
      let enough : count ≤ℤ level stock st = ground arith in
      subst (λ x. x ≤ℤ level stock key) (sym here)
        (subst (λ j. count ≤ℤ level stock j) ((eq_iff st key).0 same) enough)
  | inr (other, there) ↦
      subst (λ x. x ≤ℤ level stock key) (sym there)
        (covered-level ships stock key d.1 n (ground arith))
]

module _ {F : Type 0} where
  take_ships-taken :
      (k : ℕ) (ships : Dict ℤ) (w : World F)
      → (take_ships k ships w).ships k ≡ taken ships (w.ships k)
  unfolding take_ships add_ships
  take_ships-taken k [] w = refl
  take_ships-taken k ((st, count) ∷ ships) w =
      take_ships-taken k ships (add_ships k st (pos 0 -ℤ count) w)
      ∙ ap (taken ships) (rw (==_self k) refl)

  board_ships-fleet :
      (k : ℕ) (ships : Dict ℤ) (w : World F)
      → (board_ships k ships w).fleet_ships k ≡ w.fleet_ships k ++ ships
  unfolding board_ships insert_fleet_ship
  board_ships-fleet k [] w = sym (append_empty (w.fleet_ships k))
    where
      append_empty : (m : Dict ℤ) → m ++ [] ≡ m
      append_empty [] = refl
      append_empty (e ∷ m) = ap (λ r. e ∷ r) (append_empty m)
  board_ships-fleet k ((st, count) ∷ ships) w =
      board_ships-fleet k ships (insert_fleet_ship k st count w)
      ∙ rw (==_self k) (append_one (w.fleet_ships k) (st, count) ships)
    where
      append_one : (m : Dict ℤ) (e : String × ℤ) (r : Dict ℤ) → (m ++ (e ∷ [])) ++ r ≡ m ++ (e ∷ r)
      append_one [] e r = refl
      append_one (x ∷ m) e r = ap (λ v. x ∷ v) (append_one m e r)

  -- Taking ships keeps what each single `AddShips` keeps, and boarding what each insertion keeps.
  pub take_ships-keeps :
      {B : Type 0} (g : World F → B)
      → ((j : ℕ) (key : String) (d : ℤ) (w : World F) → g (add_ships j key d w) ≡ g w)
      → (k : ℕ) (ships : Dict ℤ) (w : World F) → g (take_ships k ships w) ≡ g w
  unfolding take_ships
  take_ships-keeps g same k [] w = refl
  take_ships-keeps g same k ((st, count) ∷ ships) w =
      take_ships-keeps g same k ships (add_ships k st (pos 0 -ℤ count) w)
      ∙ same k st (pos 0 -ℤ count) w

  pub board_ships-keeps :
      {B : Type 0} (g : World F → B)
      → ((j : ℕ) (key : String) (n : ℤ) (w : World F) → g (insert_fleet_ship j key n w) ≡ g w)
      → (k : ℕ) (ships : Dict ℤ) (w : World F) → g (board_ships k ships w) ≡ g w
  unfolding board_ships
  board_ships-keeps g same k [] w = refl
  board_ships-keeps g same k ((st, count) ∷ ships) w =
      board_ships-keeps g same k ships (insert_fleet_ship k st count w) ∙ same k st count w

  -- What a planet keeps of each type of ship, when its stock covers those that are taken.
  pub take_ships-level :
      (k : ℕ) (ships : Dict ℤ) (w : World F) (key : String)
      → Distinct ships
      → AllPositive ships
      → short_of_ships (w.ships k) ships ≡ false
      → level ((take_ships k ships w).ships k) key ≡ level (w.ships k) key -ℤ level ships key
  take_ships-level k ships w key d p h =
      ap (λ m. level m key) (take_ships-taken k ships w) ∙ level-taken ships (w.ships k) key d p h

  -- The ships that board a fleet without ships are its ships.
  pub board_ships-boarded :
      (k : ℕ) (ships : Dict ℤ) (w : World F)
      → w.fleet_ships k ≡ []
      → (board_ships k ships w).fleet_ships k ≡ ships
  board_ships-boarded k ships w empty = board_ships-fleet k ships w ∙ ap (λ m. m ++ ships) empty
