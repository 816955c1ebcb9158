-- ===== src/Game/Fleet/Cargo.antt =====
-- What a fleet can carry (`FleetCargoCapacity` of `internal/game/fleet.go`): the loop over the fleet against
-- the table of the ships.
use Prim.Native.String.{String}
use text.Mathlib.Text.{◌==◌ as str_eq}
use text.Mathlib.TextEquality.{eq_iff}
use terminal_army_go.Base.{
  ◌≡◌, refl, sym, ap, ◌∙◌, Bool, Bool-cases, Option, Option-cases, none, some, true, false, inl,
  inr, [], ◌∷◌, arith, if◌then◌else◌,
}
use terminal_army_go.Int.{ℤ, pos, negsuc, ◌+ℤ◌, ◌*ℤ◌, ltb_ℤ, int_laws}
use terminal_army_go.Dict.{Dict, has, level, lookup}
use terminal_army_go.Sum.{sum_of}
use terminal_army_go.Game.Ships.{ShipStat, ShipType, ship_stats}
use terminal_army_go.Game.Fleet.{hull_capacity, fleet_cargo_from, fleet_cargo_capacity}

-- No key stands twice, as in a Go map.
abbrev pub Keyed : {V : Type 0} → Dict V → Type 0
Keyed [] = Unit
Keyed ((k, _) ∷ m) = (has k m ≡ false) × Keyed m

-- The number of ships, where a number below zero counts as none.
abbrev pub at_least_none : ℤ → ℤ
at_least_none n = if ltb_ℤ (pos 0) n then n else pos 0

-- What the ships of one type carry.
abbrev pub carried : Dict ℤ → String × ShipStat → ℤ
carried ships (st, stat) = stat.cargo *ℤ at_least_none (level ships st)

abbrev count_of : Option ℤ → ℤ
count_of o = elim o [ none ↦ pos 0 | some n ↦ n ]

abbrev amount_of : ℤ → Option ShipStat → ℤ
amount_of n o = elim o [ none ↦ pos 0 | some stat ↦ stat.cargo *ℤ at_least_none n ]

abbrev added : String → ℤ → Dict ShipStat → ℤ
added st n table = amount_of n (lookup st table)

times_zero : (a : ℤ) → a *ℤ pos 0 ≡ pos 0
unfolding ◌*ℤ◌
times_zero (pos a) = ground arith
times_zero (negsuc a) = ground arith

hull_capacity-eq-added : (st : ShipType) (n : ℤ) → hull_capacity st n ≡ added st n ship_stats
unfolding hull_capacity
hull_capacity-eq-added st n = elim (Option-cases (lookup st ship_stats)) [
  | inl unknown ↦ rw unknown (ground arith)
  | inr (stat, known) ↦ rw known (ground (arith, times_zero stat.cargo))
]

lookup_of_has : {V : Type 0} (k : String) (m : Dict V) → has k m ≡ false → lookup k m ≡ none
lookup_of_has k m h = elim (Option-cases (lookup k m)) [
  | inl missing ↦ missing
  | inr (v, found) ↦
      let clash : true ≡ false =
        sym (ap (λ o. elim o as (λ _. Bool) [ none ↦ false | some _ ↦ true ]) found) ∙ h in
      cc
]

-- A new entry of a fleet or of the table, at its own key and at another one.
module _ (st key : String) (n : ℤ) (ships : Dict ℤ) (stat : ShipStat) (table : Dict ShipStat) where
  carried-own :
      str_eq st key ≡ true → carried ((st, n) ∷ ships) (key, stat) ≡ stat.cargo *ℤ at_least_none n
  carried-own same =
      ap (λ b. stat.cargo *ℤ at_least_none (count_of (if b then some n else lookup key ships))) same

  carried-other :
      str_eq st key ≡ false → carried ((st, n) ∷ ships) (key, stat) ≡ carried ships (key, stat)
  carried-other apart =
      ap (λ b. stat.cargo *ℤ at_least_none (count_of (if b then some n else lookup key ships)))
        apart

  carried-none : lookup key ships ≡ none → carried ships (key, stat) ≡ pos 0
  carried-none missing =
      ap (λ o. stat.cargo *ℤ at_least_none (count_of o)) missing ∙ times_zero stat.cargo

  added-own :
      str_eq key st ≡ true → added st n ((key, stat) ∷ table) ≡ stat.cargo *ℤ at_least_none n
  added-own same = ap (λ b. amount_of n (if b then some stat else lookup st table)) same

  added-other : str_eq key st ≡ false → added st n ((key, stat) ∷ table) ≡ added st n table
  added-other apart = ap (λ b. amount_of n (if b then some stat else lookup st table)) apart

moved_here :
    {x y s d e : ℤ} (v t : ℤ)
    → x ≡ v
    → y ≡ pos 0
    → s ≡ t +ℤ d
    → d ≡ pos 0
    → e ≡ v
    → x +ℤ s ≡ y +ℤ t +ℤ e
moved_here v t hx hy hs hd he = rw (hx, hy, hs, hd, he) (omega int_laws)

moved_on : {x y s d e : ℤ} (t : ℤ) → x ≡ y → s ≡ t +ℤ d → e ≡ d → x +ℤ s ≡ y +ℤ t +ℤ e
moved_on t hx hs he = rw (hx, hs, he) (omega int_laws)

-- One more entry of the fleet, over any part of the table.
carried-cons :
    (st : String) (n : ℤ) (ships : Dict ℤ) (table : Dict ShipStat)
    → lookup st ships ≡ none
    → Keyed table
    → sum_of (carried ((st, n) ∷ ships)) table ≡ sum_of (carried ships) table +ℤ added st n table
carried-cons st n ships [] free keyed = omega int_laws
carried-cons st n ships ((key, stat) ∷ table) free keyed =
    let rest = carried-cons st n ships table free keyed.1 in
    elim (Bool-cases (str_eq key st)) [
      | inl same ↦
          let at_key : key ≡ st = (eq_iff key st).0 same in
          moved_here (stat.cargo *ℤ at_least_none n) (sum_of (carried ships) table)
            (carried-own st key n ships stat table ((eq_iff st key).1 (sym at_key)))
            (carried-none st key n ships stat table (ap (λ k. lookup k ships) at_key ∙ free)) rest
            (ap (amount_of n)
              (lookup_of_has st table (ap (λ k. has k table) (sym at_key) ∙ keyed.0)))
            (added-own st key n ships stat table same)
      | inr other ↦
          let apart : str_eq st key ≡ false = ground (arith, other, eq_iff key st, eq_iff st key) in
          moved_on (sum_of (carried ships) table) (carried-other st key n ships stat table apart)
            rest (added-other st key n ships stat table other)
    ]

carried_nothing : (table : Dict ShipStat) → sum_of (carried []) table ≡ pos 0
carried_nothing [] = refl
carried_nothing ((key, stat) ∷ table) =
    rw (times_zero stat.cargo, carried_nothing table) (omega int_laws)

ship_stats-Keyed : Keyed ship_stats
unfolding ship_stats
ship_stats-Keyed = (
  refl,
  (refl, (refl, (refl, (refl, (refl, (refl, (refl, (refl, (refl, (refl, (refl, tt))))))))))),
)

fleet_cargo_from-eq-carried :
    (total : ℤ) (ships : Dict ℤ)
    → Keyed ships
    → fleet_cargo_from total ships ≡ total +ℤ sum_of (carried ships) ship_stats
unfolding fleet_cargo_from
fleet_cargo_from-eq-carried total [] keyed = rw (carried_nothing ship_stats) (omega int_laws)
fleet_cargo_from-eq-carried total ((st, n) ∷ ships) keyed =
    let more =
      carried-cons st n ships ship_stats (lookup_of_has st ships keyed.0) ship_stats-Keyed in
    rw
      (
        fleet_cargo_from-eq-carried (total +ℤ hull_capacity st n) ships keyed.1,
        hull_capacity-eq-added st n,
        more,
      )
      (omega int_laws)

-- A fleet in which no type stands twice can carry, over all types of the table of ships, the cargo of one
-- ship times their number in the fleet, where a number below zero counts as none.
pub fleet_cargo_capacity-eq-sum :
    (ships : Dict ℤ) → Keyed ships → fleet_cargo_capacity ships ≡ sum_of (carried ships) ship_stats
unfolding fleet_cargo_capacity
fleet_cargo_capacity-eq-sum ships keyed =
    fleet_cargo_from-eq-carried (pos 0) ships keyed ∙ omega int_laws
