-- ===== src/Scheduler/Fleet/Loot.antt =====
-- What an attacker carries away (`resolveAttack` of `internal/scheduler/fleet.go`).
use terminal_army_go.Base.{◌^◌, ◌≡◌, true, arith, Bool-cases, inl, inr}
use terminal_army_go.Int.{ℤ, pos, ◌+ℤ◌, ◌-ℤ◌, ◌≤ℤ◌, ltb_ℤ, int_laws}
use terminal_army_go.Dict.{Dict}
use terminal_army_go.Float.{Float64, HalvingLaws}
use terminal_army_go.Game.Fleet.{fleet_cargo_capacity}
use terminal_army_go.Store.Rows.{Fleet, Planet}
use terminal_army_go.Svc.Resources.Refresh.{Solvent}
use terminal_army_go.Svc.Fleet.{Cargo}
use terminal_army_go.Svc.Fleet.Fare.{whole_cargo}
use terminal_army_go.Svc.Fleet.Requests.{NonNegCargo}
use terminal_army_go.Scheduler.Fleet.Attack.{cap_remaining, distribute, half_of, loot_of, min_int}

min_int-bounds :
    (a b : ℤ)
    → pos 0 ≤ℤ a
    → pos 0 ≤ℤ b
    → (pos 0 ≤ℤ min_int a b) × (min_int a b ≤ℤ a) × (min_int a b ≤ℤ b)
unfolding min_int
min_int-bounds a b p q = ground arith

-- What is loaded is not negative, at most what there is, and together at most what there is room for.
distribute-bounds :
    (take : ℤ) (loot : Cargo)
    → pos 0 ≤ℤ take
    → NonNegCargo loot
    → let c = distribute take loot in
      NonNegCargo c
      × (c.metal ≤ℤ loot.metal)
      × (c.crystal ≤ℤ loot.crystal)
      × (c.deuterium ≤ℤ loot.deuterium)
      × (whole_cargo c ≤ℤ take)
unfolding distribute
distribute-bounds take loot room n =
    let m = min_int loot.metal take in
    let (m0, m1, m2) = min_int-bounds loot.metal take n.0 room in
    let c = min_int loot.crystal (take -ℤ m) in
    let (c0, c1, c2) = min_int-bounds loot.crystal (take -ℤ m) n.1 (omega int_laws) in
    let (d0, d1, d2) = min_int-bounds loot.deuterium (take -ℤ m -ℤ c) n.2 (omega int_laws) in
    ((m0, c0, d0), m1, c1, d1, omega int_laws)

cap_remaining-bounds :
    (survivors : Dict ℤ) (f : Fleet)
    → (pos 0 ≤ℤ cap_remaining survivors f)
      × (f.cargo_metal +ℤ f.cargo_crystal +ℤ f.cargo_deuterium ≤ℤ fleet_cargo_capacity survivors
          → cap_remaining survivors f +ℤ (f.cargo_metal +ℤ f.cargo_crystal +ℤ f.cargo_deuterium)
            ≤ℤ fleet_cargo_capacity survivors)
unfolding cap_remaining
cap_remaining-bounds survivors f =
    let left =
      fleet_cargo_capacity survivors -ℤ (f.cargo_metal +ℤ f.cargo_crystal +ℤ f.cargo_deuterium) in
    elim (Bool-cases (ltb_ℤ left (pos 0))) [
      | inl over ↦ rw over (omega arith, λ fits. omega int_laws)
      | inr under ↦ rw under (ground arith, λ fits. omega int_laws)
    ]

module _ (fl : Float64) (halving : HalvingLaws fl) where
  open fl use {F, lt, of_int, trunc}
  open halving use {half_trunc}

  -- The pools of a planet are below 2^63.
  abbrev pub InRange : Planet F → Type 0
  InRange p =
      (lt p.metal (of_int (pos (2 ^ 63))) ≡ true)
      × (lt p.crystal (of_int (pos (2 ^ 63))) ≡ true)
      × (lt p.deuterium (of_int (pos (2 ^ 63))) ≡ true)

  halves :
      (p : Planet F)
      → Solvent fl p
      → InRange p
      → let h = half_of fl p in
        NonNegCargo h
        × (h.metal +ℤ h.metal ≤ℤ trunc p.metal)
        × (h.crystal +ℤ h.crystal ≤ℤ trunc p.crystal)
        × (h.deuterium +ℤ h.deuterium ≤ℤ trunc p.deuterium)
  unfolding half_of
  halves p (sm, sc, sd) (rm, rc, rd) =
      let (m0, m1) = half_trunc p.metal sm rm in
      let (c0, c1) = half_trunc p.crystal sc rc in
      let (d0, d1) = half_trunc p.deuterium sd rd in ((m0, c0, d0), m1, c1, d1)

  -- With the law of halving, where the pools of the planet are not negative and below 2^63: what an
  -- attacker loots is of no resource negative, and twice it is at most the integer part of the planet's
  -- pool; and survivors that had room for the cargo they came with have room for the loot too.
  pub loot_of-Fits :
      (f : Fleet) (p : Planet F) (survivors : Dict ℤ)
      → Solvent fl p
      → InRange p
      → let loot = loot_of fl f p survivors in
        let before = f.cargo_metal +ℤ f.cargo_crystal +ℤ f.cargo_deuterium in
        NonNegCargo loot
        × (loot.metal +ℤ loot.metal ≤ℤ trunc p.metal)
        × (loot.crystal +ℤ loot.crystal ≤ℤ trunc p.crystal)
        × (loot.deuterium +ℤ loot.deuterium ≤ℤ trunc p.deuterium)
        × (before ≤ℤ fleet_cargo_capacity survivors
            → whole_cargo loot +ℤ before ≤ℤ fleet_cargo_capacity survivors)
  unfolding loot_of
  loot_of-Fits f p survivors solvent small =
      let (room, fits) = cap_remaining-bounds survivors f in
      let (h0, hm, hc, hd) = halves p solvent small in
      let (n, m, c, d, sum) =
        distribute-bounds (cap_remaining survivors f) (half_of fl p) room h0 in
      (
        n,
        omega int_laws,
        omega int_laws,
        omega int_laws,
        λ before. let all = fits before in omega int_laws,
      )
