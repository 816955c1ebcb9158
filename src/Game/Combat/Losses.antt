-- ===== src/Game/Combat/Losses.antt =====
-- What the damage of a combat does to one side (`applyDamage` in `internal/game/fleet.go`).
use Prim.Native.String.{String}
use text.Mathlib.Text.{◌==◌ as str_eq}
use text.Mathlib.TextEquality.{eq_iff}
use text.Mathlib.TextPositions.{eq_refl}
use terminal_army_go.Base.{
  ◌≡◌, refl, ◌∙◌, false, List, [], ◌∷◌, All, arith, inl, inr, Bool-cases, if◌then◌else◌,
}
use terminal_army_go.Int.{ℤ, pos, ◌+ℤ◌, ◌-ℤ◌, ◌≤ℤ◌, leb_ℤ, int_laws}
use terminal_army_go.Dict.{Dict, level, insert, level-insert}
use terminal_army_go.Float.{Float64}
use terminal_army_go.Game.Combat.{CombatUnit, named_in, killed_in, damage_from, apply_damage}

-- The names of a pool are pairwise different, as those of the keys of a map are.
abbrev pub Distinct : List CombatUnit → Type 0
Distinct [] = Unit {0}
Distinct (u ∷ units) = (named_in u.name units ≡ false) × Distinct units

-- `after` is `before` with the losses taken off: unit by unit, none of the counts is negative, and
-- what is left and what is lost make up what there was.
abbrev pub Accounted : Dict ℤ → List CombatUnit → List CombatUnit → Type 0
Accounted losses [] [] = Unit {0}
Accounted losses (u ∷ us) (v ∷ vs) =
    (v.name ≡ u.name)
    × (pos 0 ≤ℤ v.count)
    × (v.count +ℤ level losses u.name ≡ u.count)
    × Accounted losses us vs
Accounted losses _ _ = ⊥

module _ (fl : Float64) (damage hp : ℤ) where
  killed_in-le : (u : CombatUnit) → killed_in fl damage hp u ≤ℤ u.count
  unfolding killed_in
  killed_in-le u = ground arith

  -- The loss map after one unit.
  abbrev noted : Dict ℤ → CombatUnit → Dict ℤ
  noted d u = if leb_ℤ u.count (pos 0) then d else insert u.name (killed_in fl damage hp u) d

  noted-level_other :
      (n : String) (d : Dict ℤ) (u : CombatUnit)
      → str_eq u.name n ≡ false
      → level (noted d u) n ≡ level d n
  noted-level_other n d u h = elim (Bool-cases (leb_ℤ u.count (pos 0))) [
    | inl skip ↦ rw skip
    | inr hit ↦ rw (hit, level-insert u.name n (killed_in fl damage hp u) d, h)
  ]

  noted-level_self :
      (d : Dict ℤ) (u : CombatUnit)
      → leb_ℤ u.count (pos 0) ≡ false
      → level (noted d u) u.name ≡ killed_in fl damage hp u
  noted-level_self d u hit =
      rw (hit, level-insert u.name u.name (killed_in fl damage hp u) d, eq_refl u.name)

  noted-fresh :
      (d : Dict ℤ) (u : CombatUnit) (units : List CombatUnit)
      → named_in u.name units ≡ false
      → All (λ v. level d v.name ≡ pos 0) units
      → All (λ v. level (noted d u) v.name ≡ pos 0) units
  unfolding named_in
  noted-fresh d u [] h z = tt
  noted-fresh d u (v ∷ units) h z = (
    noted-level_other v.name d u (ground (arith, eq_iff u.name v.name, eq_iff v.name u.name)) ∙ z.0,
    noted-fresh d u units (ground arith) z.1,
  )

  -- A name that no unit has keeps its entry.
  damage_from-level :
      (n : String) (d : Dict ℤ) (units : List CombatUnit)
      → named_in n units ≡ false
      → level (damage_from fl damage hp d units).1 n ≡ level d n
  unfolding damage_from named_in
  damage_from-level n d [] h = refl
  damage_from-level n d (u ∷ units) h =
      damage_from-level n (noted d u) units (ground arith) ∙ noted-level_other n d u (ground arith)

  -- The unit after its losses.
  abbrev damaged : CombatUnit → CombatUnit
  damaged u =
      if leb_ℤ u.count (pos 0) then u else record u { count = u.count -ℤ killed_in fl damage hp u }

  damaged-name : (u : CombatUnit) → (damaged u).name ≡ u.name
  damaged-name u = ground arith

  damaged-count_nonneg : (u : CombatUnit) → pos 0 ≤ℤ u.count → pos 0 ≤ℤ (damaged u).count
  damaged-count_nonneg u h = elim (Bool-cases (leb_ℤ u.count (pos 0))) [
    | inl skip ↦ rw skip h
    | inr hit ↦ rw hit (omega (int_laws, killed_in-le u))
  ]

  damaged-count :
      (d : Dict ℤ) (u : CombatUnit)
      → level d u.name ≡ pos 0
      → (damaged u).count +ℤ level (noted d u) u.name ≡ u.count
  damaged-count d u z = elim (Bool-cases (leb_ℤ u.count (pos 0))) [
    | inl skip ↦ rw (skip, z) (omega int_laws)
    | inr hit ↦ rw (noted-level_self d u hit, hit) (omega int_laws)
  ]

  damage_from-Accounted :
      (d : Dict ℤ) (units : List CombatUnit)
      → Distinct units
      → All (λ u. pos 0 ≤ℤ u.count) units
      → All (λ u. level d u.name ≡ pos 0) units
      → let r = damage_from fl damage hp d units in Accounted r.1 units r.0
  unfolding damage_from
  damage_from-Accounted d [] h c z = tt
  damage_from-Accounted d (u ∷ units) h c z = (
    damaged-name u,
    damaged-count_nonneg u c.0,
    rw (damage_from-level u.name (noted d u) units h.0) (damaged-count d u z.0),
    damage_from-Accounted (noted d u) units h.1 c.1 (noted-fresh d u units h.0 z.1),
  )

no_losses : (units : List CombatUnit) → All (λ u. level [] u.name ≡ pos 0) units
no_losses [] = tt
no_losses (u ∷ units) = (refl, no_losses units)

unharmed : (units : List CombatUnit) → All (λ u. pos 0 ≤ℤ u.count) units → Accounted [] units units
unharmed [] c = tt
unharmed (u ∷ units) c = (refl, c.0, omega int_laws, unharmed units c.1)

-- For a pool with one unit to a name, damage of any size leaves no negative count, and the reported
-- losses are exactly the difference of the counts before and after.
pub apply_damage-Accounted :
    (fl : Float64) (units : List CombatUnit) (damage hp : ℤ)
    → Distinct units
    → All (λ u. pos 0 ≤ℤ u.count) units
    → let r = apply_damage fl units damage hp in Accounted r.1 units r.0
unfolding apply_damage
apply_damage-Accounted fl units damage hp h c = elim (Bool-cases (leb_ℤ hp (pos 0))) [
  | inl no_pool ↦ rw no_pool (unharmed units c)
  | inr pool ↦ rw pool (damage_from-Accounted fl damage hp [] units h c (no_losses units))
]
