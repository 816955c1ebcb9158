-- ===== src/Store/Counts.antt =====
-- Stocks of ships under `AddShips` (`internal/store/planet_ships.go`).
use Prim.Native.String.{String}
use text.Mathlib.Text.{◌==◌ as str_eq}
use text.Mathlib.TextEquality.{eq_iff}
use terminal_army_go.Base.{
  ◌≡◌, refl, sym, ap, ◌∙◌, true, false, ◌||◌, [], ◌∷◌, All, ◌⊎◌, Bool-cases, Option-cases, inl, inr,
  arith, if◌then◌else◌,
}
use terminal_army_go.Int.{ℤ, pos, ◌+ℤ◌, ◌≤ℤ◌, ◌<ℤ◌, int_laws, le→ltb_ℤ_false}
use terminal_army_go.Dict.{Dict, lookup, has, insert, level, level-insert, lookup-insert}
use terminal_army_go.Store.Planets.{add_count}

-- No key stands twice.
abbrev pub Distinct : Dict ℤ → Type 0
Distinct [] = Unit
Distinct ((k, _) ∷ m) = (has k m ≡ false) × Distinct m

abbrev pub AllPositive : Dict ℤ → Type 0
AllPositive m = All (λ e. pos 0 <ℤ e.1) m

abbrev pub AllNonNeg : Dict ℤ → Type 0
AllNonNeg m = All (λ e. pos 0 ≤ℤ e.1) m

pub positive→nonneg : (m : Dict ℤ) → AllPositive m → AllNonNeg m
positive→nonneg [] h = tt
positive→nonneg (e ∷ m) h = (omega (arith, h.0), positive→nonneg m h.1)

-- An upsert that does not go below zero adds to that key's count and to no other.
pub level-add_count :
    (k j : String) (d : ℤ) (m : Dict ℤ)
    → pos 0 ≤ℤ level m k +ℤ d
    → level (add_count k d m) j ≡ (if str_eq k j then level m j +ℤ d else level m j)
unfolding add_count
level-add_count k j d m enough = elim (Option-cases (lookup k m)) [
  | inl missing ↦ ground (arith, missing, level-insert k j d m, eq_iff k j, +ℤ-pos_zero d)
  | inr (n, found) ↦
      ground
        (arith, found, level-insert k j (n +ℤ d) m, eq_iff k j, le→ltb_ℤ_false (n +ℤ d) (pos 0))
]
  where
    +ℤ-pos_zero : (x : ℤ) → pos 0 +ℤ x ≡ x
    +ℤ-pos_zero x = omega int_laws

has-insert : (k j : String) (v : ℤ) (m : Dict ℤ) → has j (insert k v m) ≡ (str_eq k j || has j m)
has-insert k j v m = ground (arith, lookup-insert k j v m)

pub insert-Distinct : (k : String) (v : ℤ) (m : Dict ℤ) → Distinct m → Distinct (insert k v m)
insert-Distinct k v [] h = (refl, tt)
insert-Distinct k v ((j, u) ∷ m) h = elim (Bool-cases (str_eq j k)) [
  | inl same ↦ rw same (ap (λ i. has i m) (sym ((eq_iff j k).0 same)) ∙ h.0, h.1)
  | inr other ↦
      rw other
        (ground (arith, h, has-insert k j v m, eq_iff j k, eq_iff k j), insert-Distinct k v m h.1)
]

pub insert-AllPositive :
    (k : String) (v : ℤ) (m : Dict ℤ) → pos 0 <ℤ v → AllPositive m → AllPositive (insert k v m)
insert-AllPositive k v [] p h = (p, tt)
insert-AllPositive k v ((j, u) ∷ m) p h = elim (Bool-cases (str_eq j k)) [
  | inl same ↦ rw same (p, h.1)
  | inr other ↦ rw other (h.0, insert-AllPositive k v m p h.1)
]

-- A key that is missing has no count.
pub level-missing : (k : String) (m : Dict ℤ) → has k m ≡ false → level m k ≡ pos 0
level-missing k m h = elim (Option-cases (lookup k m)) [
  | inl missing ↦ ground (arith, missing)
  | inr (n, found) ↦ absurd (ground (arith, found, h))
]

-- A key that is missing is not the first one, and is missing in the rest.
pub has-cons :
    (j k : String) (v : ℤ) (m : Dict ℤ)
    → has j ((k, v) ∷ m) ≡ false
    → (str_eq j k ≡ false) × (has j m ≡ false)
has-cons j k v m h = elim (Bool-cases (str_eq k j)) [
  | inl same ↦ absurd (ground (arith, same, h))
  | inr other ↦ (ground (arith, other, eq_iff j k, eq_iff k j), ground (arith, other, h))
]

-- The level of a key in a map of distinct keys: it is the first entry's, or it is in the rest.
pub level-cons :
    (st key : String) (count : ℤ) (ships : Dict ℤ)
    → has st ships ≡ false
    → ((str_eq st key ≡ true)
        × (level ((st, count) ∷ ships) key ≡ count)
        × (level ships key ≡ pos 0))
      ⊎ ((str_eq st key ≡ false) × (level ((st, count) ∷ ships) key ≡ level ships key))
level-cons st key count ships absent = elim (Bool-cases (str_eq st key)) [
  | inl same ↦ inl (
    same,
    ground (arith, same),
    ap (level ships) (sym ((eq_iff st key).0 same)) ∙ level-missing st ships absent,
  )
  | inr other ↦ inr (other, ground (arith, other))
]
