-- ===== src/Dict.antt =====
-- Go maps with string keys, as association lists: Go visits a map in no fixed order, so a loop over
-- a map is a loop over the list, and the theorems hold for every order of it.
use Prim.Native.String.{String}
use text.Mathlib.Text.{◌==◌ as str_eq}
use text.Mathlib.TextEquality.{eq_iff}
use mathlib.Core.Path.{subst}
use mathlib.Core.Option.{some-injective}
use terminal_army_go.Base.{
  ◌≡◌, refl, inl, inr, Bool-cases, All, Bool, true, false, Option, none, some, List, [], ◌∷◌, arith,
  if◌then◌else◌,
}
use terminal_army_go.Int.{ℤ, pos}

abbrev pub Dict {ℓ} : Type ℓ → Type ℓ
Dict V = List (String × V)

module _ {ℓ} {V : Type ℓ} where
  -- `v, ok := m[k]`
  abbrev pub lookup : String → Dict V → Option V
  lookup k [] = none
  lookup k ((j, v) ∷ m) = if str_eq j k then some v else lookup k m

  -- `_, ok := m[k]`
  abbrev pub has : String → Dict V → Bool
  has k m = elim (lookup k m) [ none ↦ false | some _ ↦ true ]

  -- `m[k] = v`
  abbrev pub insert : String → V → Dict V → Dict V
  insert k v [] = (k, v) ∷ []
  insert k v ((j, w) ∷ m) = if str_eq j k then (k, v) ∷ m else (j, w) ∷ insert k v m

  -- An entry that is written is found under its own key and hides no other.
  pub lookup-insert :
      (written key : String) (value : V) (entries : Dict V)
      → lookup key (insert written value entries)
        ≡ (if str_eq written key then some value else lookup key entries)
  lookup-insert written key value [] = refl
  lookup-insert written key value ((head, other) ∷ entries) = ground (
    arith,
    lookup-insert written key value entries,
    eq_iff head written,
    eq_iff head key,
    eq_iff written key,
  )

module _ {ℓ κ} {V : Type ℓ} (P : String → V → Type κ) where
  -- What holds of every entry holds of the entry that is found.
  pub lookup-All :
      (k : String) (v : V) (m : Dict V) → All (λ e. P e.0 e.1) m → lookup k m ≡ some v → P k v
  lookup-All k v [] h e = cc
  lookup-All k v ((j, w) ∷ m) h e = elim (Bool-cases (str_eq j k)) [
    | inl hit ↦
        subst (λ i. P i v) ((eq_iff j k).0 hit)
          (subst (λ u. P j u) (some-injective w v (rw hit at e)) h.0)
    | inr miss ↦ lookup-All k v m h.1 (rw miss at e)
  ]

-- `m[k]` of a map to integers: zero where the key is missing.
abbrev pub level : Dict ℤ → String → ℤ
level m k = elim (lookup k m) [ none ↦ pos 0 | some n ↦ n ]

pub level-insert :
    (k j : String) (v : ℤ) (m : Dict ℤ)
    → level (insert k v m) j ≡ (if str_eq k j then v else level m j)
level-insert k j v m = ground (arith, lookup-insert k j v m)
