-- ===== src/Store/Fleets/Lookup.antt =====
-- Reading a fleet's row back after the updates of `internal/store/fleets.go`.
use terminal_army_go.Base.{
  ℕ, ◌==◌, ◌≡◌, refl, not, List, [], ◌∷◌, none, some, select, arith, if◌then◌else◌,
}
use terminal_army_go.Store.Rows.{Fleet, World}
use terminal_army_go.Store.Fleets.{find_fleet, get_fleet, update_fleets, with_fleets, delete_fleet}

find_fleet-update :
    (j k : ℕ) (g : Fleet → Fleet) (rows : List Fleet)
    → ((f : Fleet) → (g f).id ≡ f.id)
    → find_fleet j (update_fleets k g rows) ≡ (
        if j == k
        then elim (find_fleet j rows) [ none ↦ none | some f ↦ some (g f) ]
        else find_fleet j rows)
find_fleet-update j k g [] same = ground arith
find_fleet-update j k g (f ∷ rows) same = ground (arith, same f, find_fleet-update j k g rows same)

find_fleet-id : (k : ℕ) (rows : List Fleet) {f : Fleet} → find_fleet k rows ≡ some f → f.id ≡ k
find_fleet-id k [] h = cc
find_fleet-id k (g ∷ rows) {f} h = ground (arith, find_fleet-id k rows {f = f})

pub find_fleet-updated :
    (k : ℕ) (g : Fleet → Fleet) (rows : List Fleet) (f : Fleet)
    → ((x : Fleet) → (g x).id ≡ x.id)
    → find_fleet k rows ≡ some f
    → find_fleet k (update_fleets k g rows) ≡ some (g f)
find_fleet-updated k g [] f same h = cc
find_fleet-updated k g (x ∷ rows) f same h =
    ground (arith, same x, find_fleet-updated k g rows f same)

find_fleet-delete :
    (k : ℕ) (rows : List Fleet) → find_fleet k (select (λ f. not (f.id == k)) rows) ≡ none
find_fleet-delete k [] = ground arith
find_fleet-delete k (f ∷ rows) = ground (arith, find_fleet-delete k rows)

find_fleet-update_other :
    (j k : ℕ) (g : Fleet → Fleet) (rows : List Fleet)
    → ((f : Fleet) → (g f).id ≡ f.id)
    → ¬ (j ≡ k)
    → find_fleet j (update_fleets k g rows) ≡ find_fleet j rows
find_fleet-update_other j k g [] same other = refl
find_fleet-update_other j k g (f ∷ rows) same other =
    ground (arith, same f, other, find_fleet-update_other j k g rows same other)

find_fleet-delete_other :
    (j k : ℕ) (rows : List Fleet)
    → ¬ (j ≡ k)
    → find_fleet j (select (λ f. not (f.id == k)) rows) ≡ find_fleet j rows
find_fleet-delete_other j k [] other = refl
find_fleet-delete_other j k (f ∷ rows) other =
    ground (arith, other, find_fleet-delete_other j k rows other)

module _ {F : Type 0} where
  -- What is done to another fleet's row.
  pub get_fleet-update_other :
      (j k : ℕ) (g : Fleet → Fleet) (w : World F)
      → ((x : Fleet) → (g x).id ≡ x.id)
      → ¬ (j ≡ k)
      → get_fleet j (with_fleets (update_fleets k g w.fleets) w) ≡ get_fleet j w
  unfolding get_fleet
  get_fleet-update_other j k g w same other = find_fleet-update_other j k g w.fleets same other

  pub get_fleet-delete_other :
      (j k : ℕ) (w : World F) → ¬ (j ≡ k) → get_fleet j (delete_fleet k w) ≡ get_fleet j w
  unfolding get_fleet delete_fleet
  get_fleet-delete_other j k w other = find_fleet-delete_other j k w.fleets other

  -- A row that is found by an id has that id.
  pub get_fleet-id : (k : ℕ) (w : World F) {f : Fleet} → get_fleet k w ≡ some f → f.id ≡ k
  unfolding get_fleet
  get_fleet-id k w h = find_fleet-id k w.fleets h

  -- An update of a row is seen by the next read of it.
  pub get_fleet-updated :
      (k : ℕ) (g : Fleet → Fleet) (w : World F) (f : Fleet)
      → ((x : Fleet) → (g x).id ≡ x.id)
      → get_fleet k w ≡ some f
      → get_fleet k (with_fleets (update_fleets k g w.fleets) w) ≡ some (g f)
  unfolding get_fleet
  get_fleet-updated k g w f same h = find_fleet-updated k g w.fleets f same h

  -- A deleted fleet is not found.
  pub get_fleet-delete_fleet : (k : ℕ) (w : World F) → get_fleet k (delete_fleet k w) ≡ none
  unfolding get_fleet delete_fleet
  get_fleet-delete_fleet k w = find_fleet-delete k w.fleets
