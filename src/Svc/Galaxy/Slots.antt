-- ===== src/Svc/Galaxy/Slots.antt =====
-- The slots of a system's view (`internal/svc/galaxy.go`).
use mathlib.Core.Path.{subst}
use terminal_army_go.Base.{
  ℕ, zero, suc, ◌≡◌, refl, ap, ◌∙◌, Bool, true, false, ◌||◌, List, [], ◌∷◌, map, Option, none, some,
  if◌then◌else◌,
}
use terminal_army_go.Int.{ℤ, pos, ◌+ℤ◌, ltb_ℤ}
use terminal_army_go.Store.Tx.{Result, Error, ok, err, not_found, forbidden, bad_coordinates}
use terminal_army_go.Store.Rows.{Planet, User, World}
use terminal_army_go.Store.Planets.{get_planet_by_coord, get_universe}
use terminal_army_go.Store.Colonies.{list_planets_in_system}
use terminal_army_go.Store.Users.{get_user_by_id}
use terminal_army_go.Store.Alliances.{Roster}
use terminal_army_go.Svc.Galaxy.Index.{OwnSlots, by_pos-list_planets_in_system}
use terminal_army_go.Svc.Galaxy.{
  owner_name_of, alliance_tag_of, SystemPlanetView, SystemView, slot_view, slots_from, system_of,
  system_slots, view_system, by_pos,
}

-- The positions of a system.
abbrev pub all_positions : List ℤ
all_positions =
    pos 1
    ∷ pos 2
    ∷ pos 3
    ∷ pos 4
    ∷ pos 5
    ∷ pos 6
    ∷ pos 7
    ∷ pos 8
    ∷ pos 9
    ∷ pos 10
    ∷ pos 11
    ∷ pos 12
    ∷ pos 13
    ∷ pos 14
    ∷ pos 15
    ∷ []

-- The positions from one on.
abbrev count_from : ℕ → ℤ → List ℤ
count_from zero n = []
count_from (suc more) n = n ∷ count_from more (n +ℤ pos 1)

module _ {F : Type 0} where
  -- What a slot shows of the planet that the table has there.
  abbrev pub shown : (ℕ → Bool) → World F → Roster → ℤ → Option (Planet F) → SystemPlanetView
  shown online w roster n o = record {
    position = n;
    planet_name = elim o [ none ↦ "" | some p ↦ p.name ];
    owner_name = elim o [ none ↦ "" | some p ↦ owner_name_of p.owner_user_id w ];
    alliance_tag = elim o [ none ↦ "" | some p ↦ alliance_tag_of p.owner_user_id roster ];
    online = elim o [ none ↦ false | some p ↦ online p.owner_user_id ];
  }

  -- What a user sees of a system of the universe that the user is in.
  abbrev pub Seen : (ℕ → Bool) → ℕ → ℤ → ℤ → World F → Roster → SystemView → Type 0
  Seen online user g s w roster v =
      (u : User) × (k : ℕ) × (get_user_by_id user w ≡ some u)
      × (u.current_universe_id ≡ some k)
      × (v.galaxy ≡ g)
      × (v.system ≡ s)
      × (v.planets
          ≡ map (λ n. shown online w roster n (get_planet_by_coord k g s n w)) all_positions)

  slot_view-shown :
      (online : ℕ → Bool) (w : World F) (roster : Roster) (n : ℤ) (o : Option (Planet F))
      → slot_view online w roster n o ≡ shown online w roster n o
  unfolding slot_view
  slot_view-shown online w roster n none = refl
  slot_view-shown online w roster n (some p) = refl

  slots_from-shown :
      (online : ℕ → Bool) (w : World F) (roster : Roster) (k : ℕ) (g s : ℤ) (more : ℕ) (n : ℤ)
      → OwnSlots w.planets
      → slots_from online w roster (list_planets_in_system k g s w) more n
        ≡ map (λ n. shown online w roster n (get_planet_by_coord k g s n w)) (count_from more n)
  unfolding slots_from
  slots_from-shown online w roster k g s zero n own = refl
  slots_from-shown online w roster k g s (suc more) n own =
      let planets = list_planets_in_system k g s w in
      ap (λ x. x ∷ slots_from online w roster planets more (n +ℤ pos 1))
        (slot_view-shown online w roster n (by_pos n planets)
          ∙ ap (shown online w roster n) (by_pos-list_planets_in_system k g s n w own))
      ∙ ap (λ rest. shown online w roster n (get_planet_by_coord k g s n w) ∷ rest)
          (slots_from-shown online w roster k g s more (n +ℤ pos 1) own)

  slots_from-all :
      (online : ℕ → Bool) (w : World F) (roster : Roster) (k : ℕ) (g s : ℤ)
      → OwnSlots w.planets
      → slots_from online w roster (list_planets_in_system k g s w) system_slots (pos 1)
        ≡ map (λ n. shown online w roster n (get_planet_by_coord k g s n w)) all_positions
  unfolding ◌+ℤ◌
  slots_from-all online w roster k g s own =
      slots_from-shown online w roster k g s system_slots (pos 1) own

-- An answer that, when there is one, satisfies a predicate.
abbrev Answers : (SystemView → Type 0) → Result SystemView → Type 0
Answers P (ok v) = P v
Answers P (err e) = Unit

on_row :
    {A : Type 0} (P : SystemView → Type 0) (o : Option A) (e : Error) (s : A → Result SystemView)
    → ((a : A) → o ≡ some a → Answers P (s a))
    → Answers P (elim o [ none ↦ err e | some a ↦ s a ])
on_row P none e s h = tt
on_row P (some a) e s h = h a refl

on_test :
    (P : SystemView → Type 0) (b : Bool) (e : Error) (r : Result SystemView)
    → Answers P r
    → Answers P (if b then err e else r)
on_test P true e r h = tt
on_test P false e r h = h

module _ {F : Type 0} where
  -- Where no two planets have one coordinate: whoever sees a system sees it in the universe that the user
  -- is in. Its fifteen slots are shown in order, each with the name, the owner, the owner's alliance and
  -- presence of the planet that the table has at that coordinate, and empty where it has none.
  pub view_system-Seen :
      (online : ℕ → Bool) (user : ℕ) (g s : ℤ) (w : World F) (roster : Roster) (v : SystemView)
      → OwnSlots w.planets
      → view_system online user g s w roster ≡ ok v
      → Seen online user g s w roster v
  unfolding view_system system_of
  view_system-Seen online user g s w roster v own h =
      let P = Seen online user g s w roster in
      subst (Answers P) h (
        on_test P (ltb_ℤ g (pos 1) || ltb_ℤ s (pos 1)) bad_coordinates _ (
          on_row P (get_user_by_id user w) not_found _ (λ u known.
            on_row P u.current_universe_id forbidden _ (λ k current.
              on_row P (get_universe k w) not_found _ (λ x there.
                on_test P (ltb_ℤ x.galaxies_count g || ltb_ℤ x.systems_count s) bad_coordinates _
                  (u, k, known, current, refl, refl, slots_from-all online w roster k g s own))))))
