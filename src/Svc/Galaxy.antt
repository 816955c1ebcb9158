-- ===== src/Svc/Galaxy.antt =====
-- The view of a solar system (`internal/svc/galaxy.go`). `online` is whether a user is present.
pub mod Index
pub mod Slots
use Prim.Native.String.{String}
use terminal_army_go.Base.{
  ℕ, zero, suc, Bool, false, ◌||◌, List, [], ◌∷◌, Option, none, some, if◌then◌else◌,
}
use terminal_army_go.Int.{ℤ, pos, ◌+ℤ◌, ltb_ℤ, eqb_ℤ}
use terminal_army_go.Store.Tx.{Result, ok, err, not_found, forbidden, bad_coordinates}
use terminal_army_go.Store.Rows.{Planet, World}
use terminal_army_go.Store.Planets.{get_universe}
use terminal_army_go.Store.Colonies.{list_planets_in_system}
use terminal_army_go.Store.Users.{get_user_by_id}
use terminal_army_go.Store.Alliances.{Roster, get_user_alliance}

-- A slot; the score, which the code leaves at zero, is left out.
pub record SystemPlanetView : Type 0 where
  pub position : ℤ
  pub planet_name : String
  pub owner_name : String
  pub alliance_tag : String
  pub online : Bool

pub record SystemView : Type 0 where
  pub galaxy : ℤ
  pub system : ℤ
  pub planets : List SystemPlanetView

-- `systemSlots`
abbrev pub system_slots : ℕ
system_slots = 15

-- `tags[owner]`
unfoldable pub alliance_tag_of : ℕ → Roster → String
alliance_tag_of owner roster = elim (get_user_alliance owner roster) [ none ↦ "" | some a ↦ a.tag ]

module _ {F : Type 0} where
  -- `byPos[pos]`: a later planet replaces an earlier one.
  unfoldable pub by_pos : ℤ → List (Planet F) → Option (Planet F)
  by_pos n [] = none
  by_pos n (p ∷ rows) = elim (by_pos n rows) [
    | some q ↦ some q
    | none ↦ if eqb_ℤ p.position n then some p else none
  ]

  -- `names[owner]`
  unfoldable pub owner_name_of : ℕ → World F → String
  owner_name_of owner w = elim (get_user_by_id owner w) [ none ↦ "" | some u ↦ u.username ]

  -- One slot of the view.
  unfoldable pub slot_view :
      (ℕ → Bool) → World F → Roster → ℤ → Option (Planet F) → SystemPlanetView
  unfolding owner_name_of alliance_tag_of
  slot_view online w roster n none = record {
    position = n;
    planet_name = "";
    owner_name = "";
    alliance_tag = "";
    online = false;
  }
  slot_view online w roster n (some p) = record {
    position = n;
    planet_name = p.name;
    owner_name = owner_name_of p.owner_user_id w;
    alliance_tag = alliance_tag_of p.owner_user_id roster;
    online = online p.owner_user_id;
  }

  -- The loop over the slots, from a position on.
  unfoldable pub slots_from :
      (ℕ → Bool) → World F → Roster → List (Planet F) → ℕ → ℤ → List SystemPlanetView
  unfolding slot_view
  slots_from online w roster planets zero n = []
  slots_from online w roster planets (suc more) n =
      slot_view online w roster n (by_pos n planets)
      ∷ slots_from online w roster planets more (n +ℤ pos 1)

  -- What is seen in a universe.
  unfoldable pub system_of : (ℕ → Bool) → ℕ → ℤ → ℤ → World F → Roster → Result SystemView
  unfolding slots_from
  system_of online universe_id g s w roster = elim (get_universe universe_id w) [
    | none ↦ err not_found
    | some u ↦
        if ltb_ℤ u.galaxies_count g || ltb_ℤ u.systems_count s
        then err bad_coordinates
        else ok (record {
          galaxy = g;
          system = s;
          planets =
              slots_from online w roster (list_planets_in_system universe_id g s w) system_slots
                (pos 1);
        })
  ]

  -- `ViewSystem`
  unfoldable pub view_system : (ℕ → Bool) → ℕ → ℤ → ℤ → World F → Roster → Result SystemView
  unfolding system_of
  view_system online user g s w roster =
      if ltb_ℤ g (pos 1) || ltb_ℤ s (pos 1)
      then err bad_coordinates
      else elim (get_user_by_id user w) [
        | none ↦ err not_found
        | some u ↦ elim u.current_universe_id [
          | none ↦ err forbidden
          | some universe_id ↦ system_of online universe_id g s w roster
        ]
      ]
