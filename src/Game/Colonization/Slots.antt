-- ===== src/Game/Colonization/Slots.antt =====
-- What the colonisation rules guarantee (`internal/game/colonization.go`).
use terminal_army_go.Base.{
  ℕ, ◌+◌, ◌*◌, ◌≤◌, ◌≡◌, ◌↔◌, inl, refl, Bool, if◌then◌else◌, true, false, Option, none, some, ◌⊎◌,
  ◌&&◌, ◌||◌, arith, ltb, holds_below, holds_below→true,
}
use terminal_army_go.Int.{
  ℤ, pos, negsuc, ◌≤ℤ◌, ◌<ℤ◌, ◌+ℤ◌, ◌-ℤ◌, ◌/ℤ◌, eqb_ℤ, leb_ℤ, eq_of_parts, int_laws,
}
use terminal_army_go.Float.{Float64}
use terminal_army_go.Game.Colonization.{
  TempRange, FieldRange, at_position, temps, fields, temperature_ranges_by_position,
  fields_ranges_by_position, max_planets, colonizable_position_range, can_colonize_position,
  colonize_rejection, Rejection, planet_limit, outside_band, PlanetAttributes,
  generate_planet_attributes,
}

-- Level 2k of Astrophysics allows k + 1 planets and level 2k + 1 allows k + 2, as in 1 + ceil(level / 2).
pub max_planets_lem :
    (k : ℕ)
    → (max_planets (pos (2 * k)) ≡ pos (k + 1)) × (max_planets (pos (2 * k + 1)) ≡ pos (k + 2))
unfolding max_planets ◌+ℤ◌ ◌/ℤ◌
max_planets_lem k = (ground arith, ground arith)

-- More Astrophysics never closes a slot.
pub can_colonize_position_mono :
    (a b p : ℤ) → a ≤ℤ b → can_colonize_position a p ≡ true → can_colonize_position b p ≡ true
unfolding can_colonize_position
can_colonize_position_mono a b p h c = ground arith

-- The slots that a level of Astrophysics opens: 4 to 12, and one more at each end from the levels 4, 6
-- and 8 on.
abbrev pub OpenSlot : ℤ → ℤ → Type 0
OpenSlot astro p =
    ((pos 4 ≤ℤ p) × (p ≤ℤ pos 12))
    ⊎ (((pos 4 ≤ℤ astro) × (pos 3 ≤ℤ p) × (p ≤ℤ pos 13))
        ⊎ (((pos 6 ≤ℤ astro) × (pos 2 ≤ℤ p) × (p ≤ℤ pos 14))
            ⊎ ((pos 8 ≤ℤ astro) × (pos 1 ≤ℤ p) × (p ≤ℤ pos 15))))

-- An owner of one planet may have another one from level 1 on, and one more for every two levels.
abbrev pub HasRoom : ℤ → ℤ → Type 0
HasRoom astro count = (count +ℤ count ≤ℤ pos 1) ⊎ (count +ℤ count ≤ℤ astro +ℤ pos 1)

room_of_limit : (astro count : ℤ) → (leb_ℤ (max_planets astro) count ≡ false) ↔ HasRoom astro count
unfolding max_planets ◌+ℤ◌ ◌/ℤ◌
room_of_limit (pos a) (pos c) = (λ h. ground arith, λ h. ground arith)
room_of_limit (pos a) (negsuc c) = (λ h. inl (ground arith), λ h. ground arith)
room_of_limit (negsuc a) (pos c) = (λ h. ground arith, λ h. ground arith)
room_of_limit (negsuc a) (negsuc c) = (λ h. inl (ground arith), λ h. ground arith)

open_of_band : (astro p : ℤ) → (can_colonize_position astro p ≡ true) ↔ OpenSlot astro p
unfolding can_colonize_position
open_of_band astro p = (λ h. ground arith, λ h. ground arith)

verdict_iff :
    (allowed full : Bool) (limit band : Rejection)
    → ((if allowed then (if full then some limit else none) else some band) ≡ none)
      ↔ ((allowed ≡ true) × (full ≡ false))
verdict_iff true true limit band = (λ h. cc, λ h. cc)
verdict_iff true false limit band = (λ h. (refl, refl), λ h. refl)
verdict_iff false full limit band = (λ h. cc, λ h. cc)

-- A colonisation is not rejected exactly when Astrophysics opens the slot and the owner has room for one
-- more planet.
pub colonize_rejection_iff :
    (astro count p : ℤ)
    → (colonize_rejection astro count p ≡ none) ↔ (OpenSlot astro p × HasRoom astro count)
unfolding colonize_rejection
colonize_rejection_iff astro count p =
    let full = leb_ℤ (max_planets astro) count in
    let (given, back) =
      verdict_iff (can_colonize_position astro p) full (planet_limit count (max_planets astro)) (
        outside_band astro (colonizable_position_range astro).0
          (colonizable_position_range astro).1) in
    (
      λ h.
          let (allowed, below) = given h in
          ((open_of_band astro p).0 allowed, (room_of_limit astro count).0 below),
      λ h. back ((open_of_band astro p).1 h.0, (room_of_limit astro count).1 h.1),
    )

abbrev temp_range : ℤ → TempRange
temp_range p = at_position p (temps (pos 0) (pos 0)) temperature_ranges_by_position

abbrev field_range : ℤ → FieldRange
field_range p = at_position p (fields 0 0) fields_ranges_by_position

-- The facts about the tables at one slot, as a test.
slot_test : ℕ → Bool
slot_test n =
    ltb n 1
    || (eqb_ℤ (temp_range (pos n)).high ((temp_range (pos n)).low +ℤ pos 40)
        && leb_ℤ (field_range (pos n)).low (field_range (pos n)).high)

slot_table : holds_below slot_test 16 ≡ true
unfolding holds_below slot_test ◌+ℤ◌ temperature_ranges_by_position fields_ranges_by_position
slot_table = refl

-- Every slot's window is 41 degrees wide and its field roll is not empty, so that `Intn` is never
-- called with an argument below one.
ranges_not_empty :
    (n : ℕ)
    → 1 ≤ n
    → n ≤ 15
    → ((temp_range (pos n)).high ≡ (temp_range (pos n)).low +ℤ pos 40)
      × ((field_range (pos n)).low ≤ℤ (field_range (pos n)).high)
unfolding slot_test
ranges_not_empty n h k = table_row n h (holds_below→true slot_test 16 n (omega arith) slot_table)
  where
    table_row :
        (n : ℕ)
        → 1 ≤ n
        → slot_test n ≡ true
        → ((temp_range (pos n)).high ≡ (temp_range (pos n)).low +ℤ pos 40)
          × ((field_range (pos n)).low ≤ℤ (field_range (pos n)).high)
    table_row n h e =
        ground (arith, eq_of_parts (temp_range (pos n)).high ((temp_range (pos n)).low +ℤ pos 40))

slot_in_range : (n : ℕ) → 1 ≤ n → n ≤ 15 → (ltb (n + 0) 1 || ltb 15 (n + 0)) ≡ false
slot_in_range n h k = ground arith

module _ (fl : Float64) where
  open fl use {F}

  -- What a roll for slot `p` must give: a planet whose highest temperature and field count lie in the
  -- slot's ranges, and whose lowest temperature is 40 degrees below the highest.
  abbrev pub RolledAt : {S : Type 0} → ℤ → Option (PlanetAttributes F × S) → Type 0
  RolledAt p none = ⊥
  RolledAt p (some (a, _)) =
      (a.position ≡ p)
      × ((temp_range p).low ≤ℤ a.temp_max)
      × (a.temp_max ≤ℤ (temp_range p).high)
      × (a.temp_min +ℤ pos 40 ≡ a.temp_max)
      × ((field_range p).low ≤ℤ a.fields_total)
      × (a.fields_total ≤ℤ (field_range p).high)

  module _ {S : Type 0} (intn : ℤ → S → ℤ × S)
      (intn_range : (n : ℤ) (s : S)
        → pos 1 ≤ℤ n
        → (pos 0 ≤ℤ (intn n s).0) × ((intn n s).0 <ℤ n)) where
    -- With a generator that keeps to its documented range, a slot from 1 to 15 always gives a planet
    -- whose highest temperature and whose fields are in the slot's ranges, and whose lowest temperature
    -- is 40 degrees below the highest.
    pub generate_planet_attributes-RolledAt :
        (n : ℕ) (s : S)
        → 1 ≤ n
        → n ≤ 15
        → RolledAt (pos n) (generate_planet_attributes fl intn (pos n) s)
    unfolding generate_planet_attributes
    generate_planet_attributes-RolledAt n s h k =
        let (wide, some_field) = ranges_not_empty n h k in
        let w = (temp_range (pos n)).high -ℤ (temp_range (pos n)).low +ℤ pos 1 in
        let v = (field_range (pos n)).high -ℤ (field_range (pos n)).low +ℤ pos 1 in
        let t = intn_range w s (rw wide (omega int_laws)) in
        let f = intn_range v (intn w s).1 (omega int_laws) in
        rw (slot_in_range n h k) (
          refl,
          omega (int_laws, t.0),
          omega (int_laws, t.1),
          omega int_laws,
          omega (int_laws, f.0),
          omega (int_laws, f.1),
        )

    -- Any other position is refused.
    pub generate_planet_attributes-none :
        (p : ℤ) (s : S)
        → (p ≤ℤ pos 0) ⊎ (pos 16 ≤ℤ p)
        → generate_planet_attributes fl intn p s ≡ none
    unfolding generate_planet_attributes
    generate_planet_attributes-none p s h = ground arith
