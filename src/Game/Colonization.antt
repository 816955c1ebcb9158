-- ===== src/Game/Colonization.antt =====
-- Colonisation rules (`internal/game/colonization.go`) and the tables by slot position
-- (`internal/game/constants.go`).
pub mod Slots
use terminal_army_go.Base.{
  ℕ, ◌+◌, List, [], ◌∷◌, Option, none, some, Bool, ◌&&◌, ◌||◌, if◌then◌else◌,
}
use terminal_army_go.Int.{ℤ, pos, negsuc, ◌+ℤ◌, ◌-ℤ◌, ◌/ℤ◌, ltb_ℤ, leb_ℤ, eqb_ℤ}
use terminal_army_go.Float.{Float64}

-- `TempRange` and `FieldRange`: inclusive.
pub record TempRange : Type 0 where
  pub low : ℤ
  pub high : ℤ

pub record FieldRange : Type 0 where
  pub low : ℤ
  pub high : ℤ

-- A map with integer keys.
abbrev pub at_position {ℓ} : {A : Type ℓ} → ℤ → A → List (ℕ × A) → A
at_position p missing [] = missing
at_position p missing ((q, a) ∷ rows) = if eqb_ℤ p (pos q) then a else at_position p missing rows

abbrev pub temps : ℤ → ℤ → TempRange
temps l h = record { low = l; high = h }

unfoldable pub temperature_ranges_by_position : List (ℕ × TempRange)
temperature_ranges_by_position =
    (1, temps (pos 220) (pos 260))
    ∷ (2, temps (pos 170) (pos 210))
    ∷ (3, temps (pos 120) (pos 160))
    ∷ (4, temps (pos 70) (pos 110))
    ∷ (5, temps (pos 60) (pos 100))
    ∷ (6, temps (pos 50) (pos 90))
    ∷ (7, temps (pos 40) (pos 80))
    ∷ (8, temps (pos 30) (pos 70))
    ∷ (9, temps (pos 20) (pos 60))
    ∷ (10, temps (pos 10) (pos 50))
    ∷ (11, temps (pos 0) (pos 40))
    ∷ (12, temps (negsuc 9) (pos 30))
    ∷ (13, temps (negsuc 49) (negsuc 9))
    ∷ (14, temps (negsuc 89) (negsuc 49))
    ∷ (15, temps (negsuc 129) (negsuc 89))
    ∷ []

abbrev pub fields : ℕ → ℕ → FieldRange
fields l h = record { low = pos l; high = pos h }

unfoldable pub fields_ranges_by_position : List (ℕ × FieldRange)
fields_ranges_by_position =
    (1, fields 96 172)
    ∷ (2, fields 104 176)
    ∷ (3, fields 112 182)
    ∷ (4, fields 118 208)
    ∷ (5, fields 133 232)
    ∷ (6, fields 146 242)
    ∷ (7, fields 152 248)
    ∷ (8, fields 156 252)
    ∷ (9, fields 150 246)
    ∷ (10, fields 142 232)
    ∷ (11, fields 136 210)
    ∷ (12, fields 125 186)
    ∷ (13, fields 114 172)
    ∷ (14, fields 100 168)
    ∷ (15, fields 90 164)
    ∷ []

-- Bonuses in hundredths.
unfoldable pub metal_bonus_by_position : List (ℕ × ℕ)
metal_bonus_by_position = (6, 17) ∷ (7, 23) ∷ (8, 35) ∷ (9, 23) ∷ (10, 17) ∷ []

unfoldable pub crystal_bonus_by_position : List (ℕ × ℕ)
crystal_bonus_by_position = (1, 40) ∷ (2, 30) ∷ (3, 20) ∷ []

-- `MaxPlanets`
unfoldable pub max_planets : ℤ → ℤ
max_planets astro =
    let a = if ltb_ℤ astro (pos 0) then pos 0 else astro in pos 1 +ℤ (a +ℤ pos 1) /ℤ pos 2

-- `ColonizablePositionRange`
unfoldable pub colonizable_position_range : ℤ → ℤ × ℤ
colonizable_position_range astro =
    if leb_ℤ (pos 8) astro
    then (pos 1, pos 15)
    else if leb_ℤ (pos 6) astro
    then (pos 2, pos 14)
    else if leb_ℤ (pos 4) astro
    then (pos 3, pos 13)
    else (pos 4, pos 12)

-- `CanColonizePosition`
unfoldable pub can_colonize_position : ℤ → ℤ → Bool
unfolding colonizable_position_range
can_colonize_position astro position =
    let (low, high) = colonizable_position_range astro in leb_ℤ low position && leb_ℤ position high

-- Why a fleet may not colonise: the message's data.
pub data Rejection : Type 0 where
  outside_band : ℤ → ℤ → ℤ → Rejection
  planet_limit : ℤ → ℤ → Rejection

-- `colonizeRejection` of `internal/scheduler/fleet.go`; `none` is its empty string.
unfoldable pub colonize_rejection : ℤ → ℤ → ℤ → Option Rejection
unfolding can_colonize_position max_planets
colonize_rejection astro planet_count position =
    let (low, high) = colonizable_position_range astro in
    if can_colonize_position astro position
    then (if leb_ℤ (max_planets astro) planet_count
        then some (planet_limit planet_count (max_planets astro))
        else none)
    else some (outside_band astro low high)

pub record PlanetAttributes (F : Type 0) : Type 0 where
  pub position : ℤ
  pub temp_min : ℤ
  pub temp_max : ℤ
  pub fields_total : ℤ
  pub metal_position_bonus : F
  pub crystal_position_bonus : F

module _ (fl : Float64) where
  open fl use {F, of_int, dec}

  abbrev bonus_rows : List (ℕ × ℕ) → List (ℕ × F)
  bonus_rows [] = []
  bonus_rows ((q, b) ∷ rows) = (q, dec (pos b) 2) ∷ bonus_rows rows

  -- `MetalBonusByPosition[p]` and `CrystalBonusByPosition[p]`: zero for a position without a row.
  unfoldable pub metal_bonus : ℤ → F
  metal_bonus p = at_position p (of_int (pos 0)) (bonus_rows metal_bonus_by_position)

  unfoldable pub crystal_bonus : ℤ → F
  crystal_bonus p = at_position p (of_int (pos 0)) (bonus_rows crystal_bonus_by_position)

  -- `GeneratePlanetAttributes`. `intn` is `(*rand.Rand).Intn` over the generator's state, which is a
  -- package of Go's library; `none` is the error for an invalid position.
  unfoldable pub generate_planet_attributes :
      {S : Type 0} → (ℤ → S → ℤ × S) → ℤ → S → Option (PlanetAttributes F × S)
  unfolding metal_bonus crystal_bonus
  generate_planet_attributes intn position s =
      let tr = at_position position (temps (pos 0) (pos 0)) temperature_ranges_by_position in
      let fr = at_position position (fields 0 0) fields_ranges_by_position in
      let (t, s1) = intn (tr.high -ℤ tr.low +ℤ pos 1) s in
      let (n, s2) = intn (fr.high -ℤ fr.low +ℤ pos 1) s1 in
      let temp_max = t +ℤ tr.low in
      if ltb_ℤ position (pos 1) || ltb_ℤ (pos 15) position
      then none
      else some (
        record {
          position = position;
          temp_min = temp_max -ℤ pos 40;
          temp_max = temp_max;
          fields_total = n +ℤ fr.low;
          metal_position_bonus = metal_bonus position;
          crystal_position_bonus = crystal_bonus position;
        },
        s2,
      )
