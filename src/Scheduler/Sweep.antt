-- ===== src/Scheduler/Sweep.antt =====
-- What a sweep of the build queue does (`internal/scheduler/scheduler.go`).
use mathlib.Core.Path.{subst}
use text.Mathlib.TextEquality.{eq_iff}
use Prim.Native.String.{String}
use text.Mathlib.Text.{◌==◌ as str_eq}
use terminal_army_go.Base.{
  ℕ, ◌==◌, ◌≡◌, refl, sym, ap, ◌∙◌, ◌&&◌, Bool, true, false, List, [], ◌∷◌, select, length, Option,
  none, some, arith, Bool-cases, Option-cases, inl, inr, if◌then◌else◌,
}
use terminal_army_go.Int.{ℤ, pos, ◌+ℤ◌, int_laws, +ℤ_zero}
use terminal_army_go.Dict.{Dict, level, insert, level-insert, lookup}
use terminal_army_go.Store.Rows.{QueueItem, World}
use terminal_army_go.Store.Planets.{
  add_level, add_ships, add_defenses, increment_research_level, increment_building_level,
  increment_planet_fields,
}
use terminal_army_go.Store.Queue.{on_planet, list_due_queue_items, mark_queue_applied}
use terminal_army_go.Scheduler.{
  batch_size, apply_one, apply_research, apply_building, apply_ship, apply_defense, sweep_one,
  sweep_all, queue_sweep,
}

-- The row is research of this user and technology.
abbrev pub researches_tech : ℕ → String → QueueItem → Bool
researches_tech user key q =
    str_eq q.queue_type "research" && (q.user_id == user && str_eq q.item_key key)

zero-+ℤ : (d : ℤ) → pos 0 +ℤ d ≡ d
zero-+ℤ d = omega int_laws

add_level-insert : (k : String) (d : ℤ) (m : Dict ℤ) → add_level k d m ≡ insert k (level m k +ℤ d) m
unfolding add_level
add_level-insert k d m = by_row k d m (lookup k m)
  where
    by_row :
        (k : String) (d : ℤ) (m : Dict ℤ) (o : Option ℤ)
        → elim o [ none ↦ insert k d m | some n ↦ insert k (n +ℤ d) m ]
          ≡ insert k (elim o [ none ↦ pos 0 | some n ↦ n ] +ℤ d) m
    by_row k d m none = ap (λ v. insert k v m) (sym (zero-+ℤ d))
    by_row k d m (some n) = refl

-- An upsert of a level adds to that key's and to no other.
pub level-add_level :
    (k j : String) (d : ℤ) (m : Dict ℤ)
    → level (add_level k d m) j ≡ (if str_eq k j then level m j +ℤ d else level m j)
level-add_level k j d m =
    ap (λ x. level x j) (add_level-insert k d m)
    ∙ level-insert k j (level m k +ℤ d) m
    ∙ elim (Bool-cases (str_eq k j)) [
      | inl same ↦ rw same (ap (λ i. level m i +ℤ d) ((eq_iff k j).0 same))
      | inr other ↦ rw other refl
    ]

-- One type of row is no other.
building_not_research : (t : String) → str_eq t "building" ≡ true → str_eq t "research" ≡ false
building_not_research t h =
    subst (λ s. str_eq s "research" ≡ false) (sym ((eq_iff t "building").0 h)) refl

module _ {F : Type 0} (user : ℕ) (key : String) where
  -- One row of research raises its technology by a level.
  level-sweep_one :
      (q : QueueItem) (w : World F)
      → level ((sweep_one q w).researches user) key
        ≡ level (w.researches user) key +ℤ pos (if researches_tech user key q then 1 else 0)
  unfolding sweep_one apply_one apply_research apply_building apply_ship apply_defense
      mark_queue_applied increment_research_level increment_building_level increment_planet_fields
      add_ships add_defenses
  level-sweep_one q w = ground (
    arith,
    building_not_research q.queue_type,
    level-add_level q.item_key key (pos 1) (w.researches q.user_id),
    +ℤ_zero (level (w.researches user) key),
  )

  level-sweep_all :
      (due : List QueueItem) (w : World F)
      → level ((sweep_all due w).researches user) key
        ≡ level (w.researches user) key +ℤ pos (length (select (researches_tech user key) due))
  unfolding sweep_all
  level-sweep_all [] w = omega int_laws
  level-sweep_all (q ∷ due) w =
      level-sweep_all due (sweep_one q w)
      ∙ ap (λ n. n +ℤ pos (length (select (researches_tech user key) due))) (level-sweep_one q w)
      ∙ elim (Bool-cases (researches_tech user key q)) [
        | inl hit ↦ rw hit (omega int_laws)
        | inr miss ↦ rw miss (omega int_laws)
      ]

  -- A sweep raises each technology of each user by exactly the number of its due rows that the sweep
  -- claims.
  pub queue_sweep-researches :
      (now : ℤ) (w : World F)
      → level ((queue_sweep now w).researches user) key
        ≡ level (w.researches user) key
          +ℤ pos
              (length (select (researches_tech user key) (list_due_queue_items now batch_size w)))
  unfolding queue_sweep
  queue_sweep-researches now w = level-sweep_all (list_due_queue_items now batch_size w) w

-- The row builds this building on this planet.
abbrev pub builds_level : ℕ → String → QueueItem → Bool
builds_level k key q = str_eq q.queue_type "building" && (on_planet k q && str_eq q.item_key key)

module _ {F : Type 0} (k : ℕ) (key : String) where
  -- One row of a building raises it by a level on its planet.
  building-sweep_one :
      (q : QueueItem) (w : World F)
      → level ((sweep_one q w).buildings k) key
        ≡ level (w.buildings k) key +ℤ pos (if builds_level k key q then 1 else 0)
  unfolding sweep_one apply_one apply_research apply_building apply_ship apply_defense
      mark_queue_applied increment_research_level increment_building_level increment_planet_fields
      add_ships add_defenses
  building-sweep_one q w = elim (Option-cases q.planet_id) [
    | inl nowhere ↦
        ground
          (arith, nowhere, building_not_research q.queue_type, +ℤ_zero (level (w.buildings k) key))
    | inr (j, on) ↦ ground (
      arith,
      on,
      level-add_level q.item_key key (pos 1) (w.buildings j),
      +ℤ_zero (level (w.buildings k) key),
    )
  ]

  building-sweep_all :
      (due : List QueueItem) (w : World F)
      → level ((sweep_all due w).buildings k) key
        ≡ level (w.buildings k) key +ℤ pos (length (select (builds_level k key) due))
  unfolding sweep_all
  building-sweep_all [] w = omega int_laws
  building-sweep_all (q ∷ due) w =
      building-sweep_all due (sweep_one q w)
      ∙ ap (λ n. n +ℤ pos (length (select (builds_level k key) due))) (building-sweep_one q w)
      ∙ elim (Bool-cases (builds_level k key q)) [
        | inl hit ↦ rw hit (omega int_laws)
        | inr miss ↦ rw miss (omega int_laws)
      ]

  -- A sweep raises each building of each planet by exactly the number of its due rows that the sweep
  -- claims.
  pub queue_sweep-buildings :
      (now : ℤ) (w : World F)
      → level ((queue_sweep now w).buildings k) key
        ≡ level (w.buildings k) key
          +ℤ pos (length (select (builds_level k key) (list_due_queue_items now batch_size w)))
  unfolding queue_sweep
  queue_sweep-buildings now w = building-sweep_all (list_due_queue_items now batch_size w) w
