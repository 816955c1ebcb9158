-- ===== src/Store/Queue.antt =====
-- Queries on the build queue (`internal/store/build_queue.go`).
use mathlib.Core.Path.{subst}
use text.Mathlib.Text.{◌==◌ as str_eq}
use terminal_army_go.Base.{
  ℕ, zero, suc, ◌==◌, ltb, ◌≡◌, refl, sym, Bool, true, false, not, ◌&&◌, List, [], ◌∷◌, ◌++◌,
  select, All, length, Option, none, some, Option-cases, inl, inr, arith, if◌then◌else◌,
}
use terminal_army_go.Int.{ℤ, ◌≤ℤ◌, ltb_ℤ, leb_ℤ}
use terminal_army_go.Store.Rows.{QueueItem, World}

-- `cancelled = FALSE AND applied = FALSE`
unfoldable pub is_active : QueueItem → Bool
is_active q = not q.cancelled && not q.applied

-- `planet_id = $1`, which is not true of NULL
abbrev pub on_planet : ℕ → QueueItem → Bool
on_planet k q = elim q.planet_id [ none ↦ false | some p ↦ p == k ]

abbrev pub active_on_planet : ℕ → QueueItem → Bool
active_on_planet k q = on_planet k q && is_active q

-- `ORDER BY finished_at ASC`
unfoldable pub insert_by_finish : QueueItem → List QueueItem → List QueueItem
insert_by_finish q [] = q ∷ []
insert_by_finish q (r ∷ rows) =
    if ltb_ℤ r.finished_at q.finished_at then r ∷ insert_by_finish q rows else q ∷ r ∷ rows

unfoldable pub by_finish : List QueueItem → List QueueItem
unfolding insert_by_finish
by_finish [] = []
by_finish (q ∷ rows) = insert_by_finish q (by_finish rows)

-- `LIMIT $2`
abbrev pub limit {ℓ} : {A : Type ℓ} → ℕ → List A → List A
limit zero xs = []
limit (suc n) [] = []
limit (suc n) (x ∷ xs) = x ∷ limit n xs

-- `UPDATE build_queue SET … WHERE id = $1`
abbrev pub update_items : ℕ → (QueueItem → QueueItem) → List QueueItem → List QueueItem
update_items k f [] = []
update_items k f (q ∷ rows) = (if q.id == k then f q else q) ∷ update_items k f rows

abbrev pub find_item : ℕ → List QueueItem → Option QueueItem
find_item k [] = none
find_item k (q ∷ rows) = if q.id == k then some q else find_item k rows

-- The latest `finished_at` of some rows, if there are any.
unfoldable pub latest_finish : List QueueItem → Option ℤ
latest_finish [] = none
latest_finish (q ∷ rows) = elim (latest_finish rows) [
  | none ↦ some q.finished_at
  | some t ↦ some (if ltb_ℤ t q.finished_at then q.finished_at else t)
]

abbrev pub active_research_of : ℕ → QueueItem → Bool
active_research_of user q = (q.user_id == user && str_eq q.queue_type "research") && is_active q

-- The row that `InsertQueueItem` stores: its id from the sequence, the flags at their defaults.
abbrev pub new_row : ℕ → QueueItem → QueueItem
new_row k q = record q { id = k; cancelled = false; applied = false }

module _ {F : Type 0} where
  -- `ListActiveQueueForPlanet`
  unfoldable pub list_active_queue_for_planet : ℕ → World F → List QueueItem
  list_active_queue_for_planet k w = by_finish (select (active_on_planet k) w.queue)

  -- `CountActiveQueueForPlanet`
  unfoldable pub count_active_queue_for_planet : ℕ → World F → ℕ
  count_active_queue_for_planet k w = length (select (active_on_planet k) w.queue)

  -- `HasActiveResearch`
  unfoldable pub has_active_research : ℕ → World F → Bool
  has_active_research user w = ltb 0 (length (select (active_research_of user) w.queue))

  -- `LatestActiveQueueFinish`: `COALESCE(MAX(finished_at), NOW())`
  unfoldable pub latest_active_queue_finish : ℕ → ℤ → World F → ℤ
  unfolding latest_finish
  latest_active_queue_finish k db_now w =
      elim (latest_finish (select (active_on_planet k) w.queue)) [ none ↦ db_now | some t ↦ t ]

  -- `ListDueQueueItems`; a row that another worker has locked is as if it were not due.
  unfoldable pub list_due_queue_items : ℤ → ℕ → World F → List QueueItem
  list_due_queue_items now n w =
      limit n (by_finish (select (λ q. is_active q && leb_ℤ q.finished_at now) w.queue))

  -- `GetQueueItem`
  unfoldable pub get_queue_item : ℕ → World F → Option QueueItem
  get_queue_item k w = find_item k w.queue

  -- `MarkQueueApplied`
  unfoldable pub mark_queue_applied : ℕ → World F → World F
  mark_queue_applied k w = record w {
    queue = update_items k (λ q. record q { applied = true }) w.queue;
  }

  -- `CancelQueueItem`
  unfoldable pub cancel_queue_item : ℕ → World F → World F
  cancel_queue_item k w = record w {
    queue = update_items k (λ q. record q { cancelled = true }) w.queue;
  }

  -- `InsertQueueItem`. The times are stored as they are, where the column of PostgreSQL keeps microseconds.
  unfoldable pub insert_queue_item : QueueItem → World F → QueueItem × World F
  insert_queue_item q w = (
    new_row w.next_queue q,
    record w { queue = w.queue ++ (new_row w.next_queue q ∷ []); next_queue = suc w.next_queue },
  )

-- Ordering keeps the rows.
length-insert_by_finish :
    (q : QueueItem) (rows : List QueueItem) → length (insert_by_finish q rows) ≡ suc (length rows)
unfolding insert_by_finish
length-insert_by_finish q [] = refl
length-insert_by_finish q (r ∷ rows) = ground (arith, length-insert_by_finish q rows)

pub length-by_finish : (rows : List QueueItem) → length (by_finish rows) ≡ length rows
unfolding by_finish
length-by_finish [] = refl
length-by_finish (q ∷ rows) =
    omega (arith, length-insert_by_finish q (by_finish rows), length-by_finish rows)

pub All-weaken :
    (s t : ℤ) (rows : List QueueItem)
    → s ≤ℤ t
    → All (λ q. q.finished_at ≤ℤ s) rows
    → All (λ q. q.finished_at ≤ℤ t) rows
All-weaken s t [] le h = tt
All-weaken s t (q ∷ rows) le h = (omega (arith, h.0), All-weaken s t rows le h.1)

latest_finish-none :
    (t : ℤ) (rows : List QueueItem) → latest_finish rows ≡ none → All (λ q. q.finished_at ≤ℤ t) rows
unfolding latest_finish
latest_finish-none t [] h = tt
latest_finish-none t (q ∷ rows) h = absurd (ground arith)

-- The latest time is not before any of the rows'.
pub latest_finish-upper :
    (rows : List QueueItem) (t : ℤ)
    → latest_finish rows ≡ some t
    → All (λ q. q.finished_at ≤ℤ t) rows
unfolding latest_finish
latest_finish-upper [] t h = tt
latest_finish-upper (q ∷ rows) t h = elim (Option-cases (latest_finish rows)) [
  | inl single ↦ (ground arith, latest_finish-none t rows single)
  | inr (s, e) ↦ (ground arith, All-weaken s t rows (ground arith) (latest_finish-upper rows s e))
]

-- The queue's last finish is not before that of any active item of the planet.
pub latest_active_queue_finish-upper :
    {F : Type 0} (k : ℕ) (db_now : ℤ) (w : World F)
    → All
        (λ q. q.finished_at ≤ℤ latest_active_queue_finish k db_now w)
        (select (active_on_planet k) w.queue)
unfolding latest_active_queue_finish
latest_active_queue_finish-upper k db_now w =
    elim (Option-cases (latest_finish (select (active_on_planet k) w.queue))) [
      | inl single ↦ latest_finish-none _ _ single
      | inr (t, e) ↦
          subst
            (λ o.
              All (λ q. q.finished_at ≤ℤ elim o [ none ↦ db_now | some t ↦ t ])
                (select (active_on_planet k) w.queue))
            (sym e) (latest_finish-upper _ t e)
    ]
