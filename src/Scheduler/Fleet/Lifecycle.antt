-- ===== src/Scheduler/Fleet/Lifecycle.antt =====
-- The life of a fleet (`internal/svc/fleet.go`, `internal/scheduler/fleet.go`): what its row goes
-- through is a state machine with four phases.
use Prim.Native.String.{String}
use text.Mathlib.Text.{◌==◌ as str_eq}
use text.Mathlib.TextEquality.{eq_iff}
use mathlib.Core.Path.{subst}
use mathlib.Core.Option.{some-injective}
use terminal_army_go.Base.{
  ℕ, suc, ◌<◌, ◌≤◌, ◌≡◌, refl, sym, ap, ◌∙◌, true, Option, none, some, Option-cases, inl, inr, ◌⊎◌,
  arith, if◌then◌else◌,
}
use terminal_army_go.Int.{ℤ}
use terminal_army_go.Float.{Float64}
use terminal_army_go.Store.Tx.{Tx, ok, ok_state, pure, ◌>>◌, >>=-eq-ok}
use terminal_army_go.Store.Rows.{Fleet, World}
use terminal_army_go.Store.Planets.{get_planet}
use terminal_army_go.Store.Fleets.{get_fleet, is_due_arrival, is_due_return}
use terminal_army_go.Store.Fleets.Lookup.{get_fleet-delete_fleet}
use terminal_army_go.Svc.Fleet.Recall.{recall}
use terminal_army_go.Svc.Fleet.Turning.{recall_once}
use terminal_army_go.Scheduler.Fleet.Unloading.{unload-returned}
use terminal_army_go.Scheduler.Fleet.{Clock, handle_return}
use terminal_army_go.Scheduler.Fleet.Colonize.{Naming}
use terminal_army_go.Scheduler.Fleet.Arrivals.{handle_arrival}
use terminal_army_go.Scheduler.Fleet.Handled.{handle_arrival-Ended}
use terminal_army_go.Scheduler.Fleet.Others.{bind-Keeps, pure-Keeps}
use terminal_army_go.Scheduler.Fleet.Bystanders.{handle_return-Keeps}
use terminal_army_go.Scheduler.Fleet.Undisturbed.{handle_arrival-Keeps, recall-Keeps}

-- The specification: a fleet is on its way out, on its way home, home, or gone.
pub data Phase : Type 0 where
  outbound returning returned gone : Phase

-- It turns around or ends at its target, and on the way home it comes back or is lost.
pub data Step : Phase → Phase → Type 0 where
  turn : Step outbound returning
  absorb : Step outbound gone
  land : Step returning returned
  lose : Step returning gone

unfoldable pub phase_of_status : String → Option Phase
phase_of_status s =
    if str_eq s "outbound"
    then some outbound
    else if str_eq s "returning"
    then some returning
    else if str_eq s "returned"
    then some returned
    else none

-- The phase of a row: a row that is not there is of a fleet that is gone.
unfoldable pub phase_of : Option Fleet → Option Phase
unfolding phase_of_status
phase_of o = elim o [ none ↦ some gone | some f ↦ phase_of_status f.status ]

-- What happens to a fleet: its owner recalls it, or a sweep handles it as due at a time.
pub data Event (F : Type 0) : Type 0 where
  recalls : ℤ → ℕ → ℕ → Event F
  arrives : ℤ → Clock → F → Fleet → Event F
  comes_home : ℤ → Clock → Fleet → Event F

unfoldable pub subject : {F : Type 0} → Event F → ℕ
subject (recalls _ _ k) = k
subject (arrives _ _ _ f) = f.id
subject (comes_home _ _ f) = f.id

-- A sweep handles a fleet by the row that it has read, and which is due.
abbrev pub Ready : {F : Type 0} → Event F → World F → Type 0
Ready (recalls _ _ _) w = Unit
Ready (arrives now _ _ f) w = (get_fleet f.id w ≡ some f) × (is_due_arrival now f ≡ true)
Ready (comes_home now _ f) w = (get_fleet f.id w ≡ some f) × (is_due_return now f ≡ true)

due_arrival-phase :
    (now : ℤ) (f : Fleet) → is_due_arrival now f ≡ true → phase_of_status f.status ≡ some outbound
unfolding is_due_arrival phase_of_status
due_arrival-phase now f due = ground (arith, due)

due_return-phase :
    (now : ℤ) (f : Fleet) → is_due_return now f ≡ true → phase_of_status f.status ≡ some returning
unfolding is_due_return phase_of_status
due_return-phase now f due =
    let home : str_eq f.status "returning" ≡ true = ground (arith, due) in
    rw ((eq_iff f.status "returning").0 home) refl

module _ {S : Type 0} (naming : Naming S) (fl : Float64) where
  open fl use {F}

  handle_return-phase :
      (clock : Clock) (f : Fleet) (w w' : World F)
      → get_fleet f.id w ≡ some f
      → handle_return fl clock f w ≡ ok (tt, w')
      → (phase_of (get_fleet f.id w') ≡ some gone) ⊎ (phase_of (get_fleet f.id w') ≡ some returned)
  unfolding phase_of handle_return
  handle_return-phase clock f w w' flying h =
      elim (Option-cases (get_planet f.origin_planet_id w)) [
        | inl lost ↦ inl (
            ap phase_of (
              ap (get_fleet f.id) (sym (ok_state (rw (lost, handle_return) at h)))
              ∙ get_fleet-delete_fleet f.id w))
        | inr (p, found) ↦ inr (
            ap phase_of
              (unload-returned fl clock f f p w w' found flying (rw (found, handle_return) at h)))
      ]

  -- What the code does for an event.
  unfoldable pub run_event : (String → String) → Event F → Tx (World F) (Unit {0})
  unfolding handle_arrival handle_return recall
  run_event lower (recalls now user k) = recall now user k >> pure tt
  run_event lower (arrives _ clock roll f) = handle_arrival naming fl lower clock roll f
  run_event lower (comes_home _ clock f) = handle_return fl clock f

  -- Every successful recall, and every successful handling of a due fleet, is a step of the
  -- specification for the fleet that it is about.
  pub run_event-Step :
      (lower : String → String) (e : Event F) (w w' : World F)
      → Ready e w
      → run_event lower e w ≡ ok (tt, w')
      → (a : Phase) × (b : Phase) × (phase_of (get_fleet (subject e) w) ≡ some a)
        × (phase_of (get_fleet (subject e) w') ≡ some b)
        × Step a b
  unfolding run_event subject phase_of is_due_arrival is_due_return
  run_event-Step lower (recalls now user k) w w' ready h =
      let (out, w1, e, h1) = >>=-eq-ok (recall now user k) _ w h in
      let (f, found, _, status, after, _, _, _) =
        recall_once now now user k w w' (e ∙ ap (λ v. ok (out, v)) (ok_state h1)) in
      (outbound, returning, ap phase_of found ∙ rw status refl, ap phase_of after, turn)
  run_event-Step lower (arrives now clock roll f) w w' (there, due) h =
      let before = ap phase_of there ∙ due_arrival-phase now f due in
      elim (handle_arrival-Ended naming fl lower clock roll f f w w' there h) [
        | inl ended ↦ (outbound, gone, before, ap phase_of ended, absorb)
        | inr (g, turned_round) ↦ (outbound, returning, before, ap phase_of turned_round, turn)
      ]
  run_event-Step lower (comes_home now clock f) w w' (there, due) h =
      let before = ap phase_of there ∙ due_return-phase now f due in
      elim (handle_return-phase clock f w w' there h) [
        | inl lost ↦ (returning, gone, before, lost, lose)
        | inr home ↦ (returning, returned, before, home, land)
      ]

-- How many steps a fleet has left.
abbrev steps_left : Phase → ℕ
steps_left outbound = 2
steps_left returning = 1
steps_left returned = 0
steps_left gone = 0

Step-shortens : (a b : Phase) → Step a b → steps_left b < steps_left a
Step-shortens a b turn = omega arith
Step-shortens a b absorb = omega arith
Step-shortens a b land = omega arith
Step-shortens a b lose = omega arith

module _ {S : Type 0} (naming : Naming S) (fl : Float64) (lower : String → String) (k : ℕ) where
  open fl use {F}

  run_event-keeps :
      (e : Event F) (w v : World F)
      → ¬ (k ≡ subject e)
      → run_event naming fl lower e w ≡ ok (tt, v)
      → get_fleet k v ≡ get_fleet k w
  unfolding run_event subject
  run_event-keeps (recalls now user i) w v apart run =
      bind-Keeps k (recall now user i) _ (recall-Keeps k now user i apart) (λ _. pure-Keeps k tt) w
        v tt run
  run_event-keeps (arrives now clock roll f) w v apart run =
      handle_arrival-Keeps naming fl k lower clock roll f apart w v tt run
  run_event-keeps (comes_home now clock f) w v apart run =
      handle_return-Keeps fl k clock f apart w v tt run

  -- A sequence of events of any fleets, and how many of them are about the fleet `k`. An event of another
  -- fleet may handle a stale row of that fleet.
  pub data Life : World F → World F → ℕ → Type 0 where
    idle : {w : World F} → Life w w 0
    own :
        {w v u : World F} {n : ℕ} (e : Event F)
        → subject e ≡ k
        → Ready e w
        → run_event naming fl lower e w ≡ ok (tt, v)
        → Life v u n
        → Life w u (suc n)
    other :
        {w v u : World F} {n : ℕ} (e : Event F)
        → ¬ (k ≡ subject e)
        → run_event naming fl lower e w ≡ ok (tt, v)
        → Life v u n
        → Life w u n

  Life-shortens :
      {w u : World F} {n : ℕ} (a : Phase)
      → phase_of (get_fleet k w) ≡ some a
      → Life w u n
      → n ≤ steps_left a
  Life-shortens a now idle = omega arith
  Life-shortens {w} a now (own {v = v} e about ready run rest) =
      let (b, c, before, after, step) = run_event-Step naming fl lower e w v ready run in
      let same : b ≡ a =
        some-injective b a
          (sym before ∙ subst (λ j. phase_of (get_fleet j w) ≡ some a) (sym about) now) in
      let fewer = subst (λ p. steps_left c < steps_left p) same (Step-shortens b c step) in
      let later =
        Life-shortens c (subst (λ j. phase_of (get_fleet j v) ≡ some c) about after) rest in
      omega arith
  Life-shortens {w} a now (other {v = v} e apart run rest) =
      Life-shortens a (ap phase_of (run_event-keeps e w v apart run) ∙ now) rest

  -- In whatever order the successful events of all fleets come, where a sweep handles this fleet by the row
  -- that the database has, and which is due: at most two of them are about a fleet that is in one of the
  -- four phases at the start.
  pub Life-bounds :
      {w u : World F} {n : ℕ} (a : Phase) → phase_of (get_fleet k w) ≡ some a → Life w u n → n ≤ 2
  Life-bounds outbound now life = Life-shortens outbound now life
  Life-bounds returning now life = let short = Life-shortens returning now life in omega arith
  Life-bounds returned now life = let short = Life-shortens returned now life in omega arith
  Life-bounds gone now life = let short = Life-shortens gone now life in omega arith
