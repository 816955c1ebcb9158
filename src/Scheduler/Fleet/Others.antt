-- ===== src/Scheduler/Fleet/Others.antt =====
-- Steps that leave the row of a fleet alone: how such steps are put together, and those of every handler
-- of another fleet that are no choice between missions (`internal/scheduler/fleet.go`).
use Prim.Native.String.{String}
use terminal_army_go.Base.{
  ℕ, ◌==◌, ◌≡◌, refl, sym, ap, ◌∙◌, Bool, true, false, [], ◌∷◌, Option, none, some, if◌then◌else◌,
}
use terminal_army_go.Int.{ℤ, pos, leb_ℤ}
use terminal_army_go.Dict.{Dict}
use terminal_army_go.Float.{Float64}
use terminal_army_go.Store.Tx.{
  Error, Result, Tx, ok, ok_state, >>=-eq-ok, fetch, fetch-eq-ok, fail_if, fail_if-eq-ok, gets,
  modify, not_found, or_fail, or_fail-eq-ok, pure, ◌>>=◌, ◌>>◌,
}
use terminal_army_go.Store.Rows.{Fleet, Notice, Payload, Planet, World, transport_delivered}
use terminal_army_go.Store.Planets.{add_ships, get_planet, update_planet_resources}
use terminal_army_go.Store.Fleets.{
  delete_fleet, get_fleet, list_fleet_ships, mark_arrival_processed, marked_arrived,
  update_fleet_cargo, with_cargo,
}
use terminal_army_go.Store.Fleets.Lookup.{get_fleet-delete_other, get_fleet-update_other}
use terminal_army_go.Store.Messages.{insert_message, insert_report}
use terminal_army_go.Svc.Resources.{refresh_tx}
use terminal_army_go.Svc.Resources.Frame.{refresh_tx-keeps}
use terminal_army_go.Svc.Fleet.Recall.{time_of_return}
use terminal_army_go.Scheduler.Fleet.{
  Clock, at_target, credit_cargo, deliver, drop_cargo, has_cargo, land_ships, mark_attack_returning,
  notify_delivery, refreshed_planet, resolve_deploy, resolve_transport, settle,
}

module _ {F : Type 0} (j : ℕ) where
  -- A step that starts in `w` leaves the row of fleet `j` as it is, when it succeeds.
  abbrev pub KeepsAt : {A : Type 0} → World F → Result (A × World F) → Type 0
  KeepsAt {A} w r = (w' : World F) (a : A) → r ≡ ok (a, w') → get_fleet j w' ≡ get_fleet j w

  abbrev pub Keeps : {A : Type 0} → Tx (World F) A → Type 0
  Keeps m = (w : World F) → KeepsAt w (m w)

  pub bind-Keeps :
      {A B : Type 0} (m : Tx (World F) A) (f : A → Tx (World F) B)
      → Keeps m
      → ((a : A) → Keeps (f a))
      → Keeps (m >>= f)
  bind-Keeps m f hm hf w w' b h =
      let (a, w1, e, h1) = >>=-eq-ok m f w h in hf a w1 w' b h1 ∙ hm w w1 a e

  pub pure-Keeps : {A : Type 0} (a : A) → Keeps (pure a)
  pure-Keeps a w w' b h = ap (get_fleet j) (sym (ok_state h))

  pub gets-Keeps : {A : Type 0} (g : World F → A) → Keeps (gets g)
  gets-Keeps g w w' b h = ap (get_fleet j) (sym (ok_state h))

  pub modify-Keeps :
      (g : World F → World F)
      → ((w : World F) → get_fleet j (g w) ≡ get_fleet j w)
      → Keeps (modify g)
  modify-Keeps g same w w' b h = ap (get_fleet j) (sym (ok_state h)) ∙ same w

  pub fetch-Keeps : {A : Type 0} (g : World F → Option A) (e : Error) → Keeps (fetch g e)
  fetch-Keeps g e w w' a h = ap (get_fleet j) (fetch-eq-ok g e w w' h).1

  pub or_fail-Keeps : {A : Type 0} (o : Option A) (e : Error) → Keeps (or_fail o e)
  or_fail-Keeps o e w w' a h = ap (get_fleet j) (or_fail-eq-ok o e w w' h).1

  pub fail_if-Keeps : (b : Bool) (e : Error) → Keeps (fail_if b e)
  fail_if-Keeps b e w w' a h = ap (get_fleet j) (fail_if-eq-ok b e w w' h).1

  pub if-Keeps :
      {A : Type 0} (b : Bool) (x y : Tx (World F) A)
      → Keeps x
      → Keeps y
      → Keeps (if b then x else y)
  if-Keeps true x y hx hy = hx
  if-Keeps false x y hx hy = hy

  pub case-Keeps :
      {A : Type 0} (b : Bool) (x y : Tx (World F) A)
      → Keeps x
      → Keeps y
      → Keeps (elim b as (λ _. Tx (World F) A) [ true ↦ x | false ↦ y ])
  case-Keeps true x y hx hy = hx
  case-Keeps false x y hx hy = hy

  pub option-Keeps :
      {A B : Type 0} (o : Option A) (n : Tx (World F) B) (s : A → Tx (World F) B)
      → Keeps n
      → ((a : A) → Keeps (s a))
      → Keeps (elim o as (λ _. Tx (World F) B) [ none ↦ n | some a ↦ s a ])
  option-Keeps none n s hn hs = hn
  option-Keeps (some a) n s hn hs = hs a

  pub option-KeepsAt :
      {A B : Type 0} (w : World F) (o : Option A) (n : Result (B × World F))
      (s : A → Result (B × World F))
      → KeepsAt w n
      → ((a : A) → KeepsAt w (s a))
      → KeepsAt w (elim o as (λ _. Result (B × World F)) [ none ↦ n | some a ↦ s a ])
  option-KeepsAt w none n s hn hs = hn
  option-KeepsAt w (some a) n s hn hs = hs a

  pub land_ships-keeps :
      (k : ℕ) (ships : Dict ℤ) (w : World F) → get_fleet j (land_ships k ships w) ≡ get_fleet j w
  unfolding land_ships get_fleet add_ships
  land_ships-keeps k [] w = refl
  land_ships-keeps k ((name, n) ∷ ships) w =
      land_ships-keeps k ships (if leb_ℤ n (pos 0) then w else add_ships k name n w)
      ∙ skip (leb_ℤ n (pos 0)) w (add_ships k name n w) refl
    where
      skip :
          (b : Bool) (u v : World F)
          → get_fleet j v ≡ get_fleet j u
          → get_fleet j (if b then u else v) ≡ get_fleet j u
      skip true u v same = refl
      skip false u v same = same

  -- Either of two states keeps the row.
  pub if-keeps :
      (b : Bool) (w v : World F)
      → get_fleet j v ≡ get_fleet j w
      → get_fleet j (if b then v else w) ≡ get_fleet j w
  if-keeps true w v same = same
  if-keeps false w v same = refl

  pub mark_attack_returning-Keeps :
      (clock : Clock) (f : Fleet) → ¬ (j ≡ f.id) → Keeps (mark_attack_returning clock f)
  unfolding mark_attack_returning mark_arrival_processed
  mark_attack_returning-Keeps clock f other = modify-Keeps _ (λ w.
      get_fleet-update_other j f.id
        (marked_arrived "returning" (some (time_of_return clock.turned_at f.departure_at))) w
        (λ x. refl) other)

  pub insert_message-keeps :
      (db_now : ℤ) (sender : Option ℕ) (recipient : ℕ) (text : Notice) (category : String)
      (w : World F)
      → get_fleet j (insert_message db_now sender recipient text category w) ≡ get_fleet j w
  unfolding insert_message get_fleet
  insert_message-keeps db_now sender recipient text category w = refl

  pub insert_report-keeps :
      (db_now : ℤ) (owner : ℕ) (kind : String) (payload : Payload F) (f : Fleet) (w : World F)
      → get_fleet j (insert_report db_now owner kind payload f w) ≡ get_fleet j w
  unfolding insert_report get_fleet
  insert_report-keeps db_now owner kind payload f w = refl

  pub delete_fleet-Keeps : (k : ℕ) → ¬ (j ≡ k) → Keeps (modify (delete_fleet k))
  delete_fleet-Keeps k other = modify-Keeps _ (λ w. get_fleet-delete_other j k w other)

module _ (fl : Float64) (j : ℕ) where
  open fl use {F}

  pub refreshed_planet-Keeps : (clock : Clock) (k id : ℕ) → Keeps j (refreshed_planet fl clock k id)
  unfolding refreshed_planet get_fleet update_planet_resources
  refreshed_planet-Keeps clock k id =
      bind-Keeps j (refresh_tx fl clock.refreshed_at id) _
        (λ w w' a h.
          refresh_tx-keeps fl (get_fleet j) (λ i m c d t u. refl) clock.refreshed_at id w w' h)
        (λ _. fetch-Keeps j (get_planet k) not_found)

  pub at_target-Keeps :
      (clock : Clock) (f : Fleet) (resolve : ℕ → Planet F → Tx (World F) (Unit {0}))
      → ¬ (j ≡ f.id)
      → ((k : ℕ) (p : Planet F) → Keeps j (resolve k p))
      → Keeps j (at_target fl clock f resolve)
  unfolding at_target
  at_target-Keeps clock f resolve other h w =
      let back = mark_attack_returning-Keeps j clock f other w in
      option-KeepsAt j w f.target_planet_id _ _ back
        (λ k. option-KeepsAt j w (get_planet k w) _ _ back (λ p. h k p w))

  credit_cargo-keeps :
      (now : ℤ) (p : Planet F) (f : Fleet) (w : World F)
      → get_fleet j (credit_cargo fl now p f w) ≡ get_fleet j w
  unfolding credit_cargo get_fleet update_planet_resources
  credit_cargo-keeps now p f w = refl

  deliver-Keeps :
      (clock : Clock) (f : Fleet) (k : ℕ) (p : Planet F)
      → ¬ (j ≡ f.id)
      → Keeps j (deliver fl clock f k p)
  unfolding deliver drop_cargo notify_delivery update_fleet_cargo
  deliver-Keeps clock f k p other =
      bind-Keeps j (refreshed_planet fl clock k p.id) _ (refreshed_planet-Keeps clock k p.id) (λ r.
        bind-Keeps j (drop_cargo fl clock r f) _
          (case-Keeps j (has_cargo f) _ _
            (bind-Keeps j (modify (credit_cargo fl clock.updated_at r f)) _
              (modify-Keeps j _ (credit_cargo-keeps clock.updated_at r f))
              (λ _. modify-Keeps j _ (λ w.
                get_fleet-update_other j f.id (with_cargo (pos 0) (pos 0) (pos 0)) w (λ x. refl)
                  other)))
            (pure-Keeps j tt))
          (λ _.
            bind-Keeps j (notify_delivery clock f r) _
              (case-Keeps j (r.owner_user_id == f.owner_id) _ _ (pure-Keeps j tt) (
                modify-Keeps j _ (
                  insert_message-keeps j clock.db_now (some f.owner_id) r.owner_user_id
                    (transport_delivered r.name f.cargo_metal f.cargo_crystal f.cargo_deuterium)
                    "transport")))
              (λ _. mark_attack_returning-Keeps j clock f other)))

  pub resolve_transport-Keeps :
      (clock : Clock) (f : Fleet) → ¬ (j ≡ f.id) → Keeps j (resolve_transport fl clock f)
  unfolding resolve_transport
  resolve_transport-Keeps clock f other =
      at_target-Keeps clock f _ other (λ k p. deliver-Keeps clock f k p other)

  pub landed-Keeps :
      (clock : Clock) (f : Fleet) (r : Planet F) (ships : Dict ℤ) (last : Tx (World F) (Unit {0}))
      → Keeps j last
      → Keeps j (
          modify (land_ships r.id ships)
          >> (modify (λ w. if has_cargo f then credit_cargo fl clock.updated_at r f w else w)
              >> last))
  landed-Keeps clock f r ships last h =
      bind-Keeps j (modify (land_ships r.id ships)) _
        (modify-Keeps j _ (land_ships-keeps j r.id ships))
        (λ _.
          bind-Keeps j _ _
            (modify-Keeps j _
              (λ w. if-keeps j (has_cargo f) w _ (credit_cargo-keeps clock.updated_at r f w)))
            (λ _. h))

  pub resolve_deploy-Keeps :
      (clock : Clock) (f : Fleet) → ¬ (j ≡ f.id) → Keeps j (resolve_deploy fl clock f)
  unfolding resolve_deploy settle
  resolve_deploy-Keeps clock f other = at_target-Keeps clock f _ other (λ k p.
      case-Keeps j (p.owner_user_id == f.owner_id) _ _
        (bind-Keeps j (refreshed_planet fl clock k p.id) _ (refreshed_planet-Keeps clock k p.id)
          (λ r.
            bind-Keeps j (gets (list_fleet_ships f.id)) _ (gets-Keeps j (list_fleet_ships f.id))
              (λ ships. landed-Keeps clock f r ships _ (delete_fleet-Keeps j f.id other))))
        (resolve_transport-Keeps clock f other))
