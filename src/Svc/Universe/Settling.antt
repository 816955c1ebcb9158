-- ===== src/Svc/Universe/Settling.antt =====
-- What a join gives (`internal/svc/universe.go`).
use Prim.Native.String.{String}
use mathlib.Core.Path.{subst}
use terminal_army_go.Base.{
  ℕ, zero, suc, ltb, ◌==◌, ◌≡◌, refl, sym, ap, ◌∙◌, ◌++◌, ◌||◌, select, Bool, true, false, List, [],
  ◌∷◌, none, some, arith, Option, inl, inr, ◌⊎◌,
}
use terminal_army_go.Int.{ℤ, pos, ◌+ℤ◌, ◌≤ℤ◌, ◌<ℤ◌, int_laws}
use terminal_army_go.Float.{Float64}
use terminal_army_go.Game.Colonization.{generate_planet_attributes}
use terminal_army_go.Store.Tx.{
  Result, ok, err, ok_state, ok_result, >>=-eq-ok, fail_if, fail_if-eq-ok, fail_if-true, fetch-some,
  fetch, fetch-eq-ok, not_found, already_in_universe, value_too_long, unique_violation,
}
use terminal_army_go.Store.Rows.{Planet, Universe, World}
use terminal_army_go.Store.Planets.{find_universe, get_planet_by_coord, get_universe}
use terminal_army_go.Store.Colonies.{
  code_width, create_planet, insert_planet, planets_in_order, get_planet_by_code, is_some,
  is_some-false, list_planets_by_owner, new_planet,
}
use terminal_army_go.Store.Users.{set_current_universe}
use terminal_army_go.Svc.Universe.{
  Dice, homeworld_row, is_unique_violation, join_universe, max_attempts, settle_at, settled_in,
  try_slots,
}

find_universe-id :
    (k : ℕ) (us : List Universe) {u : Universe} → find_universe k us ≡ some u → u.id ≡ k
find_universe-id k [] h = cc
find_universe-id k (v ∷ us) {u} h = ground (arith, find_universe-id k us {u = u})

module _ {F : Type 0} where
  -- A new planet has a code and a slot that no other planet has.
  abbrev pub Fresh : Planet F → World F → World F → Type 0
  Fresh p w w' =
      (w'.planets ≡ w.planets ++ (p ∷ []))
      × (w'.universes ≡ w.universes)
      × (get_planet_by_code p.code w.planets ≡ none)
      × (get_planet_by_coord p.universe_id p.galaxy p.system p.position w ≡ none)

  pub create_planet-eq-ok :
      (char_count : String → ℕ) (row p : Planet F) (w w' : World F)
      → create_planet char_count row w ≡ ok (p, w')
      → (p ≡ new_planet w.next_planet row) × Fresh p w w'
  unfolding create_planet get_planet_by_coord
  create_planet-eq-ok char_count row p w w' h =
      let long = ltb code_width (char_count row.code) in
      let (_, w1, e1, h1) = >>=-eq-ok (fail_if long value_too_long) _ w h in
      let (_, s1) = fail_if-eq-ok long value_too_long w w1 e1 in
      let used = is_some (get_planet_by_code row.code w1.planets) in
      let (_, w2, e2, h2) = >>=-eq-ok (fail_if used unique_violation) _ w1 h1 in
      let (new_code, s2) = fail_if-eq-ok used unique_violation w1 w2 e2 in
      let taken =
        is_some (get_planet_by_coord row.universe_id row.galaxy row.system row.position w2) in
      let (_, w3, e3, h3) = >>=-eq-ok (fail_if taken unique_violation) _ w2 h2 in
      let (free, s3) = fail_if-eq-ok taken unique_violation w2 w3 e3 in
      let made : p ≡ new_planet w.next_planet row =
        sym (ok_result h3) ∙ ap (λ (v : World F). new_planet v.next_planet row) (s3 ∙ s2 ∙ s1) in
      (
        made,
        subst (λ (q : Planet F). Fresh q w w') (sym made)
            (
              ap (λ (v : World F). v.planets) (sym (ok_state h3))
                  ∙ ap (λ (v : World F). v.planets ++ (new_planet v.next_planet row ∷ []))
                      (s3 ∙ s2 ∙ s1),
              ap (λ (v : World F). v.universes) (sym (ok_state h3))
                  ∙ ap (λ (v : World F). v.universes) (s3 ∙ s2 ∙ s1),
              ap (λ (v : World F). get_planet_by_code row.code v.planets) (sym s1)
                  ∙ is_some-false (get_planet_by_code row.code w1.planets) new_code,
              ap (get_planet_by_coord row.universe_id row.galaxy row.system row.position)
                    (sym (s2 ∙ s1))
                  ∙ is_some-false _ free,
            ),
      )

  pub after_code :
      {A : Type 0} (o : Option A) (n : Result (Planet F × World F))
      (s : A → Result (Planet F × World F)) {r : Planet F × World F}
      → (elim o [ none ↦ n | some a ↦ s a ]) ≡ ok r
      → (n ≡ ok r) ⊎ ((a : A) × (s a ≡ ok r))
  after_code none n s h = inl h
  after_code (some a) n s h = inr (a, h)

  pub by_verdict :
      (b : Bool) (rest failed : Result (Planet F × World F)) {r : Planet F × World F}
      → (elim b [ true ↦ rest | false ↦ failed ]) ≡ ok r
      → (failed ≡ ok r) ⊎ (rest ≡ ok r)
  by_verdict true rest failed h = inr h
  by_verdict false rest failed h = inl h

  pub after_attempt :
      (attempt rest : Result (Planet F × World F)) {r : Planet F × World F}
      → elim attempt [
        | ok made ↦ ok made
        | err e ↦ elim (is_unique_violation e) [ true ↦ rest | false ↦ err e ]
      ]
        ≡ ok r
      → (attempt ≡ ok r) ⊎ (rest ≡ ok r)
  after_attempt (ok made) rest h = inl h
  after_attempt (err e) rest {r} h = by_verdict (is_unique_violation e) rest (err e) {r = r} h

  -- The planet is the user's, in the universe, at a position from 4 to 12, with a code and a slot of
  -- its own.
  abbrev pub Settled : ℕ → ℕ → Planet F → World F → World F → Type 0
  Settled user u p w w' =
      (p.owner_user_id ≡ user)
      × (p.universe_id ≡ u)
      × (pos 4 ≤ℤ p.position)
      × (p.position ≤ℤ pos 12)
      × Fresh p w w'

  pub set_current_universe-Settled :
      (char_count : String → ℕ) (user u : ℕ) (row p : Planet F) (w w1 : World F)
      → row.owner_user_id ≡ user
      → row.universe_id ≡ u
      → pos 4 ≤ℤ row.position
      → row.position ≤ℤ pos 12
      → create_planet char_count row w ≡ ok (p, w1)
      → Settled user u p w (set_current_universe user u w1)
  unfolding set_current_universe
  set_current_universe-Settled char_count user u row p w w1 owner home low high h =
      let (made, fresh) = create_planet-eq-ok char_count row p w w1 h in
      (
        ap (λ (q : Planet F). q.owner_user_id) made ∙ owner,
        ap (λ (q : Planet F). q.universe_id) made ∙ home,
        subst (λ (q : Planet F). pos 4 ≤ℤ q.position) (sym made) low,
        subst (λ (q : Planet F). q.position ≤ℤ pos 12) (sym made) high,
        fresh,
      )

module _ {F : Type 0} where
  settled_in-insert_planet :
      (u : ℕ) (before : Planet F → Planet F → Bool) (p : Planet F) (ps : List (Planet F))
      → settled_in u (insert_planet before p ps) ≡ ((p.universe_id == u) || settled_in u ps)
  unfolding settled_in insert_planet
  settled_in-insert_planet u before p [] = refl
  settled_in-insert_planet u before p (q ∷ ps) =
      ground (arith, settled_in-insert_planet u before p ps)

  settled_in-planets_in_order :
      (u : ℕ) (before : Planet F → Planet F → Bool) (ps : List (Planet F))
      → settled_in u (planets_in_order before ps) ≡ settled_in u ps
  unfolding settled_in planets_in_order
  settled_in-planets_in_order u before [] = refl
  settled_in-planets_in_order u before (p ∷ ps) =
      settled_in-insert_planet u before p (planets_in_order before ps)
      ∙ ap (λ b. (p.universe_id == u) || b) (settled_in-planets_in_order u before ps)

  settled_in-select :
      (user u : ℕ) (p : Planet F) (ps : List (Planet F))
      → p.owner_user_id ≡ user
      → p.universe_id ≡ u
      → settled_in u (select (λ q. q.owner_user_id == user) (ps ++ (p ∷ []))) ≡ true
  unfolding settled_in
  settled_in-select user u p [] owner home = ground arith
  settled_in-select user u p (q ∷ ps) owner home =
      ground (arith, settled_in-select user u p ps owner home)

-- `homePosLo` and `homePosHi`
pub home_position :
    (x : ℤ) → (pos 0 ≤ℤ x) × (x <ℤ pos 9) → (pos 4 ≤ℤ (x +ℤ pos 4)) × ((x +ℤ pos 4) ≤ℤ pos 12)
home_position x (low, high) = (omega int_laws, omega int_laws)

-- The contract of `Intn`: a number below its argument.
abbrev pub Fair : {S : Type 0} → (ℤ → S → ℤ × S) → Type 0
Fair {S} intn = (n : ℤ) (s : S) → pos 0 <ℤ n → (pos 0 ≤ℤ (intn n s).0) × ((intn n s).0 <ℤ n)

module _ {S : Type 0} (dice : Dice S) (fl : Float64) where
  open fl use {F}
  open dice use {intn, char_count}

  pub settle_at-Settled :
      (user u : ℕ) (row p : Planet F) (w w' : World F)
      → row.owner_user_id ≡ user
      → row.universe_id ≡ u
      → pos 4 ≤ℤ row.position
      → row.position ≤ℤ pos 12
      → settle_at dice fl user u row w ≡ ok (p, w')
      → Settled user u p w w'
  unfolding settle_at
  settle_at-Settled user u row p w w' owner home low high h =
      let (made, w1, e, h1) = >>=-eq-ok (create_planet char_count row) _ w h in
      let stored : create_planet char_count row w ≡ ok (p, w1) =
        e ∙ ap (λ (q : Planet F). ok (q, w1)) (ok_result h1) in
      subst (λ (v : World F). Settled user u p w v) (ok_state h1)
        (set_current_universe-Settled char_count user u row p w w1 owner home low high stored)

  pub try_slots-Settled :
      (n : ℕ) (now : ℤ) (user : ℕ) (u : Universe) (s : S) (p : Planet F) (w w' : World F)
      → Fair intn
      → try_slots dice fl n now user u s w ≡ ok (p, w')
      → Settled user u.id p w w'
  unfolding try_slots homeworld_row
  try_slots-Settled zero now user u s p w w' fair h = cc
  try_slots-Settled (suc n) now user u s p w w' fair h =
      elim (after_code (generate_planet_attributes fl intn _ _) _ _ h) [
        | inl skipped ↦ try_slots-Settled n now user u _ p w w' fair skipped
        | inr ((attrs, s4), tried) ↦
            let (low, high) = home_position _ (fair (pos 9) _ (omega int_laws)) in
            elim (after_attempt (settle_at dice fl user u.id _ w) _ tried) [
              | inl made ↦ settle_at-Settled user u.id _ p w w' refl refl low high made
              | inr next ↦ try_slots-Settled n now user u _ p w w' fair next
            ]
      ]

  -- When a player joins a universe and `Intn` keeps its contract, the universe exists, the player had
  -- no planet in it, and the new planet is the player's, in that universe, at a position from 4 to 12,
  -- with a code and a slot that no planet had; it is the only planet that is added.
  pub join_universe-Settled :
      (now : ℤ) (user universe_id : ℕ) (s : S) (p : Planet F) (w w' : World F)
      → Fair intn
      → join_universe dice fl now user universe_id s w ≡ ok (p, w')
      → ((u : Universe) × (get_universe universe_id w ≡ some u))
        × (settled_in universe_id (list_planets_by_owner user w) ≡ false)
        × Settled user universe_id p w w'
  unfolding join_universe get_universe
  join_universe-Settled now user universe_id s p w w' fair h =
      let (u, w1, e1, h1) = >>=-eq-ok (fetch (get_universe universe_id) not_found) _ w h in
      let (found, s1) = fetch-eq-ok (get_universe universe_id) not_found w w1 e1 in
      let there = settled_in universe_id (list_planets_by_owner user w1) in
      let (_, w2, e2, h2) = >>=-eq-ok (fail_if there already_in_universe) _ w1 h1 in
      let (new, s2) = fail_if-eq-ok there already_in_universe w1 w2 e2 in
      let settled = try_slots-Settled max_attempts now user u s p w2 w' fair h2 in
      (
        (u, found),
        ap (λ (v : World F). settled_in universe_id (list_planets_by_owner user v)) (sym s1) ∙ new,
        subst (λ (v : World F). Settled user universe_id p v w') (s2 ∙ s1)
            (subst (λ (k : ℕ). Settled user k p w2 w')
              (find_universe-id universe_id w.universes {u = u} found) settled),
      )

  owner-settled_in :
      (user u : ℕ) (p : Planet F) (w w' : World F)
      → Settled user u p w w'
      → settled_in u (list_planets_by_owner user w') ≡ true
  unfolding list_planets_by_owner
  owner-settled_in user u p w w' (owner, home, _, _, (planets, _, _, _)) =
      settled_in-planets_in_order u _ (select (λ q. q.owner_user_id == user) w'.planets)
      ∙ ap (λ ps. settled_in u (select (λ q. q.owner_user_id == user) ps)) planets
      ∙ settled_in-select user u p w.planets owner home

  -- When a player has joined a universe and `Intn` keeps its contract, joining it again, at any time and
  -- with any random numbers, fails with `ErrAlreadyInUniverse`.
  pub join_universe_once :
      (now later : ℤ) (user universe_id : ℕ) (s s' : S) (p : Planet F) (w w' : World F)
      → Fair intn
      → join_universe dice fl now user universe_id s w ≡ ok (p, w')
      → join_universe dice fl later user universe_id s' w' ≡ err already_in_universe
  unfolding join_universe get_universe
  join_universe_once now later user universe_id s s' p w w' fair h =
      let ((u, found), new, settled) = join_universe-Settled now user universe_id s p w w' fair h in
      let (_, _, _, _, (_, universes, _, _)) = settled in
      fetch-some (get_universe universe_id) u not_found _ w'
        (ap (find_universe universe_id) universes ∙ found)
      ∙ fail_if-true _ already_in_universe _ w' (owner-settled_in user universe_id p w w' settled)
