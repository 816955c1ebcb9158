-- ===== src/Svc/Galaxy/Index.antt =====
-- The index by position of a system's view, against the planets of the table
-- (`internal/svc/galaxy.go`).
use terminal_army_go.Base.{
  ℕ, ==→eq, ◌≡◌, refl, sym, ap, ◌∙◌, Bool, Bool-cases, true, false, inl, inr, List, [], ◌∷◌, select,
  Option, none, some, arith, if◌then◌else◌,
}
use terminal_army_go.Int.{ℤ, eqb_ℤ, ltb_ℤ, eq_of_parts}
use terminal_army_go.Store.Rows.{Planet, World}
use terminal_army_go.Store.Planets.{find_coord, get_planet_by_coord}
use terminal_army_go.Store.Colonies.{
  in_system, insert_planet, list_planets_in_system, planets_in_order,
}
use terminal_army_go.Svc.Galaxy.{by_pos}

eqb→eq : (a b : ℤ) → eqb_ℤ a b ≡ true → a ≡ b
eqb→eq a b h = ground (arith, eq_of_parts a b)

module _ {F : Type 0} where
  abbrev first_at : ℤ → List (Planet F) → Option (Planet F)
  first_at n [] = none
  first_at n (p ∷ ps) = if eqb_ℤ p.position n then some p else first_at n ps

  -- No two planets have one position.
  abbrev Apart : List (Planet F) → Type 0
  Apart [] = Unit
  Apart (p ∷ ps) = (first_at p.position ps ≡ none) × Apart ps

  last_match :
      (b : Bool) (p : Planet F) (o : Option (Planet F))
      → (b ≡ true → o ≡ none)
      → elim o as (λ _. Option (Planet F)) [ some q ↦ some q | none ↦ if b then some p else none ]
        ≡ (if b then some p else o)
  last_match true p none h = refl
  last_match true p (some q) h = absurd (let gone = h refl in cc)
  last_match false p none h = refl
  last_match false p (some q) h = refl

  by_pos-eq-first_at : (n : ℤ) (ps : List (Planet F)) → Apart ps → by_pos n ps ≡ first_at n ps
  unfolding by_pos
  by_pos-eq-first_at n [] apart = refl
  by_pos-eq-first_at n (p ∷ ps) (alone, apart) =
      ap
        (λ (o : Option (Planet F)). elim o [
          | some q ↦ some q
          | none ↦ if eqb_ℤ p.position n then some p else none
        ])
        (by_pos-eq-first_at n ps apart)
      ∙ last_match (eqb_ℤ p.position n) p (first_at n ps)
          (λ same. ap (λ k. first_at k ps) (sym (eqb→eq p.position n same)) ∙ alone)

  first_at-insert_planet :
      (before : Planet F → Planet F → Bool) (n : ℤ) (p : Planet F) (ps : List (Planet F))
      → first_at p.position ps ≡ none
      → first_at n (insert_planet before p ps) ≡ first_at n (p ∷ ps)
  unfolding insert_planet
  first_at-insert_planet before n p [] h = refl
  first_at-insert_planet before n p (q ∷ ps) h =
      ground (arith, first_at-insert_planet before n p ps)

  Apart-insert_planet :
      (before : Planet F → Planet F → Bool) (p : Planet F) (ps : List (Planet F))
      → first_at p.position ps ≡ none
      → Apart ps
      → Apart (insert_planet before p ps)
  unfolding insert_planet
  Apart-insert_planet before p [] h apart = (refl, tt)
  Apart-insert_planet before p (q ∷ ps) h (alone, apart) =
      elim (before q p) as (λ b. Apart (if b then q ∷ insert_planet before p ps else p ∷ q ∷ ps)) [
        | true ↦ (
          first_at-insert_planet before q.position p ps (ground (arith, h))
              ∙ ground (arith, h, alone),
          Apart-insert_planet before p ps (ground (arith, h)) apart,
        )
        | false ↦ (h, (alone, apart))
      ]

  planets_in_order-Apart :
      (before : Planet F → Planet F → Bool) (ps : List (Planet F))
      → Apart ps
      → ((n : ℤ) → first_at n (planets_in_order before ps) ≡ first_at n ps)
        × Apart (planets_in_order before ps)
  unfolding planets_in_order
  planets_in_order-Apart before [] apart = ((λ n. refl), tt)
  planets_in_order-Apart before (p ∷ ps) (alone, apart) =
      let (same, sorted) = planets_in_order-Apart before ps apart in
      let free = same p.position ∙ alone in
      (
        λ n.
            first_at-insert_planet before n p (planets_in_order before ps) free
            ∙ ap (λ (o : Option (Planet F)). if eqb_ℤ p.position n then some p else o) (same n),
        Apart-insert_planet before p (planets_in_order before ps) free sorted,
      )

  -- No two planets of the table have one coordinate.
  abbrev pub OwnSlots : List (Planet F) → Type 0
  OwnSlots [] = Unit
  OwnSlots (p ∷ ps) =
      (find_coord p.universe_id p.galaxy p.system p.position ps ≡ none) × OwnSlots ps

  first_at-select :
      (u : ℕ) (g s n : ℤ) (ps : List (Planet F))
      → first_at n (select (in_system u g s) ps) ≡ find_coord u g s n ps
  first_at-select u g s n [] = refl
  first_at-select u g s n (p ∷ ps) = ground (arith, first_at-select u g s n ps)

  Apart-select :
      (u : ℕ) (g s : ℤ) (ps : List (Planet F)) → OwnSlots ps → Apart (select (in_system u g s) ps)
  Apart-select u g s [] own = tt
  Apart-select u g s (p ∷ ps) (alone, own) = elim (Bool-cases (in_system u g s p)) [
    | inl here ↦
        let in_u : p.universe_id ≡ u = ==→eq p.universe_id u (ground (arith, here)) in
        let in_g : p.galaxy ≡ g = eqb→eq p.galaxy g (ground (arith, here)) in
        let in_s : p.system ≡ s = eqb→eq p.system s (ground (arith, here)) in
        rw here (
          first_at-select u g s p.position ps
              ∙ ap (λ x. find_coord x g s p.position ps) (sym in_u)
              ∙ ap (λ x. find_coord p.universe_id x s p.position ps) (sym in_g)
              ∙ ap (λ x. find_coord p.universe_id p.galaxy x p.position ps) (sym in_s)
              ∙ alone,
          Apart-select u g s ps own,
        )
    | inr away ↦ rw away (Apart-select u g s ps own)
  ]

  -- The index of the planets of a system finds what the table has at the coordinate.
  pub by_pos-list_planets_in_system :
      (u : ℕ) (g s n : ℤ) (w : World F)
      → OwnSlots w.planets
      → by_pos n (list_planets_in_system u g s w) ≡ get_planet_by_coord u g s n w
  unfolding list_planets_in_system get_planet_by_coord
  by_pos-list_planets_in_system u g s n w own =
      let (same, sorted) =
        planets_in_order-Apart (λ p q. ltb_ℤ p.position q.position)
          (select (in_system u g s) w.planets) (Apart-select u g s w.planets own) in
      by_pos-eq-first_at n _ sorted ∙ same n ∙ first_at-select u g s n w.planets
