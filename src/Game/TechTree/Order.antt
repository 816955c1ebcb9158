-- ===== src/Game/TechTree/Order.antt =====
-- The technology tree can be climbed: no technology waits for itself, and none asks for more than
-- the levels below it can give (`TechPrerequisites` and `TechTreeParent`).
use mathlib.Core.Path.{subst}
use terminal_army_go.Base.{
  ℕ, ◌≡◌, sym, ◌⊎◌, inl, inr, ◌<◌, true, none, some, List, [], ◌∷◌, All, arith, Option-cases,
}
use terminal_army_go.Int.{ℤ, pos, ◌≤ℤ◌}
use terminal_army_go.Dict.{Dict, has, lookup, lookup-All, level}
use terminal_army_go.Game.Techs.{TechType, TechPrereqEntry, research_costs, tech_prerequisites}
use terminal_army_go.Game.TechTree.{or_empty, reqs_of, check_research_prereqs}
use terminal_army_go.Game.TechTree.Prerequisites.{ResearchMet, check_research_prereqs_iff}

abbrev ranks : Dict ℕ
ranks =
    ("laser", 1)
    ∷ ("shielding", 1)
    ∷ ("combustion_drive", 1)
    ∷ ("impulse_drive", 1)
    ∷ ("astrophysics", 1)
    ∷ ("ion", 2)
    ∷ ("hyperspace", 2)
    ∷ ("plasma", 3)
    ∷ ("hyperspace_drive", 3)
    ∷ []

-- How far a technology is from the ones that need nothing but a laboratory.
unfoldable pub tech_rank : TechType → ℕ
tech_rank t = elim (lookup t ranks) [ none ↦ 0 | some n ↦ n ]

-- What one requirement of `t` asks at most.
abbrev Modest : TechType → TechPrereqEntry → Type 0
Modest t req =
    (req.lab_level ≤ℤ pos 7)
    × ((pos 1 ≤ℤ req.lab_level)
        ⊎ ((has req.tech research_costs ≡ true)
            × (tech_rank req.tech < tech_rank t)
            × (req.level ≤ℤ pos 10)))

tech_prerequisites-Modest : All (λ e. All (Modest e.0) e.1) tech_prerequisites
unfolding tech_prerequisites tech_rank research_costs
tech_prerequisites-Modest = ground arith

-- A requirement of `t` is met once the laboratory is at level 7 and all lower ranks are at level 10.
module _ (t : TechType) (lab : ℤ) (techs : Dict ℤ) (enough_lab : pos 7 ≤ℤ lab)
    (lower_done : All
      (λ e. tech_rank e.0 < tech_rank t → pos 10 ≤ℤ level techs e.0)
      research_costs) where
  known_done :
      (s : TechType)
      → has s research_costs ≡ true
      → tech_rank s < tech_rank t
      → pos 10 ≤ℤ level techs s
  known_done s known = elim (Option-cases (lookup s research_costs)) [
    | inl missing ↦ absurd (ground (arith, missing))
    | inr (cost, found) ↦
        lookup-All (λ k _. tech_rank k < tech_rank t → pos 10 ≤ℤ level techs k) s cost
          research_costs lower_done found
  ]

  Modest-ResearchMet : (req : TechPrereqEntry) → Modest t req → ResearchMet lab techs req
  Modest-ResearchMet req (lab_low, inl is_lab) = (λ _. omega arith, λ h. absurd (omega arith))
  Modest-ResearchMet req (lab_low, inr (known, lower, low)) =
      (λ _. omega arith, λ _. omega (arith, known_done req.tech known lower))

  prereqs_met :
      (reqs : List TechPrereqEntry) → All (Modest t) reqs → All (ResearchMet lab techs) reqs
  prereqs_met [] h = tt
  prereqs_met (req ∷ reqs) h = (Modest-ResearchMet req h.0, prereqs_met reqs h.1)

  -- No technology waits for itself or for one that waits for it: with the laboratory at level 7 and
  -- every technology of a lower rank at level 10, a technology passes its check.
  pub tech_tree_climbable : (check_research_prereqs t lab techs).0 ≡ true
  tech_tree_climbable = (check_research_prereqs_iff t lab techs).1 (prereqs_met _ reqs_modest)
    where
      reqs_modest : All (Modest t) (reqs_of t tech_prerequisites)
      reqs_modest = elim (Option-cases (lookup t tech_prerequisites)) [
        | inl missing ↦ subst (λ o. All (Modest t) (or_empty o)) (sym missing) tt
        | inr (reqs, found) ↦
            subst (λ o. All (Modest t) (or_empty o)) (sym found)
              (lookup-All (λ k rs. All (Modest k) rs) t reqs tech_prerequisites
                tech_prerequisites-Modest found)
      ]
