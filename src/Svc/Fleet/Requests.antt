-- ===== src/Svc/Fleet/Requests.antt =====
-- What a request that passes the checks of `Dispatch` is (`internal/svc/fleet.go`).
use Prim.Native.String.{String}
use mathlib.Core.Path.{subst}
use text.Mathlib.Text.{◌==◌ as str_eq}
use terminal_army_go.Base.{◌≡◌, refl, ap, not, ◌||◌, [], ◌∷◌, Bool-cases, inl, inr, arith}
use terminal_army_go.Int.{ℤ, pos, ◌≤ℤ◌, ltb_ℤ, leb_ℤ}
use terminal_army_go.Dict.{Dict, has, insert}
use terminal_army_go.Game.Ships.{ship_stats}
use terminal_army_go.Store.Tx.{Result, ok, err, err≢ok}
use terminal_army_go.Store.Counts.{Distinct, AllPositive, insert-Distinct, insert-AllPositive}
use terminal_army_go.Svc.Fleet.{
  Cargo, DispatchRequest, Flight, ◌then_ok◌, cargo_from, checked_request, chosen_speed,
  header_error, no_cargo, ships_error, speed_error, typed_ships_from,
}

then_ok-eq-ok :
    {A B : Type 0} (m : Result A) (f : A → Result B) {b : B}
    → (m then_ok f) ≡ ok b
    → (a : A) × (m ≡ ok a) × (f a ≡ ok b)
then_ok-eq-ok (ok a) f h = (a, refl, h)
then_ok-eq-ok (err e) f h = cc

ok-injective : {A : Type 0} {a b : A} → ◌≡◌ {A = Result A} (ok a) (ok b) → a ≡ b
ok-injective {A} {a} {b} h = ap (λ (r : Result A). elim r [ ok x ↦ x | err _ ↦ a ]) h

-- The amounts are not negative.
abbrev pub NonNegCargo : Cargo → Type 0
NonNegCargo c = (pos 0 ≤ℤ c.metal) × (pos 0 ≤ℤ c.crystal) × (pos 0 ≤ℤ c.deuterium)

typed_ships_from-typed :
    (normalize : String → String) (typed ships out : Dict ℤ)
    → Distinct typed
    → AllPositive typed
    → typed_ships_from normalize typed ships ≡ ok out
    → Distinct out × AllPositive out
unfolding typed_ships_from
typed_ships_from-typed normalize typed [] out d p h =
    subst (λ m. Distinct m × AllPositive m) (ok-injective h) (d, p)
typed_ships_from-typed normalize typed ((k, count) ∷ ships) out d p h =
    elim (Bool-cases (leb_ℤ count (pos 0))) [
      | inl skipped ↦ typed_ships_from-typed normalize typed ships out d p (rw skipped at h)
      | inr counted ↦ elim (Bool-cases (not (has (normalize k) ship_stats))) [
        | inl unknown ↦ absurd (err≢ok (rw (counted, unknown) at h))
        | inr known ↦
            typed_ships_from-typed normalize (insert (normalize k) count typed) ships out
              (insert-Distinct (normalize k) count typed d)
              (insert-AllPositive (normalize k) count typed (ground arith) p)
              (rw (counted, known) at h)
      ]
    ]

cargo_from-NonNegCargo :
    (normalize : String → String) (c : Cargo) (cargo : Dict ℤ) (out : Cargo)
    → NonNegCargo c
    → cargo_from normalize c cargo ≡ ok out
    → NonNegCargo out
unfolding cargo_from
cargo_from-NonNegCargo normalize c [] out n h = subst NonNegCargo (ok-injective h) n
cargo_from-NonNegCargo normalize c ((k, v) ∷ cargo) out n h = elim (Bool-cases (ltb_ℤ v (pos 0))) [
  | inl negative ↦ absurd (err≢ok (rw negative at h))
  | inr counted ↦ elim (Bool-cases (str_eq (normalize k) "metal")) [
    | inl is_metal ↦
        cargo_from-NonNegCargo normalize (record c { metal = v }) cargo out (ground arith, n.1, n.2)
          (rw (counted, is_metal) at h)
    | inr not_metal ↦ elim (Bool-cases (str_eq (normalize k) "crystal")) [
      | inl is_crystal ↦
          cargo_from-NonNegCargo normalize (record c { crystal = v }) cargo out
            (n.0, ground arith, n.2) (rw (counted, not_metal, is_crystal) at h)
      | inr not_crystal ↦ elim (Bool-cases (str_eq (normalize k) "deuterium")) [
        | inl is_deuterium ↦
            cargo_from-NonNegCargo normalize (record c { deuterium = v }) cargo out
              (n.0, n.1, ground arith) (rw (counted, not_metal, not_crystal, is_deuterium) at h)
        | inr unknown ↦ absurd (err≢ok (rw (counted, not_metal, not_crystal, unknown) at h))
      ]
    ]
  ]
]

-- What the checks of a request establish: each type of ship is named once and with a positive count,
-- no amount of cargo is negative, and the speed is from 10 to 100 percent.
abbrev pub Checked : Flight → Type 0
Checked f =
    Distinct f.ships
    × AllPositive f.ships
    × NonNegCargo f.cargo
    × (pos 10 ≤ℤ f.speed_percent)
    × (f.speed_percent ≤ℤ pos 100)

speed_error-eq-ok :
    (percent : ℤ) → speed_error percent ≡ ok tt → (pos 10 ≤ℤ percent) × (percent ≤ℤ pos 100)
unfolding speed_error
speed_error-eq-ok percent h =
    elim (Bool-cases (ltb_ℤ percent (pos 10) || ltb_ℤ (pos 100) percent)) [
      | inl out ↦ absurd (err≢ok (rw out at h))
      | inr inside ↦ (ground arith, ground arith)
    ]

-- A request that passes the checks is a flight of the mission, origin and target that it asks for.
pub checked_request-Checked :
    (normalize : String → String) (request : DispatchRequest) (f : Flight)
    → checked_request normalize request ≡ ok f
    → Checked f × (f.origin_planet_id ≡ request.origin_planet_id)
unfolding checked_request
checked_request-Checked normalize request f h =
    let (_, _, h1) = then_ok-eq-ok (header_error normalize request) _ h in
    let (typed, e2, h2) = then_ok-eq-ok (typed_ships_from normalize [] request.ships) _ h1 in
    let (_, _, h3) = then_ok-eq-ok (ships_error (normalize request.mission) typed) _ h2 in
    let (cargo, e4, h4) = then_ok-eq-ok (cargo_from normalize no_cargo request.cargo) _ h3 in
    let (_, e5, h5) = then_ok-eq-ok (speed_error (chosen_speed request.speed_percent)) _ h4 in
    let (distinct, positive) = typed_ships_from-typed normalize [] request.ships typed tt tt e2 in
    let amounts =
      cargo_from-NonNegCargo normalize no_cargo request.cargo cargo
        (omega arith, omega arith, omega arith) e4 in
    let (slow, fast) = speed_error-eq-ok (chosen_speed request.speed_percent) e5 in
    subst (λ (g : Flight). Checked g × (g.origin_planet_id ≡ request.origin_planet_id))
      (ok-injective h5) ((distinct, positive, amounts, slow, fast), refl)
