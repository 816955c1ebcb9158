-- ===== src/Store/Tx.antt =====
-- Transactions: a result and a new state, or an error. `store.InTx` rolls back on an error.
use Prim.Native.String.{String}
use mathlib.Core.Option.{some-injective}
use terminal_army_go.Base.{◌≡◌, refl, ap, arith, Bool, true, false, Option, none, some, List}
use terminal_army_go.Int.{ℤ}

-- The errors that the services and the scheduler return.
pub data Error : Type 0 where
  not_found forbidden insufficient_resources queue_busy already_resolved : Error
  prerequisite_not_met : List (String × ℤ) → Error
  unknown_key : String → Error
  count_too_small count_too_large missing_planet_id invalid_queue_type : Error
  unknown_mission unknown_ship unknown_cargo_key origin_required target_out_of_range : Error
  no_ships missing_hull negative_cargo bad_speed_percent target_is_origin : Error
  not_enough_ships outside_universe cargo_exceeds_capacity not_recallable : Error
  message_incomplete message_too_long message_to_self : Error
  universe_full already_in_universe bad_planet_name bad_coordinates : Error
  bad_tag bad_name description_too_long in_alliance tag_taken founder_stays : Error
  unknown_stored_mission invalid_position slot_taken : Error
  value_too_long value_out_of_range no_matching_constraint unique_violation : Error

pub data Result {ℓ} (A : Type ℓ) : Type ℓ where
  ok : A → Result A
  err : Error → Result A

abbrev pub Tx : Type 0 → Type 0 → Type 0
Tx W A = W → Result (A × W)

infixl 5 ◌>>=◌ ◌>>◌
abbrev pub ◌>>=◌ : {W A B : Type 0} → Tx W A → (A → Tx W B) → Tx W B
◌>>=◌ m f w = elim (m w) [ err e ↦ err e | ok (a, w') ↦ f a w' ]

abbrev pub ◌>>◌ : {W A B : Type 0} → Tx W A → Tx W B → Tx W B
m >> k = m >>= λ _. k

abbrev pub pure : {W A : Type 0} → A → Tx W A
pure a w = ok (a, w)

abbrev pub fail : {W A : Type 0} → Error → Tx W A
fail e w = err e

abbrev pub gets : {W A : Type 0} → (W → A) → Tx W A
gets f w = ok (f w, w)

abbrev pub modify : {W : Type 0} → (W → W) → Tx W (Unit {0})
modify f w = ok (tt, f w)

-- `if bad { return err }`
abbrev pub fail_if : {W : Type 0} → Bool → Error → Tx W (Unit {0})
fail_if true e w = err e
fail_if false e w = ok (tt, w)

abbrev pub or_fail : {W A : Type 0} → Option A → Error → Tx W A
or_fail none e w = err e
or_fail (some a) e w = ok (a, w)

-- A row that a query finds, or its error.
abbrev pub fetch : {W A : Type 0} → (W → Option A) → Error → Tx W A
fetch f e w = or_fail (f w) e w

-- `store.InTx`: the state after the call, which an error leaves as it was.
unfoldable pub in_tx : {W A : Type 0} → Tx W A → W → Result A × W
in_tx m w = elim (m w) [ ok (a, w') ↦ (ok a, w') | err e ↦ (err e, w) ]

-- Inversion of a successful step.
invert :
    {W A B : Type 0} (x : Result (A × W)) (f : A → Tx W B) {r : B × W}
    → (elim x [ err e ↦ err e | ok (a, w') ↦ f a w' ]) ≡ ok r
    → (a : A) × (w' : W) × (x ≡ ok (a, w')) × (f a w' ≡ ok r)
invert (ok (a, w')) f h = (a, w', refl, h)
invert (err e) f h = cc

pub >>=-eq-ok :
    {W A B : Type 0} (m : Tx W A) (f : A → Tx W B) (w : W) {r : B × W}
    → (m >>= f) w ≡ ok r
    → (a : A) × (w' : W) × (m w ≡ ok (a, w')) × (f a w' ≡ ok r)
>>=-eq-ok m f w h = invert (m w) f h

pub fail_if-eq-ok :
    {W : Type 0} (b : Bool) (e : Error) (w w' : W)
    → fail_if b e w ≡ ok (tt, w')
    → (b ≡ false) × (w' ≡ w)
fail_if-eq-ok true e w w' h = cc
fail_if-eq-ok false e w w' h = (refl, ground arith)

pub or_fail-eq-ok :
    {W A : Type 0} (o : Option A) (e : Error) (w w' : W) {a : A}
    → or_fail o e w ≡ ok (a, w')
    → (o ≡ some a) × (w' ≡ w)
or_fail-eq-ok none e w w' h = cc
or_fail-eq-ok (some x) e w w' h = (ground arith, ground arith)

pub fetch-eq-ok :
    {W A : Type 0} (f : W → Option A) (e : Error) (w w' : W) {a : A}
    → fetch f e w ≡ ok (a, w')
    → (f w ≡ some a) × (w' ≡ w)
fetch-eq-ok f e w w' h = or_fail-eq-ok (f w) e w w' h

state_in : {W A : Type 0} → W → Result (A × W) → W
state_in w (ok (_, w')) = w'
state_in w (err e) = w

result_in : {W A : Type 0} → A → Result (A × W) → A
result_in a (ok (b, _)) = b
result_in a (err e) = a

-- Two successes with one result have one state.
pub ok_state :
    {W A : Type 0} {a b : A} {w w' : W} → ◌≡◌ {A = Result (A × W)} (ok (a, w)) (ok (b, w')) → w ≡ w'
unfolding state_in
ok_state {W} {A} {a} {b} {w} {w'} h = ap (λ (r : Result (A × W)). (state_in w r)) h

pub ok_result :
    {W A : Type 0} {a b : A} {w w' : W} → ◌≡◌ {A = Result (A × W)} (ok (a, w)) (ok (b, w')) → a ≡ b
unfolding result_in
ok_result {W} {A} {a} {b} {w} {w'} h = ap (λ (r : Result (A × W)). (result_in a r)) h

pub err≢ok : {B : Type 0} {e : Error} {r : B} → ¬ (◌≡◌ {A = Result B} (err e) (ok r))
err≢ok h = cc

-- What a step does, from what its test or its query gives.
pub or_fail-some :
    {W A B : Type 0} (o : Option A) (a : A) (e : Error) (g : A → Tx W B) (w : W)
    → o ≡ some a
    → (or_fail o e >>= g) w ≡ g a w
or_fail-some none a e g w h = cc
or_fail-some (some x) a e g w h = ap (λ y. g y w) (some-injective x a h)

pub fetch-some :
    {W A B : Type 0} (f : W → Option A) (a : A) (e : Error) (g : A → Tx W B) (w : W)
    → f w ≡ some a
    → (fetch f e >>= g) w ≡ g a w
fetch-some f a e g w h = or_fail-some (f w) a e g w h

-- A check that a command has passed.
pub fail_if-passed :
    {W B : Type 0} (b : Bool) (e : Error) (m : Tx W B) (w : W) {r : B × W}
    → (fail_if b e >> m) w ≡ ok r
    → m w ≡ ok r
fail_if-passed true e m w h = cc
fail_if-passed false e m w h = h

pub or_fail-none :
    {W A B : Type 0} (o : Option A) (e : Error) (g : A → Tx W B) (w : W)
    → o ≡ none
    → (or_fail o e >>= g) w ≡ err e
or_fail-none none e g w h = refl
or_fail-none (some x) e g w h = cc

pub fetch-none :
    {W A B : Type 0} (f : W → Option A) (e : Error) (g : A → Tx W B) (w : W)
    → f w ≡ none
    → (fetch f e >>= g) w ≡ err e
fetch-none f e g w h = or_fail-none (f w) e g w h

pub fail_if-false :
    {W B : Type 0} (b : Bool) (e : Error) (g : Tx W B) (w : W)
    → b ≡ false
    → (fail_if b e >> g) w ≡ g w
fail_if-false true e g w h = cc
fail_if-false false e g w h = refl

pub fail_if-true :
    {W B : Type 0} (b : Bool) (e : Error) (g : Tx W B) (w : W)
    → b ≡ true
    → (fail_if b e >> g) w ≡ err e
fail_if-true true e g w h = refl
fail_if-true false e g w h = cc
