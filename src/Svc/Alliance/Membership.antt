-- ===== src/Svc/Alliance/Membership.antt =====
-- Who is a member of an alliance (`internal/svc/alliance.go`).
use Prim.Native.String.{String}
use mathlib.Core.Path.{subst}
use terminal_army_go.Base.{
  ℕ, suc, ◌≡◌, refl, sym, ap, ◌∙◌, ◌++◌, Bool, true, false, ◌||◌, List, [], ◌∷◌, select, All, none,
  arith, if◌then◌else◌,
}
use terminal_army_go.Int.{ℤ}
use terminal_army_go.Store.Tx.{
  Tx, ok, ◌>>◌, pure, in_tx, >>=-eq-ok, fail_if, fail_if-eq-ok, fail_if-passed, ok_state,
  unique_violation,
}
use terminal_army_go.Store.Colonies.{is_some, is_some-false}
use terminal_army_go.Store.Alliances.{
  Alliance, AllianceMember, Roster, add_alliance_member, create_alliance, new_alliance,
  find_alliance, find_name, get_alliance_by_tag, find_member, get_alliance, remove_alliance_member,
}
use terminal_army_go.Svc.Alliance.{Texts, found_alliance, join_alliance, leave_alliance}

-- The commands on alliances.
pub data Command : Type 0 where
  found : ℤ → ℕ → String → String → String → Command
  join : ℤ → ℕ → ℕ → Command
  leave : ℕ → ℕ → Command

unfoldable pub run_command : Texts → Command → Tx Roster (Unit {0})
run_command texts (found db_now user tag name description) = do
  found_alliance texts db_now user tag name description
  pure tt
run_command texts (join db_now user k) = join_alliance db_now user k
run_command texts (leave user k) = leave_alliance user k

-- The state after commands, each of which may fail.
unfoldable pub play : Texts → List Command → Roster → Roster
unfolding in_tx
play texts [] w = w
play texts (c ∷ commands) w = play texts commands (in_tx (run_command texts c) w).1

-- No user has two memberships.
abbrev pub OneEach : List AllianceMember → Type 0
OneEach [] = Unit
OneEach (m ∷ ms) = (find_member m.user_id ms ≡ none) × OneEach ms

-- The alliance of the membership is there.
abbrev Housed : List Alliance → AllianceMember → Type 0
Housed alliances m = is_some (find_alliance m.alliance_id alliances) ≡ true

abbrev pub Orderly : Roster → Type 0
Orderly w = OneEach w.members × All (Housed w.alliances) w.members

module _ {ℓ κ} {A : Type ℓ} where
  All-snoc : (P : A → Type κ) (xs : List A) (x : A) → All P xs → P x → All P (xs ++ (x ∷ []))
  All-snoc P [] x h p = (p, tt)
  All-snoc P (y ∷ xs) x (q, h) p = (q, All-snoc P xs x h p)

  All-imp : (P Q : A → Type κ) (xs : List A) → ((x : A) → P x → Q x) → All P xs → All Q xs
  All-imp P Q [] f h = tt
  All-imp P Q (y ∷ xs) f (q, h) = (f y q, All-imp P Q xs f h)

find_member-snoc :
    (v : ℕ) (ms : List AllianceMember) (m : AllianceMember)
    → find_member v ms ≡ none
    → ¬ (m.user_id ≡ v)
    → find_member v (ms ++ (m ∷ [])) ≡ none
find_member-snoc v [] m h other = ground arith
find_member-snoc v (x ∷ ms) m h other = ground (arith, find_member-snoc v ms m)

find_member-head :
    {v : ℕ} (x : AllianceMember) (ms : List AllianceMember)
    → x.user_id ≡ v
    → find_member v (x ∷ ms) ≡ none
    → ⊥
find_member-head x ms same h = ground arith

OneEach-snoc :
    (ms : List AllianceMember) (m : AllianceMember)
    → find_member m.user_id ms ≡ none
    → OneEach ms
    → OneEach (ms ++ (m ∷ []))
OneEach-snoc [] m h each = (refl, tt)
OneEach-snoc (x ∷ ms) m h (alone, each) = (
  find_member-snoc x.user_id ms m alone (λ same. find_member-head x ms (sym same) h),
  OneEach-snoc ms m (ground arith) each,
)

find_member-select :
    (v : ℕ) (p : AllianceMember → Bool) (ms : List AllianceMember)
    → find_member v ms ≡ none
    → find_member v (select p ms) ≡ none
find_member-select v p [] h = refl
find_member-select v p (x ∷ ms) h = ground (arith, find_member-select v p ms)

OneEach-select :
    (p : AllianceMember → Bool) (ms : List AllianceMember) → OneEach ms → OneEach (select p ms)
OneEach-select p [] each = tt
OneEach-select p (x ∷ ms) (alone, each) =
    elim (p x) as (λ b. OneEach (if b then x ∷ select p ms else select p ms)) [
      | true ↦ (find_member-select x.user_id p ms alone, OneEach-select p ms each)
      | false ↦ OneEach-select p ms each
    ]

All-select :
    (P : AllianceMember → Type 0) (p : AllianceMember → Bool) (ms : List AllianceMember)
    → All P ms
    → All P (select p ms)
All-select P p [] h = tt
All-select P p (x ∷ ms) (q, h) =
    elim (p x) as (λ b. All P (if b then x ∷ select p ms else select p ms)) [
      | true ↦ (q, All-select P p ms h)
      | false ↦ All-select P p ms h
    ]

find_alliance-snoc :
    (k : ℕ) (rows : List Alliance) (a : Alliance)
    → is_some (find_alliance k rows) ≡ true
    → is_some (find_alliance k (rows ++ (a ∷ []))) ≡ true
find_alliance-snoc k [] a h = cc
find_alliance-snoc k (x ∷ rows) a h = ground (arith, find_alliance-snoc k rows a)

find_alliance-last :
    (rows : List Alliance) (a : Alliance) → is_some (find_alliance a.id (rows ++ (a ∷ []))) ≡ true
find_alliance-last [] a = ground arith
find_alliance-last (x ∷ rows) a = ground (arith, find_alliance-last rows a)

pub add_alliance_member-Orderly :
    (db_now : ℤ) (k user : ℕ) (role : String) (w w' : Roster)
    → Orderly w
    → is_some (get_alliance k w) ≡ true
    → add_alliance_member db_now k user role w ≡ ok (tt, w')
    → Orderly w'
unfolding add_alliance_member get_alliance
add_alliance_member-Orderly db_now k user role w w' (each, housed) there h =
    let taken = is_some (find_member user w.members) in
    let (_, w1, e1, h1) = >>=-eq-ok (fail_if taken unique_violation) _ w h in
    let (free, s1) = fail_if-eq-ok taken unique_violation w w1 e1 in
    let row : AllianceMember = record {
      id = w.next_member;
      alliance_id = k;
      user_id = user;
      role = role;
      joined_at = db_now;
    } in
    let next : Roster → Roster = λ v. record v {
      members = v.members ++ (record row { id = v.next_member } ∷ []);
      next_member = suc v.next_member;
    } in
    subst Orderly (ap next (sym s1) ∙ ok_state h1) (
      OneEach-snoc w.members row (is_some-false (find_member user w.members) free) each,
      All-snoc (Housed w.alliances) w.members row housed there,
    )

pub remove_alliance_member-Orderly :
    (k user : ℕ) (w : Roster) → Orderly w → Orderly (remove_alliance_member k user w)
unfolding remove_alliance_member
remove_alliance_member-Orderly k user w (each, housed) =
    (OneEach-select _ w.members each, All-select (Housed w.alliances) _ w.members housed)

pub create_alliance-Orderly :
    (db_now : ℤ) (user : ℕ) (tag name description : String) (a : Alliance) (w w' : Roster)
    → Orderly w
    → create_alliance db_now user tag name description w ≡ ok (a, w')
    → Orderly w'
unfolding create_alliance get_alliance
create_alliance-Orderly db_now user tag name description a w w' (each, housed) h =
    let tag_used = is_some (get_alliance_by_tag tag w) in
    let name_used = is_some (find_name name w.alliances) in
    let h1 = fail_if-passed (tag_used || name_used) unique_violation _ w h in
    let row = new_alliance db_now w.next_alliance user tag name description in
    let next : Roster = record w {
      alliances = w.alliances ++ (row ∷ []);
      next_alliance = suc w.next_alliance;
    } in
    let (_, w2, e2, h2) =
      >>=-eq-ok (add_alliance_member db_now w.next_alliance user "leader") _ next h1 in
    let grown : All (Housed next.alliances) w.members =
      All-imp (Housed w.alliances) (Housed next.alliances) w.members
        (λ m. find_alliance-snoc m.alliance_id w.alliances row) housed in
    subst Orderly (ok_state h2) (
      add_alliance_member-Orderly db_now w.next_alliance user "leader" next w2 (each, grown)
        (find_alliance-last w.alliances row) e2)
