-- ===== src/Store/Alliances.antt =====
-- Queries on alliances (`internal/store/alliances.go`). The two tables are a state of their own: no
-- other query of the game writes to them.
use Prim.Native.String.{String}
use text.Mathlib.Text.{◌==◌ as str_eq}
use terminal_army_go.Base.{
  ℕ, suc, ◌==◌, ◌++◌, not, ◌||◌, ◌&&◌, List, [], ◌∷◌, select, length, Option, none, some,
  if◌then◌else◌,
}
use terminal_army_go.Int.{ℤ}
use terminal_army_go.Store.Tx.{Tx, unique_violation, ◌>>=◌, ◌>>◌, pure, gets, modify, fail_if}
use terminal_army_go.Store.Colonies.{is_some}

pub record Alliance : Type 0 where
  pub id : ℕ
  pub tag : String
  pub name : String
  pub description : String
  pub founder_id : ℕ
  pub created_at : ℤ

pub record AllianceMember : Type 0 where
  pub id : ℕ
  pub alliance_id : ℕ
  pub user_id : ℕ
  pub role : String
  pub joined_at : ℤ

-- The tables `alliances` and `alliance_members`, and their sequences.
pub record Roster : Type 0 where
  pub alliances : List Alliance
  pub next_alliance : ℕ
  pub members : List AllianceMember
  pub next_member : ℕ

abbrev pub find_alliance : ℕ → List Alliance → Option Alliance
find_alliance k [] = none
find_alliance k (a ∷ rows) = if a.id == k then some a else find_alliance k rows

abbrev pub find_tag : String → List Alliance → Option Alliance
find_tag tag [] = none
find_tag tag (a ∷ rows) = if str_eq a.tag tag then some a else find_tag tag rows

abbrev pub find_name : String → List Alliance → Option Alliance
find_name name [] = none
find_name name (a ∷ rows) = if str_eq a.name name then some a else find_name name rows

abbrev pub find_member : ℕ → List AllianceMember → Option AllianceMember
find_member user [] = none
find_member user (m ∷ rows) = if m.user_id == user then some m else find_member user rows

-- `GetAlliance`
unfoldable pub get_alliance : ℕ → Roster → Option Alliance
get_alliance k w = find_alliance k w.alliances

-- `GetAllianceByTag`
unfoldable pub get_alliance_by_tag : String → Roster → Option Alliance
get_alliance_by_tag tag w = find_tag tag w.alliances

-- `GetUserAlliance`: a user has one membership, by the table's constraint.
unfoldable pub get_user_alliance : ℕ → Roster → Option Alliance
unfolding get_alliance
get_user_alliance user w = elim (find_member user w.members) [
  | none ↦ none
  | some m ↦ get_alliance m.alliance_id w
]

-- `CountAllianceMembers`
unfoldable pub count_alliance_members : ℕ → Roster → ℕ
count_alliance_members k w = length (select (λ m. m.alliance_id == k) w.members)

-- `ListAllianceMembers`; the rows are in the order in which they joined.
unfoldable pub list_alliance_members : ℕ → Roster → List AllianceMember
list_alliance_members k w = select (λ m. m.alliance_id == k) w.members

-- `AddAllianceMember`; the column `user_id` is unique.
unfoldable pub add_alliance_member : ℤ → ℕ → ℕ → String → Tx Roster (Unit {0})
add_alliance_member db_now k user role = do
  member ← gets (λ w. find_member user w.members)
  fail_if (is_some member) unique_violation
  modify (λ w. record w {
    members =
        w.members
        ++ (record {
          id = w.next_member;
          alliance_id = k;
          user_id = user;
          role = role;
          joined_at = db_now;
        }
            ∷ []);
    next_member = suc w.next_member;
  })

-- `RemoveAllianceMember`
unfoldable pub remove_alliance_member : ℕ → ℕ → Roster → Roster
remove_alliance_member k user w = record w {
  members = select (λ m. not ((m.alliance_id == k) && (m.user_id == user))) w.members;
}

-- The row that `CreateAlliance` stores.
abbrev pub new_alliance : ℤ → ℕ → ℕ → String → String → String → Alliance
new_alliance db_now k founder tag name description = record {
  id = k;
  tag = tag;
  name = name;
  description = description;
  founder_id = founder;
  created_at = db_now;
}

-- `CreateAlliance`; the columns `tag` and `name` are unique.
unfoldable pub create_alliance : ℤ → ℕ → String → String → String → Tx Roster Alliance
unfolding add_alliance_member get_alliance_by_tag
create_alliance db_now founder tag name description = do
  taken ← gets (get_alliance_by_tag tag)
  same_name ← gets (λ w. find_name name w.alliances)
  fail_if (is_some taken || is_some same_name) unique_violation
  k ← gets (λ w. w.next_alliance)
  modify (λ w. record w {
    alliances = w.alliances ++ (new_alliance db_now k founder tag name description ∷ []);
    next_alliance = suc k;
  })
  add_alliance_member db_now k founder "leader"
  pure (new_alliance db_now k founder tag name description)
