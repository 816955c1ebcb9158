-- ===== src/Svc/Alliance.antt =====
-- Alliances and their members (`internal/svc/alliance.go`).
pub mod Membership
pub mod History
use Prim.Native.String.{String}
use terminal_army_go.Base.{
  ℕ, ◌==◌, ltb, leb, ◌&&◌, ◌||◌, Bool, not, List, all, map, Option, none, some, if◌then◌else◌,
}
use terminal_army_go.Int.{ℤ}
use terminal_army_go.Store.Tx.{
  Tx, not_found, bad_tag, bad_name, description_too_long, in_alliance, tag_taken, founder_stays,
  ◌>>=◌, ◌>>◌, pure, fail, gets, modify, fetch, fail_if,
}
use terminal_army_go.Store.Colonies.{is_some}
use terminal_army_go.Store.Alliances.{
  Alliance, Roster, add_alliance_member, count_alliance_members, create_alliance, get_alliance,
  get_alliance_by_tag, get_user_alliance, remove_alliance_member,
}

-- What the checks use of Go's strings: `strings.TrimSpace`, `strings.ToUpper`, `len`, and the code
-- points over which `range` goes.
pub record Texts : Type 0 where
  pub trim : String → String
  pub upper : String → String
  pub byte_length : String → ℕ
  pub runes : String → List ℕ

-- The public view of an alliance.
pub record PublicAlliance : Type 0 where
  pub id : ℕ
  pub tag : String
  pub name : String
  pub description : String
  pub owner_user_id : ℕ
  pub member_count : ℕ
  pub created_at : ℤ

-- `allianceToPublic`
unfoldable pub alliance_to_public : Alliance → ℕ → PublicAlliance
alliance_to_public a count = record {
  id = a.id;
  tag = a.tag;
  name = a.name;
  description = a.description;
  owner_user_id = a.founder_id;
  member_count = count;
  created_at = a.created_at;
}

-- An uppercase letter or a digit of ASCII.
abbrev pub is_tag_rune : ℕ → Bool
is_tag_rune r = (leb 65 r && leb r 90) || (leb 48 r && leb r 57)

-- `Get`
unfoldable pub get_public_alliance : ℕ → Tx Roster PublicAlliance
unfolding alliance_to_public
get_public_alliance k = do
  a ← fetch (get_alliance k) not_found
  count ← gets (count_alliance_members a.id)
  pure (alliance_to_public a count)

-- The join of a user who is in an alliance, or in none.
unfoldable pub join_from : ℤ → ℕ → ℕ → Option Alliance → Tx Roster (Unit {0})
join_from db_now user k none = do
  fetch (get_alliance k) not_found
  add_alliance_member db_now k user "member"
join_from db_now user k (some current) = if current.id == k then pure tt else fail in_alliance

-- `Join`
unfoldable pub join_alliance : ℤ → ℕ → ℕ → Tx Roster (Unit {0})
unfolding join_from
join_alliance db_now user k = do
  current ← gets (get_user_alliance user)
  join_from db_now user k current

-- `Leave`
unfoldable pub leave_alliance : ℕ → ℕ → Tx Roster (Unit {0})
leave_alliance user k = do
  a ← fetch (get_alliance k) not_found
  current ← fetch (get_user_alliance user) not_found
  fail_if (not (current.id == a.id)) not_found
  count ← gets (count_alliance_members a.id)
  fail_if ((a.founder_id == user) && ltb 1 count) founder_stays
  modify (remove_alliance_member a.id user)

module _ (texts : Texts) where
  open texts use {trim, upper, byte_length, runes}

  -- `validateAllianceTag`
  unfoldable pub is_alliance_tag : String → Bool
  is_alliance_tag tag =
      leb 3 (byte_length tag) && leb (byte_length tag) 6 && all is_tag_rune (runes tag)

  -- `Create`
  unfoldable pub found_alliance : ℤ → ℕ → String → String → String → Tx Roster PublicAlliance
  unfolding is_alliance_tag alliance_to_public
  found_alliance db_now user tag name description = do
    fail_if (not (is_alliance_tag (upper (trim tag)))) bad_tag
    fail_if (ltb (byte_length (trim name)) 3 || ltb 32 (byte_length (trim name))) bad_name
    fail_if (ltb 1024 (byte_length (trim description))) description_too_long
    current ← gets (get_user_alliance user)
    fail_if (is_some current) in_alliance
    same_tag ← gets (get_alliance_by_tag (upper (trim tag)))
    fail_if (is_some same_tag) tag_taken
    created ← create_alliance db_now user (upper (trim tag)) (trim name) (trim description)
    pure (alliance_to_public created 1)
