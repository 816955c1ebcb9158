-- ===== src/Store/Users.antt =====
-- Queries on accounts (`internal/store/users.go`).
use Prim.Native.String.{String}
use text.Mathlib.Text.{◌==◌ as str_eq}
use terminal_army_go.Base.{ℕ, ◌==◌, List, [], ◌∷◌, length, Option, none, some, if◌then◌else◌}
use terminal_army_go.Store.Rows.{User, World}

abbrev find_user : ℕ → List User → Option User
find_user k [] = none
find_user k (u ∷ users) = if u.id == k then some u else find_user k users

abbrev find_username : String → List User → Option User
find_username name [] = none
find_username name (u ∷ users) = if str_eq u.username name then some u else find_username name users

abbrev update_users : ℕ → (User → User) → List User → List User
update_users k f [] = []
update_users k f (u ∷ users) = (if u.id == k then f u else u) ∷ update_users k f users

module _ {F : Type 0} where
  -- `GetUserByID`
  unfoldable pub get_user_by_id : ℕ → World F → Option User
  get_user_by_id k w = find_user k w.users

  -- `GetUserByUsername`
  unfoldable pub get_user_by_username : String → World F → Option User
  get_user_by_username name w = find_username name w.users

  -- `SetCurrentUniverse`
  unfoldable pub set_current_universe : ℕ → ℕ → World F → World F
  set_current_universe user universe w = record w {
    users = update_users user (λ u. record u { current_universe_id = some universe }) w.users;
  }

  -- `CountUsers`
  unfoldable pub count_users : World F → ℕ
  count_users w = length w.users
