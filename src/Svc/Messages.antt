-- ===== src/Svc/Messages.antt =====
-- The inbox (`internal/svc/messages.go`). `trim` is `strings.TrimSpace`, `byte_length` is `len`.
pub mod Inbox
use Prim.Native.String.{String}
use text.Mathlib.Text.{◌==◌ as str_eq}
use terminal_army_go.Base.{
  ℕ, ◌==◌, ltb, ◌||◌, Bool, not, List, map, Option, none, some, if◌then◌else◌,
}
use terminal_army_go.Int.{ℤ, pos}
use terminal_army_go.Store.Tx.{
  Tx, not_found, message_incomplete, message_too_long, message_to_self, ◌>>=◌, ◌>>◌, pure, gets,
  modify, fetch, fail_if,
}
use terminal_army_go.Store.Rows.{Message, Notice, World, player_message}
use terminal_army_go.Store.Users.{get_user_by_username}
use terminal_army_go.Store.Messages.{
  delete_message_for_user, get_message_for_user, insert_message, list_messages_for_user,
  mark_message_read, new_message,
}

-- The public view of a message; its sender is dropped.
pub record PublicMessage : Type 0 where
  pub id : ℕ
  pub user_id : ℕ
  pub text : Notice
  pub category : String
  pub read : Bool
  pub created_at : ℤ

-- `messageToPublic`
unfoldable pub message_to_public : Message → PublicMessage
message_to_public m = record {
  id = m.id;
  user_id = m.recipient_id;
  text = m.text;
  category = m.category;
  read = m.read;
  created_at = m.created_at;
}

module _ {F : Type 0} where
  -- `List`
  unfoldable pub list_inbox : ℕ → World F → List PublicMessage
  unfolding message_to_public
  list_inbox user w = map message_to_public (list_messages_for_user user (pos 200) w)

  -- `Send`
  unfoldable pub send :
      (String → String) → (String → ℕ) → ℤ → ℕ → String → String → Tx (World F) PublicMessage
  unfolding message_to_public
  send trim byte_length db_now sender username body = do
    fail_if (str_eq (trim username) "" || str_eq (trim body) "") message_incomplete
    fail_if (ltb 2000 (byte_length (trim body))) message_too_long
    u ← fetch (get_user_by_username (trim username)) not_found
    fail_if (u.id == sender) message_to_self
    k ← gets (λ w. w.next_message)
    modify (insert_message db_now (some sender) u.id (player_message (trim body)) "player")
    pure (
        message_to_public
          (new_message db_now k (some sender) u.id (player_message (trim body)) "player"))

  -- `Get`, which marks the message as read
  unfoldable pub get_message : ℕ → ℕ → Tx (World F) PublicMessage
  unfolding message_to_public
  get_message user k = do
    row ← fetch (get_message_for_user user k) not_found
    modify (λ w. if not row.read then mark_message_read user k w else w)
    pure (message_to_public row)

  -- `Delete`
  unfoldable pub delete_message : ℕ → ℕ → Tx (World F) (Unit {0})
  delete_message user k = do
    fetch (get_message_for_user user k) not_found
    modify (delete_message_for_user user k)
