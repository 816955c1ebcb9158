-- ===== src/Tests/Letters.antt =====
-- The theorems on the inbox.
use terminal_army_go.Base.{ℕ, ◌≡◌, refl, true, false, some, [], ◌∷◌}
use terminal_army_go.Int.{ℤ, pos}
use terminal_army_go.Store.Tx.{Result, ok, err, not_found}
use terminal_army_go.Store.Rows.{Message, World, player_message}
use terminal_army_go.Store.Messages.{
  delete_message_for_user, get_message_for_user, list_messages_for_user, mark_message_read,
}
use terminal_army_go.Svc.Messages.{PublicMessage, delete_message, get_message, message_to_public}
use terminal_army_go.Svc.Messages.Inbox.{delete_message_lem, get_message_lem}
use terminal_army_go.Tests.Sample.{is_ok, ok_parts, result_or, state_after, world}

abbrev letter : ℕ → ℕ → Message
letter k recipient = record {
  id = k;
  sender_id = some 9;
  recipient_id = recipient;
  text = player_message "hello";
  category = "player";
  read = false;
  created_at = pos 100;
}

abbrev mailbox : World ℤ
mailbox = record world { messages = letter 1 7 ∷ letter 2 8 ∷ letter 3 7 ∷ []; next_message = 4 }

abbrev no_message : PublicMessage
no_message = record {
  id = 0;
  user_id = 0;
  text = player_message "";
  category = "";
  read = false;
  created_at = pos 0;
}

unfoldable deleting : Result (Unit {0} × World ℤ)
deleting = delete_message 7 3 mailbox

unfoldable reading : Result (PublicMessage × World ℤ)
reading = get_message 7 3 mailbox

inbox-is_ok : (is_ok deleting ≡ true) × (is_ok reading ≡ true)
unfolding deleting reading delete_message get_message get_message_for_user delete_message_for_user
    mark_message_read message_to_public
inbox-is_ok = (refl, refl)

deleted_third : delete_message 7 3 mailbox ≡ ok (tt, state_after deleting)
unfolding deleting
deleted_third = ok_parts tt deleting inbox-is_ok.0

read_third : get_message 7 3 mailbox ≡ ok (result_or no_message reading, state_after reading)
unfolding reading
read_third = ok_parts no_message reading inbox-is_ok.1

delete_message_lem_example :
    (get_message 7 3 (state_after deleting) ≡ err not_found)
    × ((v : ℕ) (n : ℤ)
        → ¬ (v ≡ 7)
        → list_messages_for_user v n (state_after deleting) ≡ list_messages_for_user v n mailbox)
delete_message_lem_example = delete_message_lem 7 3 mailbox (state_after deleting) deleted_third

get_message_lem_example :
    (get_message 7 3 (state_after reading)
      ≡ ok (record (result_or no_message reading) { read = true }, state_after reading))
    × ((v : ℕ) (n : ℤ)
        → ¬ (v ≡ 7)
        → list_messages_for_user v n (state_after reading) ≡ list_messages_for_user v n mailbox)
get_message_lem_example =
    get_message_lem 7 3 (result_or no_message reading) mailbox (state_after reading) read_third
