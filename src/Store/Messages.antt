-- ===== src/Store/Messages.antt =====
-- Queries on messages and reports (`internal/store/messages.go`, `reports.go`). `db_now` is what
-- `NOW()` gives in the transaction.
use Prim.Native.String.{String}
use terminal_army_go.Base.{
  ℕ, suc, ◌==◌, ◌++◌, Bool, true, false, not, ◌&&◌, List, [], ◌∷◌, select, length, Option, none,
  some, if◌then◌else◌,
}
use terminal_army_go.Int.{ℤ, pos, pos_part, ltb_ℤ, leb_ℤ}
use terminal_army_go.Store.Rows.{Fleet, Message, Notice, Payload, Report, World}
use terminal_army_go.Store.Queue.{limit}

-- `if limit <= 0 { limit = 50 }`
unfoldable pub page_size : ℤ → ℕ
page_size n = if leb_ℤ n (pos 0) then 50 else pos_part n

-- `ORDER BY created_at DESC`
unfoldable pub insert_newest {ℓ} : {A : Type ℓ} → (A → ℤ) → A → List A → List A
insert_newest time a [] = a ∷ []
insert_newest time a (b ∷ rows) =
    if ltb_ℤ (time a) (time b) then b ∷ insert_newest time a rows else a ∷ b ∷ rows

unfoldable pub newest_first {ℓ} : {A : Type ℓ} → (A → ℤ) → List A → List A
unfolding insert_newest
newest_first time [] = []
newest_first time (a ∷ rows) = insert_newest time a (newest_first time rows)

abbrev pub first_row {ℓ} : {A : Type ℓ} → List A → Option A
first_row [] = none
first_row (a ∷ _) = some a

-- `WHERE id = $1 AND recipient_id = $2`
abbrev pub message_of : ℕ → ℕ → Message → Bool
message_of user k m = (m.id == k) && (m.recipient_id == user)

abbrev pub mark_rows : ℕ → ℕ → List Message → List Message
mark_rows user k [] = []
mark_rows user k (m ∷ rows) =
    (if message_of user k m then record m { read = true } else m) ∷ mark_rows user k rows

-- The row that `InsertMessage` stores: its id from the sequence.
abbrev pub new_message : ℤ → ℕ → Option ℕ → ℕ → Notice → String → Message
new_message db_now k sender recipient text category = record {
  id = k;
  sender_id = sender;
  recipient_id = recipient;
  text = text;
  category = category;
  read = false;
  created_at = db_now;
}

module _ {F : Type 0} where
  -- `InsertMessage`
  unfoldable pub insert_message : ℤ → Option ℕ → ℕ → Notice → String → World F → World F
  insert_message db_now sender recipient text category w = record w {
    messages =
        w.messages ++ (new_message db_now w.next_message sender recipient text category ∷ []);
    next_message = suc w.next_message;
  }

  -- `ListMessagesForUser`
  unfoldable pub list_messages_for_user : ℕ → ℤ → World F → List Message
  unfolding page_size newest_first
  list_messages_for_user user n w =
      limit (page_size n)
        (newest_first (λ m. m.created_at) (select (λ m. m.recipient_id == user) w.messages))

  -- `GetMessageForUser`
  unfoldable pub get_message_for_user : ℕ → ℕ → World F → Option Message
  get_message_for_user user k w = first_row (select (message_of user k) w.messages)

  -- `MarkMessageRead`
  unfoldable pub mark_message_read : ℕ → ℕ → World F → World F
  mark_message_read user k w = record w { messages = mark_rows user k w.messages }

  -- `DeleteMessageForUser`
  unfoldable pub delete_message_for_user : ℕ → ℕ → World F → World F
  delete_message_for_user user k w = record w {
    messages = select (λ m. not (message_of user k m)) w.messages;
  }

  -- `CountUnreadMessages`
  unfoldable pub count_unread_messages : ℕ → World F → ℕ
  count_unread_messages user w =
      length (select (λ m. (m.recipient_id == user) && not m.read) w.messages)

  -- `InsertReport`; the target's coordinates are the fleet's.
  unfoldable pub insert_report : ℤ → ℕ → String → Payload F → Fleet → World F → World F
  insert_report db_now owner kind payload f w = record w {
    reports =
        w.reports
        ++ (record {
          id = w.next_report;
          owner_id = owner;
          report_type = kind;
          payload = payload;
          target_galaxy = f.target_galaxy;
          target_system = f.target_system;
          target_position = f.target_position;
          created_at = db_now;
        }
            ∷ []);
    next_report = suc w.next_report;
  }

  -- `ListReportsForUser`
  unfoldable pub list_reports_for_user : ℕ → ℤ → World F → List (Report F)
  unfolding page_size newest_first
  list_reports_for_user user n w =
      limit (page_size n)
        (newest_first (λ r. r.created_at) (select (λ r. r.owner_id == user) w.reports))

  -- `GetReportForUser`
  unfoldable pub get_report_for_user : ℕ → ℕ → World F → Option (Report F)
  get_report_for_user user k w =
      first_row (select (λ r. (r.id == k) && (r.owner_id == user)) w.reports)
