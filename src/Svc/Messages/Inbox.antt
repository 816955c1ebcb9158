-- ===== src/Svc/Messages/Inbox.antt =====
-- Who reads and deletes a message (`internal/svc/messages.go`).
use mathlib.Core.Option.{some-injective}
use terminal_army_go.Base.{
  ℕ, ◌==◌, ◌≡◌, refl, Bool-cases, inl, inr, sym, ap, ◌∙◌, Bool, true, false, not, List, [], ◌∷◌,
  select, none, some, arith, if◌then◌else◌,
}
use terminal_army_go.Int.{ℤ}
use terminal_army_go.Store.Tx.{
  ok, err, not_found, ok_result, ok_state, >>=-eq-ok, fetch, fetch-eq-ok, fetch-none, fetch-some,
}
use terminal_army_go.Store.Rows.{Message, World}
use terminal_army_go.Store.Messages.{
  delete_message_for_user, page_size, newest_first, first_row, get_message_for_user,
  list_messages_for_user, mark_message_read, mark_rows, message_of,
}
use terminal_army_go.Store.Queue.{limit}
use terminal_army_go.Svc.Messages.{PublicMessage, delete_message, get_message, message_to_public}

-- The messages of a recipient.
abbrev of : ℕ → List Message → List Message
of v ms = select (λ m. m.recipient_id == v) ms

of-delete :
    (user v k : ℕ) (ms : List Message)
    → ¬ (v ≡ user)
    → of v (select (λ m. not (message_of user k m)) ms) ≡ of v ms
of-delete user v k [] other = refl
of-delete user v k (m ∷ ms) other = ground (arith, of-delete user v k ms other)

of-mark_rows :
    (user v k : ℕ) (ms : List Message) → ¬ (v ≡ user) → of v (mark_rows user k ms) ≡ of v ms
of-mark_rows user v k [] other = refl
of-mark_rows user v k (m ∷ ms) other = ground (arith, of-mark_rows user v k ms other)

first_row-delete :
    (user k : ℕ) (ms : List Message)
    → first_row (select (message_of user k) (select (λ m. not (message_of user k m)) ms)) ≡ none
first_row-delete user k [] = refl
first_row-delete user k (m ∷ ms) = ground (arith, first_row-delete user k ms)

first_row-mark_rows :
    (user k : ℕ) (ms : List Message) (m : Message)
    → first_row (select (message_of user k) ms) ≡ some m
    → first_row (select (message_of user k) (mark_rows user k ms)) ≡ some (record m { read = true })
first_row-mark_rows user k [] m h = cc
first_row-mark_rows user k (x ∷ ms) m h = elim (Bool-cases (message_of user k x)) [
  | inl mine ↦ rw mine (
      rw mine
        (ap (λ (y : Message). some (record y { read = true })) (some-injective x m (rw mine at h))))
  | inr not_mine ↦ ground (arith, not_mine, first_row-mark_rows user k ms m)
]

module _ {F : Type 0} where
  -- A message that its recipient has deleted is not found again, and every other user lists the same
  -- messages as before.
  pub delete_message_lem :
      (user k : ℕ) (w w' : World F)
      → delete_message user k w ≡ ok (tt, w')
      → (get_message user k w' ≡ err not_found)
        × ((v : ℕ) (n : ℤ)
            → ¬ (v ≡ user)
            → list_messages_for_user v n w' ≡ list_messages_for_user v n w)
  unfolding delete_message get_message get_message_for_user list_messages_for_user
      delete_message_for_user
  delete_message_lem user k w w' h =
      let (m, w1, e1, h1) = >>=-eq-ok (fetch (get_message_for_user user k) not_found) _ w h in
      let (found, s1) = fetch-eq-ok (get_message_for_user user k) not_found w w1 e1 in
      let kept : w'.messages ≡ select (λ m. not (message_of user k m)) w.messages =
        ap (λ (v : World F). v.messages) (sym (ok_state h1))
        ∙ ap (λ (v : World F). select (λ m. not (message_of user k m)) v.messages) s1 in
      (
        fetch-none (get_message_for_user user k) not_found _ w' (
            ap (λ ms. first_row (select (message_of user k) ms)) kept
            ∙ first_row-delete user k w.messages),
        λ v n other.
            ap (λ ms. limit (page_size n) (newest_first (λ m. m.created_at) ms))
              (ap (of v) kept ∙ of-delete user v k w.messages other),
      )

  -- The state after a read, and what it keeps.
  abbrev seen : ℕ → ℕ → Bool → World F → World F
  seen user k b w = if not b then mark_message_read user k w else w

  seen-row :
      (user k : ℕ) (b : Bool) (row : Message) (w : World F)
      → row.read ≡ b
      → get_message_for_user user k w ≡ some row
      → get_message_for_user user k (seen user k b w) ≡ some (record row { read = true })
  unfolding get_message_for_user mark_message_read
  seen-row user k true row w h found = found ∙ ap (λ c. some (record row { read = c })) h
  seen-row user k false row w h found = first_row-mark_rows user k w.messages row found

  seen-other :
      (user v k : ℕ) (b : Bool) (w : World F)
      → ¬ (v ≡ user)
      → of v (seen user k b w).messages ≡ of v w.messages
  unfolding mark_message_read
  seen-other user v k true w other = refl
  seen-other user v k false w other = of-mark_rows user v k w.messages other

  -- A message that its recipient has read stays, marked as read; every other user lists the same
  -- messages as before.
  pub get_message_lem :
      (user k : ℕ) (m : PublicMessage) (w w' : World F)
      → get_message user k w ≡ ok (m, w')
      → (get_message user k w' ≡ ok (record m { read = true }, w'))
        × ((v : ℕ) (n : ℤ)
            → ¬ (v ≡ user)
            → list_messages_for_user v n w' ≡ list_messages_for_user v n w)
  unfolding get_message list_messages_for_user message_to_public
  get_message_lem user k m w w' h =
      let (row, w1, e1, h1) = >>=-eq-ok (fetch (get_message_for_user user k) not_found) _ w h in
      let (found, s1) = fetch-eq-ok (get_message_for_user user k) not_found w w1 e1 in
      let marked : seen user k row.read w ≡ w' = ap (seen user k row.read) (sym s1) ∙ ok_state h1 in
      let there : get_message_for_user user k w' ≡ some (record row { read = true }) =
        ap (get_message_for_user user k) (sym marked) ∙ seen-row user k row.read row w refl found in
      (
        fetch-some (get_message_for_user user k) (record row { read = true }) not_found _ w' there
            ∙ ap (λ (q : PublicMessage). ok (record q { read = true }, w')) (ok_result h1),
        λ v n other.
            ap (λ ms. limit (page_size n) (newest_first (λ m. m.created_at) ms))
              (ap (λ (x : World F). of v x.messages) (sym marked)
                ∙ seen-other user v k row.read w other),
      )
