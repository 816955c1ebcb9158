-- ===== src/Svc/Alliance/History.antt =====
-- What the commands on alliances keep (`internal/svc/alliance.go`).
use Prim.Native.String.{String}
use mathlib.Core.Path.{subst}
use terminal_army_go.Base.{
  ℕ, ◌==◌, ◌≡◌, refl, sym, ap, ◌∙◌, Bool, true, false, not, ltb, ◌&&◌, ◌||◌, List, [], ◌∷◌, Option,
  none, some, if◌then◌else◌,
}
use terminal_army_go.Int.{ℤ}
use terminal_army_go.Store.Tx.{
  Result, ok, err, pure, fail, in_tx, >>=-eq-ok, fail_if-passed, fetch, fetch-eq-ok, ok_state,
  not_found, in_alliance, bad_tag, bad_name, description_too_long, tag_taken, founder_stays,
}
use terminal_army_go.Store.Colonies.{is_some}
use terminal_army_go.Store.Alliances.{
  Alliance, Roster, create_alliance, get_alliance, count_alliance_members, get_alliance_by_tag,
  get_user_alliance,
}
use terminal_army_go.Svc.Alliance.{
  PublicAlliance, Texts, is_alliance_tag, found_alliance, join_alliance, join_from, leave_alliance,
}
use terminal_army_go.Svc.Alliance.Membership.{
  Command, Orderly, add_alliance_member-Orderly, create_alliance-Orderly, found, join, leave, play,
  remove_alliance_member-Orderly, run_command,
}

same_roster :
    (b : Bool) (w w' : Roster) → (if b then pure tt else fail in_alliance) w ≡ ok (tt, w') → w ≡ w'
same_roster true w w' h = ok_state h
same_roster false w w' h = cc

join_from-Orderly :
    (db_now : ℤ) (user k : ℕ) (current : Option Alliance) (w w' : Roster)
    → Orderly w
    → join_from db_now user k current w ≡ ok (tt, w')
    → Orderly w'
unfolding join_from
join_from-Orderly db_now user k none w w' orderly h =
    let (a, w1, e1, h1) = >>=-eq-ok (fetch (get_alliance k) not_found) _ w h in
    let (there, s1) = fetch-eq-ok (get_alliance k) not_found w w1 e1 in
    add_alliance_member-Orderly db_now k user "member" w1 w' (subst Orderly (sym s1) orderly)
      (ap (λ v. is_some (get_alliance k v)) s1 ∙ ap is_some there) h1
join_from-Orderly db_now user k (some current) w w' orderly h =
    subst Orderly (same_roster (current.id == k) w w' h) orderly

leave_alliance-Orderly :
    (user k : ℕ) (w w' : Roster) → Orderly w → leave_alliance user k w ≡ ok (tt, w') → Orderly w'
unfolding leave_alliance
leave_alliance-Orderly user k w w' orderly h =
    let (a, w1, e1, h1) = >>=-eq-ok (fetch (get_alliance k) not_found) _ w h in
    let (_, s1) = fetch-eq-ok (get_alliance k) not_found w w1 e1 in
    let (current, w2, e2, h2) = >>=-eq-ok (fetch (get_user_alliance user) not_found) _ w1 h1 in
    let (_, s2) = fetch-eq-ok (get_user_alliance user) not_found w1 w2 e2 in
    let h3 = fail_if-passed (not (current.id == a.id)) not_found _ w2 h2 in
    let stays = (a.founder_id == user) && ltb 1 (count_alliance_members a.id w2) in
    let h4 = fail_if-passed stays founder_stays _ w2 h3 in
    subst Orderly (ok_state h4)
      (remove_alliance_member-Orderly a.id user w2 (subst Orderly (sym (s2 ∙ s1)) orderly))

found_alliance-Orderly :
    (texts : Texts) (db_now : ℤ) (user : ℕ) (tag name description : String) (a : PublicAlliance)
    (w w' : Roster)
    → Orderly w
    → found_alliance texts db_now user tag name description w ≡ ok (a, w')
    → Orderly w'
unfolding found_alliance
found_alliance-Orderly texts db_now user tag name description a w w' orderly h =
    let full_tag = texts.upper (texts.trim tag) in
    let size = texts.byte_length (texts.trim name) in
    let long = ltb 1024 (texts.byte_length (texts.trim description)) in
    let h1 = fail_if-passed (not (is_alliance_tag texts full_tag)) bad_tag _ w h in
    let h2 = fail_if-passed (ltb size 3 || ltb 32 size) bad_name _ w h1 in
    let h3 = fail_if-passed long description_too_long _ w h2 in
    let h4 = fail_if-passed (is_some (get_user_alliance user w)) in_alliance _ w h3 in
    let h5 = fail_if-passed (is_some (get_alliance_by_tag full_tag w)) tag_taken _ w h4 in
    let (row, w1, e1, h6) = >>=-eq-ok (create_alliance db_now user _ _ _) _ w h5 in
    subst Orderly (ok_state h6) (create_alliance-Orderly db_now user _ _ _ row w w1 orderly e1)

run_command-Orderly :
    (texts : Texts) (c : Command) (w w' : Roster)
    → Orderly w
    → run_command texts c w ≡ ok (tt, w')
    → Orderly w'
unfolding run_command join_alliance
run_command-Orderly texts (found db_now user tag name description) w w' orderly h =
    let (a, w1, e1, h1) = >>=-eq-ok (found_alliance texts db_now user tag name description) _ w h in
    subst Orderly (ok_state h1)
      (found_alliance-Orderly texts db_now user tag name description a w w1 orderly e1)
run_command-Orderly texts (join db_now user k) w w' orderly h =
    join_from-Orderly db_now user k (get_user_alliance user w) w w' orderly h
run_command-Orderly texts (leave user k) w w' orderly h =
    leave_alliance-Orderly user k w w' orderly h

after_run :
    (w : Roster) (r : Result (Unit {0} × Roster))
    → Orderly w
    → ((w' : Roster) → r ≡ ok (tt, w') → Orderly w')
    → Orderly
        (elim r as (λ _. Result (Unit {0}) × Roster) [
          | ok (a, w') ↦ (ok a, w')
          | err e ↦ (err e, w)
        ]).1
after_run w (ok (_, w')) orderly kept = kept w' refl
after_run w (err e) orderly kept = orderly

-- Whatever commands run on alliances, each of which may fail: if at first no user has two memberships
-- and every membership is of an alliance that exists, this holds afterwards.
pub play-Orderly :
    (texts : Texts) (commands : List Command) (w : Roster)
    → Orderly w
    → Orderly (play texts commands w)
unfolding play in_tx
play-Orderly texts [] w orderly = orderly
play-Orderly texts (c ∷ commands) w orderly =
    play-Orderly texts commands (in_tx (run_command texts c) w).1 (
      after_run w (run_command texts c w) orderly
        (λ w' h. run_command-Orderly texts c w w' orderly h))
