-- ===== src/Tests/Guilds.antt =====
-- The theorem on alliances, and a history of commands.
use terminal_army_go.Base.{◌≡◌, refl, List, [], ◌∷◌}
use terminal_army_go.Int.{pos}
use terminal_army_go.Store.Tx.{in_tx}
use terminal_army_go.Store.Alliances.{
  Roster, add_alliance_member, count_alliance_members, create_alliance, get_alliance,
  get_alliance_by_tag, get_user_alliance, remove_alliance_member,
}
use terminal_army_go.Svc.Alliance.{
  Texts, found_alliance, is_alliance_tag, join_alliance, join_from, leave_alliance,
}
use terminal_army_go.Svc.Alliance.Membership.{
  Command, Orderly, found, join, leave, play, run_command,
}
use terminal_army_go.Svc.Alliance.History.{play-Orderly}

abbrev plain : Texts
plain = record {
  trim = λ s. s;
  upper = λ s. s;
  byte_length = λ s. 4;
  runes = λ s. 84 ∷ 65 ∷ 71 ∷ 49 ∷ [];
}

abbrev empty : Roster
empty = record { alliances = []; next_alliance = 1; members = []; next_member = 1 }

-- The second founding has a tag that is taken, and the founder may not leave.
abbrev history : List Command
history =
    found (pos 100) 7 "TAG1" "Tigers" "none"
    ∷ found (pos 110) 8 "TAG1" "Lions" "none"
    ∷ join (pos 120) 8 1
    ∷ join (pos 130) 9 1
    ∷ leave 7 1
    ∷ leave 8 1
    ∷ []

two_stay : count_alliance_members 1 (play plain history empty) ≡ 2
unfolding play in_tx run_command found_alliance is_alliance_tag join_alliance join_from
    leave_alliance get_alliance get_alliance_by_tag get_user_alliance count_alliance_members
    create_alliance add_alliance_member remove_alliance_member
two_stay = refl

play-Orderly_example : Orderly (play plain history empty)
play-Orderly_example = play-Orderly plain history empty (tt, tt)
