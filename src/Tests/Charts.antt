-- ===== src/Tests/Charts.antt =====
-- The theorem on the view of a system.
use terminal_army_go.Base.{◌≡◌, refl, true, []}
use terminal_army_go.Int.{pos, ◌+ℤ◌}
use terminal_army_go.Store.Tx.{Result, ok, err}
use terminal_army_go.Store.Planets.{get_universe}
use terminal_army_go.Store.Colonies.{insert_planet, list_planets_in_system, planets_in_order}
use terminal_army_go.Store.Users.{get_user_by_id}
use terminal_army_go.Store.Alliances.{Roster, get_alliance, get_user_alliance}
use terminal_army_go.Svc.Galaxy.{
  SystemView, alliance_tag_of, by_pos, owner_name_of, slot_view, slots_from, system_of, view_system,
}
use terminal_army_go.Svc.Galaxy.Index.{OwnSlots}
use terminal_army_go.Svc.Galaxy.Slots.{Seen, view_system-Seen}
use terminal_army_go.Tests.Sample.{is_ok}
use terminal_army_go.Tests.Harbor.{harbor}

abbrev alone : Roster
alone = record { alliances = []; next_alliance = 1; members = []; next_member = 1 }

unfoldable chart : Result SystemView
chart = view_system (λ k. true) 7 (pos 1) (pos 20) harbor alone

chart-is_ok : is_ok chart ≡ true
unfolding chart view_system system_of slots_from slot_view by_pos owner_name_of alliance_tag_of
    get_universe get_user_by_id get_alliance get_user_alliance list_planets_in_system
    planets_in_order insert_planet ◌+ℤ◌
chart-is_ok = refl

view_or : SystemView → Result SystemView → SystemView
view_or v (ok u) = u
view_or v (err e) = v

abbrev no_view : SystemView
no_view = record { galaxy = pos 0; system = pos 0; planets = [] }

charted : (r : Result SystemView) → is_ok r ≡ true → r ≡ ok (view_or no_view r)
unfolding view_or
charted (ok u) h = refl
charted (err e) h = cc

chart_seen : view_system (λ k. true) 7 (pos 1) (pos 20) harbor alone ≡ ok (view_or no_view chart)
unfolding chart
chart_seen = charted chart chart-is_ok

harbor-OwnSlots : OwnSlots harbor.planets
harbor-OwnSlots = (refl, (refl, tt))

view_system-Seen_example : Seen (λ k. true) 7 (pos 1) (pos 20) harbor alone (view_or no_view chart)
view_system-Seen_example =
    view_system-Seen (λ k. true) 7 (pos 1) (pos 20) harbor alone (view_or no_view chart)
      harbor-OwnSlots chart_seen
