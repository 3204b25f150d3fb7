-- ===== src/Tests/Hubs.antt =====
-- A WebSocket hub with one client in one room.
use hamr.Base.{true, some, [], ◌∷◌, ◌≡◌, refl, arith, eq_iff, if◌then◌else◌, ◌==◌}
use hamr.Base.Assoc.{lookup}
use hamr.Hub.{Hub, new_hub, join_room, handler, add_member, is_in, send_to_room}
use hamr.Hub.Sound.{IsSound}
use hamr.Hub.Clients.{IsFresh}
use hamr.Hub.Reach.{
  Reachable, start, later, connects, joins, Reachable-IsSound, NeverPanics, no_panic,
}

abbrev first : Hub
first = record new_hub {
  clients = ("s1", "c1") ∷ [];
  subjects = ("u1", "c1" ∷ []) ∷ [];
  heap = λ d.
      if "c1" == d
      then record { session_id = "s1"; subject_id = "u1"; joined = []; is_open = true }
      else new_hub.heap d;
}

abbrev hub : Hub
hub = join_room "c1" "lobby" first

new_hub-IsFresh : IsFresh "c1" new_hub
unfolding lookup
new_hub-IsFresh sid e = absurd (cc)

first_connects : handler "c1" "s1" "u1" new_hub ≡ some first
unfolding handler add_member
first_connects = refl

hub-Reachable : Reachable hub
hub-Reachable =
    later (later start (connects "c1" "s1" "u1" new_hub-IsFresh first_connects))
      (joins "c1" "lobby")

hub-IsFresh : IsFresh "c2" hub
unfolding lookup join_room
hub-IsFresh sid e = ground (arith, eq_iff "c1" "c2")

Reachable-IsSound_example : IsSound hub
Reachable-IsSound_example = Reachable-IsSound hub-Reachable

hub_sends : send_to_room (λ _. true) "lobby" hub ≡ some 1
unfolding send_to_room join_room is_in
hub_sends = refl

no_panic_example : NeverPanics hub (λ _. true) "c2" "c1" "s1" "u1" "lobby"
no_panic_example = no_panic hub (λ _. true) "c2" "c1" "s1" "u1" "lobby" hub-Reachable hub-IsFresh
