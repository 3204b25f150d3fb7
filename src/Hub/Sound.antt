-- ===== src/Hub/Sound.antt =====
-- The well-formed states of the hub (pkg/websocket/hub.go), and the operations on rooms.
use hamr.Base.{
  String, true, not, ◌&&◌, ◌||◌, some, List, ◌==◌, ◌≡◌, refl, arith, eq_iff, inl, inr, Bool-cases,
  Option-cases,
}
use hamr.Base.Assoc.{Assoc, lookup}
use hamr.Hub.{
  Hub, is_in, add_subject, remove_subject, is_registered, join_room, leave_room, close_begin,
  close_end,
}
use hamr.Hub.Groups.{member, is_in-add, is_in-remove, member-add_member, member-remove_member}

-- Each session leads to a client of that session whose channel is open; a client is in a room, or
-- under a subject, of the hub exactly when it is registered and its own fields say so.
pub record IsSound (h : Hub) : Type 0 where
  pub registered :
      (sid c : String)
      → lookup sid h.clients ≡ some c
      → ((h.heap c).session_id ≡ sid) × ((h.heap c).is_open ≡ true)
  pub in_rooms :
      (room c : String)
      → member room c h.rooms ≡ (is_registered h c && is_in room (h.heap c).joined)
  pub in_subjects :
      (s c : String)
      → member s c h.subjects ≡ (is_registered h c && (not (s == "") && (h.heap c).subject_id == s))

pub member-add_subject :
    (s c k d : String) (groups : Assoc (List String))
    → member k d (add_subject s c groups)
      ≡ (not (s == "") && (s == k && c == d) || member k d groups)
member-add_subject s c k d groups = ground (arith, member-add_member s c k d groups)

pub member-remove_subject :
    (s c k d : String) (groups : Assoc (List String))
    → member k d (remove_subject s c groups)
      ≡ (not (not (s == "") && (s == k && c == d)) && member k d groups)
member-remove_subject s c k d groups = ground (arith, member-remove_member s c k d groups)

pub is_registered_iff :
    (h : Hub) (c : String)
    → is_registered h c ≡ true
    → lookup (h.heap c).session_id h.clients ≡ some c
unfolding is_registered
is_registered_iff h c e = elim (Option-cases (lookup (h.heap c).session_id h.clients)) [
  | inl n ↦ ground (arith)
  | inr (d, f) ↦ ground (arith, eq_iff d c)
]

pub join_room-IsSound : (c room : String) (h : Hub) → IsSound h → IsSound (join_room c room h)
unfolding join_room is_registered
join_room-IsSound c room h s = elim (Bool-cases (is_registered h c)) [
  | inl y ↦
      rw (y, join_room)
        (record {
          registered = λ sid d e. ground (arith, s.registered sid d e, eq_iff c d);
          in_rooms = λ r d. ground (
            arith,
            s.in_rooms r d,
            member-add_member room c r d h.rooms,
            is_in-add room r (h.heap c).joined,
            eq_iff c d,
            eq_iff room r,
          );
          in_subjects = λ k d. ground (arith, s.in_subjects k d, eq_iff c d);
        })
  | inr n ↦ rw (n, join_room) s
]

pub leave_room-IsSound : (c room : String) (h : Hub) → IsSound h → IsSound (leave_room c room h)
unfolding leave_room is_registered
leave_room-IsSound c room h s = record {
  registered = λ sid d e. ground (arith, s.registered sid d e, eq_iff c d);
  in_rooms = λ r d. ground (
    arith,
    s.in_rooms r d,
    member-remove_member room c r d h.rooms,
    is_in-remove room r (h.heap c).joined,
    eq_iff c d,
    eq_iff room r,
  );
  in_subjects = λ k d. ground (arith, s.in_subjects k d, eq_iff c d);
}

pub close-IsSound : (h : Hub) → IsSound h → IsSound (close_begin h) × IsSound (close_end h)
unfolding is_registered lookup member
close-IsSound h s = (
  record { registered = s.registered; in_rooms = s.in_rooms; in_subjects = s.in_subjects },
  record { registered = λ sid c e. absurd (cc); in_rooms = λ r c. refl; in_subjects = λ r c. refl },
)
