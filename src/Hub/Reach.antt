-- ===== src/Hub/Reach.antt =====
-- The hub over time: the states that it can reach, and the sends from them.
use hamr.Base.{
  ℕ, suc, ◌≤◌, subst, String, Bool, true, false, not, Option, some, List, [], ◌∷◌, ◌==◌, ◌≡◌, refl,
  arith, eq_iff, inl, inr, Bool-cases, Option-cases,
}
use hamr.Base.Assoc.{Assoc, lookup}
use hamr.Base.Lists.{length}
use hamr.Hub.{
  Client, Hub, is_in, is_registered, handler, unregister, join_room, leave_room, associate_subject,
  close_begin, close_end, new_hub, send_all, members_of, send_to_session, send_to_subject,
  send_to_room, send_to_room_except, broadcast, clients_at,
}
use hamr.Hub.Groups.{member}
use hamr.Hub.Sound.{
  IsSound, is_registered_iff, join_room-IsSound, leave_room-IsSound, close-IsSound,
}
use hamr.Hub.Clients.{IsFresh, unregister-IsSound, associate_subject-IsSound}
use hamr.Hub.Replace.{handler-IsSound}

-- What can happen next: a connection with a new client object, the end of a read pump, a call of an
-- operation with any client that the caller still holds, or the two ends of `Close`.
pub data Step : Hub → Hub → Type 0 where
  connects :
      {h h' : Hub} (c sid subject : String)
      → IsFresh c h
      → handler c sid subject h ≡ some h'
      → Step h h'
  disconnects : {h h' : Hub} (c : String) → unregister c h ≡ some h' → Step h h'
  joins : {h : Hub} (c room : String) → Step h (join_room c room h)
  leaves : {h : Hub} (c room : String) → Step h (leave_room c room h)
  associates : {h : Hub} (sid subject : String) → Step h (associate_subject sid subject h)
  begins_close : {h : Hub} → Step h (close_begin h)
  ends_close : {h : Hub} → h.closed ≡ true → Step h (close_end h)

pub data Reachable : Hub → Type 0 where
  start : Reachable new_hub
  later : {h h' : Hub} → Reachable h → Step h h' → Reachable h'

new_hub-IsSound : IsSound new_hub
unfolding lookup is_registered member
new_hub-IsSound = record {
  registered = λ sid c e. absurd (cc);
  in_rooms = λ r c. refl;
  in_subjects = λ k c. refl;
}

same_result : {h g : Hub} {o : Option Hub} → o ≡ some h → o ≡ some g → IsSound h → IsSound g
same_result {h} {g} e f s = let same : h ≡ g = cc (e, f) in subst IsSound same s

Step-IsSound : {h h' : Hub} → IsSound h → Step h h' → IsSound h'
Step-IsSound s (connects {h} c sid subject fresh e) =
    let (g, f, sound) = handler-IsSound c sid subject h s fresh in same_result f e sound
Step-IsSound s (disconnects {h} c e) =
    let (g, f, sound) = unregister-IsSound c h s in same_result f e sound
Step-IsSound s (joins {h} c room) = join_room-IsSound c room h s
Step-IsSound s (leaves {h} c room) = leave_room-IsSound c room h s
Step-IsSound s (associates {h} sid subject) = associate_subject-IsSound sid subject h s
Step-IsSound s (begins_close {h}) = (close-IsSound h s).0
Step-IsSound s (ends_close {h} e) = (close-IsSound h s).1

-- In every state that the hub can reach, by connections with addresses not in use, pumps that end,
-- rooms joined and left by whatever client, subjects associated, and `Close`: each session leads to a
-- client of that session whose channel is open, and a client is in a room, or under a subject, of the
-- hub exactly when it is the registered client of its session and its own fields name that room or
-- subject.
pub Reachable-IsSound : {h : Hub} → Reachable h → IsSound h
Reachable-IsSound start = new_hub-IsSound
Reachable-IsSound (later r s) = Step-IsSound (Reachable-IsSound r) s

-- Every client of the list can be sent to.
abbrev AllOpen : Hub → List String → Type 0
AllOpen h cs = (c : String) → is_in c cs ≡ true → (h.heap c).is_open ≡ true

send_all-AllOpen :
    (is_full : String → Bool) (skip : Client → Bool) (cs : List String) (h : Hub)
    → AllOpen h cs
    → (n : ℕ) × (send_all is_full skip cs h ≡ some n) × n ≤ length cs
unfolding send_all is_in
send_all-AllOpen is_full skip [] h all = (0, refl, omega arith)
send_all-AllOpen is_full skip (c ∷ cs) h all =
    let (n, e, le) = send_all-AllOpen is_full skip cs h (λ d i. all d (ground (arith))) in
    let here : (h.heap c).is_open ≡ true = all c (ground (arith, eq_iff c c)) in
    elim (Bool-cases (skip (h.heap c))) [
      | inl y ↦ (n, ground (arith), omega (arith, le))
      | inr m ↦ elim (Bool-cases (is_full c)) [
        | inl y ↦ (suc n, ground (arith), omega (arith, le))
        | inr k ↦ (n, ground (arith), omega (arith, le))
      ]
    ]

registered-is_open :
    (h : Hub) (c : String) → IsSound h → is_registered h c ≡ true → (h.heap c).is_open ≡ true
registered-is_open h c s y = (s.registered (h.heap c).session_id c (is_registered_iff h c y)).1

members-room-AllOpen : (h : Hub) (room : String) → IsSound h → AllOpen h (members_of room h.rooms)
unfolding member
members-room-AllOpen h room s c i = registered-is_open h c s (ground (arith, s.in_rooms room c))

members-subject-AllOpen : (h : Hub) (k : String) → IsSound h → AllOpen h (members_of k h.subjects)
unfolding member
members-subject-AllOpen h k s c i = registered-is_open h c s (ground (arith, s.in_subjects k c))

clients_at-AllOpen :
    (h : Hub) (rest : Assoc String) → IsSound h → AllOpen h (clients_at h.clients rest)
unfolding clients_at is_in
clients_at-AllOpen h [] s c i = absurd (cc)
clients_at-AllOpen h ((k, v) ∷ rest) s c i = elim (Option-cases (lookup k h.clients)) [
  | inl n ↦ clients_at-AllOpen h rest s c (ground (arith))
  | inr (d, e) ↦ ground (arith, eq_iff d c, s.registered k d e, clients_at-AllOpen h rest s c)
]

send_to_session_lem :
    (is_full : String → Bool) (sid : String) (h : Hub)
    → IsSound h
    → (b : Bool) × (send_to_session is_full sid h ≡ some b)
unfolding send_to_session
send_to_session_lem is_full sid h s = elim (Option-cases (lookup sid h.clients)) [
  | inl e ↦ (false, ground (arith))
  | inr (c, e) ↦ (not (is_full c), ground (arith, s.registered sid c e))
]

send_to_subject_lem :
    (is_full : String → Bool) (k : String) (h : Hub)
    → IsSound h
    → (n : ℕ) × (send_to_subject is_full k h ≡ some n) × n ≤ length (members_of k h.subjects)
unfolding send_to_subject
send_to_subject_lem is_full k h s = elim (Bool-cases (k == "")) [
  | inl y ↦ (0, ground (arith), omega arith)
  | inr n ↦
      let (m, e, le) =
        send_all-AllOpen is_full (λ _. false) (members_of k h.subjects) h
          (members-subject-AllOpen h k s) in
      (m, ground (arith), le)
]

-- Each send reports a number of dropped messages, at most one for each client that it addresses, or
-- a Boolean; a connection and the end of the client `d` lead to a hub.
abbrev pub NeverPanics : Hub → (String → Bool) → String → String → String → String → String → Type 0
NeverPanics h is_full c d sid subject room =
    ((n : ℕ) × (send_to_room is_full room h ≡ some n) × n ≤ length (members_of room h.rooms))
    × ((n : ℕ) × (send_to_room_except is_full room sid h ≡ some n)
        × n ≤ length (members_of room h.rooms))
    × ((n : ℕ) × (send_to_subject is_full subject h ≡ some n)
        × n ≤ length (members_of subject h.subjects))
    × ((n : ℕ) × (broadcast is_full h ≡ some n) × n ≤ length (clients_at h.clients h.clients))
    × ((b : Bool) × (send_to_session is_full sid h ≡ some b))
    × ((h' : Hub) × (handler c sid subject h ≡ some h'))
    × ((h' : Hub) × (unregister d h ≡ some h'))

-- From every state that the hub can reach, whoever's buffer is full, nothing panics: the sends to any
-- room, room but one session, subject, and to all report a number of dropped messages, at most one
-- for each client they address, a send to any session reports a Boolean, and a connection whose
-- address no session leads to, and the end of the pump of any client, lead to a hub.
pub no_panic :
    (h : Hub) (is_full : String → Bool) (c d sid subject room : String)
    → Reachable h
    → IsFresh c h
    → NeverPanics h is_full c d sid subject room
unfolding send_to_room send_to_room_except send_to_subject broadcast
no_panic h is_full c d sid subject room r fresh =
    let s = Reachable-IsSound r in
    let in_room = members-room-AllOpen h room s in
    (
      send_all-AllOpen is_full (λ _. false) (members_of room h.rooms) h in_room,
      send_all-AllOpen is_full (λ o. o.session_id == sid) (members_of room h.rooms) h in_room,
      send_to_subject_lem is_full subject h s,
      send_all-AllOpen is_full (λ _. false) (clients_at h.clients h.clients) h
          (clients_at-AllOpen h h.clients s),
      send_to_session_lem is_full sid h s,
      (let (h', e, _) = handler-IsSound c sid subject h s fresh in (h', e)),
      (let (h', e, _) = unregister-IsSound d h s in (h', e)),
    )
