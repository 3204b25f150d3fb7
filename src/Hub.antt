-- ===== src/Hub.antt =====
-- The WebSocket hub (pkg/websocket/hub.go): its maps, and the clients that they point to. Each
-- operation holds the hub's lock, so it is one step. `none` is a panic: a channel closed twice, or a
-- send on a closed channel.
pub mod Groups
pub mod Sound
pub mod Clients
pub mod Replace
pub mod Reach
use hamr.Base.{
  ℕ, suc, String, Bool, true, false, not, ◌&&◌, ◌||◌, Option, none, some, List, [], ◌∷◌, ◌==◌,
  if◌then◌else◌,
}
use hamr.Base.Assoc.{Assoc, lookup, insert, erase}

-- A client object; `is_open` says that its send channel is not closed.
pub record Client : Type 0 where
  pub session_id : String
  pub subject_id : String
  pub joined : List String
  pub is_open : Bool

-- Clients are told apart by their addresses; `heap` holds the object at each. A `map[*Client]bool`
-- is the list of its keys.
pub record Hub : Type 0 where
  pub clients : Assoc String
  pub subjects : Assoc (List String)
  pub rooms : Assoc (List String)
  pub closed : Bool
  pub heap : String → Client

unfoldable pub is_in : String → List String → Bool
is_in x [] = false
is_in x (y ∷ ys) = y == x || is_in x ys

abbrev pub add : String → List String → List String
add x xs = if is_in x xs then xs else x ∷ xs

unfoldable pub remove : String → List String → List String
remove x [] = []
remove x (y ∷ ys) = let rest = remove x ys in if y == x then rest else y ∷ rest

-- `if groups[g] == nil { make }; groups[g][c] = true`
unfoldable pub add_member : String → String → Assoc (List String) → Assoc (List String)
unfolding lookup insert is_in
add_member g c groups = elim (lookup g groups) [
  | none ↦ insert g (c ∷ []) groups
  | some members ↦ insert g (add c members) groups
]

-- `delete(groups[g], c)`, and the group itself once it is empty.
unfoldable pub remove_member : String → String → Assoc (List String) → Assoc (List String)
unfolding lookup insert erase remove
remove_member g c groups = elim (lookup g groups) [
  | none ↦ groups
  | some members ↦ elim (remove c members) [
    | [] ↦ erase g groups
    | d ∷ ds ↦ insert g (d ∷ ds) groups
  ]
]

-- The loop over the rooms of a client.
unfoldable pub remove_from_all : List String → String → Assoc (List String) → Assoc (List String)
unfolding remove_member
remove_from_all [] c groups = groups
remove_from_all (g ∷ gs) c groups = remove_from_all gs c (remove_member g c groups)

abbrev pub write : String → Client → (String → Client) → String → Client
write c object heap d = if c == d then object else heap d

abbrev pub add_subject : String → String → Assoc (List String) → Assoc (List String)
add_subject s c groups = if s == "" then groups else add_member s c groups

abbrev pub remove_subject : String → String → Assoc (List String) → Assoc (List String)
remove_subject s c groups = if s == "" then groups else remove_member s c groups

-- A client goes from its groups, and its channel is closed.
unfoldable pub drop_client : String → Hub → Option Hub
unfolding remove_from_all
drop_client c h =
    let object = h.heap c in
    if object.is_open
    then some (record h {
      subjects = remove_subject object.subject_id c h.subjects;
      rooms = remove_from_all object.joined c h.rooms;
      heap = write c (record object { is_open = false }) h.heap;
    })
    else none

-- `h.clients[c.SessionID] == c`
unfoldable pub is_registered : Hub → String → Bool
unfolding lookup
is_registered h c = elim (lookup (h.heap c).session_id h.clients) [ none ↦ false | some d ↦ d == c ]

abbrev pub put_client : String → Hub → Hub
put_client c h = record h {
  clients = insert (h.heap c).session_id c h.clients;
  subjects = add_subject (h.heap c).subject_id c h.subjects;
}

unfoldable pub register : String → Hub → Option Hub
unfolding drop_client
register c h = elim (lookup (h.heap c).session_id h.clients) [
  | none ↦ some (put_client c h)
  | some old ↦ elim (drop_client old h) [ none ↦ none | some h' ↦ some (put_client c h') ]
]

-- The part of `Handler` on the hub: a new client object, registered unless the hub is closed.
unfoldable pub handler : String → String → String → Hub → Option Hub
unfolding register
handler c session_id subject_id h =
    let object : Client = record {
      session_id = session_id;
      subject_id = subject_id;
      joined = [];
      is_open = true;
    } in
    if h.closed then some h else register c (record h { heap = write c object h.heap })

unfoldable pub unregister : String → Hub → Option Hub
unfolding is_registered drop_client
unregister c h =
    if is_registered h c
    then drop_client c (record h { clients = erase (h.heap c).session_id h.clients })
    else some h

unfoldable pub join_room : String → String → Hub → Hub
unfolding is_registered add_member
join_room c room h =
    if is_registered h c
    then record h {
      rooms = add_member room c h.rooms;
      heap = write c (record (h.heap c) { joined = add room (h.heap c).joined }) h.heap;
    }
    else h

unfoldable pub leave_room : String → String → Hub → Hub
unfolding remove_member remove
leave_room c room h = record h {
  rooms = remove_member room c h.rooms;
  heap = write c (record (h.heap c) { joined = remove room (h.heap c).joined }) h.heap;
}

unfoldable pub associate_subject : String → String → Hub → Hub
associate_subject session_id subject_id h = elim (lookup session_id h.clients) [
  | none ↦ h
  | some c ↦ record h {
    subjects = add_subject subject_id c (remove_subject (h.heap c).subject_id c h.subjects);
    heap = write c (record (h.heap c) { subject_id = subject_id }) h.heap;
  }
]

-- The two ends of `Close`: the flag, and, when all pumps have ended, the empty maps.
abbrev pub close_begin : Hub → Hub
close_begin h = record h { closed = true }

abbrev pub close_end : Hub → Hub
close_end h = record h { clients = []; subjects = []; rooms = [] }

-- A send to each of these clients, but for those that `skip` names: how many messages are dropped,
-- where `is_full` says whose buffer has no room.
unfoldable pub send_all : (String → Bool) → (Client → Bool) → List String → Hub → Option ℕ
send_all is_full skip [] h = some 0
send_all is_full skip (c ∷ cs) h = elim (send_all is_full skip cs h) [
  | none ↦ none
  | some dropped ↦
      if skip (h.heap c)
      then some dropped
      else if not (h.heap c).is_open
      then none
      else if is_full c
      then some (suc dropped)
      else some dropped
]

abbrev pub members_of : String → Assoc (List String) → List String
members_of g groups = elim (lookup g groups) [ none ↦ [] | some members ↦ members ]

unfoldable pub send_to_session : (String → Bool) → String → Hub → Option Bool
send_to_session is_full session_id h = elim (lookup session_id h.clients) [
  | none ↦ some false
  | some c ↦ if (h.heap c).is_open then some (not (is_full c)) else none
]

unfoldable pub send_to_subject : (String → Bool) → String → Hub → Option ℕ
unfolding send_all
send_to_subject is_full subject_id h =
    if subject_id == ""
    then some 0
    else send_all is_full (λ _. false) (members_of subject_id h.subjects) h

unfoldable pub send_to_room : (String → Bool) → String → Hub → Option ℕ
unfolding send_all
send_to_room is_full room h = send_all is_full (λ _. false) (members_of room h.rooms) h

unfoldable pub send_to_room_except : (String → Bool) → String → String → Hub → Option ℕ
unfolding send_all
send_to_room_except is_full room except h =
    send_all is_full (λ o. o.session_id == except) (members_of room h.rooms) h

-- The clients under these keys.
unfoldable pub clients_at : Assoc String → Assoc String → List String
unfolding lookup
clients_at entries [] = []
clients_at entries ((k, _) ∷ rest) = elim (lookup k entries) [
  | none ↦ clients_at entries rest
  | some c ↦ c ∷ clients_at entries rest
]

unfoldable pub broadcast : (String → Bool) → Hub → Option ℕ
unfolding send_all clients_at
broadcast is_full h = send_all is_full (λ _. false) (clients_at h.clients h.clients) h

abbrev pub new_hub : Hub
new_hub = record {
  clients = [];
  subjects = [];
  rooms = [];
  closed = false;
  heap = λ _. record { session_id = ""; subject_id = ""; joined = []; is_open = false };
}
