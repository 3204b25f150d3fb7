-- ===== src/Hub/Clients.antt =====
-- Clients that come, go and change their subject: registerLocked, unregister and AssociateSubject
-- (pkg/websocket/hub.go).
use hamr.Base.{
  String, true, false, not, ◌&&◌, ◌||◌, none, some, [], ◌==◌, ◌≡◌, ◌≢◌, refl, arith, eq_iff, inl,
  inr, Bool-cases, Option-cases,
}
use hamr.Base.Assoc.{lookup, erase, lookup-insert, lookup-erase}
use hamr.Hub.{
  Client, Hub, is_in, remove_from_all, write, remove_subject, drop_client, is_registered,
  put_client, unregister, associate_subject,
}
use hamr.Hub.Groups.{member-remove_from_all}
use hamr.Hub.Sound.{IsSound, member-add_subject, member-remove_subject, is_registered_iff}

-- What `drop_client` leaves.
abbrev pub dropped : String → Hub → Hub
dropped c h = record h {
  subjects = remove_subject (h.heap c).subject_id c h.subjects;
  rooms = remove_from_all (h.heap c).joined c h.rooms;
  heap = write c (record (h.heap c) { is_open = false }) h.heap;
}

pub drop_client_open :
    (c : String) (h : Hub) → (h.heap c).is_open ≡ true → drop_client c h ≡ some (dropped c h)
unfolding drop_client
drop_client_open c h e = rw e refl

abbrev without : String → Hub → Hub
without c h = record h { clients = erase (h.heap c).session_id h.clients }

without-IsSound :
    (c : String) (h : Hub)
    → IsSound h
    → is_registered h c ≡ true
    → IsSound (dropped c (without c h))
unfolding is_registered
without-IsSound c h s y =
    let here : lookup (h.heap c).session_id h.clients ≡ some c = is_registered_iff h c y in
    record {
      registered = λ sid d e. ground (
        arith,
        s.registered sid d,
        lookup-erase (h.heap c).session_id sid h.clients,
        eq_iff (h.heap c).session_id sid,
        eq_iff c d,
      );
      in_rooms = λ r d. ground (
        arith,
        s.in_rooms r d,
        member-remove_from_all (h.heap c).joined c r d h.rooms,
        lookup-erase (h.heap c).session_id (h.heap d).session_id h.clients,
        eq_iff (h.heap c).session_id (h.heap d).session_id,
        eq_iff c d,
      );
      in_subjects = λ k d. ground (
        arith,
        s.in_subjects k d,
        member-remove_subject (h.heap c).subject_id c k d h.subjects,
        lookup-erase (h.heap c).session_id (h.heap d).session_id h.clients,
        eq_iff (h.heap c).session_id (h.heap d).session_id,
        eq_iff (h.heap c).subject_id k,
        eq_iff c d,
      );
    }

pub unregister-IsSound :
    (c : String) (h : Hub) → IsSound h → (h' : Hub) × (unregister c h ≡ some h') × IsSound h'
unfolding unregister
unregister-IsSound c h s = elim (Bool-cases (is_registered h c)) [
  | inl y ↦
      let here : lookup (h.heap c).session_id h.clients ≡ some c = is_registered_iff h c y in
      let is_open : (h.heap c).is_open ≡ true = (s.registered (h.heap c).session_id c here).1 in
      (
        dropped c (without c h),
        rw (y, unregister) (drop_client_open c (without c h) is_open),
        without-IsSound c h s y,
      )
  | inr n ↦ (h, rw (n, unregister) refl, s)
]

pub associate_subject-IsSound :
    (sid subject : String) (h : Hub) → IsSound h → IsSound (associate_subject sid subject h)
unfolding associate_subject is_registered
associate_subject-IsSound sid subject h s = elim (Option-cases (lookup sid h.clients)) [
  | inl e ↦ rw (e, associate_subject) s
  | inr (c, e) ↦
      let at : (h.heap c).session_id ≡ sid = (s.registered sid c e).0 in
      rw (e, associate_subject)
        (record {
          registered = λ k d f. ground (arith, s.registered k d f, eq_iff c d);
          in_rooms = λ r d. ground (arith, s.in_rooms r d, eq_iff c d);
          in_subjects = λ k d. ground (
            arith,
            s.in_subjects k d,
            member-add_subject subject c k d (remove_subject (h.heap c).subject_id c h.subjects),
            member-remove_subject (h.heap c).subject_id c k d h.subjects,
            eq_iff (h.heap c).subject_id k,
            eq_iff subject k,
            eq_iff c d,
          );
        })
]

-- No session leads to this address.
abbrev pub IsFresh : String → Hub → Type 0
IsFresh c h = (sid : String) → lookup sid h.clients ≢ some c

unfoldable pub new_client : String → String → Client
new_client session_id subject_id = record {
  session_id = session_id;
  subject_id = subject_id;
  joined = [];
  is_open = true;
}

abbrev pub with_new : String → String → String → Hub → Hub
with_new c sid subject h = record h { heap = write c (new_client sid subject) h.heap }

pub fresh-is_registered : (h : Hub) (c : String) → IsFresh c h → is_registered h c ≡ false
unfolding is_registered
fresh-is_registered h c fresh = elim (Option-cases (lookup (h.heap c).session_id h.clients)) [
  | inl n ↦ rw (n, is_registered) refl
  | inr (d, e) ↦ ground (arith, fresh (h.heap c).session_id, eq_iff d c)
]

pub is_registered-put_client :
    (c sid subject : String) (h : Hub) (d : String)
    → is_registered (put_client c (with_new c sid subject h)) d
      ≡ (c == d || not (sid == (h.heap d).session_id) && is_registered h d)
unfolding is_registered new_client
is_registered-put_client c sid subject h d = elim (Bool-cases (c == d)) [
  | inl y ↦
      rw (y, is_registered)
        (ground (
          arith,
          eq_iff sid sid,
          eq_iff c d,
          eq_iff c c,
          lookup-insert (h.heap c).session_id sid c h.clients,
          lookup-insert sid sid c h.clients,
        ))
  | inr n ↦
      rw (n, is_registered)
        (ground (
          arith,
          eq_iff c d,
          eq_iff c c,
          eq_iff sid sid,
          eq_iff sid (h.heap d).session_id,
          lookup-insert sid (h.heap d).session_id c h.clients,
        ))
]

pub put_new-IsSound :
    (c sid subject : String) (h : Hub)
    → IsSound h
    → IsFresh c h
    → lookup sid h.clients ≡ none
    → IsSound (put_client c (with_new c sid subject h))
unfolding new_client is_in
put_new-IsSound c sid subject h s fresh none_there =
    let not_there : is_registered h c ≡ false = fresh-is_registered h c fresh in
    record {
      registered = λ k d e. ground (
        arith,
        s.registered k d,
        fresh k,
        lookup-insert sid k c h.clients,
        eq_iff sid k,
        eq_iff c d,
        eq_iff c c,
      );
      in_rooms = λ r d. ground (
        arith,
        s.in_rooms r d,
        not_there,
        is_registered-put_client c sid subject h d,
        is_registered_iff h d,
        eq_iff sid (h.heap d).session_id,
        eq_iff c d,
      );
      in_subjects = λ k d. ground (
        arith,
        s.in_subjects k d,
        not_there,
        member-add_subject subject c k d h.subjects,
        is_registered-put_client c sid subject h d,
        is_registered_iff h d,
        eq_iff sid (h.heap d).session_id,
        eq_iff subject k,
        eq_iff c d,
        eq_iff c c,
      );
    }
