-- ===== src/Hub/Replace.antt =====
-- A connection that takes over a session: the client before it is dropped first.
use hamr.Base.{
  String, true, false, not, ◌&&◌, none, some, ◌==◌, ◌≡◌, ◌≢◌, refl, arith, eq_iff, inl, inr,
  Bool-cases, Option-cases, if◌then◌else◌, ◌∙◌, ap,
}
use hamr.Base.Assoc.{lookup, lookup-insert}
use hamr.Hub.{
  Hub, is_in, remove_from_all, remove_subject, is_registered, put_client, register, handler,
}
use hamr.Hub.Groups.{member, member-remove_from_all}
use hamr.Hub.Sound.{IsSound, member-add_subject, member-remove_subject, is_registered_iff}
use hamr.Hub.Clients.{
  IsFresh, dropped, drop_client_open, with_new, new_client, fresh-is_registered,
  is_registered-put_client, put_new-IsSound,
}

-- The groups that `old` leaves, seen from another client or from `old` itself.
module _ (c sid subject old : String) (h : Hub) (s : IsSound h)
    (e : lookup sid h.clients ≡ some old) where
  left_rooms :
      (r d : String)
      → member r d (remove_from_all (h.heap old).joined old h.rooms)
        ≡ (not (sid == (h.heap d).session_id) && (is_registered h d && is_in r (h.heap d).joined))
  left_rooms r d = ground (
    arith,
    s.in_rooms r d,
    s.registered sid old e,
    member-remove_from_all (h.heap old).joined old r d h.rooms,
    is_registered_iff h d,
    eq_iff sid (h.heap d).session_id,
    eq_iff old d,
  )

  left_subjects :
      (k d : String)
      → member k d (remove_subject (h.heap old).subject_id old h.subjects) ≡ (
          not (sid == (h.heap d).session_id)
          && (is_registered h d && (not (k == "") && (h.heap d).subject_id == k)))
  left_subjects k d = ground (
    arith,
    s.in_subjects k d,
    s.registered sid old e,
    member-remove_subject (h.heap old).subject_id old k d h.subjects,
    is_registered_iff h d,
    eq_iff sid (h.heap d).session_id,
    eq_iff (h.heap old).subject_id k,
    eq_iff old d,
  )

-- Who is registered depends on the sessions alone.
is_registered-congr :
    (h g : Hub) (d : String)
    → lookup (h.heap d).session_id h.clients ≡ lookup (g.heap d).session_id g.clients
    → is_registered h d ≡ is_registered g d
unfolding is_registered
is_registered-congr h g d e = rw (e, is_registered) refl

same_registered :
    (c sid subject old d : String) (h : Hub)
    → old ≢ c
    → is_registered (put_client c (dropped old (with_new c sid subject h))) d
      ≡ is_registered (put_client c (with_new c sid subject h)) d
unfolding new_client
same_registered c sid subject old d h other =
    let new = put_client c (with_new c sid subject h) in
    let over = put_client c (dropped old (with_new c sid subject h)) in
    let own : (over.heap d).session_id ≡ (new.heap d).session_id =
      ground (arith, eq_iff old d, eq_iff old c, eq_iff c c) in
    let all : over.clients ≡ new.clients = ground (arith, eq_iff old c, eq_iff c c) in
    is_registered-congr over new d (cc (own, all))

-- The client that had the session before is dropped first.
put_over-IsSound :
    (c sid subject old : String) (h : Hub)
    → IsSound h
    → IsFresh c h
    → lookup sid h.clients ≡ some old
    → IsSound (put_client c (dropped old (with_new c sid subject h)))
unfolding new_client is_in
put_over-IsSound c sid subject old h s fresh e =
    let not_there : is_registered h c ≡ false = fresh-is_registered h c fresh in
    let other : old ≢ c = λ f. fresh sid (cc) in
    record {
      registered = λ k d f. ground (
        arith,
        s.registered k d,
        s.registered k old,
        s.registered sid old e,
        fresh k,
        lookup-insert sid k c h.clients,
        eq_iff sid k,
        eq_iff c d,
        eq_iff old d,
        eq_iff c old,
        eq_iff c c,
      );
      in_rooms = λ r d. ground (
        arith,
        left_rooms c sid subject old h s e r d,
        not_there,
        same_registered c sid subject old d h other,
        is_registered-put_client c sid subject h d,
        eq_iff c d,
        eq_iff c old,
        eq_iff old d,
      );
      in_subjects = λ k d. ground (
        arith,
        left_subjects c sid subject old h s e k d,
        not_there,
        same_registered c sid subject old d h other,
        is_registered-put_client c sid subject h d,
        member-add_subject subject c k d (remove_subject (h.heap old).subject_id old h.subjects),
        eq_iff subject k,
        eq_iff c d,
        eq_iff c c,
        eq_iff c old,
        eq_iff old c,
        eq_iff old d,
      );
    }

register-none :
    (c : String) (h : Hub)
    → lookup (h.heap c).session_id h.clients ≡ none
    → register c h ≡ some (put_client c h)
unfolding register
register-none c h e = rw (e, register) refl

register-some :
    (c old : String) (h : Hub)
    → lookup (h.heap c).session_id h.clients ≡ some old
    → (h.heap old).is_open ≡ true
    → register c h ≡ some (put_client c (dropped old h))
unfolding register
register-some c old h e is_open = rw (e, register) (rw (drop_client_open old h is_open) refl)

own_session :
    (c sid subject : String) (h : Hub) → ((with_new c sid subject h).heap c).session_id ≡ sid
unfolding new_client
own_session c sid subject h = ground (arith, eq_iff c c)

register-IsSound :
    (c sid subject : String) (h : Hub)
    → IsSound h
    → IsFresh c h
    → (h' : Hub) × (register c (with_new c sid subject h) ≡ some h') × IsSound h'
unfolding new_client
register-IsSound c sid subject h s fresh = elim (Option-cases (lookup sid h.clients)) [
  | inl e ↦ (
    put_client c (with_new c sid subject h),
    register-none c (with_new c sid subject h) (cc (own_session c sid subject h)),
    put_new-IsSound c sid subject h s fresh e,
  )
  | inr (old, e) ↦
      let other : old ≢ c = λ f. fresh sid (cc) in
      let is_open : ((with_new c sid subject h).heap old).is_open ≡ true =
        ground (arith, eq_iff c old, s.registered sid old e) in
      (
        put_client c (dropped old (with_new c sid subject h)),
        register-some c old (with_new c sid subject h) (cc (own_session c sid subject h)) is_open,
        put_over-IsSound c sid subject old h s fresh e,
      )
]

-- `Handler` from a well-formed hub, with an address that no session leads to: it does not panic, so
-- no channel is closed twice, and it leaves the hub well formed.
pub handler-IsSound :
    (c sid subject : String) (h : Hub)
    → IsSound h
    → IsFresh c h
    → (h' : Hub) × (handler c sid subject h ≡ some h') × IsSound h'
unfolding handler new_client
handler-IsSound c sid subject h s fresh = elim (Bool-cases h.closed) [
  | inl y ↦ (h, ap (λ b. if b then some h else register c (with_new c sid subject h)) y, s)
  | inr n ↦
      let (h', e, sound) = register-IsSound c sid subject h s fresh in
      (h', ap (λ b. if b then some h else register c (with_new c sid subject h)) n ∙ e, sound)
]
