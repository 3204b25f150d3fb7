-- ===== src/Hub/Groups.antt =====
-- Who is a member of a group after members come and go.
use hamr.Base.{
  String, Bool, false, not, ◌&&◌, ◌||◌, Option, none, some, List, [], ◌∷◌, ◌==◌, ◌≡◌, refl, arith,
  eq_iff, inl, inr, Option-cases, if◌then◌else◌,
}
use hamr.Base.Assoc.{Assoc, lookup, insert, erase, lookup-insert, lookup-erase}
use hamr.Hub.{is_in, add, remove, add_member, remove_member, remove_from_all}

unfoldable pub member : String → String → Assoc (List String) → Bool
unfolding lookup is_in
member g c groups = elim (lookup g groups) [ none ↦ false | some members ↦ is_in c members ]

pub is_in-add : (c d : String) (xs : List String) → is_in d (add c xs) ≡ (c == d || is_in d xs)
unfolding is_in
is_in-add c d xs = ground (arith, eq_iff c d)

pub is_in-remove :
    (c d : String) (xs : List String) → is_in d (remove c xs) ≡ (not (c == d) && is_in d xs)
unfolding is_in remove
is_in-remove c d [] = ground arith
is_in-remove c d (x ∷ xs) = ground (arith, is_in-remove c d xs, eq_iff c d, eq_iff x c, eq_iff x d)

pub member-add_member :
    (g c k d : String) (groups : Assoc (List String))
    → member k d (add_member g c groups) ≡ (g == k && c == d || member k d groups)
unfolding member add_member
member-add_member g c k d groups = elim (Option-cases (lookup g groups)) [
  | inl e ↦
      rw (e, add_member, member)
        (ground (arith, eq_iff g k, eq_iff c d, lookup-insert g k (c ∷ []) groups))
  | inr (members, e) ↦
      rw (e, add_member, member)
        (ground
          (arith, eq_iff g k, is_in-add c d members, lookup-insert g k (add c members) groups))
]

-- The group as it is stored: none when it is empty.
abbrev stored : List String → Option (List String)
stored [] = none
stored (d ∷ ds) = some (d ∷ ds)

put :
    (g k : String) (left : List String) (groups : Assoc (List String))
    → lookup k (elim left [ [] ↦ erase g groups | d ∷ ds ↦ insert g (d ∷ ds) groups ])
      ≡ (if g == k then stored left else lookup k groups)
put g k [] groups = lookup-erase g k groups
put g k (d ∷ ds) groups = lookup-insert g k (d ∷ ds) groups

lookup-remove_member :
    (g c k : String) (groups : Assoc (List String)) (members : List String)
    → lookup g groups ≡ some members
    → lookup k (remove_member g c groups)
      ≡ (if g == k then stored (remove c members) else lookup k groups)
unfolding remove_member
lookup-remove_member g c k groups members e =
    rw (e, remove_member) (put g k (remove c members) groups)

is_in-stored :
    (d : String) (xs : List String)
    → (elim (stored xs) [ none ↦ false | some ys ↦ is_in d ys ]) ≡ is_in d xs
unfolding is_in
is_in-stored d [] = refl
is_in-stored d (x ∷ xs) = refl

pub member-remove_member :
    (g c k d : String) (groups : Assoc (List String))
    → member k d (remove_member g c groups) ≡ (not (g == k && c == d) && member k d groups)
unfolding member remove_member
member-remove_member g c k d groups = elim (Option-cases (lookup g groups)) [
  | inl e ↦ rw (e, remove_member) (ground (arith, eq_iff g k))
  | inr (members, e) ↦ ground (
    arith,
    eq_iff g k,
    lookup-remove_member g c k groups members e,
    is_in-stored d (remove c members),
    is_in-remove c d members,
  )
]

pub member-remove_from_all :
    (gs : List String) (c k d : String) (groups : Assoc (List String))
    → member k d (remove_from_all gs c groups) ≡ (not (is_in k gs && c == d) && member k d groups)
unfolding remove_from_all is_in
member-remove_from_all [] c k d groups = ground arith
member-remove_from_all (g ∷ gs) c k d groups = ground (
  arith,
  eq_iff g k,
  member-remove_from_all gs c k d (remove_member g c groups),
  member-remove_member g c k d groups,
)
