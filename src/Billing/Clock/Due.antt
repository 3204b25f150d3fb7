-- ===== src/Billing/Clock/Due.antt =====
-- Which subscription the clock cycles next (dueSubscriptionsLocked).
use hamr.Base.{
  ℕ, String, true, false, some, List, [], ◌∷◌, ◌≡◌, ◌≢◌, arith, eq_iff, inl, inr, Option-cases,
  Bool-cases,
}
use hamr.Base.Assoc.{Assoc, lookup}
use hamr.Base.Lists.{All}
use hamr.Billing.{StripeSubscription}
use hamr.Billing.Clock.{is_due, due_before, insert_due, due_under}

abbrev pub IsDue : ℕ → Assoc StripeSubscription → String × StripeSubscription → Type 0
IsDue at subs (k, s) = (lookup k subs ≡ some s) × (is_due at s ≡ true)

insert_due-All :
    (at : ℕ) (subs : Assoc StripeSubscription) (x : String × StripeSubscription)
    (ys : List (String × StripeSubscription))
    → IsDue at subs x
    → All (IsDue at subs) ys
    → All (IsDue at subs) (insert_due x ys)
unfolding insert_due
insert_due-All at subs x [] h hs = (h, tt)
insert_due-All at subs x (y ∷ ys) h hs = elim (Bool-cases (due_before x.1 y.1)) [
  | inl e ↦ rw (e, insert_due) (h, hs)
  | inr e ↦ rw (e, insert_due) (hs.0, insert_due-All at subs x ys h hs.1)
]

pub due_under-All :
    (at : ℕ) (subs rest : Assoc StripeSubscription) → All (IsDue at subs) (due_under at subs rest)
unfolding due_under
due_under-All at subs [] = tt
due_under-All at subs ((k, v) ∷ rest) = elim (Option-cases (lookup k subs)) [
  | inl e ↦ rw (e, due_under) (due_under-All at subs rest)
  | inr (s, e) ↦ elim (Bool-cases (is_due at s)) [
    | inl y ↦
        rw (e, y, due_under)
          (insert_due-All at subs (k, s) (due_under at subs rest) (e, y)
            (due_under-All at subs rest))
    | inr n ↦ rw (e, n, due_under) (due_under-All at subs rest)
  ]
]

insert_due-nonempty :
    (x : String × StripeSubscription) (ys : List (String × StripeSubscription))
    → insert_due x ys ≢ []
unfolding insert_due
insert_due-nonempty x [] e = absurd (cc)
insert_due-nonempty x (y ∷ ys) e = ground arith

-- When nothing is listed, nothing that stands under one of the keys is due.
pub due_under-empty :
    (at : ℕ) (subs rest : Assoc StripeSubscription) (k : String) (v s : StripeSubscription)
    → due_under at subs rest ≡ []
    → lookup k rest ≡ some v
    → lookup k subs ≡ some s
    → is_due at s ≡ false
unfolding due_under lookup
due_under-empty at subs [] k v s e there here = absurd (cc)
due_under-empty at subs ((j, w) ∷ rest) k v s e there here = ground (
  arith,
  eq_iff j k,
  due_under-empty at subs rest k v s,
  insert_due-nonempty (k, s) (due_under at subs rest),
  insert_due-nonempty (j, w) (due_under at subs rest),
)
