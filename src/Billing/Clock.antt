-- ===== src/Billing/Clock.antt =====
-- The mock clock: `advanceClock` and `dueSubscriptionsLocked` (internal/devserver/stripemock_clock.go).
pub mod Due
pub mod Progress
pub mod Advances
pub mod Ends
use Prim.Native.String.{compare as compare_text}
use Prim.Native.Nat.{Ordering}
use hamr.Base.{
  ℕ, zero, suc, String, Bool, true, false, not, ◌&&◌, Option, none, some, List, [], ◌∷◌, ◌++◌, eqb,
  ltb, leb, if◌then◌else◌,
}
use hamr.Base.Int.{ℤ, pos, ◌-ℤ◌}
use hamr.Base.Assoc.{Assoc, lookup}
use hamr.Billing.{StripeSubscription, Billing, BillingFire, Outside, due_at, is_zero_time}
use hamr.Billing.Cancel.{is_canceled}
use hamr.Billing.Cycle.{cycle_subscription}

-- A live subscription whose time has come.
unfoldable pub is_due : ℕ → StripeSubscription → Bool
unfolding due_at
is_due at s = not (is_canceled s.status) && leb (due_at s) at

abbrev ltb_text : String → String → Bool
ltb_text s t = elim (compare_text s t) [ Ordering.lt ↦ true | _ ↦ false ]

-- The order of the sort: by due time, then by id.
unfoldable pub due_before : StripeSubscription → StripeSubscription → Bool
unfolding due_at
due_before s t = if eqb (due_at s) (due_at t) then ltb_text s.id t.id else ltb (due_at s) (due_at t)

unfoldable pub insert_due :
    String × StripeSubscription
    → List (String × StripeSubscription)
    → List (String × StripeSubscription)
unfolding due_before
insert_due x [] = x ∷ []
insert_due x (y ∷ ys) = if due_before x.1 y.1 then x ∷ y ∷ ys else y ∷ insert_due x ys

-- The due subscriptions under these keys, each with its key, earliest first.
unfoldable pub due_under :
    ℕ → Assoc StripeSubscription → Assoc StripeSubscription → List (String × StripeSubscription)
unfolding lookup is_due insert_due
due_under at subs [] = []
due_under at subs ((k, _) ∷ rest) =
    let others = due_under at subs rest in
    elim (lookup k subs) [
      | none ↦ others
      | some s ↦ if is_due at s then insert_due (k, s) others else others
    ]

abbrev pub due_subscriptions : ℕ → Billing → List (String × StripeSubscription)
due_subscriptions at b = due_under at b.subscriptions b.subscriptions

pub data Advance : Type 0 where
  finished : Billing → List String → List BillingFire → Advance
  panicked : Advance
  out_of_fuel : Advance

-- The loop of `advanceClock`: the ids of the cycle with n rounds to go are `draws n`.
unfoldable pub advance_loop :
    Outside → (ℕ → ℕ → String) → ℕ → ℕ → List String → List BillingFire → Billing → Advance
unfolding due_under cycle_subscription
advance_loop o draws to zero cycled fires b = elim (due_subscriptions to b) [
  | [] ↦ Advance.finished b cycled fires
  | _ ∷ _ ↦ Advance.out_of_fuel
]
advance_loop o draws to (suc n) cycled fires b = elim (due_subscriptions to b) [
  | [] ↦ Advance.finished b cycled fires
  | (key, sub) ∷ _ ↦ elim (cycle_subscription o (draws n) key sub (due_at sub) b) [
    | none ↦ Advance.panicked
    | some (b', more) ↦ advance_loop o draws to n (cycled ++ (sub.id ∷ [])) (fires ++ more) b'
  ]
]

-- The answer of `advanceClock`: a refusal, or the new offset of the clock and what its loop did.
pub data ClockAnswer : Type 0 where
  refused : ClockAnswer
  advanced : ℤ → Advance → ClockAnswer

-- `now` and `real` are the readings of the mock clock and of the real one, and `latest` is five years
-- after `now`. A target of 0 means now.
unfoldable pub advance_clock :
    Outside → (ℕ → ℕ → String) → ℕ → ℕ → ℕ → ℕ → ℕ → Billing → ClockAnswer
unfolding advance_loop
advance_clock o draws fuel now real latest target b =
    let to = if is_zero_time target then now else target in
    if ltb to now
    then ClockAnswer.refused
    else if ltb latest to
    then ClockAnswer.refused
    else ClockAnswer.advanced (pos to -ℤ pos real) (advance_loop o draws to fuel [] [] b)
