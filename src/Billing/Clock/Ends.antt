-- ===== src/Billing/Clock/Ends.antt =====
-- The loop of `advanceClock`, and the time that is left to it.
use hamr.Base.{
  ℕ, zero, suc, ◌+◌, ◌≤◌, ◌<◌, String, true, false, some, List, [], ◌∷◌, ◌++◌, ◌==◌, ◌≡◌, ◌⊎◌,
  arith, inl, inr, Bool-cases, refl, ◌∙◌, ap, sym, subst,
}
use hamr.Base.Int.{pos, ◌-ℤ◌}
use hamr.Base.Assoc.{Assoc, lookup, insert, lookup-insert}
use hamr.Base.Lists.{All}
use hamr.Billing.{StripeSubscription, Billing, BillingFire, Outside}
use hamr.Billing.Calendar.{IsCalendar}
use hamr.Billing.Clock.{
  is_due, due_subscriptions, Advance, advance_loop, ClockAnswer, advance_clock,
}
use hamr.Billing.Clock.Due.{IsDue, due_under-All, due_under-empty}
use hamr.Billing.Clock.Advances.{remaining, Timely, Advances, cycle-Advances}

-- A sum over the entries of a map.
unfoldable pub count_by {ℓ} : {V : Type ℓ} → (V → ℕ) → Assoc V → ℕ
count_by f [] = 0
count_by f ((_, v) ∷ m) = f v + count_by f m

count_by-insert {ℓ} :
    {V : Type ℓ} (f : V → ℕ) (k : String) (v old : V) (m : Assoc V)
    → lookup k m ≡ some old
    → count_by f (insert k v m) + f old ≡ count_by f m + f v
unfolding count_by lookup insert
count_by-insert f k v old [] e = absurd (cc)
count_by-insert f k v old ((j, w) ∷ m) e = ground (arith, count_by-insert f k v old m)

abbrev pub AllTimely : Outside → ℕ → Billing → Type 0
AllTimely o to b =
    (k : String) (s : StripeSubscription) → lookup k b.subscriptions ≡ some s → Timely o to s

-- No subscription waits for the clock, ...
abbrev pub NothingDue : ℕ → Billing → Type 0
NothingDue to b =
    (k : String) (s : StripeSubscription) → lookup k b.subscriptions ≡ some s → is_due to s ≡ false

-- ... and the loop was stopped neither by a panic nor for want of fuel.
abbrev pub Completed : ℕ → Advance → Type 0
Completed to result =
    (b : Billing) × (cycled : List String) × (fires : List BillingFire) × (result
      ≡ Advance.finished b cycled fires)
    × NothingDue to b

abbrev pub time_left : ℕ → Billing → ℕ
time_left to b = count_by (remaining to) b.subscriptions

-- What one round leaves.
round-AllTimely :
    (o : Outside) (to : ℕ) (key : String) (sub : StripeSubscription) (b b' : Billing)
    → AllTimely o to b
    → Advances o to key sub b b'
    → AllTimely o to b'
round-AllTimely o to key sub b b' all (s, stored, timely, less) k t e =
    let here : lookup k (insert key s b.subscriptions) ≡ some t = ap (lookup k) (sym stored) ∙ e in
    let there = lookup-insert key k s b.subscriptions in
    elim (Bool-cases (key == k)) [
      | inl y ↦ let same : s ≡ t = ground (arith) in subst (Timely o to) same timely
      | inr n ↦ all k t (ground (arith))
    ]

round-time_left :
    (o : Outside) (to : ℕ) (key : String) (sub : StripeSubscription) (b b' : Billing)
    → lookup key b.subscriptions ≡ some sub
    → Advances o to key sub b b'
    → time_left to b' < time_left to b
round-time_left o to key sub b b' e (s, stored, timely, less) =
    let sum = count_by-insert (remaining to) key s sub b.subscriptions e in
    let same : time_left to b' ≡ count_by (remaining to) (insert key s b.subscriptions) =
      ap (count_by (remaining to)) stored in
    omega (arith, sum, same, less)

-- Nothing is due, or the loop goes on with a subscription that is.
abbrev Next : ℕ → Billing → Type 0
Next to b =
    (due_subscriptions to b ≡ [] × NothingDue to b)
    ⊎ ((key : String) × (sub : StripeSubscription) × (others : List (String × StripeSubscription))
        × (due_subscriptions to b ≡ (key, sub) ∷ others)
        × (lookup key b.subscriptions ≡ some sub)
        × (is_due to sub ≡ true))

due-cases : (to : ℕ) (b : Billing) → Next to b
due-cases to b = go (due_subscriptions to b) refl (due_under-All to b.subscriptions b.subscriptions)
  where
    go :
        (due : List (String × StripeSubscription))
        → due_subscriptions to b ≡ due
        → All (IsDue to b.subscriptions) due
        → Next to b
    go [] e all = inl (e, λ k s f. due_under-empty to b.subscriptions b.subscriptions k s s e f f)
    go ((key, sub) ∷ others) e all = inr (key, sub, others, e, all.0.0, all.0.1)

module _ (o : Outside) (draws : ℕ → ℕ → String) (to : ℕ) (cal : IsCalendar o) where
  -- The loop of `advanceClock` ends without a panic, and leaves no subscription due, when the calendar
  -- goes forward, every live subscription is timely, and the fuel is at least the sum, over the live
  -- subscriptions, of the seconds from their due time to the target.
  pub advance_loop-Completed :
      (n : ℕ) (cycled : List String) (fires : List BillingFire) (b : Billing)
      → AllTimely o to b
      → time_left to b ≤ n
      → Completed to (advance_loop o draws to n cycled fires b)
  unfolding advance_loop
  advance_loop-Completed zero cycled fires b all enough = elim (due-cases to b) [
    | inl (e, nothing) ↦ (b, cycled, fires, rw (e, advance_loop) refl, nothing)
    | inr (key, sub, others, e, here, due) ↦
        let (b', more, step, adv) =
          cycle-Advances o (draws 0) to key sub b cal (all key sub here) due in
        absurd (omega (arith, round-time_left o to key sub b b' here adv, enough))
  ]
  advance_loop-Completed (suc n) cycled fires b all enough = elim (due-cases to b) [
    | inl (e, nothing) ↦ (b, cycled, fires, rw (e, advance_loop) refl, nothing)
    | inr (key, sub, others, e, here, due) ↦
        let (b', more, step, adv) =
          cycle-Advances o (draws n) to key sub b cal (all key sub here) due in
        let less = round-time_left o to key sub b b' here adv in
        let rest =
          advance_loop-Completed n (cycled ++ (sub.id ∷ [])) (fires ++ more) b'
            (round-AllTimely o to key sub b b' all adv) (omega (arith, less, enough)) in
        let same : advance_loop o draws to (suc n) cycled fires b
            ≡ advance_loop o draws to n (cycled ++ (sub.id ∷ [])) (fires ++ more) b' =
          rw (e, step, advance_loop) refl in
        subst (Completed to) (sym same) rest
  ]

-- `advanceClock` to a target from now on, at most five years ahead, when the calendar goes forward,
-- every live subscription is timely, and the fuel is at least the sum, over the live subscriptions, of
-- the seconds from their due time to the target: it sets the offset to the target less the real time,
-- and its loop ends without a panic and leaves no subscription due.
pub advance_clock-Completed :
    (o : Outside) (draws : ℕ → ℕ → String) (fuel now real latest target : ℕ) (b : Billing)
    → IsCalendar o
    → AllTimely o target b
    → time_left target b ≤ fuel
    → 1 ≤ target
    → now ≤ target
    → target ≤ latest
    → (result : Advance) × (advance_clock o draws fuel now real latest target b
        ≡ ClockAnswer.advanced (pos target -ℤ pos real) result)
      × Completed target result
unfolding advance_clock
advance_clock-Completed o draws fuel now real latest target b cal all enough positive h k = (
  advance_loop o draws target fuel [] [] b,
  ground (arith),
  advance_loop-Completed o draws target cal fuel [] [] b all enough,
)
