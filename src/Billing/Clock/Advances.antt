-- ===== src/Billing/Clock/Advances.antt =====
-- The due time of a subscription before and after a cycle of the clock.
use hamr.Base.{
  ℕ, suc, ◌-◌, ◌<◌, String, true, false, some, List, ◌≡◌, ◌⊎◌, arith, inl, inr, Bool-cases,
  if◌then◌else◌, refl, ◌∙◌,
}
use hamr.Base.Assoc.{insert}
use hamr.Billing.{StripeSubscription, SubscriptionStatus, Billing, BillingFire, Outside, due_at}
use hamr.Billing.Calendar.{period_end, IsCalendar}
use hamr.Billing.Clock.Progress.{IsTimely, SameTiming, renew-Renewed, next_number, next_end}
use hamr.Billing.Cancel.{is_canceled, is_trialing, is_past_due, cancel_subscription, ended}
use hamr.Billing.Cycle.{ends_now, cycle_subscription, next_period, renew}
use hamr.Billing.Clock.{is_due}

abbrev pub remaining : ℕ → StripeSubscription → ℕ
remaining to s = if is_canceled s.status then 0 else suc to - due_at s

abbrev pub Timely : Outside → ℕ → StripeSubscription → Type 0
Timely o to s = is_canceled s.status ≡ false → IsTimely o to s

-- A cycle writes the subscription only, which stays timely, and has less time left.
abbrev pub Advances : Outside → ℕ → String → StripeSubscription → Billing → Billing → Type 0
Advances o to key sub b b' =
    (s : StripeSubscription) × (b'.subscriptions ≡ insert key s b.subscriptions)
    × Timely o to s
    × remaining to s < remaining to sub

SameTiming-IsTimely :
    (o : Outside) (to : ℕ) (s t : StripeSubscription)
    → SameTiming s t
    → is_trialing s.status ≡ false
    → is_trialing t.status ≡ false
    → IsTimely o to s
    → IsTimely o to t
SameTiming-IsTimely o to s t (e0, e1, e2, e3, e4) live live' h = record {
  item = h.item;
  others = h.others;
  has_item = e0 ∙ h.has_item;
  fits = h.fits;
  trial = λ y. absurd (cc);
  period = λ n. let (p, q) = h.period live in (cc, omega (arith, q, e1, e2, e3));
}

pub cycle-ends :
    (o : Outside) (ids : ℕ → String) (key : String) (sub : StripeSubscription) (at : ℕ)
    (b : Billing)
    → ends_now sub at ≡ true
    → cycle_subscription o ids key sub at b ≡ some (cancel_subscription key sub at b)
unfolding cycle_subscription
cycle-ends o ids key sub at b y = rw (y, cycle_subscription) refl

pub cycle-renews :
    (o : Outside) (ids : ℕ → String) (key : String) (sub : StripeSubscription) (at finish : ℕ)
    (b : Billing)
    → ends_now sub at ≡ false
    → period_end o sub (next_number sub) ≡ some finish
    → cycle_subscription o ids key sub at b
      ≡ some (renew o ids key (next_period sub at finish) at b)
unfolding cycle_subscription
cycle-renews o ids key sub at finish b n e = rw (n, e, cycle_subscription) refl

-- A subscription that goes on was due at the end of its period.
due_at-renewed :
    (sub : StripeSubscription)
    → ends_now sub (due_at sub) ≡ false
    → (due_at sub ≡ sub.current_period_end)
      × (is_past_due sub.status ≡ false)
      × ((sub.cancel_at ≡ 0) ⊎ due_at sub < sub.cancel_at)
unfolding ends_now due_at
due_at-renewed sub n = ground arith

renewed_less :
    (to : ℕ) (sub s : StripeSubscription) (finish : ℕ)
    → is_due to sub ≡ true
    → due_at sub ≡ sub.current_period_end
    → sub.current_period_end < finish
    → (sub.cancel_at ≡ 0) ⊎ due_at sub < sub.cancel_at
    → s.current_period_end ≡ finish
    → s.cancel_at ≡ sub.cancel_at
    → remaining to s < remaining to sub
unfolding due_at is_due
renewed_less to sub s finish due at_end later cancel e f = ground arith

next_status :
    (st : SubscriptionStatus)
    → is_trialing (if is_trialing st then SubscriptionStatus.active else st) ≡ false
next_status SubscriptionStatus.trialing = refl
next_status SubscriptionStatus.active = refl
next_status SubscriptionStatus.past_due = refl
next_status SubscriptionStatus.canceled = refl

same_status :
    (st st' : SubscriptionStatus)
    → is_trialing st ≡ false
    → (st' ≡ st) ⊎ (st' ≡ SubscriptionStatus.past_due)
    → is_trialing st' ≡ false
same_status st st' h (inl e) = cc
same_status st st' h (inr e) = cc

pub cycle-Advances :
    (o : Outside) (ids : ℕ → String) (to : ℕ) (key : String) (sub : StripeSubscription)
    (b : Billing)
    → IsCalendar o
    → Timely o to sub
    → is_due to sub ≡ true
    → (b' : Billing) × (fires : List BillingFire) × (cycle_subscription o ids key sub (due_at sub) b
        ≡ some (b', fires))
      × Advances o to key sub b b'
unfolding is_due cancel_subscription due_at
cycle-Advances o ids to key sub b cal timely due = elim (Bool-cases (ends_now sub (due_at sub))) [
  | inl y ↦
      let (b', fires) = cancel_subscription key sub (due_at sub) b in
      (
        b',
        fires,
        cycle-ends o ids key sub (due_at sub) b y,
        (ended sub (due_at sub), refl, (λ h. absurd (cc)), ground (arith)),
      )
  | inr n ↦
      let (at_end, ok, cancel_later) = due_at-renewed sub n in
      let t = timely (ground (arith)) in
      let (finish, e, later, next_timely) = next_end o to sub cal t ok (ground (arith)) in
      let next = next_period sub (due_at sub) finish in
      let (s, stored, same, status) = renew-Renewed o ids key next (due_at sub) b in
      let (b', fires) = renew o ids key next (due_at sub) b in
      (
        b',
        fires,
        cycle-renews o ids key sub (due_at sub) finish b n e,
        (
          s,
          stored,
          (λ h.
              SameTiming-IsTimely o to next s same (next_status sub.status)
                (same_status next.status s.status (next_status sub.status) status)
                (next_timely (due_at sub))),
          renewed_less to sub s finish due at_end later cancel_later same.2 same.4,
        ),
      )
]
