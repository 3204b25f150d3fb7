-- ===== src/Billing/Collect/Run.antt =====
-- Any sequence of cycles, retries and cancellations of stored subscriptions.
use hamr.Base.{
  none, ℕ, suc, String, true, false, ◌&&◌, Option, some, List, ◌≡◌, arith, inl, inr, Option-cases,
  Bool-cases, refl, subst,
}
use hamr.Base.Assoc.{lookup}
use hamr.Billing.{
  StripeSubscription, StripeInvoice, SubscriptionStatus, InvoiceStatus, Billing, BillingFire,
  Outside,
}
use hamr.Billing.Calendar.{period_end}
use hamr.Billing.Cancel.{is_canceled, is_past_due, invoice_is_open, cancel_subscription}
use hamr.Billing.Cycle.{
  ends_now, cycle_subscription, next_period, retry_subscription, pay_and_store,
}
use hamr.Billing.Clock.Progress.{next_number}
use hamr.Billing.Clock.Advances.{cycle-ends, cycle-renews}
use hamr.Billing.Collect.{
  IsCollectable, cancel-IsCollectable, renew-IsCollectable, none_open, pay_and_store-IsCollectable,
}

-- What the clock, the dashboard and the API do to one stored subscription.
pub data Step (o : Outside) : Billing → Billing → Type 0 where
  cycles :
      {b b' : Billing} {fires : List BillingFire} (ids : ℕ → String) (key : String)
      (sub : StripeSubscription) (at : ℕ)
      → lookup key b.subscriptions ≡ some sub
      → cycle_subscription o ids key sub at b ≡ some (b', fires)
      → Step o b b'
  retries :
      {b b' : Billing} {fires : List BillingFire} (ids : ℕ → String) (key : String)
      (sub : StripeSubscription) (at : ℕ)
      → lookup key b.subscriptions ≡ some sub
      → retry_subscription ids key sub at b ≡ some (b', fires)
      → Step o b b'
  cancels :
      {b : Billing} (key : String) (sub : StripeSubscription) (at : ℕ)
      → lookup key b.subscriptions ≡ some sub
      → is_canceled sub.status ≡ false
      → Step o b (cancel_subscription key sub at b).0

pub data Steps (o : Outside) : Billing → Billing → Type 0 where
  done : {b : Billing} → Steps o b b
  next : {b b' b'' : Billing} → Step o b b' → Steps o b' b'' → Steps o b b''

left :
    {o : Option (Billing × List BillingFire)} {x : Billing × List BillingFire} {b' : Billing}
    {fires : List BillingFire}
    → o ≡ some x
    → o ≡ some (b', fires)
    → IsCollectable x.0
    → IsCollectable b'
left {o} {x} {b'} {fires} e f c =
    let same : x ≡ (b', fires) = cc in subst (λ y. IsCollectable y.0) same c

cycle-IsCollectable :
    (o : Outside) (ids : ℕ → String) (key : String) (sub : StripeSubscription) (at : ℕ)
    (b b' : Billing) (fires : List BillingFire)
    → IsCollectable b
    → lookup key b.subscriptions ≡ some sub
    → cycle_subscription o ids key sub at b ≡ some (b', fires)
    → IsCollectable b'
unfolding cycle_subscription ends_now
cycle-IsCollectable o ids key sub at b b' fires c here e = elim (Bool-cases (ends_now sub at)) [
  | inl y ↦ left (cycle-ends o ids key sub at b y) e (cancel-IsCollectable key sub at b c here)
  | inr n ↦
      let live : is_past_due sub.status ≡ false = ground (arith) in
      let own = c.keyed key sub here in
      elim (Option-cases (period_end o sub (next_number sub))) [
        | inl m ↦ absurd (ground (arith))
        | inr (finish, f) ↦
            let free = none_open key sub b c here live in
            left (cycle-renews o ids key sub at finish b n f) e
              (renew-IsCollectable o ids key (next_period sub at finish) at b c own free)
      ]
]

pub retry-pays :
    (ids : ℕ → String) (key : String) (sub : StripeSubscription) (at : ℕ) (b : Billing)
    (inv : StripeInvoice)
    → lookup sub.latest_invoice_id b.invoices ≡ some inv
    → (is_past_due sub.status && invoice_is_open inv.status) ≡ true
    → retry_subscription ids key sub at b
      ≡ some (
          pay_and_store ids 0 key sub.latest_invoice_id
            (record sub { status = SubscriptionStatus.active })
            (record inv { attempt_count = suc inv.attempt_count })
            at
            b)
unfolding retry_subscription
retry-pays ids key sub at b inv f y = rw (f, retry_subscription) (rw y refl)

only_latest :
    (key : String) (sub : StripeSubscription) (b : Billing)
    → IsCollectable b
    → lookup key b.subscriptions ≡ some sub
    → (k : String) (other : StripeInvoice) → lookup k b.invoices ≡ some other
    → invoice_is_open other.status ≡ true
    → other.subscription_id ≡ key
    → k ≡ sub.latest_invoice_id
only_latest key sub b c here k other g y same =
    let (t, stored, late, latest) = c.owed k other g y in let found : t ≡ sub = cc in cc

retry-IsCollectable :
    (ids : ℕ → String) (key : String) (sub : StripeSubscription) (at : ℕ) (b b' : Billing)
    (fires : List BillingFire)
    → IsCollectable b
    → lookup key b.subscriptions ≡ some sub
    → retry_subscription ids key sub at b ≡ some (b', fires)
    → IsCollectable b'
unfolding retry_subscription
retry-IsCollectable ids key sub at b b' fires c here e =
    elim (Option-cases (lookup sub.latest_invoice_id b.invoices)) [
      | inl n ↦ absurd (ground (arith))
      | inr (inv, f) ↦
          let paid : StripeSubscription = record sub { status = SubscriptionStatus.active } in
          let counted : StripeInvoice = record inv { attempt_count = suc inv.attempt_count } in
          let answer = pay_and_store ids 0 key sub.latest_invoice_id paid counted at b in
          elim (Bool-cases (is_past_due sub.status && invoice_is_open inv.status)) [
            | inl y ↦ left (retry-pays ids key sub at b inv f y) e (
                pay_and_store-IsCollectable ids 0 key sub.latest_invoice_id paid counted at b c
                  (c.keyed key sub here)
                  (λ k other g z same. only_latest key sub b c here k other g z same))
            | inr m ↦ absurd (ground (arith))
          ]
    ]

Step-IsCollectable :
    (o : Outside) (b b' : Billing) → IsCollectable b → Step o b b' → IsCollectable b'
Step-IsCollectable o b b' c (cycles {fires = fires} ids key sub at here e) =
    cycle-IsCollectable o ids key sub at b b' fires c here e
Step-IsCollectable o b b' c (retries {fires = fires} ids key sub at here e) =
    retry-IsCollectable ids key sub at b b' fires c here e
Step-IsCollectable o b b' c (cancels key sub at here live) =
    cancel-IsCollectable key sub at b c here

-- Steps keep the invariant.
pub Steps-IsCollectable :
    (o : Outside) (b b' : Billing) → IsCollectable b → Steps o b b' → IsCollectable b'
Steps-IsCollectable o b b' c done = c
Steps-IsCollectable o b b' c (next {b' = mid} s rest) =
    Steps-IsCollectable o mid b' (Step-IsCollectable o b mid c s) rest

-- What a retry leaves of the subscription `sub` under `key`: it is active, its latest invoice is paid,
-- none of its invoices is open, and another retry is refused.
abbrev pub IsSettled : String → StripeSubscription → Billing → Type 0
IsSettled key sub b =
    let active : StripeSubscription = record sub { status = SubscriptionStatus.active } in
    (lookup key b.subscriptions ≡ some active)
    × ((inv : StripeInvoice) × (lookup sub.latest_invoice_id b.invoices ≡ some inv)
        × (inv.status ≡ InvoiceStatus.paid))
    × ((k : String) (inv : StripeInvoice)
        → lookup k b.invoices ≡ some inv
        → inv.subscription_id ≡ key
        → invoice_is_open inv.status ≡ false)
    × ((ids : ℕ → String) (at : ℕ) → retry_subscription ids key active at b ≡ none)
