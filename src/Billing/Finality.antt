-- ===== src/Billing/Finality.antt =====
-- A payment that has succeeded, through requests and the clock: `payInvoiceLocked` writes payment
-- intents too (internal/devserver/stripemock_subscription.go).
use Prim.Native.String.{◌++◌ as ◌<>◌}
use hamr.Base.{
  ℕ, suc, String, false, ◌&&◌, Option, some, List, ◌≡◌, ◌≢◌, arith, eq_iff, inl, inr, Option-cases,
  Bool-cases, refl, ◌∙◌, subst, ◌==◌,
}
use hamr.Base.Int.{pos, ltb_ℤ, is_zero}
use hamr.Base.Assoc.{Assoc, lookup, insert, lookup-insert}
use hamr.Base.Lists.{length}
use hamr.Stripe.Objects.{StripePaymentIntent, PiStatus}
use hamr.Stripe.State.{StripeMock, Env, payment_intent_key}
use hamr.Stripe.Run.{Request, perform}
use hamr.Stripe.Lifecycle.Run.{perform-Steps, ended-PiStep}
use hamr.Billing.{
  StripeSubscription, StripeInvoice, SubscriptionStatus, Billing, BillingFire, Outside,
}
use hamr.Billing.Calendar.{period_end}
use hamr.Billing.Cancel.{is_past_due, invoice_is_open, cancel_subscription}
use hamr.Billing.Invoice.{total, new_invoice, new_invoice_payment_intent, settle, pay_invoice}
use hamr.Billing.Cycle.{
  ends_now, drop_once, cycle_subscription, next_period, renew, fail_renewal, pay_and_store,
  retry_subscription,
}
use hamr.Billing.Clock.Progress.{next_number}
use hamr.Billing.Clock.Advances.{cycle-ends, cycle-renews}
use hamr.Billing.Collect.Run.{retry-pays}

-- None of the ids that are drawn is `id`'s.
abbrev pub NoneDraws : (ℕ → String) → String → Type 0
NoneDraws ids id = (n : ℕ) → "pi_test_" <> ids n ≢ id

-- What happens to the mock and its subscriptions: a request, a cycle, a retry or a cancellation, none of
-- which draws `id` for another intent.
pub data Move (o : Outside) (id : String) : Billing → Billing → Type 0 where
  requests :
      {b : Billing} (env : Env) (r : Request)
      → payment_intent_key env 0 ≢ id
      → Move o id b (record b { mock = perform env r b.mock })
  cycles :
      {b b' : Billing} {fires : List BillingFire} (ids : ℕ → String) (key : String)
      (sub : StripeSubscription) (at : ℕ)
      → NoneDraws ids id
      → cycle_subscription o ids key sub at b ≡ some (b', fires)
      → Move o id b b'
  retries :
      {b b' : Billing} {fires : List BillingFire} (ids : ℕ → String) (key : String)
      (sub : StripeSubscription) (at : ℕ)
      → NoneDraws ids id
      → retry_subscription ids key sub at b ≡ some (b', fires)
      → Move o id b b'
  cancels :
      {b : Billing} (key : String) (sub : StripeSubscription) (at : ℕ)
      → Move o id b (cancel_subscription key sub at b).0

pub data Moves (o : Outside) (id : String) : Billing → Billing → Type 0 where
  done : {b : Billing} → Moves o id b b
  next : {b b' b'' : Billing} → Move o id b b' → Moves o id b' b'' → Moves o id b b''

-- The intent has succeeded, over the same amount in the same currency.
abbrev pub IsSucceeded : StripePaymentIntent → StripePaymentIntent → Type 0
IsSucceeded pi pi' =
    (pi'.status ≡ PiStatus.succeeded) × (pi'.amount ≡ pi.amount) × (pi'.currency ≡ pi.currency)

abbrev pub StaysIn : String → StripePaymentIntent → Assoc StripePaymentIntent → Type 0
StaysIn id pi pis = (pi' : StripePaymentIntent) × (lookup id pis ≡ some pi') × IsSucceeded pi pi'

abbrev pub Stays : String → StripePaymentIntent → Billing → Type 0
Stays id pi b = StaysIn id pi b.mock.payment_intents

module _ (id : String) (pi : StripePaymentIntent) where
  put-StaysIn :
      (pis : Assoc StripePaymentIntent) (key : String) (new : StripePaymentIntent)
      → StaysIn id pi pis
      → ((held : StripePaymentIntent) → key ≡ id → lookup id pis ≡ some held → IsSucceeded held new)
      → StaysIn id pi (insert key new pis)
  put-StaysIn pis key new (pi', here, (paid, amount, currency)) over =
      elim (Bool-cases (key == id)) [
        | inl y ↦
            let (paid', amount', currency') = over pi' ((eq_iff key id).0 y) here in
            (
              new,
              rw (lookup-insert key id new pis, y) refl,
              (paid', amount' ∙ amount, currency' ∙ currency),
            )
        | inr n ↦ (pi', rw (lookup-insert key id new pis, n) here, (paid, amount, currency))
      ]

  pay_invoice-StaysIn :
      (ids : ℕ → String) (k : ℕ) (inv : StripeInvoice) (at : ℕ) (m : StripeMock)
      → NoneDraws ids id
      → StaysIn id pi m.payment_intents
      → StaysIn id pi (pay_invoice ids k inv at m).1.payment_intents
  unfolding pay_invoice settle new_invoice_payment_intent
  pay_invoice-StaysIn ids k inv at m new here = elim (Bool-cases (is_zero (total inv))) [
    | inl y ↦ rw (y, pay_invoice) here
    | inr n ↦ elim (Option-cases (lookup inv.payment_intent_id m.payment_intents)) [
      | inl e ↦
          rw (n, e, pay_invoice)
            (put-StaysIn m.payment_intents _ _ here (λ held same _. absurd (new k same)))
      | inr (old, e) ↦
          rw (n, e, pay_invoice)
            (put-StaysIn m.payment_intents inv.payment_intent_id _ here
              (λ held same f. (refl, ground (arith, same, e, f), ground (arith, same, e, f))))
    ]
  ]

  pay_and_store-Stays :
      (ids : ℕ → String) (k : ℕ) (key target : String) (sub : StripeSubscription)
      (inv : StripeInvoice) (at : ℕ) (b : Billing)
      → NoneDraws ids id
      → Stays id pi b
      → Stays id pi (pay_and_store ids k key target sub inv at b).0
  unfolding pay_and_store
  pay_and_store-Stays ids k key target sub inv at b new here =
      pay_invoice-StaysIn ids k inv at b.mock new here

  fail_renewal-Stays :
      (ids : ℕ → String) (key : String) (sub : StripeSubscription) (inv : StripeInvoice) (at : ℕ)
      (b : Billing)
      → NoneDraws ids id
      → Stays id pi b
      → Stays id pi (fail_renewal ids key sub inv at b).0
  unfolding fail_renewal new_invoice_payment_intent
  fail_renewal-Stays ids key sub inv at b new here =
      put-StaysIn b.mock.payment_intents _ _ here
        (λ held same _. absurd (new (suc (length sub.items)) same))

  renew-Stays :
      (o : Outside) (ids : ℕ → String) (key : String) (sub : StripeSubscription) (at : ℕ)
      (b : Billing)
      → NoneDraws ids id
      → Stays id pi b
      → Stays id pi (renew o ids key sub at b).0
  unfolding renew
  renew-Stays o ids key sub at b new here =
      let inv = new_invoice o ids sub "subscription_cycle" at b in
      let sub' : StripeSubscription = record sub {
        latest_invoice_id = inv.id;
        discount = drop_once sub.discount;
        fail_next_renewal = false;
      } in
      elim (Bool-cases (sub.fail_next_renewal && ltb_ℤ (pos 0) (total inv))) [
        | inl y ↦ rw (y, renew) (fail_renewal-Stays ids key sub' inv at b new here)
        | inr n ↦
            rw (n, renew)
              (pay_and_store-Stays ids (suc (length sub.items)) key inv.id sub' inv at b new here)
      ]

  left-Stays :
      {o : Option (Billing × List BillingFire)} {x : Billing × List BillingFire} {b' : Billing}
      {fires : List BillingFire}
      → o ≡ some x
      → o ≡ some (b', fires)
      → Stays id pi x.0
      → Stays id pi b'
  left-Stays {o} {x} {b'} {fires} e f c =
      let same : x ≡ (b', fires) = cc in subst (λ y. Stays id pi y.0) same c

  cancel-Stays :
      (key : String) (sub : StripeSubscription) (at : ℕ) (b : Billing)
      → Stays id pi b
      → Stays id pi (cancel_subscription key sub at b).0
  unfolding cancel_subscription
  cancel-Stays key sub at b here = here

  Move-Stays : (o : Outside) (b b' : Billing) → Move o id b b' → Stays id pi b → Stays id pi b'
  unfolding cycle_subscription retry_subscription
  Move-Stays o b b' (requests env r new) (pi', here, (paid, amount, currency)) =
      let (pi'', there, step) = perform-Steps env r b.mock id pi' here new in
      (
        pi',
        rw (ended-PiStep pi' pi'' (ground (arith, paid)) step) at there,
        (paid, amount, currency),
      )
  Move-Stays o b b' (cycles ids key sub at new e) here = elim (Bool-cases (ends_now sub at)) [
    | inl y ↦ left-Stays (cycle-ends o ids key sub at b y) e (cancel-Stays key sub at b here)
    | inr n ↦ elim (Option-cases (period_end o sub (next_number sub))) [
      | inl m ↦ absurd (ground (arith))
      | inr (finish, f) ↦
          left-Stays (cycle-renews o ids key sub at finish b n f) e
            (renew-Stays o ids key (next_period sub at finish) at b new here)
    ]
  ]
  Move-Stays o b b' (retries ids key sub at new e) here =
      elim (Option-cases (lookup sub.latest_invoice_id b.invoices)) [
        | inl n ↦ absurd (ground (arith))
        | inr (inv, f) ↦ elim (Bool-cases (is_past_due sub.status && invoice_is_open inv.status)) [
          | inl y ↦ left-Stays (retry-pays ids key sub at b inv f y) e (
              pay_and_store-Stays ids 0 key sub.latest_invoice_id
                (record sub { status = SubscriptionStatus.active })
                (record inv { attempt_count = suc inv.attempt_count }) at b new here)
          | inr m ↦ absurd (ground (arith))
        ]
      ]
  Move-Stays o b b' (cancels key sub at) here = cancel-Stays key sub at b here

-- A payment that has succeeded stays so, and its amount and currency stay what they were, after any
-- sequence of requests on intents, refunds, transfers, reversals, payouts, balances, disputes and
-- accounts, and of cycles, retries and cancellations of subscriptions, none of which draws the intent's
-- id for another one. A retry may write a new charge into it.
pub Moves-Stays :
    (o : Outside) (id : String) (pi : StripePaymentIntent) (b b' : Billing)
    → lookup id b.mock.payment_intents ≡ some pi
    → pi.status ≡ PiStatus.succeeded
    → Moves o id b b'
    → Stays id pi b'
Moves-Stays o id pi b b' here succeeded moves = go b b' moves (pi, here, (succeeded, refl, refl))
  where
    go : (c c' : Billing) → Moves o id c c' → Stays id pi c → Stays id pi c'
    go c c' done h = h
    go c c' (next {b' = mid} move rest) h = go mid c' rest (Move-Stays id pi o c mid move h)
