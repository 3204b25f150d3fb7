-- ===== src/Billing/Cycle.antt =====
-- What the clock does to one subscription: `cycleSubscriptionLocked` and
-- `retrySubscriptionLocked` (internal/devserver/stripemock_subscription.go).
use hamr.Base.{
  ℕ, suc, String, Bool, true, false, not, ◌&&◌, ◌||◌, Option, none, some, List, [], ◌∷◌, ◌==◌, leb,
  if◌then◌else◌,
}
use hamr.Base.Int.{pos, ltb_ℤ}
use hamr.Base.Assoc.{lookup, insert}
use hamr.Base.Lists.{length}
use hamr.Stripe.Objects.{StripePaymentIntent}
use hamr.Billing.{
  SubscriptionStatus, InvoiceStatus, StripeSubscriptionDiscount, StripeSubscription, StripeInvoice,
  Billing, BillingObject, BillingFire, Outside, is_zero_time,
}
use hamr.Billing.Calendar.{period_end}
use hamr.Billing.Invoice.{total, is_over, new_invoice, new_invoice_payment_intent, pay_invoice}
use hamr.Billing.Cancel.{
  is_trialing, is_past_due, invoice_is_open, fire_subscription, fire_invoice, cancel_subscription,
}

unfoldable pub ends_now : StripeSubscription → ℕ → Bool
ends_now sub at =
    sub.cancel_at_period_end
    || (not (is_zero_time sub.cancel_at) && leb sub.cancel_at at)
    || is_past_due sub.status

unfoldable pub drop_over : Option StripeSubscriptionDiscount → ℕ → Option StripeSubscriptionDiscount
unfolding is_over
drop_over none at = none
drop_over (some d) at = if is_over d at then none else some d

unfoldable pub drop_once : Option StripeSubscriptionDiscount → Option StripeSubscriptionDiscount
drop_once none = none
drop_once (some d) = if d.duration == "once" then none else some d

-- The next period, begun at `at`, that ends at `finish`.
abbrev pub next_period : StripeSubscription → ℕ → ℕ → StripeSubscription
next_period sub at finish = record sub {
  discount = drop_over sub.discount at;
  current_period_start = at;
  current_period_end = finish;
  status = if is_trialing sub.status then SubscriptionStatus.active else sub.status;
  cycles = if is_trialing sub.status then sub.cycles else suc sub.cycles;
}

abbrev pub paid_fires : StripeInvoice → StripeSubscription → List BillingFire → List BillingFire
paid_fires inv sub fires =
    fire_invoice "invoice.paid" inv
    ∷ fire_invoice "invoice.payment_succeeded" inv
    ∷ fire_subscription "customer.subscription.updated" sub
    ∷ fires

abbrev left_open : StripeInvoice → StripeInvoice
left_open inv = record inv { status = InvoiceStatus.is_open; attempt_count = 1 }

-- The intent of a failed renewal, and its invoice.
abbrev failed_intent : (ℕ → String) → StripeSubscription → StripeInvoice → ℕ → StripePaymentIntent
failed_intent ids sub inv at =
    record (new_invoice_payment_intent ids (suc (length sub.items)) (left_open inv) at) {
      failed = true;
    }

abbrev pub failed_invoice : (ℕ → String) → StripeSubscription → StripeInvoice → ℕ → StripeInvoice
failed_invoice ids sub inv at = record (left_open inv) {
  payment_intent_id = (failed_intent ids sub inv at).id;
}

unfoldable pub fail_renewal :
    (ℕ → String)
    → String
    → StripeSubscription
    → StripeInvoice
    → ℕ
    → Billing
    → Billing × List BillingFire
unfolding insert new_invoice_payment_intent
fail_renewal ids key sub inv at b =
    let sub' : StripeSubscription = record sub { status = SubscriptionStatus.past_due } in
    let pi = failed_intent ids sub inv at in
    let inv' = failed_invoice ids sub inv at in
    let m = b.mock in
    (
      record b {
        mock = record m { payment_intents = insert pi.id pi m.payment_intents };
        subscriptions = insert key sub' b.subscriptions;
        invoices = insert inv.id inv' b.invoices;
      },
      fire_invoice "invoice.payment_failed" inv'
          ∷ fire_subscription "customer.subscription.updated" sub'
          ∷ record {
            event_type = "payment_intent.payment_failed";
            event_object = BillingObject.payment_intent pi none;
          }
          ∷ [],
    )

-- The invoice is paid; its payment draws from the k-th id on.
unfoldable pub pay_and_store :
    (ℕ → String)
    → ℕ
    → String
    → String
    → StripeSubscription
    → StripeInvoice
    → ℕ
    → Billing
    → Billing × List BillingFire
unfolding insert pay_invoice
pay_and_store ids k key invoice_id sub inv at b =
    let (inv', m, fires) = pay_invoice ids k inv at b.mock in
    (
      record b {
        mock = m;
        subscriptions = insert key sub b.subscriptions;
        invoices = insert invoice_id inv' b.invoices;
      },
      paid_fires inv' sub fires,
    )

-- The renewal of a subscription in its new period.
unfoldable pub renew :
    Outside → (ℕ → String) → String → StripeSubscription → ℕ → Billing → Billing × List BillingFire
unfolding new_invoice drop_once fail_renewal pay_and_store
renew o ids key sub at b =
    let inv = new_invoice o ids sub "subscription_cycle" at b in
    let sub' : StripeSubscription = record sub {
      latest_invoice_id = inv.id;
      discount = drop_once sub.discount;
      fail_next_renewal = false;
    } in
    if sub.fail_next_renewal && ltb_ℤ (pos 0) (total inv)
    then fail_renewal ids key sub' inv at b
    else pay_and_store ids (suc (length sub.items)) key inv.id sub' inv at b

-- `none` is the panic of `periodEnd` on a subscription without items.
unfoldable pub cycle_subscription :
    Outside
    → (ℕ → String)
    → String
    → StripeSubscription
    → ℕ
    → Billing
    → Option (Billing × List BillingFire)
unfolding ends_now cancel_subscription period_end renew drop_over
cycle_subscription o ids key sub at b =
    if ends_now sub at
    then some (cancel_subscription key sub at b)
    else let n = if is_trialing sub.status then 0 else suc sub.cycles in
      elim (period_end o sub n) [
        | none ↦ none
        | some finish ↦ some (renew o ids key (next_period sub at finish) at b)
      ]

-- A refusal is a conflict.
unfoldable pub retry_subscription :
    (ℕ → String) → String → StripeSubscription → ℕ → Billing → Option (Billing × List BillingFire)
unfolding lookup pay_and_store
retry_subscription ids key sub at b = elim (lookup sub.latest_invoice_id b.invoices) [
  | none ↦ none
  | some inv ↦
      if is_past_due sub.status && invoice_is_open inv.status
      then some (
          pay_and_store ids 0 key sub.latest_invoice_id
            (record sub { status = SubscriptionStatus.active })
            (record inv { attempt_count = suc inv.attempt_count }) at b)
      else none
]
