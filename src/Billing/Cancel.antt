-- ===== src/Billing/Cancel.antt =====
-- The end of a subscription: `cancelSubscriptionLocked`, and the tests on statuses
-- (internal/devserver/stripemock_subscription.go).
use hamr.Base.{ℕ, String, Bool, true, false, ◌&&◌, List, [], ◌∷◌, ◌==◌, if◌then◌else◌}
use hamr.Base.Assoc.{Assoc, insert}
use hamr.Billing.{
  SubscriptionStatus, InvoiceStatus, StripeSubscription, StripeInvoice, Billing, BillingObject,
  BillingFire,
}

abbrev pub is_trialing : SubscriptionStatus → Bool
is_trialing SubscriptionStatus.trialing = true
is_trialing _ = false

abbrev pub is_past_due : SubscriptionStatus → Bool
is_past_due SubscriptionStatus.past_due = true
is_past_due _ = false

abbrev pub is_canceled : SubscriptionStatus → Bool
is_canceled SubscriptionStatus.canceled = true
is_canceled _ = false

abbrev pub invoice_is_open : InvoiceStatus → Bool
invoice_is_open InvoiceStatus.is_open = true
invoice_is_open _ = false

abbrev voided : StripeInvoice → ℕ → StripeInvoice
voided inv at = record inv { status = InvoiceStatus.voided; voided_at = at }

-- The loop of `cancelSubscriptionLocked` over the invoices.
unfoldable pub void_open : String → ℕ → Assoc StripeInvoice → Assoc StripeInvoice
void_open id at [] = []
void_open id at ((k, inv) ∷ rest) =
    if inv.subscription_id == id && invoice_is_open inv.status
    then (k, voided inv at) ∷ void_open id at rest
    else (k, inv) ∷ void_open id at rest

unfoldable pub voided_fires : String → ℕ → Assoc StripeInvoice → List BillingFire
voided_fires id at [] = []
voided_fires id at ((k, inv) ∷ rest) =
    if inv.subscription_id == id && invoice_is_open inv.status
    then record {
      event_type = "invoice.voided";
      event_object = BillingObject.invoice (voided inv at);
    }
      ∷ voided_fires id at rest
    else voided_fires id at rest

abbrev pub fire_subscription : String → StripeSubscription → BillingFire
fire_subscription event_type sub = record {
  event_type = event_type;
  event_object = BillingObject.subscription sub;
}

abbrev pub fire_invoice : String → StripeInvoice → BillingFire
fire_invoice event_type inv = record {
  event_type = event_type;
  event_object = BillingObject.invoice inv;
}

abbrev pub ended : StripeSubscription → ℕ → StripeSubscription
ended sub at = record sub {
  status = SubscriptionStatus.canceled;
  canceled_at = at;
  ended_at = at;
  cancel_at_period_end = false;
}

-- The subscription stands under `key`.
unfoldable pub cancel_subscription :
    String → StripeSubscription → ℕ → Billing → Billing × List BillingFire
unfolding insert void_open voided_fires
cancel_subscription key sub at b =
    let sub' = ended sub at in
    (
      record b {
        subscriptions = insert key sub' b.subscriptions;
        invoices = void_open sub.id at b.invoices;
      },
      fire_subscription "customer.subscription.deleted" sub' ∷ voided_fires sub.id at b.invoices,
    )
