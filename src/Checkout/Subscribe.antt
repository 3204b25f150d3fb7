-- ===== src/Checkout/Subscribe.antt =====
-- The subscription and the first invoice of a completed checkout: `createSubscriptionLocked`
-- (internal/devserver/stripemock_subscription.go).
pub mod Bills
pub mod Timing
use Prim.Native.String.{◌++◌ as ◌<>◌}
use hamr.Base.{
  ℕ, zero, suc, ◌+◌, ◌*◌, String, Bool, true, false, not, ◌&&◌, Option, none, some, List, [], ◌∷◌,
  ◌==◌, if◌then◌else◌,
}
use hamr.Base.Int.{ℤ, pos, max_ℤ}
use hamr.Base.Assoc.{Assoc, lookup, insert}
use hamr.Base.Lists.{length}
use hamr.Billing.{
  SubscriptionStatus, InvoiceStatus, StripeSubscriptionItem, StripeSubscriptionDiscount,
  StripeSubscription, StripeInvoiceLine, StripeInvoice, Billing, Outside, is_zero_time,
}
use hamr.Billing.Calendar.{add_months_clamped, period_end}
use hamr.Billing.Invoice.{new_invoice}
use hamr.Billing.Session.{StripeLineItem, StripeSession, StripeDiscount}
use hamr.Billing.Coupon.{StripeCoupon}

-- The items of the subscription; the draws of each start at the k-th.
unfoldable pub subscription_items :
    (ℕ → String) → ℕ → List StripeLineItem → List StripeSubscriptionItem
subscription_items ids k [] = []
subscription_items ids k (li ∷ items) =
    let inline = li.price_id == "" in
    record {
      id = "si_test_" <> ids k;
      price_id = if inline then "price_test_" <> ids (suc k) else li.price_id;
      product_id = if inline then "prod_test_" <> ids (suc (suc k)) else li.product_id;
      product_name = li.name;
      unit_amount = li.unit_amount;
      quantity = li.quantity;
      interval = li.interval;
      interval_count = max_ℤ li.interval_count (pos 1);
    }
    ∷ subscription_items ids (suc (suc (suc k))) items

-- The discount that the subscription keeps, from the session's first.
unfoldable pub kept_discount :
    Outside
    → (ℕ → String)
    → StripeSession
    → ℕ
    → Assoc StripeCoupon
    → Option StripeSubscriptionDiscount
unfolding lookup add_months_clamped
kept_discount o ids sess at coupons = elim sess.discounts [
  | [] ↦ none
  | d ∷ _ ↦ elim (lookup d.coupon coupons) [
    | some c ↦ some (record {
      id = "di_test_" <> ids 3;
      coupon_id = d.coupon;
      promotion_code_id = d.promotion_code;
      duration = c.duration;
      percent_off = c.percent_off;
      amount_off = c.amount_off;
      begins = at;
      ends_at =
          if c.duration == "repeating" then add_months_clamped o at c.duration_in_months else 0;
    })
    | none ↦ some (record {
      id = "di_test_" <> ids 3;
      coupon_id = d.coupon;
      promotion_code_id = d.promotion_code;
      duration = "once";
      percent_off = 0;
      amount_off = sess.amount_discount;
      begins = at;
      ends_at = 0;
    })
  ]
]

abbrev pub subscription_key : (ℕ → String) → String
subscription_key ids = "sub_test_" <> ids 2

-- The subscription before its first period is set.
unfoldable pub bare_subscription :
    Outside → (ℕ → String) → StripeSession → ℕ → Assoc StripeCoupon → StripeSubscription
unfolding subscription_items kept_discount
bare_subscription o ids sess at coupons = record {
  id = subscription_key ids;
  customer_id = sess.customer_id;
  session_id = sess.id;
  status = SubscriptionStatus.active;
  currency = sess.currency;
  items = subscription_items ids 6 sess.line_items;
  cycles = 0;
  billing_cycle_anchor = at;
  current_period_start = at;
  current_period_end = 0;
  cancel_at_period_end = false;
  cancel_at = 0;
  canceled_at = 0;
  ended_at = 0;
  latest_invoice_id = "";
  discount = kept_discount o ids sess at coupons;
  fail_next_renewal = false;
  description = "";
  trial_start = 0;
  trial_end = 0;
  start_date = at;
  created = at;
  metadata = sess.subscription_metadata;
}

-- Its first period, which is the trial when there is one.
unfoldable pub first_period : StripeSession → ℕ → ℕ → StripeSubscription → StripeSubscription
first_period sess at finish sub =
    if is_zero_time sess.trial_end then record sub { current_period_end = finish } else record sub {
      status = SubscriptionStatus.trialing;
      trial_start = at;
      trial_end = sess.trial_end;
      billing_cycle_anchor = sess.trial_end;
      current_period_end = sess.trial_end;
    }

unfoldable pub free_lines : List StripeInvoiceLine → List StripeInvoiceLine
free_lines [] = []
free_lines (line ∷ lines) = record line { amount = pos 0 } ∷ free_lines lines

-- What the session makes of the invoice: free for a trial, else with the discount that the buyer saw.
unfoldable pub first_invoice : StripeSession → ℕ → String → StripeInvoice → StripeInvoice
unfolding free_lines
first_invoice sess at pi_id inv =
    let inv' : StripeInvoice =
      if is_zero_time sess.trial_end
      then record inv { discount = sess.amount_discount }
      else record inv {
        subtotal = pos 0;
        discount = pos 0;
        discount_id = "";
        lines = free_lines inv.lines;
      } in
    record inv' {
      status = InvoiceStatus.paid;
      paid_at = at;
      attempt_count = 1;
      payment_intent_id = pi_id;
    }

abbrev pub is_once : Option StripeSubscriptionDiscount → Bool
is_once none = false
is_once (some d) = d.duration == "once"

-- The subscription with its invoice, and without a once-only discount that is used up.
unfoldable pub with_invoice : StripeSession → String → StripeSubscription → StripeSubscription
with_invoice sess key sub = record sub {
  latest_invoice_id = key;
  discount = if is_zero_time sess.trial_end && is_once sub.discount then none else sub.discount;
}

-- Where the draws of the invoice start.
abbrev pub invoice_ids : (ℕ → String) → StripeSession → ℕ → String
invoice_ids ids sess k = ids (6 + 3 * length sess.line_items + k)

-- `createSubscriptionLocked`; `none` is the panic of `periodEnd` on a session without a line.
unfoldable pub create_subscription :
    Outside
    → (ℕ → String)
    → StripeSession
    → String
    → ℕ
    → Assoc StripeCoupon
    → Billing
    → Option (StripeSubscription × StripeInvoice × Billing)
unfolding insert bare_subscription period_end first_period new_invoice first_invoice with_invoice
create_subscription o ids sess pi_id at coupons b =
    let bare = bare_subscription o ids sess at coupons in
    elim (period_end o bare 0) [
      | none ↦ none
      | some finish ↦
          let sub = first_period sess at finish bare in
          let inv =
            first_invoice sess at pi_id
              (new_invoice o (invoice_ids ids sess) sub "subscription_create" at b) in
          let sub' = with_invoice sess inv.id sub in
          some (
            sub',
            inv,
            record b {
              subscriptions = insert sub.id sub' b.subscriptions;
              invoices = insert inv.id inv b.invoices;
            },
          )
    ]
