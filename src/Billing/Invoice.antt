-- ===== src/Billing/Invoice.antt =====
-- Invoices and their payment: `newInvoiceLocked`, `payInvoiceLocked` and the functions that they call
-- (internal/devserver/stripemock_subscription.go).
use Prim.Native.String.{◌++◌ as ◌<>◌}
use hamr.Base.{
  ℕ, suc, ◌+◌, String, Bool, true, false, not, ◌&&◌, Option, none, some, List, [], ◌∷◌, ◌==◌, eqb,
  ltb, if◌then◌else◌,
}
use hamr.Base.Int.{ℤ, pos, ltb_ℤ, min_ℤ, is_zero}
use hamr.Base.Float.{Float64}
use hamr.Base.Int64.{add64, sub64, mul64}
use hamr.Base.Assoc.{lookup, insert}
use hamr.Base.Lists.{length}
use hamr.Stripe.Objects.{PiStatus, StripePaymentIntent, StripeCharge}
use hamr.Stripe.State.{StripeMock}
use hamr.Billing.{
  InvoiceStatus, StripeSubscriptionItem, StripeSubscriptionDiscount, StripeSubscription,
  StripeInvoiceLine, StripeInvoice, Billing, BillingObject, BillingFire, Outside, is_zero_time,
}

abbrev pub total : StripeInvoice → ℤ
total inv = sub64 inv.subtotal inv.discount

-- The loop of `perPeriod`, from the total so far.
unfoldable pub add_items : ℤ → List StripeSubscriptionItem → ℤ
add_items so_far [] = so_far
add_items so_far (it ∷ items) = add_items (add64 so_far (mul64 it.unit_amount it.quantity)) items

abbrev pub per_period : StripeSubscription → ℤ
per_period s = add_items (pos 0) s.items

-- `PercentOff > 0`
abbrev pub is_percent : Float64 → ℕ → Bool
is_percent f percent_off = f.lt (f.of_int (pos 0)) percent_off

-- `int64(math.Round(float64(subtotal) * PercentOff / 100))`
unfoldable pub percent_of : Float64 → ℤ → ℕ → ℤ
percent_of f subtotal percent_off =
    f.to_int (f.round (f.div (f.mul (f.of_int subtotal) percent_off) (f.of_int (pos 100))))

-- `(*stripeCoupon).discountFor`, on the coupon's fields; `none` is the error on the currency.
unfoldable pub coupon_discount : Outside → ℕ → ℤ → String → ℤ → String → Option ℤ
unfolding percent_of
coupon_discount o percent_off amount_off coupon_currency subtotal currency =
    if is_percent o.float percent_off
    then some (percent_of o.float subtotal percent_off)
    else if not (coupon_currency == currency)
    then none
    else some (min_ℤ amount_off subtotal)

unfoldable pub is_over : StripeSubscriptionDiscount → ℕ → Bool
is_over d at = not (is_zero_time d.ends_at) && not (ltb at d.ends_at)

unfoldable pub discount_for : Outside → StripeSubscription → ℤ → ℕ → ℤ
unfolding coupon_discount is_over
discount_for o s subtotal at = elim s.discount [
  | none ↦ pos 0
  | some d ↦
      if is_over d at
      then pos 0
      else elim (coupon_discount o d.percent_off d.amount_off s.currency subtotal s.currency) [
        | none ↦ pos 0
        | some amount ↦ amount
      ]
]

-- The lines of an invoice, the id of each drawn in turn from the k-th on.
unfoldable pub invoice_lines :
    Outside
    → (ℕ → String)
    → StripeSubscription
    → ℕ
    → List StripeSubscriptionItem
    → List StripeInvoiceLine
invoice_lines o ids sub k [] = []
invoice_lines o ids sub k (it ∷ items) =
    record {
      id = "il_test_" <> ids k;
      description = o.line_text it sub.currency;
      amount = mul64 it.unit_amount it.quantity;
      unit_amount = it.unit_amount;
      quantity = it.quantity;
      price_id = it.price_id;
      product_id = it.product_id;
      subscription_item_id = it.id;
      period_start = sub.current_period_start;
      period_end = sub.current_period_end;
    }
    ∷ invoice_lines o ids sub (suc k) items

unfoldable pub discount_id_of : StripeSubscription → ℤ → String
discount_id_of sub amount = elim sub.discount [
  | none ↦ ""
  | some d ↦ if ltb_ℤ (pos 0) amount then d.id else ""
]

abbrev pub invoice_key : (ℕ → String) → String
invoice_key ids = "in_test_" <> ids 0

unfoldable pub new_invoice :
    Outside → (ℕ → String) → StripeSubscription → String → ℕ → Billing → StripeInvoice
unfolding add_items discount_for invoice_lines discount_id_of
new_invoice o ids sub reason at b =
    let subtotal = per_period sub in
    let discount = discount_for o sub subtotal at in
    record {
      id = invoice_key ids;
      number = o.invoice_number (length b.invoices + 1);
      customer_id = sub.customer_id;
      subscription_id = sub.id;
      status = InvoiceStatus.unset;
      billing_reason = reason;
      currency = sub.currency;
      subtotal = subtotal;
      discount = discount;
      discount_id = discount_id_of sub discount;
      payment_intent_id = "";
      period_start = sub.current_period_start;
      period_end = sub.current_period_end;
      lines = invoice_lines o ids sub 1 sub.items;
      attempt_count = 0;
      created = at;
      paid_at = 0;
      voided_at = 0;
      metadata = none;
    }

-- `newInvoicePaymentIntentLocked`, its ids drawn from the k-th on.
unfoldable pub new_invoice_payment_intent :
    (ℕ → String) → ℕ → StripeInvoice → ℕ → StripePaymentIntent
new_invoice_payment_intent ids k inv at =
    let key = "pi_test_" <> ids k in
    record {
      id = key;
      amount = total inv;
      currency = inv.currency;
      status = PiStatus.requires_payment_method;
      capture_method = "automatic";
      confirmation_method = "automatic";
      application_fee_amount = pos 0;
      transfer_data_destination = "";
      transfer_data_amount = pos 0;
      on_behalf_of = "";
      stripe_account = "";
      latest_charge_id = "";
      transfer_id = "";
      description = "Invoice " <> inv.number;
      statement_descriptor = "";
      receipt_email = "";
      customer = inv.customer_id;
      payment_method = "pm_card_visa";
      client_secret = key <> "_secret_" <> ids (suc k);
      created = at;
      metadata = none;
      failed = false;
      amount_received = pos 0;
    }

abbrev pub invoice_charge : String → StripePaymentIntent → ℕ → StripeCharge
invoice_charge key pi at = record {
  id = key;
  amount = pi.amount;
  amount_captured = pi.amount;
  amount_refunded = pos 0;
  currency = pi.currency;
  status = "succeeded";
  paid = true;
  captured = true;
  refunded = false;
  payment_intent_id = pi.id;
  payment_method = "pm_card_visa";
  application_fee_amount = pos 0;
  destination = "";
  transfer_id = "";
  description = pi.description;
  receipt_email = "";
  customer = pi.customer;
  created = at;
  metadata = pi.metadata;
  dispute_id = "";
}

-- The payment of an invoice with the intent `pi`, which stands under `id`.
unfoldable pub settle :
    (ℕ → String) → ℕ → String → StripePaymentIntent → ℕ → StripeMock → StripeMock × List BillingFire
settle ids k id pi at m =
    let key = "ch_test_" <> ids k in
    let ch = invoice_charge key pi at in
    let pi' : StripePaymentIntent = record pi {
      status = PiStatus.succeeded;
      failed = false;
      latest_charge_id = key;
      amount_received = pi.amount;
    } in
    let fires : List BillingFire =
      record {
        event_type = "payment_intent.succeeded";
        event_object = BillingObject.payment_intent pi' (some ch);
      }
      ∷ record { event_type = "charge.succeeded"; event_object = BillingObject.charge ch }
      ∷ [] in
    (
      record m {
        charges = insert key ch m.charges;
        payment_intents = insert id pi' m.payment_intents;
      },
      fires,
    )

abbrev pub paid_now : StripeInvoice → ℕ → StripeInvoice
paid_now inv at = record inv {
  status = InvoiceStatus.paid;
  paid_at = at;
  attempt_count = if eqb inv.attempt_count 0 then 1 else inv.attempt_count;
}

-- `payInvoiceLocked`: the invoice as it is left, the mock, and the events.
unfoldable pub pay_invoice :
    (ℕ → String)
    → ℕ
    → StripeInvoice
    → ℕ
    → StripeMock
    → StripeInvoice × StripeMock × List BillingFire
unfolding lookup new_invoice_payment_intent settle
pay_invoice ids k inv at m =
    let inv' = paid_now inv at in
    let pi = new_invoice_payment_intent ids k inv' at in
    if is_zero (total inv)
    then (inv', m, [])
    else elim (lookup inv.payment_intent_id m.payment_intents) [
      | some held ↦
          let (m', fires) = settle ids k inv.payment_intent_id held at m in (inv', m', fires)
      | none ↦
          let (m', fires) = settle ids (suc (suc k)) pi.id pi at m in
          (record inv' { payment_intent_id = pi.id }, m', fires)
    ]
