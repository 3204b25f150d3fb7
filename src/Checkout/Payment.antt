-- ===== src/Checkout/Payment.antt =====
-- The steps of `completeCheckout`: the code that was typed, the redemption, and what is paid
-- (internal/devserver/stripemock_mcp.go).
use Prim.Native.String.{◌++◌ as ◌<>◌}
use hamr.Base.{
  ℕ, ◌+◌, String, Bool, true, false, not, ◌&&◌, ◌||◌, Option, none, some, List, [], ◌∷◌, ◌==◌, ltb,
  if◌then◌else◌,
}
use hamr.Base.Int.{pos, is_zero}
use hamr.Base.Assoc.{Assoc, insert}
use hamr.Stripe.Objects.{Metadata, PiStatus, StripePaymentIntent, StripeCharge}
use hamr.Billing.{StripeSubscription, StripeInvoice, BillingObject, is_zero_time}
use hamr.Billing.Session.{StripeSession, SessionPayment, session_total}
use hamr.Billing.Coupon.{Coupons, Applied, apply_discount, redeem_discount}
use hamr.Checkout.{
  StripeCustomer, Checkout, Library, OutcomeRule, CheckoutProblem, CheckoutObject, CheckoutFire,
}
use hamr.Checkout.Subscribe.{create_subscription}

-- `!TrialEnd.IsZero() && TrialEnd.Before(now + 48h)`
abbrev pub ends_too_soon : StripeSession → ℕ → Bool
ends_too_soon sess now = not (is_zero_time sess.trial_end) && ltb sess.trial_end (now + 172800)

-- The code that the buyer typed, if any; the session is left as it was when it is refused.
unfoldable pub typed_code :
    Library
    → ℕ
    → OutcomeRule
    → String
    → StripeSession
    → Coupons
    → Option CheckoutProblem × StripeSession
unfolding apply_discount
typed_code lib now rule promo sess cs =
    if rule.create_payment && not (promo == "")
    then (if sess.allow_promotion_codes
        then elim (apply_discount lib.outside lib.equal_fold now sess "" "" promo cs) [
          | Applied.applied sess' ↦ (none, sess')
          | Applied.not_applied p ↦ (some (CheckoutProblem.code_refused p), sess)
        ]
        else (some CheckoutProblem.no_promotion_codes, sess))
    else (none, sess)

-- The redemption; `prev` is the session before the code was typed, whose discount is put back when a
-- typed code cannot be redeemed.
unfoldable pub redeem_session :
    ℕ
    → OutcomeRule
    → String
    → StripeSession
    → StripeSession
    → Coupons
    → Option CheckoutProblem × StripeSession × Coupons
unfolding redeem_discount
redeem_session now rule promo prev sess cs =
    if rule.create_payment
    then (let (problem, cs') = redeem_discount now sess.discounts cs in
        elim problem [
          | none ↦ (none, sess, cs')
          | some p ↦ (
            some (CheckoutProblem.code_refused p),
            if promo == "" then sess else record sess {
              discounts = prev.discounts;
              amount_discount = prev.amount_discount;
            },
            cs',
          )
        ])
    else (none, sess, cs)

-- A 100% coupon or a trial: nothing is paid now.
abbrev pub is_free : StripeSession → Bool
is_free sess = is_zero (session_total sess) || not (is_zero_time sess.trial_end)

unfoldable pub closed_session : OutcomeRule → StripeSession → StripeSession
closed_session rule sess = record sess {
  status = rule.status;
  payment_status =
      if rule.create_payment && is_free sess
      then SessionPayment.no_payment_required
      else rule.payment_status;
}

abbrev pub pays : OutcomeRule → StripeSession → Bool
pays rule sess = rule.create_payment && not (is_free sess)

abbrev pub checkout_pi_key : (ℕ → String) → String
checkout_pi_key ids = "pi_test_" <> ids 0

abbrev pub checkout_charge_key : (ℕ → String) → String
checkout_charge_key ids = "ch_test_" <> ids 4

-- The customer of a subscription session, created when none was attached.
unfoldable pub with_customer :
    (ℕ → String) → ℕ → StripeSession → Assoc StripeCustomer → StripeSession × Assoc StripeCustomer
unfolding insert
with_customer ids now sess customers =
    let key = "cus_test_" <> ids 1 in
    if sess.customer_id == ""
    then (
      record sess { customer_id = key },
      insert key
          (record {
            id = key;
            email = sess.customer_email;
            name = "";
            description = "";
            created = now;
            metadata = none;
          })
          customers,
    )
    else (sess, customers)

abbrev pub fire_billed : String → BillingObject → CheckoutFire
fire_billed event_type o = record {
  event_type = event_type;
  event_object = CheckoutObject.billed o;
}

abbrev pub subscription_fires : StripeSubscription → StripeInvoice → List CheckoutFire
subscription_fires sub inv =
    fire_billed "customer.subscription.created" (BillingObject.subscription sub)
    ∷ fire_billed "invoice.paid" (BillingObject.invoice inv)
    ∷ fire_billed "invoice.payment_succeeded" (BillingObject.invoice inv)
    ∷ []

-- What a payment, of money or of nothing, creates beside the intent and the charge: `none` is a panic.
unfoldable pub fulfil :
    Library
    → (ℕ → String)
    → ℕ
    → String
    → StripeSession
    → Checkout
    → Option (StripeSession × Checkout × List CheckoutFire)
unfolding with_customer create_subscription
fulfil lib ids now pi_id sess st =
    let (sess', customers) = with_customer ids now sess st.customers in
    if sess.mode == "subscription"
    then elim (create_subscription lib.outside ids sess' pi_id now st.offers.coupons st.billing) [
      | none ↦ none
      | some (sub, inv, billing) ↦ some (
        record sess' { subscription_id = sub.id },
        record st { customers = customers; billing = billing },
        subscription_fires sub inv,
      )
    ]
    else some (record sess { payment_intent_id = pi_id }, st, [])

abbrev pub payment_metadata : StripeSession → Metadata
payment_metadata sess =
    if sess.subscription_id == ""
    then elim sess.payment_intent_metadata [ none ↦ sess.metadata | some md ↦ some md ]
    else none

abbrev pub payment_description : StripeSession → String
payment_description sess = if sess.subscription_id == "" then "" else "Subscription creation"

unfoldable pub checkout_charge : (ℕ → String) → ℕ → StripeSession → StripeCharge
checkout_charge ids now sess = record {
  id = checkout_charge_key ids;
  amount = session_total sess;
  amount_captured = session_total sess;
  amount_refunded = pos 0;
  currency = sess.currency;
  status = "succeeded";
  paid = true;
  captured = true;
  refunded = false;
  payment_intent_id = checkout_pi_key ids;
  payment_method = "pm_card_visa";
  application_fee_amount = pos 0;
  destination = "";
  transfer_id = "";
  description = payment_description sess;
  receipt_email = sess.customer_email;
  customer = sess.customer_id;
  created = now;
  metadata = payment_metadata sess;
  dispute_id = "";
}

unfoldable pub checkout_payment_intent : (ℕ → String) → ℕ → StripeSession → StripePaymentIntent
checkout_payment_intent ids now sess = record {
  id = checkout_pi_key ids;
  amount = session_total sess;
  currency = sess.currency;
  status = PiStatus.succeeded;
  capture_method = "automatic";
  confirmation_method = "automatic";
  application_fee_amount = pos 0;
  transfer_data_destination = "";
  transfer_data_amount = pos 0;
  on_behalf_of = "";
  stripe_account = "";
  latest_charge_id = checkout_charge_key ids;
  transfer_id = "";
  description = payment_description sess;
  statement_descriptor = "";
  receipt_email = sess.customer_email;
  customer = sess.customer_id;
  payment_method = "pm_card_visa";
  client_secret = checkout_pi_key ids <> "_secret_" <> ids 5;
  created = now;
  metadata = payment_metadata sess;
  failed = false;
  amount_received = pos 0;
}

abbrev pub with_payment : StripePaymentIntent → StripeCharge → Checkout → Checkout
with_payment pi ch st = record st {
  billing = record st.billing {
    mock = record st.billing.mock {
      payment_intents = insert pi.id pi st.billing.mock.payment_intents;
      charges = insert ch.id ch st.billing.mock.charges;
    };
  };
}
