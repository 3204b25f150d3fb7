-- ===== src/Checkout/Complete/Amounts.antt =====
-- What a checkout of a subscription charges (internal/devserver/stripemock_mcp.go and
-- stripemock_subscription.go).
use hamr.Base.{
  ℕ, String, Bool, true, false, ◌⊎◌, some, ◌≡◌, arith, refl, sym, ◌∙◌, ap, if◌then◌else◌,
}
use hamr.Base.Int.{pos}
use hamr.Base.Assoc.{lookup}
use hamr.Billing.{Billing, StripeSubscription, StripeInvoice, is_zero_time}
use hamr.Billing.Invoice.{total}
use hamr.Billing.Session.{StripeSession, session_total}
use hamr.Checkout.{Checkout}
use hamr.Checkout.Subscribe.Bills.{add_lines, IsSummed}
use hamr.Checkout.Complete.Writes.{SamePurchase, SameDiscount}
use hamr.Stripe.State.{StripeMock}
use hamr.Checkout.Complete.{pay_session}
use hamr.Stripe.Objects.{StripePaymentIntent, StripeCharge}

-- The subscription, its invoice and what the invoice says, after a step that pays for it.
record Invoiced (sess : StripeSession) (pi_id : String) (was : StripeMock) (b : Billing)
    : Type 0 where
  sub : StripeSubscription
  inv : StripeInvoice
  subscribed : lookup sess.subscription_id b.subscriptions ≡ some sub
  latest : lookup sub.latest_invoice_id b.invoices ≡ some inv
  bill : total inv ≡ (if is_zero_time sess.trial_end then session_total sess else pos 0)
  intent : inv.payment_intent_id ≡ pi_id
  same : b.mock ≡ was

pub IsSummed-kept : (s t : StripeSession) → SamePurchase s t → IsSummed s → IsSummed t
IsSummed-kept s t purchase e = purchase.4 ∙ e ∙ sym (ap (add_lines (pos 0)) purchase.3)

due_of :
    (s t : StripeSession)
    → SamePurchase s t
    → SameDiscount s t
    → (if is_zero_time s.trial_end then session_total s else pos 0)
      ≡ (if is_zero_time t.trial_end then session_total t else pos 0)
due_of s t purchase discount = ground (arith, purchase, discount)

-- The payment of an invoice: nothing is due and nothing is charged, or the intent of the invoice and
-- its charge are for the invoice's total.
abbrev pub PaidFor : StripeInvoice → StripeMock → StripeMock → Type 0
PaidFor inv was m =
    ((total inv ≡ pos 0) × (m ≡ was))
    ⊎ ((pi : StripePaymentIntent) × (ch : StripeCharge) × (lookup inv.payment_intent_id
            m.payment_intents
          ≡ some pi)
        × (lookup pi.latest_charge_id m.charges ≡ some ch)
        × (pi.amount ≡ total inv)
        × (ch.amount_captured ≡ total inv)
        × (ch.payment_intent_id ≡ pi.id))

-- The session, its subscription and its latest invoice, and the payment.
abbrev pub IsPaid : String → StripeMock → Checkout → Type 0
IsPaid id was st =
    (sess : StripeSession) × (sub : StripeSubscription) × (inv : StripeInvoice) × (lookup id
        st.sessions
      ≡ some sess)
    × (lookup sess.subscription_id st.billing.subscriptions ≡ some sub)
    × (lookup sub.latest_invoice_id st.billing.invoices ≡ some inv)
    × (total inv ≡ (if is_zero_time sess.trial_end then session_total sess else pos 0))
    × PaidFor inv was st.billing.mock

pub pay_session-kept :
    (ids : ℕ → String) (now : ℕ) (paying : Bool) (sess : StripeSession) (st : Checkout)
    → let (st', _) = pay_session ids now paying sess st in
      ((st'.billing.subscriptions ≡ st.billing.subscriptions)
        × (st'.billing.invoices ≡ st.billing.invoices))
unfolding pay_session
pay_session-kept ids now true sess st = (refl, refl)
pay_session-kept ids now false sess st = (refl, refl)
