-- ===== src/Checkout.antt =====
-- Checkout of the Stripe mock: the maps that it reads and writes, the outcomes of a payment
-- (internal/devserver/stripemock_page.go) and what the operations answer.
pub mod Subscribe
pub mod Create
pub mod Payment
pub mod Complete
pub mod Run
use hamr.Base.{ℕ, String, Bool, true, false, Option, none, some, ◌==◌, if◌then◌else◌}
use hamr.Base.Assoc.{Assoc}
use hamr.Stripe.Objects.{Metadata}
use hamr.Billing.{Billing, BillingObject, Outside}
use hamr.Billing.Session.{StripeSession, SessionStatus, SessionPayment, LineProblem}
use hamr.Billing.Coupon.{Coupons, CouponProblem}
use hamr.Billing.Price.{Catalogue}

pub record StripeCustomer : Type 0 where
  pub id : String
  pub email : String
  pub name : String
  pub description : String
  pub created : ℕ
  pub metadata : Metadata

-- The maps of `StripeMock` that checkout reads and writes.
pub record Checkout : Type 0 where
  pub billing : Billing
  pub offers : Coupons
  pub catalogue : Catalogue
  pub customers : Assoc StripeCustomer
  pub sessions : Assoc StripeSession

-- Go's packages `time`, `math` and `strings`: `equal_fold` is `strings.EqualFold`, and
-- `put_id url id` replaces each "{CHECKOUT_SESSION_ID}" of the url by the id.
pub record Library : Type 0 where
  pub outside : Outside
  pub equal_fold : String → String → Bool
  pub put_id : String → String → String

-- `outcomeRule`.
pub record OutcomeRule : Type 0 where
  pub status : SessionStatus
  pub payment_status : SessionPayment
  pub event_type : String
  pub use_success_url : Bool
  pub create_payment : Bool
  pub leave_open : Bool

abbrev pub paid_rule : OutcomeRule
paid_rule = record {
  status = SessionStatus.complete;
  payment_status = SessionPayment.paid;
  event_type = "checkout.session.completed";
  use_success_url = true;
  create_payment = true;
  leave_open = false;
}

abbrev pub failed_rule : OutcomeRule
failed_rule = record {
  status = SessionStatus.unset;
  payment_status = SessionPayment.unset;
  event_type = "";
  use_success_url = false;
  create_payment = false;
  leave_open = true;
}

abbrev pub cancelled_rule : OutcomeRule
cancelled_rule = record {
  status = SessionStatus.expired;
  payment_status = SessionPayment.unpaid;
  event_type = "checkout.session.expired";
  use_success_url = false;
  create_payment = false;
  leave_open = false;
}

-- `stripeOutcomes[outcome]`.
unfoldable pub stripe_outcomes : String → Option OutcomeRule
stripe_outcomes outcome =
    if outcome == "paid"
    then some paid_rule
    else if outcome == "failed"
    then some failed_rule
    else if outcome == "cancelled"
    then some cancelled_rule
    else none

pub data CheckoutProblem : Type 0 where
  unknown_outcome no_such_session trial_too_soon no_promotion_codes : CheckoutProblem
  already : SessionStatus → CheckoutProblem
  code_refused : CouponProblem → CheckoutProblem
  no_such_customer no_such_price inactive_price : CheckoutProblem
  line_refused : ℕ → LineProblem → CheckoutProblem

-- `redirected` carries the URL; `left_open` is a decline that the buyer may retry.
pub data CheckoutReply : Type 0 where
  redirected : String → CheckoutReply
  left_open : CheckoutReply
  failed : CheckoutProblem → CheckoutReply

pub data CheckoutObject : Type 0 where
  session : StripeSession → CheckoutObject
  billed : BillingObject → CheckoutObject

pub record CheckoutFire : Type 0 where
  pub event_type : String
  pub event_object : CheckoutObject

abbrev pub is_pending : SessionStatus → Bool
is_pending SessionStatus.pending = true
is_pending _ = false

abbrev pub is_redirected : CheckoutReply → Bool
is_redirected (CheckoutReply.redirected _) = true
is_redirected _ = false
