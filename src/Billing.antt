-- ===== src/Billing.antt =====
-- Subscriptions of the Stripe mock (internal/devserver/stripemock_subscription.go) and the mock clock
-- that drives them (stripemock_clock.go): the stored objects, and what comes from outside.
pub mod Calendar
pub mod Invoice
pub mod Cancel
pub mod Cycle
pub mod Clock
pub mod Collect
pub mod Coupon
pub mod Finality
pub mod Session
pub mod Price
use hamr.Base.{ℕ, suc, String, Bool, Option, List, eqb, if◌then◌else◌, ◌&&◌, not, ltb, none, some}
use hamr.Base.Float.{Float64}
use hamr.Base.Int.{ℤ}
use hamr.Base.Assoc.{Assoc}
use hamr.Stripe.Objects.{Metadata, StripePaymentIntent, StripeCharge}
use hamr.Stripe.State.{StripeMock}

-- Times are in seconds; 0 is Go's zero time.
pub data SubscriptionStatus : Type 0 where
  trialing : SubscriptionStatus
  active : SubscriptionStatus
  past_due : SubscriptionStatus
  canceled : SubscriptionStatus

-- `unset` is the empty text of an invoice that is being built.
pub data InvoiceStatus : Type 0 where
  unset : InvoiceStatus
  paid : InvoiceStatus
  is_open : InvoiceStatus
  voided : InvoiceStatus

pub record StripeSubscriptionItem : Type 0 where
  pub id : String
  pub price_id : String
  pub product_id : String
  pub product_name : String
  pub unit_amount : ℤ
  pub quantity : ℤ
  pub interval : String
  pub interval_count : ℤ

-- `percent_off` is the bit pattern of a float64, `ends_at` its field End.
pub record StripeSubscriptionDiscount : Type 0 where
  pub id : String
  pub coupon_id : String
  pub promotion_code_id : String
  pub duration : String
  pub percent_off : ℕ
  pub amount_off : ℤ
  pub begins : ℕ
  pub ends_at : ℕ

pub record StripeSubscription : Type 0 where
  pub id : String
  pub customer_id : String
  pub session_id : String
  pub status : SubscriptionStatus
  pub currency : String
  pub items : List StripeSubscriptionItem
  pub cycles : ℕ
  pub billing_cycle_anchor : ℕ
  pub current_period_start : ℕ
  pub current_period_end : ℕ
  pub cancel_at_period_end : Bool
  pub cancel_at : ℕ
  pub canceled_at : ℕ
  pub ended_at : ℕ
  pub latest_invoice_id : String
  pub discount : Option StripeSubscriptionDiscount
  pub fail_next_renewal : Bool
  pub description : String
  pub trial_start : ℕ
  pub trial_end : ℕ
  pub start_date : ℕ
  pub created : ℕ
  pub metadata : Metadata

pub record StripeInvoiceLine : Type 0 where
  pub id : String
  pub description : String
  pub amount : ℤ
  pub unit_amount : ℤ
  pub quantity : ℤ
  pub price_id : String
  pub product_id : String
  pub subscription_item_id : String
  pub period_start : ℕ
  pub period_end : ℕ

pub record StripeInvoice : Type 0 where
  pub id : String
  pub number : String
  pub customer_id : String
  pub subscription_id : String
  pub status : InvoiceStatus
  pub billing_reason : String
  pub currency : String
  pub subtotal : ℤ
  pub discount : ℤ
  pub discount_id : String
  pub payment_intent_id : String
  pub period_start : ℕ
  pub period_end : ℕ
  pub lines : List StripeInvoiceLine
  pub attempt_count : ℕ
  pub created : ℕ
  pub paid_at : ℕ
  pub voided_at : ℕ
  pub metadata : Metadata

-- The maps of `StripeMock` that billing reads and writes; `mock` holds the other ones.
pub record Billing : Type 0 where
  pub mock : StripeMock
  pub subscriptions : Assoc StripeSubscription
  pub invoices : Assoc StripeInvoice

pub data BillingObject : Type 0 where
  invoice : StripeInvoice → BillingObject
  subscription : StripeSubscription → BillingObject
  payment_intent : StripePaymentIntent → Option StripeCharge → BillingObject
  charge : StripeCharge → BillingObject

pub record BillingFire : Type 0 where
  pub event_type : String
  pub event_object : BillingObject

-- Go's packages `time`, `math` and `fmt`: `add_days t n` is `t.AddDate(0, 0, n)`, `first_of_month t n`
-- the first day of the month n months on, at the clock time of t, and `month_days` the last day of
-- the month that begins at a time.
pub record Outside : Type 0 where
  pub add_days : ℕ → ℤ → ℕ
  pub first_of_month : ℕ → ℤ → ℕ
  pub day_of_month : ℕ → ℕ
  pub month_days : ℕ → ℕ
  pub float : Float64
  pub invoice_number : ℕ → String
  pub line_text : StripeSubscriptionItem → String → String

abbrev pub is_zero_time : ℕ → Bool
is_zero_time t = eqb t 0

-- `dueAt`.
unfoldable pub due_at : StripeSubscription → ℕ
due_at s =
    if not (is_zero_time s.cancel_at) && ltb s.cancel_at s.current_period_end
    then s.cancel_at
    else s.current_period_end
