-- ===== src/Billing/Session.antt =====
-- Checkout sessions, their line items and the check of them (internal/devserver/stripemock.go).
use hamr.Base.{
  ℕ, suc, String, Bool, not, ◌&&◌, ◌||◌, Option, none, some, List, [], ◌∷◌, ◌==◌, ltb,
  if◌then◌else◌,
}
use hamr.Base.Int.{ℤ, pos, eqb_ℤ}
use hamr.Base.Int64.{add64, sub64, mul64}
use hamr.Stripe.Objects.{Metadata}

pub record StripeLineItem : Type 0 where
  pub price_id : String
  pub product_id : String
  pub name : String
  pub unit_amount : ℤ
  pub quantity : ℤ
  pub currency : String
  pub interval : String
  pub interval_count : ℤ

pub record StripeDiscount : Type 0 where
  pub coupon : String
  pub promotion_code : String

-- `unset` is the empty text.
pub data SessionStatus : Type 0 where
  unset pending complete expired : SessionStatus

pub data SessionPayment : Type 0 where
  unset paid unpaid no_payment_required : SessionPayment

-- Times are in seconds, 0 for none; `pending` is the status "open".
pub record StripeSession : Type 0 where
  pub id : String
  pub payment_intent_id : String
  pub created : ℕ
  pub mode : String
  pub currency : String
  pub amount_total : ℤ
  pub amount_discount : ℤ
  pub discounts : List StripeDiscount
  pub allow_promotion_codes : Bool
  pub line_items : List StripeLineItem
  pub success_url : String
  pub cancel_url : String
  pub metadata : Metadata
  pub payment_intent_metadata : Metadata
  pub subscription_metadata : Metadata
  pub trial_end : ℕ
  pub customer_email : String
  pub customer_name : String
  pub customer_id : String
  pub subscription_id : String
  pub status : SessionStatus
  pub payment_status : SessionPayment

-- `(*stripeSession).Total`: what the buyer pays.
abbrev pub session_total : StripeSession → ℤ
session_total sess = sub64 sess.amount_total sess.amount_discount

pub data LineProblem : Type 0 where
  one_time_price recurring_price different_interval different_currency : LineProblem

-- The error names the place of the line.
pub data LineCheck : Type 0 where
  checked : String → ℤ → LineCheck
  bad_line : ℕ → LineProblem → LineCheck

-- What the `switch` of the loop refuses; `first` is line 0.
unfoldable pub line_problem : String → StripeLineItem → ℕ → StripeLineItem → Option LineProblem
line_problem mode first i li =
    if (mode == "subscription") && (li.interval == "")
    then some LineProblem.one_time_price
    else if (mode == "payment") && not (li.interval == "")
    then some LineProblem.recurring_price
    else if (mode == "subscription")
        && ltb 0 i
        && (not (li.interval == first.interval)
            || not (eqb_ℤ li.interval_count first.interval_count))
    then some LineProblem.different_interval
    else none

-- The loop, with the currency and the total so far.
unfoldable pub check_lines :
    String → StripeLineItem → ℕ → String → ℤ → List StripeLineItem → LineCheck
unfolding line_problem
check_lines mode first i currency total [] = LineCheck.checked currency total
check_lines mode first i currency total (li ∷ items) =
    let rest =
      check_lines mode first (suc i) li.currency (add64 total (mul64 li.unit_amount li.quantity))
        items in
    elim (line_problem mode first i li) [
      | some p ↦ LineCheck.bad_line i p
      | none ↦
          if not (currency == "") && not (currency == li.currency)
          then LineCheck.bad_line i LineProblem.different_currency
          else rest
    ]

unfoldable pub validate_line_items : StripeSession → LineCheck
unfolding check_lines
validate_line_items sess = elim sess.line_items [
  | [] ↦ LineCheck.checked "" (pos 0)
  | first ∷ _ ↦ check_lines sess.mode first 0 "" (pos 0) sess.line_items
]
