-- ===== src/Tests/Shop.antt =====
-- A session for the monthly plan with a promotion code, and prices with one lookup key.
use hamr.Base.{
  ℕ, String, true, none, some, [], ◌∷◌, ◌≡◌, ◌≤◌, refl, arith, eq_iff, ◌==◌, eqb, if◌then◌else◌,
  List,
}
use hamr.Base.Int.{pos, ◌-ℤ◌, ◌+ℤ◌, ◌*ℤ◌}
use hamr.Base.Int64.{wrap64}
use hamr.Base.Assoc.{lookup}
use hamr.Billing.{due_at}
use hamr.Billing.Session.{StripeLineItem, StripeSession, SessionStatus, SessionPayment}
use hamr.Billing.Price.{StripeProduct, StripePrice, Catalogue, PriceRequest, run_prices}
use hamr.Billing.Price.Keys.{HasUniqueKeys, run_prices-HasUniqueKeys}
use hamr.Billing.Clock.{Advance, ClockAnswer, advance_clock}
use hamr.Billing.Clock.Ends.{Completed, count_by, time_left}
use hamr.Checkout.{Checkout, Library, CheckoutReply}
use hamr.Checkout.Complete.{CheckoutAnswer, complete_checkout}
use hamr.Checkout.Complete.Clockwork.{complete_checkout-advance_clock}
use hamr.Tests.Bills.{outside, outside-IsCalendar, billing, billing-AllTimely, draws}
use hamr.Tests.Savings.{offers}

abbrev plan : StripePrice
plan = record {
  id = "price_1";
  product_id = "prod_1";
  currency = "usd";
  unit_amount = pos 900;
  interval = "month";
  interval_count = pos 1;
  nickname = "Plan";
  lookup_key = "plan";
  active = true;
  created = 10;
  metadata = none;
}

abbrev product : StripeProduct
product = record {
  id = "prod_1";
  name = "Plan";
  description = "";
  active = true;
  created = 10;
  metadata = none;
}

abbrev catalogue : Catalogue
catalogue = record { products = ("prod_1", product) ∷ []; prices = ("price_1", plan) ∷ [] }

-- The key moves to a second price, and back.
abbrev requests : List PriceRequest
requests =
    PriceRequest.creates (record plan { id = "price_2"; lookup_key = "" }) none "plan" true
    ∷ PriceRequest.updates "price_1" (record {
      active = "";
      metadata = none;
      nickname = none;
      lookup_key = some "plan";
      transfer = true;
    })
    ∷ []

catalogue-HasUniqueKeys : HasUniqueKeys catalogue.prices
unfolding lookup
catalogue-HasUniqueKeys i j p q e f same held =
    ground (arith, eq_iff "price_1" i, eq_iff "price_1" j)

run_prices-HasUniqueKeys_example : HasUniqueKeys (run_prices requests catalogue).prices
run_prices-HasUniqueKeys_example =
    run_prices-HasUniqueKeys requests catalogue catalogue-HasUniqueKeys

abbrev library : Library
library = record { outside = outside; equal_fold = λ a b. a == b; put_id = λ url id. url }

abbrev line : StripeLineItem
line = record {
  price_id = "price_1";
  product_id = "prod_1";
  name = "Plan";
  unit_amount = pos 900;
  quantity = pos 2;
  currency = "usd";
  interval = "month";
  interval_count = pos 1;
}

abbrev subscribing : StripeSession
subscribing = record {
  id = "cs_1";
  payment_intent_id = "";
  created = 40;
  mode = "subscription";
  currency = "usd";
  amount_total = pos 1800;
  amount_discount = pos 0;
  discounts = [];
  allow_promotion_codes = true;
  line_items = line ∷ [];
  success_url = "/thanks";
  cancel_url = "/";
  metadata = none;
  payment_intent_metadata = none;
  subscription_metadata = none;
  trial_end = 0;
  customer_email = "ann@example.com";
  customer_name = "";
  customer_id = "";
  subscription_id = "";
  status = SessionStatus.pending;
  payment_status = SessionPayment.unpaid;
}

abbrev shop : Checkout
shop = record {
  billing = billing;
  offers = offers;
  catalogue = catalogue;
  customers = [];
  sessions = ("cs_1", subscribing) ∷ [];
}

abbrev shop_ids : ℕ → String
shop_ids k = if eqb k 0 then "aa" else "bb"

abbrev shop_clock : ℕ → ℕ
shop_clock k = 500

-- What a payment leaves.
abbrev paid : CheckoutAnswer
unfolding complete_checkout
paid = elim (complete_checkout library shop_ids shop_clock "cs_1" "paid" "" shop) [
  | none ↦ (CheckoutReply.left_open, shop, [])
  | some answer ↦ answer
]

paid_for : complete_checkout library shop_ids shop_clock "cs_1" "paid" "" shop ≡ some paid
unfolding complete_checkout
paid_for = refl

-- An expired session, and a later attempt to pay for it.
abbrev over : StripeSession
over = record subscribing { status = SessionStatus.expired }

abbrev closed_shop : Checkout
closed_shop = record shop { sessions = ("cs_1", over) ∷ [] }

paid-time_left : time_left 1500 paid.1.billing ≤ 1002
unfolding paid count_by due_at wrap64 ◌+ℤ◌ ◌-ℤ◌ ◌*ℤ◌
paid-time_left = omega arith

complete_checkout-advance_clock_example :
    (result : Advance) × (advance_clock outside draws 1002 900 800 9000 1500 paid.1.billing
      ≡ ClockAnswer.advanced (pos 1500 -ℤ pos 800) result)
    × Completed 1500 result
complete_checkout-advance_clock_example =
    complete_checkout-advance_clock library shop_ids shop_clock "cs_1" "paid" "" shop paid draws
      1002 900 800 9000 1500 outside-IsCalendar billing-AllTimely
      ((line, [], refl, (1, refl, omega arith)), tt) (tt, tt) paid_for paid-time_left (omega arith)
      (omega arith) (omega arith)
