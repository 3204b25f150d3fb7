-- ===== src/Tests/Savings.antt =====
-- A coupon of twenty per cent and its promotion code.
use hamr.Base.{true, none, some, [], ◌∷◌, ◌≡◌, refl, arith, ◌==◌, subst}
use hamr.Base.Int.{pos, ◌+ℤ◌, ◌*ℤ◌}
use hamr.Base.Int64.{wrap64}
use hamr.Billing.{StripeSubscription, StripeSubscriptionDiscount}
use hamr.Billing.Invoice.{per_period, add_items}
use hamr.Billing.Session.{StripeSession, SessionStatus, SessionPayment}
use hamr.Billing.Coupon.{
  StripeCoupon, StripePromotionCode, Coupons, Applied, apply_discount, redeem_discount,
}
use hamr.Billing.Coupon.Limits.{IsLimited, redeem_discount-IsLimited}
use hamr.Billing.Coupon.Amounts.{
  IsAmount, IsReduction, ReducesBy, AmountsFit, apply_discount-AmountsFit,
}
use hamr.Tests.Bills.{outside, whole_numbers-IsFloat64, trial}

abbrev coupon : StripeCoupon
coupon = record {
  id = "c1";
  name = "Spring";
  percent_off = 20;
  amount_off = pos 0;
  currency = "";
  duration = "once";
  duration_in_months = pos 0;
  max_redemptions = pos 5;
  times_redeemed = pos 4;
  redeem_by = 0;
  created = 10;
  metadata = none;
}

abbrev promotion : StripePromotionCode
promotion = record {
  id = "promo_1";
  code = "SPRING";
  coupon_id = "c1";
  is_active = true;
  max_redemptions = pos 0;
  times_redeemed = pos 7;
  expires_at = 0;
  created = 10;
  metadata = none;
}

abbrev pub offers : Coupons
offers = record { coupons = ("c1", coupon) ∷ []; promotion_codes = ("promo_1", promotion) ∷ [] }

abbrev basket : StripeSession
basket = record {
  id = "cs_test_1";
  payment_intent_id = "";
  created = 40;
  mode = "payment";
  currency = "usd";
  amount_total = pos 1000;
  amount_discount = pos 0;
  discounts = [];
  allow_promotion_codes = true;
  line_items = [];
  success_url = "/thanks";
  cancel_url = "/";
  metadata = none;
  payment_intent_metadata = none;
  subscription_metadata = none;
  trial_end = 0;
  customer_email = "";
  customer_name = "";
  customer_id = "";
  subscription_id = "";
  status = SessionStatus.pending;
  payment_status = SessionPayment.unpaid;
}

abbrev reduced : StripeSession
reduced = record basket {
  amount_discount = pos 200;
  discounts = record { coupon = "c1"; promotion_code = "promo_1" } ∷ [];
}

offers-IsLimited : IsLimited offers
offers-IsLimited = (
  (((omega arith, omega arith), (omega arith, omega arith), λ h. omega arith), tt),
  (((omega arith, omega arith), (omega arith, omega arith), λ h. absurd (ground arith)), tt),
)

redeem_discount-IsLimited_example : IsLimited (redeem_discount 50 reduced.discounts offers).1
redeem_discount-IsLimited_example =
    redeem_discount-IsLimited 50 reduced.discounts offers offers-IsLimited

twenty_percent : IsReduction outside 20 (pos 0)
twenty_percent = (omega arith, λ y. refl)

spring_applies :
    apply_discount outside (λ s t. s == t) 50 basket "" "" "SPRING" offers ≡ Applied.applied reduced
unfolding apply_discount
spring_applies = refl

apply_discount-AmountsFit_example :
    AmountsFit reduced × (reduced.amount_total ≡ basket.amount_total)
apply_discount-AmountsFit_example =
    apply_discount-AmountsFit outside (λ s t. s == t) 50 basket reduced "" "" "SPRING" offers
      whole_numbers-IsFloat64 (twenty_percent, tt) (omega arith, omega arith) spring_applies

abbrev spring : StripeSubscriptionDiscount
spring = record {
  id = "di_1";
  coupon_id = "c1";
  promotion_code_id = "promo_1";
  duration = "once";
  percent_off = 20;
  amount_off = pos 0;
  begins = 500;
  ends_at = 0;
}

abbrev saving : StripeSubscription
saving = record trial { discount = some spring }

saving-ReducesBy : ReducesBy outside saving
saving-ReducesBy d e =
    let same : spring ≡ d = ground arith in
    subst (λ x. IsReduction outside x.percent_off x.amount_off) same twenty_percent

saving-IsAmount : IsAmount (per_period saving)
unfolding add_items wrap64 ◌+ℤ◌ ◌*ℤ◌
saving-IsAmount = (omega arith, omega arith)
