-- ===== src/Tests/Bills.antt =====
-- A calendar of months of thirty days, and a subscription billed on it.
use hamr.Base.{
  ℕ, suc, ◌+◌, ◌-◌, ◌*◌, ◌/◌, ◌%◌, String, true, false, none, [], ◌∷◌, ◌≡◌, ◌≤◌, ◌≢◌, refl, arith,
  eq_iff, ltb, leb, ◌<◌, subst,
}
use native.Mathlib.Nat.{mul-div_cancel, mul-le-mul_left, le-div_iff_mul-le, div-mul-le_self}
use hamr.Base.Float.{Float64, IsFloat64}
use hamr.Base.Int.{pos, negsuc}
use hamr.Base.Assoc.{lookup}
use hamr.Stripe.State.{init, payment_intent_key}
use hamr.Billing.{
  Outside, Billing, StripeSubscription, StripeSubscriptionItem, SubscriptionStatus, StripeInvoice,
  InvoiceStatus, due_at,
}
use hamr.Billing.Calendar.{IsCalendar, Fits}
use hamr.Billing.Clock.Progress.{IsTimely}
use hamr.Billing.Clock.Ends.{AllTimely, count_by, time_left}
use hamr.Billing.Collect.Run.{Steps as Collected, retry-pays}
use hamr.Billing.Cycle.{pay_and_store}
use hamr.Billing.Finality.{Moves, Stays, retries, requests, Moves-Stays}
use hamr.Stripe.Run.{complete_intent, perform}
use hamr.Tests.{env, intent, mock}

abbrev day : ℕ
day = 86400

abbrev month : ℕ
month = 2592000

-- Arithmetic that rounds every result down to a whole number.
abbrev pub whole_numbers : Float64
whole_numbers = record {
  of_int = λ n. elim n [ pos k ↦ k | negsuc _ ↦ 0 ];
  to_int = λ x. pos x;
  round = λ x. x;
  mul = λ x y. x * y;
  div = λ x y. x / y;
  lt = λ x y. ltb x y;
  le = λ x y. leb x y;
}

quotient_le : (a b x : ℕ) → 0 < b → x ≤ a → x / b ≤ a / b
quotient_le a b x h g =
    (le-div_iff_mul-le {x = x / b} {y = a} h).1 (omega (arith, div-mul-le_self x b, g))

pub whole_numbers-IsFloat64 : IsFloat64 whole_numbers
whole_numbers-IsFloat64 = record {
  mul_exact = λ a b h. refl;
  div_exact = λ a b h g. mul-div_cancel a h;
  mul_le = λ a b p h y z.
      (ground arith, ground (arith, mul-le-mul_left {m = p} {n = b} a (ground arith)));
  div_le = λ a b x h g y z. (ground arith, ground (arith, quotient_le a b x g.0 (ground arith)));
  round_range = λ a x h y z. (omega arith, ground arith);
}

abbrev pub outside : Outside
outside = record {
  add_days = λ t n. elim n [ pos k ↦ t + day * k | negsuc k ↦ t - day * suc k ];
  first_of_month =
      λ t n. elim n [ pos k ↦ (t / month + k) * month | negsuc k ↦ (t / month - suc k) * month ];
  day_of_month = λ t. t % month / day + 1;
  month_days = λ _. 30;
  float = whole_numbers;
  invoice_number = λ _. "MOCK-0001";
  line_text = λ it _. it.product_name;
}

pub outside-IsCalendar : IsCalendar outside
outside-IsCalendar = record {
  days_start = λ t. omega arith;
  days_forward = λ t n. omega arith;
  month_ahead = λ t. omega arith;
  in_month = λ t n d h. omega (arith, h);
  days_positive = λ t. (omega arith, omega arith);
}

abbrev pub monthly : StripeSubscriptionItem
monthly = record {
  id = "si_1";
  price_id = "price_1";
  product_id = "prod_1";
  product_name = "Plan";
  unit_amount = pos 900;
  quantity = pos 2;
  interval = "month";
  interval_count = pos 1;
}

abbrev pub trial : StripeSubscription
trial = record {
  id = "sub_1";
  customer_id = "cus_1";
  session_id = "cs_1";
  status = SubscriptionStatus.trialing;
  currency = "usd";
  items = monthly ∷ [];
  cycles = 0;
  billing_cycle_anchor = 1000;
  current_period_start = 500;
  current_period_end = 1000;
  cancel_at_period_end = false;
  cancel_at = 0;
  canceled_at = 0;
  ended_at = 0;
  latest_invoice_id = "in_1";
  discount = none;
  fail_next_renewal = true;
  description = "";
  trial_start = 500;
  trial_end = 1000;
  start_date = 500;
  created = 500;
  metadata = none;
}

abbrev pub billing : Billing
billing = record { mock = init; subscriptions = ("sub_1", trial) ∷ []; invoices = [] }

monthly-Fits : Fits monthly 1502
monthly-Fits = (1, refl, omega arith, omega arith)

trial-IsTimely : IsTimely outside 1500 trial
trial-IsTimely = record {
  item = monthly;
  others = [];
  has_item = refl;
  fits = monthly-Fits;
  trial = λ _. (refl, refl);
  period = λ e. absurd (cc);
}

pub billing-AllTimely : AllTimely outside 1500 billing
unfolding lookup
billing-AllTimely k s e live =
    let same : trial ≡ s = ground (arith) in subst (IsTimely outside 1500) same trial-IsTimely

abbrev pub draws : ℕ → ℕ → String
draws n k = "aa"

billing-time_left : time_left 1500 billing ≤ 501
unfolding count_by due_at
billing-time_left = omega arith

-- A renewal has failed.
abbrev late : StripeSubscription
late = record trial { status = SubscriptionStatus.past_due }

abbrev unpaid : StripeInvoice
unpaid = record {
  id = "in_1";
  number = "MOCK-0001";
  customer_id = "cus_1";
  subscription_id = "sub_1";
  status = InvoiceStatus.is_open;
  billing_reason = "subscription_cycle";
  currency = "usd";
  subtotal = pos 1800;
  discount = pos 0;
  discount_id = "";
  payment_intent_id = "pi_1";
  period_start = 500;
  period_end = 1000;
  lines = [];
  attempt_count = 1;
  created = 500;
  paid_at = 0;
  voided_at = 0;
  metadata = none;
}

abbrev owing : Billing
owing = record {
  mock = init;
  subscriptions = ("sub_1", late) ∷ [];
  invoices = ("in_1", unpaid) ∷ [];
}

-- The renewal is collected, over an intent that had succeeded before.
abbrev retried : Billing → Billing
retried b =
    (pay_and_store (draws 0) 0 "sub_1" "in_1" (record late { status = SubscriptionStatus.active })
      (record unpaid { attempt_count = 2 }) 1100 b).0

abbrev paid_before : Billing
paid_before = record owing { mock = mock }

aa_other : payment_intent_key env 0 ≢ "pi_1"
aa_other = λ e. absurd (ground (arith, eq_iff "pi_test_aa" "pi_1"))

Moves-Stays_example : Stays "pi_1" intent (record (retried paid_before) {
  mock = perform env (complete_intent "pi_1" "fail") (retried paid_before).mock;
})
unfolding lookup
Moves-Stays_example = Moves-Stays outside "pi_1" intent paid_before _ refl refl (
    Moves.next
      (retries (draws 0) "sub_1" late 1100 (λ n. aa_other)
        (retry-pays (draws 0) "sub_1" late 1100 paid_before unpaid refl refl))
      (Moves.next (requests env (complete_intent "pi_1" "fail") aa_other) Moves.done))
