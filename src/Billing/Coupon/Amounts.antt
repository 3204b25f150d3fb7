-- ===== src/Billing/Coupon/Amounts.antt =====
-- The amounts of discounts, on sessions and on invoices.
use hamr.Base.{
  ℕ, ◌^◌, ◌*◌, ◌/◌, ◌≤◌, String, Bool, true, Option, none, some, ◌≡◌, arith, inl, inr, Option-cases,
  Bool-cases, refl, sym, subst,
}
use hamr.Base.Float.{Float64, IsFloat64, exact_max}
use hamr.Base.Int.{ℤ, pos, negsuc, ◌≤ℤ◌, ◌-ℤ◌, int_laws}
use hamr.Base.Int64.{IsInt64, IsInt64-le, sub64, sub64_nonneg}
use hamr.Base.Assoc.{AllValues, lookup, lookup-AllValues}
use hamr.Billing.{Outside, Billing, StripeSubscription, StripeSubscriptionDiscount}
use hamr.Billing.Invoice.{
  is_percent, percent_of, coupon_discount, discount_for, new_invoice, total, per_period, is_over,
}
use hamr.Billing.Session.{StripeSession}
use hamr.Billing.Coupon.{
  StripeCoupon, Coupons, code_error, Applied, apply_coupon, apply_discount, choose_code, CodeChoice,
}

-- An amount whose hundredfold float64 represents exactly.
abbrev pub IsAmount : ℤ → Type 0
IsAmount s = (pos 0 ≤ℤ s) × s ≤ℤ pos (2 ^ 53 / 100)

abbrev pub Within : ℤ → ℤ → Type 0
Within d s = (pos 0 ≤ℤ d) × d ≤ℤ s

-- What the form of a coupon lets through: at most a hundred per cent, or an amount that is not
-- negative.
abbrev pub IsReduction : Outside → ℕ → ℤ → Type 0
IsReduction o percent_off amount_off =
    (pos 0 ≤ℤ amount_off)
    × (is_percent o.float percent_off ≡ true
        → o.float.le percent_off (o.float.of_int (pos 100)) ≡ true)

-- At most a hundred per cent of an amount is between 0 and the amount, after all roundings.
percent_of-Within :
    (f : Float64) (s : ℤ) (percent_off : ℕ)
    → IsFloat64 f
    → IsAmount s
    → is_percent f percent_off ≡ true
    → f.le percent_off (f.of_int (pos 100)) ≡ true
    → Within (percent_of f s percent_off) s
unfolding percent_of
percent_of-Within f (negsuc n) p laws a y h = absurd (omega (arith, a))
percent_of-Within f (pos n) p laws a y h =
    let fits : n * 100 ≤ exact_max = omega (arith, a) in
    let product = f.mul (f.of_int (pos n)) p in
    let (above, below) = laws.mul_le n 100 p fits y h in
    let below' : f.le product (f.of_int (pos (n * 100))) ≡ true =
      subst (λ x. f.le product x ≡ true) (laws.mul_exact n 100 fits) below in
    let quotient = f.div product (f.of_int (pos 100)) in
    let (above', under) =
      laws.div_le (n * 100) 100 product fits (omega arith, omega arith) above below' in
    let under' : f.le quotient (f.of_int (pos n)) ≡ true =
      subst (λ x. f.le quotient x ≡ true) (laws.div_exact n 100 (omega arith) fits) under in
    laws.round_range n quotient (omega (arith, fits)) above' under'

coupon_discount-Within :
    (o : Outside) (percent_off : ℕ) (amount_off : ℤ) (of_coupon : String) (s : ℤ)
    (currency : String) (d : ℤ)
    → IsFloat64 o.float
    → IsReduction o percent_off amount_off
    → IsAmount s
    → coupon_discount o percent_off amount_off of_coupon s currency ≡ some d
    → Within d s
unfolding coupon_discount
coupon_discount-Within o percent_off amount_off of_coupon s currency d laws r a e =
    elim (Bool-cases (is_percent o.float percent_off)) [
      | inl y ↦ ground (arith, percent_of-Within o.float s percent_off laws a y (r.1 y))
      | inr n ↦ ground arith
    ]

-- A difference of such amounts does not wrap, and is one.
left_over : (s d : ℤ) → IsAmount s → Within d s → Within (sub64 s d) s
left_over s d a w =
    let is : IsInt64 s = IsInt64-le s (pos (2 ^ 53 / 100)) a.0 a.1 (omega arith) in
    let e : sub64 s d ≡ s -ℤ d = sub64_nonneg s d a.0 w.0 is (IsInt64-le d s w.0 w.1 is) in
    subst (λ x. Within x s) (sym e) (omega (int_laws, w, a), omega (int_laws, w, a))

abbrev pub Reduces : Outside → StripeCoupon → Type 0
Reduces o c = IsReduction o c.percent_off c.amount_off

abbrev pub AmountsFit : StripeSession → Type 0
AmountsFit sess =
    Within sess.amount_discount sess.amount_total
    × Within (sub64 sess.amount_total sess.amount_discount) sess.amount_total

apply_coupon-AmountsFit :
    (o : Outside) (now : ℕ) (sess sess' : StripeSession) (coupon_id promo_id : String)
    (cs : Coupons)
    → IsFloat64 o.float
    → AllValues (Reduces o) cs.coupons
    → IsAmount sess.amount_total
    → apply_coupon o now sess coupon_id promo_id cs ≡ Applied.applied sess'
    → AmountsFit sess' × (sess'.amount_total ≡ sess.amount_total)
unfolding apply_coupon
apply_coupon-AmountsFit o now sess sess' coupon_id promo_id cs laws all a e =
    elim (Option-cases (lookup coupon_id cs.coupons)) [
      | inl n ↦ absurd (ground (arith))
      | inr (c, f) ↦
          let r = lookup-AllValues (Reduces o) coupon_id c cs.coupons all f in
          elim (Option-cases (
            coupon_discount o c.percent_off c.amount_off c.currency sess.amount_total
              sess.currency)) [
                | inl n ↦ absurd (ground (arith))
                | inr (d, g) ↦
                    let w =
                      coupon_discount-Within o c.percent_off c.amount_off c.currency
                        sess.amount_total sess.currency d laws r a g in
                    let left = left_over sess.amount_total d a w in
                    let d_eq : sess'.amount_discount ≡ d = ground (arith) in
                    let same : sess'.amount_total ≡ sess.amount_total = ground (arith) in
                    rw (d_eq, same) ((w, left), refl)
              ]
    ]

-- A discount that is applied to a session, whether the coupon, a promotion code or its text was given:
-- when each coupon takes off at most a hundred per cent or a non-negative amount, and float64 represents
-- the hundredfold of the total, which is not negative, exactly, the discount lies between 0 and the total, which stays as it is, and so
-- does what the buyer pays, which does not wrap around.
pub apply_discount-AmountsFit :
    (o : Outside) (equal_fold : String → String → Bool) (now : ℕ) (sess sess' : StripeSession)
    (coupon_id promo_id code : String) (cs : Coupons)
    → IsFloat64 o.float
    → AllValues (Reduces o) cs.coupons
    → IsAmount sess.amount_total
    → apply_discount o equal_fold now sess coupon_id promo_id code cs ≡ Applied.applied sess'
    → AmountsFit sess' × (sess'.amount_total ≡ sess.amount_total)
unfolding apply_discount
apply_discount-AmountsFit o equal_fold now sess sess' coupon_id promo_id code cs laws all a e =
    go (choose_code equal_fold promo_id code cs.promotion_codes) refl
  where
    go :
        (choice : CodeChoice)
        → choose_code equal_fold promo_id code cs.promotion_codes ≡ choice
        → AmountsFit sess' × (sess'.amount_total ≡ sess.amount_total)
    go CodeChoice.no_code f =
        apply_coupon-AmountsFit o now sess sess' coupon_id promo_id cs laws all a (cc)
    go CodeChoice.missing f = absurd (ground (arith))
    go (CodeChoice.chosen pc) f = elim (Option-cases (code_error pc now)) [
      | inl g ↦
          apply_coupon-AmountsFit o now sess sess' pc.coupon_id pc.id cs laws all a (ground (arith))
      | inr (p, g) ↦ absurd (ground (arith))
    ]

abbrev pub ReducesBy : Outside → StripeSubscription → Type 0
ReducesBy o sub =
    (d : StripeSubscriptionDiscount)
    → sub.discount ≡ some d
    → IsReduction o d.percent_off d.amount_off

discount_for-Within :
    (o : Outside) (sub : StripeSubscription) (s : ℤ) (at : ℕ)
    → IsFloat64 o.float
    → ReducesBy o sub
    → IsAmount s
    → Within (discount_for o sub s at) s
unfolding discount_for
discount_for-Within o sub s at laws r a = go sub.discount refl
  where
    go :
        (held : Option StripeSubscriptionDiscount)
        → sub.discount ≡ held
        → Within (discount_for o sub s at) s
    go none e = rw (e, discount_for) (omega (arith, a), omega (arith, a))
    go (some d) e =
        let rd : IsReduction o d.percent_off d.amount_off = r d e in
        elim (Bool-cases (is_over d at)) [
          | inl y ↦ rw (e, y, discount_for) (omega (arith, a), omega (arith, a))
          | inr n ↦
              elim (Option-cases
                (coupon_discount o d.percent_off d.amount_off sub.currency s sub.currency)) [
                  | inl m ↦ rw (e, n, m, discount_for) (omega (arith, a), omega (arith, a))
                  | inr (x, m) ↦
                      rw (e, n, m, discount_for)
                        (coupon_discount-Within o d.percent_off d.amount_off sub.currency s
                          sub.currency x laws rd a m)
                ]
        ]

-- The invoice of a billing period, when float64 represents the hundredfold of the undiscounted amount of
-- the period, which is not negative, exactly, and the discount of the subscription, if any, is at most a
-- hundred per cent or a non-negative amount: the discount lies between 0 and the subtotal, and so does the total that is charged, which
-- does not wrap around.
pub new_invoice-Within :
    (o : Outside) (ids : ℕ → String) (sub : StripeSubscription) (reason : String) (at : ℕ)
    (b : Billing)
    → IsFloat64 o.float
    → ReducesBy o sub
    → IsAmount (per_period sub)
    → Within (new_invoice o ids sub reason at b).discount (per_period sub)
      × Within (total (new_invoice o ids sub reason at b)) (per_period sub)
unfolding new_invoice
new_invoice-Within o ids sub reason at b laws r a =
    let w = discount_for-Within o sub (per_period sub) at laws r a in
    (w, left_over (per_period sub) (discount_for o sub (per_period sub) at) a w)
