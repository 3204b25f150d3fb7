-- ===== src/Billing/Coupon/Limits.antt =====
-- The limits on redemptions (redeemDiscount in internal/devserver/stripemock_coupon.go).
use hamr.Base.{ℕ, true, Option, none, some, List, [], ◌∷◌, ◌≡◌, arith, inl, inr, Option-cases}
use hamr.Base.Int.{ℤ, pos, ltb_ℤ, ◌≤ℤ◌, negsuc, ◌+ℤ◌}
use hamr.Base.Int64.{IsInt64, add64, wrap64-IsInt64, wrap64}
use hamr.Base.Assoc.{AllValues, lookup, lookup-AllValues, insert-AllValues}
use hamr.Billing.Session.{StripeDiscount}
use hamr.Billing.Coupon.{
  StripeCoupon, StripePromotionCode, Coupons, CouponProblem, coupon_error, code_error, count_coupon,
  count_code, redeem_one, redeem_discount,
}

-- A limit above 0 is not exceeded; both counts are int64.
abbrev pub WithinLimit : ℤ → ℤ → Type 0
WithinLimit max times = IsInt64 max × IsInt64 times × (ltb_ℤ (pos 0) max ≡ true → times ≤ℤ max)

abbrev pub CouponLimit : StripeCoupon → Type 0
CouponLimit c = WithinLimit c.max_redemptions c.times_redeemed

abbrev pub CodeLimit : StripePromotionCode → Type 0
CodeLimit pc = WithinLimit pc.max_redemptions pc.times_redeemed

abbrev pub IsLimited : Coupons → Type 0
IsLimited cs = AllValues CouponLimit cs.coupons × AllValues CodeLimit cs.promotion_codes

count_within :
    (max times : ℤ)
    → WithinLimit max times
    → (ltb_ℤ (pos 0) max ≡ true → ltb_ℤ times max ≡ true)
    → WithinLimit max (add64 times (pos 1))
unfolding wrap64 ◌+ℤ◌
count_within (pos m) (pos n) (im, it, le) below =
    (im, wrap64-IsInt64 (pos n +ℤ pos 1), λ h. ground (arith))
count_within (pos m) (negsuc n) (im, it, le) below =
    (im, wrap64-IsInt64 (negsuc n +ℤ pos 1), λ h. ground (arith))
count_within (negsuc m) times (im, it, le) below =
    (im, wrap64-IsInt64 (times +ℤ pos 1), λ h. absurd (ground (arith)))

count_coupon-CouponLimit :
    (c : StripeCoupon) (now : ℕ)
    → CouponLimit c
    → coupon_error c now ≡ none
    → CouponLimit (count_coupon c)
unfolding coupon_error
count_coupon-CouponLimit c now w e =
    count_within c.max_redemptions c.times_redeemed w (λ h. ground (arith))

count_code-CodeLimit :
    (pc : StripePromotionCode) (now : ℕ)
    → CodeLimit pc
    → code_error pc now ≡ none
    → CodeLimit (count_code pc)
unfolding code_error
count_code-CodeLimit pc now w e =
    count_within pc.max_redemptions pc.times_redeemed w (λ h. ground (arith))

redeem_one-IsLimited :
    (now : ℕ) (d : StripeDiscount) (cs : Coupons) → IsLimited cs → IsLimited (redeem_one now d cs).1
unfolding redeem_one
redeem_one-IsLimited now d cs w = elim (Option-cases (lookup d.coupon cs.coupons)) [
  | inl n ↦ rw (n, redeem_one) w
  | inr (c, e) ↦
      let cw = lookup-AllValues CouponLimit d.coupon c cs.coupons w.0 e in
      elim (Option-cases (lookup d.promotion_code cs.promotion_codes)) [
        | inl n ↦ elim (Option-cases (coupon_error c now)) [
          | inl ok ↦
              rw (e, n, ok, redeem_one)
                (
                  insert-AllValues CouponLimit d.coupon (count_coupon c) cs.coupons w.0
                      (count_coupon-CouponLimit c now cw ok),
                  w.1,
                )
          | inr (p, f) ↦ rw (e, n, f, redeem_one) w
        ]
        | inr (pc, g) ↦
            let pw = lookup-AllValues CodeLimit d.promotion_code pc cs.promotion_codes w.1 g in
            elim (Option-cases (code_error pc now)) [
              | inr (p, f) ↦ rw (e, g, f, redeem_one) w
              | inl fine ↦ elim (Option-cases (coupon_error c now)) [
                | inr (p, f) ↦ rw (e, g, fine, f, redeem_one) w
                | inl ok ↦
                    rw (e, g, fine, ok, redeem_one)
                      (
                        insert-AllValues CouponLimit d.coupon (count_coupon c) cs.coupons w.0
                            (count_coupon-CouponLimit c now cw ok),
                        insert-AllValues CodeLimit d.promotion_code (count_code pc)
                            cs.promotion_codes w.1 (count_code-CodeLimit pc now pw fine),
                      )
              ]
            ]
      ]
]

-- `redeemDiscount` on any list of discounts, whether it succeeds or stops: when no coupon and no
-- promotion code has been redeemed more often than its limit, where it has one, none has afterwards.
pub redeem_discount-IsLimited :
    (now : ℕ) (ds : List StripeDiscount) (cs : Coupons)
    → IsLimited cs
    → IsLimited (redeem_discount now ds cs).1
unfolding redeem_discount
redeem_discount-IsLimited now [] cs w = w
redeem_discount-IsLimited now (d ∷ ds) cs w =
    let first = redeem_one-IsLimited now d cs w in
    go (redeem_one now d cs).0 first
      (redeem_discount-IsLimited now ds (redeem_one now d cs).1 first)
  where
    go :
        (problem : Option CouponProblem)
        → IsLimited (redeem_one now d cs).1
        → IsLimited (redeem_discount now ds (redeem_one now d cs).1).1
        → IsLimited (
            (elim problem as (λ _. Option CouponProblem × Coupons) [
              | some p ↦ (some p, (redeem_one now d cs).1)
              | none ↦ redeem_discount now ds (redeem_one now d cs).1
            ]).1)
    go none p q = q
    go (some _) p q = p
