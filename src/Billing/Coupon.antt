-- ===== src/Billing/Coupon.antt =====
-- Coupons, promotion codes and their redemption (internal/devserver/stripemock_coupon.go).
pub mod Limits
pub mod Amounts
use hamr.Base.{
  ℕ, String, Bool, true, false, not, ◌&&◌, ◌||◌, Option, none, some, List, [], ◌∷◌, ◌==◌, ltb,
  if◌then◌else◌,
}
use hamr.Base.Int.{ℤ, pos, ltb_ℤ, leb_ℤ}
use hamr.Base.Int64.{add64}
use hamr.Base.Assoc.{Assoc, lookup, insert}
use hamr.Stripe.Objects.{Metadata}
use hamr.Billing.{Outside, is_zero_time}
use hamr.Billing.Session.{StripeDiscount, StripeSession}
use hamr.Billing.Invoice.{coupon_discount}

-- `percent_off` is the bit pattern of a float64; times are in seconds, 0 for none.
pub record StripeCoupon : Type 0 where
  pub id : String
  pub name : String
  pub percent_off : ℕ
  pub amount_off : ℤ
  pub currency : String
  pub duration : String
  pub duration_in_months : ℤ
  pub max_redemptions : ℤ
  pub times_redeemed : ℤ
  pub redeem_by : ℕ
  pub created : ℕ
  pub metadata : Metadata

pub record StripePromotionCode : Type 0 where
  pub id : String
  pub code : String
  pub coupon_id : String
  pub is_active : Bool
  pub max_redemptions : ℤ
  pub times_redeemed : ℤ
  pub expires_at : ℕ
  pub created : ℕ
  pub metadata : Metadata

pub record Coupons : Type 0 where
  pub coupons : Assoc StripeCoupon
  pub promotion_codes : Assoc StripePromotionCode

pub data CouponProblem : Type 0 where
  coupon_expired coupon_used_up : CouponProblem
  code_inactive code_expired code_used_up : CouponProblem
  no_such_code no_such_coupon wrong_currency : CouponProblem

-- `max > 0 && times >= max`
abbrev used_up : ℤ → ℤ → Bool
used_up max times = ltb_ℤ (pos 0) max && leb_ℤ max times

abbrev is_past : ℕ → ℕ → Bool
is_past limit now = not (is_zero_time limit) && ltb limit now

unfoldable pub coupon_error : StripeCoupon → ℕ → Option CouponProblem
coupon_error c now =
    if is_past c.redeem_by now
    then some CouponProblem.coupon_expired
    else if used_up c.max_redemptions c.times_redeemed
    then some CouponProblem.coupon_used_up
    else none

unfoldable pub code_error : StripePromotionCode → ℕ → Option CouponProblem
code_error pc now =
    if not pc.is_active
    then some CouponProblem.code_inactive
    else if is_past pc.expires_at now
    then some CouponProblem.code_expired
    else if used_up pc.max_redemptions pc.times_redeemed
    then some CouponProblem.code_used_up
    else none

-- `findPromotionCode`: the loop, with what is found so far; `equal_fold` is `strings.EqualFold`.
unfoldable pub find_promotion_code :
    (String → String → Bool)
    → String
    → Option StripePromotionCode
    → Assoc StripePromotionCode
    → Option StripePromotionCode
find_promotion_code equal_fold code found [] = found
find_promotion_code equal_fold code found ((_, pc) ∷ rest) =
    let is_first : Bool = elim found [ none ↦ true | some _ ↦ false ] in
    find_promotion_code equal_fold code
      (if equal_fold pc.code code && (is_first || pc.is_active) then some pc else found) rest

-- The part of `applyDiscount` that looks for the promotion code: none is asked for, or it is missing,
-- or it is found.
pub data CodeChoice : Type 0 where
  no_code : CodeChoice
  missing : CodeChoice
  chosen : StripePromotionCode → CodeChoice

abbrev to_choice : Option StripePromotionCode → CodeChoice
to_choice none = CodeChoice.missing
to_choice (some pc) = CodeChoice.chosen pc

unfoldable pub choose_code :
    (String → String → Bool) → String → String → Assoc StripePromotionCode → CodeChoice
unfolding find_promotion_code lookup
choose_code equal_fold promo_id code codes =
    if not (code == "")
    then to_choice (find_promotion_code equal_fold code none codes)
    else if not (promo_id == "")
    then to_choice (lookup promo_id codes)
    else CodeChoice.no_code

pub data Applied : Type 0 where
  applied : StripeSession → Applied
  not_applied : CouponProblem → Applied

-- The rest of `applyDiscount`, for the coupon that the code, or the request, names.
unfoldable pub apply_coupon : Outside → ℕ → StripeSession → String → String → Coupons → Applied
unfolding lookup coupon_error coupon_discount
apply_coupon o now sess coupon_id promo_id cs = elim (lookup coupon_id cs.coupons) [
  | none ↦ Applied.not_applied CouponProblem.no_such_coupon
  | some c ↦ elim (coupon_error c now) [
    | some p ↦ Applied.not_applied p
    | none ↦
        elim (coupon_discount o c.percent_off c.amount_off c.currency sess.amount_total
          sess.currency) [
            | none ↦ Applied.not_applied CouponProblem.wrong_currency
            | some discount ↦ Applied.applied (record sess {
              discounts = record { coupon = coupon_id; promotion_code = promo_id } ∷ [];
              amount_discount = discount;
            })
          ]
  ]
]

unfoldable pub apply_discount :
    Outside
    → (String → String → Bool)
    → ℕ
    → StripeSession
    → String
    → String
    → String
    → Coupons
    → Applied
unfolding choose_code code_error apply_coupon
apply_discount o equal_fold now sess coupon_id promo_id code cs =
    elim (choose_code equal_fold promo_id code cs.promotion_codes) [
      | CodeChoice.missing ↦ Applied.not_applied CouponProblem.no_such_code
      | CodeChoice.no_code ↦ apply_coupon o now sess coupon_id promo_id cs
      | CodeChoice.chosen pc ↦ elim (code_error pc now) [
        | some p ↦ Applied.not_applied p
        | none ↦ apply_coupon o now sess pc.coupon_id pc.id cs
      ]
    ]

abbrev pub count_coupon : StripeCoupon → StripeCoupon
count_coupon c = record c { times_redeemed = add64 c.times_redeemed (pos 1) }

abbrev pub count_code : StripePromotionCode → StripePromotionCode
count_code pc = record pc { times_redeemed = add64 pc.times_redeemed (pos 1) }

-- One round of the loop of `redeemDiscount`: why it stops, if it does, and the maps.
unfoldable pub redeem_one : ℕ → StripeDiscount → Coupons → Option CouponProblem × Coupons
unfolding lookup insert coupon_error code_error
redeem_one now d cs = elim (lookup d.coupon cs.coupons) [
  | none ↦ (some CouponProblem.no_such_coupon, cs)
  | some c ↦ elim (lookup d.promotion_code cs.promotion_codes) [
    | none ↦ elim (coupon_error c now) [
      | some p ↦ (some p, cs)
      | none ↦ (none, record cs { coupons = insert d.coupon (count_coupon c) cs.coupons })
    ]
    | some pc ↦ elim (code_error pc now) [
      | some p ↦ (some p, cs)
      | none ↦ elim (coupon_error c now) [
        | some p ↦ (some p, cs)
        | none ↦ (
          none,
          record cs {
            coupons = insert d.coupon (count_coupon c) cs.coupons;
            promotion_codes = insert d.promotion_code (count_code pc) cs.promotion_codes;
          },
        )
      ]
    ]
  ]
]

unfoldable pub redeem_discount : ℕ → List StripeDiscount → Coupons → Option CouponProblem × Coupons
unfolding redeem_one
redeem_discount now [] cs = (none, cs)
redeem_discount now (d ∷ ds) cs =
    let (problem, cs') = redeem_one now d cs in
    elim problem [ some p ↦ (some p, cs') | none ↦ redeem_discount now ds cs' ]
