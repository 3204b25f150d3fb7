-- ===== src/Checkout/Complete/Refusals.antt =====
-- Refused completions of a checkout (internal/devserver/stripemock_mcp.go).
use hamr.Base.{
  ℕ, String, true, false, not, ◌&&◌, Option, none, some, List, [], ◌∷◌, ◌==◌, ◌≡◌, ◌⊎◌, arith, inl,
  inr, Option-cases, Bool-cases, refl, sym, ◌∙◌, ap, subst,
}
use hamr.Base.Assoc.{Assoc, AllValues, lookup, insert, lookup-AllValues}
use hamr.Billing.Session.{StripeSession, StripeDiscount}
use hamr.Billing.Coupon.{
  Coupons, CouponProblem, Applied, apply_discount, choose_code, CodeChoice, code_error,
  apply_coupon, coupon_error, redeem_discount, redeem_one,
}
use hamr.Billing.Invoice.{coupon_discount}
use hamr.Checkout.{
  Checkout, Library, OutcomeRule, stripe_outcomes, CheckoutProblem, is_redirected, is_pending,
}
use hamr.Checkout.Payment.{typed_code, redeem_session, ends_too_soon}
use hamr.Checkout.Complete.{
  CheckoutAnswer, turn_down, with_session, close_session, complete_checkout, finish_session,
}

-- One discount at most, as `buildSessionFromParams` and `applyDiscount` write them.
abbrev pub AtMostOne : List StripeDiscount → Type 0
AtMostOne [] = Unit
AtMostOne (d ∷ []) = Unit
AtMostOne (d ∷ e ∷ ds) = ⊥

abbrev pub HasOneDiscount : StripeSession → Type 0
HasOneDiscount sess = AtMostOne sess.discounts

redeem_one-kept :
    (now : ℕ) (d : StripeDiscount) (cs : Coupons) (p : CouponProblem)
    → (redeem_one now d cs).0 ≡ some p
    → (redeem_one now d cs).1 ≡ cs
unfolding redeem_one
redeem_one-kept now d cs p e = ground arith

-- A redemption that fails counts nothing.
redeem_discount-kept :
    (now : ℕ) (ds : List StripeDiscount) (cs : Coupons) (p : CouponProblem)
    → AtMostOne ds
    → (redeem_discount now ds cs).0 ≡ some p
    → (redeem_discount now ds cs).1 ≡ cs
unfolding redeem_discount
redeem_discount-kept now [] cs p one e = refl
redeem_discount-kept now (d ∷ []) cs p one e = ground (arith, redeem_one-kept now d cs p)
redeem_discount-kept now (d ∷ e ∷ ds) cs p one f = absurd one

insert-same :
    {V : Type 0} (k : String) (v : V) (m : Assoc V) → lookup k m ≡ some v → insert k v m ≡ m
unfolding lookup insert
insert-same k v [] e = absurd (ground arith)
insert-same k v ((j, w) ∷ m) e = ground (arith, insert-same k v m)

with_session-same :
    (id : String) (sess : StripeSession) (st : Checkout)
    → lookup id st.sessions ≡ some sess
    → with_session id sess st ≡ st
with_session-same id sess st e =
    ap (λ m. record st { sessions = m }) (insert-same id sess st.sessions e)

-- The session `sess` when its discount is put back on `t`.
abbrev pub Restores : StripeSession → StripeSession → Type 0
Restores sess t =
    record t { discounts = sess.discounts; amount_discount = sess.amount_discount } ≡ sess

apply_coupon-Restores :
    (lib : Library) (now : ℕ) (sess sess' : StripeSession) (coupon_id promo_id : String)
    (cs : Coupons)
    → apply_coupon lib.outside now sess coupon_id promo_id cs ≡ Applied.applied sess'
    → HasOneDiscount sess' × Restores sess sess'
unfolding apply_coupon
apply_coupon-Restores lib now sess sess' coupon_id promo_id cs e =
    elim (Option-cases (lookup coupon_id cs.coupons)) [
      | inl n ↦ absurd (ground arith)
      | inr (c, f) ↦ elim (Option-cases (coupon_error c now)) [
        | inr (p, g) ↦ absurd (ground arith)
        | inl ok ↦
            elim (Option-cases (
              coupon_discount lib.outside c.percent_off c.amount_off c.currency sess.amount_total
                sess.currency)) [
                  | inl n ↦ absurd (ground arith)
                  | inr (x, g) ↦
                      let same : record sess {
                        discounts = record { coupon = coupon_id; promotion_code = promo_id } ∷ [];
                        amount_discount = x;
                      }
                          ≡ sess' =
                        ground arith in
                      subst (λ t. HasOneDiscount t × Restores sess t) same (tt, refl)
                ]
      ]
    ]

pub apply_discount-Restores :
    (lib : Library) (now : ℕ) (sess sess' : StripeSession) (coupon_id promo_id code : String)
    (cs : Coupons)
    → apply_discount lib.outside lib.equal_fold now sess coupon_id promo_id code cs
      ≡ Applied.applied sess'
    → HasOneDiscount sess' × Restores sess sess'
unfolding apply_discount
apply_discount-Restores lib now sess sess' coupon_id promo_id code cs e =
    go (choose_code lib.equal_fold promo_id code cs.promotion_codes) refl
  where
    go :
        (choice : CodeChoice)
        → choose_code lib.equal_fold promo_id code cs.promotion_codes ≡ choice
        → HasOneDiscount sess' × Restores sess sess'
    go CodeChoice.no_code f = apply_coupon-Restores lib now sess sess' coupon_id promo_id cs (cc)
    go CodeChoice.missing f = absurd (ground arith)
    go (CodeChoice.chosen pc) f = elim (Option-cases (code_error pc now)) [
      | inl g ↦ apply_coupon-Restores lib now sess sess' pc.coupon_id pc.id cs (ground arith)
      | inr (p, g) ↦ absurd (ground arith)
    ]

-- A typed code: refused, with the session as it was, or not, with a discount that can be put back.
abbrev pub Typed : String → StripeSession → Option CheckoutProblem × StripeSession → Type 0
Typed promo sess (refused, typed) =
    ((p : CheckoutProblem) × (refused ≡ some p) × (typed ≡ sess))
    ⊎ (refused ≡ none)
      × HasOneDiscount typed
      × Restores sess typed
      × ((promo == "") ≡ true → typed ≡ sess)

pub typed_code-Typed :
    (lib : Library) (now : ℕ) (rule : OutcomeRule) (promo : String) (sess : StripeSession)
    (cs : Coupons)
    → HasOneDiscount sess
    → Typed promo sess (typed_code lib now rule promo sess cs)
unfolding typed_code
typed_code-Typed lib now rule promo sess cs one =
    elim (Bool-cases (rule.create_payment && not (promo == ""))) [
      | inr n ↦ rw (n, typed_code) (inr (refl, one, refl, λ h. refl))
      | inl y ↦ elim (Bool-cases sess.allow_promotion_codes) [
        | inr n ↦
            let e : typed_code lib now rule promo sess cs
                ≡ (some CheckoutProblem.no_promotion_codes, sess) =
              ground arith in
            subst (Typed promo sess) (sym e) (inl (CheckoutProblem.no_promotion_codes, refl, refl))
        | inl allowed ↦
            go y allowed (apply_discount lib.outside lib.equal_fold now sess "" "" promo cs) refl
      ]
    ]
  where
    go :
        (rule.create_payment && not (promo == "")) ≡ true
        → sess.allow_promotion_codes ≡ true
        → (result : Applied)
        → apply_discount lib.outside lib.equal_fold now sess "" "" promo cs ≡ result
        → Typed promo sess (typed_code lib now rule promo sess cs)
    go y allowed (Applied.applied t) e =
        let (one', back) = apply_discount-Restores lib now sess t "" "" promo cs e in
        let same : typed_code lib now rule promo sess cs ≡ (none, t) = ground arith in
        subst (Typed promo sess) (sym same) (inr (refl, one', back, λ h. absurd (ground arith)))
    go y allowed (Applied.not_applied p) e =
        let same : typed_code lib now rule promo sess cs
            ≡ (some (CheckoutProblem.code_refused p), sess) =
          ground arith in
        subst (Typed promo sess) (sym same) (inl (CheckoutProblem.code_refused p, refl, refl))

-- A failed redemption of it: the session is as it was before the code was typed, and nothing is counted.
abbrev Redeemed :
    StripeSession → Coupons → Option CheckoutProblem × StripeSession × Coupons → Type 0
Redeemed prev cs (problem, sess', cs') =
    (p : CheckoutProblem) → problem ≡ some p → (sess' ≡ prev) × (cs' ≡ cs)

redeem_session-Redeemed :
    (now : ℕ) (rule : OutcomeRule) (promo : String) (prev typed : StripeSession) (cs : Coupons)
    → HasOneDiscount typed
    → Restores prev typed
    → ((promo == "") ≡ true → typed ≡ prev)
    → Redeemed prev cs (redeem_session now rule promo prev typed cs)
unfolding redeem_session
redeem_session-Redeemed now rule promo prev typed cs one back same p e =
    elim (Bool-cases rule.create_payment) [
      | inr n ↦ absurd (ground arith)
      | inl y ↦ elim (Option-cases (redeem_discount now typed.discounts cs).0) [
        | inl n ↦ absurd (ground arith)
        | inr (q, f) ↦ (
          elim (Bool-cases (promo == "")) [
            | inl typed_none ↦ ground (arith, same typed_none)
            | inr some_code ↦ ground arith
          ],
          ground (arith, redeem_discount-kept now typed.discounts cs q one f),
        )
      ]
    ]

abbrev pub Unchanged : Checkout → CheckoutAnswer → Type 0
Unchanged st (reply, st', fires) = is_redirected reply ≡ false → (st' ≡ st) × (fires ≡ [])

finish-redirects :
    (lib : Library) (ids : ℕ → String) (now : ℕ) (id : String) (rule : OutcomeRule)
    (sess : StripeSession) (st : Checkout) (answer : CheckoutAnswer)
    → finish_session lib ids now id rule sess st ≡ some answer
    → is_redirected answer.0 ≡ true
unfolding finish_session
finish-redirects lib ids now id rule sess st answer e = ground arith

close-Unchanged :
    (lib : Library) (ids : ℕ → String) (clock : ℕ → ℕ) (id : String) (rule : OutcomeRule)
    (promo : String) (sess : StripeSession) (st : Checkout) (answer : CheckoutAnswer)
    → HasOneDiscount sess
    → lookup id st.sessions ≡ some sess
    → close_session lib ids clock id rule promo sess st ≡ some answer
    → Unchanged st answer
unfolding close_session
close-Unchanged lib ids clock id rule promo sess st answer one here e =
    let (refused, typed) = typed_code lib (clock 1) rule promo sess st.offers in
    let (problem, sess', offers) = redeem_session (clock 2) rule promo sess typed st.offers in
    elim (Bool-cases (rule.create_payment && ends_too_soon sess (clock 0))) [
      | inl y ↦
          let same : turn_down st CheckoutProblem.trial_too_soon ≡ answer = ground arith in
          subst (Unchanged st) same (λ h. (refl, refl))
      | inr n ↦ elim (typed_code-Typed lib (clock 1) rule promo sess st.offers one) [
        | inl (p, f, back) ↦
            let same : turn_down (with_session id typed st) p ≡ answer = ground arith in
            subst (Unchanged st) same
              (λ h. (ap (λ s. with_session id s st) back ∙ with_session-same id sess st here, refl))
        | inr (f, one', back, without) ↦ elim (Option-cases problem) [
          | inl m ↦
              let finished : finish_session lib ids (clock 3) id rule sess'
                    (record st { offers = offers })
                  ≡ some answer =
                ground arith in
              let to =
                finish-redirects lib ids (clock 3) id rule sess' (record st { offers = offers })
                  answer finished in
              λ h. absurd (ground arith)
          | inr (p, g) ↦
              let same : turn_down (with_session id sess' (record st { offers = offers })) p
                  ≡ answer =
                ground arith in
              let (was, kept) =
                redeem_session-Redeemed (clock 2) rule promo sess typed st.offers one' back without
                  p g in
              subst (Unchanged st) same (λ h. (
                ap (λ s. with_session id s (record st { offers = offers })) was
                    ∙ ap (λ cs. with_session id sess (record st { offers = cs })) kept
                    ∙ with_session-same id sess st here,
                refl,
              ))
        ]
      ]
    ]

-- A completion that does not answer with a redirect.
pub complete_checkout-Unchanged :
    (lib : Library) (ids : ℕ → String) (clock : ℕ → ℕ) (id outcome promo : String) (st : Checkout)
    (answer : CheckoutAnswer)
    → AllValues HasOneDiscount st.sessions
    → complete_checkout lib ids clock id outcome promo st ≡ some answer
    → Unchanged st answer
unfolding complete_checkout
complete_checkout-Unchanged lib ids clock id outcome promo st answer one e =
    elim (Option-cases (stripe_outcomes outcome)) [
      | inl n ↦ ground arith
      | inr (rule, f) ↦ elim (Option-cases (lookup id st.sessions)) [
        | inl n ↦ ground arith
        | inr (sess, here) ↦
            let own = lookup-AllValues HasOneDiscount id sess st.sessions one here in
            elim (Bool-cases (not (is_pending sess.status))) [
              | inl y ↦ ground arith
              | inr n ↦ elim (Bool-cases rule.leave_open) [
                | inl y ↦ ground arith
                | inr m ↦
                    close-Unchanged lib ids clock id rule promo sess st answer own here
                      (ground arith)
              ]
            ]
      ]
    ]
