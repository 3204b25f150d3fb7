-- ===== src/Checkout/Complete/Writes.antt =====
-- What a completed checkout writes of its session (internal/devserver/stripemock_mcp.go).
use hamr.Base.{
  ℕ, String, Bool, true, false, ◌&&◌, none, some, List, [], ◌==◌, ◌≡◌, arith, inl, inr,
  Option-cases, Bool-cases, refl, sym, ◌∙◌, ap, subst, if◌then◌else◌,
}
use hamr.Base.Assoc.{Assoc, AllValues, lookup, insert, lookup-AllValues}
use hamr.Billing.Session.{StripeSession}
use hamr.Billing.Coupon.{Coupons}
use hamr.Checkout.{
  StripeCustomer, Checkout, Library, OutcomeRule, stripe_outcomes, CheckoutFire, is_redirected,
  is_pending,
}
use hamr.Checkout.Subscribe.{create_subscription}
use hamr.Checkout.Payment.{
  typed_code, redeem_session, ends_too_soon, fulfil, closed_session, pays, checkout_pi_key,
  with_customer, subscription_fires,
}
use hamr.Checkout.Complete.{
  CheckoutAnswer, close_session, complete_checkout, finish_session, pay_session, fulfil_session,
}
use hamr.Checkout.Complete.Refusals.{HasOneDiscount, Restores, typed_code-Typed, AtMostOne}

-- What is bought, and for how much before a discount.
abbrev pub SamePurchase : StripeSession → StripeSession → Type 0
SamePurchase s t =
    (t.id ≡ s.id)
    × (t.mode ≡ s.mode)
    × (t.currency ≡ s.currency)
    × (t.line_items ≡ s.line_items)
    × (t.amount_total ≡ s.amount_total)
    × (t.trial_end ≡ s.trial_end)

abbrev pub SameDiscount : StripeSession → StripeSession → Type 0
SameDiscount s t = (t.discounts ≡ s.discounts) × (t.amount_discount ≡ s.amount_discount)

pub Restores-SamePurchase : (s t : StripeSession) → Restores s t → SamePurchase s t
Restores-SamePurchase s t e = (
  ap (λ x. x.id) e,
  ap (λ x. x.mode) e,
  ap (λ x. x.currency) e,
  ap (λ x. x.line_items) e,
  ap (λ x. x.amount_total) e,
  ap (λ x. x.trial_end) e,
)

SamePurchase-trans :
    (s t u : StripeSession) → SamePurchase s t → SamePurchase t u → SamePurchase s u
SamePurchase-trans s t u (a0, a1, a2, a3, a4, a5) (b0, b1, b2, b3, b4, b5) =
    (b0 ∙ a0, b1 ∙ a1, b2 ∙ a2, b3 ∙ a3, b4 ∙ a4, b5 ∙ a5)

abbrev pub Attached : StripeSession → StripeSession × Assoc StripeCustomer → Type 0
Attached sess (sess', _) =
    SamePurchase sess sess' × SameDiscount sess sess' × (sess'.status ≡ sess.status)

pub with_customer-Attached :
    (ids : ℕ → String) (now : ℕ) (sess : StripeSession) (customers : Assoc StripeCustomer)
    → Attached sess (with_customer ids now sess customers)
unfolding with_customer
with_customer-Attached ids now sess customers = elim (Bool-cases (sess.customer_id == "")) [
  | inl y ↦ rw (y, with_customer) ((refl, refl, refl, refl, refl, refl), (refl, refl), refl)
  | inr n ↦ rw (n, with_customer) ((refl, refl, refl, refl, refl, refl), (refl, refl), refl)
]

abbrev pub Fulfilled :
    StripeSession → Checkout → StripeSession × Checkout × List CheckoutFire → Type 0
Fulfilled sess st (sess', st', _) =
    SamePurchase sess sess'
    × SameDiscount sess sess'
    × (sess'.status ≡ sess.status)
    × (st'.sessions ≡ st.sessions)

pub fulfil-Fulfilled :
    (lib : Library) (ids : ℕ → String) (now : ℕ) (pi_id : String) (sess : StripeSession)
    (st : Checkout) (result : StripeSession × Checkout × List CheckoutFire)
    → fulfil lib ids now pi_id sess st ≡ some result
    → Fulfilled sess st result
unfolding fulfil
fulfil-Fulfilled lib ids now pi_id sess st result e =
    let (sess', customers) = with_customer ids now sess st.customers in
    let same = with_customer-Attached ids now sess st.customers in
    elim (Bool-cases (sess.mode == "subscription")) [
      | inr n ↦
          let found : (record sess { payment_intent_id = pi_id }, st, []) ≡ result = ground arith in
          subst (Fulfilled sess st) found
            ((refl, refl, refl, refl, refl, refl), (refl, refl), refl, refl)
      | inl y ↦
          elim (Option-cases
            (create_subscription lib.outside ids sess' pi_id now st.offers.coupons st.billing)) [
              | inl n ↦ absurd (ground arith)
              | inr ((sub, inv, billing), f) ↦
                  let found : (
                    record sess' { subscription_id = sub.id },
                    record st { customers = customers; billing = billing },
                    subscription_fires sub inv,
                  )
                      ≡ result =
                    ground arith in
                  subst (Fulfilled sess st) found (same.0, same.1, same.2, refl)
            ]
    ]

pay_session-sessions :
    (ids : ℕ → String) (now : ℕ) (paying : Bool) (sess : StripeSession) (st : Checkout)
    → (pay_session ids now paying sess st).0.sessions ≡ st.sessions
unfolding pay_session
pay_session-sessions ids now true sess st = refl
pay_session-sessions ids now false sess st = refl

pub fulfil_session-Fulfilled :
    (lib : Library) (ids : ℕ → String) (now : ℕ) (rule : OutcomeRule) (sess : StripeSession)
    (st : Checkout) (result : StripeSession × Checkout × List CheckoutFire)
    → fulfil_session lib ids now rule sess st ≡ some result
    → Fulfilled (closed_session rule sess) st result
unfolding fulfil_session
fulfil_session-Fulfilled lib ids now rule sess st result e = elim (Bool-cases rule.create_payment) [
  | inl y ↦
      fulfil-Fulfilled lib ids now (if pays rule sess then checkout_pi_key ids else "")
        (closed_session rule sess) st result (ground arith)
  | inr n ↦
      let found : (closed_session rule sess, st, []) ≡ result = ground arith in
      subst (Fulfilled (closed_session rule sess) st) found
        ((refl, refl, refl, refl, refl, refl), (refl, refl), refl, refl)
]

finish-writes :
    (lib : Library) (ids : ℕ → String) (now : ℕ) (id : String) (rule : OutcomeRule)
    (sess : StripeSession) (st : Checkout) (answer : CheckoutAnswer)
    → finish_session lib ids now id rule sess st ≡ some answer
    → (sess' : StripeSession) × (answer.1.sessions ≡ insert id sess' st.sessions)
      × SamePurchase sess sess'
      × SameDiscount sess sess'
      × (sess'.status ≡ rule.status)
unfolding finish_session closed_session
finish-writes lib ids now id rule sess st answer e =
    elim (Option-cases (fulfil_session lib ids now rule sess st)) [
      | inl n ↦ absurd (ground arith)
      | inr ((sess', st', fires), f) ↦
          let (purchase, discount, status, same) =
            fulfil_session-Fulfilled lib ids now rule sess st (sess', st', fires) f in
          let paid = pay_session-sessions ids now (pays rule sess) sess' st' in
          (sess', ground (arith, same, paid), purchase, discount, status)
    ]

closing :
    (outcome : String) (rule : OutcomeRule)
    → stripe_outcomes outcome ≡ some rule
    → rule.leave_open ≡ false
    → is_pending rule.status ≡ false
unfolding stripe_outcomes
closing outcome rule e n = ground arith

pub redeem_session-Same :
    (now : ℕ) (rule : OutcomeRule) (promo : String) (prev typed : StripeSession) (cs : Coupons)
    → (redeem_session now rule promo prev typed cs).0 ≡ none
    → (redeem_session now rule promo prev typed cs).1 ≡ typed
unfolding redeem_session
redeem_session-Same now rule promo prev typed cs e = ground arith

-- How a completion that answers with a redirect comes to `finish_session`.
pub record Finish (lib : Library) (ids : ℕ → String) (clock : ℕ → ℕ) (id : String)
    (rule : OutcomeRule) (sess : StripeSession) (st : Checkout) (answer : CheckoutAnswer)
    : Type 0 where
  pub final : StripeSession
  pub offers : Coupons
  pub purchase : SamePurchase sess final
  pub one : HasOneDiscount final
  pub finished :
      finish_session lib ids (clock 3) id rule final (record st { offers = offers }) ≡ some answer

close-Finish :
    (lib : Library) (ids : ℕ → String) (clock : ℕ → ℕ) (id : String) (rule : OutcomeRule)
    (promo : String) (sess : StripeSession) (st : Checkout) (answer : CheckoutAnswer)
    → HasOneDiscount sess
    → close_session lib ids clock id rule promo sess st ≡ some answer
    → is_redirected answer.0 ≡ true
    → Finish lib ids clock id rule sess st answer
unfolding close_session
close-Finish lib ids clock id rule promo sess st answer one e sent =
    let (refused, typed) = typed_code lib (clock 1) rule promo sess st.offers in
    let (problem, sess', offers) = redeem_session (clock 2) rule promo sess typed st.offers in
    elim (Bool-cases (rule.create_payment && ends_too_soon sess (clock 0))) [
      | inl y ↦ absurd (ground arith)
      | inr n ↦ elim (typed_code-Typed lib (clock 1) rule promo sess st.offers one) [
        | inl (p, f, back) ↦ absurd (ground arith)
        | inr (f, one', back, without) ↦ elim (Option-cases problem) [
          | inr (p, g) ↦ absurd (ground arith)
          | inl m ↦
              let kept = redeem_session-Same (clock 2) rule promo sess typed st.offers m in
              record {
                final = sess';
                offers = offers;
                purchase =
                    subst (SamePurchase sess) (sym kept) (Restores-SamePurchase sess typed back);
                one = subst HasOneDiscount (sym kept) one';
                finished = ground arith;
              }
        ]
      ]
    ]

-- The session and the rule of a completion that answers with a redirect.
pub complete-Finish :
    (lib : Library) (ids : ℕ → String) (clock : ℕ → ℕ) (id outcome promo : String) (st : Checkout)
    (answer : CheckoutAnswer)
    → AllValues HasOneDiscount st.sessions
    → complete_checkout lib ids clock id outcome promo st ≡ some answer
    → is_redirected answer.0 ≡ true
    → (rule : OutcomeRule) × (sess : StripeSession) × (stripe_outcomes outcome ≡ some rule)
      × (is_pending rule.status ≡ false)
      × (lookup id st.sessions ≡ some sess)
      × (is_pending sess.status ≡ true)
      × Finish lib ids clock id rule sess st answer
unfolding complete_checkout
complete-Finish lib ids clock id outcome promo st answer one e sent =
    elim (Option-cases (stripe_outcomes outcome)) [
      | inl n ↦ absurd (ground arith)
      | inr (rule, f) ↦ elim (Option-cases (lookup id st.sessions)) [
        | inl n ↦ absurd (ground arith)
        | inr (sess, here) ↦
            let own = lookup-AllValues HasOneDiscount id sess st.sessions one here in
            elim (Bool-cases (is_pending sess.status)) [
              | inr y ↦ absurd (ground arith)
              | inl live ↦ elim (Bool-cases rule.leave_open) [
                | inl y ↦ absurd (ground arith)
                | inr m ↦ (
                  rule,
                  sess,
                  f,
                  closing outcome rule f m,
                  here,
                  live,
                  close-Finish lib ids clock id rule promo sess st answer own (ground arith) sent,
                )
              ]
            ]
      ]
    ]

-- The session that a completion stores, of the session that was there.
pub Finish-writes :
    (lib : Library) (ids : ℕ → String) (clock : ℕ → ℕ) (id : String) (rule : OutcomeRule)
    (sess : StripeSession) (st : Checkout) (answer : CheckoutAnswer)
    → Finish lib ids clock id rule sess st answer
    → (sess' : StripeSession) × (answer.1.sessions ≡ insert id sess' st.sessions)
      × SamePurchase sess sess'
      × HasOneDiscount sess'
      × (sess'.status ≡ rule.status)
Finish-writes lib ids clock id rule sess st answer fin =
    let (closed, stored, purchase, discount, status) =
      finish-writes lib ids (clock 3) id rule fin.final (record st { offers = fin.offers }) answer
        fin.finished in
    (
      closed,
      stored,
      SamePurchase-trans sess fin.final closed fin.purchase purchase,
      subst AtMostOne (sym discount.0) fin.one,
      status,
    )
