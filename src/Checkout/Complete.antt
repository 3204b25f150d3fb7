-- ===== src/Checkout/Complete.antt =====
-- The end of a checkout session: `completeCheckout` and `expireSession`
-- (internal/devserver/stripemock_mcp.go).
pub mod Refusals
pub mod Writes
pub mod Amounts
pub mod Returns
pub mod Clockwork
use hamr.Base.{
  ℕ, String, Bool, not, ◌&&◌, Option, none, some, List, [], ◌∷◌, ◌++◌, ◌==◌, if◌then◌else◌,
}
use hamr.Base.Assoc.{lookup, insert}
use hamr.Billing.{BillingObject}
use hamr.Billing.Session.{StripeSession, SessionStatus, SessionPayment}
use hamr.Billing.Coupon.{Coupons}
use hamr.Checkout.{
  Checkout, Library, OutcomeRule, stripe_outcomes, CheckoutProblem, CheckoutReply, CheckoutObject,
  CheckoutFire, is_pending,
}
use hamr.Checkout.Payment.{
  ends_too_soon, typed_code, redeem_session, closed_session, pays, checkout_pi_key, fire_billed,
  fulfil, checkout_charge, checkout_payment_intent, with_payment,
}

-- The answer, the state left behind, and the events.
abbrev pub CheckoutAnswer : Type 0
CheckoutAnswer = CheckoutReply × Checkout × List CheckoutFire

abbrev pub turn_down : Checkout → CheckoutProblem → CheckoutAnswer
turn_down st p = (CheckoutReply.failed p, st, [])

abbrev pub fire_session : String → StripeSession → CheckoutFire
fire_session event_type sess = record {
  event_type = event_type;
  event_object = CheckoutObject.session sess;
}

abbrev pub with_session : String → StripeSession → Checkout → Checkout
with_session id sess st = record st { sessions = insert id sess st.sessions }

unfoldable pub redirect_to : Library → OutcomeRule → StripeSession → String
redirect_to lib rule sess =
    let url =
      lib.put_id (if rule.use_success_url then sess.success_url else sess.cancel_url) sess.id in
    if url == "" then "/" else url

-- The payment, when there is one: the state and the events that follow those of the session.
unfoldable pub pay_session :
    (ℕ → String) → ℕ → Bool → StripeSession → Checkout → Checkout × List CheckoutFire
unfolding checkout_charge checkout_payment_intent
pay_session ids now paying sess st =
    let pi = checkout_payment_intent ids now sess in
    let ch = checkout_charge ids now sess in
    if paying
    then (
      with_payment pi ch st,
      fire_billed "payment_intent.succeeded" (BillingObject.payment_intent pi (some ch))
          ∷ fire_billed "charge.succeeded" (BillingObject.charge ch)
          ∷ [],
    )
    else (st, [])

-- The session with its status, and what a payment creates beside the intent and the charge.
unfoldable pub fulfil_session :
    Library
    → (ℕ → String)
    → ℕ
    → OutcomeRule
    → StripeSession
    → Checkout
    → Option (StripeSession × Checkout × List CheckoutFire)
unfolding closed_session fulfil
fulfil_session lib ids now rule sess st =
    let closed = closed_session rule sess in
    let pi_id = if pays rule sess then checkout_pi_key ids else "" in
    if rule.create_payment then fulfil lib ids now pi_id closed st else some (closed, st, [])

-- `completeCheckout` once the outcome is allowed, for the session under `id`.
unfoldable pub finish_session :
    Library
    → (ℕ → String)
    → ℕ
    → String
    → OutcomeRule
    → StripeSession
    → Checkout
    → Option CheckoutAnswer
unfolding fulfil_session pay_session redirect_to insert
finish_session lib ids now id rule sess st = elim (fulfil_session lib ids now rule sess st) [
  | none ↦ none
  | some (sess', st', fires) ↦
      let (st'', paid) = pay_session ids now (pays rule sess) sess' st' in
      some (
        CheckoutReply.redirected (redirect_to lib rule sess'),
        with_session id sess' st'',
        (fire_session rule.event_type sess' ∷ fires) ++ paid,
      )
]

-- `completeCheckout` for a session that is open, and an outcome that does not leave it so.
unfoldable pub close_session :
    Library
    → (ℕ → String)
    → (ℕ → ℕ)
    → String
    → OutcomeRule
    → String
    → StripeSession
    → Checkout
    → Option CheckoutAnswer
unfolding typed_code redeem_session finish_session insert
close_session lib ids clock id rule promo sess st =
    if rule.create_payment && ends_too_soon sess (clock 0)
    then some (turn_down st CheckoutProblem.trial_too_soon)
    else (let (refused, typed) = typed_code lib (clock 1) rule promo sess st.offers in
        elim refused [
          | some p ↦ some (turn_down (with_session id typed st) p)
          | none ↦
              let (problem, sess', offers) =
                redeem_session (clock 2) rule promo sess typed st.offers in
              let st' : Checkout = record st { offers = offers } in
              elim problem [
                | some p ↦ some (turn_down (with_session id sess' st') p)
                | none ↦ finish_session lib ids (clock 3) id rule sess' st'
              ]
        ])

-- `completeCheckout`. The k-th reading of the mock clock is `clock k`, the k-th draw of `randomHex` is
-- `ids k`, and `none` is a panic.
unfoldable pub complete_checkout :
    Library → (ℕ → String) → (ℕ → ℕ) → String → String → String → Checkout → Option CheckoutAnswer
unfolding stripe_outcomes lookup close_session
complete_checkout lib ids clock id outcome promo st = elim (stripe_outcomes outcome) [
  | none ↦ some (turn_down st CheckoutProblem.unknown_outcome)
  | some rule ↦ elim (lookup id st.sessions) [
    | none ↦ some (turn_down st CheckoutProblem.no_such_session)
    | some sess ↦
        if not (is_pending sess.status)
        then some (turn_down st (CheckoutProblem.already sess.status))
        else if rule.leave_open
        then some (CheckoutReply.left_open, st, [])
        else close_session lib ids clock id rule promo sess st
  ]
]

-- `expireSession`: the error, if any, the state and the events.
unfoldable pub expire_session :
    String → Checkout → Option CheckoutProblem × Checkout × List CheckoutFire
unfolding lookup insert
expire_session id st = elim (lookup id st.sessions) [
  | none ↦ (some CheckoutProblem.no_such_session, st, [])
  | some sess ↦
      let sess' : StripeSession = record sess {
        status = SessionStatus.expired;
        payment_status = SessionPayment.unpaid;
      } in
      if not (is_pending sess.status)
      then (some (CheckoutProblem.already sess.status), st, [])
      else (none, with_session id sess' st, fire_session "checkout.session.expired" sess' ∷ [])
]
