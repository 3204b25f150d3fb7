-- ===== src/Checkout/Complete/Clockwork.antt =====
-- A completed checkout, and the mock clock after it (internal/devserver/stripemock_mcp.go and
-- stripemock_clock.go).
use hamr.Base.{
  ℕ, ◌≤◌, String, some, List, [], ◌==◌, ◌≡◌, ◌⊎◌, arith, inl, inr, Option-cases, Bool-cases, refl,
  sym, ◌∙◌, ap, subst, if◌then◌else◌,
}
use hamr.Base.Int.{pos, ◌-ℤ◌}
use hamr.Base.Assoc.{AllValues, lookup, insert, lookup-insert, lookup-AllValues}
use hamr.Billing.{Billing, StripeSubscription, Outside}
use hamr.Billing.Calendar.{IsCalendar}
use hamr.Billing.Clock.{Advance, ClockAnswer, advance_clock}
use hamr.Billing.Clock.Progress.{IsTimely}
use hamr.Billing.Clock.Advances.{Timely}
use hamr.Billing.Clock.Ends.{AllTimely, Completed, time_left, advance_clock-Completed}
use hamr.Billing.Session.{StripeSession}
use hamr.Checkout.{Checkout, Library, OutcomeRule, CheckoutFire, is_redirected}
use hamr.Checkout.Subscribe.{create_subscription}
use hamr.Checkout.Subscribe.Timing.{FirstFits, create_subscription-Starts}
use hamr.Checkout.Payment.{
  fulfil, with_customer, closed_session, pays, checkout_pi_key, subscription_fires,
}
use hamr.Checkout.Complete.{
  CheckoutAnswer, complete_checkout, finish_session, fulfil_session, pay_session,
}
use hamr.Checkout.Complete.Refusals.{HasOneDiscount, complete_checkout-Unchanged}
use hamr.Checkout.Complete.Writes.{SamePurchase, with_customer-Attached, complete-Finish}
use hamr.Checkout.Complete.Amounts.{pay_session-kept}

FirstFits-kept : (to : ℕ) (s t : StripeSession) → SamePurchase s t → FirstFits to s → FirstFits to t
FirstFits-kept to s t purchase (li, items, has, fits) = (li, items, purchase.3 ∙ has, fits)

-- The subscriptions are as they were, or there is one more, or another one, that is timely.
abbrev Grows : Outside → ℕ → Billing → Billing → Type 0
Grows o to was b =
    (b.subscriptions ≡ was.subscriptions)
    ⊎ ((key : String) × (s : StripeSubscription) × IsTimely o to s
        × (b.subscriptions ≡ insert key s was.subscriptions))

fulfil-Grows :
    (lib : Library) (ids : ℕ → String) (now to : ℕ) (pi_id : String) (sess : StripeSession)
    (st : Checkout) (result : StripeSession × Checkout × List CheckoutFire)
    → IsCalendar lib.outside
    → FirstFits to sess
    → fulfil lib ids now pi_id sess st ≡ some result
    → Grows lib.outside to st.billing result.1.billing
unfolding fulfil
fulfil-Grows lib ids now to pi_id sess st result cal fits e =
    let (sess', customers) = with_customer ids now sess st.customers in
    let (purchase, discount, status) = with_customer-Attached ids now sess st.customers in
    elim (Bool-cases (sess.mode == "subscription")) [
      | inr n ↦
          let found : (record sess { payment_intent_id = pi_id }, st, []) ≡ result = ground arith in
          subst (λ r. Grows lib.outside to st.billing r.1.billing) found (inl refl)
      | inl y ↦
          elim (Option-cases
            (create_subscription lib.outside ids sess' pi_id now st.offers.coupons st.billing)) [
              | inl n ↦ absurd (ground arith)
              | inr ((sub, inv, billing), f) ↦
                  let found : (
                    record sess' { subscription_id = sub.id },
                    record st { customers = customers; billing = billing },
                    subscription_fires sub inv,
                  )
                      ≡ result =
                    ground arith in
                  let (timely, stored) =
                    create_subscription-Starts lib.outside ids to sess' pi_id now st.offers.coupons
                      st.billing (sub, inv, billing) cal
                      (FirstFits-kept to sess sess' purchase fits) f in
                  subst (λ r. Grows lib.outside to st.billing r.1.billing) found
                    (inr (sub.id, sub, timely, stored))
            ]
    ]

finish-Grows :
    (lib : Library) (ids : ℕ → String) (now to : ℕ) (id : String) (rule : OutcomeRule)
    (sess : StripeSession) (st : Checkout) (answer : CheckoutAnswer)
    → IsCalendar lib.outside
    → FirstFits to sess
    → finish_session lib ids now id rule sess st ≡ some answer
    → Grows lib.outside to st.billing answer.1.billing
unfolding finish_session fulfil_session closed_session
finish-Grows lib ids now to id rule sess st answer cal fits e =
    elim (Option-cases (fulfil_session lib ids now rule sess st)) [
      | inl n ↦ absurd (ground arith)
      | inr ((sess', st', fires), f) ↦
          let pi_id = if pays rule sess then checkout_pi_key ids else "" in
          let (after, paid) = pay_session ids now (pays rule sess) sess' st' in
          let kept = pay_session-kept ids now (pays rule sess) sess' st' in
          let left : after.billing ≡ answer.1.billing = ground arith in
          let grows : Grows lib.outside to st.billing st'.billing =
            elim (Bool-cases rule.create_payment) [
              | inl y ↦
                  fulfil-Grows lib ids now to pi_id (closed_session rule sess) st
                    (sess', st', fires) cal fits (ground arith)
              | inr n ↦ inl (ground arith)
            ] in
          subst (Grows lib.outside to st.billing) left (elim grows [
            | inl g ↦ inl (kept.0 ∙ g)
            | inr (key, s, timely, stored) ↦ inr (key, s, timely, kept.0 ∙ stored)
          ])
    ]

Grows-AllTimely :
    (o : Outside) (to : ℕ) (was b : Billing)
    → AllTimely o to was
    → Grows o to was b
    → AllTimely o to b
Grows-AllTimely o to was b all (inl e) k t f = all k t (ap (lookup k) (sym e) ∙ f)
Grows-AllTimely o to was b all (inr (key, s, timely, stored)) k t f =
    let here : lookup k (insert key s was.subscriptions) ≡ some t =
      ap (lookup k) (sym stored) ∙ f in
    let there = lookup-insert key k s was.subscriptions in
    elim (Bool-cases (key == k)) [
      | inl y ↦ let same : s ≡ t = ground arith in subst (Timely o to) same (λ h. timely)
      | inr n ↦ all k t (ground arith)
    ]

complete_checkout-AllTimely :
    (lib : Library) (ids : ℕ → String) (clock : ℕ → ℕ) (to : ℕ) (id outcome promo : String)
    (st : Checkout) (answer : CheckoutAnswer)
    → IsCalendar lib.outside
    → AllTimely lib.outside to st.billing
    → AllValues (FirstFits to) st.sessions
    → AllValues HasOneDiscount st.sessions
    → complete_checkout lib ids clock id outcome promo st ≡ some answer
    → AllTimely lib.outside to answer.1.billing
complete_checkout-AllTimely lib ids clock to id outcome promo st answer cal all fits one e =
    elim (Bool-cases (is_redirected answer.0)) [
      | inr n ↦
          let same = complete_checkout-Unchanged lib ids clock id outcome promo st answer one e n in
          subst (λ s. AllTimely lib.outside to s.billing) (sym same.0) all
      | inl y ↦
          let (rule, sess, outcome_rule, ends, here, live, fin) =
            complete-Finish lib ids clock id outcome promo st answer one e y in
          let own = lookup-AllValues (FirstFits to) id sess st.sessions fits here in
          Grows-AllTimely lib.outside to st.billing answer.1.billing all (
            finish-Grows lib ids (clock 3) to id rule fin.final (record st { offers = fin.offers })
              answer cal (FirstFits-kept to sess fin.final fin.purchase own) fin.finished)
    ]

-- The mock clock after a checkout, whatever its outcome: when the calendar goes forward, every live
-- subscription is timely up to the target, every stored session has at most one discount and a line
-- whose interval count fits an int in all periods up to the target, then `advanceClock` to a target
-- from now on, at most five years ahead, on fuel for the seconds that are left, ends without a panic
-- and leaves no subscription due, the one of the checkout included.
pub complete_checkout-advance_clock :
    (lib : Library) (ids : ℕ → String) (clock : ℕ → ℕ) (id outcome promo : String) (st : Checkout)
    (answer : CheckoutAnswer) (draws : ℕ → ℕ → String) (fuel now real latest target : ℕ)
    → IsCalendar lib.outside
    → AllTimely lib.outside target st.billing
    → AllValues (FirstFits target) st.sessions
    → AllValues HasOneDiscount st.sessions
    → complete_checkout lib ids clock id outcome promo st ≡ some answer
    → time_left target answer.1.billing ≤ fuel
    → 1 ≤ target
    → now ≤ target
    → target ≤ latest
    → (result : Advance) × (advance_clock lib.outside draws fuel now real latest target
          answer.1.billing
        ≡ ClockAnswer.advanced (pos target -ℤ pos real) result)
      × Completed target result
complete_checkout-advance_clock lib ids clock id outcome promo st answer draws fuel now real latest
      target cal all fits one e enough positive after before =
    advance_clock-Completed lib.outside draws fuel now real latest target answer.1.billing cal
      (complete_checkout-AllTimely lib ids clock target id outcome promo st answer cal all fits one
        e)
      enough positive after before
