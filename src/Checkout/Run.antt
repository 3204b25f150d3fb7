-- ===== src/Checkout/Run.antt =====
-- Any sequence of operations on checkout sessions (internal/devserver/stripemock.go and
-- stripemock_mcp.go).
pub mod Built
use hamr.Base.{
  ℕ, String, Bool, true, Option, none, some, ◌==◌, ◌≡◌, arith, inl, inr, Option-cases, Bool-cases,
  refl, sym, ◌∙◌, ap, subst,
}
use hamr.Base.Assoc.{Assoc, AllValues, lookup, insert, lookup-AllValues, insert-AllValues}
use hamr.Billing.Session.{StripeSession, SessionStatus, SessionPayment}
use hamr.Checkout.{
  Checkout, Library, CheckoutProblem, CheckoutReply, CheckoutFire, is_redirected, is_pending,
}
use hamr.Checkout.Create.{Build, create_session}
use hamr.Checkout.Complete.{CheckoutAnswer, complete_checkout, expire_session}
use hamr.Checkout.Complete.Refusals.{HasOneDiscount, complete_checkout-Unchanged}
use hamr.Checkout.Complete.Writes.{SamePurchase, complete-Finish, Finish-writes}
use hamr.Checkout.Complete.Amounts.{IsSummed-kept}
use hamr.Checkout.Complete.Returns.{HasLine}
use hamr.Checkout.Subscribe.Bills.{IsSummed}
use hamr.Checkout.Run.Built.{FromForm, create_session-writes}

-- What holds of a stored session: it has a line item and at most one discount, and its total is the
-- sum of its lines.
abbrev pub IsSound : StripeSession → Type 0
IsSound sess = HasLine sess × HasOneDiscount sess × IsSummed sess

abbrev pub AllSound : Checkout → Type 0
AllSound st =
    AllValues HasLine st.sessions
    × AllValues HasOneDiscount st.sessions
    × AllValues IsSummed st.sessions

-- What the API, the hosted page and the dashboard do to sessions; what changes everything but the
-- sessions is one step too.
pub data CheckoutStep (lib : Library) : Checkout → Checkout → Type 0 where
  creates :
      {st : Checkout} (key : String) (clock : ℕ → ℕ) (sess : StripeSession)
      → FromForm sess
      → lookup key st.sessions ≡ none
      → CheckoutStep lib st (create_session lib key clock sess st).1
  completes :
      {st : Checkout} (ids : ℕ → String) (clock : ℕ → ℕ) (id outcome promo : String)
      (answer : CheckoutAnswer)
      → complete_checkout lib ids clock id outcome promo st ≡ some answer
      → CheckoutStep lib st answer.1
  expires : {st : Checkout} (id : String) → CheckoutStep lib st (expire_session id st).1
  others : {st st' : Checkout} → st'.sessions ≡ st.sessions → CheckoutStep lib st st'

pub data CheckoutSteps (lib : Library) : Checkout → Checkout → Type 0 where
  done : {st : Checkout} → CheckoutSteps lib st st
  next :
      {st st' st'' : Checkout}
      → CheckoutStep lib st st'
      → CheckoutSteps lib st' st''
      → CheckoutSteps lib st st''

insert-AllSound :
    (st st' : Checkout) (id : String) (sess : StripeSession)
    → AllSound st
    → IsSound sess
    → st'.sessions ≡ insert id sess st.sessions
    → AllSound st'
insert-AllSound st st' id sess (a, b, c) (p, q, r) e =
    subst (λ m. AllValues HasLine m × AllValues HasOneDiscount m × AllValues IsSummed m) (sym e)
      (
        insert-AllValues HasLine id sess st.sessions a p,
        insert-AllValues HasOneDiscount id sess st.sessions b q,
        insert-AllValues IsSummed id sess st.sessions c r,
      )

same-AllSound : (st st' : Checkout) → AllSound st → st'.sessions ≡ st.sessions → AllSound st'
same-AllSound st st' all e =
    subst (λ m. AllValues HasLine m × AllValues HasOneDiscount m × AllValues IsSummed m) (sym e) all

-- What a step does to the sessions: nothing, or it stores a new one under a key that is free, or it
-- closes one that is open.
data Effect (st st' : Checkout) : Type 0 where
  none_written : st'.sessions ≡ st.sessions → Effect st st'
  new_written :
      (key : String) (sess : StripeSession)
      → lookup key st.sessions ≡ none
      → IsSound sess
      → st'.sessions ≡ insert key sess st.sessions
      → Effect st st'
  closed :
      (key : String) (sess sess' : StripeSession)
      → lookup key st.sessions ≡ some sess
      → is_pending sess.status ≡ true
      → IsSound sess'
      → st'.sessions ≡ insert key sess' st.sessions
      → Effect st st'

Step-Effect :
    (lib : Library) (st st' : Checkout) → AllSound st → CheckoutStep lib st st' → Effect st st'
unfolding expire_session
Step-Effect lib st st' all (creates key clock sess form free) =
    elim (create_session-writes lib key clock sess st form) [
      | inl e ↦ Effect.none_written e
      | inr (sess', e, filled, one, summed) ↦
          Effect.new_written key sess' free (filled, one, summed) e
    ]
Step-Effect lib st st' all (completes ids clock id outcome promo answer e) =
    elim (Bool-cases (is_redirected answer.0)) [
      | inr n ↦ Effect.none_written (
          ap (λ s. s.sessions)
            ((complete_checkout-Unchanged lib ids clock id outcome promo st answer all.1 e n).0))
      | inl y ↦
          let (rule, sess, outcome_rule, ends, here, live, fin) =
            complete-Finish lib ids clock id outcome promo st answer all.1 e y in
          let (sess', stored, purchase, one, status) =
            Finish-writes lib ids clock id rule sess st answer fin in
          let (li, items, has) = lookup-AllValues HasLine id sess st.sessions all.0 here in
          let summed = lookup-AllValues IsSummed id sess st.sessions all.2 here in
          Effect.closed id sess sess' here live
            ((li, items, purchase.3 ∙ has), one, IsSummed-kept sess sess' purchase summed) stored
    ]
Step-Effect lib st st' all (expires id) = elim (Option-cases (lookup id st.sessions)) [
  | inl n ↦ Effect.none_written (ground arith)
  | inr (sess, here) ↦ elim (Bool-cases (is_pending sess.status)) [
    | inr n ↦ Effect.none_written (ground arith)
    | inl y ↦
        let expired : StripeSession = record sess {
          status = SessionStatus.expired;
          payment_status = SessionPayment.unpaid;
        } in
        let filled = lookup-AllValues HasLine id sess st.sessions all.0 here in
        let one = lookup-AllValues HasOneDiscount id sess st.sessions all.1 here in
        let summed = lookup-AllValues IsSummed id sess st.sessions all.2 here in
        Effect.closed id sess expired here y (filled, one, summed) (ground arith)
  ]
]
Step-Effect lib st st' all (others e) = Effect.none_written e

Step-AllSound :
    (lib : Library) (st st' : Checkout) → AllSound st → CheckoutStep lib st st' → AllSound st'
Step-AllSound lib st st' all step = go (Step-Effect lib st st' all step)
  where
    go : Effect st st' → AllSound st'
    go (Effect.none_written e) = same-AllSound st st' all e
    go (Effect.new_written key sess free sound e) = insert-AllSound st st' key sess all sound e
    go (Effect.closed key sess sess' here live sound e) =
        insert-AllSound st st' key sess' all sound e

-- After any sequence of operations on sessions, from a state in which each stored session has a line
-- item and at most one discount, and a total that is the sum of its lines, all of them still do: those
-- that were created, at listed prices or at their own, and those that were completed or expired.
pub CheckoutSteps-AllSound :
    (lib : Library) (st st' : Checkout) → AllSound st → CheckoutSteps lib st st' → AllSound st'
CheckoutSteps-AllSound lib st st' all done = all
CheckoutSteps-AllSound lib st st' all (next {st' = mid} step rest) =
    CheckoutSteps-AllSound lib mid st' (Step-AllSound lib st mid all step) rest
