-- ===== src/Checkout/Create.antt =====
-- The creation of a checkout session: the part of `createCheckoutSession` under the lock
-- (internal/devserver/stripemock.go).
use hamr.Base.{ℕ, String, not, Option, none, some, List, [], ◌∷◌, ◌==◌, if◌then◌else◌}
use hamr.Base.Assoc.{Assoc, lookup, insert}
use hamr.Billing.Session.{
  StripeLineItem, StripeSession, SessionStatus, SessionPayment, LineCheck, validate_line_items,
}
use hamr.Billing.Coupon.{Coupons, Applied, apply_discount}
use hamr.Billing.Price.{StripePrice, StripeProduct, Catalogue, resolve_price}
use hamr.Checkout.{StripeCustomer, Checkout, Library, CheckoutProblem}
use hamr.Checkout.Payment.{ends_too_soon}

-- A step on the session that is built: the refusal, or the session.
pub data Build : Type 0 where
  stopped : CheckoutProblem → Build
  built : StripeSession → Build

-- The session as it is before the lock is taken.
abbrev pub new_session : String → ℕ → StripeSession → StripeSession
new_session key at sess = record sess {
  id = key;
  created = at;
  status = SessionStatus.pending;
  payment_status = SessionPayment.unpaid;
}

unfoldable pub attach_customer : Assoc StripeCustomer → StripeSession → Build
unfolding lookup
attach_customer customers sess =
    if sess.customer_id == "" then Build.built sess else elim (lookup sess.customer_id customers) [
      | none ↦ Build.stopped CheckoutProblem.no_such_customer
      | some c ↦ Build.built (record sess { customer_email = c.email; customer_name = c.name })
    ]

-- What a stored price writes to a line.
abbrev pub priced_line : StripeLineItem → StripePrice → Option StripeProduct → StripeLineItem
priced_line li pr product = record li {
  product_id = pr.product_id;
  name = elim product [ none ↦ pr.nickname | some p ↦ p.name ];
  unit_amount = pr.unit_amount;
  currency = pr.currency;
  interval = pr.interval;
  interval_count = pr.interval_count;
}

pub data Lines : Type 0 where
  unresolved : CheckoutProblem → Lines
  resolved : List StripeLineItem → Lines

abbrev pub push_line : StripeLineItem → Lines → Lines
push_line li (Lines.unresolved p) = Lines.unresolved p
push_line li (Lines.resolved items) = Lines.resolved (li ∷ items)

-- The loop over the line items: the first error, or all items with their prices.
unfoldable pub resolve_lines : Catalogue → List StripeLineItem → Lines
unfolding resolve_price
resolve_lines st [] = Lines.resolved []
resolve_lines st (li ∷ items) =
    let rest = resolve_lines st items in
    if li.price_id == "" then push_line li rest else elim (resolve_price li.price_id st) [
      | none ↦ Lines.unresolved CheckoutProblem.no_such_price
      | some (pr, product) ↦
          if not pr.active
          then Lines.unresolved CheckoutProblem.inactive_price
          else push_line (priced_line li pr product) rest
    ]

unfoldable pub price_lines : Catalogue → StripeSession → Build
unfolding resolve_lines validate_line_items
price_lines st sess = elim (resolve_lines st sess.line_items) [
  | Lines.unresolved p ↦ Build.stopped p
  | Lines.resolved items ↦
      let priced : StripeSession = record sess { line_items = items } in
      elim (validate_line_items priced) [
        | LineCheck.bad_line i p ↦ Build.stopped (CheckoutProblem.line_refused i p)
        | LineCheck.checked currency total ↦
            Build.built (record priced { currency = currency; amount_total = total })
      ]
]

-- The discount is resolved when the session is created; it is redeemed on completion.
unfoldable pub discount_session : Library → ℕ → Coupons → StripeSession → Build
unfolding apply_discount
discount_session lib now cs sess = elim sess.discounts [
  | [] ↦ Build.built sess
  | d ∷ _ ↦
      elim (apply_discount lib.outside lib.equal_fold now sess d.coupon d.promotion_code "" cs) [
        | Applied.applied sess' ↦ Build.built sess'
        | Applied.not_applied p ↦ Build.stopped (CheckoutProblem.code_refused p)
      ]
]

abbrev pub and_then : Build → (StripeSession → Build) → Build
and_then (Build.stopped p) f = Build.stopped p
and_then (Build.built sess) f = f sess

unfoldable pub build_session : Library → (ℕ → ℕ) → StripeSession → Checkout → Build
unfolding attach_customer price_lines discount_session
build_session lib clock sess st =
    if ends_too_soon sess (clock 1)
    then Build.stopped CheckoutProblem.trial_too_soon
    else and_then (and_then (attach_customer st.customers sess) (price_lines st.catalogue))
        (discount_session lib (clock 2) st.offers)

-- `createCheckoutSession` for the session that `buildSessionFromParams` makes of the form: the answer
-- and the state.
unfoldable pub create_session :
    Library → String → (ℕ → ℕ) → StripeSession → Checkout → Build × Checkout
unfolding insert build_session
create_session lib key clock sess st =
    let result = build_session lib clock (new_session key (clock 0) sess) st in
    elim result [
      | Build.stopped p ↦ (Build.stopped p, st)
      | Build.built sess' ↦
          (Build.built sess', record st { sessions = insert key sess' st.sessions })
    ]
