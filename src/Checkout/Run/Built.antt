-- ===== src/Checkout/Run/Built.antt =====
-- The session that `createCheckoutSession` stores (internal/devserver/stripemock.go).
use hamr.Base.{
  ℕ, suc, String, List, [], ◌∷◌, ◌==◌, ◌≡◌, ◌≢◌, ◌⊎◌, arith, inl, inr, Option-cases, Bool-cases,
  refl, sym, ◌∙◌, ap, subst,
}
use hamr.Base.Int.{ℤ, pos}
use hamr.Base.Int64.{add64, mul64}
use hamr.Base.Assoc.{Assoc, lookup, insert}
use hamr.Billing.Session.{
  StripeSession, StripeLineItem, StripeDiscount, LineProblem, LineCheck, check_lines,
  validate_line_items,
}
use hamr.Billing.Price.{Catalogue, resolve_price}
use hamr.Billing.Coupon.{Coupons, CouponProblem, Applied, apply_discount}
use hamr.Checkout.{Checkout, Library, StripeCustomer, CheckoutProblem}
use hamr.Checkout.Create.{
  Build, Lines, push_line, priced_line, new_session, attach_customer, resolve_lines, price_lines,
  discount_session, build_session, create_session,
}
use hamr.Checkout.Complete.Refusals.{AtMostOne, HasOneDiscount, apply_discount-Restores}
use hamr.Checkout.Complete.Writes.{Restores-SamePurchase}
use hamr.Checkout.Payment.{ends_too_soon}
use hamr.Checkout.Complete.Returns.{HasLine}
use hamr.Checkout.Subscribe.Bills.{add_lines, IsSummed}

-- What `buildSessionFromParams` makes of a form: a line item at least, and one discount at most.
abbrev pub FromForm : StripeSession → Type 0
FromForm sess = HasLine sess × HasOneDiscount sess

check_lines-sum :
    (mode : String) (first : StripeLineItem) (i : ℕ) (currency : String) (so_far : ℤ)
    (items : List StripeLineItem) (found : String) (total : ℤ)
    → check_lines mode first i currency so_far items ≡ LineCheck.checked found total
    → total ≡ add_lines so_far items
unfolding check_lines add_lines
check_lines-sum mode first i currency so_far [] found total e = ground arith
check_lines-sum mode first i currency so_far (li ∷ items) found total e =
    let ih =
      check_lines-sum mode first (suc i) li.currency
        (add64 so_far (mul64 li.unit_amount li.quantity)) items found total in
    ground (arith, ih)

Lines-cases :
    (r : Lines)
    → ((p : CheckoutProblem) × (r ≡ Lines.unresolved p))
      ⊎ ((items : List StripeLineItem) × (r ≡ Lines.resolved items))
Lines-cases (Lines.unresolved p) = inl (p, refl)
Lines-cases (Lines.resolved items) = inr (items, refl)

LineCheck-cases :
    (r : LineCheck)
    → ((i : ℕ) × (p : LineProblem) × (r ≡ LineCheck.bad_line i p))
      ⊎ ((currency : String) × (total : ℤ) × (r ≡ LineCheck.checked currency total))
LineCheck-cases (LineCheck.bad_line i p) = inl (i, p, refl)
LineCheck-cases (LineCheck.checked currency total) = inr (currency, total, refl)

Applied-cases :
    (r : Applied)
    → ((p : CouponProblem) × (r ≡ Applied.not_applied p))
      ⊎ ((sess : StripeSession) × (r ≡ Applied.applied sess))
Applied-cases (Applied.not_applied p) = inl (p, refl)
Applied-cases (Applied.applied sess) = inr (sess, refl)

Build-cases :
    (r : Build)
    → ((p : CheckoutProblem) × (r ≡ Build.stopped p))
      ⊎ ((sess : StripeSession) × (r ≡ Build.built sess))
Build-cases (Build.stopped p) = inl (p, refl)
Build-cases (Build.built sess) = inr (sess, refl)

-- A session that comes from another one keeps its lines and its total.
abbrev SameLines : StripeSession → StripeSession → Type 0
SameLines s t = (t.line_items ≡ s.line_items) × (t.amount_total ≡ s.amount_total)

attach_customer-Same :
    (customers : Assoc StripeCustomer) (sess sess' : StripeSession)
    → attach_customer customers sess ≡ Build.built sess'
    → SameLines sess sess' × (sess'.discounts ≡ sess.discounts)
unfolding attach_customer
attach_customer-Same customers sess sess' e = elim (Bool-cases (sess.customer_id == "")) [
  | inl y ↦
      let same : sess ≡ sess' = ground arith in
      subst (λ t. SameLines sess t × (t.discounts ≡ sess.discounts)) same ((refl, refl), refl)
  | inr n ↦ elim (Option-cases (lookup sess.customer_id customers)) [
    | inl m ↦ absurd (ground arith)
    | inr (c, f) ↦
        let same : record sess { customer_email = c.email; customer_name = c.name } ≡ sess' =
          ground arith in
        subst (λ t. SameLines sess t × (t.discounts ≡ sess.discounts)) same ((refl, refl), refl)
  ]
]

push_line-filled : (li : StripeLineItem) (rest : Lines) → push_line li rest ≢ Lines.resolved []
push_line-filled li (Lines.unresolved p) e = absurd (ground arith)
push_line-filled li (Lines.resolved items) e = absurd (ground arith)

resolve_lines-HasLine :
    (st : Catalogue) (li : StripeLineItem) (items found : List StripeLineItem)
    → resolve_lines st (li ∷ items) ≡ Lines.resolved found
    → (li' : StripeLineItem) × (items' : List StripeLineItem) × (found ≡ li' ∷ items')
unfolding resolve_lines
resolve_lines-HasLine st li items [] e = elim (Bool-cases (li.price_id == "")) [
  | inl y ↦ absurd (push_line-filled li (resolve_lines st items) (ground arith))
  | inr n ↦ elim (Option-cases (resolve_price li.price_id st)) [
    | inl m ↦ absurd (ground arith)
    | inr ((pr, product), f) ↦ elim (Bool-cases pr.active) [
      | inl y ↦
          absurd
            (push_line-filled (priced_line li pr product) (resolve_lines st items) (ground arith))
      | inr m ↦ absurd (ground arith)
    ]
  ]
]
resolve_lines-HasLine st li items (li' ∷ items') e = (li', items', refl)

validated :
    (sess : StripeSession) (currency : String) (total : ℤ)
    → validate_line_items sess ≡ LineCheck.checked currency total
    → total ≡ add_lines (pos 0) sess.line_items
unfolding validate_line_items add_lines
validated sess currency total e = go sess.line_items refl
  where
    go :
        (items : List StripeLineItem)
        → sess.line_items ≡ items
        → total ≡ add_lines (pos 0) sess.line_items
    go [] f = rw (f) (ground (arith, f, e))
    go (first ∷ items) f =
        check_lines-sum sess.mode first 0 "" (pos 0) sess.line_items currency total
          (ground (arith, f, e))

price_lines-built :
    (st : Catalogue) (sess sess' : StripeSession)
    → HasLine sess
    → price_lines st sess ≡ Build.built sess'
    → HasLine sess' × IsSummed sess' × (sess'.discounts ≡ sess.discounts)
unfolding price_lines
price_lines-built st sess sess' (li, items, has) e =
    elim (Lines-cases (resolve_lines st sess.line_items)) [
      | inl (p, f) ↦ absurd (ground arith)
      | inr (found, f) ↦
          let filled =
            resolve_lines-HasLine st li items found (ap (resolve_lines st) (sym has) ∙ f) in
          let priced : StripeSession = record sess { line_items = found } in
          elim (LineCheck-cases (validate_line_items priced)) [
            | inl (i, p, g) ↦ absurd (ground arith)
            | inr (currency, total, g) ↦
                let same : record priced { currency = currency; amount_total = total } ≡ sess' =
                  ground arith in
                subst (λ t. HasLine t × IsSummed t × (t.discounts ≡ sess.discounts)) same
                  (filled, validated priced currency total g, refl)
          ]
    ]

discount_session-built :
    (lib : Library) (now : ℕ) (cs : Coupons) (sess sess' : StripeSession)
    → HasOneDiscount sess
    → discount_session lib now cs sess ≡ Build.built sess'
    → SameLines sess sess' × HasOneDiscount sess'
unfolding discount_session
discount_session-built lib now cs sess sess' one e = go sess.discounts refl
  where
    go :
        (held : List StripeDiscount)
        → sess.discounts ≡ held
        → SameLines sess sess' × HasOneDiscount sess'
    go [] f =
        let same : sess ≡ sess' = ground (arith, f, e) in
        subst (λ t. SameLines sess t × HasOneDiscount t) same ((refl, refl), one)
    go (d ∷ rest) f =
        elim (Applied-cases
          (apply_discount lib.outside lib.equal_fold now sess d.coupon d.promotion_code "" cs)) [
            | inl (p, g) ↦ absurd (ground (arith, f, e))
            | inr (t, g) ↦
                let same : t ≡ sess' = ground (arith, f, e) in
                let (one', back) =
                  apply_discount-Restores lib now sess t d.coupon d.promotion_code "" cs g in
                let purchase = Restores-SamePurchase sess t back in
                subst (λ x. SameLines sess x × HasOneDiscount x) same
                  ((purchase.3, purchase.4), one')
          ]

build_session-built :
    (lib : Library) (clock : ℕ → ℕ) (sess : StripeSession) (st : Checkout) (sess' : StripeSession)
    → FromForm sess
    → build_session lib clock sess st ≡ Build.built sess'
    → HasLine sess' × HasOneDiscount sess' × IsSummed sess'
unfolding build_session
build_session-built lib clock sess st sess' ((li, items, has), one) e =
    elim (Bool-cases (ends_too_soon sess (clock 1))) [
      | inl y ↦ absurd (ground arith)
      | inr n ↦ elim (Build-cases (attach_customer st.customers sess)) [
        | inl (p, f) ↦ absurd (ground arith)
        | inr (s1, f) ↦ elim (Build-cases (price_lines st.catalogue s1)) [
          | inl (p, g) ↦ absurd (ground arith)
          | inr (s2, g) ↦
              let (same, kept) = attach_customer-Same st.customers sess s1 f in
              let (filled, summed, kept') =
                price_lines-built st.catalogue s1 s2 (li, items, same.0 ∙ has) g in
              let one' : HasOneDiscount s2 = subst AtMostOne (sym (kept' ∙ kept)) one in
              let (left, last) =
                discount_session-built lib (clock 2) st.offers s2 sess' one' (ground arith) in
              (
                (filled.0, filled.1, left.0 ∙ filled.2),
                last,
                left.1 ∙ summed ∙ sym (ap (add_lines (pos 0)) left.0),
              )
        ]
      ]
    ]

-- What `createCheckoutSession` does to the sessions.
pub create_session-writes :
    (lib : Library) (key : String) (clock : ℕ → ℕ) (sess : StripeSession) (st : Checkout)
    → FromForm sess
    → ((create_session lib key clock sess st).1.sessions ≡ st.sessions)
      ⊎ ((sess' : StripeSession) × ((create_session lib key clock sess st).1.sessions
            ≡ insert key sess' st.sessions)
          × HasLine sess'
          × HasOneDiscount sess'
          × IsSummed sess')
unfolding create_session
create_session-writes lib key clock sess st (lines, one) =
    elim (Build-cases (build_session lib clock (new_session key (clock 0) sess) st)) [
      | inl (p, f) ↦ inl (ground arith)
      | inr (sess', f) ↦
          let (filled, last, summed) =
            build_session-built lib clock (new_session key (clock 0) sess) st sess' (lines, one)
              f in
          inr (sess', ground arith, filled, last, summed)
    ]
