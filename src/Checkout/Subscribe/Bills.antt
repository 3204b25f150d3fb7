-- ===== src/Checkout/Subscribe/Bills.antt =====
-- The first invoice of a subscription (internal/devserver/stripemock_subscription.go).
use hamr.Base.{
  ℕ, suc, String, some, List, [], ◌∷◌, ◌≡◌, arith, inl, inr, Option-cases, Bool-cases, refl, sym,
  ◌∙◌, ap, subst, if◌then◌else◌,
}
use hamr.Base.Int.{ℤ, pos, ◌-ℤ◌}
use hamr.Base.Int64.{add64, sub64, mul64, wrap64}
use hamr.Base.Assoc.{Assoc, lookup, insert, lookup-insert_self}
use hamr.Billing.{Billing, StripeSubscription, StripeInvoice, Outside, is_zero_time}
use hamr.Billing.Calendar.{period_end}
use hamr.Billing.Invoice.{total, add_items, new_invoice}
use hamr.Billing.Coupon.{StripeCoupon}
use hamr.Billing.Session.{StripeSession, StripeLineItem, session_total}
use hamr.Checkout.Subscribe.{
  subscription_items, bare_subscription, first_period, first_invoice, invoice_ids, with_invoice,
  create_subscription,
}

-- The sum of the lines, from the total so far.
unfoldable pub add_lines : ℤ → List StripeLineItem → ℤ
add_lines so_far [] = so_far
add_lines so_far (li ∷ items) = add_lines (add64 so_far (mul64 li.unit_amount li.quantity)) items

-- The total of the session is that of its lines.
abbrev pub IsSummed : StripeSession → Type 0
IsSummed sess = sess.amount_total ≡ add_lines (pos 0) sess.line_items

items-sum :
    (ids : ℕ → String) (k : ℕ) (so_far : ℤ) (items : List StripeLineItem)
    → add_items so_far (subscription_items ids k items) ≡ add_lines so_far items
unfolding add_items add_lines subscription_items
items-sum ids k so_far [] = refl
items-sum ids k so_far (li ∷ items) =
    items-sum ids (suc (suc (suc k))) (add64 so_far (mul64 li.unit_amount li.quantity)) items

-- The items of the subscription cost what the lines do.
first_period-items :
    (sess : StripeSession) (at finish : ℕ) (sub : StripeSubscription)
    → (first_period sess at finish sub).items ≡ sub.items
unfolding first_period
first_period-items sess at finish sub = ground arith

-- The total of the first invoice is what the buyer pays, unless a trial comes first.
abbrev pub Bills :
    StripeSession → String → Billing → StripeSubscription × StripeInvoice × Billing → Type 0
Bills sess pi_id was (sub, inv, b) =
    (total inv ≡ (if is_zero_time sess.trial_end then session_total sess else pos 0))
    × (inv.payment_intent_id ≡ pi_id)
    × (sub.latest_invoice_id ≡ inv.id)
    × (lookup sub.id b.subscriptions ≡ some sub)
    × (lookup inv.id b.invoices ≡ some inv)
    × (b.mock ≡ was.mock)

first_invoice-total :
    (sess : StripeSession) (at : ℕ) (pi_id : String) (inv : StripeInvoice)
    → IsSummed sess
    → inv.subtotal ≡ sess.amount_total
    → total (first_invoice sess at pi_id inv)
      ≡ (if is_zero_time sess.trial_end then session_total sess else pos 0)
unfolding first_invoice wrap64 ◌-ℤ◌
first_invoice-total sess at pi_id inv s e = elim (Bool-cases (is_zero_time sess.trial_end)) [
  | inl y ↦ rw (y, first_invoice) (ap (λ x. sub64 x sess.amount_discount) e)
  | inr n ↦ rw (n, first_invoice) refl
]

pub create_subscription-Bills :
    (o : Outside) (ids : ℕ → String) (sess : StripeSession) (pi_id : String) (at : ℕ)
    (coupons : Assoc StripeCoupon) (b : Billing)
    (result : StripeSubscription × StripeInvoice × Billing)
    → IsSummed sess
    → create_subscription o ids sess pi_id at coupons b ≡ some result
    → Bills sess pi_id b result
unfolding create_subscription
create_subscription-Bills o ids sess pi_id at coupons b result s e =
    let bare = bare_subscription o ids sess at coupons in
    elim (Option-cases (period_end o bare 0)) [
      | inl n ↦ absurd (ground arith)
      | inr (finish, f) ↦
          let sub = first_period sess at finish bare in
          let drawn = new_invoice o (invoice_ids ids sess) sub "subscription_create" at b in
          let inv = first_invoice sess at pi_id drawn in
          let sub' = with_invoice sess inv.id sub in
          let found : (
            sub',
            inv,
            record b {
              subscriptions = insert sub.id sub' b.subscriptions;
              invoices = insert inv.id inv b.invoices;
            },
          )
              ≡ result =
            ground arith in
          subst (Bills sess pi_id b) found (
            first_invoice-total sess at pi_id drawn s (items_cost finish),
            refl,
            refl,
            lookup-insert_self sub.id sub' b.subscriptions,
            lookup-insert_self inv.id inv b.invoices,
            refl,
          )
    ]
  where
    items_cost :
        (finish : ℕ)
        → (new_invoice o
            (invoice_ids ids sess)
            (first_period sess at finish (bare_subscription o ids sess at coupons))
            "subscription_create"
            at
            b).subtotal
          ≡ sess.amount_total
    items_cost finish =
        ap (add_items (pos 0))
          (first_period-items sess at finish (bare_subscription o ids sess at coupons))
        ∙ items-sum ids 6 (pos 0) sess.line_items
        ∙ sym s
