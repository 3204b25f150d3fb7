-- ===== src/Checkout/Subscribe/Timing.antt =====
-- The clock and a subscription that a checkout creates
-- (internal/devserver/stripemock_subscription.go and stripemock_clock.go).
use Prim.Native.String.{◌++◌ as ◌<>◌}
use hamr.Base.{
  ℕ, suc, ◌*◌, ◌^◌, ◌≤◌, ◌<◌, String, some, List, ◌∷◌, ◌==◌, ◌≡◌, arith, inl, inr, Option-cases,
  Bool-cases, refl, ap, subst, if◌then◌else◌,
}
use hamr.Base.Int.{ℤ, pos, negsuc, max_ℤ}
use hamr.Base.Assoc.{Assoc, insert}
use hamr.Billing.{
  SubscriptionStatus, Billing, StripeSubscription, StripeSubscriptionItem, StripeInvoice, Outside,
  is_zero_time,
}
use hamr.Billing.Calendar.{period_end, period_of, IsCalendar, Fits, period_of-forward}
use hamr.Billing.Clock.Progress.{IsTimely, period_end-item, Fits-le}
use hamr.Billing.Invoice.{new_invoice}
use hamr.Billing.Coupon.{StripeCoupon}
use hamr.Billing.Session.{StripeSession, StripeLineItem}
use hamr.Checkout.Subscribe.{
  subscription_items, bare_subscription, first_period, first_invoice, invoice_ids, with_invoice,
  create_subscription,
}

-- The interval count of a line, 1 at least, and the counts up to the time `to` fit an int.
abbrev pub LineFits : ℕ → StripeLineItem → Type 0
LineFits to li =
    (c : ℕ) × (max_ℤ li.interval_count (pos 1) ≡ pos c) × 12 * (c * suc (suc to)) < 2 ^ 63

-- The first line of the session fits.
abbrev pub FirstFits : ℕ → StripeSession → Type 0
FirstFits to sess =
    (li : StripeLineItem) × (items : List StripeLineItem) × (sess.line_items ≡ li ∷ items)
    × LineFits to li

-- The subscription that is stored, and its timing.
abbrev pub Starts : Outside → ℕ → Billing → StripeSubscription × StripeInvoice × Billing → Type 0
Starts o to was (sub, inv, b) =
    IsTimely o to sub × (b.subscriptions ≡ insert sub.id sub was.subscriptions)

abbrev first_item : (ℕ → String) → StripeLineItem → StripeSubscriptionItem
first_item ids li = record {
  id = "si_test_" <> ids 6;
  price_id = if li.price_id == "" then "price_test_" <> ids 7 else li.price_id;
  product_id = if li.price_id == "" then "prod_test_" <> ids 8 else li.product_id;
  product_name = li.name;
  unit_amount = li.unit_amount;
  quantity = li.quantity;
  interval = li.interval;
  interval_count = max_ℤ li.interval_count (pos 1);
}

first_item-Fits :
    (ids : ℕ → String) (to : ℕ) (li : StripeLineItem)
    → LineFits to li
    → Fits (first_item ids li) (suc (suc to))
first_item-Fits ids to li (c, e, small) = (c, e, at_least li.interval_count c e, small)
  where
    at_least : (n : ℤ) (c : ℕ) → max_ℤ n (pos 1) ≡ pos c → 1 ≤ c
    at_least (pos n) c e = ground arith
    at_least (negsuc n) c e = ground arith

first_period-IsTimely :
    (o : Outside) (to at finish : ℕ) (sess : StripeSession) (ids : ℕ → String)
    (coupons : Assoc StripeCoupon)
    → IsCalendar o
    → FirstFits to sess
    → period_end o (bare_subscription o ids sess at coupons) 0 ≡ some finish
    → IsTimely o to (first_period sess at finish (bare_subscription o ids sess at coupons))
unfolding first_period bare_subscription subscription_items
first_period-IsTimely o to at finish sess ids coupons cal (li, items, has, fits) f =
    let bare = bare_subscription o ids sess at coupons in
    let it = first_item ids li in
    let others = subscription_items ids 9 items in
    let has_item : bare.items ≡ it ∷ others = ap (subscription_items ids 6) has in
    let it_fits = first_item-Fits ids to li fits in
    let at_end : finish ≡ period_of o it at 0 =
      ground (arith, f, period_end-item o bare it others 0 has_item) in
    let forward =
      period_of-forward o cal it at 0 (Fits-le it 2 (suc (suc to)) (omega arith) it_fits) in
    elim (Bool-cases (is_zero_time sess.trial_end)) [
      | inl y ↦
          let same : record bare { current_period_end = finish }
              ≡ first_period sess at finish bare =
            rw (y, first_period) refl in
          subst (IsTimely o to) same (record {
            item = it;
            others = others;
            has_item = has_item;
            fits = it_fits;
            trial = λ h. absurd (ground arith);
            period = λ h. (at_end, omega (arith, at_end, forward));
          })
      | inr n ↦
          let same : record bare {
            status = SubscriptionStatus.trialing;
            trial_start = at;
            trial_end = sess.trial_end;
            billing_cycle_anchor = sess.trial_end;
            current_period_end = sess.trial_end;
          }
              ≡ first_period sess at finish bare =
            rw (n, first_period) refl in
          subst (IsTimely o to) same (record {
            item = it;
            others = others;
            has_item = has_item;
            fits = it_fits;
            trial = λ h. (refl, refl);
            period = λ h. absurd (ground arith);
          })
    ]

with_invoice-IsTimely :
    (o : Outside) (to : ℕ) (sess : StripeSession) (key : String) (sub : StripeSubscription)
    → IsTimely o to sub
    → IsTimely o to (with_invoice sess key sub)
unfolding with_invoice
with_invoice-IsTimely o to sess key sub t = record {
  item = t.item;
  others = t.others;
  has_item = t.has_item;
  fits = t.fits;
  trial = t.trial;
  period = t.period;
}

pub create_subscription-Starts :
    (o : Outside) (ids : ℕ → String) (to : ℕ) (sess : StripeSession) (pi_id : String) (at : ℕ)
    (coupons : Assoc StripeCoupon) (b : Billing)
    (result : StripeSubscription × StripeInvoice × Billing)
    → IsCalendar o
    → FirstFits to sess
    → create_subscription o ids sess pi_id at coupons b ≡ some result
    → Starts o to b result
unfolding create_subscription with_invoice
create_subscription-Starts o ids to sess pi_id at coupons b result cal fits e =
    let bare = bare_subscription o ids sess at coupons in
    elim (Option-cases (period_end o bare 0)) [
      | inl n ↦ absurd (ground arith)
      | inr (finish, f) ↦
          let sub = first_period sess at finish bare in
          let drawn = new_invoice o (invoice_ids ids sess) sub "subscription_create" at b in
          let inv = first_invoice sess at pi_id drawn in
          let sub' = with_invoice sess inv.id sub in
          let found : (
            sub',
            inv,
            record b {
              subscriptions = insert sub.id sub' b.subscriptions;
              invoices = insert inv.id inv b.invoices;
            },
          )
              ≡ result =
            ground arith in
          subst (Starts o to b) found (
            with_invoice-IsTimely o to sess inv.id sub
                (first_period-IsTimely o to at finish sess ids coupons cal fits f),
            refl,
          )
    ]
