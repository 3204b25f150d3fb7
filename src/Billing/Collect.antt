-- ===== src/Billing/Collect.antt =====
-- Open invoices: which subscription each belongs to, through cycles, retries and cancellations.
pub mod Run
use hamr.Base.{
  ℕ, zero, suc, String, Bool, true, false, not, ◌&&◌, ◌||◌, Option, none, some, List, [], ◌∷◌, ◌==◌,
  ◌≡◌, ◌≢◌, ◌⊎◌, arith, eq_iff, inl, inr, Option-cases, Bool-cases, if◌then◌else◌, refl, ◌∙◌, ap,
  sym, subst,
}
use hamr.Base.Int.{ltb_ℤ, pos}
use hamr.Base.Assoc.{Assoc, lookup, insert, lookup-insert}
use hamr.Base.Lists.{length}
use hamr.Stripe.State.{StripeMock}
use hamr.Billing.{
  StripeSubscription, StripeInvoice, SubscriptionStatus, InvoiceStatus, Billing, BillingFire,
  Outside,
}
use hamr.Billing.Invoice.{total, new_invoice, pay_invoice}
use hamr.Billing.Cancel.{
  is_canceled, is_trialing, is_past_due, invoice_is_open, ended, cancel_subscription, void_open,
}
use hamr.Billing.Cycle.{
  ends_now, drop_once, cycle_subscription, next_period, renew, failed_invoice, fail_renewal,
  pay_and_store, retry_subscription,
}

-- A subscription stands under its id; an open invoice is the latest of its subscription, which is
-- past due.
pub record IsCollectable (b : Billing) : Type 0 where
  pub keyed : (k : String) (s : StripeSubscription) → lookup k b.subscriptions ≡ some s → s.id ≡ k
  pub owed :
      (k : String) (inv : StripeInvoice)
      → lookup k b.invoices ≡ some inv
      → invoice_is_open inv.status ≡ true
      → (s : StripeSubscription) × (lookup inv.subscription_id b.subscriptions ≡ some s)
        × (is_past_due s.status ≡ true)
        × (s.latest_invoice_id ≡ k)

abbrev voided_by : String → ℕ → Option StripeInvoice → Option StripeInvoice
voided_by id at none = none
voided_by id at (some inv) =
    if inv.subscription_id == id && invoice_is_open inv.status
    then some (record inv { status = InvoiceStatus.voided; voided_at = at })
    else some inv

lookup-void_open :
    (k id : String) (at : ℕ) (m : Assoc StripeInvoice)
    → lookup k (void_open id at m) ≡ voided_by id at (lookup k m)
unfolding lookup void_open
lookup-void_open k id at [] = refl
lookup-void_open k id at ((j, inv) ∷ m) = ground (arith, lookup-void_open k id at m)

-- An invoice that is still open was so before, and is another subscription's.
void_open-is_open :
    (k id : String) (at : ℕ) (m : Assoc StripeInvoice) (inv : StripeInvoice)
    → lookup k (void_open id at m) ≡ some inv
    → invoice_is_open inv.status ≡ true
    → (lookup k m ≡ some inv) × (inv.subscription_id ≢ id)
void_open-is_open k id at m inv e y = elim (Option-cases (lookup k m)) [
  | inl n ↦ ground (arith, lookup-void_open k id at m)
  | inr (held, f) ↦ ground (arith, lookup-void_open k id at m, eq_iff held.subscription_id id)
]

-- After one subscription is written: what holds of each invoice that is open then.
abbrev Owed : String → StripeSubscription → Assoc StripeInvoice → String → StripeInvoice → Type 0
Owed key s before k inv =
    ((inv.subscription_id ≢ key) × (lookup k before ≡ some inv))
    ⊎ ((inv.subscription_id ≡ key) × (is_past_due s.status ≡ true) × (s.latest_invoice_id ≡ k))

collectable :
    (key : String) (s : StripeSubscription) (b b' : Billing)
    → IsCollectable b
    → b'.subscriptions ≡ insert key s b.subscriptions
    → s.id ≡ key
    → ((k : String) (inv : StripeInvoice)
        → lookup k b'.invoices ≡ some inv
        → invoice_is_open inv.status ≡ true
        → Owed key s b.invoices k inv)
    → IsCollectable b'
collectable key s b b' c stored own owed = record {
  keyed = λ k t e.
      ground (arith, stored, c.keyed k t, lookup-insert key k s b.subscriptions, eq_iff key k);
  owed = λ k inv e y. elim (owed k inv e y) [
    | inl (other, held) ↦
        let (t, f, late, latest) = c.owed k inv held y in
        (
          t,
          ground (
            arith,
            stored,
            lookup-insert key inv.subscription_id s b.subscriptions,
            eq_iff key inv.subscription_id,
          ),
          late,
          latest,
        )
    | inr (same, late, latest) ↦ (
      s,
      ground (
        arith,
        stored,
        lookup-insert key inv.subscription_id s b.subscriptions,
        eq_iff key inv.subscription_id,
      ),
      late,
      latest,
    )
  ];
}

pub cancel-IsCollectable :
    (key : String) (sub : StripeSubscription) (at : ℕ) (b : Billing)
    → IsCollectable b
    → lookup key b.subscriptions ≡ some sub
    → IsCollectable (cancel_subscription key sub at b).0
unfolding cancel_subscription
cancel-IsCollectable key sub at b c here =
    let own = c.keyed key sub here in
    collectable key (ended sub at) b (cancel_subscription key sub at b).0 c refl own (λ k inv e y.
      let (held, other) = void_open-is_open k sub.id at b.invoices inv e y in
      inl (ground (arith, own), held))

pay_invoice-paid :
    (ids : ℕ → String) (k : ℕ) (inv : StripeInvoice) (at : ℕ) (m : StripeMock)
    → invoice_is_open (pay_invoice ids k inv at m).0.status ≡ false
unfolding pay_invoice
pay_invoice-paid ids k inv at m = ground (arith)

-- A payment of the invoice under `target`; no other open invoice is the subscription's.
pub pay_and_store-IsCollectable :
    (ids : ℕ → String) (n : ℕ) (key target : String) (sub : StripeSubscription)
    (inv : StripeInvoice) (at : ℕ) (b : Billing)
    → IsCollectable b
    → sub.id ≡ key
    → ((k : String) (other : StripeInvoice)
        → lookup k b.invoices ≡ some other
        → invoice_is_open other.status ≡ true
        → other.subscription_id ≡ key
        → k ≡ target)
    → IsCollectable (pay_and_store ids n key target sub inv at b).0
unfolding pay_and_store
pay_and_store-IsCollectable ids n key target sub inv at b c own only =
    let (paid, _, _) = pay_invoice ids n inv at b.mock in
    collectable key sub b (pay_and_store ids n key target sub inv at b).0 c refl own (λ k held e y.
      let (before, other) : (lookup k b.invoices ≡ some held) × (k ≢ target) = ground (
        arith,
        pay_invoice-paid ids n inv at b.mock,
        lookup-insert target k paid b.invoices,
        eq_iff target k,
      ) in
      inl ((λ same. other (only k held before y same)), before))

fail_renewal-IsCollectable :
    (ids : ℕ → String) (key : String) (sub : StripeSubscription) (inv : StripeInvoice) (at : ℕ)
    (b : Billing)
    → IsCollectable b
    → sub.id ≡ key
    → inv.subscription_id ≡ key
    → sub.latest_invoice_id ≡ inv.id
    → ((k : String) (other : StripeInvoice)
        → lookup k b.invoices ≡ some other
        → invoice_is_open other.status ≡ true
        → other.subscription_id ≢ key)
    → IsCollectable (fail_renewal ids key sub inv at b).0
unfolding fail_renewal
fail_renewal-IsCollectable ids key sub inv at b c own theirs latest none_open =
    let (b', _) = fail_renewal ids key sub inv at b in
    let late : StripeSubscription = record sub { status = SubscriptionStatus.past_due } in
    collectable key late b b' c refl own (λ k held e y.
      let written = lookup-insert inv.id k (failed_invoice ids sub inv at) b.invoices in
      elim (Bool-cases (inv.id == k)) [
        | inl same ↦ inr (ground (arith, written), refl, ground (arith, eq_iff inv.id k))
        | inr n ↦
            let before : lookup k b.invoices ≡ some held = ground (arith, written) in
            inl (none_open k held before y, before)
      ])

-- Before a renewal no open invoice is the subscription's.
pub none_open :
    (key : String) (sub : StripeSubscription) (b : Billing)
    → IsCollectable b
    → lookup key b.subscriptions ≡ some sub
    → is_past_due sub.status ≡ false
    → (k : String) (other : StripeInvoice) → lookup k b.invoices ≡ some other
    → invoice_is_open other.status ≡ true
    → other.subscription_id ≢ key
none_open key sub b c here live k other e y same =
    let (s, stored, late, _) = c.owed k other e y in let found : s ≡ sub = cc in absurd (cc)

pub renew-IsCollectable :
    (o : Outside) (ids : ℕ → String) (key : String) (sub : StripeSubscription) (at : ℕ)
    (b : Billing)
    → IsCollectable b
    → sub.id ≡ key
    → ((k : String) (other : StripeInvoice)
        → lookup k b.invoices ≡ some other
        → invoice_is_open other.status ≡ true
        → other.subscription_id ≢ key)
    → IsCollectable (renew o ids key sub at b).0
unfolding renew new_invoice
renew-IsCollectable o ids key sub at b c own none_open =
    let inv = new_invoice o ids sub "subscription_cycle" at b in
    let sub' : StripeSubscription = record sub {
      latest_invoice_id = inv.id;
      discount = drop_once sub.discount;
      fail_next_renewal = false;
    } in
    go (sub.fail_next_renewal && ltb_ℤ (pos 0) (total inv)) inv sub'
      (fail_renewal-IsCollectable ids key sub' inv at b c own own refl none_open)
      (pay_and_store-IsCollectable ids (suc (length sub.items)) key inv.id sub' inv at b c own
        (λ k other e y same. absurd (none_open k other e y same)))
  where
    go :
        (failing : Bool) (inv : StripeInvoice) (sub' : StripeSubscription)
        → IsCollectable (fail_renewal ids key sub' inv at b).0
        → IsCollectable (pay_and_store ids (suc (length sub.items)) key inv.id sub' inv at b).0
        → IsCollectable
            (if failing
              then fail_renewal ids key sub' inv at b
              else pay_and_store ids (suc (length sub.items)) key inv.id sub' inv at b).0
    go true inv sub' p q = p
    go false inv sub' p q = q
