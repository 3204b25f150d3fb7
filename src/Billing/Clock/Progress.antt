-- ===== src/Billing/Clock/Progress.antt =====
-- What a cycle of the clock writes of a subscription, and the end of its next period.
use hamr.Base.{
  ℕ, suc, ◌+◌, ◌≤◌, ◌<◌, String, Bool, true, false, ◌&&◌, some, List, ◌∷◌, ◌≡◌, ◌⊎◌, arith, inl,
  inr, Bool-cases, if◌then◌else◌, refl, sym, ◌∙◌, ap,
}
use hamr.Base.Int.{ltb_ℤ, pos}
use hamr.Base.Assoc.{insert}
use hamr.Billing.{
  StripeSubscription, StripeSubscriptionItem, StripeInvoice, SubscriptionStatus, Billing,
  BillingFire, Outside,
}
use hamr.Billing.Calendar.{period_of, period_end, Fits, IsCalendar, period_of-forward}
use hamr.Base.Lists.{length}
use hamr.Billing.Invoice.{total, new_invoice}
use hamr.Billing.Cancel.{is_trialing, is_past_due}
use hamr.Billing.Cycle.{next_period, renew, drop_once, fail_renewal, pay_and_store}

-- Everything that the next due time is computed from.
abbrev pub SameTiming : StripeSubscription → StripeSubscription → Type 0
SameTiming s t =
    (t.items ≡ s.items)
    × (t.billing_cycle_anchor ≡ s.billing_cycle_anchor)
    × (t.current_period_end ≡ s.current_period_end)
    × (t.cycles ≡ s.cycles)
    × (t.cancel_at ≡ s.cancel_at)

-- What is stored under the key of a subscription that is renewed.
abbrev pub Renewed : String → StripeSubscription → Billing → Billing × List BillingFire → Type 0
Renewed key sub b (b', _) =
    (s : StripeSubscription) × (b'.subscriptions ≡ insert key s b.subscriptions)
    × SameTiming sub s
    × ((s.status ≡ sub.status) ⊎ (s.status ≡ SubscriptionStatus.past_due))

fail_or_pay :
    (failing : Bool) (ids : ℕ → String) (key : String) (sub sub' : StripeSubscription)
    (inv : StripeInvoice) (at k : ℕ) (b : Billing)
    → SameTiming sub sub'
    → sub'.status ≡ sub.status
    → Renewed key sub b (
        if failing
        then fail_renewal ids key sub' inv at b
        else pay_and_store ids k key inv.id sub' inv at b)
unfolding fail_renewal pay_and_store
fail_or_pay true ids key sub sub' inv at k b same e =
    (record sub' { status = SubscriptionStatus.past_due }, refl, same, inr refl)
fail_or_pay false ids key sub sub' inv at k b same e = (sub', refl, same, inl e)

pub renew-Renewed :
    (o : Outside) (ids : ℕ → String) (key : String) (sub : StripeSubscription) (at : ℕ)
    (b : Billing)
    → Renewed key sub b (renew o ids key sub at b)
unfolding renew new_invoice drop_once
renew-Renewed o ids key sub at b =
    let inv = new_invoice o ids sub "subscription_cycle" at b in
    let sub' : StripeSubscription = record sub {
      latest_invoice_id = inv.id;
      discount = drop_once sub.discount;
      fail_next_renewal = false;
    } in
    fail_or_pay (sub.fail_next_renewal && ltb_ℤ (pos 0) (total inv)) ids key sub sub' inv at
      (suc (length sub.items)) b (refl, refl, refl, refl, refl) refl

-- The fields that time a live subscription: its period ends at its anchor during a trial, else where
-- `periodEnd` says, and the counts of all periods up to the time `to` fit an int.
pub record IsTimely (o : Outside) (to : ℕ) (s : StripeSubscription) : Type 0 where
  pub item : StripeSubscriptionItem
  pub others : List StripeSubscriptionItem
  pub has_item : s.items ≡ item ∷ others
  pub fits : Fits item (suc (suc to))
  pub trial :
      is_trialing s.status ≡ true → (s.current_period_end ≡ s.billing_cycle_anchor) × (s.cycles ≡ 0)
  pub period :
      is_trialing s.status ≡ false
      → (s.current_period_end ≡ period_of o item s.billing_cycle_anchor s.cycles)
        × s.billing_cycle_anchor + suc s.cycles ≤ s.current_period_end

pub Fits-le : (it : StripeSubscriptionItem) (m n : ℕ) → m ≤ n → Fits it n → Fits it m
Fits-le it m n le (c, e, h, f) = (c, e, h, grind arith)

pub period_end-item :
    (o : Outside) (s : StripeSubscription) (it : StripeSubscriptionItem)
    (rest : List StripeSubscriptionItem) (n : ℕ)
    → s.items ≡ it ∷ rest
    → period_end o s n ≡ some (period_of o it s.billing_cycle_anchor n)
unfolding period_end
period_end-item o s it rest n e = rw (e, period_end) refl

-- The number of the next period.
abbrev pub next_number : StripeSubscription → ℕ
next_number s = if is_trialing s.status then 0 else suc s.cycles

-- The end of the next period.
pub next_end :
    (o : Outside) (to : ℕ) (s : StripeSubscription)
    → IsCalendar o
    → IsTimely o to s
    → is_past_due s.status ≡ false
    → s.current_period_end ≤ to
    → (finish : ℕ) × (period_end o s (next_number s) ≡ some finish)
      × (s.current_period_end < finish)
      × ((at : ℕ) → IsTimely o to (next_period s at finish))
next_end o to s cal t ok le =
    let it = t.item in
    let anchor = s.billing_cycle_anchor in
    elim (Bool-cases (is_trialing s.status)) [
      | inl y ↦
          let n_eq : next_number s ≡ 0 = ap (λ b. if b then 0 else suc s.cycles) y in
          let forward =
            period_of-forward o cal it anchor 0
              (Fits-le it 2 (suc (suc to)) (omega arith) t.fits) in
          let at_anchor = t.trial y in
          let z : (next_period s 0 0).cycles ≡ 0 = ground (arith, at_anchor) in
          (
            period_of o it anchor 0,
            ap (period_end o s) n_eq ∙ period_end-item o s it t.others 0 t.has_item,
            omega (arith, forward, at_anchor),
            λ at. record {
              item = it;
              others = t.others;
              has_item = t.has_item;
              fits = t.fits;
              trial = λ h. absurd (ground (arith));
              period = λ h. (ap (period_of o it anchor) (sym z), omega (arith, z, forward));
            },
          )
      | inr n ↦
          let n_eq : next_number s ≡ suc s.cycles = ap (λ b. if b then 0 else suc s.cycles) n in
          let (held, below) = t.period n in
          let c = s.cycles in
          let small : suc (suc (suc c)) ≤ suc (suc to) = omega (arith, le, below) in
          let fits : Fits it (suc (suc (suc c))) =
            Fits-le it (suc (suc (suc c))) (suc (suc to)) small t.fits in
          let fits_less : Fits it (suc (suc c)) =
            Fits-le it (suc (suc c)) (suc (suc (suc c))) (omega arith) fits in
          let forward = period_of-forward o cal it anchor c fits_less in
          let later = period_of-forward o cal it anchor (suc c) fits in
          let z : (next_period s 0 0).cycles ≡ suc c = ground (arith) in
          (
            period_of o it anchor (suc c),
            ap (period_end o s) n_eq ∙ period_end-item o s it t.others (suc c) t.has_item,
            omega (arith, held, forward),
            λ at. record {
              item = it;
              others = t.others;
              has_item = t.has_item;
              fits = t.fits;
              trial = λ h. absurd (ground (arith));
              period = λ h. (ap (period_of o it anchor) (sym z), omega (arith, z, later));
            },
          )
    ]
