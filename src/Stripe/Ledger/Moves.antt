-- ===== src/Stripe/Ledger/Moves.antt =====
-- What the outcome of a payout, the closing of a dispute and a transfer do to the balances.
use hamr.Base.{ℕ, String, ◌≡◌, refl, ap, ◌∙◌, some, arith, inl, inr, ◌==◌, eq_iff, Bool-cases}
use hamr.Base.Int.{ℤ, pos, ◌+ℤ◌, ◌-ℤ◌, ◌≤ℤ◌, int_laws}
use hamr.Base.Int64.{IsInt64, wrap64, add64, sub64, wrap64_id, wrap64-add-wrap64}
use hamr.Base.Assoc.{lookup, insert, sum_by-insert}
use hamr.Stripe.Objects.{StripeCharge, StripePayout, PayoutStatus, StripeDispute, DisputeStatus}
use hamr.Stripe.State.{StripeMock, Env, ok}
use hamr.Stripe.Ledger.{
  balance_of, net, connected_ledger, account_payout, payout_entry, charge_owner, dispute_entry,
}
use hamr.Stripe.Ledger.Sum.{total, balance_of-connected}
use hamr.Stripe.Ledger.Effects.{total-account_payout}
use hamr.Stripe.Ledger.Range.{balance_of-IsInt64}
use hamr.Stripe.Payout.{PayoutOutcomeRule, complete_payout, payout_outcome, settle}
use hamr.Stripe.Dispute.{close_dispute, dispute_outcome}
use hamr.Stripe.Valid.{AmountOk}

-- A failed payout moves nothing.
total-failed_payout :
    (currency acct : String) (po : StripePayout)
    → po.status ≡ PayoutStatus.failed
    → total currency (account_payout acct po) ≡ pos 0
unfolding account_payout payout_entry net
total-failed_payout currency acct po failed = elim (Bool-cases (po.account_id == acct)) [
  | inl own ↦
      rw (own, failed)
        (elim (Bool-cases (po.currency == currency)) [
          | inl y ↦ rw y (omega int_laws)
          | inr n ↦ rw n (omega int_laws)
        ])
  | inr other ↦ rw other refl
]

moved : (s s' x y : ℤ) → s' +ℤ x ≡ s +ℤ y → s' ≡ s +ℤ (y -ℤ x)
moved s s' x y e =
    let back : s' ≡ (s' +ℤ x) -ℤ x = omega int_laws in
    let shift : (s +ℤ y) -ℤ x ≡ s +ℤ (y -ℤ x) = omega int_laws in back ∙ ap (λ t. t -ℤ x) e ∙ shift

last_moved :
    (a b c d s s' x y : ℤ)
    → s' +ℤ x ≡ s +ℤ y
    → a +ℤ (b +ℤ (c +ℤ (d +ℤ s'))) ≡ (a +ℤ (b +ℤ (c +ℤ (d +ℤ s)))) +ℤ (y -ℤ x)
last_moved a b c d s s' x y e = rw (moved s s' x y e) (omega int_laws)

fourth_moved :
    (a b c d s s' x y : ℤ)
    → s' +ℤ x ≡ s +ℤ y
    → a +ℤ (b +ℤ (c +ℤ (s' +ℤ d))) ≡ (a +ℤ (b +ℤ (c +ℤ (s +ℤ d)))) +ℤ (y -ℤ x)
fourth_moved a b c d s s' x y e = rw (moved s s' x y e) (omega int_laws)

pub no_change : (b t : ℤ) → IsInt64 b → add64 b (t -ℤ t) ≡ b
no_change b t h = let e : b +ℤ (t -ℤ t) ≡ b = omega int_laws in ap wrap64 e ∙ wrap64_id b h

pub sub64_zero : (a : ℤ) → pos 1 ≤ℤ a → IsInt64 a → sub64 a (pos 0) ≡ a
sub64_zero a p h = let e : a -ℤ pos 0 ≡ a = omega int_laws in ap wrap64 e ∙ wrap64_id a h

module _ (m : StripeMock) (acct : String) (dp : StripeDispute) (ch : StripeCharge)
    (h : AmountOk dp.amount) (still_open : dp.status ≡ DisputeStatus.needs_response)
    (found : lookup dp.charge_id m.charges ≡ some ch) where
  -- The entries of a dispute that is open, or lost, are the withdrawal alone; a win adds one.
  total-dispute_won :
      (now : ℕ)
      → (charge_owner m.payment_intents ch).0 ≡ acct
      → total dp.currency (
          dispute_entry m.payment_intents m.charges acct
            (record dp { status = DisputeStatus.won; closed_at = now }))
        ≡ total dp.currency (dispute_entry m.payment_intents m.charges acct dp) +ℤ dp.amount
  unfolding dispute_entry net
  total-dispute_won now owner = grind (
    int_laws,
    found,
    owner,
    still_open,
    eq_iff (charge_owner m.payment_intents ch).0 acct,
    eq_iff dp.currency dp.currency,
    sub64_zero dp.amount h.positive h.in_range,
  )

  total-dispute_lost :
      (currency : String) (now : ℕ)
      → total currency (
          dispute_entry m.payment_intents m.charges acct
            (record dp { status = DisputeStatus.lost; closed_at = now }))
        ≡ total currency (dispute_entry m.payment_intents m.charges acct dp)
  unfolding dispute_entry net
  total-dispute_lost currency now = ground (arith, found, still_open)

total-paid_payout :
    (currency acct : String) (po po' : StripePayout)
    → po.status ≡ PayoutStatus.pending
    → po'.status ≡ PayoutStatus.paid
    → po'.amount ≡ po.amount
    → po'.currency ≡ po.currency
    → po'.account_id ≡ po.account_id
    → total currency (account_payout acct po') ≡ total currency (account_payout acct po)
unfolding account_payout payout_entry net
total-paid_payout currency acct po po' pending paid a c o = ground (arith, pending, paid, a, c, o)

module _ (env : Env) (id outcome acct : String) (m : StripeMock) (po po' : StripePayout)
    (rule : PayoutOutcomeRule) (chosen : payout_outcome (env.trim_space outcome) ≡ some rule)
    (found : lookup (env.trim_space id) m.payouts ≡ some po)
    (accepted : (complete_payout env id outcome m).0 ≡ ok po') where
  -- The state that an accepted button leaves.
  complete_payout-accepted :
      (po' ≡ settle rule po)
      × ((complete_payout env id outcome m).1
          ≡ record m { payouts = insert (env.trim_space id) po' m.payouts })
  unfolding complete_payout
  complete_payout-accepted = ground (arith, chosen, found, accepted)

  -- Replacing the payout moves the account's balance by the difference of the two totals.
  balance-replace_payout :
      (currency : String)
      → balance_of currency (connected_ledger (complete_payout env id outcome m).1 acct)
        ≡ add64
            (balance_of currency (connected_ledger m acct))
            (total currency (account_payout acct po') -ℤ total currency (account_payout acct po))
  balance-replace_payout currency =
      let changed =
        sum_by-insert (λ v. total currency (account_payout acct v)) (env.trim_space id) po' po
          m.payouts found in
      rw (complete_payout-accepted.1, balance_of-connected, balance_of-connected, wrap64-add-wrap64)
        (ap wrap64 (last_moved _ _ _ _ _ _ _ _ changed))

  -- A payout that fails gives its amount back to the account: if the payout was pending and
  -- of the account, and a button that fails it is accepted, the balance in its currency
  -- grows by the amount.
  pub complete_payout-returns :
      AmountOk po.amount
      → po.status ≡ PayoutStatus.pending
      → po.account_id ≡ acct
      → rule.final_status ≡ PayoutStatus.failed
      → balance_of po.currency (connected_ledger (complete_payout env id outcome m).1 acct)
        ≡ add64 (balance_of po.currency (connected_ledger m acct)) po.amount
  unfolding settle
  complete_payout-returns h pending owner fails =
      let failed : po'.status ≡ PayoutStatus.failed =
        ground (arith, complete_payout-accepted.0, fails) in
      rw
        (
          balance-replace_payout po.currency,
          total-failed_payout po.currency acct po' failed,
          total-account_payout acct po h pending owner,
        )
        (ap (add64 _) (omega int_laws))

  -- A payout that is paid was already off the balance: if it was pending and a button that
  -- pays it is accepted, no balance of any account changes, in any currency.
  pub complete_payout-paid :
      (currency : String)
      → po.status ≡ PayoutStatus.pending
      → rule.final_status ≡ PayoutStatus.paid
      → balance_of currency (connected_ledger (complete_payout env id outcome m).1 acct)
        ≡ balance_of currency (connected_ledger m acct)
  unfolding settle
  complete_payout-paid currency pending pays =
      let same = complete_payout-accepted.0 in
      let kept =
        total-paid_payout currency acct po po' pending (ground (arith, same, pays))
          (ground (arith, same)) (ground (arith, same)) (ground (arith, same)) in
      rw (balance-replace_payout currency, kept)
        (no_change _ (total currency (account_payout acct po))
          (balance_of-IsInt64 currency (connected_ledger m acct)))

module _ (env : Env) (id outcome acct : String) (m : StripeMock) (dp : StripeDispute)
    (ch : StripeCharge) (h : AmountOk dp.amount)
    (still_open : dp.status ≡ DisputeStatus.needs_response) (found : lookup id m.disputes ≡ some dp)
    (on_charge : lookup dp.charge_id m.charges ≡ some ch) where
  close_dispute-accepted :
      (status : DisputeStatus)
      → dispute_outcome outcome ≡ some status
      → (close_dispute env id outcome m).1 ≡ record m {
        disputes = insert id (record dp { status = status; closed_at = env.now 0 }) m.disputes;
      }
  unfolding close_dispute
  close_dispute-accepted status chosen = ground (arith, chosen, found, still_open)

  balance-replace_dispute :
      (currency : String) (dp' : StripeDispute)
      → (close_dispute env id outcome m).1 ≡ record m { disputes = insert id dp' m.disputes }
      → balance_of currency (connected_ledger (close_dispute env id outcome m).1 acct)
        ≡ add64 (balance_of currency (connected_ledger m acct)) (
            total currency (dispute_entry m.payment_intents m.charges acct dp')
            -ℤ total currency (dispute_entry m.payment_intents m.charges acct dp))
  balance-replace_dispute currency dp' left =
      let changed =
        sum_by-insert (λ v. total currency (dispute_entry m.payment_intents m.charges acct v)) id
          dp' dp m.disputes found in
      rw (left, balance_of-connected, balance_of-connected, wrap64-add-wrap64)
        (ap wrap64 (fourth_moved _ _ _ _ _ _ _ _ changed))

  -- A dispute that is won gives the disputed amount, and not the dispute fee, back to the
  -- account whose charge it was: if the dispute is open and the outcome is "won", the account's
  -- balance in its currency grows by the amount.
  pub close_dispute-won :
      outcome ≡ "won"
      → (charge_owner m.payment_intents ch).0 ≡ acct
      → balance_of dp.currency (connected_ledger (close_dispute env id outcome m).1 acct)
        ≡ add64 (balance_of dp.currency (connected_ledger m acct)) dp.amount
  unfolding dispute_outcome
  close_dispute-won won owner =
      let chosen : dispute_outcome outcome ≡ some DisputeStatus.won = rw won refl in
      rw
        (
          balance-replace_dispute dp.currency _ (close_dispute-accepted DisputeStatus.won chosen),
          total-dispute_won m acct dp ch h still_open on_charge (env.now 0) owner,
        )
        (ap (add64 _) (omega int_laws))

  -- A dispute that is lost was already off the balance: if the dispute is open and the outcome is
  -- "lost", no balance of any account changes, in any currency.
  pub close_dispute-lost :
      (currency : String)
      → outcome ≡ "lost"
      → balance_of currency (connected_ledger (close_dispute env id outcome m).1 acct)
        ≡ balance_of currency (connected_ledger m acct)
  unfolding dispute_outcome
  close_dispute-lost currency lost =
      let chosen : dispute_outcome outcome ≡ some DisputeStatus.lost = rw lost refl in
      rw
        (
          balance-replace_dispute currency _ (close_dispute-accepted DisputeStatus.lost chosen),
          total-dispute_lost m acct dp ch h still_open on_charge currency (env.now 0),
        )
        (no_change _ _ (balance_of-IsInt64 currency (connected_ledger m acct)))
