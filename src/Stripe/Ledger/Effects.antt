-- ===== src/Stripe/Ledger/Effects.antt =====
-- What payouts, disputes and transfers do to the balances.
use hamr.Base.{
  String, [], ◌≡◌, refl, sym, ap, ◌∙◌, none, some, arith, inl, inr, eq_iff, Option-cases,
}
use hamr.Base.Int.{ℤ, pos, ◌+ℤ◌, ◌-ℤ◌, ◌≤ℤ◌, int_laws}
use hamr.Base.Int64.{IsInt64, wrap64, add64, wrap64_id, wrap64-add-wrap64, sub64-sub64_zero}
use hamr.Base.Assoc.{lookup, insert, sum_by-insert_new}
use hamr.Stripe.Objects.{StripePayout, PayoutStatus}
use hamr.Stripe.State.{StripeMock, Env, ok, payout_key}
use hamr.Stripe.Ledger.{balance_of, net, connected_ledger, account_payout, payout_entry}
use hamr.Stripe.Ledger.Sum.{total, connected_total, balance_of-connected}
use hamr.Stripe.Ledger.Range.{balance_of-IsInt64}
use hamr.Stripe.Payout.{payout_account_balance, first_positive, currencies, account_payout_of}
use hamr.Stripe.Valid.{AmountOk}
use hamr.Stripe.Valid.Others.{first_positive-found}

-- The net of a payout that has not failed is its amount taken off.
net-payout_entry :
    (po : StripePayout)
    → AmountOk po.amount
    → po.status ≡ PayoutStatus.pending
    → net (payout_entry po) ≡ pos 0 -ℤ po.amount
unfolding net payout_entry
net-payout_entry po h pending = rw pending (sub64-sub64_zero po.amount (omega arith) h.in_range)

pub total-account_payout :
    (acct : String) (po : StripePayout)
    → AmountOk po.amount
    → po.status ≡ PayoutStatus.pending
    → po.account_id ≡ acct
    → total po.currency (account_payout acct po) ≡ pos 0 -ℤ po.amount
unfolding account_payout payout_entry
total-account_payout acct po h pending owner =
    rw
      (
        (eq_iff po.account_id acct).1 owner,
        (eq_iff po.currency po.currency).1 refl,
        net-payout_entry po h pending,
      )
      (omega int_laws)

zero_in_range : IsInt64 (pos 0)
zero_in_range = ground arith

zeroed : (a : ℤ) → wrap64 (a +ℤ (pos 0 -ℤ a)) ≡ pos 0
zeroed a =
    let e : a +ℤ (pos 0 -ℤ a) ≡ pos 0 = omega int_laws in
    ap wrap64 e ∙ wrap64_id (pos 0) zero_in_range

-- Adding to a wrapped balance.
pub add_to_balance : (a b : ℤ) → wrap64 (a +ℤ b) ≡ add64 (wrap64 a) b
add_to_balance a b = sym (wrap64-add-wrap64 a b)

module _ (env : Env) (acct : String) (m : StripeMock) where
  -- The payout of a balance, as the state that it leaves.
  pay_out_of :
      (po : StripePayout) (m' : StripeMock)
      → payout_account_balance env acct m ≡ (ok po, m', [])
      → (currency : String) × (amount : ℤ) × (first_positive
            (λ c. balance_of c (connected_ledger m acct))
            (currencies (connected_ledger m acct))
          ≡ some (currency, amount))
        × (po ≡ account_payout_of env acct currency amount)
        × (m' ≡ record m { payouts = insert (payout_key env 0) po m.payouts })
  unfolding payout_account_balance
  pay_out_of po m' e =
      elim (Option-cases (
        first_positive (λ c. balance_of c (connected_ledger m acct))
          (currencies (connected_ledger m acct)))) [
            | inl nothing ↦ absurd (ground arith)
            | inr ((currency, amount), found) ↦
                (currency, amount, found, ground arith, ground arith)
          ]

  -- What one more payout of the account does to its balance.
  balance-insert_payout :
      (po : StripePayout)
      → lookup (payout_key env 0) m.payouts ≡ none
      → AmountOk po.amount
      → po.status ≡ PayoutStatus.pending
      → po.account_id ≡ acct
      → balance_of po.currency
          (connected_ledger (record m { payouts = insert (payout_key env 0) po m.payouts }) acct)
        ≡ wrap64 (connected_total po.currency m acct +ℤ (pos 0 -ℤ po.amount))
  unfolding account_payout
  balance-insert_payout po fresh h pending owner =
      rw
        (
          balance_of-connected,
          sum_by-insert_new (λ v. total po.currency (account_payout acct v)) (payout_key env 0) po
              m.payouts fresh,
        )
        (ap wrap64 (rw (total-account_payout acct po h pending owner) (omega int_laws)))

  -- A payout of a whole balance leaves nothing of it: if the id drawn is new and the payout is
  -- accepted, the account's balance in the payout's currency is 0 afterwards, and the amount paid
  -- out is the positive balance from before.
  pub payout_account_balance-empties :
      (po : StripePayout) (m' : StripeMock)
      → lookup (payout_key env 0) m.payouts ≡ none
      → payout_account_balance env acct m ≡ (ok po, m', [])
      → (balance_of po.currency (connected_ledger m' acct) ≡ pos 0)
        × (po.amount ≡ balance_of po.currency (connected_ledger m acct))
        × (pos 1 ≤ℤ po.amount)
  unfolding account_payout_of
  payout_account_balance-empties po m' fresh e =
      let (currency, amount, found, made, left) = pay_out_of po m' e in
      let (positive, whole) =
        first_positive-found (λ c. balance_of c (connected_ledger m acct))
          (currencies (connected_ledger m acct)) currency amount found in
      let same_currency : po.currency ≡ currency =
        let e : po.currency ≡ (account_payout_of env acct currency amount).currency =
          ap (λ (p : StripePayout). p.currency) made in
        e in
      let same_amount : po.amount ≡ amount =
        let e : po.amount ≡ (account_payout_of env acct currency amount).amount =
          ap (λ (p : StripePayout). p.amount) made in
        e in
      let balance : po.amount ≡ balance_of po.currency (connected_ledger m acct) =
        rw (same_amount, same_currency) whole in
      let positive' : pos 1 ≤ℤ po.amount = rw same_amount positive in
      let h : AmountOk po.amount = record {
        positive = positive';
        in_range = rw balance (balance_of-IsInt64 po.currency (connected_ledger m acct));
      } in
      let pending : po.status ≡ PayoutStatus.pending =
        let e : po.status ≡ (account_payout_of env acct currency amount).status =
          ap (λ (p : StripePayout). p.status) made in
        e in
      let owner : po.account_id ≡ acct =
        let e : po.account_id ≡ (account_payout_of env acct currency amount).account_id =
          ap (λ (p : StripePayout). p.account_id) made in
        e in
      (
        rw
            (
              left,
              balance-insert_payout po fresh h pending owner,
              ← wrap64-add-wrap64,
              ← balance_of-connected,
              ← balance,
            )
            (zeroed po.amount),
        balance,
        positive',
      )
