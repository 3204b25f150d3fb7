-- ===== src/Stripe/Ledger/Sent.antt =====
-- What an accepted transfer does to the balances.
use hamr.Base.{String, [], ◌≡◌, refl, ap, ◌∙◌, none, some, arith, eq_iff}
use hamr.Base.Int.{ℤ, pos, ◌+ℤ◌, ◌-ℤ◌, ◌≤ℤ◌, int_laws}
use hamr.Base.Int64.{IsInt64, wrap64, add64, wrap64-add-wrap64, sub64-sub64_zero, sub64_nonneg}
use hamr.Base.Assoc.{lookup, insert, sum_by-insert_new}
use hamr.Stripe.Form.{FormFields, get_string, get_int64}
use hamr.Stripe.Form.Range.{get_int64-IsInt64}
use hamr.Stripe.Objects.{StripeTransfer}
use hamr.Stripe.State.{StripeMock, Env, ok, transfer_key}
use hamr.Stripe.Ledger.{
  balance_of, net, connected_ledger, platform_ledger, platform_transfer, connected_transfer,
  reversal_entries,
}
use hamr.Stripe.Ledger.Sum.{total, balance_of-platform, balance_of-connected}
use hamr.Stripe.Ledger.Range.{balance_of-IsInt64}
use hamr.Stripe.Ledger.Moves.{sub64_zero}
use hamr.Stripe.Transfer.{create_transfer, send_transfer, new_transfer, funding_problem}
use hamr.Stripe.Valid.{AmountOk}

funding_problem-covers :
    (m : StripeMock) (amount : ℤ) (currency : String)
    → funding_problem m amount currency "" ≡ none
    → amount ≤ℤ balance_of currency (platform_ledger m)
unfolding funding_problem
funding_problem-covers m amount currency e = ground arith

covered : (b a : ℤ) → pos 0 ≤ℤ a → a ≤ℤ b → IsInt64 b → IsInt64 a → add64 b (pos 0 -ℤ a) ≡ b -ℤ a
covered b a p q ib ia =
    let e : b +ℤ (pos 0 -ℤ a) ≡ b -ℤ a = omega int_laws in
    ap wrap64 e ∙ sub64_nonneg b a (omega arith) p ib ia

module _ (env : Env) (p : FormFields) (m : StripeMock) (tr : StripeTransfer)
    (accepted : (create_transfer env p m).0 ≡ ok tr) where
  create_transfer-accepted :
      ((create_transfer env p m).1
        ≡ record m { transfers = insert (transfer_key env 0) tr m.transfers })
      × (tr.reversals ≡ [])
      × (get_int64 p "amount" ≡ some tr.amount)
      × (pos 1 ≤ℤ tr.amount)
      × (tr.source_transaction_id ≡ get_string p "source_transaction")
      × (funding_problem m tr.amount tr.currency tr.source_transaction_id ≡ none)
  unfolding create_transfer send_transfer new_transfer
  create_transfer-accepted = ground (arith, accepted)

  amount_ok : AmountOk tr.amount
  amount_ok = record {
    positive = create_transfer-accepted.3;
    in_range = get_int64-IsInt64 p "amount" tr.amount create_transfer-accepted.2;
  }

  total-platform_transfer : total tr.currency (platform_transfer tr) ≡ pos 0 -ℤ tr.amount
  unfolding platform_transfer net reversal_entries
  total-platform_transfer =
      rw
        (
          create_transfer-accepted.1,
          (eq_iff tr.currency tr.currency).1 refl,
          sub64-sub64_zero tr.amount (omega (arith, amount_ok.positive)) amount_ok.in_range,
        )
        (omega int_laws)

  total-connected_transfer : total tr.currency (connected_transfer tr.destination tr) ≡ tr.amount
  unfolding connected_transfer net reversal_entries
  total-connected_transfer =
      rw
        (
          create_transfer-accepted.1,
          (eq_iff tr.destination tr.destination).1 refl,
          (eq_iff tr.currency tr.currency).1 refl,
          sub64_zero tr.amount amount_ok.positive amount_ok.in_range,
        )
        (omega int_laws)

  -- An accepted transfer moves its amount: if the id drawn is new, the platform's balance in its
  -- currency falls by the amount and the destination's grows by it, as int64 adds.
  pub create_transfer-moves :
      lookup (transfer_key env 0) m.transfers ≡ none
      → (balance_of tr.currency (platform_ledger (create_transfer env p m).1)
          ≡ add64 (balance_of tr.currency (platform_ledger m)) (pos 0 -ℤ tr.amount))
        × (balance_of tr.currency (connected_ledger (create_transfer env p m).1 tr.destination)
            ≡ add64 (balance_of tr.currency (connected_ledger m tr.destination)) tr.amount)
  create_transfer-moves fresh = (
    rw
        (
          create_transfer-accepted.0,
          balance_of-platform,
          balance_of-platform,
          wrap64-add-wrap64,
          sum_by-insert_new (λ v. total tr.currency (platform_transfer v)) (transfer_key env 0) tr
              m.transfers fresh,
          total-platform_transfer,
        )
        (ap wrap64 (omega int_laws)),
    rw
        (
          create_transfer-accepted.0,
          balance_of-connected,
          balance_of-connected,
          wrap64-add-wrap64,
          sum_by-insert_new (λ v. total tr.currency (connected_transfer tr.destination v))
              (transfer_key env 0) tr m.transfers fresh,
          total-connected_transfer,
        )
        (ap wrap64 (omega int_laws)),
  )

  -- A transfer that names no charge is paid from the platform's balance and cannot overdraw it: if
  -- it is accepted and the id drawn is new, what is left of the balance in its currency is
  -- the exact difference and not negative.
  pub create_transfer-covered :
      lookup (transfer_key env 0) m.transfers ≡ none
      → get_string p "source_transaction" ≡ ""
      → (balance_of tr.currency (platform_ledger (create_transfer env p m).1)
          ≡ balance_of tr.currency (platform_ledger m) -ℤ tr.amount)
        × (tr.amount ≤ℤ balance_of tr.currency (platform_ledger m))
  create_transfer-covered fresh plain =
      let funded : funding_problem m tr.amount tr.currency "" ≡ none =
        rw (create_transfer-accepted.4, plain) at create_transfer-accepted.5 in
      let enough = funding_problem-covers m tr.amount tr.currency funded in
      (
        rw (create_transfer-moves fresh).0 (
            covered _ tr.amount (omega (arith, amount_ok.positive)) enough
              (balance_of-IsInt64 tr.currency (platform_ledger m)) amount_ok.in_range),
        enough,
      )
