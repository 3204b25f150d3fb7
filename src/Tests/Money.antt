-- ===== src/Tests/Money.antt =====
-- Tests of the balances and of the amounts.
use hamr.Base.{List, [], ◌∷◌, ◌≡◌, refl, arith}
use hamr.Base.Int.{pos, ◌-ℤ◌, ◌+ℤ◌, ◌*ℤ◌, quot, ◌≤ℤ◌}
use hamr.Base.Int64.{wrap64, add64}
use hamr.Base.Assoc.{lookup, insert, contains}
use hamr.Stripe.Form.{
  get, parse_int, parse_unsigned, parse_digits, signed_pos, string_map, get_object, get_string,
  get_int64,
}
use hamr.Stripe.Objects.{PayoutStatus, StripePayout, StripeTransfer}
use hamr.Stripe.State.{StripeMock, account_exists}
use hamr.Stripe.Ledger.{
  LedgerEntry, entry, net, balance_of, balance_from, connected_ledger, connected_entries,
  platform_ledger, platform_entries, charge_owner, sort_newest_first, insert_entry, collect,
  connected_transfer, connected_charge, connected_refund, stripe_fee, dispute_entry, account_payout,
  payout_entry, reversal_entries, refunded_app_fee, platform_charge, platform_refund,
  platform_transfer,
}
use hamr.Stripe.Ledger.Sum.{total, balance_of-total}
use hamr.Stripe.Ledger.Effects.{payout_account_balance-empties}
use hamr.Stripe.Ledger.Moves.{complete_payout-returns, close_dispute-won}
use hamr.Stripe.Ledger.Sent.{create_transfer-moves, create_transfer-covered}
use hamr.Stripe.Transfer.{
  create_transfer, send_transfer, new_transfer, funding_problem, transfer_destination_problem,
}
use hamr.Stripe.Payout.{
  PayoutOutcomeRule, payout_outcome, settle, complete_payout, payout_account_balance,
  account_payout_of, currencies, insert_currency, first_positive,
}
use hamr.Stripe.Dispute.{close_dispute}
use hamr.Stripe.Valid.{AmountOk, ChargeOk}
use hamr.Tests.{env, charge, payout, dispute, mock, platform_mock, transfer_form}

AmountOk-500 : AmountOk (pos 500)
AmountOk-500 = record { positive = omega arith; in_range = omega arith }

AmountOk-6000 : AmountOk (pos 6000)
AmountOk-6000 = record { positive = omega arith; in_range = omega arith }

charge_ok : ChargeOk charge
charge_ok = record {
  in_range = omega arith;
  captured_fits = omega arith;
  captured_positive = omega arith;
  refunded_nonneg = omega arith;
  refunded_fits = omega arith;
  flag = refl;
}

abbrev pub two_entries : List LedgerEntry
two_entries =
    entry 1 "charge" "" "ch_1" "usd" (pos 1000) (pos 59)
    ∷ entry 2 "refund" "" "re_1" "usd" (pos 100) (pos 0)
    ∷ []

balance_of-total_example : balance_of "usd" two_entries ≡ wrap64 (total "usd" two_entries)
balance_of-total_example = balance_of-total "usd" two_entries

abbrev pub fail_rule : PayoutOutcomeRule
fail_rule = record {
  final_status = PayoutStatus.failed;
  event_type = "payout.failed";
  failure_code = "account_closed";
  failure_message = "The bank account has been closed.";
}

abbrev pub paid_rule : PayoutOutcomeRule
paid_rule = record {
  final_status = PayoutStatus.paid;
  event_type = "payout.paid";
  failure_code = "";
  failure_message = "";
}

complete_payout-returns_example :
    balance_of "usd" (connected_ledger (complete_payout env "po_1" "fail" mock).1 "acct_1")
    ≡ add64 (balance_of "usd" (connected_ledger mock "acct_1")) (pos 500)
unfolding complete_payout payout_outcome settle lookup
complete_payout-returns_example =
    complete_payout-returns env "po_1" "fail" "acct_1" mock payout (settle fail_rule payout)
      fail_rule refl refl refl AmountOk-500 refl refl refl

close_dispute-won_example :
    balance_of "usd" (connected_ledger (close_dispute env "dp_1" "won" mock).1 "acct_1")
    ≡ add64 (balance_of "usd" (connected_ledger mock "acct_1")) (pos 6000)
unfolding lookup charge_owner
close_dispute-won_example =
    close_dispute-won env "dp_1" "won" "acct_1" mock dispute charge AmountOk-6000 refl refl refl
      refl refl

-- The balance of acct_1 without the dispute: 10000 - 320 - 100 + 700 - 500.
abbrev pub undisputed : StripeMock
undisputed = record mock { disputes = [] }

abbrev pub paid_out : StripePayout
paid_out = account_payout_of env "acct_1" "usd" (pos 9780)

payout_account_balance-empties_example :
    (balance_of "usd" (
        connected_ledger
          (record undisputed { payouts = insert "po_test_aa" paid_out undisputed.payouts })
          "acct_1")
      ≡ pos 0)
    × (pos 9780 ≡ balance_of "usd" (connected_ledger undisputed "acct_1"))
    × (pos 1 ≤ℤ pos 9780)
unfolding account_payout_of lookup payout_account_balance account_exists contains currencies
    first_positive insert_currency connected_ledger connected_entries sort_newest_first insert_entry
    collect connected_transfer connected_charge connected_refund charge_owner stripe_fee
    dispute_entry account_payout payout_entry reversal_entries balance_of balance_from net wrap64
    ◌-ℤ◌ ◌+ℤ◌ ◌*ℤ◌ quot refunded_app_fee
payout_account_balance-empties_example =
    payout_account_balance-empties env "acct_1" undisputed paid_out
      (record undisputed { payouts = insert "po_test_aa" paid_out undisputed.payouts }) refl refl

-- The platform's charge leaves 10000 - 320 less what it sent and the dispute.
abbrev pub undisputed_platform : StripeMock
undisputed_platform = record platform_mock { disputes = [] }

abbrev pub sent_now : StripeTransfer
sent_now = new_transfer env transfer_form (pos 700) "usd" "acct_1" ""

create_transfer-moves_example :
    (balance_of "usd" (platform_ledger (create_transfer env transfer_form undisputed_platform).1)
      ≡ add64 (balance_of "usd" (platform_ledger undisputed_platform)) (pos 0 -ℤ pos 700))
    × (balance_of "usd"
          (connected_ledger (create_transfer env transfer_form undisputed_platform).1 "acct_1")
        ≡ add64 (balance_of "usd" (connected_ledger undisputed_platform "acct_1")) (pos 700))
unfolding create_transfer send_transfer new_transfer get_int64 get_string get parse_int
    parse_unsigned parse_digits signed_pos string_map get_object transfer_destination_problem
    contains lookup funding_problem platform_ledger platform_entries sort_newest_first insert_entry
    collect platform_charge platform_refund platform_transfer charge_owner stripe_fee account_payout
    reversal_entries balance_of balance_from net wrap64 ◌-ℤ◌ ◌+ℤ◌ ◌*ℤ◌ quot
create_transfer-moves_example =
    create_transfer-moves env transfer_form undisputed_platform sent_now refl refl

create_transfer-covered_example :
    (balance_of "usd" (platform_ledger (create_transfer env transfer_form undisputed_platform).1)
      ≡ balance_of "usd" (platform_ledger undisputed_platform) -ℤ pos 700)
    × (pos 700 ≤ℤ balance_of "usd" (platform_ledger undisputed_platform))
unfolding create_transfer send_transfer new_transfer get_int64 get_string get parse_int
    parse_unsigned parse_digits signed_pos string_map get_object transfer_destination_problem
    contains lookup funding_problem platform_ledger platform_entries sort_newest_first insert_entry
    collect platform_charge platform_refund platform_transfer charge_owner stripe_fee account_payout
    reversal_entries balance_of balance_from net wrap64 ◌-ℤ◌ ◌+ℤ◌ ◌*ℤ◌ quot
create_transfer-covered_example =
    create_transfer-covered env transfer_form undisputed_platform sent_now refl refl refl
