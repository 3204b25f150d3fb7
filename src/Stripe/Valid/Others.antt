-- ===== src/Stripe/Valid/Others.antt =====
-- Transfers, reversals, payouts and disputes keep the mock well formed.
use hamr.Base.{
  String, false, not, List, [], ◌∷◌, ◌≡◌, refl, some, arith, inl, inr, ◌==◌, ◌&&◌, ◌||◌,
  Option-cases, if◌then◌else◌,
}
use hamr.Base.Int.{ℤ, pos, ◌+ℤ◌, ◌-ℤ◌, ◌≤ℤ◌, ltb_ℤ, leb_ℤ, int_laws, is_zero}
use hamr.Base.Int64.{IsInt64, sub64, wrap64-IsInt64}
use hamr.Base.Assoc.{lookup, insert, lookup-AllValues, insert-AllValues}
use hamr.Stripe.Form.{FormFields, get_int64, get_string, string_map}
use hamr.Stripe.Form.Range.{get_int64-IsInt64}
use hamr.Stripe.Objects.{StripeTransfer, StripePayout}
use hamr.Stripe.State.{StripeMock, Env, ok, transfer_key, payout_key, dispute_key, account_exists}
use hamr.Stripe.Keeps.{Leaves-if, Leaves-option, Leaves-reply}
use hamr.Stripe.Transfer.{
  new_transfer, send_transfer, create_transfer, reverse_locked, create_transfer_reversal,
  new_reversal, reverse_transfer, transfer_destination_problem, funding_problem,
}
use hamr.Stripe.Ledger.{balance_of, connected_ledger}
use hamr.Stripe.Ledger.Range.{balance_of-IsInt64}
use hamr.Stripe.Payout.{
  build_payout_from_params, stamp_payout, create_payout, payout_outcome, settle, is_settled,
  complete_payout, currencies, first_positive, account_payout_of, payout_account_balance,
}
use hamr.Stripe.Dispute.{
  new_dispute, open_dispute, dispute_outcome, is_open, is_succeeded, close_dispute,
}
use hamr.Stripe.Valid.{ChargeOk, TransferOk, PayoutOk, DisputeOk, IsValid}
use hamr.Stripe.Valid.Objects.{left_lem, reverse_transfer-TransferOk}

new_transfer-TransferOk :
    (env : Env) (p : FormFields) (amount : ℤ) (currency dest src : String)
    → pos 1 ≤ℤ amount
    → IsInt64 amount
    → TransferOk (new_transfer env p amount currency dest src)
unfolding new_transfer
new_transfer-TransferOk env p amount currency dest src q r = record {
  in_range = r;
  reversed_nonneg = omega arith;
  reversed_fits = omega arith;
  reversed_sum = refl;
  reversals_positive = tt;
}

-- The amount of an accepted reversal is positive and at most what is left.
reversal_bounds :
    (tr : StripeTransfer) (requested : ℤ)
    → TransferOk tr
    → ltb_ℤ requested (pos 0) ≡ false
    → let left = sub64 tr.amount tr.amount_reversed in
      let amount = if is_zero requested then left else requested in
      (leb_ℤ left (pos 0) || ltb_ℤ left amount) ≡ false
      → (pos 1 ≤ℤ amount) × (tr.amount_reversed +ℤ amount ≤ℤ tr.amount)
reversal_bounds tr requested o nonneg fits = grind (int_laws, left_lem tr o)

build-PayoutOk :
    (env : Env) (p : FormFields) (po : StripePayout)
    → build_payout_from_params env p ≡ ok po
    → PayoutOk po
unfolding build_payout_from_params
build-PayoutOk env p po e = elim (Option-cases (get_int64 p "amount")) [
  | inl f ↦ absurd (ground arith)
  | inr (amount, f) ↦ ground (arith, get_int64-IsInt64 p "amount" amount f)
]

module _ (env : Env) (m : StripeMock) (h : IsValid m) where
  put_transfer-IsValid :
      (key : String) (tr : StripeTransfer)
      → TransferOk tr
      → IsValid (record m { transfers = insert key tr m.transfers })
  put_transfer-IsValid key tr o = record {
    payment_intents = h.payment_intents;
    charges = h.charges;
    transfers = insert-AllValues TransferOk key tr m.transfers h.transfers o;
    refunds = h.refunds;
    payouts = h.payouts;
    disputes = h.disputes;
  }

  put_payout-IsValid :
      (key : String) (po : StripePayout)
      → PayoutOk po
      → IsValid (record m { payouts = insert key po m.payouts })
  put_payout-IsValid key po o = record {
    payment_intents = h.payment_intents;
    charges = h.charges;
    transfers = h.transfers;
    refunds = h.refunds;
    payouts = insert-AllValues PayoutOk key po m.payouts h.payouts o;
    disputes = h.disputes;
  }

  pub create_transfer-IsValid : (p : FormFields) → IsValid (create_transfer env p m).1
  unfolding create_transfer send_transfer
  create_transfer-IsValid p = Leaves-option IsValid (get_int64 p "amount") _ _ h λ amount e.
      Leaves-if IsValid (leb_ℤ amount (pos 0)) _ _ (λ _. h)
        λ positive.
          Leaves-if IsValid
            (env.to_lower (get_string p "currency") == "" || get_string p "destination" == "") _ _
            (λ _. h)
            λ _. refused_or_sent p amount (ground arith) (get_int64-IsInt64 p "amount" amount e)
    where
      refused_or_sent :
          (p : FormFields) (amount : ℤ)
          → pos 1 ≤ℤ amount
          → IsInt64 amount
          → IsValid
              (send_transfer env p amount
                (env.to_lower (get_string p "currency"))
                (get_string p "destination")
                (get_string p "source_transaction")
                m).1
      refused_or_sent p amount q r =
          let dest = get_string p "destination" in
          Leaves-option IsValid (transfer_destination_problem m dest) _ _
            (Leaves-option IsValid
              (funding_problem m amount (env.to_lower (get_string p "currency"))
                (get_string p "source_transaction"))
              _ _
              (put_transfer-IsValid (transfer_key env 0) _ (
                new_transfer-TransferOk env p amount (env.to_lower (get_string p "currency")) dest
                  (get_string p "source_transaction") q r))
              (λ _ _. h))
            (λ _ _. h)

  pub create_transfer_reversal-IsValid :
      (p : FormFields) (id : String) → IsValid (create_transfer_reversal env p id m).1
  unfolding create_transfer_reversal reverse_locked
  create_transfer_reversal-IsValid p id =
      Leaves-option IsValid (get_int64 p "amount") _ _ h λ requested e.
        Leaves-if IsValid (ltb_ℤ requested (pos 0)) _ _ (λ _. h)
          λ nonneg. Leaves-option IsValid (lookup id m.transfers) _ _ h λ tr found.
            let o = lookup-AllValues TransferOk id tr m.transfers h.transfers found in
            let left = sub64 tr.amount tr.amount_reversed in
            let amount = if is_zero requested then left else requested in
            Leaves-if IsValid (leb_ℤ left (pos 0) || ltb_ℤ left amount) _ _ (λ _. h)
              λ fits.
                let rv = new_reversal env 0 0 amount "" (string_map p "metadata") in
                put_transfer-IsValid id (reverse_transfer rv tr) (
                  let (low, high) = reversal_bounds tr requested o nonneg fits in
                  reverse_transfer-TransferOk tr rv o low high)

  pub create_payout-IsValid :
      (header : String) (p : FormFields) → IsValid (create_payout env header p m).1
  unfolding create_payout
  create_payout-IsValid header p =
      Leaves-reply IsValid (build_payout_from_params env p) _ _ (λ _ _. h)
        λ built e.
          let po = stamp_payout env header built in
          Leaves-if IsValid (not (po.account_id == "") && not (account_exists m po.account_id)) _ _
            (λ _. h)
            λ _.
              put_payout-IsValid (payout_key env 0) po
                (let o = build-PayoutOk env p built e in ground arith)

  pub complete_payout-IsValid : (id outcome : String) → IsValid (complete_payout env id outcome m).1
  unfolding complete_payout
  complete_payout-IsValid id outcome =
      Leaves-if IsValid (env.trim_space id == "") _ _ (λ _. h)
        λ _. Leaves-option IsValid (payout_outcome (env.trim_space outcome)) _ _ h λ rule _.
          Leaves-option IsValid (lookup (env.trim_space id) m.payouts) _ _ h λ po found.
            Leaves-if IsValid (is_settled po.status) _ _ (λ _. h)
              λ _. put_payout-IsValid (env.trim_space id) (settle rule po) (
                let o =
                  lookup-AllValues PayoutOk (env.trim_space id) po m.payouts h.payouts found in
                ground arith)

  pub open_dispute-IsValid : (pi_id : String) → IsValid (open_dispute env pi_id m).1
  unfolding open_dispute
  open_dispute-IsValid pi_id = Leaves-option IsValid (lookup pi_id m.payment_intents) _ _ h λ pi _.
      Leaves-option IsValid (lookup pi.latest_charge_id m.charges) _ _ h λ ch found.
        let o = lookup-AllValues ChargeOk pi.latest_charge_id ch m.charges h.charges found in
        Leaves-if IsValid (not (is_succeeded pi.status)) _ _ (λ _. h)
          λ _.
            Leaves-if IsValid (not (ch.dispute_id == "")) _ _ (λ _. h)
              λ _.
                Leaves-if IsValid (leb_ℤ (sub64 ch.amount_captured ch.amount_refunded) (pos 0)) _ _
                  (λ _. h)
                  λ some_left. record {
                    payment_intents = h.payment_intents;
                    charges =
                        insert-AllValues ChargeOk pi.latest_charge_id
                          (record ch { dispute_id = dispute_key env 0 }) m.charges h.charges
                          (ground arith);
                    transfers = h.transfers;
                    refunds = h.refunds;
                    payouts = h.payouts;
                    disputes =
                        insert-AllValues DisputeOk (dispute_key env 0) (new_dispute env pi ch)
                          m.disputes h.disputes
                          (record {
                            positive = ground arith;
                            in_range = wrap64-IsInt64 (ch.amount_captured -ℤ ch.amount_refunded);
                          });
                  }

  pub close_dispute-IsValid : (id outcome : String) → IsValid (close_dispute env id outcome m).1
  unfolding close_dispute
  close_dispute-IsValid id outcome =
      Leaves-option IsValid (dispute_outcome outcome) _ _ h λ status _.
        Leaves-option IsValid (lookup id m.disputes) _ _ h λ dp found.
          Leaves-if IsValid (not (is_open dp.status)) _ _ (λ _. h)
            λ _. record {
              payment_intents = h.payment_intents;
              charges = h.charges;
              transfers = h.transfers;
              refunds = h.refunds;
              payouts = h.payouts;
              disputes =
                  insert-AllValues DisputeOk id
                    (record dp { status = status; closed_at = env.now 0 }) m.disputes h.disputes
                    (let o = lookup-AllValues DisputeOk id dp m.disputes h.disputes found in
                      ground arith);
            }

-- The first positive balance is positive, and the balance of its currency.
pub first_positive-found :
    (balance : String → ℤ) (cs : List String) (currency : String) (amount : ℤ)
    → first_positive balance cs ≡ some (currency, amount)
    → (pos 1 ≤ℤ amount) × (amount ≡ balance currency)
unfolding first_positive
first_positive-found balance [] currency amount e = absurd (cc)
first_positive-found balance (c ∷ cs) currency amount e =
    ground (arith, first_positive-found balance cs currency amount)

pub payout_account_balance-IsValid :
    (env : Env) (m : StripeMock)
    → IsValid m
    → (acct : String) → IsValid (payout_account_balance env acct m).1
unfolding payout_account_balance
payout_account_balance-IsValid env m h acct =
    let ledger = connected_ledger m acct in
    Leaves-if IsValid (acct == "" || not (account_exists m acct)) _ _ (λ _. h)
      λ _.
        Leaves-option IsValid (first_positive (λ c. balance_of c ledger) (currencies ledger)) _ _ h
          λ (currency, amount) found.
            put_payout-IsValid env m h (payout_key env 0)
              (account_payout_of env acct currency amount)
              (let (positive, same) =
                  first_positive-found (λ c. balance_of c ledger) (currencies ledger) currency
                    amount found in
                record {
                  positive = positive;
                  in_range = rw same (balance_of-IsInt64 currency ledger);
                })
