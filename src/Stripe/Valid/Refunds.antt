-- ===== src/Stripe/Valid/Refunds.antt =====
-- A refund keeps the mock well formed.
use hamr.Base.{ℕ, String, ◌≡◌, refl, some, arith, inl, inr, Option-cases}
use hamr.Base.Int.{ℤ, pos, ◌+ℤ◌, ◌≤ℤ◌, int_laws, +ℤ_parts, -ℤ_parts}
use hamr.Base.Int64.{IsInt64, IsInt64-le}
use hamr.Base.Assoc.{lookup, AllValues, lookup-AllValues, insert-AllValues}
use hamr.Stripe.Objects.{StripeCharge, StripeTransfer, StripeTransferReversal}
use hamr.Stripe.State.{StripeMock, Env, refund_key, Reply, ok, refused, Problem}
use hamr.Stripe.Transfer.{reverse_transfer, new_reversal}
use hamr.Stripe.Refund.{
  RefundInput, Refunded, source_charge, refundable, refund_charge, refund_reversal, new_refund,
  record_refund, apply_refund, put_reversed, reversal_id,
}
use hamr.Stripe.Valid.{ChargeOk, TransferOk, IsValid, RefundOk}
use hamr.Stripe.Valid.Objects.{
  refundable_bounds, refund_charge-ChargeOk, reverse_transfer-TransferOk, left_lem,
}

pub source_charge-found :
    (inp : RefundInput) (m : StripeMock) (key : String) (ch : StripeCharge)
    → source_charge inp m ≡ ok (key, ch)
    → lookup key m.charges ≡ some ch
unfolding source_charge
source_charge-found inp m key ch e = ground arith

-- What a refund went through: refused with nothing written, or recorded on a charge that was found.
pub data Applied (env : Env) (inp : RefundInput) (m : StripeMock) (r : Reply Refunded × StripeMock)
    : Type 0 where
  stopped : (status : ℕ) (p : Problem) → r ≡ (refused status p, m) → Applied env inp m r
  recorded :
      (key : String) (ch : StripeCharge) (amount : ℤ)
      → lookup key m.charges ≡ some ch
      → refundable ch inp.amount ≡ ok amount
      → r
        ≡ (ok (record_refund env inp key ch amount m).0, (record_refund env inp key ch amount m).1)
      → Applied env inp m r

pub apply_refund-Applied :
    (env : Env) (inp : RefundInput) (m : StripeMock) → Applied env inp m (apply_refund env inp m)
unfolding apply_refund
apply_refund-Applied env inp m = at_source (source_charge inp m) refl
  where
    at_amount :
        (key : String) (ch : StripeCharge)
        → source_charge inp m ≡ ok (key, ch)
        → (r : Reply ℤ) → refundable ch inp.amount ≡ r
        → Applied env inp m (apply_refund env inp m)
    at_amount key ch e (refused status p) f =
        Applied.stopped status p (rw (e, apply_refund) (rw (f, apply_refund)))
    at_amount key ch e (ok amount) f =
        Applied.recorded key ch amount (source_charge-found inp m key ch e) f
          (rw (e, apply_refund) (rw (f, apply_refund)))

    at_source :
        (r : Reply (String × StripeCharge))
        → source_charge inp m ≡ r
        → Applied env inp m (apply_refund env inp m)
    at_source (refused status p) e = Applied.stopped status p (rw (e, apply_refund))
    at_source (ok (key, ch)) e = at_amount key ch e (refundable ch inp.amount) refl

-- What is pulled back off a transfer is positive, at most what is left of the transfer and at most
-- the refund.
pub record PullsBack (amount : ℤ) (rv : StripeTransferReversal) (tr : StripeTransfer) : Type 0 where
  pub pulled_positive : pos 1 ≤ℤ rv.amount
  pub pulled_fits : tr.amount_reversed +ℤ rv.amount ≤ℤ tr.amount
  pub pulled_at_most : rv.amount ≤ℤ amount

module _ (env : Env) (inp : RefundInput) (amount : ℤ) (ch : StripeCharge) (m : StripeMock) where
  refund_reversal-found :
      (tr : StripeTransfer) (rv : StripeTransferReversal) (tr' : StripeTransfer)
      → lookup ch.transfer_id m.transfers ≡ some tr
      → TransferOk tr
      → refund_reversal env inp amount ch m ≡ some (rv, tr')
      → (tr' ≡ reverse_transfer rv tr) × PullsBack amount rv tr
  unfolding refund_reversal new_reversal
  refund_reversal-found tr rv tr' found h e = ground (
    arith,
    left_lem tr h,
    found,
    -ℤ_parts tr.amount tr.amount_reversed,
    +ℤ_parts tr.amount_reversed rv.amount,
  )

  pub refund_reversal-some :
      (rv : StripeTransferReversal) (tr' : StripeTransfer)
      → AllValues TransferOk m.transfers
      → refund_reversal env inp amount ch m ≡ some (rv, tr')
      → (tr : StripeTransfer) × (lookup ch.transfer_id m.transfers ≡ some tr)
        × (tr' ≡ reverse_transfer rv tr)
        × PullsBack amount rv tr
  unfolding refund_reversal
  refund_reversal-some rv tr' h e = elim (Option-cases (lookup ch.transfer_id m.transfers)) [
    | inl missing ↦ absurd (ground arith)
    | inr (tr, found) ↦
        let both =
          refund_reversal-found tr rv tr' found
            (lookup-AllValues TransferOk ch.transfer_id tr m.transfers h found) e in
        (tr, found, both.0, both.1)
  ]

  put_reversed-TransferOk :
      AllValues TransferOk m.transfers
      → AllValues TransferOk
          (put_reversed ch.transfer_id (refund_reversal env inp amount ch m) m.transfers)
  put_reversed-TransferOk h = elim (Option-cases (refund_reversal env inp amount ch m)) [
    | inl nothing ↦ rw nothing h
    | inr ((rv, tr'), e) ↦
        let (tr, found, same, back) = refund_reversal-some rv tr' h e in
        let old = lookup-AllValues TransferOk ch.transfer_id tr m.transfers h found in
        rw (e, same)
          (insert-AllValues TransferOk ch.transfer_id (reverse_transfer rv tr) m.transfers h
            (reverse_transfer-TransferOk tr rv old back.pulled_positive back.pulled_fits))
  ]

module _ (env : Env) (inp : RefundInput) (m : StripeMock) (h : IsValid m) where
  record_refund-IsValid :
      (key : String) (ch : StripeCharge) (amount : ℤ)
      → lookup key m.charges ≡ some ch
      → refundable ch inp.amount ≡ ok amount
      → IsValid (record_refund env inp key ch amount m).1
  unfolding record_refund
  record_refund-IsValid key ch amount found accepted =
      let old = lookup-AllValues ChargeOk key ch m.charges h.charges found in
      let (positive, fits) = refundable_bounds ch inp.amount amount old accepted in
      let room : amount ≤ℤ ch.amount = omega int_laws in
      let in_range : IsInt64 amount = IsInt64-le amount ch.amount (omega arith) room old.in_range in
      let ch' = refund_charge amount ch in
      let back = refund_reversal env inp amount ch' m in
      record {
        payment_intents = h.payment_intents;
        charges =
            insert-AllValues ChargeOk key ch' m.charges h.charges
              (refund_charge-ChargeOk ch amount old positive fits);
        transfers = put_reversed-TransferOk env inp amount ch' m h.transfers;
        refunds =
            insert-AllValues RefundOk (refund_key env 0)
              (new_refund env inp amount ch' (reversal_id back)) m.refunds h.refunds
              (record { positive = positive; in_range = in_range });
        payouts = h.payouts;
        disputes = h.disputes;
      }

  pub apply_refund-IsValid : IsValid (apply_refund env inp m).1
  apply_refund-IsValid = elim (apply_refund-Applied env inp m) [
    | Applied.stopped status p e ↦ rw e h
    | Applied.recorded key ch amount found accepted e ↦
        rw e (record_refund-IsValid key ch amount found accepted)
  ]
