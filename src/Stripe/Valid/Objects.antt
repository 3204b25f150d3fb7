-- ===== src/Stripe/Valid/Objects.antt =====
-- The operations on one object keep it well formed.
use hamr.Base.{List, [], ◌∷◌, ◌++◌, ◌≡◌, refl}
use hamr.Base.Int.{ℤ, pos, ◌+ℤ◌, ◌-ℤ◌, ◌≤ℤ◌, int_laws}
use hamr.Base.Int64.{sub64, sub64_nonneg, add64_bounded, IsInt64-le}
use hamr.Base.Lists.{All-append}
use hamr.Stripe.Objects.{StripeCharge, StripeTransfer, StripeTransferReversal}
use hamr.Stripe.State.{ok}
use hamr.Stripe.Transfer.{reverse_transfer}
use hamr.Stripe.Refund.{refundable, refund_charge}
use hamr.Stripe.Valid.{ChargeOk, TransferOk, reversal_sum}

pub remaining_lem :
    (ch : StripeCharge)
    → ChargeOk ch
    → sub64 ch.amount_captured ch.amount_refunded ≡ ch.amount_captured -ℤ ch.amount_refunded
remaining_lem ch h =
    sub64_nonneg ch.amount_captured ch.amount_refunded (omega int_laws) (omega int_laws)
      (grind (int_laws, IsInt64-le ch.amount_captured ch.amount))
      (grind (int_laws, IsInt64-le ch.amount_refunded ch.amount))

-- An amount that `refundable` accepts is positive and does not exceed what is left.
pub refundable_bounds :
    (ch : StripeCharge) (requested amount : ℤ)
    → ChargeOk ch
    → refundable ch requested ≡ ok amount
    → (pos 1 ≤ℤ amount) × (ch.amount_refunded +ℤ amount ≤ℤ ch.amount_captured)
unfolding refundable
refundable_bounds ch requested amount h e = grind (int_laws, remaining_lem ch h)

module _ (ch : StripeCharge) (amount : ℤ) (h : ChargeOk ch) (p : pos 1 ≤ℤ amount)
    (q : ch.amount_refunded +ℤ amount ≤ℤ ch.amount_captured) where
  pub refunded-refund_charge :
      (refund_charge amount ch).amount_refunded ≡ ch.amount_refunded +ℤ amount
  unfolding refund_charge
  refunded-refund_charge =
      add64_bounded ch.amount_refunded amount ch.amount (omega int_laws) (omega int_laws)
        (omega int_laws) h.in_range

  pub refund_charge-ChargeOk : ChargeOk (refund_charge amount ch)
  unfolding refund_charge
  refund_charge-ChargeOk =
      let e = refunded-refund_charge in
      record {
        in_range = h.in_range;
        captured_fits = h.captured_fits;
        captured_positive = h.captured_positive;
        refunded_nonneg = rw e (omega int_laws);
        refunded_fits = rw e (omega int_laws);
        flag = rw e (grind int_laws);
      }

reversal_sum-append :
    (rvs : List StripeTransferReversal) (rv : StripeTransferReversal)
    → reversal_sum (rvs ++ rv ∷ []) ≡ reversal_sum rvs +ℤ rv.amount
reversal_sum-append [] rv = omega int_laws
reversal_sum-append (x ∷ rvs) rv = rw (reversal_sum-append rvs rv) (omega int_laws)

module _ (tr : StripeTransfer) (rv : StripeTransferReversal) (h : TransferOk tr)
    (p : pos 1 ≤ℤ rv.amount) (q : tr.amount_reversed +ℤ rv.amount ≤ℤ tr.amount) where
  pub reversed-reverse_transfer :
      (reverse_transfer rv tr).amount_reversed ≡ tr.amount_reversed +ℤ rv.amount
  unfolding reverse_transfer
  reversed-reverse_transfer =
      add64_bounded tr.amount_reversed rv.amount tr.amount (omega int_laws) (omega int_laws) q
        h.in_range

  pub reverse_transfer-TransferOk : TransferOk (reverse_transfer rv tr)
  unfolding reverse_transfer
  reverse_transfer-TransferOk =
      let e = reversed-reverse_transfer in
      record {
        in_range = h.in_range;
        reversed_nonneg = rw e (omega int_laws);
        reversed_fits = rw e (omega int_laws);
        reversed_sum = rw (e, reversal_sum-append tr.reversals rv, h.reversed_sum) refl;
        reversals_positive =
            All-append (λ r. pos 1 ≤ℤ r.amount) tr.reversals (rv ∷ []) h.reversals_positive (p, tt);
      }

pub left_lem :
    (tr : StripeTransfer)
    → TransferOk tr
    → sub64 tr.amount tr.amount_reversed ≡ tr.amount -ℤ tr.amount_reversed
left_lem tr h =
    sub64_nonneg tr.amount tr.amount_reversed (omega int_laws) (omega int_laws) h.in_range
      (IsInt64-le tr.amount_reversed tr.amount h.reversed_nonneg h.reversed_fits h.in_range)
