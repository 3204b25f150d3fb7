-- ===== src/Stripe/Valid.antt =====
-- When the stored objects of the mock are well formed, each by itself.
pub mod Objects
pub mod Refunds
pub mod Payments
pub mod Others
pub mod Run
use hamr.Base.{ℕ, String, Bool, List, [], ◌∷◌, ◌≡◌, refl, leb}
use hamr.Base.Int.{ℤ, pos, ◌+ℤ◌, ◌≤ℤ◌, leb_ℤ}
use hamr.Base.Int64.{IsInt64}
use hamr.Base.Lists.{All}
use hamr.Base.Assoc.{AllValues}
use hamr.Stripe.Objects.{
  StripePaymentIntent, StripeCharge, StripeTransfer, StripeTransferReversal, StripeRefund,
  StripePayout, StripeDispute,
}
use hamr.Stripe.State.{StripeMock, init}

-- The amount is positive and covers a fee that is not negative.
pub record PaymentIntentOk (pi : StripePaymentIntent) : Type 0 where
  pub positive : pos 1 ≤ℤ pi.amount
  pub in_range : IsInt64 pi.amount
  pub fee_nonneg : pos 0 ≤ℤ pi.application_fee_amount
  pub fee_covered : pi.application_fee_amount ≤ℤ pi.amount
  pub transfer_nonneg : pos 0 ≤ℤ pi.transfer_data_amount
  pub transfer_in_range : IsInt64 pi.transfer_data_amount

-- 0 ≤ refunded ≤ captured ≤ amount, something is captured, and the flag tells a full refund.
pub record ChargeOk (ch : StripeCharge) : Type 0 where
  pub in_range : IsInt64 ch.amount
  pub captured_fits : ch.amount_captured ≤ℤ ch.amount
  pub captured_positive : pos 1 ≤ℤ ch.amount_captured
  pub refunded_nonneg : pos 0 ≤ℤ ch.amount_refunded
  pub refunded_fits : ch.amount_refunded ≤ℤ ch.amount_captured
  pub flag : ch.refunded ≡ leb_ℤ ch.amount_captured ch.amount_refunded

abbrev pub reversal_sum : List StripeTransferReversal → ℤ
reversal_sum [] = pos 0
reversal_sum (rv ∷ rvs) = rv.amount +ℤ reversal_sum rvs

-- 0 ≤ reversed ≤ amount, and what is reversed is the sum of the reversals, each of them positive.
pub record TransferOk (tr : StripeTransfer) : Type 0 where
  pub in_range : IsInt64 tr.amount
  pub reversed_nonneg : pos 0 ≤ℤ tr.amount_reversed
  pub reversed_fits : tr.amount_reversed ≤ℤ tr.amount
  pub reversed_sum : reversal_sum tr.reversals ≡ tr.amount_reversed
  pub reversals_positive : All (λ rv. pos 1 ≤ℤ rv.amount) tr.reversals

pub record AmountOk (amount : ℤ) : Type 0 where
  pub positive : pos 1 ≤ℤ amount
  pub in_range : IsInt64 amount

abbrev pub RefundOk : StripeRefund → Type 0
RefundOk rf = AmountOk rf.amount

abbrev pub PayoutOk : StripePayout → Type 0
PayoutOk po = AmountOk po.amount

abbrev pub DisputeOk : StripeDispute → Type 0
DisputeOk dp = AmountOk dp.amount

pub record IsValid (m : StripeMock) : Type 0 where
  pub payment_intents : AllValues PaymentIntentOk m.payment_intents
  pub charges : AllValues ChargeOk m.charges
  pub transfers : AllValues TransferOk m.transfers
  pub refunds : AllValues RefundOk m.refunds
  pub payouts : AllValues PayoutOk m.payouts
  pub disputes : AllValues DisputeOk m.disputes

pub IsValid-init : IsValid init
IsValid-init = record {
  payment_intents = tt;
  charges = tt;
  transfers = tt;
  refunds = tt;
  payouts = tt;
  disputes = tt;
}
