-- ===== src/Stripe/Objects.antt =====
-- The stored objects of the mock (internal/devserver/stripemock_*.go), field by field. Times are in
-- seconds, amounts are int64 in the currency's minor unit, `none` is a nil map of metadata.
use hamr.Base.{ℕ, String, Bool, Option, List}
use hamr.Base.Int.{ℤ}
use hamr.Base.Assoc.{Assoc}

abbrev pub Metadata : Type 0
Metadata = Option (Assoc String)

pub record StripeAccount : Type 0 where
  pub id : String
  pub account_type : String
  pub business_type : String
  pub country : String
  pub email : String
  pub default_currency : String
  pub charges_enabled : Bool
  pub payouts_enabled : Bool
  pub details_submitted : Bool
  pub currently_due : List String
  pub disabled_reason : String
  pub created : ℕ
  pub metadata : Metadata

pub record StripeV2Account : Type 0 where
  pub id : String
  pub contact_email : String
  pub display_name : String
  pub dashboard : String
  pub country : String
  pub currency : String
  pub fees_collector : String
  pub losses_collector : String
  pub configurations : List String
  pub capabilities : Assoc String
  pub return_url : String
  pub created : ℕ
  pub metadata : Metadata

-- The status texts that the code writes or tests.
pub data PiStatus : Type 0 where
  requires_payment_method : PiStatus
  requires_confirmation : PiStatus
  requires_capture : PiStatus
  processing : PiStatus
  succeeded : PiStatus
  canceled : PiStatus

pub record StripePaymentIntent : Type 0 where
  pub id : String
  pub amount : ℤ
  pub currency : String
  pub status : PiStatus
  pub capture_method : String
  pub confirmation_method : String
  pub application_fee_amount : ℤ
  pub transfer_data_destination : String
  pub transfer_data_amount : ℤ
  pub on_behalf_of : String
  pub stripe_account : String
  pub latest_charge_id : String
  pub transfer_id : String
  pub description : String
  pub statement_descriptor : String
  pub receipt_email : String
  pub customer : String
  pub payment_method : String
  pub client_secret : String
  pub created : ℕ
  pub metadata : Metadata
  pub failed : Bool
  pub amount_received : ℤ

pub record StripeCharge : Type 0 where
  pub id : String
  pub amount : ℤ
  pub amount_captured : ℤ
  pub amount_refunded : ℤ
  pub currency : String
  pub status : String
  pub paid : Bool
  pub captured : Bool
  pub refunded : Bool
  pub payment_intent_id : String
  pub payment_method : String
  pub application_fee_amount : ℤ
  pub destination : String
  pub transfer_id : String
  pub description : String
  pub receipt_email : String
  pub customer : String
  pub created : ℕ
  pub metadata : Metadata
  pub dispute_id : String

pub record StripeTransferReversal : Type 0 where
  pub id : String
  pub amount : ℤ
  pub refund_id : String
  pub created : ℕ
  pub metadata : Metadata

pub record StripeTransfer : Type 0 where
  pub id : String
  pub amount : ℤ
  pub amount_reversed : ℤ
  pub currency : String
  pub destination : String
  pub source_transaction_id : String
  pub transfer_group : String
  pub description : String
  pub created : ℕ
  pub metadata : Metadata
  pub reversals : List StripeTransferReversal

pub record StripeRefund : Type 0 where
  pub id : String
  pub amount : ℤ
  pub currency : String
  pub status : String
  pub charge_id : String
  pub payment_intent_id : String
  pub reason : String
  pub receipt_number : String
  pub reverse_transfer : Bool
  pub refund_application_fee : Bool
  pub source_transfer_reversal : String
  pub created : ℕ
  pub metadata : Metadata

pub data PayoutStatus : Type 0 where
  pending : PayoutStatus
  in_transit : PayoutStatus
  paid : PayoutStatus
  failed : PayoutStatus
  canceled : PayoutStatus

pub record StripePayout : Type 0 where
  pub id : String
  pub amount : ℤ
  pub currency : String
  pub status : PayoutStatus
  pub method : String
  pub source_type : String
  pub description : String
  pub statement_descriptor : String
  pub failure_code : String
  pub failure_message : String
  pub automatic : Bool
  pub arrival_date : ℕ
  pub created : ℕ
  pub account_id : String
  pub metadata : Metadata

pub data DisputeStatus : Type 0 where
  needs_response : DisputeStatus
  won : DisputeStatus
  lost : DisputeStatus

pub record StripeDispute : Type 0 where
  pub id : String
  pub charge_id : String
  pub payment_intent_id : String
  pub amount : ℤ
  pub currency : String
  pub reason : String
  pub status : DisputeStatus
  pub evidence_due_by : ℕ
  pub created : ℕ
  pub closed_at : ℕ
