-- ===== src/Tests.antt =====
-- Objects and requests of the Stripe mock for the tests.
pub mod Money
pub mod Settings
pub mod Small
pub mod Life
pub mod Limits
pub mod Hubs
pub mod Bills
pub mod Graphs
pub mod Mails
pub mod Savings
pub mod Shop
pub mod Doors
use hamr.Base.{
  ℕ, ◌+◌, String, Bool, true, false, Option, none, some, List, [], ◌∷◌, eqb, if◌then◌else◌,
}
use hamr.Base.Int.{ℤ, pos}
use hamr.Stripe.Form.{FormFields, end, field, text}
use hamr.Stripe.Objects.{
  StripeAccount, PiStatus, StripePaymentIntent, StripeCharge, StripeTransfer, PayoutStatus,
  StripePayout, DisputeStatus, StripeDispute,
}
use hamr.Stripe.State.{StripeMock, Env, init}

-- A request that draws `seed` first, and is served at second 1000.
abbrev pub env_of : String → Env
env_of seed = record {
  random_hex = λ k. if eqb k 0 then seed else "second";
  now = λ k. 1000 + k;
  to_lower = λ s. s;
  trim_space = λ s. s;
}

abbrev pub env : Env
env = env_of "aa"

abbrev pub account : StripeAccount
account = record {
  id = "acct_1";
  account_type = "express";
  business_type = "individual";
  country = "US";
  email = "a@example.com";
  default_currency = "usd";
  charges_enabled = true;
  payouts_enabled = true;
  details_submitted = true;
  currently_due = [];
  disabled_reason = "";
  created = 1;
  metadata = none;
}

-- A direct charge on acct_1, and its intent.
abbrev pub intent : StripePaymentIntent
intent = record {
  id = "pi_1";
  amount = pos 10000;
  currency = "usd";
  status = PiStatus.succeeded;
  capture_method = "automatic";
  confirmation_method = "automatic";
  application_fee_amount = pos 100;
  transfer_data_destination = "";
  transfer_data_amount = pos 0;
  on_behalf_of = "";
  stripe_account = "acct_1";
  latest_charge_id = "ch_1";
  transfer_id = "";
  description = "";
  statement_descriptor = "";
  receipt_email = "";
  customer = "";
  payment_method = "pm_card_visa";
  client_secret = "";
  created = 10;
  metadata = none;
  failed = false;
  amount_received = pos 0;
}

abbrev pub charge : StripeCharge
charge = record {
  id = "ch_1";
  amount = pos 10000;
  amount_captured = pos 10000;
  amount_refunded = pos 4000;
  currency = "usd";
  status = "succeeded";
  paid = true;
  captured = true;
  refunded = false;
  payment_intent_id = "pi_1";
  payment_method = "pm_card_visa";
  application_fee_amount = pos 100;
  destination = "";
  transfer_id = "";
  description = "";
  receipt_email = "";
  customer = "";
  created = 10;
  metadata = none;
  dispute_id = "";
}

abbrev pub sent : StripeTransfer
sent = record {
  id = "tr_1";
  amount = pos 700;
  amount_reversed = pos 0;
  currency = "usd";
  destination = "acct_1";
  source_transaction_id = "";
  transfer_group = "";
  description = "";
  created = 20;
  metadata = none;
  reversals = [];
}

abbrev pub payout : StripePayout
payout = record {
  id = "po_1";
  amount = pos 500;
  currency = "usd";
  status = PayoutStatus.pending;
  method = "standard";
  source_type = "card";
  description = "";
  statement_descriptor = "";
  failure_code = "";
  failure_message = "";
  automatic = false;
  arrival_date = 30;
  created = 30;
  account_id = "acct_1";
  metadata = none;
}

abbrev pub dispute : StripeDispute
dispute = record {
  id = "dp_1";
  charge_id = "ch_1";
  payment_intent_id = "pi_1";
  amount = pos 6000;
  currency = "usd";
  reason = "fraudulent";
  status = DisputeStatus.needs_response;
  evidence_due_by = 100;
  created = 40;
  closed_at = 0;
}

-- All of them in one state; the charge is the platform's while the intent is not stored.
abbrev pub mock : StripeMock
mock = record init {
  accounts = ("acct_1", account) ∷ [];
  payment_intents = ("pi_1", intent) ∷ [];
  charges = ("ch_1", charge) ∷ [];
  transfers = ("tr_1", sent) ∷ [];
  payouts = ("po_1", payout) ∷ [];
  disputes = ("dp_1", dispute) ∷ [];
}

abbrev pub platform_mock : StripeMock
platform_mock = record mock { payment_intents = [] }

abbrev pub transfer_form : FormFields
transfer_form =
    field "amount" (text "700")
      (field "currency" (text "usd") (field "destination" (text "acct_1") end))
