-- ===== src/Stripe/State.antt =====
-- `StripeMock` (internal/devserver/stripemock.go) as far as the operations on money read and write
-- it, what a request draws from outside, and what a handler answers.
use Prim.Native.String.{◌++◌ as ◌<>◌}
use hamr.Base.{ℕ, String, Bool, ◌||◌, Option, List, []}
use hamr.Base.Assoc.{Assoc, lookup, contains}
use hamr.Stripe.Objects.{
  StripeAccount, StripeV2Account, StripePaymentIntent, StripeCharge, StripeTransfer, StripeRefund,
  StripePayout, StripeDispute,
}

pub record StripeMock : Type 0 where
  pub accounts : Assoc StripeAccount
  pub v2_accounts : Assoc StripeV2Account
  pub payment_intents : Assoc StripePaymentIntent
  pub charges : Assoc StripeCharge
  pub transfers : Assoc StripeTransfer
  pub refunds : Assoc StripeRefund
  pub payouts : Assoc StripePayout
  pub disputes : Assoc StripeDispute

-- What one request draws from outside: the k-th draw of `randomHex`, the k-th reading of the mock
-- clock in seconds, and the Unicode functions `strings.ToLower` and `strings.TrimSpace`.
pub record Env : Type 0 where
  pub random_hex : ℕ → String
  pub now : ℕ → ℕ
  pub to_lower : String → String
  pub trim_space : String → String

abbrev pub charge_key : Env → ℕ → String
charge_key env k = "ch_test_" <> env.random_hex k

abbrev pub transfer_key : Env → ℕ → String
transfer_key env k = "tr_test_" <> env.random_hex k

abbrev pub refund_key : Env → ℕ → String
refund_key env k = "re_test_" <> env.random_hex k

abbrev pub reversal_key : Env → ℕ → String
reversal_key env k = "trr_test_" <> env.random_hex k

abbrev pub payout_key : Env → ℕ → String
payout_key env k = "po_test_" <> env.random_hex k

abbrev pub dispute_key : Env → ℕ → String
dispute_key env k = "dp_test_" <> env.random_hex k

abbrev pub payment_intent_key : Env → ℕ → String
payment_intent_key env k = "pi_test_" <> env.random_hex k

-- The object that an event carries, as it stood when the event was built.
pub data EventObject : Type 0 where
  payment_intent : StripePaymentIntent → Option StripeCharge → EventObject
  charge : StripeCharge → EventObject
  transfer : StripeTransfer → EventObject
  payout : StripePayout → EventObject
  dispute : StripeDispute → EventObject

-- One webhook event to deliver; `account` is "" on the platform.
pub record WebhookFire : Type 0 where
  pub event_type : String
  pub event_object : EventObject
  pub account : String

-- Why a request is refused.
pub data Problem : Type 0 where
  bad_amount bad_fee bad_capture bad_currency bad_method bad_outcome : Problem
  fee_exceeds_amount fee_negative : Problem
  source_missing source_ambiguous : Problem
  no_such_charge no_such_payment_intent no_such_transfer no_such_payout no_such_dispute : Problem
  no_such_account no_such_destination no_charge charge_lost : Problem
  charge_disputed already_refunded refund_exceeds reversal_exceeds : Problem
  wrong_status already_closed already_disputed nothing_to_dispute no_balance : Problem
  currency_mismatch balance_insufficient capability_missing bad_settings : Problem

pub data Reply {ℓ} (A : Type ℓ) : Type ℓ where
  ok : A → Reply A
  refused : ℕ → Problem → Reply A

-- The answer, the state left behind, and the events queued.
abbrev pub Answer {ℓ} : Type ℓ → Type ℓ
Answer A = Reply A × StripeMock × List WebhookFire

-- A refusal before any write.
abbrev pub refuse {ℓ} : {A : Type ℓ} → StripeMock → ℕ → Problem → Answer A
refuse m status p = (refused status p, m, [])

abbrev pub fire : String → EventObject → WebhookFire
fire event_type o = record { event_type = event_type; event_object = o; account = "" }

unfoldable pub account_exists : StripeMock → String → Bool
unfolding contains lookup
account_exists m id = contains id m.accounts || contains id m.v2_accounts

abbrev pub init : StripeMock
init = record {
  accounts = [];
  v2_accounts = [];
  payment_intents = [];
  charges = [];
  transfers = [];
  refunds = [];
  payouts = [];
  disputes = [];
}
