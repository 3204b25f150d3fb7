-- ===== src/Stripe/Refund.antt =====
-- Refunds (internal/devserver/stripemock_refund.go).
use hamr.Base.{
  String, Bool, true, not, ◌&&◌, Option, none, some, List, [], ◌∷◌, ◌==◌, if◌then◌else◌,
}
use hamr.Base.Int.{ℤ, pos, is_zero, ltb_ℤ, leb_ℤ, min_ℤ}
use hamr.Base.Int64.{add64, sub64}
use hamr.Base.Assoc.{Assoc, lookup, insert}
use hamr.Stripe.Form.{FormFields, get_int64, get_string, get_bool, string_map}
use hamr.Stripe.Objects.{
  Metadata, StripeCharge, StripeTransfer, StripeTransferReversal, StripeRefund,
}
use hamr.Stripe.State.{
  StripeMock, Env, refund_key, EventObject, WebhookFire, Problem, Reply, ok, refused, Answer,
  refuse, fire,
}
use hamr.Stripe.Transfer.{new_reversal, reverse_transfer}

pub record RefundInput : Type 0 where
  pub pi_id : String
  pub charge_id : String
  pub amount : ℤ
  pub reason : String
  pub reverse_transfer : Bool
  pub refund_app_fee : Bool
  pub metadata : Metadata

-- The key of the charge to refund: the one named, or the latest of the payment intent named.
unfoldable pub source_charge : RefundInput → StripeMock → Reply (String × StripeCharge)
source_charge inp m =
    if not (inp.charge_id == "")
    then elim (lookup inp.charge_id m.charges) [
      | none ↦ refused 400 Problem.no_such_charge
      | some ch ↦ ok (inp.charge_id, ch)
    ]
    else elim (lookup inp.pi_id m.payment_intents) [
      | none ↦ refused 400 Problem.no_such_payment_intent
      | some pi ↦
          if pi.latest_charge_id == ""
          then refused 400 Problem.no_charge
          else elim (lookup pi.latest_charge_id m.charges) [
            | none ↦ refused 400 Problem.charge_lost
            | some ch ↦ ok (pi.latest_charge_id, ch)
          ]
    ]

-- The amount to refund on a charge; a request for 0 asks for all that remains.
unfoldable pub refundable : StripeCharge → ℤ → Reply ℤ
refundable ch requested =
    let remaining = sub64 ch.amount_captured ch.amount_refunded in
    let amount = if is_zero requested then remaining else requested in
    if not (ch.dispute_id == "")
    then refused 400 Problem.charge_disputed
    else if leb_ℤ remaining (pos 0)
    then refused 400 Problem.already_refunded
    else if ltb_ℤ amount (pos 0)
    then refused 400 Problem.bad_amount
    else if ltb_ℤ remaining amount
    then refused 400 Problem.refund_exceeds
    else ok amount

unfoldable pub refund_charge : ℤ → StripeCharge → StripeCharge
refund_charge amount ch =
    let total = add64 ch.amount_refunded amount in
    record ch {
      amount_refunded = total;
      refunded = if leb_ℤ ch.amount_captured total then true else ch.refunded;
    }

unfoldable pub new_refund : Env → RefundInput → ℤ → StripeCharge → String → StripeRefund
new_refund env inp amount ch reversal_id = record {
  id = refund_key env 0;
  amount = amount;
  currency = ch.currency;
  status = "succeeded";
  charge_id = ch.id;
  payment_intent_id = ch.payment_intent_id;
  reason = inp.reason;
  receipt_number = "";
  reverse_transfer = inp.reverse_transfer;
  refund_application_fee = inp.refund_app_fee;
  source_transfer_reversal = reversal_id;
  created = env.now 0;
  metadata = inp.metadata;
}

-- What the refund pulls back off the charge's transfer, if anything: the reversal and the transfer
-- that records it.
unfoldable pub refund_reversal :
    Env
    → RefundInput
    → ℤ
    → StripeCharge
    → StripeMock
    → Option (StripeTransferReversal × StripeTransfer)
refund_reversal env inp amount ch m =
    if inp.reverse_transfer && not (ch.transfer_id == "")
    then elim (lookup ch.transfer_id m.transfers) [
      | none ↦ none
      | some tr ↦
          let reverse_amount = min_ℤ amount (sub64 tr.amount tr.amount_reversed) in
          let rv = new_reversal env 1 1 reverse_amount (refund_key env 0) none in
          if ltb_ℤ (pos 0) reverse_amount then some (rv, reverse_transfer rv tr) else none
    ]
    else none

pub record Refunded : Type 0 where
  pub refund : StripeRefund
  pub charge : StripeCharge
  pub reversed_transfer : Option StripeTransfer

abbrev pub reversal_id : Option (StripeTransferReversal × StripeTransfer) → String
reversal_id none = ""
reversal_id (some (rv, _)) = rv.id

abbrev pub reversed : Option (StripeTransferReversal × StripeTransfer) → Option StripeTransfer
reversed none = none
reversed (some (_, tr)) = some tr

abbrev pub put_reversed :
    String
    → Option (StripeTransferReversal × StripeTransfer)
    → Assoc StripeTransfer
    → Assoc StripeTransfer
put_reversed key none ts = ts
put_reversed key (some (_, tr)) ts = insert key tr ts

-- The writes, once the charge under `key` and the amount are settled.
unfoldable pub record_refund :
    Env → RefundInput → String → StripeCharge → ℤ → StripeMock → Refunded × StripeMock
unfolding refund_charge new_refund refund_reversal
record_refund env inp key ch amount m =
    let ch' = refund_charge amount ch in
    let back = refund_reversal env inp amount ch' m in
    let rf = new_refund env inp amount ch' (reversal_id back) in
    (
      record { refund = rf; charge = ch'; reversed_transfer = reversed back },
      record m {
        charges = insert key ch' m.charges;
        transfers = put_reversed ch.transfer_id back m.transfers;
        refunds = insert (refund_key env 0) rf m.refunds;
      },
    )

unfoldable pub apply_refund : Env → RefundInput → StripeMock → Reply Refunded × StripeMock
unfolding source_charge refundable
apply_refund env inp m = elim (source_charge inp m) [
  | refused status p ↦ (refused status p, m)
  | ok (key, ch) ↦ elim (refundable ch inp.amount) [
    | refused status p ↦ (refused status p, m)
    | ok amount ↦ let (done, m') = record_refund env inp key ch amount m in (ok done, m')
  ]
]

-- charge.refunded, then transfer.reversed if money came back off a transfer.
unfoldable pub refund_fires : StripeCharge → Option StripeTransfer → List WebhookFire
refund_fires ch none = fire "charge.refunded" (EventObject.charge ch) ∷ []
refund_fires ch (some tr) =
    fire "charge.refunded" (EventObject.charge ch)
    ∷ fire "transfer.reversed" (EventObject.transfer tr)
    ∷ []

abbrev pub answer_refund : Reply Refunded × StripeMock → Answer StripeRefund
answer_refund (refused status p, m) = (refused status p, m, [])
answer_refund (ok done, m) = (ok done.refund, m, refund_fires done.charge done.reversed_transfer)

unfoldable pub create_refund : Env → FormFields → StripeMock → Answer StripeRefund
unfolding refund_fires
create_refund env p m =
    let pi_id = get_string p "payment_intent" in
    let charge_id = get_string p "charge" in
    if pi_id == "" && charge_id == ""
    then refuse m 400 Problem.source_missing
    else if not (pi_id == "") && not (charge_id == "")
    then refuse m 400 Problem.source_ambiguous
    else elim (get_int64 p "amount") [
      | none ↦ refuse m 400 Problem.bad_amount
      | some amount ↦ answer_refund (
          apply_refund env
            (record {
              pi_id = pi_id;
              charge_id = charge_id;
              amount = amount;
              reason = get_string p "reason";
              reverse_transfer = get_bool p "reverse_transfer";
              refund_app_fee = get_bool p "refund_application_fee";
              metadata = string_map p "metadata";
            })
            m)
    ]
