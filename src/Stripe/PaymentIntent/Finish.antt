-- ===== src/Stripe/PaymentIntent/Finish.antt =====
-- Capturing a payment intent (internal/devserver/stripemock_paymentintent.go) and its outcome buttons
-- (internal/devserver/stripemock_paymentintent_page.go).
use hamr.Base.{ℕ, String, Bool, true, false, not, Option, none, some, [], ◌∷◌, ◌==◌, if◌then◌else◌}
use hamr.Base.Int.{ℤ, pos, is_zero, ltb_ℤ, leb_ℤ, max_ℤ}
use hamr.Base.Int64.{sub64}
use hamr.Base.Assoc.{lookup, insert}
use hamr.Stripe.Form.{FormFields, get_int64, or_default}
use hamr.Stripe.Objects.{PiStatus, StripePaymentIntent, StripeCharge, StripeTransfer}
use hamr.Stripe.State.{
  StripeMock, Env, charge_key, transfer_key, EventObject, Problem, Reply, ok, refused, Answer,
  refuse, fire,
}

-- The charge of a succeeded intent, before a transfer is attached.
unfoldable pub new_charge : Env → ℤ → StripePaymentIntent → StripeCharge
new_charge env capture_amount pi = record {
  id = charge_key env 0;
  amount = pi.amount;
  amount_captured = capture_amount;
  amount_refunded = pos 0;
  currency = pi.currency;
  status = "succeeded";
  paid = true;
  captured = true;
  refunded = false;
  payment_intent_id = pi.id;
  payment_method = pi.payment_method;
  application_fee_amount = pi.application_fee_amount;
  destination = pi.transfer_data_destination;
  transfer_id = "";
  description = pi.description;
  receipt_email = pi.receipt_email;
  customer = pi.customer;
  created = env.now 0;
  metadata = pi.metadata;
  dispute_id = "";
}

unfoldable pub destination_transfer : Env → ℕ → ℤ → StripePaymentIntent → StripeTransfer
destination_transfer env now amount pi = record {
  id = transfer_key env 1;
  amount = amount;
  amount_reversed = pos 0;
  currency = pi.currency;
  destination = pi.transfer_data_destination;
  source_transaction_id = charge_key env 0;
  transfer_group = "";
  description = "";
  created = now;
  metadata = none;
  reversals = [];
}

-- The cascade of a success. `pi` is the intent with all but its transfer set, `ch` its new charge.
-- The first two events were built before or after the transfer was attached: `early` says which.
abbrev pub cascade :
    Env
    → Bool
    → ℕ
    → ℤ
    → String
    → StripePaymentIntent
    → StripeCharge
    → StripeMock
    → Answer StripePaymentIntent
cascade env early now amount key pi ch m =
    let tr = destination_transfer env now amount pi in
    let pi' = record pi { transfer_id = transfer_key env 1 } in
    let ch' = record ch { transfer_id = transfer_key env 1 } in
    let shown_pi = if early then pi else pi' in
    let shown_ch = if early then ch else ch' in
    let plain = record m {
      payment_intents = insert key pi m.payment_intents;
      charges = insert (charge_key env 0) ch m.charges;
    } in
    let moved = record m {
      payment_intents = insert key pi' m.payment_intents;
      charges = insert (charge_key env 0) ch' m.charges;
      transfers = insert (transfer_key env 1) tr m.transfers;
    } in
    if pi.transfer_data_destination == ""
    then (
      ok pi,
      plain,
      fire "payment_intent.succeeded" (EventObject.payment_intent pi (some ch))
          ∷ fire "charge.succeeded" (EventObject.charge ch)
          ∷ [],
    )
    else (
      ok pi',
      moved,
      fire "payment_intent.succeeded" (EventObject.payment_intent shown_pi (some shown_ch))
          ∷ fire "charge.succeeded" (EventObject.charge shown_ch)
          ∷ fire "transfer.created" (EventObject.transfer tr)
          ∷ [],
    )

abbrev pub is_capturable : PiStatus → Bool
is_capturable PiStatus.requires_capture = true
is_capturable _ = false

-- The amount to capture: all of it, unless a positive amount is asked for.
unfoldable pub capture_amount : FormFields → StripePaymentIntent → Reply ℤ
capture_amount p pi = elim (get_int64 p "amount_to_capture") [
  | none ↦ ok pi.amount
  | some v ↦
      if leb_ℤ v (pos 0)
      then ok pi.amount
      else if ltb_ℤ pi.amount v
      then refused 400 Problem.bad_capture
      else ok v
]

abbrev pub captured_intent : Env → ℤ → StripePaymentIntent → StripePaymentIntent
captured_intent env amount pi = record pi {
  status = PiStatus.succeeded;
  latest_charge_id = charge_key env 0;
  amount_received = amount;
}

-- By default all that was captured less the fee, and never less than 0.
abbrev pub capture_transfer_amount : ℤ → StripePaymentIntent → ℤ
capture_transfer_amount amount pi =
    if is_zero pi.transfer_data_amount
    then max_ℤ (sub64 amount pi.application_fee_amount) (pos 0)
    else pi.transfer_data_amount

-- The capture of intent `pi`, once the amount is settled.
abbrev pub captured :
    Env → String → StripeMock → StripePaymentIntent → Reply ℤ → Answer StripePaymentIntent
captured env id m pi (refused status problem) = refuse m status problem
captured env id m pi (ok amount) =
    cascade env true (env.now 0) (capture_transfer_amount amount pi) id
      (captured_intent env amount pi) (new_charge env amount pi) m

unfoldable pub capture_payment_intent :
    Env → FormFields → String → StripeMock → Answer StripePaymentIntent
unfolding new_charge destination_transfer
capture_payment_intent env p id m = elim (lookup id m.payment_intents) [
  | none ↦ refuse m 404 Problem.no_such_payment_intent
  | some pi ↦
      if not (is_capturable pi.status)
      then refuse m 400 Problem.wrong_status
      else captured env id m pi (capture_amount p pi)
]

pub data PiOutcome : Type 0 where
  succeed : PiOutcome
  fail : PiOutcome

unfoldable pub pi_outcome : String → Option PiOutcome
pi_outcome outcome =
    if outcome == "succeed" then some succeed else if outcome == "fail" then some fail else none

abbrev pub is_terminal : PiStatus → Bool
is_terminal PiStatus.succeeded = true
is_terminal PiStatus.canceled = true
is_terminal _ = false

abbrev pub succeeded_intent : Env → StripePaymentIntent → StripePaymentIntent
succeeded_intent env pi = record pi {
  payment_method = or_default pi.payment_method "pm_card_visa";
  status = PiStatus.succeeded;
  failed = false;
  latest_charge_id = charge_key env 0;
}

-- By default the amount less the fee.
abbrev pub complete_transfer_amount : StripePaymentIntent → ℤ
complete_transfer_amount pi =
    if is_zero pi.transfer_data_amount
    then sub64 pi.amount pi.application_fee_amount
    else pi.transfer_data_amount

-- The two outcomes on the intent stored under `id`.
unfoldable pub finish :
    Env → PiOutcome → String → StripePaymentIntent → StripeMock → Answer StripePaymentIntent
unfolding new_charge destination_transfer
finish env succeed id pi m =
    let pi' = succeeded_intent env pi in
    cascade env false (env.now 1) (complete_transfer_amount pi) id pi'
      (new_charge env pi.amount pi') m
finish env fail id pi m =
    let pi' = record pi { status = PiStatus.requires_payment_method; failed = true } in
    (
      ok pi',
      record m { payment_intents = insert id pi' m.payment_intents },
      fire "payment_intent.payment_failed" (EventObject.payment_intent pi' none) ∷ [],
    )

-- The dashboard's button, on the two fields of its form.
unfoldable pub complete_payment_intent :
    Env → String → String → StripeMock → Answer StripePaymentIntent
unfolding finish pi_outcome
complete_payment_intent env id_field outcome_field m =
    let id = env.trim_space id_field in
    if id == ""
    then refuse m 400 Problem.source_missing
    else elim (pi_outcome (env.trim_space outcome_field)) [
      | none ↦ refuse m 400 Problem.bad_outcome
      | some outcome ↦ elim (lookup id m.payment_intents) [
        | none ↦ refuse m 404 Problem.no_such_payment_intent
        | some pi ↦
            if is_terminal pi.status
            then refuse m 409 Problem.wrong_status
            else finish env outcome id pi m
      ]
    ]
