-- ===== src/Stripe/PaymentIntent/Start.antt =====
-- Creating and confirming a payment intent (internal/devserver/stripemock_paymentintent.go).
use Prim.Native.String.{◌++◌ as ◌<>◌}
use hamr.Base.{String, Bool, true, false, not, ◌&&◌, none, some, [], ◌==◌, if◌then◌else◌}
use hamr.Base.Int.{ℤ, pos, ltb_ℤ, leb_ℤ}
use hamr.Base.Assoc.{lookup, insert}
use hamr.Stripe.Form.{FormFields, get_object, get_int64, get_string, string_map, or_default}
use hamr.Stripe.Objects.{PiStatus, StripePaymentIntent}
use hamr.Stripe.State.{
  StripeMock, Env, payment_intent_key, Problem, Reply, ok, refused, Answer, refuse, account_exists,
}

-- The destination of `transfer_data`, and its amount if that is a valid, non-negative number.
unfoldable pub transfer_data : FormFields → String × ℤ
transfer_data p = elim (get_object p "transfer_data") [
  | none ↦ ("", pos 0)
  | some td ↦ (
    get_string td "destination",
    elim (get_int64 td "amount") [ none ↦ pos 0 | some v ↦ if leb_ℤ (pos 0) v then v else pos 0 ],
  )
]

-- The intent as the parameters give it; what the handler sets later is empty.
unfoldable pub intent_of : Env → FormFields → ℤ → String → ℤ → StripePaymentIntent
unfolding transfer_data
intent_of env p amount currency app_fee = record {
  id = "";
  amount = amount;
  currency = currency;
  status = PiStatus.requires_payment_method;
  capture_method = or_default (get_string p "capture_method") "automatic";
  confirmation_method = or_default (get_string p "confirmation_method") "automatic";
  application_fee_amount = app_fee;
  transfer_data_destination = (transfer_data p).0;
  transfer_data_amount = (transfer_data p).1;
  on_behalf_of = get_string p "on_behalf_of";
  stripe_account = "";
  latest_charge_id = "";
  transfer_id = "";
  description = get_string p "description";
  statement_descriptor = get_string p "statement_descriptor";
  receipt_email = get_string p "receipt_email";
  customer = get_string p "customer";
  payment_method = get_string p "payment_method";
  client_secret = "";
  created = 0;
  metadata = string_map p "metadata";
  failed = false;
  amount_received = pos 0;
}

unfoldable pub build_payment_intent_from_params : Env → FormFields → Reply StripePaymentIntent
build_payment_intent_from_params env p = elim (get_int64 p "amount") [
  | none ↦ refused 400 Problem.bad_amount
  | some amount ↦
      let currency = env.to_lower (get_string p "currency") in
      if leb_ℤ amount (pos 0)
      then refused 400 Problem.bad_amount
      else if currency == ""
      then refused 400 Problem.bad_currency
      else elim (get_int64 p "application_fee_amount") [
        | none ↦ refused 400 Problem.bad_fee
        | some app_fee ↦
            if ltb_ℤ app_fee (pos 0)
            then refused 400 Problem.fee_negative
            else if ltb_ℤ amount app_fee
            then refused 400 Problem.fee_exceeds_amount
            else ok (intent_of env p amount currency app_fee)
      ]
]

-- What the handler fills in; `header` is the Stripe-Account header.
unfoldable pub stamp_intent : Env → String → StripePaymentIntent → StripePaymentIntent
stamp_intent env header pi = record pi {
  id = payment_intent_key env 0;
  client_secret = payment_intent_key env 0 <> "_secret_" <> env.random_hex 1;
  created = env.now 0;
  stripe_account = env.trim_space header;
  status =
      if pi.payment_method == ""
      then PiStatus.requires_payment_method
      else PiStatus.requires_confirmation;
}

unfoldable pub create_payment_intent :
    Env → String → FormFields → StripeMock → Answer StripePaymentIntent
unfolding stamp_intent
create_payment_intent env header p m = elim (build_payment_intent_from_params env p) [
  | refused status problem ↦ refuse m status problem
  | ok built ↦
      let pi = stamp_intent env header built in
      let m' = record m {
        payment_intents = insert (payment_intent_key env 0) pi m.payment_intents;
      } in
      if not (pi.transfer_data_destination == "")
        && not (account_exists m pi.transfer_data_destination)
      then refuse m 400 Problem.no_such_destination
      else (ok pi, m', [])
]

abbrev pub can_confirm : PiStatus → Bool
can_confirm PiStatus.requires_payment_method = true
can_confirm PiStatus.requires_confirmation = true
can_confirm _ = false

-- The payment method given now, else the stored one, else a placeholder.
unfoldable pub confirmed : String → StripePaymentIntent → StripePaymentIntent
confirmed pm pi =
    let given = if pm == "" then pi.payment_method else pm in
    record pi {
      payment_method = or_default given "pm_card_visa";
      status =
          if pi.capture_method == "manual" then PiStatus.requires_capture else PiStatus.processing;
    }

unfoldable pub confirm_payment_intent :
    FormFields → String → StripeMock → Answer StripePaymentIntent
unfolding confirmed
confirm_payment_intent p id m = elim (lookup id m.payment_intents) [
  | none ↦ refuse m 404 Problem.no_such_payment_intent
  | some pi ↦
      let pi' = confirmed (get_string p "payment_method") pi in
      let m' = record m { payment_intents = insert id pi' m.payment_intents } in
      if not (can_confirm pi.status) then refuse m 400 Problem.wrong_status else (ok pi', m', [])
]
