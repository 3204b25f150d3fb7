-- ===== src/Tests/Life.antt =====
-- Tests of sequences of requests.
use hamr.Base.{some, List, [], ◌∷◌, ◌≡◌, refl, arith}
use hamr.Base.Assoc.{lookup, insert, contains, sum_by}
use hamr.Stripe.Form.{
  FormFields, end, field, text, get, get_int64, get_string, get_object, parse_int, parse_unsigned,
  parse_digits, signed_pos, string_map, or_default,
}
use hamr.Stripe.PaymentIntent.Start.{
  create_payment_intent, build_payment_intent_from_params, stamp_intent, intent_of, transfer_data,
}
use hamr.Stripe.PaymentIntent.Finish.{
  capture_payment_intent, capture_amount, complete_payment_intent, pi_outcome, finish, new_charge,
  destination_transfer,
}
use hamr.Base.Int.{pos}
use hamr.Stripe.Objects.{StripePaymentIntent, PiStatus}
use hamr.Stripe.State.{StripeMock, Env, Problem, init, account_exists}
use hamr.Stripe.Refund.{create_refund}
use hamr.Stripe.Run.{Request, create_intent, complete_intent, refund, handle, perform, run}
use hamr.Stripe.Valid.{IsValid, IsValid-init}
use hamr.Stripe.Valid.Run.{run-IsValid}
use hamr.Stripe.Accounting.{IsBooked}
use hamr.Stripe.Accounting.Run.{AllFresh, run-IsBooked}
use hamr.Stripe.Refusals.{handle-refused}
use hamr.Stripe.Events.{shown_transfer, success-transfer}
use hamr.Tests.{env, env_of, intent, mock}

abbrev pub intent_form : FormFields
intent_form =
    field "amount" (text "5000")
      (field "currency" (text "usd") (field "payment_method" (text "pm_card_visa") end))

abbrev pub refund_form : FormFields
refund_form = field "charge" (text "ch_test_b") (field "amount" (text "2000") end)

-- An intent is made, paid, and refunded in part.
abbrev pub script : List (Env × Request)
script =
    (env_of "a", create_intent "" intent_form)
    ∷ (env_of "b", complete_intent "pi_test_a" "succeed")
    ∷ (env_of "c", refund refund_form)
    ∷ []

run-IsValid_example : IsValid (run script init)
run-IsValid_example = run-IsValid script init IsValid-init

init-IsBooked : IsBooked init
unfolding lookup sum_by
init-IsBooked = record { agrees = λ k. refl; keyed = λ k ch e. absurd (ground arith) }

script-AllFresh : AllFresh script init
unfolding perform handle create_payment_intent build_payment_intent_from_params stamp_intent
    intent_of transfer_data account_exists complete_payment_intent pi_outcome finish new_charge
    destination_transfer lookup insert contains get_int64 get_string get get_object parse_int
    parse_unsigned parse_digits signed_pos string_map or_default
script-AllFresh = (
  record { charge_new = refl; refund_new = refl },
  (
    record { charge_new = refl; refund_new = refl },
    (record { charge_new = refl; refund_new = refl }, tt),
  ),
)

run-IsBooked_example : IsBooked (run script init)
run-IsBooked_example = run-IsBooked script init IsValid-init init-IsBooked script-AllFresh

handle-refused_example :
    ((handle env (refund end) mock).1 ≡ mock) × ((handle env (refund end) mock).2 ≡ [])
unfolding handle create_refund get_string get
handle-refused_example = handle-refused env (refund end) mock 400 Problem.source_missing refl

-- The intent of the data, authorised and to be sent on.
abbrev pub authorised : StripePaymentIntent
authorised = record intent {
  status = PiStatus.requires_capture;
  transfer_data_destination = "acct_1";
}

abbrev pub authorised_mock : StripeMock
authorised_mock = record mock { payment_intents = ("pi_1", authorised) ∷ [] }

success-transfer_example :
    (shown_transfer (complete_payment_intent env "pi_1" "succeed" authorised_mock).2
      ≡ some "tr_test_second")
    × (shown_transfer (capture_payment_intent env end "pi_1" authorised_mock).2 ≡ some "")
unfolding lookup capture_amount get_int64 get_string get pi_outcome
success-transfer_example =
    success-transfer env end "pi_1" "succeed" authorised_mock authorised (pos 10000) refl refl refl
      refl refl refl refl
