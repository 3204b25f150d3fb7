-- ===== src/Stripe/Events.antt =====
-- The events of a success, by capture and by the outcome button.
use hamr.Base.{
  String, Bool, true, false, List, [], ◌∷◌, ◌≡◌, refl, Option, none, some, arith, ◌==◌,
  if◌then◌else◌, Bool-cases, inl, inr,
}
use hamr.Base.Assoc.{lookup}
use hamr.Base.Int.{ℤ}
use hamr.Base.{ℕ}
use hamr.Stripe.Form.{FormFields}
use hamr.Stripe.Objects.{StripePaymentIntent, StripeCharge}
use hamr.Stripe.State.{StripeMock, Env, WebhookFire, EventObject, ok, transfer_key}
use hamr.Stripe.PaymentIntent.Finish.{
  new_charge, cascade, is_capturable, capture_amount, captured_intent, capture_transfer_amount,
  capture_payment_intent, succeed, pi_outcome, is_terminal, succeeded_intent,
  complete_transfer_amount, finish, complete_payment_intent,
}

abbrev pub types : List WebhookFire → List String
types [] = []
types (f ∷ fs) = f.event_type ∷ types fs

-- payment_intent.succeeded, charge.succeeded, and transfer.created for a destination charge.
abbrev pub success_types : String → List String
success_types destination =
    "payment_intent.succeeded"
    ∷ "charge.succeeded"
    ∷ (if destination == "" then [] else "transfer.created" ∷ [])

-- The transfer that the charge of the first charge event shows.
abbrev pub shown_transfer : List WebhookFire → Option String
shown_transfer [] = none
shown_transfer (f ∷ fs) = elim f.event_object [
  | EventObject.charge ch ↦ some ch.transfer_id
  | _ ↦ shown_transfer fs
]

cascade-types :
    (env : Env) (early : Bool) (now : ℕ) (amount : ℤ) (key : String) (pi : StripePaymentIntent)
    (ch : StripeCharge) (m : StripeMock)
    → types (cascade env early now amount key pi ch m).2
      ≡ success_types pi.transfer_data_destination
cascade-types env early now amount key pi ch m =
    elim (Bool-cases (pi.transfer_data_destination == "")) [
      | inl plain ↦ rw plain refl
      | inr sent ↦ rw sent refl
    ]

module _ (env : Env) (p : FormFields) (id outcome : String) (m : StripeMock)
    (pi : StripePaymentIntent) (amount : ℤ) (found : lookup id m.payment_intents ≡ some pi)
    (able : is_capturable pi.status ≡ true) (accepted : capture_amount p pi ≡ ok amount)
    (trimmed : env.trim_space id ≡ id) (named : (id == "") ≡ false)
    (chosen : pi_outcome (env.trim_space outcome) ≡ some succeed) where
  capture-cascade :
      capture_payment_intent env p id m
      ≡ cascade env true
          (env.now 0)
          (capture_transfer_amount amount pi)
          id
          (captured_intent env amount pi)
          (new_charge env amount pi)
          m
  unfolding capture_payment_intent
  capture-cascade = rw (found, able, accepted, capture_payment_intent) refl

  complete-cascade :
      complete_payment_intent env id outcome m
      ≡ cascade env false
          (env.now 1)
          (complete_transfer_amount pi)
          id
          (succeeded_intent env pi)
          (new_charge env pi.amount (succeeded_intent env pi))
          m
  unfolding complete_payment_intent finish
  complete-cascade =
      let going : is_terminal pi.status ≡ false = ground (arith, able) in
      let found' : lookup (env.trim_space id) m.payment_intents ≡ some pi = rw trimmed found in
      let named' : (env.trim_space id == "") ≡ false = rw trimmed named in
      rw (named', chosen, found', going, complete_payment_intent) (rw trimmed refl)

  -- A success queues its events in one order, by whichever way it comes: on an intent that can be
  -- captured, an accepted capture and the "succeed" button both queue payment_intent.succeeded,
  -- charge.succeeded and, for a destination charge, transfer.created.
  pub success-types :
      (types (capture_payment_intent env p id m).2 ≡ success_types pi.transfer_data_destination)
      × (types (complete_payment_intent env id outcome m).2
          ≡ success_types pi.transfer_data_destination)
  success-types = (
    rw capture-cascade (
        cascade-types env true (env.now 0) (capture_transfer_amount amount pi) id
          (captured_intent env amount pi) (new_charge env amount pi) m),
    rw complete-cascade (
        cascade-types env false (env.now 1) (complete_transfer_amount pi) id
          (succeeded_intent env pi) (new_charge env pi.amount (succeeded_intent env pi)) m),
  )

  -- The two ways differ in what the charge event of a destination charge shows: after the "succeed"
  -- button it shows the new transfer, and after a capture it shows none.
  pub success-transfer :
      (pi.transfer_data_destination == "") ≡ false
      → (shown_transfer (complete_payment_intent env id outcome m).2 ≡ some (transfer_key env 1))
        × (shown_transfer (capture_payment_intent env p id m).2 ≡ some "")
  unfolding new_charge
  success-transfer sent = (rw (complete-cascade, sent) refl, rw (capture-cascade, sent) refl)
