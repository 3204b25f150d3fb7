-- ===== src/Stripe/Lifecycle/Run.antt =====
-- The life of a payment intent along any sequence of requests.
use hamr.Base.{String, true, ◌≡◌, ◌≢◌, refl, some, arith}
use hamr.Base.Assoc.{lookup}
use hamr.Stripe.Form.{FormFields}
use hamr.Stripe.Objects.{StripePaymentIntent, PiStatus}
use hamr.Stripe.State.{StripeMock, Env, payment_intent_key}
use hamr.Stripe.PaymentIntent.Finish.{is_terminal}
use hamr.Stripe.Transfer.{create_transfer, send_transfer, create_transfer_reversal, reverse_locked}
use hamr.Stripe.Payout.{create_payout, complete_payout, payout_account_balance}
use hamr.Stripe.Dispute.{open_dispute, close_dispute}
use hamr.Stripe.Run.{
  Request, create_intent, confirm_intent, capture_intent, complete_intent, refund, transfer,
  reverse, payout, settle_payout, pay_out_balance, dispute, settle_dispute, change_accounts, handle,
  perform,
}
use hamr.Stripe.Status.{StatusStep}
use hamr.Stripe.Lifecycle.{
  PiStep, Steps, untouched, create_payment_intent-Steps, confirm_payment_intent-Steps,
  capture_payment_intent-Steps, complete_payment_intent-Steps, create_refund-Steps,
}

module _ (env : Env) (m : StripeMock) where
  create_transfer-intents :
      (p : FormFields) → (create_transfer env p m).1.payment_intents ≡ m.payment_intents
  unfolding create_transfer send_transfer
  create_transfer-intents p = ground arith

  create_transfer_reversal-intents :
      (p : FormFields) (key : String)
      → (create_transfer_reversal env p key m).1.payment_intents ≡ m.payment_intents
  unfolding create_transfer_reversal reverse_locked
  create_transfer_reversal-intents p key = ground arith

  create_payout-intents :
      (header : String) (p : FormFields)
      → (create_payout env header p m).1.payment_intents ≡ m.payment_intents
  unfolding create_payout
  create_payout-intents header p = ground arith

  complete_payout-intents :
      (key : String) (outcome : String)
      → (complete_payout env key outcome m).1.payment_intents ≡ m.payment_intents
  unfolding complete_payout
  complete_payout-intents key outcome = ground arith

  payout_account_balance-intents :
      (acct : String) → (payout_account_balance env acct m).1.payment_intents ≡ m.payment_intents
  unfolding payout_account_balance
  payout_account_balance-intents acct = ground arith

  open_dispute-intents :
      (key : String) → (open_dispute env key m).1.payment_intents ≡ m.payment_intents
  unfolding open_dispute
  open_dispute-intents key = ground arith

  close_dispute-intents :
      (key : String) (outcome : String)
      → (close_dispute env key outcome m).1.payment_intents ≡ m.payment_intents
  unfolding close_dispute
  close_dispute-intents key outcome = ground arith

pub perform-Steps :
    (env : Env) (r : Request) (m : StripeMock) (id : String) (pi : StripePaymentIntent)
    → lookup id m.payment_intents ≡ some pi
    → payment_intent_key env 0 ≢ id
    → Steps id pi (perform env r m)
unfolding perform handle
perform-Steps env (create_intent header p) m id pi found fresh =
    create_payment_intent-Steps env m id pi found header p fresh
perform-Steps env (confirm_intent p key) m id pi found fresh =
    confirm_payment_intent-Steps env m id pi found p key
perform-Steps env (capture_intent p key) m id pi found fresh =
    capture_payment_intent-Steps env m id pi found p key
perform-Steps env (complete_intent key outcome) m id pi found fresh =
    complete_payment_intent-Steps env m id pi found key outcome
perform-Steps env (refund p) m id pi found fresh = create_refund-Steps env m id pi found p
perform-Steps env (transfer p) m id pi found fresh =
    untouched env m id pi found _ (create_transfer-intents env m p)
perform-Steps env (reverse p key) m id pi found fresh =
    untouched env m id pi found _ (create_transfer_reversal-intents env m p key)
perform-Steps env (payout header p) m id pi found fresh =
    untouched env m id pi found _ (create_payout-intents env m header p)
perform-Steps env (settle_payout key outcome) m id pi found fresh =
    untouched env m id pi found _ (complete_payout-intents env m key outcome)
perform-Steps env (pay_out_balance acct) m id pi found fresh =
    untouched env m id pi found _ (payout_account_balance-intents env m acct)
perform-Steps env (dispute key) m id pi found fresh =
    untouched env m id pi found _ (open_dispute-intents env m key)
perform-Steps env (settle_dispute key outcome) m id pi found fresh =
    untouched env m id pi found _ (close_dispute-intents env m key outcome)
perform-Steps env (change_accounts v1 v2) m id pi found fresh = untouched env m id pi found _ refl

ended-StatusStep :
    (method : String) (s s' : PiStatus) → is_terminal s ≡ true → (StatusStep method s s' → ⊥)
ended-StatusStep method s _ ended (StatusStep.confirm_automatic h _) = ground arith
ended-StatusStep method s _ ended (StatusStep.confirm_manual h _) = ground arith
ended-StatusStep method s _ ended StatusStep.capture = ground arith
ended-StatusStep method s _ ended (StatusStep.complete h) = ground arith
ended-StatusStep method s _ ended (StatusStep.decline h) = ground arith

-- An intent at its end takes no step.
pub ended-PiStep :
    (pi pi' : StripePaymentIntent) → is_terminal pi.status ≡ true → PiStep pi pi' → pi' ≡ pi
ended-PiStep pi _ ended PiStep.same = refl
ended-PiStep pi pi' ended (PiStep.moved step) =
    absurd (ended-StatusStep pi.capture_method pi.status pi'.status ended step)
