-- ===== src/Stripe/Lifecycle.antt =====
-- The life of a payment intent: the status transitions that requests make
-- (internal/devserver/stripemock_paymentintent.go, stripemock_paymentintent_page.go).
pub mod Run
use hamr.Base.{
  ℕ, String, Bool, true, false, not, List, [], ◌∷◌, ◌≡◌, ◌≢◌, refl, sym, Option, none, some, arith,
  ◌⊎◌, inl, inr, ◌==◌, ◌&&◌, eq_iff, Bool-cases, Option-cases, if◌then◌else◌,
}
use hamr.Base.Int.{ℤ}
use hamr.Base.Assoc.{Assoc, lookup, insert, lookup-insert, lookup-insert_ne}
use hamr.Stripe.Form.{FormFields, get_int64, get_string}
use hamr.Stripe.Objects.{StripePaymentIntent, PiStatus, StripeCharge}
use hamr.Stripe.Status.{StatusStep, unconfirmed, unfinished, capturable}
use hamr.Stripe.State.{
  StripeMock, Env, Reply, ok, refused, payment_intent_key, transfer_key, account_exists,
}
use hamr.Stripe.Keeps.{Leaves-if, Leaves-option, Leaves-reply}
use hamr.Stripe.PaymentIntent.Start.{
  build_payment_intent_from_params, stamp_intent, create_payment_intent, can_confirm, confirmed,
  confirm_payment_intent,
}
use hamr.Stripe.PaymentIntent.Finish.{
  is_capturable, captured, captured_intent, capture_amount, capture_transfer_amount,
  complete_transfer_amount, new_charge, capture_payment_intent, is_terminal, PiOutcome, succeed,
  fail, succeeded_intent, pi_outcome, finish, complete_payment_intent, cascade,
}
use hamr.Stripe.Refund.{RefundInput, record_refund, create_refund, apply_refund}
use hamr.Stripe.Valid.Refunds.{Applied, apply_refund-Applied}
use hamr.Stripe.Valid.Run.{answer_refund-state}
use hamr.Stripe.Transfer.{create_transfer, send_transfer, create_transfer_reversal, reverse_locked}
use hamr.Stripe.Payout.{create_payout, complete_payout, payout_account_balance}
use hamr.Stripe.Dispute.{open_dispute, close_dispute}
use hamr.Stripe.Run.{
  Request, create_intent, confirm_intent, capture_intent, complete_intent, refund, transfer,
  reverse, payout, settle_payout, pay_out_balance, dispute, settle_dispute, change_accounts,
  perform, run,
}

-- An intent stays as it is, or its status takes a step.
pub data PiStep (pi : StripePaymentIntent) : StripePaymentIntent → Type 0 where
  same : PiStep pi pi
  moved :
      {pi' : StripePaymentIntent}
      → StatusStep pi.capture_method pi.status pi'.status
      → PiStep pi pi'

-- What became of the intent that was stored under `id`.
abbrev pub StepsIn : String → StripePaymentIntent → Assoc StripePaymentIntent → Type 0
StepsIn id pi pis = (pi' : StripePaymentIntent) × (lookup id pis ≡ some pi') × PiStep pi pi'

abbrev pub Steps : String → StripePaymentIntent → StripeMock → Type 0
Steps id pi m = StepsIn id pi m.payment_intents

-- Writing a stepped intent under the key where it was found.
put-Steps :
    (id : String) (pi : StripePaymentIntent) (pis : Assoc StripePaymentIntent) (key : String)
    (old new : StripePaymentIntent)
    → lookup id pis ≡ some pi
    → lookup key pis ≡ some old
    → StatusStep old.capture_method old.status new.status
    → StepsIn id pi (insert key new pis)
put-Steps id pi pis key old new found there step = elim (Bool-cases (key == id)) [
  | inl y ↦
      let eid = (eq_iff key id).0 y in
      let eo : old ≡ pi = ground (arith, found, there, eid) in
      (new, rw (lookup-insert key id new pis, y) refl, PiStep.moved (rw (← eo) step))
  | inr n ↦ (pi, rw (lookup-insert key id new pis, n) found, PiStep.same)
]

confirmed-StatusStep :
    (pm : String) (old : StripePaymentIntent)
    → can_confirm old.status ≡ true
    → StatusStep old.capture_method old.status (confirmed pm old).status
unfolding confirmed
confirmed-StatusStep pm old h = elim (Bool-cases (old.capture_method == "manual")) [
  | inl y ↦ rw y (
      StatusStep.confirm_manual (unconfirmed old.status h)
        ((eq_iff old.capture_method "manual").0 y))
  | inr n ↦ rw n (
      StatusStep.confirm_automatic (unconfirmed old.status h)
        (λ e. ground (arith, eq_iff old.capture_method "manual")))
]

module _ (env : Env) (m : StripeMock) (id : String) (pi : StripePaymentIntent)
    (found : lookup id m.payment_intents ≡ some pi) where
  kept : Steps id pi m
  kept = (pi, found, PiStep.same)

  put :
      (key : String) (old new : StripePaymentIntent)
      → lookup key m.payment_intents ≡ some old
      → StatusStep old.capture_method old.status new.status
      → StepsIn id pi (insert key new m.payment_intents)
  put key old new there step = put-Steps id pi m.payment_intents key old new found there step

  put_new :
      (built : StripePaymentIntent) (header : String)
      → payment_intent_key env 0 ≢ id
      → StepsIn id pi
          (insert (payment_intent_key env 0) (stamp_intent env header built) m.payment_intents)
  put_new built header fresh = (
    pi,
    rw
        (lookup-insert_ne (payment_intent_key env 0) id (stamp_intent env header built)
          m.payment_intents fresh)
        found,
    PiStep.same,
  )

  pub create_payment_intent-Steps :
      (header : String) (p : FormFields)
      → payment_intent_key env 0 ≢ id
      → Steps id pi (create_payment_intent env header p m).1
  unfolding create_payment_intent
  create_payment_intent-Steps header p fresh =
      Leaves-reply (Steps id pi) (build_payment_intent_from_params env p) _ _ (λ _ _. kept)
        λ built _.
          Leaves-if (Steps id pi)
            (not ((stamp_intent env header built).transfer_data_destination == "")
              && not (account_exists m (stamp_intent env header built).transfer_data_destination))
            _ _ (λ _. kept) λ _. put_new built header fresh

  pub confirm_payment_intent-Steps :
      (p : FormFields) (key : String) → Steps id pi (confirm_payment_intent p key m).1
  unfolding confirm_payment_intent
  confirm_payment_intent-Steps p key =
      Leaves-option (Steps id pi) (lookup key m.payment_intents) _ _ (kept) λ old there.
        Leaves-if (Steps id pi) (not (can_confirm old.status)) _ _ (λ _. kept)
          λ able.
            put key old (confirmed (get_string p "payment_method") old) there
              (confirmed-StatusStep (get_string p "payment_method") old (ground arith))

  cascade-Steps :
      (early : Bool) (now : ℕ) (amount : ℤ) (key : String) (old new : StripePaymentIntent)
      (ch : StripeCharge)
      → lookup key m.payment_intents ≡ some old
      → StatusStep old.capture_method old.status new.status
      → Steps id pi (cascade env early now amount key new ch m).1
  cascade-Steps early now amount key old new ch there step =
      elim (Bool-cases (new.transfer_data_destination == "")) [
        | inl plain ↦ rw plain (put key old new there step)
        | inr sent ↦
            rw sent (put key old (record new { transfer_id = transfer_key env 1 }) there step)
      ]

  captured-Steps :
      (key : String) (old : StripePaymentIntent) (r : Reply ℤ)
      → lookup key m.payment_intents ≡ some old
      → is_capturable old.status ≡ true
      → Steps id pi (captured env key m old r).1
  captured-Steps key old (refused status p) there able = kept
  captured-Steps key old (ok amount) there able =
      cascade-Steps true (env.now 0) (capture_transfer_amount amount old) key old
        (captured_intent env amount old) (new_charge env amount old) there
        (rw (capturable old.status able) StatusStep.capture)

  pub capture_payment_intent-Steps :
      (p : FormFields) (key : String) → Steps id pi (capture_payment_intent env p key m).1
  unfolding capture_payment_intent
  capture_payment_intent-Steps p key =
      Leaves-option (Steps id pi) (lookup key m.payment_intents) _ _ kept λ old there.
        Leaves-if (Steps id pi) (not (is_capturable old.status)) _ _ (λ _. kept)
          λ able. captured-Steps key old (capture_amount p old) there (ground arith)

  finish-Steps :
      (o : PiOutcome) (key : String) (old : StripePaymentIntent)
      → lookup key m.payment_intents ≡ some old
      → is_terminal old.status ≡ false
      → Steps id pi (finish env o key old m).1
  unfolding finish
  finish-Steps succeed key old there open_yet =
      cascade-Steps false (env.now 1) (complete_transfer_amount old) key old
        (succeeded_intent env old) (new_charge env old.amount (succeeded_intent env old)) there
        (StatusStep.complete (unfinished old.status open_yet))
  finish-Steps fail key old there open_yet =
      put key old _ there (StatusStep.decline (unfinished old.status open_yet))

  pub complete_payment_intent-Steps :
      (key outcome : String) → Steps id pi (complete_payment_intent env key outcome m).1
  unfolding complete_payment_intent
  complete_payment_intent-Steps key outcome =
      Leaves-if (Steps id pi) (env.trim_space key == "") _ _ (λ _. kept)
        λ _. Leaves-option (Steps id pi) (pi_outcome (env.trim_space outcome)) _ _ kept λ o _.
          Leaves-option (Steps id pi) (lookup (env.trim_space key) m.payment_intents) _ _ kept
            λ old there.
              Leaves-if (Steps id pi) (is_terminal old.status) _ _ (λ _. kept)
                λ open_yet. finish-Steps o (env.trim_space key) old there open_yet

  -- The rest of the requests write no payment intent.
  apply_refund-intents :
      (inp : RefundInput) → (apply_refund env inp m).1.payment_intents ≡ m.payment_intents
  unfolding record_refund
  apply_refund-intents inp = elim (apply_refund-Applied env inp m) [
    | Applied.stopped status p e ↦ rw e refl
    | Applied.recorded key ch amount _ _ e ↦ rw e refl
  ]

  pub untouched : (pis : Assoc StripePaymentIntent) → pis ≡ m.payment_intents → StepsIn id pi pis
  untouched pis e = rw e kept

  pub create_refund-Steps : (p : FormFields) → Steps id pi (create_refund env p m).1
  unfolding create_refund
  create_refund-Steps p =
      Leaves-if (Steps id pi) (get_string p "payment_intent" == "" && get_string p "charge" == "") _
        _ (λ _. kept)
        λ _.
          Leaves-if (Steps id pi)
            (not (get_string p "payment_intent" == "") && not (get_string p "charge" == "")) _ _
            (λ _. kept)
            λ _. Leaves-option (Steps id pi) (get_int64 p "amount") _ _ kept λ amount _.
              answer_refund-state (Steps id pi) (apply_refund env _ m)
                (untouched _ (apply_refund-intents _))
