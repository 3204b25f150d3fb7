-- ===== src/Stripe/Run.antt =====
-- Any sequence of requests on payments to the mock, each with its own draws and clock readings.
use hamr.Base.{ℕ, String, Option, none, some, List, [], ◌∷◌}
use hamr.Base.Assoc.{Assoc}
use hamr.Stripe.Form.{FormFields}
use hamr.Stripe.Objects.{StripeAccount, StripeV2Account}
use hamr.Stripe.State.{StripeMock, Env, WebhookFire, Problem, Reply, ok, refused, Answer}
use hamr.Stripe.PaymentIntent.Start.{create_payment_intent, confirm_payment_intent}
use hamr.Stripe.PaymentIntent.Finish.{capture_payment_intent, complete_payment_intent}
use hamr.Stripe.Refund.{create_refund}
use hamr.Stripe.Transfer.{create_transfer, create_transfer_reversal}
use hamr.Stripe.Payout.{create_payout, complete_payout, payout_account_balance}
use hamr.Stripe.Dispute.{open_dispute, close_dispute}

-- The requests on payments. `change_accounts` stands for all that the account handlers may do. The
-- settings of balances, subscriptions and prices have their own parts.
pub data Request : Type 0 where
  create_intent : String → FormFields → Request
  confirm_intent : FormFields → String → Request
  capture_intent : FormFields → String → Request
  complete_intent : String → String → Request
  refund : FormFields → Request
  transfer : FormFields → Request
  reverse : FormFields → String → Request
  payout : String → FormFields → Request
  settle_payout : String → String → Request
  pay_out_balance : String → Request
  dispute : String → Request
  settle_dispute : String → String → Request
  change_accounts : Assoc StripeAccount → Assoc StripeV2Account → Request

abbrev pub Handled : Type 0
Handled = Option (ℕ × Problem) × StripeMock × List WebhookFire

abbrev pub refusal : {A : Type 0} → Reply A → Option (ℕ × Problem)
refusal (ok _) = none
refusal (refused status problem) = some (status, problem)

abbrev pub handled : {A : Type 0} → Answer A → Handled
handled r = (refusal r.0, r.1, r.2)

-- What a request answers when it is refused, the state that it leaves, and the events queued.
unfoldable pub handle : Env → Request → StripeMock → Handled
handle env (create_intent header p) m = handled (create_payment_intent env header p m)
handle env (confirm_intent p id) m = handled (confirm_payment_intent p id m)
handle env (capture_intent p id) m = handled (capture_payment_intent env p id m)
handle env (complete_intent id outcome) m = handled (complete_payment_intent env id outcome m)
handle env (refund p) m = handled (create_refund env p m)
handle env (transfer p) m = handled (create_transfer env p m)
handle env (reverse p id) m = handled (create_transfer_reversal env p id m)
handle env (payout header p) m = handled (create_payout env header p m)
handle env (settle_payout id outcome) m = handled (complete_payout env id outcome m)
handle env (pay_out_balance acct) m = handled (payout_account_balance env acct m)
handle env (dispute pi_id) m = handled (open_dispute env pi_id m)
handle env (settle_dispute id outcome) m = handled (close_dispute env id outcome m)
handle env (change_accounts v1 v2) m = (none, record m { accounts = v1; v2_accounts = v2 }, [])

-- The state that one request leaves.
unfoldable pub perform : Env → Request → StripeMock → StripeMock
unfolding handle
perform env r m = (handle env r m).1

unfoldable pub run : List (Env × Request) → StripeMock → StripeMock
run [] m = m
run ((env, r) ∷ rest) m = run rest (perform env r m)
