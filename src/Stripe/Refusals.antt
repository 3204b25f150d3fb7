-- ===== src/Stripe/Refusals.antt =====
-- What a refused request to create, confirm, capture or complete leaves behind; the settings of balances
-- (Stripe/BalanceSettings) and the prices (Billing/Price) are not among these requests.
use hamr.Base.{ℕ, String, [], ◌≡◌, some, arith}
use hamr.Stripe.Form.{FormFields}
use hamr.Stripe.State.{StripeMock, Env, Problem, Reply, ok, refused}
use hamr.Stripe.PaymentIntent.Start.{create_payment_intent, confirm_payment_intent}
use hamr.Stripe.PaymentIntent.Finish.{capture_payment_intent, complete_payment_intent, finish}
use hamr.Stripe.Refund.{create_refund, apply_refund}
use hamr.Stripe.Transfer.{create_transfer, send_transfer, create_transfer_reversal, reverse_locked}
use hamr.Stripe.Payout.{create_payout, complete_payout, payout_account_balance}
use hamr.Stripe.Dispute.{open_dispute, close_dispute}
use hamr.Stripe.Run.{
  Request, create_intent, confirm_intent, capture_intent, complete_intent, refund, transfer,
  reverse, payout, settle_payout, pay_out_balance, dispute, settle_dispute, change_accounts, handle,
  refusal,
}

module _ (env : Env) (m : StripeMock) (status : ℕ) (problem : Problem) where
  create_payment_intent-refused :
      (header : String) (p : FormFields)
      → (create_payment_intent env header p m).0 ≡ refused status problem
      → ((create_payment_intent env header p m).1 ≡ m)
        × ((create_payment_intent env header p m).2 ≡ [])
  unfolding create_payment_intent
  create_payment_intent-refused header p e = ground (arith, e)

  confirm_payment_intent-refused :
      (p : FormFields) (key : String)
      → (confirm_payment_intent p key m).0 ≡ refused status problem
      → ((confirm_payment_intent p key m).1 ≡ m) × ((confirm_payment_intent p key m).2 ≡ [])
  unfolding confirm_payment_intent
  confirm_payment_intent-refused p key e = ground (arith, e)

  capture_payment_intent-refused :
      (p : FormFields) (key : String)
      → (capture_payment_intent env p key m).0 ≡ refused status problem
      → ((capture_payment_intent env p key m).1 ≡ m) × ((capture_payment_intent env p key m).2 ≡ [])
  unfolding capture_payment_intent
  capture_payment_intent-refused p key e = ground (arith, e)

  complete_payment_intent-refused :
      (key : String) (outcome : String)
      → (complete_payment_intent env key outcome m).0 ≡ refused status problem
      → ((complete_payment_intent env key outcome m).1 ≡ m)
        × ((complete_payment_intent env key outcome m).2 ≡ [])
  unfolding complete_payment_intent finish
  complete_payment_intent-refused key outcome e = ground (arith, e)

  create_refund-refused :
      (p : FormFields)
      → (create_refund env p m).0 ≡ refused status problem
      → ((create_refund env p m).1 ≡ m) × ((create_refund env p m).2 ≡ [])
  unfolding create_refund apply_refund
  create_refund-refused p e = ground (arith, e)

  create_transfer-refused :
      (p : FormFields)
      → (create_transfer env p m).0 ≡ refused status problem
      → ((create_transfer env p m).1 ≡ m) × ((create_transfer env p m).2 ≡ [])
  unfolding create_transfer send_transfer
  create_transfer-refused p e = ground (arith, e)

  create_transfer_reversal-refused :
      (p : FormFields) (key : String)
      → (create_transfer_reversal env p key m).0 ≡ refused status problem
      → ((create_transfer_reversal env p key m).1 ≡ m)
        × ((create_transfer_reversal env p key m).2 ≡ [])
  unfolding create_transfer_reversal reverse_locked
  create_transfer_reversal-refused p key e = ground (arith, e)

  create_payout-refused :
      (header : String) (p : FormFields)
      → (create_payout env header p m).0 ≡ refused status problem
      → ((create_payout env header p m).1 ≡ m) × ((create_payout env header p m).2 ≡ [])
  unfolding create_payout
  create_payout-refused header p e = ground (arith, e)

  complete_payout-refused :
      (key : String) (outcome : String)
      → (complete_payout env key outcome m).0 ≡ refused status problem
      → ((complete_payout env key outcome m).1 ≡ m) × ((complete_payout env key outcome m).2 ≡ [])
  unfolding complete_payout
  complete_payout-refused key outcome e = ground (arith, e)

  payout_account_balance-refused :
      (acct : String)
      → (payout_account_balance env acct m).0 ≡ refused status problem
      → ((payout_account_balance env acct m).1 ≡ m) × ((payout_account_balance env acct m).2 ≡ [])
  unfolding payout_account_balance
  payout_account_balance-refused acct e = ground (arith, e)

  open_dispute-refused :
      (key : String)
      → (open_dispute env key m).0 ≡ refused status problem
      → ((open_dispute env key m).1 ≡ m) × ((open_dispute env key m).2 ≡ [])
  unfolding open_dispute
  open_dispute-refused key e = ground (arith, e)

  close_dispute-refused :
      (key : String) (outcome : String)
      → (close_dispute env key outcome m).0 ≡ refused status problem
      → ((close_dispute env key outcome m).1 ≡ m) × ((close_dispute env key outcome m).2 ≡ [])
  unfolding close_dispute
  close_dispute-refused key outcome e = ground (arith, e)

refused_of :
    {A : Type 0} (r : Reply A) (status : ℕ) (problem : Problem)
    → refusal r ≡ some (status, problem)
    → r ≡ refused status problem
refused_of (ok _) status problem e = absurd (ground arith)
refused_of (refused s p) status problem e = ground arith

-- A refused request, with whatever status and problem, leaves the state as it was and queues no event,
-- when it is one of these: to create, confirm or capture an intent, or to complete one on the dashboard;
-- to create a refund, a transfer, a reversal or a payout, to complete a payout, to pay out a balance, or
-- to open or close a dispute.
pub handle-refused :
    (env : Env) (r : Request) (m : StripeMock) (status : ℕ) (problem : Problem)
    → (handle env r m).0 ≡ some (status, problem)
    → ((handle env r m).1 ≡ m) × ((handle env r m).2 ≡ [])
unfolding handle
handle-refused env (create_intent header p) m status problem e =
    create_payment_intent-refused env m status problem header p (refused_of _ status problem e)
handle-refused env (confirm_intent p key) m status problem e =
    confirm_payment_intent-refused env m status problem p key (refused_of _ status problem e)
handle-refused env (capture_intent p key) m status problem e =
    capture_payment_intent-refused env m status problem p key (refused_of _ status problem e)
handle-refused env (complete_intent key outcome) m status problem e =
    complete_payment_intent-refused env m status problem key outcome (refused_of _ status problem e)
handle-refused env (refund p) m status problem e =
    create_refund-refused env m status problem p (refused_of _ status problem e)
handle-refused env (transfer p) m status problem e =
    create_transfer-refused env m status problem p (refused_of _ status problem e)
handle-refused env (reverse p key) m status problem e =
    create_transfer_reversal-refused env m status problem p key (refused_of _ status problem e)
handle-refused env (payout header p) m status problem e =
    create_payout-refused env m status problem header p (refused_of _ status problem e)
handle-refused env (settle_payout key outcome) m status problem e =
    complete_payout-refused env m status problem key outcome (refused_of _ status problem e)
handle-refused env (pay_out_balance acct) m status problem e =
    payout_account_balance-refused env m status problem acct (refused_of _ status problem e)
handle-refused env (dispute key) m status problem e =
    open_dispute-refused env m status problem key (refused_of _ status problem e)
handle-refused env (settle_dispute key outcome) m status problem e =
    close_dispute-refused env m status problem key outcome (refused_of _ status problem e)
handle-refused env (change_accounts v1 v2) m status problem e = absurd (ground arith)
