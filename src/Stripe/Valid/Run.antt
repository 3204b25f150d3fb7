-- ===== src/Stripe/Valid/Run.antt =====
-- The invariant of the stored objects along any sequence of requests.
use hamr.Base.{List, [], ◌∷◌, ◌==◌, ◌&&◌, not}
use hamr.Stripe.Form.{FormFields, get_int64, get_string}
use hamr.Stripe.State.{StripeMock, Env, Reply, ok, refused}
use hamr.Stripe.Keeps.{Leaves-if, Leaves-option}
use hamr.Stripe.Refund.{Refunded, create_refund, answer_refund, apply_refund}
use hamr.Stripe.Run.{
  Request, create_intent, confirm_intent, capture_intent, complete_intent, refund, transfer,
  reverse, payout, settle_payout, pay_out_balance, dispute, settle_dispute, change_accounts, handle,
  perform, run,
}
use hamr.Stripe.Valid.{IsValid}
use hamr.Stripe.Valid.Refunds.{apply_refund-IsValid}
use hamr.Stripe.Valid.Payments.{
  create_payment_intent-IsValid, confirm_payment_intent-IsValid, capture_payment_intent-IsValid,
  complete_payment_intent-IsValid,
}
use hamr.Stripe.Valid.Others.{
  create_transfer-IsValid, create_transfer_reversal-IsValid, create_payout-IsValid,
  complete_payout-IsValid, open_dispute-IsValid, close_dispute-IsValid,
  payout_account_balance-IsValid,
}

-- The handler answers with the state that `apply_refund` leaves.
pub answer_refund-state :
    (P : StripeMock → Type 0) (r : Reply Refunded × StripeMock) → P r.1 → P (answer_refund r).1
answer_refund-state P (refused status p, m) h = h
answer_refund-state P (ok done, m) h = h

create_refund-IsValid :
    (env : Env) (m : StripeMock) → IsValid m → (p : FormFields) → IsValid (create_refund env p m).1
unfolding create_refund
create_refund-IsValid env m h p =
    Leaves-if IsValid (get_string p "payment_intent" == "" && get_string p "charge" == "") _ _
      (λ _. h)
      λ _.
        Leaves-if IsValid
          (not (get_string p "payment_intent" == "") && not (get_string p "charge" == "")) _ _
          (λ _. h)
          λ _. Leaves-option IsValid (get_int64 p "amount") _ _ h λ amount _.
            answer_refund-state IsValid (apply_refund env _ m) (apply_refund-IsValid env _ m h)

pub perform-IsValid :
    (env : Env) (r : Request) (m : StripeMock) → IsValid m → IsValid (perform env r m)
unfolding perform handle
perform-IsValid env (create_intent header p) m h = create_payment_intent-IsValid env m h header p
perform-IsValid env (confirm_intent p id) m h = confirm_payment_intent-IsValid env m h p id
perform-IsValid env (capture_intent p id) m h = capture_payment_intent-IsValid env m h p id
perform-IsValid env (complete_intent id outcome) m h =
    complete_payment_intent-IsValid env m h id outcome
perform-IsValid env (refund p) m h = create_refund-IsValid env m h p
perform-IsValid env (transfer p) m h = create_transfer-IsValid env m h p
perform-IsValid env (reverse p id) m h = create_transfer_reversal-IsValid env m h p id
perform-IsValid env (payout header p) m h = create_payout-IsValid env m h header p
perform-IsValid env (settle_payout id outcome) m h = complete_payout-IsValid env m h id outcome
perform-IsValid env (pay_out_balance acct) m h = payout_account_balance-IsValid env m h acct
perform-IsValid env (dispute pi_id) m h = open_dispute-IsValid env m h pi_id
perform-IsValid env (settle_dispute id outcome) m h = close_dispute-IsValid env m h id outcome
perform-IsValid env (change_accounts v1 v2) m h = record {
  payment_intents = h.payment_intents;
  charges = h.charges;
  transfers = h.transfers;
  refunds = h.refunds;
  payouts = h.payouts;
  disputes = h.disputes;
}

-- Whatever the requests, whether they are accepted or refused, a mock whose objects are well formed
-- stays so: every charge has 0 ≤ refunded ≤ captured ≤ amount, something captured and its flag set
-- exactly when all is refunded; every transfer has 0 ≤ reversed ≤ amount, with the reversed amount
-- the sum of its reversals, each positive; every intent covers its fee; the amounts of refunds,
-- payouts and disputes are positive.
pub run-IsValid :
    (script : List (Env × Request)) (m : StripeMock) → IsValid m → IsValid (run script m)
unfolding run
run-IsValid [] m h = h
run-IsValid ((env, r) ∷ rest) m h = run-IsValid rest (perform env r m) (perform-IsValid env r m h)
