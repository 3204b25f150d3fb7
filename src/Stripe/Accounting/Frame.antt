-- ===== src/Stripe/Accounting/Frame.antt =====
-- Operations that refund nothing leave the books as they are.
use hamr.Base.{
  ℕ, String, Bool, true, false, not, ◌≡◌, refl, some, arith, inl, inr, ◌==◌, eq_iff, Bool-cases,
  if◌then◌else◌,
}
use hamr.Base.Int.{ℤ, pos, leb_ℤ}
use hamr.Base.Int64.{sub64}
use hamr.Base.Assoc.{lookup, insert, lookup-insert}
use hamr.Stripe.Form.{FormFields}
use hamr.Stripe.Objects.{StripePaymentIntent, StripeCharge}
use hamr.Stripe.State.{StripeMock, Env, Reply, ok, refused, charge_key, transfer_key, dispute_key}
use hamr.Stripe.Keeps.{Leaves-if, Leaves-option}
use hamr.Stripe.PaymentIntent.Start.{create_payment_intent, confirm_payment_intent}
use hamr.Stripe.PaymentIntent.Finish.{
  capture_payment_intent, complete_payment_intent, cascade, new_charge, captured, capture_amount,
  finish, is_capturable, is_terminal, pi_outcome, succeed, fail, PiOutcome, succeeded_intent,
  captured_intent, capture_transfer_amount, complete_transfer_amount,
}
use hamr.Stripe.Transfer.{create_transfer, send_transfer, create_transfer_reversal, reverse_locked}
use hamr.Stripe.Payout.{create_payout, complete_payout, payout_account_balance}
use hamr.Stripe.Dispute.{open_dispute, close_dispute, is_succeeded}
use hamr.Stripe.Accounting.{refunded_on, IsBooked, IsFresh}

-- A charge put under its own id, with what is on record for that id as its refunded amount.
put_charge-IsBooked :
    (m m' : StripeMock) (key : String) (ch : StripeCharge)
    → IsBooked m
    → m'.refunds ≡ m.refunds
    → m'.charges ≡ insert key ch m.charges
    → ch.id ≡ key
    → ch.amount_refunded ≡ refunded_on m key
    → IsBooked m'
put_charge-IsBooked m m' key ch h same_refunds e named same = record {
  agrees = λ k.
      rw (same_refunds, e, h.agrees k, lookup-insert key k ch m.charges)
        (elim (Bool-cases (key == k)) [
          | inl y ↦ let k_is = (eq_iff key k).0 y in rw (y, same, k_is) refl
          | inr n ↦ rw n
        ]);
  keyed = λ k c found.
      let found' : (if key == k then some ch else lookup k m.charges) ≡ some c =
        rw (e, lookup-insert key k ch m.charges) at found in
      ground (arith, eq_iff key k, h.keyed k c);
}

abbrev pub SameCharges : StripeMock → StripeMock → Type 0
SameCharges m m' = (m'.refunds ≡ m.refunds) × (m'.charges ≡ m.charges)

pub SameCharges-IsBooked : (m m' : StripeMock) → IsBooked m → SameCharges m m' → IsBooked m'
SameCharges-IsBooked m m' h (same_refunds, same) = record {
  agrees = λ k. rw (same_refunds, same) (h.agrees k);
  keyed = λ k c found. h.keyed k c (rw same at found);
}

pub create_payment_intent-frame :
    (env : Env) (header : String) (p : FormFields) (m : StripeMock)
    → SameCharges m (create_payment_intent env header p m).1
unfolding create_payment_intent
create_payment_intent-frame env header p m = ground arith

pub confirm_payment_intent-frame :
    (p : FormFields) (id : String) (m : StripeMock)
    → SameCharges m (confirm_payment_intent p id m).1
unfolding confirm_payment_intent
confirm_payment_intent-frame p id m = ground arith

pub create_transfer-frame :
    (env : Env) (p : FormFields) (m : StripeMock) → SameCharges m (create_transfer env p m).1
unfolding create_transfer send_transfer
create_transfer-frame env p m = ground arith

pub create_transfer_reversal-frame :
    (env : Env) (p : FormFields) (id : String) (m : StripeMock)
    → SameCharges m (create_transfer_reversal env p id m).1
unfolding create_transfer_reversal reverse_locked
create_transfer_reversal-frame env p id m = ground arith

pub create_payout-frame :
    (env : Env) (header : String) (p : FormFields) (m : StripeMock)
    → SameCharges m (create_payout env header p m).1
unfolding create_payout
create_payout-frame env header p m = ground arith

pub complete_payout-frame :
    (env : Env) (id outcome : String) (m : StripeMock)
    → SameCharges m (complete_payout env id outcome m).1
unfolding complete_payout
complete_payout-frame env id outcome m = ground arith

pub payout_account_balance-frame :
    (env : Env) (acct : String) (m : StripeMock)
    → SameCharges m (payout_account_balance env acct m).1
unfolding payout_account_balance
payout_account_balance-frame env acct m = ground arith

pub close_dispute-frame :
    (env : Env) (id outcome : String) (m : StripeMock)
    → SameCharges m (close_dispute env id outcome m).1
unfolding close_dispute
close_dispute-frame env id outcome m = ground arith

module _ (env : Env) (m : StripeMock) (h : IsBooked m) (fresh : IsFresh env m) where
  cascade-IsBooked :
      (early : Bool) (now : ℕ) (amount charged : ℤ) (key : String) (pi : StripePaymentIntent)
      (of : StripePaymentIntent)
      → IsBooked (cascade env early now amount key pi (new_charge env charged of) m).1
  unfolding new_charge
  cascade-IsBooked early now amount charged key pi of =
      elim (Bool-cases (pi.transfer_data_destination == "")) [
        | inl plain ↦ rw plain (
            put_charge-IsBooked m _ (charge_key env 0) (new_charge env charged of) h refl refl refl
              (rw fresh.charge_new))
        | inr moved ↦ rw moved (
            put_charge-IsBooked m _ (charge_key env 0)
              (record (new_charge env charged of) { transfer_id = transfer_key env 1 }) h refl refl
              refl (rw fresh.charge_new))
      ]

  captured-IsBooked :
      (id : String) (pi : StripePaymentIntent) (r : Reply ℤ) → IsBooked (captured env id m pi r).1
  captured-IsBooked id pi (refused status p) = h
  captured-IsBooked id pi (ok amount) =
      cascade-IsBooked true (env.now 0) (capture_transfer_amount amount pi) amount id
        (captured_intent env amount pi) pi

  pub capture_payment_intent-IsBooked :
      (p : FormFields) (id : String) → IsBooked (capture_payment_intent env p id m).1
  unfolding capture_payment_intent
  capture_payment_intent-IsBooked p id =
      Leaves-option IsBooked (lookup id m.payment_intents) _ _ h λ pi e.
        Leaves-if IsBooked (not (is_capturable pi.status)) _ _ (λ _. h)
          λ _. captured-IsBooked id pi (capture_amount p pi)

  finish-IsBooked :
      (outcome : PiOutcome) (id : String) (pi : StripePaymentIntent)
      → IsBooked (finish env outcome id pi m).1
  unfolding finish
  finish-IsBooked succeed id pi =
      cascade-IsBooked false (env.now 1) (complete_transfer_amount pi) pi.amount id
        (succeeded_intent env pi) (succeeded_intent env pi)
  finish-IsBooked fail id pi = SameCharges-IsBooked m _ h (refl, refl)

  pub complete_payment_intent-IsBooked :
      (id outcome : String) → IsBooked (complete_payment_intent env id outcome m).1
  unfolding complete_payment_intent
  complete_payment_intent-IsBooked id outcome =
      Leaves-if IsBooked (env.trim_space id == "") _ _ (λ _. h)
        λ _. Leaves-option IsBooked (pi_outcome (env.trim_space outcome)) _ _ h λ o _.
          Leaves-option IsBooked (lookup (env.trim_space id) m.payment_intents) _ _ h λ pi e.
            Leaves-if IsBooked (is_terminal pi.status) _ _ (λ _. h)
              λ _. finish-IsBooked o (env.trim_space id) pi

  pub open_dispute-IsBooked : (pi_id : String) → IsBooked (open_dispute env pi_id m).1
  unfolding open_dispute
  open_dispute-IsBooked pi_id =
      Leaves-option IsBooked (lookup pi_id m.payment_intents) _ _ h λ pi _.
        Leaves-option IsBooked (lookup pi.latest_charge_id m.charges) _ _ h λ ch found.
          Leaves-if IsBooked (not (is_succeeded pi.status)) _ _ (λ _. h)
            λ _.
              Leaves-if IsBooked (not (ch.dispute_id == "")) _ _ (λ _. h)
                λ _.
                  Leaves-if IsBooked (leb_ℤ (sub64 ch.amount_captured ch.amount_refunded) (pos 0)) _
                    _ (λ _. h)
                    λ some_left.
                      put_charge-IsBooked m _ pi.latest_charge_id
                        (record ch { dispute_id = dispute_key env 0 }) h refl refl
                        (h.keyed pi.latest_charge_id ch found) (rw found)
