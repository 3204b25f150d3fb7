-- ===== src/Stripe/Accounting/Run.antt =====
-- The books along any sequence of requests, refunds included.
use hamr.Base.{
  String, not, List, [], ◌∷◌, ◌≡◌, refl, sym, some, arith, inl, inr, ◌==◌, ◌&&◌, eq_iff, Bool-cases,
  if◌then◌else◌,
}
use hamr.Base.Int.{ℤ, int_laws}
use hamr.Base.Assoc.{lookup, lookup-insert, sum_by-insert_new, lookup-AllValues}
use hamr.Stripe.Form.{FormFields, get_int64, get_string}
use hamr.Stripe.Objects.{StripeCharge}
use hamr.Stripe.State.{StripeMock, Env, ok, refund_key}
use hamr.Stripe.Keeps.{Leaves-if, Leaves-option}
use hamr.Stripe.Refund.{
  RefundInput, refundable, refund_charge, new_refund, refund_reversal, record_refund, apply_refund,
  create_refund, reversal_id,
}
use hamr.Stripe.Run.{
  Request, create_intent, confirm_intent, capture_intent, complete_intent, refund, transfer,
  reverse, payout, settle_payout, pay_out_balance, dispute, settle_dispute, change_accounts, handle,
  perform, run,
}
use hamr.Stripe.Valid.{ChargeOk, IsValid}
use hamr.Stripe.Valid.Objects.{refundable_bounds, refunded-refund_charge}
use hamr.Stripe.Valid.Refunds.{Applied, apply_refund-Applied}
use hamr.Stripe.Valid.Run.{answer_refund-state, perform-IsValid}
use hamr.Stripe.Accounting.{refund_on, IsBooked, IsFresh}
use hamr.Stripe.Accounting.Frame.{
  SameCharges-IsBooked, create_payment_intent-frame, confirm_payment_intent-frame,
  create_transfer-frame, create_transfer_reversal-frame, create_payout-frame, complete_payout-frame,
  payout_account_balance-frame, close_dispute-frame, capture_payment_intent-IsBooked,
  complete_payment_intent-IsBooked, open_dispute-IsBooked,
}

module _ (env : Env) (m : StripeMock) (v : IsValid m) (h : IsBooked m) (fresh : IsFresh env m) where
  record_refund-IsBooked :
      (inp : RefundInput) (key : String) (ch : StripeCharge) (amount : ℤ)
      → lookup key m.charges ≡ some ch
      → refundable ch inp.amount ≡ ok amount
      → IsBooked (record_refund env inp key ch amount m).1
  unfolding record_refund
  record_refund-IsBooked inp key ch amount found accepted =
      let old = lookup-AllValues ChargeOk key ch m.charges v.charges found in
      let (positive, fits) = refundable_bounds ch inp.amount amount old accepted in
      let ch' = refund_charge amount ch in
      let more = refunded-refund_charge ch amount old positive fits in
      let named = h.keyed key ch found in
      let rf = new_refund env inp amount ch' (reversal_id (refund_reversal env inp amount ch' m)) in
      record {
        agrees = λ k.
            rw
              (
                sum_by-insert_new (refund_on k) (refund_key env 0) rf m.refunds fresh.refund_new,
                h.agrees k,
                lookup-insert key k ch' m.charges,
                named,
              )
              (elim (Bool-cases (key == k)) [
                | inl y ↦ rw (y, ← (eq_iff key k).0 y, found) (sym more)
                | inr n ↦ rw n (omega int_laws)
              ]);
        keyed = λ k c e.
            let e' : (if key == k then some ch' else lookup k m.charges) ≡ some c =
              rw (lookup-insert key k ch' m.charges) at e in
            ground (arith, eq_iff key k, h.keyed k c, named);
      }

  apply_refund-IsBooked : (inp : RefundInput) → IsBooked (apply_refund env inp m).1
  apply_refund-IsBooked inp = elim (apply_refund-Applied env inp m) [
    | Applied.stopped status p e ↦ rw e h
    | Applied.recorded key ch amount found accepted e ↦
        rw e (record_refund-IsBooked inp key ch amount found accepted)
  ]

  create_refund-IsBooked : (p : FormFields) → IsBooked (create_refund env p m).1
  unfolding create_refund
  create_refund-IsBooked p =
      Leaves-if IsBooked (get_string p "payment_intent" == "" && get_string p "charge" == "") _ _
        (λ _. h)
        λ _.
          Leaves-if IsBooked
            (not (get_string p "payment_intent" == "") && not (get_string p "charge" == "")) _ _
            (λ _. h)
            λ _. Leaves-option IsBooked (get_int64 p "amount") _ _ h λ amount _.
              answer_refund-state IsBooked (apply_refund env _ m) (apply_refund-IsBooked _)

  perform-IsBooked : (r : Request) → IsBooked (perform env r m)
  unfolding perform handle
  perform-IsBooked (create_intent header p) =
      SameCharges-IsBooked m _ h (create_payment_intent-frame env header p m)
  perform-IsBooked (confirm_intent p id) =
      SameCharges-IsBooked m _ h (confirm_payment_intent-frame p id m)
  perform-IsBooked (capture_intent p id) = capture_payment_intent-IsBooked env m h fresh p id
  perform-IsBooked (complete_intent id outcome) =
      complete_payment_intent-IsBooked env m h fresh id outcome
  perform-IsBooked (refund p) = create_refund-IsBooked p
  perform-IsBooked (transfer p) = SameCharges-IsBooked m _ h (create_transfer-frame env p m)
  perform-IsBooked (reverse p id) =
      SameCharges-IsBooked m _ h (create_transfer_reversal-frame env p id m)
  perform-IsBooked (payout header p) =
      SameCharges-IsBooked m _ h (create_payout-frame env header p m)
  perform-IsBooked (settle_payout id outcome) =
      SameCharges-IsBooked m _ h (complete_payout-frame env id outcome m)
  perform-IsBooked (pay_out_balance acct) =
      SameCharges-IsBooked m _ h (payout_account_balance-frame env acct m)
  perform-IsBooked (dispute pi_id) = open_dispute-IsBooked env m h fresh pi_id
  perform-IsBooked (settle_dispute id outcome) =
      SameCharges-IsBooked m _ h (close_dispute-frame env id outcome m)
  perform-IsBooked (change_accounts v1 v2) = SameCharges-IsBooked m _ h (refl, refl)

-- Each request of the script draws new ids.
abbrev pub AllFresh : List (Env × Request) → StripeMock → Type 0
AllFresh [] m = Unit
AllFresh ((env, r) ∷ rest) m = IsFresh env m × AllFresh rest (perform env r m)

-- If each request draws new ids, then from a well-formed mock whose books agree they agree after any
-- sequence of requests: on every charge the refunded amount is the sum of the refunds made on it.
pub run-IsBooked :
    (script : List (Env × Request)) (m : StripeMock)
    → IsValid m
    → IsBooked m
    → AllFresh script m
    → IsBooked (run script m)
unfolding run
run-IsBooked [] m v h fresh = h
run-IsBooked ((env, r) ∷ rest) m v h fresh =
    run-IsBooked rest (perform env r m) (perform-IsValid env r m v)
      (perform-IsBooked env m v h fresh.0 r) fresh.1
