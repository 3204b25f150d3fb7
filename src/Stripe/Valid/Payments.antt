-- ===== src/Stripe/Valid/Payments.antt =====
-- The operations on payment intents keep the mock well formed.
use hamr.Base.{
  ℕ, String, Bool, true, false, not, ◌≡◌, refl, arith, inl, inr, ◌==◌, ◌&&◌, Bool-cases,
  Option-cases,
}
use hamr.Base.Int.{ℤ, pos, ◌-ℤ◌, ◌≤ℤ◌, leb_ℤ, int_laws, is_zero, max_ℤ, negsuc}
use hamr.Base.Int64.{IsInt64, IsInt64-le, sub64_nonneg}
use hamr.Base.Assoc.{lookup, insert, lookup-AllValues, insert-AllValues}
use hamr.Stripe.Form.{FormFields, get_int64, get_object, get_string}
use hamr.Stripe.Form.Range.{get_int64-IsInt64}
use hamr.Stripe.Objects.{StripePaymentIntent, StripeCharge, PiStatus}
use hamr.Stripe.State.{
  StripeMock, Env, Reply, ok, refused, charge_key, transfer_key, payment_intent_key, account_exists,
}
use hamr.Stripe.PaymentIntent.Start.{
  transfer_data, intent_of, build_payment_intent_from_params, stamp_intent, create_payment_intent,
  confirm_payment_intent, can_confirm, confirmed,
}
use hamr.Stripe.PaymentIntent.Finish.{
  new_charge, destination_transfer, cascade, capture_amount, captured_intent,
  capture_transfer_amount, capture_payment_intent, captured, is_capturable, PiOutcome, succeed,
  fail, finish, complete_payment_intent, complete_transfer_amount, succeeded_intent, is_terminal,
  pi_outcome,
}
use hamr.Stripe.Keeps.{Leaves-if, Leaves-option}
use hamr.Stripe.Valid.{PaymentIntentOk, ChargeOk, TransferOk, IsValid}

transfer_data_bounds :
    (p : FormFields) → (pos 0 ≤ℤ (transfer_data p).1) × IsInt64 (transfer_data p).1
unfolding transfer_data
transfer_data_bounds p = elim (Option-cases (get_object p "transfer_data")) [
  | inl e ↦ rw (e, transfer_data) (omega arith)
  | inr (td, e) ↦ elim (Option-cases (get_int64 td "amount")) [
    | inl f ↦ rw (e, transfer_data) (rw f (omega arith))
    | inr (v, f) ↦
        let r = get_int64-IsInt64 td "amount" v f in
        rw (e, transfer_data)
          (rw f (elim (Bool-cases (leb_ℤ (pos 0) v)) [
            | inl nonneg ↦ rw nonneg (ground arith)
            | inr neg ↦ rw neg (omega arith)
          ]))
  ]
]

-- What the validation accepts is well formed.
pub build-PaymentIntentOk :
    (env : Env) (p : FormFields) (pi : StripePaymentIntent)
    → build_payment_intent_from_params env p ≡ ok pi
    → PaymentIntentOk pi
unfolding build_payment_intent_from_params intent_of
build-PaymentIntentOk env p pi e = elim (Option-cases (get_int64 p "amount")) [
  | inl f ↦ absurd (ground arith)
  | inr (amount, f) ↦ elim (Option-cases (get_int64 p "application_fee_amount")) [
    | inl g ↦ absurd (ground arith)
    | inr (fee, g) ↦ ground (arith, get_int64-IsInt64 p "amount" amount f, transfer_data_bounds p)
  ]
]

module _ (env : Env) (amount : ℤ) (pi : StripePaymentIntent) (h : PaymentIntentOk pi) where
  new_charge-ChargeOk : pos 1 ≤ℤ amount → amount ≤ℤ pi.amount → ChargeOk (new_charge env amount pi)
  unfolding new_charge
  new_charge-ChargeOk p q = record {
    in_range = h.in_range;
    captured_fits = q;
    captured_positive = p;
    refunded_nonneg = omega arith;
    refunded_fits = omega arith;
    flag = ground arith;
  }

destination_transfer-TransferOk :
    (env : Env) (now : ℕ) (amount : ℤ) (pi : StripePaymentIntent)
    → pos 0 ≤ℤ amount
    → IsInt64 amount
    → TransferOk (destination_transfer env now amount pi)
unfolding destination_transfer
destination_transfer-TransferOk env now amount pi p r = record {
  in_range = r;
  reversed_nonneg = omega arith;
  reversed_fits = p;
  reversed_sum = refl;
  reversals_positive = tt;
}

module _ (env : Env) (m : StripeMock) (h : IsValid m) where
  -- The success of an intent, whose charge and transfer amount are well formed.
  cascade-IsValid :
      (early : Bool) (now : ℕ) (amount : ℤ) (key : String) (pi : StripePaymentIntent)
      (ch : StripeCharge)
      → PaymentIntentOk pi
      → ChargeOk ch
      → pos 0 ≤ℤ amount
      → IsInt64 amount
      → IsValid (cascade env early now amount key pi ch m).1
  cascade-IsValid early now amount key pi ch hp hc p r =
      elim (Bool-cases (pi.transfer_data_destination == "")) [
        | inl plain ↦ rw plain (record {
          payment_intents =
              insert-AllValues PaymentIntentOk key pi m.payment_intents h.payment_intents hp;
          charges = insert-AllValues ChargeOk (charge_key env 0) ch m.charges h.charges hc;
          transfers = h.transfers;
          refunds = h.refunds;
          payouts = h.payouts;
          disputes = h.disputes;
        })
        | inr moved ↦ rw moved (record {
          payment_intents =
              insert-AllValues PaymentIntentOk key (record pi { transfer_id = transfer_key env 1 })
                m.payment_intents h.payment_intents (ground arith);
          charges =
              insert-AllValues ChargeOk (charge_key env 0)
                (record ch { transfer_id = transfer_key env 1 }) m.charges h.charges (ground arith);
          transfers =
              insert-AllValues TransferOk (transfer_key env 1)
                (destination_transfer env now amount pi) m.transfers h.transfers
                (destination_transfer-TransferOk env now amount pi p r);
          refunds = h.refunds;
          payouts = h.payouts;
          disputes = h.disputes;
        })
      ]

  put_intent-IsValid :
      (key : String) (pi : StripePaymentIntent)
      → PaymentIntentOk pi
      → IsValid (record m { payment_intents = insert key pi m.payment_intents })
  put_intent-IsValid key pi hp = record {
    payment_intents =
        insert-AllValues PaymentIntentOk key pi m.payment_intents h.payment_intents hp;
    charges = h.charges;
    transfers = h.transfers;
    refunds = h.refunds;
    payouts = h.payouts;
    disputes = h.disputes;
  }

capture_amount_bounds :
    (p : FormFields) (pi : StripePaymentIntent) (amount : ℤ)
    → PaymentIntentOk pi
    → capture_amount p pi ≡ ok amount
    → (pos 1 ≤ℤ amount) × (amount ≤ℤ pi.amount)
unfolding capture_amount
capture_amount_bounds p pi amount h e = elim (Option-cases (get_int64 p "amount_to_capture")) [
  | inl f ↦ ground (arith, f)
  | inr (v, f) ↦ ground (arith, f)
]

max_bounds : (a b : ℤ) → a ≤ℤ b → IsInt64 b → (pos 0 ≤ℤ max_ℤ a (pos 0)) × IsInt64 (max_ℤ a (pos 0))
max_bounds (pos m) (pos n) h r = ground arith
max_bounds (pos m) (negsuc n) h r = ground arith
max_bounds (negsuc m) b h r = ground arith

capture_transfer_bounds :
    (amount : ℤ) (pi : StripePaymentIntent)
    → PaymentIntentOk pi
    → pos 1 ≤ℤ amount
    → amount ≤ℤ pi.amount
    → (pos 0 ≤ℤ capture_transfer_amount amount pi) × IsInt64 (capture_transfer_amount amount pi)
capture_transfer_bounds amount pi h p q =
    let small : IsInt64 amount = IsInt64-le amount pi.amount (omega arith) q h.in_range in
    let e =
      sub64_nonneg amount pi.application_fee_amount (omega arith) h.fee_nonneg small
        (IsInt64-le pi.application_fee_amount pi.amount h.fee_nonneg h.fee_covered h.in_range) in
    elim (Bool-cases (is_zero pi.transfer_data_amount)) [
      | inl z ↦
          rw (z, e) (max_bounds (amount -ℤ pi.application_fee_amount) amount (omega int_laws) small)
      | inr given ↦ rw given (h.transfer_nonneg, h.transfer_in_range)
    ]

complete_transfer_bounds :
    (pi : StripePaymentIntent)
    → PaymentIntentOk pi
    → (pos 0 ≤ℤ complete_transfer_amount pi) × IsInt64 (complete_transfer_amount pi)
complete_transfer_bounds pi h =
    let e =
      sub64_nonneg pi.amount pi.application_fee_amount (omega arith) h.fee_nonneg h.in_range
        (IsInt64-le pi.application_fee_amount pi.amount h.fee_nonneg h.fee_covered h.in_range) in
    elim (Bool-cases (is_zero pi.transfer_data_amount)) [
      | inl z ↦
          rw (z, e)
            ((
              omega int_laws,
              IsInt64-le (pi.amount -ℤ pi.application_fee_amount) pi.amount (omega int_laws)
                  (omega int_laws) h.in_range,
            ))
      | inr given ↦ rw given (h.transfer_nonneg, h.transfer_in_range)
    ]

module _ (env : Env) (m : StripeMock) (h : IsValid m) where
  pub create_payment_intent-IsValid :
      (header : String) (p : FormFields) → IsValid (create_payment_intent env header p m).1
  unfolding create_payment_intent
  create_payment_intent-IsValid header p = at_built (build_payment_intent_from_params env p) refl
    where
      at_built :
          (r : Reply StripePaymentIntent)
          → build_payment_intent_from_params env p ≡ r
          → IsValid (create_payment_intent env header p m).1
      at_built (refused status problem) e = rw (e, create_payment_intent) h
      at_built (ok built) e =
          let hp : PaymentIntentOk (stamp_intent env header built) =
            let o = build-PaymentIntentOk env p built e in ground arith in
          rw (e, create_payment_intent)
            (elim (Bool-cases (
              not (built.transfer_data_destination == "")
              && not (account_exists m built.transfer_data_destination))) [
                | inl bad ↦ rw bad h
                | inr good ↦ rw good (
                    put_intent-IsValid env m h (payment_intent_key env 0)
                      (stamp_intent env header built) hp)
              ])

  pub confirm_payment_intent-IsValid :
      (p : FormFields) (id : String) → IsValid (confirm_payment_intent p id m).1
  unfolding confirm_payment_intent
  confirm_payment_intent-IsValid p id =
      Leaves-option IsValid (lookup id m.payment_intents) _ _ h λ pi e.
        Leaves-if IsValid (not (can_confirm pi.status)) _ _ (λ _. h)
          λ _. put_intent-IsValid env m h id (confirmed (get_string p "payment_method") pi) (
            let o = lookup-AllValues PaymentIntentOk id pi m.payment_intents h.payment_intents e in
            ground arith)

  capture-IsValid :
      (id : String) (pi : StripePaymentIntent) (p : FormFields) (r : Reply ℤ)
      → PaymentIntentOk pi
      → capture_amount p pi ≡ r
      → IsValid (captured env id m pi r).1
  capture-IsValid id pi p (refused status problem) o e = h
  capture-IsValid id pi p (ok amount) o e =
      let (low, high) = capture_amount_bounds p pi amount o e in
      let (nonneg, small) = capture_transfer_bounds amount pi o low high in
      cascade-IsValid env m h true (env.now 0) (capture_transfer_amount amount pi) id
        (captured_intent env amount pi) (new_charge env amount pi) (ground arith)
        (new_charge-ChargeOk env amount pi o low high) nonneg small

  pub capture_payment_intent-IsValid :
      (p : FormFields) (id : String) → IsValid (capture_payment_intent env p id m).1
  unfolding capture_payment_intent
  capture_payment_intent-IsValid p id =
      Leaves-option IsValid (lookup id m.payment_intents) _ _ h λ pi e.
        Leaves-if IsValid (not (is_capturable pi.status)) _ _ (λ _. h)
          λ _.
            capture-IsValid id pi p (capture_amount p pi)
              (lookup-AllValues PaymentIntentOk id pi m.payment_intents h.payment_intents e) refl

  finish-IsValid :
      (outcome : PiOutcome) (id : String) (pi : StripePaymentIntent)
      → PaymentIntentOk pi
      → IsValid (finish env outcome id pi m).1
  unfolding finish
  finish-IsValid succeed id pi o =
      let (nonneg, small) = complete_transfer_bounds pi o in
      let o' : PaymentIntentOk (succeeded_intent env pi) = ground arith in
      cascade-IsValid env m h false (env.now 1) (complete_transfer_amount pi) id
        (succeeded_intent env pi) (new_charge env pi.amount (succeeded_intent env pi)) o'
        (new_charge-ChargeOk env pi.amount (succeeded_intent env pi) o' o.positive (omega arith))
        nonneg small
  finish-IsValid fail id pi o =
      put_intent-IsValid env m h id
        (record pi { status = PiStatus.requires_payment_method; failed = true }) (ground arith)

  pub complete_payment_intent-IsValid :
      (id outcome : String) → IsValid (complete_payment_intent env id outcome m).1
  unfolding complete_payment_intent
  complete_payment_intent-IsValid id outcome =
      Leaves-if IsValid (env.trim_space id == "") _ _ (λ _. h)
        λ _. Leaves-option IsValid (pi_outcome (env.trim_space outcome)) _ _ h λ o _.
          Leaves-option IsValid (lookup (env.trim_space id) m.payment_intents) _ _ h λ pi e.
            Leaves-if IsValid (is_terminal pi.status) _ _ (λ _. h)
              λ _. finish-IsValid o (env.trim_space id) pi (
                lookup-AllValues PaymentIntentOk (env.trim_space id) pi m.payment_intents
                  h.payment_intents e)
