-- ===== src/Stripe/Status.antt =====
-- The statuses of a payment intent and the transitions between them (`Status` of stripePaymentIntent in
-- internal/devserver/stripemock_paymentintent.go), and the code's tests on them.
use hamr.Base.{String, true, false, ◌≡◌, ◌≢◌, ◌⊎◌, refl, inl, inr, arith}
use hamr.Stripe.Objects.{PiStatus}
use hamr.Stripe.PaymentIntent.Start.{can_confirm}
use hamr.Stripe.PaymentIntent.Finish.{is_capturable, is_terminal}

-- Before the confirmation.
abbrev pub IsUnconfirmed : PiStatus → Type 0
IsUnconfirmed s = (s ≡ PiStatus.requires_payment_method) ⊎ (s ≡ PiStatus.requires_confirmation)

-- Before the end.
abbrev pub IsUnfinished : PiStatus → Type 0
IsUnfinished s = IsUnconfirmed s ⊎ ((s ≡ PiStatus.requires_capture) ⊎ (s ≡ PiStatus.processing))

-- The transitions of an intent, by its capture method: a confirmation waits for a capture when that is
-- to be asked for, and else for the payment; an authorised intent is captured; and the dashboard ends an
-- unfinished one in either of two ways.
pub data StatusStep (capture_method : String) : PiStatus → PiStatus → Type 0 where
  confirm_automatic :
      {s : PiStatus}
      → IsUnconfirmed s
      → capture_method ≢ "manual"
      → StatusStep capture_method s PiStatus.processing
  confirm_manual :
      {s : PiStatus}
      → IsUnconfirmed s
      → capture_method ≡ "manual"
      → StatusStep capture_method s PiStatus.requires_capture
  capture : StatusStep capture_method PiStatus.requires_capture PiStatus.succeeded
  complete : {s : PiStatus} → IsUnfinished s → StatusStep capture_method s PiStatus.succeeded
  decline :
      {s : PiStatus} → IsUnfinished s → StatusStep capture_method s PiStatus.requires_payment_method

pub unconfirmed : (s : PiStatus) → can_confirm s ≡ true → IsUnconfirmed s
unconfirmed PiStatus.requires_payment_method e = inl refl
unconfirmed PiStatus.requires_confirmation e = inr refl
unconfirmed PiStatus.requires_capture e = absurd (ground arith)
unconfirmed PiStatus.processing e = absurd (ground arith)
unconfirmed PiStatus.succeeded e = absurd (ground arith)
unconfirmed PiStatus.canceled e = absurd (ground arith)

pub unfinished : (s : PiStatus) → is_terminal s ≡ false → IsUnfinished s
unfinished PiStatus.requires_payment_method e = inl (inl refl)
unfinished PiStatus.requires_confirmation e = inl (inr refl)
unfinished PiStatus.requires_capture e = inr (inl refl)
unfinished PiStatus.processing e = inr (inr refl)
unfinished PiStatus.succeeded e = absurd (ground arith)
unfinished PiStatus.canceled e = absurd (ground arith)

pub capturable : (s : PiStatus) → is_capturable s ≡ true → s ≡ PiStatus.requires_capture
capturable PiStatus.requires_capture e = refl
capturable PiStatus.requires_payment_method e = absurd (ground arith)
capturable PiStatus.requires_confirmation e = absurd (ground arith)
capturable PiStatus.processing e = absurd (ground arith)
capturable PiStatus.succeeded e = absurd (ground arith)
capturable PiStatus.canceled e = absurd (ground arith)
