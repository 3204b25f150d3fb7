-- ===== src/Stripe/Accounting.antt =====
-- The refunds on record against the charges: what a charge says was refunded is the sum of the
-- refunds made on it.
pub mod Frame
pub mod Run
use hamr.Base.{String, ◌≡◌, ◌==◌, Option, none, some, if◌then◌else◌}
use hamr.Base.Int.{ℤ, pos}
use hamr.Base.Assoc.{lookup, sum_by}
use hamr.Stripe.Objects.{StripeCharge, StripeRefund}
use hamr.Stripe.State.{StripeMock, Env, charge_key, refund_key}

-- What one refund adds to the sum for charge `k`.
abbrev pub refund_on : String → StripeRefund → ℤ
refund_on k rf = if rf.charge_id == k then rf.amount else pos 0

abbrev pub refunded_of : Option StripeCharge → ℤ
refunded_of none = pos 0
refunded_of (some ch) = ch.amount_refunded

abbrev pub refunded_on : StripeMock → String → ℤ
refunded_on m k = refunded_of (lookup k m.charges)

-- The sum of the refunds on each charge is the refunded amount on it (and 0 where there is no such
-- charge), and each charge is stored under its own id.
pub record IsBooked (m : StripeMock) : Type 0 where
  pub agrees : (k : String) → sum_by (refund_on k) m.refunds ≡ refunded_on m k
  pub keyed : (k : String) (ch : StripeCharge) → lookup k m.charges ≡ some ch → ch.id ≡ k

-- The ids that the request draws for a charge and a refund are new.
pub record IsFresh (env : Env) (m : StripeMock) : Type 0 where
  pub charge_new : lookup (charge_key env 0) m.charges ≡ none
  pub refund_new : lookup (refund_key env 0) m.refunds ≡ none
