-- ===== src/Stripe/Dispute.antt =====
-- Disputes (internal/devserver/stripemock_dispute.go).
use hamr.Base.{
  ℕ, ◌+◌, ◌*◌, String, Bool, true, false, not, Option, none, some, [], ◌∷◌, ◌==◌, if◌then◌else◌,
}
use hamr.Base.Int.{pos, leb_ℤ}
use hamr.Base.Int64.{sub64}
use hamr.Base.Assoc.{lookup, insert}
use hamr.Stripe.Objects.{PiStatus, StripePaymentIntent, StripeCharge, DisputeStatus, StripeDispute}
use hamr.Stripe.State.{StripeMock, Env, dispute_key, EventObject, Problem, ok, Answer, refuse, fire}
use hamr.Stripe.Ledger.{is_won}

abbrev pub is_succeeded : PiStatus → Bool
is_succeeded PiStatus.succeeded = true
is_succeeded _ = false

-- Seven days in seconds.
abbrev pub evidence_window : ℕ
evidence_window = 7 * 24 * 3600

-- A chargeback of what is not refunded.
unfoldable pub new_dispute : Env → StripePaymentIntent → StripeCharge → StripeDispute
new_dispute env pi ch = record {
  id = dispute_key env 0;
  charge_id = ch.id;
  payment_intent_id = pi.id;
  amount = sub64 ch.amount_captured ch.amount_refunded;
  currency = ch.currency;
  reason = "fraudulent";
  status = DisputeStatus.needs_response;
  evidence_due_by = env.now 0 + evidence_window;
  created = env.now 0;
  closed_at = 0;
}

unfoldable pub open_dispute : Env → String → StripeMock → Answer StripeDispute
unfolding new_dispute
open_dispute env pi_id m = elim (lookup pi_id m.payment_intents) [
  | none ↦ refuse m 404 Problem.no_such_payment_intent
  | some pi ↦ elim (lookup pi.latest_charge_id m.charges) [
    | none ↦ refuse m 400 Problem.no_charge
    | some ch ↦
        let dp = new_dispute env pi ch in
        let ch' = record ch { dispute_id = dispute_key env 0 } in
        let m' = record m {
          disputes = insert (dispute_key env 0) dp m.disputes;
          charges = insert pi.latest_charge_id ch' m.charges;
        } in
        if not (is_succeeded pi.status)
        then refuse m 400 Problem.no_charge
        else if not (ch.dispute_id == "")
        then refuse m 409 Problem.already_disputed
        else if leb_ℤ (sub64 ch.amount_captured ch.amount_refunded) (pos 0)
        then refuse m 400 Problem.nothing_to_dispute
        else (
          ok dp,
          m',
          fire "charge.dispute.created" (EventObject.dispute dp)
              ∷ fire "charge.dispute.funds_withdrawn" (EventObject.dispute dp)
              ∷ [],
        )
  ]
]

unfoldable pub dispute_outcome : String → Option DisputeStatus
dispute_outcome outcome =
    if outcome == "won"
    then some DisputeStatus.won
    else if outcome == "lost"
    then some DisputeStatus.lost
    else none

abbrev pub is_open : DisputeStatus → Bool
is_open DisputeStatus.needs_response = true
is_open _ = false

unfoldable pub close_dispute : Env → String → String → StripeMock → Answer (Unit {0})
unfolding dispute_outcome
close_dispute env id outcome m = elim (dispute_outcome outcome) [
  | none ↦ refuse m 400 Problem.bad_outcome
  | some status ↦ elim (lookup id m.disputes) [
    | none ↦ refuse m 404 Problem.no_such_dispute
    | some dp ↦
        let dp' = record dp { status = status; closed_at = env.now 0 } in
        let closed = fire "charge.dispute.closed" (EventObject.dispute dp') in
        let reinstated = fire "charge.dispute.funds_reinstated" (EventObject.dispute dp') in
        if not (is_open dp.status) then refuse m 409 Problem.already_closed else (
          ok tt,
          record m { disputes = insert id dp' m.disputes },
          if is_won status then closed ∷ reinstated ∷ [] else closed ∷ [],
        )
  ]
]
