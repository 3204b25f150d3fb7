-- ===== src/Stripe/Payout.antt =====
-- Payouts (internal/devserver/stripemock_payout.go, the outcome buttons of
-- stripemock_payout_page.go, and payoutAccountBalance of stripemock_dispute.go).
use Prim.Native.String.{compare}
use Prim.Native.Nat.{Ordering}
use hamr.Base.{
  ℕ, ◌+◌, ◌*◌, String, Bool, true, false, not, ◌&&◌, ◌||◌, Option, none, some, List, [], ◌∷◌, ◌==◌,
  if◌then◌else◌,
}
use hamr.Base.Int.{ℤ, pos, leb_ℤ}
use hamr.Base.Assoc.{lookup, insert}
use hamr.Stripe.Form.{FormFields, get_int64, get_string, string_map, or_default}
use hamr.Stripe.Objects.{PayoutStatus, StripePayout}
use hamr.Stripe.State.{
  StripeMock, Env, payout_key, EventObject, WebhookFire, Problem, Reply, ok, refused, Answer,
  refuse, account_exists,
}
use hamr.Stripe.Ledger.{LedgerEntry, balance_of, connected_ledger}

unfoldable pub payout_of : FormFields → ℤ → String → String → StripePayout
payout_of p amount currency method = record {
  id = "";
  amount = amount;
  currency = currency;
  status = PayoutStatus.pending;
  method = method;
  source_type = or_default (get_string p "source_type") "bank_account";
  description = get_string p "description";
  statement_descriptor = get_string p "statement_descriptor";
  failure_code = "";
  failure_message = "";
  automatic = false;
  arrival_date = 0;
  created = 0;
  account_id = "";
  metadata = string_map p "metadata";
}

unfoldable pub build_payout_from_params : Env → FormFields → Reply StripePayout
unfolding payout_of
build_payout_from_params env p = elim (get_int64 p "amount") [
  | none ↦ refused 400 Problem.bad_amount
  | some amount ↦
      let currency = env.to_lower (get_string p "currency") in
      let method = env.to_lower (or_default (get_string p "method") "standard") in
      if leb_ℤ amount (pos 0)
      then refused 400 Problem.bad_amount
      else if currency == ""
      then refused 400 Problem.bad_currency
      else if not (method == "standard") && not (method == "instant")
      then refused 400 Problem.bad_method
      else ok (payout_of p amount currency method)
]

-- Two days in seconds.
abbrev pub clearing_window : ℕ
clearing_window = 48 * 3600

unfoldable pub stamp_payout : Env → String → StripePayout → StripePayout
stamp_payout env header po = record po {
  id = payout_key env 0;
  created = env.now 0;
  status = PayoutStatus.pending;
  automatic = false;
  arrival_date = if po.method == "instant" then env.now 0 else env.now 0 + clearing_window;
  account_id = env.trim_space header;
}

unfoldable pub create_payout : Env → String → FormFields → StripeMock → Answer StripePayout
unfolding stamp_payout
create_payout env header p m = elim (build_payout_from_params env p) [
  | refused status problem ↦ refuse m status problem
  | ok built ↦
      let po = stamp_payout env header built in
      let m' = record m { payouts = insert (payout_key env 0) po m.payouts } in
      if not (po.account_id == "") && not (account_exists m po.account_id)
      then refuse m 404 Problem.no_such_account
      else (ok po, m', [])
]

-- A button: the final status, the event, and the failure that it reports.
pub record PayoutOutcomeRule : Type 0 where
  pub final_status : PayoutStatus
  pub event_type : String
  pub failure_code : String
  pub failure_message : String

unfoldable pub payout_outcome : String → Option PayoutOutcomeRule
payout_outcome outcome =
    if outcome == "paid"
    then some (record {
      final_status = PayoutStatus.paid;
      event_type = "payout.paid";
      failure_code = "";
      failure_message = "";
    })
    else if outcome == "fail"
    then some (record {
      final_status = PayoutStatus.failed;
      event_type = "payout.failed";
      failure_code = "account_closed";
      failure_message = "The bank account has been closed.";
    })
    else none

abbrev pub is_settled : PayoutStatus → Bool
is_settled PayoutStatus.paid = true
is_settled PayoutStatus.failed = true
is_settled PayoutStatus.canceled = true
is_settled _ = false

unfoldable pub settle : PayoutOutcomeRule → StripePayout → StripePayout
settle rule po = record po {
  status = rule.final_status;
  failure_code = rule.failure_code;
  failure_message = rule.failure_message;
}

unfoldable pub complete_payout : Env → String → String → StripeMock → Answer StripePayout
unfolding payout_outcome settle
complete_payout env id_field outcome_field m =
    let id = env.trim_space id_field in
    if id == ""
    then refuse m 400 Problem.source_missing
    else elim (payout_outcome (env.trim_space outcome_field)) [
      | none ↦ refuse m 400 Problem.bad_outcome
      | some rule ↦ elim (lookup id m.payouts) [
        | none ↦ refuse m 404 Problem.no_such_payout
        | some po ↦
            let po' = settle rule po in
            let event : WebhookFire = record {
              event_type = rule.event_type;
              event_object = EventObject.payout po';
              account = po.account_id;
            } in
            if is_settled po.status
            then refuse m 409 Problem.wrong_status
            else (ok po', record m { payouts = insert id po' m.payouts }, event ∷ [])
      ]
    ]

-- The currencies of a ledger, sorted, each once: `slices.Sorted(maps.Keys(bal))`.
unfoldable pub insert_currency : String → List String → List String
insert_currency c [] = c ∷ []
insert_currency c (d ∷ ds) = elim (compare c d) [
  | Ordering.lt ↦ c ∷ d ∷ ds
  | Ordering.eq ↦ d ∷ ds
  | Ordering.gt ↦ d ∷ insert_currency c ds
]

unfoldable pub currencies : List LedgerEntry → List String
unfolding insert_currency
currencies [] = []
currencies (e ∷ es) = insert_currency e.currency (currencies es)

-- The first currency with a positive balance, and that balance.
unfoldable pub first_positive : (String → ℤ) → List String → Option (String × ℤ)
first_positive balance [] = none
first_positive balance (c ∷ cs) =
    if leb_ℤ (balance c) (pos 0) then first_positive balance cs else some (c, balance c)

unfoldable pub account_payout_of : Env → String → String → ℤ → StripePayout
account_payout_of env acct currency amount = record {
  id = payout_key env 0;
  amount = amount;
  currency = currency;
  status = PayoutStatus.pending;
  method = "standard";
  source_type = "card";
  description = "";
  statement_descriptor = "";
  failure_code = "";
  failure_message = "";
  automatic = true;
  arrival_date = env.now 0 + clearing_window;
  created = env.now 0;
  account_id = acct;
  metadata = none;
}

unfoldable pub payout_account_balance : Env → String → StripeMock → Answer StripePayout
unfolding currencies first_positive account_payout_of
payout_account_balance env acct m =
    let ledger = connected_ledger m acct in
    if acct == "" || not (account_exists m acct)
    then refuse m 404 Problem.no_such_account
    else elim (first_positive (λ c. balance_of c ledger) (currencies ledger)) [
      | none ↦ refuse m 400 Problem.no_balance
      | some (currency, amount) ↦
          let po = account_payout_of env acct currency amount in
          (ok po, record m { payouts = insert (payout_key env 0) po m.payouts }, [])
    ]
