-- ===== src/Stripe/Transfer.antt =====
-- Transfers to connected accounts and their reversals (internal/devserver/stripemock_transfer.go).
use hamr.Base.{ℕ, String, ◌||◌, Option, none, some, [], ◌∷◌, ◌++◌, ◌==◌, not, if◌then◌else◌}
use hamr.Base.Int.{ℤ, pos, is_zero, ltb_ℤ, leb_ℤ}
use hamr.Base.Int64.{add64, sub64}
use hamr.Base.Assoc.{Assoc, lookup, insert, contains}
use hamr.Stripe.Form.{FormFields, get_int64, get_string, string_map}
use hamr.Stripe.Objects.{Metadata, StripeCharge, StripeTransfer, StripeTransferReversal}
use hamr.Stripe.State.{
  StripeMock, Env, transfer_key, reversal_key, EventObject, Problem, ok, Answer, refuse, fire,
}
use hamr.Stripe.Ledger.{balance_of, platform_ledger}

abbrev pub recipient_transfers : String
recipient_transfers = "recipient.stripe_balance.stripe_transfers"

-- `none` when `dest` can receive transfers.
unfoldable pub transfer_destination_problem : StripeMock → String → Option Problem
transfer_destination_problem m dest =
    if contains dest m.accounts then none else elim (lookup dest m.v2_accounts) [
      | none ↦ some Problem.no_such_destination
      | some acct ↦ elim (lookup recipient_transfers acct.capabilities) [
        | none ↦ some Problem.capability_missing
        | some st ↦ if st == "active" then none else some Problem.capability_missing
      ]
    ]

-- What one transfer takes from the charge with key `id`.
abbrev pub drawn_by : String → ℤ → StripeTransfer → ℤ
drawn_by id left tr =
    if tr.source_transaction_id == id then sub64 left (sub64 tr.amount tr.amount_reversed) else left

-- The loop over the transfers.
unfoldable pub draw_all : String → ℤ → Assoc StripeTransfer → ℤ
draw_all id left [] = left
draw_all id left ((_, tr) ∷ rest) = draw_all id (drawn_by id left tr) rest

unfoldable pub charge_available : StripeMock → StripeCharge → ℤ
unfolding draw_all
charge_available m ch = draw_all ch.id (sub64 ch.amount_captured ch.amount_refunded) m.transfers

-- The tests on the money behind a new transfer: the charge that it names, or the platform's balance.
unfoldable pub funding_problem : StripeMock → ℤ → String → String → Option Problem
unfolding charge_available
funding_problem m amount currency src =
    if src == ""
    then (if ltb_ℤ (balance_of currency (platform_ledger m)) amount
        then some Problem.balance_insufficient
        else none)
    else elim (lookup src m.charges) [
      | none ↦ some Problem.no_such_charge
      | some ch ↦
          if not (ch.currency == currency)
          then some Problem.currency_mismatch
          else if ltb_ℤ (charge_available m ch) amount
          then some Problem.balance_insufficient
          else none
    ]

unfoldable pub new_transfer : Env → FormFields → ℤ → String → String → String → StripeTransfer
new_transfer env p amount currency dest src = record {
  id = transfer_key env 0;
  amount = amount;
  amount_reversed = pos 0;
  currency = currency;
  destination = dest;
  source_transaction_id = src;
  transfer_group = get_string p "transfer_group";
  description = get_string p "description";
  created = env.now 0;
  metadata = string_map p "metadata";
  reversals = [];
}

-- The part under the lock.
unfoldable pub send_transfer :
    Env → FormFields → ℤ → String → String → String → StripeMock → Answer StripeTransfer
unfolding new_transfer
send_transfer env p amount currency dest src m = elim (transfer_destination_problem m dest) [
  | some problem ↦ refuse m 400 problem
  | none ↦ elim (funding_problem m amount currency src) [
    | some problem ↦ refuse m 400 problem
    | none ↦
        let tr = new_transfer env p amount currency dest src in
        (
          ok tr,
          record m { transfers = insert (transfer_key env 0) tr m.transfers },
          fire "transfer.created" (EventObject.transfer tr) ∷ [],
        )
  ]
]

unfoldable pub create_transfer : Env → FormFields → StripeMock → Answer StripeTransfer
create_transfer env p m = elim (get_int64 p "amount") [
  | none ↦ refuse m 400 Problem.bad_amount
  | some amount ↦
      let currency = env.to_lower (get_string p "currency") in
      let dest = get_string p "destination" in
      if leb_ℤ amount (pos 0)
      then refuse m 400 Problem.bad_amount
      else if currency == "" || dest == ""
      then refuse m 400 Problem.bad_currency
      else send_transfer env p amount currency dest (get_string p "source_transaction") m
]

-- `reverseTransferLocked`: the reversal and the transfer that records it. The arguments `k` and `t`
-- say which draw and which clock reading of the request it takes.
unfoldable pub new_reversal : Env → ℕ → ℕ → ℤ → String → Metadata → StripeTransferReversal
new_reversal env k t amount refund_id meta = record {
  id = reversal_key env k;
  amount = amount;
  refund_id = refund_id;
  created = env.now t;
  metadata = meta;
}

unfoldable pub reverse_transfer : StripeTransferReversal → StripeTransfer → StripeTransfer
reverse_transfer rv tr = record tr {
  amount_reversed = add64 tr.amount_reversed rv.amount;
  reversals = tr.reversals ++ rv ∷ [];
}

-- The reversal of transfer `id`, under the lock; an amount of 0 asks for all that is left.
unfoldable pub reverse_locked :
    Env → FormFields → ℤ → String → StripeMock → Answer (StripeTransfer × StripeTransferReversal)
unfolding reverse_transfer new_reversal
reverse_locked env p requested id m = elim (lookup id m.transfers) [
  | none ↦ refuse m 404 Problem.no_such_transfer
  | some tr ↦
      let remaining = sub64 tr.amount tr.amount_reversed in
      let amount = if is_zero requested then remaining else requested in
      if leb_ℤ remaining (pos 0) || ltb_ℤ remaining amount
      then refuse m 400 Problem.reversal_exceeds
      else let rv = new_reversal env 0 0 amount "" (string_map p "metadata") in
        let tr' = reverse_transfer rv tr in
        (
          ok (tr', rv),
          record m { transfers = insert id tr' m.transfers },
          fire "transfer.reversed" (EventObject.transfer tr') ∷ [],
        )
]

unfoldable pub create_transfer_reversal :
    Env → FormFields → String → StripeMock → Answer (StripeTransfer × StripeTransferReversal)
create_transfer_reversal env p id m = elim (get_int64 p "amount") [
  | none ↦ refuse m 400 Problem.bad_amount
  | some amount ↦
      if ltb_ℤ amount (pos 0)
      then refuse m 400 Problem.bad_amount
      else reverse_locked env p amount id m
]
