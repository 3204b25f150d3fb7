-- ===== src/Stripe/Ledger.antt =====
-- The ledgers, derived from the stored objects on every read
-- (internal/devserver/stripemock_ledger.go, stripeFee in stripemock_balance.go).
pub mod Range
pub mod Sum
pub mod Effects
pub mod Moves
pub mod Sent
use Prim.Native.String.{◌++◌ as ◌<>◌, compare}
use Prim.Native.Nat.{Ordering}
use hamr.Base.{
  ℕ, String, Bool, true, false, not, ◌&&◌, ◌||◌, Option, none, some, List, [], ◌∷◌, ◌++◌, ◌==◌, ltb,
  eqb, if◌then◌else◌,
}
use hamr.Base.Int.{ℤ, pos, leb_ℤ, ltb_ℤ}
use hamr.Base.Int64.{add64, sub64, mul64, div64}
use hamr.Base.Assoc.{Assoc, lookup, values}
use hamr.Stripe.Objects.{
  StripePaymentIntent, StripeCharge, StripeTransfer, StripeTransferReversal, StripeRefund,
  PayoutStatus, StripePayout, DisputeStatus, StripeDispute,
}
use hamr.Stripe.State.{StripeMock}

pub record LedgerEntry : Type 0 where
  pub created : ℕ
  pub entry_type : String
  pub description : String
  pub source : String
  pub currency : String
  pub amount : ℤ
  pub fee : ℤ
  pub status : Option PayoutStatus

-- Failed and canceled payouts never left the balance; only a payout's entry has a status.
abbrev pub never_left : Option PayoutStatus → Bool
never_left (some PayoutStatus.failed) = true
never_left (some PayoutStatus.canceled) = true
never_left _ = false

unfoldable pub net : LedgerEntry → ℤ
net e = if e.entry_type == "payout" && never_left e.status then pos 0 else sub64 e.amount e.fee

-- `balanceOf(entries)[currency]`, from the running total `acc`.
unfoldable pub balance_from : String → ℤ → List LedgerEntry → ℤ
unfolding net
balance_from currency acc [] = acc
balance_from currency acc (e ∷ es) =
    balance_from currency (if e.currency == currency then add64 acc (net e) else acc) es

unfoldable pub balance_of : String → List LedgerEntry → ℤ
unfolding balance_from
balance_of currency es = balance_from currency (pos 0) es

unfoldable pub stripe_fee : ℤ → String → ℤ
stripe_fee amount currency =
    if leb_ℤ amount (pos 0)
    then pos 0
    else if currency == "gbp" || currency == "eur"
    then add64 (div64 (add64 (mul64 amount (pos 15)) (pos 500)) (pos 1000)) (pos 20)
    else add64 (div64 (add64 (mul64 amount (pos 29)) (pos 500)) (pos 1000)) (pos 30)

abbrev pub dispute_fee : ℤ
dispute_fee = pos 2000

-- The connected account that a charge was made as ("" is the platform), and its application fee.
unfoldable pub charge_owner : Assoc StripePaymentIntent → StripeCharge → String × ℤ
charge_owner pis ch = elim (lookup ch.payment_intent_id pis) [
  | none ↦ ("", pos 0)
  | some pi ↦
      if not (pi.stripe_account == "")
      then (pi.stripe_account, pi.application_fee_amount)
      else ("", pos 0)
]

unfoldable pub refunded_app_fee : StripeRefund → StripeCharge → ℤ → ℤ
refunded_app_fee rf ch app_fee =
    if not rf.refund_application_fee || leb_ℤ app_fee (pos 0) || leb_ℤ ch.amount_captured (pos 0)
    then pos 0
    else div64 (mul64 app_fee rf.amount) ch.amount_captured

abbrev pub neg64 : ℤ → ℤ
neg64 a = sub64 (pos 0) a

abbrev pub entry : ℕ → String → String → String → String → ℤ → ℤ → LedgerEntry
entry created entry_type description source currency amount fee = record {
  created = created;
  entry_type = entry_type;
  description = description;
  source = source;
  currency = currency;
  amount = amount;
  fee = fee;
  status = none;
}

unfoldable pub payout_entry : StripePayout → LedgerEntry
payout_entry po = record {
  created = po.created;
  entry_type = "payout";
  description = "Payout to bank account";
  source = po.id;
  currency = po.currency;
  amount = neg64 po.amount;
  fee = pos 0;
  status = some po.status;
}

-- The body of each loop, for one object.
unfoldable pub platform_charge : Assoc StripePaymentIntent → StripeCharge → List LedgerEntry
unfolding stripe_fee
platform_charge pis ch =
    let (owner, app_fee) = charge_owner pis ch in
    if not (owner == "")
    then (if ltb_ℤ (pos 0) app_fee
        then entry ch.created "application_fee" ("Application fee from " <> owner) ch.id ch.currency
            app_fee (pos 0)
          ∷ []
        else [])
    else entry ch.created "charge" ch.description ch.id ch.currency ch.amount_captured
        (stripe_fee ch.amount_captured ch.currency)
      ∷ []

unfoldable pub platform_refund :
    Assoc StripePaymentIntent → Assoc StripeCharge → StripeRefund → List LedgerEntry
unfolding refunded_app_fee
platform_refund pis charges rf = elim (lookup rf.charge_id charges) [
  | none ↦ []
  | some ch ↦
      let (owner, app_fee) = charge_owner pis ch in
      let fee_back = refunded_app_fee rf ch app_fee in
      if not (owner == "")
      then (if ltb_ℤ (pos 0) fee_back
          then entry rf.created "application_fee_refund" ("Application fee refund to " <> owner)
              rf.id rf.currency (neg64 fee_back) (pos 0)
            ∷ []
          else [])
      else entry rf.created "refund" ("Refund for " <> rf.charge_id) rf.id rf.currency
          (neg64 rf.amount) (pos 0)
        ∷ []
]

unfoldable pub reversal_entries :
    String → String → (ℤ → ℤ) → List StripeTransferReversal → StripeTransfer → List LedgerEntry
reversal_entries entry_type description sign [] tr = []
reversal_entries entry_type description sign (rv ∷ rvs) tr =
    entry rv.created entry_type description rv.id tr.currency (sign rv.amount) (pos 0)
    ∷ reversal_entries entry_type description sign rvs tr

unfoldable pub platform_transfer : StripeTransfer → List LedgerEntry
unfolding reversal_entries
platform_transfer tr =
    entry tr.created "transfer" ("Transfer to " <> tr.destination) tr.id tr.currency
      (neg64 tr.amount) (pos 0)
    ∷ reversal_entries "transfer_reversal" ("Reversal of " <> tr.id) (λ a. a) tr.reversals tr

unfoldable pub connected_transfer : String → StripeTransfer → List LedgerEntry
unfolding reversal_entries
connected_transfer acct tr =
    if not (tr.destination == acct)
    then []
    else entry tr.created "payment" tr.description tr.id tr.currency tr.amount (pos 0)
      ∷ reversal_entries "payment_refund" ("Reversal of " <> tr.id) neg64 tr.reversals tr

unfoldable pub connected_charge :
    Assoc StripePaymentIntent → String → StripeCharge → List LedgerEntry
unfolding stripe_fee
connected_charge pis acct ch =
    let (owner, app_fee) = charge_owner pis ch in
    if not (owner == acct)
    then []
    else entry ch.created "charge" ch.description ch.id ch.currency ch.amount_captured
        (add64 (stripe_fee ch.amount_captured ch.currency) app_fee)
      ∷ []

unfoldable pub connected_refund :
    Assoc StripePaymentIntent → Assoc StripeCharge → String → StripeRefund → List LedgerEntry
unfolding refunded_app_fee
connected_refund pis charges acct rf = elim (lookup rf.charge_id charges) [
  | none ↦ []
  | some ch ↦
      let (owner, app_fee) = charge_owner pis ch in
      if owner == acct
      then entry rf.created "refund" ("Refund for " <> rf.charge_id) rf.id rf.currency
          (neg64 rf.amount) (neg64 (refunded_app_fee rf ch app_fee))
        ∷ []
      else []
]

abbrev pub is_won : DisputeStatus → Bool
is_won DisputeStatus.won = true
is_won _ = false

unfoldable pub dispute_entry :
    Assoc StripePaymentIntent → Assoc StripeCharge → String → StripeDispute → List LedgerEntry
dispute_entry pis charges acct dp = elim (lookup dp.charge_id charges) [
  | none ↦ []
  | some ch ↦
      let (owner, _) = charge_owner pis ch in
      if not (owner == acct)
      then []
      else entry dp.created "adjustment" ("Chargeback withdrawal for " <> dp.charge_id) dp.id
          dp.currency (neg64 dp.amount) dispute_fee
        ∷ (if is_won dp.status
            then entry dp.closed_at "adjustment" ("Chargeback reversal for " <> dp.charge_id) dp.id
                dp.currency dp.amount (pos 0)
              ∷ []
            else [])
]

unfoldable pub account_payout : String → StripePayout → List LedgerEntry
unfolding payout_entry
account_payout acct po = if po.account_id == acct then payout_entry po ∷ [] else []

-- A loop over a map that appends what its body yields.
unfoldable pub collect {ℓ} : {V : Type ℓ} → (V → List LedgerEntry) → Assoc V → List LedgerEntry
collect body [] = []
collect body ((_, v) ∷ m) = body v ++ collect body m

-- `sortNewestFirst` on (created, source): the order of the entries, ties broken by the greater id.
abbrev pub comes_first : LedgerEntry → LedgerEntry → Bool
comes_first a b =
    if eqb a.created b.created
    then elim (compare a.source b.source) [ Ordering.gt ↦ true | _ ↦ false ]
    else ltb b.created a.created

unfoldable pub insert_entry : LedgerEntry → List LedgerEntry → List LedgerEntry
insert_entry e [] = e ∷ []
insert_entry e (x ∷ xs) = if comes_first x e then x ∷ insert_entry e xs else e ∷ x ∷ xs

unfoldable pub sort_newest_first : List LedgerEntry → List LedgerEntry
unfolding insert_entry
sort_newest_first [] = []
sort_newest_first (e ∷ es) = insert_entry e (sort_newest_first es)

unfoldable pub platform_entries : StripeMock → List LedgerEntry
platform_entries m =
    collect (platform_charge m.payment_intents) m.charges
    ++ (collect (platform_refund m.payment_intents m.charges) m.refunds
        ++ (collect platform_transfer m.transfers
            ++ (collect (dispute_entry m.payment_intents m.charges "") m.disputes
                ++ collect (account_payout "") m.payouts)))

unfoldable pub platform_ledger : StripeMock → List LedgerEntry
unfolding platform_entries sort_newest_first
platform_ledger m = sort_newest_first (platform_entries m)

unfoldable pub connected_entries : StripeMock → String → List LedgerEntry
connected_entries m acct =
    collect (connected_transfer acct) m.transfers
    ++ (collect (connected_charge m.payment_intents acct) m.charges
        ++ (collect (connected_refund m.payment_intents m.charges acct) m.refunds
            ++ (collect (dispute_entry m.payment_intents m.charges acct) m.disputes
                ++ collect (account_payout acct) m.payouts)))

unfoldable pub connected_ledger : StripeMock → String → List LedgerEntry
unfolding connected_entries sort_newest_first
connected_ledger m acct = sort_newest_first (connected_entries m acct)
