-- ===== src/Stripe/Ledger/Sum.antt =====
-- A balance is the wrapped sum of the nets of its currency, whatever the order of the entries.
use hamr.Base.{
  String, List, [], ◌∷◌, ◌++◌, ◌≡◌, refl, ◌∙◌, ap, arith, Bool-cases, inl, inr, ◌==◌, if◌then◌else◌,
}
use hamr.Base.Int.{ℤ, pos, ◌+ℤ◌, int_laws}
use hamr.Base.Int64.{wrap64, wrap64_id, wrap64-add-wrap64}
use hamr.Base.Assoc.{Assoc, sum_by}
use hamr.Stripe.State.{StripeMock}
use hamr.Stripe.Ledger.{
  LedgerEntry, net, balance_from, balance_of, collect, comes_first, insert_entry, sort_newest_first,
  platform_charge, platform_refund, platform_transfer, dispute_entry, account_payout,
  platform_entries, platform_ledger, connected_transfer, connected_charge, connected_refund,
  connected_entries, connected_ledger,
}

-- The exact sum of the nets in a currency.
abbrev pub share : String → LedgerEntry → ℤ
share currency e = if e.currency == currency then net e else pos 0

abbrev pub total : String → List LedgerEntry → ℤ
total currency [] = pos 0
total currency (e ∷ es) = share currency e +ℤ total currency es

balance_from-total :
    (currency : String) (a : ℤ) (es : List LedgerEntry)
    → balance_from currency (wrap64 a) es ≡ wrap64 (a +ℤ total currency es)
unfolding balance_from
balance_from-total currency a [] = ap wrap64 (omega int_laws)
balance_from-total currency a (e ∷ es) = elim (Bool-cases (e.currency == currency)) [
  | inl y ↦
      rw (y, wrap64-add-wrap64 a (net e), balance_from-total currency (a +ℤ net e) es)
        (ap wrap64 (omega int_laws))
  | inr n ↦ rw (n, balance_from-total currency a es) (ap wrap64 (omega int_laws))
]

-- A balance, which is added up in int64 entry by entry, is the exact sum of the nets in its currency,
-- wrapped to int64 once at the end.
pub balance_of-total :
    (currency : String) (es : List LedgerEntry)
    → balance_of currency es ≡ wrap64 (total currency es)
unfolding balance_of
balance_of-total currency es =
    let zero_wrapped : wrap64 (pos 0) ≡ pos 0 = wrap64_id (pos 0) (ground arith) in
    let e : balance_from currency (wrap64 (pos 0)) es ≡ wrap64 (pos 0 +ℤ total currency es) =
      balance_from-total currency (pos 0) es in
    (rw zero_wrapped at e) ∙ ap wrap64 (omega int_laws)

pub total-append :
    (currency : String) (xs ys : List LedgerEntry)
    → total currency (xs ++ ys) ≡ total currency xs +ℤ total currency ys
total-append currency [] ys = omega int_laws
total-append currency (x ∷ xs) ys = rw (total-append currency xs ys) (omega int_laws)

total-insert_entry :
    (currency : String) (e : LedgerEntry) (es : List LedgerEntry)
    → total currency (insert_entry e es) ≡ share currency e +ℤ total currency es
unfolding insert_entry
total-insert_entry currency e [] = refl
total-insert_entry currency e (x ∷ xs) = elim (Bool-cases (comes_first x e)) [
  | inl y ↦ rw (y, total-insert_entry currency e xs) (omega int_laws)
  | inr n ↦ rw n
]

pub total-sort :
    (currency : String) (es : List LedgerEntry)
    → total currency (sort_newest_first es) ≡ total currency es
unfolding sort_newest_first
total-sort currency [] = refl
total-sort currency (e ∷ es) =
    rw (total-insert_entry currency e (sort_newest_first es), total-sort currency es)

pub total-collect {ℓ} :
    {V : Type ℓ} (currency : String) (body : V → List LedgerEntry) (m : Assoc V)
    → total currency (collect body m) ≡ sum_by (λ v. total currency (body v)) m
unfolding collect sum_by
total-collect currency body [] = refl
total-collect currency body ((k, v) ∷ m) =
    rw (total-append currency (body v) (collect body m), total-collect currency body m)

-- The exact sums behind the two kinds of balance, map by map.
abbrev pub platform_total : String → StripeMock → ℤ
platform_total currency m =
    sum_by (λ v. total currency (platform_charge m.payment_intents v)) m.charges
    +ℤ (sum_by (λ v. total currency (platform_refund m.payment_intents m.charges v)) m.refunds
        +ℤ (sum_by (λ v. total currency (platform_transfer v)) m.transfers
            +ℤ (sum_by (λ v. total currency (dispute_entry m.payment_intents m.charges "" v))
                  m.disputes
                +ℤ sum_by (λ v. total currency (account_payout "" v)) m.payouts)))

abbrev pub connected_total : String → StripeMock → String → ℤ
connected_total currency m acct =
    sum_by (λ v. total currency (connected_transfer acct v)) m.transfers
    +ℤ (sum_by (λ v. total currency (connected_charge m.payment_intents acct v)) m.charges
        +ℤ (sum_by (λ v. total currency (connected_refund m.payment_intents m.charges acct v))
              m.refunds
            +ℤ (sum_by (λ v. total currency (dispute_entry m.payment_intents m.charges acct v))
                  m.disputes
                +ℤ sum_by (λ v. total currency (account_payout acct v)) m.payouts)))

pub balance_of-platform :
    (currency : String) (m : StripeMock)
    → balance_of currency (platform_ledger m) ≡ wrap64 (platform_total currency m)
unfolding platform_ledger
balance_of-platform currency m =
    rw (balance_of-total currency (platform_ledger m), total-sort currency (platform_entries m))
      (ap wrap64 (unfold platform_entries in simp (total-append, total-collect)))

pub balance_of-connected :
    (currency : String) (m : StripeMock) (acct : String)
    → balance_of currency (connected_ledger m acct) ≡ wrap64 (connected_total currency m acct)
unfolding connected_ledger
balance_of-connected currency m acct =
    rw
      (
        balance_of-total currency (connected_ledger m acct),
        total-sort currency (connected_entries m acct),
      )
      (ap wrap64 (unfold connected_entries in simp (total-append, total-collect)))
