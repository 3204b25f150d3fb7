-- ===== src/Stripe/Ledger/Range.antt =====
-- Balances are int64 values.
use hamr.Base.{String, List, [], ◌∷◌, arith, Bool-cases, inl, inr, ◌==◌, if◌then◌else◌}
use hamr.Base.Int.{ℤ, pos, ◌+ℤ◌}
use hamr.Base.Int64.{IsInt64, wrap64-IsInt64, add64}
use hamr.Stripe.Ledger.{LedgerEntry, net, balance_from, balance_of}

balance_from-IsInt64 :
    (currency : String) (acc : ℤ) (es : List LedgerEntry)
    → IsInt64 acc
    → IsInt64 (balance_from currency acc es)
unfolding balance_from
balance_from-IsInt64 currency acc [] h = h
balance_from-IsInt64 currency acc (e ∷ es) h =
    balance_from-IsInt64 currency (if e.currency == currency then add64 acc (net e) else acc) es
      (elim (Bool-cases (e.currency == currency)) [
        | inl y ↦ rw y (wrap64-IsInt64 (acc +ℤ net e))
        | inr n ↦ rw n h
      ])

pub balance_of-IsInt64 :
    (currency : String) (es : List LedgerEntry) → IsInt64 (balance_of currency es)
unfolding balance_of
balance_of-IsInt64 currency es = balance_from-IsInt64 currency (pos 0) es (ground arith)
