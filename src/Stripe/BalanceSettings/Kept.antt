-- ===== src/Stripe/BalanceSettings/Kept.antt =====
-- What a post of balance settings keeps, and what a refused one leaves behind.
use hamr.Base.{
  String, Bool, false, not, ◌&&◌, ◌||◌, Option, none, some, List, [], ◌∷◌, ◌++◌, ◌==◌, ◌≡◌, refl,
  arith, Bool-cases, Option-cases, inl, inr, if◌then◌else◌,
}
use hamr.Base.Int.{ℤ, pos, ltb_ℤ}
use hamr.Base.Lists.{All, All-append}
use hamr.Base.Assoc.{
  Assoc, lookup, AllValues, insert-AllValues, lookup-AllValues, lookup-insert_self,
}
use hamr.Stripe.Form.{
  FormValue, FormFields, FormItems, nil, item, get_object, get_string, parse_int,
}
use hamr.Stripe.State.{StripeMock, refused, Problem, account_exists}
use hamr.Stripe.BalanceSettings.{
  StripeBalanceSettings, default_balance_settings, is_interval, get_array, monthly_days,
  apply_payments, apply_days, apply_schedule, apply_balance_settings, settings_or_default,
  handle_balance_settings, InMonth, SettingsOk,
}

day_step :
    (o : Option ℤ) (days : List ℤ) (more : ℤ → Bool × List ℤ)
    → All InMonth days
    → ((n : ℤ) → InMonth n → All InMonth (more n).1)
    → All InMonth
        (elim o as (λ x. Bool × List ℤ) [
          | none ↦ (false, days)
          | some n ↦ if ltb_ℤ n (pos 1) || ltb_ℤ (pos 31) n then (false, days) else more n
        ]).1
day_step none days more h k = h
day_step (some n) days more h k = elim (Bool-cases (ltb_ℤ n (pos 1) || ltb_ℤ (pos 31) n)) [
  | inl outside ↦ rw outside h
  | inr inside ↦ rw inside (k n (ground arith))
]

monthly_days-All :
    (sprint : FormValue → String) (items : FormItems) (days : List ℤ)
    → All InMonth days
    → All InMonth (monthly_days sprint items days).1
unfolding monthly_days
monthly_days-All sprint nil days h = h
monthly_days-All sprint (item d rest) days h =
    day_step (parse_int (sprint d)) days (λ n. monthly_days sprint rest (days ++ n ∷ [])) h
      λ n inside.
        monthly_days-All sprint rest (days ++ n ∷ [])
          (All-append InMonth days (n ∷ []) h (inside, tt))

apply_payments-keeps :
    (pay : FormFields) (bs : StripeBalanceSettings)
    → ((apply_payments pay bs).interval ≡ bs.interval)
      × ((apply_payments pay bs).monthly_payout_days ≡ bs.monthly_payout_days)
unfolding apply_payments
apply_payments-keeps pay bs = ground arith

apply_days-interval :
    (sprint : FormValue → String) (sched : FormFields) (bs : StripeBalanceSettings)
    → (apply_days sprint sched bs).1.interval ≡ bs.interval
unfolding apply_days
apply_days-interval sprint sched bs = ground arith

apply_days-months :
    (sprint : FormValue → String) (sched : FormFields) (bs : StripeBalanceSettings)
    → All InMonth bs.monthly_payout_days
    → All InMonth (apply_days sprint sched bs).1.monthly_payout_days
unfolding apply_days
apply_days-months sprint sched bs h = elim (Option-cases (get_array sched "monthly_payout_days")) [
  | inl absent ↦
      let e : (apply_days sprint sched bs).1.monthly_payout_days ≡ bs.monthly_payout_days =
        ground (arith, absent) in
      rw e h
  | inr (items, given) ↦
      let e : (apply_days sprint sched bs).1.monthly_payout_days
          ≡ (monthly_days sprint items []).1 =
        ground (arith, given) in
      rw e (monthly_days-All sprint items [] tt)
]

apply_days-SettingsOk :
    (sprint : FormValue → String) (sched : FormFields) (bs : StripeBalanceSettings)
    → SettingsOk bs
    → SettingsOk (apply_days sprint sched bs).1
apply_days-SettingsOk sprint sched bs h = record {
  interval_known = rw (apply_days-interval sprint sched bs) h.interval_known;
  days_in_month = apply_days-months sprint sched bs h.days_in_month;
}

apply_schedule-SettingsOk :
    (sprint : FormValue → String) (sched : FormFields) (bs : StripeBalanceSettings)
    → SettingsOk bs
    → SettingsOk (apply_schedule sprint sched bs).1
unfolding apply_schedule
apply_schedule-SettingsOk sprint sched bs h =
    let iv = get_string sched "interval" in
    elim (Bool-cases (iv == "")) [
      | inl unset ↦ rw unset (apply_days-SettingsOk sprint sched bs h)
      | inr given ↦ elim (Bool-cases (is_interval iv)) [
        | inl known ↦
            rw (given, known)
              (apply_days-SettingsOk sprint sched (record bs { interval = iv })
                (record { interval_known = known; days_in_month = h.days_in_month }))
        | inr unknown ↦ rw (given, unknown) h
      ]
    ]

apply_payments-SettingsOk :
    (pay : FormFields) (bs : StripeBalanceSettings)
    → SettingsOk bs
    → SettingsOk (apply_payments pay bs)
apply_payments-SettingsOk pay bs h =
    let (iv, days) = apply_payments-keeps pay bs in
    record { interval_known = rw iv h.interval_known; days_in_month = rw days h.days_in_month }

apply_balance_settings-SettingsOk :
    (sprint : FormValue → String) (p : FormFields) (bs : StripeBalanceSettings)
    → SettingsOk bs
    → SettingsOk (apply_balance_settings sprint p bs).1
unfolding apply_balance_settings
apply_balance_settings-SettingsOk sprint p bs h = elim (Option-cases (get_object p "payments")) [
  | inl none_given ↦ rw (none_given, apply_balance_settings) h
  | inr (pay, given) ↦
      let h' = apply_payments-SettingsOk pay bs h in
      elim (Option-cases (get_object pay "payouts")) [
        | inl no_payouts ↦ rw (given, no_payouts, apply_balance_settings) h'
        | inr (po, payouts) ↦ elim (Option-cases (get_object po "schedule")) [
          | inl no_schedule ↦ rw (given, payouts, no_schedule, apply_balance_settings) h'
          | inr (sched, schedule) ↦
              rw (given, payouts, schedule, apply_balance_settings)
                (apply_schedule-SettingsOk sprint sched (apply_payments pay bs) h')
        ]
      ]
]

default-SettingsOk : SettingsOk default_balance_settings
default-SettingsOk = record { interval_known = refl; days_in_month = tt }

stored-SettingsOk :
    (acct : String) (settings : Assoc StripeBalanceSettings)
    → AllValues SettingsOk settings
    → SettingsOk (settings_or_default (lookup acct settings))
stored-SettingsOk acct settings h = elim (Option-cases (lookup acct settings)) [
  | inl new ↦ rw new default-SettingsOk
  | inr (bs, held) ↦ rw held (lookup-AllValues SettingsOk acct bs settings h held)
]

-- Whatever form is posted, accepted or refused, every stored schedule keeps a known interval and days
-- of the month between 1 and 31, if every stored one had them before.
pub handle_balance_settings-SettingsOk :
    (sprint : FormValue → String) (m : StripeMock) (acct : String) (p : FormFields)
    (settings : Assoc StripeBalanceSettings)
    → AllValues SettingsOk settings
    → AllValues SettingsOk (handle_balance_settings sprint m acct p settings).1
unfolding handle_balance_settings
handle_balance_settings-SettingsOk sprint m acct p settings h =
    let stored =
      insert-AllValues SettingsOk acct
        (apply_balance_settings sprint p (settings_or_default (lookup acct settings))).1 settings h
        (apply_balance_settings-SettingsOk sprint p _ (stored-SettingsOk acct settings h)) in
    elim (Bool-cases (not (acct == "") && not (account_exists m acct))) [
      | inl unknown ↦ rw unknown h
      | inr known ↦
          elim (Bool-cases
            (apply_balance_settings sprint p (settings_or_default (lookup acct settings))).0) [
              | inl good ↦ rw (known, good) stored
              | inr bad ↦ rw (known, bad) stored
            ]
    ]

bad_interval-stops :
    (sprint : FormValue → String) (p pay po sched : FormFields) (bs : StripeBalanceSettings)
    → get_object p "payments" ≡ some pay
    → get_object pay "payouts" ≡ some po
    → get_object po "schedule" ≡ some sched
    → (get_string sched "interval" == "") ≡ false
    → is_interval (get_string sched "interval") ≡ false
    → apply_balance_settings sprint p bs ≡ (false, apply_payments pay bs)
unfolding apply_balance_settings apply_schedule
bad_interval-stops sprint p pay po sched bs given payouts schedule named unknown =
    rw (given, payouts, schedule, named, unknown, apply_balance_settings, apply_schedule) refl

apply_payments-flag :
    (pay : FormFields) (bs : StripeBalanceSettings)
    → (get_string pay "debit_negative_balances" == "") ≡ false
    → (apply_payments pay bs).debit_negative_balances
      ≡ (get_string pay "debit_negative_balances" == "true")
unfolding apply_payments
apply_payments-flag pay bs set = ground (arith, set)

-- A refused post is not rolled back: if the platform's form sets debit_negative_balances and
-- names an interval that is none of the four, it is refused with status 400, and yet the
-- flag that it sets is stored.
pub handle_balance_settings-partial :
    (sprint : FormValue → String) (m : StripeMock) (p pay po sched : FormFields)
    (settings : Assoc StripeBalanceSettings)
    → get_object p "payments" ≡ some pay
    → get_object pay "payouts" ≡ some po
    → get_object po "schedule" ≡ some sched
    → (get_string sched "interval" == "") ≡ false
    → is_interval (get_string sched "interval") ≡ false
    → (get_string pay "debit_negative_balances" == "") ≡ false
    → ((handle_balance_settings sprint m "" p settings).0 ≡ refused 400 Problem.bad_settings)
      × ((settings_or_default
            (lookup "" (handle_balance_settings sprint m "" p settings).1)).debit_negative_balances
          ≡ (get_string pay "debit_negative_balances" == "true"))
unfolding handle_balance_settings
handle_balance_settings-partial sprint m p pay po sched settings given payouts schedule named
      unknown set =
    let bs = settings_or_default (lookup "" settings) in
    let stops = bad_interval-stops sprint p pay po sched bs given payouts schedule named unknown in
    (
      rw stops refl,
      rw (stops, lookup-insert_self "" (apply_payments pay bs) settings)
          (apply_payments-flag pay bs set),
    )
