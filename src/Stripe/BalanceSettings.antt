-- ===== src/Stripe/BalanceSettings.antt =====
-- The balance settings (handleBalanceSettings and applyBalanceSettings of
-- internal/devserver/stripemock_balance.go). `sprint` stands for fmt.Sprint on one value of a form.
pub mod Kept
use hamr.Base.{
  ℕ, String, Bool, true, false, not, ◌&&◌, ◌||◌, Option, none, some, List, [], ◌∷◌, ◌++◌, ◌==◌, ◌≡◌,
  refl, arith, Bool-cases, Option-cases, inl, inr, if◌then◌else◌,
}
use hamr.Base.Int.{ℤ, pos, ltb_ℤ, ◌≤ℤ◌}
use hamr.Base.Lists.{All, All-append}
use hamr.Base.Assoc.{
  Assoc, lookup, insert, AllValues, insert-AllValues, lookup-AllValues, lookup-insert_self,
}
use hamr.Stripe.Form.{
  FormValue, FormFields, FormItems, text, object, array, nil, item, get, get_object, get_string,
  get_int64, parse_int,
}
use hamr.Stripe.State.{StripeMock, Reply, ok, refused, Problem, account_exists}

pub record StripeBalanceSettings : Type 0 where
  pub debit_negative_balances : Bool
  pub delay_days : ℤ
  pub interval : String
  pub monthly_payout_days : List ℤ
  pub weekly_payout_days : List String

abbrev pub default_balance_settings : StripeBalanceSettings
default_balance_settings = record {
  debit_negative_balances = false;
  delay_days = pos 2;
  interval = "daily";
  monthly_payout_days = [];
  weekly_payout_days = [];
}

abbrev pub is_interval : String → Bool
is_interval iv = iv == "manual" || iv == "daily" || iv == "weekly" || iv == "monthly"

-- `m[key].([]any)`
unfoldable pub get_array : FormFields → String → Option FormItems
get_array m key = elim (get m key) [ some (array items) ↦ some items | _ ↦ none ]

-- The loop over the days of the month: the days so far, and whether all of them were good.
unfoldable pub monthly_days : (FormValue → String) → FormItems → List ℤ → Bool × List ℤ
monthly_days sprint nil days = (true, days)
monthly_days sprint (item d rest) days = elim (parse_int (sprint d)) [
  | none ↦ (false, days)
  | some n ↦
      let more = monthly_days sprint rest (days ++ n ∷ []) in
      if ltb_ℤ n (pos 1) || ltb_ℤ (pos 31) n then (false, days) else more
]

unfoldable pub weekly_days : (FormValue → String) → FormItems → List String
weekly_days sprint nil = []
weekly_days sprint (item d rest) = sprint d ∷ weekly_days sprint rest

-- The settings of `payments` but for its schedule.
unfoldable pub apply_payments : FormFields → StripeBalanceSettings → StripeBalanceSettings
apply_payments pay bs =
    let debit = get_string pay "debit_negative_balances" in
    let bs' = if debit == "" then bs else record bs { debit_negative_balances = debit == "true" } in
    elim (get_object pay "settlement_timing") [
      | none ↦ bs'
      | some st ↦ elim (get_int64 st "delay_days") [
        | none ↦ bs'
        | some n ↦ if get_string st "delay_days" == "" then bs' else record bs' { delay_days = n }
      ]
    ]

abbrev pub put_weekly :
    (FormValue → String) → FormFields → StripeBalanceSettings → StripeBalanceSettings
put_weekly sprint sched bs = elim (get_array sched "weekly_payout_days") [
  | none ↦ bs
  | some items ↦ record bs { weekly_payout_days = weekly_days sprint items }
]

-- The days of the schedule, once its interval is settled.
unfoldable pub apply_days :
    (FormValue → String) → FormFields → StripeBalanceSettings → Bool × StripeBalanceSettings
unfolding get_array monthly_days weekly_days
apply_days sprint sched bs = elim (get_array sched "monthly_payout_days") [
  | none ↦ (true, put_weekly sprint sched bs)
  | some items ↦
      let (good, days) = monthly_days sprint items [] in
      let bs' = record bs { monthly_payout_days = days } in
      if good then (true, put_weekly sprint sched bs') else (false, bs')
]

unfoldable pub apply_schedule :
    (FormValue → String) → FormFields → StripeBalanceSettings → Bool × StripeBalanceSettings
unfolding apply_days
apply_schedule sprint sched bs =
    let iv = get_string sched "interval" in
    if iv == ""
    then apply_days sprint sched bs
    else if is_interval iv
    then apply_days sprint sched (record bs { interval = iv })
    else (false, bs)

-- Whether the form is accepted, and the settings as they are then; they are written as they are read,
-- so a form that is refused leaves what came before its fault.
unfoldable pub apply_balance_settings :
    (FormValue → String) → FormFields → StripeBalanceSettings → Bool × StripeBalanceSettings
unfolding apply_payments apply_schedule
apply_balance_settings sprint p bs = elim (get_object p "payments") [
  | none ↦ (true, bs)
  | some pay ↦
      let bs' = apply_payments pay bs in
      elim (get_object pay "payouts") [
        | none ↦ (true, bs')
        | some po ↦ elim (get_object po "schedule") [
          | none ↦ (true, bs')
          | some sched ↦ apply_schedule sprint sched bs'
        ]
      ]
]

abbrev pub settings_or_default : Option StripeBalanceSettings → StripeBalanceSettings
settings_or_default none = default_balance_settings
settings_or_default (some bs) = bs

-- The POST of account `acct` ("" is the platform) on the map of settings.
unfoldable pub handle_balance_settings :
    (FormValue → String)
    → StripeMock
    → String
    → FormFields
    → Assoc StripeBalanceSettings
    → Reply StripeBalanceSettings × Assoc StripeBalanceSettings
unfolding apply_balance_settings
handle_balance_settings sprint m acct p settings =
    let (good, bs) = apply_balance_settings sprint p (settings_or_default (lookup acct settings)) in
    if not (acct == "") && not (account_exists m acct)
    then (refused 404 Problem.no_such_account, settings)
    else if good
    then (ok bs, insert acct bs settings)
    else (refused 400 Problem.bad_settings, insert acct bs settings)

abbrev pub InMonth : ℤ → Type 0
InMonth n = (pos 1 ≤ℤ n) × (n ≤ℤ pos 31)

-- Every day of the month is a day of a month, and the interval is one of the four.
pub record SettingsOk (bs : StripeBalanceSettings) : Type 0 where
  pub interval_known : is_interval bs.interval ≡ true
  pub days_in_month : All InMonth bs.monthly_payout_days
