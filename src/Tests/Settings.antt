-- ===== src/Tests/Settings.antt =====
-- Tests of the balance settings.
use hamr.Base.{String, true, [], ◌≡◌, refl}
use hamr.Base.Assoc.{AllValues, lookup}
use hamr.Stripe.Form.{FormValue, FormFields, end, field, text, object, get, get_object, get_string}
use hamr.Stripe.State.{Problem, refused, init}
use hamr.Stripe.BalanceSettings.{SettingsOk, handle_balance_settings, settings_or_default}
use hamr.Stripe.BalanceSettings.Kept.{
  handle_balance_settings-SettingsOk, handle_balance_settings-partial,
}

abbrev pub sprint : FormValue → String
sprint (text s) = s
sprint _ = "map[]"

abbrev pub schedule_form : FormFields
schedule_form = field "interval" (text "hourly") end

abbrev pub payouts_form : FormFields
payouts_form = field "schedule" (object schedule_form) end

abbrev pub payments_form : FormFields
payments_form =
    field "debit_negative_balances" (text "true") (field "payouts" (object payouts_form) end)

abbrev pub settings_form : FormFields
settings_form = field "payments" (object payments_form) end

handle_balance_settings-SettingsOk_example :
    AllValues SettingsOk (handle_balance_settings sprint init "" settings_form []).1
handle_balance_settings-SettingsOk_example =
    handle_balance_settings-SettingsOk sprint init "" settings_form [] tt

handle_balance_settings-partial_example :
    ((handle_balance_settings sprint init "" settings_form []).0 ≡ refused 400 Problem.bad_settings)
    × ((settings_or_default (
          lookup ""
            (handle_balance_settings sprint init "" settings_form []).1)).debit_negative_balances
        ≡ true)
unfolding get_object get_string get
handle_balance_settings-partial_example =
    handle_balance_settings-partial sprint init settings_form payments_form payouts_form
      schedule_form [] refl refl refl refl refl refl
