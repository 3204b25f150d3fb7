-- ===== src/Stripe/Form/Range.antt =====
-- What the form readers return: a parsed integer is an int64.
use hamr.Base.{ℕ, String, ◌≡◌, Option, none, some, arith}
use hamr.Base.Int.{ℤ}
use hamr.Base.Int64.{IsInt64}
use hamr.Stripe.Form.{
  FormFields, parse_int, signed_pos, signed_neg, parse_unsigned, get_int64, get_string,
}

signed_pos-IsInt64 : (o : Option ℕ) (v : ℤ) → signed_pos o ≡ some v → IsInt64 v
unfolding signed_pos
signed_pos-IsInt64 none v e = absurd (cc)
signed_pos-IsInt64 (some n) v e = ground arith

signed_neg-IsInt64 : (o : Option ℕ) (v : ℤ) → signed_neg o ≡ some v → IsInt64 v
unfolding signed_neg
signed_neg-IsInt64 none v e = absurd (cc)
signed_neg-IsInt64 (some n) v e = ground arith

parse_int-IsInt64 : (s : String) (v : ℤ) → parse_int s ≡ some v → IsInt64 v
unfolding parse_int
parse_int-IsInt64 String.[] v e = absurd (cc)
parse_int-IsInt64 (String.◌∷◌ c rest) v e = ground (
  arith,
  signed_neg-IsInt64 (parse_unsigned rest) v,
  signed_pos-IsInt64 (parse_unsigned rest) v,
  signed_pos-IsInt64 (parse_unsigned (String.◌∷◌ c rest)) v,
)

-- An integer that is read is an int64, also where the key is missing.
pub get_int64-IsInt64 :
    (m : FormFields) (key : String) (v : ℤ) → get_int64 m key ≡ some v → IsInt64 v
unfolding get_int64
get_int64-IsInt64 m key v e = ground (arith, parse_int-IsInt64 (get_string m key) v)
