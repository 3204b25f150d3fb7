-- ===== src/Stripe/Form.antt =====
-- The decoded request form that the Stripe handlers read (internal/devserver/stripemock.go): text
-- leaves, nested objects and arrays, and the readers of a leaf.
pub mod Range
use Prim.Native.Char.{code}
use hamr.Base.{
  ℕ, ◌+◌, ◌-◌, ◌*◌, ◌^◌, String, Bool, ◌&&◌, Option, none, some, [], ◌∷◌, ◌==◌, ltb, leb, eqb,
  if◌then◌else◌,
}
use hamr.Base.Int.{ℤ, pos, sub_ℕ}
use hamr.Base.Assoc.{Assoc}

-- The values of a `map[string]any` that the form decoder builds.
mutual
  pub data FormValue : Type 0 where
    text : String → FormValue
    object : FormFields → FormValue
    array : FormItems → FormValue

  pub data FormFields : Type 0 where
    end : FormFields
    field : String → FormValue → FormFields → FormFields

  pub data FormItems : Type 0 where
    nil : FormItems
    item : FormValue → FormItems → FormItems

-- `m[key]`
unfoldable pub get : FormFields → String → Option FormValue
get end key = none
get (field k v fs) key = if k == key then some v else get fs key

-- The map under `key`, where there is one: `m[key].(map[string]any)`.
unfoldable pub get_object : FormFields → String → Option FormFields
unfolding get
get_object m key = elim (get m key) [ some (object fs) ↦ some fs | _ ↦ none ]

-- An absent key, or one that is no text, reads as "".
unfoldable pub get_string : FormFields → String → String
unfolding get
get_string m key = elim (get m key) [ some (text s) ↦ s | _ ↦ "" ]

-- `strconv.ParseInt(s, 10, 64)`: an optional sign, then one or more digits, within int64.
unfoldable pub parse_digits : ℕ → String → Option ℕ
parse_digits n String.[] = some n
parse_digits n (String.◌∷◌ c rest) =
    let d = code c in
    if leb b'0' d && leb d b'9' then parse_digits (n * 10 + (d - b'0')) rest else none

unfoldable pub parse_unsigned : String → Option ℕ
unfolding parse_digits
parse_unsigned String.[] = none
parse_unsigned (String.◌∷◌ c rest) = parse_digits 0 (String.◌∷◌ c rest)

unfoldable pub signed_pos : Option ℕ → Option ℤ
signed_pos none = none
signed_pos (some n) = if ltb n (2 ^ 63) then some (pos n) else none

signed_neg : Option ℕ → Option ℤ
signed_neg none = none
signed_neg (some n) = if leb n (2 ^ 63) then some (sub_ℕ 0 n) else none

unfoldable pub parse_int : String → Option ℤ
unfolding parse_unsigned signed_pos signed_neg
parse_int String.[] = none
parse_int (String.◌∷◌ c rest) =
    if eqb (code c) b'-'
    then signed_neg (parse_unsigned rest)
    else if eqb (code c) b'+'
    then signed_pos (parse_unsigned rest)
    else signed_pos (parse_unsigned (String.◌∷◌ c rest))

-- `none` is Go's `(0, false)`: present, and no integer. A missing or empty key reads as 0.
unfoldable pub get_int64 : FormFields → String → Option ℤ
unfolding get_string parse_int
get_int64 m key = let s = get_string m key in if s == "" then some (pos 0) else parse_int s

unfoldable pub get_bool : FormFields → String → Bool
unfolding get_string
get_bool m key = get_string m key == "true"

text_fields : FormFields → Assoc String
text_fields end = []
text_fields (field k (text s) fs) = (k, s) ∷ text_fields fs
text_fields (field k _ fs) = text_fields fs

-- `none` is the nil map.
nonempty_map : FormFields → Option (Assoc String)
unfolding text_fields
nonempty_map end = none
nonempty_map (field k v fs) = some (text_fields (field k v fs))

unfoldable pub string_map : FormFields → String → Option (Assoc String)
unfolding get_object nonempty_map
string_map m key = elim (get_object m key) [ some fs ↦ nonempty_map fs | none ↦ none ]

unfoldable pub or_default : String → String → String
or_default v fallback = if v == "" then fallback else v
