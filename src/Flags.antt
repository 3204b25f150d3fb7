-- ===== src/Flags.antt =====
-- Feature-flag rules (pkg/flags/eval.go, pkg/flags/client.go). `bucket`, an FNV hash modulo 100, is
-- a parameter.
use hamr.Base.{
  String, Bool, true, false, not, ◌&&◌, ◌||◌, Option, none, some, List, [], ◌∷◌, ◌==◌, ◌≡◌, arith,
  if◌then◌else◌,
}
use hamr.Base.Int.{ℤ, pos, ltb_ℤ, leb_ℤ, ◌≤ℤ◌}
use hamr.Base.Assoc.{Assoc, lookup}

pub record Rule : Type 0 where
  pub key : String
  pub enabled : Bool
  pub subjects : List String
  pub roles : List String
  pub percent : ℤ

pub record Who : Type 0 where
  pub subject_id : String
  pub user_roles : List String

pub record Scope : Type 0 where
  pub who : Who
  pub hash : String

-- `withScope`: a user who is logged out is hashed by the anonymous id.
abbrev pub with_scope : Who → String → Scope
with_scope w anon = record { who = w; hash = if w.subject_id == "" then anon else w.subject_id }

-- `slices.Contains`
unfoldable pub is_in : String → List String → Bool
is_in x [] = false
is_in x (y ∷ ys) = y == x || is_in x ys

unfoldable pub has_role : List String → List String → Bool
unfolding is_in
has_role [] allowed = false
has_role (r ∷ rs) allowed = is_in r allowed || has_role rs allowed

unfoldable pub matches : (String → String → ℤ) → Rule → Scope → Bool
unfolding has_role
matches bucket r sc =
    if not r.enabled
    then false
    else if not (sc.who.subject_id == "") && is_in sc.who.subject_id r.subjects
    then true
    else if has_role sc.who.user_roles r.roles
    then true
    else if leb_ℤ (pos 100) r.percent
    then true
    else not (sc.hash == "") && ltb_ℤ (bucket r.key sc.hash) r.percent

-- The snapshot keeps the rules and the values that decoded.
unfoldable pub value {ℓ} :
    {V : Type ℓ} → (String → String → ℤ) → Assoc V → Assoc Rule → Scope → String → Option V
unfolding matches lookup
value bucket vals rules sc key = elim (lookup key vals) [
  | none ↦ none
  | some v ↦ elim (lookup key rules) [
    | none ↦ none
    | some r ↦ if matches bucket r sc then some v else none
  ]
]

-- Raising a rollout loses nobody: whoever a rule matches, it still matches with a percentage that is
-- not lower, whatever the hash.
pub matches-percent :
    (bucket : String → String → ℤ) (r : Rule) (sc : Scope) (higher : ℤ)
    → r.percent ≤ℤ higher
    → matches bucket r sc ≡ true
    → matches bucket (record r { percent = higher }) sc ≡ true
unfolding matches
matches-percent bucket r sc higher h e = ground arith

-- The two ends of a rollout, for a user outside a rule's lists: at 100 percent the rule matches
-- exactly when it is enabled, and at 0 it does not match, if the hash gives no negative bucket.
pub matches-extremes :
    (bucket : String → String → ℤ) (r : Rule) (sc : Scope)
    → ((key id : String) → pos 0 ≤ℤ bucket key id)
    → is_in sc.who.subject_id r.subjects ≡ false
    → has_role sc.who.user_roles r.roles ≡ false
    → (matches bucket (record r { percent = pos 100 }) sc ≡ r.enabled)
      × (matches bucket (record r { percent = pos 0 }) sc ≡ false)
unfolding matches
matches-extremes bucket r sc nonneg other no_role =
    (ground (arith, other, no_role), ground (arith, other, no_role, nonneg r.key sc.hash))
