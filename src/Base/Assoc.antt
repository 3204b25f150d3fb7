-- ===== src/Base/Assoc.antt =====
-- Go maps with string keys, as association lists. Iteration visits the list in order.
use Prim.Native.String.{String}
use mathlib.Core.Path.{◌≡◌, refl}
use mathlib.Core.Logic.{◌≢◌}
use mathlib.Core.Bool.{Bool, true, false}
use mathlib.Core.Option.{Option, none, some}
use mathlib.Core.List.{List, [], ◌∷◌}
use native.Mathlib.Omega.{arith}
use text.Mathlib.Text.{◌==◌}
use text.Mathlib.TextEquality.{eq_iff}
use hamr.Base.Tests.{if◌then◌else◌}
use hamr.Base.Int.{ℤ, pos, ◌+ℤ◌, int_laws}

abbrev pub Assoc {ℓ} : Type ℓ → Type ℓ
Assoc V = List (String × V)

module _ {ℓ} {V : Type ℓ} where
  -- `v, ok := m[k]`
  unfoldable pub lookup : String → Assoc V → Option V
  lookup k [] = none
  lookup k ((j, v) ∷ m) = if j == k then some v else lookup k m

  -- `m[k] = v`
  unfoldable pub insert : String → V → Assoc V → Assoc V
  insert k v [] = (k, v) ∷ []
  insert k v ((j, w) ∷ m) = if j == k then (j, v) ∷ m else (j, w) ∷ insert k v m

  -- `delete(m, k)`
  unfoldable pub erase : String → Assoc V → Assoc V
  erase k [] = []
  erase k ((j, w) ∷ m) = let rest = erase k m in if j == k then rest else (j, w) ∷ rest

  unfoldable pub contains : String → Assoc V → Bool
  contains k m = elim (lookup k m) [ none ↦ false | some _ ↦ true ]

  abbrev pub values : Assoc V → List V
  values [] = []
  values ((_, v) ∷ m) = v ∷ values m

  pub lookup-insert :
      (key wanted : String) (new : V) (m : Assoc V)
      → lookup wanted (insert key new m) ≡ (if key == wanted then some new else lookup wanted m)
  unfolding lookup insert
  lookup-insert key wanted new [] = refl
  lookup-insert key wanted new ((first, held) ∷ rest) = ground (
    arith,
    lookup-insert key wanted new rest,
    eq_iff first key,
    eq_iff first wanted,
    eq_iff key wanted,
  )

  pub lookup-erase :
      (gone wanted : String) (m : Assoc V)
      → lookup wanted (erase gone m) ≡ (if gone == wanted then none else lookup wanted m)
  unfolding lookup erase
  lookup-erase gone wanted [] = ground arith
  lookup-erase gone wanted ((first, held) ∷ rest) = ground (
    arith,
    lookup-erase gone wanted rest,
    eq_iff first gone,
    eq_iff first wanted,
    eq_iff gone wanted,
  )

  pub lookup-insert_self : (k : String) (v : V) (m : Assoc V) → lookup k (insert k v m) ≡ some v
  lookup-insert_self k v m = ground (arith, lookup-insert k k v m, eq_iff k k)

  pub lookup-insert_ne :
      (k j : String) (v : V) (m : Assoc V) → k ≢ j → lookup j (insert k v m) ≡ lookup j m
  lookup-insert_ne k j v m h = ground (arith, lookup-insert k j v m, eq_iff k j)

-- Every value satisfies `P`.
abbrev pub AllValues {ℓ κ} : {V : Type ℓ} → (V → Type κ) → Assoc V → Type κ
AllValues P [] = Unit
AllValues P ((_, v) ∷ m) = P v × AllValues P m

module _ {ℓ κ} {V : Type ℓ} (P : V → Type κ) where
  pub lookup-AllValues :
      (k : String) (v : V) (m : Assoc V) → AllValues P m → lookup k m ≡ some v → P v
  unfolding lookup
  lookup-AllValues k v [] h e = absurd (cc)
  lookup-AllValues k v ((j, w) ∷ m) h e = ground (arith, lookup-AllValues k v m h.1)

  pub insert-AllValues :
      (k : String) (v : V) (m : Assoc V) → AllValues P m → P v → AllValues P (insert k v m)
  unfolding insert
  insert-AllValues k v [] h p = (p, tt)
  insert-AllValues k v ((j, w) ∷ m) h p = ground (arith, insert-AllValues k v m h.1 p)

-- A sum over the values of a map.
module _ {ℓ} {V : Type ℓ} (f : V → ℤ) where
  unfoldable pub sum_by : Assoc V → ℤ
  sum_by [] = pos 0
  sum_by ((_, v) ∷ m) = f v +ℤ sum_by m

  pub sum_by-insert :
      (k : String) (v old : V) (m : Assoc V)
      → lookup k m ≡ some old
      → sum_by (insert k v m) +ℤ f old ≡ sum_by m +ℤ f v
  unfolding lookup insert sum_by
  sum_by-insert k v old [] e = cc
  sum_by-insert k v old ((j, w) ∷ m) e = grind (int_laws, sum_by-insert k v old m)

  pub sum_by-insert_new :
      (k : String) (v : V) (m : Assoc V)
      → lookup k m ≡ none
      → sum_by (insert k v m) ≡ sum_by m +ℤ f v
  unfolding lookup insert sum_by
  sum_by-insert_new k v [] e = omega int_laws
  sum_by-insert_new k v ((j, w) ∷ m) e = grind (int_laws, sum_by-insert_new k v m)

pub sum_by-congr {ℓ} :
    {V : Type ℓ} (f g : V → ℤ) (m : Assoc V) → ((v : V) → f v ≡ g v) → sum_by f m ≡ sum_by g m
unfolding sum_by
sum_by-congr f g [] h = refl
sum_by-congr f g ((k, v) ∷ m) h = cc (h v, sum_by-congr f g m h)
