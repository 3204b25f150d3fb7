-- ===== src/Base/Bytes.antt =====
-- Texts as bytes, and Go's package `strings` on them.
use Prim.Native.Nat.{ℕ}
use mathlib.Core.Path.{◌≡◌, refl}
use mathlib.Core.Logic.{inl, inr}
use mathlib.Core.Bool.{Bool, true, false, ◌&&◌}
use mathlib.Core.Option.{Option, none, some}
use mathlib.Core.List.{List, [], ◌∷◌, ◌++◌}
use native.Mathlib.Omega.{arith}
use hamr.Base.Lists.{All}
use hamr.Base.Tests.{eqb, Option-cases, Bool-cases, if◌then◌else◌}

abbrev pub Bytes : Type 0
Bytes = List ℕ

unfoldable pub has_prefix : Bytes → Bytes → Bool
has_prefix [] bs = true
has_prefix (p ∷ ps) [] = false
has_prefix (p ∷ ps) (b ∷ bs) = eqb p b && has_prefix ps bs

-- `a == b`
unfoldable pub eq_bytes : Bytes → Bytes → Bool
eq_bytes [] [] = true
eq_bytes [] (b ∷ bs) = false
eq_bytes (a ∷ rest) [] = false
eq_bytes (a ∷ rest) (b ∷ bs) = eqb a b && eq_bytes rest bs

-- `strings.Cut(s, sep)` at a single byte: what stands before it and after it.
unfoldable pub cut : ℕ → Bytes → Option (Bytes × Bytes)
cut sep [] = none
cut sep (b ∷ bs) =
    let rest = cut sep bs in
    if eqb b sep
    then some ([], bs)
    else elim rest [ none ↦ none | some (before, after) ↦ some (b ∷ before, after) ]

unfoldable pub start_part : ℕ → List Bytes → List Bytes
start_part b [] = (b ∷ []) ∷ []
start_part b (part ∷ parts) = (b ∷ part) ∷ parts

-- `strings.SplitSeq(s, sep)` at a single byte.
unfoldable pub split_at : ℕ → Bytes → List Bytes
unfolding start_part
split_at sep [] = [] ∷ []
split_at sep (b ∷ bs) =
    let rest = split_at sep bs in if eqb b sep then [] ∷ rest else start_part b rest

-- `strings.Join(parts, sep)`
unfoldable pub join_with : Bytes → List Bytes → Bytes
join_with sep [] = []
join_with sep (part ∷ []) = part
join_with sep (part ∷ next ∷ parts) = part ++ (sep ++ join_with sep (next ∷ parts))

pub eq_bytes-eq : (a b : Bytes) → eq_bytes a b ≡ true → a ≡ b
unfolding eq_bytes
eq_bytes-eq [] [] e = refl
eq_bytes-eq [] (b ∷ bs) e = absurd (ground arith)
eq_bytes-eq (a ∷ rest) [] e = absurd (ground arith)
eq_bytes-eq (a ∷ rest) (b ∷ bs) e = ground (arith, eq_bytes-eq rest bs)

pub eq_bytes_refl : (a : Bytes) → eq_bytes a a ≡ true
unfolding eq_bytes
eq_bytes_refl [] = refl
eq_bytes_refl (a ∷ rest) = ground (arith, eq_bytes_refl rest)

pub has_prefix-rest : (p s : Bytes) → has_prefix p s ≡ true → (rest : Bytes) × (s ≡ p ++ rest)
unfolding has_prefix
has_prefix-rest [] s e = (s, refl)
has_prefix-rest (p ∷ ps) [] e = absurd (ground arith)
has_prefix-rest (p ∷ ps) (b ∷ bs) e =
    let (rest, f) = has_prefix-rest ps bs (ground arith) in (rest, ground arith)

pub has_prefix-append : (p rest : Bytes) → has_prefix p (p ++ rest) ≡ true
unfolding has_prefix
has_prefix-append [] rest = refl
has_prefix-append (p ∷ ps) rest = ground (arith, has_prefix-append ps rest)

-- A cut at a byte that the first part does not have.
pub cut-append :
    (sep : ℕ) (before after : Bytes)
    → cut sep before ≡ none
    → cut sep (before ++ (sep ∷ after)) ≡ some (before, after)
unfolding cut
cut-append sep [] after e = ground arith
cut-append sep (b ∷ bs) after e = elim (Option-cases (cut sep bs)) [
  | inl n ↦ ground (arith, cut-append sep bs after n)
  | inr (found, f) ↦ absurd (ground arith)
]

pub cut-whole :
    (sep : ℕ) (s before after : Bytes)
    → cut sep s ≡ some (before, after)
    → s ≡ before ++ (sep ∷ after)
unfolding cut
cut-whole sep [] before after e = absurd (ground arith)
cut-whole sep (b ∷ bs) before after e = elim (Option-cases (cut sep bs)) [
  | inl n ↦ ground arith
  | inr ((first, rest), f) ↦ ground (arith, cut-whole sep bs first rest f)
]

-- A text is split where a part that does not have the byte ends.
pub split_at-part :
    (sep : ℕ) (part rest : Bytes)
    → cut sep part ≡ none
    → split_at sep (part ++ (sep ∷ rest)) ≡ part ∷ split_at sep rest
unfolding split_at cut start_part
split_at-part sep [] rest e = ground arith
split_at-part sep (b ∷ bs) rest e = elim (Option-cases (cut sep bs)) [
  | inl n ↦ ground (arith, split_at-part sep bs rest n)
  | inr (found, f) ↦ absurd (ground arith)
]

pub split_at-last : (sep : ℕ) (part : Bytes) → cut sep part ≡ none → split_at sep part ≡ part ∷ []
unfolding split_at cut start_part
split_at-last sep [] e = refl
split_at-last sep (b ∷ bs) e = elim (Option-cases (cut sep bs)) [
  | inl n ↦ ground (arith, split_at-last sep bs n)
  | inr (found, f) ↦ absurd (ground arith)
]

-- Neither of two texts has a byte that their concatenation does not have.
pub cut-append_none :
    (sep : ℕ) (a b : Bytes) → cut sep (a ++ b) ≡ none → (cut sep a ≡ none) × (cut sep b ≡ none)
unfolding cut
cut-append_none sep [] b e = (refl, e)
cut-append_none sep (x ∷ a) b e = elim (Option-cases (cut sep (a ++ b))) [
  | inl n ↦ let (before, after) = cut-append_none sep a b n in (ground (arith, before), after)
  | inr (found, f) ↦ absurd (ground arith)
]

start_part-None :
    (sep b : ℕ) (parts : List Bytes)
    → eqb b sep ≡ false
    → All (λ part. cut sep part ≡ none) parts
    → All (λ part. cut sep part ≡ none) (start_part b parts)
unfolding start_part cut
start_part-None sep b [] n h = (ground arith, tt)
start_part-None sep b (part ∷ parts) n h = (ground (arith, h.0), h.1)

-- The parts of a split do not have the byte.
pub split_at-None : (sep : ℕ) (s : Bytes) → All (λ part. cut sep part ≡ none) (split_at sep s)
unfolding split_at cut
split_at-None sep [] = (refl, tt)
split_at-None sep (b ∷ bs) = elim (Bool-cases (eqb b sep)) [
  | inl y ↦ rw y (refl, split_at-None sep bs)
  | inr n ↦ rw n (start_part-None sep b (split_at sep bs) n (split_at-None sep bs))
]
