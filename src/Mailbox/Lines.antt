-- ===== src/Mailbox/Lines.antt =====
-- Bodies as lines: what is split at newlines, and what is joined by them.
use hamr.Base.{
  ℕ, Bool, true, false, not, ◌&&◌, List, [], ◌∷◌, ◌++◌, eqb, ◌≡◌, refl, arith, ap, sym, ◌∙◌, ◌≢◌,
  Bool-cases, inl, inr,
}
use hamr.Base.Lists.{All}
use hamr.Mailbox.{Bytes, newline, carriage_return, push, split, join}

-- A line holds no newline.
unfoldable pub one_line : Bytes → Bool
one_line [] = true
one_line (b ∷ bs) = not (eqb b newline) && one_line bs

unfoldable pub no_return : Bytes → Bool
no_return [] = true
no_return (b ∷ bs) = not (eqb b carriage_return) && no_return bs

-- A joined list of lines splits into them again.
pub split-line :
    (line rest : Bytes)
    → one_line line ≡ true
    → split (line ++ (newline ∷ rest)) ≡ line ∷ split rest
unfolding split one_line push
split-line [] rest h = refl
split-line (b ∷ bs) rest h = ground (arith, split-line bs rest)

pub split-one_line : (line : Bytes) → one_line line ≡ true → split line ≡ line ∷ []
unfolding split one_line push
split-one_line [] h = refl
split-one_line (b ∷ bs) h = ground (arith, split-one_line bs)

pub split-join :
    (first : Bytes) (lines : List Bytes)
    → All (λ l. one_line l ≡ true) (first ∷ lines)
    → split (join (first ∷ lines)) ≡ first ∷ lines
unfolding join
split-join first [] h = split-one_line first h.0
split-join first (next ∷ lines) h =
    split-line first (join (next ∷ lines)) h.0 ∙ ap (λ x. first ∷ x) (split-join next lines h.1)

pub push-one_line :
    (b : ℕ) (lines : List Bytes)
    → eqb b newline ≡ false
    → All (λ l. one_line l ≡ true) lines
    → All (λ l. one_line l ≡ true) (push b lines)
unfolding push one_line
push-one_line b [] n h = (ground (arith), tt)
push-one_line b (line ∷ lines) n h = (ground (arith, h.0), h.1)

pub split-one_lines : (bs : Bytes) → All (λ l. one_line l ≡ true) (split bs)
unfolding split one_line
split-one_lines [] = (refl, tt)
split-one_lines (b ∷ bs) = elim (Bool-cases (eqb b newline)) [
  | inl y ↦ rw (y, split) (refl, split-one_lines bs)
  | inr n ↦ rw (n, split) (push-one_line b (split bs) n (split-one_lines bs))
]

pub push-no_return :
    (b : ℕ) (lines : List Bytes)
    → eqb b carriage_return ≡ false
    → All (λ l. no_return l ≡ true) lines
    → All (λ l. no_return l ≡ true) (push b lines)
unfolding push no_return
push-no_return b [] n h = (ground (arith), tt)
push-no_return b (line ∷ lines) n h = (ground (arith, h.0), h.1)

pub split-no_return : (bs : Bytes) → no_return bs ≡ true → All (λ l. no_return l ≡ true) (split bs)
unfolding split no_return
split-no_return [] h = (refl, tt)
split-no_return (b ∷ bs) h =
    let later : All (λ l. no_return l ≡ true) (split bs) = split-no_return bs (ground (arith)) in
    elim (Bool-cases (eqb b newline)) [
      | inl y ↦ rw (y, split) (refl, later)
      | inr n ↦ rw (n, split) (push-no_return b (split bs) (ground (arith)) later)
    ]

pub split-newline : (b : ℕ) (bs : Bytes) → eqb b newline ≡ true → split (b ∷ bs) ≡ [] ∷ split bs
unfolding split
split-newline b bs y = rw (y, split) refl

pub split-push : (b : ℕ) (bs : Bytes) → eqb b newline ≡ false → split (b ∷ bs) ≡ push b (split bs)
unfolding split
split-push b bs n = rw (n, split) refl

pub push-nonempty : (b : ℕ) (lines : List Bytes) → (push b lines ≢ []) × (push b lines ≢ [] ∷ [])
unfolding push
push-nonempty b [] = ((λ e. absurd (cc)), λ e. absurd (cc))
push-nonempty b (line ∷ lines) = ((λ e. absurd (cc)), λ e. absurd (cc))

pub split-nonempty : (bs : Bytes) → split bs ≢ []
unfolding split
split-nonempty [] e = absurd (cc)
split-nonempty (b ∷ bs) e = elim (Bool-cases (eqb b newline)) [
  | inl y ↦ absurd (cc (split-newline b bs y, e))
  | inr n ↦ (push-nonempty b (split bs)).0 (sym (split-push b bs n) ∙ e)
]

-- No text splits into one empty line but the empty one.
pub split-more : (b : ℕ) (bs : Bytes) → split (b ∷ bs) ≢ [] ∷ []
split-more b bs e = elim (Bool-cases (eqb b newline)) [
  | inl y ↦ split-nonempty bs (cc (split-newline b bs y, e))
  | inr n ↦ (push-nonempty b (split bs)).1 (sym (split-push b bs n) ∙ e)
]

pub split-join_lines :
    (lines : List Bytes)
    → lines ≢ []
    → All (λ l. one_line l ≡ true) lines
    → split (join lines) ≡ lines
split-join_lines [] h all = absurd (h refl)
split-join_lines (line ∷ lines) h all = split-join line lines all
