-- ===== src/LogBuffer.antt =====
-- The ring buffer of log lines (internal/devserver/logbuffer.go).
use hamr.Base.{
  ℕ, zero, suc, ◌+◌, ◌-◌, ◌≤◌, String, List, [], ◌∷◌, ◌++◌, ◌≡◌, refl, sym, ap, ◌∙◌, arith, ltb,
  eqb, inl, inr, Bool-cases, if◌then◌else◌,
}
use hamr.Base.Lists.{append_nil, append_assoc, length, take, drop, length-append, length-drop}

-- A time of 0 is Go's zero `time.Time`.
pub record LogLine : Type 0 where
  pub rule : String
  pub line : String
  pub color : String
  pub time : ℕ

pub record LogBuffer : Type 0 where
  pub lines : List LogLine
  pub max_lines : ℕ

abbrev pub new_log_buffer : ℕ → LogBuffer
new_log_buffer max_lines = record { lines = []; max_lines = max_lines }

abbrev pub stamped : ℕ → LogLine → LogLine
stamped now l = if eqb l.time 0 then record l { time = now } else l

-- `copy` moves the lines from the excess on to the front, and the slice is cut to the maximum.
unfoldable pub trim : ℕ → List LogLine → List LogLine
trim max_lines ls =
    if ltb max_lines (length ls) then take max_lines (drop (length ls - max_lines) ls) else ls

unfoldable pub append_line : ℕ → LogLine → LogBuffer → LogBuffer
unfolding trim
append_line now l lb = record lb { lines = trim lb.max_lines (lb.lines ++ stamped now l ∷ []) }

unfoldable pub append_all : List (ℕ × LogLine) → LogBuffer → LogBuffer
unfolding append_line
append_all [] lb = lb
append_all ((now, l) ∷ ls) lb = append_all ls (append_line now l lb)

-- The last `n` of a list.
abbrev pub last : ℕ → List LogLine → List LogLine
last n ls = drop (length ls - n) ls

abbrev pub stamp_all : List (ℕ × LogLine) → List LogLine
stamp_all [] = []
stamp_all ((now, l) ∷ ls) = stamped now l ∷ stamp_all ls

take_all : (n : ℕ) (ls : List LogLine) → length ls ≤ n → take n ls ≡ ls
take_all zero [] h = refl
take_all zero (x ∷ ls) h = absurd (omega arith)
take_all (suc n) [] h = refl
take_all (suc n) (x ∷ ls) h = ap (λ r. x ∷ r) (take_all n ls (omega (arith, h)))

trim-last : (n : ℕ) (ls : List LogLine) → trim n ls ≡ last n ls
unfolding trim
trim-last n ls = elim (Bool-cases (ltb n (length ls))) [
  | inl over ↦ rw over (take_all n (last n ls) (omega (arith, length-drop (length ls - n) ls)))
  | inr fits ↦ let e : length ls - n ≡ 0 = ground (arith, fits) in rw (fits, e) refl
]

drop-append : (n : ℕ) (xs ys : List LogLine) → n ≤ length xs → drop n (xs ++ ys) ≡ drop n xs ++ ys
drop-append zero xs ys h = refl
drop-append (suc n) [] ys h = absurd (omega arith)
drop-append (suc n) (x ∷ xs) ys h = drop-append n xs ys (omega (arith, h))

drop_nil : (m : ℕ) → drop {A = LogLine} m [] ≡ []
drop_nil zero = refl
drop_nil (suc m) = refl

drop-drop : (m n : ℕ) (xs : List LogLine) → drop m (drop n xs) ≡ drop (n + m) xs
drop-drop m zero xs = ap (λ k. drop k xs) (omega arith)
drop-drop m (suc n) [] = rw (drop_nil m, drop_nil (suc n + m)) refl
drop-drop m (suc n) (x ∷ xs) =
    let e : suc n + m ≡ suc (n + m) = omega arith in rw e (drop-drop m n xs)

-- Trimming before more is appended changes nothing in the end.
last-append : (n : ℕ) (xs ys : List LogLine) → last n (last n xs ++ ys) ≡ last n (xs ++ ys)
last-append n xs ys =
    let k = length xs - n in
    let zs = xs ++ ys in
    let e : drop k xs ++ ys ≡ drop k zs = sym (drop-append k xs ys (omega arith)) in
    let f : k + (length (drop k zs) - n) ≡ length zs - n =
      omega (arith, length-drop k zs, length-append xs ys) in
    ap (last n) e ∙ drop-drop (length (drop k zs) - n) k zs ∙ ap (λ j. drop j zs) f

last-last : (n : ℕ) (zs : List LogLine) → last n zs ≡ last n (last n zs)
last-last n zs =
    let e : 0 ≡ length (last n zs) - n = omega (arith, length-drop (length zs - n) zs) in
    ap (λ j. drop j (last n zs)) e

-- A buffer that starts within its maximum holds, after any lines are appended, exactly the last
-- `max` of all the lines it got, in their order, those that it started with first.
pub append_all-last :
    (ls : List (ℕ × LogLine)) (lb : LogBuffer)
    → lb.lines ≡ last lb.max_lines lb.lines
    → (append_all ls lb).lines ≡ last lb.max_lines (lb.lines ++ stamp_all ls)
unfolding append_all append_line
append_all-last [] lb h = h ∙ ap (last lb.max_lines) (sym (append_nil lb.lines))
append_all-last ((now, l) ∷ ls) lb h =
    let n = lb.max_lines in
    let more = lb.lines ++ stamped now l ∷ [] in
    let trimmed = trim-last n more in
    append_all-last ls (append_line now l lb)
      (trimmed ∙ last-last n more ∙ ap (last n) (sym trimmed))
    ∙ ap (λ r. last n (r ++ stamp_all ls)) trimmed
    ∙ last-append n more (stamp_all ls)
    ∙ ap (last n) (append_assoc lb.lines (stamped now l ∷ []) (stamp_all ls))
