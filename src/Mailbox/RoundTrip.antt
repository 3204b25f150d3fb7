-- ===== src/Mailbox/RoundTrip.antt =====
-- Bodies escaped and unescaped (escapeMBoxBody and unescapeMBox).
use hamr.Base.{
  ℕ, true, false, List, [], ◌∷◌, ◌++◌, map, eqb, if◌then◌else◌, ◌≡◌, ◌<◌, refl, arith, ap, sym, ◌∙◌,
  ◌≢◌, subst, Bool-cases, inl, inr,
}
use hamr.Base.Lists.{length, All}
use hamr.Mailbox.{
  Bytes, newline, from_word, has_prefix, trim_left, normalize, push, split, join, escape_line,
  escape_body, drop_last_empty, drop_return, until_too_long, scanner, unescape_line, write_lines,
  unescape,
}
use hamr.Mailbox.Lines.{
  one_line, no_return, split-one_lines, split-no_return, split-newline, split-push, split-nonempty,
  split-more, split-join_lines,
}

-- The body with a newline after its last line.
unfoldable pub terminated : Bytes → Bytes
terminated [] = []
terminated (b ∷ []) = if eqb b newline then b ∷ [] else b ∷ newline ∷ []
terminated (b ∷ c ∷ bs) = b ∷ terminated (c ∷ bs)

unescape_line-escape_line : (line : Bytes) → unescape_line (escape_line line) ≡ line
unfolding unescape_line escape_line trim_left has_prefix
unescape_line-escape_line line = elim (Bool-cases (has_prefix from_word (trim_left line))) [
  | inl y ↦ rw (y, escape_line) (rw (y, unescape_line) refl)
  | inr n ↦ rw (n, escape_line) (go line n)
]
  where
    go : (l : Bytes) → has_prefix from_word (trim_left l) ≡ false → unescape_line l ≡ l
    go [] e = refl
    go (b ∷ bs) e = ground (arith)

escape_line-kept :
    (line : Bytes)
    → (one_line (escape_line line) ≡ one_line line)
      × (no_return (escape_line line) ≡ no_return line)
unfolding escape_line one_line no_return
escape_line-kept line = ground (arith)

escape-All :
    (lines : List Bytes)
    → All (λ l. one_line l ≡ true) lines
    → All (λ l. no_return l ≡ true) lines
    → All (λ l. one_line l ≡ true) (map escape_line lines)
      × All (λ l. no_return l ≡ true) (map escape_line lines)
escape-All [] h k = (tt, tt)
escape-All (line ∷ lines) h k =
    let (e, f) = escape_line-kept line in
    let (p, q) = escape-All lines h.1 k.1 in ((e ∙ h.0, p), (f ∙ k.0, q))

drop_return-same : (line : Bytes) → no_return line ≡ true → drop_return line ≡ line
unfolding drop_return no_return
drop_return-same [] h = refl
drop_return-same (b ∷ []) h = ground (arith)
drop_return-same (b ∷ c ∷ bs) h = ap (λ x. b ∷ x) (drop_return-same (c ∷ bs) (ground (arith)))

-- The scanner stops nowhere and drops nothing but an empty last line.
until_too_long-same :
    (limit : ℕ) (lines : List Bytes)
    → All (λ l. no_return l ≡ true) lines
    → All (λ l. length l < limit) lines
    → until_too_long limit (drop_last_empty lines) ≡ drop_last_empty lines
unfolding until_too_long drop_last_empty
until_too_long-same limit [] h k = refl
until_too_long-same limit ([] ∷ []) h k = refl
until_too_long-same limit ((b ∷ bs) ∷ []) h k = ground (arith, k.0, drop_return-same (b ∷ bs) h.0)
until_too_long-same limit (line ∷ next ∷ lines) h k =
    ground (arith, k.0, drop_return-same line h.0, until_too_long-same limit (next ∷ lines) h.1 k.1)

drop_last_empty-escape :
    (lines : List Bytes)
    → drop_last_empty (map escape_line lines) ≡ map escape_line (drop_last_empty lines)
unfolding drop_last_empty escape_line trim_left has_prefix
drop_last_empty-escape [] = refl
drop_last_empty-escape ([] ∷ []) = refl
drop_last_empty-escape ((b ∷ bs) ∷ []) =
    elim (Bool-cases (has_prefix from_word (trim_left (b ∷ bs)))) [
      | inl y ↦ rw (y, escape_line) refl
      | inr n ↦ rw (n, escape_line) refl
    ]
drop_last_empty-escape (line ∷ next ∷ lines) =
    ap (λ x. escape_line line ∷ x) (drop_last_empty-escape (next ∷ lines))

-- Each line with a newline after it.
unfoldable pub lines_out : List Bytes → Bytes
lines_out [] = []
lines_out (line ∷ lines) = line ++ (newline ∷ lines_out lines)

write_lines-rest :
    (lines : List Bytes) → write_lines false (map escape_line lines) ≡ newline ∷ lines_out lines
unfolding write_lines lines_out
write_lines-rest [] = refl
write_lines-rest (line ∷ lines) = cc (unescape_line-escape_line line, write_lines-rest lines)

write_lines-first :
    (lines : List Bytes) → write_lines true (map escape_line lines) ≡ lines_out lines
unfolding write_lines lines_out
write_lines-first [] = refl
write_lines-first (line ∷ lines) = cc (unescape_line-escape_line line, write_lines-rest lines)

blank-out :
    (lines : List Bytes)
    → lines ≢ []
    → lines_out (drop_last_empty ([] ∷ lines)) ≡ newline ∷ lines_out (drop_last_empty lines)
unfolding drop_last_empty lines_out
blank-out [] h = absurd (h refl)
blank-out (line ∷ lines) h = refl

push-out :
    (b : ℕ) (lines : List Bytes)
    → lines ≢ []
    → lines ≢ [] ∷ []
    → lines_out (drop_last_empty (push b lines)) ≡ b ∷ lines_out (drop_last_empty lines)
unfolding push drop_last_empty lines_out
push-out b [] h k = absurd (h refl)
push-out b ([] ∷ []) h k = absurd (k refl)
push-out b ((c ∷ line) ∷ []) h k = refl
push-out b (line ∷ next ∷ lines) h k = refl

lines_out-split : (bs : Bytes) → lines_out (drop_last_empty (split bs)) ≡ terminated bs
unfolding split terminated drop_last_empty lines_out push
lines_out-split [] = refl
lines_out-split (b ∷ []) = ground (arith)
lines_out-split (b ∷ c ∷ bs) = elim (Bool-cases (eqb b newline)) [
  | inl y ↦
      let same : b ≡ newline = ground (arith) in
      let out = blank-out (split (c ∷ bs)) (split-nonempty (c ∷ bs)) in
      cc (split-newline b (c ∷ bs) y, out, lines_out-split (c ∷ bs), same)
  | inr n ↦
      let out = push-out b (split (c ∷ bs)) (split-nonempty (c ∷ bs)) (split-more c bs) in
      cc (split-push b (c ∷ bs) n, out, lines_out-split (c ∷ bs))
]

map-nonempty : (lines : List Bytes) → lines ≢ [] → map escape_line lines ≢ []
map-nonempty [] h e = h refl
map-nonempty (line ∷ lines) h e = absurd (cc)

-- Escaped lines, joined and read again.
module _ (limit : ℕ) (text : Bytes) (plain : no_return text ≡ true) where
  escaped-lines : split (join (map escape_line (split text))) ≡ map escape_line (split text)
  escaped-lines =
      split-join_lines (map escape_line (split text))
        (map-nonempty (split text) (split-nonempty text))
        (escape-All (split text) (split-one_lines text) (split-no_return text plain)).0

  read_back :
      All (λ l. length l < limit) (split (join (map escape_line (split text))))
      → unescape limit (join (map escape_line (split text))) ≡ terminated text
  unfolding unescape scanner
  read_back short =
      let lines = map escape_line (split text) in
      let all = escape-All (split text) (split-one_lines text) (split-no_return text plain) in
      let fit : All (λ l. length l < limit) lines =
        subst (All (λ l. length l < limit)) escaped-lines short in
      cc (
        escaped-lines,
        until_too_long-same limit lines all.1 fit,
        drop_last_empty-escape (split text),
        write_lines-first (drop_last_empty (split text)),
        lines_out-split text,
      )

-- `unescapeMBox` of what `escapeMBoxBody` makes of a body, when every carriage return of the body
-- stands before a newline, and no escaped line is as long as the buffer of the scanner: the body with
-- its line ends as newlines, and with a newline after the last line.
pub unescape-escape_body :
    (limit : ℕ) (body : Bytes)
    → no_return (normalize body) ≡ true
    → All (λ l. length l < limit) (split (escape_body body))
    → unescape limit (escape_body body) ≡ terminated (normalize body)
unfolding unescape scanner escape_body normalize terminated
unescape-escape_body limit [] plain short = refl
unescape-escape_body limit (b ∷ bs) plain short = read_back limit (normalize (b ∷ bs)) plain short

unescaped_start : (line : Bytes) → has_prefix from_word (escape_line line) ≡ false
unfolding escape_line has_prefix trim_left
unescaped_start [] = ground (arith)
unescaped_start (b ∷ bs) = ground (arith)

start-All : (lines : List Bytes) → All (λ l. has_prefix from_word l ≡ false) (map escape_line lines)
start-All [] = tt
start-All (line ∷ lines) = (unescaped_start line, start-All lines)

-- No line of an escaped body begins with `From `, the start of an entry, when every carriage return of
-- the body stands before a newline.
pub escape_body-no_from :
    (body : Bytes)
    → no_return (normalize body) ≡ true
    → All (λ l. has_prefix from_word l ≡ false) (split (escape_body body))
unfolding escape_body
escape_body-no_from [] plain = (refl, tt)
escape_body-no_from (b ∷ bs) plain =
    subst (All (λ l. has_prefix from_word l ≡ false))
      (sym (escaped-lines 0 (normalize (b ∷ bs)) plain)) (start-All (split (normalize (b ∷ bs))))
