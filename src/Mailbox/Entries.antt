-- ===== src/Mailbox/Entries.antt =====
-- The cut of a file into entries (splitMboxEntries).
use hamr.Base.{ℕ, Bool, true, false, List, [], ◌∷◌, ◌++◌, map, ◌≡◌, refl, ap, ◌∙◌}
use mathlib.Core.List.{append_assoc, append-nil}
use hamr.Base.Lists.{All}
use hamr.Mailbox.{
  Bytes, newline, from_word, has_prefix, is_empty, split_from, split_entries, scanner,
}
use hamr.Mailbox.RoundTrip.{lines_out}

-- An entry as lines: its `From ` line, and the others.
pub record Entry : Type 0 where
  pub opening : Bytes
  pub others : List Bytes

abbrev pub ends_blank : Bool → List Bytes → Bool
ends_blank blank [] = blank
ends_blank blank (line ∷ lines) = ends_blank (is_empty line) lines

-- The first line starts an entry, no other line does, and the last is blank.
abbrev pub IsEntry : Entry → Type 0
IsEntry e =
    (has_prefix from_word e.opening ≡ true)
    × All (λ l. has_prefix from_word l ≡ false) e.others
    × (ends_blank false e.others ≡ true)

abbrev pub entry_lines : List Entry → List Bytes
entry_lines [] = []
entry_lines (e ∷ es) = e.opening ∷ (e.others ++ entry_lines es)

abbrev pub entry_bytes : Entry → Bytes
entry_bytes e = lines_out (e.opening ∷ e.others)

-- A line that starts no entry, one that does, ...
split_from-other :
    (current : Bytes) (blank : Bool) (line : Bytes) (lines : List Bytes)
    → has_prefix from_word line ≡ false
    → split_from current blank (line ∷ lines)
      ≡ split_from (current ++ (line ++ (newline ∷ []))) (is_empty line) lines
unfolding split_from
split_from-other current blank line lines n = rw (n, split_from) refl

split_from-opening :
    (b : ℕ) (current line : Bytes) (lines : List Bytes)
    → has_prefix from_word line ≡ true
    → split_from (b ∷ current) true (line ∷ lines)
      ≡ (b ∷ current) ∷ split_from (line ++ (newline ∷ [])) (is_empty line) lines
unfolding split_from
split_from-opening b current line lines y = rw (y, split_from) refl

split_from-start :
    (line : Bytes) (lines : List Bytes)
    → has_prefix from_word line ≡ true
    → split_from [] true (line ∷ lines) ≡ split_from (line ++ (newline ∷ [])) (is_empty line) lines
unfolding split_from
split_from-start line lines y = rw (y, split_from) refl

-- Lines that start no entry are added to the one that is being read.
split_from-others :
    (current : Bytes) (blank : Bool) (others rest : List Bytes)
    → All (λ l. has_prefix from_word l ≡ false) others
    → split_from current blank (others ++ rest)
      ≡ split_from (current ++ lines_out others) (ends_blank blank others) rest
unfolding split_from lines_out
split_from-others current blank [] rest h = cc (append-nil current)
split_from-others current blank (line ∷ lines) rest h =
    let L = lines_out lines in
    let step = split_from-other current blank line (lines ++ rest) h.0 in
    let all =
      split_from-others (current ++ (line ++ (newline ∷ []))) (is_empty line) lines rest h.1 in
    let inner : (line ++ (newline ∷ [])) ++ L ≡ line ++ (newline ∷ L) =
      append_assoc line (newline ∷ []) L in
    let outer : (current ++ (line ++ (newline ∷ []))) ++ L
        ≡ current ++ ((line ++ (newline ∷ [])) ++ L) =
      append_assoc current (line ++ (newline ∷ [])) L in
    cc (step, all, inner, outer)

from_line-nonempty :
    (line : Bytes)
    → has_prefix from_word line ≡ true
    → (is_empty line ≡ false) × ((b : ℕ) × (bs : Bytes) × (line ≡ b ∷ bs))
unfolding has_prefix
from_line-nonempty [] h = absurd (cc)
from_line-nonempty (b ∷ bs) h = (refl, (b, bs, refl))

-- ... and a whole entry, which leaves its bytes and a blank line before what follows.
split_from-entry :
    (e : Entry) (rest : List Bytes)
    → IsEntry e
    → split_from (e.opening ++ (newline ∷ [])) (is_empty e.opening) (e.others ++ rest)
      ≡ split_from (entry_bytes e) true rest
unfolding lines_out
split_from-entry e rest h =
    let some_line = (from_line-nonempty e.opening h.0).0 in
    let all =
      split_from-others (e.opening ++ (newline ∷ [])) (is_empty e.opening) e.others rest h.1 in
    let joined = append_assoc e.opening (newline ∷ []) (lines_out e.others) in
    cc (some_line, all, joined, h.2)

split_from-entries :
    (b : ℕ) (current : Bytes) (es : List Entry)
    → All IsEntry es
    → split_from (b ∷ current) true (entry_lines es) ≡ (b ∷ current) ∷ map entry_bytes es
unfolding split_from lines_out
split_from-entries b current [] h = refl
split_from-entries b current (e ∷ es) h =
    let (_, (c, cs, shape)) = from_line-nonempty e.opening h.0.0 in
    let L = newline ∷ lines_out e.others in
    let bytes : entry_bytes e ≡ c ∷ (cs ++ L) = ap (λ o. o ++ L) shape in
    cc (
      split_from-opening b current e.opening (e.others ++ entry_lines es) h.0.0,
      split_from-entry e (entry_lines es) h.0,
      bytes,
      split_from-entries c (cs ++ L) es h.1,
    )

-- `splitMboxEntries` of a file whose lines, as the scanner reads them, are those of a list of entries,
-- each of which starts with a `From ` line, has no other line that begins so, and ends with a blank
-- line: it gives back these entries, each with a newline after every line.
pub split_entries-entry_lines :
    (limit : ℕ) (bytes : Bytes) (es : List Entry)
    → All IsEntry es
    → scanner limit bytes ≡ entry_lines es
    → split_entries limit bytes ≡ map entry_bytes es
unfolding split_entries split_from lines_out
split_entries-entry_lines limit bytes [] h e = ap (split_from [] true) e
split_entries-entry_lines limit bytes (entry ∷ es) h e =
    let (_, (c, cs, shape)) = from_line-nonempty entry.opening h.0.0 in
    let L = newline ∷ lines_out entry.others in
    let same : entry_bytes entry ≡ c ∷ (cs ++ L) = ap (λ o. o ++ L) shape in
    ap (split_from [] true) e
    ∙ cc (
      split_from-start entry.opening (entry.others ++ entry_lines es) h.0.0,
      split_from-entry entry (entry_lines es) h.0,
      same,
      split_from-entries c (cs ++ L) es h.1,
    )
