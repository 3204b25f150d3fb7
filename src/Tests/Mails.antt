-- ===== src/Tests/Mails.antt =====
-- The body `From a`, `>From b` and `c`, its line ends as a mail has them.
use hamr.Base.{[], ◌∷◌, ◌++◌, map, true, false, ◌≡◌, ◌<◌, refl, arith}
use hamr.Base.Lists.{length, All}
use hamr.Mailbox.{
  Bytes, from_word, greater, has_prefix, normalize, split, escape_body, unescape, scanner,
  split_entries,
}
use hamr.Mailbox.Entries.{Entry, IsEntry, entry_lines, entry_bytes, split_entries-entry_lines}
use hamr.Mailbox.Lines.{no_return}
use hamr.Mailbox.RoundTrip.{terminated, unescape-escape_body, escape_body-no_from}

abbrev body : Bytes
body = from_word ++ (97 ∷ 13 ∷ 10 ∷ greater ∷ from_word ++ (98 ∷ 13 ∷ 10 ∷ 99 ∷ []))

body_plain : no_return (normalize body) ≡ true
unfolding no_return normalize
body_plain = refl

body_fits : All (λ l. length l < 64) (split (escape_body body))
unfolding split escape_body
body_fits = (omega arith, (omega arith, (omega arith, tt)))

unescape-escape_body_example : unescape 64 (escape_body body) ≡ terminated (normalize body)
unescape-escape_body_example = unescape-escape_body 64 body body_plain body_fits

escape_body-no_from_example : All (λ l. has_prefix from_word l ≡ false) (split (escape_body body))
escape_body-no_from_example = escape_body-no_from body body_plain

-- Two entries: an opening line, a line of text and a blank one each.
abbrev entry : Entry
entry = record { opening = from_word ++ (97 ∷ []); others = (98 ∷ []) ∷ [] ∷ [] }

abbrev file : Bytes
file = from_word ++ (97 ∷ 10 ∷ 98 ∷ 13 ∷ 10 ∷ 10 ∷ from_word ++ (97 ∷ 10 ∷ 98 ∷ 10 ∷ 10 ∷ []))

file_lines : scanner 64 file ≡ entry_lines (entry ∷ entry ∷ [])
unfolding scanner
file_lines = refl

entry-IsEntry : IsEntry entry
unfolding has_prefix
entry-IsEntry = (refl, (refl, (refl, tt)), refl)

split_entries-entry_lines_example : split_entries 64 file ≡ map entry_bytes (entry ∷ entry ∷ [])
split_entries-entry_lines_example =
    split_entries-entry_lines 64 file (entry ∷ entry ∷ []) (entry-IsEntry, (entry-IsEntry, tt))
      file_lines
