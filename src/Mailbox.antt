-- ===== src/Mailbox.antt =====
-- The mbox files of the mail mock (internal/devserver/mailmock_mbox.go): the escape of a body and its
-- inverse, on bytes. `scanner` is a `bufio.Scanner` on lines, which drops a carriage return at the end
-- of a line and stops at a line as long as its buffer.
pub mod Lines
pub mod RoundTrip
pub mod Entries
use hamr.Base.{ℕ, Bool, true, false, not, ◌&&◌, List, [], ◌∷◌, ◌++◌, map, eqb, leb, if◌then◌else◌}
use hamr.Base.Lists.{length}
unfoldable pub use hamr.Base.Bytes.{Bytes, has_prefix}

abbrev pub newline : ℕ
newline = 10

abbrev pub carriage_return : ℕ
carriage_return = 13

-- `>`
abbrev pub greater : ℕ
greater = 62

-- `From `
abbrev pub from_word : Bytes
from_word = 70 ∷ 114 ∷ 111 ∷ 109 ∷ 32 ∷ []

-- `strings.TrimLeft(line, ">")`
unfoldable pub trim_left : Bytes → Bytes
trim_left [] = []
trim_left (b ∷ bs) = if eqb b greater then trim_left bs else b ∷ bs

-- `strings.ReplaceAll(body, "\r\n", "\n")`
unfoldable pub normalize : Bytes → Bytes
normalize [] = []
normalize (b ∷ []) = b ∷ []
normalize (b ∷ c ∷ bs) =
    let rest = normalize (c ∷ bs) in
    if eqb b carriage_return && eqb c newline then rest else b ∷ rest

unfoldable pub push : ℕ → List Bytes → List Bytes
push b [] = (b ∷ []) ∷ []
push b (line ∷ lines) = (b ∷ line) ∷ lines

-- `strings.Split(s, "\n")`
unfoldable pub split : Bytes → List Bytes
unfolding push
split [] = [] ∷ []
split (b ∷ bs) = let rest = split bs in if eqb b newline then [] ∷ rest else push b rest

-- `strings.Join(lines, "\n")`
unfoldable pub join : List Bytes → Bytes
join [] = []
join (line ∷ []) = line
join (line ∷ next ∷ lines) = line ++ (newline ∷ join (next ∷ lines))

unfoldable pub escape_line : Bytes → Bytes
unfolding has_prefix trim_left
escape_line line = if has_prefix from_word (trim_left line) then greater ∷ line else line

unfoldable pub escape_body : Bytes → Bytes
unfolding join escape_line split normalize
escape_body [] = []
escape_body (b ∷ bs) = join (map escape_line (split (normalize (b ∷ bs))))

-- The scanner yields no empty line after the last newline, ...
unfoldable pub drop_last_empty : List Bytes → List Bytes
drop_last_empty [] = []
drop_last_empty ([] ∷ []) = []
drop_last_empty ((b ∷ bs) ∷ []) = (b ∷ bs) ∷ []
drop_last_empty (line ∷ next ∷ lines) = line ∷ drop_last_empty (next ∷ lines)

-- ... and drops one carriage return at the end of a line.
unfoldable pub drop_return : Bytes → Bytes
drop_return [] = []
drop_return (b ∷ []) = if eqb b carriage_return then [] else b ∷ []
drop_return (b ∷ c ∷ bs) = b ∷ drop_return (c ∷ bs)

unfoldable pub until_too_long : ℕ → List Bytes → List Bytes
unfolding drop_return
until_too_long limit [] = []
until_too_long limit (line ∷ lines) =
    let rest = until_too_long limit lines in
    if leb limit (length line) then [] else drop_return line ∷ rest

unfoldable pub scanner : ℕ → Bytes → List Bytes
unfolding until_too_long drop_last_empty split
scanner limit bytes = until_too_long limit (drop_last_empty (split bytes))

unfoldable pub unescape_line : Bytes → Bytes
unfolding has_prefix trim_left
unescape_line [] = []
unescape_line (b ∷ rest) =
    if eqb b greater && has_prefix from_word (trim_left rest) then rest else b ∷ rest

-- The writes of the loop, and of the newline after it.
unfoldable pub write_lines : Bool → List Bytes → Bytes
unfolding unescape_line
write_lines first [] = if first then [] else newline ∷ []
write_lines first (line ∷ lines) =
    let rest = unescape_line line ++ write_lines false lines in
    if first then rest else newline ∷ rest

-- `unescapeMBox`, with the size of the scanner's buffer.
unfoldable pub unescape : ℕ → Bytes → Bytes
unfolding write_lines scanner
unescape limit body = write_lines true (scanner limit body)

abbrev pub is_empty : Bytes → Bool
is_empty [] = true
is_empty (b ∷ bs) = false

-- The loop of `splitMboxEntries` on the lines that are left: the entry so far, and whether the line
-- before is blank.
unfoldable pub split_from : Bytes → Bool → List Bytes → List Bytes
unfolding has_prefix
split_from current blank [] = if is_empty current then [] else current ∷ []
split_from current blank (line ∷ lines) =
    let starts = has_prefix from_word line && blank in
    let kept = if starts then [] else current in
    let rest = split_from (kept ++ (line ++ (newline ∷ []))) (is_empty line) lines in
    if starts && not (is_empty current) then current ∷ rest else rest

unfoldable pub split_entries : ℕ → Bytes → List Bytes
unfolding split_from scanner
split_entries limit bytes = split_from [] true (scanner limit bytes)
