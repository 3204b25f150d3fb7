-- ===== src/Tests/Small.antt =====
-- Tests of the log buffer, of pages and of flags.
use hamr.Base.{ℕ, ◌*◌, ◌<◌, String, true, List, [], ◌∷◌, ◌++◌, ◌≡◌, ◌↔◌, refl, arith}
use hamr.Base.Int.{ℤ, pos, ltb_ℤ}
use hamr.LogBuffer.{LogLine, LogBuffer, append_all, last, stamp_all, append_all-last}
use hamr.Pagination.{new_page, new_page-covers}
use hamr.Flags.{Rule, Scope, is_in, has_role, matches, matches-percent}

abbrev pub line_of : String → LogLine
line_of t = record { rule = "web"; line = t; color = ""; time = 0 }

abbrev pub buffer : LogBuffer
buffer = record { lines = line_of "a" ∷ line_of "b" ∷ []; max_lines = 2 }

abbrev pub appended : List (ℕ × LogLine)
appended = (5, line_of "c") ∷ (6, line_of "d") ∷ []

append_all-last_example :
    (append_all appended buffer).lines ≡ last 2 (buffer.lines ++ stamp_all appended)
append_all-last_example = append_all-last appended buffer refl

new_page-covers_example :
    ((ltb_ℤ (pos 2) (new_page (pos 2) (pos 10) (pos 25)).total_pages ≡ true) ↔ (2 * 10 < 25))
    × (((new_page (pos 2) (pos 10) (pos 25)).has_next ≡ true) ↔ (2 * 10 < 25))
new_page-covers_example = new_page-covers 2 10 25 2 (omega arith) (omega arith)

abbrev pub rollout : Rule
rollout = record {
  key = "new-nav";
  enabled = true;
  subjects = "u1" ∷ [];
  roles = "admin" ∷ [];
  percent = pos 20;
}

abbrev pub visitor : Scope
visitor = record { who = record { subject_id = "u2"; user_roles = [] }; hash = "u2" }

abbrev pub bucket : String → String → ℤ
bucket key id = pos 13

matches-percent_example : matches bucket (record rollout { percent = pos 50 }) visitor ≡ true
unfolding matches is_in has_role
matches-percent_example = matches-percent bucket rollout visitor (pos 50) (omega arith) refl
