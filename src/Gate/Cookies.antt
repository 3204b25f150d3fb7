-- ===== src/Gate/Cookies.antt =====
-- The cookies that the gate sends on (`stripGate` in internal/devserver/gate.go).
use hamr.Base.{
  false, none, List, [], ◌∷◌, ◌++◌, ◌≡◌, ◌≢◌, arith, inl, inr, Bool-cases, refl, sym, ◌∙◌, ap,
  subst,
}
use hamr.Base.Lists.{All, All-append}
use hamr.Base.Bytes.{
  Bytes, eq_bytes, cut, split_at, join_with, eq_bytes_refl, cut-append, split_at-part,
  split_at-last, cut-append_none, split_at-None,
}
use hamr.Gate.{
  GateLibrary, GateRequest, gate_cookie, strip_gate, keep_parts, keep_lines, join_kept, cookie_name,
  is_kept,
}

-- What `strings.TrimSpace` does: it cuts off both ends, at most once, and a space among them.
pub record IsTrim (trim : Bytes → Bytes) : Type 0 where
  pub once : (s : Bytes) → trim (trim s) ≡ trim s
  pub space : (s : Bytes) → trim (32 ∷ s) ≡ trim s
  pub inside : (s : Bytes) → (before after : Bytes) × (s ≡ before ++ (trim s ++ after))

-- Neither the name of the gate's cookie nor that cookie with a value.
abbrev pub NotGate : Bytes → Type 0
NotGate part = (part ≢ gate_cookie) × ((value : Bytes) → part ≢ gate_cookie ++ (61 ∷ value))

-- No part of the cookie line is the gate's.
abbrev pub HasNoGate : GateLibrary → Bytes → Type 0
HasNoGate lib line = All (λ part. NotGate (lib.trim_space part)) (split_at 59 line)

-- Without the gate's header and cookies.
abbrev pub IsStripped : GateLibrary → GateRequest → Type 0
IsStripped lib r = (r.gate_header ≡ []) × All (HasNoGate lib) r.cookie_lines

other_name-NotGate : (part : Bytes) → eq_bytes (cookie_name part) gate_cookie ≡ false → NotGate part
unfolding cut
other_name-NotGate part e = (
  λ same. ground (arith, eq_bytes_refl gate_cookie),
  λ value same. ground (arith, cut-append 61 gate_cookie value refl, eq_bytes_refl gate_cookie),
)

module _ (lib : GateLibrary) (trims : IsTrim lib.trim_space) where
  -- A part that is sent on: trimmed, without semicolons and not the gate's.
  abbrev Sent : Bytes → Type 0
  Sent part = (lib.trim_space part ≡ part) × (cut 59 part ≡ none) × NotGate part

  trimmed-none : (part : Bytes) → cut 59 part ≡ none → cut 59 (lib.trim_space part) ≡ none
  trimmed-none part e =
      let (before, after, whole) = trims.inside part in
      let rest =
        cut-append_none 59 before (lib.trim_space part ++ after) (ap (cut 59) (sym whole) ∙ e) in
      (cut-append_none 59 (lib.trim_space part) after rest.1).0

  keep_parts-Sent :
      (parts : List Bytes)
      → All (λ part. cut 59 part ≡ none) parts
      → All Sent (keep_parts lib parts)
  unfolding keep_parts
  keep_parts-Sent [] h = tt
  keep_parts-Sent (part ∷ parts) h = elim (Bool-cases (is_kept lib part)) [
    | inl y ↦ rw y (
      (
        trims.once part,
        trimmed-none part h.0,
        other_name-NotGate (lib.trim_space part) (ground arith),
      ),
      keep_parts-Sent parts h.1,
    )
    | inr n ↦ rw n (keep_parts-Sent parts h.1)
  ]

  keep_lines-Sent : (lines : List Bytes) → All Sent (keep_lines lib lines)
  unfolding keep_lines
  keep_lines-Sent [] = tt
  keep_lines-Sent (line ∷ lines) =
      All-append Sent (keep_parts lib (split_at 59 line)) (keep_lines lib lines)
        (keep_parts-Sent (split_at 59 line) (split_at-None 59 line)) (keep_lines-Sent lines)

  join-lead :
      (part : Bytes) (parts : List Bytes)
      → 32 ∷ join_with (59 ∷ 32 ∷ []) (part ∷ parts)
        ≡ join_with (59 ∷ 32 ∷ []) ((32 ∷ part) ∷ parts)
  unfolding join_with
  join-lead part [] = refl
  join-lead part (next ∷ parts) = refl

  join-HasNoGate :
      (part : Bytes) (parts : List Bytes)
      → cut 59 part ≡ none
      → NotGate (lib.trim_space part)
      → All Sent parts
      → HasNoGate lib (join_with (59 ∷ 32 ∷ []) (part ∷ parts))
  unfolding join_with cut
  join-HasNoGate part [] e not_gate h = rw (split_at-last 59 part e) (not_gate, tt)
  join-HasNoGate part (next ∷ parts) e not_gate ((once, plain, other), h) =
      let rest =
        join-HasNoGate (32 ∷ next) parts (ground (arith, plain))
          (subst NotGate (sym (trims.space next ∙ once)) other) h in
      let led : join_with (59 ∷ 32 ∷ []) (part ∷ next ∷ parts)
          ≡ part ++ (59 ∷ join_with (59 ∷ 32 ∷ []) ((32 ∷ next) ∷ parts)) =
        ap (λ s. part ++ (59 ∷ s)) (join-lead next parts) in
      rw (led, split_at-part 59 part (join_with (59 ∷ 32 ∷ []) ((32 ∷ next) ∷ parts)) e)
        (not_gate, rest)

  join_kept-HasNoGate :
      (parts : List Bytes) → All Sent parts → All (HasNoGate lib) (join_kept parts)
  join_kept-HasNoGate [] h = tt
  join_kept-HasNoGate (part ∷ parts) ((once, plain, other), h) =
      (join-HasNoGate part parts plain (subst NotGate (sym once) other) h, tt)

  pub strip_gate-IsStripped : (r : GateRequest) → IsStripped lib (strip_gate lib r)
  unfolding strip_gate
  strip_gate-IsStripped r =
      (refl, join_kept-HasNoGate (keep_lines lib r.cookie_lines) (keep_lines-Sent r.cookie_lines))
