-- ===== src/Gate.antt =====
-- The password gate in front of the dev server (internal/devserver/gate.go), on texts as bytes and
-- times in whole seconds.
pub mod Cookies
pub mod Guard
pub mod Tokens
use hamr.Base.{
  ℕ, String, Bool, true, false, not, ◌&&◌, ◌||◌, Option, none, some, List, [], ◌∷◌, ◌++◌, ◌==◌, eqb,
  ltb, if◌then◌else◌,
}
use hamr.Base.Int.{ℤ, pos, ◌-ℤ◌, ltb_ℤ}
use hamr.Base.Bytes.{Bytes, has_prefix, eq_bytes, cut, split_at, join_with}

-- Go's packages: `path.Clean`, `strings.TrimSpace`, `strings.Contains`, `strconv.ParseInt` and
-- `FormatInt` in base 10, `url.QueryEscape`, the parser behind `(*http.Request).Cookies`, and
-- `mac password text`, the hex of the HMAC-SHA256.
pub record GateLibrary : Type 0 where
  pub clean : Bytes → Bytes
  pub trim_space : Bytes → Bytes
  pub contains : Bytes → Bytes → Bool
  pub parse_int : Bytes → Option ℤ
  pub format_int : ℤ → Bytes
  pub query_escape : Bytes → Bytes
  pub parse_cookies : List Bytes → List (Bytes × Bytes)
  pub mac : Bytes → Bytes → Bytes

-- `/`
abbrev pub slash : ℕ
slash = 47

-- `/__hamr`
abbrev pub panel_path : Bytes
panel_path = 47 ∷ 95 ∷ 95 ∷ 104 ∷ 97 ∷ 109 ∷ 114 ∷ []

-- `/__hamr/gate`
abbrev pub gate_path : Bytes
gate_path = panel_path ++ (47 ∷ 103 ∷ 97 ∷ 116 ∷ 101 ∷ [])

-- `__hamr_gate`
abbrev pub gate_cookie : Bytes
gate_cookie = 95 ∷ 95 ∷ 104 ∷ 97 ∷ 109 ∷ 114 ∷ 95 ∷ 103 ∷ 97 ∷ 116 ∷ 101 ∷ []

-- `hamr-gate|`
abbrev pub mac_prefix : Bytes
mac_prefix = 104 ∷ 97 ∷ 109 ∷ 114 ∷ 45 ∷ 103 ∷ 97 ∷ 116 ∷ 101 ∷ 124 ∷ []

-- `text/html`
abbrev pub html_type : Bytes
html_type = 116 ∷ 101 ∷ 120 ∷ 116 ∷ 47 ∷ 104 ∷ 116 ∷ 109 ∷ 108 ∷ []

-- `?next=`
abbrev pub next_query : Bytes
next_query = 63 ∷ 110 ∷ 101 ∷ 120 ∷ 116 ∷ 61 ∷ []

-- Seven days.
abbrev pub gate_max_age : ℤ
gate_max_age = pos 604800

-- A request as far as the gate reads it. `form` holds the password and the next page of a posted form,
-- `none` when it cannot be parsed.
pub record GateRequest : Type 0 where
  pub method : String
  pub path : Bytes
  pub request_uri : Bytes
  pub accept : Bytes
  pub gate_header : Bytes
  pub cookie_lines : List Bytes
  pub query_next : Bytes
  pub form : Option (Bytes × Bytes)

-- `forwarded` goes on to the handler behind the gate; `logged_in` sets the cookie and redirects.
pub data GateAnswer : Type 0 where
  forwarded : GateRequest → GateAnswer
  page : ℕ → Bytes → Bool → GateAnswer
  logged_in : Bytes → Bytes → GateAnswer
  bad_form not_allowed unauthorized : GateAnswer
  to_gate : Bytes → GateAnswer

abbrev pub is_unsafe : ℕ → Bool
is_unsafe b = eqb b 92 || ltb b 32 || eqb b 127

unfoldable pub contains_unsafe : Bytes → Bool
contains_unsafe [] = false
contains_unsafe (b ∷ bs) = is_unsafe b || contains_unsafe bs

unfoldable pub gate_next : Bytes → Bytes
unfolding has_prefix contains_unsafe
gate_next next =
    if not (has_prefix (slash ∷ []) next)
      || has_prefix (slash ∷ slash ∷ []) next
      || contains_unsafe next
    then slash ∷ []
    else next

unfoldable pub gate_mac : GateLibrary → Bytes → Bytes → Bytes
gate_mac lib password ts = lib.mac password (mac_prefix ++ ts)

unfoldable pub gate_token : GateLibrary → Bytes → ℤ → Bytes
unfolding gate_mac
gate_token lib password issued =
    let ts = lib.format_int issued in ts ++ (46 ∷ gate_mac lib password ts)

unfoldable pub gate_token_valid : GateLibrary → Bytes → Bytes → ℤ → Bool
unfolding cut gate_mac eq_bytes
gate_token_valid lib token password now = elim (cut 46 token) [
  | none ↦ false
  | some (ts, mac) ↦ elim (lib.parse_int ts) [
    | none ↦ false
    | some sec ↦
        let age = now -ℤ sec in
        if ltb_ℤ age (pos 0) || ltb_ℤ gate_max_age age
        then false
        else eq_bytes mac (gate_mac lib password ts)
  ]
]

-- The loop over the cookies.
unfoldable pub has_token : GateLibrary → Bytes → ℤ → List (Bytes × Bytes) → Bool
unfolding gate_token_valid eq_bytes
has_token lib password now [] = false
has_token lib password now ((name, value) ∷ cookies) =
    (eq_bytes name gate_cookie && gate_token_valid lib value password now)
    || has_token lib password now cookies

unfoldable pub gate_authorised : GateLibrary → GateRequest → Bytes → ℤ → Bool
unfolding has_token eq_bytes
gate_authorised lib r password now =
    if not (eq_bytes r.gate_header []) && eq_bytes r.gate_header password
    then true
    else has_token lib password now (lib.parse_cookies r.cookie_lines)

unfoldable pub matches_any : List Bytes → Bytes → Bool
unfolding eq_bytes has_prefix
matches_any [] p = false
matches_any (b ∷ bypass) p =
    eq_bytes p b || has_prefix (b ++ (slash ∷ [])) p || matches_any bypass p

unfoldable pub gate_bypassed : GateLibrary → List Bytes → Bytes → Bool
unfolding matches_any eq_bytes has_prefix
gate_bypassed lib bypass path =
    let p = lib.clean (slash ∷ path) in
    if eq_bytes p panel_path || has_prefix (panel_path ++ (slash ∷ [])) p
    then false
    else matches_any bypass p

-- The name of one part of a cookie line, trimmed.
abbrev pub cookie_name : Bytes → Bytes
cookie_name part = elim (cut 61 part) [ none ↦ part | some (name, _) ↦ name ]

abbrev pub is_kept : GateLibrary → Bytes → Bool
is_kept lib part =
    not (eq_bytes (cookie_name (lib.trim_space part)) gate_cookie)
    && not (eq_bytes (lib.trim_space part) [])

unfoldable pub keep_parts : GateLibrary → List Bytes → List Bytes
unfolding cut eq_bytes
keep_parts lib [] = []
keep_parts lib (part ∷ parts) =
    let rest = keep_parts lib parts in if is_kept lib part then lib.trim_space part ∷ rest else rest

unfoldable pub keep_lines : GateLibrary → List Bytes → List Bytes
unfolding keep_parts split_at
keep_lines lib [] = []
keep_lines lib (line ∷ lines) = keep_parts lib (split_at 59 line) ++ keep_lines lib lines

-- The one cookie line that is left, if any.
abbrev pub join_kept : List Bytes → List Bytes
join_kept [] = []
join_kept (part ∷ parts) = join_with (59 ∷ 32 ∷ []) (part ∷ parts) ∷ []

unfoldable pub strip_gate : GateLibrary → GateRequest → GateRequest
unfolding keep_lines join_with
strip_gate lib r = record r {
  gate_header = [];
  cookie_lines = join_kept (keep_lines lib r.cookie_lines);
}

unfoldable pub serve_gate : GateLibrary → GateRequest → Bytes → ℤ → GateAnswer
unfolding gate_next gate_token eq_bytes
serve_gate lib r password now =
    if (r.method == "GET") || (r.method == "HEAD")
    then GateAnswer.page 200 (gate_next r.query_next) false
    else if r.method == "POST"
    then elim r.form [
      | none ↦ GateAnswer.bad_form
      | some (given, next) ↦
          if not (eq_bytes given password)
          then GateAnswer.page 401 (gate_next next) true
          else GateAnswer.logged_in (gate_token lib password now) (gate_next next)
    ]
    else GateAnswer.not_allowed

-- `strings.TrimSuffix(s, "/")`
unfoldable pub trim_slash : Bytes → Bytes
trim_slash [] = []
trim_slash (b ∷ []) = if eqb b slash then [] else b ∷ []
trim_slash (b ∷ c ∷ bs) = b ∷ trim_slash (c ∷ bs)

unfoldable pub bypass_paths : GateLibrary → List Bytes → List Bytes
unfolding trim_slash eq_bytes
bypass_paths lib [] = []
bypass_paths lib (p ∷ bypass) =
    let rest = bypass_paths lib bypass in
    let p' = lib.trim_space p in
    if eq_bytes p' [] then rest else trim_slash (lib.clean (slash ∷ p')) ∷ rest

-- `NewGate` and the handler that it returns.
unfoldable pub new_gate : GateLibrary → Bytes → List Bytes → ℤ → GateRequest → GateAnswer
unfolding serve_gate gate_bypassed bypass_paths gate_authorised strip_gate eq_bytes
new_gate lib password bypass now r =
    if eq_bytes password []
    then GateAnswer.forwarded r
    else if eq_bytes r.path gate_path
    then serve_gate lib r password now
    else if gate_bypassed lib (bypass_paths lib bypass) r.path || gate_authorised lib r password now
    then GateAnswer.forwarded (strip_gate lib r)
    else if ((r.method == "GET") || (r.method == "HEAD")) && lib.contains r.accept html_type
    then GateAnswer.to_gate (gate_path ++ (next_query ++ lib.query_escape r.request_uri))
    else GateAnswer.unauthorized
