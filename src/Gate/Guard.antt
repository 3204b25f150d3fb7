-- ===== src/Gate/Guard.antt =====
-- What passes the gate, and where it sends a browser (internal/devserver/gate.go).
use hamr.Base.{
  ℕ, true, false, not, ◌&&◌, ◌||◌, some, List, [], ◌∷◌, ◌++◌, ◌≡◌, ◌≢◌, ◌≤◌, ◌⊎◌, arith, inl, inr,
  Option-cases, Bool-cases, refl, sym, ◌∙◌, ap, subst,
}
use hamr.Base.Int.{ℤ, pos, ◌-ℤ◌, ◌≤ℤ◌, ltb_ℤ}
use hamr.Base.Lists.{All}
use hamr.Base.Bytes.{
  Bytes, has_prefix, eq_bytes, cut, eq_bytes-eq, eq_bytes_refl, has_prefix-rest, has_prefix-append,
  cut-whole,
}
use hamr.Gate.Cookies.{IsTrim, IsStripped, strip_gate-IsStripped}
use hamr.Gate.{
  GateLibrary, GateRequest, GateAnswer, slash, panel_path, gate_path, gate_cookie, gate_max_age,
  contains_unsafe, gate_next, gate_mac, mac_prefix, gate_token_valid, has_token, gate_authorised,
  matches_any, gate_bypassed, bypass_paths, strip_gate, serve_gate, new_gate,
}

-- A byte that no browser drops or reads as a slash.
abbrev pub IsPlain : ℕ → Type 0
IsPlain b = (b ≢ 92) × (32 ≤ b) × (b ≢ 127)

-- A path on the same origin: it starts with one slash and no more.
abbrev pub IsLocal : Bytes → Type 0
IsLocal url =
    (rest : Bytes) × (url ≡ slash ∷ rest)
    × ((rest ≡ []) ⊎ ((b : ℕ) × (bs : Bytes) × (rest ≡ b ∷ bs) × (b ≢ slash)))
    × All IsPlain url

contains_unsafe-IsPlain : (url : Bytes) → contains_unsafe url ≡ false → All IsPlain url
unfolding contains_unsafe
contains_unsafe-IsPlain [] e = tt
contains_unsafe-IsPlain (b ∷ bs) e = (ground arith, contains_unsafe-IsPlain bs (ground arith))

local :
    (url : Bytes)
    → has_prefix (slash ∷ []) url ≡ true
    → has_prefix (slash ∷ slash ∷ []) url ≡ false
    → contains_unsafe url ≡ false
    → IsLocal url
unfolding has_prefix
local [] e f g = absurd (ground arith)
local (b ∷ []) e f g = ([], ground arith, inl refl, contains_unsafe-IsPlain (b ∷ []) g)
local (b ∷ c ∷ bs) e f g =
    (c ∷ bs, ground arith, inr (c, bs, refl, ground arith), contains_unsafe-IsPlain (b ∷ c ∷ bs) g)

-- The page after a login, for any `next` that the request names: it is a path on the same origin, which
-- starts with one slash and no more and has neither backslashes nor control characters; and it is
-- `next` itself or "/".
pub gate_next-IsLocal :
    (next : Bytes)
    → IsLocal (gate_next next) × ((gate_next next ≡ next) ⊎ (gate_next next ≡ slash ∷ []))
unfolding gate_next
gate_next-IsLocal next =
    elim (Bool-cases (
      not (has_prefix (slash ∷ []) next)
      || has_prefix (slash ∷ slash ∷ []) next
      || contains_unsafe next)) [
        | inl y ↦
            let e : gate_next next ≡ slash ∷ [] = ground arith in
            subst (λ url. IsLocal url × ((url ≡ next) ⊎ (url ≡ slash ∷ []))) (sym e)
              (([], refl, inl refl, ((omega arith, omega arith, omega arith), tt)), inr refl)
        | inr n ↦
            let e : gate_next next ≡ next = ground arith in
            subst (λ url. IsLocal url × ((url ≡ next) ⊎ (url ≡ slash ∷ []))) (sym e)
              (local next (ground arith) (ground arith) (ground arith), inl refl)
      ]

-- The path is the one that a bypass names, or goes on below it.
abbrev pub IsUnder : Bytes → Bytes → Type 0
IsUnder b p = (p ≡ b) ⊎ ((rest : Bytes) × (p ≡ (b ++ (slash ∷ [])) ++ rest))

abbrev pub UnderOne : List Bytes → Bytes → Type 0
UnderOne [] p = ⊥
UnderOne (b ∷ bypass) p = IsUnder b p ⊎ UnderOne bypass p

matches_any-UnderOne :
    (bypass : List Bytes) (p : Bytes) → matches_any bypass p ≡ true → UnderOne bypass p
unfolding matches_any
matches_any-UnderOne [] p e = absurd (ground arith)
matches_any-UnderOne (b ∷ bypass) p e = elim (Bool-cases (eq_bytes p b)) [
  | inl y ↦ inl (inl (eq_bytes-eq p b y))
  | inr n ↦ elim (Bool-cases (has_prefix (b ++ (slash ∷ [])) p)) [
    | inl y ↦ inl (inr (has_prefix-rest (b ++ (slash ∷ [])) p y))
    | inr m ↦ inr (matches_any-UnderOne bypass p (ground arith))
  ]
]

-- A cookie of the gate that carries a token of the password, no older than seven days.
abbrev pub HasToken : GateLibrary → Bytes → ℤ → List (Bytes × Bytes) → Type 0
HasToken lib password now [] = ⊥
HasToken lib password now ((name, value) ∷ cookies) =
    ((name ≡ gate_cookie)
      × ((ts : Bytes) × (sec : ℤ) × (value ≡ ts ++ (46 ∷ lib.mac password (mac_prefix ++ ts)))
          × (lib.parse_int ts ≡ some sec)
          × (pos 0 ≤ℤ (now -ℤ sec))
          × (now -ℤ sec) ≤ℤ gate_max_age))
    ⊎ HasToken lib password now cookies

token_valid :
    (lib : GateLibrary) (token password : Bytes) (now : ℤ)
    → gate_token_valid lib token password now ≡ true
    → (ts : Bytes) × (sec : ℤ) × (token ≡ ts ++ (46 ∷ lib.mac password (mac_prefix ++ ts)))
      × (lib.parse_int ts ≡ some sec)
      × (pos 0 ≤ℤ (now -ℤ sec))
      × (now -ℤ sec) ≤ℤ gate_max_age
unfolding gate_token_valid gate_mac
token_valid lib token password now e = elim (Option-cases (cut 46 token)) [
  | inl n ↦ absurd (ground arith)
  | inr ((ts, mac), f) ↦ elim (Option-cases (lib.parse_int ts)) [
    | inl n ↦ absurd (ground arith)
    | inr (sec, g) ↦
        elim (Bool-cases (ltb_ℤ (now -ℤ sec) (pos 0) || ltb_ℤ gate_max_age (now -ℤ sec))) [
          | inl y ↦ absurd (ground arith)
          | inr n ↦
              let same = eq_bytes-eq mac (lib.mac password (mac_prefix ++ ts)) (ground arith) in
              let whole = cut-whole 46 token ts mac f in
              (ts, sec, whole ∙ ap (λ m. ts ++ (46 ∷ m)) same, g, ground arith, ground arith)
        ]
  ]
]

has_token-HasToken :
    (lib : GateLibrary) (password : Bytes) (now : ℤ) (cookies : List (Bytes × Bytes))
    → has_token lib password now cookies ≡ true
    → HasToken lib password now cookies
unfolding has_token
has_token-HasToken lib password now [] e = absurd (ground arith)
has_token-HasToken lib password now ((name, value) ∷ cookies) e =
    elim (Bool-cases (eq_bytes name gate_cookie && gate_token_valid lib value password now)) [
      | inl y ↦ inl (
        eq_bytes-eq name gate_cookie (ground arith),
        token_valid lib value password now (ground arith),
      )
      | inr n ↦ inr (has_token-HasToken lib password now cookies (ground arith))
    ]

-- Who may pass: the password in the header, or a token in a cookie.
abbrev pub IsAuthorised : GateLibrary → GateRequest → Bytes → ℤ → Type 0
IsAuthorised lib r password now =
    (r.gate_header ≡ password) ⊎ HasToken lib password now (lib.parse_cookies r.cookie_lines)

authorised :
    (lib : GateLibrary) (r : GateRequest) (password : Bytes) (now : ℤ)
    → gate_authorised lib r password now ≡ true
    → IsAuthorised lib r password now
unfolding gate_authorised
authorised lib r password now e =
    elim (Bool-cases (not (eq_bytes r.gate_header []) && eq_bytes r.gate_header password)) [
      | inl y ↦ inl (eq_bytes-eq r.gate_header password (ground arith))
      | inr n ↦
          inr
            (has_token-HasToken lib password now (lib.parse_cookies r.cookie_lines) (ground arith))
    ]

-- What may pass without: a path below an entry of the bypass, and not the panel's.
abbrev pub IsBypassed : GateLibrary → List Bytes → Bytes → Type 0
IsBypassed lib bypass path =
    UnderOne bypass (lib.clean (slash ∷ path)) × (IsUnder panel_path (lib.clean (slash ∷ path)) → ⊥)

not_under :
    (b p : Bytes)
    → eq_bytes p b ≡ false
    → has_prefix (b ++ (slash ∷ [])) p ≡ false
    → IsUnder b p
    → ⊥
not_under b p e f (inl same) = ground (arith, eq_bytes_refl b)
not_under b p e f (inr (rest, same)) = ground (arith, has_prefix-append (b ++ (slash ∷ [])) rest)

bypassed :
    (lib : GateLibrary) (bypass : List Bytes) (path : Bytes)
    → gate_bypassed lib bypass path ≡ true
    → IsBypassed lib bypass path
unfolding gate_bypassed
bypassed lib bypass path e =
    let p = lib.clean (slash ∷ path) in
    elim (Bool-cases (eq_bytes p panel_path || has_prefix (panel_path ++ (slash ∷ [])) p)) [
      | inl y ↦ absurd (ground arith)
      | inr n ↦ (
        matches_any-UnderOne bypass p (ground arith),
        not_under panel_path p (ground arith) (ground arith),
      )
    ]

serve_gate-answers :
    (lib : GateLibrary) (r r' : GateRequest) (password : Bytes) (now : ℤ)
    → serve_gate lib r password now ≢ GateAnswer.forwarded r'
unfolding serve_gate
serve_gate-answers lib r r' password now e = elim (Option-cases r.form) [
  | inl n ↦ absurd (ground arith)
  | inr ((given, next), f) ↦ absurd (ground arith)
]

-- With a password set, a request that reaches the handler behind the gate is one that carries the
-- password in its header or an unexpired token of it in a cookie, or one whose cleaned path is named by
-- an entry of the bypass, on a segment boundary, and is not that of the panel or below it; and it goes
-- on without the gate's header, and with none of the gate's cookies: no part of a cookie line, split at
-- each semicolon and trimmed, is the name of the gate's cookie, alone or with a value after "=".
pub new_gate-guards :
    (lib : GateLibrary) (password : Bytes) (bypass : List Bytes) (now : ℤ) (r r' : GateRequest)
    → IsTrim lib.trim_space
    → password ≢ []
    → new_gate lib password bypass now r ≡ GateAnswer.forwarded r'
    → (IsAuthorised lib r password now ⊎ IsBypassed lib (bypass_paths lib bypass) r.path)
      × IsStripped lib r'
unfolding new_gate
new_gate-guards lib password bypass now r r' trims set e =
    elim (Bool-cases (eq_bytes password [])) [
      | inl y ↦ absurd (set (eq_bytes-eq password [] y))
      | inr n ↦ elim (Bool-cases (eq_bytes r.path gate_path)) [
        | inl y ↦ absurd (serve_gate-answers lib r r' password now (ground arith))
        | inr m ↦ elim (Bool-cases (gate_bypassed lib (bypass_paths lib bypass) r.path)) [
          | inl y ↦
              let same : strip_gate lib r ≡ r' = ground arith in
              (
                inr (bypassed lib (bypass_paths lib bypass) r.path y),
                subst (IsStripped lib) same (strip_gate-IsStripped lib trims r),
              )
          | inr k ↦ elim (Bool-cases (gate_authorised lib r password now)) [
            | inl y ↦
                let same : strip_gate lib r ≡ r' = ground arith in
                (
                  inl (authorised lib r password now y),
                  subst (IsStripped lib) same (strip_gate-IsStripped lib trims r),
                )
            | inr l ↦ absurd (ground arith)
          ]
        ]
      ]
    ]
