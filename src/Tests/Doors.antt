-- ===== src/Tests/Doors.antt =====
-- A gate, a store with one session, and a password.
use hamr.Base.{
  ℕ, String, Bool, true, false, subst, ◌∙◌, Option, none, some, [], ◌∷◌, ◌++◌, ◌≡◌, ◌⊎◌, ◌&&◌, inl,
  refl, arith, ◌==◌, eq_iff, eqb, Bool-cases, inr, if◌then◌else◌, ap, ◌+◌, ◌-◌, zero, suc,
}
use hamr.Base.Int.{ℤ, pos, ◌-ℤ◌, ◌+ℤ◌, leb_ℤ}
use hamr.Base.Lists.{length, append_nil}
use hamr.Base.Bytes.{Bytes, cut, eq_bytes}
use hamr.Gate.{
  GateLibrary, GateRequest, GateAnswer, slash, gate_cookie, gate_max_age, gate_next, gate_token,
  gate_token_valid, bypass_paths, strip_gate, new_gate,
}
use hamr.Gate.Guard.{IsLocal, IsAuthorised, IsBypassed, gate_next-IsLocal, new_gate-guards}
use hamr.Gate.Cookies.{IsTrim, IsStripped}
use hamr.Gate.Tokens.{gate_token_valid-gate_token}
use hamr.Auth.{
  Session, Found, SessionStore, IsStore, SessionManager, SessionAnswer, create_session,
  validate_session,
}
use hamr.Auth.Lifetime.{validate_session-validate_session}
use hamr.Auth.Password.{
  HashConfig, default_config, PasswordLibrary, IsPasswordLibrary, key_of, hash_password_with_config,
  check_password, needs_rehash, differs,
}
use hamr.Auth.Password.RoundTrip.{check_password-hash_password}

abbrev drop_spaces : Bytes → Bytes
drop_spaces [] = []
drop_spaces (b ∷ bs) = let rest = drop_spaces bs in if eqb b 32 then rest else b ∷ bs

drop_spaces_once : (s : Bytes) → drop_spaces (drop_spaces s) ≡ drop_spaces s
drop_spaces_once [] = refl
drop_spaces_once (b ∷ bs) = ground (arith, drop_spaces_once bs)

drop_spaces_inside : (s : Bytes) → (before after : Bytes) × (s ≡ before ++ (drop_spaces s ++ after))
drop_spaces_inside [] = ([], [], refl)
drop_spaces_inside (b ∷ bs) =
    let (before, after, whole) = drop_spaces_inside bs in
    elim (Bool-cases (eqb b 32)) [
      | inl y ↦ (b ∷ before, after, ground (arith, whole))
      | inr n ↦ ([], [], ground (arith, append_nil bs))
    ]

drop_spaces-IsTrim : IsTrim drop_spaces
drop_spaces-IsTrim = record {
  once = drop_spaces_once;
  space = λ s. refl;
  inside = drop_spaces_inside;
}

-- Texts whose spaces stand on the left, and numbers below ten as one digit.
abbrev gate_library : GateLibrary
gate_library = record {
  clean = λ path. path;
  trim_space = λ s. drop_spaces s;
  contains = λ s part. eq_bytes s part;
  parse_int = λ s. elim s [ [] ↦ none | b ∷ _ ↦ some (pos b) ];
  format_int = λ n. elim n [ pos k ↦ k ∷ [] | _ ↦ [] ];
  query_escape = λ s. s;
  parse_cookies = λ lines. [];
  mac = λ password text. password ++ text;
}

-- A request of `/a`, with a cookie of its own and one of the gate.
abbrev request : GateRequest
request = record {
  method = "GET";
  path = 47 ∷ 97 ∷ [];
  request_uri = 47 ∷ 97 ∷ [];
  accept = [];
  gate_header = 112 ∷ [];
  cookie_lines = ((97 ∷ 61 ∷ 98 ∷ 59 ∷ 32 ∷ []) ++ (gate_cookie ++ (61 ∷ 120 ∷ []))) ∷ [];
  query_next = [];
  form = none;
}

gate_next-IsLocal_example :
    IsLocal (gate_next (47 ∷ 47 ∷ 97 ∷ []))
    × ((gate_next (47 ∷ 47 ∷ 97 ∷ []) ≡ 47 ∷ 47 ∷ 97 ∷ [])
        ⊎ (gate_next (47 ∷ 47 ∷ 97 ∷ []) ≡ slash ∷ []))
gate_next-IsLocal_example = gate_next-IsLocal (47 ∷ 47 ∷ 97 ∷ [])

request_passes :
    new_gate gate_library (112 ∷ []) [] (pos 5) request
    ≡ GateAnswer.forwarded (strip_gate gate_library request)
unfolding new_gate
request_passes = refl

new_gate-guards_example :
    (IsAuthorised gate_library request (112 ∷ []) (pos 5)
      ⊎ IsBypassed gate_library (bypass_paths gate_library []) request.path)
    × IsStripped gate_library (strip_gate gate_library request)
new_gate-guards_example =
    new_gate-guards gate_library (112 ∷ []) [] (pos 5) request (strip_gate gate_library request)
      drop_spaces-IsTrim (λ e. absurd (ground arith)) request_passes

issue_plain : cut 46 (gate_library.format_int (pos 3)) ≡ none
unfolding cut
issue_plain = refl

gate_token_valid-gate_token_example :
    gate_token_valid gate_library (gate_token gate_library (112 ∷ []) (pos 3)) (112 ∷ []) (pos 5)
    ≡ (leb_ℤ (pos 0) (pos 5 -ℤ pos 3) && leb_ℤ (pos 5 -ℤ pos 3) gate_max_age)
gate_token_valid-gate_token_example =
    gate_token_valid-gate_token gate_library (112 ∷ []) (pos 3) (pos 5) refl issue_plain

-- A store that holds one session at most.
abbrev Held : Type 0
Held = Option (Session String)

abbrev find : String → Held → Found String
find token none = Found.missing
find token (some s) = if s.token == token then Found.found s else Found.missing

abbrev drop_id : String → Held → Held
drop_id id none = none
drop_id id (some s) = if s.id == id then none else some s

abbrev drop_subject : String → Held → Held
drop_subject subject none = none
drop_subject subject (some s) = if s.subject_id == subject then none else some s

abbrev extend : String → ℤ → Held → Held
extend id until none = none
extend id until (some s) = some (if s.id == id then record s { expires_at = until } else s)

abbrev one_store : SessionStore String Held
one_store = record {
  create = λ s held. (true, some s);
  get_by_token = λ token held. find token held;
  delete = λ id held. (true, drop_id id held);
  delete_by_subject_id = λ subject held. (true, drop_subject subject held);
  touch = some (λ id until held. (true, extend id until held));
}

extended :
    (s : Session String) (until : ℤ) (held : Held)
    → find s.token held ≡ Found.found s
    → find s.token (extend s.id until held) ≡ Found.found (record s { expires_at = until })
extended s until none e = absurd (ground arith)
extended s until (some t) e = elim (Bool-cases (t.token == s.token)) [
  | inl y ↦
      let same : t ≡ s = ground arith in
      rw same (ground (arith, eq_iff s.id s.id, eq_iff s.token s.token))
  | inr n ↦ absurd (ground arith)
]

abbrev call : String → ℤ → Held → Option (String → ℤ → Held → Bool × Held) → Bool × Held
call id until held none = (false, none)
call id until held (some touch) = touch id until held

touch_once :
    (touch : String → ℤ → Held → Bool × Held) (s : Session String) (until : ℤ) (held held' : Held)
    (ok : Bool)
    → one_store.touch ≡ some touch
    → find s.token held ≡ Found.found s
    → touch s.id until held ≡ (ok, held')
    → find s.token held' ≡ Found.found (if ok then record s { expires_at = until } else s)
touch_once touch s until held held' ok e here f =
    let same : (true, extend s.id until held) ≡ (ok, held') = ap (call s.id until held) e ∙ f in
    subst (λ x. find s.token x.1 ≡ Found.found (if x.0 then record s { expires_at = until } else s))
      same (extended s until held here)

one_store-IsStore : IsStore one_store
one_store-IsStore = record {
  create_get = λ s held held' e. ground (arith, eq_iff s.token s.token);
  touch_get = touch_once;
}

abbrev manager : SessionManager
manager = record { duration = pos 100; sliding_threshold = pos 10 }

abbrev opened : Session String
opened = record {
  id = "id_1";
  subject_id = "user_1";
  token = "t1";
  expires_at = pos 107;
  created_at = pos 7;
  metadata = "";
}

opening :
    create_session manager one_store (some "t1") "id_1" (pos 7) "user_1" "" none
    ≡ (SessionAnswer.session opened, some opened)
unfolding create_session ◌+ℤ◌
opening = refl

-- Validated at 50 and touched, so that it lives until 150.
validate_session-validate_session_example :
    ((validate_session manager one_store (λ _. pos 50) "t1" (some opened)).0
      ≡ SessionAnswer.session opened)
    × (pos 107 ≡ pos 7 +ℤ pos 100)
    × (opened.subject_id ≡ "user_1")
    × ((validate_session manager one_store
          (λ _. pos 120)
          "t1"
          (validate_session manager one_store (λ _. pos 50) "t1" (some opened)).1).0
        ≡ SessionAnswer.session (record opened { expires_at = pos 150 }))
unfolding ◌+ℤ◌ ◌-ℤ◌
validate_session-validate_session_example =
    validate_session-validate_session manager one_store one_store-IsStore (some "t1") "id_1" (pos 7)
      "user_1" "" none (some opened) opened (λ _. pos 50) (λ _. pos 120) opening (omega arith)

-- A library of passwords whose texts shift each number past the dollar sign.
abbrev shift : Bytes → Bytes
shift [] = []
shift (b ∷ bs) = (37 + b) ∷ shift bs

abbrev unshift : Bytes → Bytes
unshift [] = []
unshift (b ∷ bs) = (b - 37) ∷ unshift bs

abbrev pad : ℕ → Bytes → Bytes
pad zero bs = []
pad (suc n) [] = 0 ∷ pad n []
pad (suc n) (b ∷ bs) = b ∷ pad n bs

abbrev password_library : PasswordLibrary
password_library = record {
  id_key = λ password salt time memory threads size. pad size (password ++ salt);
  version = 19;
  encode = λ bytes. shift bytes;
  decode = λ text. some (unshift text);
  print_version = λ v. shift (v ∷ []);
  scan_version = λ text. elim text [ [] ↦ none | b ∷ _ ↦ some (b - 37) ];
  print_params = λ m t p. shift (m ∷ t ∷ p ∷ []);
  scan_params = λ text. elim text [ m ∷ t ∷ p ∷ [] ↦ some (m - 37, t - 37, p - 37) | _ ↦ none ];
}

shift-back : (bytes : Bytes) → unshift (shift bytes) ≡ bytes
shift-back [] = refl
shift-back (b ∷ bs) = ground (arith, shift-back bs)

shift-plain : (bytes : Bytes) → cut 36 (shift bytes) ≡ none
unfolding cut
shift-plain [] = refl
shift-plain (b ∷ bs) = ground (arith, shift-plain bs)

length-pad : (n : ℕ) (bytes : Bytes) → length (pad n bytes) ≡ n
length-pad zero bytes = refl
length-pad (suc n) [] = ground (arith, length-pad n [])
length-pad (suc n) (b ∷ bs) = ground (arith, length-pad n bs)

password_library-IsPasswordLibrary : IsPasswordLibrary password_library
unfolding cut
password_library-IsPasswordLibrary = record {
  version_back = ground arith;
  params_back = λ m t p. ground arith;
  bytes_back = λ bytes. ap some (shift-back bytes);
  version_plain = shift-plain (19 ∷ []);
  params_plain = λ m t p. shift-plain (m ∷ t ∷ p ∷ []);
  bytes_plain = shift-plain;
  key_sized = λ password salt time memory threads size. length-pad size (password ++ salt);
}

abbrev small_config : HashConfig
small_config = record { time = 1; memory = 8; parallelism = 1; key_length = 3; salt_length = 2 }

abbrev password : Bytes
password = 112 ∷ 119 ∷ []

abbrev salt : Bytes
salt = 5 ∷ 6 ∷ []

abbrev hashed : Bytes
unfolding hash_password_with_config
hashed = elim (hash_password_with_config password_library password small_config (some salt)) [
  | none ↦ []
  | some encoded ↦ encoded
]

hashing : hash_password_with_config password_library password small_config (some salt) ≡ some hashed
unfolding hash_password_with_config
hashing = refl

check_password-hash_password_example :
    (check_password password_library (113 ∷ []) hashed
      ≡ some (
          eq_bytes
            (key_of password_library small_config password salt)
            (key_of password_library small_config (113 ∷ []) salt)))
    × (check_password password_library password hashed ≡ some true)
    × (needs_rehash password_library hashed ≡ some (differs small_config default_config))
check_password-hash_password_example =
    check_password-hash_password password_library password_library-IsPasswordLibrary small_config
      password (113 ∷ []) salt hashed (omega arith) (omega arith) refl hashing
