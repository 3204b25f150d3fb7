-- ===== src/Auth/Password.antt =====
-- Password hashes in the PHC format (pkg/auth/auth.go), as bytes.
pub mod RoundTrip
use hamr.Base.{
  ℕ, Bool, true, false, not, ◌&&◌, ◌||◌, Option, none, some, List, [], ◌∷◌, ◌++◌, ◌%◌, ◌^◌, ◌≡◌,
  eqb, if◌then◌else◌,
}
use hamr.Base.Lists.{length}
use hamr.Base.Bytes.{Bytes, eq_bytes, cut, split_at}

pub record HashConfig : Type 0 where
  pub time : ℕ
  pub memory : ℕ
  pub parallelism : ℕ
  pub key_length : ℕ
  pub salt_length : ℕ

abbrev pub default_config : HashConfig
default_config = record {
  time = 3;
  memory = 65536;
  parallelism = 2;
  key_length = 32;
  salt_length = 16;
}

-- Packages that the code calls: `id_key password salt time memory threads length` is `argon2.IDKey`
-- (which panics when time or threads is 0, so that both are positive),
-- with `argon2.Version`; the base64 is the raw standard encoding; `print_version` and `print_params`
-- are `fmt.Sprintf` of "v=%d" and of "m=%d,t=%d,p=%d" and the other two `fmt.Sscanf` of them.
pub record PasswordLibrary : Type 0 where
  pub id_key : Bytes → Bytes → ℕ → ℕ → ℕ → ℕ → Bytes
  pub version : ℕ
  pub encode : Bytes → Bytes
  pub decode : Bytes → Option Bytes
  pub print_version : ℕ → Bytes
  pub scan_version : Bytes → Option ℕ
  pub print_params : ℕ → ℕ → ℕ → Bytes
  pub scan_params : Bytes → Option (ℕ × ℕ × ℕ)

-- What they document: what is printed is scanned back and what is encoded is decoded, none of these
-- texts has a dollar sign, and a key has the length asked for.
pub record IsPasswordLibrary (lib : PasswordLibrary) : Type 0 where
  pub version_back : lib.scan_version (lib.print_version lib.version) ≡ some lib.version
  pub params_back :
      (memory time threads : ℕ)
      → lib.scan_params (lib.print_params memory time threads) ≡ some (memory, time, threads)
  pub bytes_back : (bytes : Bytes) → lib.decode (lib.encode bytes) ≡ some bytes
  pub version_plain : cut 36 (lib.print_version lib.version) ≡ none
  pub params_plain :
      (memory time threads : ℕ) → cut 36 (lib.print_params memory time threads) ≡ none
  pub bytes_plain : (bytes : Bytes) → cut 36 (lib.encode bytes) ≡ none
  pub key_sized :
      (password salt : Bytes) (time memory threads size : ℕ)
      → length (lib.id_key password salt time memory threads size) ≡ size

-- `argon2id`
abbrev pub algorithm : Bytes
algorithm = 97 ∷ 114 ∷ 103 ∷ 111 ∷ 110 ∷ 50 ∷ 105 ∷ 100 ∷ []

abbrev pub key_of : PasswordLibrary → HashConfig → Bytes → Bytes → Bytes
key_of lib cfg password salt =
    lib.id_key password salt cfg.time cfg.memory cfg.parallelism cfg.key_length

-- `HashPasswordWithConfig`; the salt is what `rand.Read` draws, or `none` for its error.
unfoldable pub hash_password_with_config :
    PasswordLibrary → Bytes → HashConfig → Option Bytes → Option Bytes
hash_password_with_config lib password cfg salt = elim salt [
  | none ↦ none
  | some drawn ↦ some (
      36
      ∷ (algorithm
          ++ (36
              ∷ (lib.print_version lib.version
                  ++ (36
                      ∷ (lib.print_params cfg.memory cfg.time cfg.parallelism
                          ++ (36
                              ∷ (lib.encode drawn
                                  ++ (36 ∷ lib.encode (key_of lib cfg password drawn))))))))))
]

-- The parts of a hash, when there are six of them: the third and those after it.
abbrev pub six_parts : List Bytes → Option (Bytes × Bytes × Bytes × Bytes)
six_parts (a ∷ b ∷ version ∷ params ∷ salt ∷ hash ∷ []) = some (version, params, salt, hash)
six_parts _ = none

unfoldable pub decode_phc : PasswordLibrary → Bytes → Option (HashConfig × Bytes × Bytes)
unfolding split_at
decode_phc lib encoded = elim (six_parts (split_at 36 encoded)) [
  | none ↦ none
  | some (version, params, salt, hash) ↦ elim (lib.scan_version version) [
    | none ↦ none
    | some v ↦ elim (lib.scan_params params) [
      | none ↦ none
      | some (memory, time, parallelism) ↦ elim (lib.decode salt) [
        | none ↦ none
        | some salt' ↦ elim (lib.decode hash) [
          | none ↦ none
          | some hash' ↦
              if not (eqb v lib.version)
              then none
              else some (
                record {
                  time = time;
                  memory = memory;
                  parallelism = parallelism;
                  key_length = length hash' % 2 ^ 32;
                  salt_length = length salt' % 2 ^ 32;
                },
                salt',
                hash',
              )
        ]
      ]
    ]
  ]
]

unfoldable pub check_password : PasswordLibrary → Bytes → Bytes → Option Bool
unfolding decode_phc eq_bytes
check_password lib password encoded = elim (decode_phc lib encoded) [
  | none ↦ none
  | some (cfg, salt, hash) ↦ some (eq_bytes hash (key_of lib cfg password salt))
]

abbrev pub differs : HashConfig → HashConfig → Bool
differs a b =
    not (eqb a.time b.time)
    || not (eqb a.memory b.memory)
    || not (eqb a.parallelism b.parallelism)
    || not (eqb a.key_length b.key_length)
    || not (eqb a.salt_length b.salt_length)

unfoldable pub needs_rehash : PasswordLibrary → Bytes → Option Bool
unfolding decode_phc
needs_rehash lib encoded = elim (decode_phc lib encoded) [
  | none ↦ none
  | some (cfg, _, _) ↦ some (differs cfg default_config)
]
