-- ===== src/Auth/Password/RoundTrip.antt =====
-- A hash that is made is one that is read (pkg/auth/auth.go).
use hamr.Base.{true, none, some, List, [], ◌∷◌, ◌++◌, ◌%◌, ◌^◌, ◌<◌, ◌≡◌, arith, refl, sym, ap, ◌∙◌}
use hamr.Base.Lists.{length}
use hamr.Base.Bytes.{Bytes, eq_bytes, eq_bytes_refl, cut, split_at, split_at-part, split_at-last}
use hamr.Auth.Password.{
  HashConfig, default_config, PasswordLibrary, IsPasswordLibrary, algorithm, key_of,
  hash_password_with_config, decode_phc, check_password, needs_rehash, differs,
}

module _ (lib : PasswordLibrary) (laws : IsPasswordLibrary lib) where
  -- A part in front of a text that is split.
  part :
      (first rest : Bytes) (parts : List Bytes)
      → cut 36 first ≡ none
      → split_at 36 rest ≡ parts
      → split_at 36 (first ++ (36 ∷ rest)) ≡ first ∷ parts
  part first rest parts plain e = split_at-part 36 first rest plain ∙ ap (λ ps. first ∷ ps) e

  made_parts :
      (cfg : HashConfig) (password salt encoded : Bytes)
      → hash_password_with_config lib password cfg (some salt) ≡ some encoded
      → split_at 36 encoded
        ≡ []
          ∷ algorithm
          ∷ lib.print_version lib.version
          ∷ lib.print_params cfg.memory cfg.time cfg.parallelism
          ∷ lib.encode salt
          ∷ lib.encode (key_of lib cfg password salt)
          ∷ []
  unfolding hash_password_with_config cut
  made_parts cfg password salt encoded e =
      let key = lib.encode (key_of lib cfg password salt) in
      let params = lib.print_params cfg.memory cfg.time cfg.parallelism in
      let s5 = split_at-last 36 key (laws.bytes_plain (key_of lib cfg password salt)) in
      let s4 = part (lib.encode salt) key (key ∷ []) (laws.bytes_plain salt) s5 in
      let s3 =
        part params (lib.encode salt ++ (36 ∷ key)) (lib.encode salt ∷ key ∷ [])
          (laws.params_plain cfg.memory cfg.time cfg.parallelism) s4 in
      let s2 =
        part (lib.print_version lib.version) (params ++ (36 ∷ (lib.encode salt ++ (36 ∷ key))))
          (params ∷ lib.encode salt ∷ key ∷ []) laws.version_plain s3 in
      let s1 =
        part algorithm
          (lib.print_version lib.version
            ++ (36 ∷ (params ++ (36 ∷ (lib.encode salt ++ (36 ∷ key))))))
          (lib.print_version lib.version ∷ params ∷ lib.encode salt ∷ key ∷ []) refl s2 in
      let same : 36
            ∷ (algorithm
                ++ (36
                    ∷ (lib.print_version lib.version
                        ++ (36 ∷ (params ++ (36 ∷ (lib.encode salt ++ (36 ∷ key))))))))
          ≡ encoded =
        ground arith in
      ap (split_at 36) (sym same)
      ∙ part []
          (algorithm
            ++ (36
                ∷ (lib.print_version lib.version
                    ++ (36 ∷ (params ++ (36 ∷ (lib.encode salt ++ (36 ∷ key))))))))
          (algorithm ∷ lib.print_version lib.version ∷ params ∷ lib.encode salt ∷ key ∷ []) refl s1

  made_phc :
      (cfg : HashConfig) (password salt encoded : Bytes)
      → cfg.key_length < 2 ^ 32
      → cfg.salt_length < 2 ^ 32
      → length salt ≡ cfg.salt_length
      → hash_password_with_config lib password cfg (some salt) ≡ some encoded
      → decode_phc lib encoded ≡ some (cfg, salt, key_of lib cfg password salt)
  unfolding decode_phc
  made_phc cfg password salt encoded small small_salt sized e =
      let key = key_of lib cfg password salt in
      let parts = made_parts cfg password salt encoded e in
      let size = laws.key_sized password salt cfg.time cfg.memory cfg.parallelism cfg.key_length in
      let key_fits : length key % 2 ^ 32 ≡ cfg.key_length = omega (arith, size, small) in
      let salt_fits : length salt % 2 ^ 32 ≡ cfg.salt_length = omega (arith, sized, small_salt) in
      ground (
        arith,
        parts,
        laws.version_back,
        laws.params_back cfg.memory cfg.time cfg.parallelism,
        laws.bytes_back salt,
        laws.bytes_back key,
        key_fits,
        salt_fits,
      )

  -- A password whose hash `HashPasswordWithConfig` makes, with a configuration and a salt of the length
  -- that it asks for: `CheckPassword` accepts a password with the hash exactly when Argon2 derives the
  -- same key from it, so the password itself is accepted, and `NeedsRehash` tells whether the
  -- configuration differs from the default one.
  pub check_password-hash_password :
      (cfg : HashConfig) (password given salt encoded : Bytes)
      → cfg.key_length < 2 ^ 32
      → cfg.salt_length < 2 ^ 32
      → length salt ≡ cfg.salt_length
      → hash_password_with_config lib password cfg (some salt) ≡ some encoded
      → (check_password lib given encoded
          ≡ some (eq_bytes (key_of lib cfg password salt) (key_of lib cfg given salt)))
        × (check_password lib password encoded ≡ some true)
        × (needs_rehash lib encoded ≡ some (differs cfg default_config))
  unfolding check_password needs_rehash
  check_password-hash_password cfg password given salt encoded small small_salt sized e =
      let read = made_phc cfg password salt encoded small small_salt sized e in
      (
        rw (read, check_password) refl,
        rw (read, check_password) (ap some (eq_bytes_refl (key_of lib cfg password salt))),
        rw (read, needs_rehash) refl,
      )
