-- ===== src/Auth/Lifetime.antt =====
-- How long a session lives (pkg/auth/session.go).
use hamr.Base.{
  Bool, false, Option-cases, ℕ, String, true, Option, none, some, ◌≡◌, arith, inl, inr, Bool-cases,
  refl, sym, ap, if◌then◌else◌, ◌&&◌,
}
use hamr.Base.Int.{ℤ, pos, ◌+ℤ◌, ◌-ℤ◌, ◌≤ℤ◌, ltb_ℤ}
use hamr.Auth.{
  refresh, Session, Found, SessionStore, IsStore, SessionManager, SessionAnswer, create_session,
  validate_session,
}

module _ {M : Type 0} {S : Type 0} (m : SessionManager) (store : SessionStore M S)
    (laws : IsStore store) where
  validate_session-found :
      (clock : ℕ → ℤ) (st : S) (s : Session M)
      → store.get_by_token s.token st ≡ Found.found s
      → (validate_session m store clock s.token st).0 ≡ (
          if ltb_ℤ s.expires_at (clock 0)
          then SessionAnswer.no_session
          else SessionAnswer.session s)
  unfolding validate_session
  validate_session-found clock st s here = elim (Bool-cases (ltb_ℤ s.expires_at (clock 0))) [
    | inl y ↦ rw (here, y, validate_session) refl
    | inr n ↦
        elim (Bool-cases (
          ltb_ℤ (pos 0) m.sliding_threshold
          && ltb_ℤ m.sliding_threshold (clock 1 -ℤ s.created_at))) [
            | inl y ↦ rw (here, n, y, validate_session) refl
            | inr k ↦ rw (here, n, k, validate_session) refl
          ]
  ]

  -- When a session that is validated ends: the time of a sliding refresh plus the duration, if the
  -- session is older than the threshold and the store could touch it, and else as before.
  abbrev pub expiry_after : (ℕ → ℤ) → Session M → S → ℤ
  expiry_after clock s st =
      if ltb_ℤ (pos 0) m.sliding_threshold && ltb_ℤ m.sliding_threshold (clock 1 -ℤ s.created_at)
      then elim store.touch [
        | none ↦ s.expires_at
        | some touch ↦
            if (touch s.id (clock 2 +ℤ m.duration) st).0
            then clock 2 +ℤ m.duration
            else s.expires_at
      ]
      else s.expires_at

  touched :
      (clock : ℕ → ℤ) (st : S) (s : Session M) (touch : String → ℤ → S → Bool × S)
      → store.touch ≡ some touch
      → store.get_by_token s.token st ≡ Found.found s
      → store.get_by_token s.token (touch s.id (clock 2 +ℤ m.duration) st).1
        ≡ Found.found (record s {
          expires_at =
              if (touch s.id (clock 2 +ℤ m.duration) st).0
              then clock 2 +ℤ m.duration
              else s.expires_at;
        })
  touched clock st s touch e here =
      let result = touch s.id (clock 2 +ℤ m.duration) st in
      elim (Bool-cases result.0) [
        | inl y ↦
            rw y (
              laws.touch_get touch s (clock 2 +ℤ m.duration) st result.1 true e here (ground arith))
        | inr n ↦
            rw n (
              laws.touch_get touch s (clock 2 +ℤ m.duration) st result.1 false e here
                (ground arith))
      ]

  -- A live session is found again after it is validated.
  validated-found :
      (clock : ℕ → ℤ) (st : S) (s : Session M)
      → store.get_by_token s.token st ≡ Found.found s
      → ltb_ℤ s.expires_at (clock 0) ≡ false
      → store.get_by_token s.token (validate_session m store clock s.token st).1
        ≡ Found.found (record s { expires_at = expiry_after clock s st })
  unfolding validate_session refresh
  validated-found clock st s here live =
      elim (Bool-cases (
        ltb_ℤ (pos 0) m.sliding_threshold && ltb_ℤ m.sliding_threshold (clock 1 -ℤ s.created_at))) [
          | inr k ↦ rw (here, live, k, validate_session) here
          | inl y ↦ elim (Option-cases store.touch) [
            | inl n ↦ rw (here, live, y, validate_session, n, refresh) here
            | inr (touch, e) ↦
                rw (here, live, y, validate_session, e, refresh) (touched clock st s touch e here)
          ]
        ]

  -- The first `ValidateSession` of a session that `CreateSession` returned.
  validate_session-create_session :
      (token : Option String) (id : String) (now : ℤ) (subject : String) (metadata : M) (st st' : S)
      (s : Session M) (clock : ℕ → ℤ)
      → create_session m store token id now subject metadata st ≡ (SessionAnswer.session s, st')
      → ((validate_session m store clock s.token st').0 ≡ (
          if ltb_ℤ s.expires_at (clock 0)
          then SessionAnswer.no_session
          else SessionAnswer.session s))
        × (s.expires_at ≡ now +ℤ m.duration)
        × (s.subject_id ≡ subject)
        × (store.get_by_token s.token st' ≡ Found.found s)
  unfolding create_session validate_session
  validate_session-create_session none id now subject metadata st st' s clock e =
      absurd (ground arith)
  validate_session-create_session (some t) id now subject metadata st st' s clock e =
      let made : Session M = record {
        id = id;
        subject_id = subject;
        token = t;
        expires_at = now +ℤ m.duration;
        created_at = now;
        metadata = metadata;
      } in
      elim (Bool-cases (store.create made st).0) [
        | inr n ↦ absurd (ground arith)
        | inl y ↦
            let same : made ≡ s = ground arith in
            let stored : store.create s st ≡ (true, st') = ground arith in
            let here = laws.create_get s st st' stored in
            (
              validate_session-found clock st' s here,
              ap (λ x. x.expires_at) (sym same),
              ap (λ x. x.subject_id) (sym same),
              here,
            )
      ]

  -- A session that `CreateSession` returns ends after the manager's duration. A `ValidateSession` of
  -- its token that comes no later returns it as it was created. The one after that, with any clock,
  -- returns no session once the session's end is past, and until then the session with that end: the
  -- time of the sliding refresh that the first one made plus the duration, if it made one and the store
  -- could touch the session, and the end that it was created with if not.
  pub validate_session-validate_session :
      (token : Option String) (id : String) (now : ℤ) (subject : String) (metadata : M) (st st' : S)
      (s : Session M) (clock clock' : ℕ → ℤ)
      → create_session m store token id now subject metadata st ≡ (SessionAnswer.session s, st')
      → clock 0 ≤ℤ (now +ℤ m.duration)
      → ((validate_session m store clock s.token st').0 ≡ SessionAnswer.session s)
        × (s.expires_at ≡ now +ℤ m.duration)
        × (s.subject_id ≡ subject)
        × ((validate_session m store clock' s.token
              (validate_session m store clock s.token st').1).0
            ≡ (if ltb_ℤ (expiry_after clock s st') (clock' 0)
                then SessionAnswer.no_session
                else SessionAnswer.session (record s { expires_at = expiry_after clock s st' })))
  validate_session-validate_session token id now subject metadata st st' s clock clock' e in_time =
      let (first, ends, owner, here) =
        validate_session-create_session token id now subject metadata st st' s clock e in
      let live : ltb_ℤ s.expires_at (clock 0) ≡ false = ground (arith, ends, in_time) in
      (
        ground (arith, first, live),
        ends,
        owner,
        validate_session-found clock' (validate_session m store clock s.token st').1
            (record s { expires_at = expiry_after clock s st' })
            (validated-found clock st' s here live),
      )
