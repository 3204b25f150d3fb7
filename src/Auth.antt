-- ===== src/Auth.antt =====
-- Sessions (pkg/auth/session.go): the manager, over any store that keeps what the interface
-- `SessionStore` says. Times and durations are in nanoseconds.
pub mod Lifetime
pub mod Password
use hamr.Base.{
  ℕ, String, Bool, true, false, ◌&&◌, Option, none, some, ◌==◌, ◌≡◌, ◌≢◌, if◌then◌else◌,
}
use hamr.Base.Int.{ℤ, pos, ◌+ℤ◌, ◌-ℤ◌, ltb_ℤ}

pub record Session (M : Type 0) : Type 0 where
  pub id : String
  pub subject_id : String
  pub token : String
  pub expires_at : ℤ
  pub created_at : ℤ
  pub metadata : M

-- What `GetByToken` returns: an error, `(nil, nil)`, or a session.
pub data Found (M : Type 0) : Type 0 where
  broken : Found M
  missing : Found M
  found : Session M → Found M

-- The interface `SessionStore`, over the states of a store. A call returns whether it succeeded, and
-- the state it leaves. `touch` is `none` when the store is no `SessionToucher`.
pub record SessionStore (M : Type 0) (S : Type 0) : Type 0 where
  pub create : Session M → S → Bool × S
  pub get_by_token : String → S → Found M
  pub delete : String → S → Bool × S
  pub delete_by_subject_id : String → S → Bool × S
  pub touch : Option (String → ℤ → S → Bool × S)

-- What a session store keeps: a created session is found by its token; and a session that is touched is
-- still found by its token, with the new expiry if the call succeeded and as it was if not.
pub record IsStore {M : Type 0} {S : Type 0} (store : SessionStore M S) : Type 0 where
  pub create_get :
      (s : Session M) (st st' : S)
      → store.create s st ≡ (true, st')
      → store.get_by_token s.token st' ≡ Found.found s
  pub touch_get :
      (touch : String → ℤ → S → Bool × S) (s : Session M) (until : ℤ) (st st' : S) (ok : Bool)
      → store.touch ≡ some touch
      → store.get_by_token s.token st ≡ Found.found s
      → touch s.id until st ≡ (ok, st')
      → store.get_by_token s.token st'
        ≡ Found.found (if ok then record s { expires_at = until } else s)

pub record SessionManager : Type 0 where
  pub duration : ℤ
  pub sliding_threshold : ℤ

-- The answers of the manager: an error, `(nil, nil)`, or a session.
pub data SessionAnswer (M : Type 0) : Type 0 where
  failed : SessionAnswer M
  no_session : SessionAnswer M
  session : Session M → SessionAnswer M

module _ {M : Type 0} {S : Type 0} (m : SessionManager) (store : SessionStore M S) where
  -- `CreateSession`; the token is that of `GenerateToken`, or `none` for its error, and the id that of
  -- `uuid.New`.
  unfoldable pub create_session : Option String → String → ℤ → String → M → S → SessionAnswer M × S
  create_session token id now subject metadata st = elim token [
    | none ↦ (SessionAnswer.failed, st)
    | some t ↦
        let s : Session M = record {
          id = id;
          subject_id = subject;
          token = t;
          expires_at = now +ℤ m.duration;
          created_at = now;
          metadata = metadata;
        } in
        let (ok, st') = store.create s st in
        if ok then (SessionAnswer.session s, st') else (SessionAnswer.failed, st')
  ]

  -- The sliding refresh; its error is only logged.
  unfoldable pub refresh : Session M → ℤ → S → S
  refresh s now st = elim store.touch [
    | none ↦ st
    | some touch ↦ (touch s.id (now +ℤ m.duration) st).1
  ]

  -- `ValidateSession`; the clock is read up to three times.
  unfoldable pub validate_session : (ℕ → ℤ) → String → S → SessionAnswer M × S
  unfolding refresh
  validate_session clock token st = elim (store.get_by_token token st) [
    | Found.broken ↦ (SessionAnswer.failed, st)
    | Found.missing ↦ (SessionAnswer.no_session, st)
    | Found.found s ↦
        if ltb_ℤ s.expires_at (clock 0)
        then (SessionAnswer.no_session, (store.delete s.id st).1)
        else if ltb_ℤ (pos 0) m.sliding_threshold
            && ltb_ℤ m.sliding_threshold (clock 1 -ℤ s.created_at)
        then (SessionAnswer.session s, refresh s (clock 2) st)
        else (SessionAnswer.session s, st)
  ]

  -- `DeleteSession` and `DeleteSubjectSessions`.
  unfoldable pub delete_session : String → S → Bool × S
  delete_session id st = store.delete id st

  unfoldable pub delete_subject_sessions : String → S → Bool × S
  delete_subject_sessions subject st = store.delete_by_subject_id subject st
